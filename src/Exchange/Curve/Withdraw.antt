-- ===== src/Exchange/Curve/Withdraw.antt =====
-- The withdrawal of every coin in proportion: `remove_liquidity` of snails_exchange/src/snails.rs.
pub mod Accounting
pub mod Total
use snails_contracts.Common.{
  ℕ, ◌-◌, List, [], ◌∷◌, map, false, not, ltb, leb, ◌==◌, if◌then◌else◌, Result, ok, guard, ◌>>=◌,
  ◌>>◌, Fault, checked_sub, checked_mul, checked_div, narrow, u128, u256,
}
use snails_contracts.Exchange.Fees.{Fees, withdraw_fee, admin_withdraw_fee}
use snails_contracts.Exchange.Curve.Ramp.{StableSwap}
use snails_contracts.Exchange.Curve.Status.{PoolStatus, pad}

-- What the loop writes for one coin.
pub record CoinWithdrawal : Type 0 where
  pub recieved : ℕ
  pub balance : ℕ
  pub total_fee : ℕ
  pub admin_fee : ℕ

-- One turn of the loop; `slots` places of the fee vectors are left.
unfoldable pub withdraw_coin : Fees → ℕ → ℕ → ℕ → ℕ → Result CoinWithdrawal
withdraw_coin fees removed_lp_amount total_token_supply slots balance = do
  product ← checked_mul u256 balance removed_lp_amount
  quotient ← checked_div product total_token_supply
  value ← narrow u128 quotient
  total_fee ← withdraw_fee fees value
  guard (ltb 0 slots) Fault.index_out_of_bounds
  admin_fee ← admin_withdraw_fee fees total_fee
  recieved ←
      checked_sub value (if ltb removed_lp_amount total_token_supply then total_fee else admin_fee)
  less ← checked_sub balance recieved
  new_balance ← checked_sub less admin_fee
  ok (record {
    recieved = recieved;
    balance = new_balance;
    total_fee = total_fee;
    admin_fee = admin_fee;
  })

unfoldable pub withdraw_coins : Fees → ℕ → ℕ → ℕ → List ℕ → Result (List CoinWithdrawal)
withdraw_coins fees lp supply slots [] = ok []
withdraw_coins fees lp supply slots (b ∷ balances) = do
  coin ← withdraw_coin fees lp supply slots b
  rest ← withdraw_coins fees lp supply (slots - 1) balances
  ok (coin ∷ rest)

-- The report of a withdrawal, from what was written for the coins.
abbrev pub withdrawal_status : StableSwap → ℕ → List CoinWithdrawal → PoolStatus
withdrawal_status s removed_lp_amount coins = record {
  pool_lp_token_changed = removed_lp_amount;
  pool_lp_changed_direction = false;
  recieved_amount = pad s.coin_num (map (λ c. c.recieved) coins);
  new_balances = map (λ c. c.balance) coins;
  total_fee_amount = pad s.coin_num (map (λ c. c.total_fee) coins);
  admin_fee_amount = pad s.coin_num (map (λ c. c.admin_fee) coins);
}

unfoldable pub remove_liquidity : StableSwap → ℕ → List ℕ → ℕ → Fees → Result PoolStatus
remove_liquidity s removed_lp_amount balances total_token_supply fees = do
  guard (not (total_token_supply == 0)) Fault.assertion
  guard (leb removed_lp_amount total_token_supply) Fault.lp_exceeds_total
  coins ← withdraw_coins fees removed_lp_amount total_token_supply s.coin_num balances
  ok (withdrawal_status s removed_lp_amount coins)
