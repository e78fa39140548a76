-- ===== src/Exchange/Curve/Imbalance.antt =====
-- The withdrawal of chosen amounts: `remove_liquidity_imbalance` of
-- snails_exchange/src/snails.rs.
pub mod Accounting
pub mod Shares
use snails_contracts.Common.{
  ℕ, ◌-◌, List, [], ◌∷◌, ◌++◌, map, length, drop, false, ltb, ◌==◌, if◌then◌else◌, Result, ok,
  panic, guard, ◌>>=◌, ◌>>◌, Fault, checked_add, checked_sub, checked_mul, checked_div, narrow,
  u128, u576,
}
use snails_contracts.Exchange.Fees.{
  Fees, normalized_trade_fee, admin_trade_fee, withdraw_fee, admin_withdraw_fee,
}
use snails_contracts.Exchange.Curve.Ramp.{StableSwap, p_balances_convert}
use snails_contracts.Exchange.Curve.Invariant.{get_d}
use snails_contracts.Exchange.Curve.Status.{PoolStatus, pad}
use snails_contracts.Exchange.Curve.Deposit.{difference}

-- The invariant of unconverted balances.
unfoldable pub checked_d_of : StableSwap → List ℕ → Result ℕ
checked_d_of s balances = do p_balances ← p_balances_convert s balances; get_d s p_balances

-- The first loop: the balances without the amounts.
unfoldable pub take_amounts : List ℕ → List ℕ → Result (List ℕ)
take_amounts [] amounts = ok []
take_amounts (b ∷ balances) [] = panic Fault.index_out_of_bounds
take_amounts (b ∷ balances) (a ∷ amounts) = do
  new_balance ← checked_sub b a
  rest ← take_amounts balances amounts
  ok (new_balance ∷ rest)

-- What the loops write for one coin.
pub record CoinImbalance : Type 0 where
  pub removed : ℕ
  pub balance : ℕ
  pub balance_d : ℕ
  pub total_fee : ℕ
  pub admin_fee : ℕ

-- The two assertions on a fee and the part of it that is the owner's.
unfoldable pub check_admin_part : ℕ → ℕ → Fault → Result (Unit {0})
check_admin_part fee admin e = guard (if ltb 0 fee then ltb admin fee else admin == 0) e

-- One turn of the second loop.
unfoldable pub imbalance_coin : StableSwap → Fees → ℕ → ℕ → ℕ → ℕ → ℕ → ℕ → Result CoinImbalance
imbalance_coin s fees d_0 d_1 slots removed balance new_balance = do
  product ← checked_mul u576 balance d_1
  quotient ← checked_div product d_0
  ideal_balance ← narrow u128 quotient
  gap ← difference ideal_balance new_balance
  trade ← normalized_trade_fee fees s.coin_num gap
  guard (ltb 0 slots) Fault.index_out_of_bounds
  admin_trade ← admin_trade_fee fees trade
  check_admin_part trade admin_trade Fault.admin_trade_fee_error
  guard (ltb trade new_balance) Fault.trade_fee_shortage
  withdraw ← withdraw_fee fees removed
  admin_withdraw ← admin_withdraw_fee fees withdraw
  check_admin_part withdraw admin_withdraw Fault.admin_withdraw_fee_error
  total_fee ← checked_add u128 trade withdraw
  admin_fee ← checked_add u128 admin_trade admin_withdraw
  guard (ltb total_fee new_balance) Fault.withdraw_fee_shortage
  kept ← checked_sub new_balance admin_fee
  balance_d ← checked_sub new_balance total_fee
  ok (record {
    removed = removed;
    balance = kept;
    balance_d = balance_d;
    total_fee = total_fee;
    admin_fee = admin_fee;
  })

-- The second loop: the amounts, the old balances and the new ones, of one length.
unfoldable pub imbalance_coins :
    StableSwap → Fees → ℕ → ℕ → ℕ → List ℕ → List ℕ → List ℕ → Result (List CoinImbalance)
imbalance_coins s fees d_0 d_1 slots (a ∷ amounts) (b ∷ balances) (b' ∷ new_balances) = do
  coin ← imbalance_coin s fees d_0 d_1 slots a b b'
  rest ← imbalance_coins s fees d_0 d_1 (slots - 1) amounts balances new_balances
  ok (coin ∷ rest)
imbalance_coins s fees d_0 d_1 slots _ _ _ = ok []

-- One turn of the last loop: all is removed, and the liquidity providers' fee goes out too.
unfoldable pub drain_coin : CoinImbalance → Result CoinImbalance
drain_coin c = do
  lp_fee_amount ← checked_sub c.total_fee c.admin_fee
  removed ← checked_add u128 c.removed lp_fee_amount
  balance ← checked_sub c.balance lp_fee_amount
  guard (balance == 0) Fault.assertion
  ok (record c { removed = removed; balance = balance; total_fee = c.admin_fee })

unfoldable pub drain_coins : List CoinImbalance → Result (List CoinImbalance)
drain_coins [] = ok []
drain_coins (c ∷ coins) = do c' ← drain_coin c; rest ← drain_coins coins; ok (c' ∷ rest)

-- The shares to burn, one more than the rounded-down proportion.
unfoldable pub burn_amount : ℕ → ℕ → ℕ → Result ℕ
burn_amount supply d_0 d_2 = do
  shrink ← checked_sub d_0 d_2
  product ← checked_mul u576 shrink supply
  quotient ← checked_div product d_0
  burnt ← narrow u128 quotient
  checked_add u128 burnt 1

unfoldable pub remove_liquidity_imbalance :
    StableSwap → List ℕ → List ℕ → ℕ → Fees → Result PoolStatus
remove_liquidity_imbalance s remove_coin_amount balances total_token_supply fees = do
  d_0 ← checked_d_of s balances
  new_balances ← take_amounts balances remove_coin_amount
  d_1 ← checked_d_of s new_balances
  coins ← imbalance_coins s fees d_0 d_1 s.coin_num remove_coin_amount balances new_balances
  d_2 ← checked_d_of s (map (λ c. c.balance_d) coins)
  burn_token_amount ← burn_amount total_token_supply d_0 d_2
  guard (ltb 0 burn_token_amount) Fault.assertion
  final ← if d_2 == 0 then drain_coins coins else ok coins
  ok (record {
    pool_lp_token_changed = burn_token_amount;
    pool_lp_changed_direction = false;
    recieved_amount = map (λ c. c.removed) final ++ drop (length balances) remove_coin_amount;
    new_balances = map (λ c. c.balance) final;
    total_fee_amount = pad s.coin_num (map (λ c. c.total_fee) final);
    admin_fee_amount = pad s.coin_num (map (λ c. c.admin_fee) final);
  })
