-- ===== src/Exchange/Curve/Deposit.antt =====
-- The deposit of coins: `add_liquidity` of snails_exchange/src/snails.rs.
pub mod Accounting
pub mod Shares
use snails_contracts.Common.{
  ℕ, ◌-◌, List, [], ◌∷◌, map, Bool, true, not, ltb, ◌==◌, if◌then◌else◌, replicate, Result, ok,
  panic, guard, expect, ◌>>=◌, ◌>>◌, Fault, checked_add, checked_sub, checked_mul, checked_div,
  narrow, u128, u192, u576,
}
use snails_contracts.Exchange.Fees.{Fees, normalized_trade_fee, admin_trade_fee}
use snails_contracts.Exchange.Curve.Ramp.{StableSwap, p_balances_convert}
use snails_contracts.Exchange.Curve.Invariant.{get_d}
use snails_contracts.Exchange.Curve.Status.{PoolStatus, pad}

-- The invariant of unconverted balances; the conversion is unwrapped.
unfoldable pub d_of : StableSwap → List ℕ → Result ℕ
d_of s balances = do
  p_balances ← expect Fault.unwrap_none (p_balances_convert s balances)
  get_d s p_balances

-- The first loop: the balances with the deposits; a first deposit must have every coin.
unfoldable pub add_deposits : ℕ → List ℕ → List ℕ → Result (List ℕ)
add_deposits supply [] deposits = ok []
add_deposits supply (b ∷ balances) [] = panic Fault.index_out_of_bounds
add_deposits supply (b ∷ balances) (a ∷ deposits) = do
  guard (if supply == 0 then ltb 0 a else true) Fault.assertion
  new_balance ← checked_add u128 b a
  rest ← add_deposits supply balances deposits
  ok (new_balance ∷ rest)

-- What the second loop writes for one coin.
pub record CoinDeposit : Type 0 where
  pub balance : ℕ
  pub balance_d : ℕ
  pub total_fee : ℕ
  pub admin_fee : ℕ

-- The distance of two numbers, as the methods compute it.
unfoldable pub difference : ℕ → ℕ → Result ℕ
difference a b = if ltb b a then checked_sub a b else checked_sub b a

unfoldable pub deposit_coin : StableSwap → Fees → ℕ → ℕ → ℕ → ℕ → ℕ → Result CoinDeposit
deposit_coin s fees d_0 d_1 slots balance new_balance = do
  guard (not (d_0 == 0)) Fault.assertion
  product ← checked_mul u576 d_1 balance
  quotient ← checked_div product d_0
  ideal_balance ← narrow u192 quotient
  gap ← difference ideal_balance new_balance
  diff_u128 ← narrow u128 gap
  total_fee ← normalized_trade_fee fees s.coin_num diff_u128
  guard (ltb 0 slots) Fault.index_out_of_bounds
  admin_fee ← admin_trade_fee fees total_fee
  kept ← checked_sub new_balance admin_fee
  restored ← checked_add u128 kept admin_fee
  balance_d ← checked_sub restored total_fee
  ok (record {
    balance = kept;
    balance_d = balance_d;
    total_fee = total_fee;
    admin_fee = admin_fee;
  })

-- The second loop: the old balances, then the new ones, which are as many.
unfoldable pub deposit_coins :
    StableSwap → Fees → ℕ → ℕ → ℕ → List ℕ → List ℕ → Result (List CoinDeposit)
deposit_coins s fees d_0 d_1 slots (b ∷ balances) (b' ∷ new_balances) = do
  coin ← deposit_coin s fees d_0 d_1 slots b b'
  rest ← deposit_coins s fees d_0 d_1 (slots - 1) balances new_balances
  ok (coin ∷ rest)
deposit_coins s fees d_0 d_1 slots _ _ = ok []

-- The shares that a deposit into a pool with shares mints.
unfoldable pub mint_amount : ℕ → ℕ → ℕ → Result ℕ
mint_amount supply d_0 d_2 = do
  growth ← checked_sub d_2 d_0
  product ← checked_mul u576 supply growth
  quotient ← checked_div product d_0
  narrow u128 quotient

-- From the invariant after the change to the end, for a pool with no shares.
unfoldable pub first_deposit : StableSwap → List ℕ → List ℕ → ℕ → Result PoolStatus
first_deposit s deposits new_balances d_1 = do
  mint_lp_amount ← narrow u128 d_1
  ok (record {
    pool_lp_token_changed = mint_lp_amount;
    pool_lp_changed_direction = true;
    recieved_amount = deposits;
    new_balances = new_balances;
    total_fee_amount = replicate s.coin_num 0;
    admin_fee_amount = replicate s.coin_num 0;
  })

-- The same for a pool with shares: the fees, the invariant without them, and the shares.
unfoldable pub later_deposit :
    StableSwap → Fees → ℕ → List ℕ → List ℕ → List ℕ → ℕ → ℕ → Result PoolStatus
later_deposit s fees supply deposits balances new_balances d_0 d_1 = do
  coins ← deposit_coins s fees d_0 d_1 s.coin_num balances new_balances
  d_2 ← d_of s (map (λ c. c.balance_d) coins)
  mint_lp_amount ← mint_amount supply d_0 d_2
  ok (record {
    pool_lp_token_changed = mint_lp_amount;
    pool_lp_changed_direction = true;
    recieved_amount = deposits;
    new_balances = map (λ c. c.balance) coins;
    total_fee_amount = pad s.coin_num (map (λ c. c.total_fee) coins);
    admin_fee_amount = pad s.coin_num (map (λ c. c.admin_fee) coins);
  })

unfoldable pub add_liquidity : StableSwap → List ℕ → List ℕ → ℕ → Fees → Result PoolStatus
add_liquidity s deposit_amounts balances total_token_supply fees = do
  d_0 ← if ltb 0 total_token_supply then d_of s balances else ok 0
  new_balances ← add_deposits total_token_supply balances deposit_amounts
  d_1 ← d_of s new_balances
  guard (ltb d_0 d_1) Fault.assertion
  if ltb 0 total_token_supply
      then later_deposit s fees total_token_supply deposit_amounts balances new_balances d_0 d_1
      else first_deposit s deposit_amounts new_balances d_1
