-- ===== src/Exchange/Curve/Swap.antt =====
-- The exchange of one coin for another: `get_y_raw`, `get_y`, `exchange` of
-- snails_exchange/src/snails.rs, and `get_y_d_raw`, `get_y_d`, which share their loops.
pub mod Accounting
use snails_contracts.Common.{
  ℕ, suc, ◌%◌, List, [], ◌∷◌, Option, none, some, not, ltb, ◌==◌, if◌then◌else◌, set, Result, ok,
  guard, index, ◌>>=◌, ◌>>◌, Fault, checked_add, checked_sub, checked_mul, checked_div, narrow, u8,
  u128, u192, u576,
}
use snails_contracts.Exchange.Fees.{Fees, trade_fee, admin_trade_fee}
use snails_contracts.Exchange.Curve.Ramp.{StableSwap, p_balances_convert, compute_amp_factor}
use snails_contracts.Exchange.Curve.Invariant.{get_d, rounds}

-- The indices `i_a` and `i_b` are those of the call.
pub record SwapResult : Type 0 where
  pub i_a : ℕ
  pub i_b : ℕ
  pub amount_a : ℕ
  pub amount_b : ℕ
  pub new_pool_a : ℕ
  pub new_pool_b : ℕ
  pub admin_fee : ℕ
  pub total_fee : ℕ

-- Which value coin `k` has in the sum of `get_y_raw`: the new one for coin `i`, none for coin `j`.
unfoldable pub known_coin : ℕ → ℕ → ℕ → ℕ → ℕ → Option ℕ
known_coin i j x k b = if k == i then some x else if not (k == j) then some b else none

-- The same for `get_y_d_raw`: every coin but `i`.
unfoldable pub other_coin : ℕ → ℕ → ℕ → Option ℕ
other_coin i k b = if not (k == i) then some b else none

-- The loop over the coins: `sum_` and `c`, from coin `k` on.
unfoldable pub coin_sums : ℕ → ℕ → (ℕ → ℕ → Option ℕ) → ℕ → List ℕ → ℕ → ℕ → Result (ℕ × ℕ)
coin_sums coin_num d value k [] sum c = ok (sum, c)
coin_sums coin_num d value k (b ∷ balances) sum c = elim (value k b) [
  | none ↦ coin_sums coin_num d value (suc k) balances sum c
  | some x ↦ do
    sum' ← checked_add u192 sum x
    product ← checked_mul u576 c d
    x_times_coins ← checked_mul u192 x coin_num
    c' ← checked_div product x_times_coins
    coin_sums coin_num d value (suc k) balances sum' c'
]

-- One round towards y: (y * y + c) / (2 * y + b - d).
unfoldable pub y_step : ℕ → ℕ → ℕ → ℕ → Result ℕ
y_step c b d y = do
  square ← checked_mul u576 y y
  y_numerator ← checked_add u576 square c
  double ← checked_mul u576 y 2
  with_b ← checked_add u576 double b
  y_denominator ← checked_sub with_b d
  checked_div y_numerator y_denominator

-- From the loop over the coins to the end of either method.
unfoldable pub solve_y : ℕ → ℕ → ℕ → (ℕ → ℕ → Option ℕ) → List ℕ → Result ℕ
solve_y coin_num ann d value balances = do
  (sum, c₀) ← coin_sums coin_num d value 0 balances 0 d
  product ← checked_mul u576 c₀ d
  ann_times_coins ← checked_mul u128 ann coin_num
  c ← checked_div product ann_times_coins
  quotient ← checked_div d ann
  b ← checked_add u576 quotient sum
  rounds 256 (y_step c b d) d

unfoldable pub get_y_raw : StableSwap → ℕ → ℕ → ℕ → List ℕ → Result ℕ
get_y_raw s i j x balances = do
  guard (not (i == j)) Fault.assertion
  guard (ltb i (s.coin_num % u8)) Fault.assertion
  guard (ltb j (s.coin_num % u8)) Fault.assertion
  amp_factor ← compute_amp_factor s
  ann ← checked_mul u128 amp_factor s.coin_num
  d ← get_d s balances
  solve_y s.coin_num ann d (known_coin i j x) balances

unfoldable pub get_y : StableSwap → ℕ → ℕ → ℕ → List ℕ → Result ℕ
get_y s i j x balances = do y ← get_y_raw s i j x balances; narrow u128 y

unfoldable pub get_y_d_raw : StableSwap → ℕ → List ℕ → ℕ → Result ℕ
get_y_d_raw s i balances d = do
  guard (ltb i (s.coin_num % u8)) Fault.assertion
  amp_factor ← compute_amp_factor s
  ann ← checked_mul u128 amp_factor s.coin_num
  solve_y s.coin_num ann d (other_coin i) balances

unfoldable pub get_y_d : StableSwap → ℕ → List ℕ → ℕ → Result ℕ
get_y_d s i balances d = do y ← get_y_d_raw s i balances d; narrow u128 y

-- What leaves the pool for the second coin, in its own precision.
pub record Payout : Type 0 where
  pub dy : ℕ
  pub dy_fee : ℕ
  pub admin_fee : ℕ

-- From the new balance of the second coin to the amounts without the common precision.
unfoldable pub exchange_payout : Fees → ℕ → ℕ → ℕ → Result Payout
exchange_payout fees p_j p_y rate_j = do
  p_gap ← checked_sub p_j p_y
  p_dy1 ← checked_sub p_gap 1
  p_dy_fee ← trade_fee fees p_dy1
  p_admin_fee ← admin_trade_fee fees p_dy_fee
  dy_fee ← checked_div p_dy_fee rate_j
  admin_fee ← checked_div p_admin_fee rate_j
  p_dy ← checked_sub p_dy1 p_dy_fee
  dy ← checked_div p_dy rate_j
  ok (record { dy = dy; dy_fee = dy_fee; admin_fee = admin_fee })

-- The new balances, and the report.
unfoldable pub exchange_result : ℕ → ℕ → ℕ → List ℕ → Payout → Result SwapResult
exchange_result i j dx balances payout = do
  b_i ← index balances i
  new_i ← checked_add u128 b_i dx
  b_j ← index balances j
  b_less ← checked_sub b_j payout.dy
  new_j ← checked_sub b_less payout.admin_fee
  let new_balances = set (set balances i new_i) j new_j
  new_pool_a ← index new_balances i
  new_pool_b ← index new_balances j
  ok (record {
    i_a = i;
    i_b = j;
    amount_a = dx;
    amount_b = payout.dy;
    new_pool_a = new_pool_a;
    new_pool_b = new_pool_b;
    admin_fee = payout.admin_fee;
    total_fee = payout.dy_fee;
  })

unfoldable pub exchange : StableSwap → ℕ → ℕ → ℕ → List ℕ → Fees → Result SwapResult
exchange s i j dx balances fees = do
  p_balances ← p_balances_convert s balances
  p_i ← index p_balances i
  rate_i ← index s.rates i
  p_dx ← checked_mul u128 dx rate_i
  p_x ← checked_add u128 p_i p_dx
  p_y ← get_y s i j p_x p_balances
  p_j ← index p_balances j
  rate_j ← index s.rates j
  payout ← exchange_payout fees p_j p_y rate_j
  exchange_result i j dx balances payout
