-- ===== src/Exchange/Curve/Invariant.antt =====
-- The invariant D of the curve: `compute_next_d`, `get_d` and `get_virtual_price` of
-- snails_exchange/src/snails.rs.
pub mod Balanced
use snails_contracts.Common.{
  ℕ, zero, suc, ◌+◌, List, [], ◌∷◌, Bool, true, false, not, ltb, leb, ◌==◌, if◌then◌else◌, Result,
  ok, guard, expect, ◌>>=◌, ◌>>◌, Fault, checked_add, checked_sub, checked_mul, checked_div, narrow,
  u64, u128, u192, u576,
}
use snails_contracts.Exchange.Curve.Ramp.{StableSwap, p_balances_convert, compute_amp_factor}

-- 1e24
abbrev pub precision : ℕ
precision = 1_000_000_000_000_000_000_000_000

unfoldable pub compute_next_d : ℕ → ℕ → ℕ → ℕ → ℕ → Result ℕ
compute_next_d coin_num amp_factor d_init d_prod sum_x = do
  guard (not (amp_factor == 0)) Fault.amp_zero
  ann ← checked_mul u128 amp_factor coin_num
  leverage ← checked_mul u576 sum_x ann
  scaled_prod ← checked_mul u576 d_prod coin_num
  weight ← checked_add u576 scaled_prod leverage
  numerator ← checked_mul u576 d_init weight
  guard (ltb 1 ann) Fault.ann_too_small
  ann_less ← checked_sub ann 1
  left ← checked_mul u576 d_init ann_less
  coins_more ← expect Fault.unwrap_none (checked_add u64 coin_num 1)
  right ← checked_mul u576 d_prod coins_more
  denominator ← checked_add u576 left right
  checked_div numerator denominator

-- `sum_x` of `get_d`, from a first value.
unfoldable pub sum_balances : ℕ → List ℕ → Result ℕ
sum_balances acc [] = ok acc
sum_balances acc (x ∷ xs) = do acc' ← checked_add u192 acc x; sum_balances acc' xs

-- The inner loop of `get_d`: `d_prod`, from a first value.
unfoldable pub d_product : ℕ → ℕ → ℕ → List ℕ → Result ℕ
d_product coin_num d acc [] = ok acc
d_product coin_num d acc (x ∷ xs) = do
  x_times_coins ← checked_mul u192 x coin_num
  product ← checked_mul u576 acc d
  acc' ← checked_div product x_times_coins
  d_product coin_num d acc' xs

-- The test that ends the rounds: two values that differ by one at most.
unfoldable pub settled : ℕ → ℕ → Result Bool
settled d d_prev =
    if ltb d_prev d
    then (do difference ← checked_sub d d_prev; ok (leb difference 1))
    else do difference ← checked_sub d_prev d; ok (leb difference 1)

-- One round of `get_d`, from the value before it.
unfoldable pub d_step : ℕ → ℕ → ℕ → List ℕ → ℕ → Result ℕ
d_step coin_num amp_factor sum_x p_balances d = do
  d_prod ← d_product coin_num d d p_balances
  compute_next_d coin_num amp_factor d d_prod sum_x

-- The rounds of `get_d` and of the two `get_y` methods: `step` is one round, and the first
-- argument is the number of rounds that are left.
unfoldable pub rounds : ℕ → (ℕ → Result ℕ) → ℕ → Result ℕ
rounds zero step d = ok d
rounds (suc left) step d = do
  d' ← step d
  done ← settled d' d
  elim done [ true ↦ ok d' | false ↦ rounds left step d' ]

-- The branch of `get_d` for a pool that is not empty.
unfoldable pub d_from_sum : StableSwap → List ℕ → ℕ → Result ℕ
d_from_sum s p_balances sum_x = do
  amp_factor ← compute_amp_factor s
  rounds 256 (d_step s.coin_num amp_factor sum_x p_balances) sum_x

unfoldable pub get_d : StableSwap → List ℕ → Result ℕ
get_d s p_balances = do
  sum_x ← sum_balances 0 p_balances
  if sum_x == 0 then ok 0 else d_from_sum s p_balances sum_x

unfoldable pub get_virtual_price : StableSwap → List ℕ → ℕ → Result ℕ
get_virtual_price s balances total_token_supply = do
  p_balances ← expect Fault.unwrap_none (p_balances_convert s balances)
  d ← get_d s p_balances
  product ← checked_mul u576 d precision
  price ← checked_div product total_token_supply
  narrow u128 price
