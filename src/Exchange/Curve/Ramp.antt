-- ===== src/Exchange/Curve/Ramp.antt =====
-- `SnailStableSwap` of snails_exchange/src/snails.rs: its parameters, the conversion of balances
-- to a common precision, and the amplification coefficient, which moves along a ramp.
pub mod Bounds
use snails_contracts.Common.{
  ℕ, List, [], ◌∷◌, ◌%◌, ◌&&◌, ltb, leb, if◌then◌else◌, length, Result, ok, panic, guard, ◌>>=◌,
  ◌>>◌, Fault, checked_add, checked_sub, checked_mul, checked_div, u64, u128,
}

pub record StableSwap : Type 0 where
  pub initial_amp_factor : ℕ
  pub target_amp_factor : ℕ
  pub current_ts : ℕ
  pub start_ramp_ts : ℕ
  pub stop_ramp_ts : ℕ
  pub rates : List ℕ
  pub coin_num : ℕ

unfoldable pub new : ℕ → ℕ → ℕ → ℕ → ℕ → List ℕ → Result StableSwap
new initial_amp_factor target_amp_factor current_ts start_ramp_ts stop_ramp_ts rates = do
  guard (leb (length rates) 3 && leb 2 (length rates)) Fault.coin_num_range
  ok (record {
    initial_amp_factor = initial_amp_factor;
    target_amp_factor = target_amp_factor;
    current_ts = current_ts;
    start_ramp_ts = start_ramp_ts;
    stop_ramp_ts = stop_ramp_ts;
    rates = rates;
    coin_num = length rates;
  })

-- The loop of `p_balances_convert`: the rates, then the balances.
unfoldable pub convert : List ℕ → List ℕ → Result (List ℕ)
convert _ [] = ok []
convert [] (b ∷ balances) = panic Fault.index_out_of_bounds
convert (r ∷ rates) (b ∷ balances) = do
  p ← checked_mul u128 b r
  rest ← convert rates balances
  ok (p ∷ rest)

unfoldable pub p_balances_convert : StableSwap → List ℕ → Result (List ℕ)
p_balances_convert s balances = convert s.rates balances

-- The part of the ramp that has passed, cast to 64 bits.
unfoldable pub amp_delta : ℕ → ℕ → ℕ → Result ℕ
amp_delta amp_range time_delta time_range = do
  product ← checked_mul u128 amp_range time_delta
  quotient ← checked_div product time_range
  ok (quotient % u64)

-- Where the target is not below the start, and where it is.
unfoldable pub ramp_up : StableSwap → ℕ → ℕ → Result ℕ
ramp_up s time_delta time_range = do
  amp_range ← checked_sub s.target_amp_factor s.initial_amp_factor
  delta ← amp_delta amp_range time_delta time_range
  checked_add u64 s.initial_amp_factor delta

unfoldable pub ramp_down : StableSwap → ℕ → ℕ → Result ℕ
ramp_down s time_delta time_range = do
  amp_range ← checked_sub s.initial_amp_factor s.target_amp_factor
  delta ← amp_delta amp_range time_delta time_range
  checked_sub s.initial_amp_factor delta

unfoldable pub ramp : StableSwap → Result ℕ
ramp s = do
  time_range ← checked_sub s.stop_ramp_ts s.start_ramp_ts
  time_delta ← checked_sub s.current_ts s.start_ramp_ts
  if leb s.initial_amp_factor s.target_amp_factor
      then ramp_up s time_delta time_range
      else ramp_down s time_delta time_range

unfoldable pub compute_amp_factor : StableSwap → Result ℕ
compute_amp_factor s = do
  guard (leb s.start_ramp_ts s.current_ts) Fault.assertion
  if ltb s.current_ts s.stop_ramp_ts then ramp s else ok s.target_amp_factor
