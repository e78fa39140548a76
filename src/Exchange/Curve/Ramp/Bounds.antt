-- ===== src/Exchange/Curve/Ramp/Bounds.antt =====
-- The amplification coefficient along its ramp, and the conversion of balances.
use snails_contracts.Common.{
  ℕ, zero, suc, get_elem?, some, ◌+◌, ◌-◌, ◌*◌, ◌/◌, ◌<◌, ◌≤◌, ◌≡◌, refl, List, [], ◌∷◌, ok, arith,
  >>=-eq-ok, u64, u128, checked_mul, checked_mul-ok, checked_mul_fits, checked_div_fits,
  checked_sub_fits, checked_add_fits, if◌then◌else◌, leb, ltb, ◌⊎◌,
}
use native.Mathlib.Nat.{mod-eq_of_lt}
use snails_contracts.Common.Arith
use snails_contracts.Exchange.Curve.Ramp.{
  StableSwap, convert, p_balances_convert, amp_delta, ramp_up, ramp_down, ramp, compute_amp_factor,
}

-- The parameters are 64-bit integers, and the clock has reached the start of the ramp.
pub record IsStarted (s : StableSwap) : Type 0 where
  pub started : s.start_ramp_ts ≤ s.current_ts
  pub initial_u64 : s.initial_amp_factor < u64
  pub target_u64 : s.target_amp_factor < u64
  pub stop_u64 : s.stop_ramp_ts < u64

-- The part of a range at a time within the ramp.
pub amp_delta_lem :
    (range delta time : ℕ)
    → range < u64
    → delta < time
    → time < u64
    → amp_delta range delta time ≡ ok (range * delta / time)
unfolding amp_delta
amp_delta_lem range delta time hr hd ht =
    let small : range * delta / time < u64 =
      omega (arith, Arith.mul-div-le range delta time (omega arith)) in
    rw
      (
        checked_mul_fits u128 range delta (Arith.mul-lt-mul range delta u64 u64 hr (omega arith)),
        checked_div_fits (range * delta) time (omega arith),
        mod-eq_of_lt small,
      )
      refl

-- Linear interpolation between the two ends, rounded towards the first; after the stop, the
-- target.
unfoldable pub amp_at : StableSwap → ℕ
amp_at s =
    let passed = s.current_ts - s.start_ramp_ts in
    let range = s.stop_ramp_ts - s.start_ramp_ts in
    if ltb s.current_ts s.stop_ramp_ts
    then (if leb s.initial_amp_factor s.target_amp_factor
        then s.initial_amp_factor + (s.target_amp_factor - s.initial_amp_factor) * passed / range
        else s.initial_amp_factor - (s.initial_amp_factor - s.target_amp_factor) * passed / range)
    else s.target_amp_factor

module _ (s : StableSwap) (h : IsStarted s) where
  ramp_up_lem :
      s.current_ts < s.stop_ramp_ts
      → s.initial_amp_factor ≤ s.target_amp_factor
      → let passed = s.current_ts - s.start_ramp_ts in
        let range = s.stop_ramp_ts - s.start_ramp_ts in
        ramp_up s passed range
        ≡ ok (s.initial_amp_factor + (s.target_amp_factor - s.initial_amp_factor) * passed / range)
  unfolding ramp_up
  ramp_up_lem before up =
      let i = s.initial_amp_factor in
      let gap = s.target_amp_factor - i in
      let passed = s.current_ts - s.start_ramp_ts in
      let range = s.stop_ramp_ts - s.start_ramp_ts in
      rw
        (
          checked_sub_fits s.target_amp_factor i up,
          amp_delta_lem gap passed range (omega (arith, h.target_u64)) (omega (arith, h.started))
              (omega (arith, h.stop_u64)),
        )
        (checked_add_fits u64 i (gap * passed / range) (
          omega
            (arith, Arith.mul-div-le gap passed range (omega (arith, h.started)), h.target_u64)))

  ramp_down_lem :
      s.current_ts < s.stop_ramp_ts
      → s.target_amp_factor ≤ s.initial_amp_factor
      → let passed = s.current_ts - s.start_ramp_ts in
        let range = s.stop_ramp_ts - s.start_ramp_ts in
        ramp_down s passed range
        ≡ ok (s.initial_amp_factor - (s.initial_amp_factor - s.target_amp_factor) * passed / range)
  unfolding ramp_down
  ramp_down_lem before down =
      let i = s.initial_amp_factor in
      let gap = i - s.target_amp_factor in
      let passed = s.current_ts - s.start_ramp_ts in
      let range = s.stop_ramp_ts - s.start_ramp_ts in
      rw
        (
          checked_sub_fits i s.target_amp_factor down,
          amp_delta_lem gap passed range (omega (arith, h.initial_u64)) (omega (arith, h.started))
              (omega (arith, h.stop_u64)),
        )
        (checked_sub_fits i (gap * passed / range)
          (omega (arith, Arith.mul-div-le gap passed range (omega (arith, h.started)))))

  -- Once the ramp has started the coefficient is computed without a failure: it is the linear
  -- interpolation between the two ends, and the target from the stop on.
  pub compute_amp_factor-amp_at : compute_amp_factor s ≡ ok (amp_at s)
  unfolding compute_amp_factor ramp amp_at
  compute_amp_factor-amp_at = ground (
    arith,
    h.started,
    ramp_up_lem,
    ramp_down_lem,
    checked_sub_fits s.stop_ramp_ts s.start_ramp_ts,
    checked_sub_fits s.current_ts s.start_ramp_ts,
  )

  amp_at_bounds :
      (s.initial_amp_factor ≤ amp_at s) × (amp_at s ≤ s.target_amp_factor)
      ⊎ (s.target_amp_factor ≤ amp_at s) × (amp_at s ≤ s.initial_amp_factor)
  unfolding amp_at
  amp_at_bounds =
      let passed = s.current_ts - s.start_ramp_ts in
      let range = s.stop_ramp_ts - s.start_ramp_ts in
      ground (
        arith,
        h.started,
        Arith.mul-div-le (s.target_amp_factor - s.initial_amp_factor) passed range,
        Arith.mul-div-le (s.initial_amp_factor - s.target_amp_factor) passed range,
      )

  -- Once the ramp has started, the coefficient is computed without a failure and lies between the
  -- two ends.
  pub compute_amp_factor_bounds :
      (a : ℕ) × (compute_amp_factor s ≡ ok a)
      × ((s.initial_amp_factor ≤ a) × (a ≤ s.target_amp_factor)
          ⊎ (s.target_amp_factor ≤ a) × (a ≤ s.initial_amp_factor))
  compute_amp_factor_bounds = (amp_at s, compute_amp_factor-amp_at, amp_at_bounds)

-- On a rising ramp the coefficient never falls as time passes.
pub compute_amp_factor_mono :
    (s : StableSwap) (later : ℕ) {a b : ℕ}
    → IsStarted s
    → s.initial_amp_factor ≤ s.target_amp_factor
    → s.current_ts ≤ later
    → compute_amp_factor s ≡ ok a
    → compute_amp_factor (record s { current_ts = later }) ≡ ok b
    → a ≤ b
unfolding amp_at
compute_amp_factor_mono s later h up ge ha hb =
    let s' : StableSwap = record s { current_ts = later } in
    let h' : IsStarted s' = record {
      started = omega (arith, h.started);
      initial_u64 = h.initial_u64;
      target_u64 = h.target_u64;
      stop_u64 = h.stop_u64;
    } in
    let gap = s.target_amp_factor - s.initial_amp_factor in
    let range = s.stop_ramp_ts - s.start_ramp_ts in
    ground (
      arith,
      compute_amp_factor-amp_at s h,
      compute_amp_factor-amp_at s' h',
      Arith.mul-div-le gap (s.current_ts - s.start_ramp_ts) range,
      Arith.div_mono (gap * (s.current_ts - s.start_ramp_ts)) (gap * (later - s.start_ramp_ts))
          range,
      Arith.mul-le-mul gap (s.current_ts - s.start_ramp_ts) gap (later - s.start_ramp_ts),
    )

-- Every balance has a rate, and their product fits 128 bits.
abbrev pub Fits : List ℕ → List ℕ → Type 0
Fits [] [] = Unit {0}
Fits (r ∷ rates) [] = Unit {0}
Fits [] (b ∷ balances) = ⊥
Fits (r ∷ rates) (b ∷ balances) = (b * r < u128) × Fits rates balances

-- Every balance times the rate of its coin.
unfoldable pub scaled : List ℕ → List ℕ → List ℕ
scaled (r ∷ rates) (b ∷ balances) = b * r ∷ scaled rates balances
scaled _ _ = []

convert-Fits :
    (rates balances : List ℕ)
    → Fits rates balances
    → convert rates balances ≡ ok (scaled rates balances)
unfolding convert scaled
convert-Fits [] [] h = refl
convert-Fits (r ∷ rates) [] h = refl
convert-Fits [] (b ∷ balances) h = absurd h
convert-Fits (r ∷ rates) (b ∷ balances) h =
    rw (checked_mul_fits u128 b r h.0, convert-Fits rates balances h.1) refl

convert-ok :
    (rates balances : List ℕ) {ps : List ℕ}
    → convert rates balances ≡ ok ps
    → Fits rates balances × (ps ≡ scaled rates balances)
unfolding convert scaled
convert-ok [] [] h = ground arith
convert-ok (r ∷ rates) [] h = ground arith
convert-ok [] (b ∷ balances) h = cc
convert-ok (r ∷ rates) (b ∷ balances) h =
    let (p, hp, h₁) = >>=-eq-ok (checked_mul u128 b r) _ h in
    let (rest, hr, h₂) = >>=-eq-ok (convert rates balances) _ h₁ in
    ground (arith, checked_mul-ok u128 b r hp, convert-ok rates balances hr)

-- The conversion to the common precision succeeds exactly when every balance has a rate and each
-- product fits 128 bits, and it yields the products.
pub p_balances_convert-scaled :
    (s : StableSwap) (balances : List ℕ)
    → (Fits s.rates balances → p_balances_convert s balances ≡ ok (scaled s.rates balances))
      × ((ps : List ℕ)
          → p_balances_convert s balances ≡ ok ps
          → Fits s.rates balances × (ps ≡ scaled s.rates balances))
unfolding p_balances_convert
p_balances_convert-scaled s balances =
    (convert-Fits s.rates balances, λ ps. convert-ok s.rates balances)

-- A converted balance is the product of the balance and the rate of its coin.
pub get_elem?-scaled :
    (rates balances : List ℕ) (j : ℕ) {p b r : ℕ}
    → get_elem? (scaled rates balances) j ≡ some p
    → get_elem? balances j ≡ some b
    → get_elem? rates j ≡ some r
    → p ≡ b * r
unfolding scaled
get_elem?-scaled [] balances j hp hb hr = cc
get_elem?-scaled (r ∷ rates) [] j hp hb hr = cc
get_elem?-scaled (r ∷ rates) (b ∷ balances) zero hp hb hr = ground arith
get_elem?-scaled (r ∷ rates) (b ∷ balances) (suc j) hp hb hr =
    get_elem?-scaled rates balances j hp hb hr

pub p_balances_convert_get :
    (s : StableSwap) (balances ps : List ℕ) (j : ℕ) {p b r : ℕ}
    → p_balances_convert s balances ≡ ok ps
    → get_elem? ps j ≡ some p
    → get_elem? balances j ≡ some b
    → get_elem? s.rates j ≡ some r
    → p ≡ b * r
p_balances_convert_get s balances ps j h hp hb hr =
    get_elem?-scaled s.rates balances j (rw ((p_balances_convert-scaled s balances).1 ps h).1 at hp)
      hb hr
