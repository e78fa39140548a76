-- ===== src/Exchange/Curve/Invariant/Balanced.antt =====
-- The invariant of a pool whose coins are in balance is the sum of its balances, and the rounds
-- end settled or use up their number.
use snails_contracts.Common.{
  ℕ, zero, suc, ◌+◌, ◌-◌, ◌*◌, ◌^◌, ◌<◌, ◌≤◌, ◌≡◌, refl, ap, replicate, Result, ok, arith, u64,
  u128, u192, u576, checked_mul_fits, checked_div_fits, checked_sub_fits, checked_add_fits,
  checked_sub, lt→ltb, pos→ne,
}
use snails_contracts.Common.Arith
use snails_contracts.Exchange.Curve.Ramp.{StableSwap, compute_amp_factor}
use snails_contracts.Exchange.Curve.Invariant.{
  compute_next_d, sum_balances, d_product, settled, d_step, rounds, d_from_sum, get_d,
}

denominator : (d ann n : ℕ) → 1 < ann → d * (ann - 1) + d * (n + 1) ≡ d * (ann + n)
denominator d zero n h = absurd (omega arith)
denominator d (suc k) n h = let e : suc k - 1 ≡ k = omega arith in rw e (omega arith)

-- A round at a pool in balance keeps the value.
compute_next_d_balanced :
    (n amp d : ℕ)
    → 2 ≤ n
    → n ≤ 3
    → 0 < amp
    → amp < u64
    → 0 < d
    → d < u192
    → compute_next_d n amp d d d ≡ ok d
unfolding compute_next_d
compute_next_d_balanced n amp d lo hi ha hw hd hD =
    let ann = amp * n in
    let ann_lt : ann < 2 ^ 66 = omega (arith, Arith.mul-lt-mul amp n u64 4 hw (omega arith)) in
    let ann_gt : 1 < ann = omega (arith, Arith.mul-le-mul 1 2 amp n ha lo) in
    let dn_lt : d * n < 2 ^ 194 = omega (arith, Arith.mul-lt-mul d n u192 4 hD (omega arith)) in
    let da_lt : d * ann < 2 ^ 258 = omega (arith, Arith.mul-lt-mul d ann u192 (2 ^ 66) hD ann_lt) in
    let weight_lt : d * n + d * ann < 2 ^ 259 = omega arith in
    let den : d * (ann - 1) + d * (n + 1) ≡ d * (ann + n) = denominator d ann n ann_gt in
    let num : d * (d * n + d * ann) ≡ d * (d * (ann + n)) = omega arith in
    rw
      (
        pos→ne amp ha,
        checked_mul_fits u128 amp n (omega arith),
        checked_mul_fits u576 d ann (omega arith),
        checked_mul_fits u576 d n (omega arith),
        checked_add_fits u576 (d * n) (d * ann) (omega arith),
        checked_mul_fits u576 d (d * n + d * ann)
            (omega (arith, Arith.mul-lt-mul d (d * n + d * ann) u192 (2 ^ 259) hD weight_lt)),
        lt→ltb 1 ann ann_gt,
        checked_sub_fits ann 1 (omega arith),
        checked_mul_fits u576 d (ann - 1) (omega arith),
        checked_add_fits u64 n 1 (omega arith),
        checked_mul_fits u576 d (n + 1) (omega arith),
        checked_add_fits u576 (d * (ann - 1)) (d * (n + 1)) (omega arith),
        den,
        num,
        checked_div_fits (d * (d * (ann + n))) (d * (ann + n))
            (omega (arith, Arith.mul-le-mul 1 1 d (ann + n) hd (omega arith))),
      )
      (ap ok (
        Arith.mul-div_cancel d (d * (ann + n))
          (omega (arith, Arith.mul-le-mul 1 1 d (ann + n) hd (omega arith)))))

-- Equal coins leave the product as it is.
d_product_balanced :
    (n b k : ℕ)
    → 0 < b
    → b < u128
    → 0 < n
    → n ≤ 3
    → d_product n (b * n) (b * n) (replicate k b) ≡ ok (b * n)
unfolding d_product
d_product_balanced n b zero pos small lo hi = refl
d_product_balanced n b (suc k) pos small lo hi =
    let d_lt : b * n < 2 ^ 130 = omega (arith, Arith.mul-lt-mul b n u128 4 small (omega arith)) in
    let d_gt : 0 < b * n = omega (arith, Arith.mul-le-mul 1 1 b n pos lo) in
    rw
      (
        checked_mul_fits u192 b n (omega arith),
        checked_mul_fits u576 (b * n) (b * n)
            (omega (arith, Arith.mul-lt-mul (b * n) (b * n) (2 ^ 130) (2 ^ 130) d_lt d_lt)),
        checked_div_fits (b * n * (b * n)) (b * n) d_gt,
        Arith.mul-div_cancel (b * n) (b * n) d_gt,
      )
      (d_product_balanced n b k pos small lo hi)

sum_balances-replicate :
    (acc b k : ℕ) → acc + b * k < u192 → sum_balances acc (replicate k b) ≡ ok (acc + b * k)
unfolding sum_balances
sum_balances-replicate acc b zero h = ap ok (omega arith)
sum_balances-replicate acc b (suc k) h =
    rw
      (
        checked_add_fits u192 acc b (omega arith),
        sum_balances-replicate (acc + b) b k (omega arith),
      )
      (ap ok (omega arith))

-- The rounds end at once at a value that a round keeps.
rounds_fixed : (left d : ℕ) (step : ℕ → Result ℕ) → step d ≡ ok d → rounds left step d ≡ ok d
unfolding rounds settled checked_sub
rounds_fixed zero d step h = refl
rounds_fixed (suc left) d step h = rw h (ground arith)

d_step_balanced :
    (n b amp : ℕ)
    → 2 ≤ n
    → n ≤ 3
    → 0 < b
    → b < u128
    → 0 < amp
    → amp < u64
    → d_step n amp (b * n) (replicate n b) (b * n) ≡ ok (b * n)
unfolding d_step
d_step_balanced n b amp lo hi pos small a_pos a_small =
    rw (d_product_balanced n b n pos small (omega arith) hi) (
      compute_next_d_balanced n amp (b * n) lo hi a_pos a_small
        (omega (arith, Arith.mul-le-mul 1 1 b n pos (omega arith)))
        (omega (arith, Arith.mul-lt-mul b n u128 4 small (omega arith))))

-- In a pool of two or three coins with one positive converted balance, each below 2^128, when the
-- amplification coefficient of the moment is computed, positive and below 2^64, the invariant is
-- computed without a failure, and it is the sum of the balances.
pub get_d_balanced :
    (s : StableSwap) (b amp : ℕ)
    → 2 ≤ s.coin_num
    → s.coin_num ≤ 3
    → 0 < b
    → b < u128
    → compute_amp_factor s ≡ ok amp
    → 0 < amp
    → amp < u64
    → get_d s (replicate s.coin_num b) ≡ ok (b * s.coin_num)
unfolding get_d d_from_sum
get_d_balanced s b amp lo hi pos small ha a_pos a_small =
    let n = s.coin_num in
    let d = b * n in
    let coins = replicate n b in
    let d_lt : d < 2 ^ 130 = omega (arith, Arith.mul-lt-mul b n u128 4 small (omega arith)) in
    let d_gt : 0 < d = omega (arith, Arith.mul-le-mul 1 1 b n pos (omega arith)) in
    let zero_d : 0 + d ≡ d = omega arith in
    rw (sum_balances-replicate 0 b n (omega arith), zero_d, pos→ne d d_gt, ha)
      (rounds_fixed 256 d (d_step n amp d coins)
        (d_step_balanced n b amp lo hi pos small a_pos a_small))
