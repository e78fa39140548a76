-- ===== src/Exchange/Fees/Bounds.antt =====
-- What the fee methods compute, and when they succeed.
use snails_contracts.Common.{
  ℕ, ◌-◌, ◌*◌, ◌/◌, ◌<◌, ◌≤◌, ◌≡◌, ok, arith, checked_mul-ok, checked_div-ok, narrow-ok,
  checked_mul_fits, checked_div_fits, checked_sub_fits, narrow_fits, >>=-eq-ok, u64, u128, u192,
  checked_mul, checked_div,
}
use snails_contracts.Common.Arith
use snails_contracts.Exchange.Fees.{
  Fees, share, admin_trade_fee, admin_withdraw_fee, trade_fee, withdraw_fee, normalized_trade_fee,
}

-- A successful share is the rounded-down proportion of the amount.
pub share-ok : (a n d : ℕ) {r : ℕ} → share a n d ≡ ok r → (r ≡ a * n / d) × (0 < d) × (r < u128)
unfolding share
share-ok a n d h =
    let (p, hp, h₁) = >>=-eq-ok (checked_mul u192 a n) _ h in
    let (q, hq, h₂) = >>=-eq-ok (checked_div p d) _ h₁ in
    ground (arith, checked_mul-ok u192 a n hp, checked_div-ok p d hq, narrow-ok u128 q h₂)

pub share_fits : (a n d : ℕ) → a < u128 → n ≤ d → n < u64 → 0 < d → share a n d ≡ ok (a * n / d)
unfolding share
share_fits a n d ha hn hw hd =
    rw
      (
        checked_mul_fits u192 a n (Arith.mul-lt-mul a n u128 u64 ha hw),
        checked_div_fits (a * n) d hd,
      )
      (narrow_fits u128 (a * n / d) (omega (arith, Arith.mul-div-le a n d hn)))

-- The rates of a schedule are proportions: no numerator is above its denominator, and no
-- denominator is zero.
pub record IsProportional (f : Fees) : Type 0 where
  pub admin_trade : f.admin_trade_fee_numerator ≤ f.admin_trade_fee_denominator
  pub admin_withdraw : f.admin_withdraw_fee_numerator ≤ f.admin_withdraw_fee_denominator
  pub trade : f.trade_fee_numerator ≤ f.trade_fee_denominator
  pub withdraw : f.withdraw_fee_numerator ≤ f.withdraw_fee_denominator
  pub admin_trade_pos : 0 < f.admin_trade_fee_denominator
  pub admin_withdraw_pos : 0 < f.admin_withdraw_fee_denominator
  pub trade_pos : 0 < f.trade_fee_denominator
  pub withdraw_pos : 0 < f.withdraw_fee_denominator
  pub admin_trade_u64 : f.admin_trade_fee_denominator < u64
  pub admin_withdraw_u64 : f.admin_withdraw_fee_denominator < u64
  pub trade_u64 : f.trade_fee_denominator < u64
  pub withdraw_u64 : f.withdraw_fee_denominator < u64

module _ (f : Fees) (proportional : IsProportional f) (amount : ℕ) where
  -- The share of a proportion is at most the amount.
  pub share-le : (n d : ℕ) {r : ℕ} → n ≤ d → share amount n d ≡ ok r → r ≤ amount
  share-le n d hn h = omega (arith, share-ok amount n d h, Arith.mul-div-le amount n d hn)

  pub trade_fee-le : {r : ℕ} → trade_fee f amount ≡ ok r → r ≤ amount
  unfolding trade_fee
  trade_fee-le h = share-le _ _ proportional.trade h

  pub withdraw_fee-le : {r : ℕ} → withdraw_fee f amount ≡ ok r → r ≤ amount
  unfolding withdraw_fee
  withdraw_fee-le h = share-le _ _ proportional.withdraw h

  pub admin_trade_fee-le : {r : ℕ} → admin_trade_fee f amount ≡ ok r → r ≤ amount
  unfolding admin_trade_fee
  admin_trade_fee-le h = share-le _ _ proportional.admin_trade h

  pub admin_withdraw_fee-le : {r : ℕ} → admin_withdraw_fee f amount ≡ ok r → r ≤ amount
  unfolding admin_withdraw_fee
  admin_withdraw_fee-le h = share-le _ _ proportional.admin_withdraw h

  -- On a 128-bit amount, under a proportional schedule, the four plain fees are computed without
  -- a failure, and each is the amount times its rate, rounded down.
  pub fees_total :
      amount < u128
      → (trade_fee f amount ≡ ok (amount * f.trade_fee_numerator / f.trade_fee_denominator))
        × (withdraw_fee f amount
            ≡ ok (amount * f.withdraw_fee_numerator / f.withdraw_fee_denominator))
        × (admin_trade_fee f amount
            ≡ ok (amount * f.admin_trade_fee_numerator / f.admin_trade_fee_denominator))
        × (admin_withdraw_fee f amount
            ≡ ok (amount * f.admin_withdraw_fee_numerator / f.admin_withdraw_fee_denominator))
  unfolding trade_fee withdraw_fee admin_trade_fee admin_withdraw_fee
  fees_total h = (
    share_fits _ _ _ h proportional.trade (omega arith) proportional.trade_pos,
    share_fits _ _ _ h proportional.withdraw (omega arith) proportional.withdraw_pos,
    share_fits _ _ _ h proportional.admin_trade (omega arith) proportional.admin_trade_pos,
    share_fits _ _ _ h proportional.admin_withdraw (omega arith) proportional.admin_withdraw_pos,
  )

-- Under a schedule of proportions (no fee's numerator is above its denominator, which is positive
-- and of 64 bits), in a pool of two or three coins and for an amount below 2^128, the normalised
-- fee and the plain trade fee are computed without a failure, if the numerator times the number of
-- coins fits 64 bits, and the normalised fee is at most the plain one.
pub normalized_trade_fee-le :
    (f : Fees) (n amount : ℕ)
    → IsProportional f
    → 2 ≤ n
    → n ≤ 3
    → amount < u128
    → f.trade_fee_numerator * n < u64
    → (r : ℕ) × (t : ℕ) × (normalized_trade_fee f n amount ≡ ok r)
      × (trade_fee f amount ≡ ok t)
      × (r ≤ t)
unfolding normalized_trade_fee trade_fee
normalized_trade_fee-le f n amount p lo hi ha fits =
    let num = f.trade_fee_numerator in
    let den = f.trade_fee_denominator in
    let adjusted = num * n / ((n - 1) * 4) in
    let scaled : num * n ≤ num * ((n - 1) * 4) =
      Arith.mul-le-mul num n num ((n - 1) * 4) (omega arith) (omega arith) in
    let small : adjusted ≤ num = Arith.div-le (num * n) ((n - 1) * 4) num (omega arith) in
    (
      amount * adjusted / den,
      amount * num / den,
      rw
          (
            checked_mul_fits u64 num n fits,
            checked_sub_fits n 1 (omega arith),
            checked_mul_fits u64 (n - 1) 4 (omega arith),
            checked_div_fits (num * n) ((n - 1) * 4) (omega arith),
          )
          (share_fits amount adjusted den ha (omega (arith, p.trade))
            (omega (arith, p.trade, p.trade_u64)) p.trade_pos),
      share_fits amount num den ha p.trade (omega (arith, p.trade, p.trade_u64)) p.trade_pos,
      Arith.div_mono (amount * adjusted) (amount * num) den p.trade_pos
          (Arith.mul-le-mul amount adjusted amount num (omega arith) small),
    )

-- The same with the bound that callers need.
module _ (f : Fees) (proportional : IsProportional f) (amount : ℕ) (fits : amount < u128) where
  pub withdraw_fee_total : (r : ℕ) × (withdraw_fee f amount ≡ ok r) × (r ≤ amount)
  withdraw_fee_total = (
    _,
    (fees_total f proportional amount fits).1,
    Arith.mul-div-le amount _ f.withdraw_fee_denominator proportional.withdraw,
  )

  pub admin_withdraw_fee_total : (r : ℕ) × (admin_withdraw_fee f amount ≡ ok r) × (r ≤ amount)
  admin_withdraw_fee_total = (
    _,
    (fees_total f proportional amount fits).3,
    Arith.mul-div-le amount _ f.admin_withdraw_fee_denominator proportional.admin_withdraw,
  )
