-- ===== src/Common/Words.antt =====
-- Integers of a fixed width: a value is a number, and an operation that can leave the range is
-- given the first number out of range. `absent` is the `None` of the checked operations.
use Prim.Native.Nat.{ℕ, ◌+◌, ◌-◌, ◌*◌, ◌/◌, ◌^◌, ◌≤◌, ◌<◌}
use mathlib.Core.Path.{◌≡◌}
use native.Mathlib.Omega.{arith}
use snails_contracts.Common.Tests.{ltb, leb, ◌==◌, if◌then◌else◌}
use snails_contracts.Common.Outcome.{Result, ok, absent}

abbrev pub u8 : ℕ
u8 = 2 ^ 8

abbrev pub u32 : ℕ
u32 = 2 ^ 32

abbrev pub u64 : ℕ
u64 = 2 ^ 64

abbrev pub u128 : ℕ
u128 = 2 ^ 128

abbrev pub u192 : ℕ
u192 = 2 ^ 192

abbrev pub u256 : ℕ
u256 = 2 ^ 256

abbrev pub u576 : ℕ
u576 = 2 ^ 576

unfoldable pub checked_add : ℕ → ℕ → ℕ → Result ℕ
checked_add w a b = if ltb (a + b) w then ok (a + b) else absent

unfoldable pub checked_sub : ℕ → ℕ → Result ℕ
checked_sub a b = if leb b a then ok (a - b) else absent

unfoldable pub checked_mul : ℕ → ℕ → ℕ → Result ℕ
checked_mul w a b = if ltb (a * b) w then ok (a * b) else absent

unfoldable pub checked_div : ℕ → ℕ → Result ℕ
checked_div a b = if b == 0 then absent else ok (a / b)

-- `to_u128`, `to_u192`: a value that fits the narrower type.
unfoldable pub narrow : ℕ → ℕ → Result ℕ
narrow w a = if ltb a w then ok a else absent

-- What a successful operation has computed.
pub checked_add-ok : (w a b : ℕ) {r : ℕ} → checked_add w a b ≡ ok r → (r ≡ a + b) × (r < w)
unfolding checked_add
checked_add-ok w a b h = ground arith

pub checked_sub-ok : (a b : ℕ) {r : ℕ} → checked_sub a b ≡ ok r → r + b ≡ a
unfolding checked_sub
checked_sub-ok a b h = ground arith

pub checked_mul-ok : (w a b : ℕ) {r : ℕ} → checked_mul w a b ≡ ok r → (r ≡ a * b) × (r < w)
unfolding checked_mul
checked_mul-ok w a b h = ground arith

pub checked_div-ok : (a b : ℕ) {r : ℕ} → checked_div a b ≡ ok r → (r ≡ a / b) × (0 < b)
unfolding checked_div
checked_div-ok a b h = ground arith

pub narrow-ok : (w a : ℕ) {r : ℕ} → narrow w a ≡ ok r → (r ≡ a) × (r < w)
unfolding narrow
narrow-ok w a h = ground arith

-- When an operation succeeds.
pub checked_add_fits : (w a b : ℕ) → a + b < w → checked_add w a b ≡ ok (a + b)
unfolding checked_add
checked_add_fits w a b h = ground arith

pub checked_sub_fits : (a b : ℕ) → b ≤ a → checked_sub a b ≡ ok (a - b)
unfolding checked_sub
checked_sub_fits a b h = ground arith

pub checked_mul_fits : (w a b : ℕ) → a * b < w → checked_mul w a b ≡ ok (a * b)
unfolding checked_mul
checked_mul_fits w a b h = ground arith

pub checked_div_fits : (a b : ℕ) → 0 < b → checked_div a b ≡ ok (a / b)
unfolding checked_div
checked_div_fits a b h = ground arith

pub narrow_fits : (w a : ℕ) → a < w → narrow w a ≡ ok a
unfolding narrow
narrow_fits w a h = ground arith
