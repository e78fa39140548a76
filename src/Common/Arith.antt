-- ===== src/Common/Arith.antt =====
-- Products and quotients of numbers.
use Prim.Native.Nat.{ℕ, ◌+◌, ◌-◌, ◌*◌, ◌/◌, ◌≤◌, ◌<◌}
use mathlib.Core.Path.{◌≡◌, ap}
use native.Mathlib.Nat as Nat
use native.Mathlib.Omega.{arith}

pub mul-lt-mul : (a b x y : ℕ) → a < x → b < y → a * b < x * y
mul-lt-mul a b x y h k = grind arith

pub mul-le-mul : (a b x y : ℕ) → a ≤ x → b ≤ y → a * b ≤ x * y
mul-le-mul a b x y h k = grind arith

-- A quotient, times the divisor.
pub div-mul-le : (a d : ℕ) → a / d * d ≤ a
div-mul-le a d = Nat.div-mul-le_self a d

pub lt-div-mul-add : (a d : ℕ) → 0 < d → a < a / d * d + d
lt-div-mul-add a d h = Nat.lt-div-mul-add h

pub le-div : (k x d : ℕ) → 0 < d → x * d ≤ k → x ≤ k / d
le-div k x d h p = (Nat.le-div_iff_mul-le h).1 p

pub div-le : (a d b : ℕ) → a ≤ d * b → a / d ≤ b
div-le a d b h = Nat.div-le_of_le-mul d h

pub div_mono : (a b d : ℕ) → 0 < d → a ≤ b → a / d ≤ b / d
div_mono a b d h p = le-div b (a / d) d h (omega (arith, div-mul-le a d))

-- A share of at most the whole.
pub mul-div-le : (a n d : ℕ) → n ≤ d → a * n / d ≤ a
mul-div-le a n d h = div-le (a * n) d a (omega (arith, mul-le-mul a n a d (omega arith) h))

-- The quotients of two parts add up to at most the quotient of the whole.
pub div-add-le : (a b d : ℕ) → 0 < d → a / d + b / d ≤ (a + b) / d
div-add-le a b d h =
    le-div (a + b) (a / d + b / d) d h (omega (arith, div-mul-le a d, div-mul-le b d))

pub mul-div_cancel : (a d : ℕ) → 0 < d → a * d / d ≡ a
mul-div_cancel a d h = Nat.mul-div_cancel a h

pub lt_of_mul-lt-mul : (x b d : ℕ) → x * d < b * d → x < b
lt_of_mul-lt-mul x b d h = grind arith

pub mul-sub : (a b c : ℕ) → c ≤ b → a * (b - c) + a * c ≡ a * b
mul-sub a b c h = let e : b - c + c ≡ b = omega arith in omega (arith, ap (λ (t : ℕ). a * t) e)
