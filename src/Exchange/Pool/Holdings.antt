-- ===== src/Exchange/Pool/Holdings.antt =====
-- How much of a token a list of amounts holds that runs beside a list of tokens, such as the
-- balances of a pool or the amounts that a withdrawal pays out.
pub mod Coins
pub mod Methods
pub mod OneCoin
pub mod Swaps
use snails_contracts.Common.{
  ℕ, zero, suc, ◌+◌, ◌≤◌, ◌≡◌, ◌≢◌, refl, sym, ap, ◌∙◌, List, [], ◌∷◌, ◌==◌, if◌then◌else◌, length,
  get_elem?, set, some, arith, ◌<◌, replicate,
}
use snails_contracts.Exchange.Curve.Ledger.{Splits, Gathers}

unfoldable pub amount_of : List ℕ → List ℕ → ℕ → ℕ
amount_of [] amounts k = 0
amount_of (token ∷ tokens) [] k = 0
amount_of (token ∷ tokens) (amount ∷ amounts) k =
    (if k == token then amount else 0) + amount_of tokens amounts k

-- Only the places of the tokens count.
pub amount_of_agree :
    (tokens xs ys : List ℕ) (k : ℕ)
    → ((j : ℕ) → j < length tokens → get_elem? xs j ≡ get_elem? ys j)
    → amount_of tokens xs k ≡ amount_of tokens ys k
unfolding amount_of
amount_of_agree [] xs ys k same = refl
amount_of_agree (t ∷ tokens) [] [] k same = refl
amount_of_agree (t ∷ tokens) [] (y ∷ ys) k same = absurd (ground (arith, same 0 (omega arith)))
amount_of_agree (t ∷ tokens) (x ∷ xs) [] k same = absurd (ground (arith, same 0 (omega arith)))
amount_of_agree (t ∷ tokens) (x ∷ xs) (y ∷ ys) k same =
    let e : x ≡ y = ground (arith, same 0 (omega arith)) in
    let rest = amount_of_agree tokens xs ys k λ j lt. same (suc j) (omega (arith, lt)) in
    rw (e, rest) refl

-- Where each balance is split, so is what the balances hold of a token.
pub amount_of-Splits :
    (tokens balances new_balances paid fees : List ℕ) (k : ℕ)
    → Splits balances new_balances paid fees
    → length tokens ≤ length balances
    → amount_of tokens new_balances k + amount_of tokens paid k + amount_of tokens fees k
      ≤ amount_of tokens balances k
unfolding amount_of
amount_of-Splits [] balances ns ps fs k h le = omega arith
amount_of-Splits (t ∷ tokens) (b ∷ balances) (n ∷ ns) (p ∷ ps) (f ∷ fs) k h le =
    ground (arith, h.0, amount_of-Splits tokens balances ns ps fs k h.1 (omega (arith, le)))
amount_of-Splits (t ∷ tokens) [] ns ps fs k h le = absurd (omega (arith, le))
amount_of-Splits (t ∷ tokens) (b ∷ balances) (n ∷ ns) [] fs k h le = absurd h
amount_of-Splits (t ∷ tokens) (b ∷ balances) (n ∷ ns) (p ∷ ps) [] k h le = absurd h
amount_of-Splits (t ∷ tokens) (b ∷ balances) [] ps fs k h le = absurd h

pub amount_of-Gathers :
    (tokens balances new_balances deposits fees : List ℕ) (k : ℕ)
    → Gathers balances new_balances deposits fees
    → length tokens ≤ length balances
    → amount_of tokens new_balances k + amount_of tokens fees k
      ≤ amount_of tokens balances k + amount_of tokens deposits k
unfolding amount_of
amount_of-Gathers [] balances ns ps fs k h le = omega arith
amount_of-Gathers (t ∷ tokens) (b ∷ balances) (n ∷ ns) (p ∷ ps) (f ∷ fs) k h le =
    ground (arith, h.0, amount_of-Gathers tokens balances ns ps fs k h.1 (omega (arith, le)))
amount_of-Gathers (t ∷ tokens) [] ns ps fs k h le = absurd (omega (arith, le))
amount_of-Gathers (t ∷ tokens) (b ∷ balances) (n ∷ ns) [] fs k h le = absurd h
amount_of-Gathers (t ∷ tokens) (b ∷ balances) (n ∷ ns) (p ∷ ps) [] k h le = absurd h
amount_of-Gathers (t ∷ tokens) (b ∷ balances) [] ps fs k h le = absurd h

pub amount_of-set :
    (tokens xs : List ℕ) (i v k : ℕ) {t x : ℕ}
    → get_elem? tokens i ≡ some t
    → get_elem? xs i ≡ some x
    → amount_of tokens (set xs i v) k + (if k == t then x else 0)
      ≡ amount_of tokens xs k + (if k == t then v else 0)
unfolding amount_of
amount_of-set [] xs i v k h g = cc
amount_of-set (s ∷ tokens) [] i v k h g = cc
amount_of-set (s ∷ tokens) (y ∷ xs) zero v k h g = ground (arith, h, g)
amount_of-set (s ∷ tokens) (y ∷ xs) (suc i) v k h g =
    omega (arith, amount_of-set tokens xs i v k h g)

pub amount_of-replicate : (tokens : List ℕ) (n k : ℕ) → amount_of tokens (replicate n 0) k ≡ 0
unfolding amount_of
amount_of-replicate [] n k = refl
amount_of-replicate (t ∷ tokens) zero k = refl
amount_of-replicate (t ∷ tokens) (suc n) k = ground (arith, amount_of-replicate tokens n k)
