-- ===== src/Exchange/Contract/TokenIds/Numbers.antt =====
-- Which ids name a pool: the decimal numbers of 64 bits.
use snails_contracts.Common.{
  ℕ, ◌+◌, ◌-◌, ◌*◌, ◌<◌, ◌≤◌, ◌≡◌, refl, ◌∙◌, List, [], ◌∷◌, map, none, some, inl, inr, true, false,
  Bool-cases, ltb, leb, ◌==◌, if◌then◌else◌, arith, u64,
}
use snails_contracts.Exchange.Curve.Ledger.{All}
use snails_contracts.Exchange.Contract.TokenIds.{parse_digits, parse_u64, try_identify_pool_id}

-- The number of decimal digits, after the number `n`.
unfoldable pub value : ℕ → List ℕ → ℕ
value n [] = n
value n (d ∷ digits) = value (n * 10 + d) digits

-- The bytes of digits.
abbrev pub print : List ℕ → List ℕ
print = map (λ d. 48 + d)

value-le : (n : ℕ) (digits : List ℕ) → n ≤ value n digits
unfolding value
value-le n [] = omega arith
value-le n (d ∷ digits) = omega (arith, value-le (n * 10 + d) digits)

parse_digits-print :
    (n : ℕ) (digits : List ℕ)
    → n < u64
    → All (λ d. d < 10) digits
    → parse_digits n (print digits)
      ≡ (if ltb (value n digits) u64 then some (value n digits) else none)
unfolding parse_digits value
parse_digits-print n [] small all = ground (arith, small)
parse_digits-print n (d ∷ digits) small all =
    let digit : n * 10 + (48 + d - 48) ≡ n * 10 + d = omega arith in
    let low : leb 48 (48 + d) ≡ true = ground arith in
    let high : leb (48 + d) 57 ≡ true = ground (arith, all.0) in
    rw (digit, low, high)
      (elim (Bool-cases (ltb (n * 10 + d) u64)) [
        | inl fits ↦ rw fits (parse_digits-print (n * 10 + d) digits (ground (arith, fits)) all.1)
        | inr large ↦
            let over : ltb (value (n * 10 + d) digits) u64 ≡ false =
              ground (arith, large, value-le (n * 10 + d) digits) in
            rw (large, over) refl
      ])

parse_u64-print :
    (d : ℕ) (digits : List ℕ)
    → d < 10
    → parse_u64 (print (d ∷ digits)) ≡ parse_digits 0 (print (d ∷ digits))
unfolding parse_u64
parse_u64-print d [] small = refl
parse_u64-print d (e ∷ digits) small =
    let no_plus : (48 + d == 43) ≡ false = ground arith in rw no_plus refl

-- A colon and one or more decimal digits name the pool of that number if it is less than 2^64, and no
-- pool otherwise.
pub try_identify_pool_id-print :
    (d : ℕ) (digits : List ℕ)
    → All (λ d. d < 10) (d ∷ digits)
    → try_identify_pool_id (58 ∷ print (d ∷ digits))
      ≡ (if ltb (value 0 (d ∷ digits)) u64 then some (value 0 (d ∷ digits)) else none)
unfolding try_identify_pool_id
try_identify_pool_id-print d digits all =
    parse_u64-print d digits all.0 ∙ parse_digits-print 0 (d ∷ digits) (omega arith) all
