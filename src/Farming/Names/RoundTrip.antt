-- ===== src/Farming/Names/RoundTrip.antt =====
-- The name of a farm gives back its seed and its index.
use mathlib.Core.Path.{subst}
use snails_contracts.Common.{
  ℕ, zero, suc, ◌+◌, ◌-◌, ◌*◌, ◌/◌, ◌%◌, ◌<◌, ◌≤◌, ◌≡◌, ◌≢◌, ◌^◌, refl, sym, ap, ◌∙◌, List, [], ◌∷◌,
  ◌++◌, some, inl, inr, true, false, Bool-cases, ltb, leb, ◌==◌, ok, arith, u32,
}
use native.Mathlib.Numerals.{unary_clauses}
use snails_contracts.Exchange.Curve.Ledger.{All}
use snails_contracts.Farming.Names.{
  to_first, split, parse_digits, parse_usize, digits, print, farm_tag, farm_parts, parse_farm_id,
  gen_farm_id,
}

-- A text without the tag is one part; before a tag, it is the first part.
split-none : (tag : ℕ) (bytes : List ℕ) → All (λ c. c ≢ tag) bytes → split tag bytes ≡ bytes ∷ []
unfolding split to_first
split-none tag [] all = refl
split-none tag (c ∷ bytes) all =
    let other : (c == tag) ≡ false = ground (arith, all.0) in
    rw (other, split-none tag bytes all.1) refl

split-append :
    (tag : ℕ) (bytes rest : List ℕ)
    → All (λ c. c ≢ tag) bytes
    → split tag (bytes ++ (tag ∷ rest)) ≡ bytes ∷ split tag rest
unfolding split to_first
split-append tag [] rest all = let same : (tag == tag) ≡ true = ground arith in rw same refl
split-append tag (c ∷ bytes) rest all =
    let other : (c == tag) ≡ false = ground (arith, all.0) in
    rw (other, split-append tag bytes rest all.1) refl

-- The digits have no byte below that of the digit 0.
digits-All :
    (n number : ℕ) (rest : List ℕ)
    → All (λ c. 48 ≤ c) rest
    → All (λ c. 48 ≤ c) (digits n number rest)
unfolding digits
digits-All zero number rest all = all
digits-All (suc n) number rest all = elim (Bool-cases (ltb number 10)) [
  | inl small ↦ rw small (omega arith, all)
  | inr large ↦ rw large (digits-All n (number / 10) ((48 + number % 10) ∷ rest) (omega arith, all))
]

digits-cons :
    (n number c : ℕ) (rest : List ℕ)
    → (d : ℕ) × (more : List ℕ) × (digits n number (c ∷ rest) ≡ d ∷ more)
unfolding digits
digits-cons zero number c rest = (c, rest, refl)
digits-cons (suc n) number c rest = elim (Bool-cases (ltb number 10)) [
  | inl small ↦ rw small (48 + number, c ∷ rest, refl)
  | inr large ↦ rw large (digits-cons n (number / 10) (48 + number % 10) (c ∷ rest))
]

print-cons : (number : ℕ) → (d : ℕ) × (more : List ℕ) × (print number ≡ d ∷ more)
unfolding digits
print-cons number = elim (Bool-cases (ltb number 10)) [
  | inl small ↦ rw small (48 + number, [], refl)
  | inr large ↦ rw large (digits-cons 19 (number / 10) (48 + number % 10) [])
]

-- Reading the digits of a number is reading on after the number.
parse_digits-digits :
    (n number : ℕ) (rest : List ℕ)
    → number < 10 ^ n
    → number < u32
    → parse_digits 0 (digits n number rest) ≡ parse_digits number rest
unfolding parse_digits digits
parse_digits-digits zero number rest few fits = let e : number ≡ 0 = omega (arith, few) in rw e refl
parse_digits-digits (suc n) number rest few fits = elim (Bool-cases (ltb number 10)) [
  | inl small ↦
      let e : 0 * 10 + (48 + number - 48) ≡ number = omega arith in
      let low : leb 48 (48 + number) ≡ true = ground arith in
      let high : leb (48 + number) 57 ≡ true = ground (arith, small) in
      let fit : ltb number u32 ≡ true = ground (arith, fits) in rw (small, e, low, high, fit) refl
  | inr large ↦
      let d = number % 10 in
      let e : number / 10 * 10 + (48 + d - 48) ≡ number = omega arith in
      let low : leb 48 (48 + d) ≡ true = ground arith in
      let high : leb (48 + d) 57 ≡ true = ground arith in
      let fit : ltb number u32 ≡ true = ground (arith, fits) in
      let ih =
        parse_digits-digits n (number / 10) ((48 + d) ∷ rest)
          (omega (arith, simp unary_clauses at few)) (omega (arith, fits)) in
      rw (large, ih, e, low, high, fit) refl
]

All-map : {P Q : ℕ → Type 0} (xs : List ℕ) → ((x : ℕ) → P x → Q x) → All P xs → All Q xs
All-map [] f all = tt
All-map (x ∷ xs) f all = (f x all.0, All-map xs f all.1)

parse_usize-print : (number : ℕ) → number < u32 → parse_usize (print number) ≡ some number
unfolding parse_usize parse_digits
parse_usize-print number fits =
    let (d, more, e) = print-cons number in
    let all : All (λ c. 48 ≤ c) (d ∷ more) =
      subst (All (λ c. 48 ≤ c)) e (digits-All 20 number [] tt) in
    ap parse_usize e
    ∙ read d more all
    ∙ (ap (parse_digits 0) (sym e) ∙ parse_digits-digits 20 number [] (omega (arith, fits)) fits)
  where
    read :
        (d : ℕ) (more : List ℕ)
        → All (λ c. 48 ≤ c) (d ∷ more)
        → parse_usize (d ∷ more) ≡ parse_digits 0 (d ∷ more)
    read d [] all = refl
    read d (c ∷ more) all =
        let no_plus : (d == 43) ≡ false = ground (arith, all.0) in rw no_plus refl

-- For a seed whose name has no number sign and an index of 32 bits, the name of the farm that is
-- generated is parsed as this seed and this index.
pub parse_farm_id-gen_farm_id :
    (seed_id : List ℕ) (index : ℕ)
    → All (λ c. c ≢ farm_tag) seed_id
    → index < u32
    → parse_farm_id (gen_farm_id seed_id index) ≡ ok (seed_id, index)
unfolding parse_farm_id gen_farm_id farm_parts
parse_farm_id-gen_farm_id seed_id index plain fits =
    let no_tag =
      All-map (print index) (λ c le q. omega (arith, le, q)) (digits-All 20 index [] tt) in
    rw
      (
        split-append farm_tag seed_id (print index) plain,
        split-none farm_tag (print index) no_tag,
        parse_usize-print index fits,
      )
      refl
