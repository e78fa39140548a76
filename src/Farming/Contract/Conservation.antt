-- ===== src/Farming/Contract/Conservation.antt =====
-- The seeds that the farmers have staked, and the amounts that the contract keeps of each seed.
pub mod Farmers
pub mod Claims
pub mod Upkeep
pub mod Owners
pub mod Stakes
pub mod Registration
pub mod Incoming
pub mod History
use mathlib.Core.Path.{subst}
use snails_contracts.Common.{
  ℕ, ◌+◌, ◌≡◌, ◌≢◌, refl, sym, ap, ◌∙◌, [], ◌∷◌, List, Option, none, some, inl, inr, Bool-cases, ok,
  false, arith, if◌then◌else◌, ◌==◌, >>=-elim, ok-injective, expect, expect-ok, expect_some,
  expect_some-ok, Fault,
}
use snails_contracts.Common.Table.{
  Table, lookup, insert, remove, lookup-insert, lookup-insert_ne, lookup-remove,
}
use snails_contracts.Farming.Farmer.{Farmer, FarmSeed, or_zero}
use snails_contracts.Farming.Contract.{ContractData}

-- The keys of a table differ.
abbrev pub Distinct {ℓ} : {V : Type ℓ} → Table V → Type ℓ
Distinct [] = Unit
Distinct ((k, v) ∷ t) = (lookup k t ≡ none) × Distinct t

pub insert-Distinct {ℓ} :
    {V : Type ℓ} (k : ℕ) (v : V) (t : Table V) → Distinct t → Distinct (insert k v t)
unfolding insert lookup
insert-Distinct k v [] d = (refl, tt)
insert-Distinct k v ((j, w) ∷ t) d = elim (Bool-cases (k == j)) [
  | inl same ↦
      let q : j ≡ k = ground (arith, same) in rw same (sym (ap (λ i. lookup i t) q) ∙ d.0, d.1)
  | inr other ↦
      let ne : j ≢ k = λ q. ground (arith, q, other) in
      rw other (lookup-insert_ne k j v t ne ∙ d.0, insert-Distinct k v t d.1)
]

pub remove-Distinct {ℓ} : {V : Type ℓ} (k : ℕ) (t : Table V) → Distinct t → Distinct (remove k t)
unfolding remove
remove-Distinct k [] d = tt
remove-Distinct k ((j, w) ∷ t) d = elim (Bool-cases (k == j)) [
  | inl same ↦ rw same (remove-Distinct k t d.1)
  | inr other ↦
      let ne : (j == k) ≡ false = ground (arith, other) in
      let gone : lookup j (remove k t) ≡ none = lookup-remove k j t ∙ rw ne d.0 in
      rw other (gone, remove-Distinct k t d.1)
]

-- What one farmer, if there is one, has staked of a seed.
abbrev pub seeds_of : Option Farmer → ℕ → ℕ
seeds_of none seed_id = 0
seeds_of (some w) seed_id = or_zero (lookup seed_id w.seeds)

unfoldable pub staked : Table Farmer → ℕ → ℕ
staked [] seed_id = 0
staked ((_, w) ∷ t) seed_id = or_zero (lookup seed_id w.seeds) + staked t seed_id

pub staked-insert :
    (account k : ℕ) (w : Farmer) (t : Table Farmer)
    → staked (insert account w t) k + seeds_of (lookup account t) k
      ≡ staked t k + or_zero (lookup k w.seeds)
unfolding staked insert lookup
staked-insert account k w [] = omega arith
staked-insert account k w ((j, v) ∷ t) = elim (Bool-cases (account == j)) [
  | inl same ↦ rw same (omega arith)
  | inr other ↦ rw other (omega (arith, staked-insert account k w t))
]

pub staked-remove :
    (account k : ℕ) (t : Table Farmer)
    → Distinct t
    → staked (remove account t) k + seeds_of (lookup account t) k ≡ staked t k
unfolding staked remove lookup
staked-remove account k [] d = refl
staked-remove account k ((j, v) ∷ t) d = elim (Bool-cases (account == j)) [
  | inl same ↦
      let q : j ≡ account = ground (arith, same) in
      let gone = ap (λ o. seeds_of o k) (sym (ap (λ i. lookup i t) q) ∙ d.0) in
      rw same (omega (arith, staked-remove account k t d.1, gone))
  | inr other ↦ rw other (omega (arith, staked-remove account k t d.1))
]

-- The amount that the contract keeps of a seed, 0 of an unknown one.
abbrev pub amount_in : Option FarmSeed → ℕ
amount_in none = 0
amount_in (some s) = s.amount

-- The amount of every seed is what all farmers have staked of it.
pub record SeedsBalanced (c : ContractData) : Type 0 where
  pub balanced : (k : ℕ) → amount_in (lookup k c.seeds) ≡ staked c.farmers k
  pub distinct : Distinct c.farmers

-- A farmer is written with more or fewer seeds, and the amount of the seed with him.
pub written-SeedsBalanced :
    (c c' : ContractData) (account seed_id : ℕ) (w : Farmer) (s : FarmSeed)
    → SeedsBalanced c
    → c'.farmers ≡ insert account w c.farmers
    → c'.seeds ≡ insert seed_id s c.seeds
    → ((k : ℕ) → k ≢ seed_id → or_zero (lookup k w.seeds) ≡ seeds_of (lookup account c.farmers) k)
    → s.amount + seeds_of (lookup account c.farmers) seed_id
      ≡ amount_in (lookup seed_id c.seeds) + or_zero (lookup seed_id w.seeds)
    → SeedsBalanced c'
written-SeedsBalanced c c' account seed_id w s b e_farmers e_seeds others own = record {
  balanced = λ k.
      let total = staked-insert account k w c.farmers in
      let total' = ap (λ t. staked t k) e_farmers in
      let was = b.balanced k in
      ap (λ t. amount_in (lookup k t)) e_seeds
      ∙ ap amount_in (lookup-insert seed_id k s c.seeds)
      ∙ elim (Bool-cases (k == seed_id)) [
        | inl same ↦
            let q : seed_id ≡ k = ground (arith, same) in
            let own' : s.amount + seeds_of (lookup account c.farmers) k
                ≡ amount_in (lookup k c.seeds) + or_zero (lookup k w.seeds) =
              subst
                (λ j.
                  s.amount + seeds_of (lookup account c.farmers) j
                  ≡ amount_in (lookup j c.seeds) + or_zero (lookup j w.seeds))
                q own in
            rw same (omega (arith, total, total', was, own'))
        | inr other ↦
            let kept = others k (ground (arith, other)) in
            rw other (omega (arith, total, total', was, kept))
      ];
  distinct = rw e_farmers (insert-Distinct account w c.farmers b.distinct);
}

-- A farmer is written with the seeds that he had.
pub same_seeds-SeedsBalanced :
    (c c' : ContractData) (account : ℕ) (w : Farmer)
    → SeedsBalanced c
    → c'.farmers ≡ insert account w c.farmers
    → ((k : ℕ) → amount_in (lookup k c'.seeds) ≡ amount_in (lookup k c.seeds))
    → ((k : ℕ) → or_zero (lookup k w.seeds) ≡ seeds_of (lookup account c.farmers) k)
    → SeedsBalanced c'
same_seeds-SeedsBalanced c c' account w b e_farmers same_amounts same_seeds = record {
  balanced = λ k. omega (
    arith,
    same_amounts k,
    b.balanced k,
    ap (λ t. staked t k) e_farmers,
    staked-insert account k w c.farmers,
    same_seeds k,
  );
  distinct = rw e_farmers (insert-Distinct account w c.farmers b.distinct);
}

-- A seed is written with the amount that it had.
pub same_amount :
    (t : Table FarmSeed) (seed_id k : ℕ) (s : FarmSeed)
    → s.amount ≡ amount_in (lookup seed_id t)
    → amount_in (lookup k (insert seed_id s t)) ≡ amount_in (lookup k t)
same_amount t seed_id k s same =
    ap amount_in (lookup-insert seed_id k s t) ∙ elim (Bool-cases (k == seed_id)) [
      | inl own ↦
          let q : seed_id ≡ k = ground (arith, own) in
          rw own (same ∙ ap (λ j. amount_in (lookup j t)) q)
      | inr other ↦ rw other refl
    ]
