-- ===== src/Common/Table.antt =====
-- A persistent map of the SDK, keyed by account names, which are only compared: an association
-- list over numbers.
use Prim.Native.Nat.{ℕ, ◌+◌}
use mathlib.Core.Path.{◌≡◌, refl}
use mathlib.Core.Bool.{Bool, true, false}
use mathlib.Core.Logic.{◌≢◌}
use mathlib.Core.Option.{Option, none, some}
use mathlib.Core.List.{List, [], ◌∷◌}
use native.Mathlib.Omega.{arith}
use snails_contracts.Common.Tests.{◌==◌, if◌then◌else◌}

abbrev pub Table {ℓ} : Type ℓ → Type ℓ
Table V = List (ℕ × V)

module _ {ℓ} {V : Type ℓ} where
  unfoldable pub lookup : ℕ → Table V → Option V
  lookup k [] = none
  lookup k ((j, v) ∷ m) = if k == j then some v else lookup k m

  unfoldable pub insert : ℕ → V → Table V → Table V
  insert k v [] = (k, v) ∷ []
  insert k v ((j, w) ∷ m) = if k == j then (k, v) ∷ m else (j, w) ∷ insert k v m

  unfoldable pub remove : ℕ → Table V → Table V
  remove k [] = []
  remove k ((j, w) ∷ m) = if k == j then remove k m else (j, w) ∷ remove k m

  unfoldable pub contains_key : ℕ → Table V → Bool
  unfolding lookup
  contains_key k m = elim (lookup k m) [ none ↦ false | some _ ↦ true ]

  pub lookup-insert :
      (k j : ℕ) (v : V) (m : Table V)
      → lookup j (insert k v m) ≡ (if j == k then some v else lookup j m)
  unfolding lookup insert
  lookup-insert k j v [] = refl
  lookup-insert k j v ((i, w) ∷ m) = ground (arith, lookup-insert k j v m)

  pub lookup-insert_self : (k : ℕ) (v : V) (m : Table V) → lookup k (insert k v m) ≡ some v
  lookup-insert_self k v m = ground (arith, lookup-insert k k v m)

  pub lookup-insert_ne :
      (k j : ℕ) (v : V) (m : Table V) → j ≢ k → lookup j (insert k v m) ≡ lookup j m
  lookup-insert_ne k j v m h = ground (arith, lookup-insert k j v m)

  pub lookup-remove :
      (k j : ℕ) (m : Table V) → lookup j (remove k m) ≡ (if j == k then none else lookup j m)
  unfolding lookup remove
  lookup-remove k j [] = ground arith
  lookup-remove k j ((i, w) ∷ m) = ground (arith, lookup-remove k j m)

-- The sum of the values of a table of balances.
unfoldable pub total : Table ℕ → ℕ
total [] = 0
total ((_, v) ∷ m) = v + total m

pub total-insert :
    (k v old : ℕ) (m : Table ℕ) → lookup k m ≡ some old → total (insert k v m) + old ≡ total m + v
unfolding lookup insert total
total-insert k v old [] h = cc
total-insert k v old ((i, w) ∷ m) h = ground (arith, total-insert k v old m)

pub total-insert_new :
    (k v : ℕ) (m : Table ℕ) → lookup k m ≡ none → total (insert k v m) ≡ total m + v
unfolding lookup insert total
total-insert_new k v [] h = omega arith
total-insert_new k v ((i, w) ∷ m) h = ground (arith, total-insert_new k v m)

pub not_contained {ℓ} :
    {V : Type ℓ} (k : ℕ) (m : Table V) → contains_key k m ≡ false → lookup k m ≡ none
unfolding contains_key
not_contained k m h = ground (arith, h)
