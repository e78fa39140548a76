-- ===== src/Exchange/Curve/Ledger.antt =====
-- How the vectors of a report are compared with the balances, coin by coin.
use snails_contracts.Common.{ℕ, ◌+◌, ◌*◌, ◌≤◌, ◌≡◌, List, [], ◌∷◌, ◌++◌}

-- Each old balance is the new one, the part paid out and the owner's fee.
abbrev pub Splits : List ℕ → List ℕ → List ℕ → List ℕ → Type 0
Splits [] [] _ _ = Unit {0}
Splits (b ∷ balances) (n ∷ new_balances) (r ∷ recieved) (a ∷ admin_fees) =
    (n + r + a ≡ b) × Splits balances new_balances recieved admin_fees
Splits _ _ _ _ = ⊥

-- Each new balance and the owner's fee are the old balance and the part paid in.
abbrev pub Gathers : List ℕ → List ℕ → List ℕ → List ℕ → Type 0
Gathers [] [] _ _ = Unit {0}
Gathers (b ∷ balances) (n ∷ new_balances) (d ∷ deposits) (a ∷ admin_fees) =
    (n + a ≡ b + d) × Gathers balances new_balances deposits admin_fees
Gathers _ _ _ _ = ⊥

-- No part paid out is above the part `lp` of `supply` of its balance.
abbrev pub ProRata : ℕ → ℕ → List ℕ → List ℕ → Type 0
ProRata lp supply [] _ = Unit {0}
ProRata lp supply (b ∷ balances) (r ∷ recieved) =
    (r * supply ≤ b * lp) × ProRata lp supply balances recieved
ProRata lp supply _ _ = ⊥

abbrev pub All : (ℕ → Type 0) → List ℕ → Type 0
All P [] = Unit {0}
All P (x ∷ xs) = P x × All P xs

-- Each balance that the invariant is computed with is the new balance without the part of the fee
-- that stays in the pool.
abbrev pub Nets : List ℕ → List ℕ → List ℕ → List ℕ → Type 0
Nets [] [] _ _ = Unit {0}
Nets (d ∷ nets) (n ∷ new_balances) (t ∷ total_fees) (a ∷ admin_fees) =
    (d + t ≡ n + a) × Nets nets new_balances total_fees admin_fees
Nets _ _ _ _ = ⊥

-- What stands behind the places of the coins does not matter.
pub Splits-append :
    (balances new_balances recieved admin_fees t u : List ℕ)
    → Splits balances new_balances recieved admin_fees
    → Splits balances new_balances (recieved ++ t) (admin_fees ++ u)
Splits-append [] [] recieved admin_fees t u h = tt
Splits-append (b ∷ balances) (n ∷ ns) (r ∷ rs) (a ∷ as') t u h =
    (h.0, Splits-append balances ns rs as' t u h.1)
Splits-append _ _ _ _ t u h = absurd h

pub Nets-append :
    (nets new_balances total_fees admin_fees t u : List ℕ)
    → Nets nets new_balances total_fees admin_fees
    → Nets nets new_balances (total_fees ++ t) (admin_fees ++ u)
Nets-append [] [] total_fees admin_fees t u h = tt
Nets-append (d ∷ nets) (n ∷ ns) (x ∷ xs) (a ∷ as') t u h = (h.0, Nets-append nets ns xs as' t u h.1)
Nets-append _ _ _ _ t u h = absurd h
