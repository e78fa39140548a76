-- ===== src/Farming/Farmer/Claim.antt =====
-- What the claim of a farmer and the moves of his seeds do to his record.
use snails_contracts.Common.{
  ℕ, true, le→leb, checked_sub_fits, ◌-◌, ◌+◌, ◌<◌, ◌≡◌, ◌≢◌, refl, ap, ◌∙◌, Option, none, some,
  inl, inr, Bool-cases, ok, arith, if◌then◌else◌, ltb, ◌==◌, >>=-elim, ok-injective, expect,
  expect-ok, checked_add, checked_add-ok, Fault, u32, u128,
}
use snails_contracts.Common.Table.{
  Table, lookup, insert, contains_key, lookup-insert, lookup-insert_self, lookup-insert_ne,
  lookup-remove,
}
use snails_contracts.Farming.Farm
use snails_contracts.Farming.Farm.{SimpleFarm}
use snails_contracts.Farming.Farm.Conservation.{IsConserved}
use snails_contracts.Farming.Farm.Claims.{claim_user_reward_lem}
use snails_contracts.Farming.Farmer.{
  Farmer, or_zero, keep_seed, grown, add_reward, add_seed, sub_seed, get_rps, set_rps,
  claim_user_reward_from_farm,
}

set_rps_lem :
    (w : Farmer) (farm_id rps : ℕ) {w' : Farmer}
    → set_rps w farm_id rps ≡ ok w'
    → (w'.rewards ≡ w.rewards)
      × (w'.seeds ≡ w.seeds)
      × (get_rps w' farm_id ≡ rps)
      × ((k : ℕ) → k ≢ farm_id → get_rps w' k ≡ get_rps w k)
unfolding set_rps get_rps
set_rps_lem w farm_id rps h =
    >>=-elim
      (if contains_key farm_id w.user_rps
        then ok w.rps_count
        else expect Fault.unwrap_none (checked_add u32 w.rps_count 1))
      _ h
      λ n h₁ r₁. rw (← ok-injective r₁) (
        refl,
        refl,
        ap or_zero (lookup-insert_self farm_id rps w.user_rps),
        λ k ne. ap or_zero (lookup-insert_ne farm_id k rps w.user_rps ne),
      )

grown-ok : (o : Option ℕ) (amount : ℕ) {r : ℕ} → grown o amount ≡ ok r → r ≡ or_zero o + amount
unfolding grown
grown-ok (some x) amount h = (checked_add-ok u128 x amount (expect-ok _ _ h)).0
grown-ok none amount h = omega (arith, ok-injective h)

add_reward_lem :
    (w : Farmer) (token amount : ℕ) {w' : Farmer}
    → add_reward w token amount ≡ ok w'
    → (w'.seeds ≡ w.seeds)
      × (w'.user_rps ≡ w.user_rps)
      × (or_zero (lookup token w'.rewards) ≡ or_zero (lookup token w.rewards) + amount)
      × ((k : ℕ) → k ≢ token → lookup k w'.rewards ≡ lookup k w.rewards)
unfolding add_reward
add_reward_lem w token amount h =
    >>=-elim (grown (lookup token w.rewards) amount) _ h λ balance h₁ r₁. rw (← ok-injective r₁) (
      refl,
      refl,
      ap or_zero (lookup-insert_self token balance w.rewards)
          ∙ grown-ok (lookup token w.rewards) amount h₁,
      λ k ne. lookup-insert_ne token k balance w.rewards ne,
    )

-- The reward of a claim, which may be nothing.
rewarded :
    (w : Farmer) (token reward : ℕ) {w' : Farmer}
    → (if ltb 0 reward then add_reward w token reward else ok w) ≡ ok w'
    → (w'.seeds ≡ w.seeds)
      × (w'.user_rps ≡ w.user_rps)
      × (or_zero (lookup token w'.rewards) ≡ or_zero (lookup token w.rewards) + reward)
      × ((k : ℕ) → k ≢ token → lookup k w'.rewards ≡ lookup k w.rewards)
rewarded w token reward h = elim (Bool-cases (ltb 0 reward)) [
  | inl some_reward ↦ add_reward_lem w token reward (rw some_reward at h)
  | inr no_reward ↦
      rw (← ok-injective (rw no_reward at h)) (refl, refl, ground (arith, no_reward), λ k ne. refl)
]

same_rps :
    (w w' : Farmer) (farm_id : ℕ)
    → w'.user_rps ≡ w.user_rps
    → get_rps w' farm_id ≡ get_rps w farm_id
unfolding get_rps
same_rps w w' farm_id e = ap (λ t. or_zero (lookup farm_id t)) e

-- The claim of a farmer from a farm in order that succeeds is the claim of the farm for his seeds
-- and his last reward per seed. The farm stays in order, and the farmer's reward per seed is the new
-- one. His balance of the reward token grows by exactly the reward that the farm pays. His other
-- rewards and his seeds do not change.
pub claim_user_reward_from_farm_lem :
    (now : ℕ) (f : SimpleFarm) (w : Farmer) (total_seeds : ℕ) {r : SimpleFarm × Farmer}
    → claim_user_reward_from_farm now f w total_seeds ≡ ok r
    → IsConserved f
    → (paid : SimpleFarm × ℕ × ℕ) × (Farm.claim_user_reward now f
          (get_rps w f.farm_id)
          (or_zero (lookup (f.terms).seed_id w.seeds))
          total_seeds
        ≡ ok paid)
      × (r.0 ≡ paid.0)
      × IsConserved r.0
      × (get_rps r.1 (r.0).farm_id ≡ paid.1)
      × (or_zero (lookup ((r.0).terms).reward_token (r.1).rewards)
          ≡ or_zero (lookup ((r.0).terms).reward_token w.rewards) + paid.2)
      × ((k : ℕ) → k ≢ ((r.0).terms).reward_token → lookup k (r.1).rewards ≡ lookup k w.rewards)
      × ((r.1).seeds ≡ w.seeds)
unfolding claim_user_reward_from_farm
claim_user_reward_from_farm_lem now f w total_seeds h inv =
    let seeds = or_zero (lookup (f.terms).seed_id w.seeds) in
    let rps = get_rps w f.farm_id in
    >>=-elim (Farm.claim_user_reward now f rps seeds total_seeds) _ h λ paid h₁ r₁.
      let (f', done, e₁, e₂, le, inv') = claim_user_reward_lem now f rps seeds total_seeds h₁ inv in
      let token = ((paid.0).terms).reward_token in
      >>=-elim (set_rps w (paid.0).farm_id paid.1) _ r₁ λ w₁ h₂ r₂.
        let s = set_rps_lem w (paid.0).farm_id paid.1 h₂ in
        >>=-elim (if ltb 0 paid.2 then add_reward w₁ token paid.2 else ok w₁) _ r₂ λ w₂ h₃ r₃.
          let a = rewarded w₁ token paid.2 h₃ in
          rw (← ok-injective r₃) (
            paid,
            h₁,
            refl,
            inv',
            same_rps w₁ w₂ (paid.0).farm_id a.1 ∙ s.2,
            a.2 ∙ ap (λ t. or_zero (lookup token t) + paid.2) s.0,
            λ k ne. a.3 k ne ∙ ap (lookup k) s.0,
            a.0 ∙ s.1,
          )

lookup-keep_seed :
    (k seed_id left : ℕ) (seeds : Table ℕ)
    → or_zero (lookup k (keep_seed seed_id left seeds))
      ≡ (if k == seed_id then left else or_zero (lookup k seeds))
unfolding keep_seed
lookup-keep_seed k seed_id left seeds = elim (Bool-cases (ltb 0 left)) [
  | inl some_left ↦ rw (some_left, lookup-insert seed_id k left seeds) (ground arith)
  | inr none_left ↦ rw (none_left, lookup-remove seed_id k seeds) (ground (arith, none_left))
]

sub_seed-some :
    (w : Farmer) (seed_id amount left : ℕ)
    → lookup seed_id w.seeds ≡ some (amount + left)
    → sub_seed w seed_id amount ≡ ok (record w { seeds = keep_seed seed_id left w.seeds }, left)
unfolding sub_seed
sub_seed-some w seed_id amount left known =
    let rest : amount + left - amount ≡ left = omega arith in
    rw
      (
        known,
        le→leb amount (amount + left) (omega arith),
        checked_sub_fits (amount + left) amount (omega arith),
        rest,
      )
      refl

-- What remains after the seeds have been added and taken out again.
restored :
    (k seed_id sum : ℕ) (seeds : Table ℕ)
    → or_zero
        (lookup k (keep_seed seed_id (or_zero (lookup seed_id seeds)) (insert seed_id sum seeds)))
      ≡ or_zero (lookup k seeds)
restored k seed_id sum seeds =
    lookup-keep_seed k seed_id (or_zero (lookup seed_id seeds)) (insert seed_id sum seeds)
    ∙ elim (Bool-cases (k == seed_id)) [
      | inl same ↦
          let q : seed_id ≡ k = ground (arith, same) in
          rw same (ap (λ j. or_zero (lookup j seeds)) q)
      | inr other ↦ rw (other, lookup-insert seed_id k sum seeds, other) refl
    ]

-- What was staked can be taken out again: after seeds have been added, taking as many out succeeds
-- and leaves the farmer's balance of every seed as it was, where a missing entry counts as 0.
pub sub_seed-add_seed :
    (w : Farmer) (seed_id amount : ℕ) {w' : Farmer}
    → add_seed w seed_id amount ≡ ok w'
    → 0 < amount
    → (w'' : Farmer) × (left : ℕ) × (sub_seed w' seed_id amount ≡ ok (w'', left))
      × (left ≡ or_zero (lookup seed_id w.seeds))
      × ((k : ℕ) → or_zero (lookup k w''.seeds) ≡ or_zero (lookup k w.seeds))
unfolding add_seed
sub_seed-add_seed w seed_id amount h pos =
    let before = or_zero (lookup seed_id w.seeds) in
    let b : ltb 0 amount ≡ true = ground (arith, pos) in
    >>=-elim (expect Fault.overflow (checked_add u128 amount before)) _ (rw b at h) λ sum h₁ r₁.
      let e = (checked_add-ok u128 amount before (expect-ok _ _ h₁)).0 in
      rw (← ok-injective r₁) (
        _,
        before,
        sub_seed-some (record w { seeds = insert seed_id sum w.seeds }) seed_id amount before
            (lookup-insert_self seed_id sum w.seeds ∙ ap some e),
        refl,
        λ k. restored k seed_id sum w.seeds,
      )
