-- ===== src/Farming/Contract/Conservation/Farmers.antt =====
-- What the methods of a farmer do to his seeds.
use snails_contracts.Common.{
  ℕ, ◌+◌, ◌≡◌, ◌≢◌, refl, sym, ap, ◌∙◌, List, [], ◌∷◌, inl, inr, true, false, Bool-cases, ok, arith,
  if◌then◌else◌, ◌==◌, ltb, leb, >>=-elim, ok-injective, guard, expect, expect-ok, expect_some,
  expect_some-ok, Fault, checked_add, checked_add-ok, checked_sub, checked_sub-ok, u32, u128,
}
use snails_contracts.Common.Table.{
  Table, lookup, insert, contains_key, lookup-insert_self, lookup-insert_ne, lookup-remove,
}
use snails_contracts.Farming.Farm
use snails_contracts.Farming.Farm.{SimpleFarm}
use snails_contracts.Farming.Farmer.{
  Farmer, FarmSeed, or_zero, grown, add_reward, sub_reward, add_seed, keep_seed, sub_seed, get_rps,
  set_rps, remove_rps, add_amount, sub_amount, claim_user_reward_from_farm,
}
use snails_contracts.Farming.Contract.Seeds.{remove_all_rps}
use snails_contracts.Farming.Contract.Claims.{claim_farms}

pub add_reward-seeds :
    (w : Farmer) (token amount : ℕ) {w' : Farmer}
    → add_reward w token amount ≡ ok w'
    → w'.seeds ≡ w.seeds
unfolding add_reward
add_reward-seeds w token amount h =
    >>=-elim (grown (lookup token w.rewards) amount) _ h λ n h₁ r₁. rw (← ok-injective r₁) refl

pub sub_reward-seeds :
    (w : Farmer) (token amount : ℕ) {r : Farmer × ℕ}
    → sub_reward w token amount ≡ ok r
    → (r.0).seeds ≡ w.seeds
unfolding sub_reward
sub_reward-seeds w token amount h =
    >>=-elim (expect_some Fault.token_not_reg (lookup token w.rewards)) _ h λ value h₁ r₁.
      >>=-elim (guard (leb amount value) Fault.not_enough_tokens) _ r₁ λ _ h₂ r₂.
        elim (Bool-cases (amount == 0)) [
          | inl all ↦ rw (← ok-injective (rw all at r₂)) refl
          | inr part ↦
              >>=-elim (expect Fault.unwrap_none (checked_sub value amount)) _ (rw part at r₂)
                λ left h₃ r₃. rw (← ok-injective r₃) refl
        ]

set_rps-seeds :
    (w : Farmer) (farm rps : ℕ) {w' : Farmer} → set_rps w farm rps ≡ ok w' → w'.seeds ≡ w.seeds
unfolding set_rps
set_rps-seeds w farm rps h =
    >>=-elim
      (if contains_key farm w.user_rps
        then ok w.rps_count
        else expect Fault.unwrap_none (checked_add u32 w.rps_count 1))
      _ h λ n h₁ r₁. rw (← ok-injective r₁) refl

pub remove_rps-seeds :
    (w : Farmer) (farm : ℕ) {w' : Farmer} → remove_rps w farm ≡ ok w' → w'.seeds ≡ w.seeds
unfolding remove_rps
remove_rps-seeds w farm h = elim (Bool-cases (contains_key farm w.user_rps)) [
  | inl known ↦
      >>=-elim (expect Fault.unwrap_none (checked_sub w.rps_count 1)) _ (rw known at h)
        λ n h₁ r₁. rw (← ok-injective r₁) refl
  | inr unknown ↦ rw (← ok-injective (rw unknown at h)) refl
]

pub remove_all_rps-seeds :
    (w : Farmer) (farms : List ℕ) {w' : Farmer}
    → remove_all_rps w farms ≡ ok w'
    → w'.seeds ≡ w.seeds
unfolding remove_all_rps
remove_all_rps-seeds w [] h = rw (← ok-injective h) refl
remove_all_rps-seeds w (f ∷ farms) h =
    >>=-elim (remove_rps w f) _ h
      λ w₁ h₁ r₁. remove_all_rps-seeds w₁ farms r₁ ∙ remove_rps-seeds w f h₁

pub claim-seeds :
    (now : ℕ) (f : SimpleFarm) (w : Farmer) (total : ℕ) {r : SimpleFarm × Farmer}
    → claim_user_reward_from_farm now f w total ≡ ok r
    → (r.1).seeds ≡ w.seeds
unfolding claim_user_reward_from_farm
claim-seeds now f w total h =
    >>=-elim
      (Farm.claim_user_reward now f (get_rps w f.farm_id)
        (or_zero (lookup (f.terms).seed_id w.seeds)) total)
      _ h
      λ paid h₁ r₁. >>=-elim (set_rps w (paid.0).farm_id paid.1) _ r₁ λ w₁ h₂ r₂.
        >>=-elim
          (if ltb 0 paid.2 then add_reward w₁ ((paid.0).terms).reward_token paid.2 else ok w₁) _ r₂
          λ w₂ h₃ r₃.
            let last : w₂.seeds ≡ w₁.seeds = elim (Bool-cases (ltb 0 paid.2)) [
              | inl more ↦ add_reward-seeds w₁ ((paid.0).terms).reward_token paid.2 (rw more at h₃)
              | inr none_paid ↦ rw (← ok-injective (rw none_paid at h₃)) refl
            ] in
            ap (λ (r : SimpleFarm × Farmer). (r.1).seeds) (sym (ok-injective r₃))
            ∙ last
            ∙ set_rps-seeds w (paid.0).farm_id paid.1 h₂

pub claim_farms-seeds :
    (now amount : ℕ) (ids : List ℕ) (farms : Table SimpleFarm) (w : Farmer)
    {r : Table SimpleFarm × Farmer}
    → claim_farms now amount ids farms w ≡ ok r
    → (r.1).seeds ≡ w.seeds
unfolding claim_farms
claim_farms-seeds now amount [] farms w h = rw (← ok-injective h) refl
claim_farms-seeds now amount (id ∷ ids) farms w h =
    >>=-elim (expect_some Fault.unwrap_none (lookup id farms)) _ h λ f h₁ r₁.
      >>=-elim (claim_user_reward_from_farm now f w amount) _ r₁ λ d h₂ r₂.
        claim_farms-seeds now amount ids (insert id d.0 farms) d.1 r₂
        ∙ claim-seeds now f w amount h₂

pub add_seed_lem :
    (w : Farmer) (seed_id amount : ℕ) {w' : Farmer}
    → add_seed w seed_id amount ≡ ok w'
    → (or_zero (lookup seed_id w'.seeds) ≡ or_zero (lookup seed_id w.seeds) + amount)
      × ((k : ℕ) → k ≢ seed_id → or_zero (lookup k w'.seeds) ≡ or_zero (lookup k w.seeds))
unfolding add_seed
add_seed_lem w seed_id amount h = elim (Bool-cases (ltb 0 amount)) [
  | inl more ↦
      >>=-elim (expect Fault.overflow (checked_add u128 amount (or_zero (lookup seed_id w.seeds))))
        _ (rw more at h)
        λ sum h₁ r₁.
          let e =
            (checked_add-ok u128 amount (or_zero (lookup seed_id w.seeds)) (expect-ok _ _ h₁)).0 in
          rw (← ok-injective r₁) (
            ap or_zero (lookup-insert_self seed_id sum w.seeds) ∙ e ∙ (omega arith),
            λ k ne. ap or_zero (lookup-insert_ne seed_id k sum w.seeds ne),
          )
  | inr nothing_added ↦
      let zero : amount ≡ 0 = ground (arith, nothing_added) in
      rw (← ok-injective (rw nothing_added at h)) (omega (arith, zero), λ k ne. refl)
]

keep_seed_lem :
    (seed_id left : ℕ) (seeds : Table ℕ)
    → (or_zero (lookup seed_id (keep_seed seed_id left seeds)) ≡ left)
      × ((k : ℕ)
          → k ≢ seed_id
          → or_zero (lookup k (keep_seed seed_id left seeds)) ≡ or_zero (lookup k seeds))
unfolding keep_seed
keep_seed_lem seed_id left seeds = elim (Bool-cases (ltb 0 left)) [
  | inl more ↦ rw more (
    ap or_zero (lookup-insert_self seed_id left seeds),
    λ k ne. ap or_zero (lookup-insert_ne seed_id k left seeds ne),
  )
  | inr gone ↦
      let zero : left ≡ 0 = ground (arith, gone) in
      let same : (seed_id == seed_id) ≡ true = ground arith in
      rw gone (
        ap or_zero (lookup-remove seed_id seed_id seeds) ∙ rw same (sym zero),
        λ k ne.
            let other : (k == seed_id) ≡ false = ground (arith, ne) in
            ap or_zero (lookup-remove seed_id k seeds) ∙ rw other refl,
      )
]

pub sub_seed_lem :
    (w : Farmer) (seed_id amount : ℕ) {r : Farmer × ℕ}
    → sub_seed w seed_id amount ≡ ok r
    → (or_zero (lookup seed_id (r.0).seeds) + amount ≡ or_zero (lookup seed_id w.seeds))
      × ((k : ℕ) → k ≢ seed_id → or_zero (lookup k (r.0).seeds) ≡ or_zero (lookup k w.seeds))
unfolding sub_seed
sub_seed_lem w seed_id amount h =
    >>=-elim (expect_some Fault.seed_not_exist (lookup seed_id w.seeds)) _ h λ prev h₁ r₁.
      >>=-elim (guard (leb amount prev) Fault.not_enough_seed) _ r₁ λ _ h₂ r₂.
        >>=-elim (expect Fault.overflow (checked_sub prev amount)) _ r₂ λ left h₃ r₃.
          let e = checked_sub-ok prev amount (expect-ok _ _ h₃) in
          let was = ap or_zero (expect_some-ok _ _ h₁) in
          let kept = keep_seed_lem seed_id left w.seeds in
          rw (← ok-injective r₃) (omega (arith, e, was, kept.0), kept.1)

pub add_amount_lem :
    (s : FarmSeed) (amount : ℕ) {s' : FarmSeed}
    → add_amount s amount ≡ ok s'
    → s'.amount ≡ s.amount + amount
unfolding add_amount
add_amount_lem s amount h =
    >>=-elim (expect Fault.unwrap_none (checked_add u128 s.amount amount)) _ h
      λ sum h₁ r₁. rw (← ok-injective r₁) (checked_add-ok u128 s.amount amount (expect-ok _ _ h₁)).0

pub sub_amount_lem :
    (s : FarmSeed) (amount : ℕ) {r : FarmSeed × ℕ}
    → sub_amount s amount ≡ ok r
    → (r.0).amount + amount ≡ s.amount
unfolding sub_amount
sub_amount_lem s amount h =
    >>=-elim (guard (leb amount s.amount) Fault.internal_error) _ h λ _ h₁ r₁.
      >>=-elim (expect Fault.unwrap_none (checked_sub s.amount amount)) _ r₁
        λ left h₂ r₂. rw (← ok-injective r₂) (checked_sub-ok s.amount amount (expect-ok _ _ h₂))
