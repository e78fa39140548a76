-- ===== src/Farming/Contract/Conservation/Owners.antt =====
-- The owner's methods, which make and remove farms and leave the amounts of the seeds.
use mathlib.Core.Path.{subst}
use snails_contracts.Common.{
  ℕ, ◌≡◌, refl, sym, ap, Option, Bool, none, some, inl, inr, Bool-cases, ok, leb, >>=-elim,
  ok-injective, guard, expect, expect_some, Fault, Result, checked_add, checked_sub, checked_mul,
  u32, u128,
}
use snails_contracts.Common.Table.{lookup}
use snails_contracts.Exchange.Contract.{Call}
use snails_contracts.Farming.Farm
use snails_contracts.Farming.Farm.{SimpleFarm, SimpleFarmTerms}
use snails_contracts.Farming.Farmer.{FarmSeed}
use snails_contracts.Farming.Names.{parse_farm_id, parse_seed_id}
use snails_contracts.Farming.Contract.{
  ContractData, Names, RunningState, assert_contract_running, assert_owner, get_seed, change_state,
}
use snails_contracts.Farming.Contract.Farms.{
  new_seed, seed_or_new, internal_add_farm, min_deposit_or, create_simple_farm,
  change_reward_per_session, removable, remove_found, internal_remove_farm_by_farm_id,
  force_clean_farm, modify_seed_min_deposit,
}
use snails_contracts.Farming.Contract.Conservation.{SeedsBalanced, amount_in, same_amount}
use snails_contracts.Farming.Contract.Conservation.Claims.{seeds_written}

new_seed-amount :
    (names : Names) (seed_id min_deposit : ℕ) {s : FarmSeed}
    → new_seed names seed_id min_deposit ≡ ok s
    → s.amount ≡ 0
unfolding new_seed
new_seed-amount names seed_id min_deposit h =
    >>=-elim (parse_seed_id (names.bytes_of seed_id)) _ h λ p h₁ r₁. rw (← ok-injective r₁) refl

seed_or_new-amount :
    (names : Names) (o : Option FarmSeed) (seed_id min_deposit : ℕ) {s : FarmSeed}
    → seed_or_new names o seed_id min_deposit ≡ ok s
    → s.amount ≡ amount_in o
unfolding seed_or_new
seed_or_new-amount names (some s) seed_id min_deposit h = rw (← ok-injective h) refl
seed_or_new-amount names none seed_id min_deposit h = new_seed-amount names seed_id min_deposit h

add_farm-SeedsBalanced :
    (names : Names) (c : ContractData) (terms : SimpleFarmTerms) (min_deposit : ℕ)
    {r : ContractData × ℕ}
    → internal_add_farm names c terms min_deposit ≡ ok r
    → SeedsBalanced c
    → SeedsBalanced r.0
unfolding internal_add_farm
add_farm-SeedsBalanced names c terms min_deposit h b =
    >>=-elim (seed_or_new names (lookup terms.seed_id c.seeds) terms.seed_id min_deposit) _ h
      λ s h₁ r₁.
        >>=-elim (expect Fault.unwrap_none (checked_add u32 s.next_index 1)) _ r₁ λ next h₂ r₂.
          subst (λ (r : ContractData × ℕ). SeedsBalanced r.0) (ok-injective r₂)
            (seeds_written c _ b refl λ k. same_amount c.seeds terms.seed_id k _ (
              seed_or_new-amount names (lookup terms.seed_id c.seeds) terms.seed_id min_deposit h₁))

pub create_simple_farm-SeedsBalanced :
    (names : Names) (call : Call) (c : ContractData) (terms : SimpleFarmTerms)
    (min_deposit : Option ℕ) {r : ContractData × ℕ × ℕ}
    → create_simple_farm names call c terms min_deposit ≡ ok r
    → SeedsBalanced c
    → SeedsBalanced r.0
unfolding create_simple_farm
create_simple_farm-SeedsBalanced names call c terms min_deposit h b =
    >>=-elim (assert_owner c call.predecessor) _ h λ _ h₁ r₁.
      >>=-elim (assert_contract_running c.state) _ r₁ λ _ h₂ r₂.
        >>=-elim (internal_add_farm names c terms (min_deposit_or min_deposit)) _ r₂ λ d h₃ r₃.
          >>=-elim (expect Fault.unwrap_none (checked_sub call.end_storage call.prev_storage)) _ r₃
            λ needed h₄ r₄.
              >>=-elim (expect Fault.overflow (checked_mul u128 needed call.byte_cost)) _ r₄
                λ cost h₅ r₅.
                  >>=-elim (guard (leb cost call.attached_deposit) Fault.storage_deposit) _ r₅
                    λ _ h₆ r₆.
                      >>=-elim (expect Fault.unwrap_none (checked_sub call.attached_deposit cost)) _
                        r₆
                        λ refund h₇ r₇.
                          subst (λ (r : ContractData × ℕ × ℕ). SeedsBalanced r.0) (ok-injective r₇)
                            (add_farm-SeedsBalanced names c terms (min_deposit_or min_deposit) h₃ b)

pub change_reward-SeedsBalanced :
    (c : ContractData) (predecessor farm_id reward_per_session : ℕ) {c' : ContractData}
    → change_reward_per_session c predecessor farm_id reward_per_session ≡ ok c'
    → SeedsBalanced c
    → SeedsBalanced c'
unfolding change_reward_per_session
change_reward-SeedsBalanced c predecessor farm_id reward_per_session h b =
    >>=-elim (assert_owner c predecessor) _ h λ _ h₁ r₁.
      >>=-elim (assert_contract_running c.state) _ r₁ λ _ h₂ r₂.
        >>=-elim (expect_some Fault.unwrap_none (lookup farm_id c.farms)) _ r₂
          λ f h₃ r₃. subst SeedsBalanced (ok-injective r₃) (seeds_written c _ b refl (λ k. refl))

remove_found-SeedsBalanced :
    (now : ℕ) (o : Option FarmSeed) (c : ContractData) (seed_id farm_id : ℕ)
    {r : ContractData × Bool}
    → lookup seed_id c.seeds ≡ o
    → remove_found now o c seed_id farm_id ≡ ok r
    → SeedsBalanced c
    → SeedsBalanced r.0
unfolding remove_found
remove_found-SeedsBalanced now none c seed_id farm_id e h b =
    subst (λ (r : ContractData × Bool). SeedsBalanced r.0) (ok-injective h) b
remove_found-SeedsBalanced now (some s) c seed_id farm_id e h b =
    >>=-elim (removable now (lookup farm_id c.farms) s.amount) _ h λ can h₁ r₁.
      elim (Bool-cases can) [
        | inl can_go ↦
            >>=-elim (expect_some Fault.farm_not_exist (lookup farm_id c.farms)) _ (rw can_go at r₁)
              λ f h₂ r₂. >>=-elim (Farm.move_to_clear now f s.amount) _ r₂ λ d h₃ r₃.
                subst (λ (r : ContractData × Bool). SeedsBalanced r.0) (ok-injective r₃)
                  (seeds_written c _ b refl
                    λ k. same_amount c.seeds seed_id k _ (ap amount_in (sym e)))
        | inr stays ↦
            subst (λ (r : ContractData × Bool). SeedsBalanced r.0) (ok-injective (rw stays at r₁)) b
      ]

pub force_clean_farm-SeedsBalanced :
    (names : Names) (now : ℕ) (c : ContractData) (predecessor farm_id : ℕ) {r : ContractData × Bool}
    → force_clean_farm names now c predecessor farm_id ≡ ok r
    → SeedsBalanced c
    → SeedsBalanced r.0
unfolding force_clean_farm internal_remove_farm_by_farm_id
force_clean_farm-SeedsBalanced names now c predecessor farm_id h b =
    >>=-elim (assert_owner c predecessor) _ h λ _ h₁ r₁.
      >>=-elim (assert_contract_running c.state) _ r₁ λ _ h₂ r₂.
        >>=-elim (parse_farm_id (names.bytes_of farm_id)) _ r₂ λ p h₃ r₃.
          remove_found-SeedsBalanced now (lookup (names.name_of p.0) c.seeds) c (names.name_of p.0)
            farm_id refl r₃ b

pub change_state-SeedsBalanced :
    (one_yocto : Result (Unit {0})) (c : ContractData) (predecessor : ℕ) (state : RunningState)
    {c' : ContractData}
    → change_state one_yocto c predecessor state ≡ ok c'
    → SeedsBalanced c
    → SeedsBalanced c'
unfolding change_state
change_state-SeedsBalanced one_yocto c predecessor state h b = >>=-elim one_yocto _ h λ _ h₁ r₁.
    >>=-elim (assert_owner c predecessor) _ r₁
      λ _ h₂ r₂. subst SeedsBalanced (ok-injective r₂) (seeds_written c _ b refl (λ k. refl))

pub modify_seed-SeedsBalanced :
    (c : ContractData) (predecessor seed_id min_deposit : ℕ) {c' : ContractData}
    → modify_seed_min_deposit c predecessor seed_id min_deposit ≡ ok c'
    → SeedsBalanced c
    → SeedsBalanced c'
unfolding modify_seed_min_deposit
modify_seed-SeedsBalanced c predecessor seed_id min_deposit h b =
    >>=-elim (assert_owner c predecessor) _ h λ _ h₁ r₁.
      >>=-elim (assert_contract_running c.state) _ r₁ λ _ h₂ r₂.
        >>=-elim (get_seed c seed_id) _ r₂ λ s h₃ r₃. subst SeedsBalanced (ok-injective r₃) b
