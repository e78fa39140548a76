-- ===== src/Farming/Contract/Conservation/Upkeep.antt =====
-- The methods of a farmer over his rewards, which move no seeds.
use mathlib.Core.Path.{subst}
use snails_contracts.Common.{
  ℕ, ◌≡◌, refl, Option, Bool, inl, inr, Bool-cases, ok, ◌==◌, >>=-elim, ok-injective, guard,
  expect_some, expect_some-ok, Fault, Result,
}
use snails_contracts.Common.Table.{lookup}
use snails_contracts.Exchange.Contract.Promises.{PromiseResult}
use snails_contracts.Farming.Farmer.{or_zero, add_reward, sub_reward, remove_rps}
use snails_contracts.Farming.Names.{parse_farm_id}
use snails_contracts.Farming.Contract.{
  ContractData, Names, assert_contract_running, get_seed, get_farmer,
}
use snails_contracts.Farming.Contract.Claims.{
  internal_claim_user_reward_by_seed_id, internal_claim_user_reward_by_farm_id,
}
use snails_contracts.Farming.Contract.Rewards.{
  contains, remove_user_rps_by_farm, claim_reward_by_farm, claim_reward_by_seed, withdraw_reward,
  after_reward, callback_post_withdraw_reward,
}
use snails_contracts.Farming.Contract.Storage.{assert_storage_usage}
use snails_contracts.Farming.Contract.Conservation.{SeedsBalanced}
use snails_contracts.Farming.Contract.Conservation.Farmers.{
  add_reward-seeds, sub_reward-seeds, remove_rps-seeds,
}
use snails_contracts.Farming.Contract.Conservation.Claims.{
  farmer_written, claim_by_seed-SeedsBalanced, claim_by_farm-SeedsBalanced,
}

pub claim_reward_by_farm-SeedsBalanced :
    (names : Names) (now byte_cost : ℕ) (c : ContractData) (sender_id farm_id : ℕ)
    {c' : ContractData}
    → claim_reward_by_farm names now byte_cost c sender_id farm_id ≡ ok c'
    → SeedsBalanced c
    → SeedsBalanced c'
unfolding claim_reward_by_farm
claim_reward_by_farm-SeedsBalanced names now byte_cost c sender_id farm_id h b =
    >>=-elim (assert_contract_running c.state) _ h λ _ h₁ r₁.
      >>=-elim (internal_claim_user_reward_by_farm_id names now c sender_id farm_id) _ r₁
        λ c₁ h₂ r₂. >>=-elim (assert_storage_usage byte_cost c₁ sender_id) _ r₂ λ _ h₃ r₃.
          subst SeedsBalanced (ok-injective r₃)
            (claim_by_farm-SeedsBalanced names now c sender_id farm_id h₂ b)

pub claim_reward_by_seed-SeedsBalanced :
    (now byte_cost : ℕ) (c : ContractData) (sender_id seed_id : ℕ) {c' : ContractData}
    → claim_reward_by_seed now byte_cost c sender_id seed_id ≡ ok c'
    → SeedsBalanced c
    → SeedsBalanced c'
unfolding claim_reward_by_seed
claim_reward_by_seed-SeedsBalanced now byte_cost c sender_id seed_id h b =
    >>=-elim (assert_contract_running c.state) _ h λ _ h₁ r₁.
      >>=-elim (internal_claim_user_reward_by_seed_id now c sender_id seed_id) _ r₁ λ c₁ h₂ r₂.
        >>=-elim (assert_storage_usage byte_cost c₁ sender_id) _ r₂ λ _ h₃ r₃.
          subst SeedsBalanced (ok-injective r₃)
            (claim_by_seed-SeedsBalanced now c sender_id seed_id h₂ b)

pub withdraw_reward-SeedsBalanced :
    (one_yocto : Result (Unit {0})) (c : ContractData) (sender_id token_id : ℕ) (asked : Option ℕ)
    {r : ContractData × ℕ}
    → withdraw_reward one_yocto c sender_id token_id asked ≡ ok r
    → SeedsBalanced c
    → SeedsBalanced r.0
unfolding withdraw_reward get_farmer
withdraw_reward-SeedsBalanced one_yocto c sender_id token_id asked h b =
    >>=-elim one_yocto _ h λ _ h₁ r₁. >>=-elim (assert_contract_running c.state) _ r₁ λ _ h₂ r₂.
      >>=-elim (expect_some Fault.account_not_registered (lookup sender_id c.farmers)) _ r₂
        λ w h₃ r₃. >>=-elim (sub_reward w token_id (or_zero asked)) _ r₃ λ d h₄ r₄.
          subst (λ (r : ContractData × ℕ). SeedsBalanced r.0) (ok-injective r₄)
            (farmer_written c _ sender_id w d.0 b (expect_some-ok _ _ h₃) refl (λ k. refl)
              (sub_reward-seeds w token_id (or_zero asked) h₄))

after_reward-SeedsBalanced :
    (result : PromiseResult) (c : ContractData) (token_id sender_id amount : ℕ) {c' : ContractData}
    → after_reward result c token_id sender_id amount ≡ ok c'
    → SeedsBalanced c
    → SeedsBalanced c'
unfolding after_reward get_farmer
after_reward-SeedsBalanced PromiseResult.not_ready c token_id sender_id amount h b = absurd (cc)
after_reward-SeedsBalanced (PromiseResult.successful value) c token_id sender_id amount h b =
    subst SeedsBalanced (ok-injective h) b
after_reward-SeedsBalanced PromiseResult.failed c token_id sender_id amount h b =
    >>=-elim (expect_some Fault.account_not_registered (lookup sender_id c.farmers)) _ h λ w h₁ r₁.
      >>=-elim (add_reward w token_id amount) _ r₁ λ w' h₂ r₂.
        subst SeedsBalanced (ok-injective r₂) (
          farmer_written c _ sender_id w w' b (expect_some-ok _ _ h₁) refl (λ k. refl)
            (add_reward-seeds w token_id amount h₂))

pub callback_reward-SeedsBalanced :
    (results : ℕ) (result : PromiseResult) (c : ContractData) (token_id sender_id amount : ℕ)
    {c' : ContractData}
    → callback_post_withdraw_reward results result c token_id sender_id amount ≡ ok c'
    → SeedsBalanced c
    → SeedsBalanced c'
unfolding callback_post_withdraw_reward
callback_reward-SeedsBalanced results result c token_id sender_id amount h b =
    >>=-elim (assert_contract_running c.state) _ h λ _ h₁ r₁.
      >>=-elim (guard (results == 1) Fault.callback_invalid) _ r₁
        λ _ h₂ r₂. after_reward-SeedsBalanced result c token_id sender_id amount r₂ b

pub remove_rps-SeedsBalanced :
    (names : Names) (c : ContractData) (sender_id farm_id : ℕ) {r : ContractData × Bool}
    → remove_user_rps_by_farm names c sender_id farm_id ≡ ok r
    → SeedsBalanced c
    → SeedsBalanced r.0
unfolding remove_user_rps_by_farm get_farmer get_seed
remove_rps-SeedsBalanced names c sender_id farm_id h b =
    >>=-elim (assert_contract_running c.state) _ h λ _ h₁ r₁.
      >>=-elim (expect_some Fault.account_not_registered (lookup sender_id c.farmers)) _ r₁
        λ w h₂ r₂. >>=-elim (parse_farm_id (names.bytes_of farm_id)) _ r₂ λ p h₃ r₃.
          >>=-elim (expect_some Fault.seed_not_exist (lookup (names.name_of p.0) c.seeds)) _ r₃
            λ s h₄ r₄. elim (Bool-cases (contains farm_id s.farms)) [
              | inl still ↦
                  subst (λ (r : ContractData × Bool). SeedsBalanced r.0)
                    (ok-injective (rw still at r₄)) b
              | inr gone ↦ >>=-elim (remove_rps w farm_id) _ (rw gone at r₄) λ w' h₅ r₅.
                  subst (λ (r : ContractData × Bool). SeedsBalanced r.0) (ok-injective r₅)
                    (farmer_written c _ sender_id w w' b (expect_some-ok _ _ h₂) refl (λ k. refl)
                      (remove_rps-seeds w farm_id h₅))
            ]
