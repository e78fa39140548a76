-- ===== src/Farming/Contract/Conservation/Incoming.antt =====
-- Incoming transfers of the farming contract, and what they leave of the amounts of the seeds.
use mathlib.Core.Path.{subst}
use snails_contracts.Common.{
  ℕ, ◌≡◌, refl, List, [], ◌∷◌, Option, none, some, ok, ◌==◌, leb, >>=-elim, ok-injective, guard,
  expect, expect_some, Fault, checked_add, u128,
}
use snails_contracts.Common.Table.{lookup}
use snails_contracts.Exchange.Contract.TokenIds.{parse_token_id}
use snails_contracts.Farming.Farm
use snails_contracts.Farming.Farm.{SimpleFarm}
use snails_contracts.Farming.Farmer.{SeedType, or_zero}
use snails_contracts.Farming.Contract.{ContractData, Names, assert_contract_running, get_seed}
use snails_contracts.Farming.Contract.Seeds.{internal_seed_deposit}
use snails_contracts.Farming.Contract.Storage.{assert_storage_usage}
use snails_contracts.Farming.Contract.Receiver.{
  deposit_seed, rewarded, receive, ft_on_transfer, seed_of, assert_no_message, mft_on_transfer,
}
use snails_contracts.Farming.Contract.Conservation.{SeedsBalanced}
use snails_contracts.Farming.Contract.Conservation.Claims.{seeds_written}
use snails_contracts.Farming.Contract.Conservation.Stakes.{deposit-SeedsBalanced}

deposit_seed-SeedsBalanced :
    (now byte_cost : ℕ) (c : ContractData) (seed_id sender_id amount : ℕ) (seed_type : SeedType)
    {c' : ContractData}
    → deposit_seed now byte_cost c seed_id sender_id amount seed_type ≡ ok c'
    → SeedsBalanced c
    → SeedsBalanced c'
unfolding deposit_seed
deposit_seed-SeedsBalanced now byte_cost c seed_id sender_id amount seed_type h b =
    >>=-elim (get_seed c seed_id) _ h λ s h₁ r₁.
      >>=-elim (guard (leb s.min_deposit amount) Fault.below_min_seed_deposited) _ r₁ λ _ h₂ r₂.
        >>=-elim (internal_seed_deposit now c seed_id sender_id amount seed_type) _ r₂ λ c₁ h₃ r₃.
          >>=-elim (assert_storage_usage byte_cost c₁ sender_id) _ r₃ λ _ h₄ r₄.
            subst SeedsBalanced (ok-injective r₄)
              (deposit-SeedsBalanced now c seed_id sender_id amount seed_type h₃ b)

rewarded-SeedsBalanced :
    (o : Option ℕ) (f : SimpleFarm) (c : ContractData) (predecessor farm_id amount : ℕ)
    {c' : ContractData}
    → rewarded o f c predecessor farm_id amount ≡ ok c'
    → SeedsBalanced c
    → SeedsBalanced c'
unfolding rewarded
rewarded-SeedsBalanced none f c predecessor farm_id amount h b = absurd (cc)
rewarded-SeedsBalanced (some n) f c predecessor farm_id amount h b =
    >>=-elim
      (expect Fault.unwrap_none
        (checked_add u128 (or_zero (lookup predecessor c.reward_info)) amount))
      _ h λ sum h₁ r₁. subst SeedsBalanced (ok-injective r₁) (seeds_written c _ b refl (λ k. refl))

receive-SeedsBalanced :
    (names : Names) (now byte_cost : ℕ) (c : ContractData) (predecessor sender_id amount : ℕ)
    (msg : List ℕ) {c' : ContractData}
    → receive names now byte_cost c predecessor sender_id amount msg ≡ ok c'
    → SeedsBalanced c
    → SeedsBalanced c'
unfolding receive
receive-SeedsBalanced names now byte_cost c predecessor sender_id amount [] h b =
    deposit_seed-SeedsBalanced now byte_cost c predecessor sender_id amount SeedType.ft h b
receive-SeedsBalanced names now byte_cost c predecessor sender_id amount (x ∷ msg) h b =
    >>=-elim (expect_some Fault.farm_not_exist (lookup (names.name_of (x ∷ msg)) c.farms)) _ h
      λ f h₁ r₁.
        >>=-elim (guard ((f.terms).reward_token == predecessor) Fault.invalid_farm_reward) _ r₁
          λ _ h₂ r₂. >>=-elim (Farm.add_reward now f amount) _ r₂ λ d h₃ r₃.
            rewarded-SeedsBalanced d.1 d.0 c predecessor (names.name_of (x ∷ msg)) amount r₃ b

pub ft_on_transfer-SeedsBalanced :
    (names : Names) (now byte_cost : ℕ) (c : ContractData) (predecessor sender_id amount : ℕ)
    (msg : List ℕ) {c' : ContractData}
    → ft_on_transfer names now byte_cost c predecessor sender_id amount msg ≡ ok c'
    → SeedsBalanced c
    → SeedsBalanced c'
unfolding ft_on_transfer
ft_on_transfer-SeedsBalanced names now byte_cost c predecessor sender_id amount msg h b =
    >>=-elim (assert_contract_running c.state) _ h
      λ _ h₁ r₁. receive-SeedsBalanced names now byte_cost c predecessor sender_id amount msg r₁ b

pub mft_on_transfer-SeedsBalanced :
    (account_id_of : List ℕ → Option ℕ) (names : Names) (now byte_cost : ℕ) (c : ContractData)
    (predecessor : ℕ) (token_id : List ℕ) (sender_id amount : ℕ) (msg : List ℕ) {c' : ContractData}
    → mft_on_transfer account_id_of names now byte_cost c predecessor token_id sender_id amount msg
      ≡ ok c'
    → SeedsBalanced c
    → SeedsBalanced c'
unfolding mft_on_transfer
mft_on_transfer-SeedsBalanced account_id_of names now byte_cost c predecessor token_id sender_id
      amount msg h b =
    >>=-elim (assert_contract_running c.state) _ h λ _ h₁ r₁.
      >>=-elim (parse_token_id account_id_of token_id) _ r₁ λ p h₂ r₂.
        >>=-elim (seed_of names p predecessor) _ r₂ λ seed_id h₃ r₃.
          >>=-elim (assert_no_message msg) _ r₃ λ _ h₄ r₄.
            deposit_seed-SeedsBalanced now byte_cost c seed_id sender_id amount SeedType.mft r₄ b
