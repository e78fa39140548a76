-- ===== src/Farming/Contract/Conservation/Claims.antt =====
-- Claims of rewards, and what they leave of the amounts of the seeds.
use mathlib.Core.Path.{subst}
use snails_contracts.Common.{
  ℕ, ◌≡◌, refl, sym, ap, ◌∙◌, Option, none, some, ok, >>=-elim, ok-injective, expect_some,
  expect_some-ok, Fault,
}
use snails_contracts.Common.Table.{lookup, insert}
use snails_contracts.Farming.Farm.{SimpleFarm}
use snails_contracts.Farming.Farmer.{Farmer, FarmSeed, or_zero, claim_user_reward_from_farm}
use snails_contracts.Farming.Names.{parse_farm_id}
use snails_contracts.Farming.Contract.{ContractData, Names, get_farmer}
use snails_contracts.Farming.Contract.Claims.{
  claim_farms, claim_of_seed, claim_of_farm, internal_claim_user_reward_by_seed_id,
  internal_claim_user_reward_by_farm_id,
}
use snails_contracts.Farming.Contract.Conservation.{
  SeedsBalanced, amount_in, seeds_of, same_seeds-SeedsBalanced, same_amount, staked,
}
use snails_contracts.Farming.Contract.Conservation.Farmers.{claim-seeds, claim_farms-seeds}

-- A known farmer is written with the seeds that he had.
pub farmer_written :
    (c c' : ContractData) (account : ℕ) (w w' : Farmer)
    → SeedsBalanced c
    → lookup account c.farmers ≡ some w
    → c'.farmers ≡ insert account w' c.farmers
    → ((k : ℕ) → amount_in (lookup k c'.seeds) ≡ amount_in (lookup k c.seeds))
    → w'.seeds ≡ w.seeds
    → SeedsBalanced c'
farmer_written c c' account w w' b found e_farmers amounts same =
    same_seeds-SeedsBalanced c c' account w' b e_farmers amounts
      λ k. ap (λ t. or_zero (lookup k t)) same ∙ ap (λ o. seeds_of o k) (sym found)

-- No farmer is written, and the amounts stay.
pub seeds_written :
    (c c' : ContractData)
    → SeedsBalanced c
    → c'.farmers ≡ c.farmers
    → ((k : ℕ) → amount_in (lookup k c'.seeds) ≡ amount_in (lookup k c.seeds))
    → SeedsBalanced c'
seeds_written c c' b e amounts = record {
  balanced = λ k. amounts k ∙ b.balanced k ∙ ap (λ t. staked t k) (sym e);
  distinct = rw e b.distinct;
}

claim_of_seed-SeedsBalanced :
    (now : ℕ) (o : Option FarmSeed) (c : ContractData) (sender_id seed_id : ℕ) (w : Farmer)
    {c' : ContractData}
    → lookup seed_id c.seeds ≡ o
    → lookup sender_id c.farmers ≡ some w
    → claim_of_seed now o c sender_id seed_id w ≡ ok c'
    → SeedsBalanced c
    → SeedsBalanced c'
unfolding claim_of_seed
claim_of_seed-SeedsBalanced now none c sender_id seed_id w e found h b =
    subst SeedsBalanced (ok-injective h) b
claim_of_seed-SeedsBalanced now (some s) c sender_id seed_id w e found h b =
    >>=-elim (claim_farms now s.amount s.farms c.farms w) _ h λ d h₁ r₁.
      subst SeedsBalanced (ok-injective r₁) (
        farmer_written c _ sender_id w d.1 b found refl
          (λ k. same_amount c.seeds seed_id k s (ap amount_in (sym e)))
          (claim_farms-seeds now s.amount s.farms c.farms w h₁))

pub claim_by_seed-SeedsBalanced :
    (now : ℕ) (c : ContractData) (sender_id seed_id : ℕ) {c' : ContractData}
    → internal_claim_user_reward_by_seed_id now c sender_id seed_id ≡ ok c'
    → SeedsBalanced c
    → SeedsBalanced c'
unfolding internal_claim_user_reward_by_seed_id get_farmer
claim_by_seed-SeedsBalanced now c sender_id seed_id h b =
    >>=-elim (expect_some Fault.account_not_registered (lookup sender_id c.farmers)) _ h λ w h₁ r₁.
      claim_of_seed-SeedsBalanced now (lookup seed_id c.seeds) c sender_id seed_id w refl
        (expect_some-ok _ _ h₁) r₁ b

claim_of_farm-SeedsBalanced :
    (now : ℕ) (o : Option FarmSeed) (f : Option SimpleFarm) (c : ContractData)
    (sender_id farm_id : ℕ) (w : Farmer) {c' : ContractData}
    → lookup sender_id c.farmers ≡ some w
    → claim_of_farm now o f c sender_id farm_id w ≡ ok c'
    → SeedsBalanced c
    → SeedsBalanced c'
unfolding claim_of_farm
claim_of_farm-SeedsBalanced now none f c sender_id farm_id w found h b =
    subst SeedsBalanced (ok-injective h) b
claim_of_farm-SeedsBalanced now (some s) none c sender_id farm_id w found h b =
    subst SeedsBalanced (ok-injective h) b
claim_of_farm-SeedsBalanced now (some s) (some f) c sender_id farm_id w found h b =
    >>=-elim (claim_user_reward_from_farm now f w s.amount) _ h λ d h₁ r₁.
      subst SeedsBalanced (ok-injective r₁) (
        farmer_written c _ sender_id w d.1 b found refl (λ k. refl)
          (claim-seeds now f w s.amount h₁))

pub claim_by_farm-SeedsBalanced :
    (names : Names) (now : ℕ) (c : ContractData) (sender_id farm_id : ℕ) {c' : ContractData}
    → internal_claim_user_reward_by_farm_id names now c sender_id farm_id ≡ ok c'
    → SeedsBalanced c
    → SeedsBalanced c'
unfolding internal_claim_user_reward_by_farm_id get_farmer
claim_by_farm-SeedsBalanced names now c sender_id farm_id h b =
    >>=-elim (expect_some Fault.account_not_registered (lookup sender_id c.farmers)) _ h λ w h₁ r₁.
      >>=-elim (parse_farm_id (names.bytes_of farm_id)) _ r₁ λ p h₂ r₂.
        claim_of_farm-SeedsBalanced now (lookup (names.name_of p.0) c.seeds)
          (lookup farm_id c.farms) c sender_id farm_id w (expect_some-ok _ _ h₁) r₂ b
