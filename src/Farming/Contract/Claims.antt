-- ===== src/Farming/Contract/Claims.antt =====
-- The claims of a farmer from the farms of a seed or from one farm, in
-- snails_farming/src/actions_of_reward.rs.
use snails_contracts.Common.{
  ℕ, List, [], ◌∷◌, Option, none, some, Result, ok, expect_some, ◌>>=◌, Fault,
}
use snails_contracts.Common.Table.{Table, lookup, insert}
use snails_contracts.Farming.Farm.{SimpleFarm}
use snails_contracts.Farming.Farmer.{Farmer, FarmSeed, claim_user_reward_from_farm}
use snails_contracts.Farming.Names.{parse_farm_id}
use snails_contracts.Farming.Contract.{ContractData, Names, get_farmer}

-- The loop over the farms of a seed with the amount staked.
unfoldable pub claim_farms :
    ℕ → ℕ → List ℕ → Table SimpleFarm → Farmer → Result (Table SimpleFarm × Farmer)
claim_farms now amount [] farms farmer = ok (farms, farmer)
claim_farms now amount (farm_id ∷ farm_ids) farms farmer = do
  farm ← expect_some Fault.unwrap_none (lookup farm_id farms)
  (farm', farmer') ← claim_user_reward_from_farm now farm farmer amount
  claim_farms now amount farm_ids (insert farm_id farm' farms) farmer'

unfoldable pub claim_of_seed :
    ℕ → Option FarmSeed → ContractData → ℕ → ℕ → Farmer → Result ContractData
claim_of_seed now none c sender_id seed_id farmer = ok c
claim_of_seed now (some s) c sender_id seed_id farmer = do
  (farms, farmer') ← claim_farms now s.amount s.farms c.farms farmer
  ok (record c {
    farms = farms;
    seeds = insert seed_id s c.seeds;
    farmers = insert sender_id farmer' c.farmers;
  })

unfoldable pub internal_claim_user_reward_by_seed_id :
    ℕ → ContractData → ℕ → ℕ → Result ContractData
internal_claim_user_reward_by_seed_id now c sender_id seed_id = do
  farmer ← get_farmer c sender_id
  claim_of_seed now (lookup seed_id c.seeds) c sender_id seed_id farmer

-- The seed of the farm and the farm, if both are known.
unfoldable pub claim_of_farm :
    ℕ → Option FarmSeed → Option SimpleFarm → ContractData → ℕ → ℕ → Farmer → Result ContractData
claim_of_farm now none farm c sender_id farm_id farmer = ok c
claim_of_farm now (some s) none c sender_id farm_id farmer = ok c
claim_of_farm now (some s) (some farm) c sender_id farm_id farmer = do
  (farm', farmer') ← claim_user_reward_from_farm now farm farmer s.amount
  ok (record c {
    farms = insert farm_id farm' c.farms;
    farmers = insert sender_id farmer' c.farmers;
  })

unfoldable pub internal_claim_user_reward_by_farm_id :
    Names → ℕ → ContractData → ℕ → ℕ → Result ContractData
internal_claim_user_reward_by_farm_id names now c sender_id farm_id = do
  farmer ← get_farmer c sender_id
  (seed_name, index) ← parse_farm_id (names.bytes_of farm_id)
  claim_of_farm now (lookup (names.name_of seed_name) c.seeds) (lookup farm_id c.farms) c sender_id
      farm_id farmer
