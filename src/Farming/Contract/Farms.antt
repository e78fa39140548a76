-- ===== src/Farming/Contract/Farms.antt =====
-- The owner's methods over farms, snails_farming/src/actions_of_farm.rs and owner.rs, and the
-- construction of a seed in farm_seed.rs.
use snails_contracts.Common.{
  ℕ, List, [], ◌∷◌, ◌++◌, Bool, true, false, ◌&&◌, Option, none, some, ◌==◌, leb, if◌then◌else◌,
  Result, ok, guard, expect, expect_some, ◌>>=◌, ◌>>◌, Fault, checked_add, checked_sub, checked_mul,
  u32, u128,
}
use snails_contracts.Common.Table.{lookup, insert, remove}
use snails_contracts.Exchange.Contract.{Call}
use snails_contracts.Farming.Farm
use snails_contracts.Farming.Farm.{SimpleFarm, SimpleFarmTerms}
use snails_contracts.Farming.Farmer.{SeedType, FarmSeed}
use snails_contracts.Farming.Names.{parse_seed_id, parse_farm_id, gen_farm_id}
use snails_contracts.Farming.Contract.{
  ContractData, Names, assert_contract_running, assert_owner, get_seed,
}
use snails_contracts.Farming.Contract.Rewards.{contains}

unfoldable pub same_bytes : List ℕ → List ℕ → Bool
same_bytes [] [] = true
same_bytes [] (d ∷ ds) = false
same_bytes (c ∷ cs) [] = false
same_bytes (c ∷ cs) (d ∷ ds) = (c == d) && same_bytes cs ds

-- `FarmSeed::new`
unfoldable pub new_seed : Names → ℕ → ℕ → Result FarmSeed
new_seed names seed_id min_deposit = do
  (token_id, token_index) ← parse_seed_id (names.bytes_of seed_id)
  ok (record {
    seed_id = seed_id;
    seed_type = if same_bytes token_id token_index then SeedType.ft else SeedType.mft;
    farms = [];
    next_index = 0;
    amount = 0;
    min_deposit = min_deposit;
  })

unfoldable pub seed_or_new : Names → Option FarmSeed → ℕ → ℕ → Result FarmSeed
seed_or_new names (some s) seed_id min_deposit = ok s
seed_or_new names none seed_id min_deposit = new_seed names seed_id min_deposit

-- An insertion into a set.
unfoldable pub insert_farm : ℕ → List ℕ → List ℕ
insert_farm farm_id farms = if contains farm_id farms then farms else farms ++ (farm_id ∷ [])

unfoldable pub internal_add_farm :
    Names → ContractData → SimpleFarmTerms → ℕ → Result (ContractData × ℕ)
internal_add_farm names c terms min_deposit = do
  s ← seed_or_new names (lookup terms.seed_id c.seeds) terms.seed_id min_deposit
  let farm_id = names.name_of (gen_farm_id (names.bytes_of terms.seed_id) s.next_index)
  next_index ← expect Fault.unwrap_none (checked_add u32 s.next_index 1)
  let s' = record s { farms = insert_farm farm_id s.farms; next_index = next_index }
  ok (
    record c {
      seeds = insert terms.seed_id s' c.seeds;
      farms = insert farm_id (Farm.new farm_id terms) c.farms;
    },
    farm_id,
  )

-- `MIN_SEED_DEPOSIT`
abbrev pub min_deposit_or : Option ℕ → ℕ
min_deposit_or none = 1_000_000_000_000_000_000
min_deposit_or (some min_deposit) = min_deposit

-- The contract, the new farm and the refund.
unfoldable pub create_simple_farm :
    Names → Call → ContractData → SimpleFarmTerms → Option ℕ → Result (ContractData × ℕ × ℕ)
create_simple_farm names call c terms min_deposit = do
  assert_owner c call.predecessor
  assert_contract_running c.state
  (c', farm_id) ← internal_add_farm names c terms (min_deposit_or min_deposit)
  storage_needed ← expect Fault.unwrap_none (checked_sub call.end_storage call.prev_storage)
  storage_cost ← expect Fault.overflow (checked_mul u128 storage_needed call.byte_cost)
  guard (leb storage_cost call.attached_deposit) Fault.storage_deposit
  refund ← expect Fault.unwrap_none (checked_sub call.attached_deposit storage_cost)
  ok (c', farm_id, refund)

unfoldable pub change_reward_per_session : ContractData → ℕ → ℕ → ℕ → Result ContractData
change_reward_per_session c predecessor farm_id reward_per_session = do
  assert_owner c predecessor
  assert_contract_running c.state
  farm ← expect_some Fault.unwrap_none (lookup farm_id c.farms)
  ok (record c {
    farms = insert farm_id (Farm.change_reward_per_session farm reward_per_session) c.farms;
  })

unfoldable pub removable : ℕ → Option SimpleFarm → ℕ → Result Bool
removable now none seed_amount = ok false
removable now (some farm) seed_amount = Farm.can_be_removed now farm seed_amount

unfoldable pub without : ℕ → List ℕ → List ℕ
without farm_id [] = []
without farm_id (f ∷ farms) =
    if farm_id == f then without farm_id farms else f ∷ without farm_id farms

unfoldable pub remove_found :
    ℕ → Option FarmSeed → ContractData → ℕ → ℕ → Result (ContractData × Bool)
remove_found now none c seed_id farm_id = ok (c, false)
remove_found now (some s) c seed_id farm_id = do
  can ← removable now (lookup farm_id c.farms) s.amount
  if can
      then (do
        farm ← expect_some Fault.farm_not_exist (lookup farm_id c.farms)
        (farm', moved) ← Farm.move_to_clear now farm s.amount
        ok (
          record c {
            farms = remove farm_id c.farms;
            outdated_farms = insert farm_id farm' c.outdated_farms;
            seeds = insert seed_id (record s { farms = without farm_id s.farms }) c.seeds;
          },
          true,
        ))
      else ok (c, false)

unfoldable pub internal_remove_farm_by_farm_id :
    Names → ℕ → ContractData → ℕ → Result (ContractData × Bool)
internal_remove_farm_by_farm_id names now c farm_id = do
  (seed_name, index) ← parse_farm_id (names.bytes_of farm_id)
  let seed_id = names.name_of seed_name
  remove_found now (lookup seed_id c.seeds) c seed_id farm_id

unfoldable pub force_clean_farm : Names → ℕ → ContractData → ℕ → ℕ → Result (ContractData × Bool)
force_clean_farm names now c predecessor farm_id = do
  assert_owner c predecessor
  assert_contract_running c.state
  internal_remove_farm_by_farm_id names now c farm_id

-- The seed that is changed is a copy, which is not written back.
unfoldable pub modify_seed_min_deposit : ContractData → ℕ → ℕ → ℕ → Result ContractData
modify_seed_min_deposit c predecessor seed_id min_deposit = do
  assert_owner c predecessor
  assert_contract_running c.state
  s ← get_seed c seed_id
  let s' = record s { min_deposit = min_deposit }
  ok c
