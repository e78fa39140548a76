-- ===== src/Farming/Contract/Receiver.antt =====
-- Incoming transfers of the farming contract, snails_farming/src/token_receiver.rs: seeds, and rewards
-- for the farm that a message names. Nothing of the amount is returned.
use snails_contracts.Common.{
  ℕ, List, [], ◌∷◌, Option, none, some, leb, ◌==◌, Result, ok, panic, guard, expect, expect_some,
  ◌>>=◌, ◌>>◌, Fault, checked_add, u128,
}
use snails_contracts.Common.Table.{lookup, insert}
use snails_contracts.Exchange.Contract.TokenIds.{TokenOrPool, parse_token_id}
use snails_contracts.Farming.Farm
use snails_contracts.Farming.Farm.{SimpleFarm}
use snails_contracts.Farming.Farmer.{SeedType, or_zero}
use snails_contracts.Farming.Names.{mft_seed_id}
use snails_contracts.Farming.Contract.{ContractData, Names, assert_contract_running, get_seed}
use snails_contracts.Farming.Contract.Seeds.{internal_seed_deposit}
use snails_contracts.Farming.Contract.Storage.{assert_storage_usage}

-- The deposit of a seed: at least the least amount, and the farmer pays for its storage.
unfoldable pub deposit_seed : ℕ → ℕ → ContractData → ℕ → ℕ → ℕ → SeedType → Result ContractData
deposit_seed now byte_cost c seed_id sender_id amount seed_type = do
  s ← get_seed c seed_id
  guard (leb s.min_deposit amount) Fault.below_min_seed_deposited
  c' ← internal_seed_deposit now c seed_id sender_id amount seed_type
  assert_storage_usage byte_cost c' sender_id
  ok c'

-- A farm that takes no reward refuses the transfer.
unfoldable pub rewarded : Option ℕ → SimpleFarm → ContractData → ℕ → ℕ → ℕ → Result ContractData
rewarded none farm c predecessor farm_id amount = panic Fault.invalid_farm_status
rewarded (some cur_remain) farm c predecessor farm_id amount = do
  sum ←
      expect Fault.unwrap_none
        (checked_add u128 (or_zero (lookup predecessor c.reward_info)) amount)
  ok (record c {
    farms = insert farm_id farm c.farms;
    reward_info = insert predecessor sum c.reward_info;
  })

unfoldable pub receive : Names → ℕ → ℕ → ContractData → ℕ → ℕ → ℕ → List ℕ → Result ContractData
receive names now byte_cost c predecessor sender_id amount [] =
    deposit_seed now byte_cost c predecessor sender_id amount SeedType.ft
receive names now byte_cost c predecessor sender_id amount (b ∷ msg) = do
  let farm_id = names.name_of (b ∷ msg)
  farm ← expect_some Fault.farm_not_exist (lookup farm_id c.farms)
  guard ((farm.terms).reward_token == predecessor) Fault.invalid_farm_reward
  (farm', cur_remain) ← Farm.add_reward now farm amount
  rewarded cur_remain farm' c predecessor farm_id amount

unfoldable pub ft_on_transfer :
    Names → ℕ → ℕ → ContractData → ℕ → ℕ → ℕ → List ℕ → Result ContractData
ft_on_transfer names now byte_cost c predecessor sender_id amount msg = do
  assert_contract_running c.state
  receive names now byte_cost c predecessor sender_id amount msg

-- Only the tokens with a number are seeds.
unfoldable pub seed_of : Names → TokenOrPool → ℕ → Result ℕ
seed_of names (TokenOrPool.pool pool_id) predecessor =
    ok (names.name_of (mft_seed_id (names.bytes_of predecessor) pool_id))
seed_of names (TokenOrPool.token token_id) predecessor = panic Fault.illegal_token_id

unfoldable pub assert_no_message : List ℕ → Result (Unit {0})
assert_no_message [] = ok tt
assert_no_message (b ∷ msg) = panic Fault.msg_incorrect

unfoldable pub mft_on_transfer :
    (List ℕ → Option ℕ)
    → Names
    → ℕ
    → ℕ
    → ContractData
    → ℕ
    → List ℕ
    → ℕ
    → ℕ
    → List ℕ
    → Result ContractData
mft_on_transfer account_id_of names now byte_cost c predecessor token_id sender_id amount msg = do
  assert_contract_running c.state
  parsed ← parse_token_id account_id_of token_id
  seed_id ← seed_of names parsed predecessor
  assert_no_message msg
  deposit_seed now byte_cost c seed_id sender_id amount SeedType.mft
