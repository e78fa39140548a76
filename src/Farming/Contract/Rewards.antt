-- ===== src/Farming/Contract/Rewards.antt =====
-- The methods of a farmer over his rewards, snails_farming/src/actions_of_reward.rs. The promise that
-- sends a reward is the amount; its result is an argument of the callback.
use snails_contracts.Common.{
  ℕ, ◌||◌, List, [], ◌∷◌, Bool, true, false, Option, ◌==◌, if◌then◌else◌, Result, ok, panic, guard,
  ◌>>=◌, ◌>>◌, Fault,
}
use snails_contracts.Common.Table.{insert}
use snails_contracts.Exchange.Contract.Promises.{PromiseResult}
use snails_contracts.Farming.Farmer.{or_zero, add_reward, sub_reward, remove_rps}
use snails_contracts.Farming.Names.{parse_farm_id}
use snails_contracts.Farming.Contract.{
  ContractData, Names, assert_contract_running, get_seed, get_farmer,
}
use snails_contracts.Farming.Contract.Claims.{
  internal_claim_user_reward_by_seed_id, internal_claim_user_reward_by_farm_id,
}
use snails_contracts.Farming.Contract.Storage.{assert_storage_usage}

unfoldable pub contains : ℕ → List ℕ → Bool
contains farm_id [] = false
contains farm_id (f ∷ farm_ids) = (farm_id == f) || contains farm_id farm_ids

unfoldable pub remove_user_rps_by_farm : Names → ContractData → ℕ → ℕ → Result (ContractData × Bool)
remove_user_rps_by_farm names c sender_id farm_id = do
  assert_contract_running c.state
  farmer ← get_farmer c sender_id
  (seed_name, index) ← parse_farm_id (names.bytes_of farm_id)
  s ← get_seed c (names.name_of seed_name)
  if contains farm_id s.farms then ok (c, false) else (do
    farmer' ← remove_rps farmer farm_id
    ok (record c { farmers = insert sender_id farmer' c.farmers }, true))

unfoldable pub claim_reward_by_farm : Names → ℕ → ℕ → ContractData → ℕ → ℕ → Result ContractData
claim_reward_by_farm names now byte_cost c sender_id farm_id = do
  assert_contract_running c.state
  c' ← internal_claim_user_reward_by_farm_id names now c sender_id farm_id
  assert_storage_usage byte_cost c' sender_id
  ok c'

unfoldable pub claim_reward_by_seed : ℕ → ℕ → ContractData → ℕ → ℕ → Result ContractData
claim_reward_by_seed now byte_cost c sender_id seed_id = do
  assert_contract_running c.state
  c' ← internal_claim_user_reward_by_seed_id now c sender_id seed_id
  assert_storage_usage byte_cost c' sender_id
  ok c'

-- The amount 0 asks for all.
unfoldable pub withdraw_reward :
    Result (Unit {0}) → ContractData → ℕ → ℕ → Option ℕ → Result (ContractData × ℕ)
withdraw_reward one_yocto c sender_id token_id asked = do
  one_yocto
  assert_contract_running c.state
  farmer ← get_farmer c sender_id
  (farmer', amount) ← sub_reward farmer token_id (or_zero asked)
  ok (record c { farmers = insert sender_id farmer' c.farmers }, amount)

unfoldable pub after_reward : PromiseResult → ContractData → ℕ → ℕ → ℕ → Result ContractData
after_reward PromiseResult.not_ready c token_id sender_id amount = panic Fault.assertion
after_reward (PromiseResult.successful value) c token_id sender_id amount = ok c
after_reward PromiseResult.failed c token_id sender_id amount = do
  farmer ← get_farmer c sender_id
  farmer' ← add_reward farmer token_id amount
  ok (record c { farmers = insert sender_id farmer' c.farmers })

unfoldable pub callback_post_withdraw_reward :
    ℕ → PromiseResult → ContractData → ℕ → ℕ → ℕ → Result ContractData
callback_post_withdraw_reward results result c token_id sender_id amount = do
  assert_contract_running c.state
  guard (results == 1) Fault.callback_invalid
  after_reward result c token_id sender_id amount
