-- ===== src/Farming/Contract/Seeds.antt =====
-- Deposits and withdrawals of seeds, snails_farming/src/actions_of_seed.rs. The promise that sends
-- seeds is a value; its result is an argument of the callback.
use snails_contracts.Common.{
  ℕ, List, [], ◌∷◌, ◌==◌, if◌then◌else◌, Result, ok, panic, guard, ◌>>=◌, ◌>>◌, Fault,
}
use snails_contracts.Common.Table.{insert}
use snails_contracts.Exchange.Contract.Promises.{PromiseResult}
use snails_contracts.Farming.Farmer.{
  Farmer, SeedType, add_amount, sub_amount, add_seed, sub_seed, remove_rps,
}
use snails_contracts.Farming.Names.{parse_seed_id, wrap_mft_token_id}
use snails_contracts.Farming.Contract.{
  ContractData, Names, assert_contract_running, get_seed, get_farmer,
}
use snails_contracts.Farming.Contract.Claims.{internal_claim_user_reward_by_seed_id}

-- A transfer of a token, or of a token of another contract.
pub data SeedTransfer : Type 0 where
  ft_transfer : (receiver_id amount token_contract : ℕ) → SeedTransfer
  mft_transfer : List ℕ → (receiver_id amount : ℕ) → List ℕ → SeedTransfer

-- The seed and the farmer take an amount in.
unfoldable pub credit_seed : ContractData → ℕ → ℕ → ℕ → SeedType → Result ContractData
credit_seed c seed_id sender_id amount seed_type = do
  s ← get_seed c seed_id
  s' ← add_amount (record s { seed_type = seed_type }) amount
  farmer ← get_farmer c sender_id
  farmer' ← add_seed farmer seed_id amount
  ok (record c { seeds = insert seed_id s' c.seeds; farmers = insert sender_id farmer' c.farmers })

-- First the farmer claims the reward of all farms of the seed.
unfoldable pub internal_seed_deposit : ℕ → ContractData → ℕ → ℕ → ℕ → SeedType → Result ContractData
internal_seed_deposit now c seed_id sender_id amount seed_type = do
  c' ← internal_claim_user_reward_by_seed_id now c sender_id seed_id
  credit_seed c' seed_id sender_id amount seed_type

-- The loop that removes the rewards per seed of the farms.
unfoldable pub remove_all_rps : Farmer → List ℕ → Result Farmer
remove_all_rps farmer [] = ok farmer
remove_all_rps farmer (farm_id ∷ farm_ids) = do
  farmer' ← remove_rps farmer farm_id
  remove_all_rps farmer' farm_ids

-- The seed and the farmer give an amount out.
unfoldable pub debit_seed : ContractData → ℕ → ℕ → ℕ → Result (ContractData × SeedType)
debit_seed c seed_id sender_id amount = do
  s ← get_seed c seed_id
  farmer ← get_farmer c sender_id
  (farmer', farmer_seed_remain) ← sub_seed farmer seed_id amount
  (s', seed_remain) ← sub_amount s amount
  farmer'' ← if farmer_seed_remain == 0 then remove_all_rps farmer' s'.farms else ok farmer'
  ok (
    record c { farmers = insert sender_id farmer'' c.farmers; seeds = insert seed_id s' c.seeds },
    s'.seed_type,
  )

unfoldable pub internal_seed_withdraw :
    ℕ → ContractData → ℕ → ℕ → ℕ → Result (ContractData × SeedType)
internal_seed_withdraw now c seed_id sender_id amount = do
  c' ← internal_claim_user_reward_by_seed_id now c sender_id seed_id
  debit_seed c' seed_id sender_id amount

-- The transfer for a type of seed. The name that it is sent to is that of the caller who made the
-- deposit, hence an account's.
unfoldable pub seed_transfer : Names → SeedType → ℕ → ℕ → ℕ → Result SeedTransfer
seed_transfer names SeedType.ft seed_id sender_id amount =
    ok (SeedTransfer.ft_transfer sender_id amount seed_id)
seed_transfer names SeedType.mft seed_id sender_id amount = do
  (receiver_id, token_id) ← parse_seed_id (names.bytes_of seed_id)
  ok (SeedTransfer.mft_transfer (wrap_mft_token_id token_id) sender_id amount receiver_id)

-- `one_yocto` is the outcome of the source's `assert_one_yocto`.
unfoldable pub withdraw_seed :
    Names → Result (Unit {0}) → ℕ → ContractData → ℕ → ℕ → ℕ → Result (ContractData × SeedTransfer)
withdraw_seed names one_yocto now c sender_id seed_id amount = do
  one_yocto
  assert_contract_running c.state
  (c', seed_type) ← internal_seed_withdraw now c seed_id sender_id amount
  promise ← seed_transfer names seed_type seed_id sender_id amount
  ok (c', promise)

-- A failed transfer is a deposit of what could not be sent.
unfoldable pub after_withdrawal :
    ℕ → SeedType → PromiseResult → ContractData → ℕ → ℕ → ℕ → Result ContractData
after_withdrawal now seed_type PromiseResult.not_ready c seed_id sender_id amount =
    panic Fault.assertion
after_withdrawal now seed_type (PromiseResult.successful value) c seed_id sender_id amount = ok c
after_withdrawal now seed_type PromiseResult.failed c seed_id sender_id amount = do
  c' ← internal_claim_user_reward_by_seed_id now c sender_id seed_id
  credit_seed c' seed_id sender_id amount seed_type

-- The two callbacks differ in the type of the seed.
unfoldable pub callback_post_withdraw_seed :
    ℕ → SeedType → ℕ → PromiseResult → ContractData → ℕ → ℕ → ℕ → Result ContractData
callback_post_withdraw_seed now seed_type results result c seed_id sender_id amount = do
  assert_contract_running c.state
  guard (results == 1) Fault.callback_invalid
  after_withdrawal now seed_type result c seed_id sender_id amount

abbrev pub callback_post_withdraw_ft_seed :
    ℕ → ℕ → PromiseResult → ContractData → ℕ → ℕ → ℕ → Result ContractData
callback_post_withdraw_ft_seed now = callback_post_withdraw_seed now SeedType.ft

abbrev pub callback_post_withdraw_mft_seed :
    ℕ → ℕ → PromiseResult → ContractData → ℕ → ℕ → ℕ → Result ContractData
callback_post_withdraw_mft_seed now = callback_post_withdraw_seed now SeedType.mft
