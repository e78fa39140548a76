-- ===== src/Farming/Contract.antt =====
-- The farming contract, snails_farming/src/lib.rs: its state, and how it finds seeds and farmers, in
-- the files actions_of_….rs. Names are numbers; where the contract composes or parses one, a `Names`
-- says which bytes a number stands for.
pub mod Claims
pub mod Seeds
pub mod Rewards
pub mod Farms
pub mod Storage
pub mod Receiver
pub mod Conservation
pub mod Rejoining
use snails_contracts.Common.{
  ℕ, List, [], Bool, true, false, not, Option, none, some, ◌==◌, Result, ok, panic, guard,
  expect_some, ◌>>=◌, ◌>>◌, Fault,
}
use snails_contracts.Common.Table.{Table, lookup}
use snails_contracts.Farming.Farm.{SimpleFarm}
use snails_contracts.Farming.Farmer.{Farmer, FarmSeed}

pub data RunningState : Type 0 where
  running paused : RunningState

-- `left_rps` is not a field of the source: the maps of rewards per seed that farmers who have left
-- still have in the storage, where a farmer of the same name finds them again.
pub record ContractData : Type 0 where
  pub owner_id : ℕ
  pub seeds : Table FarmSeed
  pub farmers : Table Farmer
  pub farms : Table SimpleFarm
  pub outdated_farms : Table SimpleFarm
  pub farmer_count : ℕ
  pub reward_info : Table ℕ
  pub state : RunningState
  pub left_rps : Table (Table ℕ)

-- The text of a name, and the name of a text.
pub record Names : Type 0 where
  pub bytes_of : ℕ → List ℕ
  pub name_of : List ℕ → ℕ

-- `Contract::new`, where `state_exists` is the SDK's answer.
unfoldable pub new : Bool → ℕ → Result ContractData
new state_exists owner_id = do
  guard (not state_exists) Fault.already_initialized
  ok (record {
    owner_id = owner_id;
    seeds = [];
    farmers = [];
    farms = [];
    outdated_farms = [];
    farmer_count = 0;
    reward_info = [];
    state = RunningState.running;
    left_rps = [];
  })

unfoldable pub assert_contract_running : RunningState → Result (Unit {0})
assert_contract_running RunningState.running = ok tt
assert_contract_running RunningState.paused = panic Fault.contract_paused

unfoldable pub assert_owner : ContractData → ℕ → Result (Unit {0})
assert_owner c predecessor = guard (predecessor == c.owner_id) Fault.not_allowed

-- A state that does not change is written again.
unfoldable pub change_state :
    Result (Unit {0}) → ContractData → ℕ → RunningState → Result ContractData
change_state one_yocto c predecessor state = do
  one_yocto
  assert_owner c predecessor
  ok (record c { state = state })

unfoldable pub get_seed : ContractData → ℕ → Result FarmSeed
get_seed c seed_id = expect_some Fault.seed_not_exist (lookup seed_id c.seeds)

unfoldable pub get_farmer : ContractData → ℕ → Result Farmer
get_farmer c from = expect_some Fault.account_not_registered (lookup from c.farmers)
