-- ===== src/Farming/Examples/Contracts.antt =====
-- A history of the farming contract on concrete values: the owner makes a farm, a farmer pays for his
-- storage, stakes and takes a part back.
use snails_contracts.Common.{
  ℕ, ◌≡◌, refl, [], ◌∷◌, none, some, false, true, ok, panic, Fault, arith,
}
use snails_contracts.Common.Table.{lookup, contains_key}
use snails_contracts.Exchange.Contract.{Call}
use snails_contracts.Farming.Farmer
use snails_contracts.Farming.Farmer.{
  Farmer, SeedType, FarmSeed, add_seed, keep_seed, sub_seed, add_amount, sub_amount, storage_usage,
  set_rps, get_rps, remove_rps,
}
use snails_contracts.Farming.Names.{
  split, to_first, seed_parts, parse_seed_id, parse_farm_id, gen_farm_id, digits,
}
use snails_contracts.Farming.Names.RoundTrip.{parse_farm_id-gen_farm_id}
use snails_contracts.Farming.Contract
use snails_contracts.Farming.Contract.{
  ContractData, Names, RunningState, assert_contract_running, assert_owner, get_seed, get_farmer,
}
use snails_contracts.Farming.Contract.Claims.{
  claim_farms, claim_of_seed, internal_claim_user_reward_by_seed_id,
}
use snails_contracts.Farming.Contract.Seeds.{
  SeedTransfer, credit_seed, debit_seed, remove_all_rps, internal_seed_deposit,
  internal_seed_withdraw, seed_transfer, withdraw_seed,
}
use snails_contracts.Farming.Contract.Rewards.{contains, claim_reward_by_seed}
use snails_contracts.Farming.Contract.Farms.{
  same_bytes, new_seed, seed_or_new, insert_farm, internal_add_farm, create_simple_farm,
}
use snails_contracts.Farming.Contract.Storage.{
  storage_of, assert_storage_usage, suggested_min_storage_usage, left_of, register_found,
  storage_balance_of, register_new, complement, storage_deposit, internal_register_account, leave,
  storage_unregister,
}
use snails_contracts.Farming.Contract.Receiver.{deposit_seed, receive, ft_on_transfer}
use snails_contracts.Farming.Contract.Conservation.{SeedsBalanced}
use snails_contracts.Farming.Contract.Conservation.History.{
  Step, Reachable, Reachable-SeedsBalanced,
}
use snails_contracts.Farming.Contract.Rejoining.{storage_unregister-internal_register_account}
use snails_contracts.Farming.Examples
use snails_contracts.Farming.Examples.{terms, created}

abbrev names : Names
names = record { bytes_of = λ n. n ∷ []; name_of = λ bytes. 5 }

abbrev call : Call
call = record {
  predecessor = 9;
  attached_deposit = 1000;
  now = 0;
  byte_cost = 1;
  prev_storage = 500;
  pool_storage = 500;
  end_storage = 800;
}

abbrev initial : ContractData
initial = record {
  owner_id = 9;
  seeds = [];
  farmers = [];
  farms = [];
  outdated_farms = [];
  farmer_count = 0;
  reward_info = [];
  state = RunningState.running;
  left_rps = [];
}

abbrev seed_with : ℕ → FarmSeed
seed_with amount = record {
  seed_id = 3;
  seed_type = SeedType.ft;
  farms = 5 ∷ [];
  next_index = 1;
  amount = amount;
  min_deposit = 1_000_000_000_000_000_000;
}

abbrev with_farm : ContractData
with_farm = record initial { seeds = (3, seed_with 0) ∷ []; farms = (5, created) ∷ [] }

abbrev newcomer : Farmer
newcomer = record { amount = 2500; rewards = []; seeds = []; user_rps = []; rps_count = 0 }

abbrev registered : ContractData
registered = record with_farm { farmers = (4, newcomer) ∷ []; farmer_count = 1 }

abbrev stake_of : ℕ → ContractData
stake_of amount = record registered {
  seeds = (3, seed_with amount) ∷ [];
  farmers =
      (4, record newcomer { seeds = (3, amount) ∷ []; user_rps = (5, 0) ∷ []; rps_count = 1 }) ∷ [];
}

program : Unit {0}
unfolding Examples.program Contract.new assert_contract_running assert_owner get_seed get_farmer
    claim_farms claim_of_seed internal_claim_user_reward_by_seed_id credit_seed debit_seed
    remove_all_rps internal_seed_deposit internal_seed_withdraw seed_transfer withdraw_seed contains
    claim_reward_by_seed same_bytes new_seed seed_or_new insert_farm internal_add_farm
    create_simple_farm storage_of assert_storage_usage suggested_min_storage_usage left_of
    register_found storage_balance_of register_new complement storage_deposit deposit_seed receive
    ft_on_transfer leave storage_unregister add_amount sub_amount storage_usage Farmer.new split
    to_first seed_parts parse_seed_id gen_farm_id digits set_rps get_rps remove_rps
program = tt

create_run : Contract.new false 9 ≡ ok initial
unfolding program
create_run = refl

farm_run : create_simple_farm names call initial terms none ≡ ok (with_farm, 5, 700)
unfolding program
farm_run = refl

register_run :
    storage_deposit 1 with_farm 4 2500 none none
    ≡ ok (registered, record { total = 2500; available = 2408 }, 0)
unfolding program
register_run = refl

stake_run :
    ft_on_transfer names 0 1 registered 3 4 3_000_000_000_000_000_000 []
    ≡ ok (stake_of 3_000_000_000_000_000_000)
unfolding program
stake_run = refl

withdraw_run :
    withdraw_seed names (ok tt) 0 (stake_of 3_000_000_000_000_000_000) 4 3 1_000_000_000_000_000_000
    ≡ ok
        (stake_of 2_000_000_000_000_000_000, SeedTransfer.ft_transfer 4 1_000_000_000_000_000_000 3)
unfolding program
withdraw_run = refl

Reachable-SeedsBalanced_example : SeedsBalanced (stake_of 2_000_000_000_000_000_000)
Reachable-SeedsBalanced_example = Reachable-SeedsBalanced {names = names} (
    Reachable.follows
      (Reachable.follows
        (Reachable.follows
          (Reachable.follows (Reachable.created false 9 create_run)
            (Step.creates_farm call initial terms none farm_run))
          (Step.pays_storage 1 with_farm 4 2500 none none register_run))
        (Step.receives 0 1 registered 3 4 3_000_000_000_000_000_000 [] stake_run))
      (Step.withdraws (ok tt) 0 (stake_of 3_000_000_000_000_000_000) 4 3 1_000_000_000_000_000_000
        withdraw_run))

parse_farm_id-gen_farm_id_example :
    parse_farm_id (gen_farm_id (115 ∷ 64 ∷ 50 ∷ []) 120) ≡ ok (115 ∷ 64 ∷ 50 ∷ [], 120)
parse_farm_id-gen_farm_id_example =
    parse_farm_id-gen_farm_id (115 ∷ 64 ∷ 50 ∷ []) 120
      (omega arith, (omega arith, (omega arith, tt))) (omega arith)

-- The farmer who has claimed without seeds.
abbrev idle : Farmer
idle = record newcomer { user_rps = (5, 0) ∷ []; rps_count = 1 }

abbrev before : ContractData
before = record registered { farmers = (4, idle) ∷ [] }

abbrev after : ContractData
after = record before { farmers = []; farmer_count = 0; left_rps = (4, idle.user_rps) ∷ [] }

abbrev again : ContractData
again = record after {
  farmers = (4, record idle { amount = 2600; rps_count = 0 }) ∷ [];
  farmer_count = 1;
}

rejoin_runs :
    (claim_reward_by_seed 0 1 registered 4 3 ≡ ok before)
    × (storage_unregister (ok tt) before 4 ≡ ok (after, true, 2500))
    × (internal_register_account after 4 2600 ≡ ok again)
    × (lookup 4 before.farmers ≡ some idle)
    × (contains_key 5 idle.user_rps ≡ true)
unfolding program
rejoin_runs = (refl, refl, refl, refl, refl)

storage_unregister-internal_register_account_example :
    (w : Farmer) × (lookup 4 again.farmers ≡ some w)
    × (get_rps w 5 ≡ get_rps idle 5)
    × (w.rps_count ≡ 0)
    × (remove_rps w 5 ≡ panic Fault.unwrap_none)
storage_unregister-internal_register_account_example =
    storage_unregister-internal_register_account (ok tt) before again 4 2600 5 idle rejoin_runs.3
      rejoin_runs.4 rejoin_runs.1 rejoin_runs.2
