-- ===== src/Farming/Examples.antt =====
-- A farm and a farmer run on concrete values: a session of 10 s gives 60, and farming starts at
-- 100 s.
pub mod Contracts
use snails_contracts.Common.{
  ℕ, panic, Fault, ◌+◌, ◌-◌, ◌*◌, ◌<◌, ◌≤◌, ◌≡◌, ◌≢◌, refl, [], ◌∷◌, some, ok, arith, checked_add,
  checked_sub, checked_mul, checked_div, narrow,
}
use snails_contracts.Common.Table.{lookup, insert, remove, contains_key}
use snails_contracts.Farming.Farm
use snails_contracts.Farming.Farm.{
  view_farmer_unclaimed_reward, SimpleFarm, SimpleFarmTerms, SimpleFarmStatus, Distribution, to_sec,
  to_nano, plus, last_rounds, rounds_until, next_rps, advance, try_distribute, reward_since,
  pay_beneficiary, record_distribution, end_if_empty, distribute, grow, start, add_by_status,
  add_reward, pay_farmer, claim_user_reward,
}
use snails_contracts.Farming.Farm.Rounds.{round_at, advance_lem}
use snails_contracts.Farming.Farm.Conservation.{IsConserved}
use snails_contracts.Farming.Farm.Claims.{claim_user_reward_lem}
use snails_contracts.Farming.Farm.History.{Step, Reachable, Reachable-IsConserved}
use snails_contracts.Farming.Farm.Unstaked.{claim_user_reward-no_seeds}
use snails_contracts.Farming.Farm.Preview.{view_farmer_unclaimed_reward-claim_user_reward}
use snails_contracts.Farming.Farmer
use snails_contracts.Farming.Farmer.{
  Farmer, or_zero, grown, add_seed, keep_seed, sub_seed, get_rps, set_rps,
  claim_user_reward_from_farm,
}
use snails_contracts.Farming.Farmer.Claim.{claim_user_reward_from_farm_lem, sub_seed-add_seed}

pub program : Unit {0}
unfolding Farm.new to_sec to_nano plus last_rounds rounds_until next_rps advance try_distribute
    reward_since pay_beneficiary record_distribution end_if_empty distribute grow start
    add_by_status pay_farmer claim_user_reward grown Farmer.add_reward add_seed keep_seed sub_seed
    get_rps set_rps claim_user_reward_from_farm lookup insert remove contains_key checked_add
    checked_sub checked_mul checked_div narrow
program = tt

abbrev pub terms : SimpleFarmTerms
terms = record {
  seed_id = 3;
  reward_token = 7;
  start_at = 100;
  reward_per_session = 60;
  session_interval = 10;
}

abbrev pub created : SimpleFarm
created = record {
  farm_id = 5;
  terms = terms;
  status = SimpleFarmStatus.created;
  last_distribution = record { undistributed = 0; unclaimed = 0; rps = 0; rr = 0 };
  amount_of_reward = 0;
  amount_of_claimed = 0;
  amount_of_beneficiary = 0;
}

-- After a deposit of 1000.
abbrev running : SimpleFarm
running = record created {
  status = SimpleFarmStatus.running;
  last_distribution = record { undistributed = 1000; unclaimed = 0; rps = 0; rr = 0 };
  amount_of_reward = 1000;
}

-- The distribution at 125 s, for 40 seeds: two sessions.
abbrev second : Distribution
second = record {
  undistributed = 880;
  unclaimed = 120;
  rps = 3_000_000_000_000_000_000_000_000;
  rr = 2;
}

-- After the claim for 10 of the seeds.
abbrev claimed : SimpleFarm
claimed = record running {
  last_distribution = record second { unclaimed = 90 };
  amount_of_claimed = 30;
}

abbrev farmer : Farmer
farmer = record { amount = 0; rewards = []; seeds = (3, 10) ∷ []; user_rps = []; rps_count = 0 }

abbrev paid : Farmer
paid = record farmer { rewards = (7, 30) ∷ []; user_rps = (5, second.rps) ∷ []; rps_count = 1 }

abbrev staked : Farmer
staked = record farmer { seeds = (3, 25) ∷ [] }

runs :
    (Farm.new 5 terms ≡ created)
    × (add_reward 50_000_000_000 created 1000 ≡ ok (running, some 1000))
    × (advance 125_000_000_000 40 running ≡ ok second)
    × (claim_user_reward 125_000_000_000 running 0 10 40 ≡ ok (claimed, second.rps, 30))
    × (claim_user_reward_from_farm 125_000_000_000 running farmer 40 ≡ ok (claimed, paid))
    × (add_seed farmer 3 15 ≡ ok staked)
unfolding program
runs = (refl, refl, refl, refl, refl, refl)

running-IsConserved : IsConserved running
running-IsConserved = record {
  reward = omega arith;
  beneficiary = omega arith;
  ended_empty = λ e. cc;
  cleared_empty = λ e. cc;
}

advance_lem_example :
    (second.undistributed + second.unclaimed ≡ 1000 + 0)
    × (0 ≤ round_at 125_000_000_000 terms)
    × (second.undistributed ≡ 1000 - (round_at 125_000_000_000 terms - 0) * 60)
    × (0 < 40 → 0 ≤ second.rps)
advance_lem_example = advance_lem 125_000_000_000 40 running runs.2

claim_user_reward_lem_example :
    (f : SimpleFarm) × (distribute 125_000_000_000 running 40 ≡ ok f)
    × (second.rps ≡ (f.last_distribution).rps)
    × (reward_since 10 second.rps 0 ≡ ok 30)
    × (30 ≤ (f.last_distribution).unclaimed)
    × IsConserved claimed
claim_user_reward_lem_example =
    claim_user_reward_lem 125_000_000_000 running 0 10 40 runs.3 running-IsConserved

Reachable-IsConserved_example : IsConserved claimed
unfolding Farm.new
Reachable-IsConserved_example = Reachable-IsConserved (
    Reachable.follows
      (Reachable.follows (Reachable.creates 5 terms) (Step.adds 50_000_000_000 created 1000 runs.1))
      (Step.claims 125_000_000_000 running 0 10 40 runs.3))

claim_user_reward_from_farm_lem_example :
    (out : SimpleFarm × ℕ × ℕ) × (claim_user_reward 125_000_000_000 running
        (get_rps farmer 5)
        (or_zero (lookup 3 farmer.seeds))
        40
      ≡ ok out)
    × (claimed ≡ out.0)
    × IsConserved claimed
    × (get_rps paid 5 ≡ out.1)
    × (or_zero (lookup 7 paid.rewards) ≡ or_zero (lookup 7 farmer.rewards) + out.2)
    × ((k : ℕ) → k ≢ 7 → lookup k paid.rewards ≡ lookup k farmer.rewards)
    × (paid.seeds ≡ farmer.seeds)
claim_user_reward_from_farm_lem_example =
    claim_user_reward_from_farm_lem 125_000_000_000 running farmer 40 runs.4 running-IsConserved

sub_seed-add_seed_example :
    (w : Farmer) × (left : ℕ) × (sub_seed staked 3 15 ≡ ok (w, left))
    × (left ≡ or_zero (lookup 3 farmer.seeds))
    × ((k : ℕ) → or_zero (lookup k w.seeds) ≡ or_zero (lookup k farmer.seeds))
sub_seed-add_seed_example = sub_seed-add_seed farmer 3 15 runs.5 (omega arith)

view_farmer_unclaimed_reward-claim_user_reward_example :
    view_farmer_unclaimed_reward 125_000_000_000 running 0 10 40 ≡ ok 30
view_farmer_unclaimed_reward-claim_user_reward_example =
    view_farmer_unclaimed_reward-claim_user_reward 125_000_000_000 running 0 10 40 runs.3
      (omega arith)

-- The same rounds where nobody stakes.
abbrev unstaked : Distribution
unstaked = record second { rps = 0 }

abbrev unstaked_farm : SimpleFarm
unstaked_farm = record running {
  last_distribution = record unstaked { unclaimed = 0 };
  amount_of_claimed = 120;
  amount_of_beneficiary = 120;
}

unstaked_runs :
    (try_distribute 125_000_000_000 running 0 ≡ ok (some unstaked))
    × (distribute 125_000_000_000 running 0 ≡ ok unstaked_farm)
unfolding program
unstaked_runs = (refl, refl)

claim_user_reward-no_seeds_example :
    ((unstaked_farm.last_distribution).rps ≡ 0)
    × (claim_user_reward 125_000_000_000 running 5 0 0 ≡ panic Fault.overflow)
claim_user_reward-no_seeds_example =
    claim_user_reward-no_seeds 125_000_000_000 running 5 0 unstaked unstaked_runs.0 refl
      unstaked_runs.1 (omega arith)
