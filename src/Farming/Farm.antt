-- ===== src/Farming/Farm.antt =====
-- A farm: `SimpleFarm`, its terms, its status and its methods, in
-- snails_farming/src/simple_farm.rs, and the clock's `to_sec` and `to_nano` of
-- snails_farming/src/utils.rs.
pub mod Rounds
pub mod Conservation
pub mod Claims
pub mod Preview
pub mod Unstaked
pub mod History
use snails_contracts.Common.{
  ℕ, ◌*◌, ◌/◌, ◌%◌, ◌^◌, Bool, true, false, Option, none, some, ltb, leb, ◌==◌, if◌then◌else◌,
  Result, ok, guard, expect, ◌>>=◌, ◌>>◌, Fault, checked_add, checked_sub, checked_mul, checked_div,
  narrow, u32, u64, u128, u256,
}

unfoldable pub to_sec : ℕ → ℕ
to_sec timestamp = timestamp / 1_000_000_000 % u32

unfoldable pub to_nano : ℕ → ℕ
to_nano timestamp = timestamp * 1_000_000_000

abbrev pub denom : ℕ
denom = 10 ^ 24

pub record SimpleFarmTerms : Type 0 where
  pub seed_id : ℕ
  pub reward_token : ℕ
  pub start_at : ℕ
  pub reward_per_session : ℕ
  pub session_interval : ℕ

pub data SimpleFarmStatus : Type 0 where
  created running ended cleared : SimpleFarmStatus

pub record Distribution : Type 0 where
  pub undistributed : ℕ
  pub unclaimed : ℕ
  pub rps : ℕ
  pub rr : ℕ

pub record SimpleFarm : Type 0 where
  pub farm_id : ℕ
  pub terms : SimpleFarmTerms
  pub status : SimpleFarmStatus
  pub last_distribution : Distribution
  pub amount_of_reward : ℕ
  pub amount_of_claimed : ℕ
  pub amount_of_beneficiary : ℕ

unfoldable pub new : ℕ → SimpleFarmTerms → SimpleFarm
new id terms = record {
  farm_id = id;
  terms = terms;
  status = SimpleFarmStatus.created;
  last_distribution = record { undistributed = 0; unclaimed = 0; rps = 0; rr = 0 };
  amount_of_reward = 0;
  amount_of_claimed = 0;
  amount_of_beneficiary = 0;
}

unfoldable pub change_reward_per_session : SimpleFarm → ℕ → SimpleFarm
change_reward_per_session f reward_per_session = record f {
  terms = record f.terms { reward_per_session = reward_per_session };
}

-- The sum of a `checked_add(…).unwrap()` on amounts.
unfoldable pub plus : ℕ → ℕ → Result ℕ
plus a b = expect Fault.unwrap_none (checked_add u128 a b)

-- The round and the reward where all that is left is distributed.
unfoldable pub last_rounds : Distribution → SimpleFarmTerms → Result (ℕ × ℕ)
last_rounds last terms = do
  quotient ← expect Fault.unwrap_none (checked_div last.undistributed terms.reward_per_session)
  let increased_rr = quotient % u32
  rr ← expect Fault.unwrap_none (checked_add u32 last.rr increased_rr)
  reward_calculated ←
      expect Fault.unwrap_none (checked_mul u128 increased_rr terms.reward_per_session)
  rr' ←
      if ltb reward_calculated last.undistributed
      then expect Fault.unwrap_none (checked_add u32 rr 1)
      else ok rr
  ok (rr', last.undistributed)

-- The round at a time and the reward of the rounds since the last distribution.
unfoldable pub rounds_until : ℕ → Distribution → SimpleFarmTerms → Result (ℕ × ℕ)
rounds_until now last terms = do
  elapsed ← expect Fault.unwrap_none (checked_sub (to_sec now) terms.start_at)
  rr ← expect Fault.division_by_zero (checked_div elapsed terms.session_interval)
  rounds ← expect Fault.unwrap_none (checked_sub rr last.rr)
  reward_added ← expect Fault.overflow (checked_mul u128 rounds terms.reward_per_session)
  if ltb last.undistributed reward_added then last_rounds last terms else ok (rr, reward_added)

-- The reward per seed after a reward, which starts again where there is no seed.
unfoldable pub next_rps : ℕ → ℕ → ℕ → Result ℕ
next_rps rps reward_added total_seeds = if total_seeds == 0 then ok 0 else do
  product ← expect Fault.overflow (checked_mul u256 reward_added denom)
  expect Fault.overflow (checked_add u256 rps (product / total_seeds))

-- `try_distribute` of a running farm that has started.
unfoldable pub advance : ℕ → ℕ → SimpleFarm → Result Distribution
advance now total_seeds f = do
  (rr, reward_added) ← rounds_until now f.last_distribution f.terms
  unclaimed ← plus (f.last_distribution).unclaimed reward_added
  undistributed ←
      expect Fault.unwrap_none (checked_sub (f.last_distribution).undistributed reward_added)
  rps ← next_rps (f.last_distribution).rps reward_added total_seeds
  ok (record { undistributed = undistributed; unclaimed = unclaimed; rps = rps; rr = rr })

abbrev pub is_running : SimpleFarmStatus → Bool
is_running SimpleFarmStatus.running = true
is_running _ = false

unfoldable pub try_distribute : ℕ → SimpleFarm → ℕ → Result (Option Distribution)
try_distribute now f total_seeds =
    if is_running f.status
    then (if ltb now (to_nano (f.terms).start_at)
        then ok none
        else do dis ← advance now total_seeds f; ok (some dis))
    else ok none

-- The reward of an amount of seeds since the reward per seed was `user_rps`.
unfoldable pub reward_since : ℕ → ℕ → ℕ → Result ℕ
reward_since user_seeds rps user_rps = do
  difference ← expect Fault.overflow (checked_sub rps user_rps)
  product ← expect Fault.overflow (checked_mul u256 user_seeds difference)
  expect Fault.overflow (narrow u128 (product / denom))

unfoldable pub view_farmer_unclaimed_reward : ℕ → SimpleFarm → ℕ → ℕ → ℕ → Result ℕ
view_farmer_unclaimed_reward now f user_rps user_seeds total_seeds =
    if total_seeds == 0 then ok 0 else if user_seeds == 0 then ok 0 else do
      distributed ← try_distribute now f total_seeds
      elim distributed [
        | some dis ↦ reward_since user_seeds dis.rps user_rps
        | none ↦ reward_since user_seeds (f.last_distribution).rps user_rps
      ]

-- The unclaimed reward goes to the beneficiary.
unfoldable pub pay_beneficiary : SimpleFarm → Result SimpleFarm
pay_beneficiary f = do
  claimed ← plus f.amount_of_claimed (f.last_distribution).unclaimed
  beneficiary ← plus f.amount_of_beneficiary (f.last_distribution).unclaimed
  ok (record f {
    amount_of_claimed = claimed;
    amount_of_beneficiary = beneficiary;
    last_distribution = record f.last_distribution { unclaimed = 0 };
  })

-- The farm after a new distribution.
unfoldable pub record_distribution : SimpleFarm → ℕ → Distribution → Result SimpleFarm
record_distribution f total_seeds dis =
    if (f.last_distribution).rr == dis.rr
    then ok f
    else if total_seeds == 0
    then pay_beneficiary (record f { last_distribution = dis })
    else ok (record f { last_distribution = dis })

-- A farm that has nothing left to distribute has ended.
unfoldable pub end_if_empty : SimpleFarm → SimpleFarm
end_if_empty f =
    if (f.last_distribution).undistributed == 0
    then record f { status = SimpleFarmStatus.ended }
    else f

unfoldable pub distribute : ℕ → SimpleFarm → ℕ → Result SimpleFarm
distribute now f total_seeds = do
  distributed ← try_distribute now f total_seeds
  elim distributed [
    | none ↦ ok f
    | some dis ↦ do f' ← record_distribution f total_seeds dis; ok (end_if_empty f')
  ]

-- The reward of a deposit, for a farm that takes it.
unfoldable pub grow : SimpleFarm → ℕ → Result (SimpleFarm × Option ℕ)
grow f amount = do
  reward ← plus f.amount_of_reward amount
  undistributed ← plus (f.last_distribution).undistributed amount
  ok (
    record f {
      amount_of_reward = reward;
      last_distribution = record f.last_distribution { undistributed = undistributed };
    },
    some undistributed,
  )

-- The first deposit: the farm runs, and starts now where its terms name no start.
unfoldable pub start : ℕ → SimpleFarm → SimpleFarm
start now f = record f {
  status = SimpleFarmStatus.running;
  terms = record f.terms {
    start_at = if (f.terms).start_at == 0 then to_sec now else (f.terms).start_at;
  };
}

abbrev pub is_over : Option Distribution → Bool
is_over none = false
is_over (some dis) = dis.undistributed == 0

-- The cases of `add_reward`.
unfoldable pub add_by_status :
    SimpleFarmStatus → ℕ → SimpleFarm → ℕ → Result (SimpleFarm × Option ℕ)
add_by_status SimpleFarmStatus.created now f amount = grow (start now f) amount
add_by_status SimpleFarmStatus.running now f amount = do
  distributed ← try_distribute now f denom
  if is_over distributed then ok (f, none) else grow f amount
add_by_status SimpleFarmStatus.ended now f amount = ok (f, none)
add_by_status SimpleFarmStatus.cleared now f amount = ok (f, none)

abbrev pub add_reward : ℕ → SimpleFarm → ℕ → Result (SimpleFarm × Option ℕ)
add_reward now f amount = add_by_status f.status now f amount

-- The reward of a farmer leaves the unclaimed part.
unfoldable pub pay_farmer : SimpleFarm → ℕ → Result (SimpleFarm × ℕ × ℕ)
pay_farmer f claimed = do
  guard (leb claimed (f.last_distribution).unclaimed) Fault.internal_error
  unclaimed ← expect Fault.unwrap_none (checked_sub (f.last_distribution).unclaimed claimed)
  total_claimed ← plus f.amount_of_claimed claimed
  ok (
    record f {
      last_distribution = record f.last_distribution { unclaimed = unclaimed };
      amount_of_claimed = total_claimed;
    },
    (f.last_distribution).rps,
    claimed,
  )

unfoldable pub claim_user_reward : ℕ → SimpleFarm → ℕ → ℕ → ℕ → Result (SimpleFarm × ℕ × ℕ)
claim_user_reward now f user_rps user_seeds total_seeds = do
  f' ← distribute now f total_seeds
  claimed ← reward_since user_seeds (f'.last_distribution).rps user_rps
  if ltb 0 claimed then pay_farmer f' claimed else ok (f', (f'.last_distribution).rps, claimed)

-- The second half of `move_to_clear`, by the status.
unfoldable pub clear_by_status : SimpleFarmStatus → SimpleFarm → Result (SimpleFarm × Bool)
clear_by_status SimpleFarmStatus.ended f = do
  f' ← if ltb 0 (f.last_distribution).unclaimed then pay_beneficiary f else ok f
  ok (record f' { status = SimpleFarmStatus.cleared }, true)
clear_by_status SimpleFarmStatus.created f = ok (f, false)
clear_by_status SimpleFarmStatus.running f = ok (f, false)
clear_by_status SimpleFarmStatus.cleared f = ok (f, false)

unfoldable pub move_to_clear : ℕ → SimpleFarm → ℕ → Result (SimpleFarm × Bool)
move_to_clear now f total_seeds = do
  f' ← if is_running f.status then distribute now f total_seeds else ok f
  clear_by_status f'.status f'

unfoldable pub can_be_removed : ℕ → SimpleFarm → ℕ → Result Bool
can_be_removed now f total_seeds = elim f.status [
  | ended ↦ ok true
  | running ↦ do distributed ← try_distribute now f total_seeds; ok (is_over distributed)
  | created ↦ ok false
  | cleared ↦ ok false
]
