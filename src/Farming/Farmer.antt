-- ===== src/Farming/Farmer.antt =====
-- A farmer, in snails_farming/src/farmer.rs, the amounts of a seed, in
-- snails_farming/src/farm_seed.rs, and the claim of a farmer from a farm,
-- `claim_user_reward_from_farm` of snails_farming/src/actions_of_reward.rs.
pub mod Claim
use snails_contracts.Common.{
  ℕ, ◌+◌, ◌*◌, Bool, true, false, Option, none, some, List, [], leb, ltb, ◌==◌, if◌then◌else◌,
  length, Result, ok, guard, expect, expect_some, ◌>>=◌, ◌>>◌, Fault, checked_add, checked_sub,
  checked_mul, u32, u128,
}
use snails_contracts.Common.Table.{Table, lookup, insert, remove, contains_key}
use snails_contracts.Farming.Farm
use snails_contracts.Farming.Farm.{SimpleFarm}

pub record Farmer : Type 0 where
  pub amount : ℕ
  pub rewards : Table ℕ
  pub seeds : Table ℕ
  pub user_rps : Table ℕ
  pub rps_count : ℕ

-- `Farmer::new`. The map of rewards per seed has a prefix of the account's own: `left` is what the
-- storage has under it.
unfoldable pub new : Table ℕ → ℕ → Farmer
new left amount = record {
  amount = amount;
  rewards = [];
  seeds = [];
  user_rps = left;
  rps_count = 0;
}

abbrev pub or_zero : Option ℕ → ℕ
or_zero none = 0
or_zero (some v) = v

-- The balance after an amount is added to an entry or makes a new one.
unfoldable pub grown : Option ℕ → ℕ → Result ℕ
grown (some x) amount = expect Fault.unwrap_none (checked_add u128 x amount)
grown none amount = ok amount

unfoldable pub add_reward : Farmer → ℕ → ℕ → Result Farmer
add_reward w token amount = do
  balance ← grown (lookup token w.rewards) amount
  ok (record w { rewards = insert token balance w.rewards })

unfoldable pub sub_reward : Farmer → ℕ → ℕ → Result (Farmer × ℕ)
sub_reward w token amount = do
  value ← expect_some Fault.token_not_reg (lookup token w.rewards)
  guard (leb amount value) Fault.not_enough_tokens
  if amount == 0 then ok (record w { rewards = remove token w.rewards }, value) else (do
    left ← expect Fault.unwrap_none (checked_sub value amount)
    ok (record w { rewards = insert token left w.rewards }, amount))

unfoldable pub add_seed : Farmer → ℕ → ℕ → Result Farmer
add_seed w seed_id amount =
    if ltb 0 amount
    then (do
      sum ← expect Fault.overflow (checked_add u128 amount (or_zero (lookup seed_id w.seeds)))
      ok (record w { seeds = insert seed_id sum w.seeds }))
    else ok w

-- The seeds of a farmer with what remains of one.
unfoldable pub keep_seed : ℕ → ℕ → Table ℕ → Table ℕ
keep_seed seed_id cur_balance seeds =
    if ltb 0 cur_balance then insert seed_id cur_balance seeds else remove seed_id seeds

unfoldable pub sub_seed : Farmer → ℕ → ℕ → Result (Farmer × ℕ)
sub_seed w seed_id amount = do
  prev_balance ← expect_some Fault.seed_not_exist (lookup seed_id w.seeds)
  guard (leb amount prev_balance) Fault.not_enough_seed
  cur_balance ← expect Fault.overflow (checked_sub prev_balance amount)
  ok (record w { seeds = keep_seed seed_id cur_balance w.seeds }, cur_balance)

unfoldable pub get_rps : Farmer → ℕ → ℕ
get_rps w farm_id = or_zero (lookup farm_id w.user_rps)

unfoldable pub set_rps : Farmer → ℕ → ℕ → Result Farmer
set_rps w farm_id rps = do
  rps_count ←
      if contains_key farm_id w.user_rps
      then ok w.rps_count
      else expect Fault.unwrap_none (checked_add u32 w.rps_count 1)
  ok (record w { rps_count = rps_count; user_rps = insert farm_id rps w.user_rps })

unfoldable pub remove_rps : Farmer → ℕ → Result Farmer
remove_rps w farm_id =
    if contains_key farm_id w.user_rps
    then (do
      rps_count ← expect Fault.unwrap_none (checked_sub w.rps_count 1)
      ok (record w { rps_count = rps_count; user_rps = remove farm_id w.user_rps }))
    else ok w

-- `storage_usage`, at the cost of a byte.
unfoldable pub storage_usage : ℕ → Farmer → Result ℕ
storage_usage byte_cost w = expect Fault.overflow (
    checked_mul u128
      (64
        + 16
        + 4 * 3
        + length w.rewards * (4 + 64 + 16)
        + length w.seeds * (4 + 64 + 16)
        + w.rps_count * (4 + 1 + 2 * 64 + 32))
      byte_cost)

pub data SeedType : Type 0 where
  ft mft : SeedType

-- The farms of a seed are a set in the source; here they are a list without order of its own.
pub record FarmSeed : Type 0 where
  pub seed_id : ℕ
  pub seed_type : SeedType
  pub farms : List ℕ
  pub next_index : ℕ
  pub amount : ℕ
  pub min_deposit : ℕ

unfoldable pub add_amount : FarmSeed → ℕ → Result FarmSeed
add_amount s amount = do
  sum ← expect Fault.unwrap_none (checked_add u128 s.amount amount)
  ok (record s { amount = sum })

unfoldable pub sub_amount : FarmSeed → ℕ → Result (FarmSeed × ℕ)
sub_amount s amount = do
  guard (leb amount s.amount) Fault.internal_error
  left ← expect Fault.unwrap_none (checked_sub s.amount amount)
  ok (record s { amount = left }, left)

-- The farm and the farmer after the claim.
unfoldable pub claim_user_reward_from_farm :
    ℕ → SimpleFarm → Farmer → ℕ → Result (SimpleFarm × Farmer)
claim_user_reward_from_farm now f w total_seeds = do
  let user_seeds = or_zero (lookup (f.terms).seed_id w.seeds)
  let user_rps = get_rps w f.farm_id
  (f', new_user_rps, reward_amount) ← Farm.claim_user_reward now f user_rps user_seeds total_seeds
  w' ← set_rps w f'.farm_id new_user_rps
  w'' ← if ltb 0 reward_amount then add_reward w' (f'.terms).reward_token reward_amount else ok w'
  ok (f', w'')
