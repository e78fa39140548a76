-- ===== src/Farming/Farm/History.antt =====
-- Every history of a farm: from its creation by any methods in any order, at any times.
use snails_contracts.Common.{ℕ, Bool, ◌≡◌, refl, Option, ok, arith}
use snails_contracts.Farming.Farm
use snails_contracts.Farming.Farm.{
  SimpleFarm, SimpleFarmTerms, distribute, add_reward, claim_user_reward, move_to_clear,
  change_reward_per_session,
}
use snails_contracts.Farming.Farm.Conservation.{
  IsConserved, distribute-IsConserved, add_by_status-IsConserved, move_to_clear-IsConserved,
}
use snails_contracts.Farming.Farm.Claims.{claim_user_reward_lem}

-- One method of a farm.
pub data Step : SimpleFarm → SimpleFarm → Type 0 where
  adds :
      (now : ℕ) (f : SimpleFarm) (amount : ℕ) {r : SimpleFarm × Option ℕ}
      → add_reward now f amount ≡ ok r
      → Step f r.0
  distributes :
      (now : ℕ) (f : SimpleFarm) (seeds : ℕ) {f' : SimpleFarm}
      → distribute now f seeds ≡ ok f'
      → Step f f'
  claims :
      (now : ℕ) (f : SimpleFarm) (user_rps user_seeds seeds : ℕ) {r : SimpleFarm × ℕ × ℕ}
      → claim_user_reward now f user_rps user_seeds seeds ≡ ok r
      → Step f r.0
  clears :
      (now : ℕ) (f : SimpleFarm) (seeds : ℕ) {r : SimpleFarm × Bool}
      → move_to_clear now f seeds ≡ ok r
      → Step f r.0
  changes :
      (f : SimpleFarm) (reward_per_session : ℕ)
      → Step f (change_reward_per_session f reward_per_session)

pub data Reachable : SimpleFarm → Type 0 where
  creates : (id : ℕ) (terms : SimpleFarmTerms) → Reachable (Farm.new id terms)
  follows : {f f' : SimpleFarm} → Reachable f → Step f f' → Reachable f'

Step-IsConserved : {f f' : SimpleFarm} → Step f f' → IsConserved f → IsConserved f'
unfolding change_reward_per_session
Step-IsConserved (Step.adds now f amount h) inv =
    add_by_status-IsConserved f.status now f amount h refl inv
Step-IsConserved (Step.distributes now f seeds h) inv = distribute-IsConserved now f seeds h inv
Step-IsConserved (Step.claims now f user_rps user_seeds seeds h) inv =
    let (f', done, e₁, e₂, le, inv') =
      claim_user_reward_lem now f user_rps user_seeds seeds h inv in
    inv'
Step-IsConserved (Step.clears now f seeds h) inv = move_to_clear-IsConserved now f seeds h inv
Step-IsConserved (Step.changes f reward_per_session) inv = record {
  reward = inv.reward;
  beneficiary = inv.beneficiary;
  ended_empty = inv.ended_empty;
  cleared_empty = inv.cleared_empty;
}

-- The books of a farm are in order after every history of its methods: what was deposited is
-- undistributed, unclaimed or claimed, the beneficiary's part is claimed, a farm that has ended has
-- nothing to distribute, and a cleared one has nothing left.
pub Reachable-IsConserved : {f : SimpleFarm} → Reachable f → IsConserved f
unfolding Farm.new
Reachable-IsConserved (Reachable.creates id terms) = record {
  reward = refl;
  beneficiary = omega arith;
  ended_empty = λ e. refl;
  cleared_empty = λ e. (refl, refl);
}
Reachable-IsConserved (Reachable.follows before step) =
    Step-IsConserved step (Reachable-IsConserved before)
