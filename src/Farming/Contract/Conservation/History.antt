-- ===== src/Farming/Contract/Conservation/History.antt =====
-- The states that any sequence of the farming contract's methods leads to. A callback may come at any
-- time and with any amount.
use snails_contracts.Common.{
  ℕ, ◌≡◌, refl, List, Option, Bool, not, ok, >>=-elim, ok-injective, guard, Fault, Result,
}
use mathlib.Core.Path.{subst}
use snails_contracts.Common.Table.{lookup}
use snails_contracts.Exchange.Contract.{Call}
use snails_contracts.Exchange.Contract.Promises.{PromiseResult}
use snails_contracts.Farming.Farm.{SimpleFarmTerms}
use snails_contracts.Farming.Farmer.{SeedType}
use snails_contracts.Farming.Contract
use snails_contracts.Farming.Contract.{ContractData, Names, RunningState, change_state}
use snails_contracts.Farming.Contract.Seeds.{
  SeedTransfer, withdraw_seed, callback_post_withdraw_seed,
}
use snails_contracts.Farming.Contract.Rewards.{
  claim_reward_by_farm, claim_reward_by_seed, remove_user_rps_by_farm, withdraw_reward,
  callback_post_withdraw_reward,
}
use snails_contracts.Farming.Contract.Farms.{
  create_simple_farm, change_reward_per_session, force_clean_farm, modify_seed_min_deposit,
}
use snails_contracts.Farming.Contract.Storage.{
  StorageBalance, storage_deposit, storage_withdraw, storage_unregister,
}
use snails_contracts.Farming.Contract.Receiver.{ft_on_transfer, mft_on_transfer}
use snails_contracts.Farming.Contract.Conservation.{SeedsBalanced, staked}
use snails_contracts.Farming.Contract.Conservation.Stakes.{
  withdraw_seed-SeedsBalanced, callback_seed-SeedsBalanced,
}
use snails_contracts.Farming.Contract.Conservation.Incoming.{
  ft_on_transfer-SeedsBalanced, mft_on_transfer-SeedsBalanced,
}
use snails_contracts.Farming.Contract.Conservation.Registration.{
  storage_deposit-SeedsBalanced, storage_withdraw-SeedsBalanced, storage_unregister-SeedsBalanced,
}
use snails_contracts.Farming.Contract.Conservation.Upkeep.{
  withdraw_reward-SeedsBalanced, callback_reward-SeedsBalanced, remove_rps-SeedsBalanced,
  claim_reward_by_farm-SeedsBalanced, claim_reward_by_seed-SeedsBalanced,
}
use snails_contracts.Farming.Contract.Conservation.Owners.{
  create_simple_farm-SeedsBalanced, change_reward-SeedsBalanced, force_clean_farm-SeedsBalanced,
  change_state-SeedsBalanced, modify_seed-SeedsBalanced,
}

-- One call that does not panic.
pub data Step (names : Names) : ContractData → ContractData → Type 0 where
  receives :
      (now byte_cost : ℕ) (c : ContractData) (token sender amount : ℕ) (msg : List ℕ)
      {c' : ContractData}
      → ft_on_transfer names now byte_cost c token sender amount msg ≡ ok c'
      → Step names c c'
  receives_mft :
      (account_id_of : List ℕ → Option ℕ) (now byte_cost : ℕ) (c : ContractData) (exchange : ℕ)
      (token_id : List ℕ) (sender amount : ℕ) (msg : List ℕ) {c' : ContractData}
      → mft_on_transfer account_id_of names now byte_cost c exchange token_id sender amount msg
        ≡ ok c'
      → Step names c c'
  withdraws :
      (one_yocto : Result (Unit {0})) (now : ℕ) (c : ContractData) (sender seed_id amount : ℕ)
      {r : ContractData × SeedTransfer}
      → withdraw_seed names one_yocto now c sender seed_id amount ≡ ok r
      → Step names c r.0
  seed_sent :
      (now : ℕ) (seed_type : SeedType) (results : ℕ) (result : PromiseResult) (c : ContractData)
      (seed_id sender amount : ℕ) {c' : ContractData}
      → callback_post_withdraw_seed now seed_type results result c seed_id sender amount ≡ ok c'
      → Step names c c'
  claims_by_farm :
      (now byte_cost : ℕ) (c : ContractData) (sender farm_id : ℕ) {c' : ContractData}
      → claim_reward_by_farm names now byte_cost c sender farm_id ≡ ok c'
      → Step names c c'
  claims_by_seed :
      (now byte_cost : ℕ) (c : ContractData) (sender seed_id : ℕ) {c' : ContractData}
      → claim_reward_by_seed now byte_cost c sender seed_id ≡ ok c'
      → Step names c c'
  withdraws_reward :
      (one_yocto : Result (Unit {0})) (c : ContractData) (sender token : ℕ) (asked : Option ℕ)
      {r : ContractData × ℕ}
      → withdraw_reward one_yocto c sender token asked ≡ ok r
      → Step names c r.0
  reward_sent :
      (results : ℕ) (result : PromiseResult) (c : ContractData) (token sender amount : ℕ)
      {c' : ContractData}
      → callback_post_withdraw_reward results result c token sender amount ≡ ok c'
      → Step names c c'
  removes_rps :
      (c : ContractData) (sender farm_id : ℕ) {r : ContractData × Bool}
      → remove_user_rps_by_farm names c sender farm_id ≡ ok r
      → Step names c r.0
  pays_storage :
      (byte_cost : ℕ) (c : ContractData) (predecessor amount : ℕ) (named : Option ℕ)
      (only : Option Bool) {r : ContractData × StorageBalance × ℕ}
      → storage_deposit byte_cost c predecessor amount named only ≡ ok r
      → Step names c r.0
  takes_storage :
      (one_yocto : Result (Unit {0})) (byte_cost : ℕ) (c : ContractData) (account : ℕ)
      (asked : Option ℕ) {r : ContractData × StorageBalance × ℕ}
      → storage_withdraw one_yocto byte_cost c account asked ≡ ok r
      → Step names c r.0
  leaves :
      (one_yocto : Result (Unit {0})) (c : ContractData) (account : ℕ) {r : ContractData × Bool × ℕ}
      → storage_unregister one_yocto c account ≡ ok r
      → Step names c r.0
  creates_farm :
      (call : Call) (c : ContractData) (terms : SimpleFarmTerms) (least : Option ℕ)
      {r : ContractData × ℕ × ℕ}
      → create_simple_farm names call c terms least ≡ ok r
      → Step names c r.0
  changes_reward :
      (c : ContractData) (predecessor farm_id reward : ℕ) {c' : ContractData}
      → change_reward_per_session c predecessor farm_id reward ≡ ok c'
      → Step names c c'
  cleans_farm :
      (now : ℕ) (c : ContractData) (predecessor farm_id : ℕ) {r : ContractData × Bool}
      → force_clean_farm names now c predecessor farm_id ≡ ok r
      → Step names c r.0
  changes_state :
      (one_yocto : Result (Unit {0})) (c : ContractData) (predecessor : ℕ) (state : RunningState)
      {c' : ContractData}
      → change_state one_yocto c predecessor state ≡ ok c'
      → Step names c c'
  modifies_seed :
      (c : ContractData) (predecessor seed_id least : ℕ) {c' : ContractData}
      → modify_seed_min_deposit c predecessor seed_id least ≡ ok c'
      → Step names c c'

Step-SeedsBalanced :
    {names : Names} {c c' : ContractData} → Step names c c' → SeedsBalanced c → SeedsBalanced c'
Step-SeedsBalanced (Step.receives n y c t s a m h) b =
    ft_on_transfer-SeedsBalanced _ n y c t s a m h b
Step-SeedsBalanced (Step.receives_mft f n y c e t s a m h) b =
    mft_on_transfer-SeedsBalanced f _ n y c e t s a m h b
Step-SeedsBalanced (Step.withdraws o n c s k a h) b = withdraw_seed-SeedsBalanced _ o n c s k a h b
Step-SeedsBalanced (Step.seed_sent n t k p c i s a h) b =
    callback_seed-SeedsBalanced n t k p c i s a h b
Step-SeedsBalanced (Step.claims_by_farm n y c s f h) b =
    claim_reward_by_farm-SeedsBalanced _ n y c s f h b
Step-SeedsBalanced (Step.claims_by_seed n y c s k h) b =
    claim_reward_by_seed-SeedsBalanced n y c s k h b
Step-SeedsBalanced (Step.withdraws_reward o c s t a h) b =
    withdraw_reward-SeedsBalanced o c s t a h b
Step-SeedsBalanced (Step.reward_sent k p c t s a h) b =
    callback_reward-SeedsBalanced k p c t s a h b
Step-SeedsBalanced (Step.removes_rps c s f h) b = remove_rps-SeedsBalanced _ c s f h b
Step-SeedsBalanced (Step.pays_storage y c p a n o h) b =
    storage_deposit-SeedsBalanced y c p a n o h b
Step-SeedsBalanced (Step.takes_storage o y c k a h) b = storage_withdraw-SeedsBalanced o y c k a h b
Step-SeedsBalanced (Step.leaves o c k h) b = storage_unregister-SeedsBalanced o c k h b
Step-SeedsBalanced (Step.creates_farm l c t m h) b = create_simple_farm-SeedsBalanced _ l c t m h b
Step-SeedsBalanced (Step.changes_reward c p f r h) b = change_reward-SeedsBalanced c p f r h b
Step-SeedsBalanced (Step.cleans_farm n c p f h) b = force_clean_farm-SeedsBalanced _ n c p f h b
Step-SeedsBalanced (Step.changes_state o c p s h) b = change_state-SeedsBalanced o c p s h b
Step-SeedsBalanced (Step.modifies_seed c p k m h) b = modify_seed-SeedsBalanced c p k m h b

pub data Reachable (names : Names) : ContractData → Type 0 where
  created :
      (state_exists : Bool) (owner_id : ℕ) {c : ContractData}
      → Contract.new state_exists owner_id ≡ ok c
      → Reachable names c
  follows : {c c' : ContractData} → Reachable names c → Step names c c' → Reachable names c'

new-SeedsBalanced :
    (state_exists : Bool) (owner_id : ℕ) {c : ContractData}
    → Contract.new state_exists owner_id ≡ ok c
    → SeedsBalanced c
unfolding Contract.new lookup staked
new-SeedsBalanced state_exists owner_id h =
    >>=-elim (guard (not state_exists) Fault.already_initialized) _ h λ _ h₁ r₁.
      subst SeedsBalanced (ok-injective r₁) (record { balanced = λ k. refl; distinct = tt })

-- In every state that calls of the contract's methods, with any arguments and in any order, lead to
-- from its constructor, no two farmers have the same account, and the amount that the contract keeps
-- of a seed, 0 of an unknown one, is the sum of what all farmers have staked of it.
pub Reachable-SeedsBalanced :
    {names : Names} {c : ContractData} → Reachable names c → SeedsBalanced c
Reachable-SeedsBalanced (Reachable.created e o h) = new-SeedsBalanced e o h
Reachable-SeedsBalanced (Reachable.follows r s) = Step-SeedsBalanced s (Reachable-SeedsBalanced r)
