-- ===== src/Exchange/Contract.antt =====
-- The exchange contract, `SnailSwap` of snails_exchange/src/lib.rs: its state, its swap, and the
-- settings that its owner changes. The block's time, the cost of a byte of storage, the caller and
-- the outcome of the SDK's `assert_one_yocto` are arguments; a method that pays for storage takes
-- them together with the readings of the storage as a `Call`.
pub mod Swaps
pub mod Liquidity
pub mod Promises
pub mod Claims
pub mod Coverage
pub mod TokenIds
pub mod Tokens
pub mod Transfers
pub mod Storage
pub mod Ledger
use snails_contracts.Common.{
  ℕ, suc, ◌-◌, ◌/◌, ◌==◌, ◌||◌, Bool, false, if◌then◌else◌, List, [], ◌∷◌, ◌++◌, set, get_elem?,
  length, Result, ok, panic, guard, expect, expect_some, ◌>>=◌, ◌>>◌, Fault, checked_mul,
  checked_sub, u128, not,
}
use snails_contracts.Common.Table.{Table}
use snails_contracts.Exchange.Fees.{Fees, assert_fees_info_valid}
use snails_contracts.Exchange.Pool.State
use snails_contracts.Exchange.Pool.State.{SimplePool}
use snails_contracts.Exchange.Pool.Trade
use snails_contracts.Exchange.Account.{
  Account, RunningState, assert_contract_running, deposit, withdraw, internal_unwrap_account,
  internal_save_account, internal_unwrap_or_default_account,
}

pub record SnailSwap : Type 0 where
  pub owner_id : ℕ
  pub pools : List SimplePool
  pub state : RunningState
  pub accounts : Table Account

unfoldable pub assert_owner : SnailSwap → ℕ → Result (Unit {0})
assert_owner c predecessor = guard (predecessor == c.owner_id) Fault.not_allowed

-- A pool by its number.
unfoldable pub get_pool : SnailSwap → ℕ → Result SimplePool
get_pool c pool_id = expect_some Fault.no_pool (get_elem? c.pools pool_id)

unfoldable pub replace_pool : SnailSwap → ℕ → SimplePool → SnailSwap
replace_pool c pool_id p = record c { pools = set c.pools pool_id p }

unfoldable pub swap_core : ℕ → ℕ → SnailSwap → ℕ → ℕ → ℕ → ℕ → ℕ → Result (SnailSwap × ℕ)
swap_core now byte_cost c pool_id token_in amount_in token_out minimum_amount_out = do
  assert_contract_running c.state
  pool ← get_pool c pool_id
  (pool', amount_out, admin_fee) ←
      Trade.swap now pool token_in amount_in token_out minimum_amount_out
  let c' = replace_pool c pool_id pool'
  exchange_account ← internal_unwrap_account c'.accounts c'.owner_id
  exchange_account' ← deposit exchange_account token_out admin_fee
  accounts ← internal_save_account byte_cost c'.accounts c'.owner_id exchange_account'
  ok (record c' { accounts = accounts }, amount_out)

-- The tokens of an account are a map that the SDK keeps in the storage, under a prefix of the
-- account's id, while the account's value has the map's length only. A value that was read before
-- another value of the same account changed the map finds the balances as they are now. It cannot
-- reach a token that has been added since: the SDK panics on an entry beyond the length. Both callers
-- use every token that can have been added, so that the length decides.
unfoldable pub reread : Account → Table Account → ℕ → Result Account
reread a accounts account_id = do
  let stored = internal_unwrap_or_default_account accounts account_id
  guard (length stored.tokens == length a.tokens) Fault.inconsistent_state
  ok (record a { tokens = stored.tokens })

-- The sender's account is read before the swap, in which the owner's account, which may be the same,
-- is credited with the fee.
unfoldable pub swap : ℕ → ℕ → SnailSwap → ℕ → ℕ → ℕ → ℕ → ℕ → ℕ → Result (SnailSwap × ℕ)
swap now byte_cost c sender_id pool_id token_in amount_in token_out minimum_amount_out = do
  account ← internal_unwrap_account c.accounts sender_id
  (c', amount_out) ←
      swap_core now byte_cost c pool_id token_in amount_in token_out minimum_amount_out
  account₁ ← reread account c'.accounts sender_id
  account₂ ← withdraw account₁ token_in amount_in
  account₃ ← deposit account₂ token_out amount_out
  accounts ← internal_save_account byte_cost c'.accounts sender_id account₃
  ok (record c' { accounts = accounts }, amount_out)

unfoldable pub change_fees_setting : SnailSwap → ℕ → ℕ → Fees → Result SnailSwap
change_fees_setting c predecessor pool_id fees = do
  assert_owner c predecessor
  assert_fees_info_valid fees
  pool ← get_pool c pool_id
  ok (replace_pool c pool_id (State.change_fees_setting pool fees))

unfoldable pub set_amp_params : ℕ → SnailSwap → ℕ → ℕ → ℕ → ℕ → ℕ → Result SnailSwap
set_amp_params now c predecessor pool_id initial_amp_factor target_amp_factor stop_ramp_ts = do
  assert_owner c predecessor
  pool ← get_pool c pool_id
  ok (
      replace_pool c pool_id (
        State.set_amp_params pool initial_amp_factor target_amp_factor (now / 1_000_000_000)
          stop_ramp_ts))

-- A state that does not change is written again.
unfoldable pub change_state : Result (Unit {0}) → SnailSwap → ℕ → RunningState → Result SnailSwap
change_state one_yocto c predecessor state = do
  one_yocto
  assert_owner c predecessor
  ok (record c { state = state })

-- `SnailSwap::new`, where `state_exists` is the SDK's answer.
unfoldable pub new : Bool → ℕ → Result SnailSwap
new state_exists owner_id = do
  guard (not state_exists) Fault.already_initialized
  ok (record { owner_id = owner_id; pools = []; state = RunningState.running; accounts = [] })

-- What a call finds: its caller, the NEAR attached to it, the block's time, the cost of a byte, and
-- the bytes of storage in use at the start, after the work of the pool and at the end.
pub record Call : Type 0 where
  pub predecessor : ℕ
  pub attached_deposit : ℕ
  pub now : ℕ
  pub byte_cost : ℕ
  pub prev_storage : ℕ
  pub pool_storage : ℕ
  pub end_storage : ℕ

-- The refund of what the storage does not cost.
unfoldable pub internal_check_storage : Call → Result ℕ
internal_check_storage call = do
  storage_cost ←
      expect Fault.unwrap_none
        (checked_mul u128 (call.end_storage - call.prev_storage) call.byte_cost)
  expect Fault.storage_deposit (checked_sub call.attached_deposit storage_cost)

-- The loop that deposits an amount of every token.
unfoldable pub deposit_all : Account → List ℕ → List ℕ → Result Account
deposit_all a [] amounts = ok a
deposit_all a (token ∷ tokens) [] = panic Fault.index_out_of_bounds
deposit_all a (token ∷ tokens) (amount ∷ amounts) = do
  a' ← deposit a token amount
  deposit_all a' tokens amounts

unfoldable pub transfer_admin_fees : ℕ → SnailSwap → List ℕ → List ℕ → Result SnailSwap
transfer_admin_fees byte_cost c tokens admin_fees = do
  exchange_account ←
      deposit_all (internal_unwrap_or_default_account c.accounts c.owner_id) tokens admin_fees
  accounts ← internal_save_account byte_cost c.accounts c.owner_id exchange_account
  ok (record c { accounts = accounts })

unfoldable pub is_in : ℕ → List ℕ → Bool
is_in token [] = false
is_in token (t ∷ tokens) = (token == t) || is_in token tokens

-- The set of the tokens of a list.
unfoldable pub token_set : List ℕ → List ℕ
token_set [] = []
token_set (t ∷ tokens) = let rest = token_set tokens in if is_in t rest then rest else t ∷ rest

unfoldable pub check_token_duplicates : List ℕ → Result (Unit {0})
check_token_duplicates tokens =
    guard (length (token_set tokens) == length tokens) Fault.token_duplicates

-- The contract, the pool's number and the refund.
unfoldable pub internal_add_pool : Call → SnailSwap → SimplePool → Result (SnailSwap × ℕ × ℕ)
internal_add_pool call c pool = do
  refund ← internal_check_storage call
  ok (record c { pools = c.pools ++ (pool ∷ []) }, length c.pools, refund)

unfoldable pub add_simple_pool :
    Call → SnailSwap → List ℕ → List ℕ → ℕ → ℕ → ℕ → ℕ → Fees → Result (SnailSwap × ℕ × ℕ)
add_simple_pool call c tokens decimals initial_amp_factor target_amp_factor start_ramp_ts
      stop_ramp_ts fees =
    do
      assert_owner c call.predecessor
      assert_contract_running c.state
      check_token_duplicates tokens
      assert_fees_info_valid fees
      pool ←
          State.new initial_amp_factor target_amp_factor start_ramp_ts stop_ramp_ts fees tokens
            decimals
      internal_add_pool call c pool
