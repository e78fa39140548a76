-- ===== src/Exchange/Account.antt =====
-- The deposits of an account and the storage that it pays for, and the accounts of the contract,
-- in snails_exchange/src/account.rs. The cost of a byte of storage is a parameter; the accounts of
-- the contract are a table.
pub mod Deposits
pub mod Storage
use snails_contracts.Common.{
  ℕ, ◌+◌, ◌-◌, List, [], ◌∷◌, Bool, true, false, Option, none, some, leb, ltb, ◌==◌, if◌then◌else◌,
  length, Result, ok, panic, guard, expect, expect_some, ◌>>=◌, ◌>>◌, Fault, checked_add,
  checked_sub, checked_mul, u64, u128,
}
use snails_contracts.Common.Table.{Table, lookup, insert, remove, contains_key}

-- `INIT_ACCOUNT_STORAGE`
abbrev pub init_account_storage : ℕ
init_account_storage = 64 + 4 + 1 + 1 + 16 + 4 + 4 + 8

-- `KEY_PREFIX_ACC + ACC_ID_AS_KEY_STORAGE + U128_STORAGE`
abbrev pub token_storage : ℕ
token_storage = 64 + (64 + 4) + 16

pub record Account : Type 0 where
  pub near_amount : ℕ
  pub tokens : Table ℕ
  pub storage_used : ℕ

unfoldable pub new : Account
new = record { near_amount = 0; tokens = []; storage_used = 0 }

unfoldable pub get_balance : Account → ℕ → Option ℕ
get_balance a token_id = lookup token_id a.tokens

-- The new balance of a token that may have an entry.
unfoldable pub deposited : Option ℕ → ℕ → Result ℕ
deposited (some x) amount = expect Fault.unwrap_none (checked_add u128 amount x)
deposited none amount = ok amount

unfoldable pub deposit : Account → ℕ → ℕ → Result Account
deposit a token amount = do
  balance ← deposited (lookup token a.tokens) amount
  ok (record a { tokens = insert token balance a.tokens })

unfoldable pub storage_usage : ℕ → Account → Result ℕ
storage_usage byte_cost a = do
  tokens ← expect Fault.overflow (checked_mul u64 (length a.tokens) token_storage)
  bytes ← expect Fault.overflow (checked_add u64 init_account_storage tokens)
  expect Fault.overflow (checked_mul u128 bytes byte_cost)

-- A new token is kept where the account can pay for it.
unfoldable pub deposit_new : ℕ → Account → ℕ → ℕ → Result (Account × Bool)
deposit_new byte_cost a token amount = do
  let a' = record a { tokens = insert token amount a.tokens }
  usage ← storage_usage byte_cost a'
  if leb usage a'.near_amount
      then ok (a', true)
      else ok (record a' { tokens = remove token a'.tokens }, false)

-- A token that has an entry is credited without a check.
unfoldable pub deposit_known : Account → ℕ → ℕ → ℕ → Result (Account × Bool)
deposit_known a token balance amount = do
  new_balance ← expect Fault.unwrap_none (checked_add u128 balance amount)
  ok (record a { tokens = insert token new_balance a.tokens }, true)

unfoldable pub deposit_by_entry : Option ℕ → ℕ → Account → ℕ → ℕ → Result (Account × Bool)
deposit_by_entry (some balance) byte_cost a token amount = deposit_known a token balance amount
deposit_by_entry none byte_cost a token amount = deposit_new byte_cost a token amount

abbrev pub deposit_with_storage_check : ℕ → Account → ℕ → ℕ → Result (Account × Bool)
deposit_with_storage_check byte_cost a token amount =
    deposit_by_entry (lookup token a.tokens) byte_cost a token amount

unfoldable pub storage_available : ℕ → Account → Result ℕ
storage_available byte_cost a = do
  locked ← storage_usage byte_cost a
  if ltb locked a.near_amount then ok (a.near_amount - locked) else ok 0

unfoldable pub assert_storage_usage : ℕ → Account → Result (Unit {0})
assert_storage_usage byte_cost a = do
  usage ← storage_usage byte_cost a
  guard (leb usage a.near_amount) Fault.storage_shortage

unfoldable pub min_storage_usage : ℕ → Result ℕ
min_storage_usage byte_cost =
    expect Fault.overflow (checked_mul u128 init_account_storage byte_cost)

unfoldable pub register : Account → List ℕ → Account
register a [] = a
register a (token_id ∷ token_ids) =
    register
      (if contains_key token_id a.tokens
        then a
        else record a { tokens = insert token_id 0 a.tokens })
      token_ids

abbrev pub or_zero : Option ℕ → ℕ
or_zero none = 0
or_zero (some v) = v

unfoldable pub unregister : Account → ℕ → Result Account
unregister a token_id = do
  guard (or_zero (lookup token_id a.tokens) == 0) Fault.non_zero_token_balance
  ok (record a { tokens = remove token_id a.tokens })

unfoldable pub withdrawn : Option ℕ → ℕ → Result ℕ
withdrawn (some x) amount = do guard (leb amount x) Fault.not_enough_tokens; ok (x - amount)
withdrawn none amount = panic Fault.token_not_reg

unfoldable pub withdraw : Account → ℕ → ℕ → Result Account
withdraw a token amount = do
  left ← withdrawn (lookup token a.tokens) amount
  ok (record a { tokens = insert token left a.tokens })

-- The accounts of the contract.
unfoldable pub internal_unwrap_account : Table Account → ℕ → Result Account
internal_unwrap_account accounts account_id =
    expect_some Fault.account_not_registered (lookup account_id accounts)

abbrev pub or_new : Option Account → Account
or_new (some a) = a
or_new none = record { near_amount = 0; tokens = []; storage_used = 0 }

unfoldable pub internal_unwrap_or_default_account : Table Account → ℕ → Account
internal_unwrap_or_default_account accounts account_id = or_new (lookup account_id accounts)

unfoldable pub internal_save_account : ℕ → Table Account → ℕ → Account → Result (Table Account)
internal_save_account byte_cost accounts account_id a = do
  assert_storage_usage byte_cost a
  ok (insert account_id a accounts)

unfoldable pub internal_deposit : ℕ → Table Account → ℕ → ℕ → ℕ → Result (Table Account)
internal_deposit byte_cost accounts sender_id token_id amount = do
  a ← internal_unwrap_account accounts sender_id
  a' ← deposit a token_id amount
  internal_save_account byte_cost accounts sender_id a'

unfoldable pub internal_register_account : ℕ → Table Account → ℕ → ℕ → Result (Table Account)
internal_register_account byte_cost accounts account_id amount = do
  let a = internal_unwrap_or_default_account accounts account_id
  near_amount ← expect Fault.unwrap_none (checked_add u128 a.near_amount amount)
  internal_save_account byte_cost accounts account_id (record a { near_amount = near_amount })

unfoldable pub internal_storage_withdraw : ℕ → Table Account → ℕ → ℕ → Result (Table Account × ℕ)
internal_storage_withdraw byte_cost accounts account_id amount = do
  a ← internal_unwrap_account accounts account_id
  available ← storage_available byte_cost a
  guard (ltb 0 available) Fault.storage_shortage
  let withdraw_amount = if amount == 0 then available else amount
  guard (leb withdraw_amount available) Fault.storage_shortage
  near_amount ← expect Fault.unwrap_none (checked_sub a.near_amount withdraw_amount)
  accounts' ←
      internal_save_account byte_cost accounts account_id (record a { near_amount = near_amount })
  ok (accounts', withdraw_amount)

-- The balance of a token in an account that may not exist.
abbrev pub balance_in : Option Account → ℕ → ℕ
balance_in none token_id = 0
balance_in (some a) token_id = or_zero (lookup token_id a.tokens)

unfoldable pub internal_get_deposit : Table Account → ℕ → ℕ → ℕ
internal_get_deposit accounts sender_id token_id = balance_in (lookup sender_id accounts) token_id

unfoldable pub internal_lostfound : Table Account → ℕ → ℕ → ℕ → Result (Table Account)
internal_lostfound accounts owner_id token_id amount = do
  lostfound ← deposit (internal_unwrap_or_default_account accounts owner_id) token_id amount
  ok (insert owner_id lostfound accounts)

abbrev pub is_set : Option Bool → Bool
is_set none = false
is_set (some b) = b

pub data RunningState : Type 0 where
  running paused : RunningState

unfoldable pub assert_contract_running : RunningState → Result (Unit {0})
assert_contract_running RunningState.running = ok tt
assert_contract_running RunningState.paused = panic Fault.contract_paused

unfoldable pub unregister_all : Account → List ℕ → Result Account
unregister_all a [] = ok a
unregister_all a (token_id ∷ token_ids) = do a' ← unregister a token_id; unregister_all a' token_ids

-- The methods that an account calls: `one_yocto` is the outcome of the SDK's `assert_one_yocto`.
module _ (one_yocto : Result (Unit {0})) (state : RunningState) (byte_cost : ℕ) where
  unfoldable pub register_tokens : Table Account → ℕ → List ℕ → Result (Table Account)
  register_tokens accounts sender_id token_ids = do
    one_yocto
    assert_contract_running state
    a ← internal_unwrap_account accounts sender_id
    internal_save_account byte_cost accounts sender_id (register a token_ids)

  unfoldable pub unregister_tokens : Table Account → ℕ → List ℕ → Result (Table Account)
  unregister_tokens accounts sender_id token_ids = do
    one_yocto
    assert_contract_running state
    a ← internal_unwrap_account accounts sender_id
    a' ← unregister_all a token_ids
    internal_save_account byte_cost accounts sender_id a'

  -- `withdraw` of the contract, up to the promise that sends the tokens.
  unfoldable pub withdraw_tokens : Table Account → ℕ → ℕ → ℕ → Option Bool → Result (Table Account)
  withdraw_tokens accounts sender_id token_id amount unregister_token = do
    one_yocto
    assert_contract_running state
    guard (ltb 0 amount) Fault.illegal_withdraw_amount
    a ← internal_unwrap_account accounts sender_id
    a' ← withdraw a token_id amount
    a'' ← if is_set unregister_token then unregister a' token_id else ok a'
    internal_save_account byte_cost accounts sender_id a''
