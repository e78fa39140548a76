-- ===== src/Exchange/Contract/Storage.antt =====
-- The storage management of the exchange, snails_exchange/src/storage_impl.rs. The promises that pay
-- NEAR back are a second result, the amount that is paid.
use snails_contracts.Common.{
  ℕ, [], ◌∷◌, Bool, true, false, not, ◌&&◌, Option, none, some, ltb, Result, ok, guard, expect,
  expect_some, ◌>>=◌, ◌>>◌, Fault, checked_sub,
}
use snails_contracts.Common.Table.{Table, lookup, remove, contains_key}
use snails_contracts.Exchange.Account.{
  Account, is_set, assert_contract_running, min_storage_usage, storage_available,
  internal_register_account, internal_storage_withdraw,
}
use snails_contracts.Exchange.Contract.{SnailSwap, Call}

pub record StorageBalance : Type 0 where
  pub total : ℕ
  pub available : ℕ

unfoldable pub balance_of_account : ℕ → Option Account → Result (Option StorageBalance)
balance_of_account byte_cost none = ok none
balance_of_account byte_cost (some a) = do
  available ← storage_available byte_cost a
  ok (some (record { total = a.near_amount; available = available }))

abbrev pub storage_balance_of : ℕ → Table Account → ℕ → Result (Option StorageBalance)
storage_balance_of byte_cost accounts account_id =
    balance_of_account byte_cost (lookup account_id accounts)

-- `unwrap_or` of the account that is named.
abbrev pub account_or : Option ℕ → ℕ → ℕ
account_or none predecessor = predecessor
account_or (some account_id) predecessor = account_id

-- The accounts and the NEAR paid back. A new account that is only registered keeps the least
-- amount, a known one nothing.
unfoldable pub register_for :
    ℕ → Table Account → ℕ → ℕ → ℕ → Bool → Bool → Result (Table Account × ℕ)
register_for byte_cost accounts account_id amount min_balance true true = ok (accounts, amount)
register_for byte_cost accounts account_id amount min_balance true false = do
  accounts' ← internal_register_account byte_cost accounts account_id min_balance
  refund ← expect Fault.unwrap_none (checked_sub amount min_balance)
  ok (accounts', refund)
register_for byte_cost accounts account_id amount min_balance false already_registered = do
  accounts' ← internal_register_account byte_cost accounts account_id amount
  ok (accounts', 0)

unfoldable pub storage_deposit :
    Call → SnailSwap → Option ℕ → Option Bool → Result (SnailSwap × StorageBalance × ℕ)
storage_deposit call c named registration_only = do
  assert_contract_running c.state
  let account_id = account_or named call.predecessor
  min_balance ← min_storage_usage call.byte_cost
  let already_registered = contains_key account_id c.accounts
  guard (not (ltb call.attached_deposit min_balance && not already_registered))
      Fault.deposit_less_than_min_storage
  (accounts, refund) ←
      register_for call.byte_cost c.accounts account_id call.attached_deposit min_balance
        (is_set registration_only) already_registered
  found ← storage_balance_of call.byte_cost accounts account_id
  balance ← expect_some Fault.unwrap_none found
  ok (record c { accounts = accounts }, balance, refund)

-- `unwrap_or(0)`
abbrev pub amount_or_zero : Option ℕ → ℕ
amount_or_zero none = 0
amount_or_zero (some amount) = amount

unfoldable pub storage_withdraw :
    Result (Unit {0}) → Call → SnailSwap → Option ℕ → Result (SnailSwap × StorageBalance × ℕ)
storage_withdraw one_yocto call c amount = do
  one_yocto
  assert_contract_running c.state
  (accounts, withdraw_amount) ←
      internal_storage_withdraw call.byte_cost c.accounts call.predecessor (amount_or_zero amount)
  found ← storage_balance_of call.byte_cost accounts call.predecessor
  balance ← expect_some Fault.unwrap_none found
  ok (record c { accounts = accounts }, balance, withdraw_amount)

abbrev pub is_empty : Table ℕ → Bool
is_empty [] = true
is_empty (_ ∷ _) = false

-- Only an account without tokens is removed; its NEAR is paid out.
unfoldable pub remove_account :
    Table Account → ℕ → Option Account → Result (Table Account × Bool × ℕ)
remove_account accounts account_id none = ok (accounts, false, 0)
remove_account accounts account_id (some a) = do
  guard (is_empty a.tokens) Fault.tokens_not_empty
  ok (remove account_id accounts, true, a.near_amount)

unfoldable pub storage_unregister :
    Result (Unit {0}) → SnailSwap → ℕ → Result (SnailSwap × Bool × ℕ)
storage_unregister one_yocto c predecessor = do
  one_yocto
  assert_contract_running c.state
  (accounts, removed, paid) ← remove_account c.accounts predecessor (lookup predecessor c.accounts)
  ok (record c { accounts = accounts }, removed, paid)
