-- ===== src/Exchange/Examples/Accounts.antt =====
-- The methods of the accounts run on concrete values, at 10 for a byte of storage.
use snails_contracts.Common.{
  ℕ, ◌-◌, ◌≡◌, ◌==◌, if◌then◌else◌, refl, [], ◌∷◌, some, false, ok, arith, checked_add, checked_sub,
  checked_mul,
}
use snails_contracts.Common.Table.{lookup, insert, remove, contains_key}
use snails_contracts.Exchange.Account.{
  Account, or_zero, deposited, deposit, withdrawn, withdraw, storage_usage, storage_available,
  assert_storage_usage, deposit_new, deposit_known, deposit_by_entry, deposit_with_storage_check,
  register, internal_unwrap_account, internal_save_account, internal_storage_withdraw,
  register_tokens, assert_contract_running,
}
use snails_contracts.Exchange.Account.Deposits.{withdraw-deposit}
use snails_contracts.Exchange.Account.Storage.{internal_storage_withdraw-returns}

program : Unit {0}
unfolding deposited deposit withdrawn withdraw storage_usage storage_available assert_storage_usage
    deposit_new deposit_known deposit_by_entry register internal_unwrap_account
    internal_save_account internal_storage_withdraw register_tokens assert_contract_running lookup
    insert remove contains_key checked_add checked_sub checked_mul
program = tt

-- An account with one token and with 3000 for storage, of which it uses 2500.
abbrev holder : Account
holder = record { near_amount = 3000; tokens = (7, 40) ∷ []; storage_used = 0 }

abbrev richer : Account
richer = record holder { tokens = (7, 100) ∷ [] }

runs :
    (deposit holder 7 60 ≡ ok richer)
    × (storage_usage 10 holder ≡ ok 2500)
    × (deposit_with_storage_check 10 holder 8 60 ≡ ok (holder, false))
    × (lookup 1 ((1, holder) ∷ []) ≡ some holder)
unfolding program
runs = (refl, refl, refl, refl)

withdraw-deposit_example :
    (a : Account) × (withdraw richer 7 60 ≡ ok a)
    × (a.near_amount ≡ 3000)
    × ((k : ℕ) → or_zero (lookup k a.tokens) ≡ or_zero (lookup k holder.tokens))
withdraw-deposit_example = withdraw-deposit holder 7 60 runs.0

internal_storage_withdraw-returns_example :
    (paid : ℕ) × (paid ≡ (if 0 == 0 then 3000 - 2500 else 0))
    × (internal_storage_withdraw 10 ((1, holder) ∷ []) 1 0
        ≡ ok (insert 1 (record holder { near_amount = 3000 - paid }) ((1, holder) ∷ []), paid))
internal_storage_withdraw-returns_example =
    internal_storage_withdraw-returns 10 ((1, holder) ∷ []) 1 0 2500 holder runs.3 runs.1
      (omega arith) (omega arith)
