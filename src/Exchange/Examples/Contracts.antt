-- ===== src/Exchange/Examples/Contracts.antt =====
-- The swap of the contract run on concrete values, for the owner and for another account, at 1 for a
-- byte of storage.
use snails_contracts.Common.{
  ℕ, ◌+◌, ◌≡◌, ◌≢◌, ◌==◌, if◌then◌else◌, refl, [], ◌∷◌, ok, panic, Fault, arith, set, checked_add,
  checked_sub, checked_mul,
}
use snails_contracts.Common.Table.{lookup, insert}
use snails_contracts.Exchange.Pool.State.{SimplePool}
use snails_contracts.Exchange.Pool.Trade
use snails_contracts.Exchange.Account.{
  Account, RunningState, assert_contract_running, deposited, deposit, withdrawn, withdraw,
  storage_usage, assert_storage_usage, internal_unwrap_account, internal_save_account,
  internal_get_deposit, internal_unwrap_or_default_account,
}
use snails_contracts.Exchange.Contract.{SnailSwap, get_pool, replace_pool, reread, swap_core, swap}
use snails_contracts.Exchange.Contract.Swaps.{swap_deposits}
use snails_contracts.Exchange.Examples.{pool, now}
use snails_contracts.Exchange.Examples.Pools.{traded, swap_run}

abbrev pub owner : Account
owner = record { near_amount = 1000; tokens = (7, 500) ∷ (8, 0) ∷ []; storage_used = 0 }

abbrev pub contract : SnailSwap
contract = record {
  owner_id = 9;
  pools = pool ∷ [];
  state = RunningState.running;
  accounts = (9, owner) ∷ [];
}

-- The owner gets the amount paid, 90, and the fee of 4.
abbrev owner_swapped : SnailSwap
owner_swapped = record contract {
  pools = traded ∷ [];
  accounts = (9, record owner { tokens = (7, 400) ∷ (8, 94) ∷ [] }) ∷ [];
}

-- The account 5 has the deposits that the owner has.
abbrev pub of_two : SnailSwap
of_two = record contract { accounts = (9, owner) ∷ (5, owner) ∷ [] }

abbrev pub swapped : SnailSwap
swapped = record contract {
  pools = traded ∷ [];
  accounts =
      (9, record owner { tokens = (7, 500) ∷ (8, 4) ∷ [] })
      ∷ (5, record owner { tokens = (7, 400) ∷ (8, 90) ∷ [] })
      ∷ [];
}

-- The owner without a deposit of the token that the pool pays: his account's value is too old for it.
abbrev unprepared : SnailSwap
unprepared = record contract { accounts = (9, record owner { tokens = (7, 500) ∷ [] }) ∷ [] }

pub contract_runs :
    (swap now 1 contract 9 0 7 100 8 1 ≡ ok (owner_swapped, 90))
    × (swap now 1 of_two 5 0 7 100 8 1 ≡ ok (swapped, 90))
    × (swap now 1 unprepared 9 0 7 100 8 1 ≡ panic Fault.inconsistent_state)
unfolding swap swap_core reread get_pool replace_pool assert_contract_running deposited deposit
    withdrawn withdraw storage_usage assert_storage_usage internal_unwrap_account
    internal_unwrap_or_default_account internal_save_account lookup insert checked_add checked_sub
    checked_mul
contract_runs = rw swap_run (refl, refl, refl)

swap_deposits_example :
    (p : SimplePool) × (paid : SimplePool × ℕ × ℕ) × (get_pool of_two 0 ≡ ok p)
    × (Trade.swap now p 7 100 8 1 ≡ ok paid)
    × (90 ≡ paid.1)
    × (swapped.pools ≡ set of_two.pools 0 paid.0)
    × (internal_get_deposit swapped.accounts 5 7 + 100 ≡ internal_get_deposit of_two.accounts 5 7)
    × (internal_get_deposit swapped.accounts 5 8
        ≡ internal_get_deposit of_two.accounts 5 8 + paid.1 + (if 5 == 9 then paid.2 else 0))
    × ((token : ℕ)
        → token ≢ 7
        → token ≢ 8
        → internal_get_deposit swapped.accounts 5 token
          ≡ internal_get_deposit of_two.accounts 5 token)
    × ((k token : ℕ)
        → k ≢ 5
        → internal_get_deposit swapped.accounts k token ≡ (
            if k == 9
            then internal_get_deposit of_two.accounts k token + (if token == 8 then paid.2 else 0)
            else internal_get_deposit of_two.accounts k token))
swap_deposits_example = swap_deposits now 1 of_two 5 0 7 100 8 1 contract_runs.1 (omega arith)
