-- ===== src/Exchange/Examples/Histories.antt =====
-- A history of the contract on concrete values: the owner pays for storage, adds a pool, deposits
-- two tokens, adds liquidity and swaps.
use snails_contracts.Common.{
  ℕ, ◌+◌, ◌≤◌, ◌≡◌, refl, List, [], ◌∷◌, none, false, ok, checked_add, checked_sub, checked_mul,
}
use snails_contracts.Common.Table.{lookup, insert, contains_key}
use snails_contracts.Exchange.Fees.{assert_fees_info_valid}
use snails_contracts.Exchange.Account.{
  Account, RunningState, assert_contract_running, deposited, deposit, withdrawn, withdraw,
  storage_usage, storage_available, assert_storage_usage, min_storage_usage,
  internal_unwrap_account, internal_unwrap_or_default_account, internal_save_account,
  internal_deposit, internal_register_account,
}
use snails_contracts.Exchange.Contract
use snails_contracts.Exchange.Contract.{
  SnailSwap, Call, assert_owner, get_pool, replace_pool, reread, swap_core, swap, is_in, token_set,
  check_token_duplicates, internal_check_storage, deposit_all, transfer_admin_fees,
  internal_add_pool, add_simple_pool,
}
use snails_contracts.Exchange.Contract.Liquidity
use snails_contracts.Exchange.Contract.Liquidity.{
  write_through, withdraw_all, settle, assert_min_mint,
}
use snails_contracts.Exchange.Contract.Storage.{balance_of_account, register_for, storage_deposit}
use snails_contracts.Exchange.Contract.Transfers.{receive, ft_on_transfer}
use snails_contracts.Exchange.Contract.Claims.{claims}
use snails_contracts.Exchange.Contract.Claims.Swaps.{swap_fee}
use snails_contracts.Exchange.Contract.Claims.Storage.{sent_of, receive_fee}
use snails_contracts.Exchange.Contract.Claims.History.{World, Step, History}
use snails_contracts.Exchange.Contract.Claims.Solvency.{History-claims}
use snails_contracts.Exchange.Examples.{fees, balances, now}
use snails_contracts.Exchange.Examples.Pools.{
  empty, funded, traded_later, new_run, fund_run, later_run,
}

abbrev world : World
world = record { account_id_of = λ _. none; number_of = λ _. none; message_of = λ _. none }

abbrev pub call : Call
call = record {
  predecessor = 9;
  attached_deposit = 1000;
  now = now;
  byte_cost = 1;
  prev_storage = 500;
  pool_storage = 500;
  end_storage = 800;
}

abbrev created : SnailSwap
created = record { owner_id = 9; pools = []; state = RunningState.running; accounts = [] }

abbrev owner_with : List (ℕ × ℕ) → Account
owner_with tokens = record { near_amount = 1000; tokens = tokens; storage_used = 0 }

abbrev registered : SnailSwap
registered = record created { accounts = (9, owner_with []) ∷ [] }

abbrev with_pool : SnailSwap
with_pool = record registered { pools = empty ∷ [] }

abbrev first_in : SnailSwap
first_in = record with_pool { accounts = (9, owner_with ((7, 1500) ∷ [])) ∷ [] }

abbrev both_in : SnailSwap
both_in = record with_pool { accounts = (9, owner_with ((7, 1500) ∷ (8, 1000) ∷ [])) ∷ [] }

abbrev provided : SnailSwap
provided = record created {
  pools = funded ∷ [];
  accounts = (9, owner_with ((7, 500) ∷ (8, 0) ∷ [])) ∷ [];
}

abbrev exchanged : SnailSwap
exchanged = record created {
  pools = traded_later ∷ [];
  accounts = (9, owner_with ((7, 400) ∷ (8, 94) ∷ [])) ∷ [];
}

program : Unit {0}
unfolding lookup insert contains_key assert_fees_info_valid assert_contract_running deposited
    deposit withdrawn withdraw storage_usage storage_available assert_storage_usage
    min_storage_usage internal_unwrap_account internal_unwrap_or_default_account
    internal_save_account internal_deposit internal_register_account Contract.new assert_owner
    get_pool replace_pool swap_core swap is_in token_set check_token_duplicates
    internal_check_storage deposit_all transfer_admin_fees internal_add_pool add_simple_pool reread
    write_through withdraw_all settle assert_min_mint Liquidity.add_liquidity balance_of_account
    register_for storage_deposit receive ft_on_transfer checked_add checked_sub checked_mul
program = tt

create_run : Contract.new false 9 ≡ ok created
unfolding program
create_run = refl

register_run :
    storage_deposit call created none none
    ≡ ok (registered, record { total = 1000; available = 898 }, 0)
unfolding program
register_run = refl

add_pool_run :
    add_simple_pool call registered (7 ∷ 8 ∷ []) (24 ∷ 24 ∷ []) 100 100 0 0 fees
    ≡ ok (with_pool, 0, 700)
unfolding program
add_pool_run = rw new_run refl

deposit_runs :
    (ft_on_transfer (λ _. none) now 1 with_pool 7 9 1500 [] ≡ ok (first_in, none))
    × (ft_on_transfer (λ _. none) now 1 first_in 8 9 1000 [] ≡ ok (both_in, none))
unfolding program
deposit_runs = (refl, refl)

add_run : Liquidity.add_liquidity call both_in 0 balances none ≡ ok (provided, 2000, 700)
unfolding program
add_run = rw fund_run refl

swap_run : swap now 1 provided 9 0 7 100 8 1 ≡ ok (exchanged, 90)
unfolding program
swap_run = rw later_run refl

History-claims_example : claims exchanged 8 + 0 ≤ 1000 + (0 + swap_fee now provided 0 7 100 8 1)
unfolding sent_of receive_fee
History-claims_example =
    History-claims world
      (History.follows
        (History.follows
          (History.follows
            (History.follows
              (History.follows
                (History.follows (History.creates false 9 create_run)
                  (Step.pays_storage call created none none register_run))
                (Step.adds_pool call registered (7 ∷ 8 ∷ []) (24 ∷ 24 ∷ []) 100 100 0 0 fees
                  add_pool_run))
              (Step.receives now 1 with_pool 7 9 1500 [] deposit_runs.0))
            (Step.receives now 1 first_in 8 9 1000 [] deposit_runs.1))
          (Step.adds call both_in 0 balances none add_run))
        (Step.swaps now 1 provided 9 0 7 100 8 1 swap_run))
      8
