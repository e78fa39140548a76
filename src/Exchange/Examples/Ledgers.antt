-- ===== src/Exchange/Examples/Ledgers.antt =====
-- Transfers of tokens and shares, and the callbacks, run on a contract with two accounts: the owner
-- 9 and the account 5. The id of a token is one byte, and the shares of the pool have the id `:0`.
use snails_contracts.Common.{
  ℕ, ◌+◌, ◌<◌, ◌≤◌, ◌≡◌, ◌⊎◌, ◌==◌, if◌then◌else◌, ltb, leb, refl, List, [], ◌∷◌, Option, none,
  some, Result, ok, arith, checked_add, checked_sub, checked_mul, u64,
}
use snails_contracts.Common.Table.{lookup, insert, remove, contains_key}
use snails_contracts.Exchange.Pool.State.{share_balance_of, share_transfer, share_register}
use snails_contracts.Exchange.Account.{
  assert_contract_running, deposited, deposit, deposit_new, deposit_known, deposit_by_entry,
  withdrawn, withdraw, storage_usage, assert_storage_usage, internal_unwrap_account,
  internal_unwrap_or_default_account, internal_save_account, internal_deposit, internal_get_deposit,
  internal_lostfound, withdraw_tokens,
}
use snails_contracts.Exchange.Contract.{
  SnailSwap, Call, get_pool, replace_pool, internal_check_storage,
}
use snails_contracts.Exchange.Contract.Promises.{PromiseResult}
use snails_contracts.Exchange.Contract.TokenIds.{
  TokenOrPool, parse_digits, parse_u64, try_identify_pool_id, token_or_pool, parse_token_id,
}
use snails_contracts.Exchange.Contract.TokenIds.Numbers.{value, try_identify_pool_id-print}
use snails_contracts.Exchange.Contract.Tokens.{
  capped, transfer_parsed, balance_parsed, register_parsed, unused_amount, internal_mft_transfer,
  internal_mft_balance, mft_register, mft_transfer, refund, mft_resolve_transfer,
}
use snails_contracts.Exchange.Contract.Tokens.Refunds.{mft_resolve_transfer_lem}
use snails_contracts.Exchange.Contract.Transfers.{
  receive, ft_on_transfer, keep_or_find, give_back, after_withdrawal,
  exchange_callback_post_withdraw,
}
use snails_contracts.Exchange.Contract.Transfers.Returns.{exchange_callback_post_withdraw-failed}
use snails_contracts.Exchange.Contract.Claims.{only}
use snails_contracts.Exchange.Contract.Ledger.{Op, view, credit, debit, run_op, run, replay}
use snails_contracts.Exchange.Contract.Ledger.Refinement.{run_refines}
use snails_contracts.Exchange.Examples.{pool}
use snails_contracts.Exchange.Examples.Contracts.{owner, contract}
use snails_contracts.Exchange.Examples.Histories.{call}

abbrev first_byte : List ℕ → Option ℕ
first_byte [] = none
first_byte (b ∷ bytes) = some b

abbrev always : Call → Result (Unit {0})
always _ = ok tt

abbrev from : ℕ → Call
from account = record call { predecessor = account }

abbrev shared : SnailSwap
shared = record contract {
  accounts = (9, owner) ∷ (5, record owner { tokens = (7, 50) ∷ [] }) ∷ [];
}

-- The token 7 comes in for the account 5, which transfers some to the owner and withdraws some; it
-- registers for shares and gets some of those of the account 1.
abbrev ops : List Op
ops =
    Op.deposits (from 7) 5 50
    ∷ Op.transfers (from 5) (7 ∷ []) 9 20
    ∷ Op.withdraws (from 5) 7 30 none
    ∷ Op.registers_shares (from 5) (58 ∷ 48 ∷ []) 5
    ∷ Op.transfers (from 1) (58 ∷ 48 ∷ []) 5 300
    ∷ []

abbrev after : SnailSwap
after = record shared {
  pools = record pool { shares = (1, 1700) ∷ (5, 300) ∷ [] } ∷ [];
  accounts =
      (9, record owner { tokens = (7, 520) ∷ (8, 0) ∷ [] })
      ∷ (5, record owner { tokens = (7, 50) ∷ [] })
      ∷ [];
}

program : Unit {0}
unfolding lookup insert remove contains_key share_transfer share_register share_balance_of
    assert_contract_running deposited deposit deposit_new deposit_known deposit_by_entry withdrawn
    withdraw storage_usage assert_storage_usage internal_unwrap_account
    internal_unwrap_or_default_account internal_save_account internal_deposit internal_get_deposit
    internal_lostfound withdraw_tokens get_pool replace_pool internal_check_storage parse_digits
    parse_u64 try_identify_pool_id token_or_pool parse_token_id capped transfer_parsed
    balance_parsed register_parsed unused_amount internal_mft_transfer internal_mft_balance
    mft_register mft_transfer refund mft_resolve_transfer receive ft_on_transfer keep_or_find
    give_back after_withdrawal exchange_callback_post_withdraw run_op run value view checked_add
    checked_sub checked_mul
program = tt

session : run first_byte always ops shared ≡ ok after
unfolding program
session = refl

run_refines_example : view after ≡ replay first_byte always ops (view shared)
run_refines_example = run_refines first_byte always ops shared session

-- The account 6 does not exist: the owner gets what comes back.
abbrev found : SnailSwap
found = record shared {
  accounts =
      (9, record owner { tokens = (7, 540) ∷ (8, 0) ∷ [] })
      ∷ (5, record owner { tokens = (7, 50) ∷ [] })
      ∷ [];
}

found_run : exchange_callback_post_withdraw 1 1 PromiseResult.failed shared 7 6 40 ≡ ok found
unfolding program
found_run = refl

exchange_callback_post_withdraw-failed_example :
    (to : ℕ) × ((to ≡ 6) ⊎ (to ≡ shared.owner_id))
    × ((k j : ℕ)
        → internal_get_deposit found.accounts k j
          ≡ internal_get_deposit shared.accounts k j + (if k == to then only 7 40 j else 0))
    × (found.pools ≡ shared.pools)
exchange_callback_post_withdraw-failed_example =
    exchange_callback_post_withdraw-failed 1 1 shared 7 6 40 found_run

-- The account 5 has got 60 of the token 7 from the owner and has 50 left when the call has failed.
abbrev refunded : SnailSwap
refunded = record shared {
  accounts =
      (9, record owner { tokens = (7, 550) ∷ (8, 0) ∷ [] })
      ∷ (5, record owner { tokens = (7, 0) ∷ [] })
      ∷ [];
}

resolve_run :
    mft_resolve_transfer first_byte (λ _. none) 1 shared (7 ∷ []) 9 5 60 PromiseResult.failed
    ≡ ok (refunded, 60)
unfolding program
resolve_run = refl

mft_resolve_transfer_lem_example :
    (60 ≤ 60)
    × (◌≡◌ {A = ℕ} 60 0 → refunded ≡ shared)
    × (0 < 60
        → (id : TokenOrPool) × (amount : ℕ) × (parse_token_id first_byte (7 ∷ []) ≡ ok id)
          × (amount ≡ (if leb (view shared id 5) 60 then view shared id 5 else 60))
          × (view refunded
              ≡ credit amount id
                  (if contains_key 9 shared.accounts then 9 else shared.owner_id)
                  (debit amount id 5 (view shared))))
mft_resolve_transfer_lem_example =
    mft_resolve_transfer_lem first_byte 1 shared (7 ∷ []) (λ _. none) 9 5 60 PromiseResult.failed
      resolve_run

-- The bytes of `:42`.
try_identify_pool_id-print_example :
    try_identify_pool_id (58 ∷ 52 ∷ 50 ∷ [])
    ≡ (if ltb (value 0 (4 ∷ 2 ∷ [])) u64 then some (value 0 (4 ∷ 2 ∷ [])) else none)
try_identify_pool_id-print_example =
    try_identify_pool_id-print 4 (2 ∷ []) (omega arith, (omega arith, tt))
