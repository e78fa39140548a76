-- ===== src/Exchange/Contract/Transfers.antt =====
-- Tokens that come in and that go out: `ft_on_transfer` of snails_exchange/src/token_receiver.rs,
-- `internal_send_tokens` of account.rs and the callback of a withdrawal in lib.rs. The reading of a
-- message is a parameter, and so is what the SDK says of the promise.
pub mod Returns
use snails_contracts.Common.{
  ℕ, List, [], ◌∷◌, Bool, true, false, Option, none, some, ◌==◌, Result, ok, panic, guard,
  expect_some, ◌>>=◌, ◌>>◌, Fault,
}
use snails_contracts.Common.Table.{Table, lookup, insert}
use snails_contracts.Exchange.Account.{
  Account, assert_contract_running, deposit_with_storage_check, internal_deposit,
  internal_lostfound,
}
use snails_contracts.Exchange.Contract.{SnailSwap, swap_core}
use snails_contracts.Exchange.Contract.Promises.{PromiseResult}

-- The one message, a swap.
pub record TokenReceiverMessage : Type 0 where
  pub pool_id : ℕ
  pub token_out : ℕ
  pub min_amount_out : ℕ

-- The promise of `internal_send_tokens`: the transfer, whose result the callback receives.
pub record Sent : Type 0 where
  pub receiver_id : ℕ
  pub token_id : ℕ
  pub amount : ℕ

unfoldable pub direct_swap : ℕ → ℕ → SnailSwap → ℕ → ℕ → ℕ → ℕ → ℕ → Result (SnailSwap × ℕ)
direct_swap now byte_cost c pool_id token_in token_out amount_in min_amount_out =
    swap_core now byte_cost c pool_id token_in amount_in token_out min_amount_out

-- A message without bytes is a deposit, any other one a swap whose proceeds are sent. Nothing of the
-- amount is returned.
unfoldable pub receive :
    (List ℕ → Option TokenReceiverMessage)
    → ℕ
    → ℕ
    → SnailSwap
    → ℕ
    → ℕ
    → ℕ
    → List ℕ
    → Result (SnailSwap × Option Sent)
receive message_of now byte_cost c token_in sender_id amount [] = do
  accounts ← internal_deposit byte_cost c.accounts sender_id token_in amount
  ok (record c { accounts = accounts }, none)
receive message_of now byte_cost c token_in sender_id amount (b ∷ msg) = do
  m ← expect_some Fault.wrong_msg_format (message_of (b ∷ msg))
  (c', amount_out) ←
      direct_swap now byte_cost c m.pool_id token_in m.token_out amount m.min_amount_out
  ok (c', some (record { receiver_id = sender_id; token_id = m.token_out; amount = amount_out }))

unfoldable pub ft_on_transfer :
    (List ℕ → Option TokenReceiverMessage)
    → ℕ
    → ℕ
    → SnailSwap
    → ℕ
    → ℕ
    → ℕ
    → List ℕ
    → Result (SnailSwap × Option Sent)
ft_on_transfer message_of now byte_cost c predecessor sender_id amount msg = do
  assert_contract_running c.state
  receive message_of now byte_cost c predecessor sender_id amount msg

-- What comes back goes to an account that has taken it, otherwise to the owner.
unfoldable pub keep_or_find : Bool → Account → SnailSwap → ℕ → ℕ → ℕ → Result (Table Account)
keep_or_find true account c token_id sender_id amount = ok (insert sender_id account c.accounts)
keep_or_find false account c token_id sender_id amount =
    internal_lostfound c.accounts c.owner_id token_id amount

unfoldable pub give_back : ℕ → Option Account → SnailSwap → ℕ → ℕ → ℕ → Result (Table Account)
give_back byte_cost none c token_id sender_id amount =
    internal_lostfound c.accounts c.owner_id token_id amount
give_back byte_cost (some account) c token_id sender_id amount = do
  (account', kept) ← deposit_with_storage_check byte_cost account token_id amount
  keep_or_find kept account' c token_id sender_id amount

unfoldable pub after_withdrawal : ℕ → PromiseResult → SnailSwap → ℕ → ℕ → ℕ → Result SnailSwap
after_withdrawal byte_cost PromiseResult.not_ready c token_id sender_id amount =
    panic Fault.assertion
after_withdrawal byte_cost (PromiseResult.successful value) c token_id sender_id amount = ok c
after_withdrawal byte_cost PromiseResult.failed c token_id sender_id amount = do
  accounts ← give_back byte_cost (lookup sender_id c.accounts) c token_id sender_id amount
  ok (record c { accounts = accounts })

unfoldable pub exchange_callback_post_withdraw :
    ℕ → ℕ → PromiseResult → SnailSwap → ℕ → ℕ → ℕ → Result SnailSwap
exchange_callback_post_withdraw byte_cost promise_results_count result c token_id sender_id amount =
    do
      guard (promise_results_count == 1) Fault.callback_invalid
      after_withdrawal byte_cost result c token_id sender_id amount
