-- ===== src/Exchange/Contract/Tokens.antt =====
-- The deposits and the shares of the pools as tokens that accounts transfer to each other, in
-- snails_exchange/src/multi_fungible_token.rs. The conversion of bytes to an account's
-- name and of a promise's result to a number, and the outcome of the SDK's `assert_one_yocto`, are
-- parameters. Memos are logs; the promises of a transfer call are left out.
pub mod Refunds
use snails_contracts.Common.{
  ℕ, ◌+◌, not, List, Bool, Option, none, some, ltb, leb, ◌==◌, if◌then◌else◌, Result, ok, panic,
  guard, ◌>>=◌, ◌>>◌, Fault,
}
use snails_contracts.Common.Table.{contains_key}
use snails_contracts.Exchange.Pool.State
use snails_contracts.Exchange.Account.{
  assert_contract_running, deposit, withdraw, internal_unwrap_account, internal_save_account,
  internal_get_deposit,
}
use snails_contracts.Exchange.Contract.{
  SnailSwap, Call, get_pool, replace_pool, internal_check_storage,
}
use snails_contracts.Exchange.Contract.TokenIds.{TokenOrPool, parse_token_id}
use snails_contracts.Exchange.Contract.Promises.{PromiseResult}

-- `GAS_FOR_FT_TRANSFER_CALL`
abbrev pub gas_for_ft_transfer_call : ℕ
gas_for_ft_transfer_call = 25_000_000_000_000 + 20_000_000_000_000

-- What a callback leaves unused of an amount, where `reported` is the number that it reports.
unfoldable pub capped : ℕ → Option ℕ → ℕ
capped amount none = amount
capped amount (some reported) = if leb amount reported then amount else reported

-- Both accounts are read before either is written.
unfoldable pub transfer_parsed : ℕ → SnailSwap → TokenOrPool → ℕ → ℕ → ℕ → Result SnailSwap
transfer_parsed byte_cost c (TokenOrPool.pool pool_id) sender_id receiver_id amount = do
  p ← get_pool c pool_id
  p' ← State.share_transfer p sender_id receiver_id amount
  ok (replace_pool c pool_id p')
transfer_parsed byte_cost c (TokenOrPool.token token_id) sender_id receiver_id amount = do
  sender_account ← internal_unwrap_account c.accounts sender_id
  receiver_account ← internal_unwrap_account c.accounts receiver_id
  sender_account' ← withdraw sender_account token_id amount
  receiver_account' ← deposit receiver_account token_id amount
  accounts ← internal_save_account byte_cost c.accounts sender_id sender_account'
  accounts' ← internal_save_account byte_cost accounts receiver_id receiver_account'
  ok (record c { accounts = accounts' })

unfoldable pub balance_parsed : SnailSwap → TokenOrPool → ℕ → Result ℕ
balance_parsed c (TokenOrPool.pool pool_id) account_id = do
  p ← get_pool c pool_id
  ok (State.share_balance_of p account_id)
balance_parsed c (TokenOrPool.token token_id) account_id =
    ok (internal_get_deposit c.accounts account_id token_id)

unfoldable pub supply_parsed : SnailSwap → TokenOrPool → Result ℕ
supply_parsed c (TokenOrPool.pool pool_id) = do p ← get_pool c pool_id; ok p.shares_total_supply
supply_parsed c (TokenOrPool.token token_id) = panic Fault.unimplemented

-- The contract and the refund.
unfoldable pub register_parsed : Call → SnailSwap → TokenOrPool → ℕ → Result (SnailSwap × ℕ)
register_parsed call c (TokenOrPool.token token_id) account_id = panic Fault.invalid_register
register_parsed call c (TokenOrPool.pool pool_id) account_id = do
  p ← get_pool c pool_id
  p' ← State.share_register p account_id
  refund ← internal_check_storage call
  ok (replace_pool c pool_id p', refund)

unfoldable pub registered_parsed : SnailSwap → TokenOrPool → ℕ → Result Bool
registered_parsed c (TokenOrPool.token token_id) account_id = panic Fault.invalid_register
registered_parsed c (TokenOrPool.pool pool_id) account_id = do
  p ← get_pool c pool_id
  ok (State.is_lp_token_registered p account_id)

-- The unused part of a transfer that a call has made.
unfoldable pub unused_amount : (List ℕ → Option ℕ) → ℕ → PromiseResult → Result ℕ
unused_amount number_of amount PromiseResult.not_ready = panic Fault.assertion
unused_amount number_of amount PromiseResult.failed = ok amount
unused_amount number_of amount (PromiseResult.successful value) =
    ok (capped amount (number_of value))

module _ (account_id_of : List ℕ → Option ℕ) where
  unfoldable pub internal_mft_transfer : ℕ → SnailSwap → List ℕ → ℕ → ℕ → ℕ → Result SnailSwap
  internal_mft_transfer byte_cost c token_id sender_id receiver_id amount = do
    guard (not (sender_id == receiver_id)) Fault.transfer_to_self
    assert_contract_running c.state
    parsed ← parse_token_id account_id_of token_id
    transfer_parsed byte_cost c parsed sender_id receiver_id amount

  unfoldable pub internal_mft_balance : SnailSwap → List ℕ → ℕ → Result ℕ
  internal_mft_balance c token_id account_id = do
    parsed ← parse_token_id account_id_of token_id
    balance_parsed c parsed account_id

  unfoldable pub mft_total_supply : SnailSwap → List ℕ → Result ℕ
  mft_total_supply c token_id = do
    parsed ← parse_token_id account_id_of token_id
    supply_parsed c parsed

  unfoldable pub mft_register : Call → SnailSwap → List ℕ → ℕ → Result (SnailSwap × ℕ)
  mft_register call c token_id account_id = do
    assert_contract_running c.state
    parsed ← parse_token_id account_id_of token_id
    register_parsed call c parsed account_id

  unfoldable pub is_lp_token_registered : SnailSwap → List ℕ → ℕ → Result Bool
  is_lp_token_registered c token_id account_id = do
    parsed ← parse_token_id account_id_of token_id
    registered_parsed c parsed account_id

  unfoldable pub mft_transfer :
      Result (Unit {0}) → ℕ → SnailSwap → ℕ → List ℕ → ℕ → ℕ → Result SnailSwap
  mft_transfer one_yocto byte_cost c predecessor token_id receiver_id amount = do
    one_yocto
    assert_contract_running c.state
    internal_mft_transfer byte_cost c token_id predecessor receiver_id amount

  -- Up to the promises.
  unfoldable pub mft_transfer_call :
      Result (Unit {0}) → ℕ → ℕ → SnailSwap → ℕ → List ℕ → ℕ → ℕ → Result SnailSwap
  mft_transfer_call one_yocto prepaid_gas byte_cost c sender_id token_id receiver_id amount = do
    one_yocto
    assert_contract_running c.state
    c' ← internal_mft_transfer byte_cost c token_id sender_id receiver_id amount
    guard (leb gas_for_ft_transfer_call prepaid_gas) Fault.insufficient_gas
    ok c'

  -- The part of a resolved transfer that the receiver still has goes back.
  unfoldable pub refund : ℕ → SnailSwap → List ℕ → ℕ → ℕ → ℕ → ℕ → Result SnailSwap
  refund byte_cost c token_id sender_id receiver_id receiver_balance unused =
      if ltb 0 receiver_balance
      then internal_mft_transfer byte_cost c token_id receiver_id
          (if contains_key sender_id c.accounts then sender_id else c.owner_id)
          (if leb receiver_balance unused then receiver_balance else unused)
      else ok c

  -- The contract and the answer, which is the unused amount.
  unfoldable pub mft_resolve_transfer :
      (List ℕ → Option ℕ)
      → ℕ
      → SnailSwap
      → List ℕ
      → ℕ
      → ℕ
      → ℕ
      → PromiseResult
      → Result (SnailSwap × ℕ)
  mft_resolve_transfer number_of byte_cost c token_id sender_id receiver_id amount result = do
    unused ← unused_amount number_of amount result
    c' ←
        if ltb 0 unused
        then (do
          receiver_balance ← internal_mft_balance c token_id receiver_id
          refund byte_cost c token_id sender_id receiver_id receiver_balance unused)
        else ok c
    ok (c', unused)
