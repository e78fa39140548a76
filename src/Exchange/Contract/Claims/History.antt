-- ===== src/Exchange/Contract/Claims/History.antt =====
-- Every history of the exchange contract: from its creation, by any of its methods in any order, at
-- any times, with any results of the promises.
use snails_contracts.Common.{ℕ, ◌+◌, ◌≡◌, List, Option, Bool, ok, Result}
use snails_contracts.Common.Table.{Table}
use snails_contracts.Exchange.Fees.{Fees}
use snails_contracts.Exchange.Account.{
  Account, RunningState, register_tokens, unregister_tokens, withdraw_tokens,
}
use snails_contracts.Exchange.Contract
use snails_contracts.Exchange.Contract.{
  SnailSwap, Call, add_simple_pool, swap, change_fees_setting, set_amp_params, change_state,
  assert_owner,
}
use snails_contracts.Exchange.Contract.Liquidity.{
  add_liquidity, remove_liquidity, remove_liquidity_imbalance, remove_liquidity_one_coin,
}
use snails_contracts.Exchange.Contract.Promises.{PromiseResult}
use snails_contracts.Exchange.Contract.Tokens.{
  mft_register, mft_transfer, mft_transfer_call, mft_resolve_transfer,
}
use snails_contracts.Exchange.Contract.Transfers.{
  TokenReceiverMessage, Sent, ft_on_transfer, exchange_callback_post_withdraw,
}
use snails_contracts.Exchange.Contract.Storage.{
  StorageBalance, storage_deposit, storage_withdraw, storage_unregister,
}
use snails_contracts.Exchange.Contract.Claims.{only, nothing}
use snails_contracts.Exchange.Contract.Claims.Swaps.{swap_fee}
use snails_contracts.Exchange.Contract.Claims.Callbacks.{returned}
use snails_contracts.Exchange.Contract.Claims.Storage.{sent_of, receive_fee}

-- What the contract does not control: the names of accounts in token ids, the number that a promise
-- returns and the messages of transfers.
pub record World : Type 0 where
  pub account_id_of : List ℕ → Option ℕ
  pub number_of : List ℕ → Option ℕ
  pub message_of : List ℕ → Option TokenReceiverMessage

-- One method: the tokens that it has received and sent, and the fees that a swap has credited to the
-- owner and left in the pool as well.
pub data Step (w : World) : SnailSwap → SnailSwap → (received sent fees : ℕ → ℕ) → Type 0 where
  adds_pool :
      (call : Call) (c : SnailSwap) (tokens decimals : List ℕ) (initial target start stop : ℕ)
      (fees : Fees) {r : SnailSwap × ℕ × ℕ}
      → add_simple_pool call c tokens decimals initial target start stop fees ≡ ok r
      → Step w c r.0 nothing nothing nothing
  sets_fees :
      (c : SnailSwap) (predecessor pool_id : ℕ) (fees : Fees) {c' : SnailSwap}
      → change_fees_setting c predecessor pool_id fees ≡ ok c'
      → Step w c c' nothing nothing nothing
  sets_amp :
      (now : ℕ) (c : SnailSwap) (predecessor pool_id initial target stop : ℕ) {c' : SnailSwap}
      → set_amp_params now c predecessor pool_id initial target stop ≡ ok c'
      → Step w c c' nothing nothing nothing
  sets_state :
      (one_yocto : Result (Unit {0})) (c : SnailSwap) (predecessor : ℕ) (state : RunningState)
      {c' : SnailSwap}
      → change_state one_yocto c predecessor state ≡ ok c'
      → Step w c c' nothing nothing nothing
  adds :
      (call : Call) (c : SnailSwap) (pool_id : ℕ) (amounts : List ℕ) (least : Option ℕ)
      {r : SnailSwap × ℕ × ℕ}
      → add_liquidity call c pool_id amounts least ≡ ok r
      → Step w c r.0 nothing nothing nothing
  removes :
      (one_yocto : Result (Unit {0})) (call : Call) (c : SnailSwap) (pool_id shares : ℕ)
      (min_amounts : List ℕ) {r : SnailSwap × ℕ}
      → remove_liquidity one_yocto call c pool_id shares min_amounts ≡ ok r
      → Step w c r.0 nothing nothing nothing
  takes :
      (one_yocto : Result (Unit {0})) (call : Call) (c : SnailSwap) (pool_id : ℕ) (amounts : List ℕ)
      (most : Option ℕ) {r : SnailSwap × ℕ}
      → remove_liquidity_imbalance one_yocto call c pool_id amounts most ≡ ok r
      → Step w c r.0 nothing nothing nothing
  takes_one :
      (one_yocto : Result (Unit {0})) (call : Call) (c : SnailSwap)
      (pool_id token_out shares min_amount : ℕ) {r : SnailSwap × ℕ}
      → remove_liquidity_one_coin one_yocto call c pool_id token_out shares min_amount ≡ ok r
      → Step w c r.0 nothing nothing nothing
  swaps :
      (now byte_cost : ℕ) (c : SnailSwap) (sender pool_id token_in amount_in token_out least : ℕ)
      {r : SnailSwap × ℕ}
      → swap now byte_cost c sender pool_id token_in amount_in token_out least ≡ ok r
      → Step w c r.0 nothing nothing
          (only token_out (swap_fee now c pool_id token_in amount_in token_out least))
  receives :
      (now byte_cost : ℕ) (c : SnailSwap) (token sender amount : ℕ) (msg : List ℕ)
      {r : SnailSwap × Option Sent}
      → ft_on_transfer w.message_of now byte_cost c token sender amount msg ≡ ok r
      → Step w c r.0
          (only token amount)
          (sent_of r.1)
          (receive_fee w.message_of now c token amount msg)
  withdraws :
      (one_yocto : Result (Unit {0})) (byte_cost : ℕ) (c : SnailSwap) (sender token amount : ℕ)
      (unregister_token : Option Bool) {t : Table Account}
      → withdraw_tokens one_yocto c.state byte_cost c.accounts sender token amount unregister_token
        ≡ ok t
      → Step w c (record c { accounts = t }) nothing (only token amount) nothing
  resolves :
      (byte_cost results : ℕ) (result : PromiseResult) (c : SnailSwap) (token sender amount : ℕ)
      {c' : SnailSwap}
      → exchange_callback_post_withdraw byte_cost results result c token sender amount ≡ ok c'
      → Step w c c' (only token (returned result amount)) nothing nothing
  registers :
      (one_yocto : Result (Unit {0})) (byte_cost : ℕ) (c : SnailSwap) (sender : ℕ) (tokens : List ℕ)
      {t : Table Account}
      → register_tokens one_yocto c.state byte_cost c.accounts sender tokens ≡ ok t
      → Step w c (record c { accounts = t }) nothing nothing nothing
  unregisters :
      (one_yocto : Result (Unit {0})) (byte_cost : ℕ) (c : SnailSwap) (sender : ℕ) (tokens : List ℕ)
      {t : Table Account}
      → unregister_tokens one_yocto c.state byte_cost c.accounts sender tokens ≡ ok t
      → Step w c (record c { accounts = t }) nothing nothing nothing
  registers_shares :
      (call : Call) (c : SnailSwap) (token_id : List ℕ) (account : ℕ) {r : SnailSwap × ℕ}
      → mft_register w.account_id_of call c token_id account ≡ ok r
      → Step w c r.0 nothing nothing nothing
  transfers :
      (one_yocto : Result (Unit {0})) (byte_cost : ℕ) (c : SnailSwap) (token_id : List ℕ)
      (sender receiver amount : ℕ) {c' : SnailSwap}
      → mft_transfer w.account_id_of one_yocto byte_cost c sender token_id receiver amount ≡ ok c'
      → Step w c c' nothing nothing nothing
  transfers_and_calls :
      (one_yocto : Result (Unit {0})) (gas byte_cost : ℕ) (c : SnailSwap) (token_id : List ℕ)
      (sender receiver amount : ℕ) {c' : SnailSwap}
      → mft_transfer_call w.account_id_of one_yocto gas byte_cost c sender token_id receiver amount
        ≡ ok c'
      → Step w c c' nothing nothing nothing
  resolves_transfer :
      (byte_cost : ℕ) (c : SnailSwap) (token_id : List ℕ) (sender receiver amount : ℕ)
      (result : PromiseResult) {r : SnailSwap × ℕ}
      → mft_resolve_transfer w.account_id_of w.number_of byte_cost c token_id sender receiver amount
          result
        ≡ ok r
      → Step w c r.0 nothing nothing nothing
  pays_storage :
      (call : Call) (c : SnailSwap) (named : Option ℕ) (registration_only : Option Bool)
      {r : SnailSwap × StorageBalance × ℕ}
      → storage_deposit call c named registration_only ≡ ok r
      → Step w c r.0 nothing nothing nothing
  takes_storage :
      (one_yocto : Result (Unit {0})) (call : Call) (c : SnailSwap) (amount : Option ℕ)
      {r : SnailSwap × StorageBalance × ℕ}
      → storage_withdraw one_yocto call c amount ≡ ok r
      → Step w c r.0 nothing nothing nothing
  leaves :
      (one_yocto : Result (Unit {0})) (c : SnailSwap) (predecessor : ℕ) {r : SnailSwap × Bool × ℕ}
      → storage_unregister one_yocto c predecessor ≡ ok r
      → Step w c r.0 nothing nothing nothing

-- The contracts that are reached, with all that has been received, sent and credited twice.
pub data History (w : World) : SnailSwap → (received sent fees : ℕ → ℕ) → Type 0 where
  creates :
      (state_exists : Bool) (owner_id : ℕ) {c : SnailSwap}
      → Contract.new state_exists owner_id ≡ ok c
      → History w c nothing nothing nothing
  follows :
      {c c' : SnailSwap} {received sent fees received' sent' fees' : ℕ → ℕ}
      → History w c received sent fees
      → Step w c c' received' sent' fees'
      → History w c' (λ k. received k + received' k) (λ k. sent k + sent' k) (λ k. fees k + fees' k)
