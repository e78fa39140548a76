-- ===== src/Exchange/Contract/Coverage/Steps.antt =====
-- Every method of the exchange contract, and the accounts that pay for their storage.
use mathlib.Core.Path.{subst}
use snails_contracts.Common.{
  ℕ, ◌≡◌, List, [], ◌∷◌, Option, Bool, true, false, ok, ltb, not, ◌&&◌, >>=-elim, ok-injective,
  guard, expect, expect_some, Fault, Result, checked_sub,
}
use snails_contracts.Common.Table.{Table, contains_key}
use snails_contracts.Exchange.Account.{
  Account, is_set, min_storage_usage, assert_contract_running, internal_deposit,
  internal_register_account, internal_storage_withdraw,
}
use snails_contracts.Exchange.Account.Storage
use snails_contracts.Exchange.Account.Storage.{AllCovered, Step-AllCovered}
use snails_contracts.Exchange.Contract.{SnailSwap, Call, swap_core}
use snails_contracts.Exchange.Contract.Transfers.{
  TokenReceiverMessage, Sent, receive, direct_swap, ft_on_transfer,
}
use snails_contracts.Exchange.Contract.Storage.{
  StorageBalance, storage_balance_of, account_or, amount_or_zero, register_for, storage_deposit,
  storage_withdraw,
}
use snails_contracts.Exchange.Contract.Claims.History.{World, Step}
use snails_contracts.Exchange.Contract.Coverage.{swap_core-AllCovered, swap-AllCovered}
use snails_contracts.Exchange.Contract.Coverage.Callbacks.{
  callback-AllCovered, unregister-AllCovered, mft_transfer-AllCovered, mft_transfer_call-AllCovered,
  mft_resolve_transfer-AllCovered,
}
use snails_contracts.Exchange.Contract.Coverage.Methods.{
  add_pool-accounts, set_fees-accounts, set_amp-accounts, set_state-accounts,
  register_shares-accounts, add-AllCovered, remove-AllCovered, take-AllCovered, take_one-AllCovered,
}

receive-AllCovered :
    (message_of : List ℕ → Option TokenReceiverMessage) (now byte_cost : ℕ) (c : SnailSwap)
    (token_in sender amount : ℕ) (msg : List ℕ) {r : SnailSwap × Option Sent}
    → receive message_of now byte_cost c token_in sender amount msg ≡ ok r
    → AllCovered byte_cost c.owner_id c.accounts
    → AllCovered byte_cost c.owner_id (r.0).accounts
unfolding receive direct_swap
receive-AllCovered message_of now byte_cost c token_in sender amount [] h all =
    >>=-elim (internal_deposit byte_cost c.accounts sender token_in amount) _ h λ t h₁ r₁.
      subst (λ (r : SnailSwap × Option Sent). AllCovered byte_cost c.owner_id (r.0).accounts)
        (ok-injective r₁)
        (Step-AllCovered byte_cost c.owner_id
          (Storage.Step.deposits c.accounts sender token_in amount h₁) all)
receive-AllCovered message_of now byte_cost c token_in sender amount (b ∷ msg) h all =
    >>=-elim (expect_some Fault.wrong_msg_format (message_of (b ∷ msg))) _ h λ m h₁ r₁.
      >>=-elim (swap_core now byte_cost c m.pool_id token_in amount m.token_out m.min_amount_out) _
        r₁
        λ core h₂ r₂.
          subst (λ (r : SnailSwap × Option Sent). AllCovered byte_cost c.owner_id (r.0).accounts)
            (ok-injective r₂)
            (swap_core-AllCovered now byte_cost c m.pool_id token_in amount m.token_out
              m.min_amount_out h₂ all)

ft_on_transfer-AllCovered :
    (message_of : List ℕ → Option TokenReceiverMessage) (now byte_cost : ℕ) (c : SnailSwap)
    (token_in sender amount : ℕ) (msg : List ℕ) {r : SnailSwap × Option Sent}
    → ft_on_transfer message_of now byte_cost c token_in sender amount msg ≡ ok r
    → AllCovered byte_cost c.owner_id c.accounts
    → AllCovered byte_cost c.owner_id (r.0).accounts
unfolding ft_on_transfer
ft_on_transfer-AllCovered message_of now byte_cost c token_in sender amount msg h all =
    >>=-elim (assert_contract_running c.state) _ h
      λ _ h₁ r₁. receive-AllCovered message_of now byte_cost c token_in sender amount msg r₁ all

register_for-AllCovered :
    (byte_cost owner : ℕ) (t : Table Account) (account amount least : ℕ)
    (only_register known : Bool) {r : Table Account × ℕ}
    → register_for byte_cost t account amount least only_register known ≡ ok r
    → AllCovered byte_cost owner t
    → AllCovered byte_cost owner r.0
unfolding register_for
register_for-AllCovered byte_cost owner t account amount least true true h all =
    subst (λ (r : Table Account × ℕ). AllCovered byte_cost owner r.0) (ok-injective h) all
register_for-AllCovered byte_cost owner t account amount least true false h all =
    >>=-elim (internal_register_account byte_cost t account least) _ h λ t' h₁ r₁.
      >>=-elim (expect Fault.unwrap_none (checked_sub amount least)) _ r₁ λ n h₂ r₂.
        subst (λ (r : Table Account × ℕ). AllCovered byte_cost owner r.0) (ok-injective r₂)
          (Step-AllCovered byte_cost owner (Storage.Step.pays t account least h₁) all)
register_for-AllCovered byte_cost owner t account amount least false known h all =
    >>=-elim (internal_register_account byte_cost t account amount) _ h λ t' h₁ r₁.
      subst (λ (r : Table Account × ℕ). AllCovered byte_cost owner r.0) (ok-injective r₁)
        (Step-AllCovered byte_cost owner (Storage.Step.pays t account amount h₁) all)

storage_deposit-AllCovered :
    (call : Call) (c : SnailSwap) (named : Option ℕ) (registration_only : Option Bool)
    {r : SnailSwap × StorageBalance × ℕ}
    → storage_deposit call c named registration_only ≡ ok r
    → AllCovered call.byte_cost c.owner_id c.accounts
    → AllCovered call.byte_cost c.owner_id (r.0).accounts
unfolding storage_deposit
storage_deposit-AllCovered call c named registration_only h all =
    let account = account_or named call.predecessor in
    let known = contains_key account c.accounts in
    >>=-elim (assert_contract_running c.state) _ h λ _ h₁ r₁.
      >>=-elim (min_storage_usage call.byte_cost) _ r₁ λ least h₂ r₂.
        >>=-elim
          (guard (not (ltb call.attached_deposit least && not known))
            Fault.deposit_less_than_min_storage)
          _ r₂
          λ _ h₃ r₃.
            >>=-elim
              (register_for call.byte_cost c.accounts account call.attached_deposit least
                (is_set registration_only) known)
              _ r₃
              λ d h₄ r₄.
                >>=-elim (storage_balance_of call.byte_cost d.0 account) _ r₄ λ found h₅ r₅.
                  >>=-elim (expect_some Fault.unwrap_none found) _ r₅ λ b h₆ r₆.
                    subst
                      (λ (r : SnailSwap × StorageBalance × ℕ).
                        AllCovered call.byte_cost c.owner_id (r.0).accounts)
                      (ok-injective r₆)
                      (register_for-AllCovered call.byte_cost c.owner_id c.accounts account
                        call.attached_deposit least (is_set registration_only) known h₄ all)

storage_withdraw-AllCovered :
    (one_yocto : Result (Unit {0})) (call : Call) (c : SnailSwap) (amount : Option ℕ)
    {r : SnailSwap × StorageBalance × ℕ}
    → storage_withdraw one_yocto call c amount ≡ ok r
    → AllCovered call.byte_cost c.owner_id c.accounts
    → AllCovered call.byte_cost c.owner_id (r.0).accounts
unfolding storage_withdraw
storage_withdraw-AllCovered one_yocto call c amount h all = >>=-elim one_yocto _ h λ _ h₁ r₁.
    >>=-elim (assert_contract_running c.state) _ r₁ λ _ h₂ r₂.
      >>=-elim
        (internal_storage_withdraw call.byte_cost c.accounts call.predecessor
          (amount_or_zero amount))
        _ r₂
        λ d h₃ r₃.
          >>=-elim (storage_balance_of call.byte_cost d.0 call.predecessor) _ r₃ λ found h₄ r₄.
            >>=-elim (expect_some Fault.unwrap_none found) _ r₄ λ b h₅ r₅.
              subst
                (λ (r : SnailSwap × StorageBalance × ℕ).
                  AllCovered call.byte_cost c.owner_id (r.0).accounts)
                (ok-injective r₅)
                (Step-AllCovered call.byte_cost c.owner_id
                  (Storage.Step.takes_back c.accounts call.predecessor (amount_or_zero amount) h₃)
                  all)

-- The cost of a byte that a method finds, where it asks for it.
unfoldable pub AtCost :
    (n : ℕ) {w : World} {c c' : SnailSwap} {received sent fees : ℕ → ℕ}
    → Step w c c' received sent fees
    → Type 0
AtCost n (Step.adds_pool call c tokens decimals i t s e fees h) = call.byte_cost ≡ n
AtCost n (Step.sets_fees c predecessor pool_id fees h) = Unit {0}
AtCost n (Step.sets_amp now c predecessor pool_id i t s h) = Unit {0}
AtCost n (Step.sets_state one_yocto c predecessor state h) = Unit {0}
AtCost n (Step.adds call c pool_id amounts least h) = call.byte_cost ≡ n
AtCost n (Step.removes one_yocto call c pool_id shares min_amounts h) = call.byte_cost ≡ n
AtCost n (Step.takes one_yocto call c pool_id amounts most h) = call.byte_cost ≡ n
AtCost n (Step.takes_one one_yocto call c pool_id token_out shares least h) = call.byte_cost ≡ n
AtCost n (Step.swaps now byte_cost c sender pool_id i a o least h) = byte_cost ≡ n
AtCost n (Step.receives now byte_cost c token sender amount msg h) = byte_cost ≡ n
AtCost n (Step.withdraws one_yocto byte_cost c sender token amount u h) = byte_cost ≡ n
AtCost n (Step.resolves byte_cost results result c token sender amount h) = byte_cost ≡ n
AtCost n (Step.registers one_yocto byte_cost c sender tokens h) = byte_cost ≡ n
AtCost n (Step.unregisters one_yocto byte_cost c sender tokens h) = byte_cost ≡ n
AtCost n (Step.registers_shares call c token_id account h) = call.byte_cost ≡ n
AtCost n (Step.transfers one_yocto byte_cost c token_id sender receiver amount h) = byte_cost ≡ n
AtCost n (Step.transfers_and_calls one_yocto gas byte_cost c token_id sender receiver amount h) =
    byte_cost ≡ n
AtCost n (Step.resolves_transfer byte_cost c token_id sender receiver amount result h) =
    byte_cost ≡ n
AtCost n (Step.pays_storage call c named only h) = call.byte_cost ≡ n
AtCost n (Step.takes_storage one_yocto call c amount h) = call.byte_cost ≡ n
AtCost n (Step.leaves one_yocto c predecessor h) = Unit {0}

at_cost :
    {m n : ℕ} (owner : ℕ) {t t' : Table Account}
    → m ≡ n
    → (AllCovered m owner t → AllCovered m owner t')
    → AllCovered n owner t
    → AllCovered n owner t'
at_cost owner {t} {t'} e keeps = subst (λ n. AllCovered n owner t → AllCovered n owner t') e keeps

same_accounts :
    {n : ℕ} (owner : ℕ) {t t' : Table Account}
    → t ≡ t'
    → AllCovered n owner t
    → AllCovered n owner t'
same_accounts {n} owner e all = subst (AllCovered n owner) e all

-- Every method of the exchange contract, among them the callback of a withdrawal, keeps this, at
-- the cost of a byte that the method finds: each account but the owner's has paid for the storage
-- of its entry and of all its tokens.
pub Step-accounts :
    (n : ℕ) {w : World} {c c' : SnailSwap} {received sent fees : ℕ → ℕ}
    (step : Step w c c' received sent fees)
    → AtCost n step
    → AllCovered n c.owner_id c.accounts
    → AllCovered n c.owner_id c'.accounts
unfolding AtCost
Step-accounts n (Step.adds_pool call c tokens decimals i t s e fees h) at =
    same_accounts c.owner_id (add_pool-accounts call c tokens decimals i t s e fees h)
Step-accounts n (Step.sets_fees c predecessor pool_id fees h) at =
    same_accounts c.owner_id (set_fees-accounts c predecessor pool_id fees h)
Step-accounts n (Step.sets_amp now c predecessor pool_id i t s h) at =
    same_accounts c.owner_id (set_amp-accounts now c predecessor pool_id i t s h)
Step-accounts n (Step.sets_state one_yocto c predecessor state h) at =
    same_accounts c.owner_id (set_state-accounts one_yocto c predecessor state h)
Step-accounts n (Step.adds call c pool_id amounts least h) at =
    at_cost c.owner_id at (add-AllCovered call c pool_id amounts least h)
Step-accounts n (Step.removes one_yocto call c pool_id shares min_amounts h) at =
    at_cost c.owner_id at (remove-AllCovered one_yocto call c pool_id shares min_amounts h)
Step-accounts n (Step.takes one_yocto call c pool_id amounts most h) at =
    at_cost c.owner_id at (take-AllCovered one_yocto call c pool_id amounts most h)
Step-accounts n (Step.takes_one one_yocto call c pool_id token_out shares least h) at =
    at_cost c.owner_id at (take_one-AllCovered one_yocto call c pool_id token_out shares least h)
Step-accounts n (Step.swaps now byte_cost c sender pool_id i a o least h) at =
    at_cost c.owner_id at (swap-AllCovered now byte_cost c sender pool_id i a o least h)
Step-accounts n {w} (Step.receives now byte_cost c token sender amount msg h) at =
    at_cost c.owner_id at
      (ft_on_transfer-AllCovered w.message_of now byte_cost c token sender amount msg h)
Step-accounts n (Step.withdraws one_yocto byte_cost c sender token amount u h) at =
    at_cost c.owner_id at (
      Step-AllCovered byte_cost c.owner_id
        (Storage.Step.withdraws c.accounts one_yocto c.state sender token amount u h))
Step-accounts n (Step.resolves byte_cost results result c token sender amount h) at =
    at_cost c.owner_id at (callback-AllCovered byte_cost results result c token sender amount h)
Step-accounts n (Step.registers one_yocto byte_cost c sender tokens h) at = at_cost c.owner_id at (
    Step-AllCovered byte_cost c.owner_id
      (Storage.Step.registers c.accounts one_yocto c.state sender tokens h))
Step-accounts n (Step.unregisters one_yocto byte_cost c sender tokens h) at =
    at_cost c.owner_id at (
      Step-AllCovered byte_cost c.owner_id
        (Storage.Step.unregisters c.accounts one_yocto c.state sender tokens h))
Step-accounts n {w} (Step.registers_shares call c token_id account h) at =
    same_accounts c.owner_id (register_shares-accounts w.account_id_of call c token_id account h)
Step-accounts n {w} (Step.transfers one_yocto byte_cost c token_id sender receiver amount h) at =
    at_cost c.owner_id at (
      mft_transfer-AllCovered w.account_id_of byte_cost c token_id one_yocto sender receiver amount
        h)
Step-accounts n {w}
      (Step.transfers_and_calls one_yocto gas byte_cost c token_id sender receiver amount h) at =
    at_cost c.owner_id at (
      mft_transfer_call-AllCovered w.account_id_of byte_cost c token_id one_yocto gas sender
        receiver amount h)
Step-accounts n {w} (Step.resolves_transfer byte_cost c token_id sender receiver amount result h)
      at =
    at_cost c.owner_id at (
      mft_resolve_transfer-AllCovered w.account_id_of byte_cost c token_id w.number_of sender
        receiver amount result h)
Step-accounts n (Step.pays_storage call c named only h) at =
    at_cost c.owner_id at (storage_deposit-AllCovered call c named only h)
Step-accounts n (Step.takes_storage one_yocto call c amount h) at =
    at_cost c.owner_id at (storage_withdraw-AllCovered one_yocto call c amount h)
Step-accounts n (Step.leaves one_yocto c predecessor h) at =
    unregister-AllCovered n one_yocto c predecessor h
