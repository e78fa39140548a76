-- ===== src/Exchange/Contract/Claims/Storage.antt =====
-- What the storage management and incoming transfers do to the claims.
use snails_contracts.Common.{
  ℕ, ◌≤◌, ◌≡◌, refl, ap, List, [], ◌∷◌, Option, none, some, inl, inr, Bool, true, false, not, ◌&&◌,
  Bool-cases, ok, arith, ◌==◌, ltb, Result, >>=-elim, ok-injective, guard, expect, expect_some,
  expect_some-ok, Fault, checked_sub,
}
use snails_contracts.Common.Table.{Table, lookup, remove, contains_key}
use snails_contracts.Exchange.Account.{
  Account, is_set, assert_contract_running, min_storage_usage, internal_deposit,
  internal_register_account, internal_storage_withdraw,
}
use snails_contracts.Exchange.Contract.{SnailSwap, Call, swap_core}
use snails_contracts.Exchange.Contract.Storage.{
  StorageBalance, storage_balance_of, account_or, amount_or_zero, register_for, storage_deposit,
  storage_withdraw, is_empty, remove_account, storage_unregister,
}
use snails_contracts.Exchange.Contract.Transfers.{
  TokenReceiverMessage, Sent, direct_swap, receive, ft_on_transfer,
}
use snails_contracts.Exchange.Contract.Claims.{deposits_of, PoolsSized, Books, only, nothing}
use snails_contracts.Exchange.Contract.Claims.Accounts.{
  internal_deposit-deposits_of, internal_register_account-deposits_of,
  internal_storage_withdraw-deposits_of,
}
use snails_contracts.Exchange.Contract.Claims.Callbacks.{accounts-Books}
use snails_contracts.Exchange.Contract.Claims.Swaps.{swap_fee, swap_core-claims}

register_for-deposits_of :
    (byte_cost : ℕ) (t : Table Account) (account amount least : ℕ) (only_register known : Bool)
    (k : ℕ) {r : Table Account × ℕ}
    → register_for byte_cost t account amount least only_register known ≡ ok r
    → deposits_of r.0 k ≡ deposits_of t k
unfolding register_for
register_for-deposits_of byte_cost t account amount least true true k h =
    rw (← ap (λ (r : Table Account × ℕ). r.0) (ok-injective h)) refl
register_for-deposits_of byte_cost t account amount least true false k h =
    >>=-elim (internal_register_account byte_cost t account least) _ h λ t' h₁ r₁.
      >>=-elim (expect Fault.unwrap_none (checked_sub amount least)) _ r₁ λ n h₂ r₂.
        rw (← ap (λ (r : Table Account × ℕ). r.0) (ok-injective r₂))
          (internal_register_account-deposits_of byte_cost t account least k h₁)
register_for-deposits_of byte_cost t account amount least false known k h =
    >>=-elim (internal_register_account byte_cost t account amount) _ h λ t' h₁ r₁.
      rw (← ap (λ (r : Table Account × ℕ). r.0) (ok-injective r₁))
        (internal_register_account-deposits_of byte_cost t account amount k h₁)

pub storage_deposit-Books :
    (call : Call) (c : SnailSwap) (named : Option ℕ) (registration_only : Option Bool)
    {r : SnailSwap × StorageBalance × ℕ}
    → storage_deposit call c named registration_only ≡ ok r
    → PoolsSized c.pools
    → Books c r.0 nothing nothing nothing
unfolding storage_deposit
storage_deposit-Books call c named registration_only h all =
    let account = account_or named call.predecessor in
    let known = contains_key account c.accounts in
    >>=-elim (assert_contract_running c.state) _ h λ _ h₁ r₁.
      >>=-elim (min_storage_usage call.byte_cost) _ r₁ λ least h₂ r₂.
        >>=-elim
          (guard (not (ltb call.attached_deposit least && not known))
            Fault.deposit_less_than_min_storage)
          _ r₂
          λ _ h₃ r₃.
            >>=-elim
              (register_for call.byte_cost c.accounts account call.attached_deposit least
                (is_set registration_only) known)
              _ r₃
              λ d h₄ r₄.
                >>=-elim (storage_balance_of call.byte_cost d.0 account) _ r₄ λ found h₅ r₅.
                  >>=-elim (expect_some Fault.unwrap_none found) _ r₅ λ b h₆ r₆.
                    rw (← ap (λ (r : SnailSwap × StorageBalance × ℕ). r.0) (ok-injective r₆)) (
                      accounts-Books c d.0 nothing nothing all λ k.
                        let e =
                          register_for-deposits_of call.byte_cost c.accounts account
                            call.attached_deposit least (is_set registration_only) known k h₄ in
                        omega (arith, e))

pub storage_withdraw-Books :
    (one_yocto : Result (Unit {0})) (call : Call) (c : SnailSwap) (amount : Option ℕ)
    {r : SnailSwap × StorageBalance × ℕ}
    → storage_withdraw one_yocto call c amount ≡ ok r
    → PoolsSized c.pools
    → Books c r.0 nothing nothing nothing
unfolding storage_withdraw
storage_withdraw-Books one_yocto call c amount h all = >>=-elim one_yocto _ h λ _ h₁ r₁.
    >>=-elim (assert_contract_running c.state) _ r₁ λ _ h₂ r₂.
      >>=-elim
        (internal_storage_withdraw call.byte_cost c.accounts call.predecessor
          (amount_or_zero amount))
        _ r₂
        λ d h₃ r₃.
          >>=-elim (storage_balance_of call.byte_cost d.0 call.predecessor) _ r₃ λ found h₄ r₄.
            >>=-elim (expect_some Fault.unwrap_none found) _ r₄ λ b h₅ r₅.
              rw (← ap (λ (r : SnailSwap × StorageBalance × ℕ). r.0) (ok-injective r₅)) (
                accounts-Books c d.0 nothing nothing all λ k.
                  let e =
                    internal_storage_withdraw-deposits_of call.byte_cost c.accounts call.predecessor
                      (amount_or_zero amount) k h₃ in
                  omega (arith, e))

removed-deposits_of :
    (account : ℕ) (t : Table Account) (k : ℕ) → deposits_of (remove account t) k ≤ deposits_of t k
unfolding deposits_of remove
removed-deposits_of account [] k = omega arith
removed-deposits_of account ((j, a) ∷ t) k = elim (Bool-cases (account == j)) [
  | inl same ↦ rw same (omega (arith, removed-deposits_of account t k))
  | inr other ↦ rw other (omega (arith, removed-deposits_of account t k))
]

remove_account-deposits_of :
    (t : Table Account) (account : ℕ) (o : Option Account) (k : ℕ) {r : Table Account × Bool × ℕ}
    → remove_account t account o ≡ ok r
    → deposits_of r.0 k ≤ deposits_of t k
unfolding remove_account
remove_account-deposits_of t account none k h =
    rw (← ap (λ (r : Table Account × Bool × ℕ). r.0) (ok-injective h)) (omega arith)
remove_account-deposits_of t account (some a) k h =
    >>=-elim (guard (is_empty a.tokens) Fault.tokens_not_empty) _ h λ _ h₁ r₁.
      rw (← ap (λ (r : Table Account × Bool × ℕ). r.0) (ok-injective r₁))
        (removed-deposits_of account t k)

pub storage_unregister-Books :
    (one_yocto : Result (Unit {0})) (c : SnailSwap) (predecessor : ℕ) {r : SnailSwap × Bool × ℕ}
    → storage_unregister one_yocto c predecessor ≡ ok r
    → PoolsSized c.pools
    → Books c r.0 nothing nothing nothing
unfolding storage_unregister
storage_unregister-Books one_yocto c predecessor h all =
    let o = lookup predecessor c.accounts in
    >>=-elim one_yocto _ h λ _ h₁ r₁. >>=-elim (assert_contract_running c.state) _ r₁ λ _ h₂ r₂.
      >>=-elim (remove_account c.accounts predecessor o) _ r₂ λ d h₃ r₃.
        rw (← ap (λ (r : SnailSwap × Bool × ℕ). r.0) (ok-injective r₃)) (
          accounts-Books c d.0 nothing nothing all λ k.
            let le = remove_account-deposits_of c.accounts predecessor o k h₃ in omega (arith, le))

-- What a promise sends of a token.
unfoldable pub sent_of : Option Sent → ℕ → ℕ
sent_of none k = 0
sent_of (some s) k = only s.token_id s.amount k

-- The owner's fee of the swap that a message asks for.
unfoldable pub message_fee : Option TokenReceiverMessage → ℕ → SnailSwap → ℕ → ℕ → ℕ → ℕ
message_fee none now c token_in amount k = 0
message_fee (some m) now c token_in amount k =
    only m.token_out (swap_fee now c m.pool_id token_in amount m.token_out m.min_amount_out) k

-- A transfer without a message is a deposit.
unfoldable pub receive_fee :
    (List ℕ → Option TokenReceiverMessage) → ℕ → SnailSwap → ℕ → ℕ → List ℕ → ℕ → ℕ
receive_fee message_of now c token_in amount [] k = 0
receive_fee message_of now c token_in amount (b ∷ msg) k =
    message_fee (message_of (b ∷ msg)) now c token_in amount k

receive-Books :
    (message_of : List ℕ → Option TokenReceiverMessage) (now byte_cost : ℕ) (c : SnailSwap)
    (token_in sender amount : ℕ) (msg : List ℕ) {r : SnailSwap × Option Sent}
    → receive message_of now byte_cost c token_in sender amount msg ≡ ok r
    → PoolsSized c.pools
    → Books c r.0
        (only token_in amount)
        (sent_of r.1)
        (receive_fee message_of now c token_in amount msg)
unfolding receive direct_swap sent_of receive_fee message_fee
receive-Books message_of now byte_cost c token_in sender amount [] h all =
    >>=-elim (internal_deposit byte_cost c.accounts sender token_in amount) _ h λ t h₁ r₁.
      let inner = accounts-Books c t (only token_in amount) nothing all λ k.
        let e = internal_deposit-deposits_of byte_cost c.accounts sender token_in amount k h₁ in
        omega (arith, e) in
      rw (← ok-injective r₁) (record { sized = all; backed = λ k. omega (arith, inner.backed k) })
receive-Books message_of now byte_cost c token_in sender amount (b ∷ msg) h all =
    >>=-elim (expect_some Fault.wrong_msg_format (message_of (b ∷ msg))) _ h λ m h₁ r₁.
      >>=-elim (swap_core now byte_cost c m.pool_id token_in amount m.token_out m.min_amount_out) _
        r₁
        λ core h₂ r₂.
          let books =
            swap_core-claims now byte_cost c m.pool_id token_in amount m.token_out m.min_amount_out
              h₂ all in
          let known = expect_some-ok _ _ h₁ in
          rw (← ok-injective r₂) (record {
            sized = books.sized;
            backed = λ k.
                let e = ap (λ o. message_fee o now c token_in amount k) known in
                omega (arith, books.backed k, e);
          })

pub ft_on_transfer-Books :
    (message_of : List ℕ → Option TokenReceiverMessage) (now byte_cost : ℕ) (c : SnailSwap)
    (predecessor sender amount : ℕ) (msg : List ℕ) {r : SnailSwap × Option Sent}
    → ft_on_transfer message_of now byte_cost c predecessor sender amount msg ≡ ok r
    → PoolsSized c.pools
    → Books c r.0
        (only predecessor amount)
        (sent_of r.1)
        (receive_fee message_of now c predecessor amount msg)
unfolding ft_on_transfer
ft_on_transfer-Books message_of now byte_cost c predecessor sender amount msg h all =
    >>=-elim (assert_contract_running c.state) _ h
      λ _ h₁ r₁. receive-Books message_of now byte_cost c predecessor sender amount msg r₁ all
