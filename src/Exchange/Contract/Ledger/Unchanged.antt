-- ===== src/Exchange/Contract/Ledger/Unchanged.antt =====
-- The calls that leave the ledger as it is: registrations and storage.
use snails_contracts.Common.{
  ℕ, ◌≡◌, ◌&&◌, refl, sym, ap, ◌∙◌, List, [], ◌∷◌, Option, none, some, inl, inr, Bool, true, false,
  not, Bool-cases, ok, arith, if◌then◌else◌, ◌==◌, ltb, leb, Result, >>=-elim, ok-injective, guard,
  guard-eq-ok, expect, expect_some, Fault, checked_add, checked_sub, get_elem?, u128,
}
use snails_contracts.Common.Table.{Table, lookup, remove, contains_key, lookup-remove}
use snails_contracts.Exchange.Pool.State.{share_register}
use snails_contracts.Exchange.Account.{
  Account, or_zero, balance_in, is_set, assert_contract_running, register, unregister_all,
  min_storage_usage, storage_available, internal_unwrap_account, internal_unwrap_or_default_account,
  internal_save_account, internal_register_account, internal_storage_withdraw, internal_get_deposit,
  register_tokens, unregister_tokens,
}
use snails_contracts.Exchange.Contract.{
  SnailSwap, Call, get_pool, replace_pool, internal_check_storage,
}
use snails_contracts.Exchange.Contract.Swaps.{default-balance, balance}
use snails_contracts.Exchange.Contract.TokenIds.{TokenOrPool, parse_token_id}
use snails_contracts.Exchange.Contract.Tokens.{register_parsed, mft_register}
use snails_contracts.Exchange.Contract.Storage.{
  StorageBalance, storage_balance_of, account_or, amount_or_zero, register_for, storage_deposit,
  storage_withdraw, is_empty, remove_account, storage_unregister,
}
use snails_contracts.Exchange.Contract.Claims.Pools.{get_pool-ok}
use snails_contracts.Exchange.Contract.Claims.Accounts.{
  unwrapped-balance, register-balance, unregister_all-balance,
}
use snails_contracts.Exchange.Contract.Ledger.{shares_in, view}
use snails_contracts.Exchange.Contract.Ledger.Views.{
  book_ext, saved-same, same-view, share_register_lem, set-shares_in, shares_in-some,
}

-- An account that is read for writing, with any amount of NEAR and any use of storage.
register_account-view :
    (byte_cost : ℕ) (t : Table Account) (account amount : ℕ) {t' : Table Account}
    → internal_register_account byte_cost t account amount ≡ ok t'
    → (token k : ℕ) → internal_get_deposit t' k token ≡ internal_get_deposit t k token
unfolding internal_register_account
register_account-view byte_cost t account amount h =
    let old = internal_unwrap_or_default_account t account in
    >>=-elim (expect Fault.unwrap_none (checked_add u128 old.near_amount amount)) _ h λ n h₁ r₁.
      saved-same byte_cost t account (record old { near_amount = n }) r₁
        λ token. default-balance t account token

register_for-view :
    (byte_cost : ℕ) (t : Table Account) (account amount least : ℕ) (only_register known : Bool)
    {r : Table Account × ℕ}
    → register_for byte_cost t account amount least only_register known ≡ ok r
    → (token k : ℕ) → internal_get_deposit r.0 k token ≡ internal_get_deposit t k token
unfolding register_for
register_for-view byte_cost t account amount least true true h token k =
    rw (← ap (λ (r : Table Account × ℕ). r.0) (ok-injective h)) refl
register_for-view byte_cost t account amount least true false h token k =
    >>=-elim (internal_register_account byte_cost t account least) _ h λ t' h₁ r₁.
      >>=-elim (expect Fault.unwrap_none (checked_sub amount least)) _ r₁ λ n h₂ r₂.
        rw (← ap (λ (r : Table Account × ℕ). r.0) (ok-injective r₂))
          (register_account-view byte_cost t account least h₁ token k)
register_for-view byte_cost t account amount least false known h token k =
    >>=-elim (internal_register_account byte_cost t account amount) _ h λ t' h₁ r₁.
      rw (← ap (λ (r : Table Account × ℕ). r.0) (ok-injective r₁))
        (register_account-view byte_cost t account amount h₁ token k)

pub storage_deposit-view :
    (call : Call) (c : SnailSwap) (named : Option ℕ) (registration_only : Option Bool)
    {r : SnailSwap × StorageBalance × ℕ}
    → storage_deposit call c named registration_only ≡ ok r
    → view r.0 ≡ view c
unfolding storage_deposit
storage_deposit-view call c named registration_only h =
    let account = account_or named call.predecessor in
    let known = contains_key account c.accounts in
    >>=-elim (assert_contract_running c.state) _ h λ _ h₁ r₁.
      >>=-elim (min_storage_usage call.byte_cost) _ r₁ λ least h₂ r₂.
        >>=-elim
          (guard (not (ltb call.attached_deposit least && not known))
            Fault.deposit_less_than_min_storage)
          _ r₂
          λ _ h₃ r₃.
            >>=-elim
              (register_for call.byte_cost c.accounts account call.attached_deposit least
                (is_set registration_only) known)
              _ r₃
              λ d h₄ r₄.
                >>=-elim (storage_balance_of call.byte_cost d.0 account) _ r₄ λ found h₅ r₅.
                  >>=-elim (expect_some Fault.unwrap_none found) _ r₅ λ b h₆ r₆.
                    rw (← ap (λ (r : SnailSwap × StorageBalance × ℕ). r.0) (ok-injective r₆)) (
                      same-view c d.0 (
                        register_for-view call.byte_cost c.accounts account call.attached_deposit
                          least (is_set registration_only) known h₄))

storage_withdrawn-view :
    (byte_cost : ℕ) (t : Table Account) (account amount : ℕ) {r : Table Account × ℕ}
    → internal_storage_withdraw byte_cost t account amount ≡ ok r
    → (token k : ℕ) → internal_get_deposit r.0 k token ≡ internal_get_deposit t k token
unfolding internal_storage_withdraw
storage_withdrawn-view byte_cost t account amount h token k =
    let paid : ℕ → ℕ = λ available. if amount == 0 then available else amount in
    >>=-elim (internal_unwrap_account t account) _ h λ a h₁ r₁.
      >>=-elim (storage_available byte_cost a) _ r₁ λ available h₂ r₂.
        >>=-elim (guard (ltb 0 available) Fault.storage_shortage) _ r₂ λ _ h₃ r₃.
          >>=-elim (guard (leb (paid available) available) Fault.storage_shortage) _ r₃ λ _ h₄ r₄.
            >>=-elim (expect Fault.unwrap_none (checked_sub a.near_amount (paid available))) _ r₄
              λ n h₅ r₅.
                let a' = record a { near_amount = n } in
                >>=-elim (internal_save_account byte_cost t account a') _ r₅ λ t' h₆ r₆.
                  rw (← ap (λ (r : Table Account × ℕ). r.0) (ok-injective r₆)) (
                    saved-same byte_cost t account a' h₆
                      (λ token. unwrapped-balance t account token h₁) token k)

pub storage_withdraw-view :
    (one_yocto : Result (Unit {0})) (call : Call) (c : SnailSwap) (amount : Option ℕ)
    {r : SnailSwap × StorageBalance × ℕ}
    → storage_withdraw one_yocto call c amount ≡ ok r
    → view r.0 ≡ view c
unfolding storage_withdraw
storage_withdraw-view one_yocto call c amount h = >>=-elim one_yocto _ h λ _ h₁ r₁.
    >>=-elim (assert_contract_running c.state) _ r₁ λ _ h₂ r₂.
      >>=-elim
        (internal_storage_withdraw call.byte_cost c.accounts call.predecessor
          (amount_or_zero amount))
        _ r₂
        λ d h₃ r₃.
          >>=-elim (storage_balance_of call.byte_cost d.0 call.predecessor) _ r₃ λ found h₄ r₄.
            >>=-elim (expect_some Fault.unwrap_none found) _ r₄ λ b h₅ r₅.
              rw (← ap (λ (r : SnailSwap × StorageBalance × ℕ). r.0) (ok-injective r₅)) (
                same-view c d.0 (
                  storage_withdrawn-view call.byte_cost c.accounts call.predecessor
                    (amount_or_zero amount) h₃))

no_tokens : (a : Account) (token : ℕ) → is_empty a.tokens ≡ true → balance a token ≡ 0
unfolding lookup
no_tokens a token h = by_table a.tokens h
  where
    by_table : (m : Table ℕ) → is_empty m ≡ true → or_zero (lookup token m) ≡ 0
    by_table [] e = refl
    by_table (x ∷ m) e = absurd (cc)

-- An account without tokens shows nothing, and neither does a missing one.
removed-view :
    (t : Table Account) (account : ℕ) (a : Account)
    → lookup account t ≡ some a
    → is_empty a.tokens ≡ true
    → (token k : ℕ)
    → internal_get_deposit (remove account t) k token ≡ internal_get_deposit t k token
unfolding internal_get_deposit
removed-view t account a known none_left token k =
    ap (λ o. balance_in o token) (lookup-remove account k t) ∙ elim (Bool-cases (k == account)) [
      | inl same ↦
          let q : account ≡ k = ground (arith, same) in
          let at_k = sym (ap (λ j. lookup j t) q) ∙ known in
          rw (same, at_k) (sym (no_tokens a token none_left))
      | inr other ↦ rw other refl
    ]

remove_account-view :
    (t : Table Account) (account : ℕ) (o : Option Account) {r : Table Account × Bool × ℕ}
    → remove_account t account o ≡ ok r
    → lookup account t ≡ o
    → (token k : ℕ) → internal_get_deposit r.0 k token ≡ internal_get_deposit t k token
unfolding remove_account
remove_account-view t account none h known token k =
    rw (← ap (λ (r : Table Account × Bool × ℕ). r.0) (ok-injective h)) refl
remove_account-view t account (some a) h known token k =
    >>=-elim (guard (is_empty a.tokens) Fault.tokens_not_empty) _ h λ _ h₁ r₁.
      rw (← ap (λ (r : Table Account × Bool × ℕ). r.0) (ok-injective r₁))
        (removed-view t account a known (guard-eq-ok (is_empty a.tokens) _ h₁) token k)

pub storage_unregister-view :
    (one_yocto : Result (Unit {0})) (c : SnailSwap) (predecessor : ℕ) {r : SnailSwap × Bool × ℕ}
    → storage_unregister one_yocto c predecessor ≡ ok r
    → view r.0 ≡ view c
unfolding storage_unregister
storage_unregister-view one_yocto c predecessor h =
    let o = lookup predecessor c.accounts in
    >>=-elim one_yocto _ h λ _ h₁ r₁. >>=-elim (assert_contract_running c.state) _ r₁ λ _ h₂ r₂.
      >>=-elim (remove_account c.accounts predecessor o) _ r₂ λ d h₃ r₃.
        rw (← ap (λ (r : SnailSwap × Bool × ℕ). r.0) (ok-injective r₃))
          (same-view c d.0 (remove_account-view c.accounts predecessor o h₃ refl))

pub register_tokens-view :
    (one_yocto : Result (Unit {0})) (byte_cost : ℕ) (c : SnailSwap) (sender : ℕ) (tokens : List ℕ)
    {t : Table Account}
    → register_tokens one_yocto c.state byte_cost c.accounts sender tokens ≡ ok t
    → view (record c { accounts = t }) ≡ view c
unfolding register_tokens
register_tokens-view one_yocto byte_cost c sender tokens {t} h = >>=-elim one_yocto _ h λ _ h₁ r₁.
    >>=-elim (assert_contract_running c.state) _ r₁ λ _ h₂ r₂.
      >>=-elim (internal_unwrap_account c.accounts sender) _ r₂ λ a h₃ r₃. same-view c t (
        saved-same byte_cost c.accounts sender (register a tokens) r₃
          λ k. register-balance a tokens k ∙ unwrapped-balance c.accounts sender k h₃)

pub unregister_tokens-view :
    (one_yocto : Result (Unit {0})) (byte_cost : ℕ) (c : SnailSwap) (sender : ℕ) (tokens : List ℕ)
    {t : Table Account}
    → unregister_tokens one_yocto c.state byte_cost c.accounts sender tokens ≡ ok t
    → view (record c { accounts = t }) ≡ view c
unfolding unregister_tokens
unregister_tokens-view one_yocto byte_cost c sender tokens {t} h = >>=-elim one_yocto _ h λ _ h₁ r₁.
    >>=-elim (assert_contract_running c.state) _ r₁ λ _ h₂ r₂.
      >>=-elim (internal_unwrap_account c.accounts sender) _ r₂ λ a h₃ r₃.
        >>=-elim (unregister_all a tokens) _ r₃ λ a' h₄ r₄. same-view c t (
          saved-same byte_cost c.accounts sender a' r₄
            λ k. unregister_all-balance a tokens k h₄ ∙ unwrapped-balance c.accounts sender k h₃)

register_parsed-view :
    (call : Call) (c : SnailSwap) (parsed : TokenOrPool) (account : ℕ) {r : SnailSwap × ℕ}
    → register_parsed call c parsed account ≡ ok r
    → view r.0 ≡ view c
unfolding register_parsed view replace_pool
register_parsed-view call c (TokenOrPool.token token) account h = absurd (cc)
register_parsed-view call c (TokenOrPool.pool i) account h = >>=-elim (get_pool c i) _ h λ p h₁ r₁.
    >>=-elim (share_register p account) _ r₁ λ p' h₂ r₂.
      >>=-elim (internal_check_storage call) _ r₂ λ refunded h₃ r₃.
        let known = get_pool-ok c i h₁ in
        rw (← ap (λ (r : SnailSwap × ℕ). r.0) (ok-injective r₃)) (
          book_ext (λ tok k. refl)
            (λ j k. set-shares_in c.pools i j k p p' known ∙ elim (Bool-cases (j == i)) [
              | inl same ↦
                  let q : i ≡ j = ground (arith, same) in
                  rw same (
                    share_register_lem p account k h₂
                    ∙ sym (shares_in-some c.pools i k p known)
                    ∙ ap (λ n. shares_in (get_elem? c.pools n) k) q)
              | inr other ↦ rw other refl
            ]))

pub mft_register-view :
    (account_id_of : List ℕ → Option ℕ) (call : Call) (c : SnailSwap) (token_id : List ℕ)
    (account : ℕ) {r : SnailSwap × ℕ}
    → mft_register account_id_of call c token_id account ≡ ok r
    → view r.0 ≡ view c
unfolding mft_register
mft_register-view account_id_of call c token_id account h =
    >>=-elim (assert_contract_running c.state) _ h λ _ h₁ r₁.
      >>=-elim (parse_token_id account_id_of token_id) _ r₁
        λ parsed h₂ r₂. register_parsed-view call c parsed account r₂
