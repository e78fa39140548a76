-- ===== src/Exchange/Contract/Claims/Accounts.antt =====
-- What the methods over the accounts do to the deposits of all accounts together.
use snails_contracts.Common.{
  ℕ, ◌+◌, ◌≡◌, refl, sym, ap, ◌∙◌, List, [], ◌∷◌, Option, inl, inr, Bool, false, Bool-cases, ok,
  arith, if◌then◌else◌, ◌==◌, ltb, leb, Result, >>=-elim, ok-injective, guard, guard-eq-ok, expect,
  expect_some-ok, Fault, checked_add, checked_sub, u128,
}
use snails_contracts.Common.Table.{
  Table, lookup, insert, contains_key, not_contained, lookup-insert, lookup-remove,
}
use snails_contracts.Exchange.Account.{
  Account, RunningState, or_zero, is_set, assert_contract_running, deposit, withdraw, register,
  unregister, unregister_all, storage_available, internal_unwrap_account,
  internal_unwrap_or_default_account, internal_save_account, internal_deposit,
  internal_register_account, internal_storage_withdraw, internal_get_deposit, internal_lostfound,
  register_tokens, unregister_tokens, withdraw_tokens,
}
use snails_contracts.Exchange.Account.Storage.{save-AllCovered}
use snails_contracts.Exchange.Contract.Swaps.{default-balance, balance, get_deposit-some}
use snails_contracts.Exchange.Contract.Liquidity.Deposits.{deposit-balance, withdraw-balance}
use snails_contracts.Exchange.Contract.Claims.{deposits_of, deposits_of-insert, only}

pub saved-deposits_of :
    (byte_cost : ℕ) (t : Table Account) (account : ℕ) (a : Account) (k : ℕ) {t' : Table Account}
    → internal_save_account byte_cost t account a ≡ ok t'
    → deposits_of t' k + internal_get_deposit t account k ≡ deposits_of t k + balance a k
saved-deposits_of byte_cost t account a k h =
    let saved = (save-AllCovered byte_cost 0 t account a h).2 in
    omega (arith, ap (λ t. deposits_of t k) saved, deposits_of-insert account k a t)

pub unwrapped-balance :
    (t : Table Account) (account k : ℕ) {a : Account}
    → internal_unwrap_account t account ≡ ok a
    → balance a k ≡ internal_get_deposit t account k
unfolding internal_unwrap_account
unwrapped-balance t account k {a} h = sym (get_deposit-some t account k a (expect_some-ok _ _ h))

pub internal_deposit-deposits_of :
    (byte_cost : ℕ) (t : Table Account) (sender token amount k : ℕ) {t' : Table Account}
    → internal_deposit byte_cost t sender token amount ≡ ok t'
    → deposits_of t' k ≡ deposits_of t k + only token amount k
unfolding internal_deposit
internal_deposit-deposits_of byte_cost t sender token amount k h =
    >>=-elim (internal_unwrap_account t sender) _ h λ a h₁ r₁.
      >>=-elim (deposit a token amount) _ r₁ λ a' h₂ r₂. omega (
        arith,
        saved-deposits_of byte_cost t sender a' k r₂,
        unwrapped-balance t sender k h₁,
        deposit-balance a token amount k h₂,
      )

pub internal_lostfound-deposits_of :
    (t : Table Account) (owner token amount k : ℕ) {t' : Table Account}
    → internal_lostfound t owner token amount ≡ ok t'
    → deposits_of t' k ≡ deposits_of t k + only token amount k
unfolding internal_lostfound
internal_lostfound-deposits_of t owner token amount k h =
    let old = internal_unwrap_or_default_account t owner in
    >>=-elim (deposit old token amount) _ h λ a h₁ r₁. rw (← ok-injective r₁) (
      omega (
        arith,
        deposits_of-insert owner k a t,
        default-balance t owner k,
        deposit-balance old token amount k h₁,
      ))

pub internal_register_account-deposits_of :
    (byte_cost : ℕ) (t : Table Account) (account amount k : ℕ) {t' : Table Account}
    → internal_register_account byte_cost t account amount ≡ ok t'
    → deposits_of t' k ≡ deposits_of t k
unfolding internal_register_account
internal_register_account-deposits_of byte_cost t account amount k h =
    let old = internal_unwrap_or_default_account t account in
    >>=-elim (expect Fault.unwrap_none (checked_add u128 old.near_amount amount)) _ h λ n h₁ r₁.
      omega (
        arith,
        saved-deposits_of byte_cost t account (record old { near_amount = n }) k r₁,
        default-balance t account k,
      )

pub internal_storage_withdraw-deposits_of :
    (byte_cost : ℕ) (t : Table Account) (account amount k : ℕ) {r : Table Account × ℕ}
    → internal_storage_withdraw byte_cost t account amount ≡ ok r
    → deposits_of r.0 k ≡ deposits_of t k
unfolding internal_storage_withdraw
internal_storage_withdraw-deposits_of byte_cost t account amount k h =
    let paid : ℕ → ℕ = λ available. if amount == 0 then available else amount in
    >>=-elim (internal_unwrap_account t account) _ h λ a h₁ r₁.
      >>=-elim (storage_available byte_cost a) _ r₁ λ available h₂ r₂.
        >>=-elim (guard (ltb 0 available) Fault.storage_shortage) _ r₂ λ _ h₃ r₃.
          >>=-elim (guard (leb (paid available) available) Fault.storage_shortage) _ r₃ λ _ h₄ r₄.
            >>=-elim (expect Fault.unwrap_none (checked_sub a.near_amount (paid available))) _ r₄
              λ n h₅ r₅.
                let a' = record a { near_amount = n } in
                >>=-elim (internal_save_account byte_cost t account a') _ r₅ λ t' h₆ r₆.
                  rw (← ap (λ (r : Table Account × ℕ). r.0) (ok-injective r₆)) (
                    omega (
                      arith,
                      saved-deposits_of byte_cost t account a' k h₆,
                      unwrapped-balance t account k h₁,
                    ))

registered-balance :
    (a : Account) (token k : ℕ)
    → contains_key token a.tokens ≡ false
    → or_zero (lookup k (insert token 0 a.tokens)) ≡ balance a k
registered-balance a token k new =
    rw (lookup-insert token k 0 a.tokens) (elim (Bool-cases (k == token)) [
      | inl same ↦
          let q : token ≡ k = ground (arith, same) in
          let unknown = sym (ap (λ j. lookup j a.tokens) q) ∙ not_contained token a.tokens new in
          rw (same, unknown) refl
      | inr other ↦ rw other refl
    ])

pub register-balance :
    (a : Account) (tokens : List ℕ) (k : ℕ) → balance (register a tokens) k ≡ balance a k
unfolding register
register-balance a [] k = refl
register-balance a (t ∷ tokens) k =
    let new = record a { tokens = insert t 0 a.tokens } in
    let added : Bool → Account = λ known. if known then a else new in
    register-balance (added (contains_key t a.tokens)) tokens k
    ∙ elim (Bool-cases (contains_key t a.tokens)) [
      | inl known ↦ ap (λ b. balance (added b) k) known
      | inr unknown ↦ ap (λ b. balance (added b) k) unknown ∙ registered-balance a t k unknown
    ]

pub unregister-balance :
    (a : Account) (token k : ℕ) {a' : Account}
    → unregister a token ≡ ok a'
    → balance a' k ≡ balance a k
unfolding unregister
unregister-balance a token k h =
    >>=-elim (guard (or_zero (lookup token a.tokens) == 0) Fault.non_zero_token_balance) _ h
      λ _ h₁ r₁.
        let zero = guard-eq-ok (or_zero (lookup token a.tokens) == 0) _ h₁ in
        rw (← ok-injective r₁) (
          rw (lookup-remove token k a.tokens) (elim (Bool-cases (k == token)) [
            | inl same ↦
                let q : token ≡ k = ground (arith, same) in
                rw same (ground (arith, zero, ap (balance a) q))
            | inr other ↦ rw other refl
          ]))

pub unregister_all-balance :
    (a : Account) (tokens : List ℕ) (k : ℕ) {a' : Account}
    → unregister_all a tokens ≡ ok a'
    → balance a' k ≡ balance a k
unfolding unregister_all
unregister_all-balance a [] k h = rw (← ok-injective h) refl
unregister_all-balance a (t ∷ tokens) k h =
    >>=-elim (unregister a t) _ h
      λ a₁ h₁ r₁. unregister_all-balance a₁ tokens k r₁ ∙ unregister-balance a t k h₁

module _ (one_yocto : Result (Unit {0})) (state : RunningState) (byte_cost : ℕ) (t : Table Account)
    (sender k : ℕ) where
  pub register_tokens-deposits_of :
      (tokens : List ℕ) {t' : Table Account}
      → register_tokens one_yocto state byte_cost t sender tokens ≡ ok t'
      → deposits_of t' k ≡ deposits_of t k
  unfolding register_tokens
  register_tokens-deposits_of tokens h = >>=-elim one_yocto _ h λ _ h₁ r₁.
      >>=-elim (assert_contract_running state) _ r₁ λ _ h₂ r₂.
        >>=-elim (internal_unwrap_account t sender) _ r₂ λ a h₃ r₃. omega (
          arith,
          saved-deposits_of byte_cost t sender (register a tokens) k r₃,
          register-balance a tokens k,
          unwrapped-balance t sender k h₃,
        )

  pub unregister_tokens-deposits_of :
      (tokens : List ℕ) {t' : Table Account}
      → unregister_tokens one_yocto state byte_cost t sender tokens ≡ ok t'
      → deposits_of t' k ≡ deposits_of t k
  unfolding unregister_tokens
  unregister_tokens-deposits_of tokens h = >>=-elim one_yocto _ h λ _ h₁ r₁.
      >>=-elim (assert_contract_running state) _ r₁ λ _ h₂ r₂.
        >>=-elim (internal_unwrap_account t sender) _ r₂ λ a h₃ r₃.
          >>=-elim (unregister_all a tokens) _ r₃ λ a' h₄ r₄. omega (
            arith,
            saved-deposits_of byte_cost t sender a' k r₄,
            unregister_all-balance a tokens k h₄,
            unwrapped-balance t sender k h₃,
          )

  pub withdraw_tokens-deposits_of :
      (token amount : ℕ) (unregister_token : Option Bool) {t' : Table Account}
      → withdraw_tokens one_yocto state byte_cost t sender token amount unregister_token ≡ ok t'
      → deposits_of t' k + only token amount k ≡ deposits_of t k
  unfolding withdraw_tokens
  withdraw_tokens-deposits_of token amount unregister_token h = >>=-elim one_yocto _ h λ _ h₁ r₁.
      >>=-elim (assert_contract_running state) _ r₁ λ _ h₂ r₂.
        >>=-elim (guard (ltb 0 amount) Fault.illegal_withdraw_amount) _ r₂ λ _ h₃ r₃.
          >>=-elim (internal_unwrap_account t sender) _ r₃ λ a h₄ r₄.
            >>=-elim (withdraw a token amount) _ r₄ λ a' h₅ r₅.
              >>=-elim (if is_set unregister_token then unregister a' token else ok a') _ r₅
                λ a'' h₆ r₆.
                  let kept : balance a'' k ≡ balance a' k =
                    elim (Bool-cases (is_set unregister_token)) [
                      | inl gone ↦ unregister-balance a' token k (rw gone at h₆)
                      | inr stays ↦ rw (← ok-injective (rw stays at h₆)) refl
                    ] in
                  omega (
                    arith,
                    saved-deposits_of byte_cost t sender a'' k r₆,
                    kept,
                    withdraw-balance a token amount k h₅,
                    unwrapped-balance t sender k h₄,
                  )
