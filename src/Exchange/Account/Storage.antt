-- ===== src/Exchange/Account/Storage.antt =====
-- Every account that is saved pays for its storage.
use snails_contracts.Common.{
  ℕ, ◌+◌, ◌-◌, ◌*◌, ◌<◌, ◌≤◌, ◌≡◌, ◌≢◌, refl, sym, ap, ◌∙◌, Option, some, inl, inr, Bool, true,
  Bool-cases, List, length, Result, ok, arith, if◌then◌else◌, ltb, leb, ◌==◌, >>=-elim,
  ok-injective, expect, guard, guard-eq-ok, expect-ok, checked_add, checked_add-ok, checked_sub,
  checked_mul, checked_mul-ok, Fault, u64, u128, le→leb, lt→ltb, checked_sub_fits,
}
use snails_contracts.Common.Table.{Table, lookup, insert, lookup-insert, lookup-insert_ne}
use snails_contracts.Exchange.Account.{
  Account, RunningState, init_account_storage, token_storage, storage_usage, storage_available,
  assert_storage_usage, deposit, register, unregister_all, withdraw, unregister, is_set,
  internal_unwrap_account, internal_save_account, internal_deposit, internal_register_account,
  internal_storage_withdraw, internal_unwrap_or_default_account, internal_lostfound,
  register_tokens, unregister_tokens, withdraw_tokens, assert_contract_running,
}

-- The storage of an account and of its tokens at the cost of a byte.
unfoldable pub storage_cost : ℕ → Account → ℕ
storage_cost byte_cost a = (init_account_storage + length a.tokens * token_storage) * byte_cost

-- An account that pays for its storage.
pub record IsCovered (byte_cost : ℕ) (a : Account) : Type 0 where
  pub covered : storage_cost byte_cost a ≤ a.near_amount

-- All accounts of a table do, but for one that may be excepted.
pub record AllCovered (byte_cost except : ℕ) (accounts : Table Account) : Type 0 where
  pub each : (k : ℕ) (a : Account) → k ≢ except → lookup k accounts ≡ some a → IsCovered byte_cost a

pub storage_usage-ok :
    (byte_cost : ℕ) (a : Account) {usage : ℕ}
    → storage_usage byte_cost a ≡ ok usage
    → usage ≡ storage_cost byte_cost a
unfolding storage_usage storage_cost
storage_usage-ok byte_cost a h =
    >>=-elim (expect Fault.overflow (checked_mul u64 (length a.tokens) token_storage)) _ h
      λ tokens h₁ r₁.
        >>=-elim (expect Fault.overflow (checked_add u64 init_account_storage tokens)) _ r₁
          λ bytes h₂ r₂.
            let e₁ = checked_mul-ok u64 (length a.tokens) token_storage (expect-ok _ _ h₁) in
            let e₂ = checked_add-ok u64 init_account_storage tokens (expect-ok _ _ h₂) in
            let e₃ = checked_mul-ok u128 bytes byte_cost (expect-ok _ _ r₂) in
            e₃.0 ∙ ap (λ (t : ℕ). t * byte_cost) (omega (arith, e₁, e₂))

pub some-injective : {a b : Account} → some a ≡ some b → a ≡ b
some-injective h = cc

pub save-AllCovered :
    (byte_cost except : ℕ) (accounts : Table Account) (account_id : ℕ) (a : Account)
    {accounts' : Table Account}
    → internal_save_account byte_cost accounts account_id a ≡ ok accounts'
    → (AllCovered byte_cost except accounts → AllCovered byte_cost except accounts')
      × IsCovered byte_cost a
      × (accounts' ≡ insert account_id a accounts)
unfolding internal_save_account assert_storage_usage
save-AllCovered byte_cost except accounts account_id a h =
    >>=-elim (assert_storage_usage byte_cost a) _ h λ _ h₁ r₁.
      >>=-elim (storage_usage byte_cost a) _ h₁ λ usage h₂ r₂.
        let own : IsCovered byte_cost a = record {
          covered = ground (
            arith,
            storage_usage-ok byte_cost a h₂,
            guard-eq-ok (leb usage a.near_amount) Fault.storage_shortage r₂,
          );
        } in
        rw (← ok-injective r₁) (
          λ all. record {
            each = λ k b ne known. elim (Bool-cases (k == account_id)) [
              | inl same ↦
                  rw (← some-injective (rw (lookup-insert account_id k a accounts, same) at known))
                    own
              | inr other ↦
                  all.each k b ne (rw (lookup-insert account_id k a accounts, other) at known)
            ];
          },
          own,
          refl,
        )

-- One of seven methods that change the accounts, of a contract whose owner and byte cost are given. The
-- tokens that nobody takes go to the owner, who need not pay for their storage.
pub data Step (byte_cost owner : ℕ) : Table Account → Table Account → Type 0 where
  deposits :
      (t : Table Account) (sender token amount : ℕ) {t' : Table Account}
      → internal_deposit byte_cost t sender token amount ≡ ok t'
      → Step byte_cost owner t t'
  pays :
      (t : Table Account) (account amount : ℕ) {t' : Table Account}
      → internal_register_account byte_cost t account amount ≡ ok t'
      → Step byte_cost owner t t'
  takes_back :
      (t : Table Account) (account amount : ℕ) {r : Table Account × ℕ}
      → internal_storage_withdraw byte_cost t account amount ≡ ok r
      → Step byte_cost owner t r.0
  registers :
      (t : Table Account) (one_yocto : Result (Unit {0})) (state : RunningState) (sender : ℕ)
      (tokens : List ℕ) {t' : Table Account}
      → register_tokens one_yocto state byte_cost t sender tokens ≡ ok t'
      → Step byte_cost owner t t'
  unregisters :
      (t : Table Account) (one_yocto : Result (Unit {0})) (state : RunningState) (sender : ℕ)
      (tokens : List ℕ) {t' : Table Account}
      → unregister_tokens one_yocto state byte_cost t sender tokens ≡ ok t'
      → Step byte_cost owner t t'
  withdraws :
      (t : Table Account) (one_yocto : Result (Unit {0})) (state : RunningState)
      (sender token amount : ℕ) (unregister_token : Option Bool) {t' : Table Account}
      → withdraw_tokens one_yocto state byte_cost t sender token amount unregister_token ≡ ok t'
      → Step byte_cost owner t t'
  finds :
      (t : Table Account) (token amount : ℕ) {t' : Table Account}
      → internal_lostfound t owner token amount ≡ ok t'
      → Step byte_cost owner t t'

pub lostfound-AllCovered :
    (byte_cost owner : ℕ) (t : Table Account) (token amount : ℕ) {t' : Table Account}
    → internal_lostfound t owner token amount ≡ ok t'
    → AllCovered byte_cost owner t
    → AllCovered byte_cost owner t'
unfolding internal_lostfound
lostfound-AllCovered byte_cost owner t token amount h all =
    >>=-elim (deposit (internal_unwrap_or_default_account t owner) token amount) _ h λ a h₁ r₁.
      rw (← ok-injective r₁) (record {
        each = λ k b ne known. all.each k b ne (sym (lookup-insert_ne owner k a t ne) ∙ known);
      })

-- Each of the seven keeps that all accounts but the owner's have paid for their storage.
pub Step-AllCovered :
    (byte_cost owner : ℕ) {t t' : Table Account}
    → Step byte_cost owner t t'
    → AllCovered byte_cost owner t
    → AllCovered byte_cost owner t'
unfolding internal_deposit internal_register_account internal_storage_withdraw register_tokens
    unregister_tokens withdraw_tokens
Step-AllCovered byte_cost owner (Step.deposits t sender token amount h) all =
    >>=-elim (internal_unwrap_account t sender) _ h λ a h₁ r₁.
      >>=-elim (deposit a token amount) _ r₁
        λ a' h₂ r₂. (save-AllCovered byte_cost owner t sender a' r₂).0 all
Step-AllCovered byte_cost owner (Step.pays t account amount h) all =
    let a = internal_unwrap_or_default_account t account in
    >>=-elim (expect Fault.unwrap_none (checked_add u128 a.near_amount amount)) _ h
      λ n h₁ r₁. (save-AllCovered byte_cost owner t account (record a { near_amount = n }) r₁).0 all
Step-AllCovered byte_cost owner (Step.takes_back t account amount h) all =
    let paid : ℕ → ℕ = λ available. if amount == 0 then available else amount in
    >>=-elim (internal_unwrap_account t account) _ h λ a h₁ r₁.
      >>=-elim (storage_available byte_cost a) _ r₁ λ available h₂ r₂.
        >>=-elim (guard (ltb 0 available) Fault.storage_shortage) _ r₂ λ _ h₃ r₃.
          >>=-elim (guard (leb (paid available) available) Fault.storage_shortage) _ r₃ λ _ h₄ r₄.
            >>=-elim (expect Fault.unwrap_none (checked_sub a.near_amount (paid available))) _ r₄
              λ n h₅ r₅.
                >>=-elim (internal_save_account byte_cost t account (record a { near_amount = n }))
                  _ r₅
                  λ t' h₆ r₆. rw (← ap (λ (r : Table Account × ℕ). r.0) (ok-injective r₆)) (
                    (save-AllCovered byte_cost owner t account (record a { near_amount = n }) h₆).0
                      all)
Step-AllCovered byte_cost owner (Step.registers t one_yocto state sender tokens h) all =
    >>=-elim one_yocto _ h λ _ h₁ r₁. >>=-elim (assert_contract_running state) _ r₁ λ _ h₂ r₂.
      >>=-elim (internal_unwrap_account t sender) _ r₂
        λ a h₃ r₃. (save-AllCovered byte_cost owner t sender (register a tokens) r₃).0 all
Step-AllCovered byte_cost owner (Step.unregisters t one_yocto state sender tokens h) all =
    >>=-elim one_yocto _ h λ _ h₁ r₁. >>=-elim (assert_contract_running state) _ r₁ λ _ h₂ r₂.
      >>=-elim (internal_unwrap_account t sender) _ r₂ λ a h₃ r₃.
        >>=-elim (unregister_all a tokens) _ r₃
          λ a' h₄ r₄. (save-AllCovered byte_cost owner t sender a' r₄).0 all
Step-AllCovered byte_cost owner
      (Step.withdraws t one_yocto state sender token amount unregister_token h) all =
    >>=-elim one_yocto _ h λ _ h₁ r₁. >>=-elim (assert_contract_running state) _ r₁ λ _ h₂ r₂.
      >>=-elim (guard (ltb 0 amount) Fault.illegal_withdraw_amount) _ r₂ λ _ h₃ r₃.
        >>=-elim (internal_unwrap_account t sender) _ r₃ λ a h₄ r₄.
          >>=-elim (withdraw a token amount) _ r₄ λ a' h₅ r₅.
            >>=-elim (if is_set unregister_token then unregister a' token else ok a') _ r₅
              λ a'' h₆ r₆. (save-AllCovered byte_cost owner t sender a'' r₆).0 all
Step-AllCovered byte_cost owner (Step.finds t token amount h) all =
    lostfound-AllCovered byte_cost owner t token amount h all

same_usage :
    (byte_cost : ℕ) (a : Account) (near_amount : ℕ)
    → storage_usage byte_cost (record a { near_amount = near_amount }) ≡ storage_usage byte_cost a
unfolding storage_usage
same_usage byte_cost a near_amount = refl

-- A withdrawal of prepaid storage by a registered account that has more than it uses always
-- succeeds, for any amount up to what is available. It pays that amount, or all that is available
-- for the amount 0, takes as much from the account and leaves its tokens.
pub internal_storage_withdraw-returns :
    (byte_cost : ℕ) (t : Table Account) (account amount usage : ℕ) (a : Account)
    → lookup account t ≡ some a
    → storage_usage byte_cost a ≡ ok usage
    → usage < a.near_amount
    → amount ≤ a.near_amount - usage
    → (paid : ℕ) × (paid ≡ (if amount == 0 then a.near_amount - usage else amount))
      × (internal_storage_withdraw byte_cost t account amount
          ≡ ok (insert account (record a { near_amount = a.near_amount - paid }) t, paid))
unfolding internal_storage_withdraw internal_unwrap_account storage_available internal_save_account
    assert_storage_usage
internal_storage_withdraw-returns byte_cost t account amount usage a known used more few =
    let paid = if amount == 0 then a.near_amount - usage else amount in
    let pos : ltb 0 (a.near_amount - usage) ≡ true = ground (arith, more) in
    let le : paid ≤ a.near_amount - usage = ground (arith, few) in
    let still : usage ≤ a.near_amount - paid = omega (arith, le, more) in
    let used' = same_usage byte_cost a (a.near_amount - paid) ∙ used in
    (
      paid,
      refl,
      rw
          (
            known,
            used,
            lt→ltb usage a.near_amount more,
            pos,
            le→leb paid (a.near_amount - usage) le,
            checked_sub_fits a.near_amount paid (omega (arith, le)),
            used',
            le→leb usage (a.near_amount - paid) still,
          )
          refl,
    )
