-- ===== src/Exchange/Contract/Liquidity/Deposits.antt =====
-- What the methods that change the liquidity do to the deposits of the accounts.
use snails_contracts.Common.{
  ℕ, ◌+◌, ◌≡◌, refl, sym, ap, ◌∙◌, List, [], ◌∷◌, inl, inr, Bool-cases, if◌then◌else◌, ◌==◌, ok,
  arith, set, >>=-elim, ok-injective, expect, Fault, ltb, checked_add, checked_sub, checked_mul,
  u128, guard, not, ◌||◌, length,
}
use snails_contracts.Common.Table.{insert}
use snails_contracts.Exchange.Pool.State.{SimplePool}
use snails_contracts.Exchange.Pool.Holdings.{amount_of}
use snails_contracts.Exchange.Account.{
  Account, deposit, withdraw, internal_unwrap_or_default_account, internal_save_account,
  internal_get_deposit,
}
use snails_contracts.Exchange.Account.Storage.{IsCovered, save-AllCovered}
use snails_contracts.Exchange.Contract.{
  SnailSwap, Call, replace_pool, deposit_all, transfer_admin_fees, internal_check_storage, reread,
}
use snails_contracts.Exchange.Contract.Swaps.{
  balance, deposit_lem, withdraw_lem, default-balance, reread-balance,
}
use snails_contracts.Exchange.Contract.Liquidity.{
  withdraw_all, write_through, settle, credit_storage, pay_out,
}

pub deposit-balance :
    (a : Account) (token amount k : ℕ) {a' : Account}
    → deposit a token amount ≡ ok a'
    → balance a' k ≡ balance a k + (if k == token then amount else 0)
deposit-balance a token amount k {a'} h =
    let d = deposit_lem a token amount h in
    elim (Bool-cases (k == token)) [
      | inl same ↦
          let q : token ≡ k = ground (arith, same) in
          rw same (sym (ap (balance a') q) ∙ d.0 ∙ ap (λ (j : ℕ). balance a j + amount) q)
      | inr other ↦ rw other (omega (arith, d.1 k (ground (arith, other))))
    ]

pub withdraw-balance :
    (a : Account) (token amount k : ℕ) {a' : Account}
    → withdraw a token amount ≡ ok a'
    → balance a' k + (if k == token then amount else 0) ≡ balance a k
withdraw-balance a token amount k {a'} h =
    let d = withdraw_lem a token amount h in
    elim (Bool-cases (k == token)) [
      | inl same ↦
          let q : token ≡ k = ground (arith, same) in
          rw same (sym (ap (λ (j : ℕ). balance a' j + amount) q) ∙ d.0 ∙ ap (balance a) q)
      | inr other ↦ rw other (omega (arith, d.1 k (ground (arith, other))))
    ]

pub deposit_all-balance :
    (a : Account) (tokens amounts : List ℕ) (k : ℕ) {a' : Account}
    → deposit_all a tokens amounts ≡ ok a'
    → balance a' k ≡ balance a k + amount_of tokens amounts k
unfolding deposit_all amount_of
deposit_all-balance a [] amounts k h = rw (← ok-injective h) (omega arith)
deposit_all-balance a (t ∷ tokens) [] k h = cc
deposit_all-balance a (t ∷ tokens) (x ∷ amounts) k h = >>=-elim (deposit a t x) _ h λ a₁ h₁ r₁.
    omega (arith, deposit-balance a t x k h₁, deposit_all-balance a₁ tokens amounts k r₁)

pub withdraw_all-balance :
    (a : Account) (tokens amounts : List ℕ) (k : ℕ) {a' : Account}
    → withdraw_all a tokens amounts ≡ ok a'
    → balance a' k + amount_of tokens amounts k ≡ balance a k
unfolding withdraw_all amount_of
withdraw_all-balance a [] amounts k h = rw (← ok-injective h) (omega arith)
withdraw_all-balance a (t ∷ tokens) [] k h = cc
withdraw_all-balance a (t ∷ tokens) (x ∷ amounts) k h = >>=-elim (withdraw a t x) _ h λ a₁ h₁ r₁.
    omega (arith, withdraw-balance a t x k h₁, withdraw_all-balance a₁ tokens amounts k r₁)

-- The fees are written into the owner's account.
pub transfer_admin_fees_lem :
    (byte_cost : ℕ) (c : SnailSwap) (tokens fees : List ℕ) {c' : SnailSwap}
    → transfer_admin_fees byte_cost c tokens fees ≡ ok c'
    → (a : Account) × (c' ≡ record c { accounts = insert c.owner_id a c.accounts })
      × ((k : ℕ)
          → balance a k ≡ internal_get_deposit c.accounts c.owner_id k + amount_of tokens fees k)
unfolding transfer_admin_fees
transfer_admin_fees_lem byte_cost c tokens fees h =
    let old = internal_unwrap_or_default_account c.accounts c.owner_id in
    >>=-elim (deposit_all old tokens fees) _ h λ a h₁ r₁.
      >>=-elim (internal_save_account byte_cost c.accounts c.owner_id a) _ r₁ λ accounts h₂ r₂.
        let saved = (save-AllCovered byte_cost 0 c.accounts c.owner_id a h₂).2 in
        (
          a,
          sym (ok-injective r₂) ∙ ap (λ t. record c { accounts = t }) saved,
          λ k.
              deposit_all-balance old tokens fees k h₁
              ∙ ap (λ (n : ℕ). n + amount_of tokens fees k)
                  (default-balance c.accounts c.owner_id k),
        )

write_through_lem :
    (c : SnailSwap) (account : ℕ) (a : Account) {c' : SnailSwap}
    → write_through c account a ≡ ok c'
    → (s : Account) × (c' ≡ record c { accounts = insert account s c.accounts })
      × ((k : ℕ) → balance s k ≡ balance a k)
unfolding write_through
write_through_lem c account a h =
    let old = internal_unwrap_or_default_account c.accounts account in
    >>=-elim
      (guard (not (account == c.owner_id) || (length a.tokens == length old.tokens))
        Fault.inconsistent_state)
      _ h λ _ h₁ r₁. (record old { tokens = a.tokens }, sym (ok-injective r₁), λ k. refl)

-- The end of the methods: the sender's tokens, the owner's account with the fees, and the sender's
-- account.
pub settle_lem :
    (call : Call) (c : SnailSwap) (pool_id : ℕ) (p : SimplePool) (fees : List ℕ) (a : Account)
    {r : SnailSwap × ℕ}
    → settle call c pool_id p fees a ≡ ok r
    → (s : Account) × (o : Account) × (a' : Account) × ((k : ℕ) → balance s k ≡ balance a k)
      × ((k : ℕ)
          → balance o k
            ≡ internal_get_deposit (insert call.predecessor s c.accounts) c.owner_id k
              + amount_of p.token_account_ids fees k)
      × ((k : ℕ)
          → balance a' k
            ≡ internal_get_deposit
                (insert c.owner_id o (insert call.predecessor s c.accounts))
                call.predecessor
                k)
      × IsCovered call.byte_cost a'
      × (r.0 ≡ record c {
        pools = set c.pools pool_id p;
        accounts =
            insert call.predecessor a' (insert c.owner_id o (insert call.predecessor s c.accounts));
      })
unfolding settle replace_pool
settle_lem call c pool_id p fees a h = >>=-elim (write_through c call.predecessor a) _ h λ c₀ h₀ r₀.
    >>=-elim (transfer_admin_fees call.byte_cost c₀ p.token_account_ids fees) _ r₀ λ c₁ h₁ r₁.
      >>=-elim (reread a c₁.accounts call.predecessor) _ r₁ λ a' h₂ r₂.
        >>=-elim (internal_save_account call.byte_cost c₁.accounts call.predecessor a') _ r₂
          λ accounts h₃ r₃. >>=-elim (internal_check_storage call) _ r₃ λ refund h₄ r₄.
            let (s, e₀, kept) = write_through_lem c call.predecessor a h₀ in
            let (o, e₁, credited) =
              transfer_admin_fees_lem call.byte_cost c₀ p.token_account_ids fees h₁ in
            let e : c₁ ≡ record c {
              accounts = insert c.owner_id o (insert call.predecessor s c.accounts);
            } =
              e₁
              ∙ ap (λ (x : SnailSwap). record x { accounts = insert x.owner_id o x.accounts }) e₀ in
            let (keeps, own, saved) =
              save-AllCovered call.byte_cost 0 c₁.accounts call.predecessor a' h₃ in
            (
              s,
              o,
              a',
              kept,
              λ k.
                  credited k
                  ∙ ap
                      (λ (x : SnailSwap).
                        internal_get_deposit x.accounts x.owner_id k
                        + amount_of p.token_account_ids fees k)
                      e₀,
              λ k.
                  reread-balance a c₁.accounts call.predecessor k h₂
                  ∙ ap (λ (x : SnailSwap). internal_get_deposit x.accounts call.predecessor k) e,
              own,
              ap (λ (r : SnailSwap × ℕ). r.0) (sym (ok-injective r₄))
                  ∙ ap (λ t. record c₁ { pools = set c₁.pools pool_id p; accounts = t }) saved
                  ∙ ap
                      (λ (x : SnailSwap). record x {
                        pools = set x.pools pool_id p;
                        accounts = insert call.predecessor a' x.accounts;
                      })
                      e,
            )

pub credit_storage-balance :
    (call : Call) (a : Account) (k : ℕ) {a' : Account}
    → credit_storage call a ≡ ok a'
    → balance a' k ≡ balance a k
unfolding credit_storage
credit_storage-balance call a k h = elim (Bool-cases (ltb call.pool_storage call.prev_storage)) [
  | inl freed ↦
      >>=-elim (expect Fault.unwrap_none (checked_sub call.prev_storage call.pool_storage)) _
        (rw freed at h)
        λ n h₁ r₁.
          >>=-elim (expect Fault.unwrap_none (checked_mul u128 n call.byte_cost)) _ r₁ λ v h₂ r₂.
            >>=-elim (expect Fault.unwrap_none (checked_add u128 a.near_amount v)) _ r₂
              λ near h₃ r₃. rw (← ok-injective r₃) refl
  | inr same ↦ rw (← ok-injective (rw same at h)) refl
]

pub pay_out_lem :
    (call : Call) (c : SnailSwap) (pool_id : ℕ) (p : SimplePool) (amounts fees : List ℕ)
    {r : SnailSwap × ℕ}
    → pay_out call c pool_id p amounts fees ≡ ok r
    → (a : Account) × (settle call c pool_id p fees a ≡ ok r)
      × ((k : ℕ)
          → balance a k
            ≡ internal_get_deposit c.accounts call.predecessor k
              + amount_of p.token_account_ids amounts k)
unfolding pay_out
pay_out_lem call c pool_id p amounts fees h =
    let old = internal_unwrap_or_default_account c.accounts call.predecessor in
    >>=-elim (deposit_all old p.token_account_ids amounts) _ h λ a₁ h₁ r₁.
      >>=-elim (credit_storage call a₁) _ r₁ λ a h₂ r₂. (
        a,
        r₂,
        λ k.
            credit_storage-balance call a₁ k h₂
            ∙ deposit_all-balance old p.token_account_ids amounts k h₁
            ∙ ap (λ (n : ℕ). n + amount_of p.token_account_ids amounts k)
                (default-balance c.accounts call.predecessor k),
      )
