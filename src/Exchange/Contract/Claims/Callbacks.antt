-- ===== src/Exchange/Contract/Claims/Callbacks.antt =====
-- What transfers between accounts, callbacks and the storage management do to the claims.
use snails_contracts.Common.{
  ℕ, ◌+◌, ◌≤◌, ◌≡◌, refl, sym, ap, ◌∙◌, Option, none, some, inl, inr, Bool, true, false, Bool-cases,
  ok, arith, ◌==◌, >>=-elim, ok-injective, guard, Fault,
}
use snails_contracts.Common.Table.{Table, lookup}
use snails_contracts.Exchange.Account.{Account, or_zero, deposit_with_storage_check}
use snails_contracts.Exchange.Account.Deposits.{deposit_with_storage_check_lem}
use snails_contracts.Exchange.Contract.{SnailSwap}
use snails_contracts.Exchange.Contract.Swaps.{balance, get_deposit-some}
use snails_contracts.Exchange.Contract.Promises.{PromiseResult}
use snails_contracts.Exchange.Contract.Transfers.{
  keep_or_find, give_back, after_withdrawal, exchange_callback_post_withdraw,
}
use snails_contracts.Exchange.Contract.Claims.{
  deposits_of, deposits_of-insert, claims, PoolsSized, Books, only, nothing,
}
use snails_contracts.Exchange.Contract.Claims.Accounts.{internal_lostfound-deposits_of}

-- New accounts under the old pools.
pub accounts-Books :
    (c : SnailSwap) (t : Table Account) (received sent : ℕ → ℕ)
    → PoolsSized c.pools
    → ((k : ℕ) → deposits_of t k + sent k ≤ deposits_of c.accounts k + received k)
    → Books c (record c { accounts = t }) received sent nothing
unfolding claims
accounts-Books c t received sent all le = record { sized = all; backed = λ k. omega (arith, le k) }

-- An account that has taken an amount back, or the owner has.
pub credited-by :
    (byte_cost : ℕ) (a : Account) (token amount k : ℕ) {r : Account × Bool}
    → deposit_with_storage_check byte_cost a token amount ≡ ok r
    → r.1 ≡ true
    → balance r.0 k ≡ balance a k + only token amount k
credited-by byte_cost a token amount k {r} h kept =
    let (near, others, credited, refused) =
      deposit_with_storage_check_lem byte_cost a token amount h in
    elim (Bool-cases (k == token)) [
      | inl same ↦
          let q : token ≡ k = ground (arith, same) in
          rw same
            (sym (ap (balance r.0) q) ∙ credited kept ∙ ap (λ (j : ℕ). balance a j + amount) q)
      | inr other ↦
          let e = ap or_zero (others k (ground (arith, other))) in rw other (omega (arith, e))
    ]

kept_or_found :
    (kept : Bool) (a a' : Account) (c : SnailSwap) (token sender amount k : ℕ) {t : Table Account}
    → keep_or_find kept a' c token sender amount ≡ ok t
    → lookup sender c.accounts ≡ some a
    → (kept ≡ true → balance a' k ≡ balance a k + only token amount k)
    → deposits_of t k ≡ deposits_of c.accounts k + only token amount k
unfolding keep_or_find
kept_or_found true a a' c token sender amount k h known credited = rw (← ok-injective h) (
    omega (
      arith,
      deposits_of-insert sender k a' c.accounts,
      get_deposit-some c.accounts sender k a known,
      credited refl,
    ))
kept_or_found false a a' c token sender amount k h known credited =
    internal_lostfound-deposits_of c.accounts c.owner_id token amount k h

-- What a failed transfer brings back is claimed in full: by the account or by the owner.
give_back-deposits_of :
    (byte_cost : ℕ) (o : Option Account) (c : SnailSwap) (token sender amount k : ℕ)
    {t : Table Account}
    → give_back byte_cost o c token sender amount ≡ ok t
    → lookup sender c.accounts ≡ o
    → deposits_of t k ≡ deposits_of c.accounts k + only token amount k
unfolding give_back
give_back-deposits_of byte_cost none c token sender amount k h known =
    internal_lostfound-deposits_of c.accounts c.owner_id token amount k h
give_back-deposits_of byte_cost (some a) c token sender amount k h known =
    >>=-elim (deposit_with_storage_check byte_cost a token amount) _ h λ d h₁ r₁.
      kept_or_found d.1 a d.0 c token sender amount k r₁ known
        λ kept. credited-by byte_cost a token amount k h₁ kept

-- What comes back after a promise.
unfoldable pub returned : PromiseResult → ℕ → ℕ
returned PromiseResult.not_ready amount = 0
returned PromiseResult.failed amount = amount
returned (PromiseResult.successful value) amount = 0

after_withdrawal-Books :
    (byte_cost : ℕ) (result : PromiseResult) (c : SnailSwap) (token sender amount : ℕ)
    {c' : SnailSwap}
    → after_withdrawal byte_cost result c token sender amount ≡ ok c'
    → PoolsSized c.pools
    → Books c c' (only token (returned result amount)) nothing nothing
unfolding after_withdrawal returned
after_withdrawal-Books byte_cost PromiseResult.not_ready c token sender amount h all = absurd (cc)
after_withdrawal-Books byte_cost (PromiseResult.successful value) c token sender amount h all =
    rw (← ok-injective h) (record { sized = all; backed = λ k. omega arith })
after_withdrawal-Books byte_cost PromiseResult.failed c token sender amount h all =
    >>=-elim (give_back byte_cost (lookup sender c.accounts) c token sender amount) _ h λ t h₁ r₁.
      rw (← ok-injective r₁) (
        accounts-Books c t (only token amount) nothing all λ k.
          let e =
            give_back-deposits_of byte_cost (lookup sender c.accounts) c token sender amount k h₁
              refl in
          omega (arith, e))

pub exchange_callback_post_withdraw-Books :
    (byte_cost results : ℕ) (result : PromiseResult) (c : SnailSwap) (token sender amount : ℕ)
    {c' : SnailSwap}
    → exchange_callback_post_withdraw byte_cost results result c token sender amount ≡ ok c'
    → PoolsSized c.pools
    → Books c c' (only token (returned result amount)) nothing nothing
unfolding exchange_callback_post_withdraw
exchange_callback_post_withdraw-Books byte_cost results result c token sender amount h all =
    >>=-elim (guard (results == 1) Fault.callback_invalid) _ h
      λ _ h₁ r₁. after_withdrawal-Books byte_cost result c token sender amount r₁ all
