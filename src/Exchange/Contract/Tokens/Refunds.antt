-- ===== src/Exchange/Contract/Tokens/Refunds.antt =====
-- The resolution of a transfer call.
use snails_contracts.Common.{
  ℕ, ◌<◌, ◌≤◌, ◌≡◌, ◌≢◌, ◌>>=◌, sym, ap, ◌∙◌, fun_ext, List, Option, none, some, inl, inr, true,
  false, not, Bool-cases, ok, arith, if◌then◌else◌, ◌==◌, leb, ltb, >>=-elim, ok-injective, guard,
  guard-eq-ok, Fault,
}
use snails_contracts.Common.Table.{contains_key}
use snails_contracts.Exchange.Account.{assert_contract_running}
use snails_contracts.Exchange.Contract.{SnailSwap, get_pool}
use snails_contracts.Exchange.Contract.Promises.{PromiseResult}
use snails_contracts.Exchange.Contract.TokenIds.{TokenOrPool, parse_token_id}
use snails_contracts.Exchange.Contract.Tokens.{
  capped, unused_amount, balance_parsed, internal_mft_balance, internal_mft_transfer, refund,
  mft_resolve_transfer,
}
use snails_contracts.Exchange.Contract.Claims.Pools.{get_pool-ok}
use snails_contracts.Exchange.Contract.Ledger.{Book, view, is_id, change, credit, debit}
use snails_contracts.Exchange.Contract.Ledger.Views.{shares_in-some}
use snails_contracts.Exchange.Contract.Ledger.Moves.{transfer-view}

unused_amount-le :
    (number_of : List ℕ → Option ℕ) (amount : ℕ) (result : PromiseResult) {unused : ℕ}
    → unused_amount number_of amount result ≡ ok unused
    → unused ≤ amount
unfolding unused_amount capped
unused_amount-le number_of amount PromiseResult.not_ready h = absurd (cc)
unused_amount-le number_of amount PromiseResult.failed h = omega (arith, ok-injective h)
unused_amount-le number_of amount (PromiseResult.successful value) h =
    rw (← ok-injective h) (at (number_of value))
  where
    at : (o : Option ℕ) → capped amount o ≤ amount
    at none = omega arith
    at (some reported) = ground arith

balance-view :
    (c : SnailSwap) (id : TokenOrPool) (account : ℕ) {n : ℕ}
    → balance_parsed c id account ≡ ok n
    → n ≡ view c id account
unfolding balance_parsed view
balance-view c (TokenOrPool.token token) account h = sym (ok-injective h)
balance-view c (TokenOrPool.pool i) account h =
    >>=-elim (get_pool c i) _ h λ p h₁ r₁.
      sym (ok-injective r₁) ∙ sym (shares_in-some c.pools i account p (get_pool-ok c i h₁))

-- Nothing moved.
nothing_moved :
    (id : TokenOrPool) (receiver back : ℕ) (b : Book) → b ≡ credit 0 id back (debit 0 id receiver b)
unfolding change is_id
nothing_moved id receiver back b = fun_ext λ j. fun_ext λ k. ground arith

module _ (account_id_of : List ℕ → Option ℕ) (byte_cost : ℕ) (c : SnailSwap)
    (token_id : List ℕ) where
  refund-view :
      (sender receiver balance unused : ℕ) (id : TokenOrPool) {c' : SnailSwap}
      → refund account_id_of byte_cost c token_id sender receiver balance unused ≡ ok c'
      → parse_token_id account_id_of token_id ≡ ok id
      → view c'
        ≡ credit
            (if leb balance unused then balance else unused)
            id
            (if contains_key sender c.accounts then sender else c.owner_id)
            (debit (if leb balance unused then balance else unused) id receiver (view c))
  unfolding refund internal_mft_transfer
  refund-view sender receiver balance unused id h named =
      let back = if contains_key sender c.accounts then sender else c.owner_id in
      let amount = if leb balance unused then balance else unused in
      elim (Bool-cases (ltb 0 balance)) [
        | inl more ↦
            >>=-elim (guard (not (receiver == back)) Fault.transfer_to_self) _ (rw more at h)
              λ _ h₁ r₁. >>=-elim (assert_contract_running c.state) _ r₁ λ _ h₂ r₂.
                >>=-elim (parse_token_id account_id_of token_id) _ r₂ λ id' h₃ r₃.
                  let same : id' ≡ id = ok-injective (sym h₃ ∙ named) in
                  let ne : back ≢ receiver =
                    λ q. ground (arith, q, guard-eq-ok (not (receiver == back)) _ h₁) in
                  rw (← same) (transfer-view byte_cost c id' receiver back amount r₃ ne)
        | inr nothing_left ↦
            let zero : amount ≡ 0 = ground (arith, nothing_left) in
            rw (← ok-injective (rw nothing_left at h), zero)
              (nothing_moved id receiver back (view c))
      ]

  -- The resolution of a transfer call, where it succeeds. The unused part that it answers is at most
  -- the amount. If it is 0 the contract stays as it is. Otherwise the unused part, or the balance of
  -- the receiver if that is less, goes from the receiver back to the sender, or to the owner if the
  -- sender has no account; in the ledger of all tokens and shares nothing else changes.
  pub mft_resolve_transfer_lem :
      (number_of : List ℕ → Option ℕ) (sender receiver amount : ℕ) (result : PromiseResult)
      {r : SnailSwap × ℕ}
      → mft_resolve_transfer account_id_of number_of byte_cost c token_id sender receiver amount
          result
        ≡ ok r
      → (r.1 ≤ amount)
        × (r.1 ≡ 0 → r.0 ≡ c)
        × (0 < r.1
            → (id : TokenOrPool) × (refunded : ℕ) × (parse_token_id account_id_of token_id ≡ ok id)
              × (refunded ≡ (if leb (view c id receiver) r.1 then view c id receiver else r.1))
              × (view r.0
                  ≡ credit refunded id
                      (if contains_key sender c.accounts then sender else c.owner_id)
                      (debit refunded id receiver (view c))))
  unfolding mft_resolve_transfer internal_mft_balance
  mft_resolve_transfer_lem number_of sender receiver amount result h =
      >>=-elim (unused_amount number_of amount result) _ h λ unused h₁ r₁.
        >>=-elim
          (if ltb 0 unused
            then (internal_mft_balance account_id_of c token_id receiver >>= λ b.
                refund account_id_of byte_cost c token_id sender receiver b unused)
            else ok c)
          _ r₁
          λ c₁ h₂ r₂. rw (← ok-injective r₂) (
            unused_amount-le number_of amount result h₁,
            λ zero.
                let off : ltb 0 unused ≡ false = ground (arith, zero) in
                sym (ok-injective (rw off at h₂)),
            λ pos.
                let on : ltb 0 unused ≡ true = ground (arith, pos) in
                >>=-elim (internal_mft_balance account_id_of c token_id receiver) _ (rw on at h₂)
                  λ b h₃ r₃. >>=-elim (parse_token_id account_id_of token_id) _ h₃ λ id h₄ r₄.
                    let e = balance-view c id receiver r₄ in
                    (
                      id,
                      if leb b unused then b else unused,
                      h₄,
                      ap (λ (n : ℕ). if leb n unused then n else unused) e,
                      refund-view sender receiver b unused id r₃ h₄,
                    ),
          )
