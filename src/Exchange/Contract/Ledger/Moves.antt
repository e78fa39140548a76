-- ===== src/Exchange/Contract/Ledger/Moves.antt =====
-- The calls that move tokens in the ledger.
use snails_contracts.Common.{
  ℕ, ◌≡◌, ◌≢◌, refl, sym, ap, ◌∙◌, Option, inl, inr, Bool, Bool-cases, ok, arith, if◌then◌else◌,
  ◌==◌, ltb, Result, >>=-elim, ok-injective, guard, Fault, get_elem?,
}
use snails_contracts.Common.Table.{Table}
use snails_contracts.Exchange.Pool.State.{share_balance_of, share_transfer}
use snails_contracts.Exchange.Account.{
  Account, is_set, assert_contract_running, deposit, withdraw, unregister, internal_unwrap_account,
  internal_save_account, internal_deposit, internal_get_deposit, withdraw_tokens,
}
use snails_contracts.Exchange.Contract.{SnailSwap, get_pool, replace_pool}
use snails_contracts.Exchange.Contract.Swaps.{balance}
use snails_contracts.Exchange.Contract.Liquidity.Deposits.{deposit-balance, withdraw-balance}
use snails_contracts.Exchange.Contract.TokenIds.{TokenOrPool}
use snails_contracts.Exchange.Contract.Tokens.{transfer_parsed}
use snails_contracts.Exchange.Contract.Claims.Pools.{get_pool-ok}
use snails_contracts.Exchange.Contract.Claims.Accounts.{unwrapped-balance, unregister-balance}
use snails_contracts.Exchange.Contract.Ledger.{shares_in, view, is_id, change, credit, debit}
use snails_contracts.Exchange.Contract.Ledger.Views.{
  book_ext, saved-get_deposit, share_transfer_lem, set-shares_in, shares_in-some,
}

pub deposit-view :
    (byte_cost : ℕ) (c : SnailSwap) (sender token amount : ℕ) {t : Table Account}
    → internal_deposit byte_cost c.accounts sender token amount ≡ ok t
    → view (record c { accounts = t }) ≡ credit amount (TokenOrPool.token token) sender (view c)
unfolding internal_deposit view change is_id
deposit-view byte_cost c sender token amount h =
    >>=-elim (internal_unwrap_account c.accounts sender) _ h λ a h₁ r₁.
      >>=-elim (deposit a token amount) _ r₁ λ a' h₂ r₂.
        book_ext
          (λ tok k.
            let saved = saved-get_deposit byte_cost c.accounts sender a' k tok r₂ in
            let was = unwrapped-balance c.accounts sender tok h₁ in
            let grown = deposit-balance a token amount tok h₂ in
            elim (Bool-cases (k == sender)) [
              | inl own ↦
                  let q : sender ≡ k = ground (arith, own) in
                  let at_k = ap (λ j. internal_get_deposit c.accounts j tok) q in
                  ground (arith, saved, was, grown, own, at_k)
              | inr other ↦ ground (arith, saved, other)
            ])
          (λ pool_id k. refl)

pub withdraw-view :
    (one_yocto : Result (Unit {0})) (byte_cost : ℕ) (c : SnailSwap) (sender token amount : ℕ)
    (unregister_token : Option Bool) {t : Table Account}
    → withdraw_tokens one_yocto c.state byte_cost c.accounts sender token amount unregister_token
      ≡ ok t
    → view (record c { accounts = t }) ≡ debit amount (TokenOrPool.token token) sender (view c)
unfolding withdraw_tokens view change is_id
withdraw-view one_yocto byte_cost c sender token amount unregister_token h =
    >>=-elim one_yocto _ h λ _ h₁ r₁. >>=-elim (assert_contract_running c.state) _ r₁ λ _ h₂ r₂.
      >>=-elim (guard (ltb 0 amount) Fault.illegal_withdraw_amount) _ r₂ λ _ h₃ r₃.
        >>=-elim (internal_unwrap_account c.accounts sender) _ r₃ λ a h₄ r₄.
          >>=-elim (withdraw a token amount) _ r₄ λ a' h₅ r₅.
            >>=-elim (if is_set unregister_token then unregister a' token else ok a') _ r₅
              λ a'' h₆ r₆.
                book_ext
                  (λ tok k.
                    let kept : balance a'' tok ≡ balance a' tok =
                      elim (Bool-cases (is_set unregister_token)) [
                        | inl gone ↦ unregister-balance a' token tok (rw gone at h₆)
                        | inr stays ↦ rw (← ok-injective (rw stays at h₆)) refl
                      ] in
                    let saved = saved-get_deposit byte_cost c.accounts sender a'' k tok r₆ in
                    let was = unwrapped-balance c.accounts sender tok h₄ in
                    let less = withdraw-balance a token amount tok h₅ in
                    elim (Bool-cases (k == sender)) [
                      | inl own ↦
                          let q : sender ≡ k = ground (arith, own) in
                          let at_k = ap (λ j. internal_get_deposit c.accounts j tok) q in
                          ground (arith, saved, was, less, kept, own, at_k)
                      | inr other ↦ ground (arith, saved, other)
                    ])
                  (λ pool_id k. refl)

pub transfer-view :
    (byte_cost : ℕ) (c : SnailSwap) (id : TokenOrPool) (sender receiver amount : ℕ) {c' : SnailSwap}
    → transfer_parsed byte_cost c id sender receiver amount ≡ ok c'
    → receiver ≢ sender
    → view c' ≡ credit amount id receiver (debit amount id sender (view c))
unfolding transfer_parsed view change is_id replace_pool
transfer-view byte_cost c (TokenOrPool.pool i) sender receiver amount h ne =
    >>=-elim (get_pool c i) _ h λ p h₁ r₁.
      >>=-elim (share_transfer p sender receiver amount) _ r₁ λ p' h₂ r₂.
        let known = get_pool-ok c i h₁ in
        rw (← ok-injective r₂) (
          book_ext (λ tok k. refl)
            (λ j k.
              let written = set-shares_in c.pools i j k p p' known in
              let moved = share_transfer_lem p sender receiver amount k h₂ ne in
              elim (Bool-cases (j == i)) [
                | inl same ↦
                    let q : i ≡ j = ground (arith, same) in
                    let was : share_balance_of p k ≡ shares_in (get_elem? c.pools j) k =
                      sym (shares_in-some c.pools i k p known)
                      ∙ ap (λ n. shares_in (get_elem? c.pools n) k) q in
                    ground (arith, written, moved, was, same, ne)
                | inr other ↦ ground (arith, written, other)
              ]))
transfer-view byte_cost c (TokenOrPool.token token) sender receiver amount h ne =
    >>=-elim (internal_unwrap_account c.accounts sender) _ h λ s h₁ r₁.
      >>=-elim (internal_unwrap_account c.accounts receiver) _ r₁ λ a h₂ r₂.
        >>=-elim (withdraw s token amount) _ r₂ λ s' h₃ r₃.
          >>=-elim (deposit a token amount) _ r₃ λ a' h₄ r₄.
            >>=-elim (internal_save_account byte_cost c.accounts sender s') _ r₄ λ t₁ h₅ r₅.
              >>=-elim (internal_save_account byte_cost t₁ receiver a') _ r₅ λ t₂ h₆ r₆.
                rw (← ok-injective r₆) (
                  book_ext
                    (λ tok k.
                      let first = saved-get_deposit byte_cost c.accounts sender s' k tok h₅ in
                      let second = saved-get_deposit byte_cost t₁ receiver a' k tok h₆ in
                      let s_was = unwrapped-balance c.accounts sender tok h₁ in
                      let a_was = unwrapped-balance c.accounts receiver tok h₂ in
                      let less = withdraw-balance s token amount tok h₃ in
                      let more = deposit-balance a token amount tok h₄ in
                      elim (Bool-cases (k == receiver)) [
                        | inl got ↦
                            let q : receiver ≡ k = ground (arith, got) in
                            let at_k = ap (λ j. internal_get_deposit c.accounts j tok) q in
                            ground (arith, second, a_was, more, got, at_k, ne)
                        | inr not_got ↦ elim (Bool-cases (k == sender)) [
                          | inl gave ↦
                              let q : sender ≡ k = ground (arith, gave) in
                              let at_k = ap (λ j. internal_get_deposit c.accounts j tok) q in
                              ground (arith, first, second, s_was, less, not_got, gave, at_k)
                          | inr not_gave ↦ ground (arith, first, second, not_got, not_gave)
                        ]
                      ])
                    (λ pool_id k. refl))
