-- ===== src/Exchange/Contract/Claims/Tokens.antt =====
-- What transfers between accounts do to the claims.
use snails_contracts.Common.{
  ◌>>=◌, ℕ, ◌≡◌, ◌≢◌, refl, ap, ◌∙◌, List, Option, inl, inr, true, false, not, Bool-cases, ok,
  arith, if◌then◌else◌, ◌==◌, ltb, leb, Result, >>=-elim, ok-injective, guard, guard-eq-ok, expect,
  expect_some, Fault, checked_add, u128, ◌-◌,
}
use snails_contracts.Common.Table.{Table, lookup, insert, contains_key, lookup-insert_ne}
use snails_contracts.Exchange.Account.Storage.{save-AllCovered}
use snails_contracts.Exchange.Pool.State.{SimplePool, share_transfer, share_register}
use snails_contracts.Exchange.Pool.Holdings.Coins.{IsSized}
use snails_contracts.Exchange.Account.{
  Account, balance_in, assert_contract_running, deposit, withdraw, internal_unwrap_account,
  internal_save_account, internal_get_deposit,
}
use snails_contracts.Exchange.Contract.{SnailSwap, Call, get_pool, internal_check_storage}
use snails_contracts.Exchange.Contract.Liquidity.Deposits.{deposit-balance, withdraw-balance}
use snails_contracts.Exchange.Contract.TokenIds.{TokenOrPool, parse_token_id}
use snails_contracts.Exchange.Contract.Tokens.{
  transfer_parsed, register_parsed, unused_amount, internal_mft_transfer, internal_mft_balance,
  refund, mft_register, mft_transfer, mft_transfer_call, mft_resolve_transfer,
  gas_for_ft_transfer_call,
}
use snails_contracts.Exchange.Contract.Promises.{PromiseResult}
use snails_contracts.Exchange.Contract.Claims.{PoolsSized, Books, nothing}
use snails_contracts.Exchange.Contract.Claims.Callbacks.{accounts-Books}
use snails_contracts.Exchange.Contract.Claims.Pools.{get_pool-ok}
use snails_contracts.Exchange.Contract.Claims.Swaps.{replaced-Books}
use snails_contracts.Exchange.Contract.Claims.Accounts.{saved-deposits_of, unwrapped-balance}

share_transfer-same :
    (p : SimplePool) (sender receiver amount : ℕ) {p' : SimplePool}
    → share_transfer p sender receiver amount ≡ ok p'
    → IsSized p
    → IsSized p' × (p'.token_account_ids ≡ p.token_account_ids) × (p'.amounts ≡ p.amounts)
unfolding share_transfer
share_transfer-same p sender receiver amount h sized =
    >>=-elim (expect_some Fault.no_shares (lookup sender p.shares)) _ h λ balance h₁ r₁.
      >>=-elim (guard (leb amount balance) Fault.not_enough_shares) _ r₁ λ _ h₂ r₂.
        let sent = insert sender (balance - amount) p.shares in
        >>=-elim (expect_some Fault.lp_not_registered (lookup receiver sent)) _ r₂ λ out h₃ r₃.
          >>=-elim (expect Fault.unwrap_none (checked_add u128 out amount)) _ r₃ λ sum h₄ r₄.
            rw (← ok-injective r₄)
              (record { amounts = sized.amounts; decimals = sized.decimals }, refl, refl)

-- The deposits of others than the account that is saved.
saved-other :
    (byte_cost : ℕ) (t : Table Account) (account other : ℕ) (a : Account) (k : ℕ)
    {t' : Table Account}
    → internal_save_account byte_cost t account a ≡ ok t'
    → other ≢ account
    → internal_get_deposit t' other k ≡ internal_get_deposit t other k
unfolding internal_get_deposit
saved-other byte_cost t account other a k h ne =
    ap (λ t. internal_get_deposit t other k) (save-AllCovered byte_cost 0 t account a h).2
    ∙ ap (λ o. balance_in o k) (lookup-insert_ne account other a t ne)

transfer_parsed-Books :
    (byte_cost : ℕ) (c : SnailSwap) (parsed : TokenOrPool) (sender receiver amount : ℕ)
    {c' : SnailSwap}
    → transfer_parsed byte_cost c parsed sender receiver amount ≡ ok c'
    → PoolsSized c.pools
    → receiver ≢ sender
    → Books c c' nothing nothing nothing
unfolding transfer_parsed
transfer_parsed-Books byte_cost c (TokenOrPool.pool pool_id) sender receiver amount h all ne =
    >>=-elim (get_pool c pool_id) _ h λ p h₁ r₁.
      >>=-elim (share_transfer p sender receiver amount) _ r₁ λ p' h₂ r₂.
        let known = get_pool-ok c pool_id h₁ in
        let same = share_transfer-same p sender receiver amount h₂ (all.each _ p known) in
        rw (← ok-injective r₂) (replaced-Books c pool_id p p' known all same.0 same.1 same.2)
transfer_parsed-Books byte_cost c (TokenOrPool.token token) sender receiver amount h all ne =
    >>=-elim (internal_unwrap_account c.accounts sender) _ h λ s h₁ r₁.
      >>=-elim (internal_unwrap_account c.accounts receiver) _ r₁ λ a h₂ r₂.
        >>=-elim (withdraw s token amount) _ r₂ λ s' h₃ r₃.
          >>=-elim (deposit a token amount) _ r₃ λ a' h₄ r₄.
            >>=-elim (internal_save_account byte_cost c.accounts sender s') _ r₄ λ t₁ h₅ r₅.
              >>=-elim (internal_save_account byte_cost t₁ receiver a') _ r₅ λ t₂ h₆ r₆.
                rw (← ok-injective r₆) (
                  accounts-Books c t₂ nothing nothing all λ k. omega (
                    arith,
                    saved-deposits_of byte_cost c.accounts sender s' k h₅,
                    saved-deposits_of byte_cost t₁ receiver a' k h₆,
                    unwrapped-balance c.accounts sender k h₁,
                    unwrapped-balance c.accounts receiver k h₂,
                    withdraw-balance s token amount k h₃,
                    deposit-balance a token amount k h₄,
                    saved-other byte_cost c.accounts sender receiver s' k h₅ ne,
                  ))

pub internal_mft_transfer-Books :
    (account_id_of : List ℕ → Option ℕ) (byte_cost : ℕ) (c : SnailSwap) (token_id : List ℕ)
    (sender receiver amount : ℕ) {c' : SnailSwap}
    → internal_mft_transfer account_id_of byte_cost c token_id sender receiver amount ≡ ok c'
    → PoolsSized c.pools
    → Books c c' nothing nothing nothing
unfolding internal_mft_transfer
internal_mft_transfer-Books account_id_of byte_cost c token_id sender receiver amount h all =
    >>=-elim (guard (not (sender == receiver)) Fault.transfer_to_self) _ h λ _ h₁ r₁.
      >>=-elim (assert_contract_running c.state) _ r₁ λ _ h₂ r₂.
        >>=-elim (parse_token_id account_id_of token_id) _ r₂ λ parsed h₃ r₃.
          let ne : receiver ≢ sender =
            λ q. ground (arith, q, guard-eq-ok (not (sender == receiver)) _ h₁) in
          transfer_parsed-Books byte_cost c parsed sender receiver amount r₃ all ne

same-Books : (c : SnailSwap) → PoolsSized c.pools → Books c c nothing nothing nothing
same-Books c all = record { sized = all; backed = λ k. omega arith }

module _ (account_id_of : List ℕ → Option ℕ) (byte_cost : ℕ) (c : SnailSwap)
    (token_id : List ℕ) where
  pub mft_transfer-Books :
      (one_yocto : Result (Unit {0})) (sender receiver amount : ℕ) {c' : SnailSwap}
      → mft_transfer account_id_of one_yocto byte_cost c sender token_id receiver amount ≡ ok c'
      → PoolsSized c.pools
      → Books c c' nothing nothing nothing
  unfolding mft_transfer
  mft_transfer-Books one_yocto sender receiver amount h all = >>=-elim one_yocto _ h λ _ h₁ r₁.
      >>=-elim (assert_contract_running c.state) _ r₁ λ _ h₂ r₂.
        internal_mft_transfer-Books account_id_of byte_cost c token_id sender receiver amount r₂ all

  pub mft_transfer_call-Books :
      (one_yocto : Result (Unit {0})) (gas sender receiver amount : ℕ) {c' : SnailSwap}
      → mft_transfer_call account_id_of one_yocto gas byte_cost c sender token_id receiver amount
        ≡ ok c'
      → PoolsSized c.pools
      → Books c c' nothing nothing nothing
  unfolding mft_transfer_call
  mft_transfer_call-Books one_yocto gas sender receiver amount h all =
      >>=-elim one_yocto _ h λ _ h₁ r₁. >>=-elim (assert_contract_running c.state) _ r₁ λ _ h₂ r₂.
        >>=-elim (internal_mft_transfer account_id_of byte_cost c token_id sender receiver amount) _
          r₂
          λ c₁ h₃ r₃.
            >>=-elim (guard (leb gas_for_ft_transfer_call gas) Fault.insufficient_gas) _ r₃
              λ _ h₄ r₄. rw (← ok-injective r₄) (
                internal_mft_transfer-Books account_id_of byte_cost c token_id sender receiver
                  amount h₃ all)

  refund-Books :
      (sender receiver receiver_balance unused : ℕ) {c' : SnailSwap}
      → refund account_id_of byte_cost c token_id sender receiver receiver_balance unused ≡ ok c'
      → PoolsSized c.pools
      → Books c c' nothing nothing nothing
  unfolding refund
  refund-Books sender receiver receiver_balance unused h all =
      elim (Bool-cases (ltb 0 receiver_balance)) [
        | inl more ↦
            internal_mft_transfer-Books account_id_of byte_cost c token_id receiver
              (if contains_key sender c.accounts then sender else c.owner_id)
              (if leb receiver_balance unused then receiver_balance else unused) (rw more at h) all
        | inr nothing_left ↦ rw (← ok-injective (rw nothing_left at h)) (same-Books c all)
      ]

  pub mft_resolve_transfer-Books :
      (number_of : List ℕ → Option ℕ) (sender receiver amount : ℕ) (result : PromiseResult)
      {r : SnailSwap × ℕ}
      → mft_resolve_transfer account_id_of number_of byte_cost c token_id sender receiver amount
          result
        ≡ ok r
      → PoolsSized c.pools
      → Books c r.0 nothing nothing nothing
  unfolding mft_resolve_transfer
  mft_resolve_transfer-Books number_of sender receiver amount result h all =
      >>=-elim (unused_amount number_of amount result) _ h λ unused h₁ r₁.
        >>=-elim
          (if ltb 0 unused
            then (internal_mft_balance account_id_of c token_id receiver >>= λ b.
                refund account_id_of byte_cost c token_id sender receiver b unused)
            else ok c)
          _ r₁
          λ c₁ h₂ r₂.
            rw (← ap (λ (r : SnailSwap × ℕ). r.0) (ok-injective r₂))
              (elim (Bool-cases (ltb 0 unused)) [
                | inl more ↦
                    >>=-elim (internal_mft_balance account_id_of c token_id receiver) _
                      (rw more at h₂) λ b h₃ r₃. refund-Books sender receiver b unused r₃ all
                | inr all_used ↦ rw (← ok-injective (rw all_used at h₂)) (same-Books c all)
              ])

share_register-same :
    (p : SimplePool) (account : ℕ) {p' : SimplePool}
    → share_register p account ≡ ok p'
    → IsSized p
    → IsSized p' × (p'.token_account_ids ≡ p.token_account_ids) × (p'.amounts ≡ p.amounts)
unfolding share_register
share_register-same p account h sized =
    let known = contains_key account p.shares in
    >>=-elim (guard (if known then false else true) Fault.lp_already_registered) _ h λ _ h₁ r₁.
      rw (← ok-injective r₁)
        (record { amounts = sized.amounts; decimals = sized.decimals }, refl, refl)

register_parsed-Books :
    (call : Call) (c : SnailSwap) (parsed : TokenOrPool) (account : ℕ) {r : SnailSwap × ℕ}
    → register_parsed call c parsed account ≡ ok r
    → PoolsSized c.pools
    → Books c r.0 nothing nothing nothing
unfolding register_parsed
register_parsed-Books call c (TokenOrPool.token token) account h all = absurd (cc)
register_parsed-Books call c (TokenOrPool.pool pool_id) account h all =
    >>=-elim (get_pool c pool_id) _ h λ p h₁ r₁.
      >>=-elim (share_register p account) _ r₁ λ p' h₂ r₂.
        >>=-elim (internal_check_storage call) _ r₂ λ refunded h₃ r₃.
          let known = get_pool-ok c pool_id h₁ in
          let same = share_register-same p account h₂ (all.each _ p known) in
          rw (← ap (λ (r : SnailSwap × ℕ). r.0) (ok-injective r₃))
            (replaced-Books c pool_id p p' known all same.0 same.1 same.2)

pub mft_register-Books :
    (account_id_of : List ℕ → Option ℕ) (call : Call) (c : SnailSwap) (token_id : List ℕ)
    (account : ℕ) {r : SnailSwap × ℕ}
    → mft_register account_id_of call c token_id account ≡ ok r
    → PoolsSized c.pools
    → Books c r.0 nothing nothing nothing
unfolding mft_register
mft_register-Books account_id_of call c token_id account h all =
    >>=-elim (assert_contract_running c.state) _ h λ _ h₁ r₁.
      >>=-elim (parse_token_id account_id_of token_id) _ r₁
        λ parsed h₂ r₂. register_parsed-Books call c parsed account r₂ all
