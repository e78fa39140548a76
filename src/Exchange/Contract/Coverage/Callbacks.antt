-- ===== src/Exchange/Contract/Coverage/Callbacks.antt =====
-- Which accounts pay for their storage after transfers, callbacks and departures.
use mathlib.Core.Path.{subst}
use snails_contracts.Common.{
  ℕ, suc, ◌≡◌, refl, ap, List, [], ◌∷◌, Option, none, some, inl, inr, Bool, true, false, Bool-cases,
  length, ok, arith, ◌==◌, leb, ltb, not, if◌then◌else◌, ◌>>=◌, >>=-elim, ok-injective, guard,
  expect, Fault, Result, checked_add, u128,
}
use snails_contracts.Common.Table.{Table, lookup, insert, contains_key, lookup-remove}
use snails_contracts.Exchange.Pool.State.{share_transfer}
use snails_contracts.Exchange.Account.{
  Account, assert_contract_running, deposit, withdraw, internal_unwrap_account,
  internal_save_account, storage_usage, deposit_new, deposit_known, deposit_by_entry,
  deposit_with_storage_check,
}
use snails_contracts.Exchange.Account.Storage.{
  IsCovered, AllCovered, storage_cost, storage_usage-ok, save-AllCovered, lostfound-AllCovered,
}
use snails_contracts.Exchange.Contract.{SnailSwap, get_pool, replace_pool}
use snails_contracts.Exchange.Contract.Promises.{PromiseResult}
use snails_contracts.Exchange.Contract.TokenIds.{TokenOrPool, parse_token_id}
use snails_contracts.Exchange.Contract.Tokens.{
  transfer_parsed, unused_amount, internal_mft_transfer, internal_mft_balance, refund, mft_transfer,
  mft_transfer_call, mft_resolve_transfer, gas_for_ft_transfer_call,
}
use snails_contracts.Exchange.Contract.Transfers.{
  keep_or_find, give_back, after_withdrawal, exchange_callback_post_withdraw,
}
use snails_contracts.Exchange.Contract.Storage.{is_empty, remove_account, storage_unregister}
use snails_contracts.Exchange.Contract.Coverage.{covered_written, except_written}

length-insert :
    (k v : ℕ) (t : Table ℕ) {w : ℕ} → lookup k t ≡ some w → length (insert k v t) ≡ length t
unfolding lookup insert
length-insert k v [] h = absurd (cc)
length-insert k v ((j, w) ∷ t) h = elim (Bool-cases (k == j)) [
  | inl same ↦ rw same refl
  | inr other ↦ rw other (ap suc (length-insert k v t (rw other at h)))
]

-- An account that takes an amount back still pays for its storage.
kept-IsCovered :
    (o : Option ℕ) (byte_cost : ℕ) (a : Account) (token amount : ℕ) {r : Account × Bool}
    → lookup token a.tokens ≡ o
    → deposit_by_entry o byte_cost a token amount ≡ ok r
    → r.1 ≡ true
    → IsCovered byte_cost a
    → IsCovered byte_cost r.0
unfolding deposit_by_entry deposit_known deposit_new storage_cost
kept-IsCovered (some balance) byte_cost a token amount e h kept own =
    >>=-elim (expect Fault.unwrap_none (checked_add u128 balance amount)) _ h λ n h₁ r₁.
      subst (λ (r : Account × Bool). IsCovered byte_cost r.0) (ok-injective r₁)
        (record { covered = rw (length-insert token n a.tokens e) own.covered })
kept-IsCovered none byte_cost a token amount e h kept own =
    let a' = record a { tokens = insert token amount a.tokens } in
    >>=-elim (storage_usage byte_cost a') _ h λ usage h₁ r₁.
      elim (Bool-cases (leb usage a'.near_amount)) [
        | inl fits ↦
            subst (λ (r : Account × Bool). IsCovered byte_cost r.0) (ok-injective (rw fits at r₁))
              (record { covered = ground (arith, fits, storage_usage-ok byte_cost a' h₁) })
        | inr refused ↦
            let r = ap (λ (r : Account × Bool). r.1) (ok-injective (rw refused at r₁)) in
            absurd (cc)
      ]

kept_or_found-AllCovered :
    (byte_cost : ℕ) (kept : Bool) (a : Account) (c : SnailSwap) (token sender amount : ℕ)
    {t : Table Account}
    → keep_or_find kept a c token sender amount ≡ ok t
    → (kept ≡ true → AllCovered byte_cost c.owner_id (insert sender a c.accounts))
    → AllCovered byte_cost c.owner_id c.accounts
    → AllCovered byte_cost c.owner_id t
unfolding keep_or_find
kept_or_found-AllCovered byte_cost true a c token sender amount h own all =
    subst (AllCovered byte_cost c.owner_id) (ok-injective h) (own refl)
kept_or_found-AllCovered byte_cost false a c token sender amount h own all =
    lostfound-AllCovered byte_cost c.owner_id c.accounts token amount h all

removed-AllCovered :
    (byte_cost except : ℕ) (t : Table Account) (account : ℕ) (o : Option Account)
    {r : Table Account × Bool × ℕ}
    → remove_account t account o ≡ ok r
    → AllCovered byte_cost except t
    → AllCovered byte_cost except r.0
unfolding remove_account
removed-AllCovered byte_cost except t account none h all =
    subst (λ (r : Table Account × Bool × ℕ). AllCovered byte_cost except r.0) (ok-injective h) all
removed-AllCovered byte_cost except t account (some a) h all =
    >>=-elim (guard (is_empty a.tokens) Fault.tokens_not_empty) _ h λ _ h₁ r₁.
      subst (λ (r : Table Account × Bool × ℕ). AllCovered byte_cost except r.0) (ok-injective r₁)
        (record {
          each = λ k b ne known. elim (Bool-cases (k == account)) [
            | inl same ↦ let gone = rw (lookup-remove account k t, same) at known in absurd (cc)
            | inr other ↦ all.each k b ne (rw (lookup-remove account k t, other) at known)
          ];
        })

transfer-AllCovered :
    (byte_cost : ℕ) (c : SnailSwap) (parsed : TokenOrPool) (sender receiver amount : ℕ)
    {c' : SnailSwap}
    → transfer_parsed byte_cost c parsed sender receiver amount ≡ ok c'
    → AllCovered byte_cost c.owner_id c.accounts
    → AllCovered byte_cost c.owner_id c'.accounts
unfolding transfer_parsed replace_pool
transfer-AllCovered byte_cost c (TokenOrPool.pool pool_id) sender receiver amount h all =
    >>=-elim (get_pool c pool_id) _ h λ p h₁ r₁.
      >>=-elim (share_transfer p sender receiver amount) _ r₁ λ p' h₂ r₂.
        subst (λ (c' : SnailSwap). AllCovered byte_cost c.owner_id c'.accounts) (ok-injective r₂)
          all
transfer-AllCovered byte_cost c (TokenOrPool.token token) sender receiver amount h all =
    >>=-elim (internal_unwrap_account c.accounts sender) _ h λ s h₁ r₁.
      >>=-elim (internal_unwrap_account c.accounts receiver) _ r₁ λ a h₂ r₂.
        >>=-elim (withdraw s token amount) _ r₂ λ s' h₃ r₃.
          >>=-elim (deposit a token amount) _ r₃ λ a' h₄ r₄.
            >>=-elim (internal_save_account byte_cost c.accounts sender s') _ r₄ λ t₁ h₅ r₅.
              >>=-elim (internal_save_account byte_cost t₁ receiver a') _ r₅ λ t₂ h₆ r₆.
                subst (λ (c' : SnailSwap). AllCovered byte_cost c.owner_id c'.accounts)
                  (ok-injective r₆)
                  ((save-AllCovered byte_cost c.owner_id t₁ receiver a' h₆).0
                    ((save-AllCovered byte_cost c.owner_id c.accounts sender s' h₅).0 all))

give_back-AllCovered :
    (byte_cost : ℕ) (o : Option Account) (c : SnailSwap) (token sender amount : ℕ)
    {t : Table Account}
    → give_back byte_cost o c token sender amount ≡ ok t
    → lookup sender c.accounts ≡ o
    → AllCovered byte_cost c.owner_id c.accounts
    → AllCovered byte_cost c.owner_id t
unfolding give_back
give_back-AllCovered byte_cost none c token sender amount h known all =
    lostfound-AllCovered byte_cost c.owner_id c.accounts token amount h all
give_back-AllCovered byte_cost (some a) c token sender amount h known all =
    >>=-elim (deposit_with_storage_check byte_cost a token amount) _ h λ d h₁ r₁.
      kept_or_found-AllCovered byte_cost d.1 d.0 c token sender amount r₁
        (λ kept. elim (Bool-cases (sender == c.owner_id)) [
          | inl same ↦
              let q : c.owner_id ≡ sender = ground (arith, same) in
              subst (λ j. AllCovered byte_cost c.owner_id (insert j d.0 c.accounts)) q
                (except_written byte_cost c.owner_id c.accounts d.0 all)
          | inr other ↦
              let own = all.each sender a (ground (arith, other)) known in
              covered_written byte_cost c.owner_id c.accounts sender d.0
                (kept-IsCovered (lookup token a.tokens) byte_cost a token amount refl h₁ kept own)
                all
        ])
        all

after_withdrawal-AllCovered :
    (byte_cost : ℕ) (result : PromiseResult) (c : SnailSwap) (token sender amount : ℕ)
    {c' : SnailSwap}
    → after_withdrawal byte_cost result c token sender amount ≡ ok c'
    → AllCovered byte_cost c.owner_id c.accounts
    → AllCovered byte_cost c.owner_id c'.accounts
unfolding after_withdrawal
after_withdrawal-AllCovered byte_cost PromiseResult.not_ready c token sender amount h all =
    absurd (cc)
after_withdrawal-AllCovered byte_cost (PromiseResult.successful value) c token sender amount h all =
    subst (λ (c' : SnailSwap). AllCovered byte_cost c.owner_id c'.accounts) (ok-injective h) all
after_withdrawal-AllCovered byte_cost PromiseResult.failed c token sender amount h all =
    >>=-elim (give_back byte_cost (lookup sender c.accounts) c token sender amount) _ h λ t h₁ r₁.
      subst (λ (c' : SnailSwap). AllCovered byte_cost c.owner_id c'.accounts) (ok-injective r₁)
        (give_back-AllCovered byte_cost (lookup sender c.accounts) c token sender amount h₁ refl
          all)

pub callback-AllCovered :
    (byte_cost results : ℕ) (result : PromiseResult) (c : SnailSwap) (token sender amount : ℕ)
    {c' : SnailSwap}
    → exchange_callback_post_withdraw byte_cost results result c token sender amount ≡ ok c'
    → AllCovered byte_cost c.owner_id c.accounts
    → AllCovered byte_cost c.owner_id c'.accounts
unfolding exchange_callback_post_withdraw
callback-AllCovered byte_cost results result c token sender amount h all =
    >>=-elim (guard (results == 1) Fault.callback_invalid) _ h
      λ _ h₁ r₁. after_withdrawal-AllCovered byte_cost result c token sender amount r₁ all

pub unregister-AllCovered :
    (byte_cost : ℕ) (one_yocto : Result (Unit {0})) (c : SnailSwap) (predecessor : ℕ)
    {r : SnailSwap × Bool × ℕ}
    → storage_unregister one_yocto c predecessor ≡ ok r
    → AllCovered byte_cost c.owner_id c.accounts
    → AllCovered byte_cost c.owner_id (r.0).accounts
unfolding storage_unregister
unregister-AllCovered byte_cost one_yocto c predecessor h all =
    let o = lookup predecessor c.accounts in
    >>=-elim one_yocto _ h λ _ h₁ r₁. >>=-elim (assert_contract_running c.state) _ r₁ λ _ h₂ r₂.
      >>=-elim (remove_account c.accounts predecessor o) _ r₂ λ d h₃ r₃.
        subst (λ (r : SnailSwap × Bool × ℕ). AllCovered byte_cost c.owner_id (r.0).accounts)
          (ok-injective r₃)
          (removed-AllCovered byte_cost c.owner_id c.accounts predecessor o h₃ all)

module _ (account_id_of : List ℕ → Option ℕ) (byte_cost : ℕ) (c : SnailSwap)
    (token_id : List ℕ) where
  internal_transfer-AllCovered :
      (sender receiver amount : ℕ) {c' : SnailSwap}
      → internal_mft_transfer account_id_of byte_cost c token_id sender receiver amount ≡ ok c'
      → AllCovered byte_cost c.owner_id c.accounts
      → AllCovered byte_cost c.owner_id c'.accounts
  unfolding internal_mft_transfer
  internal_transfer-AllCovered sender receiver amount h all =
      >>=-elim (guard (not (sender == receiver)) Fault.transfer_to_self) _ h λ _ h₁ r₁.
        >>=-elim (assert_contract_running c.state) _ r₁ λ _ h₂ r₂.
          >>=-elim (parse_token_id account_id_of token_id) _ r₂
            λ parsed h₃ r₃. transfer-AllCovered byte_cost c parsed sender receiver amount r₃ all

  pub mft_transfer-AllCovered :
      (one_yocto : Result (Unit {0})) (sender receiver amount : ℕ) {c' : SnailSwap}
      → mft_transfer account_id_of one_yocto byte_cost c sender token_id receiver amount ≡ ok c'
      → AllCovered byte_cost c.owner_id c.accounts
      → AllCovered byte_cost c.owner_id c'.accounts
  unfolding mft_transfer
  mft_transfer-AllCovered one_yocto sender receiver amount h all = >>=-elim one_yocto _ h λ _ h₁ r₁.
      >>=-elim (assert_contract_running c.state) _ r₁
        λ _ h₂ r₂. internal_transfer-AllCovered sender receiver amount r₂ all

  pub mft_transfer_call-AllCovered :
      (one_yocto : Result (Unit {0})) (gas sender receiver amount : ℕ) {c' : SnailSwap}
      → mft_transfer_call account_id_of one_yocto gas byte_cost c sender token_id receiver amount
        ≡ ok c'
      → AllCovered byte_cost c.owner_id c.accounts
      → AllCovered byte_cost c.owner_id c'.accounts
  unfolding mft_transfer_call
  mft_transfer_call-AllCovered one_yocto gas sender receiver amount h all =
      >>=-elim one_yocto _ h λ _ h₁ r₁. >>=-elim (assert_contract_running c.state) _ r₁ λ _ h₂ r₂.
        >>=-elim (internal_mft_transfer account_id_of byte_cost c token_id sender receiver amount) _
          r₂
          λ c₁ h₃ r₃.
            >>=-elim (guard (leb gas_for_ft_transfer_call gas) Fault.insufficient_gas) _ r₃
              λ _ h₄ r₄.
                subst (λ (c' : SnailSwap). AllCovered byte_cost c.owner_id c'.accounts)
                  (ok-injective r₄) (internal_transfer-AllCovered sender receiver amount h₃ all)

  refund-AllCovered :
      (sender receiver receiver_balance unused : ℕ) {c' : SnailSwap}
      → refund account_id_of byte_cost c token_id sender receiver receiver_balance unused ≡ ok c'
      → AllCovered byte_cost c.owner_id c.accounts
      → AllCovered byte_cost c.owner_id c'.accounts
  unfolding refund
  refund-AllCovered sender receiver receiver_balance unused h all =
      elim (Bool-cases (ltb 0 receiver_balance)) [
        | inl more ↦
            internal_transfer-AllCovered receiver
              (if contains_key sender c.accounts then sender else c.owner_id)
              (if leb receiver_balance unused then receiver_balance else unused) (rw more at h) all
        | inr nothing_left ↦
            subst (λ (c' : SnailSwap). AllCovered byte_cost c.owner_id c'.accounts)
              (ok-injective (rw nothing_left at h)) all
      ]

  pub mft_resolve_transfer-AllCovered :
      (number_of : List ℕ → Option ℕ) (sender receiver amount : ℕ) (result : PromiseResult)
      {r : SnailSwap × ℕ}
      → mft_resolve_transfer account_id_of number_of byte_cost c token_id sender receiver amount
          result
        ≡ ok r
      → AllCovered byte_cost c.owner_id c.accounts
      → AllCovered byte_cost c.owner_id (r.0).accounts
  unfolding mft_resolve_transfer
  mft_resolve_transfer-AllCovered number_of sender receiver amount result h all =
      >>=-elim (unused_amount number_of amount result) _ h λ unused h₁ r₁.
        >>=-elim
          (if ltb 0 unused
            then (internal_mft_balance account_id_of c token_id receiver >>= λ b.
                refund account_id_of byte_cost c token_id sender receiver b unused)
            else ok c)
          _ r₁
          λ c₁ h₂ r₂.
            subst (λ (r : SnailSwap × ℕ). AllCovered byte_cost c.owner_id (r.0).accounts)
              (ok-injective r₂)
              (elim (Bool-cases (ltb 0 unused)) [
                | inl more ↦
                    >>=-elim (internal_mft_balance account_id_of c token_id receiver) _
                      (rw more at h₂) λ b h₃ r₃. refund-AllCovered sender receiver b unused r₃ all
                | inr all_used ↦
                    subst (λ (c' : SnailSwap). AllCovered byte_cost c.owner_id c'.accounts)
                      (ok-injective (rw all_used at h₂)) all
              ])
