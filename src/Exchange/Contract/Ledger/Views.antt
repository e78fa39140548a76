-- ===== src/Exchange/Contract/Ledger/Views.antt =====
-- What the ledger shows after an account or a pool has been written.
use snails_contracts.Common.{
  ℕ, ◌+◌, ◌-◌, ◌≡◌, ◌≢◌, refl, sym, ap, ◌∙◌, fun_ext, List, some, inl, inr, true, false, Bool-cases,
  ok, arith, if◌then◌else◌, ◌==◌, leb, >>=-elim, ok-injective, guard, guard-eq-ok, expect,
  expect-ok, expect_some, expect_some-ok, Fault, get_elem?, get_elem?-set_self, get_elem?-set_ne,
  set, checked_add, checked_add-ok, u128,
}
use snails_contracts.Common.Table.{
  Table, lookup, insert, contains_key, not_contained, lookup-insert,
}
use snails_contracts.Exchange.Pool.State.{
  SimplePool, share_balance_of, share_transfer, share_register,
}
use snails_contracts.Exchange.Account.{Account, internal_save_account, internal_get_deposit}
use snails_contracts.Exchange.Account.Storage.{save-AllCovered}
use snails_contracts.Exchange.Contract.{SnailSwap}
use snails_contracts.Exchange.Contract.Swaps.{balance, get_deposit-insert}
use snails_contracts.Exchange.Contract.TokenIds.{TokenOrPool}
use snails_contracts.Exchange.Contract.Ledger.{Book, view, shares_in}

-- Ledgers that agree on every token and account.
pub book_ext :
    {b b' : Book}
    → ((token account : ℕ)
        → b (TokenOrPool.token token) account ≡ b' (TokenOrPool.token token) account)
    → ((pool_id account : ℕ)
        → b (TokenOrPool.pool pool_id) account ≡ b' (TokenOrPool.pool pool_id) account)
    → b ≡ b'
book_ext {b} {b'} tokens pools = fun_ext λ id. fun_ext λ account. at id account
  where
    at : (id : TokenOrPool) (account : ℕ) → b id account ≡ b' id account
    at (TokenOrPool.token token) account = tokens token account
    at (TokenOrPool.pool pool_id) account = pools pool_id account

pub saved-get_deposit :
    (byte_cost : ℕ) (t : Table Account) (account : ℕ) (a : Account) (k token : ℕ)
    {t' : Table Account}
    → internal_save_account byte_cost t account a ≡ ok t'
    → internal_get_deposit t' k token
      ≡ (if k == account then balance a token else internal_get_deposit t k token)
saved-get_deposit byte_cost t account a k token h =
    ap (λ t. internal_get_deposit t k token) (save-AllCovered byte_cost 0 t account a h).2
    ∙ get_deposit-insert t account k token a

-- An account that is saved with the balances that it had.
pub saved-same :
    (byte_cost : ℕ) (t : Table Account) (account : ℕ) (a : Account) {t' : Table Account}
    → internal_save_account byte_cost t account a ≡ ok t'
    → ((token : ℕ) → balance a token ≡ internal_get_deposit t account token)
    → (token k : ℕ) → internal_get_deposit t' k token ≡ internal_get_deposit t k token
saved-same byte_cost t account a h same token k =
    saved-get_deposit byte_cost t account a k token h ∙ elim (Bool-cases (k == account)) [
      | inl own ↦
          let q : account ≡ k = ground (arith, own) in
          rw own (same token ∙ ap (λ j. internal_get_deposit t j token) q)
      | inr other ↦ rw other refl
    ]

-- New accounts with the same deposits.
pub same-view :
    (c : SnailSwap) (t : Table Account)
    → ((token k : ℕ) → internal_get_deposit t k token ≡ internal_get_deposit c.accounts k token)
    → view (record c { accounts = t }) ≡ view c
unfolding view
same-view c t same = book_ext same (λ pool_id account. refl)

-- The shares after a transfer between two accounts.
pub share_transfer_lem :
    (p : SimplePool) (sender receiver amount k : ℕ) {p' : SimplePool}
    → share_transfer p sender receiver amount ≡ ok p'
    → receiver ≢ sender
    → share_balance_of p' k ≡ (
        if k == receiver
        then share_balance_of p k + amount
        else (if k == sender then share_balance_of p k - amount else share_balance_of p k))
unfolding share_transfer share_balance_of
share_transfer_lem p sender receiver amount k h ne =
    >>=-elim (expect_some Fault.no_shares (lookup sender p.shares)) _ h λ balance h₁ r₁.
      >>=-elim (guard (leb amount balance) Fault.not_enough_shares) _ r₁ λ _ h₂ r₂.
        let sent = insert sender (balance - amount) p.shares in
        >>=-elim (expect_some Fault.lp_not_registered (lookup receiver sent)) _ r₂ λ out h₃ r₃.
          >>=-elim (expect Fault.unwrap_none (checked_add u128 out amount)) _ r₃ λ sum h₄ r₄.
            let had = expect_some-ok Fault.no_shares (lookup sender p.shares) h₁ in
            let got = expect_some-ok Fault.lp_not_registered (lookup receiver sent) h₃ in
            let e = (checked_add-ok u128 out amount (expect-ok _ _ h₄)).0 in
            let second = lookup-insert receiver k sum sent in
            let first = lookup-insert sender k (balance - amount) p.shares in
            let other : (receiver == sender) ≡ false = ground (arith, ne) in
            let before : lookup receiver p.shares ≡ some out =
              sym (rw other at (lookup-insert sender receiver (balance - amount) p.shares)) ∙ got in
            rw (← ok-injective r₄) (elim (Bool-cases (k == receiver)) [
              | inl is_receiver ↦
                  let q : receiver ≡ k = ground (arith, is_receiver) in
                  let at_k = sym (ap (λ j. lookup j p.shares) q) ∙ before in
                  rw (second, is_receiver, at_k) e
              | inr not_receiver ↦
                  rw (second, not_receiver, first)
                    (elim (Bool-cases (k == sender)) [
                      | inl is_sender ↦
                          let q : sender ≡ k = ground (arith, is_sender) in
                          let at_k = sym (ap (λ j. lookup j p.shares) q) ∙ had in
                          rw (is_sender, at_k) refl
                      | inr not_sender ↦ rw not_sender refl
                    ])
            ])

-- A registration gives no shares.
pub share_register_lem :
    (p : SimplePool) (account k : ℕ) {p' : SimplePool}
    → share_register p account ≡ ok p'
    → share_balance_of p' k ≡ share_balance_of p k
unfolding share_register share_balance_of
share_register_lem p account k h =
    let known = contains_key account p.shares in
    >>=-elim (guard (if known then false else true) Fault.lp_already_registered) _ h λ _ h₁ r₁.
      let new =
        not_contained account p.shares
          (ground (arith, guard-eq-ok (if known then false else true) _ h₁)) in
      rw (← ok-injective r₁, lookup-insert account k 0 p.shares)
        (elim (Bool-cases (k == account)) [
          | inl same ↦
              let q : account ≡ k = ground (arith, same) in
              let at_k = sym (ap (λ j. lookup j p.shares) q) ∙ new in rw (same, at_k) refl
          | inr other ↦ rw other refl
        ])

-- The shares that the ledger shows after a pool has been written.
pub set-shares_in :
    (pools : List SimplePool) (i j k : ℕ) (p p' : SimplePool)
    → get_elem? pools i ≡ some p
    → shares_in (get_elem? (set pools i p') j) k
      ≡ (if j == i then share_balance_of p' k else shares_in (get_elem? pools j) k)
unfolding shares_in
set-shares_in pools i j k p p' known = elim (Bool-cases (j == i)) [
  | inl same ↦
      let q : i ≡ j = ground (arith, same) in
      let at_j = sym (ap (get_elem? (set pools i p')) q) ∙ get_elem?-set_self pools i p' p known in
      rw (same, at_j) refl
  | inr other ↦
      let ne : i ≢ j = λ q. ground (arith, q, other) in
      rw (other, get_elem?-set_ne pools i j p' ne) refl
]

pub shares_in-some :
    (pools : List SimplePool) (i k : ℕ) (p : SimplePool)
    → get_elem? pools i ≡ some p
    → shares_in (get_elem? pools i) k ≡ share_balance_of p k
unfolding shares_in
shares_in-some pools i k p known = rw known refl
