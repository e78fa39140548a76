-- ===== src/Exchange/Account/Deposits.antt =====
-- The balances of an account through deposits and withdrawals of its tokens.
use snails_contracts.Common.{
  ℕ, ◌+◌, ◌-◌, ◌≡◌, ◌≢◌, refl, ap, sym, ◌∙◌, Option, none, some, inl, inr, Bool, true, false,
  Bool-cases, Option-cases, ok, arith, if◌then◌else◌, leb, ◌==◌, >>=-elim, ok-injective, expect,
  expect-ok, le→leb, checked_add, checked_add-ok, Fault, u128,
}
use snails_contracts.Common.Table.{
  Table, lookup, insert, remove, lookup-insert, lookup-insert_self, lookup-insert_ne, lookup-remove,
}
use snails_contracts.Exchange.Account.{
  Account, or_zero, deposited, deposit, withdrawn, withdraw, storage_usage, deposit_known,
  deposit_new, deposit_by_entry, deposit_with_storage_check,
}

pub deposited-ok :
    (o : Option ℕ) (amount : ℕ) {r : ℕ} → deposited o amount ≡ ok r → r ≡ or_zero o + amount
unfolding deposited
deposited-ok (some x) amount h = omega (arith, checked_add-ok u128 amount x (expect-ok _ _ h))
deposited-ok none amount h = omega (arith, ok-injective h)

withdraw-some :
    (a : Account) (token amount left : ℕ)
    → lookup token a.tokens ≡ some (left + amount)
    → withdraw a token amount ≡ ok (record a { tokens = insert token left a.tokens })
unfolding withdraw withdrawn
withdraw-some a token amount left known =
    let rest : left + amount - amount ≡ left = omega arith in
    rw (known, le→leb amount (left + amount) (omega arith), rest) refl

-- The balances after an entry has been written twice, the second time with the old balance.
restored :
    (k token balance : ℕ) (tokens : Table ℕ)
    → or_zero
        (lookup k (insert token (or_zero (lookup token tokens)) (insert token balance tokens)))
      ≡ or_zero (lookup k tokens)
restored k token balance tokens = elim (Bool-cases (k == token)) [
  | inl same ↦
      let q : token ≡ k = ground (arith, same) in
      rw (lookup-insert token k (or_zero (lookup token tokens)) (insert token balance tokens), same)
        (ap (λ j. or_zero (lookup j tokens)) q)
  | inr other ↦
      rw
        (
          lookup-insert token k (or_zero (lookup token tokens)) (insert token balance tokens),
          other,
          lookup-insert token k balance tokens,
          other,
        )
        refl
]

-- What is deposited can be withdrawn: after a deposit that succeeds, the withdrawal of the same
-- amount of the token succeeds. It leaves the amount of NEAR and the account's balance of every
-- token as they were before.
pub withdraw-deposit :
    (a : Account) (token amount : ℕ) {a' : Account}
    → deposit a token amount ≡ ok a'
    → (a'' : Account) × (withdraw a' token amount ≡ ok a'')
      × (a''.near_amount ≡ a.near_amount)
      × ((k : ℕ) → or_zero (lookup k a''.tokens) ≡ or_zero (lookup k a.tokens))
unfolding deposit
withdraw-deposit a token amount h =
    >>=-elim (deposited (lookup token a.tokens) amount) _ h λ balance h₁ r₁.
      let e = deposited-ok (lookup token a.tokens) amount h₁ in
      rw (← ok-injective r₁) (
        _,
        withdraw-some (record a { tokens = insert token balance a.tokens }) token amount
            (or_zero (lookup token a.tokens))
            (lookup-insert_self token balance a.tokens ∙ ap some e),
        refl,
        λ k. restored k token balance a.tokens,
      )

deposit_known_lem :
    (a : Account) (token x amount : ℕ) {r : Account × Bool}
    → deposit_known a token x amount ≡ ok r
    → ((r.0).near_amount ≡ a.near_amount)
      × ((k : ℕ) → k ≢ token → lookup k (r.0).tokens ≡ lookup k a.tokens)
      × (r.1 ≡ true → or_zero (lookup token (r.0).tokens) ≡ x + amount)
      × (r.1 ≡ false → (some x ≡ none) × (lookup token (r.0).tokens ≡ none))
unfolding deposit_known
deposit_known_lem a token x amount h =
    >>=-elim (expect Fault.unwrap_none (checked_add u128 x amount)) _ h λ sum h₁ r₁.
      let e = (checked_add-ok u128 x amount (expect-ok _ _ h₁)).0 in
      rw (← ok-injective r₁) (
        refl,
        λ k ne. lookup-insert_ne token k sum a.tokens ne,
        λ q. ap or_zero (lookup-insert_self token sum a.tokens) ∙ e,
        λ q. absurd (cc),
      )

-- An entry that was written and removed again.
lookup-removed :
    (k token amount : ℕ) (tokens : Table ℕ)
    → lookup k (remove token (insert token amount tokens))
      ≡ (if k == token then none else lookup k tokens)
lookup-removed k token amount tokens =
    rw (lookup-remove token k (insert token amount tokens), lookup-insert token k amount tokens)
      (ground arith)

deposit_new_lem :
    (byte_cost : ℕ) (a : Account) (token amount : ℕ) {r : Account × Bool}
    → deposit_new byte_cost a token amount ≡ ok r
    → ((r.0).near_amount ≡ a.near_amount)
      × ((k : ℕ) → k ≢ token → lookup k (r.0).tokens ≡ lookup k a.tokens)
      × (r.1 ≡ true → or_zero (lookup token (r.0).tokens) ≡ amount)
      × (r.1 ≡ false → lookup token (r.0).tokens ≡ none)
unfolding deposit_new
deposit_new_lem byte_cost a token amount h =
    let a' = record a { tokens = insert token amount a.tokens } in
    >>=-elim (storage_usage byte_cost a') _ h λ usage h₁ r₁.
      elim (Bool-cases (leb usage a.near_amount)) [
        | inl pays ↦ rw (← ok-injective (rw pays at r₁)) (
          refl,
          λ k ne. lookup-insert_ne token k amount a.tokens ne,
          λ q. ap or_zero (lookup-insert_self token amount a.tokens),
          λ q. absurd (cc),
        )
        | inr short ↦ rw (← ok-injective (rw short at r₁)) (
          refl,
          λ k ne. ground (arith, lookup-removed k token amount a.tokens),
          λ q. absurd (cc),
          λ q. ground (arith, lookup-removed token token amount a.tokens),
        )
      ]

-- The deposit that checks the storage answers whether it has credited the account. If it has, the
-- balance of the token grows by the amount; if it has not, the token had no entry, as before. No
-- other balance changes, nor does the amount of NEAR.
pub deposit_with_storage_check_lem :
    (byte_cost : ℕ) (a : Account) (token amount : ℕ) {r : Account × Bool}
    → deposit_with_storage_check byte_cost a token amount ≡ ok r
    → ((r.0).near_amount ≡ a.near_amount)
      × ((k : ℕ) → k ≢ token → lookup k (r.0).tokens ≡ lookup k a.tokens)
      × (r.1 ≡ true
          → or_zero (lookup token (r.0).tokens) ≡ or_zero (lookup token a.tokens) + amount)
      × (r.1 ≡ false → (lookup token a.tokens ≡ none) × (lookup token (r.0).tokens ≡ none))
unfolding deposit_by_entry
deposit_with_storage_check_lem byte_cost a token amount h =
    elim (Option-cases (lookup token a.tokens)) [
      | inl new ↦
          let (near, others, credited, refused) =
            deposit_new_lem byte_cost a token amount
              (ap (λ o. deposit_by_entry o byte_cost a token amount) (sym new) ∙ h) in
          (near, others, λ q. rw new (omega (arith, credited q)), λ q. (new, refused q))
      | inr (x, known) ↦ rw known (
          deposit_known_lem a token x amount
            (ap (λ o. deposit_by_entry o byte_cost a token amount) (sym known) ∙ h))
    ]
