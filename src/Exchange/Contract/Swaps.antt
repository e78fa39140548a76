-- ===== src/Exchange/Contract/Swaps.antt =====
-- What a swap does to the deposits of the accounts.
use snails_contracts.Common.{
  ℕ, ◌+◌, ◌≡◌, ◌≢◌, refl, sym, ap, ◌∙◌, Option, none, some, inl, inr, Bool-cases, ok, arith,
  if◌then◌else◌, ◌==◌, >>=-elim, ok-injective, expect_some, expect_some-ok, Fault, set, guard,
  length, Option-cases, Bool, true, false,
}
use snails_contracts.Common.Table.{
  Table, lookup, insert, lookup-insert, lookup-insert_self, lookup-insert_ne,
}
use snails_contracts.Exchange.Pool.State.{SimplePool}
use snails_contracts.Exchange.Pool.Trade
use snails_contracts.Exchange.Account.{
  Account, or_zero, balance_in, assert_contract_running, deposited, deposit, withdrawn, withdraw,
  internal_unwrap_account, internal_save_account, internal_get_deposit,
  internal_unwrap_or_default_account,
}
use snails_contracts.Exchange.Account.Deposits.{deposited-ok}
use snails_contracts.Exchange.Account.Storage.{save-AllCovered}
use snails_contracts.Exchange.Contract.{SnailSwap, get_pool, replace_pool, swap_core, swap, reread}

abbrev pub balance : Account → ℕ → ℕ
balance a token = or_zero (lookup token a.tokens)

pub deposit_lem :
    (a : Account) (token amount : ℕ) {a' : Account}
    → deposit a token amount ≡ ok a'
    → (balance a' token ≡ balance a token + amount)
      × ((k : ℕ) → k ≢ token → balance a' k ≡ balance a k)
unfolding deposit
deposit_lem a token amount h = >>=-elim (deposited (lookup token a.tokens) amount) _ h λ n h₁ r₁.
    rw (← ok-injective r₁) (
      ap or_zero (lookup-insert_self token n a.tokens)
          ∙ deposited-ok (lookup token a.tokens) amount h₁,
      λ k ne. ap or_zero (lookup-insert_ne token k n a.tokens ne),
    )

withdrawn-ok :
    (o : Option ℕ) (amount : ℕ) {r : ℕ} → withdrawn o amount ≡ ok r → r + amount ≡ or_zero o
unfolding withdrawn
withdrawn-ok (some x) amount h = ground (arith, h)
withdrawn-ok none amount h = cc

pub withdraw_lem :
    (a : Account) (token amount : ℕ) {a' : Account}
    → withdraw a token amount ≡ ok a'
    → (balance a' token + amount ≡ balance a token)
      × ((k : ℕ) → k ≢ token → balance a' k ≡ balance a k)
unfolding withdraw
withdraw_lem a token amount h = >>=-elim (withdrawn (lookup token a.tokens) amount) _ h λ n h₁ r₁.
    rw (← ok-injective r₁) (
      ap (λ (o : Option ℕ). or_zero o + amount) (lookup-insert_self token n a.tokens)
          ∙ withdrawn-ok (lookup token a.tokens) amount h₁,
      λ k ne. ap or_zero (lookup-insert_ne token k n a.tokens ne),
    )

pub get_deposit-some :
    (t : Table Account) (account token : ℕ) (a : Account)
    → lookup account t ≡ some a
    → internal_get_deposit t account token ≡ balance a token
unfolding internal_get_deposit
get_deposit-some t account token a known = ap (λ o. balance_in o token) known

-- The deposits of an account that is read, where a missing one is new.
pub default-balance :
    (t : Table Account) (account token : ℕ)
    → balance (internal_unwrap_or_default_account t account) token
      ≡ internal_get_deposit t account token
unfolding internal_unwrap_or_default_account internal_get_deposit lookup
default-balance t account token = elim (Option-cases (lookup account t)) [
  | inl new ↦ rw new refl
  | inr (a, known) ↦ rw known refl
]

pub reread-balance :
    (a : Account) (t : Table Account) (account k : ℕ) {a' : Account}
    → reread a t account ≡ ok a'
    → balance a' k ≡ internal_get_deposit t account k
unfolding reread
reread-balance a t account k h =
    let stored = internal_unwrap_or_default_account t account in
    >>=-elim (guard (length stored.tokens == length a.tokens) Fault.inconsistent_state) _ h
      λ _ h₁ r₁. rw (← ok-injective r₁) (default-balance t account k)

-- The deposits after an account has been written.
pub get_deposit-insert :
    (t : Table Account) (account k token : ℕ) (a : Account)
    → internal_get_deposit (insert account a t) k token
      ≡ (if k == account then balance a token else internal_get_deposit t k token)
unfolding internal_get_deposit
get_deposit-insert t account k token a =
    ap (λ o. balance_in o token) (lookup-insert account k a t)
    ∙ elim (Bool-cases (k == account)) [ inl same ↦ rw same refl | inr other ↦ rw other refl ]

-- The deposits after the owner's account `a` has been credited with a fee.
credited :
    (t : Table Account) (owner token_out fee : ℕ) (a a' : Account)
    → lookup owner t ≡ some a
    → (balance a' token_out ≡ balance a token_out + fee)
      × ((k : ℕ) → k ≢ token_out → balance a' k ≡ balance a k)
    → (k token : ℕ)
    → internal_get_deposit (insert owner a' t) k token ≡ (
        if k == owner
        then internal_get_deposit t k token + (if token == token_out then fee else 0)
        else internal_get_deposit t k token)
credited t owner token_out fee a a' known d k token =
    get_deposit-insert t owner k token a' ∙ elim (Bool-cases (k == owner)) [
      | inl same ↦
          let q : owner ≡ k = ground (arith, same) in
          let before =
            ap (λ j. internal_get_deposit t j token) (sym q)
            ∙ get_deposit-some t owner token a known in
          rw same (elim (Bool-cases (token == token_out)) [
            | inl out ↦
                let e : token_out ≡ token = ground (arith, out) in
                rw out (omega (arith, before, d.0, ap (balance a') e, ap (balance a) e))
            | inr rest ↦ rw rest (omega (arith, before, d.1 token (ground (arith, rest))))
          ])
      | inr other ↦ rw other refl
    ]

-- The inner call of a swap.
pub swap_core_lem :
    (now byte_cost : ℕ) (c : SnailSwap) (pool_id token_in amount_in token_out least : ℕ)
    {r : SnailSwap × ℕ}
    → swap_core now byte_cost c pool_id token_in amount_in token_out least ≡ ok r
    → (p : SimplePool) × (paid : SimplePool × ℕ × ℕ) × (get_pool c pool_id ≡ ok p)
      × (Trade.swap now p token_in amount_in token_out least ≡ ok paid)
      × (r.1 ≡ paid.1)
      × ((r.0).pools ≡ set c.pools pool_id paid.0)
      × ((k token : ℕ)
          → internal_get_deposit (r.0).accounts k token ≡ (
              if k == c.owner_id
              then internal_get_deposit c.accounts k token
                + (if token == token_out then paid.2 else 0)
              else internal_get_deposit c.accounts k token))
unfolding swap_core internal_unwrap_account replace_pool
swap_core_lem now byte_cost c pool_id token_in amount_in token_out least h =
    >>=-elim (assert_contract_running c.state) _ h λ _ h₁ r₁.
      >>=-elim (get_pool c pool_id) _ r₁ λ p h₂ r₂.
        >>=-elim (Trade.swap now p token_in amount_in token_out least) _ r₂ λ paid h₃ r₃.
          >>=-elim (expect_some Fault.account_not_registered (lookup c.owner_id c.accounts)) _ r₃
            λ a h₄ r₄. >>=-elim (deposit a token_out paid.2) _ r₄ λ a' h₅ r₅.
              >>=-elim (internal_save_account byte_cost c.accounts c.owner_id a') _ r₅
                λ accounts h₆ r₆.
                  let known = expect_some-ok _ _ h₄ in
                  let saved = (save-AllCovered byte_cost 0 c.accounts c.owner_id a' h₆).2 in
                  let d = deposit_lem a token_out paid.2 h₅ in
                  rw (← ok-injective r₆) (
                    p,
                    paid,
                    h₂,
                    h₃,
                    refl,
                    refl,
                    λ k token.
                        ap (λ t. internal_get_deposit t k token) saved
                        ∙ credited c.accounts c.owner_id token_out paid.2 a a' known d k token,
                  )

-- The fee of the owner as an amount that is added to all deposits.
credit_at :
    (b b' : Bool) (n fee : ℕ)
    → (if b then n + (if b' then fee else 0) else n)
      ≡ n + (if b' then (if b then fee else 0) else 0)
credit_at true b' n fee = refl
credit_at false true n fee = omega arith
credit_at false false n fee = omega arith

-- A swap of two different tokens that succeeds writes the pool after the pool's own swap. It takes
-- the amount in from the sender's deposits and adds the amount that the pool pays; the sender's
-- deposits of other tokens stay. The owner's deposit of the token paid grows by the owner's fee, also
-- if he is the sender himself, and the deposits of all others stay.
pub swap_deposits :
    (now byte_cost : ℕ) (c : SnailSwap) (sender pool_id token_in amount_in token_out least : ℕ)
    {r : SnailSwap × ℕ}
    → swap now byte_cost c sender pool_id token_in amount_in token_out least ≡ ok r
    → token_in ≢ token_out
    → (p : SimplePool) × (paid : SimplePool × ℕ × ℕ) × (get_pool c pool_id ≡ ok p)
      × (Trade.swap now p token_in amount_in token_out least ≡ ok paid)
      × (r.1 ≡ paid.1)
      × ((r.0).pools ≡ set c.pools pool_id paid.0)
      × (internal_get_deposit (r.0).accounts sender token_in + amount_in
          ≡ internal_get_deposit c.accounts sender token_in)
      × (internal_get_deposit (r.0).accounts sender token_out
          ≡ internal_get_deposit c.accounts sender token_out
            + paid.1
            + (if sender == c.owner_id then paid.2 else 0))
      × ((token : ℕ)
          → token ≢ token_in
          → token ≢ token_out
          → internal_get_deposit (r.0).accounts sender token
            ≡ internal_get_deposit c.accounts sender token)
      × ((k token : ℕ)
          → k ≢ sender
          → internal_get_deposit (r.0).accounts k token ≡ (
              if k == c.owner_id
              then internal_get_deposit c.accounts k token
                + (if token == token_out then paid.2 else 0)
              else internal_get_deposit c.accounts k token))
unfolding swap internal_unwrap_account internal_get_deposit
swap_deposits now byte_cost c sender pool_id token_in amount_in token_out least h ne =
    >>=-elim (expect_some Fault.account_not_registered (lookup sender c.accounts)) _ h λ a h₁ r₁.
      >>=-elim (swap_core now byte_cost c pool_id token_in amount_in token_out least) _ r₁
        λ core h₂ r₂. >>=-elim (reread a (core.0).accounts sender) _ r₂ λ a₀ h₀ r₀.
          >>=-elim (withdraw a₀ token_in amount_in) _ r₀ λ a₁ h₃ r₃.
            >>=-elim (deposit a₁ token_out core.1) _ r₃ λ a₂ h₄ r₄.
              >>=-elim (internal_save_account byte_cost (core.0).accounts sender a₂) _ r₄
                λ accounts h₅ r₅.
                  let (p, paid, known_pool, traded, e_out, e_pools, deposits) =
                    swap_core_lem now byte_cost c pool_id token_in amount_in token_out least h₂ in
                  let saved = (save-AllCovered byte_cost 0 (core.0).accounts sender a₂ h₅).2 in
                  let before = λ (token : ℕ).
                    reread-balance a (core.0).accounts sender token h₀
                    ∙ deposits sender token
                    ∙ credit_at (sender == c.owner_id) (token == token_out)
                        (internal_get_deposit c.accounts sender token) paid.2 in
                  let after = λ (token : ℕ).
                    ap (λ t. internal_get_deposit t sender token) saved
                    ∙ get_deposit-some (insert sender a₂ (core.0).accounts) sender token a₂
                        (lookup-insert_self sender a₂ (core.0).accounts) in
                  let w = withdraw_lem a₀ token_in amount_in h₃ in
                  let d = deposit_lem a₁ token_out core.1 h₄ in
                  let is_out : (token_out == token_out) ≡ true = ground arith in
                  let not_out : (token : ℕ) → token ≢ token_out → (token == token_out) ≡ false =
                    λ token other. ground (arith, other) in
                  rw (← ok-injective r₅) (
                    p,
                    paid,
                    known_pool,
                    traded,
                    e_out,
                    e_pools,
                    omega (
                      arith,
                      after token_in,
                      rw (not_out token_in ne) at (before token_in),
                      d.1 token_in ne,
                      w.0,
                    ),
                    omega (
                      arith,
                      after token_out,
                      rw is_out at (before token_out),
                      d.0,
                      w.1 token_out (λ q. ne (sym q)),
                      e_out,
                    ),
                    λ token ne_in ne_out. omega (
                      arith,
                      after token,
                      rw (not_out token ne_out) at (before token),
                      d.1 token ne_out,
                      w.1 token ne_in,
                    ),
                    λ k token other.
                        ap (λ t. internal_get_deposit t k token) saved
                        ∙ ap (λ o. balance_in o token)
                            (lookup-insert_ne sender k a₂ (core.0).accounts other)
                        ∙ deposits k token,
                  )
