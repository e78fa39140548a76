-- ===== src/Exchange/Contract/Transfers/Returns.antt =====
-- What a failed withdrawal brings back is credited in full, to the sender or to the owner.
use snails_contracts.Common.{
  ℕ, ◌+◌, ◌≡◌, ◌⊎◌, refl, ap, ◌∙◌, Option, none, some, inl, inr, Bool, true, false, Bool-cases, ok,
  arith, if◌then◌else◌, ◌==◌, >>=-elim, ok-injective, guard, Fault,
}
use snails_contracts.Common.Table.{Table, lookup, insert}
use snails_contracts.Exchange.Account.{
  Account, deposit, deposit_with_storage_check, internal_unwrap_or_default_account,
  internal_lostfound, internal_get_deposit,
}
use snails_contracts.Exchange.Contract.{SnailSwap}
use snails_contracts.Exchange.Contract.Swaps.{
  default-balance, balance, get_deposit-some, get_deposit-insert,
}
use snails_contracts.Exchange.Contract.Liquidity.Deposits.{deposit-balance}
use snails_contracts.Exchange.Contract.Promises.{PromiseResult}
use snails_contracts.Exchange.Contract.Transfers.{
  keep_or_find, give_back, after_withdrawal, exchange_callback_post_withdraw,
}
use snails_contracts.Exchange.Contract.Claims.{only}
use snails_contracts.Exchange.Contract.Claims.Callbacks.{credited-by}

-- The deposits after one account has got an amount of a token.
pub record Credited (t t' : Table Account) (to token amount : ℕ) : Type 0 where
  pub deposits :
      (k j : ℕ)
      → internal_get_deposit t' k j
        ≡ internal_get_deposit t k j + (if k == to then only token amount j else 0)

inserted-Credited :
    (t : Table Account) (to token amount : ℕ) (a : Account)
    → ((j : ℕ) → balance a j ≡ internal_get_deposit t to j + only token amount j)
    → Credited t (insert to a t) to token amount
inserted-Credited t to token amount a grown = record {
  deposits = λ k j. get_deposit-insert t to k j a ∙ elim (Bool-cases (k == to)) [
    | inl same ↦
        let q : to ≡ k = ground (arith, same) in
        rw same (grown j ∙ ap (λ i. internal_get_deposit t i j + only token amount j) q)
    | inr other ↦ rw other (omega arith)
  ];
}

lostfound-Credited :
    (t : Table Account) (owner token amount : ℕ) {t' : Table Account}
    → internal_lostfound t owner token amount ≡ ok t'
    → Credited t t' owner token amount
unfolding internal_lostfound
lostfound-Credited t owner token amount h =
    let old = internal_unwrap_or_default_account t owner in
    >>=-elim (deposit old token amount) _ h λ a h₁ r₁. rw (← ok-injective r₁) (
      inserted-Credited t owner token amount a
        λ j. omega (arith, deposit-balance old token amount j h₁, default-balance t owner j))

keep_or_find-Credited :
    (kept : Bool) (a a' : Account) (c : SnailSwap) (token sender amount : ℕ) {t : Table Account}
    → keep_or_find kept a' c token sender amount ≡ ok t
    → lookup sender c.accounts ≡ some a
    → (kept ≡ true → (j : ℕ) → balance a' j ≡ balance a j + only token amount j)
    → (to : ℕ) × ((to ≡ sender) ⊎ (to ≡ c.owner_id)) × Credited c.accounts t to token amount
unfolding keep_or_find
keep_or_find-Credited true a a' c token sender amount h known grown = (
  sender,
  inl refl,
  rw (← ok-injective h) (
      inserted-Credited c.accounts sender token amount a'
        λ j. omega (arith, grown refl j, get_deposit-some c.accounts sender j a known)),
)
keep_or_find-Credited false a a' c token sender amount h known grown =
    (c.owner_id, inr refl, lostfound-Credited c.accounts c.owner_id token amount h)

give_back-Credited :
    (byte_cost : ℕ) (o : Option Account) (c : SnailSwap) (token sender amount : ℕ)
    {t : Table Account}
    → give_back byte_cost o c token sender amount ≡ ok t
    → lookup sender c.accounts ≡ o
    → (to : ℕ) × ((to ≡ sender) ⊎ (to ≡ c.owner_id)) × Credited c.accounts t to token amount
unfolding give_back
give_back-Credited byte_cost none c token sender amount h known =
    (c.owner_id, inr refl, lostfound-Credited c.accounts c.owner_id token amount h)
give_back-Credited byte_cost (some a) c token sender amount h known =
    >>=-elim (deposit_with_storage_check byte_cost a token amount) _ h λ d h₁ r₁.
      keep_or_find-Credited d.1 a d.0 c token sender amount r₁ known
        λ kept j. credited-by byte_cost a token amount j h₁ kept

-- The callback of a withdrawal whose transfer has failed, where it succeeds: the whole amount is
-- credited to one account, the sender's or the owner's. No other deposit changes, and no pool.
pub exchange_callback_post_withdraw-failed :
    (byte_cost results : ℕ) (c : SnailSwap) (token sender amount : ℕ) {c' : SnailSwap}
    → exchange_callback_post_withdraw byte_cost results PromiseResult.failed c token sender amount
      ≡ ok c'
    → (to : ℕ) × ((to ≡ sender) ⊎ (to ≡ c.owner_id))
      × ((k j : ℕ)
          → internal_get_deposit c'.accounts k j
            ≡ internal_get_deposit c.accounts k j + (if k == to then only token amount j else 0))
      × (c'.pools ≡ c.pools)
unfolding exchange_callback_post_withdraw after_withdrawal
exchange_callback_post_withdraw-failed byte_cost results c token sender amount h =
    >>=-elim (guard (results == 1) Fault.callback_invalid) _ h λ _ h₁ r₁.
      >>=-elim (give_back byte_cost (lookup sender c.accounts) c token sender amount) _ r₁
        λ t h₂ r₂.
          let (to, who, credited) =
            give_back-Credited byte_cost (lookup sender c.accounts) c token sender amount h₂ refl in
          rw (← ok-injective r₂) (to, who, credited.deposits, refl)
