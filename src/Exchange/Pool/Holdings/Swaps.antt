-- ===== src/Exchange/Pool/Holdings/Swaps.antt =====
-- What a swap moves in the balances of a pool.
use snails_contracts.Common.{
  ℕ, zero, suc, ◌+◌, ◌≡◌, refl, ap, ◌∙◌, List, [], ◌∷◌, some, inl, inr, Bool-cases, ok, arith,
  if◌then◌else◌, ◌==◌, >>=-elim, ok-injective, expect, expect-ok, expect_some-ok, index, index-ok,
  length, length-set, get_elem?, Fault, checked_add, checked_add-ok, checked_sub, checked_sub-ok,
  u128,
}
use snails_contracts.Exchange.Pool.State.{SimplePool, position, token_index, add_at}
use snails_contracts.Exchange.Pool.Trade.{sub_at, add_volume, settle_swap, swap}
use snails_contracts.Exchange.Pool.Trade.Accounting.{swap_steps}
use snails_contracts.Exchange.Pool.Holdings.{amount_of, amount_of-set}
use snails_contracts.Exchange.Pool.Holdings.Coins.{IsSized}

-- The balances of the pool grow by what comes in and fall by what goes out.
pub record Trades (p p' : SimplePool) (token_in amount_in token_out amount_out : ℕ) : Type 0 where
  pub tokens : p'.token_account_ids ≡ p.token_account_ids
  pub sized : IsSized p'
  pub held :
      (k : ℕ)
      → amount_of p.token_account_ids p'.amounts k + (if k == token_out then amount_out else 0)
        ≡ amount_of p.token_account_ids p.amounts k + (if k == token_in then amount_in else 0)

position-get :
    (j token : ℕ) (tokens : List ℕ) {i : ℕ}
    → position j token tokens ≡ some i
    → (m : ℕ) × (i ≡ j + m) × (get_elem? tokens m ≡ some token)
unfolding position
position-get j token [] h = cc
position-get j token (t ∷ tokens) {i} h = elim (Bool-cases (t == token)) [
  | inl same ↦ (zero, ground (arith, h, same), ap some (ground (arith, same)))
  | inr other ↦
      let (m, e, known) = position-get (suc j) token tokens (rw other at h) in
      (suc m, omega (arith, e), known)
]

token_index-get :
    (p : SimplePool) (token : ℕ) {i : ℕ}
    → token_index p token ≡ ok i
    → get_elem? p.token_account_ids i ≡ some token
unfolding token_index
token_index-get p token {i} h =
    let (m, e, known) = position-get 0 token p.token_account_ids (expect_some-ok _ _ h) in
    let q : i ≡ m = omega (arith, e) in ap (get_elem? p.token_account_ids) q ∙ known

add_at-amount_of :
    (tokens xs : List ℕ) (i x k t : ℕ) {ys : List ℕ}
    → add_at xs i x ≡ ok ys
    → get_elem? tokens i ≡ some t
    → (length ys ≡ length xs)
      × (amount_of tokens ys k ≡ amount_of tokens xs k + (if k == t then x else 0))
unfolding add_at
add_at-amount_of tokens xs i x k t h ht = >>=-elim (index xs i) _ h λ old h₁ r₁.
    >>=-elim (expect Fault.unwrap_none (checked_add u128 old x)) _ r₁ λ sum h₂ r₂.
      let e = (checked_add-ok u128 old x (expect-ok _ _ h₂)).0 in
      rw (← ok-injective r₂) (
        length-set xs i sum,
        ground (arith, e, amount_of-set tokens xs i sum k ht (index-ok xs i h₁)),
      )

sub_at-amount_of :
    (tokens xs : List ℕ) (i x k t : ℕ) {ys : List ℕ}
    → sub_at xs i x ≡ ok ys
    → get_elem? tokens i ≡ some t
    → (length ys ≡ length xs)
      × (amount_of tokens ys k + (if k == t then x else 0) ≡ amount_of tokens xs k)
unfolding sub_at
sub_at-amount_of tokens xs i x k t h ht = >>=-elim (index xs i) _ h λ old h₁ r₁.
    >>=-elim (expect Fault.unwrap_none (checked_sub old x)) _ r₁ λ n h₂ r₂.
      let e = checked_sub-ok old x (expect-ok _ _ h₂) in
      rw (← ok-injective r₂)
        (length-set xs i n, ground (arith, e, amount_of-set tokens xs i n k ht (index-ok xs i h₁)))

pub swap-Trades :
    (now : ℕ) (p : SimplePool) (token_in amount_in token_out least : ℕ) {r : SimplePool × ℕ × ℕ}
    → swap now p token_in amount_in token_out least ≡ ok r
    → IsSized p
    → Trades p r.0 token_in amount_in token_out r.1
unfolding settle_swap
swap-Trades now p token_in amount_in token_out least h sized =
    let (s, i, j, result, at_now, hi, hj, done, enough, settled) =
      swap_steps now p token_in amount_in token_out least h in
    let at_i = token_index-get p token_in hi in
    let at_j = token_index-get p token_out hj in
    >>=-elim (add_at p.amounts i amount_in) _ settled λ grown h₁ r₁.
      >>=-elim (sub_at grown j result.amount_b) _ r₁ λ amounts h₂ r₂.
        >>=-elim (add_at p.total_fees j result.total_fee) _ r₂ λ total_fees h₃ r₃.
          >>=-elim (add_at p.admin_fees j result.admin_fee) _ r₃ λ admin_fees h₄ r₄.
            >>=-elim (add_volume p.volumes i amount_in result.amount_b) _ r₄ λ volumes h₅ r₅.
              let into = λ (k : ℕ).
                add_at-amount_of p.token_account_ids p.amounts i amount_in k token_in h₁ at_i in
              let out_of = λ (k : ℕ).
                sub_at-amount_of p.token_account_ids grown j result.amount_b k token_out h₂ at_j in
              rw (← ok-injective r₅) (record {
                tokens = refl;
                sized = record {
                  amounts = (out_of 0).0 ∙ (into 0).0 ∙ sized.amounts;
                  decimals = sized.decimals;
                };
                held = λ k. omega (arith, (into k).1, (out_of k).1);
              })
