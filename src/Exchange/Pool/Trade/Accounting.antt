-- ===== src/Exchange/Pool/Trade/Accounting.antt =====
-- What a swap does to the balances of a pool, and its preview.
use snails_contracts.Common.{
  ℕ, suc, ap, [], ◌∷◌, length, expect_some-ok, ◌+◌, ◌%◌, ◌<◌, ◌≤◌, ◌≡◌, ◌≢◌, sym, ◌∙◌, List, some,
  refl, ok, arith, >>=-elim, guard, guard-eq-ok, ok-injective, expect, leb, index, index-ok,
  expect-ok, get_elem?, get_elem?-set_self, get_elem?-set_ne, Fault, checked_add, checked_add-ok,
  checked_sub, checked_sub-ok, u8, u128,
}
use snails_contracts.Exchange.Curve.Swap
use snails_contracts.Exchange.Curve.Swap.{SwapResult}
use snails_contracts.Exchange.Curve.Swap.Accounting.{exchange_accounts}
use snails_contracts.Exchange.Fees.Bounds.{IsProportional}
use snails_contracts.Exchange.Curve.Ramp.{StableSwap}
use snails_contracts.Exchange.Pool.State.{
  SimplePool, coin_num, position, curve_at, token_index, add_at,
}
use snails_contracts.Exchange.Pool.Trade.{sub_at, add_volume, settle_swap, swap, get_return}

add_at-get :
    (xs : List ℕ) (i x b : ℕ) {ys : List ℕ}
    → add_at xs i x ≡ ok ys
    → get_elem? xs i ≡ some b
    → (get_elem? ys i ≡ some (b + x)) × ((k : ℕ) → i ≢ k → get_elem? ys k ≡ get_elem? xs k)
unfolding add_at
add_at-get xs i x b h hb = >>=-elim (index xs i) _ h λ old h₁ r₁.
    >>=-elim (expect Fault.unwrap_none (checked_add u128 old x)) _ r₁ λ sum h₂ r₂.
      let e = checked_add-ok u128 old x (expect-ok _ _ h₂) in
      rw (← ok-injective r₂) (
        ground (arith, e, index-ok xs i h₁, get_elem?-set_self xs i sum b hb),
        λ k ne. get_elem?-set_ne xs i k sum ne,
      )

sub_at-get :
    (xs : List ℕ) (i x b : ℕ) {ys : List ℕ}
    → sub_at xs i x ≡ ok ys
    → get_elem? xs i ≡ some b
    → (n : ℕ) × (n + x ≡ b)
      × (get_elem? ys i ≡ some n)
      × ((k : ℕ) → i ≢ k → get_elem? ys k ≡ get_elem? xs k)
unfolding sub_at
sub_at-get xs i x b h hb = >>=-elim (index xs i) _ h λ old h₁ r₁.
    >>=-elim (expect Fault.unwrap_none (checked_sub old x)) _ r₁ λ n h₂ r₂.
      let e = checked_sub-ok old x (expect-ok _ _ h₂) in
      let same = index-ok xs i h₁ in
      rw (← ok-injective r₂) (
        n,
        ground (arith, e, same),
        get_elem?-set_self xs i n b hb,
        λ k ne. get_elem?-set_ne xs i k n ne,
      )

-- The update of the balances, and what is returned.
settle_swap_accounts :
    (p : SimplePool) (i j amount_in b_i b_j : ℕ) (result : SwapResult) {r : SimplePool × ℕ × ℕ}
    → settle_swap p i j amount_in result ≡ ok r
    → i ≢ j
    → get_elem? p.amounts i ≡ some b_i
    → get_elem? p.amounts j ≡ some b_j
    → (r.1 ≡ result.amount_b)
      × (r.2 ≡ result.admin_fee)
      × (get_elem? (r.0).amounts i ≡ some (b_i + amount_in))
      × ((n : ℕ) × (n + result.amount_b ≡ b_j) × (get_elem? (r.0).amounts j ≡ some n))
unfolding settle_swap
settle_swap_accounts p i j amount_in b_i b_j result h ne hi hj =
    >>=-elim (add_at p.amounts i amount_in) _ h λ grown h₁ r₁.
      >>=-elim (sub_at grown j result.amount_b) _ r₁ λ amounts h₂ r₂.
        >>=-elim (add_at p.total_fees j result.total_fee) _ r₂ λ total_fees h₃ r₃.
          >>=-elim (add_at p.admin_fees j result.admin_fee) _ r₃ λ admin_fees h₄ r₄.
            >>=-elim (add_volume p.volumes i amount_in result.amount_b) _ r₄ λ volumes h₅ r₅.
              let up = add_at-get p.amounts i amount_in b_i h₁ hi in
              let (n, e, at_j, others) =
                sub_at-get grown j result.amount_b b_j h₂ (up.1 j ne ∙ hj) in
              rw (← ok-injective r₅) (refl, refl, others i (λ q. ne (sym q)) ∙ up.0, (n, e, at_j))

settle_swap_pays :
    (p : SimplePool) (i j amount_in : ℕ) (result : SwapResult) {r : SimplePool × ℕ × ℕ}
    → settle_swap p i j amount_in result ≡ ok r
    → r.1 ≡ result.amount_b
unfolding settle_swap
settle_swap_pays p i j amount_in result h = ground (arith, h)

-- What a swap has computed.
pub swap_steps :
    (now : ℕ) (p : SimplePool) (token_in amount_in token_out min_amount_out : ℕ)
    {r : SimplePool × ℕ × ℕ}
    → swap now p token_in amount_in token_out min_amount_out ≡ ok r
    → (s : StableSwap) × (i : ℕ) × (j : ℕ) × (result : SwapResult) × (curve_at now p ≡ ok s)
      × (token_index p token_in ≡ ok i)
      × (token_index p token_out ≡ ok j)
      × (Swap.exchange s (i % u8) (j % u8) amount_in p.amounts p.fees ≡ ok result)
      × (min_amount_out ≤ result.amount_b)
      × (settle_swap p i j amount_in result ≡ ok r)
unfolding swap
swap_steps now p token_in amount_in token_out min_amount_out h =
    >>=-elim (curve_at now p) _ h λ s h₁ r₁. >>=-elim (token_index p token_in) _ r₁ λ i h₂ r₂.
      >>=-elim (token_index p token_out) _ r₂ λ j h₃ r₃.
        >>=-elim
          (expect Fault.swap_failed (Swap.exchange s (i % u8) (j % u8) amount_in p.amounts p.fees))
          _ r₃
          λ result h₄ r₄.
            >>=-elim (guard (leb min_amount_out result.amount_b) Fault.min_amount) _ r₄ λ _ h₅ r₅. (
              s,
              i,
              j,
              result,
              h₁,
              h₂,
              h₃,
              expect-ok _ _ h₄,
              ground (arith, guard-eq-ok (leb min_amount_out result.amount_b) Fault.min_amount h₅),
              r₅,
            )

-- A position is one of the list.
position-lt :
    (i token : ℕ) (tokens : List ℕ) (k : ℕ)
    → position i token tokens ≡ some k
    → (i ≤ k) × (k < i + length tokens)
unfolding position
position-lt i token [] k h = cc
position-lt i token (t ∷ tokens) k h = ground (arith, position-lt (suc i) token tokens k)

-- The cast of an index to 8 bits.
small_index :
    (p : SimplePool) (token : ℕ) {i : ℕ}
    → token_index p token ≡ ok i
    → coin_num p ≤ 256
    → i % u8 ≡ i
unfolding token_index
small_index p token {i} h few =
    omega (arith, position-lt 0 token p.token_account_ids i (expect_some-ok _ _ h))

-- A swap that succeeds in a pool of at most 256 coins, under a schedule of proportions (no fee's
-- numerator is above its denominator, which is positive and of 64 bits) and for two coins that have
-- balances, takes the whole amount into the balance of the first coin. It pays the amount that the curve computes, at least what the caller asks for
-- and less than the balance. The new balance of the second coin is the one of the curve and the
-- owner's fee: the pool keeps the fee that it reports to its caller for the owner.
pub swap_accounts :
    (now : ℕ) (p : SimplePool) (token_in amount_in token_out min_amount_out i j b_in b_out : ℕ)
    {r : SimplePool × ℕ × ℕ}
    → swap now p token_in amount_in token_out min_amount_out ≡ ok r
    → coin_num p ≤ 256
    → IsProportional p.fees
    → token_index p token_in ≡ ok i
    → token_index p token_out ≡ ok j
    → get_elem? p.amounts i ≡ some b_in
    → get_elem? p.amounts j ≡ some b_out
    → (s : StableSwap) × (result : SwapResult) × (curve_at now p ≡ ok s)
      × (Swap.exchange s i j amount_in p.amounts p.fees ≡ ok result)
      × (r.1 ≡ result.amount_b)
      × (r.2 ≡ result.admin_fee)
      × (min_amount_out ≤ r.1)
      × (r.1 < b_out)
      × (get_elem? (r.0).amounts i ≡ some (b_in + amount_in))
      × (get_elem? (r.0).amounts j ≡ some (result.new_pool_b + result.admin_fee))
swap_accounts now p token_in amount_in token_out min_amount_out i j b_in b_out {r} h few
      proportional hi hj bi bj =
    let (s, i', j', result, at_now, hi', hj', done, least, settled) =
      swap_steps now p token_in amount_in token_out min_amount_out h in
    let same_i : i' ≡ i = ok-injective (sym hi' ∙ hi) in
    let same_j : j' ≡ j = ok-injective (sym hj' ∙ hj) in
    let done' =
      rw (same_i, same_j, small_index p token_in hi few, small_index p token_out hj few) at done in
    let settled' = rw (same_i, same_j) at settled in
    let (ne, e_a, e_new_a, e_new_b, fee, small) =
      exchange_accounts s i j amount_in b_in b_out p.amounts p.fees done' proportional bi bj in
    let (e_out, e_fee, at_i, (n, e_n, at_j)) =
      settle_swap_accounts p i j amount_in b_in b_out result settled' ne bi bj in
    (
      s,
      result,
      at_now,
      done',
      e_out,
      e_fee,
      omega (arith, e_out, least),
      omega (arith, e_out, small),
      at_i,
      at_j ∙ ap some (omega (arith, e_n, e_new_b)),
    )

-- A swap that succeeds pays exactly the amount that `get_return` previews in the same state and at
-- the same time, and at least what the caller asks for.
pub swap-get_return :
    (now : ℕ) (p : SimplePool) (token_in amount_in token_out min_amount_out : ℕ)
    {r : SimplePool × ℕ × ℕ}
    → swap now p token_in amount_in token_out min_amount_out ≡ ok r
    → (get_return now p token_in amount_in token_out ≡ ok r.1) × (min_amount_out ≤ r.1)
unfolding get_return settle_swap
swap-get_return now p token_in amount_in token_out min_amount_out h =
    let (s, i, j, result, at_now, hi, hj, done, least, settled) =
      swap_steps now p token_in amount_in token_out min_amount_out h in
    let e = settle_swap_pays p i j amount_in result settled in
    (rw (hi, hj, at_now, done) (ap ok (sym e)), omega (arith, e, least))
