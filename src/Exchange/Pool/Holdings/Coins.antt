-- ===== src/Exchange/Pool/Holdings/Coins.antt =====
-- What a pool holds after the report of the curve has been written into it.
use snails_contracts.Common.{
  ℕ, zero, suc, ◌+◌, ◌<◌, ◌≤◌, ◌≡◌, refl, sym, ap, ◌∙◌, List, [], ◌∷◌, some, inl, inr, Bool-cases,
  ◌==◌, if◌then◌else◌, ok, arith, >>=-elim, ok-injective, guard, guard-eq-ok, expect, ltb, index,
  index-ok, length, length-set, get_elem?, get_elem?-set_self, get_elem?-set_ne, set, Fault,
  checked_sub, false,
}
use snails_contracts.Exchange.Curve.Status.{PoolStatus}
use snails_contracts.Exchange.Pool.State.{SimplePool, coin_num, write, add_at}
use snails_contracts.Exchange.Pool.Liquidity.{
  settle_coins, first, assert_direction, process_amount_and_fees,
}
use snails_contracts.Exchange.Pool.Holdings.{amount_of, amount_of_agree}

-- A pool has a balance and decimals for each of its tokens.
pub record IsSized (p : SimplePool) : Type 0 where
  pub amounts : length p.amounts ≡ coin_num p
  pub decimals : length p.token_decimals ≡ coin_num p

-- A method has kept the tokens of a pool and given it these balances.
pub record Settled (p p' : SimplePool) (new_balances : List ℕ) : Type 0 where
  pub tokens : p'.token_account_ids ≡ p.token_account_ids
  pub sized : IsSized p'
  pub held :
      (k : ℕ)
      → amount_of p.token_account_ids p'.amounts k ≡ amount_of p.token_account_ids new_balances k

write-ok :
    (xs : List ℕ) (i v : ℕ) {ys : List ℕ}
    → write xs i v ≡ ok ys
    → (i < length xs) × (ys ≡ set xs i v)
unfolding write
write-ok xs i v h =
    >>=-elim (guard (ltb i (length xs)) Fault.index_out_of_bounds) _ h
      λ _ h₁ r₁. (ground (arith, guard-eq-ok (ltb i (length xs)) _ h₁), sym (ok-injective r₁))

pub get_elem?-some : (xs : List ℕ) (i : ℕ) → i < length xs → (x : ℕ) × (get_elem? xs i ≡ some x)
get_elem?-some [] i lt = absurd (omega (arith, lt))
get_elem?-some (x ∷ xs) zero lt = (x, refl)
get_elem?-some (x ∷ xs) (suc i) lt = get_elem?-some xs i (omega (arith, lt))

-- The loop writes the balances from place `i` on.
settle_coins-amounts :
    (left i : ℕ) (status : PoolStatus) (p : SimplePool) {p' : SimplePool}
    → settle_coins left i status p ≡ ok p'
    → (p'.token_account_ids ≡ p.token_account_ids)
      × (p'.token_decimals ≡ p.token_decimals)
      × (length p'.amounts ≡ length p.amounts)
      × ((j : ℕ) → j < i → get_elem? p'.amounts j ≡ get_elem? p.amounts j)
      × ((j : ℕ) → i ≤ j → j < i + left → get_elem? p'.amounts j ≡ get_elem? status.new_balances j)
unfolding settle_coins
settle_coins-amounts zero i status p h =
    rw (← ok-injective h)
      (refl, refl, refl, λ j lt. refl, λ j le lt. absurd (omega (arith, le, lt)))
settle_coins-amounts (suc left) i status p h = >>=-elim (index status.new_balances i) _ h λ b h₁ r₁.
    >>=-elim (write p.amounts i b) _ r₁ λ amounts h₂ r₂.
      >>=-elim (index status.total_fee_amount i) _ r₂ λ t h₃ r₃.
        >>=-elim (add_at p.total_fees i t) _ r₃ λ total_fees h₄ r₄.
          >>=-elim (index status.admin_fee_amount i) _ r₄ λ a h₅ r₅.
            >>=-elim (add_at p.admin_fees i a) _ r₅ λ admin_fees h₆ r₆.
              let (tokens, decimals, same_length, below, above) =
                settle_coins-amounts left (suc i) status
                  (record p { amounts = amounts; total_fees = total_fees; admin_fees = admin_fees })
                  r₆ in
              let (lt_i, e) = write-ok p.amounts i b h₂ in
              let (old, known) = get_elem?-some p.amounts i lt_i in
              (
                tokens,
                decimals,
                same_length ∙ ap length e ∙ length-set p.amounts i b,
                λ j lt.
                    below j (omega (arith, lt))
                    ∙ ap (λ (xs : List ℕ). get_elem? xs j) e
                    ∙ get_elem?-set_ne p.amounts i j b (λ q. omega (arith, q, lt)),
                λ j le lt. elim (Bool-cases (j == i)) [
                  | inl same ↦
                      let q : i ≡ j = ground (arith, same) in
                      sym (ap (get_elem? _) q)
                      ∙ below i (omega arith)
                      ∙ ap (λ (xs : List ℕ). get_elem? xs i) e
                      ∙ get_elem?-set_self p.amounts i b old known
                      ∙ sym (index-ok status.new_balances i h₁)
                      ∙ ap (get_elem? status.new_balances) q
                  | inr other ↦ above j (ground (arith, other, le)) (omega (arith, lt))
                ],
              )

pub settle_coins-Settled :
    (status : PoolStatus) (p : SimplePool) {p' : SimplePool}
    → settle_coins (coin_num p) 0 status p ≡ ok p'
    → IsSized p
    → Settled p p' status.new_balances
settle_coins-Settled status p h sized =
    let (tokens, decimals, same_length, below, above) =
      settle_coins-amounts (coin_num p) 0 status p h in
    record {
      tokens = tokens;
      sized = record {
        amounts = same_length ∙ sized.amounts ∙ sym (ap length tokens);
        decimals = ap length decimals ∙ sized.decimals ∙ sym (ap length tokens);
      };
      held = λ k.
          amount_of_agree p.token_account_ids _ status.new_balances k
            λ j lt. above j (omega arith) (omega (arith, lt));
    }

first-agree :
    (n : ℕ) (xs : List ℕ) {ys : List ℕ}
    → first n xs ≡ ok ys
    → (j : ℕ) → j < n
    → get_elem? ys j ≡ get_elem? xs j
unfolding first
first-agree zero xs h j lt = absurd (omega (arith, lt))
first-agree (suc n) [] h j lt = cc
first-agree (suc n) (x ∷ xs) h zero lt =
    >>=-elim (first n xs) _ h λ rest h₁ r₁. rw (← ok-injective r₁) refl
first-agree (suc n) (x ∷ xs) h (suc j) lt =
    >>=-elim (first n xs) _ h
      λ rest h₁ r₁. rw (← ok-injective r₁) (first-agree n xs h₁ j (omega (arith, lt)))

-- The report of a withdrawal, and what the pool answers that it pays.
pub process-Settled :
    (p : SimplePool) (sender prev : ℕ) (status : PoolStatus) {r : SimplePool × List ℕ}
    → process_amount_and_fees p sender prev status ≡ ok r
    → IsSized p
    → Settled p r.0 status.new_balances
      × ((j : ℕ) → j < coin_num p → get_elem? r.1 j ≡ get_elem? status.recieved_amount j)
unfolding process_amount_and_fees
process-Settled p sender prev status h sized =
    let burnt = status.pool_lp_token_changed in
    >>=-elim (assert_direction status false) _ h λ _ h₀ r₀.
      >>=-elim (expect Fault.unwrap_none (checked_sub p.shares_total_supply burnt)) _ r₀ λ n h₁ r₁.
        >>=-elim (settle_coins (coin_num p) 0 status (record p { shares_total_supply = n })) _ r₁
          λ p₁ h₂ r₂. >>=-elim (first (coin_num p) status.recieved_amount) _ r₂ λ result h₃ r₃.
            >>=-elim
              (if prev == burnt then ok 0 else expect Fault.unwrap_none (checked_sub prev burnt)) _
              r₃
              λ left h₄ r₄.
                let s =
                  settle_coins-Settled status (record p { shares_total_supply = n }) h₂
                    (record { amounts = sized.amounts; decimals = sized.decimals }) in
                rw (← ok-injective r₄) (
                  record {
                    tokens = s.tokens;
                    sized = record { amounts = s.sized.amounts; decimals = s.sized.decimals };
                    held = s.held;
                  },
                  first-agree (coin_num p) status.recieved_amount h₃,
                )
