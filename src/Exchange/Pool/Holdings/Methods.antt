-- ===== src/Exchange/Pool/Holdings/Methods.antt =====
-- What every method of a pool moves: the balances, what is paid in, what is paid out, and the fees
-- that the caller passes on to the owner.
use snails_contracts.Common.{
  ℕ, zero, suc, ◌+◌, ◌<◌, ◌≤◌, ◌≡◌, refl, sym, ap, ◌∙◌, List, [], ◌∷◌, some, ok, arith, ◌==◌,
  >>=-elim, ok-injective, guard, guard-eq-ok, expect, expect-ok, expect_some, leb, ltb, length,
  get_elem?, Fault, checked_add, u128, true, inl, inr, Bool-cases, ◌&&◌,
}
use snails_contracts.Common.Table.{lookup}
use snails_contracts.Exchange.Curve.Ramp
use snails_contracts.Exchange.Curve.Ramp.{StableSwap}
use snails_contracts.Exchange.Curve.Status.{PoolStatus}
use snails_contracts.Exchange.Curve.Deposit.Shares
use snails_contracts.Exchange.Curve.Withdraw.Accounting.{remove_liquidity_accounts}
use snails_contracts.Exchange.Curve.Imbalance.Shares.{remove_liquidity_imbalance_accounts}
use snails_contracts.Exchange.Pool.State.{
  SimplePool, coin_num, decimals_to_rates, curve_at, assert_param_num, add_to_collection,
  mint_shares,
}
use snails_contracts.Exchange.Pool.Liquidity.{
  add_liquidity_impl, remove_liquidity_impl, remove_liquidity_imbalance_impl, assert_not_drained,
  settle_coins, assert_direction, process_amount_and_fees, assert_min_amounts, assert_amounts,
  add_liquidity, remove_liquidity, remove_liquidity_imbalance,
}
use snails_contracts.Exchange.Pool.Holdings.{
  amount_of, amount_of_agree, amount_of-Splits, amount_of-Gathers,
}
use snails_contracts.Exchange.Pool.Holdings.Coins.{
  IsSized, Settled, settle_coins-Settled, process-Settled,
}

-- After the method, the balances of a token with what has been paid out and the fees are at most
-- the balances before and what has been paid in.
pub record Moves (p p' : SimplePool) (paid_in paid_out fees : List ℕ) : Type 0 where
  pub tokens : p'.token_account_ids ≡ p.token_account_ids
  pub sized : IsSized p'
  pub backed :
      (k : ℕ)
      → amount_of p.token_account_ids p'.amounts k
          + amount_of p.token_account_ids paid_out k
          + amount_of p.token_account_ids fees k
        ≤ amount_of p.token_account_ids p.amounts k + amount_of p.token_account_ids paid_in k

decimals_to_rates-length :
    (decimals : List ℕ) {rates : List ℕ}
    → decimals_to_rates decimals ≡ ok rates
    → length rates ≡ length decimals
unfolding decimals_to_rates
decimals_to_rates-length [] h = rw (← ok-injective h) refl
decimals_to_rates-length (d ∷ decimals) h =
    >>=-elim (guard (leb d 24) Fault.invalid_rates) _ h λ _ h₁ r₁.
      >>=-elim (decimals_to_rates decimals) _ r₁
        λ rest h₂ r₂. rw (← ok-injective r₂) (ap suc (decimals_to_rates-length decimals h₂))

pub curve_at-coin_num :
    (now : ℕ) (p : SimplePool) {s : StableSwap}
    → curve_at now p ≡ ok s
    → IsSized p
    → s.coin_num ≡ coin_num p
unfolding curve_at Ramp.new
curve_at-coin_num now p h sized = >>=-elim (decimals_to_rates p.token_decimals) _ h λ rates h₁ r₁.
    >>=-elim (guard (leb (length rates) 3 && leb 2 (length rates)) Fault.coin_num_range) _ r₁
      λ _ h₂ r₂.
        sym (ap (λ (s : StableSwap). s.coin_num) (ok-injective r₂))
        ∙ decimals_to_rates-length p.token_decimals h₁
        ∙ sized.decimals

pub amount_of-nil : (tokens : List ℕ) (k : ℕ) → amount_of tokens [] k ≡ 0
unfolding amount_of
amount_of-nil [] k = refl
amount_of-nil (t ∷ tokens) k = refl

-- A report that splits the balances, written into the pool.
pub withdrawn-Moves :
    (p p' : SimplePool) (status : PoolStatus) (paid : List ℕ)
    → IsSized p
    → Settled p p' status.new_balances
    → ((k : ℕ)
        → amount_of p.token_account_ids status.new_balances k
            + amount_of p.token_account_ids status.recieved_amount k
            + amount_of p.token_account_ids status.admin_fee_amount k
          ≤ amount_of p.token_account_ids p.amounts k)
    → ((j : ℕ) → j < coin_num p → get_elem? paid j ≡ get_elem? status.recieved_amount j)
    → Moves p p' [] paid status.admin_fee_amount
withdrawn-Moves p p' status paid sized settled split same = record {
  tokens = settled.tokens;
  sized = settled.sized;
  backed = λ k. omega (
    arith,
    settled.held k,
    split k,
    amount_of_agree p.token_account_ids paid status.recieved_amount k same,
    amount_of-nil p.token_account_ids k,
  );
}

minted-Settled :
    (p p₁ p₂ : SimplePool) (account shares : ℕ) (new_balances : List ℕ)
    → mint_shares p₁ account shares ≡ ok p₂
    → Settled p p₁ new_balances
    → Settled p p₂ new_balances
unfolding mint_shares
minted-Settled p p₁ p₂ account shares new_balances h s = elim (Bool-cases (shares == 0)) [
  | inl none_minted ↦ rw (← ok-injective (rw none_minted at h)) s
  | inr some_minted ↦
      >>=-elim (expect Fault.unwrap_none (checked_add u128 p₁.shares_total_supply shares)) _
        (rw some_minted at h)
        λ n h₁ r₁. >>=-elim (add_to_collection p₁.shares account shares) _ r₁ λ table h₂ r₂.
          rw (← ok-injective r₂) (record {
            tokens = s.tokens;
            sized = record { amounts = s.sized.amounts; decimals = s.sized.decimals };
            held = s.held;
          })
]

pub add_liquidity-Moves :
    (now : ℕ) (p : SimplePool) (sender : ℕ) (deposits : List ℕ) {r : SimplePool × ℕ × List ℕ}
    → add_liquidity now p sender deposits ≡ ok r
    → IsSized p
    → Moves p r.0 deposits [] r.2
unfolding add_liquidity add_liquidity_impl
add_liquidity-Moves now p sender deposits h sized =
    >>=-elim (add_liquidity_impl now p deposits) _ h λ status h₁ r₁.
      >>=-elim (assert_direction status true) _ r₁ λ _ h₂ r₂.
        >>=-elim (settle_coins (coin_num p) 0 status p) _ r₂ λ p₁ h₃ r₃.
          let minted = status.pool_lp_token_changed in
          >>=-elim (mint_shares p₁ sender minted) _ r₃ λ p₂ h₄ r₄.
            >>=-elim (guard (ltb 0 minted) Fault.zero_shares) _ r₄ λ _ h₅ r₅.
              >>=-elim (assert_param_num p (length deposits)) _ h₁ λ _ h₆ r₆.
                >>=-elim (curve_at now p) _ r₆ λ s h₇ r₇.
                  let room = curve_at-coin_num now p h₇ sized in
                  let gathered =
                    Shares.add_liquidity_accounts s deposits p.amounts p.shares_total_supply p.fees
                      (expect-ok _ _ r₇) (omega (arith, room, sized.amounts)) in
                  let settled =
                    minted-Settled p p₁ p₂ sender minted status.new_balances h₄
                      (settle_coins-Settled status p h₃ sized) in
                  rw (← ok-injective r₅) (record {
                    tokens = settled.tokens;
                    sized = settled.sized;
                    backed = λ k. omega (
                      arith,
                      settled.held k,
                      amount_of-nil p.token_account_ids k,
                      amount_of-Gathers p.token_account_ids p.amounts status.new_balances deposits
                          status.admin_fee_amount k gathered (omega (arith, sized.amounts)),
                    );
                  })

pub remove_liquidity-Moves :
    (now : ℕ) (p : SimplePool) (sender shares : ℕ) (min_amounts : List ℕ)
    {r : SimplePool × List ℕ × List ℕ}
    → remove_liquidity now p sender shares min_amounts ≡ ok r
    → IsSized p
    → Moves p r.0 [] r.1 r.2
unfolding remove_liquidity remove_liquidity_impl
remove_liquidity-Moves now p sender shares min_amounts h sized =
    >>=-elim (assert_param_num p (length min_amounts)) _ h λ _ h₀ r₀.
      >>=-elim (remove_liquidity_impl now p shares) _ r₀ λ status h₁ r₁.
        >>=-elim (expect_some Fault.no_shares (lookup sender p.shares)) _ r₁ λ prev h₂ r₂.
          >>=-elim (process_amount_and_fees p sender prev status) _ r₂ λ paid h₃ r₃.
            >>=-elim (assert_min_amounts (coin_num p) paid.1 min_amounts) _ r₃ λ _ h₄ r₄.
              >>=-elim (curve_at now p) _ h₁ λ s h₅ r₅.
                let (settled, same) = process-Settled p sender prev status h₃ sized in
                let accounts =
                  remove_liquidity_accounts s shares p.shares_total_supply p.amounts p.fees
                    (expect-ok _ _ r₅) in
                rw (← ok-injective r₄) (
                  withdrawn-Moves p paid.0 status paid.1 sized settled
                    (λ k.
                      amount_of-Splits p.token_account_ids p.amounts status.new_balances
                        status.recieved_amount status.admin_fee_amount k accounts.2
                        (omega (arith, sized.amounts)))
                    same)

assert_amounts-agree :
    (n : ℕ) (xs ys : List ℕ) {u : Unit {0}}
    → assert_amounts n xs ys ≡ ok u
    → (j : ℕ) → j < n
    → get_elem? ys j ≡ get_elem? xs j
unfolding assert_amounts
assert_amounts-agree zero xs ys h j lt = absurd (omega (arith, lt))
assert_amounts-agree (suc n) (x ∷ xs) (y ∷ ys) h zero lt =
    >>=-elim (guard (x == y) Fault.assertion) _ h
      λ _ h₁ r₁. ap some (ground (arith, guard-eq-ok (x == y) Fault.assertion h₁))
assert_amounts-agree (suc n) (x ∷ xs) (y ∷ ys) h (suc j) lt =
    >>=-elim (guard (x == y) Fault.assertion) _ h
      λ _ h₁ r₁. assert_amounts-agree n xs ys r₁ j (omega (arith, lt))
assert_amounts-agree (suc n) [] ys h j lt = cc
assert_amounts-agree (suc n) (x ∷ xs) [] h j lt = cc

pub remove_liquidity_imbalance-Moves :
    (now : ℕ) (p : SimplePool) (sender : ℕ) (amounts : List ℕ) {r : SimplePool × ℕ × List ℕ}
    → remove_liquidity_imbalance now p sender amounts ≡ ok r
    → IsSized p
    → Moves p r.0 [] amounts r.2
unfolding remove_liquidity_imbalance remove_liquidity_imbalance_impl
remove_liquidity_imbalance-Moves now p sender amounts h sized =
    >>=-elim (remove_liquidity_imbalance_impl now p amounts) _ h λ status h₁ r₁.
      >>=-elim (expect_some Fault.no_shares (lookup sender p.shares)) _ r₁ λ prev h₂ r₂.
        >>=-elim (process_amount_and_fees p sender prev status) _ r₂ λ paid h₃ r₃.
          >>=-elim (assert_amounts (coin_num p) paid.1 amounts) _ r₃ λ _ h₄ r₄.
            >>=-elim (assert_param_num p (length amounts)) _ h₁ λ _ h₅ r₅.
              >>=-elim (assert_not_drained (coin_num p) p.amounts amounts) _ r₅ λ _ h₆ r₆.
                >>=-elim (curve_at now p) _ r₆ λ s h₇ r₇.
                  let (settled, same) = process-Settled p sender prev status h₃ sized in
                  let accounts =
                    remove_liquidity_imbalance_accounts s amounts p.amounts p.shares_total_supply
                      p.fees (expect-ok _ _ r₇) in
                  rw (← ok-injective r₄) (
                    withdrawn-Moves p paid.0 status amounts sized settled
                      (λ k.
                        amount_of-Splits p.token_account_ids p.amounts status.new_balances
                          status.recieved_amount status.admin_fee_amount k accounts.0
                          (omega (arith, sized.amounts)))
                      (λ j lt.
                        assert_amounts-agree (coin_num p) paid.1 amounts h₄ j lt ∙ same j lt))
