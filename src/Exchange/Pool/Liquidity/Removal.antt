-- ===== src/Exchange/Pool/Liquidity/Removal.antt =====
-- What the three withdrawals of a pool do to its shares, and the bounds that the caller sets.
use snails_contracts.Common.{
  ℕ, ◌%◌, ◌≡◌, List, ok, arith, >>=-elim, guard, ok-injective, expect_some, expect_some-ok,
  expect-ok, leb, index, Fault, u8, length,
}
use snails_contracts.Common.Table.{lookup}
use snails_contracts.Exchange.Curve.Status.{PoolStatus}
use snails_contracts.Exchange.Curve.Withdraw.Accounting.{remove_liquidity_accounts}
use snails_contracts.Exchange.Curve.OneCoin
use snails_contracts.Exchange.Pool.State.{
  SimplePool, coin_num, curve_at, assert_param_num, token_index,
}
use snails_contracts.Exchange.Pool.Liquidity.{
  remove_liquidity_impl, remove_liquidity_imbalance_impl, remove_liquidity_one_coin_impl,
  process_amount_and_fees, assert_min_amounts, assert_amounts, remove_liquidity,
  remove_liquidity_imbalance, remove_liquidity_one_coin,
}
use snails_contracts.Exchange.Pool.Liquidity.Shares.{Burns, process-Burns}

impl-burnt :
    (now : ℕ) (p : SimplePool) (shares : ℕ) {status : PoolStatus}
    → remove_liquidity_impl now p shares ≡ ok status
    → status.pool_lp_token_changed ≡ shares
unfolding remove_liquidity_impl
impl-burnt now p shares h = >>=-elim (curve_at now p) _ h λ s h₁ r₁.
    (remove_liquidity_accounts s shares p.shares_total_supply p.amounts p.fees (expect-ok _ _ r₁)).0

one_coin_impl-burnt :
    (now : ℕ) (p : SimplePool) (i shares : ℕ) {status : PoolStatus}
    → remove_liquidity_one_coin_impl now p i shares ≡ ok status
    → status.pool_lp_token_changed ≡ shares
unfolding remove_liquidity_one_coin_impl OneCoin.remove_liquidity_one_coin
one_coin_impl-burnt now p i shares h =
    >>=-elim (curve_at now p) _ h λ s h₁ r₁. ground (arith, expect-ok _ _ r₁)

-- A proportional withdrawal that succeeds burns exactly the shares that were asked for.
pub remove_liquidity-Burns :
    (now : ℕ) (p : SimplePool) (sender shares : ℕ) (min_amounts : List ℕ)
    {r : SimplePool × List ℕ × List ℕ}
    → remove_liquidity now p sender shares min_amounts ≡ ok r
    → Burns p r.0 sender shares
unfolding remove_liquidity
remove_liquidity-Burns now p sender shares min_amounts h =
    >>=-elim (assert_param_num p (length min_amounts)) _ h λ _ h₀ r₀.
      >>=-elim (remove_liquidity_impl now p shares) _ r₀ λ status h₁ r₁.
        >>=-elim (expect_some Fault.no_shares (lookup sender p.shares)) _ r₁ λ prev h₂ r₂.
          >>=-elim (process_amount_and_fees p sender prev status) _ r₂ λ paid h₃ r₃.
            >>=-elim (assert_min_amounts (coin_num p) paid.1 min_amounts) _ r₃ λ _ h₄ r₄.
              rw (← ok-injective r₄, ← impl-burnt now p shares h₁)
                (process-Burns p sender prev status h₃ (expect_some-ok _ _ h₂))

-- A withdrawal of chosen amounts that succeeds burns exactly the shares that it returns.
pub remove_liquidity_imbalance-Burns :
    (now : ℕ) (p : SimplePool) (sender : ℕ) (amounts : List ℕ) {r : SimplePool × ℕ × List ℕ}
    → remove_liquidity_imbalance now p sender amounts ≡ ok r
    → Burns p r.0 sender r.1
unfolding remove_liquidity_imbalance
remove_liquidity_imbalance-Burns now p sender amounts h =
    >>=-elim (remove_liquidity_imbalance_impl now p amounts) _ h λ status h₁ r₁.
      >>=-elim (expect_some Fault.no_shares (lookup sender p.shares)) _ r₁ λ prev h₂ r₂.
        >>=-elim (process_amount_and_fees p sender prev status) _ r₂ λ paid h₃ r₃.
          >>=-elim (assert_amounts (coin_num p) paid.1 amounts) _ r₃ λ _ h₄ r₄.
            rw (← ok-injective r₄) (process-Burns p sender prev status h₃ (expect_some-ok _ _ h₂))

-- A withdrawal of one coin that succeeds burns exactly the shares that were asked for.
pub remove_liquidity_one_coin-Burns :
    (now : ℕ) (p : SimplePool) (sender token_out shares min_amount : ℕ)
    {r : SimplePool × List ℕ × List ℕ}
    → remove_liquidity_one_coin now p sender token_out shares min_amount ≡ ok r
    → Burns p r.0 sender shares
unfolding remove_liquidity_one_coin
remove_liquidity_one_coin-Burns now p sender token_out shares min_amount h =
    >>=-elim (token_index p token_out) _ h λ place h₀ r₀.
      >>=-elim (remove_liquidity_one_coin_impl now p (place % u8) shares) _ r₀ λ status h₁ r₁.
        >>=-elim (expect_some Fault.no_shares (lookup sender p.shares)) _ r₁ λ prev h₂ r₂.
          >>=-elim (process_amount_and_fees p sender prev status) _ r₂ λ paid h₃ r₃.
            >>=-elim (index paid.1 (place % u8)) _ r₃ λ amount h₄ r₄.
              >>=-elim (guard (leb min_amount amount) Fault.exceed_min_amount) _ r₄ λ _ h₅ r₅.
                rw (← ok-injective r₅, ← one_coin_impl-burnt now p (place % u8) shares h₁)
                  (process-Burns p sender prev status h₃ (expect_some-ok _ _ h₂))
