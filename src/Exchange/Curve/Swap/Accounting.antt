-- ===== src/Exchange/Curve/Swap/Accounting.antt =====
-- An exchange accounts for both coins: what comes in, what goes out, and the fees.
use snails_contracts.Common.{
  ℕ, ◌+◌, ◌-◌, ◌*◌, ◌/◌, ◌<◌, ◌≤◌, ◌≡◌, ◌≢◌, List, some, ok, arith, >>=-elim, index, set,
  checked_add, checked_sub, checked_mul, checked_div, checked_add-ok, checked_sub-ok,
  checked_div-ok, get_elem?, get_elem?-set_self, get_elem?-set_ne, index-ok, sym, u128,
}
use snails_contracts.Common.Arith
use snails_contracts.Exchange.Fees.{Fees, trade_fee, admin_trade_fee}
use snails_contracts.Exchange.Fees.Bounds.{IsProportional, trade_fee-le, admin_trade_fee-le}
use snails_contracts.Exchange.Curve.Ramp.{StableSwap, p_balances_convert}
use snails_contracts.Exchange.Curve.Ramp.Bounds.{p_balances_convert_get}
use snails_contracts.Exchange.Curve.Swap.{
  SwapResult, Payout, get_y, exchange, exchange_payout, exchange_result, get_y_raw,
}

get_y-ne :
    (s : StableSwap) (i j x : ℕ) (balances : List ℕ) {y : ℕ} → get_y s i j x balances ≡ ok y → i ≢ j
unfolding get_y get_y_raw
get_y-ne s i j x balances h = ground arith

-- The amount, the fee and the owner's fee without the common precision.
payout_shares :
    (p_dy1 p_fee p_admin rate : ℕ)
    → 0 < rate
    → p_fee ≤ p_dy1
    → p_admin ≤ p_fee
    → (((p_dy1 - p_fee) / rate + p_fee / rate) * rate ≤ p_dy1) × (p_admin / rate ≤ p_fee / rate)
payout_shares p_dy1 p_fee p_admin rate pos h k =
    let whole : p_dy1 - p_fee + p_fee ≡ p_dy1 = omega arith in
    let sum : (p_dy1 - p_fee) / rate + p_fee / rate ≤ p_dy1 / rate =
      rw whole at (Arith.div-add-le (p_dy1 - p_fee) p_fee rate pos) in
    (
      omega (
        arith,
        Arith.div-mul-le p_dy1 rate,
        Arith.mul-le-mul _ rate (p_dy1 / rate) rate sum (omega arith),
      ),
      Arith.div_mono p_admin p_fee rate pos k,
    )

module _ (fees : Fees) (proportional : IsProportional fees) (p_j p_y rate : ℕ) {o : Payout}
    (done : exchange_payout fees p_j p_y rate ≡ ok o) where
  -- What the payout leaves in the pool, and whose the fee is.
  payout_bounds : ((o.dy + o.dy_fee) * rate + p_y + 1 ≤ p_j) × (o.admin_fee ≤ o.dy_fee)
  unfolding exchange_payout
  payout_bounds = >>=-elim (checked_sub p_j p_y) _ done λ p_gap h₁ r₁.
      >>=-elim (checked_sub p_gap 1) _ r₁ λ p_dy1 h₂ r₂.
        >>=-elim (trade_fee fees p_dy1) _ r₂ λ p_fee h₃ r₃.
          >>=-elim (admin_trade_fee fees p_fee) _ r₃ λ p_admin h₄ r₄.
            >>=-elim (checked_div p_fee rate) _ r₄ λ dy_fee h₅ r₅.
              >>=-elim (checked_div p_admin rate) _ r₅ λ admin_fee h₆ r₆.
                >>=-elim (checked_sub p_dy1 p_fee) _ r₆ λ p_dy h₇ r₇.
                  >>=-elim (checked_div p_dy rate) _ r₇ λ dy h₈ r₈. ground (
                    arith,
                    checked_sub-ok p_j p_y h₁,
                    checked_sub-ok p_gap 1 h₂,
                    trade_fee-le fees proportional p_dy1 h₃,
                    admin_trade_fee-le fees proportional p_fee h₄,
                    checked_div-ok p_fee rate h₅,
                    checked_div-ok p_admin rate h₆,
                    checked_sub-ok p_dy1 p_fee h₇,
                    checked_div-ok p_dy rate h₈,
                    payout_shares p_dy1 p_fee p_admin rate,
                  )

-- The coins that an exchange names in its report are those of the call, and its balances are the
-- old ones with what came in and without what goes out.
exchange_result_accounts :
    (i j dx b_i b_j : ℕ) (balances : List ℕ) (o : Payout) {r : SwapResult}
    → exchange_result i j dx balances o ≡ ok r
    → i ≢ j
    → get_elem? balances i ≡ some b_i
    → get_elem? balances j ≡ some b_j
    → (r.amount_a ≡ dx)
      × (r.amount_b ≡ o.dy)
      × (r.total_fee ≡ o.dy_fee)
      × (r.admin_fee ≡ o.admin_fee)
      × (r.new_pool_a ≡ b_i + dx)
      × (r.new_pool_b + o.dy + o.admin_fee ≡ b_j)
unfolding exchange_result
exchange_result_accounts i j dx b_i b_j balances o done ne hi hj =
    >>=-elim (index balances i) _ done λ x h₁ r₁.
      >>=-elim (checked_add u128 x dx) _ r₁ λ new_i h₂ r₂.
        >>=-elim (index balances j) _ r₂ λ y h₃ r₃. >>=-elim (checked_sub y o.dy) _ r₃ λ less h₄ r₄.
          >>=-elim (checked_sub less o.admin_fee) _ r₄ λ new_j h₅ r₅.
            >>=-elim (index (set (set balances i new_i) j new_j) i) _ r₅ λ pa h₆ r₆.
              >>=-elim (index (set (set balances i new_i) j new_j) j) _ r₆ λ pb h₇ r₇. ground (
                arith,
                index-ok balances i h₁,
                checked_add-ok u128 x dx h₂,
                index-ok balances j h₃,
                checked_sub-ok y o.dy h₄,
                checked_sub-ok less o.admin_fee h₅,
                index-ok _ i h₆,
                index-ok _ j h₇,
                get_elem?-set_ne (set balances i new_i) j i new_j (λ e. ne (sym e)),
                get_elem?-set_self balances i new_i b_i hi,
                get_elem?-set_ne balances i j new_i ne,
                get_elem?-set_self (set balances i new_i) j new_j b_j,
              )

-- An exchange that succeeds, under a schedule of proportions and for two coins that have
-- balances, names two different coins. The balance of the first grows by all that comes in. The
-- balance of the second is split into the new one, the amount paid and the owner's fee. The owner's
-- fee is part of the whole fee, and the amount paid and the whole fee together are less than the
-- balance: the pool is never drained.
pub exchange_accounts :
    (s : StableSwap) (i j dx b_i b_j : ℕ) (balances : List ℕ) (fees : Fees) {r : SwapResult}
    → exchange s i j dx balances fees ≡ ok r
    → IsProportional fees
    → get_elem? balances i ≡ some b_i
    → get_elem? balances j ≡ some b_j
    → (i ≢ j)
      × (r.amount_a ≡ dx)
      × (r.new_pool_a ≡ b_i + dx)
      × (r.new_pool_b + r.amount_b + r.admin_fee ≡ b_j)
      × (r.admin_fee ≤ r.total_fee)
      × (r.amount_b + r.total_fee < b_j)
unfolding exchange
exchange_accounts s i j dx b_i b_j balances fees {r} done proportional hi hj =
    >>=-elim (p_balances_convert s balances) _ done λ ps h₁ r₁.
      >>=-elim (index ps i) _ r₁ λ p_i h₂ r₂. >>=-elim (index s.rates i) _ r₂ λ rate_i h₃ r₃.
        >>=-elim (checked_mul u128 dx rate_i) _ r₃ λ p_dx h₄ r₄.
          >>=-elim (checked_add u128 p_i p_dx) _ r₄ λ p_x h₅ r₅.
            >>=-elim (get_y s i j p_x ps) _ r₅ λ p_y h₆ r₆. >>=-elim (index ps j) _ r₆ λ p_j h₇ r₇.
              >>=-elim (index s.rates j) _ r₇ λ rate h₈ r₈.
                >>=-elim (exchange_payout fees p_j p_y rate) _ r₈ λ o h₉ r₉.
                  let ne : i ≢ j = get_y-ne s i j p_x ps h₆ in
                  let acc = exchange_result_accounts i j dx b_i b_j balances o r₉ ne hi hj in
                  let bounds = payout_bounds fees proportional p_j p_y rate h₉ in
                  let conv : p_j ≡ b_j * rate =
                    p_balances_convert_get s balances ps j h₁ (index-ok ps j h₇) hj
                      (index-ok s.rates j h₈) in
                  (
                    ne,
                    acc.0,
                    acc.4,
                    omega arith,
                    omega arith,
                    omega (arith, Arith.lt_of_mul-lt-mul (o.dy + o.dy_fee) b_j rate (omega arith)),
                  )
