-- ===== src/Exchange/Curve/OneCoin/Accounting.antt =====
-- A withdrawal of one coin pays no more than the coin's balance, fees included, and leaves the
-- other coins alone.
use snails_contracts.Common.{
  ℕ, replicate, set, ◌+◌, ◌*◌, ◌/◌, ◌<◌, ◌≤◌, ◌≡◌, ◌≢◌, List, some, ok, arith, >>=-elim, guard,
  guard-eq-ok, ok-injective, leb, Fault, index, index-ok, get_elem?, checked_add, checked_sub,
  checked_div, narrow, checked_add-ok, checked_sub-ok, checked_div-ok, narrow-ok, u128, u192,
  get_elem?-set_self, get_elem?-set_ne, get_elem?-replicate, refl,
}
use snails_contracts.Common.Arith
use snails_contracts.Exchange.Fees.{Fees}
use snails_contracts.Exchange.Curve.Ramp.{StableSwap, p_balances_convert}
use snails_contracts.Exchange.Curve.Ramp.Bounds.{p_balances_convert_get}
use snails_contracts.Exchange.Curve.Invariant.{get_d}
use snails_contracts.Exchange.Curve.Swap.{get_y_d, get_y_d_raw}
use snails_contracts.Exchange.Curve.Status.{PoolStatus}
use snails_contracts.Exchange.Curve.OneCoin.{
  OneCoinResult, OneCoinFees, one_coin_fees, reduced_d, one_coin_trade, one_coin_payout,
  remove_liquidity_one_coin,
}

-- Three quotients of parts of a product.
three_shares :
    (b rate x y z : ℕ) → 0 < rate → x + y + z ≤ b * rate → x / rate + y / rate + z / rate ≤ b
three_shares b rate x y z pos h = omega (
  arith,
  Arith.div-add-le x y rate pos,
  Arith.div-add-le (x + y) z rate pos,
  Arith.div_mono (x + y + z) (b * rate) rate pos h,
  Arith.mul-div_cancel b rate pos,
)

-- The owner's fee is part of the whole fee.
one_coin_fees-le :
    (fees : Fees) (p_dy p_trade_fee : ℕ) {f : OneCoinFees}
    → one_coin_fees fees p_dy p_trade_fee ≡ ok f
    → f.p_admin_fee ≤ f.p_total_fee
unfolding one_coin_fees checked_add
one_coin_fees-le fees p_dy p_trade_fee h = ground arith

-- The coin's new balance, the amount paid and the owner's fee are at most the old balance.
payout_le_balance :
    (b rate p_dy : ℕ) (f : OneCoinFees) {c : OneCoinResult}
    → one_coin_payout (b * rate) rate p_dy f ≡ ok c
    → f.p_admin_fee ≤ f.p_total_fee
    → (c.balance + c.recieved + c.admin_fee ≤ b) × (c.admin_fee ≤ c.total_fee)
unfolding one_coin_payout
payout_le_balance b rate p_dy f h fee_le = >>=-elim (checked_div f.p_total_fee rate) _ h λ t h₁ r₁.
    >>=-elim (checked_div f.p_admin_fee rate) _ r₁ λ a h₂ r₂.
      >>=-elim (checked_sub p_dy f.p_withdraw_fee) _ r₂ λ p_r h₃ r₃.
        >>=-elim (checked_div p_r rate) _ r₃ λ r h₄ r₄.
          >>=-elim (checked_add u192 (b * rate) f.p_withdraw_fee) _ r₄ λ grown h₅ r₅.
            >>=-elim (checked_sub grown p_dy) _ r₅ λ less h₆ r₆.
              >>=-elim (checked_sub less f.p_admin_fee) _ r₆ λ p_n h₇ r₇.
                >>=-elim (narrow u128 p_n) _ r₇ λ p_new h₈ r₈.
                  >>=-elim (checked_div p_new rate) _ r₈ λ n h₉ r₉. ground (
                    arith,
                    checked_div-ok f.p_total_fee rate h₁,
                    checked_div-ok f.p_admin_fee rate h₂,
                    checked_sub-ok p_dy f.p_withdraw_fee h₃,
                    checked_div-ok p_r rate h₄,
                    checked_add-ok u192 (b * rate) f.p_withdraw_fee h₅,
                    checked_sub-ok grown p_dy h₆,
                    checked_sub-ok less f.p_admin_fee h₇,
                    narrow-ok u128 p_n h₈,
                    checked_div-ok p_new rate h₉,
                    Arith.div_mono f.p_admin_fee f.p_total_fee rate,
                    three_shares b rate p_new p_r f.p_admin_fee,
                  )

-- The coin is one of the pool.
get_y_d-lt :
    (s : StableSwap) (i d : ℕ) (ps : List ℕ) {y : ℕ} → get_y_d s i ps d ≡ ok y → i < s.coin_num
unfolding get_y_d get_y_d_raw
get_y_d-lt s i d ps h = ground arith

one_coin_trade-lt :
    (s : StableSwap) (fees : Fees) (i d_0 d_1 : ℕ) (ps : List ℕ) {t : ℕ × ℕ}
    → one_coin_trade s fees i ps d_0 d_1 ≡ ok t
    → i < s.coin_num
unfolding one_coin_trade
one_coin_trade-lt s fees i d_0 d_1 ps h =
    >>=-elim (get_y_d s i ps d_1) _ h λ y h₁ r₁. get_y_d-lt s i d_1 ps h₁

-- A withdrawal of one coin that succeeds burns the shares that were asked for, no more than there
-- are. The coin's new balance, the amount paid and the owner's fee are at most the old balance,
-- and the balances of the other coins stay.
pub remove_liquidity_one_coin_accounts :
    (s : StableSwap) (i lp supply b : ℕ) (balances : List ℕ) (fees : Fees) {st : PoolStatus}
    → remove_liquidity_one_coin s i lp balances supply fees ≡ ok st
    → get_elem? balances i ≡ some b
    → (n r a : ℕ) × (lp ≤ supply)
      × (st.pool_lp_token_changed ≡ lp)
      × (get_elem? st.new_balances i ≡ some n)
      × (get_elem? st.recieved_amount i ≡ some r)
      × (get_elem? st.admin_fee_amount i ≡ some a)
      × (n + r + a ≤ b)
      × ((k : ℕ) → i ≢ k → get_elem? st.new_balances k ≡ get_elem? balances k)
unfolding remove_liquidity_one_coin
remove_liquidity_one_coin_accounts s i lp supply b balances fees {st} done hb =
    >>=-elim (guard (leb lp supply) Fault.lp_exceeds_total) _ done λ _ h₀ r₀.
      >>=-elim (p_balances_convert s balances) _ r₀ λ ps h₁ r₁.
        >>=-elim (get_d s ps) _ r₁ λ d_0 h₂ r₂. >>=-elim (reduced_d lp supply d_0) _ r₂ λ d_1 h₃ r₃.
          >>=-elim (one_coin_trade s fees i ps d_0 d_1) _ r₃ λ trade h₄ r₄.
            >>=-elim (index ps i) _ r₄ λ p_i h₅ r₅. >>=-elim (index s.rates i) _ r₅ λ rate h₆ r₆.
              >>=-elim (one_coin_fees fees trade.0 trade.1) _ r₆ λ f h₇ r₇.
                >>=-elim (one_coin_payout p_i rate trade.0 f) _ r₇ λ c h₈ r₈.
                  let conv : p_i ≡ b * rate =
                    p_balances_convert_get s balances ps i h₁ (index-ok ps i h₅) hb
                      (index-ok s.rates i h₆) in
                  let bounds =
                    payout_le_balance b rate trade.0 f (rw conv at h₈)
                      (one_coin_fees-le fees trade.0 trade.1 h₇) in
                  let zero_i : get_elem? (replicate s.coin_num 0) i ≡ some 0 =
                    get_elem?-replicate s.coin_num i 0 (one_coin_trade-lt s fees i d_0 d_1 ps h₄) in
                  rw (← ok-injective r₈) (
                    c.balance,
                    c.recieved,
                    c.admin_fee,
                    ground (arith, guard-eq-ok (leb lp supply) Fault.lp_exceeds_total h₀),
                    refl,
                    get_elem?-set_self balances i c.balance b hb,
                    get_elem?-set_self _ i c.recieved 0 zero_i,
                    get_elem?-set_self _ i c.admin_fee 0 zero_i,
                    bounds.0,
                    λ k ne. get_elem?-set_ne balances i k c.balance ne,
                  )

-- The vectors of the report change the one coin only.
pub remove_liquidity_one_coin_lists :
    (s : StableSwap) (i lp supply : ℕ) (balances : List ℕ) (fees : Fees) {st : PoolStatus}
    → remove_liquidity_one_coin s i lp balances supply fees ≡ ok st
    → (n r a : ℕ) × (i < s.coin_num)
      × (st.new_balances ≡ set balances i n)
      × (st.recieved_amount ≡ set (replicate s.coin_num 0) i r)
      × (st.admin_fee_amount ≡ set (replicate s.coin_num 0) i a)
unfolding remove_liquidity_one_coin
remove_liquidity_one_coin_lists s i lp supply balances fees done =
    >>=-elim (guard (leb lp supply) Fault.lp_exceeds_total) _ done λ _ h₀ r₀.
      >>=-elim (p_balances_convert s balances) _ r₀ λ ps h₁ r₁.
        >>=-elim (get_d s ps) _ r₁ λ d_0 h₂ r₂. >>=-elim (reduced_d lp supply d_0) _ r₂ λ d_1 h₃ r₃.
          >>=-elim (one_coin_trade s fees i ps d_0 d_1) _ r₃ λ trade h₄ r₄.
            >>=-elim (index ps i) _ r₄ λ p_i h₅ r₅. >>=-elim (index s.rates i) _ r₅ λ rate h₆ r₆.
              >>=-elim (one_coin_fees fees trade.0 trade.1) _ r₆ λ f h₇ r₇.
                >>=-elim (one_coin_payout p_i rate trade.0 f) _ r₇ λ c h₈ r₈.
                  rw (← ok-injective r₈) (
                    c.balance,
                    c.recieved,
                    c.admin_fee,
                    one_coin_trade-lt s fees i d_0 d_1 ps h₄,
                    refl,
                    refl,
                    refl,
                  )
