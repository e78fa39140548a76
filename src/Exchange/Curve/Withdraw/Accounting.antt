-- ===== src/Exchange/Curve/Withdraw/Accounting.antt =====
-- A proportional withdrawal accounts for every unit of every coin, and pays at most the
-- proportion of the shares.
use snails_contracts.Common.{
  ℕ, ◌+◌, ◌-◌, ◌*◌, ◌/◌, ◌<◌, ◌≤◌, ◌≡◌, List, [], ◌∷◌, ◌++◌, map, refl, ok, arith, >>=-eq-ok, guard,
  guard-eq-ok, ok-injective, checked_sub, checked_mul, checked_div, narrow, length, replicate, leb,
  not, ◌==◌, Fault,
}
use snails_contracts.Common.Arith
use snails_contracts.Exchange.Fees.{Fees}
use snails_contracts.Exchange.Curve.Ramp.{StableSwap}
use snails_contracts.Exchange.Curve.Status.{PoolStatus, pad}
use snails_contracts.Exchange.Curve.Ledger.{Splits, ProRata, All}
use snails_contracts.Exchange.Curve.Withdraw.{
  CoinWithdrawal, withdraw_coin, withdraw_coins, remove_liquidity,
}

module _ (fees : Fees) (lp supply slots balance : ℕ) {c : CoinWithdrawal}
    (done : withdraw_coin fees lp supply slots balance ≡ ok c) where
  withdraw_coin_splits : c.balance + c.recieved + c.admin_fee ≡ balance
  unfolding withdraw_coin checked_sub checked_mul checked_div narrow
  withdraw_coin_splits = ground arith

  withdraw_coin_share : c.recieved ≤ balance * lp / supply
  unfolding withdraw_coin checked_sub checked_mul checked_div narrow
  withdraw_coin_share = ground arith

  withdraw_coin_pro_rata : c.recieved * supply ≤ balance * lp
  withdraw_coin_pro_rata = omega (
    arith,
    Arith.div-mul-le (balance * lp) supply,
    Arith.mul-le-mul c.recieved supply (balance * lp / supply) supply withdraw_coin_share
        (omega arith),
  )

  withdraw_coin_all : lp ≡ supply → 0 < supply → c.balance ≡ 0
  unfolding withdraw_coin checked_sub checked_mul checked_div narrow
  withdraw_coin_all e pos = ground (arith, Arith.mul-div_cancel balance supply pos)

withdraw_coins-Splits :
    (fees : Fees) (lp supply slots : ℕ) (balances t u : List ℕ) {cs : List CoinWithdrawal}
    → withdraw_coins fees lp supply slots balances ≡ ok cs
    → Splits balances
        (map (λ c. c.balance) cs)
        (map (λ c. c.recieved) cs ++ t)
        (map (λ c. c.admin_fee) cs ++ u)
      × ProRata lp supply balances (map (λ c. c.recieved) cs ++ t)
      × (lp ≡ supply → 0 < supply → All (λ n. n ≡ 0) (map (λ c. c.balance) cs))
unfolding withdraw_coins
withdraw_coins-Splits fees lp supply slots [] t u h = rw (← ok-injective h) (tt, tt, λ e p. tt)
withdraw_coins-Splits fees lp supply slots (b ∷ balances) t u h =
    let (c, h₁, rest) = >>=-eq-ok (withdraw_coin fees lp supply slots b) _ h in
    let (cs', h₂, h₃) = >>=-eq-ok (withdraw_coins fees lp supply (slots - 1) balances) _ rest in
    let ih = withdraw_coins-Splits fees lp supply (slots - 1) balances t u h₂ in
    rw (← ok-injective h₃) (
      (withdraw_coin_splits fees lp supply slots b h₁, ih.0),
      (withdraw_coin_pro_rata fees lp supply slots b h₁, ih.1),
      λ e p. (withdraw_coin_all fees lp supply slots b h₁ e p, ih.2 e p),
    )

-- A withdrawal that succeeds reports the shares that were asked for, no more than there are. For
-- each coin the old balance is the new one, the amount paid and the owner's fee; the amount paid
-- is at most the proportion of the shares; and if all shares are withdrawn, no coin is left.
pub remove_liquidity_accounts :
    (s : StableSwap) (lp supply : ℕ) (balances : List ℕ) (fees : Fees) {st : PoolStatus}
    → remove_liquidity s lp balances supply fees ≡ ok st
    → (st.pool_lp_token_changed ≡ lp)
      × (lp ≤ supply)
      × Splits balances st.new_balances st.recieved_amount st.admin_fee_amount
      × ProRata lp supply balances st.recieved_amount
      × (lp ≡ supply → All (λ n. n ≡ 0) st.new_balances)
unfolding remove_liquidity pad
remove_liquidity_accounts s lp supply balances fees {st} h =
    let (_, h₁, r₁) = >>=-eq-ok (guard (not (supply == 0)) Fault.assertion) _ h in
    let (_, h₂, r₂) = >>=-eq-ok (guard (leb lp supply) Fault.lp_exceeds_total) _ r₁ in
    let (cs, h₃, r₃) = >>=-eq-ok (withdraw_coins fees lp supply s.coin_num balances) _ r₂ in
    let pos : 0 < supply = ground (arith, guard-eq-ok (not (supply == 0)) Fault.assertion h₁) in
    let enough : lp ≤ supply =
      ground (arith, guard-eq-ok (leb lp supply) Fault.lp_exceeds_total h₂) in
    let n = s.coin_num in
    let lists =
      withdraw_coins-Splits fees lp supply n balances
        (replicate (n - length (map (λ c. c.recieved) cs)) 0)
        (replicate (n - length (map (λ c. c.admin_fee) cs)) 0) h₃ in
    rw (← ok-injective r₃) (refl, enough, lists.0, lists.1, λ e. lists.2 e pos)
