-- ===== src/Exchange/Curve/Imbalance/Shares.antt =====
-- What a withdrawal of chosen amounts reports, and what it does to the shares.
use snails_contracts.Common.{
  ℕ, ◌+◌, ◌*◌, ◌<◌, ◌≤◌, ◌≡◌, List, map, Bool, true, false, ok, arith, >>=-elim, guard,
  ok-injective, ltb, ◌==◌, if◌then◌else◌, Fault, guard-eq-ok,
}
use snails_contracts.Exchange.Fees.{Fees}
use snails_contracts.Exchange.Curve.Ramp.{StableSwap}
use snails_contracts.Exchange.Curve.Status.{PoolStatus, pad}
use snails_contracts.Exchange.Curve.Ledger.{Splits, Nets, Splits-append, Nets-append}
use snails_contracts.Exchange.Curve.Imbalance.{
  checked_d_of, take_amounts, CoinImbalance, imbalance_coins, drain_coins, burn_amount,
  remove_liquidity_imbalance,
}
use snails_contracts.Exchange.Curve.Imbalance.Accounting.{
  Accounts, take_amounts-Differences, imbalance_coins-Accounts, drain_coins-Accounts,
  burn_amount_lem,
}

final-Accounts :
    (balances nets : List ℕ) (cs final : List CoinImbalance) (all : Bool)
    → Accounts balances nets cs
    → (if all then drain_coins cs else ok cs) ≡ ok final
    → Accounts balances nets final
final-Accounts balances nets cs final true acc h = drain_coins-Accounts balances nets cs acc h
final-Accounts balances nets cs final false acc h = rw (← ok-injective h) acc

-- A withdrawal of chosen amounts that succeeds. For each coin the old balance is the new one, the
-- amount paid and the owner's fee. The invariant `d_2` of the new balances less the fees that stay
-- in the pool is not above the invariant `d_0` of the old balances. At least one share is burnt, and
-- the burnt shares are more than the part of the supply by which the invariant falls: the supply
-- times `d_0` is less than the burnt shares times `d_0` and the supply times `d_2` together.
pub remove_liquidity_imbalance_accounts :
    (s : StableSwap) (amounts balances : List ℕ) (supply : ℕ) (fees : Fees) {st : PoolStatus}
    → remove_liquidity_imbalance s amounts balances supply fees ≡ ok st
    → Splits balances st.new_balances st.recieved_amount st.admin_fee_amount
      × ((d_0 : ℕ) × (nets : List ℕ) × (d_2 : ℕ) × (checked_d_of s balances ≡ ok d_0)
          × (checked_d_of s nets ≡ ok d_2)
          × Nets nets st.new_balances st.total_fee_amount st.admin_fee_amount
          × (d_2 ≤ d_0)
          × (0 < st.pool_lp_token_changed)
          × (supply * d_0 < st.pool_lp_token_changed * d_0 + supply * d_2))
unfolding remove_liquidity_imbalance pad
remove_liquidity_imbalance_accounts s amounts balances supply fees {st} h =
    >>=-elim (checked_d_of s balances) _ h λ d_0 h₁ r₁.
      >>=-elim (take_amounts balances amounts) _ r₁ λ ns h₂ r₂.
        >>=-elim (checked_d_of s ns) _ r₂ λ d_1 h₃ r₃.
          >>=-elim (imbalance_coins s fees d_0 d_1 s.coin_num amounts balances ns) _ r₃ λ cs h₄ r₄.
            >>=-elim (checked_d_of s (map (λ c. c.balance_d) cs)) _ r₄ λ d_2 h₅ r₅.
              >>=-elim (burn_amount supply d_0 d_2) _ r₅ λ m h₆ r₆.
                >>=-elim (guard (ltb 0 m) Fault.assertion) _ r₆ λ _ h₇ r₇.
                  >>=-elim (if d_2 == 0 then drain_coins cs else ok cs) _ r₇ λ final h₈ r₈.
                    let nets = map (λ (c : CoinImbalance). c.balance_d) cs in
                    let diff = take_amounts-Differences balances amounts h₂ in
                    let acc =
                      final-Accounts balances nets cs final (d_2 == 0)
                        (imbalance_coins-Accounts s fees d_0 d_1 s.coin_num amounts balances ns diff
                          h₄)
                        h₈ in
                    let burnt = burn_amount_lem supply d_0 d_2 h₆ in
                    rw (← ok-injective r₈) (
                      Splits-append _ _ _ _ _ _ acc.0,
                      (
                        d_0,
                        nets,
                        d_2,
                        h₁,
                        h₅,
                        Nets-append _ _ _ _ _ _ acc.1,
                        burnt.0,
                        ground (arith, guard-eq-ok (ltb 0 m) Fault.assertion h₇),
                        burnt.1,
                      ),
                    )
