-- ===== src/Exchange/Curve/Deposit/Shares.antt =====
-- What a deposit reports, and what it does to the shares.
use snails_contracts.Common.{
  ℕ, ◌+◌, ◌*◌, ◌<◌, ◌≤◌, ◌≡◌, List, [], ◌∷◌, Bool, true, false, refl, ok, arith, >>=-elim, guard,
  checked_add, ok-injective, ltb, ◌==◌, if◌then◌else◌, length, u128, Fault, guard-eq-ok, narrow,
  lt→ltb,
}
use snails_contracts.Exchange.Fees.{Fees}
use snails_contracts.Exchange.Curve.Ramp.{StableSwap}
use snails_contracts.Exchange.Curve.Status.{PoolStatus}
use snails_contracts.Exchange.Curve.Ledger.{Gathers, Nets, All}
use snails_contracts.Exchange.Curve.Deposit.{
  d_of, add_deposits, first_deposit, later_deposit, add_liquidity,
}
use snails_contracts.Exchange.Curve.Deposit.Accounting.{
  Sums, add_deposits-Sums, zeros-Gathers, later_deposit-Gathers, later_deposit_shares,
}

first_deposit_report :
    (s : StableSwap) (deposits new_balances : List ℕ) (d_1 : ℕ) {st : PoolStatus}
    → first_deposit s deposits new_balances d_1 ≡ ok st
    → (st.pool_lp_token_changed ≡ d_1) × (st.new_balances ≡ new_balances)
unfolding first_deposit narrow
first_deposit_report s deposits new_balances d_1 h = ground arith

first_deposit-Gathers :
    (s : StableSwap) (balances deposits new_balances : List ℕ) (d_1 : ℕ) {st : PoolStatus}
    → first_deposit s deposits new_balances d_1 ≡ ok st
    → Sums balances deposits new_balances
    → length balances ≤ s.coin_num
    → Gathers balances st.new_balances deposits st.admin_fee_amount
unfolding first_deposit
first_deposit-Gathers s balances deposits new_balances d_1 h sums room =
    >>=-elim (narrow u128 d_1) _ h λ m h₁ r₁.
      rw (← ok-injective r₁) (zeros-Gathers balances deposits new_balances s.coin_num sums room)

-- The assertion that a first deposit has every coin.
add_deposits-All :
    (supply : ℕ) (balances deposits : List ℕ) {ns : List ℕ}
    → add_deposits supply balances deposits ≡ ok ns
    → supply ≡ 0
    → length deposits ≤ length balances
    → All (λ a. 0 < a) deposits
unfolding add_deposits
add_deposits-All supply balances [] h e room = tt
add_deposits-All supply [] (a ∷ deposits) h e room = absurd (omega arith)
add_deposits-All supply (b ∷ balances) (a ∷ deposits) h e room =
    >>=-elim (guard (if supply == 0 then ltb 0 a else true) Fault.assertion) _ h λ _ h₁ r₁.
      >>=-elim (checked_add u128 b a) _ r₁ λ n h₂ r₂.
        >>=-elim (add_deposits supply balances deposits) _ r₂ λ rest h₃ r₃. (
          ground (arith, guard-eq-ok _ _ h₁),
          add_deposits-All supply balances deposits h₃ e (omega arith),
        )

-- A deposit that succeeds into a pool that has no more balances than coins: for each coin the
-- new balance and the owner's fee are the old balance and the amount paid in.
pub add_liquidity_accounts :
    (s : StableSwap) (deposits balances : List ℕ) (supply : ℕ) (fees : Fees) {st : PoolStatus}
    → add_liquidity s deposits balances supply fees ≡ ok st
    → length balances ≤ s.coin_num
    → Gathers balances st.new_balances deposits st.admin_fee_amount
unfolding add_liquidity
add_liquidity_accounts s deposits balances supply fees {st} h room =
    >>=-elim (if ltb 0 supply then d_of s balances else ok 0) _ h λ d_0 h₁ r₁.
      >>=-elim (add_deposits supply balances deposits) _ r₁ λ ns h₂ r₂.
        >>=-elim (d_of s ns) _ r₂ λ d_1 h₃ r₃.
          >>=-elim (guard (ltb d_0 d_1) Fault.assertion) _ r₃ λ _ h₄ r₄.
            branch d_0 d_1 ns (ltb 0 supply) (add_deposits-Sums supply balances deposits h₂) r₄
  where
    branch :
        (d_0 d_1 : ℕ) (ns : List ℕ) (b : Bool)
        → Sums balances deposits ns
        → (if b
            then later_deposit s fees supply deposits balances ns d_0 d_1
            else first_deposit s deposits ns d_1)
          ≡ ok st
        → Gathers balances st.new_balances deposits st.admin_fee_amount
    branch d_0 d_1 ns true sums r =
        later_deposit-Gathers s fees supply d_0 d_1 deposits balances ns r sums
    branch d_0 d_1 ns false sums r = first_deposit-Gathers s balances deposits ns d_1 r sums room

-- A deposit that succeeds into a pool with shares does not dilute them. The invariant `d_2` of the
-- new balances less all fees is at least the invariant `d_0` of the old ones, and the supply with
-- the minted shares is to the old supply at most as `d_2` is to `d_0`.
pub add_liquidity_no_dilution :
    (s : StableSwap) (deposits balances : List ℕ) (supply : ℕ) (fees : Fees) {st : PoolStatus}
    → add_liquidity s deposits balances supply fees ≡ ok st
    → 0 < supply
    → (d_0 : ℕ) × (nets : List ℕ) × (d_2 : ℕ) × (d_of s balances ≡ ok d_0)
      × (d_of s nets ≡ ok d_2)
      × Nets nets st.new_balances st.total_fee_amount st.admin_fee_amount
      × (d_0 ≤ d_2)
      × (st.pool_lp_token_changed * d_0 + supply * d_0 ≤ supply * d_2)
unfolding add_liquidity
add_liquidity_no_dilution s deposits balances supply fees {st} h pos =
    let b : ltb 0 supply ≡ true = lt→ltb 0 supply pos in
    >>=-elim (if ltb 0 supply then d_of s balances else ok 0) _ h λ d_0 h₁ r₁.
      >>=-elim (add_deposits supply balances deposits) _ r₁ λ ns h₂ r₂.
        >>=-elim (d_of s ns) _ r₂ λ d_1 h₃ r₃.
          >>=-elim (guard (ltb d_0 d_1) Fault.assertion) _ r₃ λ _ h₄ r₄.
            let (nets, d_2, p₁, p₂, p₃, p₄) =
              later_deposit_shares s fees supply d_0 d_1 deposits balances ns (rw b at r₄) in
            (d_0, nets, d_2, rw b at h₁, p₁, p₂, p₃, p₄)

-- The first deposit that succeeds has a positive amount of every coin, and mints as many shares
-- as the invariant of the new balances.
pub add_liquidity_first :
    (s : StableSwap) (deposits balances : List ℕ) (fees : Fees) {st : PoolStatus}
    → add_liquidity s deposits balances 0 fees ≡ ok st
    → length deposits ≤ length balances
    → All (λ a. 0 < a) deposits
      × (0 < st.pool_lp_token_changed)
      × (d_of s st.new_balances ≡ ok st.pool_lp_token_changed)
unfolding add_liquidity
add_liquidity_first s deposits balances fees {st} h room =
    >>=-elim (add_deposits 0 balances deposits) _ h λ ns h₂ r₂.
      >>=-elim (d_of s ns) _ r₂ λ d_1 h₃ r₃.
        >>=-elim (guard (ltb 0 d_1) Fault.assertion) _ r₃ λ _ h₄ r₄.
          let report = first_deposit_report s deposits ns d_1 r₄ in
          (
            add_deposits-All 0 balances deposits h₂ refl room,
            ground (arith, guard-eq-ok (ltb 0 d_1) Fault.assertion h₄, report),
            rw (report.0, report.1) h₃,
          )
