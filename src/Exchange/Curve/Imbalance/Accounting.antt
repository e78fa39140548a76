-- ===== src/Exchange/Curve/Imbalance/Accounting.antt =====
-- A withdrawal of chosen amounts accounts for every unit of every coin, and burns more than the
-- part of the supply by which the invariant fell.
use snails_contracts.Common.{
  ℕ, ◌+◌, ◌-◌, ◌*◌, ◌/◌, ◌<◌, ◌≤◌, ◌≡◌, List, [], ◌∷◌, map, ap, u128, u576, narrow-ok,
  checked_div-ok, checked_mul-ok, checked_add-ok, ok, arith, >>=-elim, ok-injective, checked_add,
  checked_sub, checked_sub-ok, checked_mul, checked_div, narrow,
}
use snails_contracts.Common.Arith
use snails_contracts.Exchange.Fees.{Fees}
use snails_contracts.Exchange.Curve.Ramp.{StableSwap}
use snails_contracts.Exchange.Curve.Ledger.{Splits, Nets}
use snails_contracts.Exchange.Curve.Imbalance.{
  take_amounts, CoinImbalance, imbalance_coin, imbalance_coins, drain_coin, drain_coins,
  burn_amount,
}

imbalance_coin_accounts :
    (s : StableSwap) (fees : Fees) (d_0 d_1 slots a b n : ℕ) {c : CoinImbalance}
    → imbalance_coin s fees d_0 d_1 slots a b n ≡ ok c
    → (c.removed ≡ a) × (c.balance + c.admin_fee ≡ n) × (c.balance_d + c.total_fee ≡ n)
unfolding imbalance_coin checked_sub
imbalance_coin_accounts s fees d_0 d_1 slots a b n h = ground arith

drain_coin_accounts :
    (c : CoinImbalance) {c' : CoinImbalance}
    → drain_coin c ≡ ok c'
    → (c'.balance + c'.removed ≡ c.balance + c.removed)
      × (c'.admin_fee ≡ c.admin_fee)
      × (c'.balance + c.total_fee ≡ c.balance + c.admin_fee)
      × (c'.total_fee ≡ c.admin_fee)
unfolding drain_coin checked_sub checked_add
drain_coin_accounts c h = ground arith

-- The balances of the first loop.
abbrev pub Differences : List ℕ → List ℕ → List ℕ → Type 0
Differences [] _ [] = Unit {0}
Differences (b ∷ balances) (a ∷ amounts) (n ∷ new_balances) =
    (n + a ≡ b) × Differences balances amounts new_balances
Differences _ _ _ = ⊥

pub take_amounts-Differences :
    (balances amounts : List ℕ) {ns : List ℕ}
    → take_amounts balances amounts ≡ ok ns
    → Differences balances amounts ns
unfolding take_amounts
take_amounts-Differences [] amounts h = rw (← ok-injective h) tt
take_amounts-Differences (b ∷ balances) [] h = cc
take_amounts-Differences (b ∷ balances) (a ∷ amounts) h = >>=-elim (checked_sub b a) _ h λ n h₁ r₁.
    >>=-elim (take_amounts balances amounts) _ r₁ λ rest h₂ r₂.
      rw (← ok-injective r₂) (checked_sub-ok b a h₁, take_amounts-Differences balances amounts h₂)

-- What the coins say of the old balances, and of the balances of the last invariant.
abbrev pub Accounts : List ℕ → List ℕ → List CoinImbalance → Type 0
Accounts balances nets cs =
    Splits balances (map (λ c. c.balance) cs) (map (λ c. c.removed) cs) (map (λ c. c.admin_fee) cs)
    × Nets nets (map (λ c. c.balance) cs) (map (λ c. c.total_fee) cs) (map (λ c. c.admin_fee) cs)

pub imbalance_coins-Accounts :
    (s : StableSwap) (fees : Fees) (d_0 d_1 slots : ℕ) (amounts balances ns : List ℕ)
    {cs : List CoinImbalance}
    → Differences balances amounts ns
    → imbalance_coins s fees d_0 d_1 slots amounts balances ns ≡ ok cs
    → Accounts balances (map (λ c. c.balance_d) cs) cs
unfolding imbalance_coins
imbalance_coins-Accounts s fees d_0 d_1 slots (a ∷ amounts) (b ∷ balances) (n ∷ ns) diff h =
    >>=-elim (imbalance_coin s fees d_0 d_1 slots a b n) _ h λ c h₁ r₁.
      >>=-elim (imbalance_coins s fees d_0 d_1 (slots - 1) amounts balances ns) _ r₁ λ rest h₂ r₂.
        let coin = imbalance_coin_accounts s fees d_0 d_1 slots a b n h₁ in
        let ih =
          imbalance_coins-Accounts s fees d_0 d_1 (slots - 1) amounts balances ns diff.1 h₂ in
        rw (← ok-injective r₂) ((omega (arith, diff.0, coin), ih.0), (omega (arith, coin), ih.1))
imbalance_coins-Accounts s fees d_0 d_1 slots amounts [] [] diff h = rw (← ok-injective h) (tt, tt)
imbalance_coins-Accounts s fees d_0 d_1 slots _ _ _ diff h = absurd diff

pub drain_coins-Accounts :
    (balances nets : List ℕ) (cs : List CoinImbalance) {cs' : List CoinImbalance}
    → Accounts balances nets cs
    → drain_coins cs ≡ ok cs'
    → Accounts balances nets cs'
unfolding drain_coins
drain_coins-Accounts balances nets [] acc h = rw (← ok-injective h) acc
drain_coins-Accounts (b ∷ balances) (d ∷ nets) (c ∷ cs) acc h =
    >>=-elim (drain_coin c) _ h λ c' h₁ r₁. >>=-elim (drain_coins cs) _ r₁ λ rest h₂ r₂.
      let coin = drain_coin_accounts c h₁ in
      let ih = drain_coins-Accounts balances nets cs (acc.0.1, acc.1.1) h₂ in
      rw (← ok-injective r₂)
        ((omega (arith, coin, acc.0.0), ih.0), (omega (arith, coin, acc.1.0), ih.1))
drain_coins-Accounts [] nets (c ∷ cs) acc h = absurd acc.0
drain_coins-Accounts (b ∷ balances) [] (c ∷ cs) acc h = absurd acc.1

-- More shares are burnt than the part of the supply by which the invariant fell.
pub burn_amount_lem :
    (supply d_0 d_2 : ℕ) {m : ℕ}
    → burn_amount supply d_0 d_2 ≡ ok m
    → (d_2 ≤ d_0) × (supply * d_0 < m * d_0 + supply * d_2)
unfolding burn_amount
burn_amount_lem supply d_0 d_2 {m} h = >>=-elim (checked_sub d_0 d_2) _ h λ shrink h₁ r₁.
    >>=-elim (checked_mul u576 shrink supply) _ r₁ λ product h₂ r₂.
      >>=-elim (checked_div product d_0) _ r₂ λ quotient h₃ r₃.
        >>=-elim (narrow u128 quotient) _ r₃ λ burnt h₄ r₄.
          let fell = checked_sub-ok d_0 d_2 h₁ in
          let up : m * d_0 ≡ product / d_0 * d_0 + d_0 = more supply d_0 m product h₃ h₄ r₄ in
          (
            omega arith,
            omega (
              arith,
              up,
              Arith.lt-div-mul-add product d_0 (checked_div-ok product d_0 h₃).1,
              checked_mul-ok u576 shrink supply h₂,
              ap (λ (x : ℕ). supply * x) fell,
            ),
          )
  where
    more :
        (supply d_0 m product : ℕ) {quotient burnt : ℕ}
        → checked_div product d_0 ≡ ok quotient
        → narrow u128 quotient ≡ ok burnt
        → checked_add u128 burnt 1 ≡ ok m
        → m * d_0 ≡ product / d_0 * d_0 + d_0
    more supply d_0 m product {quotient} {burnt} h₃ h₄ h₅ =
        let e : m ≡ product / d_0 + 1 = omega (
          arith,
          checked_div-ok product d_0 h₃,
          narrow-ok u128 quotient h₄,
          checked_add-ok u128 burnt 1 h₅,
        ) in
        omega (arith, ap (λ (x : ℕ). x * d_0) e)
