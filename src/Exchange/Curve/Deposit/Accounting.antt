-- ===== src/Exchange/Curve/Deposit/Accounting.antt =====
-- A deposit accounts for every unit of every coin, and mints no more than its part of the growth.
use snails_contracts.Common.{
  ℕ, ◌+◌, ◌-◌, ◌*◌, ◌≤◌, ◌≡◌, List, [], ◌∷◌, ◌++◌, map, true, ok, arith, >>=-elim, guard,
  ok-injective, checked_add, checked_add-ok, zero, suc, checked_sub, checked_mul, checked_div,
  narrow, ltb, ◌==◌, if◌then◌else◌, length, replicate, u128, Fault,
}
use snails_contracts.Common.Arith
use snails_contracts.Exchange.Fees.{Fees}
use snails_contracts.Exchange.Curve.Ramp.{StableSwap}
use snails_contracts.Exchange.Curve.Status.{PoolStatus, pad}
use snails_contracts.Exchange.Curve.Ledger.{Gathers, Nets}
use snails_contracts.Exchange.Curve.Deposit.{
  d_of, add_deposits, CoinDeposit, deposit_coin, deposit_coins, mint_amount, later_deposit,
}

-- One coin: the owner's fee is taken from the new balance, and the balance that the invariant is
-- computed with lacks the whole fee.
deposit_coin_accounts :
    (s : StableSwap) (fees : Fees) (d_0 d_1 slots b b' : ℕ) {c : CoinDeposit}
    → deposit_coin s fees d_0 d_1 slots b b' ≡ ok c
    → (c.balance + c.admin_fee ≡ b') × (c.balance_d + c.total_fee ≡ b')
unfolding deposit_coin checked_add checked_sub
deposit_coin_accounts s fees d_0 d_1 slots b b' h = ground arith

-- The new balances of the first loop.
abbrev pub Sums : List ℕ → List ℕ → List ℕ → Type 0
Sums [] _ [] = Unit {0}
Sums (b ∷ balances) (a ∷ deposits) (n ∷ new_balances) =
    (n ≡ b + a) × Sums balances deposits new_balances
Sums _ _ _ = ⊥

pub add_deposits-Sums :
    (supply : ℕ) (balances deposits : List ℕ) {ns : List ℕ}
    → add_deposits supply balances deposits ≡ ok ns
    → Sums balances deposits ns
unfolding add_deposits
add_deposits-Sums supply [] deposits h = rw (← ok-injective h) tt
add_deposits-Sums supply (b ∷ balances) [] h = cc
add_deposits-Sums supply (b ∷ balances) (a ∷ deposits) h =
    >>=-elim (guard (if supply == 0 then ltb 0 a else true) Fault.assertion) _ h λ _ h₁ r₁.
      >>=-elim (checked_add u128 b a) _ r₁ λ n h₂ r₂.
        >>=-elim (add_deposits supply balances deposits) _ r₂ λ rest h₃ r₃.
          rw (← ok-injective r₃)
            ((checked_add-ok u128 b a h₂).0, add_deposits-Sums supply balances deposits h₃)

deposit_coins-Gathers :
    (s : StableSwap) (fees : Fees) (d_0 d_1 slots : ℕ) (balances deposits new_balances t : List ℕ)
    {cs : List CoinDeposit}
    → Sums balances deposits new_balances
    → deposit_coins s fees d_0 d_1 slots balances new_balances ≡ ok cs
    → Gathers balances (map (λ c. c.balance) cs) deposits (map (λ c. c.admin_fee) cs ++ t)
unfolding deposit_coins
deposit_coins-Gathers s fees d_0 d_1 slots [] deposits [] t sums h = rw (← ok-injective h) tt
deposit_coins-Gathers s fees d_0 d_1 slots (b ∷ balances) (a ∷ deposits) (n ∷ new_balances) t sums
      h =
    >>=-elim (deposit_coin s fees d_0 d_1 slots b n) _ h λ c h₁ r₁.
      >>=-elim (deposit_coins s fees d_0 d_1 (slots - 1) balances new_balances) _ r₁ λ rest h₂ r₂.
        rw (← ok-injective r₂) (
          omega (arith, deposit_coin_accounts s fees d_0 d_1 slots b n h₁, sums.0),
          deposit_coins-Gathers s fees d_0 d_1 (slots - 1) balances deposits new_balances t sums.1
              h₂,
        )
deposit_coins-Gathers s fees d_0 d_1 slots _ _ _ t sums h = absurd sums

pub zeros-Gathers :
    (balances deposits new_balances : List ℕ) (n : ℕ)
    → Sums balances deposits new_balances
    → length balances ≤ n
    → Gathers balances new_balances deposits (replicate n 0)
zeros-Gathers [] deposits [] n sums h = tt
zeros-Gathers (b ∷ balances) (a ∷ deposits) (x ∷ new_balances) zero sums h = absurd (omega arith)
zeros-Gathers (b ∷ balances) (a ∷ deposits) (x ∷ new_balances) (suc n) sums h =
    (omega (arith, sums.0), zeros-Gathers balances deposits new_balances n sums.1 (omega arith))
zeros-Gathers [] deposits (x ∷ new_balances) n sums h = absurd sums
zeros-Gathers (b ∷ balances) [] new_balances n sums h = absurd sums
zeros-Gathers (b ∷ balances) (a ∷ deposits) [] n sums h = absurd sums

deposit_coins-Nets :
    (s : StableSwap) (fees : Fees) (d_0 d_1 slots : ℕ) (balances new_balances t u : List ℕ)
    {cs : List CoinDeposit}
    → deposit_coins s fees d_0 d_1 slots balances new_balances ≡ ok cs
    → Nets
        (map (λ c. c.balance_d) cs)
        (map (λ c. c.balance) cs)
        (map (λ c. c.total_fee) cs ++ t)
        (map (λ c. c.admin_fee) cs ++ u)
unfolding deposit_coins
deposit_coins-Nets s fees d_0 d_1 slots (b ∷ balances) (n ∷ new_balances) t u h =
    >>=-elim (deposit_coin s fees d_0 d_1 slots b n) _ h λ c h₁ r₁.
      >>=-elim (deposit_coins s fees d_0 d_1 (slots - 1) balances new_balances) _ r₁ λ rest h₂ r₂.
        rw (← ok-injective r₂) (
          omega (arith, deposit_coin_accounts s fees d_0 d_1 slots b n h₁),
          deposit_coins-Nets s fees d_0 d_1 (slots - 1) balances new_balances t u h₂,
        )
deposit_coins-Nets s fees d_0 d_1 slots _ _ t u h = rw (← ok-injective h) tt

-- The shares minted are at most the part of the supply by which the invariant grew.
mint_amount_lem :
    (supply d_0 d_2 : ℕ) {m : ℕ}
    → mint_amount supply d_0 d_2 ≡ ok m
    → (d_0 ≤ d_2) × (m * d_0 + supply * d_0 ≤ supply * d_2)
unfolding mint_amount checked_sub checked_mul checked_div narrow
mint_amount_lem supply d_0 d_2 h =
    ground (arith, Arith.div-mul-le (supply * (d_2 - d_0)) d_0, Arith.mul-sub supply d_2 d_0)

-- A deposit into a pool with shares.
module _ (s : StableSwap) (fees : Fees) (supply d_0 d_1 : ℕ)
    (deposits balances new_balances : List ℕ) {st : PoolStatus}
    (done : later_deposit s fees supply deposits balances new_balances d_0 d_1 ≡ ok st) where
  pub later_deposit-Gathers :
      Sums balances deposits new_balances
      → Gathers balances st.new_balances deposits st.admin_fee_amount
  unfolding later_deposit pad
  later_deposit-Gathers sums =
      >>=-elim (deposit_coins s fees d_0 d_1 s.coin_num balances new_balances) _ done λ cs h₁ r₁.
        >>=-elim (d_of s (map (λ c. c.balance_d) cs)) _ r₁ λ d_2 h₂ r₂.
          >>=-elim (mint_amount supply d_0 d_2) _ r₂ λ m h₃ r₃. rw (← ok-injective r₃) (
            deposit_coins-Gathers s fees d_0 d_1 s.coin_num balances deposits new_balances _ sums
              h₁)

  pub later_deposit_shares :
      (nets : List ℕ) × (d_2 : ℕ) × (d_of s nets ≡ ok d_2)
      × Nets nets st.new_balances st.total_fee_amount st.admin_fee_amount
      × (d_0 ≤ d_2)
      × (st.pool_lp_token_changed * d_0 + supply * d_0 ≤ supply * d_2)
  unfolding later_deposit pad
  later_deposit_shares =
      >>=-elim (deposit_coins s fees d_0 d_1 s.coin_num balances new_balances) _ done λ cs h₁ r₁.
        >>=-elim (d_of s (map (λ c. c.balance_d) cs)) _ r₁ λ d_2 h₂ r₂.
          >>=-elim (mint_amount supply d_0 d_2) _ r₂ λ m h₃ r₃. rw (← ok-injective r₃) (
            map (λ c. c.balance_d) cs,
            d_2,
            h₂,
            deposit_coins-Nets s fees d_0 d_1 s.coin_num balances new_balances _ _ h₁,
            (mint_amount_lem supply d_0 d_2 h₃).0,
            (mint_amount_lem supply d_0 d_2 h₃).1,
          )
