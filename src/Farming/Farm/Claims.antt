-- ===== src/Farming/Farm/Claims.antt =====
-- The claim of a farmer's reward from a farm, and the books of the farm.
use snails_contracts.Common.{
  ℕ, ◌≤◌, ◌≡◌, refl, inl, inr, Bool-cases, ok, arith, ltb, leb, >>=-elim, ok-injective, expect,
  expect-ok, checked_sub, checked_sub-ok, guard, Fault,
}
use snails_contracts.Farming.Farm.{
  SimpleFarm, plus, distribute, pay_farmer, claim_user_reward, reward_since,
}
use snails_contracts.Farming.Farm.Rounds.{plus-ok}
use snails_contracts.Farming.Farm.Conservation.{IsConserved, distribute-IsConserved}

pay_farmer-IsConserved :
    (f : SimpleFarm) (claimed : ℕ) {r : SimpleFarm × ℕ × ℕ}
    → pay_farmer f claimed ≡ ok r
    → IsConserved f
    → IsConserved r.0 × (claimed ≤ (f.last_distribution).unclaimed)
unfolding pay_farmer
pay_farmer-IsConserved f claimed h inv =
    let unclaimed = (f.last_distribution).unclaimed in
    >>=-elim (guard (leb claimed unclaimed) Fault.internal_error) _ h λ _ h₀ r₀.
      >>=-elim (expect Fault.unwrap_none (checked_sub unclaimed claimed)) _ r₀ λ left h₁ r₁.
        >>=-elim (plus f.amount_of_claimed claimed) _ r₁ λ total h₂ r₂.
          let e₁ = checked_sub-ok unclaimed claimed (expect-ok _ _ h₁) in
          let e₂ = plus-ok _ _ h₂ in
          rw (← ok-injective r₂) (
            record {
              reward = omega (arith, e₁, e₂, inv.reward);
              beneficiary = omega (arith, e₂, inv.beneficiary);
              ended_empty = inv.ended_empty;
              cleared_empty =
                  λ e. ((inv.cleared_empty e).0, omega (arith, e₁, (inv.cleared_empty e).1));
            },
            omega (arith, e₁),
          )

pub pay_farmer-returns :
    (f : SimpleFarm) (claimed : ℕ) {r : SimpleFarm × ℕ × ℕ}
    → pay_farmer f claimed ≡ ok r
    → (r.1 ≡ (f.last_distribution).rps) × (r.2 ≡ claimed)
unfolding pay_farmer
pay_farmer-returns f claimed h = ground (arith, h)

-- A claim that succeeds pays the reward of the seeds since the farmer's last claim, as the farm
-- stands after the distribution of the moment, and never more than is unclaimed then. The farmer
-- gets the new reward per seed, and the books of the farm stay in order.
pub claim_user_reward_lem :
    (now : ℕ) (f : SimpleFarm) (user_rps user_seeds total_seeds : ℕ) {r : SimpleFarm × ℕ × ℕ}
    → claim_user_reward now f user_rps user_seeds total_seeds ≡ ok r
    → IsConserved f
    → (f' : SimpleFarm) × (distribute now f total_seeds ≡ ok f')
      × (r.1 ≡ (f'.last_distribution).rps)
      × (reward_since user_seeds r.1 user_rps ≡ ok r.2)
      × (r.2 ≤ (f'.last_distribution).unclaimed)
      × IsConserved r.0
unfolding claim_user_reward
claim_user_reward_lem now f user_rps user_seeds total_seeds h inv =
    >>=-elim (distribute now f total_seeds) _ h λ f' h₁ r₁.
      let last = f'.last_distribution in
      let inv' = distribute-IsConserved now f total_seeds h₁ inv in
      >>=-elim (reward_since user_seeds last.rps user_rps) _ r₁ λ claimed h₂ r₂.
        elim (Bool-cases (ltb 0 claimed)) [
          | inl some_reward ↦
              let paid = rw some_reward at r₂ in
              let (inv'', le) = pay_farmer-IsConserved f' claimed paid inv' in
              let (e₁, e₂) = pay_farmer-returns f' claimed paid in
              (f', h₁, e₁, rw (e₁, e₂) h₂, omega (arith, le, e₂), inv'')
          | inr no_reward ↦
              rw (← ok-injective (rw no_reward at r₂))
                (f', h₁, refl, h₂, ground (arith, no_reward), inv')
        ]
