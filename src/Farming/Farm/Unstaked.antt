-- ===== src/Farming/Farm/Unstaked.antt =====
-- The reward per seed of a farm that nobody stakes for.
use snails_contracts.Common.{
  ℕ, ap, sym, ◌∙◌, ◌<◌, ◌≡◌, refl, some, false, leb, ok, panic, arith, ◌==◌, >>=-elim, ok-injective,
  expect, checked_sub, Fault,
}
use snails_contracts.Farming.Farm.{
  SimpleFarm, Distribution, plus, rounds_until, next_rps, advance, try_distribute, pay_beneficiary,
  record_distribution, end_if_empty, distribute, reward_since, claim_user_reward,
}
use snails_contracts.Farming.Farm.Conservation.{try_distribute-some}

advance-no_seeds :
    (now : ℕ) (f : SimpleFarm) {dis : Distribution} → advance now 0 f ≡ ok dis → dis.rps ≡ 0
unfolding advance next_rps
advance-no_seeds now f h =
    let last = f.last_distribution in
    >>=-elim (rounds_until now last f.terms) _ h λ moved h₁ r₁.
      >>=-elim (plus last.unclaimed moved.1) _ r₁ λ unclaimed h₂ r₂.
        >>=-elim (expect Fault.unwrap_none (checked_sub last.undistributed moved.1)) _ r₂
          λ undistributed h₃ r₃. sym (ap (λ (d : Distribution). d.rps) (ok-injective r₃))

pay_beneficiary-rps :
    (f : SimpleFarm) {f' : SimpleFarm}
    → pay_beneficiary f ≡ ok f'
    → (f'.last_distribution).rps ≡ (f.last_distribution).rps
unfolding pay_beneficiary
pay_beneficiary-rps f h =
    let unclaimed = (f.last_distribution).unclaimed in
    >>=-elim (plus f.amount_of_claimed unclaimed) _ h λ c h₁ r₁.
      >>=-elim (plus f.amount_of_beneficiary unclaimed) _ r₁
        λ b h₂ r₂. sym (ap (λ (g : SimpleFarm). (g.last_distribution).rps) (ok-injective r₂))

end_if_empty-rps :
    (f : SimpleFarm) → ((end_if_empty f).last_distribution).rps ≡ (f.last_distribution).rps
unfolding end_if_empty
end_if_empty-rps f = ground arith

distribute-no_seeds :
    (now : ℕ) (f : SimpleFarm) (dis : Distribution) {f' : SimpleFarm}
    → try_distribute now f 0 ≡ ok (some dis)
    → ((f.last_distribution).rr == dis.rr) ≡ false
    → distribute now f 0 ≡ ok f'
    → (f'.last_distribution).rps ≡ 0
unfolding distribute record_distribution
distribute-no_seeds now f dis some_dis later h =
    let h' = rw (some_dis, later) at h in
    >>=-elim (pay_beneficiary (record f { last_distribution = dis })) _ h' λ f₁ h₁ r₁.
      sym (ap (λ (g : SimpleFarm). (g.last_distribution).rps) (ok-injective r₁))
      ∙ end_if_empty-rps f₁
      ∙ pay_beneficiary-rps (record f { last_distribution = dis }) h₁
      ∙ advance-no_seeds now f (try_distribute-some now f 0 some_dis).1

-- Where nobody stakes and a new round is distributed, the reward per seed starts again from 0, and
-- the claim of a farmer who has a positive reward per seed from before panics, even without seeds.
pub claim_user_reward-no_seeds :
    (now : ℕ) (f : SimpleFarm) (user_rps user_seeds : ℕ) (dis : Distribution) {f' : SimpleFarm}
    → try_distribute now f 0 ≡ ok (some dis)
    → ((f.last_distribution).rr == dis.rr) ≡ false
    → distribute now f 0 ≡ ok f'
    → 0 < user_rps
    → ((f'.last_distribution).rps ≡ 0)
      × (claim_user_reward now f user_rps user_seeds 0 ≡ panic Fault.overflow)
unfolding claim_user_reward reward_since checked_sub
claim_user_reward-no_seeds now f user_rps user_seeds dis some_dis later done pos =
    let zero_rps = distribute-no_seeds now f dis some_dis later done in
    let behind : leb user_rps 0 ≡ false = ground (arith, pos) in
    (zero_rps, rw (done, zero_rps, behind) refl)
