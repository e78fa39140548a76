-- ===== src/Farming/Farm/Conservation.antt =====
-- No reward of a farm is lost or made: the books of a farm through all its methods.
use snails_contracts.Common.{
  ℕ, ap, sym, ◌∙◌, ◌+◌, ◌≤◌, ◌≡◌, refl, Bool, Option, some, inl, inr, Bool-cases, Option-cases, ok,
  arith, if◌then◌else◌, ltb, ◌==◌, >>=-elim, ok-injective,
}
use snails_contracts.Farming.Farm
use snails_contracts.Farming.Farm.{
  SimpleFarm, SimpleFarmTerms, SimpleFarmStatus, Distribution, to_nano, plus, advance, is_running,
  try_distribute, pay_beneficiary, record_distribution, end_if_empty, distribute, grow, start,
  is_over, add_by_status, add_reward, pay_farmer, claim_user_reward, clear_by_status, move_to_clear,
  change_reward_per_session, reward_since,
}
use snails_contracts.Farming.Farm.Rounds.{plus-ok, advance_lem}

-- The books of a farm: every reward is undistributed, unclaimed or claimed, the beneficiary's part
-- is claimed, a farm that has ended has nothing to distribute, a cleared one has nothing at all.
pub record IsConserved (f : SimpleFarm) : Type 0 where
  pub reward :
      (f.last_distribution).undistributed + (f.last_distribution).unclaimed + f.amount_of_claimed
      ≡ f.amount_of_reward
  pub beneficiary : f.amount_of_beneficiary ≤ f.amount_of_claimed
  pub ended_empty : f.status ≡ SimpleFarmStatus.ended → (f.last_distribution).undistributed ≡ 0
  pub cleared_empty :
      f.status ≡ SimpleFarmStatus.cleared
      → ((f.last_distribution).undistributed ≡ 0) × ((f.last_distribution).unclaimed ≡ 0)

pub try_distribute-some :
    (now : ℕ) (f : SimpleFarm) (seeds : ℕ) {dis : Distribution}
    → try_distribute now f seeds ≡ ok (some dis)
    → (f.status ≡ SimpleFarmStatus.running) × (advance now seeds f ≡ ok dis)
unfolding try_distribute
try_distribute-some now f seeds h = ground (arith, h)

pay_beneficiary-IsConserved :
    (f : SimpleFarm) {f' : SimpleFarm}
    → pay_beneficiary f ≡ ok f'
    → IsConserved f
    → IsConserved f'
      × (f'.status ≡ f.status)
      × ((f'.last_distribution).undistributed ≡ (f.last_distribution).undistributed)
      × ((f'.last_distribution).unclaimed ≡ 0)
unfolding pay_beneficiary
pay_beneficiary-IsConserved f h inv =
    let unclaimed = (f.last_distribution).unclaimed in
    >>=-elim (plus f.amount_of_claimed unclaimed) _ h λ c h₁ r₁.
      >>=-elim (plus f.amount_of_beneficiary unclaimed) _ r₁ λ b h₂ r₂.
        let e₁ = plus-ok _ _ h₁ in
        let e₂ = plus-ok _ _ h₂ in
        rw (← ok-injective r₂) (
          record {
            reward = omega (arith, e₁, inv.reward);
            beneficiary = omega (arith, e₁, e₂, inv.beneficiary);
            ended_empty = inv.ended_empty;
            cleared_empty = λ e. ((inv.cleared_empty e).0, refl);
          },
          refl,
          refl,
          refl,
        )

-- A distribution that is written into a running farm.
record_distribution-IsConserved :
    (now : ℕ) (f : SimpleFarm) (seeds : ℕ) (dis : Distribution) {f' : SimpleFarm}
    → f.status ≡ SimpleFarmStatus.running
    → advance now seeds f ≡ ok dis
    → record_distribution f seeds dis ≡ ok f'
    → IsConserved f
    → IsConserved f' × (f'.status ≡ SimpleFarmStatus.running)
unfolding record_distribution
record_distribution-IsConserved now f seeds dis run step h inv =
    let moved = advance_lem now seeds f step in
    let written : IsConserved (record f { last_distribution = dis }) = record {
      reward = omega (arith, moved.0, inv.reward);
      beneficiary = inv.beneficiary;
      ended_empty = λ e. cc;
      cleared_empty = λ e. cc;
    } in
    elim (Bool-cases ((f.last_distribution).rr == dis.rr)) [
      | inl same ↦ rw (← ok-injective (rw same at h)) (inv, run)
      | inr later ↦
          let h' = rw later at h in
          elim (Bool-cases (seeds == 0)) [
            | inl none_staked ↦
                let paid =
                  pay_beneficiary-IsConserved (record f { last_distribution = dis })
                    (rw none_staked at h') written in
                (paid.0, paid.1 ∙ run)
            | inr staked ↦ rw (← ok-injective (rw staked at h')) (written, run)
          ]
    ]

end_if_empty-IsConserved :
    (f : SimpleFarm)
    → f.status ≡ SimpleFarmStatus.running
    → IsConserved f
    → IsConserved (end_if_empty f)
unfolding end_if_empty
end_if_empty-IsConserved f run inv = elim (Bool-cases ((f.last_distribution).undistributed == 0)) [
  | inl empty ↦
      let zero_left : (f.last_distribution).undistributed ≡ 0 = ground (arith, empty) in
      rw empty (record {
        reward = inv.reward;
        beneficiary = inv.beneficiary;
        ended_empty = λ e. zero_left;
        cleared_empty = λ e. cc;
      })
  | inr more ↦ rw more inv
]

pub distribute-IsConserved :
    (now : ℕ) (f : SimpleFarm) (seeds : ℕ) {f' : SimpleFarm}
    → distribute now f seeds ≡ ok f'
    → IsConserved f
    → IsConserved f'
unfolding distribute
distribute-IsConserved now f seeds h inv =
    >>=-elim (try_distribute now f seeds) _ h λ distributed h₁ r₁. elim (Option-cases distributed) [
      | inl nothing ↦ rw (← ok-injective (rw nothing at r₁)) inv
      | inr (dis, some_dis) ↦
          let (run, step) = try_distribute-some now f seeds (h₁ ∙ ap ok some_dis) in
          >>=-elim (record_distribution f seeds dis) _ (rw some_dis at r₁) λ f₁ h₂ r₂.
            let (written, run') = record_distribution-IsConserved now f seeds dis run step h₂ inv in
            rw (← ok-injective r₂) (end_if_empty-IsConserved f₁ run' written)
    ]

grow-IsConserved :
    (f : SimpleFarm) (amount : ℕ) {r : SimpleFarm × Option ℕ}
    → grow f amount ≡ ok r
    → f.status ≡ SimpleFarmStatus.running
    → IsConserved f
    → IsConserved r.0
unfolding grow
grow-IsConserved f amount h run inv = >>=-elim (plus f.amount_of_reward amount) _ h λ reward h₁ r₁.
    >>=-elim (plus (f.last_distribution).undistributed amount) _ r₁ λ undistributed h₂ r₂.
      rw (← ok-injective r₂) (record {
        reward = omega (arith, plus-ok _ _ h₁, plus-ok _ _ h₂, inv.reward);
        beneficiary = inv.beneficiary;
        ended_empty = λ e. cc;
        cleared_empty = λ e. cc;
      })

pub add_by_status-IsConserved :
    (s : SimpleFarmStatus) (now : ℕ) (f : SimpleFarm) (amount : ℕ) {r : SimpleFarm × Option ℕ}
    → add_by_status s now f amount ≡ ok r
    → f.status ≡ s
    → IsConserved f
    → IsConserved r.0
unfolding add_by_status start
add_by_status-IsConserved SimpleFarmStatus.created now f amount h e inv =
    let started : IsConserved (start now f) = record {
      reward = inv.reward;
      beneficiary = inv.beneficiary;
      ended_empty = λ q. cc;
      cleared_empty = λ q. cc;
    } in
    grow-IsConserved (start now f) amount h refl started
add_by_status-IsConserved SimpleFarmStatus.running now f amount h e inv =
    >>=-elim (try_distribute now f Farm.denom) _ h λ distributed h₁ r₁.
      elim (Bool-cases (is_over distributed)) [
        | inl over ↦ rw (← ok-injective (rw over at r₁)) inv
        | inr more ↦ grow-IsConserved f amount (rw more at r₁) e inv
      ]
add_by_status-IsConserved SimpleFarmStatus.ended now f amount h e inv = rw (← ok-injective h) inv
add_by_status-IsConserved SimpleFarmStatus.cleared now f amount h e inv = rw (← ok-injective h) inv

cleared-IsConserved :
    (f : SimpleFarm)
    → IsConserved f
    → (f.last_distribution).undistributed ≡ 0
    → (f.last_distribution).unclaimed ≡ 0
    → IsConserved (record f { status = SimpleFarmStatus.cleared })
cleared-IsConserved f inv e₁ e₂ = record {
  reward = inv.reward;
  beneficiary = inv.beneficiary;
  ended_empty = λ q. cc;
  cleared_empty = λ q. (e₁, e₂);
}

subst-ok : {f f' : SimpleFarm} → ok f ≡ ok f' → IsConserved f → IsConserved f'
subst-ok e inv = rw (← ok-injective e) inv

clear_by_status-IsConserved :
    (s : SimpleFarmStatus) (f : SimpleFarm) {r : SimpleFarm × Bool}
    → clear_by_status s f ≡ ok r
    → f.status ≡ s
    → IsConserved f
    → IsConserved r.0
unfolding clear_by_status
clear_by_status-IsConserved SimpleFarmStatus.ended f h e inv =
    let unclaimed = (f.last_distribution).unclaimed in
    >>=-elim (if ltb 0 unclaimed then pay_beneficiary f else ok f) _ h λ f₁ h₁ r₁.
      elim (Bool-cases (ltb 0 unclaimed)) [
        | inl some_left ↦
            let (inv₁, same, left, nothing) =
              pay_beneficiary-IsConserved f (rw some_left at h₁) inv in
            rw (← ok-injective r₁)
              (cleared-IsConserved f₁ inv₁ (omega (arith, left, inv.ended_empty e)) nothing)
        | inr none_left ↦
            rw (← ok-injective r₁, ← ok-injective (rw none_left at h₁))
              (cleared-IsConserved f inv (inv.ended_empty e) (ground (arith, none_left)))
      ]
clear_by_status-IsConserved SimpleFarmStatus.created f h e inv = rw (← ok-injective h) inv
clear_by_status-IsConserved SimpleFarmStatus.running f h e inv = rw (← ok-injective h) inv
clear_by_status-IsConserved SimpleFarmStatus.cleared f h e inv = rw (← ok-injective h) inv

pub move_to_clear-IsConserved :
    (now : ℕ) (f : SimpleFarm) (seeds : ℕ) {r : SimpleFarm × Bool}
    → move_to_clear now f seeds ≡ ok r
    → IsConserved f
    → IsConserved r.0
unfolding move_to_clear
move_to_clear-IsConserved now f seeds h inv =
    >>=-elim (if is_running f.status then distribute now f seeds else ok f) _ h λ f₁ h₁ r₁.
      clear_by_status-IsConserved f₁.status f₁ r₁ refl (elim (Bool-cases (is_running f.status)) [
        | inl run ↦
            distribute-IsConserved now f seeds
              (ap (λ (b : Bool). if b then distribute now f seeds else ok f) (sym run) ∙ h₁) inv
        | inr rest ↦
            subst-ok (ap (λ (b : Bool). if b then distribute now f seeds else ok f) (sym rest) ∙ h₁)
              inv
      ])
