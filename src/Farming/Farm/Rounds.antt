-- ===== src/Farming/Farm/Rounds.antt =====
-- What a distribution moves: the reward of the rounds that have passed, as far as there is any.
use snails_contracts.Common.{
  ℕ, ap, ◌∙◌, inl, inr, Bool-cases, ◌+◌, ◌-◌, ◌*◌, ◌/◌, ◌%◌, ◌<◌, ◌≤◌, ◌≡◌, refl, ok, arith,
  if◌then◌else◌, ltb, >>=-elim, ok-injective, expect, expect-ok, checked_add, checked_add-ok,
  checked_sub, checked_sub-ok, checked_mul, checked_mul-ok, checked_div, checked_div-ok, Fault, u32,
  u128,
}
use snails_contracts.Farming.Farm.{
  SimpleFarm, SimpleFarmTerms, Distribution, to_sec, last_rounds, rounds_until, next_rps, plus,
  advance,
}

pub plus-ok : (a b : ℕ) {r : ℕ} → plus a b ≡ ok r → r ≡ a + b
unfolding plus
plus-ok a b h = (checked_add-ok u128 a b (expect-ok _ _ h)).0

last_rounds-all :
    (last : Distribution) (terms : SimpleFarmTerms) {r : ℕ × ℕ}
    → last_rounds last terms ≡ ok r
    → r.1 ≡ last.undistributed
unfolding last_rounds
last_rounds-all last terms h =
    >>=-elim (expect Fault.unwrap_none (checked_div last.undistributed terms.reward_per_session)) _
      h
      λ q h₁ r₁.
        >>=-elim (expect Fault.unwrap_none (checked_add u32 last.rr (q % u32))) _ r₁ λ rr h₂ r₂.
          >>=-elim (expect Fault.unwrap_none (checked_mul u128 (q % u32) terms.reward_per_session))
            _ r₂
            λ c h₃ r₃.
              >>=-elim
                (if ltb c last.undistributed
                  then expect Fault.unwrap_none (checked_add u32 rr 1)
                  else ok rr)
                _ r₃ λ rr' h₄ r₄. rw (← ok-injective r₄) refl

-- The round of a time.
unfoldable pub round_at : ℕ → SimpleFarmTerms → ℕ
round_at now terms = (to_sec now - terms.start_at) / terms.session_interval

-- What is left is the same, whether or not the reward was more than there is.
capped_reward :
    (last : Distribution) (terms : SimpleFarmTerms) (rr added : ℕ) {r : ℕ × ℕ}
    → (if ltb last.undistributed added then last_rounds last terms else ok (rr, added)) ≡ ok r
    → last.undistributed - r.1 ≡ last.undistributed - added
capped_reward last terms rr added h = elim (Bool-cases (ltb last.undistributed added)) [
  | inl more ↦ let h' = rw more at h in ground (arith, more, last_rounds-all last terms h')
  | inr enough ↦ rw (← ok-injective (rw enough at h)) refl
]

rounds_until-split :
    (now : ℕ) (last : Distribution) (terms : SimpleFarmTerms) {r : ℕ × ℕ}
    → rounds_until now last terms ≡ ok r
    → (last.rr ≤ round_at now terms)
      × (last.undistributed - r.1
          ≡ last.undistributed - (round_at now terms - last.rr) * terms.reward_per_session)
unfolding rounds_until round_at
rounds_until-split now last terms h =
    >>=-elim (expect Fault.unwrap_none (checked_sub (to_sec now) terms.start_at)) _ h
      λ elapsed h₁ r₁.
        >>=-elim (expect Fault.division_by_zero (checked_div elapsed terms.session_interval)) _ r₁
          λ rr h₂ r₂.
            >>=-elim (expect Fault.unwrap_none (checked_sub rr last.rr)) _ r₂ λ rounds h₃ r₃.
              >>=-elim (expect Fault.overflow (checked_mul u128 rounds terms.reward_per_session)) _
                r₃
                λ added h₄ r₄.
                  let a = checked_sub-ok (to_sec now) terms.start_at (expect-ok _ _ h₁) in
                  let b = checked_div-ok elapsed terms.session_interval (expect-ok _ _ h₂) in
                  let c = checked_sub-ok rr last.rr (expect-ok _ _ h₃) in
                  let d = checked_mul-ok u128 rounds terms.reward_per_session (expect-ok _ _ h₄) in
                  let at : rr ≡ (to_sec now - terms.start_at) / terms.session_interval =
                    b.0 ∙ ap (λ (t : ℕ). t / terms.session_interval) (omega (arith, a)) in
                  let passed : rounds
                      ≡ (to_sec now - terms.start_at) / terms.session_interval - last.rr =
                    omega (arith, at, c) in
                  let reward = d.0 ∙ ap (λ (t : ℕ). t * terms.reward_per_session) passed in
                  (
                    omega (arith, at, c),
                    capped_reward last terms rr added r₄
                        ∙ ap (λ (t : ℕ). last.undistributed - t) reward,
                  )

next_rps-le : (rps added seeds : ℕ) {r : ℕ} → next_rps rps added seeds ≡ ok r → 0 < seeds → rps ≤ r
unfolding next_rps checked_add checked_mul
next_rps-le rps added seeds h pos = ground arith

-- A distribution moves reward from the undistributed part to the unclaimed part and loses none. It
-- moves the reward of the sessions that have passed since the last one, at the rate of the terms,
-- or all that is left where that is less. Where there are seeds, the reward per seed does not fall.
pub advance_lem :
    (now total_seeds : ℕ) (f : SimpleFarm) {dis : Distribution}
    → advance now total_seeds f ≡ ok dis
    → (dis.undistributed + dis.unclaimed
        ≡ (f.last_distribution).undistributed + (f.last_distribution).unclaimed)
      × ((f.last_distribution).rr ≤ round_at now f.terms)
      × (dis.undistributed
          ≡ (f.last_distribution).undistributed
            - (round_at now f.terms - (f.last_distribution).rr) * (f.terms).reward_per_session)
      × (0 < total_seeds → (f.last_distribution).rps ≤ dis.rps)
unfolding advance
advance_lem now total_seeds f h =
    let last = f.last_distribution in
    >>=-elim (rounds_until now last f.terms) _ h λ moved h₁ r₁.
      >>=-elim (plus last.unclaimed moved.1) _ r₁ λ unclaimed h₂ r₂.
        >>=-elim (expect Fault.unwrap_none (checked_sub last.undistributed moved.1)) _ r₂
          λ undistributed h₃ r₃. >>=-elim (next_rps last.rps moved.1 total_seeds) _ r₃ λ rps h₄ r₄.
            let (late, left) = rounds_until-split now last f.terms h₁ in
            let p = plus-ok last.unclaimed moved.1 h₂ in
            let m = checked_sub-ok last.undistributed moved.1 (expect-ok _ _ h₃) in
            rw (← ok-injective r₄) (
              omega (arith, p, m),
              late,
              omega (arith, m, left),
              next_rps-le last.rps moved.1 total_seeds h₄,
            )
