-- ===== src/Farming/Farm/Preview.antt =====
-- The preview of a farmer's reward and the claim agree.
use snails_contracts.Common.{
  ℕ, ap, sym, ◌∙◌, ◌*◌, ◌/◌, ◌%◌, ◌<◌, ◌≡◌, none, some, inl, inr, Bool-cases, Option-cases,
  narrow-ok, ◌>>=◌, ok, arith, if◌then◌else◌, ltb, ◌==◌, pos→ne, >>=-elim, ok-injective, expect,
  expect-ok, checked_add, checked_add-ok, checked_sub, checked_sub-ok, checked_mul, checked_mul-ok,
  checked_div, Fault, u32, u128, u256,
}
use snails_contracts.Farming.Farm.{
  SimpleFarm, SimpleFarmTerms, Distribution, denom, to_sec, plus, last_rounds, rounds_until,
  next_rps, advance, try_distribute, reward_since, record_distribution, end_if_empty, distribute,
  view_farmer_unclaimed_reward, claim_user_reward,
}
use snails_contracts.Farming.Farm.Claims.{pay_farmer-returns}
use snails_contracts.Farming.Farm.Conservation.{try_distribute-some}

last_rounds-same :
    (last : Distribution) (terms : SimpleFarmTerms) {r : ℕ × ℕ}
    → last_rounds last terms ≡ ok r
    → r.0 ≡ last.rr
    → r.1 ≡ 0
unfolding last_rounds
last_rounds-same last terms h same =
    >>=-elim (expect Fault.unwrap_none (checked_div last.undistributed terms.reward_per_session)) _
      h
      λ q h₁ r₁.
        >>=-elim (expect Fault.unwrap_none (checked_add u32 last.rr (q % u32))) _ r₁ λ rr h₂ r₂.
          >>=-elim (expect Fault.unwrap_none (checked_mul u128 (q % u32) terms.reward_per_session))
            _ r₂
            λ c h₃ r₃.
              >>=-elim
                (if ltb c last.undistributed
                  then expect Fault.unwrap_none (checked_add u32 rr 1)
                  else ok rr)
                _ r₃
                λ rr' h₄ r₄.
                  let e₂ = checked_add-ok u32 last.rr (q % u32) (expect-ok _ _ h₂) in
                  let e₃ =
                    checked_mul-ok u128 (q % u32) terms.reward_per_session (expect-ok _ _ h₃) in
                  let at : rr' ≡ last.rr = ap (λ (r : ℕ × ℕ). r.0) (ok-injective r₄) ∙ same in
                  let all : last.undistributed ≡ _ = ap (λ (r : ℕ × ℕ). r.1) (ok-injective r₄) in
                  sym all ∙ elim (Bool-cases (ltb c last.undistributed)) [
                    | inl tail ↦
                        let e₄ = checked_add-ok u32 rr 1 (expect-ok _ _ (rw tail at h₄)) in
                        absurd (omega (arith, e₂, e₄, at))
                    | inr whole ↦
                        let e₄ = ok-injective (rw whole at h₄) in
                        let none_more : q % u32 ≡ 0 = omega (arith, e₂, e₄, at) in
                        let c_zero : c ≡ 0 =
                          omega
                            (arith, e₃, ap (λ (t : ℕ). t * terms.reward_per_session) none_more) in
                        ground (arith, whole, c_zero)
                  ]

rounds_until-same :
    (now : ℕ) (last : Distribution) (terms : SimpleFarmTerms) {r : ℕ × ℕ}
    → rounds_until now last terms ≡ ok r
    → r.0 ≡ last.rr
    → r.1 ≡ 0
unfolding rounds_until
rounds_until-same now last terms h same =
    >>=-elim (expect Fault.unwrap_none (checked_sub (to_sec now) terms.start_at)) _ h
      λ elapsed h₁ r₁.
        >>=-elim (expect Fault.division_by_zero (checked_div elapsed terms.session_interval)) _ r₁
          λ rr h₂ r₂.
            >>=-elim (expect Fault.unwrap_none (checked_sub rr last.rr)) _ r₂ λ rounds h₃ r₃.
              >>=-elim (expect Fault.overflow (checked_mul u128 rounds terms.reward_per_session)) _
                r₃
                λ added h₄ r₄.
                  let c = checked_sub-ok rr last.rr (expect-ok _ _ h₃) in
                  let d = checked_mul-ok u128 rounds terms.reward_per_session (expect-ok _ _ h₄) in
                  elim (Bool-cases (ltb last.undistributed added)) [
                    | inl more ↦ last_rounds-same last terms (rw more at r₄) same
                    | inr enough ↦
                        let e = ok-injective (rw enough at r₄) in
                        let at : rr ≡ last.rr = ap (λ (r : ℕ × ℕ). r.0) e ∙ same in
                        let no_rounds : rounds ≡ 0 = omega (arith, c, at) in
                        sym (ap (λ (r : ℕ × ℕ). r.1) e)
                        ∙ omega (arith, d, ap (λ (t : ℕ). t * terms.reward_per_session) no_rounds)
                  ]

next_rps-nothing : (rps seeds : ℕ) {r : ℕ} → next_rps rps 0 seeds ≡ ok r → 0 < seeds → r ≡ rps
unfolding next_rps checked_mul checked_add
next_rps-nothing rps seeds h pos = ground (arith, h)

-- The reward per seed of a distribution in the same round is the old one.
advance-same :
    (now seeds : ℕ) (f : SimpleFarm) {dis : Distribution}
    → advance now seeds f ≡ ok dis
    → dis.rr ≡ (f.last_distribution).rr
    → 0 < seeds
    → dis.rps ≡ (f.last_distribution).rps
unfolding advance
advance-same now seeds f h same pos =
    let last = f.last_distribution in
    >>=-elim (rounds_until now last f.terms) _ h λ moved h₁ r₁.
      >>=-elim (plus last.unclaimed moved.1) _ r₁ λ unclaimed h₂ r₂.
        >>=-elim (expect Fault.unwrap_none (checked_sub last.undistributed moved.1)) _ r₂
          λ undistributed h₃ r₃. >>=-elim (next_rps last.rps moved.1 seeds) _ r₃ λ rps h₄ r₄.
            let e = ok-injective r₄ in
            let at : moved.0 ≡ last.rr = ap (λ (d : Distribution). d.rr) e ∙ same in
            let nothing = rounds_until-same now last f.terms h₁ at in
            sym (ap (λ (d : Distribution). d.rps) e)
            ∙ next_rps-nothing last.rps seeds (rw nothing at h₄) pos

-- The reward per seed after a distribution.
distribute-rps :
    (now : ℕ) (f : SimpleFarm) (seeds : ℕ) (dis : Distribution) {f' : SimpleFarm}
    → distribute now f seeds ≡ ok f'
    → try_distribute now f seeds ≡ ok (some dis)
    → 0 < seeds
    → (f'.last_distribution).rps ≡ dis.rps
unfolding distribute record_distribution end_if_empty
distribute-rps now f seeds dis h some_dis pos =
    let h' = rw some_dis at h in
    elim (Bool-cases ((f.last_distribution).rr == dis.rr)) [
      | inl same ↦
          let (run, step) = try_distribute-some now f seeds some_dis in
          let q : dis.rr ≡ (f.last_distribution).rr = ground (arith, same) in
          let old = advance-same now seeds f step q pos in
          let h'' = rw same at h' in ground (arith, h'', old)
      | inr later ↦ let h'' = rw (later, pos→ne seeds pos) at h' in ground (arith, h'')
    ]

reward_since-zero : (rps user_rps : ℕ) {r : ℕ} → reward_since 0 rps user_rps ≡ ok r → r ≡ 0
unfolding reward_since
reward_since-zero rps user_rps h =
    >>=-elim (expect Fault.overflow (checked_sub rps user_rps)) _ h λ difference h₁ r₁.
      >>=-elim (expect Fault.overflow (checked_mul u256 0 difference)) _ r₁ λ product h₂ r₂.
        let e = checked_mul-ok u256 0 difference (expect-ok _ _ h₂) in
        let n = narrow-ok u128 (product / denom) (expect-ok _ _ r₂) in omega (arith, e, n)

-- What a claim pays, whatever becomes of the farm.
claim_user_reward-pays :
    (now : ℕ) (f : SimpleFarm) (user_rps user_seeds total_seeds : ℕ) {r : SimpleFarm × ℕ × ℕ}
    → claim_user_reward now f user_rps user_seeds total_seeds ≡ ok r
    → (f' : SimpleFarm) × (distribute now f total_seeds ≡ ok f')
      × (reward_since user_seeds (f'.last_distribution).rps user_rps ≡ ok r.2)
unfolding claim_user_reward
claim_user_reward-pays now f user_rps user_seeds total_seeds h =
    >>=-elim (distribute now f total_seeds) _ h λ f' h₁ r₁.
      >>=-elim (reward_since user_seeds (f'.last_distribution).rps user_rps) _ r₁ λ claimed h₂ r₂.
        elim (Bool-cases (ltb 0 claimed)) [
          | inl some_reward ↦
              let e = (pay_farmer-returns f' claimed (rw some_reward at r₂)).1 in
              (f', h₁, h₂ ∙ ap ok (sym e))
          | inr no_reward ↦ (
            f',
            h₁,
            h₂ ∙ ap (λ (p : SimpleFarm × ℕ × ℕ). ok p.2) (ok-injective (rw no_reward at r₂)),
          )
        ]

viewed :
    (now : ℕ) (f f' : SimpleFarm) (user_rps user_seeds total_seeds : ℕ) {reward : ℕ}
    → distribute now f total_seeds ≡ ok f'
    → reward_since user_seeds (f'.last_distribution).rps user_rps ≡ ok reward
    → 0 < total_seeds
    → (try_distribute now f total_seeds >>= λ distributed. elim distributed [
      | some dis ↦ reward_since user_seeds dis.rps user_rps
      | none ↦ reward_since user_seeds (f.last_distribution).rps user_rps
    ])
      ≡ ok reward
unfolding distribute
viewed now f f' user_rps user_seeds total_seeds done reward pos =
    >>=-elim (try_distribute now f total_seeds) _ done λ distributed h₁ r₁.
      elim (Option-cases distributed) [
        | inl nothing ↦
            let same = ok-injective (rw nothing at r₁) in
            rw (h₁, nothing)
              (ap (λ g. reward_since user_seeds (g.last_distribution).rps user_rps) same ∙ reward)
        | inr (dis, some_dis) ↦
            let e = distribute-rps now f total_seeds dis done (h₁ ∙ ap ok some_dis) pos in
            rw (h₁, some_dis) (ap (λ t. reward_since user_seeds t user_rps) (sym e) ∙ reward)
      ]

-- Where seeds are staked, a claim that succeeds pays exactly the reward that the view shows for the
-- same farm, farmer and time, also where the claim distributes no new round.
pub view_farmer_unclaimed_reward-claim_user_reward :
    (now : ℕ) (f : SimpleFarm) (user_rps user_seeds total_seeds : ℕ) {r : SimpleFarm × ℕ × ℕ}
    → claim_user_reward now f user_rps user_seeds total_seeds ≡ ok r
    → 0 < total_seeds
    → view_farmer_unclaimed_reward now f user_rps user_seeds total_seeds ≡ ok r.2
unfolding view_farmer_unclaimed_reward
view_farmer_unclaimed_reward-claim_user_reward now f user_rps user_seeds total_seeds h pos =
    let (f', done, reward) = claim_user_reward-pays now f user_rps user_seeds total_seeds h in
    elim (Bool-cases (user_seeds == 0)) [
      | inl no_seeds ↦
          let q : user_seeds ≡ 0 = ground (arith, no_seeds) in
          rw (pos→ne total_seeds pos, no_seeds)
            (ap ok (sym (reward_since-zero (f'.last_distribution).rps user_rps (rw q at reward))))
      | inr seeds ↦
          rw (pos→ne total_seeds pos, seeds)
            (viewed now f f' user_rps user_seeds total_seeds done reward pos)
    ]
