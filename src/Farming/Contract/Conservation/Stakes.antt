-- ===== src/Farming/Contract/Conservation/Stakes.antt =====
-- The methods that move seeds, and the amounts of the seeds.
use mathlib.Core.Path.{subst}
use snails_contracts.Common.{
  ℕ, ◌+◌, ◌≡◌, refl, sym, ap, ◌∙◌, inl, inr, Bool-cases, ok, arith, if◌then◌else◌, ◌==◌, >>=-elim,
  ok-injective, guard, expect_some, expect_some-ok, Fault, Result,
}
use snails_contracts.Common.Table.{lookup}
use snails_contracts.Exchange.Contract.Promises.{PromiseResult}
use snails_contracts.Farming.Farmer.{SeedType, or_zero, add_amount, sub_amount, add_seed, sub_seed}
use snails_contracts.Farming.Contract.{
  ContractData, Names, assert_contract_running, get_seed, get_farmer,
}
use snails_contracts.Farming.Contract.Claims.{internal_claim_user_reward_by_seed_id}
use snails_contracts.Farming.Contract.Seeds.{
  credit_seed, debit_seed, remove_all_rps, internal_seed_deposit, internal_seed_withdraw,
  withdraw_seed, seed_transfer, after_withdrawal, callback_post_withdraw_seed, SeedTransfer,
}
use snails_contracts.Farming.Contract.Conservation.{
  SeedsBalanced, amount_in, seeds_of, written-SeedsBalanced,
}
use snails_contracts.Farming.Contract.Conservation.Farmers.{
  add_seed_lem, sub_seed_lem, add_amount_lem, sub_amount_lem, remove_all_rps-seeds,
}
use snails_contracts.Farming.Contract.Conservation.Claims.{claim_by_seed-SeedsBalanced}

pub credit_seed-SeedsBalanced :
    (c : ContractData) (seed_id sender_id amount : ℕ) (seed_type : SeedType) {c' : ContractData}
    → credit_seed c seed_id sender_id amount seed_type ≡ ok c'
    → SeedsBalanced c
    → SeedsBalanced c'
unfolding credit_seed get_seed get_farmer
credit_seed-SeedsBalanced c seed_id sender_id amount seed_type h b =
    >>=-elim (expect_some Fault.seed_not_exist (lookup seed_id c.seeds)) _ h λ s h₁ r₁.
      >>=-elim (add_amount (record s { seed_type = seed_type }) amount) _ r₁ λ s' h₂ r₂.
        >>=-elim (expect_some Fault.account_not_registered (lookup sender_id c.farmers)) _ r₂
          λ w h₃ r₃. >>=-elim (add_seed w seed_id amount) _ r₃ λ w' h₄ r₄.
            let known = expect_some-ok _ _ h₁ in
            let found = expect_some-ok _ _ h₃ in
            let grows = add_amount_lem (record s { seed_type = seed_type }) amount h₂ in
            let adds = add_seed_lem w seed_id amount h₄ in
            let own : s'.amount + seeds_of (lookup sender_id c.farmers) seed_id
                ≡ amount_in (lookup seed_id c.seeds) + or_zero (lookup seed_id w'.seeds) =
              rw found (rw known (omega (arith, grows, adds.0))) in
            subst SeedsBalanced (ok-injective r₄) (
              written-SeedsBalanced c _ sender_id seed_id w' s' b refl refl
                (λ k ne. adds.1 k ne ∙ ap (λ o. seeds_of o k) (sym found)) own)

pub debit_seed-SeedsBalanced :
    (c : ContractData) (seed_id sender_id amount : ℕ) {r : ContractData × SeedType}
    → debit_seed c seed_id sender_id amount ≡ ok r
    → SeedsBalanced c
    → SeedsBalanced r.0
unfolding debit_seed get_seed get_farmer
debit_seed-SeedsBalanced c seed_id sender_id amount h b =
    >>=-elim (expect_some Fault.seed_not_exist (lookup seed_id c.seeds)) _ h λ s h₁ r₁.
      >>=-elim (expect_some Fault.account_not_registered (lookup sender_id c.farmers)) _ r₁
        λ w h₂ r₂. >>=-elim (sub_seed w seed_id amount) _ r₂ λ d h₃ r₃.
          >>=-elim (sub_amount s amount) _ r₃ λ e h₄ r₄.
            >>=-elim (if d.1 == 0 then remove_all_rps d.0 (e.0).farms else ok d.0) _ r₄ λ w' h₅ r₅.
              let known = expect_some-ok _ _ h₁ in
              let found = expect_some-ok _ _ h₂ in
              let shrinks = sub_amount_lem s amount h₄ in
              let takes = sub_seed_lem w seed_id amount h₃ in
              let kept : w'.seeds ≡ (d.0).seeds = elim (Bool-cases (d.1 == 0)) [
                | inl all ↦ remove_all_rps-seeds d.0 (e.0).farms (rw all at h₅)
                | inr part ↦ rw (← ok-injective (rw part at h₅)) refl
              ] in
              let own_kept = ap (λ t. or_zero (lookup seed_id t)) kept in
              let own : (e.0).amount + seeds_of (lookup sender_id c.farmers) seed_id
                  ≡ amount_in (lookup seed_id c.seeds) + or_zero (lookup seed_id w'.seeds) =
                rw found (rw known (omega (arith, shrinks, takes.0, own_kept))) in
              subst (λ (r : ContractData × SeedType). SeedsBalanced r.0) (ok-injective r₅)
                (written-SeedsBalanced c _ sender_id seed_id w' e.0 b refl refl
                  (λ k ne.
                    ap (λ t. or_zero (lookup k t)) kept
                    ∙ takes.1 k ne
                    ∙ ap (λ o. seeds_of o k) (sym found))
                  own)

pub deposit-SeedsBalanced :
    (now : ℕ) (c : ContractData) (seed_id sender_id amount : ℕ) (seed_type : SeedType)
    {c' : ContractData}
    → internal_seed_deposit now c seed_id sender_id amount seed_type ≡ ok c'
    → SeedsBalanced c
    → SeedsBalanced c'
unfolding internal_seed_deposit
deposit-SeedsBalanced now c seed_id sender_id amount seed_type h b =
    >>=-elim (internal_claim_user_reward_by_seed_id now c sender_id seed_id) _ h λ c₁ h₁ r₁.
      credit_seed-SeedsBalanced c₁ seed_id sender_id amount seed_type r₁
        (claim_by_seed-SeedsBalanced now c sender_id seed_id h₁ b)

withdraw-SeedsBalanced :
    (now : ℕ) (c : ContractData) (seed_id sender_id amount : ℕ) {r : ContractData × SeedType}
    → internal_seed_withdraw now c seed_id sender_id amount ≡ ok r
    → SeedsBalanced c
    → SeedsBalanced r.0
unfolding internal_seed_withdraw
withdraw-SeedsBalanced now c seed_id sender_id amount h b =
    >>=-elim (internal_claim_user_reward_by_seed_id now c sender_id seed_id) _ h λ c₁ h₁ r₁.
      debit_seed-SeedsBalanced c₁ seed_id sender_id amount r₁
        (claim_by_seed-SeedsBalanced now c sender_id seed_id h₁ b)

pub withdraw_seed-SeedsBalanced :
    (names : Names) (one_yocto : Result (Unit {0})) (now : ℕ) (c : ContractData)
    (sender_id seed_id amount : ℕ) {r : ContractData × SeedTransfer}
    → withdraw_seed names one_yocto now c sender_id seed_id amount ≡ ok r
    → SeedsBalanced c
    → SeedsBalanced r.0
unfolding withdraw_seed
withdraw_seed-SeedsBalanced names one_yocto now c sender_id seed_id amount h b =
    >>=-elim one_yocto _ h λ _ h₁ r₁. >>=-elim (assert_contract_running c.state) _ r₁ λ _ h₂ r₂.
      >>=-elim (internal_seed_withdraw now c seed_id sender_id amount) _ r₂ λ d h₃ r₃.
        >>=-elim (seed_transfer names d.1 seed_id sender_id amount) _ r₃ λ t h₄ r₄.
          subst (λ (r : ContractData × SeedTransfer). SeedsBalanced r.0) (ok-injective r₄)
            (withdraw-SeedsBalanced now c seed_id sender_id amount h₃ b)

after_withdrawal-SeedsBalanced :
    (now : ℕ) (seed_type : SeedType) (result : PromiseResult) (c : ContractData)
    (seed_id sender_id amount : ℕ) {c' : ContractData}
    → after_withdrawal now seed_type result c seed_id sender_id amount ≡ ok c'
    → SeedsBalanced c
    → SeedsBalanced c'
unfolding after_withdrawal
after_withdrawal-SeedsBalanced now seed_type PromiseResult.not_ready c seed_id sender_id amount h
      b =
    absurd (cc)
after_withdrawal-SeedsBalanced now seed_type (PromiseResult.successful value) c seed_id sender_id
      amount h b =
    subst SeedsBalanced (ok-injective h) b
after_withdrawal-SeedsBalanced now seed_type PromiseResult.failed c seed_id sender_id amount h b =
    >>=-elim (internal_claim_user_reward_by_seed_id now c sender_id seed_id) _ h λ c₁ h₁ r₁.
      credit_seed-SeedsBalanced c₁ seed_id sender_id amount seed_type r₁
        (claim_by_seed-SeedsBalanced now c sender_id seed_id h₁ b)

pub callback_seed-SeedsBalanced :
    (now : ℕ) (seed_type : SeedType) (results : ℕ) (result : PromiseResult) (c : ContractData)
    (seed_id sender_id amount : ℕ) {c' : ContractData}
    → callback_post_withdraw_seed now seed_type results result c seed_id sender_id amount ≡ ok c'
    → SeedsBalanced c
    → SeedsBalanced c'
unfolding callback_post_withdraw_seed
callback_seed-SeedsBalanced now seed_type results result c seed_id sender_id amount h b =
    >>=-elim (assert_contract_running c.state) _ h λ _ h₁ r₁.
      >>=-elim (guard (results == 1) Fault.callback_invalid) _ r₁ λ _ h₂ r₂.
        after_withdrawal-SeedsBalanced now seed_type result c seed_id sender_id amount r₂ b
