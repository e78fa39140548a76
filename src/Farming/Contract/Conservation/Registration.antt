-- ===== src/Farming/Contract/Conservation/Registration.antt =====
-- Registrations of farmers, and what they leave of the amounts of the seeds.
use mathlib.Core.Path.{subst}
use snails_contracts.Common.{
  ℕ, ◌-◌, ◌≡◌, refl, sym, ap, ◌∙◌, [], ◌∷◌, Option, Bool, none, some, inl, inr, true, false,
  Bool-cases, ok, arith, if◌then◌else◌, ◌==◌, leb, ltb, >>=-elim, ok-injective, guard, guard-eq-ok,
  ◌>>◌, ◌>>=◌, expect, expect_some, expect_some-ok, Fault, Result, checked_add, checked_sub, u64,
  u128,
}
use snails_contracts.Common.Table.{Table, lookup}
use snails_contracts.Farming.Farmer
use snails_contracts.Farming.Farmer.{Farmer, SeedType, FarmSeed, or_zero}
use snails_contracts.Farming.Contract.{ContractData, assert_contract_running}
use snails_contracts.Farming.Contract.Storage.{
  register_found, internal_register_account, register_new, complement, account_or, is_true,
  internal_farmer_storage, suggested_min_storage_usage, storage_balance_of, storage_deposit,
  take_storage, amount_or, storage_withdraw, StorageBalance, is_empty, leave, left_of,
  storage_unregister,
}
use snails_contracts.Farming.Contract.Conservation.{
  SeedsBalanced, seeds_of, staked-remove, remove-Distinct, same_seeds-SeedsBalanced,
}
use snails_contracts.Farming.Contract.Conservation.Claims.{farmer_written}

-- A farmer who is added has no seeds.
register-SeedsBalanced :
    (o : Option Farmer) (c : ContractData) (account_id amount : ℕ) {c' : ContractData}
    → lookup account_id c.farmers ≡ o
    → register_found o c account_id amount ≡ ok c'
    → SeedsBalanced c
    → SeedsBalanced c'
unfolding register_found Farmer.new lookup
register-SeedsBalanced (some w) c account_id amount e h b =
    >>=-elim (expect Fault.unwrap_none (checked_add u128 w.amount amount)) _ h λ sum h₁ r₁.
      subst SeedsBalanced (ok-injective r₁)
        (farmer_written c _ account_id w (record w { amount = sum }) b e refl (λ k. refl) refl)
register-SeedsBalanced none c account_id amount e h b =
    >>=-elim (expect Fault.unwrap_none (checked_add u64 c.farmer_count 1)) _ h λ count h₁ r₁.
      subst SeedsBalanced (ok-injective r₁) (
        same_seeds-SeedsBalanced c _ account_id
          (Farmer.new (left_of (lookup account_id c.left_rps)) amount) b refl (λ k. refl)
          (λ k. ap (λ o. seeds_of o k) (sym e)))

abbrev FirstSeedsBalanced : ContractData × ℕ → Type 0
FirstSeedsBalanced r = SeedsBalanced r.0

register_new-SeedsBalanced :
    (c : ContractData) (account_id amount least : ℕ) (only : Bool) {r : ContractData × ℕ}
    → register_new c account_id amount least only ≡ ok r
    → SeedsBalanced c
    → FirstSeedsBalanced r
unfolding register_new
register_new-SeedsBalanced c account_id amount least true h b =
    >>=-elim (internal_register_account c account_id least) _ h λ c₁ h₁ r₁.
      >>=-elim (expect Fault.unwrap_none (checked_sub amount least)) _ r₁ λ n h₂ r₂.
        subst FirstSeedsBalanced (ok-injective r₂)
          (register-SeedsBalanced (lookup account_id c.farmers) c account_id least refl h₁ b)
register_new-SeedsBalanced c account_id amount least false h b =
    >>=-elim (internal_register_account c account_id amount) _ h λ c₁ h₁ r₁.
      subst FirstSeedsBalanced (ok-injective r₁)
        (register-SeedsBalanced (lookup account_id c.farmers) c account_id amount refl h₁ b)

complement-SeedsBalanced :
    (c : ContractData) (account_id amount locked deposited : ℕ) (only : Bool) {r : ContractData × ℕ}
    → complement c account_id amount locked deposited only ≡ ok r
    → SeedsBalanced c
    → FirstSeedsBalanced r
unfolding complement
complement-SeedsBalanced c account_id amount locked deposited true h b = absurd (cc)
complement-SeedsBalanced c account_id amount locked deposited false h b =
    >>=-elim (expect Fault.overflow (checked_add u128 amount deposited)) _ h λ sum h₁ r₁.
      >>=-elim (guard (leb locked sum) Fault.storage_shortage) _ r₁ λ _ h₂ r₂.
        >>=-elim (internal_register_account c account_id amount) _ r₂ λ c₁ h₃ r₃.
          subst FirstSeedsBalanced (ok-injective r₃)
            (register-SeedsBalanced (lookup account_id c.farmers) c account_id amount refl h₃ b)

pub storage_deposit-SeedsBalanced :
    (byte_cost : ℕ) (c : ContractData) (predecessor amount : ℕ) (named : Option ℕ)
    (only : Option Bool) {r : ContractData × StorageBalance × ℕ}
    → storage_deposit byte_cost c predecessor amount named only ≡ ok r
    → SeedsBalanced c
    → SeedsBalanced r.0
unfolding storage_deposit
storage_deposit-SeedsBalanced byte_cost c predecessor amount named only h b =
    let account_id = account_or named predecessor in
    >>=-elim (assert_contract_running c.state) _ h λ _ h₁ r₁.
      >>=-elim (internal_farmer_storage byte_cost c account_id) _ r₁ λ p h₂ r₂.
        >>=-elim
          (if p.1 == 0
            then (do
              least ← suggested_min_storage_usage byte_cost
              guard (leb least amount) Fault.storage_shortage
              register_new c account_id amount least (is_true only))
            else complement c account_id amount p.0 p.1 (is_true only))
          _ r₂
          λ d h₃ r₃. >>=-elim (storage_balance_of byte_cost d.0 account_id) _ r₃ λ found h₄ r₄.
            >>=-elim (expect_some Fault.unwrap_none found) _ r₄ λ balance h₅ r₅.
              let kept : FirstSeedsBalanced d = elim (Bool-cases (p.1 == 0)) [
                | inl fresh ↦
                    >>=-elim (suggested_min_storage_usage byte_cost) _ (rw fresh at h₃)
                      λ least h₆ r₆.
                        >>=-elim (guard (leb least amount) Fault.storage_shortage) _ r₆ λ _ h₇ r₇.
                          register_new-SeedsBalanced c account_id amount least (is_true only) r₇ b
                | inr known ↦
                    complement-SeedsBalanced c account_id amount p.0 p.1 (is_true only)
                      (rw known at h₃) b
              ] in
              subst (λ (r : ContractData × StorageBalance × ℕ). SeedsBalanced r.0) (ok-injective r₅)
                kept

take_storage-SeedsBalanced :
    (c : ContractData) (account_id locked deposited : ℕ) (asked : Option ℕ) {r : ContractData × ℕ}
    → take_storage c account_id locked deposited asked ≡ ok r
    → SeedsBalanced c
    → FirstSeedsBalanced r
unfolding take_storage
take_storage-SeedsBalanced c account_id locked deposited asked h b =
    let amount = amount_or asked (deposited - locked) in
    >>=-elim (guard (leb locked deposited) Fault.storage_shortage) _ h λ _ h₁ r₁.
      >>=-elim (expect Fault.overflow (checked_add u128 locked amount)) _ r₁ λ sum h₂ r₂.
        >>=-elim (guard (leb sum deposited) Fault.storage_shortage) _ r₂ λ _ h₃ r₃.
          >>=-elim (expect_some Fault.account_not_registered (lookup account_id c.farmers)) _ r₃
            λ w h₄ r₄.
              >>=-elim (expect Fault.unwrap_none (checked_sub w.amount amount)) _ r₄ λ left h₅ r₅.
                subst FirstSeedsBalanced (ok-injective r₅) (
                  farmer_written c _ account_id w (record w { amount = left }) b
                    (expect_some-ok _ _ h₄) refl (λ k. refl) refl)

pub storage_withdraw-SeedsBalanced :
    (one_yocto : Result (Unit {0})) (byte_cost : ℕ) (c : ContractData) (account_id : ℕ)
    (asked : Option ℕ) {r : ContractData × StorageBalance × ℕ}
    → storage_withdraw one_yocto byte_cost c account_id asked ≡ ok r
    → SeedsBalanced c
    → SeedsBalanced r.0
unfolding storage_withdraw
storage_withdraw-SeedsBalanced one_yocto byte_cost c account_id asked h b =
    >>=-elim one_yocto _ h λ _ h₁ r₁. >>=-elim (assert_contract_running c.state) _ r₁ λ _ h₂ r₂.
      >>=-elim (internal_farmer_storage byte_cost c account_id) _ r₂ λ p h₃ r₃.
        >>=-elim (guard (ltb 0 p.1) Fault.account_not_registered) _ r₃ λ _ h₄ r₄.
          >>=-elim (take_storage c account_id p.0 p.1 asked) _ r₄ λ d h₅ r₅.
            >>=-elim (storage_balance_of byte_cost d.0 account_id) _ r₅ λ found h₆ r₆.
              >>=-elim (expect_some Fault.unwrap_none found) _ r₆ λ balance h₇ r₇.
                subst (λ (r : ContractData × StorageBalance × ℕ). SeedsBalanced r.0)
                  (ok-injective r₇) (take_storage-SeedsBalanced c account_id p.0 p.1 asked h₅ b)

is_empty-ok : (t : Table ℕ) → is_empty t ≡ true → t ≡ []
is_empty-ok [] h = refl
is_empty-ok (_ ∷ _) h = absurd (cc)

-- A farmer who leaves has staked nothing.
leave-SeedsBalanced :
    (o : Option Farmer) (c : ContractData) (account_id : ℕ) {r : ContractData × Bool × ℕ}
    → lookup account_id c.farmers ≡ o
    → leave o c account_id ≡ ok r
    → SeedsBalanced c
    → SeedsBalanced r.0
unfolding leave lookup
leave-SeedsBalanced none c account_id e h b =
    subst (λ (r : ContractData × Bool × ℕ). SeedsBalanced r.0) (ok-injective h) b
leave-SeedsBalanced (some w) c account_id e h b =
    >>=-elim (guard (is_empty w.rewards) Fault.rewards_not_empty) _ h λ _ h₁ r₁.
      >>=-elim (guard (is_empty w.seeds) Fault.seeds_not_empty) _ r₁ λ _ h₂ r₂.
        >>=-elim (expect Fault.unwrap_none (checked_sub c.farmer_count 1)) _ r₂ λ count h₃ r₃.
          let empty = is_empty-ok w.seeds (guard-eq-ok _ _ h₂) in
          subst (λ (r : ContractData × Bool × ℕ). SeedsBalanced r.0) (ok-injective r₃)
            (record {
              balanced = λ k.
                  let gone = staked-remove account_id k c.farmers b.distinct in
                  let none_staked : seeds_of (lookup account_id c.farmers) k ≡ 0 =
                    ap (λ o. seeds_of o k) e ∙ ap (λ t. or_zero (lookup k t)) empty in
                  let was = b.balanced k in omega (arith, gone, none_staked, was);
              distinct = remove-Distinct account_id c.farmers b.distinct;
            })

pub storage_unregister-SeedsBalanced :
    (one_yocto : Result (Unit {0})) (c : ContractData) (account_id : ℕ)
    {r : ContractData × Bool × ℕ}
    → storage_unregister one_yocto c account_id ≡ ok r
    → SeedsBalanced c
    → SeedsBalanced r.0
unfolding storage_unregister
storage_unregister-SeedsBalanced one_yocto c account_id h b = >>=-elim one_yocto _ h λ _ h₁ r₁.
    >>=-elim (assert_contract_running c.state) _ r₁
      λ _ h₂ r₂. leave-SeedsBalanced (lookup account_id c.farmers) c account_id refl r₂ b
