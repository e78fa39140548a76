-- ===== src/Farming/Contract/Rejoining.antt =====
-- A farmer who leaves the farming contract and registers again: `storage_unregister` of
-- snails_farming/src/storage_impl.rs and `remove_rps` of farmer.rs.
use snails_contracts.Common.{
  ℕ, ◌≡◌, refl, ap, ◌∙◌, Bool, true, none, some, ◌==◌, Result, ok, panic, guard, expect, >>=-elim,
  ok-injective, Fault, checked_add, checked_sub, u64, arith,
}
use snails_contracts.Common.Table.{Table, lookup, contains_key, lookup-insert_self, lookup-remove}
use snails_contracts.Farming.Farmer
use snails_contracts.Farming.Farmer.{Farmer, get_rps, remove_rps, or_zero}
use snails_contracts.Farming.Contract.{ContractData, assert_contract_running}
use snails_contracts.Farming.Contract.Storage.{
  is_empty, leave, left_of, register_found, internal_register_account, storage_unregister,
}

-- What leaving keeps of a farmer.
leave_lem :
    (c : ContractData) (account_id : ℕ) (w : Farmer) {r : ContractData × Bool × ℕ}
    → leave (some w) c account_id ≡ ok r
    → (lookup account_id (r.0).farmers ≡ none)
      × (lookup account_id (r.0).left_rps ≡ some w.user_rps)
unfolding leave
leave_lem c account_id w h =
    >>=-elim (guard (is_empty w.rewards) Fault.rewards_not_empty) _ h λ _ h₁ r₁.
      >>=-elim (guard (is_empty w.seeds) Fault.seeds_not_empty) _ r₁ λ _ h₂ r₂.
        >>=-elim (expect Fault.unwrap_none (checked_sub c.farmer_count 1)) _ r₂ λ count h₃ r₃.
          let same : (account_id == account_id) ≡ true = ground arith in
          rw (← ok-injective r₃) (
            lookup-remove account_id account_id c.farmers ∙ rw same refl,
            lookup-insert_self account_id w.user_rps c.left_rps,
          )

-- What a registration of an unknown account makes of it.
register_found_lem :
    (c : ContractData) (account_id amount : ℕ) {c' : ContractData}
    → register_found none c account_id amount ≡ ok c'
    → lookup account_id c'.farmers
      ≡ some (Farmer.new (left_of (lookup account_id c.left_rps)) amount)
unfolding register_found
register_found_lem c account_id amount h =
    >>=-elim (expect Fault.unwrap_none (checked_add u64 c.farmer_count 1)) _ h λ count h₁ r₁.
      rw (← ok-injective r₁) (
        lookup-insert_self account_id (Farmer.new (left_of (lookup account_id c.left_rps)) amount)
          c.farmers)

unregistered :
    (one_yocto : Result (Unit {0})) (c : ContractData) (account_id : ℕ)
    {r : ContractData × Bool × ℕ}
    → storage_unregister one_yocto c account_id ≡ ok r
    → leave (lookup account_id c.farmers) c account_id ≡ ok r
unfolding storage_unregister
unregistered one_yocto c account_id h =
    >>=-elim one_yocto _ h λ _ h₁ r₁. >>=-elim (assert_contract_running c.state) _ r₁ λ _ h₂ r₂. r₂

stuck :
    (rps : Table ℕ) (amount farm_id : ℕ)
    → contains_key farm_id rps ≡ true
    → remove_rps (Farmer.new rps amount) farm_id ≡ panic Fault.unwrap_none
unfolding remove_rps Farmer.new checked_sub
stuck rps amount farm_id known = rw known refl

-- When a farmer whose record has a reward per seed for a farm leaves the contract and his account is
-- registered again, its new record has the old reward per seed for the farm and a count of 0, and
-- the removal of that reward per seed panics.
pub storage_unregister-internal_register_account :
    (one_yocto : Result (Unit {0})) (c c' : ContractData) (account_id amount farm_id : ℕ)
    (w : Farmer) {r : ContractData × Bool × ℕ}
    → lookup account_id c.farmers ≡ some w
    → contains_key farm_id w.user_rps ≡ true
    → storage_unregister one_yocto c account_id ≡ ok r
    → internal_register_account r.0 account_id amount ≡ ok c'
    → (w' : Farmer) × (lookup account_id c'.farmers ≡ some w')
      × (get_rps w' farm_id ≡ get_rps w farm_id)
      × (w'.rps_count ≡ 0)
      × (remove_rps w' farm_id ≡ panic Fault.unwrap_none)
unfolding get_rps Farmer.new left_of
storage_unregister-internal_register_account one_yocto c c' account_id amount farm_id w {r} found
      known left back =
    let leaves : leave (some w) c account_id ≡ ok r =
      rw found at (unregistered one_yocto c account_id left) in
    let kept = leave_lem c account_id w leaves in
    let fresh : register_found none r.0 account_id amount ≡ ok c' = rw kept.0 at back in
    let in_table : lookup account_id c'.farmers ≡ some (Farmer.new w.user_rps amount) =
      register_found_lem r.0 account_id amount fresh
      ∙ ap (λ o. some (Farmer.new (left_of o) amount)) kept.1 in
    (Farmer.new w.user_rps amount, in_table, refl, refl, stuck w.user_rps amount farm_id known)
