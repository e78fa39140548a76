-- ===== src/Exchange/Pool/History.antt =====
-- Every history of a pool: from its creation by any methods in any order, at any times.
use snails_contracts.Common.{
  ℕ, ap, sym, ◌∙◌, ◌-◌, ◌≡◌, refl, true, false, List, length, ok, arith, if◌then◌else◌, ◌==◌, leb,
  >>=-elim, ok-injective, guard, guard-eq-ok, expect, expect-ok, expect_some, expect_some-ok,
  checked_add, checked_add-ok, Fault, u128,
}
use snails_contracts.Common.Table.{
  lookup, insert, contains_key, not_contained, total, total-insert, total-insert_new,
}
use snails_contracts.Exchange.Fees.{Fees}
use snails_contracts.Exchange.Pool.State
use snails_contracts.Exchange.Pool.State.{
  SimplePool, add_at, share_transfer, share_register, change_fees_setting, set_amp_params,
}
use snails_contracts.Exchange.Pool.Liquidity.{
  add_liquidity, remove_liquidity, remove_liquidity_imbalance, remove_liquidity_one_coin,
}
use snails_contracts.Exchange.Pool.Liquidity.Shares.{SharesBalanced, add_liquidity-Mints}
use snails_contracts.Exchange.Pool.Liquidity.Removal.{
  remove_liquidity-Burns, remove_liquidity_imbalance-Burns, remove_liquidity_one_coin-Burns,
}
use snails_contracts.Exchange.Pool.Trade.{sub_at, add_volume, settle_swap, swap}
use snails_contracts.Exchange.Pool.Trade.Accounting.{swap_steps}

-- One method of a pool.
pub data Step : SimplePool → SimplePool → Type 0 where
  deposits :
      (now : ℕ) (p : SimplePool) (sender : ℕ) (amounts : List ℕ) {r : SimplePool × ℕ × List ℕ}
      → add_liquidity now p sender amounts ≡ ok r
      → Step p r.0
  removes :
      (now : ℕ) (p : SimplePool) (sender shares : ℕ) (min_amounts : List ℕ)
      {r : SimplePool × List ℕ × List ℕ}
      → remove_liquidity now p sender shares min_amounts ≡ ok r
      → Step p r.0
  takes :
      (now : ℕ) (p : SimplePool) (sender : ℕ) (amounts : List ℕ) {r : SimplePool × ℕ × List ℕ}
      → remove_liquidity_imbalance now p sender amounts ≡ ok r
      → Step p r.0
  takes_one :
      (now : ℕ) (p : SimplePool) (sender token shares min_amount : ℕ)
      {r : SimplePool × List ℕ × List ℕ}
      → remove_liquidity_one_coin now p sender token shares min_amount ≡ ok r
      → Step p r.0
  swaps :
      (now : ℕ) (p : SimplePool) (token_in amount_in token_out min_amount : ℕ)
      {r : SimplePool × ℕ × ℕ}
      → swap now p token_in amount_in token_out min_amount ≡ ok r
      → Step p r.0
  transfers :
      (p : SimplePool) (sender receiver amount : ℕ) {p' : SimplePool}
      → share_transfer p sender receiver amount ≡ ok p'
      → Step p p'
  registers :
      (p : SimplePool) (account : ℕ) {p' : SimplePool}
      → share_register p account ≡ ok p'
      → Step p p'
  sets_fees : (p : SimplePool) (fees : Fees) → Step p (change_fees_setting p fees)
  sets_amp :
      (p : SimplePool) (initial target start stop : ℕ)
      → Step p (set_amp_params p initial target start stop)

pub data Reachable : SimplePool → Type 0 where
  creates :
      (initial target start stop : ℕ) (fees : Fees) (tokens decimals : List ℕ) {p : SimplePool}
      → State.new initial target start stop fees tokens decimals ≡ ok p
      → Reachable p
  follows : {p p' : SimplePool} → Reachable p → Step p p' → Reachable p'

share_transfer-total :
    (p : SimplePool) (sender receiver amount : ℕ) {p' : SimplePool}
    → share_transfer p sender receiver amount ≡ ok p'
    → (total p'.shares ≡ total p.shares) × (p'.shares_total_supply ≡ p.shares_total_supply)
unfolding share_transfer
share_transfer-total p sender receiver amount h =
    >>=-elim (expect_some Fault.no_shares (lookup sender p.shares)) _ h λ balance h₁ r₁.
      >>=-elim (guard (leb amount balance) Fault.not_enough_shares) _ r₁ λ _ h₂ r₂.
        let sent = insert sender (balance - amount) p.shares in
        >>=-elim (expect_some Fault.lp_not_registered (lookup receiver sent)) _ r₂ λ out h₃ r₃.
          >>=-elim (expect Fault.unwrap_none (checked_add u128 out amount)) _ r₃ λ sum h₄ r₄.
            let out_of =
              total-insert sender (balance - amount) balance p.shares (expect_some-ok _ _ h₁) in
            let into = total-insert receiver sum out sent (expect_some-ok _ _ h₃) in
            let e = checked_add-ok u128 out amount (expect-ok _ _ h₄) in
            let le = guard-eq-ok (leb amount balance) Fault.not_enough_shares h₂ in
            rw (← ok-injective r₄) (ground (arith, out_of, into, e, le), refl)

share_register-total :
    (p : SimplePool) (account : ℕ) {p' : SimplePool}
    → share_register p account ≡ ok p'
    → (total p'.shares ≡ total p.shares) × (p'.shares_total_supply ≡ p.shares_total_supply)
unfolding share_register
share_register-total p account h =
    let known = contains_key account p.shares in
    >>=-elim (guard (if known then false else true) Fault.lp_already_registered) _ h λ _ h₁ r₁.
      let new =
        not_contained account p.shares
          (ground (arith, guard-eq-ok (if known then false else true) _ h₁)) in
      rw (← ok-injective r₁) (omega (arith, total-insert_new account 0 p.shares new), refl)

swap-shares :
    (now : ℕ) (p : SimplePool) (token_in amount_in token_out min_amount : ℕ)
    {r : SimplePool × ℕ × ℕ}
    → swap now p token_in amount_in token_out min_amount ≡ ok r
    → ((r.0).shares ≡ p.shares) × ((r.0).shares_total_supply ≡ p.shares_total_supply)
unfolding settle_swap
swap-shares now p token_in amount_in token_out min_amount h =
    let (s, i, j, result, at_now, hi, hj, done, least, settled) =
      swap_steps now p token_in amount_in token_out min_amount h in
    >>=-elim (add_at p.amounts i amount_in) _ settled λ grown h₁ r₁.
      >>=-elim (sub_at grown j result.amount_b) _ r₁ λ amounts h₂ r₂.
        >>=-elim (add_at p.total_fees j result.total_fee) _ r₂ λ total_fees h₃ r₃.
          >>=-elim (add_at p.admin_fees j result.admin_fee) _ r₃ λ admin_fees h₄ r₄.
            >>=-elim (add_volume p.volumes i amount_in result.amount_b) _ r₄
              λ volumes h₅ r₅. rw (← ok-injective r₅) (refl, refl)

Step-SharesBalanced : {p p' : SimplePool} → Step p p' → SharesBalanced p → SharesBalanced p'
unfolding change_fees_setting set_amp_params
Step-SharesBalanced (Step.deposits now p sender amounts h) b =
    ((add_liquidity-Mints now p sender amounts h).1).keeps b
Step-SharesBalanced (Step.removes now p sender shares min_amounts h) b =
    (remove_liquidity-Burns now p sender shares min_amounts h).keeps b
Step-SharesBalanced (Step.takes now p sender amounts h) b =
    (remove_liquidity_imbalance-Burns now p sender amounts h).keeps b
Step-SharesBalanced (Step.takes_one now p sender token shares min_amount h) b =
    (remove_liquidity_one_coin-Burns now p sender token shares min_amount h).keeps b
Step-SharesBalanced (Step.swaps now p token_in amount_in token_out min_amount h) b =
    let same = swap-shares now p token_in amount_in token_out min_amount h in
    record { balanced = ap total same.0 ∙ b.balanced ∙ sym same.1 }
Step-SharesBalanced (Step.transfers p sender receiver amount h) b =
    let same = share_transfer-total p sender receiver amount h in
    record { balanced = same.0 ∙ b.balanced ∙ sym same.1 }
Step-SharesBalanced (Step.registers p account h) b =
    let same = share_register-total p account h in
    record { balanced = same.0 ∙ b.balanced ∙ sym same.1 }
Step-SharesBalanced (Step.sets_fees p fees) b = record { balanced = b.balanced }
Step-SharesBalanced (Step.sets_amp p initial target start stop) b = record { balanced = b.balanced }

-- After every history of the methods of a pool the shares of all accounts add up to the supply.
pub Reachable-SharesBalanced : {p : SimplePool} → Reachable p → SharesBalanced p
unfolding State.new total
Reachable-SharesBalanced (Reachable.creates initial target start stop fees tokens decimals h) =
    >>=-elim (guard (length tokens == length decimals) Fault.assertion) _ h
      λ _ h₁ r₁. rw (← ok-injective r₁) (record { balanced = refl })
Reachable-SharesBalanced (Reachable.follows before step) =
    Step-SharesBalanced step (Reachable-SharesBalanced before)
