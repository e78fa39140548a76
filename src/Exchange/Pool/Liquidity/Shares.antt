-- ===== src/Exchange/Pool/Liquidity/Shares.antt =====
-- The shares of a pool always add up to its supply, through every method.
use snails_contracts.Common.{
  ℕ, zero, suc, ◌+◌, ◌≡◌, ◌≢◌, refl, sym, ap, ◌∙◌, List, some, Option-cases, inl, inr, true, false,
  if◌then◌else◌, ◌==◌, ok, arith, >>=-elim, guard, guard-eq-ok, pos→ne, ◌<◌, ok-injective, expect,
  expect-ok, ltb, index, checked_add, checked_add-ok, checked_sub, checked_sub-ok, Fault, u128,
}
use snails_contracts.Common.Table.{
  Table, lookup, insert, total, total-insert, total-insert_new, lookup-insert_self,
  lookup-insert_ne,
}
use snails_contracts.Exchange.Curve.Status.{PoolStatus}
use snails_contracts.Exchange.Pool.State.{
  SimplePool, coin_num, write, add_at, or_zero, add_to_collection, mint_shares, share_balance_of,
}
use snails_contracts.Exchange.Pool.Liquidity.{
  settle_coins, first, assert_direction, process_amount_and_fees, add_liquidity_impl, add_liquidity,
}

-- The shares of all accounts add up to the supply.
pub record SharesBalanced (p : SimplePool) : Type 0 where
  pub balanced : total p.shares ≡ p.shares_total_supply

-- A report changes the amounts and the fees only.
pub record SameShares (p p' : SimplePool) : Type 0 where
  pub shares : p'.shares ≡ p.shares
  pub supply : p'.shares_total_supply ≡ p.shares_total_supply
  pub tokens : p'.token_account_ids ≡ p.token_account_ids

settle_coins-SameShares :
    (left i : ℕ) (status : PoolStatus) (p : SimplePool) {p' : SimplePool}
    → settle_coins left i status p ≡ ok p'
    → SameShares p p'
unfolding settle_coins
settle_coins-SameShares zero i status p h =
    rw (← ok-injective h) (record { shares = refl; supply = refl; tokens = refl })
settle_coins-SameShares (suc left) i status p h =
    >>=-elim (index status.new_balances i) _ h λ b h₁ r₁.
      >>=-elim (write p.amounts i b) _ r₁ λ amounts h₂ r₂.
        >>=-elim (index status.total_fee_amount i) _ r₂ λ t h₃ r₃.
          >>=-elim (add_at p.total_fees i t) _ r₃ λ total_fees h₄ r₄.
            >>=-elim (index status.admin_fee_amount i) _ r₄ λ a h₅ r₅.
              >>=-elim (add_at p.admin_fees i a) _ r₅ λ admin_fees h₆ r₆.
                let same =
                  settle_coins-SameShares left (suc i) status
                    (record p {
                      amounts = amounts;
                      total_fees = total_fees;
                      admin_fees = admin_fees;
                    })
                    r₆ in
                record { shares = same.shares; supply = same.supply; tokens = same.tokens }

-- The balance of an account after an addition, of the others, and the sum of all.
add_to_collection_lem :
    (c : Table ℕ) (key value : ℕ) {c' : Table ℕ}
    → add_to_collection c key value ≡ ok c'
    → (total c' ≡ total c + value)
      × (lookup key c' ≡ some (or_zero (lookup key c) + value))
      × ((k : ℕ) → k ≢ key → lookup k c' ≡ lookup k c)
unfolding add_to_collection
add_to_collection_lem c key value h =
    >>=-elim (expect Fault.unwrap_none (checked_add u128 (or_zero (lookup key c)) value)) _ h
      λ n h₁ r₁.
        let e =
          checked_add-ok u128 (or_zero (lookup key c)) value (expect-ok Fault.unwrap_none _ h₁) in
        rw (← ok-injective r₁) (
          elim (Option-cases (lookup key c)) [
            | inl new ↦ ground (arith, e, total-insert_new key n c new)
            | inr (old, known) ↦ ground (arith, e, total-insert key n old c known)
          ],
          rw (lookup-insert_self key n c) (ground (arith, e)),
          λ k ne. lookup-insert_ne key k n c ne,
        )

-- Shares are minted for one account: the supply and the account grow by as many, and no other
-- account changes.
pub record Mints (p p' : SimplePool) (account minted : ℕ) : Type 0 where
  pub keeps : SharesBalanced p → SharesBalanced p'
  pub supply : p'.shares_total_supply ≡ p.shares_total_supply + minted
  pub own : share_balance_of p' account ≡ share_balance_of p account + minted
  pub others : (k : ℕ) → k ≢ account → lookup k p'.shares ≡ lookup k p.shares

-- Shares of one account are burnt.
pub record Burns (p p' : SimplePool) (account burnt : ℕ) : Type 0 where
  pub keeps : SharesBalanced p → SharesBalanced p'
  pub supply : p'.shares_total_supply + burnt ≡ p.shares_total_supply
  pub own : share_balance_of p' account + burnt ≡ share_balance_of p account
  pub others : (k : ℕ) → k ≢ account → lookup k p'.shares ≡ lookup k p.shares

mint_shares-Mints :
    (p : SimplePool) (account shares : ℕ) {p' : SimplePool}
    → mint_shares p account shares ≡ ok p'
    → 0 < shares
    → Mints p p' account shares
unfolding mint_shares share_balance_of
mint_shares-Mints p account shares h pos =
    let h' = rw (pos→ne shares pos) at h in
    >>=-elim (expect Fault.unwrap_none (checked_add u128 p.shares_total_supply shares)) _ h'
      λ n h₁ r₁. >>=-elim (add_to_collection p.shares account shares) _ r₁ λ table h₂ r₂.
        let e =
          checked_add-ok u128 p.shares_total_supply shares (expect-ok Fault.unwrap_none _ h₁) in
        let t = add_to_collection_lem p.shares account shares h₂ in
        rw (← ok-injective r₂) (record {
          keeps = λ b. record { balanced = omega (arith, e, t.0, b.balanced) };
          supply = e.0;
          own = rw t.1 refl;
          others = t.2;
        })

after_settle :
    (p p₁ p₂ : SimplePool) (account minted : ℕ)
    → SameShares p p₁
    → Mints p₁ p₂ account minted
    → Mints p p₂ account minted
unfolding share_balance_of
after_settle p p₁ p₂ account minted same m =
    let at_account : or_zero (lookup account p₁.shares) ≡ or_zero (lookup account p.shares) =
      ap (λ t. or_zero (lookup account t)) same.shares in
    record {
      keeps =
          λ b. m.keeps (record { balanced = ap total same.shares ∙ b.balanced ∙ sym same.supply });
      supply = omega (arith, m.supply, same.supply);
      own = omega (arith, m.own, at_account);
      others = λ k ne. m.others k ne ∙ ap (lookup k) same.shares;
    }

-- What is left to the account.
left_lem :
    (prev burnt : ℕ) {left : ℕ}
    → (if prev == burnt then ok 0 else expect Fault.unwrap_none (checked_sub prev burnt)) ≡ ok left
    → left + burnt ≡ prev
unfolding checked_sub
left_lem prev burnt h = ground arith

insert-Burns :
    (p p₁ : SimplePool) (sender prev left burnt : ℕ)
    → p₁.shares ≡ p.shares
    → p₁.shares_total_supply + burnt ≡ p.shares_total_supply
    → lookup sender p.shares ≡ some prev
    → left + burnt ≡ prev
    → Burns p (record p₁ { shares = insert sender left p₁.shares }) sender burnt
unfolding share_balance_of
insert-Burns p p₁ sender prev left burnt same supply known rest = record {
  keeps = λ b. record {
    balanced = rw same (omega (arith, total-insert sender left prev p.shares known, b.balanced));
  };
  supply = supply;
  own = rw (lookup-insert_self sender left p₁.shares, known) rest;
  others = λ k ne. lookup-insert_ne sender k left p₁.shares ne ∙ ap (lookup k) same;
}

pub process-Burns :
    (p : SimplePool) (sender prev : ℕ) (status : PoolStatus) {r : SimplePool × List ℕ}
    → process_amount_and_fees p sender prev status ≡ ok r
    → lookup sender p.shares ≡ some prev
    → Burns p r.0 sender status.pool_lp_token_changed
unfolding process_amount_and_fees share_balance_of
process-Burns p sender prev status h known =
    let burnt = status.pool_lp_token_changed in
    >>=-elim (assert_direction status false) _ h λ _ h₀ r₀.
      >>=-elim (expect Fault.unwrap_none (checked_sub p.shares_total_supply burnt)) _ r₀ λ n h₁ r₁.
        >>=-elim (settle_coins (coin_num p) 0 status (record p { shares_total_supply = n })) _ r₁
          λ p₁ h₂ r₂. >>=-elim (first (coin_num p) status.recieved_amount) _ r₂ λ result h₃ r₃.
            >>=-elim
              (if prev == burnt then ok 0 else expect Fault.unwrap_none (checked_sub prev burnt)) _
              r₃
              λ left h₄ r₄.
                let same =
                  settle_coins-SameShares (coin_num p) 0 status
                    (record p { shares_total_supply = n }) h₂ in
                let e =
                  checked_sub-ok p.shares_total_supply burnt (expect-ok Fault.unwrap_none _ h₁) in
                let l = left_lem prev burnt h₄ in
                rw (← ok-injective r₄) (
                  insert-Burns p p₁ sender prev left burnt same.shares
                    (omega (arith, e, same.supply)) known l)

-- A deposit that succeeds mints the shares that it returns, at least one, for the depositor.
pub add_liquidity-Mints :
    (now : ℕ) (p : SimplePool) (sender : ℕ) (deposits : List ℕ) {r : SimplePool × ℕ × List ℕ}
    → add_liquidity now p sender deposits ≡ ok r
    → (0 < r.1) × Mints p r.0 sender r.1
unfolding add_liquidity
add_liquidity-Mints now p sender deposits h =
    >>=-elim (add_liquidity_impl now p deposits) _ h λ status h₁ r₁.
      >>=-elim (assert_direction status true) _ r₁ λ _ h₂ r₂.
        >>=-elim (settle_coins (coin_num p) 0 status p) _ r₂ λ p₁ h₃ r₃.
          let minted = status.pool_lp_token_changed in
          >>=-elim (mint_shares p₁ sender minted) _ r₃ λ p₂ h₄ r₄.
            >>=-elim (guard (ltb 0 minted) Fault.zero_shares) _ r₄ λ _ h₅ r₅.
              let pos : 0 < minted =
                ground (arith, guard-eq-ok (ltb 0 minted) Fault.zero_shares h₅) in
              rw (← ok-injective r₅) (
                pos,
                after_settle p p₁ p₂ sender minted
                    (settle_coins-SameShares (coin_num p) 0 status p h₃)
                    (mint_shares-Mints p₁ sender minted h₄ pos),
              )
