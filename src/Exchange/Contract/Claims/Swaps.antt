-- ===== src/Exchange/Contract/Claims/Swaps.antt =====
-- What swaps and the owner's settings do to the claims.
use snails_contracts.Common.{
  ℕ, zero, suc, ◌++◌, ◌∷◌, length-replicate, ◌≡◌, refl, ap, List, [], ok, panic, absent, ◌>>=◌,
  arith, ◌==◌, Result, >>=-elim, ok-injective, guard, guard-eq-ok, expect_some, expect_some-ok,
  Fault, get_elem?, length, some,
}
use snails_contracts.Common.Table.{lookup}
use snails_contracts.Exchange.Fees.{Fees, assert_fees_info_valid}
use snails_contracts.Exchange.Pool.State
use snails_contracts.Exchange.Pool.State.{SimplePool}
use snails_contracts.Exchange.Pool.Trade
use snails_contracts.Exchange.Pool.Holdings.{amount_of, amount_of-replicate}
use snails_contracts.Exchange.Pool.Holdings.Coins.{IsSized}
use snails_contracts.Exchange.Pool.Holdings.Swaps.{swap-Trades}
use snails_contracts.Exchange.Account.{
  assert_contract_running, deposit, withdraw, internal_unwrap_account, internal_save_account,
}
use snails_contracts.Exchange.Account.Storage.{save-AllCovered}
use snails_contracts.Exchange.Contract.{
  SnailSwap, Call, get_pool, replace_pool, swap_core, swap, reread, change_fees_setting,
  set_amp_params, assert_owner, check_token_duplicates, internal_check_storage, internal_add_pool,
  add_simple_pool,
}
use snails_contracts.Exchange.Contract.Swaps.{get_deposit-some, reread-balance}
use snails_contracts.Exchange.Contract.Liquidity.Deposits.{deposit-balance, withdraw-balance}
use snails_contracts.Exchange.Contract.Claims.Pools.{get_pool-ok}
use snails_contracts.Exchange.Contract.Claims.{
  claims, deposits_of, deposits_of-insert, pooled-set, pooled-append, PoolsSized, set-PoolsSized,
  Books, only, nothing,
}

-- The owner's fee of a swap, by the pool's own computation.
unfoldable pub fee_paid : Result (SimplePool × ℕ × ℕ) → ℕ
fee_paid absent = 0
fee_paid (panic e) = 0
fee_paid (ok (p, amount_out, admin_fee)) = admin_fee

unfoldable pub swap_fee : ℕ → SnailSwap → ℕ → ℕ → ℕ → ℕ → ℕ → ℕ
swap_fee now c pool_id token_in amount_in token_out least =
    fee_paid (get_pool c pool_id >>= λ p. Trade.swap now p token_in amount_in token_out least)

-- The inner call of a swap: what the pool pays is claimed by nobody yet, and the owner's fee is
-- claimed on top.
pub swap_core-claims :
    (now byte_cost : ℕ) (c : SnailSwap) (pool_id token_in amount_in token_out least : ℕ)
    {r : SnailSwap × ℕ}
    → swap_core now byte_cost c pool_id token_in amount_in token_out least ≡ ok r
    → PoolsSized c.pools
    → Books c r.0
        (only token_in amount_in)
        (only token_out r.1)
        (only token_out (swap_fee now c pool_id token_in amount_in token_out least))
unfolding swap_fee fee_paid swap_core internal_unwrap_account replace_pool claims
swap_core-claims now byte_cost c pool_id token_in amount_in token_out least h all =
    >>=-elim (assert_contract_running c.state) _ h λ _ h₁ r₁.
      >>=-elim (get_pool c pool_id) _ r₁ λ p h₂ r₂.
        >>=-elim (Trade.swap now p token_in amount_in token_out least) _ r₂ λ paid h₃ r₃.
          >>=-elim (expect_some Fault.account_not_registered (lookup c.owner_id c.accounts)) _ r₃
            λ a h₄ r₄. >>=-elim (deposit a token_out paid.2) _ r₄ λ a' h₅ r₅.
              >>=-elim (internal_save_account byte_cost c.accounts c.owner_id a') _ r₅
                λ accounts h₆ r₆.
                  let known = get_pool-ok c pool_id h₂ in
                  let trades =
                    swap-Trades now p token_in amount_in token_out least h₃ (all.each _ p known) in
                  let saved = (save-AllCovered byte_cost 0 c.accounts c.owner_id a' h₆).2 in
                  rw (← ok-injective r₆, h₂, h₃)
                    (record {
                      sized = set-PoolsSized c.pools pool_id paid.0 all trades.sized;
                      backed = λ k.
                          let q =
                            ap (λ (ts : List ℕ). amount_of ts (paid.0).amounts k) trades.tokens in
                          let total = deposits_of-insert c.owner_id k a' c.accounts in
                          let total' = ap (λ t. deposits_of t k) saved in
                          let before =
                            get_deposit-some c.accounts c.owner_id k a (expect_some-ok _ _ h₄) in
                          omega (
                            arith,
                            trades.held k,
                            q,
                            total,
                            total',
                            before,
                            deposit-balance a token_out paid.2 k h₅,
                            pooled-set c.pools pool_id k p paid.0 known,
                          );
                    })

pub swap-Books :
    (now byte_cost : ℕ) (c : SnailSwap) (sender pool_id token_in amount_in token_out least : ℕ)
    {r : SnailSwap × ℕ}
    → swap now byte_cost c sender pool_id token_in amount_in token_out least ≡ ok r
    → PoolsSized c.pools
    → Books c r.0 nothing nothing
        (only token_out (swap_fee now c pool_id token_in amount_in token_out least))
unfolding swap internal_unwrap_account claims
swap-Books now byte_cost c sender pool_id token_in amount_in token_out least h all =
    >>=-elim (expect_some Fault.account_not_registered (lookup sender c.accounts)) _ h λ a h₁ r₁.
      >>=-elim (swap_core now byte_cost c pool_id token_in amount_in token_out least) _ r₁
        λ core h₂ r₂. >>=-elim (reread a (core.0).accounts sender) _ r₂ λ a₀ h₀ r₀.
          >>=-elim (withdraw a₀ token_in amount_in) _ r₀ λ a₁ h₃ r₃.
            >>=-elim (deposit a₁ token_out core.1) _ r₃ λ a₂ h₄ r₄.
              >>=-elim (internal_save_account byte_cost (core.0).accounts sender a₂) _ r₄
                λ accounts h₅ r₅.
                  let inner =
                    swap_core-claims now byte_cost c pool_id token_in amount_in token_out least h₂
                      all in
                  let saved = (save-AllCovered byte_cost 0 (core.0).accounts sender a₂ h₅).2 in
                  rw (← ok-injective r₅) (record {
                    sized = inner.sized;
                    backed = λ k. omega (
                      arith,
                      inner.backed k,
                      deposits_of-insert sender k a₂ (core.0).accounts,
                      ap (λ t. deposits_of t k) saved,
                      reread-balance a (core.0).accounts sender k h₀,
                      withdraw-balance a₀ token_in amount_in k h₃,
                      deposit-balance a₁ token_out core.1 k h₄,
                    );
                  })

-- A pool that is replaced with the same tokens and balances.
pub replaced-Books :
    (c : SnailSwap) (pool_id : ℕ) (p p' : SimplePool)
    → get_elem? c.pools pool_id ≡ some p
    → PoolsSized c.pools
    → IsSized p'
    → p'.token_account_ids ≡ p.token_account_ids
    → p'.amounts ≡ p.amounts
    → Books c (replace_pool c pool_id p') nothing nothing nothing
unfolding replace_pool claims
replaced-Books c pool_id p p' known all sized same_tokens same_amounts = record {
  sized = set-PoolsSized c.pools pool_id p' all sized;
  backed = λ k.
      let q = ap (λ (ts : List ℕ). amount_of ts p'.amounts k) same_tokens in
      let q' = ap (λ (xs : List ℕ). amount_of p.token_account_ids xs k) same_amounts in
      omega (arith, pooled-set c.pools pool_id k p p' known, q, q');
}

pub change_fees_setting-Books :
    (c : SnailSwap) (predecessor pool_id : ℕ) (fees : Fees) {c' : SnailSwap}
    → change_fees_setting c predecessor pool_id fees ≡ ok c'
    → PoolsSized c.pools
    → Books c c' nothing nothing nothing
unfolding change_fees_setting State.change_fees_setting
change_fees_setting-Books c predecessor pool_id fees h all =
    >>=-elim (assert_owner c predecessor) _ h λ _ h₁ r₁.
      >>=-elim (assert_fees_info_valid fees) _ r₁ λ _ h₂ r₂.
        >>=-elim (get_pool c pool_id) _ r₂ λ p h₃ r₃.
          let known = get_pool-ok c pool_id h₃ in
          let sized = all.each _ p known in
          rw (← ok-injective r₃) (
            replaced-Books c pool_id p _ known all
              (record { amounts = sized.amounts; decimals = sized.decimals }) refl refl)

pub set_amp_params-Books :
    (now : ℕ) (c : SnailSwap) (predecessor pool_id initial target stop : ℕ) {c' : SnailSwap}
    → set_amp_params now c predecessor pool_id initial target stop ≡ ok c'
    → PoolsSized c.pools
    → Books c c' nothing nothing nothing
unfolding set_amp_params State.set_amp_params
set_amp_params-Books now c predecessor pool_id initial target stop h all =
    >>=-elim (assert_owner c predecessor) _ h λ _ h₁ r₁.
      >>=-elim (get_pool c pool_id) _ r₁ λ p h₃ r₃.
        let known = get_pool-ok c pool_id h₃ in
        let sized = all.each _ p known in
        rw (← ok-injective r₃) (
          replaced-Books c pool_id p _ known all
            (record { amounts = sized.amounts; decimals = sized.decimals }) refl refl)

-- A new pool holds nothing.
new_pool :
    (initial target start stop : ℕ) (fees : Fees) (tokens decimals : List ℕ) (k : ℕ)
    {p : SimplePool}
    → State.new initial target start stop fees tokens decimals ≡ ok p
    → IsSized p × (amount_of p.token_account_ids p.amounts k ≡ 0)
unfolding State.new
new_pool initial target start stop fees tokens decimals k h =
    >>=-elim (guard (length tokens == length decimals) Fault.assertion) _ h λ _ h₁ r₁.
      let same = guard-eq-ok (length tokens == length decimals) Fault.assertion h₁ in
      rw (← ok-injective r₁) (
        record { amounts = length-replicate (length tokens) 0; decimals = ground (arith, same) },
        amount_of-replicate tokens (length tokens) k,
      )

append-PoolsSized :
    (pools : List SimplePool) (p : SimplePool)
    → PoolsSized pools
    → IsSized p
    → PoolsSized (pools ++ (p ∷ []))
append-PoolsSized pools p all sized = record { each = λ j q known. at pools j all q known }
  where
    at :
        (pools : List SimplePool) (j : ℕ)
        → PoolsSized pools
        → (q : SimplePool) → get_elem? (pools ++ (p ∷ [])) j ≡ some q
        → IsSized q
    at [] zero all q known = let e : p ≡ q = cc in rw (← e) sized
    at [] (suc j) all q known = cc
    at (x ∷ pools) zero all q known = all.each zero q known
    at (x ∷ pools) (suc j) all q known =
        at pools j (record { each = λ n. all.each (suc n) }) q known

pub add_simple_pool-Books :
    (call : Call) (c : SnailSwap) (tokens decimals : List ℕ) (initial target start stop : ℕ)
    (fees : Fees) {r : SnailSwap × ℕ × ℕ}
    → add_simple_pool call c tokens decimals initial target start stop fees ≡ ok r
    → PoolsSized c.pools
    → Books c r.0 nothing nothing nothing
unfolding add_simple_pool internal_add_pool claims
add_simple_pool-Books call c tokens decimals initial target start stop fees h all =
    >>=-elim (assert_owner c call.predecessor) _ h λ _ h₁ r₁.
      >>=-elim (assert_contract_running c.state) _ r₁ λ _ h₂ r₂.
        >>=-elim (check_token_duplicates tokens) _ r₂ λ _ h₃ r₃.
          >>=-elim (assert_fees_info_valid fees) _ r₃ λ _ h₄ r₄.
            >>=-elim (State.new initial target start stop fees tokens decimals) _ r₄ λ p h₅ r₅.
              >>=-elim (internal_check_storage call) _ r₅ λ refund h₆ r₆.
                let new = λ (k : ℕ). new_pool initial target start stop fees tokens decimals k h₅ in
                rw (← ap (λ (r : SnailSwap × ℕ × ℕ). r.0) (ok-injective r₆)) (record {
                  sized = append-PoolsSized c.pools p all (new 0).0;
                  backed = λ k. omega (arith, pooled-append c.pools p k, (new k).1);
                })
