-- ===== src/Exchange/Contract/Claims/Pools.antt =====
-- What the methods over the pools do to the claims.
use snails_contracts.Common.{
  ℕ, ◌+◌, ◌≡◌, ap, List, [], Option, ok, arith, Result, >>=-elim, ok-injective, guard,
  expect_some-ok, Fault, get_elem?, ltb, some,
}
use snails_contracts.Exchange.Pool.State.{SimplePool}
use snails_contracts.Exchange.Pool.Liquidity
use snails_contracts.Exchange.Pool.Holdings.{amount_of}
use snails_contracts.Exchange.Pool.Holdings.OneCoin.{remove_liquidity_one_coin-Moves}
use snails_contracts.Exchange.Pool.Holdings.Methods.{
  Moves, amount_of-nil, add_liquidity-Moves, remove_liquidity-Moves,
  remove_liquidity_imbalance-Moves,
}
use snails_contracts.Exchange.Account.{
  Account, assert_contract_running, internal_unwrap_or_default_account, internal_get_deposit,
}
use snails_contracts.Exchange.Contract.{SnailSwap, Call, get_pool}
use snails_contracts.Exchange.Contract.Swaps.{default-balance, balance}
use snails_contracts.Exchange.Contract.Liquidity.{
  assert_min_mint, assert_max_burn, withdraw_all, settle, pay_out, add_liquidity, remove_liquidity,
  remove_liquidity_imbalance, remove_liquidity_one_coin,
}
use snails_contracts.Exchange.Contract.Liquidity.Deposits.{
  withdraw_all-balance, settle_lem, pay_out_lem,
}
use snails_contracts.Exchange.Contract.Claims.{
  PoolsSized, set-PoolsSized, Books, nothing, settle-claims,
}

pub get_pool-ok :
    (c : SnailSwap) (pool_id : ℕ) {p : SimplePool}
    → get_pool c pool_id ≡ ok p
    → get_elem? c.pools pool_id ≡ some p
unfolding get_pool
get_pool-ok c pool_id h = expect_some-ok _ _ h

settle-Books :
    (call : Call) (c : SnailSwap) (pool_id : ℕ) (p p' : SimplePool) (paid_in paid_out fees : List ℕ)
    (a : Account) {r : SnailSwap × ℕ}
    → settle call c pool_id p' fees a ≡ ok r
    → get_elem? c.pools pool_id ≡ some p
    → PoolsSized c.pools
    → Moves p p' paid_in paid_out fees
    → ((k : ℕ)
        → balance a k + amount_of p.token_account_ids paid_in k
          ≡ internal_get_deposit c.accounts call.predecessor k
            + amount_of p.token_account_ids paid_out k)
    → Books c r.0 nothing nothing nothing
settle-Books call c pool_id p p' paid_in paid_out fees a {r} h known all m gained = record {
  sized =
      let (s, o, a', kept, credited, reread_k, own, e) = settle_lem call c pool_id p' fees a h in
      rw e (set-PoolsSized c.pools pool_id p' all m.sized);
  backed = λ k.
      let q = ap (λ (ts : List ℕ). amount_of ts p'.amounts k) m.tokens in
      let q' = ap (λ (ts : List ℕ). amount_of ts fees k) m.tokens in
      let le =
        settle-claims call c pool_id p p' fees a k h known
          (omega (arith, m.backed k, gained k, q, q')) in
      omega (arith, le);
}

pub add_liquidity-Books :
    (call : Call) (c : SnailSwap) (pool_id : ℕ) (amounts : List ℕ) (least : Option ℕ)
    {r : SnailSwap × ℕ × ℕ}
    → add_liquidity call c pool_id amounts least ≡ ok r
    → PoolsSized c.pools
    → Books c r.0 nothing nothing nothing
unfolding add_liquidity
add_liquidity-Books call c pool_id amounts least h all =
    let old = internal_unwrap_or_default_account c.accounts call.predecessor in
    >>=-elim (assert_contract_running c.state) _ h λ _ h₁ r₁.
      >>=-elim (guard (ltb 0 call.attached_deposit) Fault.deposit_required) _ r₁ λ _ h₂ r₂.
        >>=-elim (get_pool c pool_id) _ r₂ λ p h₃ r₃.
          >>=-elim (Liquidity.add_liquidity call.now p call.predecessor amounts) _ r₃ λ s h₄ r₄.
            >>=-elim (assert_min_mint least s.1) _ r₄ λ _ h₅ r₅.
              >>=-elim (withdraw_all old (s.0).token_account_ids amounts) _ r₅ λ a h₆ r₆.
                >>=-elim (settle call c pool_id s.0 s.2 a) _ r₆ λ e h₇ r₇.
                  let known = get_pool-ok c pool_id h₃ in
                  let m =
                    add_liquidity-Moves call.now p call.predecessor amounts h₄
                      (all.each _ p known) in
                  rw (← ap (λ (r : SnailSwap × ℕ × ℕ). r.0) (ok-injective r₇)) (
                    settle-Books call c pool_id p s.0 amounts [] s.2 a h₇ known all m λ k.
                      let q = ap (λ (ts : List ℕ). amount_of ts amounts k) m.tokens in
                      omega (
                        arith,
                        withdraw_all-balance old (s.0).token_account_ids amounts k h₆,
                        default-balance c.accounts call.predecessor k,
                        q,
                        amount_of-nil p.token_account_ids k,
                      ))

pay_out-Books :
    (call : Call) (c : SnailSwap) (pool_id : ℕ) (p p' : SimplePool) (amounts fees : List ℕ)
    {r : SnailSwap × ℕ}
    → pay_out call c pool_id p' amounts fees ≡ ok r
    → get_elem? c.pools pool_id ≡ some p
    → PoolsSized c.pools
    → Moves p p' [] amounts fees
    → Books c r.0 nothing nothing nothing
pay_out-Books call c pool_id p p' amounts fees h known all m =
    let (a, settled, gained) = pay_out_lem call c pool_id p' amounts fees h in
    settle-Books call c pool_id p p' [] amounts fees a settled known all m λ k.
      let q = ap (λ (ts : List ℕ). amount_of ts amounts k) m.tokens in
      omega (arith, gained k, q, amount_of-nil p.token_account_ids k)

module _ (one_yocto : Result (Unit {0})) (call : Call) (c : SnailSwap) (pool_id : ℕ) where
  pub remove_liquidity-Books :
      (shares : ℕ) (min_amounts : List ℕ) {r : SnailSwap × ℕ}
      → remove_liquidity one_yocto call c pool_id shares min_amounts ≡ ok r
      → PoolsSized c.pools
      → Books c r.0 nothing nothing nothing
  unfolding remove_liquidity
  remove_liquidity-Books shares min_amounts h all = >>=-elim one_yocto _ h λ _ h₁ r₁.
      >>=-elim (assert_contract_running c.state) _ r₁ λ _ h₂ r₂.
        >>=-elim (get_pool c pool_id) _ r₂ λ p h₃ r₃.
          >>=-elim (Liquidity.remove_liquidity call.now p call.predecessor shares min_amounts) _ r₃
            λ s h₄ r₄.
              let known = get_pool-ok c pool_id h₃ in
              pay_out-Books call c pool_id p s.0 s.1 s.2 r₄ known all (
                remove_liquidity-Moves call.now p call.predecessor shares min_amounts h₄
                  (all.each _ p known))

  pub remove_liquidity_imbalance-Books :
      (amounts : List ℕ) (most : Option ℕ) {r : SnailSwap × ℕ}
      → remove_liquidity_imbalance one_yocto call c pool_id amounts most ≡ ok r
      → PoolsSized c.pools
      → Books c r.0 nothing nothing nothing
  unfolding remove_liquidity_imbalance
  remove_liquidity_imbalance-Books amounts most h all = >>=-elim one_yocto _ h λ _ h₁ r₁.
      >>=-elim (assert_contract_running c.state) _ r₁ λ _ h₂ r₂.
        >>=-elim (get_pool c pool_id) _ r₂ λ p h₃ r₃.
          >>=-elim (Liquidity.remove_liquidity_imbalance call.now p call.predecessor amounts) _ r₃
            λ s h₄ r₄. >>=-elim (assert_max_burn most s.1) _ r₄ λ _ h₅ r₅.
              let known = get_pool-ok c pool_id h₃ in
              pay_out-Books call c pool_id p s.0 amounts s.2 r₅ known all (
                remove_liquidity_imbalance-Moves call.now p call.predecessor amounts h₄
                  (all.each _ p known))

  pub remove_liquidity_one_coin-Books :
      (token_out shares min_amount : ℕ) {r : SnailSwap × ℕ}
      → remove_liquidity_one_coin one_yocto call c pool_id token_out shares min_amount ≡ ok r
      → PoolsSized c.pools
      → Books c r.0 nothing nothing nothing
  unfolding remove_liquidity_one_coin
  remove_liquidity_one_coin-Books token_out shares min_amount h all =
      >>=-elim one_yocto _ h λ _ h₁ r₁. >>=-elim (assert_contract_running c.state) _ r₁ λ _ h₂ r₂.
        >>=-elim (get_pool c pool_id) _ r₂ λ p h₃ r₃.
          >>=-elim
            (Liquidity.remove_liquidity_one_coin call.now p call.predecessor token_out shares
              min_amount)
            _ r₃
            λ s h₄ r₄.
              let known = get_pool-ok c pool_id h₃ in
              pay_out-Books call c pool_id p s.0 s.1 s.2 r₄ known all (
                remove_liquidity_one_coin-Moves call.now p call.predecessor token_out shares
                  min_amount h₄ (all.each _ p known))
