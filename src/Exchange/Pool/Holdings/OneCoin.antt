-- ===== src/Exchange/Pool/Holdings/OneCoin.antt =====
-- What the withdrawal of one coin moves in a pool.
use snails_contracts.Common.{
  ℕ, ◌+◌, ◌%◌, ◌<◌, ◌≤◌, ◌≡◌, sym, ap, ◌∙◌, List, [], some, ok, arith, >>=-elim, ok-injective,
  guard, expect-ok, expect_some, index, leb, get_elem?, get_elem?-set_self, get_elem?-replicate,
  replicate, set, Fault, u8,
}
use snails_contracts.Common.Table.{lookup}
use snails_contracts.Exchange.Curve.Status.{PoolStatus}
use snails_contracts.Exchange.Curve.OneCoin.Accounting.{
  remove_liquidity_one_coin_accounts, remove_liquidity_one_coin_lists,
}
use snails_contracts.Exchange.Pool.State.{SimplePool, curve_at, token_index}
use snails_contracts.Exchange.Pool.Liquidity.{
  remove_liquidity_one_coin_impl, process_amount_and_fees, remove_liquidity_one_coin,
}
use snails_contracts.Exchange.Pool.Holdings.{amount_of, amount_of-set, amount_of-replicate}
use snails_contracts.Exchange.Pool.Holdings.Coins.{IsSized, get_elem?-some, process-Settled}
use snails_contracts.Exchange.Pool.Holdings.Methods.{Moves, curve_at-coin_num, withdrawn-Moves}

-- Vectors that differ from the balances and from zeros in one place.
one_place :
    (tokens balances : List ℕ) (zeros i n r a k : ℕ) {t b : ℕ}
    → get_elem? tokens i ≡ some t
    → get_elem? balances i ≡ some b
    → i < zeros
    → n + r + a ≤ b
    → amount_of tokens (set balances i n) k
        + amount_of tokens (set (replicate zeros 0) i r) k
        + amount_of tokens (set (replicate zeros 0) i a) k
      ≤ amount_of tokens balances k
one_place tokens balances zeros i n r a k ht hb lt le =
    let zero_i : get_elem? (replicate {A = ℕ} zeros 0) i ≡ some 0 =
      get_elem?-replicate zeros i 0 lt in
    ground (
      arith,
      amount_of-set tokens balances i n k ht hb,
      amount_of-set tokens (replicate zeros 0) i r k ht zero_i,
      amount_of-set tokens (replicate zeros 0) i a k ht zero_i,
      amount_of-replicate tokens zeros k,
      le,
    )

one_coin-splits :
    (now : ℕ) (p : SimplePool) (i shares k : ℕ) {status : PoolStatus}
    → remove_liquidity_one_coin_impl now p i shares ≡ ok status
    → IsSized p
    → amount_of p.token_account_ids status.new_balances k
        + amount_of p.token_account_ids status.recieved_amount k
        + amount_of p.token_account_ids status.admin_fee_amount k
      ≤ amount_of p.token_account_ids p.amounts k
unfolding remove_liquidity_one_coin_impl
one_coin-splits now p i shares k h sized = >>=-elim (curve_at now p) _ h λ s h₁ r₁.
    let done = expect-ok _ _ r₁ in
    let (n, r, a, lt, e_n, e_r, e_a) =
      remove_liquidity_one_coin_lists s i shares p.shares_total_supply p.amounts p.fees done in
    let small = curve_at-coin_num now p h₁ sized in
    let (t, ht) = get_elem?-some p.token_account_ids i (omega (arith, small, lt)) in
    let (b, hb) = get_elem?-some p.amounts i (omega (arith, small, lt, sized.amounts)) in
    let (n', r', a', few, burnt, at_n, at_r, at_a, le, others) =
      remove_liquidity_one_coin_accounts s i shares p.shares_total_supply b p.amounts p.fees done
        hb in
    let zero_i : get_elem? (replicate s.coin_num 0) i ≡ some 0 =
      get_elem?-replicate s.coin_num i 0 lt in
    let q_n : some n ≡ some n' =
      sym (get_elem?-set_self p.amounts i n b hb)
      ∙ ap (λ (xs : List ℕ). get_elem? xs i) (sym e_n)
      ∙ at_n in
    let q_r : some r ≡ some r' =
      sym (get_elem?-set_self (replicate s.coin_num 0) i r 0 zero_i)
      ∙ ap (λ (xs : List ℕ). get_elem? xs i) (sym e_r)
      ∙ at_r in
    let q_a : some a ≡ some a' =
      sym (get_elem?-set_self (replicate s.coin_num 0) i a 0 zero_i)
      ∙ ap (λ (xs : List ℕ). get_elem? xs i) (sym e_a)
      ∙ at_a in
    rw (e_n, e_r, e_a)
      (one_place p.token_account_ids p.amounts s.coin_num i n r a k ht hb lt
        (ground (arith, q_n, q_r, q_a, le)))

pub remove_liquidity_one_coin-Moves :
    (now : ℕ) (p : SimplePool) (sender token_out shares min_amount : ℕ)
    {r : SimplePool × List ℕ × List ℕ}
    → remove_liquidity_one_coin now p sender token_out shares min_amount ≡ ok r
    → IsSized p
    → Moves p r.0 [] r.1 r.2
unfolding remove_liquidity_one_coin
remove_liquidity_one_coin-Moves now p sender token_out shares min_amount h sized =
    >>=-elim (token_index p token_out) _ h λ place h₀ r₀.
      >>=-elim (remove_liquidity_one_coin_impl now p (place % u8) shares) _ r₀ λ status h₁ r₁.
        >>=-elim (expect_some Fault.no_shares (lookup sender p.shares)) _ r₁ λ prev h₂ r₂.
          >>=-elim (process_amount_and_fees p sender prev status) _ r₂ λ paid h₃ r₃.
            >>=-elim (index paid.1 (place % u8)) _ r₃ λ amount h₄ r₄.
              >>=-elim (guard (leb min_amount amount) Fault.exceed_min_amount) _ r₄ λ _ h₅ r₅.
                let (settled, same) = process-Settled p sender prev status h₃ sized in
                rw (← ok-injective r₅) (
                  withdrawn-Moves p paid.0 status paid.1 sized settled
                    (λ k. one_coin-splits now p (place % u8) shares k h₁ sized) same)
