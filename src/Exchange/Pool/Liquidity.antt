-- ===== src/Exchange/Pool/Liquidity.antt =====
-- The methods of a pool that change its liquidity, in snails_exchange/src/simple_pool.rs: the
-- computation by the curve, whose `None` is a panic, and the update of the pool. The methods
-- `try_…` return a part of the same computation.
pub mod Shares
pub mod Removal
use snails_contracts.Common.{
  ℕ, zero, suc, ◌-◌, ◌%◌, List, [], ◌∷◌, Bool, true, false, not, leb, ltb, ◌==◌, if◌then◌else◌,
  length, Result, ok, panic, guard, expect, expect_some, index, ◌>>=◌, ◌>>◌, Fault, checked_add,
  checked_sub, u8, u128,
}
use snails_contracts.Common.Table.{lookup, insert}
use snails_contracts.Exchange.Curve.Status.{PoolStatus}
use snails_contracts.Exchange.Curve.Deposit
use snails_contracts.Exchange.Curve.Withdraw
use snails_contracts.Exchange.Curve.Imbalance
use snails_contracts.Exchange.Curve.OneCoin
use snails_contracts.Exchange.Pool.State.{
  SimplePool, coin_num, curve_at, assert_param_num, token_index, write, add_at, mint_shares,
}

unfoldable pub add_liquidity_impl : ℕ → SimplePool → List ℕ → Result PoolStatus
add_liquidity_impl now p deposit_amounts = do
  assert_param_num p (length deposit_amounts)
  curve ← curve_at now p
  expect Fault.add_liquidity_failed
      (Deposit.add_liquidity curve deposit_amounts p.amounts p.shares_total_supply p.fees)

unfoldable pub remove_liquidity_impl : ℕ → SimplePool → ℕ → Result PoolStatus
remove_liquidity_impl now p shares = do
  curve ← curve_at now p
  expect Fault.remove_liquidity_failed
      (Withdraw.remove_liquidity curve shares p.amounts p.shares_total_supply p.fees)

-- The loop that keeps a coin from being drained, over the first `n` coins.
unfoldable pub assert_not_drained : ℕ → List ℕ → List ℕ → Result (Unit {0})
assert_not_drained zero amounts removed = ok tt
assert_not_drained (suc n) (b ∷ amounts) (a ∷ removed) = do
  guard (ltb a b) Fault.invalid_input_amount
  assert_not_drained n amounts removed
assert_not_drained (suc n) _ _ = panic Fault.index_out_of_bounds

unfoldable pub remove_liquidity_imbalance_impl : ℕ → SimplePool → List ℕ → Result PoolStatus
remove_liquidity_imbalance_impl now p remove_coin_amount = do
  assert_param_num p (length remove_coin_amount)
  assert_not_drained (coin_num p) p.amounts remove_coin_amount
  curve ← curve_at now p
  expect Fault.remove_imbalance_failed (
      Imbalance.remove_liquidity_imbalance curve remove_coin_amount p.amounts p.shares_total_supply
        p.fees)

unfoldable pub remove_liquidity_one_coin_impl : ℕ → SimplePool → ℕ → ℕ → Result PoolStatus
remove_liquidity_one_coin_impl now p token_index remove_lp_amount = do
  curve ← curve_at now p
  expect Fault.remove_one_coin_failed (
      OneCoin.remove_liquidity_one_coin curve token_index remove_lp_amount p.amounts
        p.shares_total_supply p.fees)

-- The loop that writes a report into the pool: coin `i` and the `left` after it.
unfoldable pub settle_coins : ℕ → ℕ → PoolStatus → SimplePool → Result SimplePool
settle_coins zero i status p = ok p
settle_coins (suc left) i status p = do
  new_balance ← index status.new_balances i
  amounts ← write p.amounts i new_balance
  total_fee ← index status.total_fee_amount i
  total_fees ← add_at p.total_fees i total_fee
  admin_fee ← index status.admin_fee_amount i
  admin_fees ← add_at p.admin_fees i admin_fee
  settle_coins left (suc i) status
      (record p { amounts = amounts; total_fees = total_fees; admin_fees = admin_fees })

-- The first `n` places of a vector.
unfoldable pub first : ℕ → List ℕ → Result (List ℕ)
first zero xs = ok []
first (suc n) [] = panic Fault.index_out_of_bounds
first (suc n) (x ∷ xs) = do rest ← first n xs; ok (x ∷ rest)

-- The assertion on the direction of a report.
unfoldable pub assert_direction : PoolStatus → Bool → Result (Unit {0})
assert_direction status up =
    guard (if up then status.pool_lp_changed_direction else not status.pool_lp_changed_direction)
      Fault.assertion

unfoldable pub add_liquidity : ℕ → SimplePool → ℕ → List ℕ → Result (SimplePool × ℕ × List ℕ)
add_liquidity now p sender_id deposit_amounts = do
  status ← add_liquidity_impl now p deposit_amounts
  assert_direction status true
  p' ← settle_coins (coin_num p) 0 status p
  p'' ← mint_shares p' sender_id status.pool_lp_token_changed
  guard (ltb 0 status.pool_lp_token_changed) Fault.zero_shares
  ok (p'', status.pool_lp_token_changed, status.admin_fee_amount)

unfoldable pub process_amount_and_fees :
    SimplePool → ℕ → ℕ → PoolStatus → Result (SimplePool × List ℕ)
process_amount_and_fees p sender_id prev_shares_amount status = do
  assert_direction status false
  supply ← expect Fault.unwrap_none (checked_sub p.shares_total_supply status.pool_lp_token_changed)
  p' ← settle_coins (coin_num p) 0 status (record p { shares_total_supply = supply })
  result ← first (coin_num p) status.recieved_amount
  left ←
      if prev_shares_amount == status.pool_lp_token_changed
      then ok 0
      else expect Fault.unwrap_none (checked_sub prev_shares_amount status.pool_lp_token_changed)
  ok (record p' { shares = insert sender_id left p'.shares }, result)

-- The loop that compares the amounts with the least ones, over the first `n` coins.
unfoldable pub assert_min_amounts : ℕ → List ℕ → List ℕ → Result (Unit {0})
assert_min_amounts zero amounts min_amounts = ok tt
assert_min_amounts (suc n) (a ∷ amounts) (m ∷ min_amounts) = do
  guard (leb m a) Fault.less_than_min_amount
  assert_min_amounts n amounts min_amounts
assert_min_amounts (suc n) _ _ = panic Fault.index_out_of_bounds

-- The loop that compares the amounts with those asked for.
unfoldable pub assert_amounts : ℕ → List ℕ → List ℕ → Result (Unit {0})
assert_amounts zero amounts removed = ok tt
assert_amounts (suc n) (a ∷ amounts) (b ∷ removed) = do
  guard (a == b) Fault.assertion
  assert_amounts n amounts removed
assert_amounts (suc n) _ _ = panic Fault.index_out_of_bounds

unfoldable pub remove_liquidity :
    ℕ → SimplePool → ℕ → ℕ → List ℕ → Result (SimplePool × List ℕ × List ℕ)
remove_liquidity now p sender_id shares min_amounts = do
  assert_param_num p (length min_amounts)
  status ← remove_liquidity_impl now p shares
  prev_shares_amount ← expect_some Fault.no_shares (lookup sender_id p.shares)
  (p', amounts) ← process_amount_and_fees p sender_id prev_shares_amount status
  assert_min_amounts (coin_num p) amounts min_amounts
  ok (p', amounts, status.admin_fee_amount)

unfoldable pub remove_liquidity_imbalance :
    ℕ → SimplePool → ℕ → List ℕ → Result (SimplePool × ℕ × List ℕ)
remove_liquidity_imbalance now p sender_id remove_coin_amount = do
  status ← remove_liquidity_imbalance_impl now p remove_coin_amount
  prev_shares_amount ← expect_some Fault.no_shares (lookup sender_id p.shares)
  (p', amounts) ← process_amount_and_fees p sender_id prev_shares_amount status
  assert_amounts (coin_num p) amounts remove_coin_amount
  ok (p', status.pool_lp_token_changed, status.admin_fee_amount)

unfoldable pub remove_liquidity_one_coin :
    ℕ → SimplePool → ℕ → ℕ → ℕ → ℕ → Result (SimplePool × List ℕ × List ℕ)
remove_liquidity_one_coin now p sender_id token_out remove_lp_amount min_amount = do
  place ← token_index p token_out
  let i = place % u8
  status ← remove_liquidity_one_coin_impl now p i remove_lp_amount
  prev_shares_amount ← expect_some Fault.no_shares (lookup sender_id p.shares)
  (p', amounts) ← process_amount_and_fees p sender_id prev_shares_amount status
  amount ← index amounts i
  guard (leb min_amount amount) Fault.exceed_min_amount
  ok (p', amounts, status.admin_fee_amount)

unfoldable pub try_add_liquidity : ℕ → SimplePool → List ℕ → Result ℕ
try_add_liquidity now p deposit_amounts = do
  status ← add_liquidity_impl now p deposit_amounts
  assert_direction status true
  ok status.pool_lp_token_changed

unfoldable pub try_remove_liquidity : ℕ → SimplePool → ℕ → Result (List ℕ)
try_remove_liquidity now p shares = do
  status ← remove_liquidity_impl now p shares
  ok status.recieved_amount

unfoldable pub try_remove_liquidity_imbalance : ℕ → SimplePool → List ℕ → Result ℕ
try_remove_liquidity_imbalance now p remove_coin_amount = do
  status ← remove_liquidity_imbalance_impl now p remove_coin_amount
  ok status.pool_lp_token_changed

unfoldable pub try_remove_liquidity_one_coin : ℕ → SimplePool → ℕ → ℕ → Result ℕ
try_remove_liquidity_one_coin now p token_out remove_lp_amount = do
  place ← token_index p token_out
  let i = place % u8
  status ← remove_liquidity_one_coin_impl now p i remove_lp_amount
  index status.recieved_amount i
