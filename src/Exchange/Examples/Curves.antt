-- ===== src/Exchange/Examples/Curves.antt =====
-- The methods of the fees and of the curve run on the concrete values.
use snails_contracts.Common.{
  ℕ, ◌+◌, ◌*◌, ◌<◌, ◌≤◌, ◌≡◌, ◌≢◌, ◌⊎◌, refl, List, [], ◌∷◌, some, ok, arith, panic, Fault,
  checked_add, checked_sub, checked_mul, checked_div, narrow, replicate, get_elem?,
}
use snails_contracts.Exchange.Fees.{
  share, trade_fee, withdraw_fee, admin_trade_fee, admin_withdraw_fee, normalized_trade_fee,
}
use snails_contracts.Exchange.Fees.Bounds.{normalized_trade_fee-le}
use snails_contracts.Exchange.Curve.Ramp.{
  convert, p_balances_convert, amp_delta, ramp_up, ramp_down, ramp, compute_amp_factor,
}
use snails_contracts.Exchange.Curve.Ramp.Bounds.{
  compute_amp_factor-amp_at, compute_amp_factor_bounds, compute_amp_factor_mono, IsStarted, amp_at,
}
use snails_contracts.Exchange.Curve.Invariant.{
  compute_next_d, sum_balances, d_product, settled, d_step, rounds, d_from_sum, get_d,
}
use snails_contracts.Exchange.Curve.Invariant.Balanced.{get_d_balanced}
use snails_contracts.Exchange.Curve.Status.{PoolStatus, pad}
use snails_contracts.Exchange.Curve.Ledger.{Splits, Gathers, Nets, ProRata, All}
use snails_contracts.Exchange.Curve.Swap
use snails_contracts.Exchange.Curve.Swap.{
  known_coin, other_coin, coin_sums, y_step, solve_y, get_y_raw, get_y, get_y_d_raw, get_y_d,
  exchange_payout, exchange_result,
}
use snails_contracts.Exchange.Curve.Swap.Accounting.{exchange_accounts}
use snails_contracts.Exchange.Curve.Deposit
use snails_contracts.Exchange.Curve.Deposit.{
  d_of, add_deposits, difference, deposit_coin, deposit_coins, mint_amount, first_deposit,
  later_deposit,
}
use snails_contracts.Exchange.Curve.Deposit.Shares.{
  add_liquidity_accounts, add_liquidity_no_dilution, add_liquidity_first,
}
use snails_contracts.Exchange.Curve.Withdraw
use snails_contracts.Exchange.Curve.Withdraw.{withdraw_coin, withdraw_coins}
use snails_contracts.Exchange.Curve.Withdraw.Accounting.{remove_liquidity_accounts}
use snails_contracts.Exchange.Curve.Withdraw.Total.{remove_liquidity_total}
use snails_contracts.Exchange.Curve.Imbalance
use snails_contracts.Exchange.Curve.Imbalance.{
  checked_d_of, take_amounts, check_admin_part, imbalance_coin, imbalance_coins, drain_coin,
  drain_coins, burn_amount,
}
use snails_contracts.Exchange.Curve.Imbalance.Shares.{remove_liquidity_imbalance_accounts}
use snails_contracts.Exchange.Curve.OneCoin
use snails_contracts.Exchange.Curve.OneCoin.{
  reduced_d, reduce_fees, one_coin_trade, one_coin_fees, one_coin_payout,
}
use snails_contracts.Exchange.Curve.OneCoin.Accounting.{remove_liquidity_one_coin_accounts}
use snails_contracts.Exchange.Examples.{
  fees, fees-IsProportional, curve, ramping, balances, zeros, deposited, withdrawn, taken,
  taken_one, swapped,
}

program : Unit {0}
unfolding share trade_fee withdraw_fee admin_trade_fee admin_withdraw_fee normalized_trade_fee
    convert p_balances_convert amp_delta ramp_up ramp_down ramp compute_amp_factor compute_next_d
    sum_balances d_product settled d_step rounds d_from_sum get_d pad known_coin other_coin
    coin_sums y_step solve_y get_y_raw get_y get_y_d_raw get_y_d exchange_payout exchange_result
    Swap.exchange d_of add_deposits difference deposit_coin deposit_coins mint_amount first_deposit
    later_deposit Deposit.add_liquidity withdraw_coin withdraw_coins Withdraw.remove_liquidity
    checked_d_of take_amounts check_admin_part imbalance_coin imbalance_coins drain_coin drain_coins
    burn_amount Imbalance.remove_liquidity_imbalance reduced_d reduce_fees one_coin_trade
    one_coin_fees one_coin_payout OneCoin.remove_liquidity_one_coin checked_add checked_sub
    checked_mul checked_div narrow
program = tt

exchange_run : Swap.exchange curve 0 1 100 balances fees ≡ ok swapped
unfolding program
exchange_run = refl

-- The same coin on both sides is refused.
exchange_same : Swap.exchange curve 1 1 100 balances fees ≡ panic Fault.assertion
unfolding program
exchange_same = refl

add_liquidity_run : Deposit.add_liquidity curve (100 ∷ 200 ∷ []) balances 2000 fees ≡ ok deposited
unfolding program
add_liquidity_run = refl

add_liquidity_first_run :
    Deposit.add_liquidity curve (100 ∷ 200 ∷ []) zeros 0 fees
    ≡ ok (record deposited { new_balances = 100 ∷ 200 ∷ [] })
unfolding program
add_liquidity_first_run = refl

remove_liquidity_run : Withdraw.remove_liquidity curve 500 balances 2000 fees ≡ ok withdrawn
unfolding program
remove_liquidity_run = refl

remove_liquidity_imbalance_run :
    Imbalance.remove_liquidity_imbalance curve (100 ∷ 200 ∷ []) balances 2000 fees ≡ ok taken
unfolding program
remove_liquidity_imbalance_run = refl

remove_liquidity_one_coin_run :
    OneCoin.remove_liquidity_one_coin curve 0 500 balances 2000 fees ≡ ok taken_one
unfolding program
remove_liquidity_one_coin_run = refl

ramping-IsStarted : IsStarted ramping
ramping-IsStarted = record {
  started = omega arith;
  initial_u64 = omega arith;
  target_u64 = omega arith;
  stop_u64 = omega arith;
}

compute_amp_factor_run :
    (compute_amp_factor ramping ≡ ok 150)
    × (compute_amp_factor (record ramping { current_ts = 80 }) ≡ ok 180)
unfolding program
compute_amp_factor_run = (refl, refl)

curve_amp : compute_amp_factor curve ≡ ok 100
unfolding program
curve_amp = refl

d_run : rounds 256 (d_step 2 100 2300 (1100 ∷ 1200 ∷ [])) 2300 ≡ ok 2299
unfolding program
d_run = refl

normalized_trade_fee-le_example :
    (r : ℕ) × (t : ℕ) × (normalized_trade_fee fees 3 99 ≡ ok r)
    × (trade_fee fees 99 ≡ ok t)
    × (r ≤ t)
normalized_trade_fee-le_example =
    normalized_trade_fee-le fees 3 99 fees-IsProportional (omega arith) (omega arith) (omega arith)
      (omega arith)

compute_amp_factor-amp_at_example : compute_amp_factor ramping ≡ ok (amp_at ramping)
compute_amp_factor-amp_at_example = compute_amp_factor-amp_at ramping ramping-IsStarted

compute_amp_factor_bounds_example :
    (a : ℕ) × (compute_amp_factor ramping ≡ ok a) × ((100 ≤ a) × (a ≤ 200) ⊎ (200 ≤ a) × (a ≤ 100))
compute_amp_factor_bounds_example = compute_amp_factor_bounds ramping ramping-IsStarted

compute_amp_factor_mono_example : 150 ≤ 180
compute_amp_factor_mono_example =
    compute_amp_factor_mono ramping 80 ramping-IsStarted (omega arith) (omega arith)
      compute_amp_factor_run.0 compute_amp_factor_run.1

get_d_balanced_example : get_d curve (replicate 2 1000) ≡ ok (1000 * 2)
get_d_balanced_example =
    get_d_balanced curve 1000 100 (omega arith) (omega arith) (omega arith) (omega arith) curve_amp
      (omega arith) (omega arith)

exchange_accounts_example :
    (◌≢◌ {A = ℕ} 0 1)
    × (swapped.amount_a ≡ 100)
    × (swapped.new_pool_a ≡ 1000 + 100)
    × (swapped.new_pool_b + swapped.amount_b + swapped.admin_fee ≡ 1000)
    × (swapped.admin_fee ≤ swapped.total_fee)
    × (swapped.amount_b + swapped.total_fee < 1000)
exchange_accounts_example =
    exchange_accounts curve 0 1 100 1000 1000 balances fees exchange_run fees-IsProportional refl
      refl

add_liquidity_accounts_example : Gathers balances (1100 ∷ 1200 ∷ []) (100 ∷ 200 ∷ []) zeros
add_liquidity_accounts_example =
    add_liquidity_accounts curve (100 ∷ 200 ∷ []) balances 2000 fees add_liquidity_run (omega arith)

add_liquidity_no_dilution_example :
    (d_0 : ℕ) × (nets : List ℕ) × (d_2 : ℕ) × (d_of curve balances ≡ ok d_0)
    × (d_of curve nets ≡ ok d_2)
    × Nets nets (1100 ∷ 1200 ∷ []) zeros zeros
    × (d_0 ≤ d_2)
    × (299 * d_0 + 2000 * d_0 ≤ 2000 * d_2)
add_liquidity_no_dilution_example =
    add_liquidity_no_dilution curve (100 ∷ 200 ∷ []) balances 2000 fees add_liquidity_run
      (omega arith)

add_liquidity_first_example :
    All (λ a. 0 < a) (100 ∷ 200 ∷ []) × (0 < 299) × (d_of curve (100 ∷ 200 ∷ []) ≡ ok 299)
add_liquidity_first_example =
    add_liquidity_first curve (100 ∷ 200 ∷ []) zeros fees add_liquidity_first_run (omega arith)

remove_liquidity_accounts_example :
    (withdrawn.pool_lp_token_changed ≡ 500)
    × (500 ≤ 2000)
    × Splits balances (763 ∷ 763 ∷ []) (225 ∷ 225 ∷ []) (12 ∷ 12 ∷ [])
    × ProRata 500 2000 balances (225 ∷ 225 ∷ [])
    × (◌≡◌ {A = ℕ} 500 2000 → All (λ n. n ≡ 0) (763 ∷ 763 ∷ []))
remove_liquidity_accounts_example =
    remove_liquidity_accounts curve 500 2000 balances fees remove_liquidity_run

remove_liquidity_total_example :
    (st : PoolStatus) × (Withdraw.remove_liquidity curve 2000 balances 2000 fees ≡ ok st)
remove_liquidity_total_example =
    remove_liquidity_total curve 2000 2000 balances fees fees-IsProportional (omega arith)
      (omega arith) (omega arith) (omega arith) (omega arith, (omega arith, tt))

remove_liquidity_imbalance_accounts_example :
    Splits balances (895 ∷ 790 ∷ []) (100 ∷ 200 ∷ []) (5 ∷ 10 ∷ [])
    × ((d_0 : ℕ) × (nets : List ℕ) × (d_2 : ℕ) × (checked_d_of curve balances ≡ ok d_0)
        × (checked_d_of curve nets ≡ ok d_2)
        × Nets nets (895 ∷ 790 ∷ []) (10 ∷ 20 ∷ []) (5 ∷ 10 ∷ [])
        × (d_2 ≤ d_0)
        × (0 < 332)
        × (2000 * d_0 < 332 * d_0 + 2000 * d_2))
remove_liquidity_imbalance_accounts_example =
    remove_liquidity_imbalance_accounts curve (100 ∷ 200 ∷ []) balances 2000 fees
      remove_liquidity_imbalance_run

remove_liquidity_one_coin_accounts_example :
    (n r a : ℕ) × (500 ≤ 2000)
    × (taken_one.pool_lp_token_changed ≡ 500)
    × (get_elem? (527 ∷ 1000 ∷ []) 0 ≡ some n)
    × (get_elem? (449 ∷ 0 ∷ []) 0 ≡ some r)
    × (get_elem? (24 ∷ 0 ∷ []) 0 ≡ some a)
    × (n + r + a ≤ 1000)
    × ((k : ℕ) → ◌≢◌ {A = ℕ} 0 k → get_elem? (527 ∷ 1000 ∷ []) k ≡ get_elem? balances k)
remove_liquidity_one_coin_accounts_example =
    remove_liquidity_one_coin_accounts curve 0 500 2000 1000 balances fees
      remove_liquidity_one_coin_run refl
