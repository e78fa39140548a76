-- ===== src/Exchange/Examples/Pools.antt =====
-- The methods of a pool run on the concrete values.
use snails_contracts.Common.{
  ◌+◌, ◌<◌, ◌≤◌, ◌≡◌, refl, [], ◌∷◌, some, ok, arith, get_elem?, checked_add, checked_sub,
  checked_mul, checked_div, narrow,
}
use snails_contracts.Common.Table.{lookup, insert, contains_key}
use snails_contracts.Exchange.Fees.{
  share, trade_fee, withdraw_fee, admin_trade_fee, admin_withdraw_fee, normalized_trade_fee,
}
use snails_contracts.Exchange.Curve.Ramp
use snails_contracts.Exchange.Curve.Ramp.{
  StableSwap, convert, p_balances_convert, compute_amp_factor,
}
use snails_contracts.Exchange.Curve.Invariant.{
  compute_next_d, sum_balances, d_product, settled, d_step, rounds, d_from_sum, get_d,
}
use snails_contracts.Exchange.Curve.Status.{pad}
use snails_contracts.Exchange.Curve.Swap
use snails_contracts.Exchange.Curve.Swap.{
  SwapResult, known_coin, other_coin, coin_sums, y_step, solve_y, get_y_raw, get_y, get_y_d_raw,
  get_y_d, exchange_payout, exchange_result,
}
use snails_contracts.Exchange.Curve.Deposit
use snails_contracts.Exchange.Curve.Deposit.{
  d_of, add_deposits, difference, deposit_coin, deposit_coins, mint_amount, first_deposit,
  later_deposit,
}
use snails_contracts.Exchange.Curve.Withdraw
use snails_contracts.Exchange.Curve.Withdraw.{withdraw_coin, withdraw_coins}
use snails_contracts.Exchange.Curve.Imbalance
use snails_contracts.Exchange.Curve.Imbalance.{
  checked_d_of, take_amounts, check_admin_part, imbalance_coin, imbalance_coins, drain_coin,
  drain_coins, burn_amount,
}
use snails_contracts.Exchange.Curve.OneCoin
use snails_contracts.Exchange.Curve.OneCoin.{
  reduced_d, reduce_fees, one_coin_trade, one_coin_fees, one_coin_payout,
}
use snails_contracts.Exchange.Pool.State
use snails_contracts.Exchange.Pool.State.{
  SimplePool, decimals_to_rates, curve_at, assert_param_num, position, token_index, write, add_at,
  add_to_collection, mint_shares, share_transfer,
}
use snails_contracts.Exchange.Pool.Liquidity
use snails_contracts.Exchange.Pool.Liquidity.{
  add_liquidity_impl, remove_liquidity_impl, assert_not_drained, remove_liquidity_imbalance_impl,
  remove_liquidity_one_coin_impl, settle_coins, first, assert_direction, process_amount_and_fees,
  assert_min_amounts, assert_amounts,
}
use snails_contracts.Exchange.Pool.Liquidity.Shares.{
  SharesBalanced, Mints, Burns, add_liquidity-Mints,
}
use snails_contracts.Exchange.Pool.Liquidity.Removal.{
  remove_liquidity-Burns, remove_liquidity_imbalance-Burns, remove_liquidity_one_coin-Burns,
}
use snails_contracts.Exchange.Pool.Trade
use snails_contracts.Exchange.Pool.Trade.{sub_at, add_volume, settle_swap, get_return}
use snails_contracts.Exchange.Pool.Trade.Accounting.{swap_accounts, swap-get_return}
use snails_contracts.Exchange.Pool.History.{Step, Reachable, Reachable-SharesBalanced}
use snails_contracts.Exchange.Examples.{fees, fees-IsProportional, balances, zeros, pool, now}

program : Unit {0}
unfolding share trade_fee withdraw_fee admin_trade_fee admin_withdraw_fee normalized_trade_fee
    convert p_balances_convert compute_amp_factor Ramp.new compute_next_d sum_balances d_product
    settled d_step rounds d_from_sum get_d pad known_coin other_coin coin_sums y_step solve_y
    get_y_raw get_y get_y_d_raw get_y_d exchange_payout exchange_result Swap.exchange d_of
    add_deposits difference deposit_coin deposit_coins mint_amount first_deposit later_deposit
    Deposit.add_liquidity withdraw_coin withdraw_coins Withdraw.remove_liquidity checked_d_of
    take_amounts check_admin_part imbalance_coin imbalance_coins drain_coin drain_coins burn_amount
    Imbalance.remove_liquidity_imbalance reduced_d reduce_fees one_coin_trade one_coin_fees
    one_coin_payout OneCoin.remove_liquidity_one_coin State.new decimals_to_rates curve_at
    assert_param_num position token_index write add_at add_to_collection mint_shares share_transfer
    add_liquidity_impl remove_liquidity_impl assert_not_drained remove_liquidity_imbalance_impl
    remove_liquidity_one_coin_impl settle_coins first assert_direction process_amount_and_fees
    assert_min_amounts assert_amounts Liquidity.add_liquidity Liquidity.remove_liquidity
    Liquidity.remove_liquidity_imbalance Liquidity.remove_liquidity_one_coin sub_at add_volume
    settle_swap Trade.swap get_return lookup insert contains_key checked_add checked_sub checked_mul
    checked_div narrow
program = tt

abbrev larger : SimplePool
larger = record pool {
  amounts = 1100 ∷ 1200 ∷ [];
  shares = (1, 2000) ∷ (2, 299) ∷ [];
  shares_total_supply = 2299;
}

abbrev smaller : SimplePool
smaller = record pool {
  amounts = 763 ∷ 763 ∷ [];
  total_fees = 25 ∷ 25 ∷ [];
  admin_fees = 12 ∷ 12 ∷ [];
  shares = (1, 1500) ∷ [];
  shares_total_supply = 1500;
}

abbrev uneven : SimplePool
uneven = record pool {
  amounts = 895 ∷ 790 ∷ [];
  total_fees = 10 ∷ 20 ∷ [];
  admin_fees = 5 ∷ 10 ∷ [];
  shares = (1, 1668) ∷ [];
  shares_total_supply = 1668;
}

abbrev one_sided : SimplePool
one_sided = record pool {
  amounts = 527 ∷ 1000 ∷ [];
  total_fees = 50 ∷ 0 ∷ [];
  admin_fees = 24 ∷ 0 ∷ [];
  shares = (1, 1500) ∷ [];
  shares_total_supply = 1500;
}

abbrev pub traded : SimplePool
traded = record pool {
  amounts = 1100 ∷ 910 ∷ [];
  volumes = record { input = 100; output = 90 } ∷ record { input = 0; output = 0 } ∷ [];
  total_fees = 0 ∷ 9 ∷ [];
  admin_fees = 0 ∷ 4 ∷ [];
}

add_liquidity_run : Liquidity.add_liquidity now pool 2 (100 ∷ 200 ∷ []) ≡ ok (larger, 299, zeros)
unfolding program
add_liquidity_run = refl

remove_liquidity_run :
    Liquidity.remove_liquidity now pool 1 500 (1 ∷ 1 ∷ [])
    ≡ ok (smaller, 225 ∷ 225 ∷ [], 12 ∷ 12 ∷ [])
unfolding program
remove_liquidity_run = refl

remove_liquidity_imbalance_run :
    Liquidity.remove_liquidity_imbalance now pool 1 (100 ∷ 200 ∷ []) ≡ ok (uneven, 332, 5 ∷ 10 ∷ [])
unfolding program
remove_liquidity_imbalance_run = refl

remove_liquidity_one_coin_run :
    Liquidity.remove_liquidity_one_coin now pool 1 7 500 1
    ≡ ok (one_sided, 449 ∷ 0 ∷ [], 24 ∷ 0 ∷ [])
unfolding program
remove_liquidity_one_coin_run = refl

pub swap_run : Trade.swap now pool 7 100 8 1 ≡ ok (traded, 90, 4)
unfolding program
swap_run = refl

places : (token_index pool 7 ≡ ok 0) × (token_index pool 8 ≡ ok 1)
unfolding program
places = (refl, refl)

-- A new pool, before and after its first deposit.
abbrev pub empty : SimplePool
empty = record pool { amounts = zeros; shares = []; shares_total_supply = 0 }

abbrev filled : SimplePool
filled = record pool { amounts = 100 ∷ 200 ∷ []; shares = (1, 299) ∷ []; shares_total_supply = 299 }

-- The new pool after a deposit of the owner, and after a swap.
abbrev pub funded : SimplePool
funded = record empty { amounts = balances; shares = (9, 2000) ∷ []; shares_total_supply = 2000 }

abbrev pub traded_later : SimplePool
traded_later = record traded { shares = (9, 2000) ∷ [] }

pub new_run : State.new 100 100 0 0 fees (7 ∷ 8 ∷ []) (24 ∷ 24 ∷ []) ≡ ok empty
unfolding program
new_run = refl

pub fund_run : Liquidity.add_liquidity now empty 9 balances ≡ ok (funded, 2000, zeros)
unfolding program
fund_run = refl

pub later_run : Trade.swap now funded 7 100 8 1 ≡ ok (traded_later, 90, 4)
unfolding program
later_run = refl

history :
    (State.new 100 100 0 0 fees (7 ∷ 8 ∷ []) (24 ∷ 24 ∷ []) ≡ ok empty)
    × (Liquidity.add_liquidity now empty 1 (100 ∷ 200 ∷ []) ≡ ok (filled, 299, zeros))
    × (share_transfer filled 1 1 100 ≡ ok filled)
unfolding program
history = (refl, refl, refl)

add_liquidity-Mints_example : (0 < 299) × Mints pool larger 2 299
add_liquidity-Mints_example = add_liquidity-Mints now pool 2 (100 ∷ 200 ∷ []) add_liquidity_run

remove_liquidity-Burns_example : Burns pool smaller 1 500
remove_liquidity-Burns_example =
    remove_liquidity-Burns now pool 1 500 (1 ∷ 1 ∷ []) remove_liquidity_run

remove_liquidity_imbalance-Burns_example : Burns pool uneven 1 332
remove_liquidity_imbalance-Burns_example =
    remove_liquidity_imbalance-Burns now pool 1 (100 ∷ 200 ∷ []) remove_liquidity_imbalance_run

remove_liquidity_one_coin-Burns_example : Burns pool one_sided 1 500
remove_liquidity_one_coin-Burns_example =
    remove_liquidity_one_coin-Burns now pool 1 7 500 1 remove_liquidity_one_coin_run

swap_accounts_example :
    (s : StableSwap) × (result : SwapResult) × (curve_at now pool ≡ ok s)
    × (Swap.exchange s 0 1 100 balances fees ≡ ok result)
    × (90 ≡ result.amount_b)
    × (4 ≡ result.admin_fee)
    × (1 ≤ 90)
    × (90 < 1000)
    × (get_elem? traded.amounts 0 ≡ some (1000 + 100))
    × (get_elem? traded.amounts 1 ≡ some (result.new_pool_b + result.admin_fee))
swap_accounts_example =
    swap_accounts now pool 7 100 8 1 0 1 1000 1000 swap_run (omega arith) fees-IsProportional
      places.0 places.1 refl refl

swap-get_return_example : (get_return now pool 7 100 8 ≡ ok 90) × (1 ≤ 90)
swap-get_return_example = swap-get_return now pool 7 100 8 1 swap_run

Reachable-SharesBalanced_example : SharesBalanced filled
Reachable-SharesBalanced_example = Reachable-SharesBalanced (
    Reachable.follows
      (Reachable.follows (Reachable.creates 100 100 0 0 fees (7 ∷ 8 ∷ []) (24 ∷ 24 ∷ []) history.0)
        (Step.deposits now empty 1 (100 ∷ 200 ∷ []) history.1))
      (Step.transfers filled 1 1 100 history.2))
