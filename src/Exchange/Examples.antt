-- ===== src/Exchange/Examples.antt =====
-- Concrete fees, a curve of two coins and a pool, on which the modules below run the methods.
mod Curves
mod Pools
mod Accounts
mod Contracts
pub mod Coverage
mod Histories
mod Ledgers
use snails_contracts.Common.{ℕ, List, [], ◌∷◌, true, false, arith}
use snails_contracts.Exchange.Fees.{Fees}
use snails_contracts.Exchange.Fees.Bounds.{IsProportional}
use snails_contracts.Exchange.Curve.Ramp.{StableSwap}
use snails_contracts.Exchange.Curve.Status.{PoolStatus}
use snails_contracts.Exchange.Curve.Swap.{SwapResult}
use snails_contracts.Exchange.Pool.State.{SimplePool}

-- Half of a trade fee of 10 % is the owner's, and half of a withdrawal fee of 10 %.
abbrev fees : Fees
fees = record {
  admin_trade_fee_numerator = 1;
  admin_trade_fee_denominator = 2;
  admin_withdraw_fee_numerator = 1;
  admin_withdraw_fee_denominator = 2;
  trade_fee_numerator = 1;
  trade_fee_denominator = 10;
  withdraw_fee_numerator = 1;
  withdraw_fee_denominator = 10;
}

fees-IsProportional : IsProportional fees
fees-IsProportional = record {
  admin_trade = omega arith;
  admin_withdraw = omega arith;
  trade = omega arith;
  withdraw = omega arith;
  admin_trade_pos = omega arith;
  admin_withdraw_pos = omega arith;
  trade_pos = omega arith;
  withdraw_pos = omega arith;
  admin_trade_u64 = omega arith;
  admin_withdraw_u64 = omega arith;
  trade_u64 = omega arith;
  withdraw_u64 = omega arith;
}

abbrev curve : StableSwap
curve = record {
  initial_amp_factor = 100;
  target_amp_factor = 100;
  current_ts = 50;
  start_ramp_ts = 0;
  stop_ramp_ts = 0;
  rates = 1 ∷ 1 ∷ [];
  coin_num = 2;
}

-- Half way on a ramp from 100 to 200.
abbrev ramping : StableSwap
ramping = record curve { target_amp_factor = 200; stop_ramp_ts = 100 }

abbrev balances : List ℕ
balances = 1000 ∷ 1000 ∷ []

abbrev zeros : List ℕ
zeros = 0 ∷ 0 ∷ []

abbrev deposited : PoolStatus
deposited = record {
  pool_lp_token_changed = 299;
  pool_lp_changed_direction = true;
  recieved_amount = 100 ∷ 200 ∷ [];
  new_balances = 1100 ∷ 1200 ∷ [];
  total_fee_amount = zeros;
  admin_fee_amount = zeros;
}

abbrev withdrawn : PoolStatus
withdrawn = record {
  pool_lp_token_changed = 500;
  pool_lp_changed_direction = false;
  recieved_amount = 225 ∷ 225 ∷ [];
  new_balances = 763 ∷ 763 ∷ [];
  total_fee_amount = 25 ∷ 25 ∷ [];
  admin_fee_amount = 12 ∷ 12 ∷ [];
}

abbrev taken : PoolStatus
taken = record {
  pool_lp_token_changed = 332;
  pool_lp_changed_direction = false;
  recieved_amount = 100 ∷ 200 ∷ [];
  new_balances = 895 ∷ 790 ∷ [];
  total_fee_amount = 10 ∷ 20 ∷ [];
  admin_fee_amount = 5 ∷ 10 ∷ [];
}

abbrev taken_one : PoolStatus
taken_one = record {
  pool_lp_token_changed = 500;
  pool_lp_changed_direction = false;
  recieved_amount = 449 ∷ 0 ∷ [];
  new_balances = 527 ∷ 1000 ∷ [];
  total_fee_amount = 50 ∷ 0 ∷ [];
  admin_fee_amount = 24 ∷ 0 ∷ [];
}

abbrev swapped : SwapResult
swapped = record {
  i_a = 0;
  i_b = 1;
  amount_a = 100;
  amount_b = 90;
  new_pool_a = 1100;
  new_pool_b = 906;
  admin_fee = 4;
  total_fee = 9;
}

abbrev pool : SimplePool
pool = record {
  token_account_ids = 7 ∷ 8 ∷ [];
  token_decimals = 24 ∷ 24 ∷ [];
  amounts = balances;
  volumes = record { input = 0; output = 0 } ∷ record { input = 0; output = 0 } ∷ [];
  total_fees = zeros;
  admin_fees = zeros;
  shares = (1, 2000) ∷ [];
  shares_total_supply = 2000;
  initial_amp_factor = 100;
  target_amp_factor = 100;
  start_ramp_ts = 0;
  stop_ramp_ts = 0;
  fees = fees;
  apply_new_fee_ts = 0;
  new_fees = fees;
}

-- The time 50 s, in nanoseconds.
abbrev now : ℕ
now = 50_000_000_000
