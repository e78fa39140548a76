-- ===== src/Exchange/Fees.antt =====
-- The fee schedule of a pool, snails_exchange/src/fees.rs, and its check in
-- snails_exchange/src/utils.rs.
pub mod Bounds
use snails_contracts.Common.{
  ℕ, Bool, not, ◌==◌, Result, guard, ◌>>=◌, ◌>>◌, Fault, checked_add, checked_sub, checked_mul,
  checked_div, narrow, u64, u128, u192,
}

pub record Fees : Type 0 where
  pub admin_trade_fee_numerator : ℕ
  pub admin_trade_fee_denominator : ℕ
  pub admin_withdraw_fee_numerator : ℕ
  pub admin_withdraw_fee_denominator : ℕ
  pub trade_fee_numerator : ℕ
  pub trade_fee_denominator : ℕ
  pub withdraw_fee_numerator : ℕ
  pub withdraw_fee_denominator : ℕ

-- The common chain of the fee methods: multiply in 192 bits, divide, and go back to 128 bits.
unfoldable pub share : ℕ → ℕ → ℕ → Result ℕ
share amount numerator denominator = do
  product ← checked_mul u192 amount numerator
  quotient ← checked_div product denominator
  narrow u128 quotient

unfoldable pub admin_trade_fee : Fees → ℕ → Result ℕ
admin_trade_fee f fee_amount =
    share fee_amount f.admin_trade_fee_numerator f.admin_trade_fee_denominator

unfoldable pub admin_withdraw_fee : Fees → ℕ → Result ℕ
admin_withdraw_fee f fee_amount =
    share fee_amount f.admin_withdraw_fee_numerator f.admin_withdraw_fee_denominator

unfoldable pub trade_fee : Fees → ℕ → Result ℕ
trade_fee f trade_amount = share trade_amount f.trade_fee_numerator f.trade_fee_denominator

unfoldable pub withdraw_fee : Fees → ℕ → Result ℕ
withdraw_fee f withdraw_amount =
    share withdraw_amount f.withdraw_fee_numerator f.withdraw_fee_denominator

unfoldable pub normalized_trade_fee : Fees → ℕ → ℕ → Result ℕ
normalized_trade_fee f n_coins amount = do
  scaled ← checked_mul u64 f.trade_fee_numerator n_coins
  others ← checked_sub n_coins 1
  divisor ← checked_mul u64 others 4
  adjusted_trade_fee_numerator ← checked_div scaled divisor
  share amount adjusted_trade_fee_numerator f.trade_fee_denominator

-- `assert_fees_info_valid` of utils.rs
unfoldable pub assert_fees_info_valid : Fees → Result (Unit {0})
assert_fees_info_valid f = do
  guard (not (f.admin_trade_fee_denominator == 0)) Fault.assertion
  guard (not (f.admin_withdraw_fee_denominator == 0)) Fault.assertion
  guard (not (f.trade_fee_denominator == 0)) Fault.assertion
  guard (not (f.withdraw_fee_denominator == 0)) Fault.assertion
