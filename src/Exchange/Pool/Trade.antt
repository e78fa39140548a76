-- ===== src/Exchange/Pool/Trade.antt =====
-- The exchange of a pool: `swap`, `get_return`, `get_virtual_price` and `get_amp_factor` of
-- snails_exchange/src/simple_pool.rs.
pub mod Accounting
use snails_contracts.Common.{
  ℕ, ◌%◌, List, leb, set, Result, ok, guard, expect, index, ◌>>=◌, ◌>>◌, Fault, checked_add,
  checked_sub, u8, u128,
}
use snails_contracts.Exchange.Curve.Ramp
use snails_contracts.Exchange.Curve.Invariant
use snails_contracts.Exchange.Curve.Swap
use snails_contracts.Exchange.Curve.Swap.{SwapResult}
use snails_contracts.Exchange.Pool.State.{SimplePool, SwapVolume, curve_at, token_index, add_at}

-- `v[i] = v[i].checked_sub(x).unwrap()`
unfoldable pub sub_at : List ℕ → ℕ → ℕ → Result (List ℕ)
sub_at xs i x = do
  old ← index xs i
  difference ← expect Fault.unwrap_none (checked_sub old x)
  ok (set xs i difference)

unfoldable pub add_volume : List SwapVolume → ℕ → ℕ → ℕ → Result (List SwapVolume)
add_volume volumes i amount_in amount_out = do
  volume ← index volumes i
  input ← expect Fault.unwrap_none (checked_add u128 volume.input amount_in)
  output ← expect Fault.unwrap_none (checked_add u128 volume.output amount_out)
  ok (set volumes i (record { input = input; output = output }))

-- The update of the pool by a swap, and what is returned: the amount paid, the owner's fee.
unfoldable pub settle_swap : SimplePool → ℕ → ℕ → ℕ → SwapResult → Result (SimplePool × ℕ × ℕ)
settle_swap p in_idx out_idx amount_in result = do
  grown ← add_at p.amounts in_idx amount_in
  amounts ← sub_at grown out_idx result.amount_b
  total_fees ← add_at p.total_fees out_idx result.total_fee
  admin_fees ← add_at p.admin_fees out_idx result.admin_fee
  volumes ← add_volume p.volumes in_idx amount_in result.amount_b
  ok (
    record p {
      amounts = amounts;
      volumes = volumes;
      total_fees = total_fees;
      admin_fees = admin_fees;
    },
    result.amount_b,
    result.admin_fee,
  )

unfoldable pub swap : ℕ → SimplePool → ℕ → ℕ → ℕ → ℕ → Result (SimplePool × ℕ × ℕ)
swap now p token_in amount_in token_out min_amount_out = do
  curve ← curve_at now p
  in_idx ← token_index p token_in
  out_idx ← token_index p token_out
  result ←
      expect Fault.swap_failed
        (Swap.exchange curve (in_idx % u8) (out_idx % u8) amount_in p.amounts p.fees)
  guard (leb min_amount_out result.amount_b) Fault.min_amount
  settle_swap p in_idx out_idx amount_in result

unfoldable pub get_return : ℕ → SimplePool → ℕ → ℕ → ℕ → Result ℕ
get_return now p token_in amount_in token_out = do
  in_idx ← token_index p token_in
  out_idx ← token_index p token_out
  curve ← curve_at now p
  result ←
      expect Fault.get_return_failed
        (Swap.exchange curve (in_idx % u8) (out_idx % u8) amount_in p.amounts p.fees)
  ok result.amount_b

unfoldable pub get_virtual_price : ℕ → SimplePool → Result ℕ
get_virtual_price now p = do
  curve ← curve_at now p
  expect Fault.invalid_virtual_price
      (Invariant.get_virtual_price curve p.amounts p.shares_total_supply)

unfoldable pub get_amp_factor : ℕ → SimplePool → Result ℕ
get_amp_factor now p = do
  curve ← curve_at now p
  expect Fault.amp_factor_failed (Ramp.compute_amp_factor curve)
