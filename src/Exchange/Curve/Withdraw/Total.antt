-- ===== src/Exchange/Curve/Withdraw/Total.antt =====
-- A proportional withdrawal never fails, under a schedule of proportions.
use snails_contracts.Common.{
  ℕ, ◌-◌, ◌*◌, ◌/◌, ◌<◌, ◌≤◌, ◌≡◌, List, [], ◌∷◌, refl, ok, arith, checked_mul_fits,
  checked_div_fits, checked_sub_fits, narrow_fits, lt→ltb, le→leb, pos→ne, length, u128, u256, ltb,
  if◌then◌else◌,
}
use snails_contracts.Common.Arith
use snails_contracts.Exchange.Fees.{Fees}
use snails_contracts.Exchange.Fees.Bounds.{
  IsProportional, withdraw_fee_total, admin_withdraw_fee_total,
}
use snails_contracts.Exchange.Curve.Ramp.{StableSwap}
use snails_contracts.Exchange.Curve.Status.{PoolStatus}
use snails_contracts.Exchange.Curve.Ledger.{All}
use snails_contracts.Exchange.Curve.Withdraw.{
  CoinWithdrawal, withdraw_coin, withdraw_coins, withdrawal_status, remove_liquidity,
}

module _ (fees : Fees) (proportional : IsProportional fees) (lp supply : ℕ) (part : lp ≤ supply)
    (pos : 0 < supply) (fits : supply < u128) where
  withdraw_coin_total :
      (slots balance : ℕ)
      → 0 < slots
      → balance < u128
      → (c : CoinWithdrawal) × (withdraw_coin fees lp supply slots balance ≡ ok c)
  unfolding withdraw_coin
  withdraw_coin_total slots balance free small =
      let value = balance * lp / supply in
      let value_le : value ≤ balance = Arith.mul-div-le balance lp supply part in
      let (t, ht, t_le) = withdraw_fee_total fees proportional value (omega arith) in
      let (a, ha, a_le) = admin_withdraw_fee_total fees proportional t (omega arith) in
      let out = if ltb lp supply then t else a in
      let out_le : out ≤ value = ground arith in
      let keep : a ≤ balance - (value - out) = ground arith in
      (
        record {
          recieved = value - out;
          balance = balance - (value - out) - a;
          total_fee = t;
          admin_fee = a;
        },
        rw
            (
              checked_mul_fits u256 balance lp
                  (omega (arith, Arith.mul-lt-mul balance lp u128 u128 small (omega arith))),
              checked_div_fits (balance * lp) supply pos,
              narrow_fits u128 value (omega arith),
              ht,
              lt→ltb 0 slots free,
              ha,
              checked_sub_fits value out out_le,
              checked_sub_fits balance (value - out) (omega arith),
              checked_sub_fits (balance - (value - out)) a keep,
            )
            refl,
      )

  withdraw_coins_total :
      (slots : ℕ) (balances : List ℕ)
      → length balances ≤ slots
      → All (λ b. b < u128) balances
      → (cs : List CoinWithdrawal) × (withdraw_coins fees lp supply slots balances ≡ ok cs)
  unfolding withdraw_coins
  withdraw_coins_total slots [] room small = ([], refl)
  withdraw_coins_total slots (b ∷ balances) room small =
      let (c, hc) = withdraw_coin_total slots b (omega arith) small.0 in
      let (cs, hcs) = withdraw_coins_total (slots - 1) balances (omega arith) small.1 in
      (c ∷ cs, rw (hc, hcs) refl)

-- Under a schedule of proportions (no fee's numerator is above its denominator, which is positive
-- and of 64 bits), in a pool with shares, their supply and each balance below 2^128, of no more
-- coins than it has rates, any number of shares up to all of them can be withdrawn: the method
-- returns a report.
pub remove_liquidity_total :
    (s : StableSwap) (lp supply : ℕ) (balances : List ℕ) (fees : Fees)
    → IsProportional fees
    → 0 < supply
    → supply < u128
    → lp ≤ supply
    → length balances ≤ s.coin_num
    → All (λ b. b < u128) balances
    → (st : PoolStatus) × (remove_liquidity s lp balances supply fees ≡ ok st)
unfolding remove_liquidity
remove_liquidity_total s lp supply balances fees proportional pos fits part room small =
    let (cs, hcs) =
      withdraw_coins_total fees proportional lp supply part pos fits s.coin_num balances room
        small in
    (withdrawal_status s lp cs, rw (pos→ne supply pos, le→leb lp supply part, hcs) refl)
