-- ===== src/Exchange/Curve/OneCoin.antt =====
-- The withdrawal of one coin for shares: `remove_liquidity_one_coin` of
-- snails_exchange/src/snails.rs.
pub mod Accounting
use snails_contracts.Common.{
  ℕ, suc, List, [], ◌∷◌, false, leb, ◌==◌, if◌then◌else◌, set, replicate, Result, ok, guard, index,
  ◌>>=◌, ◌>>◌, Fault, checked_add, checked_sub, checked_mul, checked_div, narrow, u128, u192, u576,
}
use snails_contracts.Exchange.Fees.{
  Fees, normalized_trade_fee, admin_trade_fee, withdraw_fee, admin_withdraw_fee,
}
use snails_contracts.Exchange.Curve.Ramp.{StableSwap, p_balances_convert}
use snails_contracts.Exchange.Curve.Invariant.{get_d}
use snails_contracts.Exchange.Curve.Swap.{get_y_d}
use snails_contracts.Exchange.Curve.Status.{PoolStatus}

-- The invariant without the part of the shares.
unfoldable pub reduced_d : ℕ → ℕ → ℕ → Result ℕ
reduced_d remove_lp_amount total_token_supply d_0 = do
  product ← checked_mul u576 remove_lp_amount d_0
  part ← checked_div product total_token_supply
  checked_sub d_0 part

-- The loop that takes the trade fee off every coin, from coin `j` on.
unfoldable pub reduce_fees : StableSwap → Fees → ℕ → ℕ → ℕ → ℕ → ℕ → List ℕ → Result (List ℕ)
reduce_fees s fees i d_0 d_1 p_new_y j [] = ok []
reduce_fees s fees i d_0 d_1 p_new_y j (p ∷ p_balances) = do
  product ← checked_mul u576 p d_1
  quotient ← checked_div product d_0
  ideal ← narrow u128 quotient
  p_dx_expected ← if j == i then checked_sub ideal p_new_y else checked_sub p ideal
  fee ← normalized_trade_fee fees s.coin_num p_dx_expected
  p' ← checked_sub p fee
  rest ← reduce_fees s fees i d_0 d_1 p_new_y (suc j) p_balances
  ok (p' ∷ rest)

-- The amount that leaves the pool before the withdrawal fee, and the trade fee in it.
unfoldable pub one_coin_trade : StableSwap → Fees → ℕ → List ℕ → ℕ → ℕ → Result (ℕ × ℕ)
one_coin_trade s fees i p_balances d_0 d_1 = do
  p_new_y ← get_y_d s i p_balances d_1
  p_i ← index p_balances i
  p_dy_0 ← checked_sub p_i p_new_y
  reduced ← reduce_fees s fees i d_0 d_1 p_new_y 0 p_balances
  reduced_i ← index reduced i
  reduced_y ← get_y_d s i reduced d_1
  gap ← checked_sub reduced_i reduced_y
  p_dy ← checked_sub gap 1
  p_trade_fee ← checked_sub p_dy_0 p_dy
  ok (p_dy, p_trade_fee)

-- What is reported for the coin.
pub record OneCoinResult : Type 0 where
  pub recieved : ℕ
  pub balance : ℕ
  pub total_fee : ℕ
  pub admin_fee : ℕ

-- The fees of the withdrawal, in the common precision.
pub record OneCoinFees : Type 0 where
  pub p_total_fee : ℕ
  pub p_admin_fee : ℕ
  pub p_withdraw_fee : ℕ

unfoldable pub one_coin_fees : Fees → ℕ → ℕ → Result OneCoinFees
one_coin_fees fees p_dy p_trade_fee = do
  p_admin_trade_fee ← admin_trade_fee fees p_trade_fee
  guard (leb p_admin_trade_fee p_trade_fee) Fault.trade_fee_error
  p_withdraw_fee ← withdraw_fee fees p_dy
  p_admin_withdraw_fee ← admin_withdraw_fee fees p_withdraw_fee
  guard (leb p_admin_withdraw_fee p_withdraw_fee) Fault.withdraw_fee_error
  p_total_fee ← checked_add u128 p_trade_fee p_withdraw_fee
  p_admin_fee ← checked_add u128 p_admin_trade_fee p_admin_withdraw_fee
  ok (record {
    p_total_fee = p_total_fee;
    p_admin_fee = p_admin_fee;
    p_withdraw_fee = p_withdraw_fee;
  })

-- The numbers without the common precision.
unfoldable pub one_coin_payout : ℕ → ℕ → ℕ → OneCoinFees → Result OneCoinResult
one_coin_payout p_i rate p_dy f = do
  total_fee ← checked_div f.p_total_fee rate
  admin_fee ← checked_div f.p_admin_fee rate
  p_recieved ← checked_sub p_dy f.p_withdraw_fee
  recieved ← checked_div p_recieved rate
  grown ← checked_add u192 p_i f.p_withdraw_fee
  without_dy ← checked_sub grown p_dy
  without_fee ← checked_sub without_dy f.p_admin_fee
  p_new ← narrow u128 without_fee
  balance ← checked_div p_new rate
  ok (record {
    recieved = recieved;
    balance = balance;
    total_fee = total_fee;
    admin_fee = admin_fee;
  })

unfoldable pub remove_liquidity_one_coin :
    StableSwap → ℕ → ℕ → List ℕ → ℕ → Fees → Result PoolStatus
remove_liquidity_one_coin s i remove_lp_amount balances total_token_supply fees = do
  guard (leb remove_lp_amount total_token_supply) Fault.lp_exceeds_total
  p_balances ← p_balances_convert s balances
  d_0 ← get_d s p_balances
  d_1 ← reduced_d remove_lp_amount total_token_supply d_0
  (p_dy, p_trade_fee) ← one_coin_trade s fees i p_balances d_0 d_1
  p_i ← index p_balances i
  rate ← index s.rates i
  f ← one_coin_fees fees p_dy p_trade_fee
  coin ← one_coin_payout p_i rate p_dy f
  let zeros = replicate {A = ℕ} s.coin_num 0
  ok (record {
    pool_lp_token_changed = remove_lp_amount;
    pool_lp_changed_direction = false;
    recieved_amount = set zeros i coin.recieved;
    new_balances = set balances i coin.balance;
    total_fee_amount = set zeros i coin.total_fee;
    admin_fee_amount = set zeros i coin.admin_fee;
  })
