-- ===== src/Exchange/Contract/Liquidity.antt =====
-- The methods of the exchange contract that change the liquidity of a pool, in
-- snails_exchange/src/lib.rs: the pool's own method, and the deposits of the sender and of the owner.
pub mod Deposits
use snails_contracts.Common.{
  ℕ, ◌-◌, List, [], ◌∷◌, Option, none, some, ltb, leb, if◌then◌else◌, Result, ok, panic, guard,
  expect, not, ◌==◌, ◌||◌, length, ◌>>=◌, ◌>>◌, Fault, checked_add, checked_sub, checked_mul, u128,
}
use snails_contracts.Exchange.Pool.State.{SimplePool}
use snails_contracts.Exchange.Pool.Liquidity
use snails_contracts.Exchange.Account.{
  Account, assert_contract_running, withdraw, internal_unwrap_or_default_account,
  internal_save_account,
}
use snails_contracts.Exchange.Contract.{
  SnailSwap, Call, get_pool, replace_pool, deposit_all, transfer_admin_fees, internal_check_storage,
  reread,
}
use snails_contracts.Common.Table.{insert}

-- The loop that takes an amount of every token.
unfoldable pub withdraw_all : Account → List ℕ → List ℕ → Result Account
withdraw_all a [] amounts = ok a
withdraw_all a (token ∷ tokens) [] = panic Fault.index_out_of_bounds
withdraw_all a (token ∷ tokens) (amount ∷ amounts) = do
  a' ← withdraw a token amount
  withdraw_all a' tokens amounts

-- What the changes of an account's tokens leave in the storage before the account is saved. The
-- owner's account, which is read next, has the length of the map from before the changes, and its
-- deposits of all tokens of the pool would panic on a token that they have added.
unfoldable pub write_through : SnailSwap → ℕ → Account → Result SnailSwap
write_through c account_id a = do
  let stored = internal_unwrap_or_default_account c.accounts account_id
  guard (not (account_id == c.owner_id) || (length a.tokens == length stored.tokens))
      Fault.inconsistent_state
  ok (record c { accounts = insert account_id (record stored { tokens = a.tokens }) c.accounts })

-- The end of all four methods: the owner's fees, the sender's account, which has been read before
-- them and may be the owner's, the pool, and the refund.
unfoldable pub settle :
    Call → SnailSwap → ℕ → SimplePool → List ℕ → Account → Result (SnailSwap × ℕ)
settle call c pool_id pool admin_fees deposits = do
  stored ← write_through c call.predecessor deposits
  c' ← transfer_admin_fees call.byte_cost stored pool.token_account_ids admin_fees
  deposits' ← reread deposits c'.accounts call.predecessor
  accounts ← internal_save_account call.byte_cost c'.accounts call.predecessor deposits'
  refund ← internal_check_storage call
  ok (replace_pool (record c' { accounts = accounts }) pool_id pool, refund)

-- A limit that the caller may set.
unfoldable pub assert_min_mint : Option ℕ → ℕ → Result (Unit {0})
assert_min_mint none lp_shares = ok tt
assert_min_mint (some min_amounts) lp_shares = guard (leb min_amounts lp_shares) Fault.assertion

unfoldable pub assert_max_burn : Option ℕ → ℕ → Result (Unit {0})
assert_max_burn none removed_lp = ok tt
assert_max_burn (some x) removed_lp = guard (leb removed_lp x) Fault.exceed_max_amount

-- The contract, the shares minted and the refund.
unfoldable pub add_liquidity : Call → SnailSwap → ℕ → List ℕ → Option ℕ → Result (SnailSwap × ℕ × ℕ)
add_liquidity call c pool_id amounts min_mint_amount = do
  assert_contract_running c.state
  guard (ltb 0 call.attached_deposit) Fault.deposit_required
  pool ← get_pool c pool_id
  (pool', lp_shares, admin_fees) ← Liquidity.add_liquidity call.now pool call.predecessor amounts
  assert_min_mint min_mint_amount lp_shares
  let deposits = internal_unwrap_or_default_account c.accounts call.predecessor
  deposits' ← withdraw_all deposits pool'.token_account_ids amounts
  (c', refund) ← settle call c pool_id pool' admin_fees deposits'
  ok (c', lp_shares, refund)

-- The NEAR of an account after the storage that the pool has freed.
unfoldable pub credit_storage : Call → Account → Result Account
credit_storage call a =
    if ltb call.pool_storage call.prev_storage
    then (do
      freed ← expect Fault.unwrap_none (checked_sub call.prev_storage call.pool_storage)
      value ← expect Fault.unwrap_none (checked_mul u128 freed call.byte_cost)
      near_amount ← expect Fault.unwrap_none (checked_add u128 a.near_amount value)
      ok (record a { near_amount = near_amount }))
    else ok a

-- The part that the three withdrawals share: the amounts that the pool pays out are deposited.
unfoldable pub pay_out :
    Call → SnailSwap → ℕ → SimplePool → List ℕ → List ℕ → Result (SnailSwap × ℕ)
pay_out call c pool_id pool amounts admin_fees = do
  deposits ←
      deposit_all (internal_unwrap_or_default_account c.accounts call.predecessor)
        pool.token_account_ids amounts
  deposits' ← credit_storage call deposits
  settle call c pool_id pool admin_fees deposits'

-- `one_yocto` is the outcome of the SDK's `assert_one_yocto`.
module _ (one_yocto : Result (Unit {0})) where
  unfoldable pub remove_liquidity : Call → SnailSwap → ℕ → ℕ → List ℕ → Result (SnailSwap × ℕ)
  remove_liquidity call c pool_id shares min_amounts = do
    one_yocto
    assert_contract_running c.state
    pool ← get_pool c pool_id
    (pool', amounts, admin_fees) ←
        Liquidity.remove_liquidity call.now pool call.predecessor shares min_amounts
    pay_out call c pool_id pool' amounts admin_fees

  unfoldable pub remove_liquidity_imbalance :
      Call → SnailSwap → ℕ → List ℕ → Option ℕ → Result (SnailSwap × ℕ)
  remove_liquidity_imbalance call c pool_id remove_coin_amount max_amount = do
    one_yocto
    assert_contract_running c.state
    pool ← get_pool c pool_id
    (pool', removed_lp, admin_fees) ←
        Liquidity.remove_liquidity_imbalance call.now pool call.predecessor remove_coin_amount
    assert_max_burn max_amount removed_lp
    pay_out call c pool_id pool' remove_coin_amount admin_fees

  unfoldable pub remove_liquidity_one_coin :
      Call → SnailSwap → ℕ → ℕ → ℕ → ℕ → Result (SnailSwap × ℕ)
  remove_liquidity_one_coin call c pool_id token_out remove_lp_amount min_amount = do
    one_yocto
    assert_contract_running c.state
    pool ← get_pool c pool_id
    (pool', amounts, admin_fees) ←
        Liquidity.remove_liquidity_one_coin call.now pool call.predecessor token_out
          remove_lp_amount min_amount
    pay_out call c pool_id pool' amounts admin_fees
