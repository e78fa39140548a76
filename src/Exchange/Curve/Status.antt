-- ===== src/Exchange/Curve/Status.antt =====
-- `PoolStatus` of snails_exchange/src/snails.rs: what the methods that change the liquidity
-- report, coin by coin. The vectors of fees are made with one zero for each coin of the pool.
use snails_contracts.Common.{ℕ, ◌-◌, ◌++◌, List, Bool, length, replicate}

pub record PoolStatus : Type 0 where
  pub pool_lp_token_changed : ℕ
  pub pool_lp_changed_direction : Bool
  pub recieved_amount : List ℕ
  pub new_balances : List ℕ
  pub total_fee_amount : List ℕ
  pub admin_fee_amount : List ℕ

-- A vector of `n` zeros, after its first places have been written.
unfoldable pub pad : ℕ → List ℕ → List ℕ
pad n xs = xs ++ replicate (n - length xs) 0
