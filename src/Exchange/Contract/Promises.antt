-- ===== src/Exchange/Contract/Promises.antt =====
-- What the SDK hands to a callback.
use snails_contracts.Common.{ℕ, List}

-- `PromiseResult`, with the bytes that the other contract has returned.
pub data PromiseResult : Type 0 where
  not_ready failed : PromiseResult
  successful : List ℕ → PromiseResult
