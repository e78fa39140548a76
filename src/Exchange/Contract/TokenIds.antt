-- ===== src/Exchange/Contract/TokenIds.antt =====
-- The ids of tokens, which are bytes: a colon and the number of a pool, or the name of an account,
-- in snails_exchange/src/multi_fungible_token.rs. The conversion of bytes to an account's name is a
-- parameter.
pub mod Numbers
use snails_contracts.Common.{
  ℕ, ◌+◌, ◌-◌, ◌*◌, ◌&&◌, List, [], ◌∷◌, Option, none, some, ltb, leb, ◌==◌, if◌then◌else◌, Result,
  ok, expect_some, ◌>>=◌, Fault, u64,
}

pub data TokenOrPool : Type 0 where
  token pool : ℕ → TokenOrPool

-- A number of decimal digits that fits into 64 bits, after the number `n`.
unfoldable pub parse_digits : ℕ → List ℕ → Option ℕ
parse_digits n [] = some n
parse_digits n (c ∷ bytes) =
    let rest = parse_digits (n * 10 + (c - 48)) bytes in
    if leb 48 c && leb c 57 && ltb (n * 10 + (c - 48)) u64 then rest else none

-- `str::parse::<u64>`: at least one digit, a plus sign may stand before them.
unfoldable pub parse_u64 : List ℕ → Option ℕ
parse_u64 [] = none
parse_u64 (c ∷ []) = parse_digits 0 (c ∷ [])
parse_u64 (c ∷ d ∷ bytes) =
    if c == 43 then parse_digits 0 (d ∷ bytes) else parse_digits 0 (c ∷ d ∷ bytes)

-- The number of a pool after a colon.
unfoldable pub try_identify_pool_id : List ℕ → Option ℕ
try_identify_pool_id [] = none
try_identify_pool_id (c ∷ bytes) = if c == 58 then parse_u64 bytes else none

module _ (account_id_of : List ℕ → Option ℕ) where
  unfoldable pub token_or_pool : Option ℕ → List ℕ → Result TokenOrPool
  token_or_pool (some pool_id) token_id = ok (TokenOrPool.pool pool_id)
  token_or_pool none token_id = do
    account_id ← expect_some Fault.invalid_account_id (account_id_of token_id)
    ok (TokenOrPool.token account_id)

  unfoldable pub parse_token_id : List ℕ → Result TokenOrPool
  parse_token_id token_id = token_or_pool (try_identify_pool_id token_id) token_id
