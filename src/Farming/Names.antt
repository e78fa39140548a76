-- ===== src/Farming/Names.antt =====
-- The names of seeds and farms, which the contract composes and takes apart: `parse_seed_id`,
-- `parse_farm_id`, `gen_farm_id` and `wrap_mft_token_id` of snails_farming/src/utils.rs and the token
-- ids of token_receiver.rs. The contract keeps names as numbers; here they are the bytes that the
-- numbers stand for.
pub mod RoundTrip
use snails_contracts.Common.{
  ℕ, zero, suc, ◌+◌, ◌-◌, ◌*◌, ◌/◌, ◌%◌, ◌&&◌, List, [], ◌∷◌, ◌++◌, Option, none, some, ltb, leb,
  ◌==◌, if◌then◌else◌, Result, ok, panic, guard, expect_some, ◌>>=◌, ◌>>◌, Fault, u32,
}

-- `str::split` by one byte.
unfoldable pub to_first : ℕ → List (List ℕ) → List (List ℕ)
to_first c [] = (c ∷ []) ∷ []
to_first c (part ∷ parts) = (c ∷ part) ∷ parts

unfoldable pub split : ℕ → List ℕ → List (List ℕ)
split tag [] = [] ∷ []
split tag (c ∷ bytes) =
    let rest = split tag bytes in if c == tag then [] ∷ rest else to_first c rest

-- `str::parse::<usize>`, whose numbers have 32 bits on the contract's machine.
unfoldable pub parse_digits : ℕ → List ℕ → Option ℕ
parse_digits n [] = some n
parse_digits n (c ∷ bytes) =
    let rest = parse_digits (n * 10 + (c - 48)) bytes in
    if leb 48 c && leb c 57 && ltb (n * 10 + (c - 48)) u32 then rest else none

unfoldable pub parse_usize : List ℕ → Option ℕ
parse_usize [] = none
parse_usize (c ∷ []) = parse_digits 0 (c ∷ [])
parse_usize (c ∷ d ∷ bytes) =
    if c == 43 then parse_digits 0 (d ∷ bytes) else parse_digits 0 (c ∷ d ∷ bytes)

-- The decimal digits of a number in at most `n` places, before the bytes `rest`.
unfoldable pub digits : ℕ → ℕ → List ℕ → List ℕ
digits zero number rest = rest
digits (suc n) number rest =
    let more = digits n (number / 10) ((48 + number % 10) ∷ rest) in
    if ltb number 10 then (48 + number) ∷ rest else more

-- A number of 64 bits has at most 20 digits.
abbrev pub print : ℕ → List ℕ
print number = digits 20 number []

-- `MFT_TAG` and the mark before the index of a farm.
abbrev pub mft_tag : ℕ
mft_tag = 64

abbrev pub farm_tag : ℕ
farm_tag = 35

unfoldable pub seed_parts : List (List ℕ) → Result (List ℕ × List ℕ)
seed_parts [] = panic Fault.invalid_seed_id
seed_parts (receiver_id ∷ []) = ok (receiver_id, receiver_id)
seed_parts (receiver_id ∷ token_id ∷ []) = ok (receiver_id, token_id)
seed_parts (a ∷ b ∷ c ∷ parts) = panic Fault.invalid_seed_id

unfoldable pub parse_seed_id : List ℕ → Result (List ℕ × List ℕ)
parse_seed_id lpt_id = seed_parts (split mft_tag lpt_id)

unfoldable pub farm_parts : List (List ℕ) → Result (List ℕ × ℕ)
farm_parts [] = panic Fault.invalid_farm_id
farm_parts (a ∷ []) = panic Fault.invalid_farm_id
farm_parts (seed_id ∷ index ∷ []) = do
  i ← expect_some Fault.unwrap_none (parse_usize index)
  ok (seed_id, i)
farm_parts (a ∷ b ∷ c ∷ parts) = panic Fault.invalid_farm_id

unfoldable pub parse_farm_id : List ℕ → Result (List ℕ × ℕ)
parse_farm_id farm_id = farm_parts (split farm_tag farm_id)

unfoldable pub gen_farm_id : List ℕ → ℕ → List ℕ
gen_farm_id seed_id index = seed_id ++ (farm_tag ∷ print index)

unfoldable pub wrap_mft_token_id : List ℕ → List ℕ
wrap_mft_token_id token_id = 58 ∷ token_id

-- The seed of a token of another contract.
unfoldable pub mft_seed_id : List ℕ → ℕ → List ℕ
mft_seed_id predecessor pool_id = predecessor ++ (mft_tag ∷ print pool_id)
