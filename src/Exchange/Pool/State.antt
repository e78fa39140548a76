-- ===== src/Exchange/Pool/State.antt =====
-- The state of a pool and what all its methods share: `SimplePool`, its constructor and setters,
-- the rates of its coins and the curve at a time, in snails_exchange/src/simple_pool.rs;
-- `SwapVolume` and `add_to_collection` are in snails_exchange/src/utils.rs.
use snails_contracts.Common.{
  ℕ, suc, ◌-◌, ◌/◌, ◌^◌, List, [], ◌∷◌, Option, none, some, Bool, true, false, leb, ltb, ◌==◌,
  if◌then◌else◌, length, replicate, set, Result, ok, guard, expect, expect_some, index, ◌>>=◌, ◌>>◌,
  Fault, checked_add, u128,
}
use snails_contracts.Common.Table.{Table, lookup, insert, contains_key}
use snails_contracts.Exchange.Fees.{Fees}
use snails_contracts.Exchange.Curve.Ramp
use snails_contracts.Exchange.Curve.Ramp.{StableSwap}

pub record SwapVolume : Type 0 where
  pub input : ℕ
  pub output : ℕ

pub record SimplePool : Type 0 where
  pub token_account_ids : List ℕ
  pub token_decimals : List ℕ
  pub amounts : List ℕ
  pub volumes : List SwapVolume
  pub total_fees : List ℕ
  pub admin_fees : List ℕ
  pub shares : Table ℕ
  pub shares_total_supply : ℕ
  pub initial_amp_factor : ℕ
  pub target_amp_factor : ℕ
  pub start_ramp_ts : ℕ
  pub stop_ramp_ts : ℕ
  pub fees : Fees
  pub apply_new_fee_ts : ℕ
  pub new_fees : Fees

unfoldable pub decimals_to_rates : List ℕ → Result (List ℕ)
decimals_to_rates [] = ok []
decimals_to_rates (d ∷ decimals) = do
  guard (leb d 24) Fault.invalid_rates
  rest ← decimals_to_rates decimals
  ok (10 ^ (24 - d) ∷ rest)

-- `SimplePool::new`, without the prefix of the map of shares, which is new and empty.
unfoldable pub new : ℕ → ℕ → ℕ → ℕ → Fees → List ℕ → List ℕ → Result SimplePool
new initial_amp_factor target_amp_factor start_ramp_ts stop_ramp_ts fees tokens decimals = do
  guard (length tokens == length decimals) Fault.assertion
  ok (record {
    token_account_ids = tokens;
    token_decimals = decimals;
    amounts = replicate (length tokens) 0;
    volumes = replicate (length tokens) (record { input = 0; output = 0 });
    total_fees = replicate (length tokens) 0;
    admin_fees = replicate (length tokens) 0;
    shares = [];
    shares_total_supply = 0;
    initial_amp_factor = initial_amp_factor;
    target_amp_factor = target_amp_factor;
    start_ramp_ts = start_ramp_ts;
    stop_ramp_ts = stop_ramp_ts;
    fees = fees;
    apply_new_fee_ts = 0;
    new_fees = fees;
  })

unfoldable pub set_amp_params : SimplePool → ℕ → ℕ → ℕ → ℕ → SimplePool
set_amp_params p initial_amp_factor target_amp_factor start_ramp_ts stop_ramp_ts = record p {
  initial_amp_factor = initial_amp_factor;
  target_amp_factor = target_amp_factor;
  start_ramp_ts = start_ramp_ts;
  stop_ramp_ts = stop_ramp_ts;
}

unfoldable pub change_fees_setting : SimplePool → Fees → SimplePool
change_fees_setting p fees = record p { fees = fees }

abbrev pub coin_num : SimplePool → ℕ
coin_num p = length p.token_account_ids

-- The preamble of every method that asks the curve: `now` is the block's time in nanoseconds.
unfoldable pub curve_at : ℕ → SimplePool → Result StableSwap
curve_at now p = do
  rates ← decimals_to_rates p.token_decimals
  Ramp.new p.initial_amp_factor p.target_amp_factor (now / 1_000_000_000) p.start_ramp_ts
      p.stop_ramp_ts rates

unfoldable pub assert_param_num : SimplePool → ℕ → Result (Unit {0})
assert_param_num p param_num = guard (coin_num p == param_num) Fault.param_num

-- The position of a token, counted from `i`.
unfoldable pub position : ℕ → ℕ → List ℕ → Option ℕ
position i token [] = none
position i token (t ∷ tokens) = if t == token then some i else position (suc i) token tokens

unfoldable pub token_index : SimplePool → ℕ → Result ℕ
token_index p token_id = expect_some Fault.missing_token (position 0 token_id p.token_account_ids)

-- `v[i] = x`, which panics out of range.
unfoldable pub write {ℓ} : {A : Type ℓ} → List A → ℕ → A → Result (List A)
write xs i x = do guard (ltb i (length xs)) Fault.index_out_of_bounds; ok (set xs i x)

-- `v[i] = v[i].checked_add(x).unwrap()`
unfoldable pub add_at : List ℕ → ℕ → ℕ → Result (List ℕ)
add_at xs i x = do
  old ← index xs i
  sum ← expect Fault.unwrap_none (checked_add u128 old x)
  ok (set xs i sum)

-- `unwrap_or(0)`
abbrev pub or_zero : Option ℕ → ℕ
or_zero none = 0
or_zero (some v) = v

unfoldable pub share_balance_of : SimplePool → ℕ → ℕ
share_balance_of p account_id = or_zero (lookup account_id p.shares)

unfoldable pub is_lp_token_registered : SimplePool → ℕ → Bool
is_lp_token_registered p account_id = contains_key account_id p.shares

unfoldable pub add_to_collection : Table ℕ → ℕ → ℕ → Result (Table ℕ)
add_to_collection c key value = do
  sum ← expect Fault.unwrap_none (checked_add u128 (or_zero (lookup key c)) value)
  ok (insert key sum c)

unfoldable pub mint_shares : SimplePool → ℕ → ℕ → Result SimplePool
mint_shares p account_id shares = if shares == 0 then ok p else do
  supply ← expect Fault.unwrap_none (checked_add u128 p.shares_total_supply shares)
  table ← add_to_collection p.shares account_id shares
  ok (record p { shares_total_supply = supply; shares = table })

unfoldable pub share_transfer : SimplePool → ℕ → ℕ → ℕ → Result SimplePool
share_transfer p sender_id receiver_id amount = do
  balance ← expect_some Fault.no_shares (lookup sender_id p.shares)
  guard (leb amount balance) Fault.not_enough_shares
  let sent = insert sender_id (balance - amount) p.shares
  balance_out ← expect_some Fault.lp_not_registered (lookup receiver_id sent)
  sum ← expect Fault.unwrap_none (checked_add u128 balance_out amount)
  ok (record p { shares = insert receiver_id sum sent })

unfoldable pub share_register : SimplePool → ℕ → Result SimplePool
share_register p account_id = do
  guard (if contains_key account_id p.shares then false else true) Fault.lp_already_registered
  ok (record p { shares = insert account_id 0 p.shares })
