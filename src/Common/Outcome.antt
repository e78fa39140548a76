-- ===== src/Common/Outcome.antt =====
-- The outcome of a call: a value, the `None` that `?` passes on, or a panic, which aborts the
-- transaction.
use mathlib.Core.Path.{◌≡◌, refl}
use mathlib.Core.Bool.{Bool, true, false}
use mathlib.Core.Option.{Option, none, some}
use mathlib.Core.List.{List}
use Prim.Native.Nat.{ℕ}
use snails_contracts.Common.Lists.{get_elem?}

-- Why a call panics: the messages of the source, and the faults of the language.
pub data Fault : Type 0 where
  overflow index_out_of_bounds division_by_zero assertion unwrap_none : Fault
  invalid_rates coin_num_range amp_zero ann_too_small param_num lp_exceeds_total : Fault
  admin_trade_fee_error admin_withdraw_fee_error trade_fee_shortage withdraw_fee_shortage : Fault
  trade_fee_error withdraw_fee_error : Fault
  add_liquidity_failed remove_liquidity_failed remove_imbalance_failed remove_one_coin_failed :
      Fault
  zero_shares no_shares less_than_min_amount invalid_input_amount exceed_min_amount : Fault
  swap_failed min_amount missing_token get_return_failed not_enough_shares lp_not_registered : Fault
  lp_already_registered invalid_virtual_price amp_factor_failed : Fault
  not_enough_tokens token_not_reg non_zero_token_balance storage_shortage : Fault
  internal_error not_enough_seed seed_not_exist account_not_registered : Fault
  contract_paused illegal_withdraw_amount not_allowed no_pool : Fault
  storage_deposit deposit_required token_duplicates exceed_max_amount callback_invalid : Fault
  transfer_to_self invalid_register unimplemented insufficient_gas wrong_msg_format : Fault
  deposit_less_than_min_storage tokens_not_empty already_initialized invalid_account_id : Fault
  invalid_seed_id invalid_farm_id farm_not_exist invalid_farm_reward invalid_farm_status : Fault
  below_min_seed_deposited illegal_token_id msg_incorrect already_registered : Fault
  rewards_not_empty seeds_not_empty inconsistent_state : Fault

pub data Result {ℓ} (V : Type ℓ) : Type ℓ where
  absent : Result V
  panic : Fault → Result V
  ok : V → Result V

infixl 5 ◌>>=◌
abbrev pub ◌>>=◌ {ℓ μ} : {V : Type ℓ} {W : Type μ} → Result V → (V → Result W) → Result W
absent >>= next = absent
panic reason >>= next = panic reason
ok v >>= next = next v

-- `assert!(b, reason)`
abbrev pub guard : Bool → Fault → Result (Unit {0})
guard false reason = panic reason
guard true reason = ok tt

infixl 5 ◌>>◌
abbrev pub ◌>>◌ {ℓ} : {W : Type ℓ} → Result (Unit {0}) → Result W → Result W
first >> second = first >>= λ _. second

-- `.expect(e)` and `.unwrap()`
abbrev pub expect {ℓ} : {A : Type ℓ} → Fault → Result A → Result A
expect e (ok a) = ok a
expect e absent = panic e
expect e (panic e') = panic e'

-- `.expect(e)` on an `Option`
abbrev pub expect_some {ℓ} : {A : Type ℓ} → Fault → Option A → Result A
expect_some e (some a) = ok a
expect_some e none = panic e

-- `xs[i]`
abbrev pub index {ℓ} : {A : Type ℓ} → List A → ℕ → Result A
index xs i = expect_some Fault.index_out_of_bounds (get_elem? xs i)

-- A chain that succeeds has a first value, from which the rest succeeds.
pub >>=-eq-ok {ℓ μ} :
    {V : Type ℓ} {W : Type μ} (first : Result V) (next : V → Result W) {w : W}
    → (first >>= next) ≡ ok w
    → (v : V) × (first ≡ ok v) × (next v ≡ ok w)
>>=-eq-ok absent next h = cc
>>=-eq-ok (panic reason) next h = cc
>>=-eq-ok (ok v) next h = (v, refl, h)

pub guard-eq-ok : (b : Bool) (e : Fault) {u : Unit {0}} → guard b e ≡ ok u → b ≡ true
guard-eq-ok true e h = refl
guard-eq-ok false e h = cc

pub ok-injective {ℓ} : {A : Type ℓ} {a b : A} → ok a ≡ ok b → a ≡ b
ok-injective h = cc

-- The same for a conclusion: the value is a variable there.
pub >>=-elim {ℓ κ μ} :
    {A : Type ℓ} {B : Type κ} {C : Type μ} (m : Result A) (f : A → Result B) {b : B}
    → (m >>= f) ≡ ok b
    → ((a : A) → m ≡ ok a → f a ≡ ok b → C)
    → C
>>=-elim (ok a) f h k = k a refl h
>>=-elim absent f h k = absurd (cc)
>>=-elim (panic e) f h k = absurd (cc)

pub expect_some-ok {ℓ} :
    {A : Type ℓ} (e : Fault) (o : Option A) {a : A} → expect_some e o ≡ ok a → o ≡ some a
expect_some-ok e (some x) h = cc
expect_some-ok e none h = cc

pub index-ok {ℓ} :
    {A : Type ℓ} (xs : List A) (i : ℕ) {a : A} → index xs i ≡ ok a → get_elem? xs i ≡ some a
index-ok xs i h = expect_some-ok Fault.index_out_of_bounds (get_elem? xs i) h

pub expect-ok {ℓ} : {A : Type ℓ} (e : Fault) (m : Result A) {a : A} → expect e m ≡ ok a → m ≡ ok a
expect-ok e (ok x) h = h
expect-ok e absent h = cc
expect-ok e (panic e') h = cc
