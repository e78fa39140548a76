-- ===== src/Farming/Contract/Storage.antt =====
-- The storage management of the farming contract, snails_farming/src/storage_impl.rs. The NEAR that a
-- promise pays back is a second result.
use snails_contracts.Common.{
  ℕ, ◌+◌, ◌-◌, ◌*◌, [], ◌∷◌, Bool, true, false, Option, none, some, ltb, leb, ◌==◌, if◌then◌else◌,
  Result, ok, panic, guard, expect, expect_some, ◌>>=◌, ◌>>◌, Fault, checked_add, checked_sub,
  checked_mul, u64, u128,
}
use snails_contracts.Common.Table.{Table, lookup, insert, remove}
use snails_contracts.Farming.Farmer
use snails_contracts.Farming.Farmer.{Farmer, storage_usage}
use snails_contracts.Farming.Contract.{ContractData, assert_contract_running}

-- What a farmer uses and has paid.
unfoldable pub storage_of : ℕ → Option Farmer → Result (ℕ × ℕ)
storage_of byte_cost none = ok (0, 0)
storage_of byte_cost (some w) = do locked ← storage_usage byte_cost w; ok (locked, w.amount)

abbrev pub internal_farmer_storage : ℕ → ContractData → ℕ → Result (ℕ × ℕ)
internal_farmer_storage byte_cost c account_id = storage_of byte_cost (lookup account_id c.farmers)

unfoldable pub assert_storage_usage : ℕ → ContractData → ℕ → Result (Unit {0})
assert_storage_usage byte_cost c account_id = do
  (locked, deposited) ← internal_farmer_storage byte_cost c account_id
  guard (ltb 0 deposited) Fault.account_not_registered
  guard (leb locked deposited) Fault.storage_shortage

unfoldable pub suggested_min_storage_usage : ℕ → Result ℕ
suggested_min_storage_usage byte_cost =
    expect Fault.overflow
      (checked_mul u128 ((64 + 16 + 4 * 3) + 2 * 5 * (64 + 16) + 10 * (64 + 32)) byte_cost)

-- What the storage has of the rewards per seed of a farmer who has left.
unfoldable pub left_of : Option (Table ℕ) → Table ℕ
left_of none = []
left_of (some left) = left

unfoldable pub register_found : Option Farmer → ContractData → ℕ → ℕ → Result ContractData
register_found (some w) c account_id amount = do
  sum ← expect Fault.unwrap_none (checked_add u128 w.amount amount)
  ok (record c { farmers = insert account_id (record w { amount = sum }) c.farmers })
register_found none c account_id amount = do
  count ← expect Fault.unwrap_none (checked_add u64 c.farmer_count 1)
  ok (record c {
    farmers =
        insert account_id (Farmer.new (left_of (lookup account_id c.left_rps)) amount) c.farmers;
    farmer_count = count;
  })

abbrev pub internal_register_account : ContractData → ℕ → ℕ → Result ContractData
internal_register_account c account_id amount =
    register_found (lookup account_id c.farmers) c account_id amount

pub record StorageBalance : Type 0 where
  pub total : ℕ
  pub available : ℕ

unfoldable pub storage_balance_of : ℕ → ContractData → ℕ → Result (Option StorageBalance)
storage_balance_of byte_cost c account_id = do
  (locked, deposited) ← internal_farmer_storage byte_cost c account_id
  if ltb 0 locked
      then ok (some (record { total = deposited; available = deposited - locked }))
      else ok none

-- A new account pays at least the suggested amount; with a registration only, the rest is paid back.
unfoldable pub register_new : ContractData → ℕ → ℕ → ℕ → Bool → Result (ContractData × ℕ)
register_new c account_id amount least true = do
  c' ← internal_register_account c account_id least
  refund ← expect Fault.unwrap_none (checked_sub amount least)
  ok (c', refund)
register_new c account_id amount least false = do
  c' ← internal_register_account c account_id amount
  ok (c', 0)

-- A known account can only add to its storage.
unfoldable pub complement : ContractData → ℕ → ℕ → ℕ → ℕ → Bool → Result (ContractData × ℕ)
complement c account_id amount locked deposited true = panic Fault.already_registered
complement c account_id amount locked deposited false = do
  sum ← expect Fault.overflow (checked_add u128 amount deposited)
  guard (leb locked sum) Fault.storage_shortage
  c' ← internal_register_account c account_id amount
  ok (c', 0)

abbrev pub account_or : Option ℕ → ℕ → ℕ
account_or none predecessor = predecessor
account_or (some account_id) predecessor = account_id

abbrev pub is_true : Option Bool → Bool
is_true none = false
is_true (some b) = b

unfoldable pub storage_deposit :
    ℕ → ContractData → ℕ → ℕ → Option ℕ → Option Bool → Result (ContractData × StorageBalance × ℕ)
storage_deposit byte_cost c predecessor amount named registration_only = do
  assert_contract_running c.state
  let account_id = account_or named predecessor
  (locked, deposited) ← internal_farmer_storage byte_cost c account_id
  (c', refund) ←
      if deposited == 0
      then (do
        least ← suggested_min_storage_usage byte_cost
        guard (leb least amount) Fault.storage_shortage
        register_new c account_id amount least (is_true registration_only))
      else complement c account_id amount locked deposited (is_true registration_only)
  found ← storage_balance_of byte_cost c' account_id
  balance ← expect_some Fault.unwrap_none found
  ok (c', balance, refund)

abbrev pub amount_or : Option ℕ → ℕ → ℕ
amount_or none available = available
amount_or (some amount) available = amount

unfoldable pub take_storage : ContractData → ℕ → ℕ → ℕ → Option ℕ → Result (ContractData × ℕ)
take_storage c account_id locked deposited asked = do
  guard (leb locked deposited) Fault.storage_shortage
  let amount = amount_or asked (deposited - locked)
  sum ← expect Fault.overflow (checked_add u128 locked amount)
  guard (leb sum deposited) Fault.storage_shortage
  w ← expect_some Fault.account_not_registered (lookup account_id c.farmers)
  left ← expect Fault.unwrap_none (checked_sub w.amount amount)
  ok (record c { farmers = insert account_id (record w { amount = left }) c.farmers }, amount)

unfoldable pub storage_withdraw :
    Result (Unit {0}) → ℕ → ContractData → ℕ → Option ℕ → Result (ContractData × StorageBalance × ℕ)
storage_withdraw one_yocto byte_cost c account_id asked = do
  one_yocto
  assert_contract_running c.state
  (locked, deposited) ← internal_farmer_storage byte_cost c account_id
  guard (ltb 0 deposited) Fault.account_not_registered
  (c', paid) ← take_storage c account_id locked deposited asked
  found ← storage_balance_of byte_cost c' account_id
  balance ← expect_some Fault.unwrap_none found
  ok (c', balance, paid)

abbrev pub is_empty : Table ℕ → Bool
is_empty [] = true
is_empty (_ ∷ _) = false

-- Only a farmer without rewards and seeds leaves. The storage keeps his rewards per seed.
unfoldable pub leave : Option Farmer → ContractData → ℕ → Result (ContractData × Bool × ℕ)
leave none c account_id = ok (c, false, 0)
leave (some w) c account_id = do
  guard (is_empty w.rewards) Fault.rewards_not_empty
  guard (is_empty w.seeds) Fault.seeds_not_empty
  count ← expect Fault.unwrap_none (checked_sub c.farmer_count 1)
  ok (
    record c {
      farmers = remove account_id c.farmers;
      farmer_count = count;
      left_rps = insert account_id w.user_rps c.left_rps;
    },
    true,
    w.amount,
  )

unfoldable pub storage_unregister :
    Result (Unit {0}) → ContractData → ℕ → Result (ContractData × Bool × ℕ)
storage_unregister one_yocto c account_id = do
  one_yocto
  assert_contract_running c.state
  leave (lookup account_id c.farmers) c account_id
