-- ===== src/Exchange/Contract/Ledger.antt =====
-- The abstract ledger of the tokens of the contract: who has how much of which token, where a token
-- is one that has been deposited or the shares of a pool. A client's calls change it as a function,
-- without accounts, storage or order of entries.
pub mod Views
pub mod Moves
pub mod Unchanged
pub mod Refinement
use snails_contracts.Common.{
  ℕ, ◌+◌, ◌-◌, ◌&&◌, List, [], ◌∷◌, Option, none, some, Bool, true, false, ◌==◌, if◌then◌else◌,
  Result, ok, absent, panic, ◌>>=◌, get_elem?,
}
use snails_contracts.Common.Table.{Table}
use snails_contracts.Exchange.Pool.State.{SimplePool, share_balance_of}
use snails_contracts.Exchange.Account.{
  Account, internal_get_deposit, register_tokens, unregister_tokens, withdraw_tokens,
}
use snails_contracts.Exchange.Contract.{SnailSwap, Call}
use snails_contracts.Exchange.Contract.TokenIds.{TokenOrPool, parse_token_id}
use snails_contracts.Exchange.Contract.Tokens.{mft_transfer, mft_register}
use snails_contracts.Exchange.Contract.Transfers.{Sent, ft_on_transfer}
use snails_contracts.Exchange.Contract.Storage.{
  StorageBalance, storage_deposit, storage_withdraw, storage_unregister,
}

abbrev pub Book : Type 0
Book = TokenOrPool → ℕ → ℕ

unfoldable pub shares_in : Option SimplePool → ℕ → ℕ
shares_in none account = 0
shares_in (some p) account = share_balance_of p account

-- What the contract keeps, as a ledger.
unfoldable pub view : SnailSwap → Book
view c (TokenOrPool.token token) account = internal_get_deposit c.accounts account token
view c (TokenOrPool.pool pool_id) account = shares_in (get_elem? c.pools pool_id) account

unfoldable pub is_id : TokenOrPool → TokenOrPool → Bool
is_id (TokenOrPool.token t) (TokenOrPool.token u) = t == u
is_id (TokenOrPool.pool i) (TokenOrPool.pool j) = i == j
is_id (TokenOrPool.token t) (TokenOrPool.pool j) = false
is_id (TokenOrPool.pool i) (TokenOrPool.token u) = false

-- One balance changed.
unfoldable pub change : (ℕ → ℕ) → TokenOrPool → ℕ → Book → Book
change f id account b id' account' =
    if is_id id' id && account' == account then f (b id' account') else b id' account'

abbrev pub credit : ℕ → TokenOrPool → ℕ → Book → Book
credit amount = change (λ n. n + amount)

abbrev pub debit : ℕ → TokenOrPool → ℕ → Book → Book
debit amount = change (λ n. n - amount)

-- A call of a client. The predecessor of a deposit is the contract of the token.
pub data Op : Type 0 where
  deposits : Call → (sender amount : ℕ) → Op
  withdraws : Call → (token amount : ℕ) → Option Bool → Op
  transfers : Call → List ℕ → (receiver amount : ℕ) → Op
  registers unregisters : Call → List ℕ → Op
  registers_shares : Call → List ℕ → (account : ℕ) → Op
  pays_storage : Call → Option ℕ → Option Bool → Op
  takes_storage : Call → Option ℕ → Op
  leaves : Call → Op

unfoldable pub replay_transfer : Result TokenOrPool → ℕ → ℕ → ℕ → Book → Book
replay_transfer absent sender receiver amount b = b
replay_transfer (panic e) sender receiver amount b = b
replay_transfer (ok id) sender receiver amount b =
    credit amount id receiver (debit amount id sender b)

-- `one_yocto` is the outcome of the SDK's `assert_one_yocto` in a call.
module _ (account_id_of : List ℕ → Option ℕ) (one_yocto : Call → Result (Unit {0})) where
  -- The call's effect on the contract.
  unfoldable pub run_op : Op → SnailSwap → Result SnailSwap
  run_op (Op.deposits call sender amount) c = do
    (c', promise) ←
        ft_on_transfer (λ _. none) call.now call.byte_cost c call.predecessor sender amount []
    ok c'
  run_op (Op.withdraws call token amount unregister_token) c = do
    accounts ←
        withdraw_tokens (one_yocto call) c.state call.byte_cost c.accounts call.predecessor token
          amount unregister_token
    ok (record c { accounts = accounts })
  run_op (Op.transfers call token_id receiver amount) c =
      mft_transfer account_id_of (one_yocto call) call.byte_cost c call.predecessor token_id
        receiver amount
  run_op (Op.registers call tokens) c = do
    accounts ←
        register_tokens (one_yocto call) c.state call.byte_cost c.accounts call.predecessor tokens
    ok (record c { accounts = accounts })
  run_op (Op.unregisters call tokens) c = do
    accounts ←
        unregister_tokens (one_yocto call) c.state call.byte_cost c.accounts call.predecessor tokens
    ok (record c { accounts = accounts })
  run_op (Op.registers_shares call token_id account) c = do
    (c', refund) ← mft_register account_id_of call c token_id account
    ok c'
  run_op (Op.pays_storage call named registration_only) c = do
    (c', balance, refund) ← storage_deposit call c named registration_only
    ok c'
  run_op (Op.takes_storage call amount) c = do
    (c', balance, paid) ← storage_withdraw (one_yocto call) call c amount
    ok c'
  run_op (Op.leaves call) c = do
    (c', removed, paid) ← storage_unregister (one_yocto call) c call.predecessor
    ok c'

  -- Its effect on the ledger.
  unfoldable pub replay_op : Op → Book → Book
  replay_op (Op.deposits call sender amount) b =
      credit amount (TokenOrPool.token call.predecessor) sender b
  replay_op (Op.withdraws call token amount unregister_token) b =
      debit amount (TokenOrPool.token token) call.predecessor b
  replay_op (Op.transfers call token_id receiver amount) b =
      replay_transfer (parse_token_id account_id_of token_id) call.predecessor receiver amount b
  replay_op (Op.registers call tokens) b = b
  replay_op (Op.unregisters call tokens) b = b
  replay_op (Op.registers_shares call token_id account) b = b
  replay_op (Op.pays_storage call named registration_only) b = b
  replay_op (Op.takes_storage call amount) b = b
  replay_op (Op.leaves call) b = b

  unfoldable pub run : List Op → SnailSwap → Result SnailSwap
  run [] c = ok c
  run (op ∷ ops) c = do c' ← run_op op c; run ops c'

  unfoldable pub replay : List Op → Book → Book
  replay [] b = b
  replay (op ∷ ops) b = replay ops (replay_op op b)
