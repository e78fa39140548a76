-- ===== src/Lib.antt =====
-- A verification library for the Snails contracts: a stable-coin exchange (snails_exchange/src)
-- and a farming contract that pays rewards for staked tokens (snails_farming/src).
--
-- The program. A pool of two or three coins keeps its balances, its fees and the shares of its
-- liquidity providers (`SimplePool`). For every deposit, withdrawal and swap it builds the curve
-- of the moment from its parameters and the block's time (`SnailStableSwap`), asks it for a report
-- of new balances, amounts, fees and shares, and writes the report into its own state. The
-- accounts of the exchange keep the users' deposits of tokens and the NEAR that pays for their
-- storage (`Account`). A farm distributes its reward over sessions to the stakers of a seed
-- (`SimpleFarm`), and a farmer's record keeps seeds, claimed rewards and the reward per seed of the
-- last claim (`Farmer`).
--
-- Common: tests, lists, tables, and the outcome of a call. `Result` has a value (`ok`), the `None`
-- that `?` passes on (`absent`), and a panic with its reason, which aborts the transaction, so that
-- no state is kept. `guard` is assert!, `expect` is expect and unwrap. An operation that can leave a
-- width is given the first number out of range (`checked_add u128 a b`); the wide integers of the
-- uint crate, U192 to U576, are numbers with the same checked operations. Plain arithmetic panics on
-- overflow, as the release profile in Cargo.toml asks.
-- Exchange.Fees: fees.rs and the check of utils.rs.
-- Exchange.Curve: snails.rs. Ramp has the parameters and `compute_amp_factor`, Invariant has
-- `get_d`, Swap has `get_y` and `exchange`, Deposit has `add_liquidity`, Withdraw, Imbalance and
-- OneCoin have the three withdrawals. A loop over the coins is a function on the lists; what it
-- writes for one coin is a record (`CoinDeposit`, `CoinWithdrawal`, `CoinImbalance`). Ledger has
-- the relations between the vectors of a report and the balances.
-- Exchange.Pool: simple_pool.rs. State has the pool, its constructor and its setters, Liquidity the
-- methods that change its liquidity, Trade `swap` and the reads, History the pools that any sequence
-- of methods leads to. The block's time in nanoseconds is an argument.
-- Exchange.Account: account.rs, with the cost of a byte of storage as an argument and the table of
-- accounts as the state of the contract's methods. The outcome of the SDK's `assert_one_yocto` is a
-- parameter. Storage has what the methods over the accounts leave paid, Deposits the balances of one. The tokens of
-- an account are a map of the SDK, which lies in the storage under a prefix of the account's id; the
-- account's value has only its length. A swap and the methods over the liquidity have a value of the
-- sender's account while they credit the owner's. Where both are the same account, `write_through`
-- and `reread` of Exchange.Contract say what one value finds of the other's changes: the balances as
-- they are now, and a panic of the SDK on a token that has been added since it was read.
-- Exchange.Pool.Holdings: how much of a token the balances of a pool hold, through all its methods.
-- Exchange.Contract: lib.rs and, since its one variant passes every call on, pool.rs. The contract's
-- state, its swap, the addition of pools and the owner's settings; Liquidity has the deposits into a
-- pool and the three withdrawals. TokenIds and Tokens are multi_fungible_token.rs, with ids as bytes;
-- Transfers is token_receiver.rs and the callback of a withdrawal; Storage is storage_impl.rs. What
-- the environment tells a call (its caller, the NEAR attached, the block's time, the cost of a byte,
-- the storage in use) is a record, `Call`; the readings of messages and of a promise's bytes, which
-- crates do, are parameters. A refund of NEAR is a second result. Swaps has what a swap does to the
-- deposits, Claims what the contract owes of each token and its histories, Coverage which accounts
-- pay for their storage, Ledger the abstract ledger of all tokens and shares.
-- Farming.Farm: simple_farm.rs. Rounds has what a distribution moves, Conservation the books of a
-- farm, Claims the claim of a farmer, Preview the view of it, Unstaked a farm that
-- nobody stakes for, History the farms that any sequence of methods leads to.
-- Farming.Farmer: farmer.rs, farm_seed.rs, and a farmer's claim from one farm, in
-- actions_of_reward.rs.
-- Farming.Names: the names of seeds and farms, which utils.rs and token_receiver.rs compose and take
-- apart, as bytes.
-- Farming.Contract: lib.rs and, since its one variant passes every call on, farm.rs. Claims and
-- Rewards are actions_of_reward.rs, Seeds is actions_of_seed.rs, Farms is actions_of_farm.rs and
-- owner.rs, Storage is storage_impl.rs, Receiver is token_receiver.rs. A record, `Names`, says which
-- bytes the number of a seed or a farm stands for. The map of a farmer's rewards per seed lies in the
-- storage under a prefix of the account, and stays there when he leaves: the state has a field for
-- it, `left_rps`. Conservation has what all farmers have staked, through all methods, Rejoining the
-- farmer who leaves and registers again.
-- Exchange.Examples, Farming.Examples: the methods run on concrete values.
--
-- Bounds. The source's loops towards D and y make at most 256 rounds, so they are recursion on that
-- number with the same end: no fuel is added, and the value after the last round is the result.
--
-- Not modelled: logs, serialization, the prefixes of storage keys, the versions of stored data
-- (each enum has one), and the promises to other contracts; what a promise sends or answers is a
-- value. Account names and farm names are numbers, since they are only compared. The maps of the SDK
-- are association tables in which an insertion replaces. The views, sim and test-token have no
-- model.
pub mod Common
pub mod Exchange
pub mod Farming
