-- ===== src/Exchange/Contract/Claims.antt =====
-- What the contract owes of a token: the deposits of all accounts and the balances of all pools.
pub mod Pools
pub mod Swaps
pub mod Accounts
pub mod Callbacks
pub mod Tokens
pub mod Storage
pub mod History
pub mod Solvency
use snails_contracts.Common.{
  ℕ, zero, suc, ◌+◌, ◌≤◌, ◌≡◌, ◌≢◌, refl, sym, ap, ◌∙◌, List, [], ◌∷◌, ◌++◌, Option, none, some,
  inl, inr, Bool-cases, if◌then◌else◌, ◌==◌, ok, arith, get_elem?, set, expect_some-ok,
}
use snails_contracts.Common.Table.{Table, lookup, insert, lookup-insert_ne}
use snails_contracts.Exchange.Pool.State.{SimplePool}
use snails_contracts.Exchange.Pool.Holdings.{amount_of}
use snails_contracts.Exchange.Pool.Holdings.Coins.{IsSized}
use snails_contracts.Exchange.Account.{Account, or_zero, balance_in, internal_get_deposit}
use snails_contracts.Exchange.Contract.{SnailSwap, Call, get_pool}
use snails_contracts.Exchange.Contract.Swaps.{balance, get_deposit-insert}
use snails_contracts.Exchange.Contract.Liquidity.{settle}
use snails_contracts.Exchange.Contract.Liquidity.Deposits.{settle_lem}

unfoldable pub deposits_of : Table Account → ℕ → ℕ
deposits_of [] k = 0
deposits_of ((_, a) ∷ t) k = balance a k + deposits_of t k

unfoldable pub pooled : List SimplePool → ℕ → ℕ
pooled [] k = 0
pooled (p ∷ pools) k = amount_of p.token_account_ids p.amounts k + pooled pools k

unfoldable pub claims : SnailSwap → ℕ → ℕ
claims c k = deposits_of c.accounts k + pooled c.pools k

pub deposits_of-insert :
    (account k : ℕ) (a : Account) (t : Table Account)
    → deposits_of (insert account a t) k + internal_get_deposit t account k
      ≡ deposits_of t k + balance a k
unfolding deposits_of insert internal_get_deposit lookup
deposits_of-insert account k a [] = omega arith
deposits_of-insert account k a ((j, b) ∷ t) = elim (Bool-cases (account == j)) [
  | inl same ↦ rw same (omega arith)
  | inr other ↦ rw other (omega (arith, deposits_of-insert account k a t))
]

pub pooled-set :
    (pools : List SimplePool) (i k : ℕ) (p p' : SimplePool)
    → get_elem? pools i ≡ some p
    → pooled (set pools i p') k + amount_of p.token_account_ids p.amounts k
      ≡ pooled pools k + amount_of p'.token_account_ids p'.amounts k
unfolding pooled
pooled-set [] i k p p' h = cc
pooled-set (q ∷ pools) zero k p p' h = let e : q ≡ p = cc in rw e (omega arith)
pooled-set (q ∷ pools) (suc i) k p p' h = omega (arith, pooled-set pools i k p p' h)

pub pooled-append :
    (pools : List SimplePool) (p : SimplePool) (k : ℕ)
    → pooled (pools ++ (p ∷ [])) k ≡ pooled pools k + amount_of p.token_account_ids p.amounts k
unfolding pooled
pooled-append [] p k = omega arith
pooled-append (q ∷ pools) p k = omega (arith, pooled-append pools p k)

-- Every pool has a balance and decimals for each of its tokens.
pub record PoolsSized (pools : List SimplePool) : Type 0 where
  pub each : (i : ℕ) (p : SimplePool) → get_elem? pools i ≡ some p → IsSized p

pub set-PoolsSized :
    (pools : List SimplePool) (i : ℕ) (p : SimplePool)
    → PoolsSized pools
    → IsSized p
    → PoolsSized (set pools i p)
set-PoolsSized pools i p all sized = record { each = λ j q known. at pools i j all q known }
  where
    at :
        (pools : List SimplePool) (i j : ℕ)
        → PoolsSized pools
        → (q : SimplePool) → get_elem? (set pools i p) j ≡ some q
        → IsSized q
    at [] i j all q known = cc
    at (x ∷ pools) zero zero all q known = let e : p ≡ q = cc in rw (← e) sized
    at (x ∷ pools) zero (suc j) all q known = all.each (suc j) q known
    at (x ∷ pools) (suc i) zero all q known = all.each zero q known
    at (x ∷ pools) (suc i) (suc j) all q known =
        at pools i j (record { each = λ n. all.each (suc n) }) q known

-- What a method does to the claims: tokens that it has received may be claimed, and what it has sent
-- is not any more; `excess` is what is claimed beyond that.
pub record Books (c c' : SnailSwap) (received sent excess : ℕ → ℕ) : Type 0 where
  pub sized : PoolsSized c'.pools
  pub backed : (k : ℕ) → claims c' k + sent k ≤ claims c k + received k + excess k

-- An amount of one token, and no tokens.
abbrev pub only : ℕ → ℕ → ℕ → ℕ
only token amount k = if k == token then amount else 0

abbrev pub nothing : ℕ → ℕ
nothing k = 0

-- The end of a method that changes the liquidity, for what its accounts and its pool have done: what
-- the sender's account and the pool have gained together is at most nothing but the fees.
pub settle-claims :
    (call : Call) (c : SnailSwap) (pool_id : ℕ) (p p' : SimplePool) (fees : List ℕ) (a : Account)
    (k : ℕ) {r : SnailSwap × ℕ}
    → settle call c pool_id p' fees a ≡ ok r
    → get_elem? c.pools pool_id ≡ some p
    → balance a k
        + amount_of p'.token_account_ids p'.amounts k
        + amount_of p'.token_account_ids fees k
      ≤ internal_get_deposit c.accounts call.predecessor k
        + amount_of p.token_account_ids p.amounts k
    → claims r.0 k ≤ claims c k
unfolding claims
settle-claims call c pool_id p p' fees a k h known le =
    let (s, o, a', kept, credited, reread_k, own, e) = settle_lem call c pool_id p' fees a h in
    let t = insert call.predecessor s c.accounts in
    let u = insert c.owner_id o t in
    rw e (
      omega (
        arith,
        kept k,
        credited k,
        reread_k k,
        deposits_of-insert call.predecessor k s c.accounts,
        deposits_of-insert c.owner_id k o t,
        deposits_of-insert call.predecessor k a' u,
        pooled-set c.pools pool_id k p p' known,
        le,
      ))
