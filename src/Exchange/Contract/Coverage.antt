-- ===== src/Exchange/Contract/Coverage.antt =====
-- Which accounts pay for their storage after the methods of the exchange contract.
pub mod Callbacks
pub mod Methods
pub mod Steps
use mathlib.Core.Path.{subst}
use snails_contracts.Common.{
  ℕ, ◌+◌, ◌≡◌, ◌≢◌, refl, sym, ap, ◌∙◌, List, [], ◌∷◌, Option, none, some, inl, inr, Bool-cases, ok,
  arith, ◌==◌, >>=-elim, ok-injective, expect_some, Fault, Result,
}
use snails_contracts.Common.Table.{Table, lookup, insert, lookup-insert, lookup-insert_ne}
use snails_contracts.Exchange.Pool.State.{SimplePool}
use snails_contracts.Exchange.Pool.Trade
use snails_contracts.Exchange.Account.{
  Account, assert_contract_running, deposit, withdraw, internal_unwrap_account,
  internal_save_account,
}
use snails_contracts.Exchange.Account.Storage.{
  IsCovered, AllCovered, save-AllCovered, some-injective,
}
use snails_contracts.Exchange.Contract.{
  SnailSwap, Call, get_pool, replace_pool, swap_core, swap, reread,
}
use snails_contracts.Exchange.Contract.Liquidity.{settle}
use snails_contracts.Exchange.Contract.Liquidity.Deposits.{settle_lem}

-- A covered account is written.
pub covered_written :
    (byte_cost except : ℕ) (t : Table Account) (account : ℕ) (a : Account)
    → IsCovered byte_cost a
    → AllCovered byte_cost except t
    → AllCovered byte_cost except (insert account a t)
covered_written byte_cost except t account a own all = record {
  each = λ k b ne known. elim (Bool-cases (k == account)) [
    | inl same ↦ rw (← some-injective (rw (lookup-insert account k a t, same) at known)) own
    | inr other ↦ all.each k b ne (rw (lookup-insert account k a t, other) at known)
  ];
}

-- The excepted account is written.
pub except_written :
    (byte_cost except : ℕ) (t : Table Account) (a : Account)
    → AllCovered byte_cost except t
    → AllCovered byte_cost except (insert except a t)
except_written byte_cost except t a all = record {
  each = λ k b ne known. all.each k b ne (sym (lookup-insert_ne except k a t ne) ∙ known);
}

-- The end of the methods over the liquidity: the account that is written first is written again.
pub settle-AllCovered :
    (call : Call) (c : SnailSwap) (pool_id : ℕ) (p : SimplePool) (fees : List ℕ) (a : Account)
    {r : SnailSwap × ℕ}
    → settle call c pool_id p fees a ≡ ok r
    → AllCovered call.byte_cost c.owner_id c.accounts
    → AllCovered call.byte_cost c.owner_id (r.0).accounts
settle-AllCovered call c pool_id p fees a h all =
    let (s, o, a', kept, credited, reread_k, own, e) = settle_lem call c pool_id p fees a h in
    let t = insert call.predecessor s c.accounts in
    let u = insert c.owner_id o t in
    subst (λ (x : SnailSwap). AllCovered call.byte_cost c.owner_id x.accounts) (sym e)
      (record {
        each = λ k b ne known. elim (Bool-cases (k == call.predecessor)) [
          | inl same ↦
              rw (← some-injective (rw (lookup-insert call.predecessor k a' u, same) at known)) own
          | inr other ↦
              let ne' : k ≢ call.predecessor = ground (arith, other) in
              all.each k b ne (
                sym (
                  lookup-insert_ne call.predecessor k a' u ne'
                  ∙ lookup-insert_ne c.owner_id k o t ne
                  ∙ lookup-insert_ne call.predecessor k s c.accounts ne')
                ∙ known)
        ];
      })

pub swap_core-AllCovered :
    (now byte_cost : ℕ) (c : SnailSwap) (pool_id token_in amount_in token_out least : ℕ)
    {r : SnailSwap × ℕ}
    → swap_core now byte_cost c pool_id token_in amount_in token_out least ≡ ok r
    → AllCovered byte_cost c.owner_id c.accounts
    → AllCovered byte_cost c.owner_id (r.0).accounts
unfolding swap_core replace_pool
swap_core-AllCovered now byte_cost c pool_id token_in amount_in token_out least h all =
    >>=-elim (assert_contract_running c.state) _ h λ _ h₁ r₁.
      >>=-elim (get_pool c pool_id) _ r₁ λ p h₂ r₂.
        >>=-elim (Trade.swap now p token_in amount_in token_out least) _ r₂ λ paid h₃ r₃.
          >>=-elim (internal_unwrap_account c.accounts c.owner_id) _ r₃ λ a h₄ r₄.
            >>=-elim (deposit a token_out paid.2) _ r₄ λ a' h₅ r₅.
              >>=-elim (internal_save_account byte_cost c.accounts c.owner_id a') _ r₅ λ t h₆ r₆.
                subst (λ (r : SnailSwap × ℕ). AllCovered byte_cost c.owner_id (r.0).accounts)
                  (ok-injective r₆)
                  ((save-AllCovered byte_cost c.owner_id c.accounts c.owner_id a' h₆).0 all)

pub swap-AllCovered :
    (now byte_cost : ℕ) (c : SnailSwap) (sender pool_id token_in amount_in token_out least : ℕ)
    {r : SnailSwap × ℕ}
    → swap now byte_cost c sender pool_id token_in amount_in token_out least ≡ ok r
    → AllCovered byte_cost c.owner_id c.accounts
    → AllCovered byte_cost c.owner_id (r.0).accounts
unfolding swap
swap-AllCovered now byte_cost c sender pool_id token_in amount_in token_out least h all =
    >>=-elim (internal_unwrap_account c.accounts sender) _ h λ a h₁ r₁.
      >>=-elim (swap_core now byte_cost c pool_id token_in amount_in token_out least) _ r₁
        λ core h₂ r₂. >>=-elim (reread a (core.0).accounts sender) _ r₂ λ a₀ h₃ r₃.
          >>=-elim (withdraw a₀ token_in amount_in) _ r₃ λ a₁ h₄ r₄.
            >>=-elim (deposit a₁ token_out core.1) _ r₄ λ a₂ h₅ r₅.
              >>=-elim (internal_save_account byte_cost (core.0).accounts sender a₂) _ r₅ λ t h₆ r₆.
                subst (λ (r : SnailSwap × ℕ). AllCovered byte_cost c.owner_id (r.0).accounts)
                  (ok-injective r₆)
                  ((save-AllCovered byte_cost c.owner_id (core.0).accounts sender a₂ h₆).0 (
                    swap_core-AllCovered now byte_cost c pool_id token_in amount_in token_out least
                      h₂ all))
