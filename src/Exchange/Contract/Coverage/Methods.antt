-- ===== src/Exchange/Contract/Coverage/Methods.antt =====
-- The methods over the pools and their liquidity, and the accounts that pay for their storage.
use mathlib.Core.Path.{subst}
use snails_contracts.Common.{
  ℕ, ◌≡◌, ap, List, Option, ok, ltb, >>=-elim, ok-injective, guard, Fault, Result,
}
use snails_contracts.Exchange.Fees.{Fees, assert_fees_info_valid}
use snails_contracts.Exchange.Pool.State
use snails_contracts.Exchange.Pool.State.{share_register}
use snails_contracts.Exchange.Pool.Liquidity
use snails_contracts.Exchange.Account.{
  RunningState, assert_contract_running, internal_unwrap_or_default_account,
}
use snails_contracts.Exchange.Account.Storage.{AllCovered}
use snails_contracts.Exchange.Contract.{
  SnailSwap, Call, get_pool, replace_pool, assert_owner, check_token_duplicates,
  internal_check_storage, internal_add_pool, add_simple_pool, change_fees_setting, set_amp_params,
  change_state, deposit_all,
}
use snails_contracts.Exchange.Pool.State.{SimplePool}
use snails_contracts.Exchange.Contract.Liquidity.{
  withdraw_all, settle, assert_min_mint, assert_max_burn, credit_storage, pay_out, add_liquidity,
  remove_liquidity, remove_liquidity_imbalance, remove_liquidity_one_coin,
}
use snails_contracts.Exchange.Contract.TokenIds.{TokenOrPool, parse_token_id}
use snails_contracts.Exchange.Contract.Tokens.{register_parsed, mft_register}
use snails_contracts.Exchange.Contract.Coverage.{settle-AllCovered}

-- The methods over the pools leave the accounts.
pub add_pool-accounts :
    (call : Call) (c : SnailSwap) (tokens decimals : List ℕ) (initial target start stop : ℕ)
    (fees : Fees) {r : SnailSwap × ℕ × ℕ}
    → add_simple_pool call c tokens decimals initial target start stop fees ≡ ok r
    → c.accounts ≡ (r.0).accounts
unfolding add_simple_pool internal_add_pool
add_pool-accounts call c tokens decimals initial target start stop fees h =
    >>=-elim (assert_owner c call.predecessor) _ h λ _ h₁ r₁.
      >>=-elim (assert_contract_running c.state) _ r₁ λ _ h₂ r₂.
        >>=-elim (check_token_duplicates tokens) _ r₂ λ _ h₃ r₃.
          >>=-elim (assert_fees_info_valid fees) _ r₃ λ _ h₄ r₄.
            >>=-elim (State.new initial target start stop fees tokens decimals) _ r₄ λ p h₅ r₅.
              >>=-elim (internal_check_storage call) _ r₅
                λ refund h₆ r₆. ap (λ (r : SnailSwap × ℕ × ℕ). (r.0).accounts) (ok-injective r₆)

pub set_fees-accounts :
    (c : SnailSwap) (predecessor pool_id : ℕ) (fees : Fees) {c' : SnailSwap}
    → change_fees_setting c predecessor pool_id fees ≡ ok c'
    → c.accounts ≡ c'.accounts
unfolding change_fees_setting replace_pool
set_fees-accounts c predecessor pool_id fees h =
    >>=-elim (assert_owner c predecessor) _ h λ _ h₁ r₁.
      >>=-elim (assert_fees_info_valid fees) _ r₁ λ _ h₂ r₂.
        >>=-elim (get_pool c pool_id) _ r₂
          λ p h₃ r₃. ap (λ (c : SnailSwap). c.accounts) (ok-injective r₃)

pub set_amp-accounts :
    (now : ℕ) (c : SnailSwap) (predecessor pool_id initial target stop : ℕ) {c' : SnailSwap}
    → set_amp_params now c predecessor pool_id initial target stop ≡ ok c'
    → c.accounts ≡ c'.accounts
unfolding set_amp_params replace_pool
set_amp-accounts now c predecessor pool_id initial target stop h =
    >>=-elim (assert_owner c predecessor) _ h λ _ h₁ r₁.
      >>=-elim (get_pool c pool_id) _ r₁
        λ p h₂ r₂. ap (λ (c : SnailSwap). c.accounts) (ok-injective r₂)

pub set_state-accounts :
    (one_yocto : Result (Unit {0})) (c : SnailSwap) (predecessor : ℕ) (state : RunningState)
    {c' : SnailSwap}
    → change_state one_yocto c predecessor state ≡ ok c'
    → c.accounts ≡ c'.accounts
unfolding change_state
set_state-accounts one_yocto c predecessor state h = >>=-elim one_yocto _ h λ _ h₁ r₁.
    >>=-elim (assert_owner c predecessor) _ r₁
      λ _ h₂ r₂. ap (λ (c : SnailSwap). c.accounts) (ok-injective r₂)

register_parsed-accounts :
    (call : Call) (c : SnailSwap) (parsed : TokenOrPool) (account : ℕ) {r : SnailSwap × ℕ}
    → register_parsed call c parsed account ≡ ok r
    → c.accounts ≡ (r.0).accounts
unfolding register_parsed replace_pool
register_parsed-accounts call c (TokenOrPool.token token) account h = absurd (cc)
register_parsed-accounts call c (TokenOrPool.pool pool_id) account h =
    >>=-elim (get_pool c pool_id) _ h λ p h₁ r₁.
      >>=-elim (share_register p account) _ r₁ λ p' h₂ r₂.
        >>=-elim (internal_check_storage call) _ r₂
          λ refund h₃ r₃. ap (λ (r : SnailSwap × ℕ). (r.0).accounts) (ok-injective r₃)

pub register_shares-accounts :
    (account_id_of : List ℕ → Option ℕ) (call : Call) (c : SnailSwap) (token_id : List ℕ)
    (account : ℕ) {r : SnailSwap × ℕ}
    → mft_register account_id_of call c token_id account ≡ ok r
    → c.accounts ≡ (r.0).accounts
unfolding mft_register
register_shares-accounts account_id_of call c token_id account h =
    >>=-elim (assert_contract_running c.state) _ h λ _ h₁ r₁.
      >>=-elim (parse_token_id account_id_of token_id) _ r₁
        λ parsed h₂ r₂. register_parsed-accounts call c parsed account r₂

pub add-AllCovered :
    (call : Call) (c : SnailSwap) (pool_id : ℕ) (amounts : List ℕ) (least : Option ℕ)
    {r : SnailSwap × ℕ × ℕ}
    → add_liquidity call c pool_id amounts least ≡ ok r
    → AllCovered call.byte_cost c.owner_id c.accounts
    → AllCovered call.byte_cost c.owner_id (r.0).accounts
unfolding add_liquidity
add-AllCovered call c pool_id amounts least h all =
    let old = internal_unwrap_or_default_account c.accounts call.predecessor in
    >>=-elim (assert_contract_running c.state) _ h λ _ h₁ r₁.
      >>=-elim (guard (ltb 0 call.attached_deposit) Fault.deposit_required) _ r₁ λ _ h₂ r₂.
        >>=-elim (get_pool c pool_id) _ r₂ λ p h₃ r₃.
          >>=-elim (Liquidity.add_liquidity call.now p call.predecessor amounts) _ r₃ λ s h₄ r₄.
            >>=-elim (assert_min_mint least s.1) _ r₄ λ _ h₅ r₅.
              >>=-elim (withdraw_all old (s.0).token_account_ids amounts) _ r₅ λ a h₆ r₆.
                >>=-elim (settle call c pool_id s.0 s.2 a) _ r₆ λ e h₇ r₇.
                  subst
                    (λ (r : SnailSwap × ℕ × ℕ). AllCovered call.byte_cost c.owner_id (r.0).accounts)
                    (ok-injective r₇) (settle-AllCovered call c pool_id s.0 s.2 a h₇ all)

pay_out-AllCovered :
    (call : Call) (c : SnailSwap) (pool_id : ℕ) (p : SimplePool) (amounts fees : List ℕ)
    {r : SnailSwap × ℕ}
    → pay_out call c pool_id p amounts fees ≡ ok r
    → AllCovered call.byte_cost c.owner_id c.accounts
    → AllCovered call.byte_cost c.owner_id (r.0).accounts
unfolding pay_out
pay_out-AllCovered call c pool_id p amounts fees h all =
    let old = internal_unwrap_or_default_account c.accounts call.predecessor in
    >>=-elim (deposit_all old p.token_account_ids amounts) _ h λ a₁ h₁ r₁.
      >>=-elim (credit_storage call a₁) _ r₁
        λ a h₂ r₂. settle-AllCovered call c pool_id p fees a r₂ all

module _ (one_yocto : Result (Unit {0})) (call : Call) (c : SnailSwap) (pool_id : ℕ) where
  pub remove-AllCovered :
      (shares : ℕ) (min_amounts : List ℕ) {r : SnailSwap × ℕ}
      → remove_liquidity one_yocto call c pool_id shares min_amounts ≡ ok r
      → AllCovered call.byte_cost c.owner_id c.accounts
      → AllCovered call.byte_cost c.owner_id (r.0).accounts
  unfolding remove_liquidity
  remove-AllCovered shares min_amounts h all = >>=-elim one_yocto _ h λ _ h₁ r₁.
      >>=-elim (assert_contract_running c.state) _ r₁ λ _ h₂ r₂.
        >>=-elim (get_pool c pool_id) _ r₂ λ p h₃ r₃.
          >>=-elim (Liquidity.remove_liquidity call.now p call.predecessor shares min_amounts) _ r₃
            λ s h₄ r₄. pay_out-AllCovered call c pool_id s.0 s.1 s.2 r₄ all

  pub take-AllCovered :
      (amounts : List ℕ) (most : Option ℕ) {r : SnailSwap × ℕ}
      → remove_liquidity_imbalance one_yocto call c pool_id amounts most ≡ ok r
      → AllCovered call.byte_cost c.owner_id c.accounts
      → AllCovered call.byte_cost c.owner_id (r.0).accounts
  unfolding remove_liquidity_imbalance
  take-AllCovered amounts most h all = >>=-elim one_yocto _ h λ _ h₁ r₁.
      >>=-elim (assert_contract_running c.state) _ r₁ λ _ h₂ r₂.
        >>=-elim (get_pool c pool_id) _ r₂ λ p h₃ r₃.
          >>=-elim (Liquidity.remove_liquidity_imbalance call.now p call.predecessor amounts) _ r₃
            λ s h₄ r₄.
              >>=-elim (assert_max_burn most s.1) _ r₄
                λ _ h₅ r₅. pay_out-AllCovered call c pool_id s.0 amounts s.2 r₅ all

  pub take_one-AllCovered :
      (token_out shares min_amount : ℕ) {r : SnailSwap × ℕ}
      → remove_liquidity_one_coin one_yocto call c pool_id token_out shares min_amount ≡ ok r
      → AllCovered call.byte_cost c.owner_id c.accounts
      → AllCovered call.byte_cost c.owner_id (r.0).accounts
  unfolding remove_liquidity_one_coin
  take_one-AllCovered token_out shares min_amount h all = >>=-elim one_yocto _ h λ _ h₁ r₁.
      >>=-elim (assert_contract_running c.state) _ r₁ λ _ h₂ r₂.
        >>=-elim (get_pool c pool_id) _ r₂ λ p h₃ r₃.
          >>=-elim
            (Liquidity.remove_liquidity_one_coin call.now p call.predecessor token_out shares
              min_amount)
            _ r₃ λ s h₄ r₄. pay_out-AllCovered call c pool_id s.0 s.1 s.2 r₄ all
