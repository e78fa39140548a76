-- ===== src/Exchange/Contract/Claims/Solvency.antt =====
-- What the contract owes after every history.
use snails_contracts.Exchange.Contract.Claims.History.{World, Step, History}
use snails_contracts.Common.{
  ℕ, ◌+◌, ◌≤◌, ◌≡◌, ok, arith, not, Result, >>=-elim, ok-injective, guard, Fault,
}
use snails_contracts.Exchange.Account.{RunningState}
use snails_contracts.Exchange.Contract
use snails_contracts.Exchange.Contract.{
  SnailSwap, Call, add_simple_pool, swap, change_fees_setting, set_amp_params, change_state,
  assert_owner,
}
use snails_contracts.Exchange.Contract.Claims.{
  claims, deposits_of, pooled, PoolsSized, Books, only, nothing,
}
use snails_contracts.Exchange.Contract.Claims.Pools.{
  add_liquidity-Books, remove_liquidity-Books, remove_liquidity_imbalance-Books,
  remove_liquidity_one_coin-Books,
}
use snails_contracts.Exchange.Contract.Claims.Swaps.{
  swap-Books, change_fees_setting-Books, set_amp_params-Books, add_simple_pool-Books,
}
use snails_contracts.Exchange.Contract.Claims.Accounts.{
  register_tokens-deposits_of, unregister_tokens-deposits_of, withdraw_tokens-deposits_of,
}
use snails_contracts.Exchange.Contract.Claims.Callbacks.{
  accounts-Books, exchange_callback_post_withdraw-Books,
}
use snails_contracts.Exchange.Contract.Claims.Tokens.{
  mft_register-Books, mft_transfer-Books, mft_transfer_call-Books, mft_resolve_transfer-Books,
}
use snails_contracts.Exchange.Contract.Claims.Storage.{
  ft_on_transfer-Books, storage_deposit-Books, storage_withdraw-Books, storage_unregister-Books,
}

change_state-Books :
    (one_yocto : Result (Unit {0})) (c : SnailSwap) (predecessor : ℕ) (state : RunningState)
    {c' : SnailSwap}
    → change_state one_yocto c predecessor state ≡ ok c'
    → PoolsSized c.pools
    → Books c c' nothing nothing nothing
unfolding change_state claims
change_state-Books one_yocto c predecessor state h all = >>=-elim one_yocto _ h λ _ h₁ r₁.
    >>=-elim (assert_owner c predecessor) _ r₁
      λ _ h₂ r₂. rw (← ok-injective r₂) (record { sized = all; backed = λ k. omega arith })

Step-Books :
    (w : World) {c c' : SnailSwap} {received sent fees : ℕ → ℕ}
    → Step w c c' received sent fees
    → PoolsSized c.pools
    → Books c c' received sent fees
Step-Books w (Step.adds_pool call c tokens decimals initial target start stop fees h) all =
    add_simple_pool-Books call c tokens decimals initial target start stop fees h all
Step-Books w (Step.sets_fees c predecessor pool_id fees h) all =
    change_fees_setting-Books c predecessor pool_id fees h all
Step-Books w (Step.sets_amp now c predecessor pool_id initial target stop h) all =
    set_amp_params-Books now c predecessor pool_id initial target stop h all
Step-Books w (Step.sets_state one_yocto c predecessor state h) all =
    change_state-Books one_yocto c predecessor state h all
Step-Books w (Step.adds call c pool_id amounts least h) all =
    add_liquidity-Books call c pool_id amounts least h all
Step-Books w (Step.removes one_yocto call c pool_id shares min_amounts h) all =
    remove_liquidity-Books one_yocto call c pool_id shares min_amounts h all
Step-Books w (Step.takes one_yocto call c pool_id amounts most h) all =
    remove_liquidity_imbalance-Books one_yocto call c pool_id amounts most h all
Step-Books w (Step.takes_one one_yocto call c pool_id token_out shares min_amount h) all =
    remove_liquidity_one_coin-Books one_yocto call c pool_id token_out shares min_amount h all
Step-Books w (Step.swaps now byte_cost c sender pool_id token_in amount_in token_out least h) all =
    swap-Books now byte_cost c sender pool_id token_in amount_in token_out least h all
Step-Books w (Step.receives now byte_cost c token sender amount msg h) all =
    ft_on_transfer-Books w.message_of now byte_cost c token sender amount msg h all
Step-Books w (Step.withdraws one_yocto byte_cost c sender token amount unregister_token {t} h) all =
    accounts-Books c t nothing (only token amount) all λ k.
      let e =
        withdraw_tokens-deposits_of one_yocto c.state byte_cost c.accounts sender k token amount
          unregister_token h in
      omega (arith, e)
Step-Books w (Step.resolves byte_cost results result c token sender amount h) all =
    exchange_callback_post_withdraw-Books byte_cost results result c token sender amount h all
Step-Books w (Step.registers one_yocto byte_cost c sender tokens {t} h) all =
    accounts-Books c t nothing nothing all λ k.
      let e =
        register_tokens-deposits_of one_yocto c.state byte_cost c.accounts sender k tokens h in
      omega (arith, e)
Step-Books w (Step.unregisters one_yocto byte_cost c sender tokens {t} h) all =
    accounts-Books c t nothing nothing all λ k.
      let e =
        unregister_tokens-deposits_of one_yocto c.state byte_cost c.accounts sender k tokens h in
      omega (arith, e)
Step-Books w (Step.registers_shares call c token_id account h) all =
    mft_register-Books w.account_id_of call c token_id account h all
Step-Books w (Step.transfers one_yocto byte_cost c token_id sender receiver amount h) all =
    mft_transfer-Books w.account_id_of byte_cost c token_id one_yocto sender receiver amount h all
Step-Books w (Step.transfers_and_calls one_yocto gas byte_cost c token_id sender receiver amount h)
      all =
    mft_transfer_call-Books w.account_id_of byte_cost c token_id one_yocto gas sender receiver
      amount h all
Step-Books w (Step.resolves_transfer byte_cost c token_id sender receiver amount result h) all =
    mft_resolve_transfer-Books w.account_id_of byte_cost c token_id w.number_of sender receiver
      amount result h all
Step-Books w (Step.pays_storage call c named registration_only h) all =
    storage_deposit-Books call c named registration_only h all
Step-Books w (Step.takes_storage one_yocto call c amount h) all =
    storage_withdraw-Books one_yocto call c amount h all
Step-Books w (Step.leaves one_yocto c predecessor h) all =
    storage_unregister-Books one_yocto c predecessor h all

-- The books since the contract was created.
record Solvent (c : SnailSwap) (received sent fees : ℕ → ℕ) : Type 0 where
  sized : PoolsSized c.pools
  backed : (k : ℕ) → claims c k + sent k ≤ received k + fees k

History-Solvent :
    (w : World) {c : SnailSwap} {received sent fees : ℕ → ℕ}
    → History w c received sent fees
    → Solvent c received sent fees
unfolding Contract.new claims deposits_of pooled
History-Solvent w (History.creates state_exists owner_id h) =
    >>=-elim (guard (not state_exists) Fault.already_initialized) _ h λ _ h₁ r₁.
      rw (← ok-injective r₁)
        (record { sized = record { each = λ i p known. absurd (cc) }; backed = λ k. omega arith })
History-Solvent w (History.follows before step) =
    let so_far = History-Solvent w before in
    let books = Step-Books w step so_far.sized in
    record { sized = books.sized; backed = λ k. omega (arith, so_far.backed k, books.backed k) }

-- After every history of the contract, of each token: what all accounts have deposited and all pools
-- hold, with what the contract has sent, is at most what it has received and the owner's fees of the
-- swaps together.
pub History-claims :
    (w : World) {c : SnailSwap} {received sent fees : ℕ → ℕ}
    → History w c received sent fees
    → (k : ℕ) → claims c k + sent k ≤ received k + fees k
History-claims w history k = (History-Solvent w history).backed k
