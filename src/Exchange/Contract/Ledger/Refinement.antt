-- ===== src/Exchange/Contract/Ledger/Refinement.antt =====
-- The contract refines the abstract ledger: every sequence of calls of its clients changes what it
-- keeps as the ledger says.
use snails_contracts.Common.{
  ℕ, ◌≡◌, ◌≢◌, sym, ap, ◌∙◌, List, [], ◌∷◌, Option, none, not, ok, arith, ◌==◌, Result, >>=-elim,
  ok-injective, guard, guard-eq-ok, Fault,
}
use snails_contracts.Exchange.Account.{
  assert_contract_running, internal_deposit, register_tokens, unregister_tokens, withdraw_tokens,
}
use snails_contracts.Exchange.Contract.{SnailSwap, Call}
use snails_contracts.Exchange.Contract.TokenIds.{parse_token_id}
use snails_contracts.Exchange.Contract.Tokens.{internal_mft_transfer, mft_transfer, mft_register}
use snails_contracts.Exchange.Contract.Transfers.{Sent, receive, ft_on_transfer}
use snails_contracts.Exchange.Contract.Storage.{
  storage_deposit, storage_withdraw, storage_unregister,
}
use snails_contracts.Exchange.Contract.Ledger.{
  Op, view, replay_transfer, run_op, replay_op, run, replay,
}
use snails_contracts.Exchange.Contract.Ledger.Moves.{deposit-view, withdraw-view, transfer-view}
use snails_contracts.Exchange.Contract.Ledger.Unchanged.{
  storage_deposit-view, storage_withdraw-view, storage_unregister-view, register_tokens-view,
  unregister_tokens-view, mft_register-view,
}

module _ (account_id_of : List ℕ → Option ℕ) (one_yocto : Call → Result (Unit {0})) where
  -- One call changes the ledger as it says.
  run_op_refines :
      (op : Op) (c : SnailSwap) {c' : SnailSwap}
      → run_op account_id_of one_yocto op c ≡ ok c'
      → view c' ≡ replay_op account_id_of one_yocto op (view c)
  unfolding run_op replay_op ft_on_transfer receive mft_transfer internal_mft_transfer
      replay_transfer
  run_op_refines (Op.deposits call sender amount) c h =
      >>=-elim
        (ft_on_transfer (λ _. none) call.now call.byte_cost c call.predecessor sender amount []) _ h
        λ d h₀ r₀. >>=-elim (assert_contract_running c.state) _ h₀ λ _ h₁ r₁.
          >>=-elim (internal_deposit call.byte_cost c.accounts sender call.predecessor amount) _ r₁
            λ t h₂ r₂.
              ap view (
                sym (ok-injective r₀)
                ∙ ap (λ (e : SnailSwap × Option Sent). e.0) (sym (ok-injective r₂)))
              ∙ deposit-view call.byte_cost c sender call.predecessor amount h₂
  run_op_refines (Op.withdraws call token amount unregister_token) c h =
      >>=-elim
        (withdraw_tokens (one_yocto call) c.state call.byte_cost c.accounts call.predecessor token
          amount unregister_token)
        _ h
        λ t h₁ r₁. rw (← ok-injective r₁) (
          withdraw-view (one_yocto call) call.byte_cost c call.predecessor token amount
            unregister_token h₁)
  run_op_refines (Op.transfers call token_id receiver amount) c h =
      let sender = call.predecessor in
      >>=-elim (one_yocto call) _ h λ _ h₁ r₁.
        >>=-elim (assert_contract_running c.state) _ r₁ λ _ h₂ r₂.
          >>=-elim (guard (not (sender == receiver)) Fault.transfer_to_self) _ r₂ λ _ h₃ r₃.
            >>=-elim (assert_contract_running c.state) _ r₃ λ _ h₄ r₄.
              >>=-elim (parse_token_id account_id_of token_id) _ r₄ λ id h₅ r₅.
                let ne : receiver ≢ sender =
                  λ q. ground (arith, q, guard-eq-ok (not (sender == receiver)) _ h₃) in
                rw h₅ (transfer-view call.byte_cost c id sender receiver amount r₅ ne)
  run_op_refines (Op.registers call tokens) c h =
      >>=-elim
        (register_tokens (one_yocto call) c.state call.byte_cost c.accounts call.predecessor tokens)
        _ h
        λ t h₁ r₁.
          rw (← ok-injective r₁)
            (register_tokens-view (one_yocto call) call.byte_cost c call.predecessor tokens h₁)
  run_op_refines (Op.unregisters call tokens) c h =
      >>=-elim
        (unregister_tokens (one_yocto call) c.state call.byte_cost c.accounts call.predecessor
          tokens)
        _ h
        λ t h₁ r₁.
          rw (← ok-injective r₁)
            (unregister_tokens-view (one_yocto call) call.byte_cost c call.predecessor tokens h₁)
  run_op_refines (Op.registers_shares call token_id account) c h =
      >>=-elim (mft_register account_id_of call c token_id account) _ h λ d h₁ r₁.
        rw (← ok-injective r₁) (mft_register-view account_id_of call c token_id account h₁)
  run_op_refines (Op.pays_storage call named registration_only) c h =
      >>=-elim (storage_deposit call c named registration_only) _ h
        λ d h₁ r₁. rw (← ok-injective r₁) (storage_deposit-view call c named registration_only h₁)
  run_op_refines (Op.takes_storage call amount) c h =
      >>=-elim (storage_withdraw (one_yocto call) call c amount) _ h
        λ d h₁ r₁. rw (← ok-injective r₁) (storage_withdraw-view (one_yocto call) call c amount h₁)
  run_op_refines (Op.leaves call) c h =
      >>=-elim (storage_unregister (one_yocto call) c call.predecessor) _ h λ d h₁ r₁.
        rw (← ok-injective r₁) (storage_unregister-view (one_yocto call) c call.predecessor h₁)

  -- Any sequence of calls of clients that deposit and withdraw tokens, transfer tokens and shares to
  -- each other, register and pay for storage: if all of them succeed, every account has as much of
  -- every token and of the shares of every pool as the abstract ledger says that has replayed the
  -- deposits, withdrawals and transfers.
  pub run_refines :
      (ops : List Op) (c : SnailSwap) {c' : SnailSwap}
      → run account_id_of one_yocto ops c ≡ ok c'
      → view c' ≡ replay account_id_of one_yocto ops (view c)
  unfolding run replay
  run_refines [] c h = ap view (sym (ok-injective h))
  run_refines (op ∷ ops) c h = >>=-elim (run_op account_id_of one_yocto op c) _ h λ c₁ h₁ r₁.
      run_refines ops c₁ r₁ ∙ ap (replay account_id_of one_yocto ops) (run_op_refines op c h₁)
