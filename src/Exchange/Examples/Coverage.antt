-- ===== src/Exchange/Examples/Coverage.antt =====
-- A swap by an account that pays for its storage, at 1 for a byte.
use snails_contracts.Common.{refl, [], ◌∷◌, arith, none}
use snails_contracts.Common.Table.{lookup, insert}
use snails_contracts.Exchange.Account.Storage.{storage_cost, IsCovered, AllCovered}
use snails_contracts.Exchange.Contract.Claims.History.{World, Step}
use snails_contracts.Exchange.Contract.Coverage.{covered_written, except_written}
use snails_contracts.Exchange.Contract.Coverage.Steps.{AtCost, Step-accounts}
use snails_contracts.Exchange.Examples.{now}
use snails_contracts.Exchange.Examples.Contracts.{owner, of_two, swapped, contract_runs}

abbrev world : World
world = record { account_id_of = λ _. none; number_of = λ _. none; message_of = λ _. none }

owner-IsCovered : IsCovered 1 owner
unfolding storage_cost
owner-IsCovered = record { covered = omega arith }

none-AllCovered : AllCovered 1 9 []
unfolding lookup
none-AllCovered = record { each = λ k a ne known. absurd (cc) }

two-AllCovered : AllCovered 1 9 of_two.accounts
unfolding insert
two-AllCovered =
    covered_written 1 9 ((9, owner) ∷ []) 5 owner owner-IsCovered
      (except_written 1 9 [] owner none-AllCovered)

Step-accounts_example : AllCovered 1 9 swapped.accounts
unfolding AtCost
Step-accounts_example =
    Step-accounts 1 {w = world} (Step.swaps now 1 of_two 5 0 7 100 8 1 contract_runs.1) refl
      two-AllCovered
