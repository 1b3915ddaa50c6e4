-- ===== src/Operators/Tests.antt =====
-- A run of the operators program, and the theorems applied to it.
use axelar_amplifier_solana.Operators.{
  Step, InitializeAccounts, OResult, OperatorAccounts, Reached, Store, add_operator, added, empty,
  initialize, initialized, operator_seeds, remove_operator, next,
}
use axelar_amplifier_solana.Std.Instances.{plain_runtime}
use axelar_amplifier_solana.Operators.Access.{ChangesByOwner, operators-ByOwner, root}
use axelar_amplifier_solana.Operators.Registry.{
  IsCounted, Reached-IsCounted, remove_operator-counted,
}
use axelar_amplifier_solana.Prelude.{
  [], err, invalid_account_data, none, ok, program, refl, true, ℕ, ◌≡◌, ◌≢◌, ◌⊎◌,
}

abbrev owner_accounts : ℕ → OperatorAccounts
owner_accounts operator = record {
  owner = 7;
  owner_is_signer = true;
  operator = operator;
  registry = root plain_runtime 1;
  operator_account = (plain_runtime.find_program_address (operator_seeds operator) 1).0;
}

abbrev result : OResult Store → Store
result (ok st) = st
result (err e) = record { registries = λ a. none; operators = λ a. none; events = [] }

abbrev store_0 : Store
store_0 = record { registries = λ a. none; operators = λ a. none; events = [] }

abbrev owner : InitializeAccounts
owner = record {
  payer_is_signer = true;
  owner = 7;
  owner_is_signer = true;
  registry = root plain_runtime 1;
}

abbrev store_1 : Store
store_1 = result (initialize plain_runtime 1 store_0 owner)

abbrev store_2 : Store
store_2 = result (add_operator plain_runtime 1 store_1 (owner_accounts 5))

ran_2 : Reached plain_runtime 1 store_2
unfolding initialize add_operator
ran_2 = next (next empty (initialized owner refl)) (added (owner_accounts 5) refl)

Reached-IsCounted_example : IsCounted plain_runtime 1 store_2.registries store_2.operators
Reached-IsCounted_example = Reached-IsCounted plain_runtime 1 store_2 ran_2

remove_operator-counted_example :
    remove_operator plain_runtime 1 store_2 (owner_accounts 5) ≢ err (program invalid_account_data)
remove_operator-counted_example =
    remove_operator-counted plain_runtime 1 store_2 (owner_accounts 5) ran_2

added_2 : Step plain_runtime 1 store_1 store_2
unfolding initialize add_operator
added_2 = added (owner_accounts 5) refl

operators-ByOwner_example :
    (store_2.operators (owner_accounts 5).operator_account
      ≡ store_1.operators (owner_accounts 5).operator_account)
    ⊎ ChangesByOwner plain_runtime 1 added_2 (owner_accounts 5).operator_account
operators-ByOwner_example =
    operators-ByOwner plain_runtime 1 store_1 store_2 (owner_accounts 5).operator_account added_2
