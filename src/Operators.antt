-- ===== src/Operators.antt =====
-- The program `solana-axelar-operators` (programs/solana-axelar-operators/src).
pub mod Count
pub mod Access
pub mod Registry
mod Tests
use axelar_amplifier_solana.Std.Runtime.{Runtime, Slice}
use axelar_amplifier_solana.Std.Hashing.{codes}
use axelar_amplifier_solana.Prelude.{
  Bool, List, Map, Result, [], arithmetic_overflow, custom, erase, invalid_account_data, is_none,
  none, not, ok, ok_or, program, require, update, ℕ, ◌&&◌, ◌==◌, ◌>>=◌, ◌>>◌, ◌∷◌, ◌≡◌,
}
use axelar_amplifier_solana.Std.Anchor.{
  check_pda, check_signer, init_pda, load_account, u64_checked_add, u64_checked_sub,
}

-- errors.rs
pub data OperatorsError : Type 0 where
  unauthorized_owner : OperatorsError
  same_owner : OperatorsError

abbrev pub OResult : Type 0 → Type 0
OResult = Result OperatorsError

pub record OperatorRegistry : Type 0 where
  pub owner : ℕ
  pub operator_count : ℕ
  pub bump : ℕ

pub record OperatorAccount : Type 0 where
  pub bump : ℕ

-- `OwnershipTransferred`
pub record OwnershipTransferred : Type 0 where
  pub old_owner : ℕ
  pub new_owner : ℕ

-- The accounts that the program owns, and the events so far, the last one first.
pub record Store : Type 0 where
  pub registries : Map OperatorRegistry
  pub operators : Map OperatorAccount
  pub events : List OwnershipTransferred

abbrev pub registry_seeds : List Slice
registry_seeds = Slice.bytes (codes "operator_registry") ∷ []

abbrev pub operator_seeds : ℕ → List Slice
operator_seeds operator = Slice.bytes (codes "operator") ∷ Slice.array operator ∷ []

abbrev pub is_free : Store → ℕ → Bool
is_free st address = is_none (st.registries address) && is_none (st.operators address)

pub record InitializeAccounts : Type 0 where
  pub payer_is_signer : Bool
  pub owner : ℕ
  pub owner_is_signer : Bool
  pub registry : ℕ

-- The accounts of `AddOperator` and `RemoveOperator`.
pub record OperatorAccounts : Type 0 where
  pub owner : ℕ
  pub owner_is_signer : Bool
  pub operator : ℕ
  pub registry : ℕ
  pub operator_account : ℕ

pub record TransferOwnerAccounts : Type 0 where
  pub owner : ℕ
  pub owner_is_signer : Bool
  pub new_owner : ℕ
  pub registry : ℕ

-- `id` is the program's own address.
module _ (rt : Runtime) (id : ℕ) where
  unfoldable pub initialize : Store → InitializeAccounts → OResult Store
  initialize st accounts = do
    check_signer accounts.payer_is_signer
    check_signer accounts.owner_is_signer
    bump ← init_pda rt id (is_free st accounts.registry) registry_seeds accounts.registry
    let registry : OperatorRegistry = record {
      owner = accounts.owner;
      operator_count = 0;
      bump = bump;
    }
    ok (record st { registries = update st.registries accounts.registry registry })

  unfoldable pub add_operator : Store → OperatorAccounts → OResult Store
  add_operator st accounts = do
    check_signer accounts.owner_is_signer
    registry ← load_account st.registries accounts.registry
    bump ←
        init_pda rt id (is_free st accounts.operator_account) (operator_seeds accounts.operator)
          accounts.operator_account
    require (accounts.owner == registry.owner) (custom unauthorized_owner)
    check_pda rt id registry_seeds registry.bump accounts.registry
    count ← ok_or (u64_checked_add registry.operator_count 1) (program arithmetic_overflow)
    let operator : OperatorAccount = record { bump = bump }
    ok (record st {
      registries =
          update st.registries accounts.registry (record registry { operator_count = count });
      operators = update st.operators accounts.operator_account operator;
    })

  unfoldable pub remove_operator : Store → OperatorAccounts → OResult Store
  remove_operator st accounts = do
    check_signer accounts.owner_is_signer
    registry ← load_account st.registries accounts.registry
    operator ← load_account st.operators accounts.operator_account
    require (accounts.owner == registry.owner) (custom unauthorized_owner)
    check_pda rt id registry_seeds registry.bump accounts.registry
    check_pda rt id (operator_seeds accounts.operator) operator.bump accounts.operator_account
    count ← ok_or (u64_checked_sub registry.operator_count 1) (program invalid_account_data)
    ok (record st {
      registries =
          update st.registries accounts.registry (record registry { operator_count = count });
      operators = erase st.operators accounts.operator_account;
    })

  unfoldable pub transfer_owner : Store → TransferOwnerAccounts → OResult Store
  transfer_owner st accounts = do
    check_signer accounts.owner_is_signer
    registry ← load_account st.registries accounts.registry
    require (accounts.owner == registry.owner) (custom unauthorized_owner)
    require (not (accounts.new_owner == registry.owner)) (custom same_owner)
    check_pda rt id registry_seeds registry.bump accounts.registry
    let event : OwnershipTransferred = record {
      old_owner = accounts.owner;
      new_owner = accounts.new_owner;
    }
    ok (record st {
      registries =
          update st.registries accounts.registry (record registry { owner = accounts.new_owner });
      events = event ∷ st.events;
    })

  pub data Step (st : Store) : Store → Type 0 where
    initialized : {st' : Store} (a : InitializeAccounts) → initialize st a ≡ ok st' → Step st st'
    added : {st' : Store} (a : OperatorAccounts) → add_operator st a ≡ ok st' → Step st st'
    removed : {st' : Store} (a : OperatorAccounts) → remove_operator st a ≡ ok st' → Step st st'
    transferred :
        {st' : Store} (a : TransferOwnerAccounts) → transfer_owner st a ≡ ok st' → Step st st'

  -- The stores that the program can reach from having no accounts.
  pub data Reached : Store → Type 0 where
    empty : Reached (record { registries = λ a. none; operators = λ a. none; events = [] })
    next : {st st' : Store} → Reached st → Step st st' → Reached st'
