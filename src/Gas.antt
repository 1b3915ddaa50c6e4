-- ===== src/Gas.antt =====
-- The program `solana-axelar-gas-service` (programs/solana-axelar-gas-service/src), which reads the
-- operator accounts of the operators program.
pub mod Effect
pub mod Accounting
mod Tests
use axelar_amplifier_solana.Operators.{OperatorAccount, operator_seeds}
use axelar_amplifier_solana.Std.Runtime.{Runtime, Slice}
use axelar_amplifier_solana.Std.Hashing.{codes}
use axelar_amplifier_solana.Std.Anchor.{
  check_pda, check_signer, init_pda, load_account, u64_checked_add, u64_checked_sub,
}
use axelar_amplifier_solana.Prelude.{
  panicked, Bool, List, Map, Option, Result, [], account_already_in_use, anchor,
  arithmetic_overflow, if◌then◌else◌, insufficient_funds, invalid_account_data,
  invalid_instruction_data, is_none, ltb, not, ok, ok_or, program, require, some, update, ℕ, ◌+◌,
  ◌==◌, ◌>>=◌, ◌>>◌, ◌∷◌, ◌≡◌, ◌≢◌,
}
use axelar_amplifier_solana.Std.Lamports.{Balances, System, transfer_lamports}

pub data GasError : Type 0 where

abbrev pub GasResult : Type 0 → Type 0
GasResult = Result GasError

pub record Treasury : Type 0 where
  pub bump : ℕ

-- events.rs; the field `spl_token_account` is `None` in every event that the program emits.
pub data GasEvent : Type 0 where
  gas_paid :
      (sender : ℕ) (destination_chain destination_address : List ℕ)
      (payload_hash amount refund_address : ℕ)
      → GasEvent
  gas_added : (sender : ℕ) (message_id : List ℕ) (amount refund_address : ℕ) → GasEvent
  gas_refunded : (receiver : ℕ) (message_id : List ℕ) (amount : ℕ) → GasEvent
  gas_collected : (receiver amount : ℕ) → GasEvent

-- The balances, the accounts that the program owns, and the events so far, the last one first.
pub record Store : Type 0 where
  pub lamports : Balances
  pub treasuries : Map Treasury
  pub events : List GasEvent

abbrev pub treasury_seeds : List Slice
treasury_seeds = Slice.bytes (codes "gas-service") ∷ []

-- `Treasury::INIT_SPACE` and the discriminator.
abbrev pub treasury_space : ℕ
treasury_space = 1 + 8

pub record OperatorArguments : Type 0 where
  pub operator : ℕ
  pub operator_is_signer : Bool
  pub operator_pda : ℕ
  pub treasury : ℕ
  pub receiver : ℕ

pub record InitializeAccounts : Type 0 where
  pub payer : ℕ
  pub payer_is_signer : Bool
  pub operator : ℕ
  pub operator_is_signer : Bool
  pub operator_pda : ℕ
  pub treasury : ℕ

pub record SenderAccounts : Type 0 where
  pub sender : ℕ
  pub sender_is_signer : Bool
  pub treasury : ℕ

-- `id` and `operators_id` are the addresses of this program and of the operators program, whose
-- operator accounts are `operators`.
module _ (rt : Runtime) (system : System) (id operators_id : ℕ)
    (operators : Map OperatorAccount) where
  unfoldable pub initialize : Store → InitializeAccounts → GasResult Store
  initialize st accounts = do
    check_signer accounts.payer_is_signer
    check_signer accounts.operator_is_signer
    operator ← load_account operators accounts.operator_pda
    bump ←
        init_pda rt id (is_none (st.treasuries accounts.treasury)) treasury_seeds accounts.treasury
    lamports ←
        ok_or (system.create_account st.lamports accounts.payer accounts.treasury treasury_space)
          panicked
    check_pda rt operators_id (operator_seeds accounts.operator) operator.bump accounts.operator_pda
    let treasury : Treasury = record { bump = bump }
    ok (record st {
      lamports = lamports;
      treasuries = update st.treasuries accounts.treasury treasury;
    })

  -- The accounts of `PayGas` and `AddGas`, and their transfer.
  abbrev from_sender : Store → SenderAccounts → ℕ → GasResult Balances
  from_sender st accounts amount = do
    check_signer accounts.sender_is_signer
    treasury ← load_account st.treasuries accounts.treasury
    check_pda rt id treasury_seeds treasury.bump accounts.treasury
    require (not (amount == 0)) (program invalid_instruction_data)
    ok_or (system.transfer st.lamports accounts.sender accounts.treasury amount) panicked

  unfoldable pub pay_gas : Store → SenderAccounts → List ℕ → List ℕ → ℕ → ℕ → ℕ → GasResult Store
  pay_gas st accounts destination_chain destination_address payload_hash amount refund_address = do
    lamports ← from_sender st accounts amount
    ok (record st {
      lamports = lamports;
      events =
          gas_paid accounts.sender destination_chain destination_address payload_hash amount
            refund_address
          ∷ st.events;
    })

  unfoldable pub add_gas : Store → SenderAccounts → List ℕ → ℕ → ℕ → GasResult Store
  add_gas st accounts message_id amount refund_address = do
    lamports ← from_sender st accounts amount
    ok (record st {
      lamports = lamports;
      events = gas_added accounts.sender message_id amount refund_address ∷ st.events;
    })

  -- The accounts of `CollectFees` and `RefundFees`, their transfer, and the rent of the treasury.
  abbrev to_receiver : Store → OperatorArguments → ℕ → GasResult Balances
  to_receiver st accounts amount = do
    check_signer accounts.operator_is_signer
    operator ← load_account operators accounts.operator_pda
    treasury ← load_account st.treasuries accounts.treasury
    check_pda rt operators_id (operator_seeds accounts.operator) operator.bump accounts.operator_pda
    check_pda rt id treasury_seeds treasury.bump accounts.treasury
    require (not (amount == 0)) (program invalid_instruction_data)
    lamports ← transfer_lamports st.lamports accounts.treasury accounts.receiver amount
    require (system.is_exempt (lamports accounts.treasury) treasury_space)
        (program invalid_account_data)
    ok lamports

  unfoldable pub collect_native_fees : Store → OperatorArguments → ℕ → GasResult Store
  collect_native_fees st accounts amount = do
    lamports ← to_receiver st accounts amount
    ok (record st {
      lamports = lamports;
      events = gas_collected accounts.receiver amount ∷ st.events;
    })

  unfoldable pub refund_native_fees : Store → OperatorArguments → List ℕ → ℕ → GasResult Store
  refund_native_fees st accounts message_id amount = do
    lamports ← to_receiver st accounts amount
    ok (record st {
      lamports = lamports;
      events = gas_refunded accounts.receiver message_id amount ∷ st.events;
    })
