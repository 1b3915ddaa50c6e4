-- ===== src/Gas/Effect.antt =====
-- What a withdrawal from the treasury and a payment into it do
-- (programs/solana-axelar-gas-service/src/instructions).
use axelar_amplifier_solana.Gas.{
  Treasury, GasEvent, OperatorArguments, SenderAccounts, Store, add_gas, collect_native_fees,
  gas_added, gas_collected, gas_paid, gas_refunded, pay_gas, refund_native_fees, treasury_space,
}
use axelar_amplifier_solana.Operators.{OperatorAccount, operator_seeds}
use axelar_amplifier_solana.Std.Runtime.{Runtime, Slice}
use axelar_amplifier_solana.Prelude.{
  List, Map, [], arith, ok, some, true, ℕ, ◌++◌, ◌+◌, ◌∷◌, ◌≡◌, ◌≢◌,
}
use axelar_amplifier_solana.Std.Lamports.{System}

module _ (rt : Runtime) (system : System) (id operators_id : ℕ)
    (operators : Map OperatorAccount) where
  -- A withdrawal: a registered operator signed, the receiver is given what the treasury loses, no
  -- other balance changes, and the treasury stays rent exempt.
  pub record Withdrawal (st : Store) (a : OperatorArguments) (amount : ℕ) (st' : Store)
      (event : GasEvent) : Type 0 where
    pub operator : OperatorAccount
    pub treasury : Treasury
    pub treasury_there : st.treasuries a.treasury ≡ some treasury
    pub operator_there : operators a.operator_pda ≡ some operator
    pub operator_pda_valid :
        rt.create_program_address
          (operator_seeds a.operator ++ Slice.byte operator.bump ∷ [])
          operators_id
        ≡ some a.operator_pda
    pub operator_signs : a.operator_is_signer ≡ true
    pub amount_pos : amount ≢ 0
    pub taken : st'.lamports a.treasury + amount ≡ st.lamports a.treasury
    pub given : st'.lamports a.receiver ≡ st.lamports a.receiver + amount
    pub others_same : (k : ℕ) → k ≢ a.treasury → k ≢ a.receiver → st'.lamports k ≡ st.lamports k
    pub exempt : system.is_exempt (st'.lamports a.treasury) treasury_space ≡ true
    pub treasuries_same : st'.treasuries ≡ st.treasuries
    pub logged : st'.events ≡ event ∷ st.events

  -- A collection by the operator that succeeds is a withdrawal.
  pub collect_native_fees_sound :
      (st st' : Store) (a : OperatorArguments) (amount : ℕ)
      → a.receiver ≢ a.treasury
      → collect_native_fees rt system id operators_id operators st a amount ≡ ok st'
      → Withdrawal st a amount st' (gas_collected a.receiver amount)
  unfolding collect_native_fees
  collect_native_fees_sound st st' a amount apart h = ground arith

  -- A refund by the operator that succeeds is a withdrawal.
  pub refund_native_fees_sound :
      (st st' : Store) (a : OperatorArguments) (message_id : List ℕ) (amount : ℕ)
      → a.receiver ≢ a.treasury
      → refund_native_fees rt system id operators_id operators st a message_id amount ≡ ok st'
      → Withdrawal st a amount st' (gas_refunded a.receiver message_id amount)
  unfolding refund_native_fees
  refund_native_fees_sound st st' a message_id amount apart h = ground arith

  pub record Payment (st : Store) (a : SenderAccounts) (amount : ℕ) (st' : Store) (event : GasEvent)
      : Type 0 where
    pub treasury : Treasury
    pub treasury_there : st.treasuries a.treasury ≡ some treasury
    pub sender_signs : a.sender_is_signer ≡ true
    pub amount_pos : amount ≢ 0
    pub transferred : system.transfer st.lamports a.sender a.treasury amount ≡ some (st'.lamports)
    pub treasuries_same : st'.treasuries ≡ st.treasuries
    pub logged : st'.events ≡ event ∷ st.events

  pub pay_gas_sound :
      (st st' : Store) (a : SenderAccounts) (destination_chain destination_address : List ℕ)
      (payload_hash amount refund_address : ℕ)
      → pay_gas rt system id operators_id operators st a destination_chain destination_address
          payload_hash amount refund_address
        ≡ ok st'
      → Payment st a amount st' (
          gas_paid a.sender destination_chain destination_address payload_hash amount
            refund_address)
  unfolding pay_gas
  pay_gas_sound st st' a destination_chain destination_address payload_hash amount refund_address
        h =
      ground arith

  pub add_gas_sound :
      (st st' : Store) (a : SenderAccounts) (message_id : List ℕ) (amount refund_address : ℕ)
      → add_gas rt system id operators_id operators st a message_id amount refund_address ≡ ok st'
      → Payment st a amount st' (gas_added a.sender message_id amount refund_address)
  unfolding add_gas
  add_gas_sound st st' a message_id amount refund_address h = ground arith
