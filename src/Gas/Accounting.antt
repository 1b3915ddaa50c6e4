-- ===== src/Gas/Accounting.antt =====
-- The balance of the treasury against the events that the gas service logs
-- (programs/solana-axelar-gas-service/src).
use axelar_amplifier_solana.Gas.{
  GasEvent, OperatorArguments, SenderAccounts, Store, Treasury, add_gas, collect_native_fees,
  gas_added, gas_collected, gas_paid, gas_refunded, pay_gas, refund_native_fees,
}
use axelar_amplifier_solana.Operators.{OperatorAccount}
use axelar_amplifier_solana.Std.Runtime.{Runtime}
use axelar_amplifier_solana.Prelude.{List, Map, [], arith, ok, refl, some, ℕ, ◌+◌, ◌∷◌, ◌≡◌, ◌≢◌}
use axelar_amplifier_solana.Gas.Effect.{
  Payment, Withdrawal, add_gas_sound, collect_native_fees_sound, pay_gas_sound,
  refund_native_fees_sound,
}
use axelar_amplifier_solana.Std.Lamports.{System, SystemLaws}

unfoldable pub paid : List GasEvent → ℕ
paid [] = 0
paid (gas_paid _ _ _ _ amount _ ∷ events) = amount + paid events
paid (gas_added _ _ amount _ ∷ events) = amount + paid events
paid (gas_refunded _ _ _ ∷ events) = paid events
paid (gas_collected _ _ ∷ events) = paid events

unfoldable pub withdrawn : List GasEvent → ℕ
withdrawn [] = 0
withdrawn (gas_paid _ _ _ _ _ _ ∷ events) = withdrawn events
withdrawn (gas_added _ _ _ _ ∷ events) = withdrawn events
withdrawn (gas_refunded _ _ amount ∷ events) = amount + withdrawn events
withdrawn (gas_collected _ amount ∷ events) = amount + withdrawn events

module _ (rt : Runtime) (system : System) (id operators_id : ℕ) where
  -- The instructions after the initialization, whatever operators there are at each of them. The
  -- treasury is the program's own and signs nothing, and is not the receiver of its own lamports.
  pub data Step (st : Store) : Store → Type 0 where
    paying :
        {st' : Store} (operators : Map OperatorAccount) (a : SenderAccounts)
        (destination_chain destination_address : List ℕ) (payload_hash amount refund_address : ℕ)
        → a.sender ≢ a.treasury
        → pay_gas rt system id operators_id operators st a destination_chain destination_address
            payload_hash amount refund_address
          ≡ ok st'
        → Step st st'
    adding :
        {st' : Store} (operators : Map OperatorAccount) (a : SenderAccounts) (message_id : List ℕ)
        (amount refund_address : ℕ)
        → a.sender ≢ a.treasury
        → add_gas rt system id operators_id operators st a message_id amount refund_address ≡ ok st'
        → Step st st'
    collecting :
        {st' : Store} (operators : Map OperatorAccount) (a : OperatorArguments) (amount : ℕ)
        → a.receiver ≢ a.treasury
        → collect_native_fees rt system id operators_id operators st a amount ≡ ok st'
        → Step st st'
    refunding :
        {st' : Store} (operators : Map OperatorAccount) (a : OperatorArguments)
        (message_id : List ℕ) (amount : ℕ)
        → a.receiver ≢ a.treasury
        → refund_native_fees rt system id operators_id operators st a message_id amount ≡ ok st'
        → Step st st'

  pub data Run (st : Store) : Store → Type 0 where
    here : Run st st
    next : {st' st'' : Store} → Run st st' → Step st' st'' → Run st st''

  -- The program has one treasury.
  abbrev pub HasTreasury : Store → ℕ → Type 0
  HasTreasury st address = (k : ℕ) (t : Treasury) → st.treasuries k ≡ some t → k ≡ address

  -- What went in and what went out.
  abbrev Balanced : ℕ → Store → Store → Type 0
  Balanced address st st' =
      st'.lamports address + withdrawn st'.events + paid st.events
      ≡ st.lamports address + withdrawn st.events + paid st'.events

  module _ (laws : SystemLaws system) where
    Payment-Balanced :
        (operators : Map OperatorAccount) (st st' : Store) (a : SenderAccounts) (amount : ℕ)
        (event : GasEvent)
        → a.sender ≢ a.treasury
        → Payment rt system id operators_id operators st a amount st' event
        → (paid (event ∷ st.events) ≡ amount + paid st.events)
        → (withdrawn (event ∷ st.events) ≡ withdrawn st.events)
        → Balanced a.treasury st st'
    Payment-Balanced operators st st' a amount event apart f p w =
        let (sent, received, rest) =
          laws.transfer_moves st.lamports st'.lamports a.sender a.treasury amount apart
            f.transferred in
        rw (f.logged, p, w, received) (omega arith)

    Withdrawal-Balanced :
        (operators : Map OperatorAccount) (st st' : Store) (a : OperatorArguments) (amount : ℕ)
        (event : GasEvent)
        → Withdrawal rt system id operators_id operators st a amount st' event
        → (paid (event ∷ st.events) ≡ paid st.events)
        → (withdrawn (event ∷ st.events) ≡ amount + withdrawn st.events)
        → Balanced a.treasury st st'
    Withdrawal-Balanced operators st st' a amount event f p w =
        let moved = f.taken in rw (f.logged, p, w, ← f.taken) (omega arith)

    Step-Balanced :
        (address : ℕ) (st st' : Store)
        → HasTreasury st address
        → Step st st'
        → Balanced address st st' × (st'.treasuries ≡ st.treasuries)
    unfolding paid withdrawn
    Step-Balanced address st st' only (paying operators a chain to hash amount refund apart e) =
        let f =
          pay_gas_sound rt system id operators_id operators st st' a chain to hash amount refund
            e in
        let at : a.treasury ≡ address = only a.treasury f.treasury f.treasury_there in
        (
          rw (← at) (Payment-Balanced operators st st' a amount _ apart f refl refl),
          f.treasuries_same,
        )
    Step-Balanced address st st' only (adding operators a message_id amount refund apart e) =
        let f =
          add_gas_sound rt system id operators_id operators st st' a message_id amount refund e in
        let at : a.treasury ≡ address = only a.treasury f.treasury f.treasury_there in
        (
          rw (← at) (Payment-Balanced operators st st' a amount _ apart f refl refl),
          f.treasuries_same,
        )
    Step-Balanced address st st' only (collecting operators a amount apart e) =
        let f =
          collect_native_fees_sound rt system id operators_id operators st st' a amount apart e in
        let at : a.treasury ≡ address = only a.treasury f.treasury f.treasury_there in
        (rw (← at) (Withdrawal-Balanced operators st st' a amount _ f refl refl), f.treasuries_same)
    Step-Balanced address st st' only (refunding operators a message_id amount apart e) =
        let f =
          refund_native_fees_sound rt system id operators_id operators st st' a message_id amount
            apart e in
        let at : a.treasury ≡ address = only a.treasury f.treasury f.treasury_there in
        (rw (← at) (Withdrawal-Balanced operators st st' a amount _ f refl refl), f.treasuries_same)

    Run-treasuries :
        (address : ℕ) {st st' : Store}
        → HasTreasury st address
        → Run st st'
        → HasTreasury st' address
    Run-treasuries address only here = only
    Run-treasuries address only (next {st'} {st''} run s) =
        let before = Run-treasuries address only run in
        let same = (Step-Balanced address st' st'' before s).1 in λ k t e. before k t (rw same at e)

    -- Over any run of the gas service, what the treasury holds changes by exactly what the new events
    -- say was paid and added, less what they say was collected and refunded.
    pub Run-lamports :
        (address : ℕ) {st st' : Store}
        → HasTreasury st address
        → Run st st'
        → st'.lamports address + withdrawn st'.events + paid st.events
          ≡ st.lamports address + withdrawn st.events + paid st'.events
    Run-lamports address only here = refl
    Run-lamports address only (next {st'} {st''} run s) =
        let before = Run-lamports address only run in
        let now = (Step-Balanced address st' st'' (Run-treasuries address only run) s).0 in
        omega arith
