-- ===== src/Gateway/Program/Lifecycle.antt =====
-- The life of an incoming message: approved once, executed at most once, never changed otherwise.
use axelar_amplifier_solana.Gateway.Messages
use axelar_amplifier_solana.Std.Types.{MerklizedMessage, Message}
use axelar_amplifier_solana.Gateway.Env.{Env}
use axelar_amplifier_solana.Gateway.Program.{Run, step, Instruction, execute, here}
use axelar_amplifier_solana.Gateway.State.{
  message_seeds, Chain, IncomingMessage, Store, approved, executed, is_free,
}
use axelar_amplifier_solana.Gateway.Messages.{
  incoming_message, ApproveMessageAccounts, ValidateMessageAccounts,
}
use axelar_amplifier_solana.Gateway.Rotation.Effect.{rotate_signers_sound}
use axelar_amplifier_solana.Gateway.Config.Effect.{
  call_contract_sound, initialize_config_sound, transfer_operatorship_sound,
}
use axelar_amplifier_solana.Gateway.Verification.Effect.{initiate_sound, verify_signature_sound}
use axelar_amplifier_solana.Gateway.Messages.Effect.{
  approved_account, Approval, Validation, approve_message_sound, validate_message_sound,
}
use axelar_amplifier_solana.Prelude.{
  update_self, ◌≢◌, ==_iff, Bool-cases, Map, Option, ap, arith, inl, inr, none, ok, refl, some, sym,
  true, ℕ, ◌==◌, ◌∙◌, ◌≡◌, ◌⊎◌,
}
use axelar_amplifier_solana.Std.Hashing.{command_id}

-- What one instruction can do to the message at an address.
pub data MessageStep (before after : Option IncomingMessage) : Type 0 where
  kept : after ≡ before → MessageStep before after
  approves :
      (m : IncomingMessage)
      → before ≡ none
      → after ≡ some m
      → m.status ≡ approved
      → MessageStep before after
  executes :
      (m : IncomingMessage)
      → before ≡ some m
      → m.status ≡ approved
      → after ≡ some (record m { status = executed })
      → MessageStep before after

free_message : (st : Store) (a : ℕ) → is_free st a ≡ true → st.messages a ≡ none
free_message st a h = ground arith

same_map : {V : Type 0} (m m' : Map V) (a : ℕ) → m' ≡ m → m' a ≡ m a
same_map m m' a e = ap (λ (f : Map _). f a) e

module _ (env : Env) where
  approve-MessageStep :
      (st st' : Store) (accounts : ApproveMessageAccounts) (m : MerklizedMessage) (root a : ℕ)
      → Approval env st accounts m root st'
      → MessageStep (st.messages a) (st'.messages a)
  approve-MessageStep st st' accounts m root a h =
      let free = free_message st accounts.incoming_message_pda h.was_free in
      elim (Bool-cases (a == accounts.incoming_message_pda)) [
        | inl same_key ↦
            approves (approved_account env m.leaf.message) (rw ((==_iff a _).0 same_key) free)
              (rw (h.stored, same_key) refl) refl
        | inr other ↦ kept (rw (h.stored, other) refl)
      ]

  validate-MessageStep :
      (st st' : Store) (accounts : ValidateMessageAccounts) (m : Message) (a : ℕ)
      → Validation env st accounts m st'
      → MessageStep (st.messages a) (st'.messages a)
  validate-MessageStep st st' accounts m a h =
      elim (Bool-cases (a == accounts.incoming_message_pda)) [
        | inl same_key ↦
            executes h.incoming (rw ((==_iff a _).0 same_key) h.incoming_at) h.was_approved
              (rw (h.stored, same_key) refl)
        | inr other ↦ kept (rw (h.stored, other) refl)
      ]

  -- Whatever instruction is executed, each message stays as it is, or comes into being as approved,
  -- or goes from approved to executed with its hashes unchanged.
  pub execute-MessageStep :
      (chain : Chain) (instruction : Instruction) (st st' : Store) (a : ℕ)
      → execute env chain st instruction ≡ ok st'
      → MessageStep (st.messages a) (st'.messages a)
  unfolding execute
  execute-MessageStep chain (Instruction.initialize_config accounts params) st st' a h = kept (
      same_map st.messages st'.messages a
        (initialize_config_sound env chain st accounts params st' h).messages_same)
  execute-MessageStep chain
        (Instruction.initialize_payload_verification_session accounts root payload_type) st st' a
        h =
      kept (
        same_map st.messages st'.messages a
          (initiate_sound env st accounts root payload_type st' h).messages_same)
  execute-MessageStep chain (Instruction.verify_signature accounts root info) st st' a h = kept (
      same_map st.messages st'.messages a
        (verify_signature_sound env st accounts root info st' h).messages_same)
  execute-MessageStep chain (Instruction.approve_message accounts m root) st st' a h =
      approve-MessageStep st st' accounts m root a
        (approve_message_sound env st accounts m root st' h)
  execute-MessageStep chain (Instruction.validate_message accounts m) st st' a h =
      validate-MessageStep st st' accounts m a (validate_message_sound env st accounts m st' h)
  execute-MessageStep chain (Instruction.rotate_signers accounts root) st st' a h = kept (
      same_map st.messages st'.messages a
        (rotate_signers_sound env chain st accounts root st' h).messages_same)
  execute-MessageStep chain (Instruction.transfer_operatorship accounts) st st' a h = kept (
      same_map st.messages st'.messages a
        (transfer_operatorship_sound env chain st accounts st' h).messages_same)
  execute-MessageStep chain
        (Instruction.call_contract accounts destination_chain address payload bump) st st' a h =
      kept (
        ap (λ (s : Store). s.messages a)
          (call_contract_sound env st accounts destination_chain address payload bump st'
            h).unchanged)

  -- The record of a message with its status left open.
  pub record IsSameMessage (m m' : IncomingMessage) : Type 0 where
    pub hash_same : m'.message_hash ≡ m.message_hash
    pub payload_same : m'.payload_hash ≡ m.payload_hash
    pub status_rises : (m'.status ≡ m.status) ⊎ ((m.status ≡ approved) × (m'.status ≡ executed))

  step-IsSameMessage :
      {before after : Option IncomingMessage} (m : IncomingMessage)
      → MessageStep before after
      → before ≡ some m
      → (m' : IncomingMessage) × (after ≡ some m') × IsSameMessage m m'
  step-IsSameMessage m (kept e) h =
      (m, e ∙ h, record { hash_same = refl; payload_same = refl; status_rises = inl refl })
  step-IsSameMessage m (approves k e e' s) h = absurd (none_ne_some m (sym e ∙ h))
    where
      none_ne_some : (i : IncomingMessage) → ¬ (none ≡ some i)
      none_ne_some i p = cc
  step-IsSameMessage m (executes k e s e') h = (record k { status = executed }, e', ground arith)

  trans-IsSameMessage :
      (a b c : IncomingMessage) → IsSameMessage a b → IsSameMessage b c → IsSameMessage a c
  trans-IsSameMessage a b c p q = record {
    hash_same = q.hash_same ∙ p.hash_same;
    payload_same = q.payload_same ∙ p.payload_same;
    status_rises = ground (arith, p.status_rises, q.status_rises);
  }

  -- Through any run a message stays at its address with its hashes, and an executed one stays
  -- executed.
  pub Run-IsSameMessage :
      {st st' : Store} (a : ℕ) (m : IncomingMessage)
      → Run env st st'
      → st.messages a ≡ some m
      → (m' : IncomingMessage) × (st'.messages a ≡ some m') × IsSameMessage m m'
  Run-IsSameMessage a m here h =
      (m, h, record { hash_same = refl; payload_same = refl; status_rises = inl refl })
  Run-IsSameMessage a m (step {st'} {st''} r chain instruction typed e) h =
      let (m', h', same) = Run-IsSameMessage a m r h in
      let (m'', h'', same') =
        step-IsSameMessage m' (execute-MessageStep chain instruction st' st'' a e) h' in
      (m'', h'', trans-IsSameMessage m m' m'' same same')

  executed_not_approved :
      (m m' : IncomingMessage) → IsSameMessage m m' → m.status ≡ executed → m'.status ≢ approved
  executed_not_approved m m' same e = ground (arith, same.status_rises)

  some_status :
      (i j : IncomingMessage) → some i ≡ some j → i.status ≡ approved → j.status ≡ approved
  some_status i j e s = ground arith

  some_ne_none : (i : IncomingMessage) → ¬ (some i ≡ none)
  some_ne_none i p = cc

  -- A message is executed at most once: after `validate_message` has succeeded at an account, no
  -- later call at that account succeeds, whatever has been executed in between.
  pub validate_message_once :
      (st st' st'' : Store) (accounts accounts' : ValidateMessageAccounts) (m m' : Message)
      (final : Store)
      → Messages.validate_message env st accounts m ≡ ok st'
      → Run env st' st''
      → accounts'.incoming_message_pda ≡ accounts.incoming_message_pda
      → Messages.validate_message env st'' accounts' m' ≢ ok final
  validate_message_once st st' st'' accounts accounts' m m' final h r same_account again =
      let v = validate_message_sound env st accounts m st' h in
      let w = validate_message_sound env st'' accounts' m' final again in
      let a = accounts.incoming_message_pda in
      let done = record (v.incoming) { status = executed } in
      let stored : st'.messages a ≡ some done = rw v.stored (update_self st.messages a done) in
      let (later, at_later, same) = Run-IsSameMessage a done r stored in
      let found : some w.incoming ≡ some later = sym w.incoming_at ∙ rw same_account at_later in
      executed_not_approved done later same refl (some_status w.incoming later found w.was_approved)

  -- A command is approved at most once: after `approve_message` has succeeded for a command id, no
  -- later call for that id succeeds, whatever has been executed in between.
  pub approve_message_once :
      (st st' st'' : Store) (accounts accounts' : ApproveMessageAccounts) (m m' : MerklizedMessage)
      (root root' : ℕ) (final : Store)
      → Messages.approve_message env st accounts m root ≡ ok st'
      → Run env st' st''
      → command_id env.rt m'.leaf.message ≡ command_id env.rt m.leaf.message
      → Messages.approve_message env st'' accounts' m' root' ≢ ok final
  approve_message_once st st' st'' accounts accounts' m m' root root' final h r same_command again =
      let v = approve_message_sound env st accounts m root st' h in
      let w = approve_message_sound env st'' accounts' m' root' final again in
      let a = accounts.incoming_message_pda in
      let same_account : accounts'.incoming_message_pda ≡ a =
        sym w.found
        ∙ ap (λ (c : ℕ). (env.rt.find_program_address (message_seeds c) env.id).0) same_command
        ∙ v.found in
      let written = approved_account env m.leaf.message in
      let stored : st'.messages a ≡ some written =
        rw v.stored (update_self st.messages a written) in
      let (later, at_later, same) = Run-IsSameMessage a written r stored in
      let free = free_message st'' accounts'.incoming_message_pda w.was_free in
      some_ne_none later (sym at_later ∙ rw same_account at free)
