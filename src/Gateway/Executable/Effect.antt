-- ===== src/Gateway/Executable/Effect.antt =====
-- When a program may act on a message (programs/solana-axelar-gateway/src/executable.rs).
use axelar_amplifier_solana.Gateway.Messages
use axelar_amplifier_solana.Gateway.State.{
  is_some_eq, message_executed, IncomingMessage, Store, approved, executed, validate_message_seeds,
}
use axelar_amplifier_solana.Std.Runtime.{Slice}
use axelar_amplifier_solana.Std.Hashing.{command_id, hash_message, keccak}
use axelar_amplifier_solana.Std.Types.{Message}
use axelar_amplifier_solana.Gateway.Env.{Env}
use axelar_amplifier_solana.Gateway.Executable.{
  is_signed_pda, gateway_accounts, AxelarExecuteAccounts, check_executable_accounts,
  validate_message_raw,
}
use axelar_amplifier_solana.Gateway.Messages.Effect.{validate_message_sound}
use axelar_amplifier_solana.Prelude.{
  Option, true, update, update_self, List, [], arith, ok, some, some_inj, sym, ℕ, ◌++◌, ◌∙◌, ◌∷◌,
  ◌≡◌,
}

module _ (env : Env) (client : ℕ) where
  -- The message was approved for the client with exactly this payload, and is executed now.
  pub record Executed (st : Store) (accounts : AxelarExecuteAccounts) (message : Message)
      (payload : List ℕ) (st' : Store) : Type 0 where
    pub incoming : IncomingMessage
    pub incoming_at : st.messages accounts.incoming_message_pda ≡ some incoming
    pub was_approved : incoming.status ≡ approved
    pub same_message : incoming.message_hash ≡ hash_message env.rt env.digest message
    pub same_payload : keccak env.rt payload ≡ message.payload_hash
    pub destination : ℕ
    pub destination_parses : env.rt.pubkey_from_str message.destination_address ≡ some destination
    pub destination_signs :
        env.rt.create_program_address
          (validate_message_seeds (command_id env.rt message)
            ++ Slice.byte incoming.signing_pda_bump ∷ [])
          destination
        ≡ some accounts.signing_pda
    pub client_signs :
        env.rt.create_program_address
          (validate_message_seeds (command_id env.rt message)
            ++ Slice.byte incoming.signing_pda_bump ∷ [])
          client
        ≡ some accounts.signing_pda
    pub now_executed :
        st'.messages accounts.incoming_message_pda ≡ some (record incoming { status = executed })

  is_address-eq : (o : Option ℕ) (k : ℕ) → is_some_eq o k ≡ true → o ≡ some k
  is_address-eq o k h = ground arith

  raw_inversion :
      (st : Store) (accounts : AxelarExecuteAccounts) (message : Message) (payload : List ℕ)
      (st' : Store)
      → validate_message_raw env client st accounts message payload ≡ ok st'
      → (incoming : IncomingMessage) × (st.messages accounts.incoming_message_pda ≡ some incoming)
        × (keccak env.rt payload ≡ message.payload_hash)
        × (Messages.validate_message env st
              (gateway_accounts env client accounts message incoming.signing_pda_bump)
              message
            ≡ ok st')
  unfolding validate_message_raw
  raw_inversion st accounts message payload st' h = ground arith

  -- If a program's validation of a message and a payload succeeds, the message was approved and not
  -- executed before, the payload hashes to what was approved, the program and the destination of the
  -- message have the signing PDA in common, and the message is executed afterwards.
  pub validate_message_raw-Executed :
      (st : Store) (accounts : AxelarExecuteAccounts) (message : Message) (payload : List ℕ)
      (st' : Store)
      → validate_message_raw env client st accounts message payload ≡ ok st'
      → Executed st accounts message payload st'
  validate_message_raw-Executed st accounts message payload st' h =
      let (incoming, at, hash, call) = raw_inversion st accounts message payload st' h in
      let v = validate_message_sound env st _ message st' call in
      let signed : is_signed_pda env client message incoming.signing_pda_bump accounts.signing_pda
          ≡ true =
        v.signed in
      let same : incoming ≡ v.incoming = some_inj _ _ (sym at ∙ v.incoming_at) in
      record {
        incoming = v.incoming;
        incoming_at = v.incoming_at;
        was_approved = v.was_approved;
        same_message = v.same_message;
        same_payload = hash;
        destination = v.destination;
        destination_parses = v.destination_parses;
        destination_signs = v.caller_is_pda;
        client_signs =
            is_address-eq
              (env.rt.create_program_address
                (validate_message_seeds (command_id env.rt message)
                  ++ Slice.byte (v.incoming.signing_pda_bump) ∷ [])
                client)
              accounts.signing_pda (rw same at signed);
        now_executed = rw v.stored (
            update_self st.messages accounts.incoming_message_pda
              (record (v.incoming) { status = executed }));
      }

  -- A program whose accounts have been checked can execute a message that is approved and for it, with
  -- the payload that was approved.
  pub validate_message_raw_succeeds :
      (st : Store) (accounts : AxelarExecuteAccounts) (message : Message) (payload : List ℕ)
      (incoming : IncomingMessage)
      → check_executable_accounts env client st accounts message ≡ ok tt
      → st.messages accounts.incoming_message_pda ≡ some incoming
      → incoming.status ≡ approved
      → incoming.message_hash ≡ hash_message env.rt env.digest message
      → env.rt.pubkey_from_str message.destination_address ≡ some client
      → keccak env.rt payload ≡ message.payload_hash
      → (st' : Store) × (validate_message_raw env client st accounts message payload ≡ ok st')
        × (st'.messages accounts.incoming_message_pda
            ≡ some (record incoming { status = executed }))
  unfolding check_executable_accounts validate_message_raw Messages.validate_message
  validate_message_raw_succeeds st accounts message payload incoming c at s m d p = (
    record st {
      messages =
          update st.messages accounts.incoming_message_pda (record incoming { status = executed });
      events = message_executed (command_id env.rt message) client message ∷ st.events;
    },
    ground arith,
    update_self st.messages accounts.incoming_message_pda (record incoming { status = executed }),
  )
