-- ===== src/Gateway/Program/Provenance.antt =====
-- Where the sessions and the messages of a reachable store come from.
use axelar_amplifier_solana.Prelude.{
  none_ne_some, true, ap, ok, refl, update-cases, ◌∙◌, List, [], inl, inr, some, subst, update, ℕ,
  ◌++◌, ◌∷◌, ◌≡◌, Map,
}
use axelar_amplifier_solana.Std.Runtime.{BitViewLaws, RuntimeLaws, Slice}
use axelar_amplifier_solana.Std.Types.{SigningVerifierSetInfo, payload_type_byte}
use axelar_amplifier_solana.Gateway.Env.{Env}
use axelar_amplifier_solana.Gateway.Session.{
  is_valid, process_signature, SignatureVerificationSessionData,
}
use axelar_amplifier_solana.Gateway.State.{Chain, Store, session_seeds}
use axelar_amplifier_solana.Gateway.Session.Collected.{
  AreDistinct, AreGenuine, Collected-AreGenuine, next, IsLeaf, start, Collected, IsFresh,
}
use axelar_amplifier_solana.Gateway.Verification.{fresh_session}
use axelar_amplifier_solana.Gateway.Session.Step.{accept, process_signature_iff}
use axelar_amplifier_solana.Gateway.Program.{
  here, Instruction, IsTyped, Run, empty_store, execute, step,
}
use axelar_amplifier_solana.Gateway.Rotation.Effect.{rotate_signers_sound}
use axelar_amplifier_solana.Gateway.Config.Effect.{
  call_contract_sound, initialize_config_sound, transfer_operatorship_sound,
}
use axelar_amplifier_solana.Gateway.Session.Quorum.{is_valid-meets_quorum, meets_quorum}
use axelar_amplifier_solana.Gateway.Verification.Effect.{initiate_sound, verify_signature_sound}
use axelar_amplifier_solana.Gateway.Messages.Effect.{approve_message_sound, validate_message_sound}

-- Session addresses do not collide: an address belongs to one payload root, payload type and verifier
-- set. (The seeds are 32 bytes, one byte and 32 bytes behind a fixed prefix, and are hashed.)
pub record SessionAddresses (env : Env) : Type 0 where
  pub session_seeds_injective :
      (root root' kind kind' set_hash set_hash' bump bump' a : ℕ)
      → env.rt.create_program_address
          (session_seeds root kind set_hash ++ Slice.byte bump ∷ [])
          env.id
        ≡ some a
      → env.rt.create_program_address
          (session_seeds root' kind' set_hash' ++ Slice.byte bump' ∷ [])
          env.id
        ≡ some a
      → (root ≡ root') × (kind ≡ kind') × (set_hash ≡ set_hash')

module _ (env : Env) where
  open env use {rt, id}

  -- Every signature was given for the session's kind of payload.
  abbrev pub HaveKind : ℕ → List SigningVerifierSetInfo → Type 0
  HaveKind kind [] = Unit
  HaveKind kind (info ∷ infos) = (payload_type_byte info.payload_type ≡ kind) × HaveKind kind infos

  -- The session at an address: the payload that it stands for, and the signatures that made it.
  pub record History (a : ℕ) (session : SignatureVerificationSessionData) : Type 0 where
    pub root : ℕ
    pub kind : ℕ
    pub origin : SignatureVerificationSessionData
    pub infos : List SigningVerifierSetInfo
    pub address :
        rt.create_program_address
          (session_seeds root kind session.signature_verification.signing_verifier_set_hash
            ++ Slice.byte session.bump ∷ [])
          id
        ≡ some a
    pub fresh : IsFresh env root origin
    pub collected : Collected env root origin session infos
    pub of_kind : HaveKind kind infos

  abbrev pub HaveHistories : Map SignatureVerificationSessionData → Type 0
  HaveHistories sessions =
      (a : ℕ) (session : SignatureVerificationSessionData)
      → sessions a ≡ some session
      → History a session

  HaveHistories-update :
      (m : Map SignatureVerificationSessionData) (k : ℕ) (v : SignatureVerificationSessionData)
      → HaveHistories m
      → History k v
      → HaveHistories (update m k v)
  HaveHistories-update m k v hm hv a session e = elim (update-cases m k a v e) [
    | inl (at_key, written) ↦ rw at_key (subst (History k) written hv)
    | inr before ↦ hm a session before
  ]

  History-fresh :
      (laws : RuntimeLaws rt) (a root kind set_hash : ℕ)
      → (rt.find_program_address (session_seeds root kind set_hash) id).0 ≡ a
      → History a
          (fresh_session (rt.find_program_address (session_seeds root kind set_hash) id).1 set_hash)
  History-fresh laws a root kind set_hash found =
      let bump = (rt.find_program_address (session_seeds root kind set_hash) id).1 in
      record {
        root = root;
        kind = kind;
        origin = fresh_session bump set_hash;
        infos = [];
        address = laws.find_creates (session_seeds root kind set_hash) id ∙ ap some found;
        fresh = record { no_weight = refl; no_slots = refl };
        collected = start;
        of_kind = tt;
      }

  History-process :
      (inj : SessionAddresses env) (a : ℕ) (s s' : SignatureVerificationSessionData)
      (root set_root : ℕ) (info : SigningVerifierSetInfo)
      → IsLeaf info.leaf
      → rt.create_program_address
          (session_seeds root
              (payload_type_byte info.payload_type)
              s.signature_verification.signing_verifier_set_hash
            ++ Slice.byte s.bump ∷ [])
          id
        ≡ some a
      → process_signature env s root set_root info ≡ ok s'
      → History a s
      → History a s'
  unfolding accept
  History-process inj a s s' root set_root info typed seeded h p =
      let (same_root, same_kind, _) =
        inj.session_seeds_injective _ _ _ _ _ _ _ _ a seeded p.address in
      let (_, s'_eq) = (process_signature_iff env s root set_root info s').0 h in
      record {
        root = p.root;
        kind = p.kind;
        origin = p.origin;
        infos = info ∷ p.infos;
        address = rw s'_eq p.address;
        fresh = p.fresh;
        collected = next p.collected set_root info typed (rw (← same_root) h);
        of_kind = (same_kind, p.of_kind);
      }

  -- The sessions that one instruction leaves behind.
  execute-HaveHistories :
      RuntimeLaws rt
      → SessionAddresses env
      → (chain : Chain) (instruction : Instruction) (st st' : Store) → IsTyped instruction
      → execute env chain st instruction ≡ ok st'
      → HaveHistories st.sessions
      → HaveHistories st'.sessions
  unfolding execute
  execute-HaveHistories laws inj chain (Instruction.initialize_config accounts params) st st' typed
        h p =
      rw (initialize_config_sound env chain st accounts params st' h).sessions_same p
  execute-HaveHistories laws inj chain
        (Instruction.initialize_payload_verification_session accounts root payload_type) st st'
        typed h p =
      let f = initiate_sound env st accounts root payload_type st' h in
      rw f.stored (
        HaveHistories-update st.sessions accounts.verification_session_account _ p (
          History-fresh laws accounts.verification_session_account root
            (payload_type_byte payload_type) f.tracker.verifier_set_hash f.found))
  execute-HaveHistories laws inj chain (Instruction.verify_signature accounts root info) st st'
        typed h p =
      let f = verify_signature_sound env st accounts root info st' h in
      let a = accounts.verification_session_account in
      rw f.stored (
        HaveHistories-update st.sessions a f.session' p (
          History-process inj a f.session f.session' root f.tracker.verifier_set_hash info typed
            f.session_seeded f.processed (p a f.session f.session_at)))
  execute-HaveHistories laws inj chain (Instruction.approve_message accounts m root) st st' typed h
        p =
      rw (approve_message_sound env st accounts m root st' h).sessions_same p
  execute-HaveHistories laws inj chain (Instruction.validate_message accounts m) st st' typed h p =
      rw (validate_message_sound env st accounts m st' h).sessions_same p
  execute-HaveHistories laws inj chain (Instruction.rotate_signers accounts root) st st' typed h p =
      rw (rotate_signers_sound env chain st accounts root st' h).sessions_same p
  execute-HaveHistories laws inj chain (Instruction.transfer_operatorship accounts) st st' typed h
        p =
      rw (transfer_operatorship_sound env chain st accounts st' h).sessions_same p
  execute-HaveHistories laws inj chain
        (Instruction.call_contract accounts destination_chain address payload bump) st st' typed h
        p =
      rw
        (call_contract_sound env st accounts destination_chain address payload bump st' h).unchanged
        p

  pub Run-HaveHistories :
      RuntimeLaws rt
      → SessionAddresses env
      → {st : Store} → Run env empty_store st
      → HaveHistories st.sessions
  Run-HaveHistories laws inj here = λ a session e. absurd (none_ne_some session e)
  Run-HaveHistories laws inj (step {st'} {st''} r chain instruction typed e) =
      execute-HaveHistories laws inj chain instruction st' st'' typed e
        (Run-HaveHistories laws inj r)

  -- The signatures behind a decision about the payload `root` of the given kind.
  pub record Signed (root kind set_hash : ℕ) : Type 0 where
    pub infos : List SigningVerifierSetInfo
    pub of_kind : HaveKind kind infos
    pub genuine : AreGenuine env root set_hash infos
    pub distinct : AreDistinct infos
    pub met : meets_quorum infos ≡ true

  pub Signed-valid :
      BitViewLaws env.bit_view
      → SessionAddresses env
      → (a root kind : ℕ) (session : SignatureVerificationSessionData)
      → rt.create_program_address
          (session_seeds root kind session.signature_verification.signing_verifier_set_hash
            ++ Slice.byte session.bump ∷ [])
          id
        ≡ some a
      → is_valid session ≡ true
      → History a session
      → Signed root kind session.signature_verification.signing_verifier_set_hash
  Signed-valid bits inj a root kind session seeded valid p =
      let (same_root, same_kind, _) =
        inj.session_seeds_injective _ _ _ _ _ _ _ _ a seeded p.address in
      let (genuine, distinct) = Collected-AreGenuine env p.root bits p.fresh p.collected in
      record {
        infos = p.infos;
        of_kind = rw same_kind p.of_kind;
        genuine = rw same_root genuine;
        distinct = distinct;
        met = (is_valid-meets_quorum env p.root p.fresh p.collected).0 valid;
      }
