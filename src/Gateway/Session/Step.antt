-- ===== src/Gateway/Session/Step.antt =====
-- One call of `process_signature`: when it succeeds, and what it changes.
use axelar_amplifier_solana.Prelude.{
  custom, refl, ◌↔◌, inl, inr, leb→le, leb, Bool-cases, if◌then◌else◌, length, err, ◌<◌, ◌≤◌, ℕ,
  ◌≡◌, true, false, some, List, [], ◌∷◌, ok, arith,
}
use axelar_amplifier_solana.Std.Types.{VerifierSetLeaf, SigningVerifierSetInfo}
use axelar_amplifier_solana.Std.Hashing.{concat_and_hash, hash_verifier_set_leaf}
use axelar_amplifier_solana.Gateway.Env.{slot_already_verified, slot_is_out_of_bounds, Env}
use axelar_amplifier_solana.Gateway.Session.{
  SignatureVerificationSessionData, verify_ecdsa_signature, check_slot_is_done, mark_slot_done,
  accumulate_threshold, verify_verifier_set, process_signature,
}
use axelar_amplifier_solana.Std.Runtime.{BitViewLaws}
use axelar_amplifier_solana.Std.U128
use axelar_amplifier_solana.Std.U128.{get, new, max_const, saturating_add}
use axelar_amplifier_solana.Operators.Access.{root}

module _ (env : Env) where
  open env use {rt, merkle, digest, bit_view}

  -- What the source checks of a signature, all at once.
  pub record Accepts (s : SignatureVerificationSessionData) (root set_root : ℕ)
      (info : SigningVerifierSetInfo) : Type 0 where
    pub proof : List ℕ
    pub slot_free :
        bit_view.get s.signature_verification.signature_slots info.leaf.position ≡ some false
    pub proof_parses : merkle.proof_from_bytes info.merkle_proof ≡ some proof
    pub leaf_in_set :
        merkle.verify
          (concat_and_hash rt)
          proof
          set_root
          (info.leaf.position ∷ [])
          (hash_verifier_set_leaf rt digest info.leaf ∷ [])
          info.leaf.set_size
        ≡ true
    pub signed :
        verify_ecdsa_signature env info.leaf.signer_pubkey info.signature info.payload_type root
        ≡ ok true
    pub set_matches : s.signature_verification.signing_verifier_set_hash ≡ set_root

  -- The session after an accepted signature.
  unfoldable pub accept :
      SignatureVerificationSessionData → VerifierSetLeaf → SignatureVerificationSessionData
  unfolding accumulate_threshold
  accept s leaf =
      let a = accumulate_threshold s leaf in
      record a {
        signature_verification = record (a.signature_verification) {
          signature_slots = bit_view.commit s.signature_verification.signature_slots leaf.position;
        };
      }

  module _ (s : SignatureVerificationSessionData) (root set_root : ℕ)
      (info : SigningVerifierSetInfo) where
    process_signature_sound :
        (s' : SignatureVerificationSessionData)
        → process_signature env s root set_root info ≡ ok s'
        → Accepts s root set_root info × (s' ≡ accept s info.leaf)
    unfolding process_signature check_slot_is_done mark_slot_done verify_verifier_set
        accumulate_threshold accept
    process_signature_sound s' h = ground arith

    process_signature_complete :
        Accepts s root set_root info
        → process_signature env s root set_root info ≡ ok (accept s info.leaf)
    unfolding process_signature check_slot_is_done mark_slot_done verify_verifier_set
        accumulate_threshold accept
    process_signature_complete h = ground arith

    -- A signature is processed exactly when its slot is in bounds and clear, the Merkle proof places
    -- its leaf in the given verifier set, the ECDSA signature over the payload root is the leaf's,
    -- and the session belongs to that set. The new session then has the leaf's weight added and the
    -- slot set, and nothing else changed.
    pub process_signature_iff :
        (s' : SignatureVerificationSessionData)
        → (process_signature env s root set_root info ≡ ok s')
          ↔ (Accepts s root set_root info × (s' ≡ accept s info.leaf))
    process_signature_iff s' =
        (process_signature_sound s', λ h. rw (h.1) (process_signature_complete h.0))

    slot_set_err :
        bit_view.get s.signature_verification.signature_slots info.leaf.position ≡ some true
        → process_signature env s root set_root info ≡ err (custom slot_already_verified)
    unfolding process_signature check_slot_is_done
    slot_set_err h = ground arith

    -- A leaf whose position has no slot is refused before anything else is looked at.
    pub process_signature_out_of_bounds :
        BitViewLaws bit_view
        → length s.signature_verification.signature_slots ≡ 32
        → 256 ≤ info.leaf.position
        → process_signature env s root set_root info ≡ err (custom slot_is_out_of_bounds)
    unfolding process_signature check_slot_is_done
    process_signature_out_of_bounds laws n h =
        let e = laws.get_out s.signature_verification.signature_slots info.leaf.position n h in
        ground arith

    pub accept-slots :
        (accept s info.leaf).signature_verification.signature_slots
        ≡ bit_view.commit s.signature_verification.signature_slots info.leaf.position
    unfolding accept
    accept-slots = refl

    pub accept-set_hash :
        (accept s info.leaf).signature_verification.signing_verifier_set_hash
        ≡ s.signature_verification.signing_verifier_set_hash
    unfolding accept
    accept-set_hash = refl

    pub accept-threshold : (accept s info.leaf).signature_verification.accumulated_threshold ≡ (
        let sum =
          saturating_add s.signature_verification.accumulated_threshold
            (U128.new info.leaf.signer_weight) in
        if leb info.leaf.quorum (U128.get sum) then max_const else sum)
    unfolding accept
    accept-threshold = refl

  pub slot_in_bounds :
      BitViewLaws bit_view
      → (slots : List ℕ) (i : ℕ) → length slots ≡ 32
      → bit_view.get slots i ≡ some false
      → i < 256
  slot_in_bounds laws slots i m f = elim (Bool-cases (leb 256 i)) [
    | inl out ↦ absurd (let g = laws.get_out slots i m (omega (arith, leb→le 256 i out)) in cc)
    | inr inside ↦ ground arith
  ]

  -- After a signature has been accepted, every other one for the same position is refused,
  -- whatever it says: no verifier is counted twice.
  pub process_signature_twice :
      BitViewLaws bit_view
      → (s s' : SignatureVerificationSessionData) (root root' set_root set_root' : ℕ)
        (info info' : SigningVerifierSetInfo)
      → length s.signature_verification.signature_slots ≡ 32
      → process_signature env s root set_root info ≡ ok s'
      → info'.leaf.position ≡ info.leaf.position
      → process_signature env s' root' set_root' info' ≡ err (custom slot_already_verified)
  process_signature_twice laws s s' root root' set_root set_root' info info' n h e =
      let (a, p) = process_signature_sound s root set_root info s' h in
      let slots = s.signature_verification.signature_slots in
      let low : info.leaf.position < 256 =
        slot_in_bounds laws slots info.leaf.position n a.slot_free in
      rw p (
        slot_set_err (accept s info.leaf) root' set_root' info' (
          rw (e, accept-slots s root set_root info)
            (laws.get-commit_self slots info.leaf.position n low)))
