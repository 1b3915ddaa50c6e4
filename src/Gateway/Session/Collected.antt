-- ===== src/Gateway/Session/Collected.antt =====
-- A session over its whole life: the signatures that it has processed, and that they are genuine.
use axelar_amplifier_solana.Std.U128
use axelar_amplifier_solana.Prelude.{
  refl, Bool, Bool-cases, List, [], arith, false, inl, inr, leb, leb→le, length, ok, replicate,
  some, sym, true, ℕ, ◌+◌, ◌<◌, ◌^◌, ◌∙◌, ◌∷◌, ◌≡◌, ◌≢◌,
}
use axelar_amplifier_solana.Std.Runtime.{BitViewLaws}
use axelar_amplifier_solana.Std.U128.{get, zero_const}
use axelar_amplifier_solana.Std.Hashing.{concat_and_hash, hash_verifier_set_leaf}
use axelar_amplifier_solana.Std.Types.{SigningVerifierSetInfo, VerifierSetLeaf}
use axelar_amplifier_solana.Gateway.Env.{Env}
use axelar_amplifier_solana.Gateway.Session.{
  SignatureVerificationSessionData, process_signature, verify_ecdsa_signature,
}
use axelar_amplifier_solana.Gateway.Session.Step.{process_signature_iff, Accepts, accept}

-- A quorum and a weight are u128s in the source.
pub record IsLeaf (leaf : VerifierSetLeaf) : Type 0 where
  pub weight_lt : leaf.signer_weight < 2 ^ 128
  pub quorum_lt : leaf.quorum < 2 ^ 128

unfoldable pub total_weight : List SigningVerifierSetInfo → ℕ
total_weight [] = 0
total_weight (info ∷ infos) = info.leaf.signer_weight + total_weight infos

abbrev pub AreLeaves : List SigningVerifierSetInfo → Type 0
AreLeaves [] = Unit
AreLeaves (info ∷ infos) = IsLeaf info.leaf × AreLeaves infos

-- Every leaf names the quorum `q`, as the leaves of one verifier set do.
abbrev pub HaveQuorum : ℕ → List SigningVerifierSetInfo → Type 0
HaveQuorum q [] = Unit
HaveQuorum q (info ∷ infos) = (info.leaf.quorum ≡ q) × HaveQuorum q infos

abbrev pub IsNewPosition : ℕ → List SigningVerifierSetInfo → Type 0
IsNewPosition p [] = Unit
IsNewPosition p (info ∷ infos) = (p ≢ info.leaf.position) × IsNewPosition p infos

-- No position is counted twice.
abbrev pub AreDistinct : List SigningVerifierSetInfo → Type 0
AreDistinct [] = Unit
AreDistinct (info ∷ infos) = IsNewPosition info.leaf.position infos × AreDistinct infos

abbrev pub threshold : SignatureVerificationSessionData → ℕ
threshold s = U128.get s.signature_verification.accumulated_threshold

module _ (env : Env) (root : ℕ) where
  open env use {rt, merkle, digest, bit_view}

  -- A fresh session, and the signatures processed since, the last one first.
  pub data Collected (s₀ : SignatureVerificationSessionData)
      : SignatureVerificationSessionData → List SigningVerifierSetInfo → Type 0 where
    start : Collected s₀ s₀ []
    next :
        {s s' : SignatureVerificationSessionData} {infos : List SigningVerifierSetInfo}
        → Collected s₀ s infos
        → (set_root : ℕ) (info : SigningVerifierSetInfo) → IsLeaf info.leaf
        → process_signature env s root set_root info ≡ ok s'
        → Collected s₀ s' (info ∷ infos)

  -- A session as `initialize_payload_verification_session` leaves it.
  pub record IsFresh (s : SignatureVerificationSessionData) : Type 0 where
    pub no_weight : s.signature_verification.accumulated_threshold ≡ zero_const
    pub no_slots : s.signature_verification.signature_slots ≡ replicate 32 0

  -- The leaf has a proof into the set with hash `set_hash`, and its signature over the root holds.
  pub record IsGenuine (set_hash : ℕ) (info : SigningVerifierSetInfo) : Type 0 where
    pub proof : List ℕ
    pub proof_parses : merkle.proof_from_bytes info.merkle_proof ≡ some proof
    pub leaf_in_set :
        merkle.verify
          (concat_and_hash rt)
          proof
          set_hash
          (info.leaf.position ∷ [])
          (hash_verifier_set_leaf rt digest info.leaf ∷ [])
          info.leaf.set_size
        ≡ true
    pub signed :
        verify_ecdsa_signature env info.leaf.signer_pubkey info.signature info.payload_type root
        ≡ ok true

  abbrev pub AreGenuine : ℕ → List SigningVerifierSetInfo → Type 0
  AreGenuine h [] = Unit
  AreGenuine h (info ∷ infos) = IsGenuine h info × AreGenuine h infos

  -- Every processed position has its slot set.
  abbrev AreMarked : List ℕ → List SigningVerifierSetInfo → Type 0
  AreMarked slots [] = Unit
  AreMarked slots (info ∷ infos) =
      (bit_view.get slots info.leaf.position ≡ some true) × AreMarked slots infos

  AreMarked-IsNewPosition :
      (slots : List ℕ) (p : ℕ) (infos : List SigningVerifierSetInfo)
      → bit_view.get slots p ≡ some false
      → AreMarked slots infos
      → IsNewPosition p infos
  AreMarked-IsNewPosition slots p [] free m = tt
  AreMarked-IsNewPosition slots p (info ∷ infos) free m = (
    λ e. let q : bit_view.get slots p ≡ some true = rw e m.0 in cc,
    AreMarked-IsNewPosition slots p infos free m.1,
  )

  module _ (laws : BitViewLaws bit_view) where
    slot_lt :
        (slots : List ℕ) (i : ℕ) {b : Bool}
        → length slots ≡ 32
        → bit_view.get slots i ≡ some b
        → i < 256
    slot_lt slots i n f = elim (Bool-cases (leb 256 i)) [
      | inl out ↦ absurd (let g = laws.get_out slots i n (leb→le 256 i out) in cc)
      | inr inside ↦ ground arith
    ]

    AreMarked-commit :
        (slots : List ℕ) (p : ℕ) (infos : List SigningVerifierSetInfo)
        → length slots ≡ 32
        → IsNewPosition p infos
        → AreMarked slots infos
        → AreMarked (bit_view.commit slots p) infos
    AreMarked-commit slots p [] n fresh m = tt
    AreMarked-commit slots p (info ∷ infos) n fresh m = (
      rw (laws.get-commit_ne slots p info.leaf.position n fresh.0) m.0,
      AreMarked-commit slots p infos n fresh.1 m.1,
    )

    record SlotFacts (h : ℕ) (s : SignatureVerificationSessionData)
        (infos : List SigningVerifierSetInfo) : Type 0 where
      size : length s.signature_verification.signature_slots ≡ 32
      marked : AreMarked s.signature_verification.signature_slots infos
      distinct : AreDistinct infos
      same_set : s.signature_verification.signing_verifier_set_hash ≡ h
      genuine : AreGenuine h infos

    SlotFacts-accept :
        (h : ℕ) (s : SignatureVerificationSessionData) (infos : List SigningVerifierSetInfo)
        (set_root : ℕ) (info : SigningVerifierSetInfo)
        → SlotFacts h s infos
        → Accepts env s root set_root info
        → SlotFacts h (accept env s info.leaf) (info ∷ infos)
    unfolding accept
    SlotFacts-accept h s infos set_root info f a =
        let slots = s.signature_verification.signature_slots in
        let p = info.leaf.position in
        let fresh : IsNewPosition p infos =
          AreMarked-IsNewPosition slots p infos a.slot_free f.marked in
        let low : p < 256 = slot_lt slots p f.size a.slot_free in
        let at_set : set_root ≡ h = sym a.set_matches ∙ f.same_set in
        record {
          size = (laws.commit_length slots p f.size);
          marked = (
            laws.get-commit_self slots p f.size low,
            AreMarked-commit slots p infos f.size fresh f.marked,
          );
          distinct = (fresh, f.distinct);
          same_set = f.same_set;
          genuine = (
            record {
              proof = a.proof;
              proof_parses = a.proof_parses;
              leaf_in_set = rw (← at_set) a.leaf_in_set;
              signed = a.signed;
            },
            f.genuine,
          );
        }

    SlotFacts-fresh :
        (s : SignatureVerificationSessionData)
        → IsFresh s
        → SlotFacts s.signature_verification.signing_verifier_set_hash s []
    SlotFacts-fresh s f = record {
      size = rw f.no_slots refl;
      marked = tt;
      distinct = tt;
      same_set = refl;
      genuine = tt;
    }

    Collected-SlotFacts :
        {s₀ s : SignatureVerificationSessionData} {infos : List SigningVerifierSetInfo}
        → IsFresh s₀
        → Collected s₀ s infos
        → SlotFacts s₀.signature_verification.signing_verifier_set_hash s infos
    Collected-SlotFacts {s₀} f start = SlotFacts-fresh s₀ f
    Collected-SlotFacts {s₀} f (next {s} {infos = infos} c set_root info leaf h) =
        let (a, p) = (process_signature_iff env s root set_root info _).0 h in
        let facts =
          SlotFacts-accept s₀.signature_verification.signing_verifier_set_hash s infos set_root info
            (Collected-SlotFacts f c) a in
        rw p facts

    -- However a session came about, the signatures that it has processed are all genuine: each leaf
    -- has a proof into the session's own verifier set and a signature over the payload root, and no
    -- position of the set was counted twice.
    pub Collected-AreGenuine :
        {s₀ s : SignatureVerificationSessionData} {infos : List SigningVerifierSetInfo}
        → IsFresh s₀
        → Collected s₀ s infos
        → AreGenuine s.signature_verification.signing_verifier_set_hash infos × AreDistinct infos
    Collected-AreGenuine f c =
        let facts = Collected-SlotFacts f c in (rw facts.same_set facts.genuine, facts.distinct)
