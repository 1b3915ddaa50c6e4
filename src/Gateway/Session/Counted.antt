-- ===== src/Gateway/Session/Counted.antt =====
-- What one signature adds to a session (`process_signature` of
-- programs/solana-axelar-gateway/src/state/verification_session.rs).
use axelar_amplifier_solana.Std.Runtime.{BitViewLaws}
use axelar_amplifier_solana.Std.U128.{U128, get, max_const, new, saturating_add, u128_max}
use axelar_amplifier_solana.Std.Types.{SigningVerifierSetInfo, VerifierSetLeaf}
use axelar_amplifier_solana.Std.U128.Laws.{get-max_const, get-new, get-saturating_add}
use axelar_amplifier_solana.Gateway.Env.{Env}
use axelar_amplifier_solana.Gateway.Session.{SignatureVerificationSessionData, process_signature}
use axelar_amplifier_solana.Gateway.Session.Collected.{IsLeaf}
use axelar_amplifier_solana.Gateway.Session.Step.{
  Accepts, accept, process_signature_iff, slot_in_bounds,
}
use axelar_amplifier_solana.Prelude.{
  arith, false, if◌then◌else◌, leb, length, min, ok, refl, some, subst, sym, true, ℕ, ◌+◌, ◌<◌, ◌^◌,
  ◌≡◌, ◌≢◌, ◌≤◌,
}

-- The weight is added to the threshold, which becomes the maximum once it reaches the quorum; the slot
-- of the position is set, and the other slots, the verifier set and the bump are as they were.
pub record Counted (env : Env) (s : SignatureVerificationSessionData) (leaf : VerifierSetLeaf)
    (s' : SignatureVerificationSessionData) : Type 0 where
  pub at_quorum :
      leaf.quorum ≤ get s.signature_verification.accumulated_threshold + leaf.signer_weight
      → get s'.signature_verification.accumulated_threshold ≡ u128_max
  pub below_quorum :
      get s.signature_verification.accumulated_threshold + leaf.signer_weight < leaf.quorum
      → get s'.signature_verification.accumulated_threshold
        ≡ get s.signature_verification.accumulated_threshold + leaf.signer_weight
  pub in_bounds : leaf.position < 256
  pub slot_set :
      env.bit_view.get s'.signature_verification.signature_slots leaf.position ≡ some true
  pub other_slots :
      (i : ℕ)
      → leaf.position ≢ i
      → env.bit_view.get s'.signature_verification.signature_slots i
        ≡ env.bit_view.get s.signature_verification.signature_slots i
  pub same_set :
      s'.signature_verification.signing_verifier_set_hash
      ≡ s.signature_verification.signing_verifier_set_hash
  pub same_bump : s'.bump ≡ s.bump

-- The sum of the threshold and a weight, cut off at the maximum.
sum_of :
    (old : U128) (weight : ℕ)
    → weight < 2 ^ 128
    → get (saturating_add old (new weight)) ≡ min (get old + weight) u128_max
sum_of old weight small = rw (get-saturating_add old (new weight), get-new weight small) refl

threshold_at_quorum :
    (old : U128) (weight quorum : ℕ)
    → weight < 2 ^ 128
    → quorum < 2 ^ 128
    → quorum ≤ get old + weight
    → get (
        if leb quorum (get (saturating_add old (new weight)))
        then max_const
        else saturating_add old (new weight))
      ≡ u128_max
threshold_at_quorum old weight quorum w q h =
    let e = sum_of old weight w in
    let reached : leb quorum (get (saturating_add old (new weight))) ≡ true = ground arith in
    rw reached get-max_const

threshold_below_quorum :
    (old : U128) (weight quorum : ℕ)
    → weight < 2 ^ 128
    → quorum < 2 ^ 128
    → get old + weight < quorum
    → get (
        if leb quorum (get (saturating_add old (new weight)))
        then max_const
        else saturating_add old (new weight))
      ≡ get old + weight
threshold_below_quorum old weight quorum w q h =
    let e = sum_of old weight w in
    let missed : leb quorum (get (saturating_add old (new weight))) ≡ false = ground arith in
    rw missed (omega arith)

module _ (env : Env) (laws : BitViewLaws env.bit_view) (s : SignatureVerificationSessionData)
    (root set_root : ℕ) (info : SigningVerifierSetInfo) where
  accept-Counted :
      IsLeaf info.leaf
      → length s.signature_verification.signature_slots ≡ 32
      → Accepts env s root set_root info
      → Counted env s info.leaf (accept env s info.leaf)
  unfolding accept
  accept-Counted l n a =
      let v = s.signature_verification in
      let low = slot_in_bounds env laws v.signature_slots info.leaf.position n a.slot_free in
      record {
        at_quorum = λ h.
            threshold_at_quorum v.accumulated_threshold info.leaf.signer_weight info.leaf.quorum
              l.weight_lt l.quorum_lt h;
        below_quorum = λ h.
            threshold_below_quorum v.accumulated_threshold info.leaf.signer_weight info.leaf.quorum
              l.weight_lt l.quorum_lt h;
        in_bounds = low;
        slot_set = laws.get-commit_self v.signature_slots info.leaf.position n low;
        other_slots = λ i ne. laws.get-commit_ne v.signature_slots info.leaf.position i n ne;
        same_set = refl;
        same_bump = refl;
      }

  -- With a leaf whose weight and quorum are u128s, and 256 slots: every signature that meets the checks
  -- (a free slot, a Merkle proof of its leaf, a valid signature, the set of the session) is processed;
  -- and one that is processed meets them and is counted: its weight is added, the threshold becomes the
  -- maximum exactly when the sum reaches the quorum, its slot is set, and nothing else changes.
  pub process_signature_counts :
      IsLeaf info.leaf
      → length s.signature_verification.signature_slots ≡ 32
      → (Accepts env s root set_root info
          → (s' : SignatureVerificationSessionData) × (process_signature env s root set_root info
              ≡ ok s'))
        × ((s' : SignatureVerificationSessionData)
            → process_signature env s root set_root info ≡ ok s'
            → Accepts env s root set_root info × Counted env s info.leaf s')
  process_signature_counts l n = (
    λ a. (
      accept env s info.leaf,
      (process_signature_iff env s root set_root info (accept env s info.leaf)).1 (a, refl),
    ),
    λ s' h.
        (let (a, e) = (process_signature_iff env s root set_root info s').0 h in
          (a, subst (Counted env s info.leaf) (sym e) (accept-Counted l n a))),
  )
