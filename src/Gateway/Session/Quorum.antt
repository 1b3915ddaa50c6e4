-- ===== src/Gateway/Session/Quorum.antt =====
-- What the validity of a session says: the quorum of the verifier set has signed.
use axelar_amplifier_solana.Std.U128
use axelar_amplifier_solana.Prelude.{
  Bool, false, ◌||◌, sym, ◌∙◌, Bool-cases, arith, inl, inr, length, refl, true, ◌<◌, ◌↔◌, ◌≤◌, List,
  [], if◌then◌else◌, leb, ℕ, ◌+◌, ◌∷◌, ◌≡◌, min,
}
use axelar_amplifier_solana.Std.U128.{max_const, saturating_add, u128_max}
use axelar_amplifier_solana.Std.Types.{SigningVerifierSetInfo}
use axelar_amplifier_solana.Std.U128.Laws.{
  u128_eq_iff, get-max_const, get-new, get-saturating_add, max_const-IsU128, new-IsU128,
  saturating_add-IsU128, IsU128,
}
use axelar_amplifier_solana.Gateway.Env.{Env}
use axelar_amplifier_solana.Gateway.Session.{is_valid, SignatureVerificationSessionData}
use axelar_amplifier_solana.Gateway.Session.Collected.{
  AreLeaves, Collected, HaveQuorum, IsFresh, next, start, IsLeaf, threshold, total_weight,
}
use axelar_amplifier_solana.Gateway.Session.Step.{process_signature_iff, accept}

-- Some signature, when it was processed, brought the weight collected so far to the quorum that its
-- leaf names.
unfoldable pub meets_quorum : List SigningVerifierSetInfo → Bool
unfolding total_weight
meets_quorum [] = false
meets_quorum (info ∷ infos) =
    leb info.leaf.quorum (total_weight (info ∷ infos)) || meets_quorum infos

-- The threshold that a session holds: the weight so far, or the maximum.
expected_threshold : List SigningVerifierSetInfo → ℕ
unfolding meets_quorum total_weight
expected_threshold infos = if meets_quorum infos then u128_max else total_weight infos

expected_threshold_step :
    (info : SigningVerifierSetInfo) (infos : List SigningVerifierSetInfo)
    → IsLeaf info.leaf
    → (let sum = min (expected_threshold infos + info.leaf.signer_weight) u128_max in
        if leb info.leaf.quorum sum then u128_max else sum)
      ≡ expected_threshold (info ∷ infos)
unfolding expected_threshold
expected_threshold_step info infos h = ground arith

pub meets_quorum-le :
    (q : ℕ) (infos : List SigningVerifierSetInfo)
    → HaveQuorum q infos
    → meets_quorum infos ≡ true
    → q ≤ total_weight infos
unfolding meets_quorum
meets_quorum-le q [] h m = cc
meets_quorum-le q (info ∷ infos) h m = ground (arith, meets_quorum-le q infos h.1)

-- Below the maximum, and so at every quorum that is not met.
not_met_lt :
    (infos : List SigningVerifierSetInfo)
    → AreLeaves infos
    → meets_quorum infos ≡ false
    → total_weight infos < u128_max
unfolding meets_quorum
not_met_lt [] h m = omega arith
not_met_lt (info ∷ infos) h m = ground arith

record HasThreshold (s : SignatureVerificationSessionData) (n : ℕ) : Type 0 where
  valid : IsU128 s.signature_verification.accumulated_threshold
  counted : threshold s ≡ n

length_pos : (infos : List SigningVerifierSetInfo) → meets_quorum infos ≡ true → 0 < length infos
unfolding meets_quorum
length_pos [] m = cc
length_pos (info ∷ infos) m = omega arith

meets_of_le :
    (q : ℕ) (infos : List SigningVerifierSetInfo)
    → HaveQuorum q infos
    → 0 < length infos
    → q ≤ total_weight infos
    → meets_quorum infos ≡ true
unfolding meets_quorum
meets_of_le q [] h n le = elim n [ ]
meets_of_le q (info ∷ infos) h n le = ground arith

module _ (env : Env) (root : ℕ) where
  HasThreshold-accept :
      (s : SignatureVerificationSessionData) (n : ℕ) (info : SigningVerifierSetInfo)
      → IsLeaf info.leaf
      → HasThreshold s n
      → HasThreshold (accept env s info.leaf) (
          let sum = min (n + info.leaf.signer_weight) u128_max in
          if leb info.leaf.quorum sum then u128_max else sum)
  unfolding accept
  HasThreshold-accept s n info leaf h =
      let weight = info.leaf.signer_weight in
      let old = s.signature_verification.accumulated_threshold in
      let sum = saturating_add old (U128.new weight) in
      let weight_back : U128.get (U128.new weight) ≡ weight = get-new weight leaf.weight_lt in
      let e : U128.get sum ≡ min (n + weight) u128_max =
        rw (get-saturating_add old (U128.new weight), h.counted, weight_back) refl in
      elim (Bool-cases (leb info.leaf.quorum (U128.get sum))) [
        | inl reached ↦ record {
          valid = rw reached max_const-IsU128;
          counted = rw (reached, ← e, reached) get-max_const;
        }
        | inr below ↦ record {
          valid = rw below (saturating_add-IsU128 old (U128.new weight));
          counted = rw (below, ← e, below) refl;
        }
      ]

  Collected-HasThreshold :
      {s₀ s : SignatureVerificationSessionData} {infos : List SigningVerifierSetInfo}
      → IsFresh env root s₀
      → Collected env root s₀ s infos
      → HasThreshold s (expected_threshold infos)
  unfolding expected_threshold U128.new
  Collected-HasThreshold f start = record {
    valid = rw f.no_weight (new-IsU128 0);
    counted = rw f.no_weight (get-new 0 (omega arith));
  }
  Collected-HasThreshold f (next {s} {infos = infos} c set_root info leaf h) =
      let (a, p) = (process_signature_iff env s root set_root info _).0 h in
      let before = Collected-HasThreshold f c in
      let after = HasThreshold-accept s (expected_threshold infos) info leaf before in
      let step = expected_threshold_step info infos leaf in
      rw p (record { valid = after.valid; counted = after.counted ∙ step })

  Collected-AreLeaves :
      {s₀ s : SignatureVerificationSessionData} {infos : List SigningVerifierSetInfo}
      → Collected env root s₀ s infos
      → AreLeaves infos
  Collected-AreLeaves start = tt
  Collected-AreLeaves (next c set_root info leaf h) = (leaf, Collected-AreLeaves c)

  expected_threshold_max :
      (infos : List SigningVerifierSetInfo)
      → AreLeaves infos
      → (expected_threshold infos ≡ u128_max) ↔ (meets_quorum infos ≡ true)
  unfolding expected_threshold
  expected_threshold_max infos h = elim (Bool-cases (meets_quorum infos)) [
    | inl met ↦ (λ e. met, λ e. rw met refl)
    | inr short ↦
        let below = not_met_lt infos h short in
        (
          λ e. absurd (let e' : total_weight infos ≡ u128_max = rw short at e in omega arith),
          λ e. absurd (true_ne_false (sym e ∙ short)),
        )
  ]
    where
      true_ne_false : ¬ (true ≡ false)
      true_ne_false e = cc

  -- However a session came about from a fresh one, it is valid exactly when some processed signature
  -- brought the weight collected up to then to the quorum that its leaf names.
  pub is_valid-meets_quorum :
      {s₀ s : SignatureVerificationSessionData} {infos : List SigningVerifierSetInfo}
      → IsFresh env root s₀
      → Collected env root s₀ s infos
      → (is_valid s ≡ true) ↔ (meets_quorum infos ≡ true)
  unfolding is_valid
  is_valid-meets_quorum {s₀} {s} {infos} f c =
      let h = Collected-HasThreshold f c in
      let same =
        u128_eq_iff s.signature_verification.accumulated_threshold max_const h.valid
          max_const-IsU128 in
      let reached = expected_threshold_max infos (Collected-AreLeaves c) in
      (
        λ v. reached.0 (sym h.counted ∙ same.0 v ∙ get-max_const),
        λ w. same.1 (h.counted ∙ reached.1 w ∙ sym get-max_const),
      )

  -- Where all the leaves name one quorum, a session is valid exactly when some signature was
  -- processed and the weights of the processed signatures add up to the quorum.
  pub is_valid_iff :
      (q : ℕ) {s₀ s : SignatureVerificationSessionData} {infos : List SigningVerifierSetInfo}
      → IsFresh env root s₀
      → Collected env root s₀ s infos
      → HaveQuorum q infos
      → (is_valid s ≡ true) ↔ ((0 < length infos) × (q ≤ total_weight infos))
  is_valid_iff q {s₀} {s} {infos} f c qs =
      let valid = is_valid-meets_quorum f c in
      (
        λ v. (length_pos infos (valid.0 v), meets_quorum-le q infos qs (valid.0 v)),
        λ w. valid.1 (meets_of_le q infos qs w.0 w.1),
      )
