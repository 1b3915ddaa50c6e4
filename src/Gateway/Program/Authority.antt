-- ===== src/Gateway/Program/Authority.antt =====
-- Nothing is approved and no set is rotated in without the signatures of a quorum of verifiers.
use axelar_amplifier_solana.Gateway.Messages
use axelar_amplifier_solana.Gateway.Rotation
use axelar_amplifier_solana.Std.Runtime.{BitViewLaws, RuntimeLaws}
use axelar_amplifier_solana.Std.Hashing.{concat_and_hash, hash_message_leaf}
use axelar_amplifier_solana.Std.Types.{MerklizedMessage}
use axelar_amplifier_solana.Gateway.Rotation.{RotateSignersAccounts}
use axelar_amplifier_solana.Gateway.Env.{Env}
use axelar_amplifier_solana.Gateway.Program.{Run, empty_store}
use axelar_amplifier_solana.Gateway.State.{
  Chain, GatewayConfig, Store, VerifierSetTracker, assert_valid_epoch, is_ok,
}
use axelar_amplifier_solana.Gateway.Messages.{ApproveMessageAccounts}
use axelar_amplifier_solana.Gateway.Rotation.Effect.{rotate_signers_sound}
use axelar_amplifier_solana.Gateway.Messages.Effect.{approve_message_sound}
use axelar_amplifier_solana.Gateway.Program.Provenance.{
  Run-HaveHistories, SessionAddresses, Signed, Signed-valid,
}
use axelar_amplifier_solana.Prelude.{List, [], ok, some, true, ℕ, ◌∷◌, ◌≡◌}

module _ (env : Env) (laws : RuntimeLaws env.rt) (bits : BitViewLaws env.bit_view)
    (inj : SessionAddresses env) where
  -- In a store reached from the empty one, `approve_message` succeeds only for a leaf of a payload
  -- root that verifiers have signed as messages to approve: their signatures are genuine, are from
  -- distinct positions of one verifier set, and their weights have met the quorum that they name.
  pub approve_message-Signed :
      (st st' : Store) (accounts : ApproveMessageAccounts) (m : MerklizedMessage) (root : ℕ)
      → Run env empty_store st
      → Messages.approve_message env st accounts m root ≡ ok st'
      → (set_hash : ℕ) × (proof : List ℕ) × Signed env root 0 set_hash
        × (env.merkle.proof_from_bytes m.proof ≡ some proof)
        × (env.merkle.verify
              (concat_and_hash env.rt)
              proof
              root
              (m.leaf.position ∷ [])
              (hash_message_leaf env.rt env.digest m.leaf ∷ [])
              m.leaf.set_size
            ≡ true)
  approve_message-Signed st st' accounts m root r h =
      let f = approve_message_sound env st accounts m root st' h in
      let past =
        Run-HaveHistories env laws inj r accounts.verification_session_account f.session
          f.session_at in
      (
        f.session.signature_verification.signing_verifier_set_hash,
        f.proof,
        Signed-valid env bits inj accounts.verification_session_account root 0 f.session
            f.session_seeded f.session_valid past,
        f.proof_parses,
        f.leaf_in_payload,
      )

  -- In a store reached from the empty one, `rotate_signers` succeeds only for a verifier set that the
  -- verifiers of a set that is tracked and has not expired have signed as a rotation, by a quorum of
  -- distinct, genuine signatures.
  pub rotate_signers-Signed :
      (chain : Chain) (st st' : Store) (accounts : RotateSignersAccounts) (root : ℕ)
      → Run env empty_store st
      → Rotation.rotate_signers env chain st accounts root ≡ ok st'
      → (config : GatewayConfig) × (tracker : VerifierSetTracker) × (st.config
            accounts.gateway_root_pda
          ≡ some config)
        × (st.trackers accounts.verifier_set_tracker_pda ≡ some tracker)
        × (is_ok (assert_valid_epoch env config tracker.epoch) ≡ true)
        × Signed env root 1 tracker.verifier_set_hash
  rotate_signers-Signed chain st st' accounts root r h =
      let f = rotate_signers_sound env chain st accounts root st' h in
      let past =
        Run-HaveHistories env laws inj r accounts.verification_session_account f.session
          f.session_at in
      (
        f.config,
        f.tracker,
        f.config_at,
        f.tracker_at,
        f.not_expired,
        rw f.same_set (
            Signed-valid env bits inj accounts.verification_session_account root 1 f.session
              f.session_seeded f.session_valid past),
      )
