-- ===== src/Gateway/Program/Rotations.antt =====
-- The epochs over whole runs: every rotation opens the next epoch, and no epoch has two verifier sets.
use axelar_amplifier_solana.Std.U256.{checked_add}
use axelar_amplifier_solana.Gateway.Rotation
use axelar_amplifier_solana.Std.U256.{BnumLaws, IsU256, U256, one_const, to_ℕ}
use axelar_amplifier_solana.Std.U256.Laws.{checked_add_exact, from_u64-one, u256_eq→eq}
use axelar_amplifier_solana.Gateway.Rotation.{
  RotateSignersAccounts, enforce_rotation_delay, rotated_config,
}
use axelar_amplifier_solana.Gateway.Env.{Env}
use axelar_amplifier_solana.Gateway.Program.{Instruction, Run, empty_store, execute, here, step}
use axelar_amplifier_solana.Gateway.State.{
  Chain, GatewayConfig, Store, VerifierSetTracker, config_seeds, is_free, tracker_of, tracker_seeds,
}
use axelar_amplifier_solana.Gateway.Rotation.Effect.{rotate_signers_sound}
use axelar_amplifier_solana.Gateway.Config.Effect.{
  call_contract_sound, initialize_config_sound, transfer_operatorship_sound,
}
use axelar_amplifier_solana.Gateway.Verification.Effect.{initiate_sound, verify_signature_sound}
use axelar_amplifier_solana.Gateway.Messages.Effect.{approve_message_sound, validate_message_sound}
use axelar_amplifier_solana.Gateway.Program.Epochs.{
  Epochs-config, Epochs-empty, Epochs-tracker, Epochs,
}
use axelar_amplifier_solana.Prelude.{
  Bool, Option, Bool-cases, ap, arith, false, inl, inr, none, ok, refl, some, sym, true,
  u64_try_from, update_self, ℕ, ◌+◌, ◌∙◌, ◌≡◌, ◌≤◌, ◌⊎◌,
}
use axelar_amplifier_solana.Operators.Access.{root}

module _ (env : Env) (laws : BnumLaws env.bnum) where
  abbrev root_address : ℕ
  root_address = (env.rt.find_program_address config_seeds env.id).0

  free_config : (st : Store) (a : ℕ) → is_free st a ≡ true → st.config a ≡ none
  free_config st a h = ground arith

  next_epoch :
      (x z : U256)
      → IsU256 x
      → checked_add env.bnum x one_const ≡ some z
      → IsU256 z × (to_ℕ z ≡ to_ℕ x + 1)
  next_epoch x z hx h =
      let (word, value) = checked_add_exact env.bnum x one_const z laws hx from_u64-one.0 h in
      (word, value ∙ ap (λ (k : ℕ). to_ℕ x + k) from_u64-one.1)

  execute-Epochs :
      (chain : Chain) (instruction : Instruction) (st st' : Store)
      → execute env chain st instruction ≡ ok st'
      → Epochs root_address st.config st.trackers
      → Epochs root_address st'.config st'.trackers
  unfolding execute
  execute-Epochs chain (Instruction.initialize_config accounts params) st st' h p =
      let f = initialize_config_sound env chain st accounts params st' h in
      let absent : st.config root_address ≡ none =
        rw f.config_found (free_config st accounts.gateway_root_pda f.config_free) in
      rw (f.config_stored, f.tracker_stored)
        (Epochs-tracker root_address st.config st.trackers accounts.gateway_root_pda
          accounts.verifier_set_tracker_pda _ _ p (sym f.config_found)
          (λ b t e. absurd (p.no_config absent b t e)) from_u64-one.0 refl)
  execute-Epochs chain
        (Instruction.initialize_payload_verification_session accounts root payload_type) st st' h
        p =
      let f = initiate_sound env st accounts root payload_type st' h in
      rw (f.config_same, f.trackers_same) p
  execute-Epochs chain (Instruction.verify_signature accounts root info) st st' h p =
      let f = verify_signature_sound env st accounts root info st' h in
      rw (f.config_same, f.trackers_same) p
  execute-Epochs chain (Instruction.approve_message accounts m root) st st' h p =
      let f = approve_message_sound env st accounts m root st' h in
      rw (f.config_same, f.trackers_same) p
  execute-Epochs chain (Instruction.validate_message accounts m) st st' h p =
      let f = validate_message_sound env st accounts m st' h in
      rw (f.config_same, f.trackers_same) p
  execute-Epochs chain (Instruction.rotate_signers accounts root) st st' h p =
      let f = rotate_signers_sound env chain st accounts root st' h in
      let at_root = p.config_at accounts.gateway_root_pda f.config f.config_at in
      let found : st.config root_address ≡ some f.config = rw (← at_root) f.config_at in
      let (word, value) =
        next_epoch f.config.current_epoch f.epoch (p.current_word f.config found) f.next_epoch in
      rw (f.config_stored, f.tracker_stored)
        (Epochs-tracker root_address st.config st.trackers accounts.gateway_root_pda
          accounts.new_verifier_set_tracker (rotated_config f.config f.now f.epoch) _ p at_root
          (λ b t e. omega (arith, p.bounded f.config b t found e)) word refl)
  execute-Epochs chain (Instruction.transfer_operatorship accounts) st st' h p =
      let f = transfer_operatorship_sound env chain st accounts st' h in
      rw (f.config_stored, f.trackers_same)
        (Epochs-config root_address st.config st.trackers accounts.gateway_root_pda f.config _ p
          f.config_at refl)
  execute-Epochs chain (Instruction.call_contract accounts destination_chain address payload bump)
        st st' h p =
      rw
        (call_contract_sound env st accounts destination_chain address payload bump st' h).unchanged
        p

  -- In every store reached from the empty one there is at most one configuration, no tracker is ahead
  -- of its epoch, and no two trackers have the same epoch.
  pub Run-Epochs :
      {st : Store}
      → Run env empty_store st
      → Epochs (env.rt.find_program_address config_seeds env.id).0 st.config st.trackers
  Run-Epochs here = Epochs-empty root_address
  Run-Epochs (step {st'} {st''} r chain instruction typed e) =
      execute-Epochs chain instruction st' st'' e (Run-Epochs r)

  -- The delay is not enforced only for the operator of the gateway, who signs.
  operator_signs :
      (operator : Option (ℕ × Bool)) (config : GatewayConfig)
      → enforce_rotation_delay operator config ≡ false
      → operator ≡ some (config.operator, true)
  unfolding enforce_rotation_delay
  operator_signs none config h = cc
  operator_signs (some (key, is_signer)) config h = ground arith

  -- A rotation in a reachable store moves the current epoch up by one, records the time, and
  -- tracks the new set under the new epoch. Unless the operator of the configuration is given and
  -- signs, the signing set was the latest one and the minimum delay since the last rotation has
  -- passed.
  pub rotate_signers_epoch :
      (chain : Chain) (st st' : Store) (accounts : RotateSignersAccounts) (root : ℕ)
      → Run env empty_store st
      → Rotation.rotate_signers env chain st accounts root ≡ ok st'
      → (config config' : GatewayConfig) × (tracker tracker' : VerifierSetTracker) × (st.config
            accounts.gateway_root_pda
          ≡ some config)
        × (st'.config accounts.gateway_root_pda ≡ some config')
        × (st.trackers accounts.verifier_set_tracker_pda ≡ some tracker)
        × (st'.trackers accounts.new_verifier_set_tracker ≡ some tracker')
        × (to_ℕ config'.current_epoch ≡ to_ℕ config.current_epoch + 1)
        × (tracker'.epoch ≡ config'.current_epoch)
        × (tracker'.verifier_set_hash ≡ root)
        × (u64_try_from chain.unix_timestamp ≡ some config'.last_rotation_timestamp)
        × ((accounts.operator ≡ some (config.operator, true))
            ⊎ ((tracker.epoch ≡ config.current_epoch)
                × (config.last_rotation_timestamp + config.minimum_rotation_delay
                    ≤ config'.last_rotation_timestamp)))
  rotate_signers_epoch chain st st' accounts root r h =
      let f = rotate_signers_sound env chain st accounts root st' h in
      let p = Run-Epochs r in
      let at_root = p.config_at accounts.gateway_root_pda f.config f.config_at in
      let found : st.config root_address ≡ some f.config = rw (← at_root) f.config_at in
      let new =
        tracker_of (env.rt.find_program_address (tracker_seeds root) env.id).1 f.epoch root in
      (
        f.config,
        rotated_config f.config f.now f.epoch,
        f.tracker,
        new,
        f.config_at,
        rw f.config_stored (update_self st.config accounts.gateway_root_pda _),
        f.tracker_at,
        rw f.tracker_stored (update_self st.trackers accounts.new_verifier_set_tracker _),
        (next_epoch f.config.current_epoch f.epoch (p.current_word f.config found) f.next_epoch).1,
        refl,
        refl,
        f.clock,
        elim (Bool-cases (enforce_rotation_delay accounts.operator f.config)) [
          | inl enforced ↦ inr (
            sym (u256_eq→eq f.config.current_epoch f.tracker.epoch (f.latest enforced)),
            f.cooled enforced,
          )
          | inr free ↦ inl (operator_signs accounts.operator f.config free)
        ],
      )
