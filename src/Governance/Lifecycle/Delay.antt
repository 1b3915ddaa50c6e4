-- ===== src/Governance/Lifecycle/Delay.antt =====
-- The delay of the timelock (state/governance_config.rs and state/proposal.rs of
-- programs/solana-axelar-governance/src, and the instructions): in every run, a proposal is executed
-- no earlier than the least delay after its scheduling.
use axelar_amplifier_solana.Governance.Proposals.{as_u64}
use axelar_amplifier_solana.Governance.Lifecycle.{
  received, History, Reached, Step, approval_cancelled, executed_foreign, executed_own,
  operated_foreign, operated_own, start, step, initialized, updated, transferred, scheduled,
  cancelled, operator_approved, withdrawn,
}
use axelar_amplifier_solana.Governance.{ExecuteProposalData, GovEnv, GovernanceConfig, Store}
use axelar_amplifier_solana.Gateway.Executable.{called}
use axelar_amplifier_solana.Governance.Config.Effect.{
  initialize_config_sound, transfer_operatorship_sound, update_config_sound, withdraw_tokens_sound,
}
use axelar_amplifier_solana.Governance.Execution.{
  ExecuteAccounts, ExecuteOperatorAccounts, execute_operator_proposal, execute_proposal,
  execute_proposal_cpi,
}
use axelar_amplifier_solana.Governance.Execution.Effect.{
  execute_operator_proposal_sound, execute_proposal_sound,
}
use axelar_amplifier_solana.Governance.Proposals.Effect.{
  approve_operator_proposal_sound, cancel_operator_proposal_sound, cancel_timelock_proposal_sound,
  schedule_timelock_proposal_sound,
}
use axelar_amplifier_solana.Prelude.{
  List, Map, Option, erase, none_ne_some, ok, ok_inj, refl, some, subst, sym, u64_try_from, update,
  ℕ, ℤ, ◌∙◌, ◌∷◌, ◌≡◌,
}
use axelar_amplifier_solana.Gas.Accounting.{paid}
use axelar_amplifier_solana.Governance.Lifecycle.Timely.{
  Since, Since-later, Timely, Untouched-Timely, erase-AllSince, final_eta_bound, here,
  more-AllSince, same_configs-AllValid, same_proposals-Timely, update-AllSince, update-AllValid,
}

module _ (env : GovEnv) (program_data : Map (Option ℕ)) where
  -- What the call returned, the configuration written back and a proposal gone.
  executed-Timely :
      (past past' : History) (st returned st' : Store) (k a : ℕ) (config : GovernanceConfig)
      → Timely past st
      → Timely past' returned
      → st.configs k ≡ some config
      → st'.configs ≡ update returned.configs k config
      → st'.proposals ≡ erase returned.proposals a
      → Timely past' st'
  executed-Timely past past' st returned st' k a config before t at configs proposals = record {
    valid =
        rw configs (update-AllValid returned.configs k config t.valid (before.valid k config at));
    since = rw proposals (erase-AllSince past' returned.proposals a t.since);
  }

  timelock-Timely :
      (now : ℤ) (past past' : History) (st : Store) (accounts : ExecuteAccounts)
      (remaining_accounts : List ℕ) (p : ExecuteProposalData) (returned st' : Store)
      → execute_proposal env now st accounts remaining_accounts p ≡ ok st'
      → execute_proposal_cpi env st p remaining_accounts accounts.governance_config ≡ ok returned
      → Timely past st
      → Timely past' returned
      → Timely past' st'
  timelock-Timely now past past' st accounts remaining_accounts p returned st' h called before t =
      let f = execute_proposal_sound env now st accounts remaining_accounts p st' h in
      executed-Timely past past' st f.returned st' accounts.governance_config accounts.proposal_pda
        f.config before
        (subst (Timely past') (ok_inj returned f.returned (sym called ∙ f.called)) t) f.config_at
        f.configs_stored f.proposals_stored

  operated-Timely :
      (past past' : History) (st : Store) (accounts : ExecuteOperatorAccounts)
      (remaining_accounts : List ℕ) (p : ExecuteProposalData) (returned st' : Store)
      → execute_operator_proposal env st accounts remaining_accounts p ≡ ok st'
      → execute_proposal_cpi env st p remaining_accounts accounts.governance_config ≡ ok returned
      → Timely past st
      → Timely past' returned
      → Timely past' st'
  operated-Timely past past' st accounts remaining_accounts p returned st' h called before t =
      let f = execute_operator_proposal_sound env st accounts remaining_accounts p st' h in
      executed-Timely past past' st f.returned st' accounts.governance_config accounts.proposal_pda
        f.config before
        (subst (Timely past') (ok_inj returned f.returned (sym called ∙ f.called)) t) f.config_at
        f.configs_stored f.proposals_stored

  -- An instruction keeps the delays of the configurations in range, and every proposal at least an
  -- hour after its scheduling.
  pub Step-Timely :
      (now : ℤ) (past past' : History) (st st' : Store)
      → Step env program_data now past st past' st'
      → Timely past st
      → Timely past' st'
  Step-Timely now _ _ _ _ (initialized past st a params st' e) t =
      let f = initialize_config_sound env program_data st a params st' e in
      same_proposals-Timely past st st' t
        (rw (f.written) (update-AllValid st.configs a.governance_config _ t.valid f.valid_delay))
        f.others_kept.proposals_kept
  Step-Timely now _ _ _ _ (updated past st a changes st' e) t =
      let f = update_config_sound env st a changes st' e in
      same_proposals-Timely past st st' t
        (rw (f.written) (update-AllValid st.configs a.governance_config _ t.valid f.valid_delay))
        f.others_kept.proposals_kept
  Step-Timely now _ _ _ _ (transferred past st a new_operator st' e) t =
      let f = transfer_operatorship_sound env st a new_operator st' e in
      same_proposals-Timely past st st' t
        (rw (f.written) (
          update-AllValid st.configs a.governance_config _ t.valid
            (t.valid a.governance_config f.config f.config_at)))
        f.others_kept.proposals_kept
  Step-Timely now _ _ _ _ (withdrawn past st a amount st' e) t =
      let f = withdraw_tokens_sound env st a amount st' e in
      same_proposals-Timely past st st' t (same_configs-AllValid past st st' t f.configs_kept)
        f.others_kept.proposals_kept
  Step-Timely now _ _ _ _
        (scheduled past st a proposal_hash eta native_value target call_data st' e) t =
      let f =
        schedule_timelock_proposal_sound env now st a proposal_hash eta native_value target
          call_data st' e in
      record {
        valid = same_configs-AllValid past st st' t f.configs_kept;
        since = rw (f.written) (
            update-AllSince ((as_u64 now, a.proposal_pda) ∷ past) st.proposals a.proposal_pda _
              (more-AllSince past st.proposals (as_u64 now, a.proposal_pda) t.since)
              (here (as_u64 now) a.proposal_pda past refl (
                final_eta_bound now f.config eta
                  (t.valid a.governance_config f.config f.by_governance.config_at))));
      }
  Step-Timely now _ _ _ _
        (cancelled past st a proposal_hash eta native_value target call_data st' e) t =
      let f =
        cancel_timelock_proposal_sound env st a proposal_hash eta native_value target call_data st'
          e in
      record {
        valid = same_configs-AllValid past st st' t f.configs_kept;
        since = rw (f.written) (erase-AllSince past st.proposals a.proposal_pda t.since);
      }
  Step-Timely now _ _ _ _
        (operator_approved past st a proposal_hash native_value target call_data st' e) t =
      let f =
        approve_operator_proposal_sound env st a proposal_hash native_value target call_data st'
          e in
      same_proposals-Timely past st st' t (same_configs-AllValid past st st' t f.configs_kept)
        f.proposals_kept
  Step-Timely now _ _ _ _
        (approval_cancelled past st a proposal_hash native_value target call_data st' e) t =
      let f =
        cancel_operator_proposal_sound env st a proposal_hash native_value target call_data st' e in
      same_proposals-Timely past st st' t (same_configs-AllValid past st st' t f.configs_kept)
        f.proposals_kept
  Step-Timely now _ _ _ _ (executed_foreign past st a r p returned st' e c u) t =
      timelock-Timely now past past st a r p returned st' e c t
        (Untouched-Timely past st returned u t)
  Step-Timely now _ _ _ _ (executed_own past st a r p paid past' returned st' e c u s) t =
      timelock-Timely now past past' st a r p returned st' e c t
        (Step-Timely now past past' paid returned s (Untouched-Timely past st paid u t))
  Step-Timely now _ _ _ _ (operated_foreign past st a r p returned st' e c u) t =
      operated-Timely past past st a r p returned st' e c t (Untouched-Timely past st returned u t)
  Step-Timely now _ _ _ _ (operated_own past st a r p paid past' returned st' e c u s) t =
      operated-Timely past past' st a r p returned st' e c t
        (Step-Timely now past past' paid returned s (Untouched-Timely past st paid u t))
  Step-Timely now _ _ _ _ (received past st k config past' returned st' at e s) t =
      let after = Step-Timely now past past' st returned s t in
      subst (Timely past') e (record {
        valid = update-AllValid returned.configs k config after.valid (t.valid k config at);
        since = after.since;
      })

  -- In every run, all configurations have a delay between an hour and a day, and each proposal has a
  -- time that lies at least an hour after one of its schedulings.
  pub Reached-Timely :
      (past : History) (st : Store) → Reached env program_data past st → Timely past st
  Reached-Timely _ _ (start st no_config no_proposal) = record {
    valid = λ a c h. absurd (none_ne_some c (sym (no_config a) ∙ h));
    since = λ a q h. absurd (none_ne_some q (sym (no_proposal a) ∙ h));
  }
  Reached-Timely _ _ (step now past past' st st' r s) =
      Step-Timely now past past' st st' s (Reached-Timely past st r)

  -- In every run, if the execution of a proposal succeeds at a time, that proposal was scheduled at
  -- least an hour before that time.
  pub execute_proposal-Since :
      (now : ℤ) (past : History) (st : Store) (accounts : ExecuteAccounts)
      (remaining_accounts : List ℕ) (p : ExecuteProposalData) (st' : Store)
      → Reached env program_data past st
      → execute_proposal env now st accounts remaining_accounts p ≡ ok st'
      → (timestamp : ℕ) × (u64_try_from now ≡ some timestamp)
        × Since accounts.proposal_pda timestamp past
  execute_proposal-Since now past st accounts remaining_accounts p st' r h =
      let f = execute_proposal_sound env now st accounts remaining_accounts p st' h in
      let t = Reached-Timely past st r in
      (
        f.timestamp,
        f.time_valid,
        Since-later accounts.proposal_pda f.proposal.eta f.timestamp past
            (t.since accounts.proposal_pda f.proposal f.proposal_at) f.ready,
      )
