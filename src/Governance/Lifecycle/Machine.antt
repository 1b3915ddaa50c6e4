-- ===== src/Governance/Lifecycle/Machine.antt =====
-- What becomes of a proposal (state/proposal.rs and the instructions of
-- programs/solana-axelar-governance/src): the machine that every instruction drives.
use axelar_amplifier_solana.Governance.Lifecycle.Removal.{
  ByOperator, ByTime, ByCancellation, Removes,
}
use axelar_amplifier_solana.Governance.{ExecutableProposal, ExecuteProposalData, GovEnv, Store}
use axelar_amplifier_solana.Governance.Lifecycle.{
  received, History, Step, approval_cancelled, executed_foreign, executed_own, operated_foreign,
  operated_own, initialized, updated, transferred, scheduled, cancelled, operator_approved,
  withdrawn,
}
use axelar_amplifier_solana.Governance.Proposals.{as_u64}
use axelar_amplifier_solana.Governance.Config.Effect.{
  initialize_config_sound, transfer_operatorship_sound, update_config_sound, withdraw_tokens_sound,
}
use axelar_amplifier_solana.Governance.Execution.{
  ExecuteAccounts, ExecuteOperatorAccounts, execute_operator_proposal, execute_proposal,
  execute_proposal_cpi,
}
use axelar_amplifier_solana.Governance.Execution.Effect.{
  execute_operator_proposal_sound, execute_proposal_sound,
}
use axelar_amplifier_solana.Governance.Lifecycle.Timely.{
  Timely, Untouched-Timely, final_eta_bound, least_delay,
}
use axelar_amplifier_solana.Governance.Proposals.Effect.{
  scheduled_proposal, approve_operator_proposal_sound, cancel_operator_proposal_sound,
  cancel_timelock_proposal_sound, schedule_timelock_proposal_sound,
}
use axelar_amplifier_solana.Prelude.{
  ◌⊎◌, ==_iff, Bool-cases, List, Map, Option, erase, inl, inr, none, ok, ok_inj, refl, some, subst,
  sym, ℕ, ℤ, ◌+◌, ◌==◌, ◌∙◌, ◌≡◌, ◌≤◌,
}

-- The machine of one account: nothing, a proposal that waits, nothing again. No move changes a
-- proposal, and one goes only for a reason.
pub data Move (now : ℤ) (Reason : ExecutableProposal → Type 0)
    (before after : Option ExecutableProposal) : Type 0 where
  stay : after ≡ before → Move now Reason before after
  arm :
      (q : ExecutableProposal)
      → before ≡ none
      → after ≡ some q
      → as_u64 now + least_delay ≤ q.eta
      → Move now Reason before after
  remove :
      (q : ExecutableProposal)
      → before ≡ some q
      → after ≡ none
      → Reason q
      → Move now Reason before after

Move-map :
    (now : ℤ) (R S : ExecutableProposal → Type 0) (before after : Option ExecutableProposal)
    → ((q : ExecutableProposal) → R q → S q)
    → Move now R before after
    → Move now S before after
Move-map now R S before after f (stay e) = stay e
Move-map now R S before after f (arm q b e l) = arm q b e l
Move-map now R S before after f (remove q b e r) = remove q b e (f q r)

module _ (env : GovEnv) (program_data : Map (Option ℕ)) (a : ℕ) (now : ℤ) where
  abbrev Moves : (ExecutableProposal → Type 0) → Store → Store → Type 0
  Moves R st st' = Move now R (st.proposals a) (st'.proposals a)

  same-Moves :
      (R : ExecutableProposal → Type 0) (st st' : Store)
      → st'.proposals ≡ st.proposals
      → Moves R st st'
  same-Moves R st st' same = stay (rw same refl)

  -- A move at the account `k` takes the proposal there away, at the others it is that of the call.
  erase-Moves :
      (R : ExecutableProposal → Type 0) (st returned st' : Store) (k : ℕ) (q : ExecutableProposal)
      → st.proposals k ≡ some q
      → st'.proposals ≡ erase returned.proposals k
      → (k ≡ a → R q)
      → Moves R st returned
      → Moves R st st'
  erase-Moves R st returned st' k q at written why inner = elim (Bool-cases (a == k)) [
    | inl same ↦
        let same' : a ≡ k = (==_iff a k).0 same in
        remove q (rw same' at) (rw (written, same) refl) (why (sym same'))
    | inr other ↦ rw (written, other) inner
  ]

  timelock-Moves :
      (R : ExecutableProposal → Type 0) (st : Store) (accounts : ExecuteAccounts)
      (remaining_accounts : List ℕ) (p : ExecuteProposalData) (returned st' : Store)
      → execute_proposal env now st accounts remaining_accounts p ≡ ok st'
      → execute_proposal_cpi env st p remaining_accounts accounts.governance_config ≡ ok returned
      → ((q : ExecutableProposal) → ByTime now accounts a q → R q)
      → Moves R st returned
      → Moves R st st'
  timelock-Moves R st accounts remaining_accounts p returned st' h call why m =
      let f = execute_proposal_sound env now st accounts remaining_accounts p st' h in
      erase-Moves R st f.returned st' accounts.proposal_pda f.proposal f.proposal_at
        f.proposals_stored
        (λ e. why f.proposal (record {
          executes = e;
          timestamp = f.timestamp;
          time_valid = f.time_valid;
          ready = f.ready;
        }))
        (subst (Moves R st) (ok_inj returned f.returned (sym call ∙ f.called)) m)

  operated-Moves :
      (R : ExecutableProposal → Type 0) (st : Store) (accounts : ExecuteOperatorAccounts)
      (remaining_accounts : List ℕ) (p : ExecuteProposalData) (returned st' : Store)
      → execute_operator_proposal env st accounts remaining_accounts p ≡ ok st'
      → execute_proposal_cpi env st p remaining_accounts accounts.governance_config ≡ ok returned
      → ((q : ExecutableProposal) → ByOperator env st accounts p a q → R q)
      → Moves R st returned
      → Moves R st st'
  operated-Moves R st accounts remaining_accounts p returned st' h call why m =
      let f = execute_operator_proposal_sound env st accounts remaining_accounts p st' h in
      erase-Moves R st f.returned st' accounts.proposal_pda f.proposal f.proposal_at
        f.proposals_stored
        (λ e. why f.proposal (record {
          executes = e;
          config = f.config;
          config_at = f.config_at;
          is_operator = f.is_operator;
          operator_signs = f.operator_signs;
          marker = f.marker;
          marker_at = f.marker_at;
          marker_of_proposal = f.marker_found;
          proposal_of_data = rw e at f.hashed;
        }))
        (subst (Moves R st) (ok_inj returned f.returned (sym call ∙ f.called)) m)

  -- From a store in which the delays are in range and the proposals have waited, every instruction
  -- moves every proposal account by the machine: a proposal is set up only where there is none, for at
  -- least an hour later, never changed, and taken away only by an instruction, or one that its proposal
  -- or its message calls, that names its account and that is a cancellation which names its time and
  -- governance signs, an execution when its time has come, or an execution that the operator signs and
  -- whose data governance has approved.
  pub Step-Moves :
      (past past' : History) (st st' : Store) (s : Step env program_data now past st past' st')
      → Timely past st
      → Move now (Removes env program_data now s a) (st.proposals a) (st'.proposals a)
  Step-Moves _ _ _ _ (initialized past st x params st' e) t =
      same-Moves _ st st'
        (initialize_config_sound env program_data st x params st' e).others_kept.proposals_kept
  Step-Moves _ _ _ _ (updated past st x changes st' e) t =
      same-Moves _ st st' (update_config_sound env st x changes st' e).others_kept.proposals_kept
  Step-Moves _ _ _ _ (transferred past st x new_operator st' e) t =
      same-Moves _ st st'
        (transfer_operatorship_sound env st x new_operator st' e).others_kept.proposals_kept
  Step-Moves _ _ _ _ (withdrawn past st x amount st' e) t =
      same-Moves _ st st' (withdraw_tokens_sound env st x amount st' e).others_kept.proposals_kept
  Step-Moves _ _ _ _ (scheduled past st x proposal_hash eta native_value target call_data st' e) t =
      let f =
        schedule_timelock_proposal_sound env now st x proposal_hash eta native_value target
          call_data st' e in
      elim (Bool-cases (a == x.proposal_pda)) [
        | inl same ↦
            let same' : a ≡ x.proposal_pda = (==_iff _ _).0 same in
            arm (scheduled_proposal env now f.config proposal_hash eta) (rw same' f.no_proposal)
              (rw (f.written, same) refl)
              (final_eta_bound now f.config eta
                (t.valid x.governance_config f.config f.by_governance.config_at))
        | inr other ↦ stay (rw (f.written, other) refl)
      ]
  Step-Moves _ _ _ _ (cancelled past st x proposal_hash eta native_value target call_data st' e) t =
      let f =
        cancel_timelock_proposal_sound env st x proposal_hash eta native_value target call_data st'
          e in
      erase-Moves (ByCancellation env st x eta a) st st st' x.proposal_pda f.proposal f.proposal_at
        f.written
        (λ same. record {
          cancels = same;
          config = f.config;
          by_governance = f.by_governance;
          same_eta = f.same_eta;
        })
        (stay refl)
  Step-Moves _ _ _ _ (operator_approved past st x proposal_hash native_value target call_data st' e)
        t =
      same-Moves _ st st'
        (approve_operator_proposal_sound env st x proposal_hash native_value target call_data st'
          e).proposals_kept
  Step-Moves _ _ _ _
        (approval_cancelled past st x proposal_hash native_value target call_data st' e) t =
      same-Moves _ st st'
        (cancel_operator_proposal_sound env st x proposal_hash native_value target call_data st'
          e).proposals_kept
  Step-Moves _ _ _ _ (executed_foreign past st x r p returned st' e c u) t =
      timelock-Moves (ByTime now x a) st x r p returned st' e c (λ q why. why)
        (same-Moves _ st returned u.proposals_kept)
  Step-Moves _ _ _ _ (executed_own past st x r p before_call past' returned st' e c u s) t =
      timelock-Moves (λ q. ByTime now x a q ⊎ Removes env program_data now s a q) st x r p returned
        st' e c (λ q why. inl why)
        (Move-map now (Removes env program_data now s a)
          (λ q. ByTime now x a q ⊎ Removes env program_data now s a q) (st.proposals a)
          (returned.proposals a) (λ q why. inr why)
          (rw (sym (u.proposals_kept)) (
            Step-Moves past past' before_call returned s
              (Untouched-Timely past st before_call u t))))
  Step-Moves _ _ _ _ (operated_foreign past st x r p returned st' e c u) t =
      operated-Moves (ByOperator env st x p a) st x r p returned st' e c (λ q why. why)
        (same-Moves _ st returned u.proposals_kept)
  Step-Moves _ _ _ _ (operated_own past st x r p before_call past' returned st' e c u s) t =
      operated-Moves (λ q. ByOperator env st x p a q ⊎ Removes env program_data now s a q) st x r p
        returned st' e c (λ q why. inl why)
        (Move-map now (Removes env program_data now s a)
          (λ q. ByOperator env st x p a q ⊎ Removes env program_data now s a q) (st.proposals a)
          (returned.proposals a) (λ q why. inr why)
          (rw (sym (u.proposals_kept)) (
            Step-Moves past past' before_call returned s
              (Untouched-Timely past st before_call u t))))
  Step-Moves _ _ _ _ (received past st k config past' returned st' at e s) t =
      subst (λ (x : Store). Moves (Removes env program_data now s a) st x) e
        (Step-Moves past past' st returned s t)
