-- ===== src/Governance/Lifecycle/Timely.antt =====
-- A store in which every proposal has waited (state/governance_config.rs and state/proposal.rs of
-- programs/solana-axelar-governance/src), and what keeps it so.
use axelar_amplifier_solana.Governance.{ExecutableProposal, is_valid_delay, GovernanceConfig, Store}
use axelar_amplifier_solana.Governance.Lifecycle.{History, Untouched}
use axelar_amplifier_solana.Governance.Proposals.{as_u64}
use axelar_amplifier_solana.Governance.Proposals.Effect.{final_eta}
use axelar_amplifier_solana.Prelude.{
  Map, arith, erase, inl, inr, some, sym, true, update, update-cases, ℕ, ℤ, ◌+◌, ◌∷◌, ◌≡◌, ◌≤◌,
}

-- `VALID_PROPOSAL_DELAY_RANGE.start()`
abbrev pub least_delay : ℕ
least_delay = 3600

-- The account was scheduled at a time that lies the least delay before `time`.
pub data Since (address time : ℕ) : History → Type 0 where
  here :
      (at key : ℕ) (past : History)
      → key ≡ address
      → at + least_delay ≤ time
      → Since address time ((at, key) ∷ past)
  there :
      (entry : ℕ × ℕ) (past : History) → Since address time past → Since address time (entry ∷ past)

abbrev pub AllValid : Map GovernanceConfig → Type 0
AllValid configs =
    (a : ℕ) (c : GovernanceConfig)
    → configs a ≡ some c
    → is_valid_delay c.minimum_proposal_eta_delay ≡ true

abbrev pub AllSince : History → Map ExecutableProposal → Type 0
AllSince past proposals =
    (a : ℕ) (q : ExecutableProposal) → proposals a ≡ some q → Since a q.eta past

-- The configurations have a delay in range, and each proposal was scheduled before its time.
pub record Timely (past : History) (st : Store) : Type 0 where
  pub valid : AllValid st.configs
  pub since : AllSince past st.proposals

pub Since-later :
    (address time later : ℕ) (past : History)
    → Since address time past
    → time ≤ later
    → Since address later past
Since-later address time later _ (here at key past same before) h =
    here at key past same (omega arith)
Since-later address time later _ (there entry past s) h =
    there entry past (Since-later address time later past s h)

pub update-AllValid :
    (configs : Map GovernanceConfig) (k : ℕ) (c : GovernanceConfig)
    → AllValid configs
    → is_valid_delay c.minimum_proposal_eta_delay ≡ true
    → AllValid (update configs k c)
update-AllValid configs k c all valid a d h = elim (update-cases configs k a c h) [
  | inl (same, e) ↦ rw (sym e) valid
  | inr old ↦ all a d old
]

pub erase-AllSince :
    (past : History) (proposals : Map ExecutableProposal) (k : ℕ)
    → AllSince past proposals
    → AllSince past (erase proposals k)
erase-AllSince past proposals k all a q h = all a q (ground arith)

pub update-AllSince :
    (past : History) (proposals : Map ExecutableProposal) (k : ℕ) (q : ExecutableProposal)
    → AllSince past proposals
    → Since k q.eta past
    → AllSince past (update proposals k q)
update-AllSince past proposals k q all since a r h = elim (update-cases proposals k a q h) [
  | inl (same, e) ↦ rw (same, sym e) since
  | inr old ↦ all a r old
]

pub more-AllSince :
    (past : History) (proposals : Map ExecutableProposal) (entry : ℕ × ℕ)
    → AllSince past proposals
    → AllSince (entry ∷ past) proposals
more-AllSince past proposals entry all a q h = there entry past (all a q h)

pub same_proposals-Timely :
    (past : History) (st st' : Store)
    → Timely past st
    → AllValid st'.configs
    → st'.proposals ≡ st.proposals
    → Timely past st'
same_proposals-Timely past st st' t valid same = record { valid = valid; since = rw same (t.since) }

pub same_configs-AllValid :
    (past : History) (st st' : Store)
    → Timely past st
    → st'.configs ≡ st.configs
    → AllValid st'.configs
same_configs-AllValid past st st' t same = rw same (t.valid)

pub Untouched-Timely :
    (past : History) (st st' : Store) → Untouched st st' → Timely past st → Timely past st'
Untouched-Timely past st st' u t =
    same_proposals-Timely past st st' t (same_configs-AllValid past st st' t u.configs_kept)
      u.proposals_kept

pub final_eta_bound :
    (now : ℤ) (config : GovernanceConfig) (eta : ℕ)
    → is_valid_delay config.minimum_proposal_eta_delay ≡ true
    → as_u64 now + least_delay ≤ final_eta now config eta
final_eta_bound now config eta h = ground arith
