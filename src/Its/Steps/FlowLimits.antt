-- ===== src/Its/Steps/FlowLimits.antt =====
-- Who changes the flow limits (programs/solana-axelar-its/src/instructions).
use axelar_amplifier_solana.Its.Flow.{missing_flow_limiter_role, missing_operator_role}
use axelar_amplifier_solana.Its.Chains.{InterchainTokenService}
use axelar_amplifier_solana.Its.Authority.{TransferRoleAccounts}
use axelar_amplifier_solana.Its.Limits.{with_flow_limit}
use axelar_amplifier_solana.Its.State.{ItsEnv, ItsStore, TokenManager, load_service}
use axelar_amplifier_solana.Its.Steps.{
  ItsStep, chain_removed, chain_set, limit_set, limiter_added, limiter_removed, manager_limit_set,
  pause_status_set, role_transferred, service_initialized,
}
use axelar_amplifier_solana.Its.Roles.{flow_limiter_role, operator_role}
use axelar_amplifier_solana.Its.Admin.Effect.{
  initialize_sound, remove_trusted_chain_keeps, set_pause_status_keeps, set_trusted_chain_keeps,
}
use axelar_amplifier_solana.Its.Roles.Laws.{Role, mask}
use axelar_amplifier_solana.Its.Authority.Effect.{
  ByHolder, add_token_manager_flow_limiter_sound, load_roles-ByHolder,
  remove_token_manager_flow_limiter_sound, transfer_role_sound,
}
use axelar_amplifier_solana.Its.Authority.Transfer.{Transferred, Transferred-made}
use axelar_amplifier_solana.Its.Limits.Effect.{
  load_manager_sound, set_flow_limit_sound, set_token_manager_flow_limit_sound,
}
use axelar_amplifier_solana.Prelude.{
  ==_iff, Bool-cases, Option, inl, inr, ok, refl, some, some_inj, sym, update, ℕ, ◌==◌, ◌∙◌, ◌≡◌,
}

-- The instruction sets the flow limit of a token manager, and its operator, who is one of the service,
-- or its flow limiter, who is one of the token manager, signs.
abbrev pub SetsLimit :
    (env : ItsEnv) (st st' : ItsStore) → ItsStep env st st' → ℕ → Option ℕ → Type 0
SetsLimit env st st' (limit_set a l h) address flow_limit =
    (a.token_manager_pda ≡ address)
    × (l ≡ flow_limit)
    × ((its : InterchainTokenService) × (load_service env st a.its_root_pda ≡ ok its))
    × ByHolder env st a.its_roles_pda a.its_root_pda a.operator a.operator_is_signer operator_role
SetsLimit env st st' (manager_limit_set a l h) address flow_limit =
    (a.token_manager_pda ≡ address)
    × (l ≡ flow_limit)
    × ByHolder env st a.flow_limiter_roles_pda a.token_manager_pda a.flow_limiter
        a.flow_limiter_is_signer flow_limiter_role
SetsLimit env st st' (service_initialized a n i h) address flow_limit = ⊥
SetsLimit env st st' (pause_status_set a s h) address flow_limit = ⊥
SetsLimit env st st' (chain_set a c h) address flow_limit = ⊥
SetsLimit env st st' (chain_removed a c h) address flow_limit = ⊥
SetsLimit env st st' (role_transferred a p t) address flow_limit = ⊥
SetsLimit env st st' (limiter_added a h) address flow_limit = ⊥
SetsLimit env st st' (limiter_removed a h) address flow_limit = ⊥

-- A token manager after an instruction.
pub data Kept (env : ItsEnv) (st st' : ItsStore) (s : ItsStep env st st') (address : ℕ)
    (manager manager' : TokenManager) : Type 0 where
  as_it_was : manager' ≡ manager → Kept env st st' s address manager manager'
  limited :
      (flow_limit : Option ℕ)
      → manager' ≡ with_flow_limit manager flow_limit
      → SetsLimit env st st' s address flow_limit
      → Kept env st st' s address manager manager'

module _ (env : ItsEnv) (st st' : ItsStore) (address : ℕ) (manager : TokenManager) where
  abbrev After : ItsStep env st st' → Type 0
  After s =
      (manager' : TokenManager) × (st'.managers address ≡ some manager')
      × Kept env st st' s address manager manager'

  same-After :
      (s : ItsStep env st st')
      → st'.managers ≡ st.managers
      → st.managers address ≡ some manager
      → After s
  same-After s same at = (manager, rw same at, as_it_was refl)

  limit-After :
      (s : ItsStep env st st') (k : ℕ) (flow_limit : Option ℕ) (t : TokenManager)
      → st.managers k ≡ some t
      → st'.managers ≡ update st.managers k (with_flow_limit t flow_limit)
      → (k ≡ address → SetsLimit env st st' s address flow_limit)
      → st.managers address ≡ some manager
      → After s
  limit-After s k flow_limit t t_at written by at = elim (Bool-cases (address == k)) [
    | inl same ↦
        let e : address ≡ k = (==_iff _ _).0 same in
        let same_manager : t ≡ manager = some_inj _ _ (sym t_at ∙ (rw e at at)) in
        (
          with_flow_limit t flow_limit,
          rw (written, same) refl,
          limited flow_limit (rw same_manager refl) (by (sym e)),
        )
    | inr other ↦ (manager, rw (written, other) at, as_it_was refl)
  ]

  Transferred-After :
      (a : TransferRoleAccounts) (p : Role) (t : Transferred env st a st' p)
      → st.managers address ≡ some manager
      → After (role_transferred a p t)
  Transferred-After a p t =
      let m = Transferred-made env st a st' p t in
      same-After (role_transferred a p t)
        (transfer_role_sound env st a m.resource (mask p) m.missing st' m.made).managers_kept

  -- An instruction on the configuration, the roles or the limits leaves a token manager as it was, but
  -- for its flow limit, which changes only if the instruction sets it for this token manager, and the
  -- user whom it names as an operator of the service, or as a flow limiter of the token manager, is one
  -- and signs.
  pub ItsStep-Kept :
      (s : ItsStep env st st')
      → st.managers address ≡ some manager
      → (manager' : TokenManager) × (st'.managers address ≡ some manager')
        × Kept env st st' s address manager manager'
  ItsStep-Kept (service_initialized a n i h) =
      same-After (service_initialized a n i h) (initialize_sound env st a n i st' h).managers_kept
  ItsStep-Kept (pause_status_set a s h) =
      same-After (pause_status_set a s h) (set_pause_status_keeps env st a s st' h).managers_kept
  ItsStep-Kept (chain_set a c h) =
      same-After (chain_set a c h) (set_trusted_chain_keeps env st a c st' h).managers_kept
  ItsStep-Kept (chain_removed a c h) =
      same-After (chain_removed a c h) (remove_trusted_chain_keeps env st a c st' h).managers_kept
  ItsStep-Kept (role_transferred a p t) = Transferred-After a p t
  ItsStep-Kept (limiter_added a h) =
      same-After (limiter_added a h)
        (add_token_manager_flow_limiter_sound env st a st' h).managers_kept
  ItsStep-Kept (limiter_removed a h) =
      same-After (limiter_removed a h)
        (remove_token_manager_flow_limiter_sound env st a st' h).managers_kept
  ItsStep-Kept (limit_set a l h) =
      let f = set_flow_limit_sound env st a l st' h in
      limit-After (limit_set a l h) a.token_manager_pda l f.manager
        (load_manager_sound env st a.its_root_pda a.token_manager_pda f.manager f.manager_loaded)
        f.written
        (λ e. (
          e,
          refl,
          (f.service, f.service_loaded),
          load_roles-ByHolder env st a.its_roles_pda a.its_root_pda a.operator a.operator_is_signer
              operator_role missing_operator_role f.roles f.roles_loaded f.operator_signs,
        ))
  ItsStep-Kept (manager_limit_set a l h) =
      let f = set_token_manager_flow_limit_sound env st a l st' h in
      limit-After (manager_limit_set a l h) a.token_manager_pda l f.manager
        (load_manager_sound env st a.its_root_pda a.token_manager_pda f.manager f.manager_loaded)
        f.written
        (λ e. (
          e,
          refl,
          load_roles-ByHolder env st a.flow_limiter_roles_pda a.token_manager_pda a.flow_limiter
              a.flow_limiter_is_signer flow_limiter_role missing_flow_limiter_role f.roles
              f.roles_loaded f.limiter_signs,
        ))
