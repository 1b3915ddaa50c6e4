-- ===== src/Its/Authority/Transfer.antt =====
-- What becomes of the roles when one is transferred: transfer_operatorship.rs,
-- transfer_token_manager_operatorship.rs and transfer_interchain_token_mintership.rs of
-- programs/solana-axelar-its/src/instructions.
use axelar_amplifier_solana.Its.Flow.{missing_minter_role, missing_operator_role, ItsError}
use axelar_amplifier_solana.Its.Authority.{
  transfer_interchain_token_mintership, transfer_operatorship, transfer_token_manager_operatorship,
  TransferRoleAccounts, transfer_role,
}
use axelar_amplifier_solana.Its.State.{roles_bump, ItsEnv, ItsStore, write_or_close}
use axelar_amplifier_solana.Its.Roles.{remove, UserRoles, contains, insert}
use axelar_amplifier_solana.Its.Roles.Laws.{
  minter_of, operator_of, Role, has_role, has_role_changed, has_role-none, mask,
}
use axelar_amplifier_solana.Its.Authority.Effect.{
  ByHolder, load_roles-ByHolder, init_roles_if_needed_sound, load_roles_sound, transfer_role_sound,
  FoundRoles, holds, role_at, same_role,
}
use axelar_amplifier_solana.Prelude.{
  ==_iff, Bool-cases, ap, inl, inr, refl, ◌∙◌, Bool, Map, arith, if◌then◌else◌, not, ok, some, ℕ,
  ◌&&◌, ◌==◌, ◌||◌, ◌≡◌,
}

-- The roles after a transfer of the role `p`, by the account and the role.
abbrev pub after_transfer : (ℕ → Role → Bool) → ℕ → ℕ → Role → ℕ → Role → Bool
after_transfer before origin destination p address q =
    if address == destination
    then same_role p q || before address q
    else (if address == origin then not (same_role p q) && before address q else before address q)

pub holds-given :
    (r : UserRoles) (b : ℕ) (p q : Role)
    → holds (some (record (insert r (mask p)) { bump = b })) q ≡ same_role p q || has_role r q
unfolding contains
holds-given r b p q = unfold contains in (has_role_changed r p q).0

pub holds-write_or_close :
    (m : Map UserRoles) (k address : ℕ) (r : UserRoles) (q : Role)
    → holds (write_or_close m k r address) q
      ≡ (if address == k then has_role r q else holds (m address) q)
holds-write_or_close m k address r q = let n = has_role-none r q in ground arith

module _ (env : ItsEnv) where
  pub holds-found :
      (st : ItsStore) (address resource user : ℕ) (r : UserRoles) (q : Role)
      → FoundRoles env st address resource user r
      → has_role r q ≡ role_at st address q
  holds-found st address resource user r q f = elim (f.there_or_fresh) [
    | inl at ↦ rw at refl
    | inr (absent, fresh) ↦
        rw (fresh, absent) (has_role-none (record { roles = 0; bump = 0 }) q refl)
  ]

  -- A transfer of a role between two accounts takes it from the first and gives it to the second;
  -- every other role of these two, and all the roles of the other accounts, are as they were.
  pub transfer_role-role_at :
      (st : ItsStore) (a : TransferRoleAccounts) (resource : ℕ) (p : Role) (missing : ItsError)
      (st' : ItsStore) (address : ℕ) (q : Role)
      → transfer_role env st a resource (mask p) missing ≡ ok st'
      → role_at st' address q
        ≡ after_transfer (role_at st) a.origin_roles_account a.destination_roles_account p address q
  transfer_role-role_at st a resource p missing st' address q h =
      let f = transfer_role_sound env st a resource (mask p) missing st' h in
      let o =
        load_roles_sound env st a.origin_roles_account resource a.origin_user_account (mask p)
          missing f.origin_roles f.origin_loaded in
      let at : st.user_roles a.origin_roles_account ≡ some (f.origin_roles) = o.0 in
      let d =
        holds-found st a.destination_roles_account resource a.destination_user_account
          f.destination_roles q
          (init_roles_if_needed_sound env st a.destination_roles_account resource
            a.destination_user_account f.destination_roles f.destination_loaded) in
      let given =
        holds-given f.destination_roles (roles_bump env resource a.destination_user_account) p q in
      let taken = (has_role_changed f.origin_roles p q).1 in
      let closed =
        holds-write_or_close st.user_roles a.origin_roles_account address
          (remove f.origin_roles (mask p)) q in
      elim (Bool-cases (address == a.destination_roles_account)) [
        | inl same ↦
            let e : address ≡ a.destination_roles_account = (==_iff _ _).0 same in
            rw (f.written, same) (given ∙ ap (λ (b : Bool). same_role p q || b) (d ∙ rw e refl))
        | inr other ↦
            rw (f.written, other)
              (closed ∙ elim (Bool-cases (address == a.origin_roles_account)) [
                | inl same ↦
                    let e : address ≡ a.origin_roles_account = (==_iff _ _).0 same in
                    rw same (rw (e, at) taken)
                | inr apart_too ↦ rw apart_too refl
              ])
      ]

-- An instruction that transfers a role, with the role.
pub data Transferred (env : ItsEnv) (st : ItsStore) (a : TransferRoleAccounts) (st' : ItsStore)
    : Role → Type 0 where
  operatorship :
      (p : Role) (resource_account : ℕ)
      → p ≡ operator_of
      → transfer_operatorship env st a resource_account ≡ ok st'
      → Transferred env st a st' p
  token_manager_operatorship :
      (p : Role) (its_root_pda token_manager_account : ℕ)
      → p ≡ operator_of
      → transfer_token_manager_operatorship env st a its_root_pda token_manager_account ≡ ok st'
      → Transferred env st a st' p
  mintership :
      (p : Role) (its_root_pda token_manager_account : ℕ)
      → p ≡ minter_of
      → transfer_interchain_token_mintership env st a its_root_pda token_manager_account ≡ ok st'
      → Transferred env st a st' p

-- The transfer that an instruction makes, and the resource of the role.
pub record MadeTransfer (env : ItsEnv) (st : ItsStore) (a : TransferRoleAccounts) (st' : ItsStore)
    (p : Role) : Type 0 where
  pub resource : ℕ
  pub missing : ItsError
  pub made : transfer_role env st a resource (mask p) missing ≡ ok st'

pub Transferred-made :
    (env : ItsEnv) (st : ItsStore) (a : TransferRoleAccounts) (st' : ItsStore) (p : Role)
    → Transferred env st a st' p
    → MadeTransfer env st a st' p
unfolding transfer_operatorship transfer_token_manager_operatorship
    transfer_interchain_token_mintership
Transferred-made env st a st' _ (operatorship p r e h) = record {
  resource = r;
  missing = missing_operator_role;
  made = rw e (ground arith);
}
Transferred-made env st a st' _ (token_manager_operatorship p i r e h) = record {
  resource = r;
  missing = missing_operator_role;
  made = rw e (ground arith);
}
Transferred-made env st a st' _ (mintership p i r e h) = record {
  resource = r;
  missing = missing_minter_role;
  made = rw e (ground arith);
}

-- If an instruction transfers a role, the user who has it on a resource signs; it is taken from this
-- user's account and given to the destination's, and every other role of these two and all the roles
-- of the other accounts are as they were.
pub Transferred-role_at :
    (env : ItsEnv) (st : ItsStore) (a : TransferRoleAccounts) (st' : ItsStore) (p : Role)
    (address : ℕ) (q : Role)
    → Transferred env st a st' p
    → (resource : ℕ) × ByHolder env st a.origin_roles_account resource a.origin_user_account
        a.origin_is_signer
        (mask p)
      × (role_at st' address q
          ≡ after_transfer
              (role_at st)
              a.origin_roles_account
              a.destination_roles_account
              p
              address
              q)
Transferred-role_at env st a st' p address q t =
    let m = Transferred-made env st a st' p t in
    let f = transfer_role_sound env st a m.resource (mask p) m.missing st' m.made in
    (
      m.resource,
      load_roles-ByHolder env st a.origin_roles_account m.resource a.origin_user_account
          a.origin_is_signer (mask p) m.missing f.origin_roles f.origin_loaded f.origin_signs,
      transfer_role-role_at env st a m.resource p m.missing st' address q m.made,
    )
