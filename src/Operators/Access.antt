-- ===== src/Operators/Access.antt =====
-- What each instruction of the operators program does when it succeeds
-- (programs/solana-axelar-operators/src/instructions).
use axelar_amplifier_solana.Operators.{
  Step, added, initialized, removed, transferred, operator_seeds, InitializeAccounts,
  OperatorAccount, OperatorAccounts, OperatorRegistry, Store, TransferOwnerAccounts, add_operator,
  initialize, registry_seeds, remove_operator, transfer_owner,
}
use axelar_amplifier_solana.Std.Runtime.{Slice, Runtime}
use axelar_amplifier_solana.Prelude.{
  [], ◌++◌, ==_iff, Bool-cases, inl, inr, refl, sym, ◌==◌, ◌⊎◌, Bool, arith, erase, err,
  invalid_account_data, none, ok, program, some, true, update, ℕ, ◌+◌, ◌-◌, ◌∷◌, ◌≡◌,
}

module _ (rt : Runtime) (id : ℕ) where
  abbrev pub root : ℕ
  root = (rt.find_program_address registry_seeds id).0

  -- The owner of the registry, which stands at its address, signed.
  pub record ByOwner (st : Store) (registry owner : ℕ) (owner_is_signer : Bool)
      (r : OperatorRegistry) : Type 0 where
    pub registry_there : st.registries registry ≡ some r
    pub is_owner : owner ≡ r.owner
    pub seeded :
        rt.create_program_address (registry_seeds ++ Slice.byte r.bump ∷ []) id ≡ some registry
    pub owner_signs : owner_is_signer ≡ true

  pub record Initialized (st : Store) (a : InitializeAccounts) (st' : Store) : Type 0 where
    pub at_root : a.registry ≡ root
    pub no_registry : st.registries a.registry ≡ none
    pub written : st' ≡ record st {
      registries = update st.registries a.registry (record {
        owner = a.owner;
        operator_count = 0;
        bump = (rt.find_program_address registry_seeds id).1;
      });
    }

  pub initialize_sound :
      (st : Store) (a : InitializeAccounts) (st' : Store)
      → initialize rt id st a ≡ ok st'
      → Initialized st a st'
  unfolding initialize
  initialize_sound st a st' h = ground arith

  pub record Added (st : Store) (a : OperatorAccounts) (st' : Store) : Type 0 where
    pub registry : OperatorRegistry
    pub by_owner : ByOwner st a.registry a.owner a.owner_is_signer registry
    pub no_operator : st.operators a.operator_account ≡ none
    pub written : st' ≡ record st {
      registries =
          update st.registries a.registry
            (record registry { operator_count = registry.operator_count + 1 });
      operators =
          update st.operators a.operator_account
            (record { bump = (rt.find_program_address (operator_seeds a.operator) id).1 });
    }

  pub add_operator_sound :
      (st : Store) (a : OperatorAccounts) (st' : Store)
      → add_operator rt id st a ≡ ok st'
      → Added st a st'
  unfolding add_operator
  add_operator_sound st a st' h = ground arith

  pub record Removed (st : Store) (a : OperatorAccounts) (st' : Store) : Type 0 where
    pub registry : OperatorRegistry
    pub operator : OperatorAccount
    pub by_owner : ByOwner st a.registry a.owner a.owner_is_signer registry
    pub operator_there : st.operators a.operator_account ≡ some operator
    pub written : st' ≡ record st {
      registries =
          update st.registries a.registry
            (record registry { operator_count = registry.operator_count - 1 });
      operators = erase st.operators a.operator_account;
    }

  pub remove_operator_sound :
      (st : Store) (a : OperatorAccounts) (st' : Store)
      → remove_operator rt id st a ≡ ok st'
      → Removed st a st'
  unfolding remove_operator
  remove_operator_sound st a st' h = ground arith

  pub record Transferred (st : Store) (a : TransferOwnerAccounts) (st' : Store) : Type 0 where
    pub registry : OperatorRegistry
    pub by_owner : ByOwner st a.registry a.owner a.owner_is_signer registry
    pub written : st' ≡ record st {
      registries = update st.registries a.registry (record registry { owner = a.new_owner });
      events = (record { old_owner = a.owner; new_owner = a.new_owner }) ∷ st.events;
    }

  pub transfer_owner_sound :
      (st : Store) (a : TransferOwnerAccounts) (st' : Store)
      → transfer_owner rt id st a ≡ ok st'
      → Transferred st a st'
  unfolding transfer_owner
  transfer_owner_sound st a st' h = ground arith

  -- Removing an operator that has an account.
  pub remove_underflow :
      (st : Store) (a : OperatorAccounts)
      → remove_operator rt id st a ≡ err (program invalid_account_data)
      → (r : OperatorRegistry) × (o : OperatorAccount) × (st.registries a.registry ≡ some r)
        × (st.operators a.operator_account ≡ some o)
        × (r.operator_count ≡ 0)
  unfolding remove_operator
  remove_underflow st a h = ground arith

  -- The instruction adds or removes the operator account at the address, and the owner of the registry
  -- that it names signs it.
  abbrev pub ChangesByOwner : {st st' : Store} → Step rt id st st' → ℕ → Type 0
  ChangesByOwner (initialized a e) address = ⊥
  ChangesByOwner {st} (added a e) address =
      (r : OperatorRegistry) × ByOwner st a.registry a.owner a.owner_is_signer r
      × (a.operator_account ≡ address)
  ChangesByOwner {st} (removed a e) address =
      (r : OperatorRegistry) × ByOwner st a.registry a.owner a.owner_is_signer r
      × (a.operator_account ≡ address)
  ChangesByOwner (transferred a e) address = ⊥

  -- An instruction leaves an operator account as it was, or it is an addition or a removal that names
  -- this account, and the owner of the registry that it names, which stands at the address of the
  -- registry of the program, signs it.
  pub operators-ByOwner :
      (st st' : Store) (address : ℕ) (s : Step rt id st st')
      → (st'.operators address ≡ st.operators address) ⊎ ChangesByOwner s address
  operators-ByOwner st st' address (initialized a e) =
      let f = initialize_sound st a st' e in inl (rw (f.written) refl)
  operators-ByOwner st st' address (added a e) =
      let f = add_operator_sound st a st' e in
      elim (Bool-cases (address == a.operator_account)) [
        | inl same ↦ inr (f.registry, f.by_owner, sym ((==_iff _ _).0 same))
        | inr other ↦ inl (rw (f.written, other) refl)
      ]
  operators-ByOwner st st' address (removed a e) =
      let f = remove_operator_sound st a st' e in
      elim (Bool-cases (address == a.operator_account)) [
        | inl same ↦ inr (f.registry, f.by_owner, sym ((==_iff _ _).0 same))
        | inr other ↦ inl (rw (f.written, other) refl)
      ]
  operators-ByOwner st st' address (transferred a e) =
      let f = transfer_owner_sound st a st' e in inl (rw (f.written) refl)
