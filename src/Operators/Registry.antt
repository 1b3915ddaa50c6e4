-- ===== src/Operators/Registry.antt =====
-- The count that the registry keeps of the operator accounts
-- (`operator_count` in programs/solana-axelar-operators/src).
use axelar_amplifier_solana.Operators.{
  operator_seeds, OperatorAccount, OperatorAccounts, OperatorRegistry, Reached, Step, Store, added,
  empty, initialized, remove_operator, removed, next, transferred,
}
use axelar_amplifier_solana.Std.Runtime.{Runtime}
use axelar_amplifier_solana.Operators.Access.{
  add_operator_sound, initialize_sound, remove_operator_sound, remove_underflow, root,
  transfer_owner_sound,
}
use axelar_amplifier_solana.Operators.Count.{
  Counts-removed, Counts-update, Counts, Counts-erase, nothing,
}
use axelar_amplifier_solana.Prelude.{
  subst, Map, arith, err, inl, inr, invalid_account_data, none, none_ne_some, program, refl, some,
  some_inj, sym, update, update-cases, update_self, ℕ, ◌∙◌, ◌≡◌, ◌≢◌,
}

module _ (rt : Runtime) (id : ℕ) where
  -- There is at most one registry, at its own address; without one there are no operators, and with
  -- one its count is the number of operator accounts.
  pub record IsCounted (registries : Map OperatorRegistry) (operators : Map OperatorAccount)
      : Type 0 where
    pub registry_at : (a : ℕ) (r : OperatorRegistry) → registries a ≡ some r → a ≡ root rt id
    pub no_registry : registries (root rt id) ≡ none → (a : ℕ) → operators a ≡ none
    pub counted :
        (r : OperatorRegistry)
        → registries (root rt id) ≡ some r
        → Counts operators r.operator_count

  abbrev StoreIsCounted : Store → Type 0
  StoreIsCounted st = IsCounted st.registries st.operators

  -- A write of the registry keeps the invariant if its count is right.
  IsCounted-update :
      (registries : Map OperatorRegistry) (operators operators' : Map OperatorAccount) (a : ℕ)
      (r : OperatorRegistry)
      → a ≡ root rt id
      → ((b : ℕ) (r' : OperatorRegistry) → registries b ≡ some r' → b ≡ root rt id)
      → Counts operators' r.operator_count
      → IsCounted (update registries a r) operators'
  IsCounted-update registries operators operators' a r at_root before count = record {
    registry_at = λ b r' e. elim (update-cases registries a b r e) [
      | inl (same, written) ↦ same ∙ at_root
      | inr old ↦ before b r' old
    ];
    no_registry =
        λ e. absurd (none_ne_some r (sym e ∙ rw (← at_root) (update_self registries a r)));
    counted = λ r' e.
        let written : r ≡ r' =
          some_inj r r' (sym (rw (← at_root) (update_self registries a r)) ∙ e) in
        rw (← written) count;
  }

  found_at_root :
      (registries : Map OperatorRegistry) (operators : Map OperatorAccount) (a : ℕ)
      (r : OperatorRegistry)
      → IsCounted registries operators
      → registries a ≡ some r
      → Counts operators r.operator_count
  found_at_root registries operators a r h there =
      let at_root : a ≡ root rt id = h.registry_at a r there in h.counted r (rw (← at_root) there)

  Step-IsCounted : (st st' : Store) → StoreIsCounted st → Step rt id st st' → StoreIsCounted st'
  Step-IsCounted st st' h (initialized a e) =
      let f = initialize_sound rt id st a st' e in
      let at_root : a.registry ≡ root rt id = f.at_root in
      let empty = h.no_registry (rw (← at_root) f.no_registry) in
      rw (f.written) (
        IsCounted-update st.registries st.operators st.operators a.registry _ at_root h.registry_at
          (nothing empty))
  Step-IsCounted st st' h (added a e) =
      let f = add_operator_sound rt id st a st' e in
      let there = f.by_owner.registry_there in
      let count = found_at_root st.registries st.operators a.registry f.registry h there in
      rw (f.written) (
        IsCounted-update st.registries st.operators _ a.registry _
          (h.registry_at a.registry f.registry there) h.registry_at
          (subst
            (Counts (
              update st.operators a.operator_account
                (record { bump = (rt.find_program_address (operator_seeds a.operator) id).1 })))
            (omega arith) (Counts-update st.operators a.operator_account _ f.no_operator count)))
  Step-IsCounted st st' h (removed a e) =
      let f = remove_operator_sound rt id st a st' e in
      let there = f.by_owner.registry_there in
      let count = found_at_root st.registries st.operators a.registry f.registry h there in
      rw (f.written) (
        IsCounted-update st.registries st.operators _ a.registry _
          (h.registry_at a.registry f.registry there) h.registry_at
          (Counts-removed st.operators a.operator_account f.operator f.operator_there count))
  Step-IsCounted st st' h (transferred a e) =
      let f = transfer_owner_sound rt id st a st' e in
      let there = f.by_owner.registry_there in
      let count = found_at_root st.registries st.operators a.registry f.registry h there in
      rw (f.written) (
        IsCounted-update st.registries st.operators st.operators a.registry _
          (h.registry_at a.registry f.registry there) h.registry_at count)

  -- In every store that the program reaches, the count of the registry is the number of operator
  -- accounts, and there are none without a registry.
  pub Reached-IsCounted : (st : Store) → Reached rt id st → IsCounted st.registries st.operators
  Reached-IsCounted st empty = record {
    registry_at = λ a r e. absurd (none_ne_some r e);
    no_registry = λ e a. refl;
    counted = λ r e. absurd (none_ne_some r e);
  }
  Reached-IsCounted st' (next {st} reached s) =
      Step-IsCounted st st' (Reached-IsCounted st reached) s

  -- The count never underflows: in a reachable store, `remove_operator` does not end with the error
  -- for an invalid account, as the source says.
  pub remove_operator-counted :
      (st : Store) (a : OperatorAccounts)
      → Reached rt id st
      → remove_operator rt id st a ≢ err (program invalid_account_data)
  remove_operator-counted st a reached e =
      let (r, o, there, operator, zero_count) = remove_underflow rt id st a e in
      let count =
        found_at_root st.registries st.operators a.registry r (Reached-IsCounted st reached)
          there in
      let (n, more, rest) = Counts-erase st.operators a.operator_account o operator count in
      absurd (omega arith)
