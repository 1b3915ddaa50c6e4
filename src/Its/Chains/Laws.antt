-- ===== src/Its/Chains/Laws.antt =====
-- The trusted chains over any sequence of changes, and the space of the account
-- (programs/solana-axelar-its/src/state/its.rs).
use axelar_amplifier_solana.Prelude.{
  List, [], ap, arith, bytes_eq, bytes_eq→eq, false, inl, inr, length, not, refl, true, ℕ, ◌&&◌,
  ◌*◌, ◌++◌, ◌+◌, ◌∷◌, ◌≡◌, ◌≤◌, if◌then◌else◌, Bool-cases,
}
use axelar_amplifier_solana.Its.Chains.{
  InterchainTokenService, add_trusted_chain, chains_len, has_chain, is_trusted_chain,
  its_hub_chain_name, pause, remove_trusted_chain, retain_others, space, space_with_chain_added,
  space_with_chain_removed, unpause,
}
use axelar_amplifier_solana.Std.U128.{new}

unfoldable pub count_chain : List (List ℕ) → List ℕ → ℕ
count_chain [] name = 0
count_chain (chain ∷ chains) name = (if bytes_eq chain name then 1 else 0) + count_chain chains name

-- No chain is listed twice, and the hub is not listed.
pub record IsWellFormed (its : InterchainTokenService) : Type 0 where
  pub distinct : (name : List ℕ) → count_chain its.trusted_chains name ≤ 1
  pub no_hub : count_chain its.trusted_chains its_hub_chain_name ≡ 0

count_none :
    (chains : List (List ℕ)) (name : List ℕ)
    → has_chain chains name ≡ false
    → count_chain chains name ≡ 0
unfolding has_chain count_chain
count_none [] name h = refl
count_none (chain ∷ chains) name h = let rest = count_none chains name in ground arith

count_some :
    (chains : List (List ℕ)) (name : List ℕ)
    → has_chain chains name ≡ true
    → 1 ≤ count_chain chains name
unfolding has_chain count_chain
count_some [] name h = ground arith
count_some (chain ∷ chains) name h = let rest = count_some chains name in ground arith

count-append :
    (chains : List (List ℕ)) (new name : List ℕ)
    → count_chain (chains ++ new ∷ []) name
      ≡ count_chain chains name + (if bytes_eq new name then 1 else 0)
unfolding count_chain
count-append [] new name = omega arith
count-append (chain ∷ chains) new name = let rest = count-append chains new name in omega arith

count-retain :
    (chains : List (List ℕ)) (gone name : List ℕ)
    → count_chain (retain_others chains gone) name ≤ count_chain chains name
unfolding count_chain retain_others
count-retain [] gone name = omega arith
count-retain (chain ∷ chains) gone name = let rest = count-retain chains gone name in ground arith

len-append :
    (chains : List (List ℕ)) (new : List ℕ)
    → chains_len (chains ++ new ∷ []) ≡ chains_len chains + (4 + length new)
unfolding chains_len
len-append [] new = omega arith
len-append (chain ∷ chains) new = let rest = len-append chains new in omega arith

len-retain :
    (chains : List (List ℕ)) (gone : List ℕ)
    → chains_len (retain_others chains gone) + count_chain chains gone * (4 + length gone)
      ≡ chains_len chains
unfolding chains_len retain_others count_chain
len-retain [] gone = omega arith
len-retain (chain ∷ chains) gone = elim (Bool-cases (bytes_eq chain gone)) [
  | inl same ↦
      let rest = len-retain chains gone in
      let e : length chain ≡ length gone = ap length (bytes_eq→eq chain gone same) in
      rw (same, e) (omega arith)
  | inr other ↦ let rest = len-retain chains gone in rw other (omega arith)
]

pub data ConfigChange : Type 0 where
  pausing unpausing : ConfigChange
  adding removing : List ℕ → ConfigChange

unfoldable pub change : InterchainTokenService → ConfigChange → InterchainTokenService
change its pausing = pause its
change its unpausing = unpause its
change its (adding name) = add_trusted_chain its name
change its (removing name) = remove_trusted_chain its name

unfoldable pub change_all : InterchainTokenService → List ConfigChange → InterchainTokenService
change_all its [] = its
change_all its (c ∷ cs) = change_all (change its c) cs

IsWellFormed-add :
    (its : InterchainTokenService) (name : List ℕ)
    → IsWellFormed its
    → IsWellFormed (add_trusted_chain its name)
unfolding add_trusted_chain
IsWellFormed-add its name h =
    elim (Bool-cases
      (not (has_chain its.trusted_chains name) && not (bytes_eq name its_hub_chain_name))) [
        | inr refused ↦ rw refused h
        | inl taken ↦
            let absent : has_chain its.trusted_chains name ≡ false = ground arith in
            let not_hub : bytes_eq name its_hub_chain_name ≡ false = ground arith in
            rw taken (record {
              distinct =
                  λ other. rw (count-append its.trusted_chains name other) (at_most other absent);
              no_hub =
                  rw (count-append its.trusted_chains name its_hub_chain_name, h.no_hub, not_hub)
                    refl;
            })
      ]
  where
    at_most :
        (other : List ℕ)
        → has_chain its.trusted_chains name ≡ false
        → count_chain its.trusted_chains other + (if bytes_eq name other then 1 else 0) ≤ 1
    at_most other absent = elim (Bool-cases (bytes_eq name other)) [
      | inl same ↦
          let e : name ≡ other = bytes_eq→eq name other same in
          let z : count_chain its.trusted_chains other ≡ 0 =
            rw (← e) (count_none its.trusted_chains name absent) in
          rw (same, z) (omega arith)
      | inr apart ↦ rw apart (omega (arith, h.distinct other))
    ]

IsWellFormed-change :
    (its : InterchainTokenService) (c : ConfigChange)
    → IsWellFormed its
    → IsWellFormed (change its c)
unfolding change remove_trusted_chain
IsWellFormed-change its pausing h = record { distinct = h.distinct; no_hub = h.no_hub }
IsWellFormed-change its unpausing h = record { distinct = h.distinct; no_hub = h.no_hub }
IsWellFormed-change its (adding name) h = IsWellFormed-add its name h
IsWellFormed-change its (removing name) h = record {
  distinct = λ other. omega (arith, count-retain its.trusted_chains name other, h.distinct other);
  no_hub = omega (arith, count-retain its.trusted_chains name its_hub_chain_name, h.no_hub);
}

-- Whatever chains are added and removed, in whatever order, no chain is trusted twice and the hub
-- never is, as from a configuration of which this holds, such as a new one.
pub change_all-IsWellFormed :
    (its : InterchainTokenService) (cs : List ConfigChange)
    → IsWellFormed its
    → IsWellFormed (change_all its cs)
unfolding change_all
change_all-IsWellFormed its [] h = h
change_all-IsWellFormed its (c ∷ cs) h =
    change_all-IsWellFormed (change its c) cs (IsWellFormed-change its c h)

-- The space that the account is given for a chain to add, which is neither trusted yet nor the hub, is
-- what it needs afterwards.
pub space-add_trusted_chain :
    (its : InterchainTokenService) (name : List ℕ)
    → is_trusted_chain its name ≡ false
    → bytes_eq name its_hub_chain_name ≡ false
    → space (add_trusted_chain its name) ≡ space_with_chain_added its name
unfolding is_trusted_chain add_trusted_chain space space_with_chain_added
space-add_trusted_chain its name absent not_hub =
    rw (absent, not_hub, len-append its.trusted_chains name) (omega arith)

-- The space that the account is given for the removal of a trusted chain from a well-formed
-- configuration is what it needs afterwards.
pub space-remove_trusted_chain :
    (its : InterchainTokenService) (name : List ℕ)
    → IsWellFormed its
    → is_trusted_chain its name ≡ true
    → space (remove_trusted_chain its name) ≡ space_with_chain_removed its name
unfolding is_trusted_chain remove_trusted_chain space space_with_chain_removed
space-remove_trusted_chain its name h there =
    let once : count_chain its.trusted_chains name ≡ 1 =
      omega (arith, h.distinct name, count_some its.trusted_chains name there) in
    let len = len-retain its.trusted_chains name in let len' = rw once at len in omega arith
