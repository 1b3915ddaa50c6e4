-- ===== src/Its/Chains/Tests.antt =====
-- A configuration with trusted chains, and the theorems applied to it.
use axelar_amplifier_solana.Its.Chains.{
  InterchainTokenService, add_trusted_chain, has_chain, is_trusted_chain, its_hub_chain_name,
  new_service, space, space_with_chain_added,
}
use axelar_amplifier_solana.Its.Chains.Laws.{
  space-add_trusted_chain, ConfigChange, IsWellFormed, adding, change, change_all,
  change_all-IsWellFormed, count_chain, pausing,
}
use axelar_amplifier_solana.Std.Hashing.{codes}
use axelar_amplifier_solana.Prelude.{List, [], arith, bytes_eq, false, refl, true, ◌∷◌, ◌≡◌}

abbrev service : InterchainTokenService
service = new_service 0 (codes "solana") (codes "axelar1hub")

abbrev changes : List ConfigChange
changes =
    adding (codes "ethereum") ∷ adding (codes "axelar") ∷ adding (codes "ethereum") ∷ pausing ∷ []

service-IsWellFormed : IsWellFormed service
unfolding count_chain
service-IsWellFormed = record { distinct = λ name. omega arith; no_hub = refl }

change_all-IsWellFormed_example : IsWellFormed (change_all service changes)
change_all-IsWellFormed_example = change_all-IsWellFormed service changes service-IsWellFormed

not_trusted : is_trusted_chain (change_all service changes) (codes "avalanche") ≡ false
unfolding is_trusted_chain change_all change add_trusted_chain has_chain bytes_eq
not_trusted = refl

not_hub : bytes_eq (codes "avalanche") its_hub_chain_name ≡ false
unfolding bytes_eq
not_hub = refl

trusted : is_trusted_chain (change_all service changes) (codes "ethereum") ≡ true
unfolding is_trusted_chain change_all change add_trusted_chain has_chain bytes_eq
trusted = refl

space-add_trusted_chain_example :
    space (add_trusted_chain (change_all service changes) (codes "avalanche"))
    ≡ space_with_chain_added (change_all service changes) (codes "avalanche")
space-add_trusted_chain_example =
    space-add_trusted_chain (change_all service changes) (codes "avalanche") not_trusted not_hub

-- The changes leave one trusted chain.
one_chain : (change_all service changes).trusted_chains ≡ codes "ethereum" ∷ []
unfolding change_all change add_trusted_chain has_chain bytes_eq
one_chain = refl
