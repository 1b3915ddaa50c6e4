-- ===== src/Its/Chains.antt =====
-- The configuration of the interchain token service and its trusted chains
-- (programs/solana-axelar-its/src/state/its.rs).
pub mod Laws
use axelar_amplifier_solana.Prelude.{
  Bool, List, [], bytes_eq, false, length, not, true, ℕ, ◌&&◌, ◌++◌, ◌+◌, ◌-◌, ◌∷◌, if◌then◌else◌,
  any,
}
mod Tests
use axelar_amplifier_solana.Std.Hashing.{codes}

pub record InterchainTokenService : Type 0 where
  pub its_hub_address : List ℕ
  pub chain_name : List ℕ
  pub paused : Bool
  pub trusted_chains : List (List ℕ)
  pub bump : ℕ

abbrev pub its_hub_chain_name : List ℕ
its_hub_chain_name = codes "axelar"

abbrev pub new_service : ℕ → List ℕ → List ℕ → InterchainTokenService
new_service bump chain_name its_hub_address = record {
  its_hub_address = its_hub_address;
  chain_name = chain_name;
  paused = false;
  trusted_chains = [];
  bump = bump;
}

abbrev pub pause : InterchainTokenService → InterchainTokenService
pause its = record its { paused = true }

abbrev pub unpause : InterchainTokenService → InterchainTokenService
unpause its = record its { paused = false }

-- `trusted_chains.iter().any(…)`, and `contains`
unfoldable pub has_chain : List (List ℕ) → List ℕ → Bool
has_chain chains name = any (λ chain. bytes_eq chain name) chains

unfoldable pub is_trusted_chain : InterchainTokenService → List ℕ → Bool
is_trusted_chain its chain_name = has_chain its.trusted_chains chain_name

-- `push` puts the chain at the end.
unfoldable pub add_trusted_chain : InterchainTokenService → List ℕ → InterchainTokenService
add_trusted_chain its chain_name =
    if not (has_chain its.trusted_chains chain_name) && not (bytes_eq chain_name its_hub_chain_name)
    then record its { trusted_chains = its.trusted_chains ++ chain_name ∷ [] }
    else its

-- `retain(|chain| *chain != *chain_name)`
unfoldable pub retain_others : List (List ℕ) → List ℕ → List (List ℕ)
retain_others [] chain_name = []
retain_others (chain ∷ chains) chain_name =
    let rest = retain_others chains chain_name in
    if bytes_eq chain chain_name then rest else chain ∷ rest

unfoldable pub remove_trusted_chain : InterchainTokenService → List ℕ → InterchainTokenService
remove_trusted_chain its chain_name = record its {
  trusted_chains = retain_others its.trusted_chains chain_name;
}

-- The sum of `4 + chain.len()`.
unfoldable pub chains_len : List (List ℕ) → ℕ
chains_len [] = 0
chains_len (chain ∷ chains) = 4 + length chain + chains_len chains

-- The discriminator has eight bytes.
abbrev pub space_for : ℕ → ℕ → ℕ → ℕ
space_for hub_addr_len chain_name_len trusted_chains_total_len =
    8 + 4 + hub_addr_len + 4 + chain_name_len + 1 + 4 + trusted_chains_total_len + 1

unfoldable pub space : InterchainTokenService → ℕ
space its =
    space_for (length its.its_hub_address) (length its.chain_name) (chains_len its.trusted_chains)

unfoldable pub space_with_chain_added : InterchainTokenService → List ℕ → ℕ
space_with_chain_added its chain_name = space its + 4 + length chain_name

-- `saturating_sub`
unfoldable pub space_with_chain_removed : InterchainTokenService → List ℕ → ℕ
space_with_chain_removed its chain_name = space its - (4 + length chain_name)
