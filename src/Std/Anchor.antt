-- ===== src/Std/Anchor.antt =====
-- The checks that Anchor derives from the attributes of an account, for the programs that use them
-- (`seeds`, `bump` and `init` of `#[account(…)]`), and the u64 arithmetic of the programs.
use axelar_amplifier_solana.Std.Runtime.{Runtime, Slice}
use axelar_amplifier_solana.Prelude.{
  Bool, List, Map, Option, Result, [], account_already_in_use, account_not_initialized,
  account_not_signer, anchor, constraint_seeds, false, if◌then◌else◌, leb, ltb, none, ok, ok_or,
  require, some, ℕ, ◌++◌, ◌+◌, ◌-◌, ◌==◌, ◌>>◌, ◌^◌, ◌∷◌,
}

-- An account of a given type has to be there.
abbrev pub load_account : {E V : Type 0} → Map V → ℕ → Result E V
load_account m address = ok_or (m address) (anchor account_not_initialized)

abbrev pub is_address : Option ℕ → ℕ → Bool
is_address none k = false
is_address (some j) k = j == k

-- `Signer<'info>`
abbrev pub check_signer : {E : Type 0} → Bool → Result E (Unit {0})
check_signer is_signer = require is_signer (anchor account_not_signer)

module _ {E : Type 0} (rt : Runtime) (id : ℕ) where
  -- `seeds = …, bump = b`
  abbrev pub check_pda : List Slice → ℕ → ℕ → Result E (Unit {0})
  check_pda seeds bump address =
      require (is_address (rt.create_program_address (seeds ++ Slice.byte bump ∷ []) id) address)
        (anchor constraint_seeds)

  -- `init, seeds = …, bump`: the address found for the seeds has to be free; the result is the bump.
  abbrev pub init_pda : Bool → List Slice → ℕ → Result E ℕ
  init_pda unused seeds address = do
    require ((rt.find_program_address seeds id).0 == address) (anchor constraint_seeds)
    require unused (anchor account_already_in_use)
    ok (rt.find_program_address seeds id).1

abbrev pub u64_max : ℕ
u64_max = 2 ^ 64 - 1

abbrev pub u64_checked_add : ℕ → ℕ → Option ℕ
u64_checked_add a b = if leb (a + b) u64_max then some (a + b) else none

abbrev pub u64_checked_sub : ℕ → ℕ → Option ℕ
u64_checked_sub a b = if ltb a b then none else some (a - b)
