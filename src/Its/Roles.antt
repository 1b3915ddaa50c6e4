-- ===== src/Its/Roles.antt =====
-- The roles of a user on a resource, as bits of a u8
-- (programs/solana-axelar-its/src/state/user_roles.rs).
pub mod Laws
use axelar_amplifier_solana.Prelude.{
  Bool, arith, max, not, suc, true, zero, ℕ, ◌%◌, ◌*◌, ◌+◌, ◌-◌, ◌/◌, ◌==◌, ◌≡◌,
}
use Prim.Native.Nat.{zero, suc}

-- `&`, `|` and `!` on the lowest `w` bits.
unfoldable pub bit_and : (w a b : ℕ) → ℕ
bit_and zero a b = 0
bit_and (suc w) a b = a % 2 * (b % 2) + 2 * bit_and w (a / 2) (b / 2)

unfoldable pub bit_or : (w a b : ℕ) → ℕ
bit_or zero a b = 0
bit_or (suc w) a b = max (a % 2) (b % 2) + 2 * bit_or w (a / 2) (b / 2)

unfoldable pub bit_not : (w a : ℕ) → ℕ
bit_not zero a = 0
bit_not (suc w) a = 1 - a % 2 + 2 * bit_not w (a / 2)

-- `roles::MINTER`, `roles::OPERATOR` and `roles::FLOW_LIMITER`
abbrev pub minter_role : ℕ
minter_role = 1

abbrev pub operator_role : ℕ
operator_role = 2

abbrev pub flow_limiter_role : ℕ
flow_limiter_role = 4

pub record UserRoles : Type 0 where
  pub roles : ℕ
  pub bump : ℕ

-- `contains`, and `has_minter_role`, `has_operator_role` and `has_flow_limiter_role`
unfoldable pub contains : UserRoles → ℕ → Bool
contains r roles = bit_and 8 r.roles roles == roles

abbrev pub has_roles : UserRoles → Bool
has_roles r = not (r.roles == 0)

unfoldable pub insert : UserRoles → ℕ → UserRoles
insert r new_roles = record r { roles = bit_or 8 r.roles new_roles }

unfoldable pub remove : UserRoles → ℕ → UserRoles
remove r roles = record r { roles = bit_and 8 r.roles (bit_not 8 roles) }
