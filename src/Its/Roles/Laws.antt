-- ===== src/Its/Roles/Laws.antt =====
-- The roles as a set of bits (programs/solana-axelar-its/src/state/user_roles.rs).
use axelar_amplifier_solana.Its.Roles.{
  UserRoles, bit_and, bit_not, bit_or, contains, flow_limiter_role, has_roles, insert, minter_role,
  operator_role, remove,
}
use axelar_amplifier_solana.Prelude.{Bool, arith, false, not, ℕ, ◌&&◌, ◌==◌, ◌||◌, ◌≡◌}

pub data Role : Type 0 where
  minter_of : Role
  operator_of : Role
  flow_limiter_of : Role

abbrev pub mask : Role → ℕ
mask minter_of = minter_role
mask operator_of = operator_role
mask flow_limiter_of = flow_limiter_role

abbrev pub has_role : UserRoles → Role → Bool
has_role r p = contains r (mask p)

-- A role that is inserted is there, and the others are as they were; one that is removed is not.
pub has_role_changed :
    (r : UserRoles) (p q : Role)
    → (has_role (insert r (mask p)) q ≡ (mask p == mask q) || has_role r q)
      × (has_role (remove r (mask p)) q ≡ not (mask p == mask q) && has_role r q)
unfolding contains insert remove bit_and bit_or bit_not
has_role_changed r minter_of minter_of = (ground arith, ground arith)
has_role_changed r minter_of operator_of = (ground arith, ground arith)
has_role_changed r minter_of flow_limiter_of = (ground arith, ground arith)
has_role_changed r operator_of minter_of = (ground arith, ground arith)
has_role_changed r operator_of operator_of = (ground arith, ground arith)
has_role_changed r operator_of flow_limiter_of = (ground arith, ground arith)
has_role_changed r flow_limiter_of minter_of = (ground arith, ground arith)
has_role_changed r flow_limiter_of operator_of = (ground arith, ground arith)
has_role_changed r flow_limiter_of flow_limiter_of = (ground arith, ground arith)

-- Without roles there is none of them.
pub has_role-none : (r : UserRoles) (p : Role) → has_roles r ≡ false → has_role r p ≡ false
unfolding contains bit_and
has_role-none r minter_of h = ground arith
has_role-none r operator_of h = ground arith
has_role-none r flow_limiter_of h = ground arith
