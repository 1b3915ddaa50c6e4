-- ===== src/Prelude/Maps.antt =====
-- The accounts of one type, as a map from addresses.
use Prim.Native.Nat.{ℕ}
use mathlib.Core.Path.{◌≡◌}
use mathlib.Core.Logic.{◌≢◌, ◌⊎◌, inl, inr}
use mathlib.Core.Bool.{Bool, true, false}
use mathlib.Core.Option.{Option, none, some}
use native.Mathlib.Omega.{arith}
use axelar_amplifier_solana.Prelude.Tests.{◌==◌, if◌then◌else◌, Bool-cases, ==_iff}

abbrev pub Map : Type 0 → Type 0
Map V = ℕ → Option V

abbrev pub update : {V : Type 0} → Map V → ℕ → V → Map V
update m k v j = if j == k then some v else m j

abbrev pub erase : {V : Type 0} → Map V → ℕ → Map V
erase m k j = if j == k then none else m j

abbrev pub is_none : {V : Type 0} → Option V → Bool
is_none none = true
is_none (some v) = false

pub update_self : {V : Type 0} (m : Map V) (k : ℕ) (v : V) → update m k v k ≡ some v
update_self m k v = ground arith

pub update_ne : {V : Type 0} (m : Map V) (k j : ℕ) (v : V) → j ≢ k → update m k v j ≡ m j
update_ne m k j v h = ground arith

pub some_inj : {V : Type 0} (v w : V) → some v ≡ some w → v ≡ w
some_inj v w e = cc

-- What is found after an update was written by it or was there before.
pub update-cases :
    {V : Type 0} (m : Map V) (k a : ℕ) (v : V) {w : V}
    → update m k v a ≡ some w
    → ((a ≡ k) × (v ≡ w)) ⊎ (m a ≡ some w)
update-cases m k a v {w} e = elim (Bool-cases (a == k)) [
  | inl same ↦ inl ((==_iff a k).0 same, some_inj v w (rw same at e))
  | inr other ↦ inr (rw other at e)
]

pub none_ne_some : {V : Type 0} (v : V) → ¬ (none ≡ some v)
none_ne_some v e = cc
