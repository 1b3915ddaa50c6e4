-- ===== src/Std/U256/Laws.antt =====
-- `U256` (crates/solana-axelar-std/src/u256.rs) against the numbers, and an instance of `Bnum`.
use Prim.Native.Nat.{compare}
use axelar_amplifier_solana.Prelude.{
  Bool-cases, inl, inr, ltb→lt, none_ne_some, some_inj, subst, sym, ◌∙◌, ℕ, ◌+◌, ◌-◌, ◌/◌, ◌%◌, ◌<◌,
  ◌^◌, ◌≡◌, refl, true, none, some, ltb, if◌then◌else◌, arith,
}
use axelar_amplifier_solana.Std.U256.{
  checked_add, from_u64, U256, u256_eq, Bnum, BnumLaws, IsU256, to_ℕ,
}

pub to_ℕ-lt : (u : U256) → IsU256 u → to_ℕ u < 2 ^ 256
unfolding to_ℕ
to_ℕ-lt u h = omega arith

pub to_ℕ_injective : (a b : U256) → IsU256 a → IsU256 b → to_ℕ a ≡ to_ℕ b → a ≡ b
unfolding to_ℕ
to_ℕ_injective a b ha hb e =
    let p0 : a.d0 ≡ b.d0 = omega arith in
    let p1 : a.d1 ≡ b.d1 = omega arith in
    let p2 : a.d2 ≡ b.d2 = omega arith in
    let p3 : a.d3 ≡ b.d3 = omega arith in λ i. record { d0 = p0 i; d1 = p1 i; d2 = p2 i; d3 = p3 i }

pub u256_eq→eq : (a b : U256) → u256_eq a b ≡ true → a ≡ b
u256_eq→eq a b h = ground arith

pub eq→u256_eq : (a b : U256) → a ≡ b → u256_eq a b ≡ true
eq→u256_eq a b h = ground arith

-- The digits of a number.
unfoldable pub digits : ℕ → U256
digits n = record {
  d0 = n % 2 ^ 64;
  d1 = n / 2 ^ 64 % 2 ^ 64;
  d2 = n / 2 ^ 128 % 2 ^ 64;
  d3 = n / 2 ^ 192 % 2 ^ 64;
}

digits-IsU256 : (n : ℕ) → IsU256 (digits n)
unfolding digits
digits-IsU256 n = omega arith

to_ℕ-digits : (n : ℕ) → n < 2 ^ 256 → to_ℕ (digits n) ≡ n
unfolding to_ℕ digits
to_ℕ-digits n h = omega arith

-- Arithmetic on the numbers, which shows that the laws can be met.
abbrev pub exact_bnum : Bnum
exact_bnum = record {
  bnum_checked_add =
      λ x y. if ltb (to_ℕ x + to_ℕ y) (2 ^ 256) then some (digits (to_ℕ x + to_ℕ y)) else none;
  bnum_checked_sub = λ x y. if ltb (to_ℕ x) (to_ℕ y) then none else some (digits (to_ℕ x - to_ℕ y));
  bnum_cmp = λ x y. compare (to_ℕ x) (to_ℕ y);
}

pub exact_bnum-BnumLaws : BnumLaws exact_bnum
exact_bnum-BnumLaws = record {
  add_some =
      λ x y hx hy h. (digits (to_ℕ x + to_ℕ y), ground arith, digits-IsU256 _, to_ℕ-digits _ h);
  add_none = λ x y hx hy h. ground arith;
  sub_some = λ x y hx hy h.
      let b : to_ℕ x < 2 ^ 256 = to_ℕ-lt x hx in
      (digits (to_ℕ x - to_ℕ y), ground arith, digits-IsU256 _, to_ℕ-digits _ (omega arith));
  sub_none = λ x y hx hy h. ground arith;
  cmp_lem = λ x y. refl;
}

-- A checked sum that is there is exact.
pub checked_add_exact :
    (b : Bnum) (x y z : U256)
    → BnumLaws b
    → IsU256 x
    → IsU256 y
    → checked_add b x y ≡ some z
    → IsU256 z × (to_ℕ z ≡ to_ℕ x + to_ℕ y)
unfolding checked_add
checked_add_exact b x y z laws hx hy h = elim (Bool-cases (ltb (to_ℕ x + to_ℕ y) (2 ^ 256))) [
  | inl fits ↦
      let (w, e, word, value) = laws.add_some x y hx hy (ltb→lt _ _ fits) in
      let same : w ≡ z = some_inj w z (sym e ∙ h) in
      subst (λ (u : U256). IsU256 u × (to_ℕ u ≡ to_ℕ x + to_ℕ y)) same (word, value)
  | inr over ↦ let e = laws.add_none x y hx hy (ground arith) in absurd (none_ne_some z (sym e ∙ h))
]

pub from_u64-one : IsU256 (from_u64 1) × (to_ℕ (from_u64 1) ≡ 1)
unfolding to_ℕ
from_u64-one = (omega arith, omega arith)
