-- ===== src/Std/U128/Laws.antt =====
-- The byte representation of `U128` (crates/solana-axelar-std/src/u128.rs) against the number.
use axelar_amplifier_solana.Prelude.{
  Bool-cases, arith, inl, inr, ltb, ltb→lt, min, none, some, ◌+◌, ◌-◌, ◌≤◌, ◌⊎◌, ℕ, ◌<◌, ◌^◌, ◌≡◌,
  ◌↔◌, true, refl, ap, sym, ◌∙◌, length, AreBytes, to_le_bytes, from_le_bytes,
  from_le_bytes-to_le_bytes, to_le_bytes-from_le_bytes, from_le_bytes-lt, to_le_bytes-AreBytes,
  length-to_le_bytes, bytes_eq→eq, eq→bytes_eq,
}
use axelar_amplifier_solana.Std.U128.{
  checked_add, checked_sub, saturating_add, U128, u128_max, new, get, max_const, u128_eq,
}

-- The array has sixteen elements, each a byte.
pub record IsU128 (u : U128) : Type 0 where
  pub bytes_valid : AreBytes u.bytes
  pub sixteen : length u.bytes ≡ 16

pub get-new : (n : ℕ) → n < 2 ^ 128 → get (new n) ≡ n
unfolding get new to_le_bytes from_le_bytes
get-new n h = from_le_bytes-to_le_bytes 16 n h

pub new-IsU128 : (n : ℕ) → IsU128 (new n)
unfolding new
new-IsU128 n = record { bytes_valid = to_le_bytes-AreBytes 16 n; sixteen = length-to_le_bytes 16 n }

pub get-lt : (u : U128) → IsU128 u → get u < 2 ^ 128
unfolding get
get-lt u h = rw h.sixteen at (from_le_bytes-lt u.bytes h.bytes_valid)

pub new-get : (u : U128) → IsU128 u → new (get u) ≡ u
unfolding new get
new-get u h =
    let p : to_le_bytes 16 (from_le_bytes u.bytes) ≡ u.bytes =
      rw h.sixteen at (to_le_bytes-from_le_bytes u.bytes h.bytes_valid) in
    λ i. record { bytes = p i }

pub max_const-eq-new : max_const ≡ new u128_max
unfolding new
max_const-eq-new = refl

-- Two values are equal by `==` exactly when they stand for one number.
pub u128_eq_iff : (a b : U128) → IsU128 a → IsU128 b → (u128_eq a b ≡ true) ↔ (get a ≡ get b)
unfolding u128_eq get
u128_eq_iff a b ha hb = (
  λ e. ap from_le_bytes (bytes_eq→eq a.bytes b.bytes e),
  λ e.
      eq→bytes_eq a.bytes b.bytes
        (ap (λ u. u.bytes) (sym (new-get a ha) ∙ ap new e ∙ new-get b hb)),
)

pub max_const-IsU128 : IsU128 max_const
max_const-IsU128 = rw max_const-eq-new (new-IsU128 u128_max)

pub get-max_const : get max_const ≡ u128_max
get-max_const = rw max_const-eq-new (get-new u128_max (omega arith))

-- Addition of two values is that of the numbers, cut off at the maximum.
pub get-saturating_add : (a b : U128) → get (saturating_add a b) ≡ min (get a + get b) u128_max
unfolding saturating_add
get-saturating_add a b = get-new (min (get a + get b) u128_max) (omega arith)

pub saturating_add-IsU128 : (a b : U128) → IsU128 (saturating_add a b)
unfolding saturating_add
saturating_add-IsU128 a b = new-IsU128 (min (get a + get b) u128_max)

-- Checked addition gives the value of the sum, or nothing exactly when the sum is above the maximum.
pub get-checked_add :
    (a b : U128)
    → IsU128 a
    → IsU128 b
    → ((c : U128) × (checked_add a b ≡ some c) × (get c ≡ get a + get b))
      ⊎ ((checked_add a b ≡ none) × (u128_max < get a + get b))
unfolding checked_add
get-checked_add a b ha hb = elim (Bool-cases (ltb (get a + get b) (2 ^ 128))) [
  | inl fits ↦ inl (new (get a + get b), rw fits, get-new _ (ltb→lt _ _ fits))
  | inr over ↦ inr (rw over, ground arith)
]

-- Checked subtraction gives the value of the difference, or nothing where it would be negative.
pub get-checked_sub :
    (a b : U128)
    → IsU128 a
    → IsU128 b
    → ((c : U128) × (checked_sub a b ≡ some c) × (get c + get b ≡ get a))
      ⊎ ((checked_sub a b ≡ none) × (get a < get b))
unfolding checked_sub
get-checked_sub a b ha hb =
    let a_lt : get a < 2 ^ 128 = get-lt a ha in
    elim (Bool-cases (ltb (get a) (get b))) [
      | inl under ↦ inr (rw under, ltb→lt _ _ under)
      | inr fits ↦
          let le : get b ≤ get a = ground arith in
          let e : get (new (get a - get b)) ≡ get a - get b = get-new _ (omega arith) in
          inl (new (get a - get b), rw fits, omega arith)
    ]
