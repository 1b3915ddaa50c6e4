-- ===== src/Std/Instances.antt =====
-- Concrete values of the parameters of `Runtime`, which show that the laws can be met together.
use axelar_amplifier_solana.Std.Runtime.{BitView, BitViewLaws, Runtime, RuntimeLaws, Slice}
use axelar_amplifier_solana.Prelude.{
  ==_iff, Bool, Bool-cases, List, Option, [], ap, arith, get_or, if◌then◌else◌, inl, inr, length,
  le→ltb, ltb, ltb→lt, lt→ltb, none, refl, replicate, set, some, suc, sym, true, zero, ℕ, ◌%◌, ◌*◌,
  ◌++◌, ◌+◌, ◌/◌, ◌<◌, ◌==◌, ◌∙◌, ◌∷◌, ◌≡◌, ◌≢◌, ◌≤◌,
}

abbrev pub pair : ℕ → ℕ → ℕ
pair a b = (a + b) * (a + b) + a

square_lt : (s t : ℕ) → s < t → s * s + s < t * t
square_lt s t h = grind arith

pair_sum_le : (a b c d : ℕ) → pair a b ≡ pair c d → c + d ≤ a + b
pair_sum_le a b c d e = elim (Bool-cases (ltb (a + b) (c + d))) [
  | inl short ↦ absurd (omega (arith, square_lt (a + b) (c + d) (ltb→lt _ _ short)))
  | inr enough ↦ ground arith
]

pub pair_injective : (a b c d : ℕ) → pair a b ≡ pair c d → (a ≡ c) × (b ≡ d)
pair_injective a b c d e =
    let p = pair_sum_le a b c d e in
    let q = pair_sum_le c d a b (sym e) in
    let s : a + b ≡ c + d = omega arith in
    let t : (a + b) * (a + b) ≡ (c + d) * (c + d) = ap (λ (k : ℕ). k * k) s in
    (omega arith, omega arith)

-- A slice and a list of slices as numbers; of byte strings only the length is read.
abbrev code_slice : Slice → ℕ
code_slice (Slice.bytes l) = pair 0 (length l)
code_slice (Slice.array n) = pair 1 n
code_slice (Slice.byte n) = pair 2 n

abbrev pub code_slices : List Slice → ℕ
code_slices [] = 0
code_slices (s ∷ r) = pair (code_slice s) (code_slices r)

-- The bump is always 0, and the address is the code of the seeds with it.
abbrev pub plain_runtime : Runtime
plain_runtime = record {
  hashv = code_slices;
  create_program_address = λ seeds program. some (code_slices seeds);
  find_program_address = λ seeds program. (code_slices (seeds ++ Slice.byte 0 ∷ []), 0);
  pubkey_from_str = λ text. some (length text);
}

pub plain_runtime-RuntimeLaws : RuntimeLaws plain_runtime
plain_runtime-RuntimeLaws = record { find_creates = λ seeds program. refl }

-- Bit `i` of a number, and the number with that bit set.
abbrev pub bit : ℕ → ℕ → ℕ
bit n zero = n % 2
bit n (suc i) = bit (n / 2) i

abbrev pub set_bit : ℕ → ℕ → ℕ
set_bit n zero = n / 2 * 2 + 1
set_bit n (suc i) = set_bit (n / 2) i * 2 + n % 2

bit-set_bit_self : (n i : ℕ) → bit (set_bit n i) i ≡ 1
bit-set_bit_self n zero = omega arith
bit-set_bit_self n (suc i) =
    let half : (set_bit (n / 2) i * 2 + n % 2) / 2 ≡ set_bit (n / 2) i = omega arith in
    rw half (bit-set_bit_self (n / 2) i)

bit-set_bit_ne : (n i j : ℕ) → i ≢ j → bit (set_bit n i) j ≡ bit n j
bit-set_bit_ne n zero zero h = absurd (h refl)
bit-set_bit_ne n zero (suc j) h =
    let half : (n / 2 * 2 + 1) / 2 ≡ n / 2 = omega arith in ap (λ (k : ℕ). bit k j) half
bit-set_bit_ne n (suc i) zero h = omega arith
bit-set_bit_ne n (suc i) (suc j) h =
    let half : (set_bit (n / 2) i * 2 + n % 2) / 2 ≡ set_bit (n / 2) i = omega arith in
    rw half (bit-set_bit_ne (n / 2) i j (λ e. h (ap suc e)))

zero-bit : (i : ℕ) → bit 0 i ≡ 0
zero-bit zero = refl
zero-bit (suc i) = zero-bit i

-- Bit `i % 8` of byte `i / 8`: the layout `Lsb0`.
abbrev pub lsb0_get : List ℕ → ℕ → Option Bool
lsb0_get s i = if ltb i 256 then some (bit (get_or s (i / 8) 0) (i % 8) == 1) else none

abbrev pub lsb0_commit : List ℕ → ℕ → List ℕ
lsb0_commit s i = set s (i / 8) (set_bit (get_or s (i / 8) 0) (i % 8))

abbrev pub lsb0 : BitView
lsb0 = record { get = lsb0_get; commit = lsb0_commit }

get_or-set_self : (s : List ℕ) (k v : ℕ) → k < length s → get_or (set s k v) k 0 ≡ v
get_or-set_self [] k v h = elim h [ ]
get_or-set_self (x ∷ s) zero v h = refl
get_or-set_self (x ∷ s) (suc k) v h = get_or-set_self s k v (omega arith)

get_or-set_ne : (s : List ℕ) (k j v : ℕ) → k ≢ j → get_or (set s k v) j 0 ≡ get_or s j 0
get_or-set_ne [] k j v h = refl
get_or-set_ne (x ∷ s) zero zero v h = absurd (h refl)
get_or-set_ne (x ∷ s) zero (suc j) v h = refl
get_or-set_ne (x ∷ s) (suc k) zero v h = refl
get_or-set_ne (x ∷ s) (suc k) (suc j) v h = get_or-set_ne s k j v (λ e. h (ap suc e))

length-set : (s : List ℕ) (k v : ℕ) → length (set s k v) ≡ length s
length-set [] k v = refl
length-set (x ∷ s) zero v = refl
length-set (x ∷ s) (suc k) v = ap suc (length-set s k v)

get_or-zeros : (w k : ℕ) → get_or {A = ℕ} (replicate w 0) k 0 ≡ 0
get_or-zeros zero k = refl
get_or-zeros (suc w) zero = refl
get_or-zeros (suc w) (suc k) = get_or-zeros w k

commit_ne_lem :
    (s : List ℕ) (i j : ℕ) → length s ≡ 32 → i ≢ j → lsb0_get (lsb0_commit s i) j ≡ lsb0_get s j
commit_ne_lem s i j n h = elim (Bool-cases (i / 8 == j / 8)) [
  | inl same_byte ↦
      let e = (==_iff (i / 8) (j / 8)).0 same_byte in
      elim (Bool-cases (ltb j 256)) [
        | inl low ↦
            let bits : bit (get_or (lsb0_commit s i) (j / 8) 0) (j % 8)
                ≡ bit (get_or s (j / 8) 0) (j % 8) =
              rw (← e) (
                rw (get_or-set_self s (i / 8) (set_bit (get_or s (i / 8) 0) (i % 8)) (ground arith))
                  (bit-set_bit_ne (get_or s (i / 8) 0) (i % 8) (j % 8) (omega arith))) in
            rw (low, bits) refl
        | inr high ↦ rw high refl
      ]
  | inr other ↦
      rw (get_or-set_ne s (i / 8) (j / 8) (set_bit (get_or s (i / 8) 0) (i % 8)) (ground arith))
        refl
]

commit_self_lem :
    (s : List ℕ) (i : ℕ) → length s ≡ 32 → i < 256 → lsb0_get (lsb0_commit s i) i ≡ some true
commit_self_lem s i n h =
    rw
      (
        lt→ltb i 256 h,
        get_or-set_self s (i / 8) (set_bit (get_or s (i / 8) 0) (i % 8)) (omega arith),
        bit-set_bit_self (get_or s (i / 8) 0) (i % 8),
      )
      refl

pub lsb0-BitViewLaws : BitViewLaws lsb0
lsb0-BitViewLaws = record {
  get_in = λ s i n h. (bit (get_or s (i / 8) 0) (i % 8) == 1, rw (lt→ltb i 256 h) refl);
  get_out = λ s i n h. rw (le→ltb i 256 h) refl;
  commit_length = λ s i n. length-set s (i / 8) _ ∙ n;
  get-commit_self = commit_self_lem;
  get-commit_ne = commit_ne_lem;
  get_clear = λ i h. rw (lt→ltb i 256 h, get_or-zeros 32 (i / 8), zero-bit (i % 8)) refl;
}
