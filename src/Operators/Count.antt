-- ===== src/Operators/Count.antt =====
-- The number of operator accounts (programs/solana-axelar-operators/src).
use axelar_amplifier_solana.Prelude.{
  subst, ◌-◌, false, ==_iff, Bool-cases, inl, inr, refl, ◌==◌, Map, arith, erase, none,
  none_ne_some, some, suc, sym, update, update_self, ℕ, ◌∙◌, ◌≡◌,
}

pub data Counts {V : Type 0} : Map V → ℕ → Type 0 where
  nothing : {m : Map V} → ((a : ℕ) → m a ≡ none) → Counts m 0
  one_more :
      {m : Map V} {n : ℕ} (k : ℕ) (v : V) → m k ≡ some v → Counts (erase m k) n → Counts m (suc n)

erase-update : {V : Type 0} (m : Map V) (k : ℕ) (v : V) → m k ≡ none → erase (update m k v) k ≡ m
erase-update m k v free i a = at a i
  where
    at : (a : ℕ) → erase (update m k v) k a ≡ m a
    at a = elim (Bool-cases (a == k)) [
      | inl same ↦ let e : a ≡ k = (==_iff a k).0 same in rw (same, e) (sym free)
      | inr other ↦ rw other refl
    ]

erase_comm : {V : Type 0} (m : Map V) (k j : ℕ) → erase (erase m k) j ≡ erase (erase m j) k
erase_comm m k j i a = at a i
  where
    at : (a : ℕ) → erase (erase m k) j a ≡ erase (erase m j) k a
    at a = ground arith

==_sym : (j k : ℕ) → (j == k) ≡ false → (k == j) ≡ false
==_sym j k h = ground arith

erase_ne : {V : Type 0} (m : Map V) (k j : ℕ) → (j == k) ≡ false → erase m k j ≡ m j
erase_ne m k j h = ground arith

pub Counts-update :
    {V : Type 0} (m : Map V) (k : ℕ) (v : V) {n : ℕ}
    → m k ≡ none
    → Counts m n
    → Counts (update m k v) (suc n)
Counts-update m k v {n} free c = one_more k v (update_self m k v) (rw (erase-update m k v free) c)

pub Counts-erase :
    {V : Type 0} (m : Map V) (k : ℕ) (v : V) {n : ℕ}
    → m k ≡ some v
    → Counts m n
    → (n' : ℕ) × (n ≡ suc n') × Counts (erase m k) n'
Counts-erase m k v there (nothing h) = absurd (none_ne_some v (sym (h k) ∙ there))
Counts-erase m k v there (one_more {n = n} j w found rest) = elim (Bool-cases (j == k)) [
  | inl same ↦ let e : j ≡ k = (==_iff j k).0 same in (n, refl, rw (← e) rest)
  | inr other ↦
      let there' : erase m j k ≡ some v = erase_ne m j k (==_sym j k other) ∙ there in
      let (n', e, c) = Counts-erase (erase m j) k v there' rest in
      (n, refl, rw e (one_more j w (erase_ne m k j other ∙ found) (rw (erase_comm m j k) at c)))
]

-- One account less.
pub Counts-removed :
    {V : Type 0} (m : Map V) (k : ℕ) (v : V) {n : ℕ}
    → m k ≡ some v
    → Counts m n
    → Counts (erase m k) (n - 1)
Counts-removed m k v there c =
    let (n', e, rest) = Counts-erase m k v there c in subst (Counts (erase m k)) (omega arith) rest
