-- ===== src/Prelude/Lists.antt =====
-- Lists measured and indexed by native numbers, and lists of addresses.
use Prim.Native.Nat.{ℕ, suc, ◌+◌}
use mathlib.Core.Path.{◌≡◌, refl}
use mathlib.Core.Bool.{Bool, true, false, ◌||◌}
use mathlib.Core.List.{List, [], ◌∷◌, ◌++◌}
use native.Mathlib.Omega.{arith}
use read_linuxthreads.Prelude.Tests.{◌==◌, if◌then◌else◌}

module _ {ℓ} {A : Type ℓ} where
  abbrev pub length : List A → ℕ
  length [] = 0
  length (x ∷ xs) = suc (length xs)

  pub length-append : (xs ys : List A) → length (xs ++ ys) ≡ length xs + length ys
  length-append [] ys = omega arith
  length-append (x ∷ xs) ys = omega (arith, length-append xs ys)

  -- The last element, `d` for the empty list.
  abbrev pub last : A → List A → A
  last d [] = d
  last d (x ∷ xs) = last x xs

abbrev pub has : ℕ → List ℕ → Bool
has a [] = false
has a (x ∷ xs) = (x == a) || has a xs

infix 40 ◌∈◌ ◌∉◌
abbrev pub ◌∈◌ : ℕ → List ℕ → Type 0
a ∈ xs = has a xs ≡ true

abbrev pub ◌∉◌ : ℕ → List ℕ → Type 0
a ∉ xs = has a xs ≡ false

-- The list without the first occurrence of `a`.
abbrev pub erase : ℕ → List ℕ → List ℕ
erase a [] = []
erase a (x ∷ xs) = if x == a then xs else x ∷ erase a xs

pub has-snoc : (a b : ℕ) (xs : List ℕ) → has a (xs ++ b ∷ []) ≡ (has a xs || (b == a))
has-snoc a b [] = ground arith
has-snoc a b (x ∷ xs) = ground (arith, has-snoc a b xs)

pub not-mem-append : (a : ℕ) (xs ys : List ℕ) → a ∉ xs → a ∉ ys → a ∉ xs ++ ys
not-mem-append a [] ys h k = k
not-mem-append a (x ∷ xs) ys h k = ground (arith, not-mem-append a xs ys)

pub not-mem-erase : (a b : ℕ) (xs : List ℕ) → a ∉ xs → a ∉ erase b xs
not-mem-erase a b [] h = refl
not-mem-erase a b (x ∷ xs) h = ground (arith, not-mem-erase a b xs)

pub erase-eq_of_not_mem : (a : ℕ) (xs : List ℕ) → a ∉ xs → erase a xs ≡ xs
erase-eq_of_not_mem a [] h = refl
erase-eq_of_not_mem a (x ∷ xs) h = ground (arith, erase-eq_of_not_mem a xs)

pub mem-last : (x : ℕ) (xs : List ℕ) → last x xs ∈ x ∷ xs
mem-last x [] = ground arith
mem-last x (y ∷ ys) = ground (arith, mem-last y ys)
