-- ===== src/Base/Sort.antt =====
-- `Array.prototype.sort`, which is stable: an insertion sort from the right.
use Prim.Native.Nat.{ℕ, ◌≤◌}
use mathlib.Core.Path.{◌≡◌, refl, subst}
use mathlib.Core.Logic.{inl, inr}
use mathlib.Core.Bool.{Bool}
use mathlib.Core.Option.{Option, none, some, some-injective}
use mathlib.Core.List.{List, [], ◌∷◌, Memᴰ}
use native.Mathlib.Omega.{arith}
use blue_tanuki.Base.Tests.{leb, leb→le, tests, if◌then◌else◌, Bool-cases, Option-cases}
use blue_tanuki.Base.Lists.{head?, All}

module _ {ℓ} {A : Type ℓ} (before : A → A → Bool) where
  -- `before x y`: `x`, the earlier of the two, may stay in front of `y`
  unfoldable pub insert : A → List A → List A
  insert x [] = x ∷ []
  insert x (y ∷ ys) = let rest = insert x ys in if before x y then x ∷ y ∷ ys else y ∷ rest

  unfoldable pub sort_by : List A → List A
  unfolding insert
  sort_by [] = []
  sort_by (x ∷ xs) = insert x (sort_by xs)

module _ {ℓ} {A : Type ℓ} (key : A → ℕ) where
  -- `sort((a, b) => key(b) - key(a))`
  abbrev pub descending : A → A → Bool
  descending x y = leb (key y) (key x)

  -- the leftmost element of the greatest key
  unfoldable pub leftmost_max : List A → Option A
  leftmost_max [] = none
  leftmost_max (x ∷ xs) = elim (leftmost_max xs) [
    | none ↦ some x
    | some y ↦ if leb (key y) (key x) then some x else some y
  ]

  head?-insert :
      (x : A) (ys : List A)
      → head? (insert descending x ys) ≡ elim (head? ys) [
        | none ↦ some x
        | some y ↦ if leb (key y) (key x) then some x else some y
      ]
  unfolding insert
  head?-insert x [] = refl
  head?-insert x (y ∷ ys) = ground arith

  -- The first element after a descending sort is the leftmost of the greatest key.
  pub head?-sort_by : (xs : List A) → head? (sort_by descending xs) ≡ leftmost_max xs
  unfolding sort_by leftmost_max
  head?-sort_by [] = refl
  head?-sort_by (x ∷ xs) = rw (head?-insert x (sort_by descending xs)) (rw (head?-sort_by xs) refl)

  abbrev pub IsMaximum : List A → A → Type ℓ
  IsMaximum xs m = Memᴰ m xs × All (λ x. key x ≤ key m) xs

  All-le_trans :
      (xs : List A) (a b : A)
      → key a ≤ key b
      → All (λ x. key x ≤ key a) xs
      → All (λ x. key x ≤ key b) xs
  All-le_trans [] a b h k = tt
  All-le_trans (x ∷ xs) a b h (p, k) = (omega arith, All-le_trans xs a b h k)

  leftmost_max-cons :
      (x y : A) (xs : List A) (m : A)
      → IsMaximum xs y
      → (if leb (key y) (key x) then some x else some y) ≡ some m
      → IsMaximum (x ∷ xs) m
  leftmost_max-cons x y xs m h e = elim (Bool-cases (leb (key y) (key x))) [
    | inl larger ↦
        subst (IsMaximum (x ∷ xs)) (some-injective x m (rw larger at e))
          (Memᴰ.head refl, (omega arith, All-le_trans xs y x (leb→le (key y) (key x) larger) h.1))
    | inr smaller ↦
        subst (IsMaximum (x ∷ xs)) (some-injective y m (rw smaller at e))
          (Memᴰ.tail h.0, (omega (tests, smaller), h.1))
  ]

  pub leftmost_max-none : (xs : List A) → leftmost_max xs ≡ none → xs ≡ []
  unfolding leftmost_max
  leftmost_max-none [] h = refl
  leftmost_max-none (x ∷ xs) h = absurd (ground arith)

  -- It is one of the elements, and no other has a greater key.
  pub leftmost_max-IsMaximum : (xs : List A) {m : A} → leftmost_max xs ≡ some m → IsMaximum xs m
  unfolding leftmost_max
  leftmost_max-IsMaximum [] h = cc
  leftmost_max-IsMaximum (x ∷ xs) {m} h = elim (Option-cases (leftmost_max xs)) [
    | inl alone ↦
        subst (IsMaximum (x ∷ xs)) (some-injective x m (rw (alone, leftmost_max) at h))
          (Memᴰ.head refl, (omega arith, rw (leftmost_max-none xs alone) tt))
    | inr (y, found) ↦
        leftmost_max-cons x y xs m (leftmost_max-IsMaximum xs found) (rw (found, leftmost_max) at h)
  ]
