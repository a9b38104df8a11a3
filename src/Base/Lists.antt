-- ===== src/Base/Lists.antt =====
-- Lists measured by native numbers, and Boolean folds over lists.
use Prim.Native.Nat.{ℕ, suc, ◌+◌}
use mathlib.Core.Path.{◌≡◌, refl, subst, sym, ◌∙◌}
use mathlib.Core.Logic.{inl, inr}
use blue_tanuki.Base.Tests.{Bool-cases}
use mathlib.Core.Bool.{Bool, true, false, ◌&&◌, ◌||◌}
use mathlib.Core.List.{List, [], ◌∷◌, ◌++◌, Memᴰ}
use mathlib.Core.Option.{Option, none, some}
use native.Mathlib.Omega.{arith}

module _ {ℓ} {A : Type ℓ} where
  abbrev pub length : List A → ℕ
  length [] = 0
  length (x ∷ xs) = suc (length xs)

  pub length-append : (xs ys : List A) → length (xs ++ ys) ≡ length xs + length ys
  length-append [] ys = omega arith
  length-append (x ∷ xs) ys = omega (arith, length-append xs ys)

  abbrev pub head? : List A → Option A
  head? [] = none
  head? (x ∷ xs) = some x

  -- `some`, `every`, `filter` and `find` of arrays
  abbrev pub any : (A → Bool) → List A → Bool
  any p [] = false
  any p (x ∷ xs) = p x || any p xs

  abbrev pub all : (A → Bool) → List A → Bool
  all p [] = true
  all p (x ∷ xs) = p x && all p xs

  abbrev pub filter : (A → Bool) → List A → List A
  filter p [] = []
  filter p (x ∷ xs) = let rest = filter p xs in elim (p x) [ true ↦ x ∷ rest | false ↦ rest ]

  abbrev pub find : (A → Bool) → List A → Option A
  find p [] = none
  find p (x ∷ xs) = elim (p x) [ true ↦ some x | false ↦ find p xs ]

  pub filter-cons_true :
      (p : A → Bool) (x : A) (xs : List A) → p x ≡ true → filter p (x ∷ xs) ≡ x ∷ filter p xs
  filter-cons_true p x xs h = rw (h, filter)

  pub filter-cons_false :
      (p : A → Bool) (x : A) (xs : List A) → p x ≡ false → filter p (x ∷ xs) ≡ filter p xs
  filter-cons_false p x xs h = rw (h, filter)

module _ {ℓ κ} {A : Type ℓ} (P : A → Type κ) where
  abbrev pub All : List A → Type κ
  All [] = Unit
  All (x ∷ xs) = P x × All xs

  pub All-append : (xs ys : List A) → All xs → All ys → All (xs ++ ys)
  All-append [] ys _ k = k
  All-append (x ∷ xs) ys (p, h) k = (p, All-append xs ys h k)

-- What a filter keeps is an element that passes the test; a bound on what it keeps holds for every
-- element that passes.
module _ {ℓ} {A : Type ℓ} (p : A → Bool) where
  mem_kept :
      {x : A} (y : A) (ys rest : List A) (b : Bool)
      → p y ≡ b
      → (Memᴰ x rest → Memᴰ x ys × (p x ≡ true))
      → Memᴰ x (elim b [ true ↦ y ∷ rest | false ↦ rest ])
      → Memᴰ x (y ∷ ys) × (p x ≡ true)
  mem_kept y ys rest true h ih (Memᴰ.head e) = (Memᴰ.head e, rw e h)
  mem_kept y ys rest true h ih (Memᴰ.tail m) = let (n, k) = ih m in (Memᴰ.tail n, k)
  mem_kept y ys rest false h ih m = let (n, k) = ih m in (Memᴰ.tail n, k)

  pub mem-filter : {x : A} (xs : List A) → Memᴰ x (filter p xs) → Memᴰ x xs × (p x ≡ true)
  mem-filter [] m = elim m [ ]
  mem-filter (y ∷ ys) m = mem_kept y ys (filter p ys) (p y) refl (mem-filter ys) m

  pub All-filter {κ} :
      (P : A → Type κ) (xs : List A) → All P (filter p xs) → All (λ x. p x ≡ true → P x) xs
  All-filter P [] h = tt
  All-filter P (y ∷ ys) h = elim (Bool-cases (p y)) [
    | inl kept ↦
        let k = subst (All P) (filter-cons_true p y ys kept) h in ((λ _. k.0), All-filter P ys k.1)
    | inr dropped ↦
        ((λ e. cc), All-filter P ys (subst (All P) (filter-cons_false p y ys dropped) h))
  ]

  pub filter-nil : (xs : List A) → filter p xs ≡ [] → All (λ x. p x ≡ false) xs
  filter-nil [] h = tt
  filter-nil (y ∷ ys) h = elim (Bool-cases (p y)) [
    | inl kept ↦ cc (filter-cons_true p y ys kept)
    | inr dropped ↦ (dropped, filter-nil ys (sym (filter-cons_false p y ys dropped) ∙ h))
  ]
