-- ===== src/Prelude/Distinct.antt =====
-- Lists in which no two elements are the same by a Boolean test, and sorts of them.
use mathlib.Core.Path.{◌≡◌, refl, ap, ◌∙◌}
use mathlib.Core.Bool.{Bool, false, ◌||◌}
use mathlib.Core.List.{List, [], ◌∷◌, ◌++◌}
use mathlib.Core.Option.{none}
use mathlib.Core.Logic.{inl, inr}
use native.Mathlib.Omega.{arith}
use Prim.Native.Nat.{ℕ, suc}
use quantlab_v.Prelude.Tests.{Bool-cases, ◌==◌}
use quantlab_v.Prelude.Lists.{length, any, filter}
use quantlab_v.Prelude.Dict.{Dict, IsDict, lookup}
use quantlab_v.Prelude.Sort.{insert_sorted, sort_by}

module _ {ℓ} {A : Type ℓ} (before : A → A → Bool) where
  length-insert_sorted : (x : A) (l : List A) → length (insert_sorted before x l) ≡ suc (length l)
  unfolding insert_sorted
  length-insert_sorted x [] = refl
  length-insert_sorted x (y ∷ ys) = elim (Bool-cases (before y x)) [
    | inl e ↦ rw e (ap suc (length-insert_sorted x ys))
    | inr e ↦ rw e
  ]

  pub length-sort_by : (l : List A) → length (sort_by before l) ≡ length l
  unfolding sort_by
  length-sort_by [] = refl
  length-sort_by (x ∷ xs) = length-insert_sorted x (sort_by before xs) ∙ ap suc (length-sort_by xs)

  length-filter-insert_sorted :
      (p : A → Bool) (x : A) (l : List A)
      → length (filter p (insert_sorted before x l)) ≡ length (filter p (x ∷ l))
  unfolding insert_sorted
  length-filter-insert_sorted p x [] = refl
  length-filter-insert_sorted p x (y ∷ l) = elim (Bool-cases (before y x)) [
    | inr e ↦ rw e
    | inl e ↦ rw e (ground (arith, length-filter-insert_sorted p x l))
  ]

  pub length-filter-sort_by :
      (p : A → Bool) (l : List A) → length (filter p (sort_by before l)) ≡ length (filter p l)
  unfolding sort_by
  length-filter-sort_by p [] = refl
  length-filter-sort_by p (x ∷ l) =
      length-filter-insert_sorted p x (sort_by before l) ∙ ground (arith, length-filter-sort_by p l)

  any-insert_sorted :
      (p : A → Bool) (x : A) (l : List A) → any p (insert_sorted before x l) ≡ (p x || any p l)
  unfolding insert_sorted
  any-insert_sorted p x [] = refl
  any-insert_sorted p x (y ∷ ys) = elim (Bool-cases (before y x)) [
    | inl e ↦ rw (e, any-insert_sorted p x ys) (ground arith)
    | inr e ↦ rw e
  ]

  pub any-sort_by : (p : A → Bool) (l : List A) → any p (sort_by before l) ≡ any p l
  unfolding sort_by
  any-sort_by p [] = refl
  any-sort_by p (x ∷ xs) = rw (any-insert_sorted p x (sort_by before xs), any-sort_by p xs)

module _ {ℓ} {A : Type ℓ} where
  pub any-append : (p : A → Bool) (xs ys : List A) → any p (xs ++ ys) ≡ (any p xs || any p ys)
  any-append p [] ys = refl
  any-append p (x ∷ xs) ys = ground (arith, any-append p xs ys)

module _ {ℓ} {A : Type ℓ} (same : A → A → Bool) where
  abbrev pub IsDistinct : List A → Type 0
  IsDistinct [] = Unit
  IsDistinct (x ∷ xs) = (any (same x) xs ≡ false) × IsDistinct xs

  module _ (same_comm : (x y : A) → same x y ≡ same y x) where
    -- An element that differs from all is added at the end.
    pub snoc-IsDistinct :
        (xs : List A) (y : A) → IsDistinct xs → any (same y) xs ≡ false → IsDistinct (xs ++ y ∷ [])
    snoc-IsDistinct [] y h n = (refl, tt)
    snoc-IsDistinct (x ∷ xs) y h n = (
      rw (any-append (same x) xs (y ∷ []), h.0, same_comm x y) (ground arith),
      snoc-IsDistinct xs y h.1 (ground arith),
    )

    module _ (before : A → A → Bool) where
      insert_sorted-IsDistinct :
          (x : A) (l : List A)
          → any (same x) l ≡ false
          → IsDistinct l
          → IsDistinct (insert_sorted before x l)
      unfolding insert_sorted
      insert_sorted-IsDistinct x [] n h = (refl, tt)
      insert_sorted-IsDistinct x (y ∷ ys) n h = elim (Bool-cases (before y x)) [
        | inr e ↦ rw e (n, h)
        | inl e ↦ rw e (
          rw (any-insert_sorted before (same y) x ys, h.0, same_comm y x) (ground arith),
          insert_sorted-IsDistinct x ys (ground arith) h.1,
        )
      ]

      pub sort_by-IsDistinct : (l : List A) → IsDistinct l → IsDistinct (sort_by before l)
      unfolding sort_by
      sort_by-IsDistinct [] h = tt
      sort_by-IsDistinct (x ∷ xs) h =
          insert_sorted-IsDistinct x (sort_by before xs) (any-sort_by before (same x) xs ∙ h.0)
            (sort_by-IsDistinct xs h.1)

-- The entries of a dict have different keys.
abbrev pub same_key {ℓ} : {V : Type ℓ} → ℕ × V → ℕ × V → Bool
same_key a b = a.0 == b.0

module _ {ℓ} {V : Type ℓ} where
  absent : (k : ℕ) (v : V) (d : Dict V) → lookup k d ≡ none → any (same_key (k, v)) d ≡ false
  absent k v [] h = refl
  absent k v ((j, w) ∷ d) h = ground (arith, absent k v d)

  pub IsDict→IsDistinct : (d : Dict V) → IsDict d → IsDistinct same_key d
  IsDict→IsDistinct [] h = tt
  IsDict→IsDistinct ((k, v) ∷ d) h = (absent k v d h.0, IsDict→IsDistinct d h.1)

pub ==_comm : (a b : ℕ) → (a == b) ≡ (b == a)
==_comm a b = ground arith
