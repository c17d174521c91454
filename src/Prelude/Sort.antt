-- ===== src/Prelude/Sort.antt =====
-- Python's `sorted` with a key: a stable sort by a Boolean order on the elements.
use mathlib.Core.Path.{◌≡◌, refl, ◌∙◌}
use mathlib.Core.Bool.{Bool, true, false}
use mathlib.Core.List.{List, [], ◌∷◌, Perm}
use mathlib.Core.List.Perm
use mathlib.Core.Logic.{inl, inr}
use native.Mathlib.Omega.{arith}
use quantlab_v.Prelude.Tests.{if◌then◌else◌, Bool-cases}
use quantlab_v.Prelude.Lists.{All, filter}

-- What the sort asks of `before`, the strict order of the keys: it is asymmetric, and "not before"
-- is transitive.
pub record IsOrder {ℓ} {A : Type ℓ} (before : A → A → Bool) : Type ℓ where
  pub asym : (x y : A) → before x y ≡ true → before y x ≡ false
  pub trans : (x y z : A) → before y x ≡ false → before z y ≡ false → before z x ≡ false

module _ {ℓ} {A : Type ℓ} (before : A → A → Bool) where
  -- an equal element that came first stays first
  unfoldable pub insert_sorted : A → List A → List A
  insert_sorted x [] = x ∷ []
  insert_sorted x (y ∷ ys) = if before y x then y ∷ insert_sorted x ys else x ∷ y ∷ ys

  unfoldable pub sort_by : List A → List A
  sort_by [] = []
  sort_by (x ∷ xs) = insert_sorted x (sort_by xs)

  -- No later element belongs before an earlier one.
  abbrev pub IsSorted : List A → Type 0
  IsSorted [] = Unit
  IsSorted (x ∷ xs) = All (λ y. before y x ≡ false) xs × IsSorted xs

  pub insert_sorted-perm : (x : A) (l : List A) → Perm (insert_sorted x l) (x ∷ l)
  unfolding insert_sorted
  insert_sorted-perm x [] = Perm.rfl
  insert_sorted-perm x (y ∷ ys) = elim (Bool-cases (before y x)) [
    | inl p ↦ rw p (Perm.trans (Perm.cons y (insert_sorted-perm x ys)) (Perm.swap x y ys))
    | inr p ↦ rw p Perm.rfl
  ]

  -- The sort is a rearrangement.
  pub sort_by-perm : (l : List A) → Perm (sort_by l) l
  unfolding sort_by
  sort_by-perm [] = Perm.rfl
  sort_by-perm (x ∷ xs) =
      Perm.trans (insert_sorted-perm x (sort_by xs)) (Perm.cons x (sort_by-perm xs))

  pub insert_sorted-All :
      (P : A → Type 0) (x : A) (l : List A) → P x → All P l → All P (insert_sorted x l)
  unfolding insert_sorted
  insert_sorted-All P x [] p h = (p, tt)
  insert_sorted-All P x (y ∷ ys) p h = elim (Bool-cases (before y x)) [
    | inl e ↦ rw e (h.0, insert_sorted-All P x ys p h.1)
    | inr e ↦ rw e (p, h)
  ]

  pub sort_by-All : (P : A → Type 0) (l : List A) → All P l → All P (sort_by l)
  unfolding sort_by
  sort_by-All P [] h = tt
  sort_by-All P (x ∷ xs) h = insert_sorted-All P x (sort_by xs) h.0 (sort_by-All P xs h.1)

  -- A sorted list comes back as it is.
  pub sort_by_of_IsSorted : (l : List A) → IsSorted l → sort_by l ≡ l
  unfolding sort_by insert_sorted
  sort_by_of_IsSorted [] h = refl
  sort_by_of_IsSorted (x ∷ []) h = refl
  sort_by_of_IsSorted (x ∷ y ∷ ys) h = rw (sort_by_of_IsSorted (y ∷ ys) h.1, h.0.0)

  -- Elements of which none belongs before another keep their order.
  module _ (p : A → Bool) (level : (x y : A) → p x ≡ true → p y ≡ true → before y x ≡ false) where
    filter-insert_sorted : (x : A) (l : List A) → filter p (insert_sorted x l) ≡ filter p (x ∷ l)
    unfolding insert_sorted
    filter-insert_sorted x [] = refl
    filter-insert_sorted x (y ∷ ys) = elim (Bool-cases (before y x)) [
      | inr e ↦ rw e
      | inl e ↦ rw e (ground (arith, level x y, filter-insert_sorted x ys))
    ]

    pub filter-sort_by : (l : List A) → filter p (sort_by l) ≡ filter p l
    unfolding sort_by
    filter-sort_by [] = refl
    filter-sort_by (x ∷ xs) =
        filter-insert_sorted x (sort_by xs) ∙ ground (arith, filter-sort_by xs)

  module _ (order : IsOrder before) where
    below_trans :
        (x y : A) (l : List A)
        → before y x ≡ false
        → All (λ z. before z y ≡ false) l
        → All (λ z. before z x ≡ false) l
    below_trans x y [] e h = tt
    below_trans x y (z ∷ zs) e h = (order.trans x y z e h.0, below_trans x y zs e h.1)

    pub insert_sorted-IsSorted : (x : A) (l : List A) → IsSorted l → IsSorted (insert_sorted x l)
    unfolding insert_sorted
    insert_sorted-IsSorted x [] h = (tt, tt)
    insert_sorted-IsSorted x (y ∷ ys) h = elim (Bool-cases (before y x)) [
      | inl e ↦ rw e (
        insert_sorted-All (λ z. before z y ≡ false) x ys (order.asym y x e) h.0,
        insert_sorted-IsSorted x ys h.1,
      )
      | inr e ↦ rw e ((e, below_trans x y ys e h.0), h)
    ]

    -- The sort is sorted.
    pub sort_by-IsSorted : (l : List A) → IsSorted (sort_by l)
    unfolding sort_by
    sort_by-IsSorted [] = tt
    sort_by-IsSorted (x ∷ xs) = insert_sorted-IsSorted x (sort_by xs) (sort_by-IsSorted xs)
