-- ===== src/Data/Query.antt =====
-- `ORDER BY ... DESC, id DESC LIMIT 1` over a table, given by its rows in the order of their
-- identifiers: the first of the rows, newest identifier first, by a stable sort.
use quantlab_v.Prelude.{
  ◌≡◌, refl, sym, ap, ◌∙◌, ◌⊎◌, inl, inr, Bool, true, false, ◌||◌, Bool-cases, Option, none, some,
  List, [], ◌∷◌, ◌++◌, arith, filter, filter-append_other, any, All, All-append,
}
use mathlib.Core.Path.{subst}
use mathlib.Core.List.{reverse, reverse-append}
use quantlab_v.Prelude.Distinct.{any-append, any-sort_by}
use quantlab_v.Prelude.Sort.{sort_by, IsSorted, IsOrder, sort_by-IsSorted, sort_by-All}

module _ {A : Type 0} where
  abbrev pub first : List A → Option A
  first [] = none
  first (x ∷ xs) = some x

  unfoldable pub select_latest : (A → A → Bool) → (A → Bool) → List A → Option A
  select_latest newer test rows = first (sort_by newer (reverse (filter test rows)))

  -- The row stands in the table.
  abbrev pub Holds : List A → A → Type 0
  Holds rows r = (before : List A) × (after : List A) × (rows ≡ before ++ r ∷ after)

  -- None of the rows passes the test, or this is one that does, and no other that does is newer.
  abbrev pub IsLatest : (A → A → Bool) → (A → Bool) → List A → Option A → Type 0
  IsLatest newer test rows none = All (λ x. test x ≡ false) rows
  IsLatest newer test rows (some r) =
      Holds rows r × (test r ≡ true) × All (λ x. (test x ≡ false) ⊎ (newer x r ≡ false)) rows

  -- A row that is selected.
  abbrev IsSelected : (A → Bool) → List A → A → Type 0
  IsSelected test rows r = Holds rows r × (test r ≡ true)

  Holds-cons : (y : A) (rows : List A) (r : A) → Holds rows r → Holds (y ∷ rows) r
  Holds-cons y rows r (b, a, e) = (y ∷ b, a, ap (λ l. y ∷ l) e)

  All-map : (P Q : A → Type 0) → ((x : A) → P x → Q x) → (l : List A) → All P l → All Q l
  All-map P Q f [] h = tt
  All-map P Q f (x ∷ l) h = (f x h.0, All-map P Q f l h.1)

  filter-IsSelected :
      (test : A → Bool) (rows : List A) → All (IsSelected test rows) (filter test rows)
  filter-IsSelected test [] = tt
  filter-IsSelected test (x ∷ rows) =
      let rest =
        All-map (IsSelected test rows) (IsSelected test (x ∷ rows))
          (λ r h. (Holds-cons x rows r h.0, h.1)) (filter test rows)
          (filter-IsSelected test rows) in
      elim (Bool-cases (test x)) [ inl e ↦ rw e ((([], rows, refl), e), rest) | inr e ↦ rw e rest ]

  All-reverse : (P : A → Type 0) (l : List A) → All P l → All P (reverse l)
  All-reverse P [] h = tt
  All-reverse P (x ∷ l) h =
      subst (All P) (sym (reverse-append (x ∷ []) l))
        (All-append P (reverse l) (x ∷ []) (All-reverse P l h.1) (h.0, tt))

  any-reverse : (p : A → Bool) (l : List A) → any p (reverse l) ≡ any p l
  any-reverse p [] = refl
  any-reverse p (x ∷ l) =
      ap (any p) (reverse-append (x ∷ []) l)
      ∙ any-append p (reverse l) (x ∷ [])
      ∙ ground (arith, any-reverse p l)

  any_of_All : (p : A → Bool) (l : List A) → All (λ x. p x ≡ false) l → any p l ≡ false
  any_of_All p [] h = refl
  any_of_All p (x ∷ l) h = rw (h.0) (any_of_All p l h.1)

  -- What holds of no selected row.
  none_selected :
      (p test : A → Bool) (rows : List A)
      → any p (filter test rows) ≡ false
      → All (λ x. (test x ≡ false) ⊎ (p x ≡ false)) rows
  none_selected p test [] h = tt
  none_selected p test (x ∷ rows) h = elim (Bool-cases (test x)) [
    | inr e ↦ (inl e, none_selected p test rows (rw e at h))
    | inl e ↦
        let k : (p x || any p (filter test rows)) ≡ false = rw e at h in
        (inr (ground (arith, k)), none_selected p test rows (ground (arith, k)))
  ]

  irrefl_of : (newer : A → A → Bool) → IsOrder newer → (x : A) → newer x x ≡ false
  irrefl_of newer order x = elim (Bool-cases (newer x x)) [ inr e ↦ e | inl e ↦ order.asym x x e ]

  pub select_latest-IsLatest :
      (newer : A → A → Bool) (test : A → Bool) (rows : List A)
      → IsOrder newer
      → IsLatest newer test rows (select_latest newer test rows)
  unfolding select_latest
  select_latest-IsLatest newer test rows order =
      split_first (sort_by newer (reverse chosen))
        (λ p. any-sort_by newer p (reverse chosen) ∙ any-reverse p chosen)
        (sort_by-All newer (IsSelected test rows) (reverse chosen)
          (All-reverse (IsSelected test rows) chosen (filter-IsSelected test rows)))
        (sort_by-IsSorted newer order (reverse chosen))
    where
      chosen : List A
      chosen = filter test rows

      split_first :
          (l : List A)
          → ((p : A → Bool) → any p l ≡ any p (filter test rows))
          → All (IsSelected test rows) l
          → IsSorted newer l
          → IsLatest newer test rows (first l)
      split_first [] same h s =
          All-map (λ x. (test x ≡ false) ⊎ (true ≡ false)) (λ x. test x ≡ false)
            (λ x k. elim k [ inl e ↦ e | inr e ↦ absurd (cc e) ]) rows
            (none_selected (λ x. true) test rows (sym (same (λ x. true))))
      split_first (r ∷ l) same h s = (
        h.0.0,
        h.0.1,
        none_selected (λ x. newer x r) test rows
            (sym (same (λ x. newer x r))
              ∙ any_of_All (λ x. newer x r) (r ∷ l) (irrefl_of newer order r, s.0)),
      )

  -- A row that the test leaves out changes nothing.
  pub select_latest-append_other :
      (newer : A → A → Bool) (test : A → Bool) (rows : List A) (x : A)
      → test x ≡ false
      → select_latest newer test (rows ++ x ∷ []) ≡ select_latest newer test rows
  unfolding select_latest
  select_latest-append_other newer test rows x n = rw (filter-append_other test rows x n)
