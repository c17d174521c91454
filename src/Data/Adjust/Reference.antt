-- ===== src/Data/Adjust/Reference.antt =====
-- The one pass over bars and actions computes, for each bar, the product over the actions after it.
use quantlab_v.Prelude.{
  ◌≡◌, refl, sym, ap, ◌∙◌, inl, inr, Bool, true, false, Option, none, some, List, [], ◌∷◌, ◌++◌,
  arith, if◌then◌else◌, ==_refl, Bool-cases, filter, any, All, All-append,
}
use mathlib.Core.List.{reverse, reverse-cons}
use mathlib.Core.Path.{subst}
use quantlab_v.Prelude.Result.{ok, >>=-eq-ok, ok-injective}
use quantlab_v.Prelude.Sort.{sort_by, IsSorted, IsOrder, sort_by-IsSorted}
use quantlab_v.Prelude.Distinct.{any-sort_by, any-append}
use quantlab_v.Prelude.Table.{Table, find, put, find-put_self, find-put_ne}
use quantlab_v.Time.{Date, DateTime, same_date, date_lt}
use quantlab_v.Domain.Market.{MarketBar, CorporateAction}
use quantlab_v.Data.Adjust.{
  ActionFactor, Factor, one, by_session, by_date, times, advance, accumulate, action_factors,
  sorted_factors, compute_cumulative_adjustment_factors,
}

abbrev pub is_after : Date → ActionFactor → Bool
is_after s f = date_lt s f.effective_at

-- the running product
abbrev pub product : Factor → List ActionFactor → Factor
product acc [] = acc
product acc (f ∷ fs) = product (times acc f) fs

-- The factor of a session, over the actions by date: the product of those after it, from the latest.
abbrev pub factor_after : Date → List ActionFactor → Factor
factor_after s fs = product (one, one) (filter (is_after s) (reverse fs))

abbrev pub has_session : Date → List MarketBar → Bool
has_session s bars = any (λ (b : MarketBar). same_date b.session s) bars

same_date_refl : (s : Date) → same_date s s ≡ true
same_date_refl s = rw (==_refl s.year, ==_refl s.month, ==_refl s.day)

same_date→eq : (s t : Date) → same_date s t ≡ true → s ≡ t
same_date→eq s t h = ground arith

same_date_comm : (s t : Date) → same_date s t ≡ same_date t s
same_date_comm s t = ground arith

pub date_lt-IsOrder : IsOrder date_lt
date_lt-IsOrder = record { asym = λ x y h. ground arith; trans = λ x y z h k. ground arith }

pub by_session-IsOrder : IsOrder by_session
by_session-IsOrder = record {
  asym = λ x y h. date_lt-IsOrder.asym x.session y.session h;
  trans = λ x y z h k. date_lt-IsOrder.trans x.session y.session z.session h k;
}

by_date-IsOrder : IsOrder by_date
by_date-IsOrder = record {
  asym = λ x y h. date_lt-IsOrder.asym x.effective_at y.effective_at h;
  trans = λ x y z h k. date_lt-IsOrder.trans x.effective_at y.effective_at z.effective_at h k;
}

date_lt_of_le : (s b e : Date) → date_lt b s ≡ false → date_lt b e ≡ true → date_lt s e ≡ true
date_lt_of_le s b e h k = ground arith

module _ {A : Type 0} (before : A → A → Bool) where
  -- no later element belongs after an earlier one
  abbrev pub IsFalling : List A → Type 0
  IsFalling l = IsSorted (λ x y. before y x) l

  IsFalling-snoc :
      (l : List A) (x : A) → IsFalling l → All (λ y. before y x ≡ false) l → IsFalling (l ++ x ∷ [])
  IsFalling-snoc [] x h k = (tt, tt)
  IsFalling-snoc (y ∷ l) x h k =
      (All-append (λ z. before y z ≡ false) l (x ∷ []) h.0 (k.0, tt), IsFalling-snoc l x h.1 k.1)

  All-reverse : (P : A → Type 0) (l : List A) → All P l → All P (reverse l)
  All-reverse P [] h = tt
  All-reverse P (x ∷ l) h =
      rw (reverse-cons x l) (All-append P (reverse l) (x ∷ []) (All-reverse P l h.1) (h.0, tt))

  reverse-IsFalling : (l : List A) → IsSorted before l → IsFalling (reverse l)
  reverse-IsFalling [] h = tt
  reverse-IsFalling (x ∷ l) h = rw (reverse-cons x l) (
      IsFalling-snoc (reverse l) x (reverse-IsFalling l h.1)
        (All-reverse (λ y. before y x ≡ false) l h.0))

any-reverse {ℓ} : {A : Type ℓ} (p : A → Bool) (l : List A) → any p (reverse l) ≡ any p l
any-reverse p [] = refl
any-reverse p (x ∷ l) =
    rw (reverse-cons x l, any-append p (reverse l) (x ∷ []), any-reverse p l) (ground arith)

-- A later product is not changed by what the inner loop has taken.
product-advance :
    (s b : Date) (fs : List ActionFactor) (acc : Factor)
    → date_lt b s ≡ false
    → let next = advance b fs acc in
      product next.1 (filter (is_after s) next.0) ≡ product acc (filter (is_after s) fs)
unfolding advance
product-advance s b [] acc h = refl
product-advance s b (f ∷ fs) acc h = elim (Bool-cases (date_lt b f.effective_at)) [
  | inl e ↦
      rw (e, advance, date_lt_of_le s b f.effective_at h e) (product-advance s b fs (times acc f) h)
  | inr e ↦ rw (e, advance)
]

none_after :
    (b : Date) (f : ActionFactor) (fs : List ActionFactor)
    → date_lt b f.effective_at ≡ false
    → All (λ g. by_date f g ≡ false) fs
    → filter (is_after b) fs ≡ []
none_after b f [] h k = refl
none_after b f (g ∷ fs) h k =
    let e : date_lt b g.effective_at ≡ false =
      date_lt-IsOrder.trans g.effective_at f.effective_at b k.0 h in
    rw e (none_after b f fs h k.1)

-- After the inner loop no action is left after the bar.
advance-stops :
    (b : Date) (fs : List ActionFactor) (acc : Factor)
    → IsFalling by_date fs
    → let next = advance b fs acc in IsFalling by_date next.0 × (filter (is_after b) next.0 ≡ [])
unfolding advance
advance-stops b [] acc h = (tt, refl)
advance-stops b (f ∷ fs) acc h = elim (Bool-cases (date_lt b f.effective_at)) [
  | inl e ↦ rw (e, advance) (advance-stops b fs (times acc f) h.1)
  | inr e ↦ rw (e, advance) (h, rw e (none_after b f fs e h.0))
]

date_lt_irrefl : (s : Date) → date_lt s s ≡ false
date_lt_irrefl s = ground arith

has_session→not-lt :
    (b s : Date) (bars : List MarketBar)
    → All (λ y. date_lt b y.session ≡ false) bars
    → has_session s bars ≡ true
    → date_lt b s ≡ false
has_session→not-lt b s [] h k = absurd (cc k)
has_session→not-lt b s (y ∷ bars) h k = elim (Bool-cases (same_date y.session s)) [
  | inl e ↦ rw (sym (same_date→eq y.session s e)) (h.0)
  | inr e ↦ has_session→not-lt b s bars h.1 (rw e at k)
]

-- At the bar itself.
advance-factor :
    (b : Date) (fs : List ActionFactor) (acc : Factor)
    → IsFalling by_date fs
    → (advance b fs acc).1 ≡ product acc (filter (is_after b) fs)
advance-factor b fs acc h =
    ap (product (advance b fs acc).1) (sym (advance-stops b fs acc h).1)
    ∙ product-advance b b fs acc (date_lt_irrefl b)

accumulate-eq :
    (bars : List MarketBar) (fs : List ActionFactor) (acc : Factor) (table : Table Date Factor)
    (s : Date)
    → IsFalling by_session bars
    → IsFalling by_date fs
    → find same_date s (accumulate bars fs acc table) ≡ (
        if has_session s bars
        then some (product acc (filter (is_after s) fs))
        else find same_date s table)
unfolding accumulate
accumulate-eq [] fs acc table s h k = refl
accumulate-eq (b ∷ bars) fs acc table s h k =
    let next = advance b.session fs acc in
    let rest =
      accumulate-eq bars next.0 next.1 (put same_date b.session next.1 table) s h.1
        (advance-stops b.session fs acc k).0 in
    elim (Bool-cases (has_session s bars)) [
      | inl later ↦
          let same =
            product-advance s b.session fs acc (has_session→not-lt b.session s bars h.0 later) in
          elim (Bool-cases (same_date b.session s)) [
            | inl e ↦ rw (later, e) ((rw later at rest) ∙ ap (λ (x : Factor). some x) same)
            | inr e ↦ rw (later, e) ((rw later at rest) ∙ ap (λ (x : Factor). some x) same)
          ]
      | inr new ↦ elim (Bool-cases (same_date b.session s)) [
        | inl e ↦
            let here : b.session ≡ s = same_date→eq b.session s e in
            rw (e, sym here)
              ((rw (new, sym here) at rest)
                ∙ find-put_self same_date same_date_refl same_date→eq b.session next.1 table
                ∙ ap (λ (x : Factor). some x) (advance-factor b.session fs acc k))
        | inr e ↦
            rw (new, e)
              ((rw new at rest)
                ∙ find-put_ne same_date same_date_refl same_date→eq b.session s next.1 table e)
      ]
    ]

sorted_factors-IsSorted :
    (bars : List MarketBar) (actions : List CorporateAction) (as_of : Option DateTime)
    (fs : List ActionFactor)
    → sorted_factors bars actions as_of ≡ ok fs
    → IsSorted by_date fs
sorted_factors-IsSorted [] actions as_of fs h = subst (IsSorted by_date) (ok-injective h) tt
sorted_factors-IsSorted (first ∷ bars) actions as_of fs h =
    let (gs, e, k) = >>=-eq-ok (action_factors (first ∷ bars) _) _ h in
    subst (IsSorted by_date) (ok-injective k) (sort_by-IsSorted by_date by_date-IsOrder gs)

-- The factors of the single pass are those of a scan of all actions for each bar: a session of the
-- bars has the product, from the latest, of the factors of the valid actions after it, and no
-- other session has factors.
pub compute-factors :
    (bars : List MarketBar) (actions : List CorporateAction) (as_of : Option DateTime)
    (table : Table Date Factor)
    → compute_cumulative_adjustment_factors bars actions as_of ≡ ok table
    → (fs : List ActionFactor) × (sorted_factors (sort_by by_session bars) actions as_of ≡ ok fs)
      × ((s : Date)
          → find same_date s table
            ≡ (if has_session s bars then some (factor_after s fs) else none))
unfolding compute_cumulative_adjustment_factors find
compute-factors bars actions as_of table h =
    let sorted = sort_by by_session bars in
    let (fs, e, k) = >>=-eq-ok (sorted_factors sorted actions as_of) _ h in
    (
      fs,
      e,
      λ s.
          ap (find same_date s) (sym (ok-injective k))
          ∙ accumulate-eq (reverse sorted) (reverse fs) (one, one) [] s
              (reverse-IsFalling by_session sorted
                (sort_by-IsSorted by_session by_session-IsOrder bars))
              (reverse-IsFalling by_date fs (sorted_factors-IsSorted sorted actions as_of fs e))
          ∙ ap (λ (b : Bool). if b then some (factor_after s fs) else none)
              (any-reverse (λ (b : MarketBar). same_date b.session s) sorted
                ∙ any-sort_by by_session (λ (b : MarketBar). same_date b.session s) bars),
    )
