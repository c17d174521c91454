-- ===== src/Data/Symbols/Unambiguous.antt =====
-- Validated histories never resolve a symbol to two instruments.
use quantlab_v.Prelude.{
  ◌≤◌, ◌≡◌, refl, sym, ap, inl, inr, Bool, true, false, Option, none, some, [], ◌∷◌, arith,
  Bool-cases, Option-cases, get_or, length, filter, All, Text,
}
use mathlib.Core.Path.{subst}
use quantlab_v.Prelude.Result.{ok, >>=-eq-ok}
use quantlab_v.Prelude.Sort.{sort_by, IsSorted, IsOrder, sort_by-IsSorted}
use quantlab_v.Prelude.Table.{Table, find, pair_eq, pair_eq_refl, pair_eq→eq}
use quantlab_v.Prelude.Distinct.{length-filter-sort_by}
use quantlab_v.Prelude.Group.{group_by, group_at, has_key, group_at-group_by}
use quantlab_v.Time.{Date, date_lt, date_le}
use quantlab_v.Domain.Identity.{InstrumentId, SymbolHistory}
use quantlab_v.Data.Symbols.{
  Histories, by_valid_from, until, is_valid_at, check_pair, check_sorted, check_groups, only_match,
  key_of, validate_non_overlapping_history, is_match, resolve_symbol_in_memory,
}

by_valid_from-IsOrder : IsOrder by_valid_from
by_valid_from-IsOrder = record { asym = λ x y h. ground arith; trans = λ x y z h k. ground arith }

-- No history that starts after the date is valid at it.
not_yet :
    (d : Date) (l : Histories)
    → All (λ h. date_lt d h.valid_from ≡ true) l
    → filter (is_valid_at d) l ≡ []
not_yet d [] a = refl
not_yet d (h ∷ l) a = rw (a.0) (not_yet d l a.1)

start_later :
    (d : Date) (next : SymbolHistory) (l : Histories)
    → date_lt d next.valid_from ≡ true
    → All (λ h. by_valid_from h next ≡ false) l
    → All (λ h. date_lt d h.valid_from ≡ true) l
start_later d next [] e a = tt
start_later d next (h ∷ l) e a = (ground (arith, a.0), start_later d next l e a.1)

-- A checked pair: the first ends before the next starts.
check_pair-ok :
    (d : Date) (valid_to : Option Date) (next : SymbolHistory) (u : Unit {0})
    → check_pair valid_to next ≡ ok u
    → until valid_to d ≡ true
    → date_lt d next.valid_from ≡ true
check_pair-ok d none next u h k = absurd (cc h)
check_pair-ok d (some t) next u h k = elim (Bool-cases (date_le next.valid_from t)) [
  | inl e ↦ absurd (cc (rw e at h))
  | inr e ↦ ground arith
]

-- At each date at most one of the checked histories is valid.
check_sorted-once :
    (d : Date) (l : Histories) (u : Unit {0})
    → IsSorted by_valid_from l
    → check_sorted l ≡ ok u
    → length (filter (is_valid_at d) l) ≤ 1
unfolding check_sorted
check_sorted-once d [] u s h = omega arith
check_sorted-once d (x ∷ []) u s h = elim (Bool-cases (is_valid_at d x)) [
  | inl e ↦ rw e (omega arith)
  | inr e ↦ rw e (omega arith)
]
check_sorted-once d (x ∷ next ∷ l) u s h =
    let (v, e, k) = >>=-eq-ok (check_pair x.valid_to next) _ h in
    elim (Bool-cases (is_valid_at d x)) [
      | inr idle ↦ rw idle (check_sorted-once d (next ∷ l) u s.1 k)
      | inl valid ↦
          let ended : date_lt d next.valid_from ≡ true =
            check_pair-ok d x.valid_to next v e (ground arith) in
          let later = not_yet d (next ∷ l) (ended, start_later d next l ended s.1.0) in
          rw (valid, later) (omega arith)
    ]

check_groups-found :
    (key : Text × Text) (groups : Table (Text × Text) Histories) (hs : Histories) (u : Unit {0})
    → check_groups groups ≡ ok u
    → find pair_eq key groups ≡ some hs
    → check_sorted (sort_by by_valid_from hs) ≡ ok tt
unfolding check_groups find
check_groups-found key [] hs u h k = absurd (cc k)
check_groups-found key ((j, gs) ∷ groups) hs u h k =
    let (v, e, rest) = >>=-eq-ok (check_sorted (sort_by by_valid_from gs)) _ h in
    elim (Bool-cases (pair_eq j key)) [
      | inl same ↦
          subst (λ (l : Histories). check_sorted (sort_by by_valid_from l) ≡ ok tt)
            (ap (λ (o : Option Histories). get_or o []) (rw same at k)) e
      | inr other ↦ check_groups-found key groups hs u rest (rw other at k)
    ]

-- No element, or one that is all, passes a test that at most one does.
none_passes :
    (p : SymbolHistory → Bool) (l : Histories) (i : Option InstrumentId)
    → length (filter p l) ≤ 0
    → All (λ h. p h ≡ true → i ≡ some h.instrument_id) l
none_passes p [] i n = tt
none_passes p (h ∷ l) i n = elim (Bool-cases (p h)) [
  | inl e ↦ absurd (omega (arith, (rw e at n)))
  | inr e ↦ ((λ k. absurd (cc (e, k))), none_passes p l i (rw e at n))
]

nil_of_length : (l : Histories) → length l ≤ 0 → l ≡ []
nil_of_length [] n = refl
nil_of_length (x ∷ l) n = absurd (omega arith)

only_match-once :
    (p : SymbolHistory → Bool) (l : Histories)
    → length (filter p l) ≤ 1
    → (i : Option InstrumentId) × (only_match (filter p l) ≡ ok i)
      × All (λ h. p h ≡ true → i ≡ some h.instrument_id) l
only_match-once p [] n = (none, refl, tt)
only_match-once p (h ∷ l) n = elim (Bool-cases (p h)) [
  | inl e ↦
      let rest : length (filter p l) ≤ 0 = omega (arith, (rw e at n)) in
      (
        some h.instrument_id,
        rw (e, nil_of_length (filter p l) rest),
        ((λ k. refl), none_passes p l (some h.instrument_id) rest),
      )
  | inr e ↦
      let (i, q, a) = only_match-once p l (rw e at n) in (i, rw e q, ((λ k. absurd (cc (e, k))), a))
]

module _ (upper : Text → Text) where
  filter-both :
      (key : Text × Text) (d : Date) (hs : Histories)
      → filter (is_valid_at d) (filter (has_key pair_eq (key_of upper) key) hs)
        ≡ filter (is_match upper key d) hs
  filter-both key d [] = refl
  filter-both key d (h ∷ hs) = ground (arith, filter-both key d hs)

  matches_once :
      (hs : Histories) (key : Text × Text) (d : Date) (u : Unit {0})
      → validate_non_overlapping_history upper hs ≡ ok u
      → length (filter (is_match upper key d) hs) ≤ 1
  unfolding validate_non_overlapping_history find
  matches_once hs key d u h =
      let groups = group_by pair_eq (key_of upper) hs [] in
      let grouped : group_at pair_eq (key_of upper) key groups
          ≡ filter (has_key pair_eq (key_of upper) key) hs =
        group_at-group_by pair_eq (key_of upper) pair_eq_refl pair_eq→eq key hs [] in
      let once : length (filter (is_valid_at d) (group_at pair_eq (key_of upper) key groups)) ≤ 1 =
        elim (Option-cases (find pair_eq key groups)) [
          | inl e ↦ rw e (omega arith)
          | inr (gs, e) ↦
              let sorted = sort_by by_valid_from gs in
              rw e (
                rw (length-filter-sort_by by_valid_from (is_valid_at d) gs) at (
                  check_sorted-once d sorted tt
                    (sort_by-IsSorted by_valid_from by_valid_from-IsOrder gs)
                    (check_groups-found key groups gs u h e)))
        ] in
      rw (sym (filter-both key d hs), sym grouped) once

  -- If the histories are validated, then at each date the symbol of an exchange resolves without
  -- ambiguity, to the instrument of every history that matches.
  pub resolve-unambiguous :
      (hs : Histories) (symbol exchange : Text) (d : Date)
      → validate_non_overlapping_history upper hs ≡ ok tt
      → (i : Option InstrumentId) × (resolve_symbol_in_memory upper hs symbol exchange d ≡ ok i)
        × All
            (λ (h : SymbolHistory).
              is_match upper (upper symbol, upper exchange) d h ≡ true → i ≡ some h.instrument_id)
            hs
  unfolding resolve_symbol_in_memory
  resolve-unambiguous hs symbol exchange d h =
      only_match-once (is_match upper (upper symbol, upper exchange) d) hs
        (matches_once hs (upper symbol, upper exchange) d tt h)
