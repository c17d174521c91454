-- ===== src/Data/Actions/Refinement.antt =====
-- The store with its cache answers as a store without one.
use quantlab_v.Prelude.{
  ◌≡◌, refl, sym, ap, ◌∙◌, inl, inr, false, Option, some, List, [], ◌∷◌, ◌==◌, ==→eq, Bool-cases,
  Option-cases, get_or, any, filter-append_other,
}
use quantlab_v.Prelude.Result.{Result, ok, ◌>>=◌, Result-cases}
use quantlab_v.Prelude.Dict.{lookup, lookup-insert, lookup-erase}
use quantlab_v.Time.{Date}
use quantlab_v.Domain.Identity.{InstrumentId}
use quantlab_v.Domain.Market.{CorporateAction}
use quantlab_v.Data.Actions.{
  Actions, SqlCorporateActionStore, of_instrument, insert_or_ignore, record_action, query_history,
  cache_history, full_history, slice_history, get_actions, same_natural_key,
}

-- A call of the store.
pub data Call : Type 0 where
  record_call : CorporateAction → Call
  get_call : InstrumentId → Option Date → Option Date → Call

-- The answers of a series of calls, and the store after it.
unfoldable pub run :
    List Call → SqlCorporateActionStore → List (Result Actions) × SqlCorporateActionStore
run [] s = ([], s)
run (record_call a ∷ calls) s = run calls (record_action a s)
run (get_call i start end ∷ calls) s =
    let (answer, s') = get_actions i start end s in
    let (answers, s'') = run calls s' in (answer ∷ answers, s'')

-- The same on a bare table, which is asked each time.
unfoldable pub run_plain : List Call → Actions → List (Result Actions) × Actions
run_plain [] rows = ([], rows)
run_plain (record_call a ∷ calls) rows = run_plain calls (insert_or_ignore a rows)
run_plain (get_call i start end ∷ calls) rows =
    let (answers, rows') = run_plain calls rows in
    ((query_history i rows >>= λ h. ok (slice_history start end h)) ∷ answers, rows')

-- What is cached is what the table would answer.
abbrev pub IsCoherent : SqlCorporateActionStore → Type 0
IsCoherent s =
    (i : InstrumentId) (h : Actions)
    → lookup i s.history_cache ≡ some h
    → query_history i s.rows ≡ ok h

query_history-insert_or_ignore_other :
    (i : InstrumentId) (a : CorporateAction) (rows : Actions)
    → (a.instrument_id == i) ≡ false
    → query_history i (insert_or_ignore a rows) ≡ query_history i rows
unfolding insert_or_ignore query_history
query_history-insert_or_ignore_other i a rows n =
    elim (Bool-cases (any (same_natural_key a) rows)) [
      | inl there ↦ rw there
      | inr new ↦ rw (new, filter-append_other (of_instrument i) rows a n)
    ]

record_action-IsCoherent :
    (a : CorporateAction) (s : SqlCorporateActionStore)
    → IsCoherent s
    → IsCoherent (record_action a s)
unfolding record_action
record_action-IsCoherent a s c i h e = elim (Bool-cases (a.instrument_id == i)) [
  | inl same ↦ absurd (cc (rw (lookup-erase a.instrument_id i s.history_cache, same) at e))
  | inr other ↦
      query_history-insert_or_ignore_other i a s.rows other
      ∙ c i h (rw (lookup-erase a.instrument_id i s.history_cache, other) at e)
]

-- The full history is the table's, of which nothing is changed.
full_history-eq :
    (i : InstrumentId) (s : SqlCorporateActionStore)
    → IsCoherent s
    → let (answer, s') = full_history i s in
      (answer ≡ query_history i s.rows) × (s'.rows ≡ s.rows) × IsCoherent s'
unfolding full_history
full_history-eq i s c = elim (Option-cases (lookup i s.history_cache)) [
  | inr (h, e) ↦ rw (e, full_history) (sym (c i h e), refl, c)
  | inl e ↦ (elim (Result-cases (query_history i s.rows)) [
    | inl (x, q) ↦ rw (e, full_history, q, cache_history) (refl, refl, c)
    | inr (h, q) ↦
        rw (e, full_history, q, cache_history)
          (
            refl,
            refl,
            λ j g k. elim (Bool-cases (i == j)) [
              | inl same ↦
                  let k' = rw (lookup-insert i j h s.history_cache, same) at k in
                  rw (sym (==→eq i j same)) (q ∙ ap (λ (o : Option Actions). ok (get_or o [])) k')
              | inr other ↦ c j g (rw (lookup-insert i j h s.history_cache, other) at k)
            ],
          )
  ])
]

run-eq :
    (calls : List Call) (s : SqlCorporateActionStore)
    → IsCoherent s
    → ((run calls s).0 ≡ (run_plain calls s.rows).0)
      × ((run calls s).1.rows ≡ (run_plain calls s.rows).1)
unfolding run run_plain get_actions record_action insert_or_ignore
run-eq [] s c = (refl, refl)
run-eq (record_call a ∷ calls) s c =
    run-eq calls (record_action a s) (record_action-IsCoherent a s c)
run-eq (get_call i start end ∷ calls) s c =
    let (same, rows, c') = full_history-eq i s c in
    let (answers, last) = run-eq calls (full_history i s).1 c' in
    (rw (answers, rows, same), last ∙ rw rows)

-- Over any calls from an empty cache, the answers of the store and the table that it leaves are those
-- of the bare table, which is asked each time: an entry of the cache is never out of date.
pub run_refines :
    (calls : List Call) (rows : Actions)
    → let s = run calls (record { rows = rows; history_cache = [] }) in
      (s.0 ≡ (run_plain calls rows).0) × (s.1.rows ≡ (run_plain calls rows).1)
run_refines calls rows =
    run-eq calls (record { rows = rows; history_cache = [] }) (λ i h e. absurd (cc e))
