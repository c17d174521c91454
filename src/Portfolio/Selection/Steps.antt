-- ===== src/Portfolio/Selection/Steps.antt =====
-- The two steps of the selection: what each keeps true of the assets selected so far.
use quantlab_v.Prelude.{
  ℕ, ◌+◌, ◌≤◌, ◌<◌, min, ◌≡◌, refl, sym, ap, ◌∙◌, inl, inr, Bool, true, false, ◌&&◌, ◌||◌, Option,
  none, some, List, [], ◌∷◌, ◌++◌, arith, ltb, leb, ◌==◌, if◌then◌else◌, leb→le, leb_false→lt,
  ==→eq, ==_refl, Bool-cases, Option-cases, length, any, all, length-append, All, All-append,
  contains,
}
use mathlib.Core.Option.{some-injective}
use quantlab_v.Prelude.Dict.{Dict}
use quantlab_v.Prelude.Distinct.{IsDistinct, any-append, snoc-IsDistinct, same_key, ==_comm}
use quantlab_v.Domain.Identity.{InstrumentId}
use quantlab_v.Portfolio.Selection.{
  SelectedAsset, TopKBufferSelector, Ranked, SelectionReason, top_k_entry, buffer_hold, distinct,
  rank_from, rank_of, is_selected, asset, hold_reason, retain, retain_all, fill_up,
}

nothing_selected :
    (Score : Type 0) (ids : List InstrumentId)
    → All (λ (i : InstrumentId). is_selected {Score = Score} i [] ≡ false) ids
nothing_selected Score [] = tt
nothing_selected Score (i ∷ ids) = (refl, nothing_selected Score ids)

module _ {Score : Type 0} where
  abbrev pub same_asset : SelectedAsset Score → SelectedAsset Score → Bool
  same_asset a b = a.instrument_id == b.instrument_id

  abbrev pub same_candidate : Ranked Score → Ranked Score → Bool
  same_candidate a b = a.instrument_id == b.instrument_id

  -- An asset as the ranking has it, and a hold only of a holding between the two sizes.
  abbrev pub IsPick :
      TopKBufferSelector → List (Ranked Score) → List InstrumentId → SelectedAsset Score → Type 0
  IsPick k ranking held a =
      (rank_of a.instrument_id ranking
        ≡ some (record { instrument_id = a.instrument_id; rank = a.rank; score = a.score }))
      × (a.reason ≡ buffer_hold
          → (contains a.instrument_id held ≡ true)
            × (k.target_size < a.rank)
            × (a.rank ≤ k.buffer_size))

  rank_of-id :
      (i : InstrumentId) (cs : List (Ranked Score)) (c : Ranked Score)
      → rank_of i cs ≡ some c
      → c.instrument_id ≡ i
  unfolding rank_of
  rank_of-id i [] c h = absurd (ground arith)
  rank_of-id i (d ∷ cs) c h = ground (arith, rank_of-id i cs c)

  -- The candidates that are not yet selected.
  pub missing : List (Ranked Score) → List (SelectedAsset Score) → ℕ
  missing [] selected = 0
  missing (c ∷ cs) selected =
      (if is_selected c.instrument_id selected then 0 else 1) + missing cs selected

  is_selected-snoc :
      (i : InstrumentId) (selected : List (SelectedAsset Score)) (a : SelectedAsset Score)
      → is_selected i (selected ++ a ∷ []) ≡ (is_selected i selected || i == a.instrument_id)
  is_selected-snoc i selected a =
      rw (any-append (λ (b : SelectedAsset Score). i == b.instrument_id) selected (a ∷ []))
        (ground arith)

  missing-other :
      (cs : List (Ranked Score)) (selected : List (SelectedAsset Score)) (c : Ranked Score)
      (reason : SelectionReason)
      → any (same_candidate c) cs ≡ false
      → missing cs (selected ++ asset c reason ∷ []) ≡ missing cs selected
  unfolding missing
  missing-other [] selected c reason n = refl
  missing-other (d ∷ cs) selected c reason n = ground (
    arith,
    missing-other cs selected c reason,
    is_selected-snoc d.instrument_id selected (asset c reason),
  )

  missing-hit :
      (cs : List (Ranked Score)) (selected : List (SelectedAsset Score)) (i : InstrumentId)
      (c : Ranked Score) (reason : SelectionReason)
      → IsDistinct same_candidate cs
      → rank_of i cs ≡ some c
      → is_selected i selected ≡ false
      → missing cs selected ≡ missing cs (selected ++ asset c reason ∷ []) + 1
  unfolding missing rank_of
  missing-hit [] selected i c reason u h n = absurd (ground arith)
  missing-hit (d ∷ cs) selected i c reason u h n = elim (Bool-cases (d.instrument_id == i)) [
    | inl e ↦
        let same : d ≡ c = some-injective d c (rw e at h) in
        let j : d.instrument_id ≡ i = ==→eq d.instrument_id i e in
        let new : is_selected d.instrument_id selected ≡ false = rw j n in
        let now = is_selected-snoc d.instrument_id selected (asset d reason) in
        let rest = missing-other cs selected d reason u.0 in
        rw (← same) (rw (now, ==_refl d.instrument_id, new) (omega (arith, rest)))
    | inr e ↦
        let h' : rank_of i cs ≡ some c = rw e at h in
        let j = rank_of-id i cs c h' in
        let now = is_selected-snoc d.instrument_id selected (asset c reason) in
        let rest = missing-hit cs selected i c reason u.1 h' n in ground (arith, now, rest, j)
  ]

  -- Filling up ends at the target, or with every candidate.
  pub length-fill_up :
      (k : TopKBufferSelector) (cs : List (Ranked Score)) (selected : List (SelectedAsset Score))
      → IsDistinct same_candidate cs
      → length selected ≤ k.target_size
      → length (fill_up k cs selected) ≡ min k.target_size (length selected + missing cs selected)
  unfolding fill_up missing
  length-fill_up k [] selected u h = omega arith
  length-fill_up k (c ∷ cs) selected u h = elim (Bool-cases (leb k.target_size (length selected))) [
    | inl full ↦ rw (full, fill_up) (omega (arith, leb→le _ _ full))
    | inr room ↦ elim (Bool-cases (is_selected c.instrument_id selected)) [
      | inl old ↦ rw (room, fill_up, old) (omega (arith, length-fill_up k cs selected u.1 h))
      | inr new ↦
          let more = selected ++ asset c top_k_entry ∷ [] in
          let l : length more ≡ length selected + 1 =
            length-append selected (asset c top_k_entry ∷ []) in
          let r = missing-other cs selected c top_k_entry u.0 in
          let ih = length-fill_up k cs more u.1 (omega (arith, leb_false→lt _ _ room)) in
          rw (room, fill_up, new) (omega (arith, ih))
    ]
  ]

  is_selected-retain :
      (k : TopKBufferSelector) (o : Option (Ranked Score)) (selected : List (SelectedAsset Score))
      (i : InstrumentId)
      → is_selected i selected ≡ true
      → is_selected i (retain k o selected) ≡ true
  unfolding retain
  is_selected-retain k none selected i h = h
  is_selected-retain k (some c) selected i h =
      ground (arith, is_selected-snoc i selected (asset c (hold_reason k c.rank)))

  is_selected-retain_all :
      (k : TopKBufferSelector) (cs : List (Ranked Score)) (ids : List InstrumentId)
      (selected : List (SelectedAsset Score)) (i : InstrumentId)
      → is_selected i selected ≡ true
      → is_selected i (retain_all k cs ids selected) ≡ true
  unfolding retain_all
  is_selected-retain_all k cs [] selected i h = h
  is_selected-retain_all k cs (j ∷ ids) selected i h =
      is_selected-retain_all k cs ids _ i (is_selected-retain k (rank_of j cs) selected i h)

  pub is_selected-fill_up :
      (k : TopKBufferSelector) (cs : List (Ranked Score)) (selected : List (SelectedAsset Score))
      (i : InstrumentId)
      → is_selected i selected ≡ true
      → is_selected i (fill_up k cs selected) ≡ true
  unfolding fill_up
  is_selected-fill_up k [] selected i h = h
  is_selected-fill_up k (c ∷ cs) selected i h = ground (
    arith,
    is_selected-fill_up k cs selected i,
    is_selected-fill_up k cs (selected ++ asset c top_k_entry ∷ []) i,
    is_selected-snoc i selected (asset c top_k_entry),
  )

  length-retain :
      (k : TopKBufferSelector) (o : Option (Ranked Score)) (selected : List (SelectedAsset Score))
      → length (retain k o selected) ≤ length selected + 1
  unfolding retain
  length-retain k none selected = omega arith
  length-retain k (some c) selected =
      ground (arith, length-append selected (asset c (hold_reason k c.rank) ∷ []))

  retain-here :
      (k : TopKBufferSelector) (c : Ranked Score) (selected : List (SelectedAsset Score))
      (i : InstrumentId)
      → c.instrument_id ≡ i
      → c.rank ≤ k.buffer_size
      → length selected < k.target_size
      → is_selected i (retain k (some c) selected) ≡ true
  unfolding retain
  retain-here k c selected i e b l =
      ground (arith, is_selected-snoc i selected (asset c (hold_reason k c.rank)))

  -- With room for all that are left, a holding within the buffer is kept.
  pub retain_all-keeps :
      (k : TopKBufferSelector) (cs : List (Ranked Score)) (ids : List InstrumentId)
      (selected : List (SelectedAsset Score)) (i : InstrumentId) (c : Ranked Score)
      → any (λ j. i == j) ids ≡ true
      → rank_of i cs ≡ some c
      → c.rank ≤ k.buffer_size
      → length selected + length ids ≤ k.target_size
      → is_selected i (retain_all k cs ids selected) ≡ true
  unfolding retain_all
  retain_all-keeps k cs [] selected i c m r b l = absurd (cc m)
  retain_all-keeps k cs (j ∷ ids) selected i c m r b l = elim (Bool-cases (i == j)) [
    | inl e ↦
        let same : i ≡ j = ==→eq i j e in
        let found : rank_of j cs ≡ some c = rw same at r in
        let here : is_selected i (retain k (rank_of j cs) selected) ≡ true =
          rw found (retain-here k c selected i (rank_of-id i cs c r ∙ refl) b (omega arith)) in
        is_selected-retain_all k cs ids (retain k (rank_of j cs) selected) i here
    | inr e ↦
        retain_all-keeps k cs ids (retain k (rank_of j cs) selected) i c (rw e at m) r b
          (omega (arith, length-retain k (rank_of j cs) selected))
  ]

  -- What step 1 keeps true of the selection, with `ids` still to come.
  pub record Held (k : TopKBufferSelector) (cs : List (Ranked Score)) (held ids : List InstrumentId)
      (selected : List (SelectedAsset Score)) : Type 0 where
    pub within : length selected ≤ k.target_size
    pub counted : length selected + missing cs selected ≡ length cs
    pub once : IsDistinct same_asset selected
    pub apart : All (λ (i : InstrumentId). is_selected i selected ≡ false) ids
    pub picks : All (IsPick k cs held) selected

  apart-snoc :
      (ids : List InstrumentId) (selected : List (SelectedAsset Score)) (a : SelectedAsset Score)
      → All (λ (i : InstrumentId). is_selected i selected ≡ false) ids
      → any (λ j. a.instrument_id == j) ids ≡ false
      → All (λ (i : InstrumentId). is_selected i (selected ++ a ∷ []) ≡ false) ids
  apart-snoc [] selected a h n = tt
  apart-snoc (j ∷ ids) selected a h n = (
    ground (arith, is_selected-snoc j selected a, h.0),
    apart-snoc ids selected a h.1 (ground arith),
  )

  module _ (k : TopKBufferSelector) (cs : List (Ranked Score)) (held : List InstrumentId) where
    keep-Held :
        (i : InstrumentId) (ids : List InstrumentId) (selected : List (SelectedAsset Score))
        → Held k cs held (i ∷ ids) selected
        → Held k cs held ids selected
    keep-Held i ids selected h = record {
      within = h.within;
      counted = h.counted;
      once = h.once;
      apart = h.apart.1;
      picks = h.picks;
    }

    add-Held :
        (i : InstrumentId) (ids : List InstrumentId) (c : Ranked Score)
        (selected : List (SelectedAsset Score))
        → IsDistinct same_candidate cs
        → contains i held ≡ true
        → any (λ j. i == j) ids ≡ false
        → rank_of i cs ≡ some c
        → length selected < k.target_size
        → c.rank ≤ k.buffer_size
        → Held k cs held (i ∷ ids) selected
        → Held k cs held ids (selected ++ asset c (hold_reason k c.rank) ∷ [])
    add-Held i ids c selected u m n r l b h =
        let a = asset c (hold_reason k c.rank) in
        let e : c.instrument_id ≡ i = rank_of-id i cs c r in
        let size : length (selected ++ a ∷ []) ≡ length selected + 1 =
          length-append selected (a ∷ []) in
        let hit = missing-hit cs selected i c (hold_reason k c.rank) u r h.apart.0 in
        let fresh : any (same_asset a) selected ≡ false = rw e h.apart.0 in
        let pick : IsPick k cs held a = (
          ap (λ (j : InstrumentId). rank_of j cs) e ∙ r,
          λ reason. (rw e m, ground (arith, reason), b),
        ) in
        record {
          within = omega (arith, size);
          counted = omega (arith, size, hit, h.counted);
          once =
              snoc-IsDistinct same_asset (λ x y. ==_comm x.instrument_id y.instrument_id) selected a
                h.once fresh;
          apart = apart-snoc ids selected a h.apart.1 (rw e n);
          picks = All-append (IsPick k cs held) selected (a ∷ []) h.picks (pick, tt);
        }

    retain-Held :
        (i : InstrumentId) (ids : List InstrumentId) (selected : List (SelectedAsset Score))
        → IsDistinct same_candidate cs
        → contains i held ≡ true
        → any (λ j. i == j) ids ≡ false
        → Held k cs held (i ∷ ids) selected
        → Held k cs held ids (retain k (rank_of i cs) selected)
    unfolding retain
    retain-Held i ids selected u m n h = elim (Option-cases (rank_of i cs)) [
      | inl e ↦ rw (e, retain) (keep-Held i ids selected h)
      | inr (c, e) ↦
          elim (Bool-cases (ltb (length selected) k.target_size && leb c.rank k.buffer_size)) [
            | inr t ↦ rw (e, retain, t) (keep-Held i ids selected h)
            | inl t ↦
                rw (e, retain, t)
                  (add-Held i ids c selected u m n e (ground arith) (ground arith) h)
          ]
    ]

    pub retain_all-Held :
        (ids : List InstrumentId) (selected : List (SelectedAsset Score))
        → IsDistinct same_candidate cs
        → All (λ (i : InstrumentId). contains i held ≡ true) ids
        → IsDistinct ◌==◌ ids
        → Held k cs held ids selected
        → Held k cs held [] (retain_all k cs ids selected)
    unfolding retain_all
    retain_all-Held [] selected u m d h = h
    retain_all-Held (i ∷ ids) selected u m d h =
        retain_all-Held ids _ u m.1 d.1 (retain-Held i ids selected u m.0 d.0 h)

  missing-nil : (cs : List (Ranked Score)) → missing cs [] ≡ length cs
  unfolding missing
  missing-nil [] = refl
  missing-nil (c ∷ cs) = omega (arith, missing-nil cs)

  pub start-Held :
      (k : TopKBufferSelector) (cs : List (Ranked Score)) (held ids : List InstrumentId)
      → Held k cs held ids []
  start-Held k cs held ids = record {
    within = omega arith;
    counted = omega (arith, missing-nil cs);
    once = tt;
    apart = nothing_selected Score ids;
    picks = tt;
  }

  -- Each candidate is found by its identifier.
  skip-first :
      (c : Ranked Score) (all ds : List (Ranked Score))
      → any (same_candidate c) ds ≡ false
      → All (λ (d : Ranked Score). rank_of d.instrument_id all ≡ some d) ds
      → All (λ (d : Ranked Score). rank_of d.instrument_id (c ∷ all) ≡ some d) ds
  unfolding rank_of
  skip-first c all [] n h = tt
  skip-first c all (d ∷ ds) n h = (ground arith, skip-first c all ds (ground arith) h.1)

  pub rank_of_self :
      (cs : List (Ranked Score))
      → IsDistinct same_candidate cs
      → All (λ (c : Ranked Score). rank_of c.instrument_id cs ≡ some c) cs
  unfolding rank_of
  rank_of_self [] u = tt
  rank_of_self (c ∷ cs) u =
      (rw (==_refl c.instrument_id), skip-first c cs cs u.0 (rank_of_self cs u.1))

  module _ (k : TopKBufferSelector) (cs : List (Ranked Score)) (held : List InstrumentId) where
    abbrev pub IsGood : List (SelectedAsset Score) → Type 0
    IsGood selected = IsDistinct same_asset selected × All (IsPick k cs held) selected

    pub fill_up-IsGood :
        (rest : List (Ranked Score)) (selected : List (SelectedAsset Score))
        → All (λ (c : Ranked Score). rank_of c.instrument_id cs ≡ some c) rest
        → IsGood selected
        → IsGood (fill_up k rest selected)
    unfolding fill_up
    fill_up-IsGood [] selected r h = h
    fill_up-IsGood (c ∷ rest) selected r h =
        elim (Bool-cases (leb k.target_size (length selected))) [
          | inl full ↦ rw (full, fill_up) h
          | inr room ↦ elim (Bool-cases (is_selected c.instrument_id selected)) [
            | inl old ↦ rw (room, fill_up, old) (fill_up-IsGood rest selected r.1 h)
            | inr new ↦
                let a = asset c top_k_entry in
                let good : IsGood (selected ++ a ∷ []) = (
                  snoc-IsDistinct same_asset (λ x y. ==_comm x.instrument_id y.instrument_id)
                      selected a h.0 new,
                  All-append (IsPick k cs held) selected (a ∷ []) h.1
                      ((r.0, λ reason. absurd (cc reason)), tt),
                ) in
                rw (room, fill_up, new) (fill_up-IsGood rest (selected ++ a ∷ []) r.1 good)
          ]
        ]

  -- The ranking has each candidate of a dict once.
  any-rank_from :
      (r q : ℕ) (i : InstrumentId) (s : Score) (d : Dict Score)
      → any (same_candidate (record { instrument_id = i; rank = q; score = s })) (rank_from r d)
        ≡ any (same_key (i, s)) d
  unfolding rank_from
  any-rank_from r q i s [] = refl
  any-rank_from r q i s ((j, t) ∷ d) = ground (arith, any-rank_from (r + 1) q i s d)

  pub rank_from-IsDistinct :
      (r : ℕ) (d : Dict Score) → IsDistinct same_key d → IsDistinct same_candidate (rank_from r d)
  unfolding rank_from
  rank_from-IsDistinct r [] h = tt
  rank_from-IsDistinct r ((i, s) ∷ d) h =
      (any-rank_from (r + 1) r i s d ∙ h.0, rank_from-IsDistinct (r + 1) d h.1)

  pub length-rank_from : (r : ℕ) (d : Dict Score) → length (rank_from r d) ≡ length d
  unfolding rank_from
  length-rank_from r [] = refl
  length-rank_from r ((i, s) ∷ d) = omega (arith, length-rank_from (r + 1) d)

pub contains→any : (i : ℕ) (l : List ℕ) → contains i l ≡ any (λ j. i == j) l
contains→any i [] = refl
contains→any i (x ∷ l) = rw (contains→any i l)

pub distinct-contains : (i : ℕ) (l : List ℕ) → contains i (distinct l) ≡ contains i l
unfolding distinct
distinct-contains i [] = refl
distinct-contains i (x ∷ l) = elim (Bool-cases (contains x (distinct l))) [
  | inr e ↦ rw e (ground (arith, distinct-contains i l))
  | inl e ↦ rw e (ground (arith, distinct-contains i l, e))
]

pub distinct-IsDistinct : (l : List ℕ) → IsDistinct ◌==◌ (distinct l)
unfolding distinct
distinct-IsDistinct [] = tt
distinct-IsDistinct (x ∷ l) = elim (Bool-cases (contains x (distinct l))) [
  | inl e ↦ rw e (distinct-IsDistinct l)
  | inr e ↦ rw e (sym (contains→any x (distinct l)) ∙ e, distinct-IsDistinct l)
]

pub length-distinct : (l : List ℕ) → length (distinct l) ≤ length l
unfolding distinct
length-distinct [] = omega arith
length-distinct (x ∷ l) = ground (arith, length-distinct l)

pub distinct-All :
    (held l : List ℕ)
    → ((i : ℕ) → contains i l ≡ true → contains i held ≡ true)
    → All (λ (i : ℕ). contains i held ≡ true) (distinct l)
unfolding distinct
distinct-All held [] h = tt
distinct-All held (x ∷ l) h =
    let rest = distinct-All held l (λ i m. h i (ground arith)) in
    elim (Bool-cases (contains x (distinct l))) [
      | inl e ↦ rw e rest
      | inr e ↦ rw e (h x (rw (==_refl x)), rest)
    ]
