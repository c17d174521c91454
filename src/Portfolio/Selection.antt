-- ===== src/Portfolio/Selection.antt =====
-- Selection with a hold buffer (quantlab/portfolio/selection.py). A score is a floating-point number
-- in the source; here its type is a parameter, with the test `higher` of the
-- sort by falling score. Sizes are natural numbers.
pub mod Steps
pub mod Picks
use quantlab_v.Prelude.{
  ℕ, ◌+◌, Bool, true, false, not, ◌&&◌, ◌||◌, Option, none, some, List, [], ◌∷◌, ◌++◌, ltb, leb,
  ◌==◌, if◌then◌else◌, length, any, contains,
}
use quantlab_v.Prelude.Result.{◌>>◌, Result, ok, raise_if, bad_target_size, bad_buffer_size}
use quantlab_v.Prelude.Dict.{Dict}
use quantlab_v.Prelude.Sort.{sort_by}
use quantlab_v.Domain.Identity.{InstrumentId}

pub data SelectionReason : Type 0 where
  top_k_entry buffer_hold forced_exit : SelectionReason

pub record SelectedAsset (Score : Type 0) : Type 0 where
  pub instrument_id : InstrumentId
  pub rank : ℕ
  pub score : Score
  pub reason : SelectionReason

pub record TopKBufferSelector : Type 0 where
  pub target_size : ℕ
  pub buffer_size : ℕ

-- `TopKBufferSelector.__init__`
unfoldable pub new_selector : ℕ → ℕ → Result TopKBufferSelector
new_selector target_size buffer_size = do
  raise_if (target_size == 0) bad_target_size
  raise_if (ltb buffer_size target_size) bad_buffer_size
  ok (record { target_size = target_size; buffer_size = buffer_size })

-- `set(current_holdings)`
unfoldable pub distinct : List InstrumentId → List InstrumentId
distinct [] = []
distinct (i ∷ ids) = let rest = distinct ids in if contains i rest then rest else i ∷ rest

-- A candidate with its place in the ranking.
pub record Ranked (Score : Type 0) : Type 0 where
  pub instrument_id : InstrumentId
  pub rank : ℕ
  pub score : Score

abbrev pub hold_reason : TopKBufferSelector → ℕ → SelectionReason
hold_reason k rank = if leb rank k.target_size then top_k_entry else buffer_hold

module _ {Score : Type 0} where
  -- `enumerate(sorted_candidates)`, from the first rank
  unfoldable pub rank_from : ℕ → Dict Score → List (Ranked Score)
  rank_from r [] = []
  rank_from r ((i, s) ∷ rest) =
      record { instrument_id = i; rank = r; score = s } ∷ rank_from (r + 1) rest

  -- `rank_map.get(inst)`, with the score of `score_map`
  unfoldable pub rank_of : InstrumentId → List (Ranked Score) → Option (Ranked Score)
  rank_of i [] = none
  rank_of i (c ∷ cs) = if c.instrument_id == i then some c else rank_of i cs

  -- `rank_map.get(inst, 999999)`
  abbrev pub rank_key : List (Ranked Score) → InstrumentId → ℕ
  rank_key ranking i = elim (rank_of i ranking) [ none ↦ 999999 | some c ↦ c.rank ]

  -- `inst_id in selected`
  abbrev pub is_selected : InstrumentId → List (SelectedAsset Score) → Bool
  is_selected i selected = any (λ (a : SelectedAsset Score). i == a.instrument_id) selected

  abbrev pub asset : Ranked Score → SelectionReason → SelectedAsset Score
  asset c reason = record {
    instrument_id = c.instrument_id;
    rank = c.rank;
    score = c.score;
    reason = reason;
  }

  -- one holding of step 1
  unfoldable pub retain :
      TopKBufferSelector
      → Option (Ranked Score)
      → List (SelectedAsset Score)
      → List (SelectedAsset Score)
  retain k none selected = selected
  retain k (some c) selected =
      if ltb (length selected) k.target_size && leb c.rank k.buffer_size
      then selected ++ asset c (hold_reason k c.rank) ∷ []
      else selected

  -- step 1, over the holdings by rank
  unfoldable pub retain_all :
      TopKBufferSelector
      → List (Ranked Score)
      → List InstrumentId
      → List (SelectedAsset Score)
      → List (SelectedAsset Score)
  unfolding retain
  retain_all k ranking [] selected = selected
  retain_all k ranking (i ∷ ids) selected =
      retain_all k ranking ids (retain k (rank_of i ranking) selected)

  -- step 2: the capacity that is left goes to the best of the rest
  unfoldable pub fill_up :
      TopKBufferSelector
      → List (Ranked Score)
      → List (SelectedAsset Score)
      → List (SelectedAsset Score)
  fill_up k [] selected = selected
  fill_up k (c ∷ cs) selected = elim (leb k.target_size (length selected)) [
    | true ↦ selected
    | false ↦ fill_up k cs (
        if is_selected c.instrument_id selected
        then selected
        else selected ++ asset c top_k_entry ∷ [])
  ]

  abbrev pub by_rank : SelectedAsset Score → SelectedAsset Score → Bool
  by_rank a b = ltb a.rank b.rank

module _ {Score : Type 0} (higher : Score → Score → Bool) where
  -- the order of the key `(-score, id)`
  abbrev pub better : InstrumentId × Score → InstrumentId × Score → Bool
  better a b = higher a.1 b.1 || not (higher b.1 a.1) && ltb a.0 b.0

  unfoldable pub ranking_of : Dict Score → List (Ranked Score)
  unfolding rank_from
  ranking_of scores = rank_from 1 (sort_by better scores)

  -- `TopKBufferSelector.select`
  unfoldable pub select :
      TopKBufferSelector → Dict Score → List InstrumentId → List (SelectedAsset Score)
  unfolding ranking_of retain_all fill_up distinct
  select k [] current_holdings = []
  select k (e ∷ scores) current_holdings =
      let ranking = ranking_of (e ∷ scores) in
      let holdings =
        sort_by (λ (i j : InstrumentId). ltb (rank_key ranking i) (rank_key ranking j))
          (distinct current_holdings) in
      sort_by by_rank (fill_up k ranking (retain_all k ranking holdings []))
