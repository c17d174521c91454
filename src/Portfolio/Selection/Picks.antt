-- ===== src/Portfolio/Selection/Picks.antt =====
-- What is selected: as many assets as fit, each once and with its place in the ranking, and every
-- holding that the buffer protects.
use quantlab_v.Prelude.{
  ◌+◌, ◌≤◌, min, ◌≡◌, refl, sym, ◌∙◌, Bool, true, none, some, List, [], ◌∷◌, arith, ltb, ◌==◌,
  length, any, All, contains,
}
use quantlab_v.Prelude.Dict.{Dict, IsDict}
use quantlab_v.Prelude.Sort.{sort_by, IsSorted, IsOrder, sort_by-IsSorted, sort_by-All}
use quantlab_v.Prelude.Distinct.{
  IsDistinct, length-sort_by, any-sort_by, sort_by-IsDistinct, same_key, IsDict→IsDistinct, ==_comm,
}
use quantlab_v.Domain.Identity.{InstrumentId}
use quantlab_v.Portfolio.Selection.{
  SelectedAsset, TopKBufferSelector, Ranked, distinct, rank_of, rank_key, is_selected, retain_all,
  fill_up, by_rank, better, ranking_of, select,
}
use quantlab_v.Portfolio.Selection.Steps.{
  same_asset, IsPick, same_candidate, length-fill_up, is_selected-fill_up, retain_all-keeps,
  retain_all-Held, start-Held, rank_of_self, fill_up-IsGood, rank_from-IsDistinct, length-rank_from,
  contains→any, distinct-contains, distinct-IsDistinct, length-distinct, distinct-All, Held,
}

module _ {Score : Type 0} where
  by_rank-IsOrder : IsOrder (by_rank {Score = Score})
  by_rank-IsOrder = record { asym = λ x y h. ground arith; trans = λ x y z h k. ground arith }

  -- Every holding of the list that is ranked within the buffer is selected.
  abbrev pub Protected :
      TopKBufferSelector
      → List (Ranked Score)
      → List InstrumentId
      → List (SelectedAsset Score)
      → Type 0
  Protected k ranking held out =
      (i : InstrumentId) (c : Ranked Score)
      → contains i held ≡ true
      → rank_of i ranking ≡ some c
      → c.rank ≤ k.buffer_size
      → is_selected i out ≡ true

module _ {Score : Type 0} (higher : Score → Score → Bool) where
  unranked : (i : InstrumentId) → rank_of i (ranking_of higher []) ≡ none
  unfolding rank_of ranking_of sort_by
  unranked i = refl

  -- From a dict of scores as many assets are selected as the target size and the scores allow. They
  -- stand in the order of their ranks, none twice, each with the rank and the score of the ranking,
  -- and a hold only for a holding that is ranked after the target size and within the buffer. If
  -- the holdings are no more than the target size, each that is ranked within the buffer is selected.
  pub select-picks :
      (k : TopKBufferSelector) (scores : Dict Score) (held : List InstrumentId)
      → IsDict scores
      → let out = select higher k scores held in
        (length out ≡ min k.target_size (length scores))
        × IsSorted by_rank out
        × IsDistinct same_asset out
        × All (IsPick k (ranking_of higher scores) held) out
        × (length held ≤ k.target_size → Protected k (ranking_of higher scores) held out)
  unfolding select ranking_of
  select-picks k [] held h = (omega arith, tt, tt, tt, λ l i c m r b. absurd (cc (unranked i, r)))
  select-picks k (e ∷ scores) held h =
      let d : Dict Score = e ∷ scores in
      let cs = ranking_of higher d in
      let order = λ (i j : InstrumentId). ltb (rank_key cs i) (rank_key cs j) in
      let ids = sort_by order (distinct held) in
      let entries =
        sort_by-IsDistinct same_key (λ x y. ==_comm x.0 y.0) (better higher) d
          (IsDict→IsDistinct d h) in
      let u : IsDistinct same_candidate cs =
        rank_from-IsDistinct 1 (sort_by (better higher) d) entries in
      let size : length cs ≡ length d =
        length-rank_from 1 (sort_by (better higher) d) ∙ length-sort_by (better higher) d in
      let members =
        sort_by-All order (λ (i : InstrumentId). contains i held ≡ true) (distinct held)
          (distinct-All held held (λ i m. m)) in
      let once = sort_by-IsDistinct ◌==◌ ==_comm order (distinct held) (distinct-IsDistinct held) in
      let first = retain_all k cs ids [] in
      let h1 : Held k cs held [] first =
        retain_all-Held k cs held ids [] u members once (start-Held k cs held ids) in
      let all = fill_up k cs first in
      let good = fill_up-IsGood k cs held cs first (rank_of_self cs u) (h1.once, h1.picks) in
      let filled = length-fill_up k cs first u h1.within in
      (
        length-sort_by by_rank all ∙ filled ∙ omega (arith, h1.counted, size),
        sort_by-IsSorted by_rank by_rank-IsOrder all,
        sort_by-IsDistinct same_asset (λ x y. ==_comm x.instrument_id y.instrument_id) by_rank all
            good.0,
        sort_by-All by_rank (IsPick k cs held) all good.1,
        λ l i c m r b.
            let inside : any (λ j. i == j) ids ≡ true =
              any-sort_by order (λ j. i == j) (distinct held)
              ∙ sym (contains→any i (distinct held))
              ∙ distinct-contains i held
              ∙ m in
            let room : length {A = SelectedAsset Score} [] + length ids ≤ k.target_size =
              omega (arith, length-sort_by order (distinct held), length-distinct held, l) in
            any-sort_by by_rank (λ (a : SelectedAsset Score). i == a.instrument_id) all
            ∙ is_selected-fill_up k cs first i (retain_all-keeps k cs ids [] i c inside r b room),
      )
