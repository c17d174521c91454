-- ===== src/Portfolio/Weighting.antt =====
-- Equal weights (quantlab/portfolio/weighting.py). The weights by inverse volatility, which are
-- computed in floating point, are not modelled.
use quantlab_v.Prelude.{List, [], ◌∷◌, map, if◌then◌else◌, get_or, length}
use quantlab_v.Prelude.Int.{pos}
use quantlab_v.Prelude.Dict.{Dict, insert, lookup}
use quantlab_v.Decimal
use quantlab_v.Decimal.{Decimal, nought, of_ℤ}
use quantlab_v.Domain.Identity.{InstrumentId}
use quantlab_v.Portfolio.Selection.{SelectedAsset}

-- `weights[asset.instrument_id] = base_w` for each asset
unfoldable pub assign : Decimal → List InstrumentId → Dict Decimal → Dict Decimal
assign base_w [] weights = weights
assign base_w (i ∷ ids) weights = assign base_w ids (insert i base_w weights)

-- `allocated += base_w` for each asset
unfoldable pub allocate : Decimal → List InstrumentId → Decimal → Decimal
allocate base_w [] allocated = allocated
allocate base_w (i ∷ ids) allocated = allocate base_w ids (Decimal.add allocated base_w)

abbrev pub ids_of : {Score : Type 0} → List (SelectedAsset Score) → List InstrumentId
ids_of {Score = Score} assets = map (λ (a : SelectedAsset Score). a.instrument_id) assets

-- `weights[top_asset] += dust`
abbrev pub add_dust : InstrumentId → Decimal → Dict Decimal → Dict Decimal
add_dust top dust weights =
    insert top (Decimal.add (get_or (lookup top weights) nought) dust) weights

unfoldable pub equal_weights_of : List InstrumentId → Decimal → Dict Decimal
unfolding assign allocate
equal_weights_of [] total = []
equal_weights_of (top ∷ ids) total =
    let n = of_ℤ (pos (length (top ∷ ids))) in
    let base_w = Decimal.quantize 6 (Decimal.quotient total n) in
    let weights = assign base_w (top ∷ ids) [] in
    let dust = Decimal.sub total (allocate base_w (top ∷ ids) nought) in
    if Decimal.eq dust nought then weights else add_dust top dust weights

-- `EqualWeighting.compute_weights`
unfoldable pub equal_weights :
    {Score : Type 0} → List (SelectedAsset Score) → Decimal → Dict Decimal
unfolding equal_weights_of
equal_weights assets total = equal_weights_of (ids_of assets) total
