-- ===== src/Portfolio/Constraints/Caps.antt =====
-- The cap on names: no weight exceeds it, nothing else changes, and the status tells whether it
-- bound.
use quantlab_v.Prelude.{ℕ, ◌≡◌, refl, Bool, false, [], ◌∷◌, arith, if◌then◌else◌, any, All}
use quantlab_v.Prelude.Dict.{lookup}
use mathlib.Core.Option
use quantlab_v.Decimal
use quantlab_v.Decimal.{Decimal}
use quantlab_v.Decimal.Order.{lt_irrefl}
use quantlab_v.Domain.Identity.{InstrumentId}
use quantlab_v.Portfolio.Constraints.{Weights, pass, adjust, cap_names, apply_max_name_weight}

-- What the cap makes of one weight.
abbrev pub clip : Decimal → Decimal → Decimal
clip cap w = if Decimal.lt cap w then cap else w

-- Whether some weight exceeds the cap.
abbrev pub exceeds : Decimal → Weights → Bool
exceeds cap ws = any (λ (e : ℕ × Decimal). Decimal.lt cap e.1) ws

cap_names-lookup :
    (cap : Decimal) (i : InstrumentId) (ws : Weights)
    → lookup i (cap_names cap ws).0 ≡ Option.map (clip cap) (lookup i ws)
unfolding cap_names
cap_names-lookup cap i [] = refl
cap_names-lookup cap i ((j, w) ∷ ws) = ground (arith, cap_names-lookup cap i ws)

cap_names-status : (cap : Decimal) (ws : Weights) → (cap_names cap ws).1 ≡ exceeds cap ws
unfolding cap_names
cap_names-status cap [] = refl
cap_names-status cap ((j, w) ∷ ws) = ground (arith, cap_names-status cap ws)

cap_names-All :
    (cap : Decimal) (ws : Weights)
    → All (λ (e : ℕ × Decimal). Decimal.lt cap e.1 ≡ false) (cap_names cap ws).0
unfolding cap_names
cap_names-All cap [] = tt
cap_names-All cap ((j, w) ∷ ws) = ground (arith, lt_irrefl cap, cap_names-All cap ws)

-- Every weight comes out clipped at the cap, and none above it; the status is an adjustment exactly
-- if some weight was above.
pub apply_max_name_weight-clips :
    (cap : Decimal) (ws : Weights)
    → let (adjusted, result) = apply_max_name_weight cap ws in
      ((i : InstrumentId) → lookup i adjusted ≡ Option.map (clip cap) (lookup i ws))
      × All (λ (e : ℕ × Decimal). Decimal.lt cap e.1 ≡ false) adjusted
      × (result.status ≡ (if exceeds cap ws then adjust else pass))
unfolding apply_max_name_weight
apply_max_name_weight-clips cap ws =
    (λ i. cap_names-lookup cap i ws, cap_names-All cap ws, rw (cap_names-status cap ws))
