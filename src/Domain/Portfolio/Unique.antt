-- ===== src/Domain/Portfolio/Unique.antt =====
-- The check for repeated instruments decides that there are none.
use quantlab_v.Prelude.{
  ℕ, ◌≡◌, refl, ◌↔◌, inl, inr, false, List, [], ◌∷◌, arith, Bool-cases, All, contains,
}
use quantlab_v.Prelude.Result.{ok}
use quantlab_v.Domain.Portfolio.{unique_from, require_unique_instruments}

-- No identifier occurs twice, and none is in `seen`.
abbrev pub IsFresh : List ℕ → List ℕ → Type 0
IsFresh seen [] = Unit
IsFresh seen (i ∷ ids) = (contains i seen ≡ false) × IsFresh (i ∷ seen) ids

-- Every identifier differs from all that follow it.
abbrev pub IsUnique : List ℕ → Type 0
IsUnique [] = Unit
IsUnique (i ∷ ids) = (contains i ids ≡ false) × IsUnique ids

abbrev pub Apart : List ℕ → List ℕ → Type 0
Apart seen ids = All (λ (i : ℕ). contains i seen ≡ false) ids

Apart-cons :
    (i : ℕ) (seen ids : List ℕ) → Apart (i ∷ seen) ids → Apart seen ids × (contains i ids ≡ false)
Apart-cons i seen [] h = (tt, refl)
Apart-cons i seen (j ∷ ids) h = ground (arith, Apart-cons i seen ids h.1)

cons-Apart :
    (i : ℕ) (seen ids : List ℕ) → Apart seen ids → contains i ids ≡ false → Apart (i ∷ seen) ids
cons-Apart i seen [] h k = tt
cons-Apart i seen (j ∷ ids) h k = ground (arith, cons-Apart i seen ids h.1)

unique_from_iff :
    (seen ids : List ℕ) → (unique_from seen ids ≡ ok tt) ↔ (Apart seen ids × IsUnique ids)
unfolding unique_from
unique_from_iff seen [] = (λ h. (tt, tt), λ h. refl)
unique_from_iff seen (i ∷ ids) = elim (Bool-cases (contains i seen)) [
  | inl e ↦ (λ h. absurd (ground arith), λ h. absurd (ground arith))
  | inr e ↦
      let ih = unique_from_iff (i ∷ seen) ids in
      (
        λ h.
            let p = ih.0 (ground arith) in
            let q = Apart-cons i seen ids p.0 in ((e, q.0), (q.1, p.1)),
        λ h. let r = ih.1 (cons-Apart i seen ids h.0.1 h.1.0, h.1.1) in ground arith,
      )
]

Apart-nil : (ids : List ℕ) → Apart [] ids
Apart-nil [] = tt
Apart-nil (i ∷ ids) = (refl, Apart-nil ids)

-- The check of a portfolio passes exactly when no instrument is held twice.
pub require_unique_instruments_iff :
    (ids : List ℕ) → (require_unique_instruments ids ≡ ok tt) ↔ IsUnique ids
unfolding require_unique_instruments
require_unique_instruments_iff ids =
    let i = unique_from_iff [] ids in (λ h. (i.0 h).1, λ u. i.1 (Apart-nil ids, u))
