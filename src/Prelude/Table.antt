-- ===== src/Prelude/Table.antt =====
-- A Python dict over keys with a Boolean equality, in insertion order, and the equality of texts
-- and of pairs of texts.
use mathlib.Core.Path.{◌≡◌, refl, ap}
use mathlib.Core.Logic.{inl, inr}
use mathlib.Core.Bool.{Bool, true, false, ◌&&◌}
use mathlib.Core.Option.{Option, none, some}
use mathlib.Core.List.{List, [], ◌∷◌}
use native.Mathlib.Omega.{arith}
use quantlab_v.Prelude.Tests.{if◌then◌else◌, Bool-cases}
use quantlab_v.Prelude.Lists.{Text, text_eq}

abbrev pub pair_eq : Text × Text → Text × Text → Bool
pair_eq (a, b) (c, d) = text_eq a c && text_eq b d

pub text_eq_refl : (s : Text) → text_eq s s ≡ true
text_eq_refl [] = refl
text_eq_refl (c ∷ s) = ground (arith, text_eq_refl s)

pub text_eq→eq : (s t : Text) → text_eq s t ≡ true → s ≡ t
text_eq→eq [] [] h = refl
text_eq→eq [] (d ∷ t) h = cc
text_eq→eq (c ∷ s) [] h = cc
text_eq→eq (c ∷ s) (d ∷ t) h = ground (arith, text_eq→eq s t)

pub pair_eq_refl : (k : Text × Text) → pair_eq k k ≡ true
pair_eq_refl (a, b) = ground (arith, text_eq_refl a, text_eq_refl b)

pub pair_eq→eq : (k j : Text × Text) → pair_eq k j ≡ true → k ≡ j
pair_eq→eq (a, b) (c, d) h = ground (arith, text_eq→eq a c, text_eq→eq b d)

abbrev pub Table {ℓ κ} : Type ℓ → Type κ → Type (ℓ ⊔ κ)
Table K V = List (K × V)

module _ {ℓ κ} {K : Type ℓ} {V : Type κ} (eq : K → K → Bool) where
  -- `d.get(k)`
  unfoldable pub find : K → Table K V → Option V
  find k [] = none
  find k ((j, v) ∷ d) = if eq j k then some v else find k d

  -- `d[k] = v`
  unfoldable pub put : K → V → Table K V → Table K V
  put k v [] = (k, v) ∷ []
  put k v ((j, w) ∷ d) = if eq j k then (j, v) ∷ d else (j, w) ∷ put k v d

  module _ (eq_refl : (k : K) → eq k k ≡ true) (eq→eq : (k j : K) → eq k j ≡ true → k ≡ j) where
    pub find-put_self : (k : K) (v : V) (d : Table K V) → find k (put k v d) ≡ some v
    unfolding find put
    find-put_self k v [] = rw (eq_refl k)
    find-put_self k v ((j, w) ∷ d) = elim (Bool-cases (eq j k)) [
      | inl e ↦ rw (e, e)
      | inr e ↦ rw (e, e) (find-put_self k v d)
    ]

    pub find-put_ne :
        (k i : K) (v : V) (d : Table K V) → eq k i ≡ false → find i (put k v d) ≡ find i d
    unfolding find put
    find-put_ne k i v [] n = rw n
    find-put_ne k i v ((j, w) ∷ d) n = elim (Bool-cases (eq j k)) [
      | inl e ↦ let jk : j ≡ k = eq→eq j k e in rw (e, jk, n)
      | inr e ↦ rw e (ap (λ (t : Option V). if eq j i then some w else t) (find-put_ne k i v d n))
    ]
