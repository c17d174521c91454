-- ===== src/WalkForward/Slices.antt =====
-- Slices of a list of sessions that lie side by side.
use quantlab_v.Prelude.{
  ℕ, zero, suc, ◌+◌, ◌-◌, ◌≤◌, ◌≡◌, refl, ap, List, [], ◌∷◌, ◌++◌, append_assoc, arith, length,
  take, drop, length-take, length-drop,
}
use quantlab_v.Time.{Date}
use quantlab_v.WalkForward.{slice}

-- Two parts of a list that meet.
take-drop : (a n b : ℕ) (l : List Date) → a + n ≡ b → take n (drop a l) ++ drop b l ≡ drop a l
take-drop zero zero zero l e = refl
take-drop zero zero (suc b) l e = absurd (omega arith)
take-drop zero (suc n) zero l e = absurd (omega arith)
take-drop zero (suc n) (suc b) [] e = refl
take-drop zero (suc n) (suc b) (x ∷ l) e = ap (λ t. x ∷ t) (take-drop zero n b l (omega arith))
take-drop (suc a) n zero l e = absurd (omega arith)
take-drop (suc a) zero (suc b) [] e = refl
take-drop (suc a) (suc n) (suc b) [] e = refl
take-drop (suc a) n (suc b) (x ∷ l) e = take-drop a n b l (omega arith)

slice-drop : (l : List Date) (a b : ℕ) → a ≤ b → slice l a b ++ drop b l ≡ drop a l
slice-drop l a b h = take-drop a (b - a) b l (omega arith)

pub length-slice : (l : List Date) (a b : ℕ) → a ≤ b → b ≤ length l → length (slice l a b) ≡ b - a
length-slice l a b h k = omega (arith, length-take (b - a) (drop a l), length-drop a l)

-- A list cut at four places.
pub cut :
    (l : List Date) (a b c d : ℕ)
    → a ≤ b
    → b ≤ c
    → c ≤ d
    → l ≡ slice l 0 a ++ slice l a b ++ slice l b c ++ slice l c d ++ drop d l
cut l a b c d h k m = simp (
  append_assoc,
  slice-drop l c d m,
  slice-drop l b c k,
  slice-drop l a b h,
  slice-drop l 0 a (omega arith),
)
