-- ===== src/Prelude/Group.antt =====
-- Elements grouped by a key in a dict: `groups.setdefault(key(x), []).append(x)` for each x.
use mathlib.Core.Path.{◌≡◌, refl, sym, ap, ◌∙◌}
use mathlib.Core.Bool.{Bool, true, false}
use mathlib.Core.List.{List, [], ◌∷◌, ◌++◌, append-nil, append_assoc}
use mathlib.Core.Option.{none}
use mathlib.Core.Logic.{inl, inr}
use quantlab_v.Prelude.Tests.{if◌then◌else◌, Bool-cases, get_or}
use quantlab_v.Prelude.Lists.{filter}
use quantlab_v.Prelude.Table.{Table, find, put, find-put_self, find-put_ne}

module _ {ℓ κ} {K : Type ℓ} {A : Type κ} (eq : K → K → Bool) (key : A → K) where
  unfoldable pub add_to_group : A → Table K (List A) → Table K (List A)
  add_to_group x groups = put eq (key x) (get_or (find eq (key x) groups) [] ++ x ∷ []) groups

  unfoldable pub group_by : List A → Table K (List A) → Table K (List A)
  unfolding add_to_group
  group_by [] groups = groups
  group_by (x ∷ xs) groups = group_by xs (add_to_group x groups)

  abbrev pub has_key : K → A → Bool
  has_key k x = eq (key x) k

  abbrev pub group_at : K → Table K (List A) → List A
  group_at k groups = get_or (find eq k groups) []

  module _ (eq_refl : (k : K) → eq k k ≡ true) (eq→eq : (k j : K) → eq k j ≡ true → k ≡ j) where
    group_at-add_to_group :
        (k : K) (x : A) (groups : Table K (List A))
        → group_at k (add_to_group x groups)
          ≡ group_at k groups ++ (if has_key k x then x ∷ [] else [])
    unfolding add_to_group
    group_at-add_to_group k x groups = elim (Bool-cases (has_key k x)) [
      | inl e ↦
          let same : key x ≡ k = eq→eq (key x) k e in
          rw (e, same, find-put_self eq eq_refl eq→eq k _ groups)
      | inr e ↦ rw (e, find-put_ne eq eq_refl eq→eq (key x) k _ groups e) (sym (append-nil _))
    ]

    -- A group holds the elements of its key, in their order.
    pub group_at-group_by :
        (k : K) (xs : List A) (groups : Table K (List A))
        → group_at k (group_by xs groups) ≡ group_at k groups ++ filter (has_key k) xs
    unfolding group_by
    group_at-group_by k [] groups = sym (append-nil _)
    group_at-group_by k (x ∷ xs) groups = elim (Bool-cases (has_key k x)) [
      | inl e ↦
          group_at-group_by k xs (add_to_group x groups)
          ∙ rw (group_at-add_to_group k x groups, e)
              (append_assoc (group_at k groups) (x ∷ []) (filter (has_key k) xs))
      | inr e ↦
          group_at-group_by k xs (add_to_group x groups)
          ∙ rw (group_at-add_to_group k x groups, e)
              (ap (λ (l : List A). l ++ filter (has_key k) xs) (append-nil (group_at k groups)))
    ]

    -- No key stands twice.
    abbrev pub IsTable : Table K (List A) → Type κ
    IsTable [] = Unit
    IsTable ((k, v) ∷ d) = (find eq k d ≡ none) × IsTable d

    put-IsTable : (k : K) (v : List A) (d : Table K (List A)) → IsTable d → IsTable (put eq k v d)
    unfolding put find
    put-IsTable k v [] h = (refl, tt)
    put-IsTable k v ((j, w) ∷ d) h = elim (Bool-cases (eq j k)) [
      | inl e ↦ rw e h
      | inr e ↦
          rw e (find-put_ne eq eq_refl eq→eq k j v d (other j k e) ∙ h.0, put-IsTable k v d h.1)
    ]
      where
        other : (j k : K) → eq j k ≡ false → eq k j ≡ false
        other j k e = elim (Bool-cases (eq k j)) [
          | inl same ↦ absurd (cc (e, eq_refl k, eq→eq k j same))
          | inr ne ↦ ne
        ]

    pub group_by-IsTable :
        (xs : List A) (d : Table K (List A)) → IsTable d → IsTable (group_by xs d)
    unfolding group_by
    group_by-IsTable [] d h = h
    group_by-IsTable (x ∷ xs) d h =
        group_by-IsTable xs (add_to_group x d) (put-IsTable (key x) _ d h)
