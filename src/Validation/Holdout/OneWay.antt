-- ===== src/Validation/Holdout/OneWay.antt =====
-- The lockbox opens once: the first access is the one on record for good.
use quantlab_v.Prelude.{
  ◌≡◌, ap, inl, inr, true, Option, some, List, [], ◌∷◌, Bool-cases, Option-cases, Text,
}
use quantlab_v.Prelude.Table.{find, pair_eq, pair_eq_refl, pair_eq→eq, find-put_self, find-put_ne}
use quantlab_v.Time.{DateTime}
use quantlab_v.Validation.Holdout.{HoldoutAccess, HoldoutService, is_consumed, open_holdout}

-- A request to open a partition for a candidate.
pub record Request : Type 0 where
  pub access_id : Text
  pub candidate_id : Text
  pub partition_id : Text
  pub actor : Text
  pub purpose : Text
  pub now : DateTime

abbrev pub request : Request → HoldoutService → HoldoutAccess × HoldoutService
request r s = open_holdout r.access_id r.candidate_id r.partition_id r.actor r.purpose r.now s

abbrev pub requests : List Request → HoldoutService → HoldoutService
requests [] s = s
requests (r ∷ rs) s = requests rs (request r s).1

abbrev pub on_record : Text → Text → HoldoutService → Option HoldoutAccess
on_record c p s = find pair_eq (c, p) s

-- What is on record stays on record over one request.
request-keeps :
    (r : Request) (c p : Text) (a : HoldoutAccess) (s : HoldoutService)
    → on_record c p s ≡ some a
    → on_record c p (request r s).1 ≡ some a
unfolding open_holdout
request-keeps r c p a s h = elim (Option-cases (find pair_eq (r.candidate_id, r.partition_id) s)) [
  | inr (x, e) ↦ rw (e, open_holdout) h
  | inl e ↦ elim (Bool-cases (pair_eq (r.candidate_id, r.partition_id) (c, p))) [
    | inl same ↦
        let k = pair_eq→eq (r.candidate_id, r.partition_id) (c, p) same in
        absurd (cc (e, h, ap (λ (q : Text × Text). find pair_eq q s) k))
    | inr other ↦
        rw (e, open_holdout, find-put_ne pair_eq pair_eq_refl pair_eq→eq _ (c, p) _ s other) h
  ]
]

requests-keep :
    (rs : List Request) (c p : Text) (a : HoldoutAccess) (s : HoldoutService)
    → on_record c p s ≡ some a
    → on_record c p (requests rs s) ≡ some a
requests-keep [] c p a s h = h
requests-keep (r ∷ rs) c p a s h =
    requests-keep rs c p a (request r s).1 (request-keeps r c p a s h)

-- A request leaves the access that it returns on record.
request-on_record :
    (r : Request) (s : HoldoutService)
    → on_record r.candidate_id r.partition_id (request r s).1 ≡ some (request r s).0
unfolding open_holdout
request-on_record r s = elim (Option-cases (find pair_eq (r.candidate_id, r.partition_id) s)) [
  | inr (x, e) ↦ rw (e, open_holdout) e
  | inl e ↦ rw (e, open_holdout) (find-put_self pair_eq pair_eq_refl pair_eq→eq _ _ s)
]

found-again :
    (r : Request) (s : HoldoutService) (a : HoldoutAccess)
    → on_record r.candidate_id r.partition_id s ≡ some a
    → request r s ≡ (a, s)
unfolding open_holdout
found-again r s a h = rw (h, open_holdout)

-- A partition that was opened for a candidate is consumed for good: after any further requests, a
-- later one for the same pair, by whoever and whenever, gets the first access and writes nothing.
pub open_holdout-one_way :
    (first later : Request) (between : List Request) (s : HoldoutService)
    → later.candidate_id ≡ first.candidate_id
    → later.partition_id ≡ first.partition_id
    → let (access, s1) = request first s in
      let s2 = requests between s1 in
      (is_consumed first.candidate_id first.partition_id s2 ≡ true)
      × (request later s2 ≡ (access, s2))
unfolding is_consumed
open_holdout-one_way first later between s ec ep =
    let kept =
      requests-keep between first.candidate_id first.partition_id (request first s).0
        (request first s).1 (request-on_record first s) in
    (rw kept, found-again later _ _ (rw (ec, ep) kept))
