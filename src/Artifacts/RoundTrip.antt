-- ===== src/Artifacts/RoundTrip.antt =====
-- What was put is got back, whatever is put later; and what is got has the hash and the size of its
-- reference.
use quantlab_v.Prelude.{
  ℕ, ◌≡◌, refl, sym, ap, ◌∙◌, inl, inr, Bool, true, false, not, ◌==◌, ==→eq, ==_refl, Bool-cases,
  Option-cases, some, List, [], ◌∷◌, length, Text, text_eq, arith,
}
use quantlab_v.Prelude.Result.{Result, Error, ok, err, >>=-eq-ok, ok-injective, raise_if}
use quantlab_v.Prelude.Table.{find, put, text_eq_refl, text_eq→eq, find-put_self, find-put_ne}
use quantlab_v.Artifacts
use quantlab_v.Artifacts.{
  ArtifactRef, FileSystem, write_once, read_bytes, target_of, ref_of, put_bytes, get_verified,
  exists, ensure_safe_path,
}

-- What is written on success, and that nothing that stood is changed.
write_once-found :
    (target payload : Text) (fs fs' : FileSystem)
    → write_once target payload fs ≡ ok fs'
    → find text_eq target fs' ≡ some payload
unfolding write_once
write_once-found target payload fs fs' h = elim (Option-cases (find text_eq target fs)) [
  | inl e ↦
      let made : put text_eq target payload fs ≡ fs' = ok-injective (rw (e, write_once) at h) in
      rw (sym made) (find-put_self text_eq text_eq_refl text_eq→eq target payload fs)
  | inr (old, e) ↦ elim (Bool-cases (text_eq old payload)) [
    | inl same ↦
        let made : fs ≡ fs' = ok-injective (rw (e, write_once, same) at h) in
        rw (sym made, e, text_eq→eq old payload same)
    | inr other ↦ absurd (cc (rw (e, write_once, other) at h))
  ]
]

write_once-keeps :
    (target payload p x : Text) (fs fs' : FileSystem)
    → find text_eq p fs ≡ some x
    → write_once target payload fs ≡ ok fs'
    → find text_eq p fs' ≡ some x
unfolding write_once
write_once-keeps target payload p x fs fs' k h = elim (Option-cases (find text_eq target fs)) [
  | inl e ↦
      let made : put text_eq target payload fs ≡ fs' = ok-injective (rw (e, write_once) at h) in
      elim (Bool-cases (text_eq target p)) [
        | inl same ↦
            absurd (cc (e, k, ap (λ (q : Text). find text_eq q fs) (text_eq→eq target p same)))
        | inr other ↦
            rw (sym made, find-put_ne text_eq text_eq_refl text_eq→eq target p payload fs other) k
      ]
  | inr (old, e) ↦ elim (Bool-cases (text_eq old payload)) [
    | inl same ↦
        let made : fs ≡ fs' = ok-injective (rw (e, write_once, same) at h) in rw (sym made) k
    | inr other ↦ absurd (cc (rw (e, write_once, other) at h))
  ]
]

raise_if-ok : (b : Bool) (e : Error) (u : Unit {0}) → raise_if b e ≡ ok u → b ≡ false
raise_if-ok false e u h = refl
raise_if-ok true e u h = absurd (cc h)

not-false : (b : Bool) → not b ≡ false → b ≡ true
not-false b h = ground arith

read_bytes-found :
    (p x : Text) (fs : FileSystem) → read_bytes p fs ≡ ok x → find text_eq p fs ≡ some x
read_bytes-found p x fs h = elim (Option-cases (find text_eq p fs)) [
  | inl e ↦ absurd (cc (rw (e, read_bytes) at h))
  | inr (y, e) ↦ rw (e, ok-injective (rw (e, read_bytes) at h))
]

found-read_bytes :
    (p x : Text) (fs : FileSystem) → find text_eq p fs ≡ some x → read_bytes p fs ≡ ok x
found-read_bytes p x fs e = rw (read_bytes, e)

-- A later request to put an artifact.
pub record Request (Metadata : Type 0) : Type 0 where
  pub kind : Text
  pub payload : Text
  pub metadata : Metadata
  pub now : ℕ

module _ {Metadata : Type 0} (sha256 : Text → Text) (resolve : Text → Text)
    (join : Text → Text → Text) (inside : Text → Bool) where
  -- the files after a request, which may fail
  abbrev pub files_after : Result (ArtifactRef Metadata × FileSystem) → FileSystem → FileSystem
  files_after (ok (ref, fs')) fs = fs'
  files_after (err e) fs = fs

  abbrev pub put_all : List (Request Metadata) → FileSystem → FileSystem
  put_all [] fs = fs
  put_all (r ∷ rs) fs =
      put_all rs
        (files_after (put_bytes sha256 resolve join inside r.kind r.payload r.metadata r.now fs) fs)

  put_bytes-parts :
      (kind payload : Text) (metadata : Metadata) (now : ℕ) (ref : ArtifactRef Metadata)
      (fs fs' : FileSystem)
      → put_bytes sha256 resolve join inside kind payload metadata now fs ≡ ok (ref, fs')
      → let target = target_of sha256 resolve join inside kind payload in
        (inside (resolve target) ≡ true)
        × (write_once target payload fs ≡ ok fs')
        × (ref ≡ ref_of sha256 resolve join inside kind payload metadata now)
  unfolding put_bytes
  put_bytes-parts kind payload metadata now ref fs fs' h =
      let target = target_of sha256 resolve join inside kind payload in
      let (u, e1, h1) = >>=-eq-ok (raise_if (length kind == 0) _) _ h in
      let (v, e2, h2) = >>=-eq-ok (ensure_safe_path sha256 resolve join inside target) _ h1 in
      let (files, e3, h3) = >>=-eq-ok (write_once target payload fs) _ h2 in
      let made = ok-injective h3 in
      (
        not-false _ (raise_if-ok _ _ v e2),
        e3 ∙ ap (λ (r : ArtifactRef Metadata × FileSystem). ok r.1) made,
        sym (ap (λ (r : ArtifactRef Metadata × FileSystem). r.0) made),
      )

  put_all-keeps :
      (rs : List (Request Metadata)) (p x : Text) (fs : FileSystem)
      → find text_eq p fs ≡ some x
      → find text_eq p (put_all rs fs) ≡ some x
  put_all-keeps [] p x fs k = k
  put_all-keeps (r ∷ rs) p x fs k = put_all-keeps rs p x _ (after _ refl)
    where
      after :
          (o : Result (ArtifactRef Metadata × FileSystem))
          → put_bytes sha256 resolve join inside r.kind r.payload r.metadata r.now fs ≡ o
          → find text_eq p (files_after o fs) ≡ some x
      after (err e) h = k
      after (ok (ref, fs')) h =
          let (i, w, m) = put_bytes-parts r.kind r.payload r.metadata r.now ref fs fs' h in
          write_once-keeps _ r.payload p x fs fs' k w

  -- If resolving a resolved path changes nothing, then an artifact that was put is there and got back
  -- from its reference, after any later requests to put others.
  pub get_verified-put_bytes :
      ((p : Text) → resolve (resolve p) ≡ resolve p)
      → (kind payload : Text) (metadata : Metadata) (now : ℕ) (ref : ArtifactRef Metadata)
        (fs fs' : FileSystem) (later : List (Request Metadata))
      → put_bytes sha256 resolve join inside kind payload metadata now fs ≡ ok (ref, fs')
      → (get_verified sha256 resolve join inside ref (put_all later fs') ≡ ok payload)
        × (exists sha256 resolve join inside ref (put_all later fs') ≡ true)
  unfolding get_verified exists
  get_verified-put_bytes idem kind payload metadata now ref fs fs' later h =
      let (i, w, m) = put_bytes-parts kind payload metadata now ref fs fs' h in
      let q = idem (join kind (Artifacts.bin_name (sha256 payload))) in
      let there = put_all-keeps later _ payload fs' (write_once-found _ payload fs fs' w) in
      (
        rw (
          m,
          q,
          q,
          rw q at i,
          found-read_bytes _ payload _ there,
          text_eq_refl (sha256 payload),
          ==_refl (length payload),
        ),
        rw (m, q, q, rw q at i, there),
      )

  -- What is got has the hash and the number of bytes of its reference, which is in UTC, and comes from
  -- a file inside the root.
  pub get_verified-ok :
      (ref : ArtifactRef Metadata) (fs : FileSystem) (payload : Text)
      → get_verified sha256 resolve join inside ref fs ≡ ok payload
      → (sha256 payload ≡ ref.content_hash)
        × (length payload ≡ ref.byte_count)
        × (Artifacts.require_utc ref.created_at ≡ ok tt)
        × (inside (resolve (resolve ref.uri)) ≡ true)
        × (find text_eq (resolve ref.uri) fs ≡ some payload)
  unfolding get_verified
  get_verified-ok ref fs payload h =
      let (u, e1, h1) =
        >>=-eq-ok (ensure_safe_path sha256 resolve join inside (resolve ref.uri)) _ h in
      let (x, e2, h2) = >>=-eq-ok (read_bytes (resolve ref.uri) fs) _ h1 in
      let (v, e3, h3) = >>=-eq-ok (raise_if (not (text_eq (sha256 x) ref.content_hash)) _) _ h2 in
      let (t, e4, h4) = >>=-eq-ok (raise_if (not (length x == ref.byte_count)) _) _ h3 in
      let (z, e5, h5) = >>=-eq-ok (Artifacts.require_utc ref.created_at) _ h4 in
      let same = ok-injective h5 in
      (
        ap sha256 (sym same) ∙ text_eq→eq _ _ (not-false _ (raise_if-ok _ _ v e3)),
        ap (λ (y : Text). length y) (sym same) ∙ ==→eq _ _ (not-false _ (raise_if-ok _ _ t e4)),
        e5,
        not-false _ (raise_if-ok _ _ u e1),
        read_bytes-found _ x fs e2 ∙ ap (λ (y : Text). some y) same,
      )
