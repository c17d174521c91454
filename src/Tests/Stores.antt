-- ===== src/Tests/Stores.antt =====
-- The store of artifacts.
use quantlab_v.Prelude.{
  ◌≡◌, refl, Bool, true, not, some, ◌==◌, List, [], ◌∷◌, ◌++◌, length, take, Text, text_eq,
}
use quantlab_v.Prelude.Result.{ok}
use quantlab_v.Prelude.Table
use quantlab_v.Artifacts.{
  ArtifactRef, FileSystem, ref_of, put_bytes, write_once, get_verified, exists, require_utc,
}
use quantlab_v.Artifacts.RoundTrip.{Request, put_all, get_verified-put_bytes, get_verified-ok}
use quantlab_v.Tests.Data.{name, other_name}

-- The first byte, for a hash.
abbrev digest : Text → Text
digest payload = take 1 payload

abbrev path : Text → Text
path p = p

abbrev join : Text → Text → Text
join kind file = kind ++ b'/' ∷ file

abbrev inside : Text → Bool
inside p = not (length p == 0)

abbrev payload : Text
payload = b'x' ∷ b'y' ∷ []

abbrev ref : ArtifactRef Text
ref = ref_of digest path join inside name payload other_name 5

abbrev files : FileSystem
files = (ref.uri, payload) ∷ []

payload-put : put_bytes digest path join inside name payload other_name 5 [] ≡ ok (ref, files)
unfolding put_bytes write_once Table.find Table.put
payload-put = refl

-- A payload with the same hash, which the store refuses, and one of another kind.
abbrev later : List (Request Text)
later =
    record { kind = name; payload = b'x' ∷ b'z' ∷ []; metadata = name; now = 6 }
    ∷ record { kind = other_name; payload = payload; metadata = name; now = 7 }
    ∷ []

get_verified-put_bytes_example :
    let fs = put_all digest path join inside later files in
    (get_verified digest path join inside ref fs ≡ ok payload)
    × (exists digest path join inside ref fs ≡ true)
get_verified-put_bytes_example =
    get_verified-put_bytes digest path join inside (λ p. refl) name payload other_name 5 ref []
      files later payload-put

payload-got : get_verified digest path join inside ref files ≡ ok payload
unfolding get_verified Table.find
payload-got = refl

get_verified-ok_example :
    (digest payload ≡ ref.content_hash)
    × (length payload ≡ ref.byte_count)
    × (require_utc ref.created_at ≡ ok tt)
    × (inside ref.uri ≡ true)
    × (Table.find text_eq ref.uri files ≡ some payload)
get_verified-ok_example = get_verified-ok digest path join inside ref files payload payload-got
