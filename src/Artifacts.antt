-- ===== src/Artifacts.antt =====
-- The local store of artifacts (quantlab/infrastructure/artifacts.py, require_utc of
-- quantlab/common/clock.py). The hash SHA-256 and the paths of `pathlib` are
-- parameters: `resolve` makes a path absolute, `join` puts a file of a kind under the root, and
-- `inside` tells whether a path is below it. Only files are entries of the file system; directories are not.
pub mod RoundTrip
use quantlab_v.Prelude.{
  ℕ, Bool, not, ◌&&◌, ◌==◌, if◌then◌else◌, Option, none, some, is_some, [], ◌∷◌, ◌++◌, length, Text,
  text_eq,
}
use quantlab_v.Prelude.Result.{
  ◌>>=◌, ◌>>◌, Result, ok, err, raise_if, naive_datetime, empty_kind, not_utc, unsafe_path,
  artifact_changed, artifact_missing, wrong_hash, wrong_size,
}
use quantlab_v.Prelude.Int.{ℤ, pos, mag}
use quantlab_v.Prelude.Table.{Table, find, put}

-- A `datetime`: its instant, and its offset from UTC in seconds if it carries a zone.
pub record Timepoint : Type 0 where
  pub instant : ℕ
  pub utcoffset : Option ℤ

abbrev pub require_zero : Option ℤ → Result (Unit {0})
require_zero none = err naive_datetime
require_zero (some offset) = raise_if (not (mag offset == 0)) not_utc

-- `require_utc`
abbrev pub require_utc : Timepoint → Result (Unit {0})
require_utc value = require_zero value.utcoffset

pub record ArtifactRef (Metadata : Type 0) : Type 0 where
  pub artifact_id : Text
  pub kind : Text
  pub uri : Text
  pub content_hash : Text
  pub byte_count : ℕ
  pub created_at : Timepoint
  pub metadata : Metadata

-- The contents of the files, by their absolute paths.
abbrev pub FileSystem : Type 0
FileSystem = Table Text Text

-- a file that is there must have the payload; one that is not is written
unfoldable pub write_once : Text → Text → FileSystem → Result FileSystem
write_once target payload fs = elim (find text_eq target fs) [
  | none ↦ ok (put text_eq target payload fs)
  | some existing ↦ if text_eq existing payload then ok fs else err artifact_changed
]

abbrev pub read_bytes : Text → FileSystem → Result Text
read_bytes target fs = elim (find text_eq target fs) [
  | none ↦ err artifact_missing
  | some payload ↦ ok payload
]

abbrev pub bin_name : Text → Text
bin_name content_hash = content_hash ++ b'.' ∷ b'b' ∷ b'i' ∷ b'n' ∷ []

module _ (sha256 : Text → Text) (resolve : Text → Text) (join : Text → Text → Text)
    (inside : Text → Bool) where
  -- `_ensure_safe_path`
  abbrev pub ensure_safe_path : Text → Result (Unit {0})
  ensure_safe_path path = raise_if (not (inside (resolve path))) unsafe_path

  abbrev pub target_of : Text → Text → Text
  target_of kind payload = resolve (join kind (bin_name (sha256 payload)))

  module _ {Metadata : Type 0} where
    abbrev pub ref_of : Text → Text → Metadata → ℕ → ArtifactRef Metadata
    ref_of kind payload metadata now = record {
      artifact_id = sha256 payload;
      kind = kind;
      uri = target_of kind payload;
      content_hash = sha256 payload;
      byte_count = length payload;
      created_at = record { instant = now; utcoffset = some (pos 0) };
      metadata = metadata;
    }

    -- `put_bytes`
    unfoldable pub put_bytes :
        Text → Text → Metadata → ℕ → FileSystem → Result (ArtifactRef Metadata × FileSystem)
    unfolding write_once
    put_bytes kind payload metadata now fs = do
      raise_if (length kind == 0) empty_kind
      ensure_safe_path (target_of kind payload)
      files ← write_once (target_of kind payload) payload fs
      ok (ref_of kind payload metadata now, files)

    -- `get_verified`
    unfoldable pub get_verified : ArtifactRef Metadata → FileSystem → Result Text
    get_verified ref fs = do
      ensure_safe_path (resolve ref.uri)
      payload ← read_bytes (resolve ref.uri) fs
      raise_if (not (text_eq (sha256 payload) ref.content_hash)) wrong_hash
      raise_if (not (length payload == ref.byte_count)) wrong_size
      require_utc ref.created_at
      ok payload

    -- `exists`
    unfoldable pub exists : ArtifactRef Metadata → FileSystem → Bool
    exists ref fs =
        inside (resolve (resolve ref.uri)) && is_some (find text_eq (resolve ref.uri) fs)
