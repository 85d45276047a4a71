-- ===== src/Storage/Common.antt =====
-- The errors, limits and argument checks that both adapters of src/reliamesh/storage.py share.
use reliamesh.Prelude.{
  ℕ, ◌+◌, ◌*◌, Bool, true, false, Option, none, some, List, [], ◌∷◌, Text, text, text_le, in_range,
  all_chars, length, take, ltb, leb, ◌==◌, if◌then◌else◌, not, ◌&&◌, ◌||◌, Result, ok, err, ◌>>◌,
  raise_if, any,
}
use reliamesh.Host.{Instant, seconds}
use reliamesh.Detection.State.{DateTime, aware, naive}
use reliamesh.Detection.Prune.{mem_text}
use reliamesh.Detection.Batch.{sort_by}

abbrev pub max_state_bytes : ℕ
max_state_bytes = 800_000

abbrev pub max_active_keys : ℕ
max_active_keys = 16

-- `RETENTION = timedelta(days=7, minutes=5)`
abbrev pub retention : ℕ
retention = seconds (7 * 24 * 3600 + 5 * 60)

abbrev pub schema_version : ℕ
schema_version = 1

-- `sorted(SCOPES)`
abbrev pub all_scopes : List Text
all_scopes = text "ingest" ∷ text "manage" ∷ text "read" ∷ []

-- The exceptions of the module, the interpreter's and the database's that its code can meet, and
-- those that a callback raises.
pub data Error (E : Type 0) : Type 0 where
  value_error storage_error storage_limit tenant_missing tenant_exists key_conflict
        integrity_error :
      Error E
  callback_error : E → Error E

-- What a key authorises: the row, as `_key_record` gives it. `active` is always true there.
pub record KeyRecord : Type 0 where
  pub tenant_id : Text
  pub key_id : Text
  pub scopes : List Text
  pub active : Bool
  pub created_at : Instant

unfoldable pub key_record : Text → Text → List Text → Instant → KeyRecord
key_record tenant_id key_hash scopes now = record {
  tenant_id = tenant_id;
  key_id = take 12 key_hash;
  scopes = scopes;
  active = true;
  created_at = now;
}

-- What `list_keys` says of a key.
pub record KeyInfo : Type 0 where
  pub key_id : Text
  pub scopes : List Text
  pub created_at : Instant
  pub active : Bool

-- `json.dumps` and `json.loads` of tenant states; `none` is a refusal.
pub record Codec : Type 1 where
  pub State : Type 0
  -- the empty object
  pub empty : State
  pub dumps : State → Option Text
  pub loads : Text → Option State

unfoldable pub is_hex : ℕ → Bool
is_hex c = in_range b'0' b'9' c || in_range b'a' b'f' c

unfoldable pub is_id_char : ℕ → Bool
is_id_char c =
    in_range b'A' b'Z' c
    || (in_range b'a' b'z' c || (in_range b'0' b'9' c || (c == b'_' || (c == b'-'))))

unfoldable pub has_duplicate : List Text → Bool
has_duplicate [] = false
has_duplicate (x ∷ xs) = mem_text x xs || has_duplicate xs

module _ {E : Type 0} where
  unfoldable pub utc : DateTime → Result (Error E) Instant
  utc (aware t) = ok t
  utc naive = err value_error

  unfoldable pub check_tenant_id : Text → Result (Error E) Text
  check_tenant_id value =
      if leb 1 (length value) && (leb (length value) 128 && all_chars is_id_char value)
      then ok value
      else err value_error

  unfoldable pub check_digest : Text → Result (Error E) Text
  check_digest value =
      if length value == 64 && all_chars is_hex value then ok value else err value_error

  unfoldable pub check_selector : Text → Result (Error E) Text
  check_selector value =
      if (length value == 12 || (length value == 64)) && all_chars is_hex value
      then ok value
      else err value_error

  unfoldable pub check_scopes : List Text → Result (Error E) (List Text)
  check_scopes values = do
    raise_if (leb (length values) 0 || ltb (length all_scopes) (length values)) value_error
    raise_if (any (λ value. not (mem_text value all_scopes)) values) value_error
    raise_if (has_duplicate values) value_error
    ok (sort_by text_le values)

  -- `_serialize`; the encoded text is ASCII, a byte for each character
  unfoldable pub serialize : (c : Codec) → c.State → Result (Error E) Text
  serialize c state = elim (c.dumps state) [
    | none ↦ err value_error
    | some encoded ↦ if leb max_state_bytes (length encoded) then err storage_limit else ok encoded
  ]
