-- ===== src/Storage/Firestore/Documents.antt =====
-- The documents of `FirestoreStore` and its transactions. A transaction's reads come before its
-- writes, and its writes are applied together when its callback returns and not at all when it
-- raises: the documented behaviour of `google.cloud.firestore.transactional`, for one transaction
-- at a time.
use reliamesh.Prelude.{
  ℕ, ◌+◌, Bool, Option, none, some, List, Text, length, ltb, leb, ◌==◌, if◌then◌else◌, not, Result,
  ok, err,
}
use reliamesh.Prelude.Dict.{Dict, insert, erase}
use reliamesh.Host.{Instant}
use reliamesh.Detection.Prune.{mem_text}
use reliamesh.Storage.Common.{
  Error, Codec, KeyRecord, value_error, storage_error, tenant_missing, check_digest, schema_version,
  max_active_keys, retention,
}

-- A document of the collection rm_tenants.
pub record Metadata : Type 0 where
  pub schema : ℕ
  pub created_at : Instant
  pub key_hashes : List Text

-- A document of the collection rm_states.
pub record StateDocument : Type 0 where
  pub schema : ℕ
  pub state_json : Text
  pub updated_at : Instant
  pub expires_at : Instant

pub record Documents : Type 0 where
  pub tenants : Dict Metadata
  pub keys : Dict KeyRecord
  pub states : Dict StateDocument

abbrev pub Transaction : Type 0 → Type 0 → Type 0
Transaction E A = Documents → Result (Error E) (A × Documents)

module _ {E : Type 0} where
  module _ {A : Type 0} where
    abbrev pub pure : A → Transaction E A
    pure a d = ok (a, d)

    abbrev pub lift : Result (Error E) A → Transaction E A
    lift (ok a) d = ok (a, d)
    lift (err e) d = err e

    abbrev pub get : (Documents → A) → Transaction E A
    get f d = ok (f d, d)

    -- `if not tenant.exists and expected_key_hash is None: return a`
    abbrev pub unless_absent : Option Metadata → Option Text → A → Transaction E A → Transaction E A
    unless_absent none none a m = pure a
    unless_absent (some t) none a m = m
    unless_absent tenant (some key) a m = m

    -- `self._run(callback)`
    abbrev pub run : Transaction E A → Documents → Result (Error E) A × Documents
    run m d = elim (m d) [ ok r ↦ (ok r.0, r.1) | err e ↦ (err e, d) ]

  infixl 5 ◌>>=◌ ◌>>◌
  abbrev pub ◌>>=◌ : {A B : Type 0} → Transaction E A → (A → Transaction E B) → Transaction E B
  ◌>>=◌ m f d = elim (m d) [ ok r ↦ f r.0 r.1 | err e ↦ err e ]

  abbrev pub ◌>>◌ : {A B : Type 0} → Transaction E A → Transaction E B → Transaction E B
  m >> k = m >>= λ _. k

  abbrev pub raise_if : Bool → Error E → Transaction E (Unit {0})
  raise_if b e d = if b then err e else ok (tt, d)

  abbrev pub set_tenant : Text → Metadata → Transaction E (Unit {0})
  set_tenant tenant_id fields d = ok (tt, record d { tenants = insert tenant_id fields d.tenants })

  abbrev pub set_key : Text → KeyRecord → Transaction E (Unit {0})
  set_key key_hash fields d = ok (tt, record d { keys = insert key_hash fields d.keys })

  abbrev pub set_state : Text → StateDocument → Transaction E (Unit {0})
  set_state tenant_id fields d = ok (tt, record d { states = insert tenant_id fields d.states })

  abbrev pub delete_key : Text → Transaction E (Unit {0})
  delete_key key_hash d = ok (tt, record d { keys = erase key_hash d.keys })

  -- `_metadata`; a document's `key_hashes` is a list by its type
  unfoldable pub metadata : Option Metadata → Result (Error E) Metadata
  metadata none = err tenant_missing
  metadata (some fields) =
      if not (fields.schema == schema_version)
      then err storage_error
      else if ltb max_active_keys (length fields.key_hashes)
      then err storage_error
      else ok fields

  -- `_require_key`
  unfoldable pub require_key : Metadata → Option Text → Result (Error E) (Unit {0})
  require_key fields none = ok tt
  require_key fields (some expected) = elim (check_digest {E = E} expected) [
    | ok digest ↦ if mem_text digest fields.key_hashes then ok tt else err tenant_missing
    | err e ↦ err e
  ]

  -- `_decode_state`
  unfoldable pub decode_state :
      (c : Codec) → Instant → Option StateDocument → Result (Error E) c.State
  decode_state c now none = ok c.empty
  decode_state c now (some document) =
      if not (document.schema == schema_version)
      then err storage_error
      else if leb document.expires_at now
      then ok c.empty
      else elim (c.loads document.state_json) [ none ↦ err value_error | some state ↦ ok state ]

-- `_state_document`
unfoldable pub state_document : Text → Instant → StateDocument
state_document encoded now = record {
  schema = schema_version;
  state_json = encoded;
  updated_at = now;
  expires_at = now + retention;
}
