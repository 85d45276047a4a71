-- ===== src/Storage/Sqlite/Tables.antt =====
-- The three tables of `SQLiteStore`, the statements that it executes on them, and its connections.
-- Each method holds the store's lock and begins with BEGIN IMMEDIATE, so methods follow one another.
use reliamesh.Prelude.{
  Bool, true, false, List, [], ◌∷◌, ◌++◌, Text, text_dec, keep, any, if◌then◌else◌, not, ◌&&◌, ◌||◌,
  Result, ok, err, ite,
}
use reliamesh.Prelude.Dict.{Dict, contains, insert, erase}
use reliamesh.Host.{Instant}
use reliamesh.Storage.Common.{Error, integrity_error}

pub record KeyRow : Type 0 where
  pub key_hash : Text
  pub tenant_id : Text
  pub key_id : Text
  pub scopes : List Text
  pub created_at : Instant

pub record StateRow : Type 0 where
  pub state_json : Text
  pub updated_at : Instant
  pub expires_at : Instant

pub record Database : Type 0 where
  -- tenant id ↦ `created_at`
  pub tenants : Dict Instant
  pub api_keys : List KeyRow
  pub tenant_states : Dict StateRow

abbrev pub same : Text → Text → Bool
same a b = ite (text_dec a b) true false

-- A connection sees its own changes, and others see what it has committed.
pub record Connection : Type 0 where
  pub committed : Database
  pub working : Database

abbrev pub Tx : Type 0 → Type 0 → Type 0
Tx E A = Connection → Result (Error E) A × Connection

module _ {E : Type 0} where
  module _ {A : Type 0} where
    abbrev pub pure : A → Tx E A
    pure a c = (ok a, c)

    abbrev pub raise : Error E → Tx E A
    raise e c = (err e, c)

    abbrev pub lift : Result (Error E) A → Tx E A
    lift r c = (r, c)

    -- a SELECT
    abbrev pub select : (Database → A) → Tx E A
    select f c = (ok (f c.working), c)

    -- `try: … except IntegrityError: raise error`
    abbrev pub or_raise :
        Error E → Result (Error E) A × Connection → Result (Error E) A × Connection
    or_raise error (err integrity_error, c) = (err error, c)
    or_raise error (r, c) = (r, c)

    -- `with self._connection() as connection`: what was not committed is rolled back.
    abbrev pub with_connection : Tx E A → Database → Result (Error E) A × Database
    with_connection m db =
        let (r, c) = m (record { committed = db; working = db }) in (r, c.committed)

  infixl 5 ◌>>=◌ ◌>>◌
  abbrev pub ◌>>=◌ : {A B : Type 0} → Tx E A → (A → Tx E B) → Tx E B
  ◌>>=◌ m f c = let (r, c') = m c in elim r [ ok a ↦ f a c' | err e ↦ (err e, c') ]

  abbrev pub ◌>>◌ : {A B : Type 0} → Tx E A → Tx E B → Tx E B
  m >> k = m >>= λ _. k

  abbrev pub raise_if : Bool → Error E → Tx E (Unit {0})
  raise_if b e c = (if b then err e else ok tt, c)

  abbrev pub commit : Tx E (Unit {0})
  commit c = (ok tt, record { committed = c.working; working = c.working })

  abbrev pub change : (Database → Database) → Tx E (Unit {0})
  change f c = (ok tt, record c { working = f c.working })

  -- INSERT INTO tenants: the primary key
  unfoldable pub insert_tenant : Text → Instant → Tx E (Unit {0})
  insert_tenant tenant_id created_at c =
      if contains tenant_id c.working.tenants
      then (err integrity_error, c)
      else change (λ db. record db { tenants = insert tenant_id created_at db.tenants }) c

  -- INSERT INTO api_keys: the reference, the primary key, and UNIQUE(tenant_id, key_id)
  unfoldable pub insert_key : KeyRow → Tx E (Unit {0})
  insert_key row c =
      if not (contains row.tenant_id c.working.tenants)
        || any
            (λ (k : KeyRow).
              same k.key_hash row.key_hash
              || (same k.tenant_id row.tenant_id && same k.key_id row.key_id))
            c.working.api_keys
      then (err integrity_error, c)
      else change (λ db. record db { api_keys = db.api_keys ++ row ∷ [] }) c

  -- INSERT INTO tenant_states: the reference and the primary key
  unfoldable pub insert_state : Text → StateRow → Tx E (Unit {0})
  insert_state tenant_id row c =
      if not (contains tenant_id c.working.tenants) || contains tenant_id c.working.tenant_states
      then (err integrity_error, c)
      else change (λ db. record db { tenant_states = insert tenant_id row db.tenant_states }) c

  -- INSERT INTO tenant_states … ON CONFLICT DO UPDATE: the reference
  unfoldable pub upsert_state : Text → StateRow → Tx E (Unit {0})
  upsert_state tenant_id row c =
      if not (contains tenant_id c.working.tenants)
      then (err integrity_error, c)
      else change (λ db. record db { tenant_states = insert tenant_id row db.tenant_states }) c

-- DELETE FROM tenants, which cascades to both other tables
unfoldable pub delete_cascade : Text → Database → Database
delete_cascade tenant_id db = record {
  tenants = erase tenant_id db.tenants;
  api_keys = keep (λ (k : KeyRow). not (same k.tenant_id tenant_id)) db.api_keys;
  tenant_states = erase tenant_id db.tenant_states;
}
