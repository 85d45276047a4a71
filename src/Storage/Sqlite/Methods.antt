-- ===== src/Storage/Sqlite/Methods.antt =====
-- The methods of `SQLiteStore` in src/reliamesh/storage.py. A method is a function of the database,
-- and gives the committed one beside its result. The clock that it reads is an argument.
use reliamesh.Prelude.{
  ℕ, ◌+◌, ◌-◌, Bool, true, Option, none, some, List, [], ◌∷◌, map, Text, text, length, keep, any,
  find?, take, ltb, leb, if◌then◌else◌, not, ◌&&◌, ◌||◌, Result, ok, err,
}
use reliamesh.Prelude.Dict.{Dict, lookup, contains, erase}
use reliamesh.Host.{Instant}
use reliamesh.Detection.State.{DateTime}
use reliamesh.Detection.Batch.{sort_by, key_le}
use reliamesh.Storage.Common.{
  Error, Codec, KeyRecord, KeyInfo, key_record, value_error, storage_limit, tenant_missing,
  tenant_exists, key_conflict, callback_error, utc, check_tenant_id, check_digest, check_selector,
  check_scopes, serialize, all_scopes, max_active_keys, retention,
}
use reliamesh.Storage.Sqlite.Tables.{
  KeyRow, StateRow, Database, same, Tx, ◌>>=◌, ◌>>◌, pure, lift, select, or_raise, raise_if, commit,
  change, with_connection, insert_tenant, insert_key, insert_state, upsert_state, delete_cascade,
}

-- the row of `api_keys JOIN tenants` with this digest
unfoldable pub find_key : Text → Database → Option KeyRow
find_key key_hash db =
    find? (λ (k : KeyRow). same k.key_hash key_hash && contains k.tenant_id db.tenants) db.api_keys

unfoldable pub keys_of : Text → Database → List KeyRow
keys_of tenant_id db = keep (λ (k : KeyRow). same k.tenant_id tenant_id) db.api_keys

-- the rows that `revoke_key` deletes
abbrev pub is_selected : Text → Text → KeyRow → Bool
is_selected tenant_id selector k =
    same k.tenant_id tenant_id && (same k.key_hash selector || same k.key_id selector)

-- The rows that have expired, without those past the first `n` of them. The statement gives no
-- order; this takes the table's.
unfoldable pub drop_expired : ℕ → Instant → Dict StateRow → Dict StateRow × ℕ
drop_expired n now [] = ([], 0)
drop_expired n now (e ∷ rows) =
    let full = drop_expired (n - 1) now rows in
    let same_room = drop_expired n now rows in
    if leb e.1.expires_at now && ltb 0 n
    then (full.0, full.1 + 1)
    else (e ∷ same_room.0, same_room.1)

module _ {E : Type 0} where
  unfoldable pub require_tenant : Text → Tx E (Unit {0})
  require_tenant tenant_id = do
    found ← select (λ (db : Database). contains tenant_id db.tenants)
    raise_if (not found) tenant_missing

  unfoldable pub require_key : Text → Option Text → Tx E (Unit {0})
  require_key tenant_id none = pure tt
  require_key tenant_id (some expected) = do
    digest ← lift (check_digest expected)
    found ← select (λ (db : Database).
        any (λ (k : KeyRow). same k.tenant_id tenant_id && same k.key_hash digest) db.api_keys)
    raise_if (not found) tenant_missing

  unfoldable pub create_tenant :
      Text → Text → DateTime → Database → Result (Error E) (Unit {0}) × Database
  create_tenant tenant key now = with_connection do
    tenant_id ← lift (check_tenant_id tenant)
    key_hash ← lift (check_digest key)
    at_time ← lift (utc now)
    raise_if (← select (λ (db : Database). contains tenant_id db.tenants)) tenant_exists
    raise_if
        (← select (λ (db : Database). any (λ (k : KeyRow). same k.key_hash key_hash) db.api_keys))
        key_conflict
    insert_tenant tenant_id at_time
    insert_key (record {
      key_hash = key_hash;
      tenant_id = tenant_id;
      key_id = take 12 key_hash;
      scopes = all_scopes;
      created_at = at_time;
    })
    insert_state tenant_id
        (record { state_json = text "{}"; updated_at = at_time; expires_at = at_time + retention })
    commit

  unfoldable pub authenticate : Text → Database → Result (Error E) (Option KeyRecord) × Database
  authenticate key = with_connection do
    key_hash ← lift (check_digest key)
    row ← select (find_key key_hash)
    pure (elim row [
      | none ↦ none
      | some k ↦ some (key_record k.tenant_id key_hash k.scopes k.created_at)
    ])

  unfoldable pub add_key :
      Text
      → Text
      → List Text
      → DateTime
      → Option Text
      → Database
      → Result (Error E) (Unit {0}) × Database
  add_key tenant key values now expected = with_connection do
    tenant_id ← lift (check_tenant_id tenant)
    key_hash ← lift (check_digest key)
    scopes ← lift (check_scopes values)
    at_time ← lift (utc now)
    require_tenant tenant_id
    require_key tenant_id expected
    count ← select (λ (db : Database). length (keys_of tenant_id db))
    raise_if (leb max_active_keys count) storage_limit
    (λ c. or_raise key_conflict (
        insert_key
          (record {
            key_hash = key_hash;
            tenant_id = tenant_id;
            key_id = take 12 key_hash;
            scopes = scopes;
            created_at = at_time;
          })
          c))
    commit

  unfoldable pub revoke_key :
      Text → Text → Option Text → Database → Result (Error E) Bool × Database
  revoke_key tenant key expected = with_connection do
    tenant_id ← lift (check_tenant_id tenant)
    selector ← lift (check_selector key)
    require_key tenant_id expected
    deleted ← select (λ (db : Database). any (is_selected tenant_id selector) db.api_keys)
    change (λ db. record db {
      api_keys = keep (λ (k : KeyRow). not (is_selected tenant_id selector k)) db.api_keys;
    })
    commit
    pure deleted

  unfoldable pub list_keys :
      Text → Option Text → Database → Result (Error E) (List KeyInfo) × Database
  list_keys tenant expected = with_connection do
    tenant_id ← lift (check_tenant_id tenant)
    require_key tenant_id expected
    rows ← select (λ (db : Database). take max_active_keys (
        sort_by (λ (a : KeyRow) (b : KeyRow). key_le a.created_at a.key_id b.created_at b.key_id)
          (keys_of tenant_id db)))
    pure (
        map
          (λ (k : KeyRow). record {
            key_id = k.key_id;
            scopes = k.scopes;
            created_at = k.created_at;
            active = true;
          })
          rows)

  unfoldable pub delete_tenant : Text → Option Text → Database → Result (Error E) Bool × Database
  delete_tenant tenant expected = with_connection do
    tenant_id ← lift (check_tenant_id tenant)
    require_key tenant_id expected
    deleted ← select (λ (db : Database). contains tenant_id db.tenants)
    change (delete_cascade tenant_id)
    commit
    pure deleted

  unfoldable pub purge_expired : Instant → Database → Result (Error E) ℕ × Database
  purge_expired now = with_connection do
    deleted ← select (λ (db : Database). (drop_expired 100 now db.tenant_states).1)
    change (λ db. record db { tenant_states = (drop_expired 100 now db.tenant_states).0 })
    commit
    pure deleted

  module _ (codec : Codec) where
    open codec use {State, empty, loads}

    -- `json.loads`
    unfoldable pub decode : Text → Tx E State
    decode encoded c = elim (loads encoded) [
      | none ↦ (err value_error, c)
      | some state ↦ (ok state, c)
    ]

    -- the stored state, or the empty one where there is none or it has expired
    unfoldable pub current_state : Instant → Option StateRow → Tx E State
    current_state now none c = pure empty c
    current_state now (some row) c =
        if ltb now row.expires_at then decode row.state_json c else pure empty c

    unfoldable pub transact :
        {T : Type 0}
        → Instant
        → Text
        → (State → Result E (State × T))
        → Option Text
        → Database
        → Result (Error E) T × Database
    transact now tenant callback expected = with_connection do
      tenant_id ← lift (check_tenant_id tenant)
      require_tenant tenant_id
      require_key tenant_id expected
      row ← select (λ (db : Database). lookup tenant_id db.tenant_states)
      state ← current_state now row
      (new_state, result) ←
          lift (elim (callback state) [ ok r ↦ ok r | err e ↦ err (callback_error e) ])
      encoded ← lift (serialize codec new_state)
      upsert_state tenant_id
          (record { state_json = encoded; updated_at = now; expires_at = now + retention })
      commit
      pure result

    -- the read of a tenant that exists: an expired row is deleted
    unfoldable pub read_row : Instant → Text → Option StateRow → Tx E (Option State)
    read_row now tenant_id none = pure (some empty)
    read_row now tenant_id (some row) =
        if leb row.expires_at now
        then (do
          change (λ db. record db { tenant_states = erase tenant_id db.tenant_states })
          commit
          pure (some empty))
        else (do state ← decode row.state_json; pure (some state))

    unfoldable pub read_state :
        Instant → Text → Option Text → Database → Result (Error E) (Option State) × Database
    read_state now tenant expected = with_connection do
      tenant_id ← lift (check_tenant_id tenant)
      require_key tenant_id expected
      there ← select (λ (db : Database). contains tenant_id db.tenants)
      row ← select (λ (db : Database). lookup tenant_id db.tenant_states)
      if there then read_row now tenant_id row else pure none
