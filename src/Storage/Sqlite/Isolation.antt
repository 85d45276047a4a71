-- ===== src/Storage/Sqlite/Isolation.antt =====
-- A method on one tenant leaves what `SQLiteStore` keeps of every other tenant alone.
use reliamesh.Prelude.{
  ◌+◌, ◌≡◌, ◌≢◌, refl, Bool, Option, List, [], ◌∷◌, ◌++◌, Text, Result, arith, keep, not, ◌&&◌,
  ◌||◌, take, text, Result-cases, inl, inr,
}
use reliamesh.Prelude.Dict.{lookup, lookup-insert_ne, lookup-erase_ne}
use reliamesh.Host.{Instant}
use reliamesh.Detection.State.{DateTime, aware, naive}
use reliamesh.Storage.Common.{
  Codec, utc, check_tenant_id, check_digest, check_selector, check_scopes, all_scopes, retention,
}
use reliamesh.Storage.Sqlite.Tables.{
  KeyRow, StateRow, Database, same, insert_tenant, insert_key, insert_state, upsert_state,
  delete_cascade,
}
use reliamesh.Storage.Sqlite.Methods.{
  require_tenant, require_key, create_tenant, keys_of, add_key, revoke_key, delete_tenant, decode,
  current_state, transact, read_row, read_state,
}

-- All that the tables hold of the tenant is the same.
pub record SameFor (other : Text) (db db' : Database) : Type 0 where
  pub tenant : lookup other db'.tenants ≡ lookup other db.tenants
  pub keys : keys_of other db' ≡ keys_of other db
  pub state : lookup other db'.tenant_states ≡ lookup other db.tenant_states

abbrev belongs : Text → KeyRow → Bool
belongs other k = same k.tenant_id other

keep-append_ne :
    (other : Text) (rows : List KeyRow) (row : KeyRow)
    → row.tenant_id ≢ other
    → keep (belongs other) (rows ++ row ∷ []) ≡ keep (belongs other) rows
keep-append_ne other [] row n = ground arith
keep-append_ne other (k ∷ rows) row n = ground (arith, keep-append_ne other rows row n)

keep-keep_ne :
    (other tenant : Text) (p : KeyRow → Bool) (rows : List KeyRow)
    → tenant ≢ other
    → keep (belongs other) (keep (λ (k : KeyRow). not (same k.tenant_id tenant && p k)) rows)
      ≡ keep (belongs other) rows
keep-keep_ne other tenant p [] n = refl
keep-keep_ne other tenant p (k ∷ rows) n = ground (arith, keep-keep_ne other tenant p rows n)

keep-cascade_ne :
    (other tenant : Text) (rows : List KeyRow)
    → tenant ≢ other
    → keep (belongs other) (keep (λ (k : KeyRow). not (same k.tenant_id tenant)) rows)
      ≡ keep (belongs other) rows
keep-cascade_ne other tenant [] n = refl
keep-cascade_ne other tenant (k ∷ rows) n = ground (arith, keep-cascade_ne other tenant rows n)

abbrev pub row_of : Text → Text → List Text → Instant → KeyRow
row_of tenant key scopes t = record {
  key_hash = key;
  tenant_id = tenant;
  key_id = take 12 key;
  scopes = scopes;
  created_at = t;
}

abbrev first_state : Instant → StateRow
first_state t = record { state_json = text "{}"; updated_at = t; expires_at = t + retention }

module _ (E : Type 0) (tenant other : Text) (apart : tenant ≢ other) (db : Database) where
  create_tenant-SameFor :
      (key : Text) (now : DateTime) → SameFor other db (create_tenant {E = E} tenant key now db).1
  unfolding create_tenant insert_tenant insert_key insert_state check_tenant_id check_digest utc
      keys_of
  create_tenant-SameFor key naive = ground arith
  create_tenant-SameFor key (aware t) = ground (
    arith,
    lookup-insert_ne other tenant t db.tenants,
    lookup-insert_ne other tenant (first_state t) db.tenant_states,
    keep-append_ne other db.api_keys (row_of tenant key all_scopes t),
  )

  add_key-SameFor :
      (key : Text) (values : List Text) (now : DateTime) (expected : Option Text)
      → SameFor other db (add_key {E = E} tenant key values now expected db).1
  unfolding add_key insert_key require_tenant require_key check_tenant_id check_digest utc keys_of
  add_key-SameFor key values naive expected = ground arith
  add_key-SameFor key values (aware t) expected =
      elim (Result-cases (check_scopes {E = E} values)) [
        | inl (scopes, e) ↦
            ground (arith, keep-append_ne other db.api_keys (row_of tenant key scopes t))
        | inr (error, e) ↦ ground arith
      ]

  revoke_key-SameFor :
      (key : Text) (expected : Option Text)
      → SameFor other db (revoke_key {E = E} tenant key expected db).1
  unfolding revoke_key require_key check_tenant_id check_selector keys_of
  revoke_key-SameFor key expected = ground (
    arith,
    keep-keep_ne other tenant (λ (k : KeyRow). same k.key_hash key || same k.key_id key) db.api_keys
        apart,
  )

  delete_tenant-SameFor :
      (expected : Option Text) → SameFor other db (delete_tenant {E = E} tenant expected db).1
  unfolding delete_tenant delete_cascade require_key check_tenant_id keys_of
  delete_tenant-SameFor expected = ground (
    arith,
    keep-cascade_ne other tenant db.api_keys apart,
    lookup-erase_ne other tenant db.tenants,
    lookup-erase_ne other tenant db.tenant_states,
  )

  transact-SameFor :
      (codec : Codec) (T : Type 0) (now : Instant)
      (callback : codec.State → Result E (codec.State × T)) (expected : Option Text)
      → SameFor other db (transact codec now tenant callback expected db).1
  unfolding transact require_tenant require_key current_state decode upsert_state check_tenant_id
      keys_of
  transact-SameFor codec T now callback expected = grind (arith, lookup-insert_ne)

  read_state-SameFor :
      (codec : Codec) (now : Instant) (expected : Option Text)
      → SameFor other db (read_state {E = E} codec now tenant expected db).1
  unfolding read_state require_key read_row decode check_tenant_id keys_of
  read_state-SameFor codec now expected = grind (arith, lookup-erase_ne)

  -- None of the six methods that write changes, called on one tenant, what the tables hold of another
  -- tenant: its row, its keys, its state.
  pub methods_isolate :
      ((key : Text) (now : DateTime) → SameFor other db (create_tenant {E = E} tenant key now db).1)
      × ((key : Text) (values : List Text) (now : DateTime) (expected : Option Text)
          → SameFor other db (add_key {E = E} tenant key values now expected db).1)
      × ((key : Text) (expected : Option Text)
          → SameFor other db (revoke_key {E = E} tenant key expected db).1)
      × ((expected : Option Text) → SameFor other db (delete_tenant {E = E} tenant expected db).1)
      × ((codec : Codec) (T : Type 0) (now : Instant)
            (callback : codec.State → Result E (codec.State × T)) (expected : Option Text)
          → SameFor other db (transact codec now tenant callback expected db).1)
      × ((codec : Codec) (now : Instant) (expected : Option Text)
          → SameFor other db (read_state {E = E} codec now tenant expected db).1)
  methods_isolate = (
    create_tenant-SameFor, add_key-SameFor, revoke_key-SameFor, delete_tenant-SameFor,
    transact-SameFor, read_state-SameFor,
  )
