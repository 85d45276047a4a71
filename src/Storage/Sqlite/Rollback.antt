-- ===== src/Storage/Sqlite/Rollback.antt =====
-- A method of `SQLiteStore` that raises leaves the database as it was.
use reliamesh.Prelude.{◌≡◌, Option, List, Text, Result, ok, err, arith}
use reliamesh.Host.{Instant}
use reliamesh.Detection.State.{DateTime}
use reliamesh.Storage.Common.{Error, Codec}
use reliamesh.Storage.Sqlite.Tables.{
  Database, insert_tenant, insert_key, insert_state, upsert_state,
}
use reliamesh.Storage.Sqlite.Methods.{
  require_tenant, require_key, create_tenant, add_key, revoke_key, delete_tenant, decode,
  current_state, transact, read_row, read_state,
}

-- the database beside a raise
abbrev pub Unchanged : {E A : Type 0} → Database → Result (Error E) A × Database → Type 0
Unchanged db (ok a, db') = Unit
Unchanged db (err e, db') = db' ≡ db

module _ (E : Type 0) (db : Database) where
  create_tenant-Unchanged :
      (tenant key : Text) (now : DateTime) → Unchanged {E = E} db (create_tenant tenant key now db)
  unfolding create_tenant insert_tenant insert_key insert_state
  create_tenant-Unchanged tenant key now = ground arith

  add_key-Unchanged :
      (tenant key : Text) (values : List Text) (now : DateTime) (expected : Option Text)
      → Unchanged {E = E} db (add_key tenant key values now expected db)
  unfolding add_key require_tenant require_key insert_key
  add_key-Unchanged tenant key values now expected = ground arith

  revoke_key-Unchanged :
      (tenant key : Text) (expected : Option Text)
      → Unchanged {E = E} db (revoke_key tenant key expected db)
  unfolding revoke_key require_key
  revoke_key-Unchanged tenant key expected = ground arith

  delete_tenant-Unchanged :
      (tenant : Text) (expected : Option Text)
      → Unchanged {E = E} db (delete_tenant tenant expected db)
  unfolding delete_tenant require_key
  delete_tenant-Unchanged tenant expected = ground arith

  transact-Unchanged :
      (codec : Codec) (T : Type 0) (now : Instant) (tenant : Text)
      (callback : codec.State → Result E (codec.State × T)) (expected : Option Text)
      → Unchanged db (transact codec {T = T} now tenant callback expected db)
  unfolding transact require_tenant require_key current_state decode upsert_state
  transact-Unchanged codec T now tenant callback expected = ground arith

  read_state-Unchanged :
      (codec : Codec) (now : Instant) (tenant : Text) (expected : Option Text)
      → Unchanged {E = E} db (read_state codec now tenant expected db)
  unfolding read_state require_key read_row decode
  read_state-Unchanged codec now tenant expected = ground arith

  -- Whatever the six methods that write raise, for a bad argument, a missing tenant or credential, a
  -- limit, a constraint of a table, a callback or the encoding of its state, the database is as
  -- before.
  pub methods_roll_back :
      ((tenant key : Text) (now : DateTime)
        → Unchanged {E = E} db (create_tenant tenant key now db))
      × ((tenant key : Text) (values : List Text) (now : DateTime) (expected : Option Text)
          → Unchanged {E = E} db (add_key tenant key values now expected db))
      × ((tenant key : Text) (expected : Option Text)
          → Unchanged {E = E} db (revoke_key tenant key expected db))
      × ((tenant : Text) (expected : Option Text)
          → Unchanged {E = E} db (delete_tenant tenant expected db))
      × ((codec : Codec) (T : Type 0) (now : Instant) (tenant : Text)
            (callback : codec.State → Result E (codec.State × T)) (expected : Option Text)
          → Unchanged db (transact codec {T = T} now tenant callback expected db))
      × ((codec : Codec) (now : Instant) (tenant : Text) (expected : Option Text)
          → Unchanged {E = E} db (read_state codec now tenant expected db))
  methods_roll_back = (
    create_tenant-Unchanged, add_key-Unchanged, revoke_key-Unchanged, delete_tenant-Unchanged,
    transact-Unchanged, read_state-Unchanged,
  )
