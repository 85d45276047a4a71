-- ===== src/Storage/Sqlite/States.antt =====
-- What a transaction of `SQLiteStore` hands to its callback, and what later reads return.
use reliamesh.Prelude.{
  ◌+◌, ◌≤◌, ◌<◌, ◌≡◌, true, Option, none, some, Text, Result, ok, arith, Option-cases, Result-cases,
  inl, inr,
}
use reliamesh.Prelude.Dict.{lookup, contains, insert, lookup-insert_self, lookup-erase_self}
use reliamesh.Host.{Instant}
use reliamesh.Storage.Common.{Codec, check_tenant_id, serialize, retention}
use reliamesh.Storage.Sqlite.Tables.{Database, Connection, StateRow, upsert_state}
use reliamesh.Storage.Sqlite.Methods.{
  require_tenant, require_key, decode, current_state, transact, read_row, read_state,
}

module _ (E : Type 0) (codec : Codec) where
  open codec use {State, empty, dumps, loads}

  -- the row that a transaction writes
  abbrev written : Instant → Text → StateRow
  written now encoded = record {
    state_json = encoded;
    updated_at = now;
    expires_at = now + retention;
  }

  -- A transaction that was committed: its callback's result, and the one row that it wrote.
  record Written {T : Type 0} (now : Instant) (tenant : Text)
      (callback : State → Result E (State × T)) (db db' : Database) (s : State) (result : T)
      : Type 0 where
    new : State
    encoded : Text
    called : callback s ≡ ok (new, result)
    dumped : dumps new ≡ some encoded
    valid : check_tenant_id {E = E} tenant ≡ ok tenant
    tenant_exists : contains tenant db.tenants ≡ true
    after : db' ≡ record db { tenant_states = insert tenant (written now encoded) db.tenant_states }

  transact-eq-ok :
      {T : Type 0} (now : Instant) (tenant : Text) (callback : State → Result E (State × T))
      (expected : Option Text) (db db' : Database) (s : State) (result : T)
      → ((c : Connection)
          → current_state {E = E} codec now (lookup tenant db.tenant_states) c ≡ (ok s, c))
      → transact codec now tenant callback expected db ≡ (ok result, db')
      → Written now tenant callback db db' s result
  unfolding transact require_tenant require_key upsert_state serialize check_tenant_id
  transact-eq-ok now tenant callback expected db db' s result given e =
      let c : Connection = record { committed = db; working = db } in
      elim (Result-cases (callback s)) [
        | inr (error, failed) ↦ absurd (ground (arith, given c))
        | inl ((new, r), called) ↦ elim (Option-cases (dumps new)) [
          | inl refused ↦ absurd (ground (arith, given c))
          | inr (encoded, dumped) ↦ record {
            new = new;
            encoded = encoded;
            called = ground (arith, given c);
            dumped = dumped;
            valid = ground (arith, given c);
            tenant_exists = ground (arith, given c);
            after = ground (arith, given c);
          }
        ]
      ]

  -- a read, or a transaction, at the same time sees the same state
  read_state-current_state :
      (now : Instant) (tenant : Text) (db : Database) (s : State) (c : Connection)
      → (read_state {E = E} codec now tenant none db).0 ≡ ok (some s)
      → current_state {E = E} codec now (lookup tenant db.tenant_states) c ≡ (ok s, c)
  unfolding read_state require_key read_row current_state decode check_tenant_id
  read_state-current_state now tenant db s c e =
      elim (Option-cases (lookup tenant db.tenant_states)) [
        | inl fresh ↦ ground arith
        | inr (row, there) ↦ elim (Option-cases (loads row.state_json)) [
          | inl broken ↦ ground arith
          | inr (state, read) ↦ ground arith
        ]
      ]

  module _ (law : (s : State) (t : Text) → dumps s ≡ some t → loads t ≡ some s) {T : Type 0}
      (now : Instant) (tenant : Text) (callback : State → Result E (State × T)) (db db' : Database)
      (s : State) (result : T) (w : Written now tenant callback db db' s result) where
    read_after :
        (later : Instant)
        → later < now + retention
        → read_state {E = E} codec later tenant none db' ≡ (ok (some w.new), db')
    unfolding read_state require_key read_row decode
    read_after later l = rw w.after (
        ground (
          arith,
          w.valid,
          w.tenant_exists,
          lookup-insert_self tenant (written now w.encoded) db.tenant_states,
          law w.new w.encoded w.dumped,
        ))

    expired_after :
        (later : Instant)
        → now + retention ≤ later
        → ((read_state {E = E} codec later tenant none db').0 ≡ ok (some empty))
          × (lookup tenant (read_state {E = E} codec later tenant none db').1.tenant_states ≡ none)
    unfolding read_state require_key read_row decode
    expired_after later l = rw w.after (
        ground (
          arith,
          w.valid,
          w.tenant_exists,
          lookup-insert_self tenant (written now w.encoded) db.tenant_states,
          lookup-erase_self tenant (insert tenant (written now w.encoded) db.tenant_states),
        ))

  transact-reads :
      (law : (s : State) (t : Text) → dumps s ≡ some t → loads t ≡ some s) {T : Type 0}
      (now : Instant) (tenant : Text) (callback : State → Result E (State × T))
      (expected : Option Text) (db db' : Database) (s : State) (result : T)
      → (read_state {E = E} codec now tenant none db).0 ≡ ok (some s)
      → transact codec now tenant callback expected db ≡ (ok result, db')
      → (new : State) × (callback s ≡ ok (new, result))
        × ((later : Instant)
            → later < now + retention
            → read_state {E = E} codec later tenant none db' ≡ (ok (some new), db'))
        × ((later : Instant)
            → now + retention ≤ later
            → ((read_state {E = E} codec later tenant none db').0 ≡ ok (some empty))
              × (lookup tenant (read_state {E = E} codec later tenant none db').1.tenant_states
                  ≡ none))
  transact-reads law now tenant callback expected db db' s result before e =
      let w =
        transact-eq-ok now tenant callback expected db db' s result
          (λ c. read_state-current_state now tenant db s c before) e in
      (
        w.new,
        w.called,
        read_after law now tenant callback db db' s result w,
        expired_after law now tenant callback db db' s result w,
      )

  -- A transaction that is committed has called back with the state that a read would have returned,
  -- and until seven days and five minutes later a read returns the callback's new state and writes
  -- nothing; from then on a read returns the empty state, and removes the row. The codec decodes
  -- what it encodes.
  pub read_state-transact :
      (law : (s : State) (t : Text) → dumps s ≡ some t → loads t ≡ some s) {T : Type 0}
      (now : Instant) (tenant : Text) (callback : State → Result E (State × T))
      (expected : Option Text) (db db' : Database) (s : State) (result : T) (soon late : Instant)
      → (read_state {E = E} codec now tenant none db).0 ≡ ok (some s)
      → transact codec now tenant callback expected db ≡ (ok result, db')
      → soon < now + retention
      → now + retention ≤ late
      → (new : State) × (callback s ≡ ok (new, result))
        × (read_state {E = E} codec soon tenant none db' ≡ (ok (some new), db'))
        × ((read_state {E = E} codec late tenant none db').0 ≡ ok (some empty))
        × (lookup tenant (read_state {E = E} codec late tenant none db').1.tenant_states ≡ none)
  read_state-transact law now tenant callback expected db db' s result soon late before e l m =
      let (new, called, alive, over) =
        transact-reads law now tenant callback expected db db' s result before e in
      (new, called, alive soon l, (over late m).0, (over late m).1)
