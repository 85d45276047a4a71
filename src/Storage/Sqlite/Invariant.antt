-- ===== src/Storage/Sqlite/Invariant.antt =====
-- The constraints of the tables of `SQLiteStore`, and the bound on a tenant's keys.
use reliamesh.Prelude.{
  suc, ◌≤◌, ◌≡◌, ◌⊎◌, refl, sym, Bool, true, Option, List, [], ◌∷◌, ◌++◌, Text, Result, arith, keep,
  length, not, text_dec, Result-cases, Bool-cases, inl, inr,
}
use reliamesh.Prelude.Dict.{contains, lookup-insert_self}
use reliamesh.Host.{Instant}
use reliamesh.Detection.State.{DateTime, aware, naive}
use reliamesh.Storage.Common.{
  Codec, utc, check_tenant_id, check_digest, check_selector, check_scopes, all_scopes,
  max_active_keys,
}
use reliamesh.Storage.Sqlite.Tables.{
  KeyRow, Database, same, insert_tenant, insert_key, insert_state, upsert_state, delete_cascade,
}
use reliamesh.Storage.Sqlite.Methods.{
  require_tenant, require_key, create_tenant, keys_of, add_key, is_selected, revoke_key,
  delete_tenant, decode, current_state, transact, read_row, read_state,
}
use reliamesh.Storage.Sqlite.Isolation.{SameFor, SameFor, methods_isolate, row_of}

-- The tenant has at most sixteen keys, and none if it has no row.
unfoldable pub IsCapped : Text → Database → Type 0
IsCapped t db =
    (length (keys_of t db) ≤ max_active_keys)
    × ((contains t db.tenants ≡ true) ⊎ (length (keys_of t db) ≡ 0))

keep-keep-le :
    (t : Text) (p : KeyRow → Bool) (rows : List KeyRow)
    → length (keep (λ (k : KeyRow). same k.tenant_id t) (keep p rows))
      ≤ length (keep (λ (k : KeyRow). same k.tenant_id t) rows)
keep-keep-le t p [] = omega arith
keep-keep-le t p (k ∷ rows) = ground (arith, keep-keep-le t p rows)

keep-snoc :
    (t : Text) (rows : List KeyRow) (row : KeyRow)
    → length (keep (λ (k : KeyRow). same k.tenant_id t) (rows ++ row ∷ []))
      ≤ suc (length (keep (λ (k : KeyRow). same k.tenant_id t) rows))
keep-snoc t [] row = ground arith
keep-snoc t (k ∷ rows) row = ground (arith, keep-snoc t rows row)

keep-none :
    (t : Text) (rows : List KeyRow)
    → length (
        keep
          (λ (k : KeyRow). same k.tenant_id t)
          (keep (λ (k : KeyRow). not (same k.tenant_id t)) rows))
      ≡ 0
keep-none t [] = refl
keep-none t (k ∷ rows) = ground (arith, keep-none t rows)

SameFor-IsCapped :
    (t : Text) (db db' : Database) → SameFor t db db' → IsCapped t db → IsCapped t db'
unfolding IsCapped
SameFor-IsCapped t db db' s h = ground (arith, s.tenant, s.keys, h.0, h.1)

IsCapped-at : (t u : Text) (db : Database) → t ≡ u → IsCapped t db → IsCapped u db
IsCapped-at t u db e h = rw (sym e) h

module _ (E : Type 0) (tenant : Text) (db : Database) where
  -- what holds of the tenant of a call; of the others `methods_isolate` says that nothing changes
  own-create_tenant :
      (key : Text) (now : DateTime)
      → IsCapped tenant db
      → IsCapped tenant (create_tenant {E = E} tenant key now db).1
  unfolding IsCapped create_tenant insert_tenant insert_key insert_state check_tenant_id
      check_digest utc keys_of
  own-create_tenant key naive h = ground (arith, h.0, h.1)
  own-create_tenant key (aware t) h = elim (Bool-cases (contains tenant db.tenants)) [
    | inl there ↦ ground (arith, h.0, h.1)
    | inr new ↦ ground (
      arith,
      h.0,
      h.1,
      new,
      keep-snoc tenant db.api_keys (row_of tenant key all_scopes t),
      lookup-insert_self tenant t db.tenants,
    )
  ]

  own-add_key :
      (key : Text) (values : List Text) (now : DateTime) (expected : Option Text)
      → IsCapped tenant db
      → IsCapped tenant (add_key {E = E} tenant key values now expected db).1
  unfolding IsCapped add_key insert_key require_tenant require_key check_tenant_id check_digest utc
      keys_of
  own-add_key key values naive expected h = ground (arith, h.0, h.1)
  own-add_key key values (aware t) expected h = elim (Result-cases (check_scopes {E = E} values)) [
    | inl (scopes, e) ↦
        ground (arith, h.0, h.1, keep-snoc tenant db.api_keys (row_of tenant key scopes t))
    | inr (error, e) ↦ ground (arith, h.0, h.1)
  ]

  own-revoke_key :
      (key : Text) (expected : Option Text)
      → IsCapped tenant db
      → IsCapped tenant (revoke_key {E = E} tenant key expected db).1
  unfolding IsCapped revoke_key require_key check_tenant_id check_selector keys_of
  own-revoke_key key expected h = ground (
    arith,
    h.0,
    h.1,
    keep-keep-le tenant (λ (k : KeyRow). not (is_selected tenant key k)) db.api_keys,
  )

  own-delete_tenant :
      (expected : Option Text)
      → IsCapped tenant db
      → IsCapped tenant (delete_tenant {E = E} tenant expected db).1
  unfolding IsCapped delete_tenant delete_cascade require_key check_tenant_id keys_of
  own-delete_tenant expected h = ground (arith, h.0, h.1, keep-none tenant db.api_keys)

  own-transact :
      (codec : Codec) (T : Type 0) (now : Instant)
      (callback : codec.State → Result E (codec.State × T)) (expected : Option Text)
      → IsCapped tenant db
      → IsCapped tenant (transact codec now tenant callback expected db).1
  unfolding IsCapped transact require_tenant require_key current_state decode upsert_state
      check_tenant_id keys_of
  own-transact codec T now callback expected h = grind (arith, h.0, h.1)

  own-read_state :
      (codec : Codec) (now : Instant) (expected : Option Text)
      → IsCapped tenant db
      → IsCapped tenant (read_state {E = E} codec now tenant expected db).1
  unfolding IsCapped read_state require_key read_row decode check_tenant_id keys_of
  own-read_state codec now expected h = grind (arith, h.0, h.1)

  -- Where a tenant has at most sixteen keys, and none if it has no row, this is still so after each of
  -- the six methods that write, called on that tenant or on another.
  pub methods_keep_caps :
      (t : Text)
      → IsCapped t db
      → ((key : Text) (now : DateTime) → IsCapped t (create_tenant {E = E} tenant key now db).1)
        × ((key : Text) (values : List Text) (now : DateTime) (expected : Option Text)
            → IsCapped t (add_key {E = E} tenant key values now expected db).1)
        × ((key : Text) (expected : Option Text)
            → IsCapped t (revoke_key {E = E} tenant key expected db).1)
        × ((expected : Option Text) → IsCapped t (delete_tenant {E = E} tenant expected db).1)
        × ((codec : Codec) (T : Type 0) (now : Instant)
              (callback : codec.State → Result E (codec.State × T)) (expected : Option Text)
            → IsCapped t (transact codec now tenant callback expected db).1)
        × ((codec : Codec) (now : Instant) (expected : Option Text)
            → IsCapped t (read_state {E = E} codec now tenant expected db).1)
  methods_keep_caps t h = elim (text_dec tenant t) [
    | yes e ↦
        (let own = IsCapped-at t tenant db (sym e) h in
          (
            λ key now. IsCapped-at tenant t _ e (own-create_tenant key now own),
            λ key values now expected.
                IsCapped-at tenant t _ e (own-add_key key values now expected own),
            λ key expected. IsCapped-at tenant t _ e (own-revoke_key key expected own),
            λ expected. IsCapped-at tenant t _ e (own-delete_tenant expected own),
            λ codec T now callback expected.
                IsCapped-at tenant t _ e (own-transact codec T now callback expected own),
            λ codec now expected. IsCapped-at tenant t _ e (own-read_state codec now expected own),
          ))
    | no apart ↦
        (let s = methods_isolate E tenant t apart db in
          (
            λ key now. SameFor-IsCapped t db _ (s.0 key now) h,
            λ key values now expected. SameFor-IsCapped t db _ (s.1 key values now expected) h,
            λ key expected. SameFor-IsCapped t db _ (s.2 key expected) h,
            λ expected. SameFor-IsCapped t db _ (s.3 expected) h,
            λ codec T now callback expected.
                SameFor-IsCapped t db _ (s.4 codec T now callback expected) h,
            λ codec now expected. SameFor-IsCapped t db _ (s.5 codec now expected) h,
          ))
  ]
