-- ===== src/Storage/Sqlite/Credentials.antt =====
-- What keys allow over time in `SQLiteStore`: creation, revocation, deletion.
use reliamesh.Prelude.{
  ◌≡◌, refl, Bool, false, Option, none, some, List, [], ◌∷◌, ◌++◌, Text, Result, ok, err, arith,
  any, find?, keep, take, not, ◌&&◌,
}
use reliamesh.Prelude.Dict.{Dict, contains, insert, lookup-insert_self}
use reliamesh.Host.{Instant}
use reliamesh.Detection.State.{aware}
use reliamesh.Storage.Common.{
  Codec, key_record, tenant_missing, utc, check_tenant_id, check_digest, check_selector, all_scopes,
}
use reliamesh.Storage.Sqlite.Tables.{
  KeyRow, Database, same, insert_tenant, insert_key, insert_state,
}
use reliamesh.Storage.Sqlite.Methods.{
  require_tenant, require_key, create_tenant, find_key, authenticate, is_selected, revoke_key,
  list_keys, delete_tenant, transact, read_state,
}

pub find-append {ℓ} :
    {A : Type ℓ} (p : A → Bool) (xs ys : List A)
    → find? p xs ≡ none
    → find? p (xs ++ ys) ≡ find? p ys
find-append p [] ys e = refl
find-append p (x ∷ xs) ys e = ground (arith, find-append p xs ys)

pub no_hash-find :
    (hash : Text) (tenants : Dict Instant) (rows : List KeyRow)
    → any (λ (k : KeyRow). same k.key_hash hash) rows ≡ false
    → find? (λ (k : KeyRow). same k.key_hash hash && contains k.tenant_id tenants) rows ≡ none
no_hash-find hash tenants [] e = refl
no_hash-find hash tenants (k ∷ rows) e = ground (arith, no_hash-find hash tenants rows)

-- the first key of a tenant
abbrev own_row : Text → Text → Instant → KeyRow
own_row tenant key t = record {
  key_hash = key;
  tenant_id = tenant;
  key_id = take 12 key;
  scopes = all_scopes;
  created_at = t;
}

module _ (E : Type 0) where
  create_tenant-eq-ok :
      (tenant key : Text) (t : Instant) (db : Database)
      → (create_tenant {E = E} tenant key (aware t) db).0 ≡ ok tt
      → (any (λ (k : KeyRow). same k.key_hash key) db.api_keys ≡ false)
        × (check_digest {E = E} key ≡ ok key)
        × ((create_tenant {E = E} tenant key (aware t) db).1.tenants ≡ insert tenant t db.tenants)
        × ((create_tenant {E = E} tenant key (aware t) db).1.api_keys
            ≡ db.api_keys ++ own_row tenant key t ∷ [])
  unfolding create_tenant insert_tenant insert_key insert_state check_tenant_id check_digest utc
  create_tenant-eq-ok tenant key t db e = ground arith

  -- Where a tenant has been created, its key authenticates as that tenant's, with all three scopes.
  pub authenticate-create_tenant :
      (tenant key : Text) (t : Instant) (db : Database)
      → (create_tenant {E = E} tenant key (aware t) db).0 ≡ ok tt
      → (authenticate {E = E} key (create_tenant {E = E} tenant key (aware t) db).1).0
        ≡ ok (some (key_record tenant key all_scopes t))
  unfolding authenticate find_key
  authenticate-create_tenant tenant key t db e =
      let (fresh, digest, tenants, rows) = create_tenant-eq-ok tenant key t db e in
      let db' = (create_tenant {E = E} tenant key (aware t) db).1 in
      let found : find? (λ (k : KeyRow). same k.key_hash key && contains k.tenant_id db'.tenants)
            db'.api_keys
          ≡ some (own_row tenant key t) =
        rw (rows, find-append, no_hash-find key db'.tenants db.api_keys fresh)
          (rw tenants (ground (arith, lookup-insert_self tenant t db.tenants))) in
      rw (digest, found, authenticate) refl

  no_selected :
      (tenant selector : Text) (rows : List KeyRow)
      → any
          (λ (k : KeyRow). same k.tenant_id tenant && same k.key_hash selector)
          (keep (λ (k : KeyRow). not (is_selected tenant selector k)) rows)
        ≡ false
  no_selected tenant selector [] = refl
  no_selected tenant selector (k ∷ rows) = ground (arith, no_selected tenant selector rows)

  revoke_key-eq-ok :
      (tenant key : Text) (expected : Option Text) (db : Database) {b : Bool}
      → (revoke_key {E = E} tenant key expected db).0 ≡ ok b
      → (check_tenant_id {E = E} tenant ≡ ok tenant)
        × ((revoke_key {E = E} tenant key expected db).1 ≡ record db {
          api_keys = keep (λ (k : KeyRow). not (is_selected tenant key k)) db.api_keys;
        })
  unfolding revoke_key require_key check_tenant_id check_selector
  revoke_key-eq-ok tenant key expected db e = ground arith

  module _ (tenant key : Text) (db : Database) (id : check_tenant_id {E = E} tenant ≡ ok tenant)
      (digest : check_digest {E = E} key ≡ ok key)
      (gone : any (λ (k : KeyRow). same k.tenant_id tenant && same k.key_hash key) db.api_keys
        ≡ false) where
    transact_blocked :
        (codec : Codec) (now : Instant) (callback : codec.State → Result E (codec.State × Bool))
        → transact codec now tenant callback (some key) db ≡ (err tenant_missing, db)
    unfolding transact require_tenant require_key
    transact_blocked codec now callback = ground arith

    read_state_blocked :
        (codec : Codec) (now : Instant)
        → read_state {E = E} codec now tenant (some key) db ≡ (err tenant_missing, db)
    unfolding read_state require_key
    read_state_blocked codec now = ground arith

    list_keys_blocked : list_keys {E = E} tenant (some key) db ≡ (err tenant_missing, db)
    unfolding list_keys require_key
    list_keys_blocked = ground arith

    revoke_key_blocked :
        (selector : Text)
        → check_selector {E = E} selector ≡ ok selector
        → revoke_key {E = E} tenant selector (some key) db ≡ (err tenant_missing, db)
    unfolding revoke_key require_key
    revoke_key_blocked selector valid = ground arith

    delete_tenant_blocked : delete_tenant {E = E} tenant (some key) db ≡ (err tenant_missing, db)
    unfolding delete_tenant require_key
    delete_tenant_blocked = ground arith

  -- Where the revocation of a key by its digest returned, the methods of its tenant that are bound to
  -- it raise `TenantMissing` and change nothing: `transact`, `read_state`, `list_keys`,
  -- `delete_tenant`, and `revoke_key` of a valid selector.
  pub revoke_key_blocks :
      (codec : Codec) (tenant key : Text) (expected : Option Text) (db : Database) {b : Bool}
      (now : Instant) (callback : codec.State → Result E (codec.State × Bool)) (selector : Text)
      → check_digest {E = E} key ≡ ok key
      → (revoke_key {E = E} tenant key expected db).0 ≡ ok b
      → check_selector {E = E} selector ≡ ok selector
      → let db' = (revoke_key {E = E} tenant key expected db).1 in
        (transact codec now tenant callback (some key) db' ≡ (err tenant_missing, db'))
        × (read_state {E = E} codec now tenant (some key) db' ≡ (err tenant_missing, db'))
        × (list_keys {E = E} tenant (some key) db' ≡ (err tenant_missing, db'))
        × (revoke_key {E = E} tenant selector (some key) db' ≡ (err tenant_missing, db'))
        × (delete_tenant {E = E} tenant (some key) db' ≡ (err tenant_missing, db'))
  revoke_key_blocks codec tenant key expected db now callback selector digest e valid =
      let (id, after) = revoke_key-eq-ok tenant key expected db e in
      let db' = (revoke_key {E = E} tenant key expected db).1 in
      let gone : any (λ (k : KeyRow). same k.tenant_id tenant && same k.key_hash key) db'.api_keys
          ≡ false =
        rw after (no_selected tenant key db.api_keys) in
      (
        transact_blocked tenant key db' id digest gone codec now callback,
        read_state_blocked tenant key db' id digest gone codec now,
        list_keys_blocked tenant key db' id digest gone,
        revoke_key_blocked tenant key db' id digest gone selector valid,
        delete_tenant_blocked tenant key db' id digest gone,
      )
