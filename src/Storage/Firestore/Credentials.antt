-- ===== src/Storage/Firestore/Credentials.antt =====
-- Which credentials `FirestoreStore` honours.
use reliamesh.Prelude.{
  ◌≡◌, refl, ap, Bool, true, false, Option, none, some, List, [], ◌∷◌, Text, text_dec, length, keep,
  length-keep-le, find?, take, length-take, not, Result, ok, err, arith, Option-cases, inl, inr,
}
use reliamesh.Prelude.Dict.{lookup, insert, erase, lookup-insert_self, lookup-erase_self}
use reliamesh.Host.{Instant}
use reliamesh.Detection.State.{aware}
use reliamesh.Detection.Prune.{mem_text}
use reliamesh.Storage.Common.{
  Codec, tenant_missing, key_record, utc, check_tenant_id, check_digest, check_selector,
  check_scopes, all_scopes, schema_version,
}
use reliamesh.Storage.Sqlite.Tables.{same}
use reliamesh.Storage.Firestore.Documents.{Metadata, Documents, metadata, require_key}
use reliamesh.Storage.Firestore.Methods.{
  is_match, honour, create_tenant, authenticate, add_key, remove_key, revoke_key, transact,
  read_state, list_keys, delete_tenant,
}

module _ (E : Type 0) where
  -- Where a tenant has been created, its key authenticates as that tenant's, with all three scopes, and
  -- the documents stay as they are.
  pub created_key_authenticates :
      (tenant key : Text) (t : Instant) (d : Documents)
      → (create_tenant {E = E} tenant key (aware t) d).0 ≡ ok tt
      → let d' = (create_tenant {E = E} tenant key (aware t) d).1 in
        authenticate {E = E} key d' ≡ (ok (some (key_record tenant key all_scopes t)), d')
  unfolding create_tenant authenticate honour metadata mem_text key_record check_tenant_id
      check_digest utc
  created_key_authenticates tenant key t d e = ground (
    arith,
    e,
    lookup-insert_self tenant
        (record { schema = schema_version; created_at = t; key_hashes = key ∷ [] }) d.tenants,
    lookup-insert_self key (key_record tenant key all_scopes t) d.keys,
  )

  -- a full digest is no prefix of twelve
  is_match-digest :
      (key value : Text)
      → check_digest {E = E} key ≡ ok key
      → is_match key value ≡ true
      → value ≡ key
  unfolding check_digest
  is_match-digest key value digest h = elim (text_dec (take 12 value) key) [
    | yes e ↦ ground (arith, digest, length-take 12 value, ap length e)
    | no n ↦ ground (arith, h, n)
  ]

  find?-is_match :
      (key value : Text) (hashes : List Text)
      → check_digest {E = E} key ≡ ok key
      → find? (is_match key) hashes ≡ some value
      → value ≡ key
  find?-is_match key value [] digest h = cc
  find?-is_match key value (x ∷ hashes) digest h =
      ground (arith, is_match-digest key x digest, find?-is_match key value hashes digest, h)

  mem_text-keep :
      (key : Text) (hashes : List Text)
      → mem_text key (keep (λ value. not (same value key)) hashes) ≡ false
  unfolding mem_text
  mem_text-keep key [] = refl
  mem_text-keep key (x ∷ hashes) = ground (arith, mem_text-keep key hashes)

  metadata-keep :
      (key : Text) (fields : Metadata)
      → metadata {E = E} (some fields) ≡ ok fields
      → let left : Metadata = record fields {
        key_hashes = keep (λ value. not (same value key)) fields.key_hashes;
      } in
        metadata {E = E} (some left) ≡ ok left
  unfolding metadata
  metadata-keep key fields valid =
      ground (arith, valid, length-keep-le (λ value. not (same value key)) fields.key_hashes)

  -- What a revocation that returns true has done.
  revoke_key-eq-true :
      (tenant key : Text) (expected : Option Text) (d : Documents) (fields : Metadata)
      → check_digest {E = E} key ≡ ok key
      → lookup tenant d.tenants ≡ some fields
      → (revoke_key {E = E} tenant key expected d).0 ≡ ok true
      → (check_tenant_id {E = E} tenant ≡ ok tenant)
        × (metadata {E = E} (some fields) ≡ ok fields)
        × ((revoke_key {E = E} tenant key expected d).1 ≡ record d {
          tenants =
              insert tenant
                (record fields {
                  key_hashes = keep (λ value. not (same value key)) fields.key_hashes;
                })
                d.tenants;
          keys = erase key d.keys;
        })
  unfolding revoke_key remove_key check_tenant_id check_selector check_digest metadata
  revoke_key-eq-true tenant key expected d fields digest there e =
      elim (Option-cases (find? (is_match key) fields.key_hashes)) [
        | inl absent ↦ ground (arith, absent, there, e)
        | inr (value, found) ↦
            ground (arith, find?-is_match key value fields.key_hashes digest found, found, there, e)
      ]

  module _ (tenant key : Text) (d : Documents) (fields : Metadata)
      (id : check_tenant_id {E = E} tenant ≡ ok tenant) (digest : check_digest {E = E} key ≡ ok key)
      (there : lookup tenant d.tenants ≡ some fields)
      (valid : metadata {E = E} (some fields) ≡ ok fields)
      (gone : mem_text key fields.key_hashes ≡ false) where
    transact-refused :
        (codec : Codec) (now : Instant) (callback : codec.State → Result E (codec.State × Bool))
        → transact codec now tenant callback (some key) d ≡ (err tenant_missing, d)
    unfolding transact require_key
    transact-refused codec now callback = ground (arith, id, digest, there, valid, gone)

    read_state-refused :
        (codec : Codec) (now : Instant)
        → read_state {E = E} codec now tenant (some key) d ≡ (err tenant_missing, d)
    unfolding read_state require_key
    read_state-refused codec now = ground (arith, id, digest, there, valid, gone)

    list_keys-refused : list_keys {E = E} tenant (some key) d ≡ (err tenant_missing, d)
    unfolding list_keys require_key
    list_keys-refused = ground (arith, id, digest, there, valid, gone)

    delete_tenant-refused : delete_tenant {E = E} tenant (some key) d ≡ (err tenant_missing, d)
    unfolding delete_tenant require_key
    delete_tenant-refused = ground (arith, id, digest, there, valid, gone)

    add_key-refused :
        (new : Text) (values scopes : List Text) (t : Instant)
        → check_digest {E = E} new ≡ ok new
        → check_scopes {E = E} values ≡ ok scopes
        → add_key {E = E} tenant new values (aware t) (some key) d ≡ (err tenant_missing, d)
    unfolding add_key require_key utc
    add_key-refused new values scopes t n s = ground (arith, id, digest, there, valid, gone, n, s)

    revoke_key-refused :
        (selector : Text)
        → check_selector {E = E} selector ≡ ok selector
        → revoke_key {E = E} tenant selector (some key) d ≡ (err tenant_missing, d)
    unfolding revoke_key require_key
    revoke_key-refused selector s = ground (arith, id, digest, there, valid, gone, s)

  revoked_key-authenticate :
      (key : Text) (d : Documents)
      → check_digest {E = E} key ≡ ok key
      → lookup key d.keys ≡ none
      → authenticate {E = E} key d ≡ (ok none, d)
  unfolding authenticate
  revoked_key-authenticate key d digest gone = ground (arith, digest, gone)

  -- Where the revocation of a key by its digest returned true, the key no longer authenticates, and
  -- `transact`, `read_state`, `list_keys` and `delete_tenant` of its tenant that are bound to it raise
  -- `TenantMissing` and change nothing, and so do `add_key` of a valid digest with valid scopes and
  -- `revoke_key` of a valid selector.
  pub revoked_key_is_refused :
      (codec : Codec) (tenant key : Text) (expected : Option Text) (d : Documents)
      (fields : Metadata) (new selector : Text) (values scopes : List Text)
      → check_digest {E = E} key ≡ ok key
      → lookup tenant d.tenants ≡ some fields
      → (revoke_key {E = E} tenant key expected d).0 ≡ ok true
      → check_digest {E = E} new ≡ ok new
      → check_scopes {E = E} values ≡ ok scopes
      → check_selector {E = E} selector ≡ ok selector
      → let d' = (revoke_key {E = E} tenant key expected d).1 in
        (authenticate {E = E} key d' ≡ (ok none, d'))
        × ((now : Instant) (callback : codec.State → Result E (codec.State × Bool))
            → transact codec now tenant callback (some key) d' ≡ (err tenant_missing, d'))
        × ((now : Instant)
            → read_state {E = E} codec now tenant (some key) d' ≡ (err tenant_missing, d'))
        × (list_keys {E = E} tenant (some key) d' ≡ (err tenant_missing, d'))
        × (delete_tenant {E = E} tenant (some key) d' ≡ (err tenant_missing, d'))
        × ((t : Instant)
            → add_key {E = E} tenant new values (aware t) (some key) d' ≡ (err tenant_missing, d'))
        × (revoke_key {E = E} tenant selector (some key) d' ≡ (err tenant_missing, d'))
  revoked_key_is_refused codec tenant key expected d fields new selector values scopes digest there
        e n c s =
      let (id, valid, after) = revoke_key-eq-true tenant key expected d fields digest there e in
      let d' = (revoke_key {E = E} tenant key expected d).1 in
      let left : Metadata = record fields {
        key_hashes = keep (λ value. not (same value key)) fields.key_hashes;
      } in
      let there' : lookup tenant d'.tenants ≡ some left =
        rw after (lookup-insert_self tenant left d.tenants) in
      let gone : lookup key d'.keys ≡ none = rw after (lookup-erase_self key d.keys) in
      let out : mem_text key left.key_hashes ≡ false = mem_text-keep key fields.key_hashes in
      let valid' : metadata {E = E} (some left) ≡ ok left = metadata-keep key fields valid in
      (
        revoked_key-authenticate key d' digest gone,
        transact-refused tenant key d' left id digest there' valid' out codec,
        read_state-refused tenant key d' left id digest there' valid' out codec,
        list_keys-refused tenant key d' left id digest there' valid' out,
        delete_tenant-refused tenant key d' left id digest there' valid' out,
        λ t. add_key-refused tenant key d' left id digest there' valid' out new values scopes t n c,
        revoke_key-refused tenant key d' left id digest there' valid' out selector s,
      )
