-- ===== src/Storage/Firestore/Methods.antt =====
-- The methods of `FirestoreStore`: functions of the documents, which give the new ones beside their
-- result.
use reliamesh.Prelude.{
  Bool, true, false, Option, none, some, List, [], ◌∷◌, ◌++◌, Text, text, length, keep, any, find?,
  take, leb, if◌then◌else◌, not, ◌||◌, Result, ok, err,
}
use reliamesh.Prelude.Dict.{Dict, lookup, contains, erase}
use reliamesh.Host.{Instant}
use reliamesh.Detection.State.{DateTime}
use reliamesh.Detection.Prune.{mem_text}
use reliamesh.Detection.Batch.{sort_by, key_le}
use reliamesh.Storage.Common.{
  Error, Codec, KeyRecord, KeyInfo, key_record, storage_limit, tenant_exists, key_conflict,
  callback_error, utc, check_tenant_id, check_digest, check_selector, check_scopes, serialize,
  all_scopes, schema_version, max_active_keys,
}
use reliamesh.Storage.Sqlite.Tables.{same}
use reliamesh.Storage.Firestore.Documents.{
  Metadata, StateDocument, Documents, Transaction, ◌>>=◌, ◌>>◌, pure, lift, get, run, raise_if,
  set_tenant, set_key, unless_absent, set_state, delete_key, metadata, require_key, decode_state,
  state_document,
}

-- the digests that `revoke_key` matches
abbrev pub is_match : Text → Text → Bool
is_match selector value = same value selector || same (take 12 value) selector

-- the information on the listed keys that are there and the tenant's
unfoldable pub key_infos : Text → List Text → Dict KeyRecord → List KeyInfo
key_infos tenant_id [] keys = []
key_infos tenant_id (key_hash ∷ hashes) keys =
    let rest = key_infos tenant_id hashes keys in
    elim (lookup key_hash keys) [
      | none ↦ rest
      | some k ↦
          if same k.tenant_id tenant_id
          then record {
            key_id = k.key_id;
            scopes = k.scopes;
            created_at = k.created_at;
            active = k.active;
          }
            ∷ rest
          else rest
    ]

-- the deletions of a tenant's keys, in turn
unfoldable pub erase_keys : List Text → Dict KeyRecord → Dict KeyRecord
erase_keys [] keys = keys
erase_keys (key_hash ∷ hashes) keys = erase_keys hashes (erase key_hash keys)

module _ {E : Type 0} where
  unfoldable pub create_tenant :
      Text → Text → DateTime → Documents → Result (Error E) (Unit {0}) × Documents
  create_tenant tenant key now = run do
    tenant_id ← lift (check_tenant_id tenant)
    key_hash ← lift (check_digest key)
    at_time ← lift (utc now)
    raise_if (← get (λ (d : Documents). contains tenant_id d.tenants)) tenant_exists
    raise_if (← get (λ (d : Documents). contains key_hash d.keys)) key_conflict
    set_tenant tenant_id
        (record { schema = schema_version; created_at = at_time; key_hashes = key_hash ∷ [] })
    set_key key_hash (key_record tenant_id key_hash all_scopes at_time)
    set_state tenant_id (state_document (text "{}") at_time)

  -- a stored key is honoured if its tenant lists it and it is active
  unfoldable pub honour : Text → KeyRecord → Transaction E (Option KeyRecord)
  honour key_hash key = do
    tenant ← get (λ (d : Documents). lookup key.tenant_id d.tenants)
    elim tenant [
      | none ↦ pure none
      | some t ↦ (do
        fields ← lift (metadata (some t))
        pure (
            if not (mem_text key_hash fields.key_hashes) || not key.active then none else some key))
    ]

  unfoldable pub authenticate : Text → Documents → Result (Error E) (Option KeyRecord) × Documents
  authenticate key = run do
    key_hash ← lift (check_digest key)
    snapshot ← get (λ (d : Documents). lookup key_hash d.keys)
    elim snapshot [ none ↦ pure none | some k ↦ honour key_hash k ]

  unfoldable pub add_key :
      Text
      → Text
      → List Text
      → DateTime
      → Option Text
      → Documents
      → Result (Error E) (Unit {0}) × Documents
  add_key tenant key values now expected = run do
    tenant_id ← lift (check_tenant_id tenant)
    key_hash ← lift (check_digest key)
    scopes ← lift (check_scopes values)
    at_time ← lift (utc now)
    snapshot ← get (λ (d : Documents). lookup tenant_id d.tenants)
    fields ← lift (metadata snapshot)
    lift (require_key fields expected)
    there ← get (λ (d : Documents). contains key_hash d.keys)
    raise_if (leb max_active_keys (length fields.key_hashes)) storage_limit
    raise_if
        (there || any (λ existing. same (take 12 existing) (take 12 key_hash)) fields.key_hashes)
        key_conflict
    set_tenant tenant_id (record fields { key_hashes = fields.key_hashes ++ key_hash ∷ [] })
    set_key key_hash (key_record tenant_id key_hash scopes at_time)

  -- the removal of the first match from the tenant's list, and of its key
  unfoldable pub remove_key : Text → Metadata → Option Text → Transaction E Bool
  remove_key tenant_id fields none = pure false
  remove_key tenant_id fields (some key_hash) = do
    set_tenant tenant_id
        (record fields { key_hashes = keep (λ value. not (same value key_hash)) fields.key_hashes })
    delete_key key_hash
    pure true

  unfoldable pub revoke_key :
      Text → Text → Option Text → Documents → Result (Error E) Bool × Documents
  revoke_key tenant key expected = run do
    tenant_id ← lift (check_tenant_id tenant)
    selector ← lift (check_selector key)
    snapshot ← get (λ (d : Documents). lookup tenant_id d.tenants)
    unless_absent snapshot expected false (do
      fields ← lift (metadata snapshot)
      lift (require_key fields expected)
      remove_key tenant_id fields (find? (is_match selector) fields.key_hashes))

  unfoldable pub list_keys :
      Text → Option Text → Documents → Result (Error E) (List KeyInfo) × Documents
  list_keys tenant expected = run do
    tenant_id ← lift (check_tenant_id tenant)
    snapshot ← get (λ (d : Documents). lookup tenant_id d.tenants)
    unless_absent snapshot expected [] (do
      fields ← lift (metadata snapshot)
      lift (require_key fields expected)
      records ← get (λ (d : Documents). key_infos tenant_id fields.key_hashes d.keys)
      pure (
          sort_by
            (λ (a : KeyInfo) (b : KeyInfo). key_le a.created_at a.key_id b.created_at b.key_id)
            records))

  unfoldable pub delete_tenant : Text → Option Text → Documents → Result (Error E) Bool × Documents
  delete_tenant tenant expected = run do
    tenant_id ← lift (check_tenant_id tenant)
    snapshot ← get (λ (d : Documents). lookup tenant_id d.tenants)
    unless_absent snapshot expected false (do
      fields ← lift (metadata snapshot)
      lift (require_key fields expected)
      (λ d. ok (
        true,
        record {
          tenants = erase tenant_id d.tenants;
          keys = erase_keys fields.key_hashes d.keys;
          states = erase tenant_id d.states;
        },
      )))

  module _ (codec : Codec) where
    open codec use {State}

    unfoldable pub transact :
        {T : Type 0}
        → Instant
        → Text
        → (State → Result E (State × T))
        → Option Text
        → Documents
        → Result (Error E) T × Documents
    transact now tenant callback expected = run do
      tenant_id ← lift (check_tenant_id tenant)
      tenant_snapshot ← get (λ (d : Documents). lookup tenant_id d.tenants)
      fields ← lift (metadata tenant_snapshot)
      lift (require_key fields expected)
      snapshot ← get (λ (d : Documents). lookup tenant_id d.states)
      state ← lift (decode_state codec now snapshot)
      (new_state, result) ←
          lift (elim (callback state) [ ok r ↦ ok r | err e ↦ err (callback_error e) ])
      encoded ← lift (serialize codec new_state)
      set_state tenant_id (state_document encoded now)
      pure result

    -- the deletion of a state that has expired
    unfoldable pub drop_state : Instant → Text → Option StateDocument → Transaction E (Unit {0})
    drop_state now tenant_id none = pure tt
    drop_state now tenant_id (some document) =
        if leb document.expires_at now
        then (λ d. ok (tt, record d { states = erase tenant_id d.states }))
        else pure tt

    unfoldable pub read_state :
        Instant → Text → Option Text → Documents → Result (Error E) (Option State) × Documents
    read_state now tenant expected = run do
      tenant_id ← lift (check_tenant_id tenant)
      tenant_snapshot ← get (λ (d : Documents). lookup tenant_id d.tenants)
      unless_absent tenant_snapshot expected none (do
        fields ← lift (metadata tenant_snapshot)
        lift (require_key fields expected)
        snapshot ← get (λ (d : Documents). lookup tenant_id d.states)
        state ← lift (decode_state codec now snapshot)
        drop_state now tenant_id snapshot
        pure (some state))
