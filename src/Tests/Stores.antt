-- ===== src/Tests/Stores.antt =====
-- The two stores, run.
use reliamesh.Prelude.{
  length, ◌+◌, ◌≡◌, ◌≢◌, refl, Bool, true, none, some, List, [], ◌∷◌, Text, text, Result, ok, err,
  arith, inr, in_range, text_dec, text_le, take,
}
use reliamesh.Prelude.Dict.{lookup, insert, erase}
use reliamesh.Host.{Instant}
use reliamesh.Detection.State.{aware}
use reliamesh.Storage.Common.{
  Error, Codec, tenant_missing, key_record, utc, check_tenant_id, check_digest, check_selector,
  serialize, all_scopes, retention, is_hex, is_id_char,
}
use reliamesh.Storage.Sqlite.Tables
use reliamesh.Storage.Sqlite.Methods
use reliamesh.Storage.Sqlite.Rollback.{Unchanged, methods_roll_back}
use reliamesh.Detection.Prune.{mem_text}
use reliamesh.Detection.Batch.{sort_by, insert_by}
use reliamesh.Storage.Common.{check_scopes, has_duplicate}
use reliamesh.Storage.Sqlite.Additions.{IsSorted, added_key_authenticates}
use reliamesh.Storage.Sqlite.Isolation.{SameFor, methods_isolate}
use reliamesh.Storage.Sqlite.Invariant.{IsCapped, methods_keep_caps}
use reliamesh.Storage.Sqlite.Credentials.{authenticate-create_tenant, revoke_key_blocks}
use reliamesh.Storage.Sqlite.States.{read_state-transact}
use reliamesh.Storage.Firestore.Documents
use reliamesh.Storage.Firestore.Methods as Remote
use reliamesh.Storage.Firestore.Credentials.{created_key_authenticates, revoked_key_is_refused}

program : Unit {0}
unfolding Methods.create_tenant Methods.require_tenant Methods.require_key Methods.revoke_key
    Methods.transact Methods.read_state Methods.read_row Methods.current_state Methods.decode
    Tables.insert_tenant Tables.insert_key Tables.insert_state Tables.upsert_state
    Remote.create_tenant Remote.revoke_key Remote.remove_key Documents.metadata
    Documents.require_key Documents.state_document key_record utc check_tenant_id check_digest
    check_selector serialize is_hex is_id_char in_range lookup insert erase text_dec text_le take
program = tt

abbrev acme : Text
acme = text "acme"

-- sixty-four digits
abbrev digest : Text
digest = text "0123456789abcdef0123456789abcdef0123456789abcdef0123456789abcdef"

-- texts as states
abbrev codec : Codec
codec = record { State = Text; empty = text "{}"; dumps = some; loads = some }

abbrev nothing : Tables.Database
nothing = record { tenants = []; api_keys = []; tenant_states = [] }

abbrev created : Result (Error Bool) (Unit {0}) × Tables.Database
created = Methods.create_tenant {E = Bool} acme digest (aware 1_000) nothing

abbrev made : Tables.Database
made = created.1

created_ok : created.0 ≡ ok tt
unfolding program
created_ok = refl

authenticate-create_tenant_example :
    (Methods.authenticate {E = Bool} digest made).0
    ≡ ok (some (key_record acme digest all_scopes 1_000))
authenticate-create_tenant_example =
    authenticate-create_tenant Bool acme digest 1_000 nothing created_ok

revoked_ok : (Methods.revoke_key {E = Bool} acme digest none made).0 ≡ ok true
unfolding program
revoked_ok = refl

digest_ok : check_digest {E = Bool} digest ≡ ok digest
unfolding program
digest_ok = refl

selector_ok : check_selector {E = Bool} digest ≡ ok digest
unfolding program
selector_ok = refl

abbrev revoked : Tables.Database
revoked = (Methods.revoke_key {E = Bool} acme digest none made).1

-- stores a text, and returns a Boolean
abbrev write : Text → Result Bool (Text × Bool)
write s = ok (text "{\"n\":1}", true)

revoke_key_blocks_example :
    (Methods.transact codec 1_500 acme write (some digest) revoked ≡ (err tenant_missing, revoked))
    × (Methods.read_state {E = Bool} codec 1_500 acme (some digest) revoked
        ≡ (err tenant_missing, revoked))
    × (Methods.list_keys {E = Bool} acme (some digest) revoked ≡ (err tenant_missing, revoked))
    × (Methods.revoke_key {E = Bool} acme digest (some digest) revoked
        ≡ (err tenant_missing, revoked))
    × (Methods.delete_tenant {E = Bool} acme (some digest) revoked ≡ (err tenant_missing, revoked))
revoke_key_blocks_example =
    revoke_key_blocks Bool codec acme digest none made 1_500 write digest digest_ok revoked_ok
      selector_ok

-- a second key, to read alone
abbrev reader : Text
reader = text "fedcba9876543210fedcba9876543210fedcba9876543210fedcba9876543210"

abbrev read_only : List Text
read_only = text "read" ∷ []

read_only_ok : check_scopes {E = Bool} read_only ≡ ok read_only
unfolding program check_scopes has_duplicate mem_text sort_by insert_by
read_only_ok = refl

added_ok :
    (Methods.add_key {E = Bool} acme reader read_only (aware 1_200) (some digest) made).0 ≡ ok tt
unfolding program Methods.add_key Methods.keys_of check_scopes has_duplicate mem_text sort_by
    insert_by
added_ok = refl

added_key_authenticates_example :
    (scopes : List Text) × ((Methods.authenticate {E = Bool} reader
        (Methods.add_key {E = Bool} acme reader read_only (aware 1_200) (some digest) made).1).0
      ≡ ok (some (key_record acme reader scopes 1_200)))
    × IsSorted scopes
    × (length scopes ≡ length read_only)
    × ((scope : Text) → mem_text scope scopes ≡ mem_text scope read_only)
added_key_authenticates_example =
    added_key_authenticates Bool acme reader read_only 1_200 (some digest) made added_ok

nothing-IsCapped : IsCapped acme nothing
unfolding IsCapped Methods.keys_of
nothing-IsCapped = (omega arith, inr refl)

abbrev written : Tables.Database
written = (Methods.transact codec 2_000 acme write none made).1

wrote : Methods.transact codec 2_000 acme write none made ≡ (ok true, written)
unfolding program
wrote = refl

before : (Methods.read_state {E = Bool} codec 2_000 acme none made).0 ≡ ok (some (text "{}"))
unfolding program
before = refl

read_state-transact_example :
    (new : Text) × (write (text "{}") ≡ ok (new, true))
    × (Methods.read_state {E = Bool} codec 2_001 acme none written ≡ (ok (some new), written))
    × ((Methods.read_state {E = Bool} codec (2_000 + retention) acme none written).0
        ≡ ok (some (text "{}")))
    × (lookup acme
          (Methods.read_state {E = Bool} codec
            (2_000 + retention)
            acme
            none
            written).1.tenant_states
        ≡ none)
read_state-transact_example =
    read_state-transact Bool codec (λ s t e. cc) 2_000 acme write none made written (text "{}") true
      2_001 (2_000 + retention) before wrote (omega arith) (omega arith)

-- the tenant exists already
methods_roll_back_example :
    Unchanged {E = Bool} made (Methods.create_tenant acme digest (aware 1_500) made)
methods_roll_back_example = (methods_roll_back Bool made).0 acme digest (aware 1_500)

acme-other : acme ≢ text "other"
acme-other = ground arith

methods_isolate_example :
    SameFor
      (text "other")
      nothing
      (Methods.create_tenant {E = Bool} acme digest (aware 1_500) nothing).1
methods_isolate_example =
    (methods_isolate Bool acme (text "other") acme-other nothing).0 digest (aware 1_500)

methods_keep_caps_example :
    IsCapped acme (Methods.create_tenant {E = Bool} acme digest (aware 1_500) nothing).1
methods_keep_caps_example =
    (methods_keep_caps Bool acme nothing acme nothing-IsCapped).0 digest (aware 1_500)

-- the same in Firestore
abbrev no_documents : Documents.Documents
no_documents = record { tenants = []; keys = []; states = [] }

abbrev remote : Result (Error Bool) (Unit {0}) × Documents.Documents
remote = Remote.create_tenant {E = Bool} acme digest (aware 1_000) no_documents

remote_ok : remote.0 ≡ ok tt
unfolding program
remote_ok = refl

created_key_authenticates_example :
    Remote.authenticate {E = Bool} digest remote.1
    ≡ (ok (some (key_record acme digest all_scopes 1_000)), remote.1)
created_key_authenticates_example =
    created_key_authenticates Bool acme digest 1_000 no_documents remote_ok

abbrev fields : Documents.Metadata
fields = record { schema = 1; created_at = 1_000; key_hashes = digest ∷ [] }

fields_there : lookup acme remote.1.tenants ≡ some fields
unfolding program
fields_there = refl

remote_revoked_ok : (Remote.revoke_key {E = Bool} acme digest none remote.1).0 ≡ ok true
unfolding program
remote_revoked_ok = refl

abbrev refused : Documents.Documents
refused = (Remote.revoke_key {E = Bool} acme digest none remote.1).1

revoked_key_is_refused_example :
    (Remote.authenticate {E = Bool} digest refused ≡ (ok none, refused))
    × ((now : Instant) (callback : Text → Result Bool (Text × Bool))
        → Remote.transact codec now acme callback (some digest) refused
          ≡ (err tenant_missing, refused))
    × ((now : Instant)
        → Remote.read_state {E = Bool} codec now acme (some digest) refused
          ≡ (err tenant_missing, refused))
    × (Remote.list_keys {E = Bool} acme (some digest) refused ≡ (err tenant_missing, refused))
    × (Remote.delete_tenant {E = Bool} acme (some digest) refused ≡ (err tenant_missing, refused))
    × ((t : Instant)
        → Remote.add_key {E = Bool} acme digest read_only (aware t) (some digest) refused
          ≡ (err tenant_missing, refused))
    × (Remote.revoke_key {E = Bool} acme digest (some digest) refused
        ≡ (err tenant_missing, refused))
revoked_key_is_refused_example =
    revoked_key_is_refused Bool codec acme digest none remote.1 fields digest digest read_only
      read_only digest_ok fields_there remote_revoked_ok digest_ok read_only_ok selector_ok
