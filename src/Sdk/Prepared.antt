-- ===== src/Sdk/Prepared.antt =====
-- What the validation of sdk/python/src/reliamesh_sdk/events.py establishes.
use reliamesh.Prelude.{
  ◌≡◌, refl, ap, ◌∙◌, Bool, true, false, some, List, ◌∷◌, Text, text, text_dec, length, not, ◌||◌,
  ok, require-ok, raise_if-ok, >>=-eq-ok, arith,
}
use mathlib.Core.Path.{subst}
use reliamesh.Host.{Instant}
use reliamesh.Detection.Prune.{mem_text}
use reliamesh.Storage.Sqlite.Tables.{same}
use reliamesh.Attestation.Values.{Value, string, Members, get, has, get_as, has_text, as_text}
use reliamesh.Attestation.Writes.{keys_within}
use reliamesh.Protocol.Event.{Operation}
use reliamesh.Protocol.Fields.{Formats, as_operation, as_outcome}
use reliamesh.Sdk.Fields.{
  required, allowed, identifiers, counters, supported_operations, is_label, is_one_of, read_outcome,
  is_counter, is_boolean, is_latency_value,
}
use reliamesh.Sdk.Correspondence.{
  IsRead, get_as-there, one_of-operation, outcome_of, read_outcome-there,
}
use reliamesh.Protocol.Validation.{is_uuid_from, is_wrong_version}
use reliamesh.Sdk.Events.{
  put, has_all, absent_or, are_identifiers, are_counters, check_failure, check_members,
  validate_event, unsupported_fields, unsupported_version, event_id_must_be_uuid,
  timestamp_must_have_timezone, unsafe_identifier, unsupported_operation, unsupported_outcome,
  counter_out_of_bounds, latency_out_of_bounds,
}
use reliamesh.Sdk.Acceptance.{IsFormats, get-put_same, get-put_other, keys_within-put, has_all-put}

-- What `validate_event` has established of the members that it returns.
pub record IsPrepared (f : Formats) (d : Members) : Type 0 where
  pub keys : keys_within allowed d ≡ true
  pub there : has_all required d ≡ true
  pub version : has_text (text "schema_version") (text "1.0") d ≡ true
  pub event_id : Text
  pub has_id : get (text "event_id") d ≡ some (string event_id)
  pub is_uuid : f.canonical_uuid event_id ≡ some event_id
  pub uuid_length : length event_id ≡ 36
  pub uuid_pattern : is_uuid_from 0 event_id ≡ true
  pub timestamp : Instant
  pub has_time : get (text "timestamp") d ≡ some (string (f.to_iso timestamp))
  pub is_time : f.from_iso (f.to_iso timestamp) ≡ some timestamp
  pub members : check_members f d ≡ ok tt

key_time : mem_text (text "timestamp") allowed ≡ true
unfolding mem_text text_dec
key_time = refl

key_id : mem_text (text "event_id") allowed ≡ true
unfolding mem_text text_dec
key_id = refl

apart : same (text "event_id") (text "timestamp") ≡ false
unfolding text_dec
apart = refl

apart_time : same (text "schema_version") (text "timestamp") ≡ false
unfolding text_dec
apart_time = refl

apart_id : same (text "schema_version") (text "event_id") ≡ false
unfolding text_dec
apart_id = refl

put_version :
    (k : Text) (v : Value) (d : Members)
    → same (text "schema_version") k ≡ false
    → has_text (text "schema_version") (text "1.0") d ≡ true
    → has_text (text "schema_version") (text "1.0") (put k v d) ≡ true
unfolding has_text
put_version k v d n e = ground (arith, e, get-put_other (text "schema_version") k v d n)

module _ (f : Formats) (laws : IsFormats f) where
  -- `validate_event` rewrites the identifier and the time, and leaves all else.
  pub validate_event-keeps :
      (d r : Members) (k : Text)
      → validate_event f d ≡ ok r
      → same k (text "event_id") ≡ false
      → same k (text "timestamp") ≡ false
      → get k r ≡ get k d
  unfolding validate_event
  validate_event-keeps d r k e not_id not_time =
      let (_, e1) =
        raise_if-ok (not (keys_within allowed d) || not (has_all required d)) unsupported_fields
          e in
      let (_, e2) =
        raise_if-ok (not (has_text (text "schema_version") (text "1.0") d)) unsupported_version
          e1 in
      let (given, _, e3) =
        require-ok event_id_must_be_uuid (get_as as_text (text "event_id") d) e2 in
      let (id, _, e4) = require-ok event_id_must_be_uuid (f.canonical_uuid given) e3 in
      let (given_time, _, e5) =
        require-ok timestamp_must_have_timezone (get_as as_text (text "timestamp") d) e4 in
      let (t, _, e6) = require-ok timestamp_must_have_timezone (f.from_iso given_time) e5 in
      let (_, _, e7) =
        >>=-eq-ok
          (check_members f
            (put (text "timestamp") (string (f.to_iso t)) (put (text "event_id") (string id) d)))
          _ e6 in
      let same_members : r
          ≡ put (text "timestamp") (string (f.to_iso t)) (put (text "event_id") (string id) d) =
        ground (arith, e7) in
      ap (get k) same_members
      ∙ get-put_other k (text "timestamp") _ _ not_time
      ∙ get-put_other k (text "event_id") _ d not_id

  pub validate_event-IsPrepared : (d r : Members) → validate_event f d ≡ ok r → IsPrepared f r
  unfolding validate_event
  validate_event-IsPrepared d r e =
      let (shape, e1) =
        raise_if-ok (not (keys_within allowed d) || not (has_all required d)) unsupported_fields
          e in
      let (version, e2) =
        raise_if-ok (not (has_text (text "schema_version") (text "1.0") d)) unsupported_version
          e1 in
      let (given, _, e3) =
        require-ok event_id_must_be_uuid (get_as as_text (text "event_id") d) e2 in
      let (id, uuid, e4) = require-ok event_id_must_be_uuid (f.canonical_uuid given) e3 in
      let (given_time, _, e5) =
        require-ok timestamp_must_have_timezone (get_as as_text (text "timestamp") d) e4 in
      let (t, time, e6) = require-ok timestamp_must_have_timezone (f.from_iso given_time) e5 in
      let (_, checked, e7) =
        >>=-eq-ok
          (check_members f
            (put (text "timestamp") (string (f.to_iso t)) (put (text "event_id") (string id) d)))
          _ e6 in
      let same_members : put (text "timestamp") (string (f.to_iso t))
            (put (text "event_id") (string id) d)
          ≡ r =
        ground (arith, e7) in
      subst (IsPrepared f) same_members (record {
        keys =
            keys_within-put allowed _ _ _ key_time
              (keys_within-put allowed _ _ d key_id (ground (arith, shape)));
        there = has_all-put required _ _ _ (has_all-put required _ _ d (ground (arith, shape)));
        version =
            put_version (text "timestamp") _ _ apart_time
              (put_version (text "event_id") _ d apart_id (ground (arith, version)));
        event_id = id;
        has_id =
            get-put_other (text "event_id") (text "timestamp") _ _ apart
            ∙ get-put_same (text "event_id") (string id) d;
        is_uuid = laws.canonical_again given id uuid;
        uuid_length = laws.canonical_length given id uuid;
        uuid_pattern = laws.canonical_pattern given id uuid;
        timestamp = t;
        has_time = get-put_same (text "timestamp") (string (f.to_iso t)) _;
        is_time = laws.read_back given_time t time;
        members = checked;
      })

pub same_refl : (a : Text) → same a a ≡ true
same_refl a = ground arith

pub text_there :
    (k t : Text) (d : Members) → get k d ≡ some (string t) → get_as as_text k d ≡ some t
unfolding get_as as_text
text_there k t d e = rw (get_as, e) refl

pub right_version :
    (d : Members)
    → has_text (text "schema_version") (text "1.0") d ≡ true
    → is_wrong_version d ≡ false
unfolding is_wrong_version
right_version d e = ground (arith, e)

pub two_there :
    (d : Members)
    → has_all required d ≡ true
    → (has (text "deployment_id") d ≡ true) × (has (text "agent_id") d ≡ true)
unfolding has_all
two_there d e = (ground (arith, e), ground (arith, e))

pub split_identifiers :
    (a b : Text) (rest : List Text) (d : Members)
    → are_identifiers (a ∷ b ∷ rest) d ≡ true
    → (absent_or is_label (get a d) ≡ true)
      × (absent_or is_label (get b d) ≡ true)
      × (are_identifiers rest d ≡ true)
unfolding are_identifiers
split_identifiers a b rest d e = (ground (arith, e), ground (arith, e), ground (arith, e))

-- the checks of `check_members`, one by one
pub record IsChecked (f : Formats) (d : Members) : Type 0 where
  pub ids : are_identifiers identifiers d ≡ true
  pub operation : Operation
  pub has_operation : get_as as_operation (text "operation") d ≡ some operation
  pub is_failed : Bool
  pub has_outcome : get_as as_outcome (text "outcome") d ≡ some (outcome_of is_failed)
  pub failure : check_failure is_failed d ≡ ok tt
  pub input : absent_or (is_counter 1_000_000_000) (get (text "input_tokens") d) ≡ true
  pub output : absent_or (is_counter 1_000_000_000) (get (text "output_tokens") d) ≡ true
  pub retries : absent_or (is_counter 1_000_000) (get (text "retry_count") d) ≡ true
  pub latency : absent_or (is_latency_value f) (get (text "latency_ms") d) ≡ true
  pub synthetic : absent_or is_boolean (get (text "synthetic") d) ≡ true

pub check_members-IsChecked :
    (f : Formats) (d : Members) → check_members f d ≡ ok tt → IsChecked f d
unfolding check_members are_counters IsRead
check_members-IsChecked f d e =
    let (ids, e1) = raise_if-ok (not (are_identifiers identifiers d)) unsafe_identifier e in
    let (op, e2) =
      raise_if-ok (not (is_one_of supported_operations (get (text "operation") d)))
        unsupported_operation e1 in
    let (is_failed, o, e3) =
      require-ok unsupported_outcome (read_outcome (get (text "outcome") d)) e2 in
    let (_, fail, e4) = >>=-eq-ok (check_failure is_failed d) _ e3 in
    let (counted, e5) = raise_if-ok (not (are_counters counters d)) counter_out_of_bounds e4 in
    let (lat, e6) =
      raise_if-ok (not (absent_or (is_latency_value f) (get (text "latency_ms") d)))
        latency_out_of_bounds e5 in
    let (operation, given, there, known) =
      one_of-operation (get (text "operation") d) (ground (arith, op)) in
    let (v, there', read) = read_outcome-there (get (text "outcome") d) is_failed o in
    record {
      ids = ground (arith, ids);
      operation = operation;
      has_operation = get_as-there as_operation (text "operation") d given operation there known;
      is_failed = is_failed;
      has_outcome = get_as-there as_outcome (text "outcome") d v (outcome_of is_failed) there' read;
      failure = fail;
      input = ground (arith, counted);
      output = ground (arith, counted);
      retries = ground (arith, counted);
      latency = ground (arith, lat);
      synthetic = ground (arith, e6);
    }
