-- ===== src/Api/Endpoints.antt =====
-- The endpoints of src/reliamesh/api.py that change or read what is stored.
use reliamesh.Prelude.{
  ℕ, ◌+◌, ◌/◌, Bool, true, false, [], ◌∷◌, in_range, leb, ◌||◌, Option, none, some, List, Text,
  text, length, ltb, ◌==◌, if◌then◌else◌, not, ◌&&◌, Result, ok, err, all_chars, any, keep,
}
use reliamesh.Host.{Host, Instant, seconds}
use reliamesh.Protocol.Event.{Event}
use reliamesh.Detection.State.{State, Counts, aware}
use reliamesh.Detection.Batch.{process_events}
use reliamesh.Detection.Summary.{View, summarize}
use reliamesh.Detection.Prune.{mem_text}
use reliamesh.Storage.Common
use reliamesh.Storage.Common.{Codec, KeyInfo, is_hex, all_scopes}
use reliamesh.Storage.Sqlite.Tables.{same}
use reliamesh.Storage.Sqlite.Methods
use reliamesh.Api.Access.{
  Refusal, http, detection, refused, invalid_credentials, of_store, Principal, Handler, ◌>>=◌, ◌>>◌,
  pure, raise_if, lift, call, admin,
}

-- the number of the day
abbrev pub day_of : Instant → ℕ
day_of now = now / seconds 86_400

-- `TenantId`: `[a-z0-9][a-z0-9_-]{2,63}`
unfoldable pub is_tenant_id : Text → Bool
is_tenant_id [] = false
is_tenant_id (c ∷ cs) =
    (in_range b'a' b'z' c || in_range b'0' b'9' c)
    && (leb 2 (length cs) && (leb (length cs) 63 && all_chars is_tenant_char cs))
  where
    is_tenant_char : ℕ → Bool
    is_tenant_char d = in_range b'a' b'z' d || (in_range b'0' b'9' d || (d == b'_' || (d == b'-')))

module _ (h : Host) where
  -- the callback `update` of `ingest`; a stored state that is empty is `none`
  unfoldable pub used_today : Instant → Option (State h) → ℕ
  used_today now none = 0
  used_today now (some state) = elim state.usage [
    | none ↦ 0
    | some usage ↦ if usage.day == day_of now then usage.events else 0
  ]

  unfoldable pub update :
      (State h → ℕ)
      → ℕ
      → List (Event h)
      → Instant
      → Option (State h)
      → Result Refusal (State h × Counts)
  update encoded_size daily_events events now state =
      elim (process_events h encoded_size state events (aware now)) [
        | err e ↦ err (detection e)
        | ok (new_state, result) ↦
            if ltb daily_events (used_today now state + result.accepted)
            then err (http 429 (text "daily_event_quota"))
            else ok (
              record new_state {
                usage =
                    some (record {
                      day = day_of now;
                      events = used_today now state + result.accepted;
                    });
              },
              result,
            )
      ]

  -- What the store keeps of the detector's state: its JSON, the empty object for `none`.
  pub record StateCodec : Type 0 where
    pub dumps : Option (State h) → Option Text
    pub loads : Text → Option (Option (State h))

  abbrev pub codec_of : StateCodec → Codec
  codec_of c = record { State = Option (State h); empty = none; dumps = c.dumps; loads = c.loads }

  module _ (c : StateCodec) (encoded_size : State h → ℕ) where
    -- the endpoint reads the clock first, and the store again in its transaction
    unfoldable pub ingest : ℕ → List (Event h) → Instant → Instant → Principal → Handler Counts
    ingest daily_events events now stored_at principal = call (
        Methods.transact (codec_of c) stored_at principal.key.tenant_id
          (λ state. elim (update encoded_size daily_events events now state) [
            | ok r ↦ ok (some r.0, r.1)
            | err e ↦ err e
          ])
          (some principal.key_hash))

    -- the store reads the clock first, and the endpoint again
    unfoldable pub summary : Instant → Instant → Principal → Handler (View h)
    summary read_at now principal = do
      found ← call (
          Methods.read_state (codec_of c) read_at principal.key.tenant_id (some principal.key_hash))
      elim found [
        | none ↦ (λ s. (err invalid_credentials, s))
        | some state ↦ lift (elim (summarize h state (aware now)) [
          | ok view ↦ ok view
          | err e ↦ err (refused (detection e))
        ])
      ]

  -- `key` is what `new_key` gives.
  unfoldable pub create_tenant : Text → Text → Text → Text → Instant → Handler (Unit {0})
  create_tenant admin_hash header tenant_id key now = do
    lift (admin h admin_hash header)
    raise_if (not (is_tenant_id tenant_id)) (refused (http 422 (text "invalid_request")))
    (λ s.
        let (r, db) = Methods.create_tenant tenant_id (h.sha256 key) (aware now) s.db in
        (
          elim r [
            | err Common.tenant_exists ↦ err (refused (http 409 (text "tenant_exists")))
            | other ↦ of_store other
          ],
          record s { db = db },
        ))

  unfoldable pub add_key : Text → List Text → Instant → Principal → Handler (Unit {0})
  add_key key scopes now principal = do
    raise_if (any (λ scope. not (mem_text scope principal.key.scopes)) scopes)
        (refused (http 403 (text "scope_escalation")))
    call (
        Methods.add_key principal.key.tenant_id (h.sha256 key)
          (keep (λ scope. mem_text scope scopes) all_scopes) (aware now) (some principal.key_hash))

unfoldable pub keys : Principal → Handler (List KeyInfo)
keys principal = call (Methods.list_keys principal.key.tenant_id (some principal.key_hash))

unfoldable pub revoke_key : Text → Principal → Handler (Unit {0})
revoke_key key_id principal = do
  raise_if (not (length key_id == 12 && all_chars is_hex key_id))
      (refused (http 422 (text "invalid_key_id")))
  removed ← call (Methods.revoke_key principal.key.tenant_id key_id (some principal.key_hash))
  raise_if (not removed) (refused (http 404 (text "key_not_found")))

unfoldable pub delete_tenant : Option Text → Principal → Handler (Unit {0})
delete_tenant confirmation principal = do
  raise_if
      (elim confirmation [ none ↦ true | some value ↦ not (same value principal.key.tenant_id) ])
      (refused (http 400 (text "tenant_confirmation_required")))
  deleted ← call (Methods.delete_tenant principal.key.tenant_id (some principal.key_hash))
  pure tt
