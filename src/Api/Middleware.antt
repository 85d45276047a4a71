-- ===== src/Api/Middleware.antt =====
-- `SafetyMiddleware.__call__` of src/reliamesh/api.py: the guards before the application, the headers
-- of each response and what an exception of the application becomes. The framework's application and
-- its `JSONResponse` are parameters; `World` is what the application reads and changes.
use reliamesh.Prelude.{
  ℕ, Bool, true, false, none, some, List, [], ◌∷◌, ◌++◌, map, Text, text, ◌==◌, if◌then◌else◌, not,
  ◌&&◌, ◌||◌,
}
use reliamesh.Prelude.Dict.{Dict, lookup, insert}
use reliamesh.Config.{Settings}
use reliamesh.Detection.Prune.{mem_text}
use reliamesh.Storage.Sqlite.Tables.{same}
use reliamesh.Security.Limiter.{Limiter, allow}
use reliamesh.Api.Body.{
  Message, request, disconnect, Received, complete, disconnected, payload_too_large, waiting,
  receive_body, json_too_deep, start,
}

-- names and values, as ASCII bytes
abbrev pub Headers : Type 0
Headers = List (Text × Text)

pub record Scope : Type 0 where
  pub kind : Text
  pub method : Text
  pub path : Text
  pub headers : Headers

-- A message of `send`.
pub data Sent : Type 0 where
  response_start : ℕ → Headers → Sent
  response_body : List ℕ → Bool → Sent

-- How a call ends.
pub data Ending : Type 0 where
  returned : Ending
  raised : Ending
  -- `RuntimeError("response_failed")`
  response_failed : Ending
  -- the body is not complete
  waiting_for_body : Ending

pub record Handled (World : Type 0) : Type 0 where
  pub sent : List Sent
  pub ending : Ending
  pub world : World

pub record Middleware (World : Type 0) : Type 0 where
  -- the messages it sends, whether it raised, and the world after it
  pub app : Scope → List Message → World → List Sent × Bool × World
  -- a code, a status and the headers that the handler sets
  pub json_response : Text → ℕ → Headers → List Sent
  pub settings : Settings
  -- `str(uuid4())`
  pub request_id : Text

unfoldable pub security_headers : Text → Headers
security_headers request_id =
    (text "x-request-id", request_id)
    ∷ (text "x-content-type-options", text "nosniff")
    ∷ (text "referrer-policy", text "no-referrer")
    ∷ (text "cache-control", text "no-store")
    ∷ (
      text "content-security-policy",
      text "default-src 'none'; img-src 'self'; style-src 'unsafe-inline'; frame-ancestors 'none'",
    )
    ∷ (text "strict-transport-security", text "max-age=31536000")
    ∷ []

unfoldable pub safe_send : Text → Sent → Sent
safe_send request_id (response_start status headers) =
    response_start status (headers ++ security_headers request_id)
safe_send request_id (response_body bytes more) = response_body bytes more

-- `response_started` after these messages
unfoldable pub response_started : List Sent → Bool
response_started [] = false
response_started (response_start status headers ∷ sent) = true
response_started (response_body bytes more ∷ sent) = response_started sent

unfoldable pub rejection : {World : Type 0} → Middleware World → ℕ → Text → List Sent
rejection m status code = map (safe_send m.request_id) (
    m.json_response code status
      (if status == 429 then (text "Retry-After", text "60") ∷ [] else []))

unfoldable pub reject : {World : Type 0} → Middleware World → ℕ → Text → World → Handled World
reject m status code w = record { sent = rejection m status code; ending = returned; world = w }

-- `scope["path"] in BRAND_ASSETS`
abbrev pub brand_assets : List Text
brand_assets =
    text "/assets/reliamesh-mark.png"
    ∷ text "/favicon-32.png"
    ∷ text "/favicon.ico"
    ∷ text "/apple-touch-icon.png"
    ∷ []

unfoldable pub is_public_asset : Scope → Bool
is_public_asset scope =
    mem_text scope.method (text "GET" ∷ text "HEAD" ∷ []) && mem_text scope.path brand_assets

unfoldable pub is_unlimited : Scope → Bool
is_unlimited scope = mem_text scope.path (text "/health" ∷ text "/" ∷ []) || is_public_asset scope

-- `dict(scope.get("headers", []))`
unfoldable pub dict_of : Headers → Dict Text → Dict Text
dict_of [] d = d
dict_of (h ∷ headers) d = dict_of headers (insert h.0 h.1 d)

unfoldable pub header : Scope → Text → Text → Text
header scope name default = elim (lookup name (dict_of scope.headers [])) [
  | none ↦ default
  | some value ↦ value
]

-- `.split(b";")[0]`
unfoldable pub before_semicolon : Text → Text
before_semicolon [] = []
before_semicolon (c ∷ cs) = let rest = before_semicolon cs in if c == 59 then [] else c ∷ rest

unfoldable pub is_encoded : Scope → Bool
is_encoded scope =
    not (same (header scope (text "content-encoding") (text "identity")) (text "identity"))

unfoldable pub is_unreadable : Scope → Bool
is_unreadable scope =
    mem_text scope.method (text "POST" ∷ text "PUT" ∷ text "PATCH" ∷ [])
    && not
        (same (before_semicolon (header scope (text "content-type") [])) (text "application/json"))

-- the messages after the last of the body
unfoldable pub after_body : List Message → List Message
after_body [] = []
after_body (disconnect ∷ messages) = messages
after_body (request chunk true ∷ messages) = after_body messages
after_body (request chunk false ∷ messages) = messages

-- The application with `safe_send`; an exception before its response started is a 503.
unfoldable pub dispatch :
    {World : Type 0} → Middleware World → Scope → List Message → World → Handled World
dispatch m scope messages w =
    let (raw, failed, w') = m.app scope messages w in
    let sent = map (safe_send m.request_id) raw in
    if not failed
    then record { sent = sent; ending = returned; world = w' }
    else if response_started raw
    then record { sent = sent; ending = response_failed; world = w' }
    else record {
      sent = sent ++ rejection m 503 (text "temporarily_unavailable");
      ending = returned;
      world = w';
    }

-- What follows the loop over the messages; `bounded_receive` gives the whole body once, and then
-- what is left of the messages.
unfoldable pub after_receive :
    {World : Type 0} → Middleware World → Scope → List Message → World → Received → Handled World
after_receive m scope messages w (complete body) =
    if json_too_deep start body
    then reject m 422 (text "json_too_deep") w
    else dispatch m scope (request body false ∷ messages) w
after_receive m scope messages w disconnected = record { sent = []; ending = returned; world = w }
after_receive m scope messages w payload_too_large = reject m 413 (text "payload_too_large") w
after_receive m scope messages w waiting = record {
  sent = [];
  ending = waiting_for_body;
  world = w;
}

unfoldable pub handle :
    {World : Type 0} → Middleware World → Scope → List Message → World → Handled World
handle m scope messages w =
    if is_encoded scope
    then reject m 415 (text "unsupported_encoding") w
    else if is_unreadable scope
    then reject m 415 (text "application_json_required") w
    else after_receive m scope (after_body messages) w
        (receive_body m.settings.max_body_bytes [] messages)

-- a scope of another kind than a request
unfoldable pub pass :
    {World : Type 0} → Middleware World → Scope → List Message → World → Handled World
pass m scope messages w =
    let (sent, failed, w') = m.app scope messages w in
    record { sent = sent; ending = if failed then raised else returned; world = w' }

unfoldable pub call :
    {World : Type 0}
    → Middleware World
    → Limiter
    → ℕ
    → Scope
    → List Message
    → World
    → Handled World × Limiter
call m limiter now scope messages w =
    if not (same scope.kind (text "http"))
    then (pass m scope messages w, limiter)
    else if is_unlimited scope
    then (handle m scope messages w, limiter)
    else (let (admitted, limiter') = allow limiter now (text "all") in
        (
          if admitted then handle m scope messages w else reject m 429 (text "rate_limited") w,
          limiter',
        ))
