-- ===== src/Tests/Middleware.antt =====
-- A request before an application that counts its runs and raises.
use reliamesh.Prelude.{
  ℕ, ◌+◌, ◌≤◌, ◌≡◌, ◌⊎◌, refl, true, false, [], ◌∷◌, List, length, Text, text, All, text_dec, arith,
}
use reliamesh.Config.{Settings}
use reliamesh.Storage.Sqlite.Tables.{same}
use reliamesh.Security.Limiter.{Limiter}
use reliamesh.Api.Body.{Message, request, receive_body, complete, chunks, json_too_deep, start}
use reliamesh.Api.Middleware.{Scope, Middleware, response_start, response_body, after_body, call}
use reliamesh.Api.Messages.{IsSecured, starts}
use reliamesh.Api.Responses.{call-IsSecured, starts-call, call-IsScreened}

abbrev settings : Settings
settings = record {
  store = text "sqlite";
  sqlite_path = text "reliamesh.db";
  project = text "reliamesh";
  database = [];
  admin_hash = [];
  max_body_bytes = 4;
  daily_events = 100;
  requests_per_minute = 60;
  global_requests_per_second = 2;
}

abbrev failing : Middleware ℕ
failing = record {
  app = λ scope messages runs. ([], true, runs + 1);
  json_response =
      λ code status headers. response_start status headers ∷ response_body code false ∷ [];
  settings = settings;
  request_id = text "17";
}

abbrev limiter : Limiter
limiter = record { limit = 2; seconds = 1; capacity = 4096; buckets = [] }

abbrev ingest : Scope
ingest = record {
  kind = text "http";
  method = text "POST";
  path = text "/v1/events";
  headers = (text "content-type", text "application/json; charset=utf-8") ∷ [];
}

-- an empty object, in two chunks
abbrev braces : List Message
braces = request (123 ∷ []) true ∷ request (125 ∷ []) false ∷ []

is_http : same ingest.kind (text "http") ≡ true
unfolding text_dec
is_http = refl

received : receive_body 4 [] braces ≡ complete (123 ∷ 125 ∷ [])
unfolding receive_body
received = refl

call-IsSecured_example : All (IsSecured (text "17")) (call failing limiter 5 ingest braces 0).0.sent
call-IsSecured_example = call-IsSecured failing limiter 5 ingest braces 0 is_http

refusal : (code : Text) (status : ℕ) (own : _) → starts (failing.json_response code status own) ≡ 1
unfolding starts
refusal code status own = refl

silent : starts [] ≤ 1
unfolding starts
silent = omega arith

starts-call_example : starts (call failing limiter 5 ingest braces 0).0.sent ≡ 1
starts-call_example =
    starts-call failing limiter 5 ingest braces 0 (123 ∷ 125 ∷ []) is_http received refusal
      (λ _. silent) (λ _ e. cc)

call-IsScreened_example :
    ((call failing limiter 5 ingest braces 0).0.world ≡ 0)
    ⊎ ((body : List ℕ) × (length body ≤ 4)
        × (json_too_deep start body ≡ false)
        × (body ≡ chunks braces)
        × ((call failing limiter 5 ingest braces 0).0.world
            ≡ (failing.app ingest (request body false ∷ after_body braces) 0).2))
call-IsScreened_example = call-IsScreened failing limiter 5 ingest braces 0 is_http
