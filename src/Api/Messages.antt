-- ===== src/Api/Messages.antt =====
-- The messages that `safe_send` of src/reliamesh/api.py passes on: their headers, and how many
-- responses they start.
use reliamesh.Prelude.{
  ℕ, ◌+◌, ◌≤◌, ◌≡◌, refl, true, false, List, [], ◌∷◌, ◌++◌, map, Text, All, arith,
}
use reliamesh.Api.Middleware.{
  Headers, Sent, response_start, response_body, security_headers, safe_send, response_started,
}

-- The headers of a response end with the security headers.
unfoldable pub IsSecured : Text → Sent → Type 0
IsSecured request_id (response_start status headers) =
    (own : Headers) × (headers ≡ own ++ security_headers request_id)
IsSecured request_id (response_body bytes more) = Unit

-- How many responses the messages start.
unfoldable pub starts : List Sent → ℕ
starts [] = 0
starts (response_start status headers ∷ sent) = starts sent + 1
starts (response_body bytes more ∷ sent) = starts sent

pub safe_send-IsSecured :
    (request_id : Text) (sent : List Sent)
    → All (IsSecured request_id) (map (safe_send request_id) sent)
unfolding safe_send IsSecured
safe_send-IsSecured request_id [] = tt
safe_send-IsSecured request_id (response_start status headers ∷ sent) =
    ((headers, refl), safe_send-IsSecured request_id sent)
safe_send-IsSecured request_id (response_body bytes more ∷ sent) =
    (tt, safe_send-IsSecured request_id sent)

pub starts-safe_send :
    (request_id : Text) (sent : List Sent) → starts (map (safe_send request_id) sent) ≡ starts sent
unfolding starts safe_send
starts-safe_send request_id [] = refl
starts-safe_send request_id (response_start status headers ∷ sent) =
    ground (arith, starts-safe_send request_id sent)
starts-safe_send request_id (response_body bytes more ∷ sent) = starts-safe_send request_id sent

pub starts-append : (xs ys : List Sent) → starts (xs ++ ys) ≡ starts xs + starts ys
unfolding starts
starts-append [] ys = omega arith
starts-append (response_start status headers ∷ xs) ys = ground (arith, starts-append xs ys)
starts-append (response_body bytes more ∷ xs) ys = starts-append xs ys

pub starts-response_started : (sent : List Sent) → response_started sent ≡ false → starts sent ≡ 0
unfolding starts response_started
starts-response_started [] e = refl
starts-response_started (response_start status headers ∷ sent) e = cc
starts-response_started (response_body bytes more ∷ sent) e = starts-response_started sent e

pub response_started-starts : (sent : List Sent) → response_started sent ≡ true → 1 ≤ starts sent
unfolding starts response_started
response_started-starts [] e = cc
response_started-starts (response_start status headers ∷ sent) e = omega arith
response_started-starts (response_body bytes more ∷ sent) e = response_started-starts sent e
