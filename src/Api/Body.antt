-- ===== src/Api/Body.antt =====
-- `SafetyMiddleware` of src/reliamesh/api.py: the buffering of a body and the scan of its nesting.
use mathlib.Core.List.{append_assoc}
use reliamesh.Prelude.{
  ℕ, ◌+◌, ◌≤◌, ◌≡◌, Bool, true, false, List, [], ◌∷◌, ◌++◌, length, ltb, ◌==◌, if◌then◌else◌, not,
  ◌&&◌, ◌||◌, arith, length-append,
}

-- A message of `receive`.
pub data Message : Type 0 where
  disconnect : Message
  -- the bytes, and whether more follow
  request : List ℕ → Bool → Message

-- What becomes of a body.
pub data Received : Type 0 where
  complete : List ℕ → Received
  disconnected : Received
  payload_too_large : Received
  -- the messages end before the body does: the handler still waits
  waiting : Received

-- the loop over the messages
unfoldable pub receive_body : ℕ → List ℕ → List Message → Received
receive_body max_body_bytes body [] = waiting
receive_body max_body_bytes body (disconnect ∷ messages) = disconnected
receive_body max_body_bytes body (request chunk more ∷ messages) =
    let rest = receive_body max_body_bytes (body ++ chunk) messages in
    if ltb max_body_bytes (length body + length chunk)
    then payload_too_large
    else if more
    then rest
    else complete (body ++ chunk)

-- The variables of the scan; `depth` is the difference of the two counts.
pub record Scan : Type 0 where
  pub opened : ℕ
  pub closed : ℕ
  pub quoted : Bool
  pub escaped : Bool

unfoldable pub scan_byte : ℕ → Scan → Scan
scan_byte byte s =
    if s.escaped
    then record s { escaped = false }
    else if s.quoted && (byte == 92)
    then record s { escaped = true }
    else if byte == 34
    then record s { quoted = not s.quoted }
    else if s.quoted
    then s
    else if byte == 91 || (byte == 123)
    then record s { opened = s.opened + 1 }
    else if byte == 93 || (byte == 125)
    then record s { closed = s.closed + 1 }
    else s

unfoldable pub is_deep : Scan → Bool
is_deep s = ltb (s.closed + 12) s.opened

-- whether the scan rejects the bytes; the test follows each byte outside a string
unfoldable pub json_too_deep : Scan → List ℕ → Bool
json_too_deep s [] = false
json_too_deep s (byte ∷ bytes) = let s' = scan_byte byte s in is_deep s' || json_too_deep s' bytes

abbrev pub start : Scan
start = record { opened = 0; closed = 0; quoted = false; escaped = false }

-- the chunks of the messages up to the last of the body
unfoldable pub chunks : List Message → List ℕ
chunks [] = []
chunks (disconnect ∷ messages) = []
chunks (request chunk true ∷ messages) = chunk ++ chunks messages
chunks (request chunk false ∷ messages) = chunk

-- A body that is passed on has at most the permitted bytes, and is what was buffered before
-- followed by the chunks of the messages up to the last of the body.
pub receive_body-complete :
    (limit : ℕ) (body : List ℕ) (messages : List Message) (result : List ℕ)
    → receive_body limit body messages ≡ complete result
    → (length result ≤ limit) × (result ≡ body ++ chunks messages)
unfolding receive_body chunks
receive_body-complete limit body [] result e = cc
receive_body-complete limit body (disconnect ∷ messages) result e = cc
receive_body-complete limit body (request chunk true ∷ messages) result e = ground (
  arith,
  e,
  receive_body-complete limit (body ++ chunk) messages result,
  append_assoc body chunk (chunks messages),
)
receive_body-complete limit body (request chunk false ∷ messages) result e =
    ground (arith, e, length-append body chunk)
