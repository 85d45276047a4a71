-- ===== src/Sdk/Client.antt =====
-- `Client` of sdk/python/src/reliamesh_sdk/client.py: the bounded queue, `emit`, `_request` and
-- `flush`, each as one step, since they hold the client's locks. The server is an argument, which
-- answers each attempt in turn; the events are of any type, with `validate_event` and the size of
-- an event's JSON as arguments.
use reliamesh.Prelude.{
  ℕ, zero, suc, ◌+◌, ◌-◌, min, Bool, true, false, Option, none, some, List, [], ◌∷◌, ◌++◌, length,
  ltb, leb, ◌==◌, if◌then◌else◌, ◌||◌, Result, ok, err,
}

-- A member of the acknowledgement that should be a count.
pub data Member : Type 0 where
  no_int : Member
  negative : Member
  count : ℕ → Member

-- What a response body decodes to.
pub data Body : Type 0 where
  invalid_json : Body
  -- nested past the interpreter's recursion limit
  too_deep : Body
  other : Body
  list : Body
  -- whether `schema_version` is "1.0", `accepted`, `duplicates`
  object : Bool → Member → Member → Body

-- What one attempt meets.
pub data Response : Type 0 where
  -- the bytes of the body, and the body
  answer : ℕ → Body → Response
  http_error : ℕ → Response
  -- URLError, OSError, HTTPException
  unreachable : Response

pub data Error : Type 0 where
  sdk_error delivery_error : Error
  -- the interpreter's, which no handler of the client catches
  recursion_error : Error

pub data FailureMode : Type 0 where
  drop raise : FailureMode

pub record Counts : Type 0 where
  pub enqueued : ℕ
  pub sent : ℕ
  pub dropped : ℕ
  pub failed_batches : ℕ
  pub retries : ℕ

pub record Client (E : Type 0) : Type 0 where
  pub max_retries : ℕ
  pub queue_capacity : ℕ
  pub failure_mode : FailureMode
  pub queue : List E
  pub counts : Counts
  -- how many attempts the server has seen
  pub attempts : ℕ

-- the `raise` of an error, or the return, by the mode
abbrev pub fail : {A : Type 0} → FailureMode → Error → A → Result Error A
fail drop e a = ok a
fail raise e a = err e

-- the reading of a body
unfoldable pub read_body : ℕ → Body → Result Error Body
read_body size body = if ltb 1_048_576 size then err delivery_error else elim body [
  | invalid_json ↦ err delivery_error
  | too_deep ↦ err recursion_error
  | other ↦ err delivery_error
  | list ↦ ok list
  | object v a d ↦ ok (object v a d)
]

-- whether the acknowledgement is of so many events
unfoldable pub is_acknowledgement : ℕ → Body → Bool
is_acknowledgement n (object true (count accepted) (count duplicates)) = accepted + duplicates == n
is_acknowledgement n _ = false

module _ {E : Type 0} where
  abbrev pub add_dropped : ℕ → Client E → Client E
  add_dropped n c = record c { counts = record c.counts { dropped = c.counts.dropped + n } }

  -- `emit`, given what `validate_event` returns
  unfoldable pub emit : Option E → Client E → Result Error Bool × Client E
  emit none c = (fail c.failure_mode sdk_error false, add_dropped 1 c)
  emit (some validated) c =
      if leb c.queue_capacity (length c.queue)
      then (fail c.failure_mode sdk_error false, add_dropped 1 c)
      else (
        ok true,
        record c {
          queue = c.queue ++ validated ∷ [];
          counts = record c.counts { enqueued = c.counts.enqueued + 1 };
        },
      )

  -- one attempt's result, where `again` is the result of the attempts that follow a retry
  unfoldable pub attempt :
      Response → Result Error Body × Client E → Client E → Result Error Body × Client E
  attempt (answer size body) again c = (read_body size body, c)
  attempt unreachable again c = (err delivery_error, c)
  attempt (http_error status) again c =
      if status == 429 || (status == 503) then again else (err delivery_error, c)

  -- `self._increment("retries")`, after an attempt
  abbrev pub retried : Client E → Client E
  retried c = record c {
    attempts = c.attempts + 1;
    counts = record c.counts { retries = c.counts.retries + 1 };
  }

  module _ (size : E → ℕ) where
    -- the rest of a batch, up to `room` events more, with a payload of so many bytes so far
    unfoldable pub fill : ℕ → ℕ → List E → List E × List E
    fill zero payload_size queue = ([], queue)
    fill (suc room) payload_size [] = ([], [])
    fill (suc room) payload_size (candidate ∷ queue) =
        let addition = size candidate + 1 in
        let (batch, rest) = fill room (payload_size + addition) queue in
        if ltb 131_072 (payload_size + addition)
        then ([], candidate ∷ queue)
        else (candidate ∷ batch, rest)

    -- the batch, and what stays queued; `{"events":[]}` has 13 bytes
    unfoldable pub take_batch : ℕ → List E → List E × List E
    take_batch zero queue = ([], queue)
    take_batch (suc room) [] = ([], [])
    take_batch (suc room) (candidate ∷ queue) =
        let (batch, rest) = fill room (13 + size candidate) queue in (candidate ∷ batch, rest)

  module _ (server : ℕ → Response) where
    -- the attempts of `_request`, with so many retries left
    unfoldable pub request : ℕ → Client E → Result Error Body × Client E
    request zero c =
        let c' = record c { attempts = c.attempts + 1 } in
        attempt (server c.attempts) (err delivery_error, c') c'
    request (suc left) c =
        let c' = record c { attempts = c.attempts + 1 } in
        attempt (server c.attempts) (request left (retried c)) c'

    module _ (size : E → ℕ) where
      -- the delivery of a batch, as the handler counts it
      unfoldable pub deliver : List E → Client E → Result Error ℕ × Client E
      deliver batch c =
          let (result, c') = request c.max_retries c in
          let failed = record c' {
            counts = record c'.counts {
              failed_batches = c'.counts.failed_batches + 1;
              dropped = c'.counts.dropped + length batch;
            };
          } in
          let delivered = record c' {
            counts = record c'.counts { sent = c'.counts.sent + length batch };
          } in
          elim result [
            | err recursion_error ↦ (err recursion_error, c')
            | err e ↦ (fail c.failure_mode e 0, failed)
            | ok body ↦
                if is_acknowledgement (length batch) body
                then (ok (length batch), delivered)
                else (fail c.failure_mode delivery_error 0, failed)
          ]

      -- the loop of `flush`; each batch has an event, so `fuel` of `remaining` is enough
      unfoldable pub flush_loop : ℕ → ℕ → ℕ → Client E → Result Error ℕ × Client E
      flush_loop zero remaining sent c = (ok sent, c)
      flush_loop (suc fuel) remaining sent c =
          let (batch, rest) = take_batch size (min 100 remaining) c.queue in
          let (outcome, c') = deliver batch (record c { queue = rest }) in
          if remaining == 0 then (ok sent, c) else (elim outcome [
            | err e ↦ (err e, c')
            | ok n ↦ flush_loop fuel (remaining - length batch) (sent + n) c'
          ])

      unfoldable pub flush : Client E → Result Error ℕ × Client E
      flush c = flush_loop (length c.queue) (length c.queue) 0 c
