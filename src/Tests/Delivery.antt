-- ===== src/Tests/Delivery.antt =====
-- The client of the SDK and the limiter, run.
use reliamesh.Prelude.{
  ℕ, zero, suc, ◌+◌, ◌*◌, ◌≤◌, ◌<◌, ◌≡◌, min, true, some, [], ◌∷◌, ◌++◌, length, text, arith, ◌⊎◌,
}
use reliamesh.Sdk.Client.{
  Response, answer, http_error, object, count, drop, Client, emit, take_batch, request, flush,
}
use reliamesh.Sdk.Batches.{payload_bytes, take_batch-bounds}
use reliamesh.Sdk.Accounts.{account, emit-account, request-attempts}
use reliamesh.Sdk.Flushes.{IsKept, flush-account}
use reliamesh.Security.Limiter.{Limiter, allow, admitted}
use reliamesh.Security.Bounds.{IsBounded, single, allow-IsBounded, admitted-le}

-- two events of 10 and 200,000 bytes, by their sizes
abbrev two : Client ℕ
two = record {
  max_retries = 2;
  queue_capacity = 2;
  failure_mode = drop;
  queue = 10 ∷ 200_000 ∷ [];
  counts = record { enqueued = 2; sent = 0; dropped = 0; failed_batches = 0; retries = 0 };
  attempts = 0;
}

abbrev size : ℕ → ℕ
size n = n

-- busy at first, then accepting one event a time
abbrev server : ℕ → Response
server zero = http_error 503
server (suc n) = answer 60 (object true (count 1) (count 0))

emit-account_example : account (emit (some 5) two).1 ≡ account two + 1
emit-account_example = emit-account (some 5) two

request-attempts_example :
    ((request server 2 two).1.attempts ≤ 0 + 2 + 1)
    × (0 < (request server 2 two).1.attempts)
    × ((request server 2 two).1.attempts + 0 ≡ 0 + (request server 2 two).1.counts.retries + 1)
request-attempts_example = request-attempts server 2 two

take_batch-bounds_example :
    let (batch, rest) = take_batch size (min 100 2) (10 ∷ 200_000 ∷ []) in
    (1 ≤ length batch)
    × (length batch ≤ min 100 2)
    × (batch ++ rest ≡ 10 ∷ 200_000 ∷ [])
    × ((length batch ≡ 1) ⊎ (payload_bytes size batch ≤ 131_072))
take_batch-bounds_example = take_batch-bounds size 2 (10 ∷ 200_000 ∷ []) (omega arith) (omega arith)

flush-account_example : IsKept (account two) (flush server size two)
flush-account_example = flush-account server size two

abbrev limiter : Limiter
limiter = single 2 60 4096 (text "all") (record { start = 0; count = 2 })

allow-IsBounded_example : IsBounded (allow limiter 60 (text "all")).1
unfolding single
allow-IsBounded_example =
    allow-IsBounded limiter 60 (text "all")
      (record { size = omega arith; counts = (omega arith, tt) })

admitted-le_example :
    admitted
        (single 2 60 4096 (text "all") (record { start = 0; count = 2 }))
        (text "all")
        (50 ∷ 60 ∷ 61 ∷ 70 ∷ [])
      + 2
    ≤ 2 * 2
admitted-le_example =
    admitted-le 2 60 4096 (text "all") (omega arith) 50 (record { start = 0; count = 2 })
      (50 ∷ 60 ∷ 61 ∷ 70 ∷ []) (omega arith) (omega arith)
