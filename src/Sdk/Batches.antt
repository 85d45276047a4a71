-- ===== src/Sdk/Batches.antt =====
-- The batches that `flush` takes, and that it ends.
use reliamesh.Prelude.{
  ℕ, zero, suc, ◌+◌, ◌≤◌, ◌<◌, ◌≡◌, min, List, [], ◌∷◌, ◌++◌, length, ltb, arith, ◌⊎◌, inl, inr,
  Bool-cases,
}
use reliamesh.Sdk.Client.{fill, take_batch}

module _ {E : Type 0} (size : E → ℕ) where
  -- the bytes that events add to a payload that has one already
  unfoldable pub bytes : List E → ℕ
  bytes [] = 0
  bytes (e ∷ es) = size e + 1 + bytes es

  -- the bytes of `{"events":[…]}`
  unfoldable pub payload_bytes : List E → ℕ
  payload_bytes [] = 13
  payload_bytes (e ∷ es) = 13 + size e + bytes es

  record IsFilled (room payload : ℕ) (queue : List E) (r : List E × List E) : Type 0 where
    count : length r.0 ≤ room
    weight : payload ≤ 131_072 → payload + bytes r.0 ≤ 131_072
    whole : r.0 ++ r.1 ≡ queue
    light : 131_072 < payload → r.0 ≡ []

  fill-IsFilled :
      (room payload : ℕ) (queue : List E)
      → IsFilled room payload queue (fill size room payload queue)
  unfolding fill bytes
  fill-IsFilled zero payload queue = ground arith
  fill-IsFilled (suc room) payload [] = ground arith
  fill-IsFilled (suc room) payload (e ∷ queue) =
      ground (arith, fill-IsFilled room (payload + (size e + 1)) queue)

  first_batch :
      (e : E) (queue : List E) (room : ℕ)
      → let (batch, rest) = take_batch size (suc room) (e ∷ queue) in
        (1 ≤ length batch)
        × (length batch ≤ suc room)
        × (batch ++ rest ≡ e ∷ queue)
        × ((length batch ≡ 1) ⊎ (payload_bytes batch ≤ 131_072))
  unfolding take_batch payload_bytes
  first_batch e queue room = elim (Bool-cases (ltb 131_072 (13 + size e))) [
    | inl heavy ↦ ground (arith, heavy, fill-IsFilled room (13 + size e) queue)
    | inr light ↦ ground (arith, light, fill-IsFilled room (13 + size e) queue)
  ]

  min-suc : (n : ℕ) → (m : ℕ) × (min 100 (suc n) ≡ suc m)
  min-suc n = (min 99 n, omega arith)

  -- A batch from a queue that is not empty has an event, at most 100 and no more than remain, is the
  -- beginning of the queue, and is a single event or has a payload of at most 131,072 bytes.
  pub take_batch-bounds :
      (remaining : ℕ) (queue : List E)
      → 1 ≤ remaining
      → 1 ≤ length queue
      → let (batch, rest) = take_batch size (min 100 remaining) queue in
        (1 ≤ length batch)
        × (length batch ≤ min 100 remaining)
        × (batch ++ rest ≡ queue)
        × ((length batch ≡ 1) ⊎ (payload_bytes batch ≤ 131_072))
  unfolding take_batch payload_bytes
  take_batch-bounds remaining [] h q = ground (arith, q)
  take_batch-bounds zero (e ∷ queue) h q = ground (arith, h)
  take_batch-bounds (suc n) (e ∷ queue) h q =
      let (room, positive) = min-suc n in rw positive (first_batch e queue room)
