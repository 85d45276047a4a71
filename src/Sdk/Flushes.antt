-- ===== src/Sdk/Flushes.antt =====
-- What `flush` does with the queue.
use reliamesh.Prelude.{
  ℕ, zero, suc, ◌+◌, ◌-◌, ◌≤◌, ◌<◌, ◌≡◌, ◌⊎◌, refl, min, false, [], length, ◌==◌, arith, Result, ok,
  err, length-append, sym, ap, ◌∙◌, Result-cases, inl, inr,
}
use reliamesh.Sdk.Client.{
  Response, Error, recursion_error, Client, take_batch, deliver, flush_loop, flush,
}
use mathlib.Core.Path.{subst}
use reliamesh.Sdk.Batches.{take_batch-bounds}
use reliamesh.Sdk.Accounts.{account, deliver-account, deliver-IsDelivery}

module _ {E : Type 0} where
  -- No event is lost, or RecursionError is raised and at most one batch is.
  unfoldable pub IsKept : ℕ → Result Error ℕ × Client E → Type 0
  IsKept before r =
      (account r.1 ≡ before)
      ⊎ ((r.0 ≡ err recursion_error) × (account r.1 < before) × (before ≤ account r.1 + 100))

  -- The loop has sent everything: the queue is empty, and it returns what it has sent.
  unfoldable IsDrained : ℕ → Client E → Result Error ℕ × Client E → Type 0
  IsDrained sent c r =
      (r.1.queue ≡ []) × ((n : ℕ) × (r.0 ≡ ok n) × (r.1.counts.sent + sent ≡ c.counts.sent + n))

  module _ (server : ℕ → Response) (size : E → ℕ) where
    flush_loop-IsKept :
        (fuel remaining sent : ℕ) (c : Client E)
        → remaining ≤ length c.queue
        → IsKept (account c) (flush_loop server size fuel remaining sent c)
    unfolding flush_loop IsKept account
    flush_loop-IsKept zero remaining sent c h = inl refl
    flush_loop-IsKept (suc fuel) zero sent c h = inl refl
    flush_loop-IsKept (suc fuel) (suc n) sent c h =
        let r = take_batch size (min 100 (suc n)) c.queue in
        let (some_, few, whole, light) =
          take_batch-bounds size (suc n) c.queue (omega arith) (omega (arith, h)) in
        let c0 : Client E = record c { queue = r.1 } in
        let d = deliver server size r.0 c0 in
        let lengths : length r.0 + length r.1 ≡ length c.queue =
          sym (length-append r.0 r.1) ∙ ap length whole in
        let same = deliver-IsDelivery server size r.0 c0 in
        let more : (suc n == 0) ≡ false = ground arith in
        elim (deliver-account server size r.0 c0) [
          | inl counted ↦ elim (Result-cases d.0) [
            | inl (m, e) ↦
                let kept : account d.1 ≡ account c = omega (arith, counted, lengths) in
                rw (e, more)
                  (subst
                    (λ a.
                      IsKept a (flush_loop server size fuel (suc n - length r.0) (sent + m) d.1))
                    kept
                    (flush_loop-IsKept fuel (suc n - length r.0) (sent + m) d.1
                      (ground (arith, same.queue, lengths, h))))
            | inr (error, e) ↦ rw (e, more) (inl (omega (arith, counted, lengths)))
          ]
          | inr (e, counted) ↦
              rw (e, more)
                (inr (
                  refl,
                  omega (arith, counted, lengths, some_),
                  omega (arith, counted, lengths, few),
                ))
        ]

    -- Whatever the server answers, and in either mode, `flush` loses no event, those that are sent,
    -- dropped or queued being as many as before, or it raises RecursionError and has lost one to 100.
    pub flush-account : (c : Client E) → IsKept (account c) (flush server size c)
    unfolding flush
    flush-account c = flush_loop-IsKept (length c.queue) (length c.queue) 0 c (omega arith)
