-- ===== src/Sdk/Accounts.antt =====
-- What the client's counters say of the events that it was given.
use reliamesh.Prelude.{
  ℕ, zero, suc, ◌+◌, ◌≤◌, ◌<◌, ◌≡◌, ◌≢◌, ◌⊎◌, refl, Option, none, some, List, [], ◌∷◌, length,
  arith, Result, ok, err, length-append, Result-cases, Bool-cases, inl, inr,
}
use reliamesh.Sdk.Client.{
  Response, answer, http_error, unreachable, Error, sdk_error, delivery_error, recursion_error,
  Body, too_deep, drop, Client, emit, attempt, read_body, retried, request, is_acknowledgement,
  deliver,
}

module _ {E : Type 0} where
  -- the events that were sent, dropped, or are still queued
  unfoldable pub account : Client E → ℕ
  account c = c.counts.sent + c.counts.dropped + length c.queue

  -- Each call of `emit`, in either mode and whatever validation and the queue do, adds one to the
  -- events that are sent, dropped or queued.
  pub emit-account :
      (validated : Option E) (c : Client E) → account (emit validated c).1 ≡ account c + 1
  unfolding emit account
  emit-account none c = omega arith
  emit-account (some e) c = ground (arith, length-append c.queue (e ∷ []))

  -- what the attempts of a request leave alone
  record IsSame (c c' : Client E) : Type 0 where
    queue : c'.queue ≡ c.queue
    sent : c'.counts.sent ≡ c.counts.sent
    dropped : c'.counts.dropped ≡ c.counts.dropped
    mode : c'.failure_mode ≡ c.failure_mode

  module _ (server : ℕ → Response) where
    request-IsSame : (left : ℕ) (c : Client E) → IsSame c (request server left c).1
    unfolding request attempt
    request-IsSame zero c = ground arith
    request-IsSame (suc left) c = ground (arith, request-IsSame left (retried c))

    -- Whatever the server answers, a request makes at least one attempt and at most one more than the
    -- retries left to it, and counts one retry for each attempt but the first.
    pub request-attempts :
        (left : ℕ) (c : Client E)
        → ((request server left c).1.attempts ≤ c.attempts + left + 1)
          × (c.attempts < (request server left c).1.attempts)
          × ((request server left c).1.attempts + c.counts.retries
              ≡ c.attempts + (request server left c).1.counts.retries + 1)
    unfolding request attempt
    request-attempts zero c = ground arith
    request-attempts (suc left) c = ground (arith, request-attempts left (retried c))

    attempt-caught :
        (response : Response) (again : Result Error Body × Client E) (c : Client E)
        → ((size : ℕ) → response ≢ answer size too_deep)
        → again.0 ≢ err recursion_error
        → (attempt response again c).0 ≢ err recursion_error
    unfolding attempt read_body
    attempt-caught (answer size too_deep) again c h a = absurd (h size refl)
    attempt-caught (answer size body) again c h a = λ e. ground (arith, e)
    attempt-caught (http_error status) again c h a = λ e. ground (arith, a, e)
    attempt-caught unreachable again c h a = λ e. cc

    -- a server that nests no body too deeply
    request-caught :
        ((n size : ℕ) → server n ≢ answer size too_deep)
        → (left : ℕ) (c : Client E) → (request server left c).0 ≢ err recursion_error
    unfolding request
    request-caught shallow zero c = attempt-caught (server c.attempts) _ _ (shallow _) (λ e. cc)
    request-caught shallow (suc left) c =
        attempt-caught (server c.attempts) _ _ (shallow _) (request-caught shallow left (retried c))

    module _ (size : E → ℕ) where
      pub deliver-caught :
          ((n size : ℕ) → server n ≢ answer size too_deep)
          → (batch : List E) (c : Client E) → (deliver server size batch c).0 ≢ err recursion_error
      unfolding deliver
      deliver-caught shallow batch c = λ raised.
          elim (Result-cases (request server c.max_retries c).0) [
            | inl (body, e) ↦ ground (arith, e, raised)
            | inr (recursion_error, e) ↦ request-caught shallow c.max_retries c e
            | inr (sdk_error, e) ↦ ground (arith, e, raised)
            | inr (delivery_error, e) ↦ ground (arith, e, raised)
          ]

      -- a delivery counts its batch as sent or as dropped, or raises RecursionError and counts nothing
      pub deliver-account :
          (batch : List E) (c : Client E)
          → (account (deliver server size batch c).1 ≡ account c + length batch)
            ⊎ (((deliver server size batch c).0 ≡ err recursion_error)
                × (account (deliver server size batch c).1 ≡ account c))
      unfolding deliver account
      deliver-account batch c =
          let same = request-IsSame c.max_retries c in
          elim (Result-cases (request server c.max_retries c).0) [
            | inl (body, e) ↦ inl (ground (arith, e, same))
            | inr (recursion_error, e) ↦ inr (ground (arith, e, same), ground (arith, e, same))
            | inr (sdk_error, e) ↦ inl (ground (arith, e, same))
            | inr (delivery_error, e) ↦ inl (ground (arith, e, same))
          ]

      -- A delivery leaves the queue alone; unless the client raises, it returns what it has sent.
      pub record IsDelivery (c : Client E) (r : Result Error ℕ × Client E) : Type 0 where
        pub queue : r.1.queue ≡ c.queue
        pub mode : r.1.failure_mode ≡ c.failure_mode
        pub returns :
            c.failure_mode ≡ drop
            → r.0 ≢ err recursion_error
            → (n : ℕ) × (r.0 ≡ ok n) × (r.1.counts.sent ≡ c.counts.sent + n)

      pub deliver-IsDelivery :
          (batch : List E) (c : Client E) → IsDelivery c (deliver server size batch c)
      unfolding deliver
      deliver-IsDelivery batch c =
          let same = request-IsSame c.max_retries c in
          elim (Result-cases (request server c.max_retries c).0) [
            | inl (body, e) ↦ elim (Bool-cases (is_acknowledgement (length batch) body)) [
              | inl yes_ ↦ record {
                queue = ground (arith, e, same);
                mode = ground (arith, e, same);
                returns = λ m _. (
                  length batch,
                  ground (arith, e, yes_, same, m),
                  ground (arith, e, yes_, same, m),
                );
              }
              | inr no_ ↦ record {
                queue = ground (arith, e, same);
                mode = ground (arith, e, same);
                returns =
                    λ m _. (0, ground (arith, e, no_, same, m), ground (arith, e, no_, same, m));
              }
            ]
            | inr (recursion_error, e) ↦ record {
              queue = ground (arith, e, same);
              mode = ground (arith, e, same);
              returns = λ m caught. absurd (caught (ground (arith, e)));
            }
            | inr (sdk_error, e) ↦ record {
              queue = ground (arith, e, same);
              mode = ground (arith, e, same);
              returns = λ m _. (0, ground (arith, e, same, m), ground (arith, e, same, m));
            }
            | inr (delivery_error, e) ↦ record {
              queue = ground (arith, e, same);
              mode = ground (arith, e, same);
              returns = λ m _. (0, ground (arith, e, same, m), ground (arith, e, same, m));
            }
          ]
