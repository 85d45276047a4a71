-- ===== src/Api/Responses.antt =====
-- What `SafetyMiddleware.__call__` of src/reliamesh/api.py sends, on every branch, and when it runs
-- the application.
use reliamesh.Prelude.{
  ℕ, ◌≤◌, ◌≡◌, ◌≢◌, ◌∙◌, ◌⊎◌, inl, inr, refl, Bool, true, false, List, [], ◌∷◌, map, Text, text,
  length, All, All-append, if◌then◌else◌, not, arith,
}
use reliamesh.Storage.Sqlite.Tables.{same}
use reliamesh.Security.Limiter.{Limiter, allow}
use reliamesh.Api.Body.{
  Message, request, Received, complete, disconnected, payload_too_large, waiting, receive_body,
  json_too_deep, start, chunks, receive_body-complete,
}
use reliamesh.Api.Messages.{
  IsSecured, starts, safe_send-IsSecured, starts-safe_send, starts-append, starts-response_started,
  response_started-starts,
}
use reliamesh.Api.Middleware.{
  Scope, Headers, Handled, Middleware, Ending, safe_send, rejection, reject, is_unlimited,
  is_encoded, is_unreadable, after_body, dispatch, after_receive, handle, call, response_started,
}

-- A test decides between two values with a property.
if-either {ℓ κ} :
    {A : Type ℓ} (P : A → Type κ) {x y : A} (c : Bool)
    → (c ≡ true → P x)
    → (c ≡ false → P y)
    → P (if c then x else y)
if-either P true f g = f refl
if-either P false f g = g refl

module _ {World : Type 0} (m : Middleware World) where
  -- What a property of a run needs of its branches: a rejection has it, and so has the application
  -- on a body that the guards let through.
  handle-either :
      (P : Handled World → Type 0) (scope : Scope) (messages : List Message) (w : World)
      → ((status : ℕ) (code : Text) → P (reject m status code w))
      → ((ending : Ending)
          → ((body : List ℕ) → receive_body m.settings.max_body_bytes [] messages ≢ complete body)
          → P (record { sent = []; ending = ending; world = w }))
      → ((body : List ℕ)
          → length body ≤ m.settings.max_body_bytes
          → json_too_deep start body ≡ false
          → body ≡ chunks messages
          → P (dispatch m scope (request body false ∷ after_body messages) w))
      → P (handle m scope messages w)
  unfolding handle after_receive
  handle-either P scope messages w rejected silent dispatched =
      if-either P (is_encoded scope) (λ _. rejected _ _)
        (λ _. if-either P (is_unreadable scope) (λ _. rejected _ _) (λ _. received _ refl))
    where
      received :
          (r : Received)
          → receive_body m.settings.max_body_bytes [] messages ≡ r
          → P (after_receive m scope (after_body messages) w r)
      received (complete body) e =
          let (bounded, whole) =
            receive_body-complete m.settings.max_body_bytes [] messages body e in
          if-either P (json_too_deep start body) (λ _. rejected _ _)
            (λ shallow. dispatched body bounded shallow whole)
      received disconnected e = silent _ (λ body h. cc)
      received payload_too_large e = rejected _ _
      received waiting e = silent _ (λ body h. cc)

  -- The same of a request's call, whose limiter may refuse it first.
  call-either :
      (P : Handled World → Type 0) (limiter : Limiter) (now : ℕ) (scope : Scope)
      (messages : List Message) (w : World)
      → same scope.kind (text "http") ≡ true
      → ((status : ℕ) (code : Text) → P (reject m status code w))
      → P (handle m scope messages w)
      → P (call m limiter now scope messages w).0
  unfolding call
  call-either P limiter now scope messages w http rejected handled = rw http (
      if-either (λ (r : Handled World × Limiter). P r.0) (is_unlimited scope) (λ _. handled)
        (λ _. if-either P (allow limiter now (text "all")).0 (λ _. handled) (λ _. rejected _ _)))

  dispatch-IsSecured :
      (scope : Scope) (messages : List Message) (w : World)
      → All (IsSecured m.request_id) (dispatch m scope messages w).sent
  unfolding dispatch rejection
  dispatch-IsSecured scope messages w =
      let (raw, failed, w') = m.app scope messages w in
      let secured = safe_send-IsSecured m.request_id raw in
      let P = λ (h : Handled World). All (IsSecured m.request_id) h.sent in
      if-either P (not failed) (λ _. secured)
        (λ _.
          if-either P (response_started raw) (λ _. secured)
            (λ _.
              All-append (IsSecured m.request_id) _ _ secured (safe_send-IsSecured m.request_id _)))

  -- Whatever the application sends, each response that a request's call starts has the security
  -- headers after its own, a refusal's included.
  pub call-IsSecured :
      (limiter : Limiter) (now : ℕ) (scope : Scope) (messages : List Message) (w : World)
      → same scope.kind (text "http") ≡ true
      → All (IsSecured m.request_id) (call m limiter now scope messages w).0.sent
  unfolding reject rejection
  call-IsSecured limiter now scope messages w http =
      let P = λ (h : Handled World). All (IsSecured m.request_id) h.sent in
      let rejected = λ (status : ℕ) (code : Text). safe_send-IsSecured m.request_id _ in
      call-either P limiter now scope messages w http rejected (
        handle-either P scope messages w rejected (λ _ _. tt)
          (λ body _ _ _. dispatch-IsSecured scope (request body false ∷ after_body messages) w))

  world-dispatch :
      (scope : Scope) (messages : List Message) (w : World)
      → (dispatch m scope messages w).world ≡ (m.app scope messages w).2
  unfolding dispatch
  world-dispatch scope messages w =
      let (raw, failed, w') = m.app scope messages w in
      let P = λ (h : Handled World). h.world ≡ w' in
      if-either P (not failed) (λ _. refl)
        (λ _. if-either P (response_started raw) (λ _. refl) (λ _. refl))

  -- Where the application starts at most one response, and one unless it raises, it and each refusal
  -- that follows it start exactly one.
  starts-dispatch :
      (scope : Scope) (messages : List Message) (w : World)
      → ((code : Text) (status : ℕ) (own : Headers) → starts (m.json_response code status own) ≡ 1)
      → starts (m.app scope messages w).0 ≤ 1
      → ((m.app scope messages w).1 ≡ false → starts (m.app scope messages w).0 ≡ 1)
      → starts (dispatch m scope messages w).sent ≡ 1
  unfolding dispatch rejection
  starts-dispatch scope messages w refusal once answered =
      let (raw, failed, w') = m.app scope messages w in
      let P = λ (h : Handled World). starts h.sent ≡ 1 in
      let same_starts = starts-safe_send m.request_id raw in
      if-either P (not failed) (λ e. same_starts ∙ answered (returned_of failed e))
        (λ _.
          if-either P (response_started raw)
            (λ e. omega (arith, same_starts, once, response_started-starts raw e))
            (λ e.
              starts-append (map (safe_send m.request_id) raw) _
              ∙ omega (
                arith,
                same_starts,
                starts-response_started raw e,
                starts-safe_send m.request_id
                    (m.json_response (text "temporarily_unavailable") 503 []),
                refusal (text "temporarily_unavailable") 503 [],
              )))
    where
      returned_of : (b : Bool) → not b ≡ true → b ≡ false
      returned_of true e = cc
      returned_of false e = refl

  -- A request whose body is complete within the limit gets exactly one response, where `JSONResponse`
  -- starts one and the application starts at most one, and one unless it raises: the rate limit, the
  -- header rules, the nesting of the body and the application's exceptions included.
  pub starts-call :
      (limiter : Limiter) (now : ℕ) (scope : Scope) (messages : List Message) (w : World)
      (body : List ℕ)
      → same scope.kind (text "http") ≡ true
      → receive_body m.settings.max_body_bytes [] messages ≡ complete body
      → ((code : Text) (status : ℕ) (own : Headers) → starts (m.json_response code status own) ≡ 1)
      → ((inner : List Message) → starts (m.app scope inner w).0 ≤ 1)
      → ((inner : List Message)
          → (m.app scope inner w).1 ≡ false
          → starts (m.app scope inner w).0 ≡ 1)
      → starts (call m limiter now scope messages w).0.sent ≡ 1
  unfolding reject rejection
  starts-call limiter now scope messages w body http whole refusal once answered =
      let P = λ (h : Handled World). starts h.sent ≡ 1 in
      let rejected =
        λ (status : ℕ) (code : Text). starts-safe_send m.request_id _ ∙ refusal code status _ in
      call-either P limiter now scope messages w http rejected (
        handle-either P scope messages w rejected (λ _ incomplete. absurd (incomplete body whole))
          (λ body _ _ _.
            starts-dispatch scope (request body false ∷ after_body messages) w refusal (once _)
              (answered _)))

  -- A request's call leaves the world as it was, or has run the application once, on the whole body as
  -- one message, which is the chunks received, within the limit of bytes and of nesting.
  pub call-IsScreened :
      (limiter : Limiter) (now : ℕ) (scope : Scope) (messages : List Message) (w : World)
      → same scope.kind (text "http") ≡ true
      → ((call m limiter now scope messages w).0.world ≡ w)
        ⊎ ((body : List ℕ) × (length body ≤ m.settings.max_body_bytes)
            × (json_too_deep start body ≡ false)
            × (body ≡ chunks messages)
            × ((call m limiter now scope messages w).0.world
                ≡ (m.app scope (request body false ∷ after_body messages) w).2))
  unfolding reject
  call-IsScreened limiter now scope messages w http =
      let P = λ (h : Handled World).
        (h.world ≡ w)
        ⊎ ((body : List ℕ) × (length body ≤ m.settings.max_body_bytes)
            × (json_too_deep start body ≡ false)
            × (body ≡ chunks messages)
            × (h.world ≡ (m.app scope (request body false ∷ after_body messages) w).2)) in
      call-either P limiter now scope messages w http (λ _ _. inl refl)
        (handle-either P scope messages w (λ _ _. inl refl) (λ _ _. inl refl)
          (λ body bounded shallow whole.
            inr (body, bounded, shallow, whole, world-dispatch scope _ w)))
