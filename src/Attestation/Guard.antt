-- ===== src/Attestation/Guard.antt =====
-- What the calls of src/reliamesh/solana_attest.py ask of the network.
use reliamesh.Prelude.{
  ◌≡◌, refl, sym, ap, ◌∙◌, true, false, [], ◌∷◌, Text, text, text_dec, ltb, not, ok, err, arith,
  Bool-cases, Option-cases, inl, inr, ◌⊎◌,
}
use reliamesh.Detection.Prune.{mem_text}
use reliamesh.Attestation.Base58.{
  Error, rpc_request_too_large, rpc_method_not_allowed, invalid_rpc_parameters,
  devnet_genesis_mismatch,
}
use reliamesh.Attestation.Values.{Value, string, Values, end, count, is_text}
use reliamesh.Attestation.Transaction.{Ed25519, devnet_genesis}
use reliamesh.Attestation.Writes.{validate_write}
use reliamesh.Attestation.Steps.{
  Returns, pure-Returns, lift-Returns, raise_if-Returns, >>=-Returns, returned-Keeps, Keeps,
  pure-Keeps, lift-Keeps, raise_if-Keeps, >>=-Keeps,
}
use reliamesh.Attestation.Rpc.{
  Log, Request, Transport, ◌>>=◌, ◌>>◌, raise_if, lift, pure, answer, exchange, assert_devnet,
  before_write, call, genesis_request, is_write, rpc_methods,
}

-- A log in which each request that may write was validated, and came right after the network had
-- named itself the Devnet.
pub data IsGuarded (k : Ed25519) (t : Transport) : Log → Type 0 where
  start : IsGuarded k t []
  read :
      {log : Log} (r : Request)
      → is_write r.method ≡ false
      → IsGuarded k t log
      → IsGuarded k t (r ∷ log)
  write :
      {log : Log} (r : Request)
      → is_write r.method ≡ true
      → validate_write k r.method r.params ≡ ok tt
      → answer k t log genesis_request ≡ ok (string devnet_genesis)
      → IsGuarded k t (genesis_request ∷ log)
      → IsGuarded k t (r ∷ genesis_request ∷ log)

is_text-eq : (v : Value) → not (is_text devnet_genesis v) ≡ false → v ≡ string devnet_genesis
unfolding is_text
is_text-eq (string s) h = ground (arith, h)
is_text-eq v h = cc

module _ (k : Ed25519) (t : Transport) where
  -- a request is sent, or nothing changes
  exchange-cases :
      (r : Request) (log : Log)
      → ((e : Error) × (exchange k t r log ≡ (err e, log)))
        ⊎ (exchange k t r log ≡ (answer k t log r, r ∷ log))
  unfolding exchange
  exchange-cases r log = elim (Option-cases (t.body_size r)) [
    | inl nothing ↦ inl (invalid_rpc_parameters, ground (arith, nothing))
    | inr (size, e) ↦ elim (Bool-cases (ltb 8192 size)) [
      | inl large ↦ inl (rpc_request_too_large, ground (arith, e, large))
      | inr fits ↦ inr (ground (arith, e, fits))
    ]
  ]

  exchange-Keeps :
      (r : Request) → is_write r.method ≡ false → Keeps (IsGuarded k t) (exchange k t r)
  unfolding Keeps
  exchange-Keeps r e log g = elim (exchange-cases r log) [
    | inl (e, unsent) ↦ rw unsent g
    | inr sent ↦ rw sent (read r e g)
  ]

  read_genesis : is_write genesis_request.method ≡ false
  unfolding text_dec
  read_genesis = refl

  -- `assert_devnet` makes the call that the code makes
  call-genesis :
      (log : Log) → call k t (text "getGenesisHash") end log ≡ exchange k t genesis_request log
  unfolding call text_dec mem_text count ◌>>=◌ raise_if pure
  call-genesis log = refl

  assert_devnet-Keeps : Keeps (IsGuarded k t) (assert_devnet k t)
  unfolding assert_devnet
  assert_devnet-Keeps =
      >>=-Keeps (IsGuarded k t) _ _ (exchange-Keeps genesis_request read_genesis) (λ genesis.
        >>=-Keeps (IsGuarded k t) _ _ (raise_if-Keeps (IsGuarded k t) _ _)
          (λ _. pure-Keeps (IsGuarded k t) _))

  before_write-Keeps :
      (method : Text) (params : Values) → Keeps (IsGuarded k t) (before_write k t method params)
  unfolding before_write
  before_write-Keeps method params =
      >>=-Keeps (IsGuarded k t) _ _ (lift-Keeps (IsGuarded k t) (validate_write k method params))
        (λ _.
          >>=-Keeps (IsGuarded k t) _ _ assert_devnet-Keeps (λ _. pure-Keeps (IsGuarded k t) tt))

  exchange-Returns :
      (Q : Value → Log → Type 0) (log : Log) (r : Request)
      → ((v : Value) → answer k t log r ≡ ok v → Q v (r ∷ log))
      → Returns Q (exchange k t r) log
  unfolding Returns lift
  exchange-Returns Q log r h = go (exchange-cases r log)
    where
      go :
          (((e : Error) × (exchange k t r log ≡ (err e, log)))
            ⊎ (exchange k t r log ≡ (answer k t log r, r ∷ log)))
          → Returns Q (exchange k t r) log
      go (inl (e, unsent)) b l returned = cc
      go (inr sent) b l returned =
          lift-Returns Q (r ∷ log) (answer k t log r) h b l (sym sent ∙ returned)

  pub assert_devnet-Returns :
      (Q : Text → Log → Type 0) (log : Log)
      → (answer k t log genesis_request ≡ ok (string devnet_genesis)
          → Q devnet_genesis (genesis_request ∷ log))
      → Returns Q (assert_devnet k t) log
  unfolding assert_devnet
  assert_devnet-Returns Q log h = >>=-Returns Q log _ _ (
      exchange-Returns _ log genesis_request (λ v e. >>=-Returns Q (genesis_request ∷ log) _ _ (
        raise_if-Returns _ (genesis_request ∷ log) (not (is_text devnet_genesis v))
          devnet_genesis_mismatch
          (λ named.
            pure-Returns Q (genesis_request ∷ log) devnet_genesis
              (h (e ∙ ap ok (is_text-eq v named)))))))

  before_write-Returns :
      (Q : Unit {0} → Log → Type 0) (method : Text) (params : Values) (log : Log)
      → (validate_write k method params ≡ ok tt
          → answer k t log genesis_request ≡ ok (string devnet_genesis)
          → Q tt (genesis_request ∷ log))
      → Returns Q (before_write k t method params) log
  unfolding before_write
  before_write-Returns Q method params log h = >>=-Returns Q log _ _ (
      lift-Returns _ log (validate_write k method params) (λ u valid. >>=-Returns Q log _ _ (
        assert_devnet-Returns _ log
          (λ named. pure-Returns Q (genesis_request ∷ log) tt (h valid named)))))

  -- after the checks, a request that may write
  write-Keeps :
      (method : Text) (params : Values)
      → is_write method ≡ true
      → Keeps (IsGuarded k t) (
          before_write k t method params
          >> exchange k t (record { method = method; params = params }))
  unfolding Keeps
  write-Keeps method params w log g =
      returned-Keeps (IsGuarded k t) log (before_write k t method params) _
        (before_write-Keeps method params log g)
        (before_write-Returns _ method params log (λ valid named.
          sent
            (exchange-cases (record { method = method; params = params }) (genesis_request ∷ log))
            (read genesis_request read_genesis g) valid named))
    where
      request : Request
      request = record { method = method; params = params }

      sent :
          (((e : Error) × (exchange k t request (genesis_request ∷ log)
                ≡ (err e, genesis_request ∷ log)))
            ⊎ (exchange k t request (genesis_request ∷ log)
                ≡ (answer k t (genesis_request ∷ log) request, request ∷ genesis_request ∷ log)))
          → IsGuarded k t (genesis_request ∷ log)
          → validate_write k method params ≡ ok tt
          → answer k t log genesis_request ≡ ok (string devnet_genesis)
          → IsGuarded k t (exchange k t request (genesis_request ∷ log)).1
      sent (inl (e, unsent)) kept valid named = rw unsent kept
      sent (inr done) kept valid named = rw done (write request w valid named kept)

  -- A call sends nothing that writes, but what was validated, to a network that has just named itself
  -- the Devnet.
  pub call-Keeps :
      (method : Text) (params : Values) → Keeps (IsGuarded k t) (call k t method params)
  unfolding call
  call-Keeps method params =
      >>=-Keeps (IsGuarded k t) _ _
        (raise_if-Keeps (IsGuarded k t) (not (mem_text method rpc_methods)) rpc_method_not_allowed)
        (λ _.
          >>=-Keeps (IsGuarded k t) _ _
            (raise_if-Keeps (IsGuarded k t) (ltb 8 (count params)) invalid_rpc_parameters)
            (λ _. elim (Bool-cases (is_write method)) [
              | inl w ↦ rw w (write-Keeps method params w)
              | inr e ↦ rw e (
                  >>=-Keeps (IsGuarded k t) _ _ (pure-Keeps (IsGuarded k t) tt)
                    (λ _. exchange-Keeps (record { method = method; params = params }) e))
            ]))

  -- A request that reads
  pub call-Returns :
      (Q : Value → Log → Type 0) (log : Log) (method : Text) (params : Values)
      → is_write method ≡ false
      → ((v : Value)
          → answer k t log (record { method = method; params = params }) ≡ ok v
          → Q v (record { method = method; params = params } ∷ log))
      → Returns Q (call k t method params) log
  unfolding call
  call-Returns Q log method params e h = >>=-Returns Q log _ _ (
      raise_if-Returns _ log (not (mem_text method rpc_methods)) rpc_method_not_allowed (λ _.
        >>=-Returns Q log _ _ (
          raise_if-Returns _ log (ltb 8 (count params)) invalid_rpc_parameters (λ _. rw e (
            >>=-Returns Q log _ _ (
              pure-Returns _ log tt
                (exchange-Returns Q log (record { method = method; params = params }) h)))))))

  -- From requests that were guarded, a call makes requests that are guarded: what may write was
  -- validated, and sent right after the network had named itself the Devnet.
  pub call-IsGuarded :
      (method : Text) (params : Values) (log : Log)
      → IsGuarded k t log
      → IsGuarded k t (call k t method params log).1
  unfolding Keeps
  call-IsGuarded method params log g = call-Keeps method params log g
