-- ===== src/Attestation/Rpc.antt =====
-- `DevnetRPC` of src/reliamesh/solana_attest.py. A call is a
-- function of the requests made before, and gives the requests made then beside its result.
use reliamesh.Prelude.{
  ℕ, ◌-◌, ◌^◌, Bool, true, Option, none, some, List, [], ◌∷◌, Text, text, ltb, if◌then◌else◌, not,
  ◌||◌, Result, ok, err,
}
use reliamesh.Detection.Prune.{mem_text}
use reliamesh.Storage.Sqlite.Tables.{same}
use reliamesh.Attestation.Base58.{
  Error, rpc_method_not_allowed, invalid_rpc_parameters, rpc_request_too_large,
  devnet_genesis_mismatch,
}
use reliamesh.Attestation.Values.{
  Value, boolean, string, array, object, Values, end, item, close, member, count, get_as, is_text,
  as_object, as_array, only,
}
use reliamesh.Attestation.Transaction.{Ed25519, devnet_genesis}
use reliamesh.Attestation.Writes.{validate_write}
use reliamesh.Attestation.Replies.{Response, read_response}

pub record Request : Type 0 where
  pub method : Text
  pub params : Values

-- The requests that were sent, the last one first.
abbrev pub Log : Type 0
Log = List Request

-- The network answers a request by what was sent before it; `json.dumps` of a request has a size,
-- or refuses.
pub record Transport : Type 0 where
  pub respond : Log → Request → Response
  pub body_size : Request → Option ℕ

abbrev pub Rpc : Type 0 → Type 0
Rpc A = Log → Result Error A × Log

module _ {A : Type 0} where
  unfoldable pub pure : A → Rpc A
  pure a log = (ok a, log)

  abbrev pub raise : Error → Rpc A
  raise e log = (err e, log)

  unfoldable pub lift : Result Error A → Rpc A
  lift r log = (r, log)

  unfoldable pub require : Error → Option A → Rpc A
  require e none log = (err e, log)
  require e (some a) log = (ok a, log)

infixl 5 ◌>>=◌ ◌>>◌
unfoldable pub ◌>>=◌ : {A B : Type 0} → Rpc A → (A → Rpc B) → Rpc B
◌>>=◌ m f log = let (r, log') = m log in elim r [ ok a ↦ f a log' | err e ↦ (err e, log') ]

abbrev pub ◌>>◌ : {A B : Type 0} → Rpc A → Rpc B → Rpc B
m >> rest = m >>= λ _. rest

unfoldable pub raise_if : Bool → Error → Rpc (Unit {0})
raise_if b e log = (if b then err e else ok tt, log)

abbrev pub rpc_methods : List Text
rpc_methods =
    text "getGenesisHash"
    ∷ text "getBalance"
    ∷ text "getLatestBlockhash"
    ∷ text "getFeeForMessage"
    ∷ text "requestAirdrop"
    ∷ text "sendTransaction"
    ∷ text "getSignatureStatuses"
    ∷ text "getTransaction"
    ∷ text "getBlockHeight"
    ∷ []

abbrev pub is_write : Text → Bool
is_write method = same method (text "requestAirdrop") || same method (text "sendTransaction")

abbrev pub genesis_request : Request
genesis_request = record { method = text "getGenesisHash"; params = end }

abbrev pub max_integer : ℕ
max_integer = 2 ^ 63 - 1

abbrev pub statuses_params : Text → Values
statuses_params signature =
    item (array (item (string signature) end))
      (item (object (member (text "searchTransactionHistory") (boolean true) close)) end)

-- `statuses["value"][0]`, where it is the only one
unfoldable pub only_status : Value → Option Value
only_status statuses = elim (as_object statuses) [
  | none ↦ none
  | some d ↦ elim (get_as as_array (text "value") d) [ none ↦ none | some vs ↦ only vs ]
]

module _ (k : Ed25519) (t : Transport) where
  -- what a request is answered after others
  unfoldable pub answer : Log → Request → Result Error Value
  answer log request = read_response (t.respond log request)

  -- the request itself, after the checks of `call`
  unfoldable pub exchange : Request → Rpc Value
  exchange request log = elim (t.body_size request) [
    | none ↦ (err invalid_rpc_parameters, log)
    | some size ↦
        if ltb 8192 size
        then (err rpc_request_too_large, log)
        else (answer log request, request ∷ log)
  ]

  -- `assert_devnet`; `call` of "getGenesisHash" is no more than its request.
  unfoldable pub assert_devnet : Rpc Text
  assert_devnet = do
    genesis ← exchange genesis_request
    raise_if (not (is_text devnet_genesis genesis)) devnet_genesis_mismatch
    pure devnet_genesis

  -- the checks before a request that may write
  unfoldable pub before_write : Text → Values → Rpc (Unit {0})
  before_write method params = do lift (validate_write k method params); _ ← assert_devnet; pure tt

  unfoldable pub call : Text → Values → Rpc Value
  call method params = do
    raise_if (not (mem_text method rpc_methods)) rpc_method_not_allowed
    raise_if (ltb 8 (count params)) invalid_rpc_parameters
    if is_write method then before_write method params else pure tt
    exchange (record { method = method; params = params })
