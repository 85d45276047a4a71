-- ===== src/Attestation/Replies.antt =====
-- What `DevnetRPC.call` of src/reliamesh/solana_attest.py accepts as an answer.
use reliamesh.Prelude.{
  ℕ, ◌*◌, Bool, true, false, Option, none, some, Text, text, ltb, ◌==◌, not, ◌||◌, Result, ok, err,
  ◌>>◌, raise_if,
}
use reliamesh.Storage.Sqlite.Tables.{same}
use reliamesh.Attestation.Base58.{
  Error, rpc_response_rejected, rpc_encoding_rejected, rpc_response_too_large, rpc_unavailable,
  rpc_redirect_rejected, invalid_rpc_response, rpc_request_failed,
}
use reliamesh.Attestation.Values.{
  Value, integer, Members, get, has, has_text, as_object, is_accepted,
}

abbrev pub devnet_rpc : Text
devnet_rpc = text "https://api.devnet.solana.com"

abbrev pub max_response_bytes : ℕ
max_response_bytes = 128 * 1024

-- An HTTP response: its Content-Encoding in lower case, where it has one, and what `json.loads`
-- makes of its body, before the hooks look at it.
pub record Reply : Type 0 where
  pub status : ℕ
  pub url : Text
  pub content_encoding : Option Text
  pub size : ℕ
  pub parsed : Option Value

-- What opening a request meets.
pub data Response : Type 0 where
  unavailable redirected : Response
  received : Reply → Response

-- `type(decoded.get("id")) is int and decoded["id"] == 1`
unfoldable pub is_one : Option Value → Bool
is_one (some (integer n)) = n == 1
is_one _ = false

unfoldable pub is_identity : Option Text → Bool
is_identity none = true
is_identity (some encoding) = same encoding (text "identity")

unfoldable pub result_of : Members → Result Error Value
result_of decoded = do
  raise_if
      (not (has_text (text "jsonrpc") (text "2.0") decoded)
        || not (is_one (get (text "id") decoded)))
      invalid_rpc_response
  raise_if (has (text "error") decoded) rpc_request_failed
  elim (get (text "result") decoded) [ none ↦ err invalid_rpc_response | some value ↦ ok value ]

unfoldable pub read_reply : Reply → Result Error Value
read_reply reply = do
  raise_if (not (reply.status == 200) || not (same reply.url devnet_rpc)) rpc_response_rejected
  raise_if (not (is_identity reply.content_encoding)) rpc_encoding_rejected
  raise_if (ltb max_response_bytes reply.size) rpc_response_too_large
  elim reply.parsed [
    | none ↦ err invalid_rpc_response
    | some decoded ↦ do
      raise_if (not (is_accepted decoded)) invalid_rpc_response
      elim (as_object decoded) [ none ↦ err invalid_rpc_response | some d ↦ result_of d ]
  ]

unfoldable pub read_response : Response → Result Error Value
read_response unavailable = err rpc_unavailable
read_response redirected = err rpc_redirect_rejected
read_response (received reply) = read_reply reply
