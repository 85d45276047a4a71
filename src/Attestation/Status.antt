-- ===== src/Attestation/Status.antt =====
-- `submission_status` of src/reliamesh/solana_attest.py.
use reliamesh.Prelude.{
  ℕ, Bool, true, false, Option, none, some, List, [], ◌∷◌, Text, text, ltb, ◌==◌, if◌then◌else◌,
  not, ◌&&◌, ◌||◌,
}
use reliamesh.Detection.Prune.{mem_text}
use reliamesh.Attestation.Base58.{
  decode58, invalid_last_valid_block_height, invalid_signature_status, invalid_block_height,
}
use reliamesh.Attestation.Values.{
  Value, null, string, object, end, item, close, member, get, get_as, is_null, as_object, as_text,
  as_integer,
}
use reliamesh.Attestation.Transaction.{Ed25519}
use reliamesh.Attestation.Rpc.{
  Transport, Rpc, pure, lift, require, ◌>>=◌, ◌>>◌, raise_if, assert_devnet, call, max_integer,
  statuses_params, only_status,
}

-- What `submission_status` returns; no status is "missing", and has no `transaction_error`.
pub record Submission : Type 0 where
  pub signature : Text
  pub confirmation_status : Text
  pub transaction_error : Option Bool
  pub current_block_height : ℕ
  pub last_valid_block_height : ℕ
  pub blockhash_expired : Bool
  pub automatic_retry_allowed : Bool

-- `type(status["err"]) in (str, dict)`, or None
unfoldable pub is_error : Value → Bool
is_error null = true
is_error (string _) = true
is_error (object _) = true
is_error _ = false

abbrev pub levels : List Text
levels = text "processed" ∷ text "confirmed" ∷ text "finalized" ∷ []

-- a status that was found: its level, and whether it has an error
unfoldable pub read_status : Value → Option (Text × Bool)
read_status status = elim (as_object status) [
  | none ↦ none
  | some d ↦ elim (get_as as_text (text "confirmationStatus") d) [
    | none ↦ none
    | some level ↦ elim (get_as (as_integer max_integer) (text "slot") d) [
      | none ↦ none
      | some slot ↦ elim (get (text "err") d) [
        | none ↦ none
        | some error ↦
            if mem_text level levels && is_error error
            then some (level, not (is_null error))
            else none
      ]
    ]
  ]
]

unfoldable pub classify : Value → Rpc (Text × Option Bool)
classify null = pure (text "missing", none)
classify status = do
  found ← require invalid_signature_status (read_status status)
  pure (found.0, some found.1)

module _ (k : Ed25519) (t : Transport) where
  unfoldable pub submission_status : Text → ℕ → Rpc Submission
  submission_status signature last_valid = do
    _ ← lift (decode58 64 signature)
    raise_if (ltb max_integer last_valid || (last_valid == 0)) invalid_last_valid_block_height
    _ ← assert_devnet k t
    statuses ← call k t (text "getSignatureStatuses") (statuses_params signature)
    status ← require invalid_signature_status (only_status statuses)
    found ← classify status
    answered ←
        call k t (text "getBlockHeight")
          (item (object (member (text "commitment") (string (text "finalized")) close)) end)
    height ← require invalid_block_height (as_integer max_integer answered)
    pure (record {
      signature = signature;
      confirmation_status = found.0;
      transaction_error = found.1;
      current_block_height = height;
      last_valid_block_height = last_valid;
      blockhash_expired = ltb last_valid height;
      automatic_retry_allowed = false;
    })
