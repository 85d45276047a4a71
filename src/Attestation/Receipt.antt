-- ===== src/Attestation/Receipt.antt =====
-- What `verify_finalized` of src/reliamesh/solana_attest.py takes from the answers of the network.
use reliamesh.Prelude.{
  ℕ, Bool, false, Option, none, some, ◌++◌, Text, text, ◌==◌, if◌then◌else◌, not, ◌&&◌, Result, ok,
  err, ◌>>=◌, ◌>>◌, raise_if, require,
}
use reliamesh.Attestation.Base58.{
  Error, transaction_not_finalized_or_unavailable, unsupported_transaction,
  transaction_failed_or_unavailable, invalid_transaction_response, invalid_transaction_metadata,
}
use reliamesh.Attestation.Values.{
  Value, null, integer, string, object, Values, end, item, close, member, get, get_as, has_text,
  has_null, is_text, is_null, as_object, as_array, as_integer,
}
use reliamesh.Attestation.Transaction.{Ed25519, verify_wire}
use reliamesh.Attestation.Rpc.{max_integer}

-- What `verify_finalized` returns beside the constants `genesis_hash`, `program_id` and `verified`.
pub record Receipt : Type 0 where
  pub slot : ℕ
  pub block_time : Option ℕ
  pub fee_lamports : ℕ
  pub signer : Text
  pub signature : Text
  pub explorer_url : Text

abbrev pub max_fee_lamports : ℕ
max_fee_lamports = 10_000

abbrev pub transaction_params : Text → Values
transaction_params signature = item (string signature) (
    item
      (object (
        member (text "encoding") (string (text "base64")) (
          member (text "commitment") (string (text "finalized"))
            (member (text "maxSupportedTransactionVersion") (integer 0) close))))
      end)

-- `[encoded, "base64"]`
unfoldable pub encoded_of : Values → Option Value
encoded_of (item encoded (item encoding end)) =
    if is_text (text "base64") encoding then some encoded else none
encoded_of _ = none

-- `transaction.get("blockTime")`: nothing, None or an integer
unfoldable pub block_time_of : Option Value → Option (Option ℕ)
block_time_of none = some none
block_time_of (some null) = some none
block_time_of (some value) = elim (as_integer max_integer value) [
  | none ↦ none
  | some n ↦ some (some n)
]

-- a status of the slot that is final and without error
unfoldable pub is_final : ℕ → Value → Bool
is_final slot status = elim (as_object status) [
  | none ↦ false
  | some d ↦
      has_text (text "confirmationStatus") (text "finalized") d
      && (has_null (text "err") d && elim (get_as (as_integer max_integer) (text "slot") d) [
        | none ↦ false
        | some s ↦ s == slot
      ])
]

module _ (k : Ed25519) where
  -- the transaction of an answer, whose wire is the expected one, and its fee, slot and time
  unfoldable pub check_found : Text → Text → Text → Value → Result Error Receipt
  check_found commitment signature signer value = do
    transaction ← require unsupported_transaction (as_object value)
    raise_if (not (has_text (text "version") (text "legacy") transaction)) unsupported_transaction
    meta ← require transaction_failed_or_unavailable (get_as as_object (text "meta") transaction)
    raise_if (not (has_null (text "err") meta)) transaction_failed_or_unavailable
    parts ← require invalid_transaction_response (get_as as_array (text "transaction") transaction)
    encoded ← require invalid_transaction_response (encoded_of parts)
    verify_wire k encoded commitment signature signer
    slot ←
        require invalid_transaction_metadata
          (get_as (as_integer max_integer) (text "slot") transaction)
    fee ←
        require invalid_transaction_metadata
          (get_as (as_integer max_fee_lamports) (text "fee") meta)
    block_time ←
        require invalid_transaction_metadata (block_time_of (get (text "blockTime") transaction))
    ok (record {
      slot = slot;
      block_time = block_time;
      fee_lamports = fee;
      signer = signer;
      signature = signature;
      explorer_url = text "https://explorer.solana.com/tx/" ++ signature ++ text "?cluster=devnet";
    })

  unfoldable pub check_transaction : Text → Text → Text → Value → Result Error Receipt
  check_transaction commitment signature signer value =
      if is_null value
      then err transaction_not_finalized_or_unavailable
      else check_found commitment signature signer value
