-- ===== src/Attestation/Writes.antt =====
-- `_validate_write` of src/reliamesh/solana_attest.py: the requests that may change the network.
pub mod Sends
use reliamesh.Prelude.{
  ℕ, ◌+◌, ◌*◌, Bool, true, false, Option, none, some, List, [], ◌∷◌, ◌++◌, Text, text, length, take,
  drop, all_chars, ltb, leb, ◌==◌, if◌then◌else◌, not, ◌&&◌, ◌||◌, Result, ok, err, ◌>>=◌, ◌>>◌,
  raise_if,
}
use reliamesh.Detection.Prune.{mem_text}
use reliamesh.Attestation.Base58.{
  Bytes, Error, encode58, invalid_airdrop_request, invalid_send_request, invalid_send_transaction,
}
use reliamesh.Attestation.Values.{
  Value, boolean, integer, negative, number, constant, string, array, object, null, Values, end,
  item, Members, close, member, get, has_text, is_text,
}
use reliamesh.Storage.Sqlite.Tables.{same}
use reliamesh.Attestation.Transaction.{
  Ed25519, decode58_value, decode64_value, verify_wire, max_transaction_bytes, memo_prefix,
}

-- `type(value) is int and 1 <= value <= 2_000_000_000`
unfoldable pub is_amount : Value → Bool
is_amount (integer n) = leb 1 n && leb n 2_000_000_000
is_amount _ = false

-- `{"commitment": "confirmed"}` or `{"commitment": "finalized"}`
unfoldable pub is_level : Value → Bool
is_level (object (member k v close)) =
    same k (text "commitment") && (is_text (text "confirmed") v || is_text (text "finalized") v)
is_level _ = false

unfoldable pub validate_airdrop : Values → Result Error (Unit {0})
validate_airdrop (item key (item amount end)) = do
  _ ← decode58_value 32 key
  raise_if (not (is_amount amount)) invalid_airdrop_request
validate_airdrop (item key (item amount (item config end))) = do
  _ ← decode58_value 32 key
  raise_if (not (is_amount amount)) invalid_airdrop_request
  raise_if (not (is_level config)) invalid_airdrop_request
validate_airdrop _ = err invalid_airdrop_request

unfoldable pub keys_within : List Text → Members → Bool
keys_within keys close = true
keys_within keys (member k v d) = mem_text k keys && keys_within keys d

-- `value is False`, of a member that may be missing
unfoldable pub is_false : Option Value → Bool
is_false none = true
is_false (some (boolean b)) = not b
is_false (some _) = false

unfoldable pub is_retries : Option Value → Bool
is_retries none = true
is_retries (some (integer n)) = leb n 3
is_retries (some _) = false

unfoldable pub is_send_config : Members → Bool
is_send_config config =
    keys_within
      (text "encoding" ∷ text "skipPreflight" ∷ text "preflightCommitment" ∷ text "maxRetries" ∷ [])
      config
    && (has_text (text "encoding") (text "base64") config
        && (is_false (get (text "skipPreflight") config)
            && ((has_text (text "preflightCommitment") (text "confirmed") config
                  || has_text (text "preflightCommitment") (text "finalized") config)
                && is_retries (get (text "maxRetries") config))))

abbrev pub prefix_size : ℕ
prefix_size = 65 + 105

module _ (k : Ed25519) where
  -- the transaction itself, after its options
  unfoldable pub validate_transaction : Value → Result Error (Unit {0})
  validate_transaction encoded = do
    wire ← decode64_value max_transaction_bytes encoded
    raise_if (not (length wire == prefix_size + length memo_prefix + 64)) invalid_send_transaction
    let commitment = drop (prefix_size + length memo_prefix) wire
    raise_if (not (all_chars (λ c. ltb c 128) commitment)) invalid_send_transaction
    verify_wire k encoded commitment (encode58 (take 64 (drop 1 wire)))
        (encode58 (take 32 (drop 69 wire)))

  unfoldable pub validate_send : Values → Result Error (Unit {0})
  validate_send (item encoded (item (object config) end)) = do
    raise_if (not (is_send_config config)) invalid_send_request
    validate_transaction encoded
  validate_send _ = err invalid_send_request

  -- `_validate_write`
  unfoldable pub validate_write : Text → Values → Result Error (Unit {0})
  validate_write method params =
      if same method (text "requestAirdrop")
      then validate_airdrop params
      else if same method (text "sendTransaction")
      then validate_send params
      else ok tt
