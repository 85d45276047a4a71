-- ===== src/Attestation/Finalized.antt =====
-- What a receipt of `verify_finalized` of src/reliamesh/solana_attest.py is evidence of.
use reliamesh.Prelude.{
  ℕ, ◌≤◌, ◌≡◌, refl, ap, ◌∙◌, true, false, some, ◌∷◌, Text, text, text_dec, not, Result, ok, arith,
  Option-cases, inl, inr, >>=-eq-ok, raise_if-ok, require-ok,
}
use reliamesh.Attestation.Base58.{
  Error, decode58, invalid_signature_status, transaction_not_finalized_or_unavailable,
  unsupported_transaction, transaction_failed_or_unavailable, invalid_transaction_response,
  invalid_transaction_metadata,
}
use reliamesh.Attestation.Values.{
  Value, integer, string, Values, Members, get, get_as, has_text, has_null, as_object, as_array,
  as_integer,
}
use reliamesh.Attestation.Transaction.{Ed25519, devnet_genesis, check_commitment, verify_wire}
use reliamesh.Attestation.Receipt.{
  Receipt, max_fee_lamports, transaction_params, encoded_of, is_final, check_found,
  check_transaction, block_time_of,
}
use reliamesh.Attestation.Rpc.{
  Log, Request, Transport, answer, genesis_request, is_write, statuses_params, only_status,
  max_integer,
}
use reliamesh.Attestation.Finality.{verify_finalized}
use reliamesh.Attestation.Guard.{assert_devnet-Returns, call-Returns}
use reliamesh.Attestation.Steps.{
  Returns, pure-Returns, lift-Returns, require-Returns, raise_if-Returns, >>=-Returns,
}

-- A legacy transaction without an error, whose wire is that of the commitment.
pub record IsCarried (k : Ed25519) (commitment signature signer : Text) (value : Value)
    (receipt : Receipt) : Type 0 where
  pub transaction : Members
  pub is_object : as_object value ≡ some transaction
  pub legacy : has_text (text "version") (text "legacy") transaction ≡ true
  pub meta : Members
  pub is_meta : get_as as_object (text "meta") transaction ≡ some meta
  pub no_error : has_null (text "err") meta ≡ true
  pub parts : Values
  pub is_parts : get_as as_array (text "transaction") transaction ≡ some parts
  pub encoded : Value
  pub is_encoded : encoded_of parts ≡ some encoded
  pub verified : verify_wire k encoded commitment signature signer ≡ ok tt
  pub slot : get_as (as_integer max_integer) (text "slot") transaction ≡ some receipt.slot
  pub fee : get_as (as_integer max_fee_lamports) (text "fee") meta ≡ some receipt.fee_lamports
  pub named : (receipt.signer ≡ signer) × (receipt.signature ≡ signature)

check_found-IsCarried :
    (k : Ed25519) (commitment signature signer : Text) (value : Value) (receipt : Receipt)
    → check_found k commitment signature signer value ≡ ok receipt
    → IsCarried k commitment signature signer value receipt
unfolding check_found
check_found-IsCarried k c s a value receipt h =
    let (transaction, o, h1) = require-ok unsupported_transaction (as_object value) h in
    let (legacy, h2) =
      raise_if-ok (not (has_text (text "version") (text "legacy") transaction))
        unsupported_transaction h1 in
    let (meta, m, h3) =
      require-ok transaction_failed_or_unavailable (get_as as_object (text "meta") transaction)
        h2 in
    let (clean, h4) =
      raise_if-ok (not (has_null (text "err") meta)) transaction_failed_or_unavailable h3 in
    let (parts, p, h5) =
      require-ok invalid_transaction_response (get_as as_array (text "transaction") transaction)
        h4 in
    let (encoded, q, h6) = require-ok invalid_transaction_response (encoded_of parts) h5 in
    let (_, verified, h7) = >>=-eq-ok (verify_wire k encoded c s a) _ h6 in
    let (slot, sl, h8) =
      require-ok invalid_transaction_metadata
        (get_as (as_integer max_integer) (text "slot") transaction) h7 in
    let (fee, f, h9) =
      require-ok invalid_transaction_metadata
        (get_as (as_integer max_fee_lamports) (text "fee") meta) h8 in
    let (time, b, h10) =
      require-ok invalid_transaction_metadata (block_time_of (get (text "blockTime") transaction))
        h9 in
    record {
      transaction = transaction;
      is_object = o;
      legacy = ground (arith, legacy);
      meta = meta;
      is_meta = m;
      no_error = ground (arith, clean);
      parts = parts;
      is_parts = p;
      encoded = encoded;
      is_encoded = q;
      verified = verified;
      slot = sl ∙ ap some (slot_of h10);
      fee = f ∙ ap some (fee_of h10);
      named = (signer_of h10, signature_of h10);
    }
  where
    slot_of : {r r' : Receipt} → Path (Result Error Receipt) (ok r) (ok r') → r.slot ≡ r'.slot
    slot_of e = ground (arith, e)

    fee_of :
        {r r' : Receipt}
        → Path (Result Error Receipt) (ok r) (ok r')
        → r.fee_lamports ≡ r'.fee_lamports
    fee_of e = ground (arith, e)

    signer_of : {r r' : Receipt} → Path (Result Error Receipt) (ok r) (ok r') → r'.signer ≡ r.signer
    signer_of e = ground (arith, e)

    signature_of :
        {r r' : Receipt} → Path (Result Error Receipt) (ok r) (ok r') → r'.signature ≡ r.signature
    signature_of e = ground (arith, e)

check_transaction-IsCarried :
    (k : Ed25519) (commitment signature signer : Text) (value : Value) (receipt : Receipt)
    → check_transaction k commitment signature signer value ≡ ok receipt
    → IsCarried k commitment signature signer value receipt
unfolding check_transaction
check_transaction-IsCarried k c s a value receipt h =
    check_found-IsCarried k c s a value receipt (ground (arith, h))

abbrev pub transaction_request : Text → Request
transaction_request signature = record {
  method = text "getTransaction";
  params = transaction_params signature;
}

abbrev pub statuses_request : Text → Request
statuses_request signature = record {
  method = text "getSignatureStatuses";
  params = statuses_params signature;
}

as_integer-le : (maximum : ℕ) (v : Value) (n : ℕ) → as_integer maximum v ≡ some n → n ≤ maximum
unfolding as_integer
as_integer-le maximum (integer m) n h = ground (arith, h)
as_integer-le maximum v n h = cc

-- an integer member is within its bound
at_most :
    (maximum : ℕ) (key : Text) (d : Members) (n : ℕ)
    → get_as (as_integer maximum) key d ≡ some n
    → n ≤ maximum
unfolding get_as
at_most maximum key d n h = elim (Option-cases (get key d)) [
  | inl nothing ↦ absurd (ground (arith, h, nothing))
  | inr (v, e) ↦ as_integer-le maximum v n (ground (arith, h, e))
]

-- The evidence for a receipt, from the log before to the log after.
pub record IsFinalized (k : Ed25519) (t : Transport) (commitment signature signer : Text)
    (log : Log) (receipt : Receipt) (log' : Log) : Type 0 where
  pub devnet : answer k t log genesis_request ≡ ok (string devnet_genesis)
  pub value : Value
  pub answered : answer k t (genesis_request ∷ log) (transaction_request signature) ≡ ok value
  pub carried : IsCarried k commitment signature signer value receipt
  pub statuses : Value
  pub listed :
      answer k t
        (transaction_request signature ∷ genesis_request ∷ log)
        (statuses_request signature)
      ≡ ok statuses
  pub status : Value
  pub is_only : only_status statuses ≡ some status
  pub final : is_final receipt.slot status ≡ true
  pub requests :
      log' ≡ statuses_request signature ∷ transaction_request signature ∷ genesis_request ∷ log

module _ (k : Ed25519) (t : Transport) where
  reads_transaction : is_write (text "getTransaction") ≡ false
  unfolding text_dec
  reads_transaction = refl

  reads_statuses : is_write (text "getSignatureStatuses") ≡ false
  unfolding text_dec
  reads_statuses = refl

  verify_finalized-Returns :
      (commitment signature signer : Text) (log : Log)
      → Returns
          (IsFinalized k t commitment signature signer log)
          (verify_finalized k t commitment signature signer)
          log
  unfolding verify_finalized
  verify_finalized-Returns c s a log = >>=-Returns _ log _ _ (
      lift-Returns _ log (check_commitment c) (λ _ _. >>=-Returns _ log _ _ (
        lift-Returns _ log (decode58 64 s) (λ _ _. >>=-Returns _ log _ _ (
          lift-Returns _ log (decode58 32 a) (λ _ _. >>=-Returns _ log _ _ (
            assert_devnet-Returns k t _ log (λ devnet. >>=-Returns _ _ _ _ (
              call-Returns k t _ _ (text "getTransaction") (transaction_params s) reads_transaction
                (λ value answered. >>=-Returns _ _ _ _ (
                  lift-Returns _ _ (check_transaction k c s a value) (λ receipt checked.
                    >>=-Returns _ _ _ _ (
                      call-Returns k t _ _ (text "getSignatureStatuses") (statuses_params s)
                        reads_statuses
                        (λ statuses listed. >>=-Returns _ _ _ _ (
                          require-Returns _ _ invalid_signature_status (only_status statuses)
                            (λ status is_only. >>=-Returns _ _ _ _ (
                              raise_if-Returns _ _ (not (is_final receipt.slot status))
                                transaction_not_finalized_or_unavailable
                                (λ final. pure-Returns _ _ receipt (record {
                                  devnet = devnet;
                                  value = value;
                                  answered = answered;
                                  carried =
                                      check_transaction-IsCarried k c s a value receipt checked;
                                  statuses = statuses;
                                  listed = listed;
                                  status = status;
                                  is_only = is_only;
                                  final = ground (arith, final);
                                  requests = refl;
                                })))))))))))))))))))

  -- Where `verify_finalized` returns a receipt, the network named itself the Devnet, it answered the
  -- request for the transaction by a legacy transaction without an error, whose wire verifies for the
  -- commitment, the signature and the signer, with a fee of at most 10,000, and it then gave the
  -- signature the one status, final and without an error, in the slot of the receipt. These are the
  -- three requests made.
  pub verify_finalized_sound :
      (commitment signature signer : Text) (log log' : Log) (receipt : Receipt)
      → verify_finalized k t commitment signature signer log ≡ (ok receipt, log')
      → IsFinalized k t commitment signature signer log receipt log'
        × (receipt.fee_lamports ≤ max_fee_lamports)
  unfolding Returns
  verify_finalized_sound c s a log log' receipt h =
      let found = verify_finalized-Returns c s a log receipt log' h in
      (
        found,
        at_most max_fee_lamports (text "fee") found.carried.meta receipt.fee_lamports
            found.carried.fee,
      )
