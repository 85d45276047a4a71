-- ===== src/Attestation/Submitted.antt =====
-- What `submission_status` of src/reliamesh/solana_attest.py reports of a transaction.
use reliamesh.Prelude.{
  ℕ, ◌≡◌, refl, Bool, false, Option, some, ◌∷◌, Text, text, text_dec, ltb, ◌==◌, ◌||◌, ok,
}
use reliamesh.Attestation.Base58.{
  decode58, invalid_last_valid_block_height, invalid_signature_status, invalid_block_height,
}
use reliamesh.Attestation.Values.{Value, null, string, item, end, object, member, close, as_integer}
use reliamesh.Attestation.Transaction.{Ed25519, devnet_genesis}
use reliamesh.Attestation.Rpc.{
  Log, Request, Transport, answer, genesis_request, is_write, statuses_params, only_status,
  max_integer,
}
use reliamesh.Attestation.Status.{Submission, read_status, classify, submission_status}
use reliamesh.Attestation.Classified.{IsClassified, missing, read_status-IsClassified}
use reliamesh.Attestation.Guard.{assert_devnet-Returns, call-Returns}
use reliamesh.Attestation.Finalized.{statuses_request}
use reliamesh.Attestation.Steps.{
  Returns, pure-Returns, lift-Returns, require-Returns, raise_if-Returns, >>=-Returns,
}

abbrev pub height_request : Request
height_request = record {
  method = text "getBlockHeight";
  params = item (object (member (text "commitment") (string (text "finalized")) close)) end;
}

-- The evidence for a report, from the log before to the log after.
pub record IsReported (k : Ed25519) (t : Transport) (signature : Text) (last_valid : ℕ) (log : Log)
    (report : Submission) (log' : Log) : Type 0 where
  pub devnet : answer k t log genesis_request ≡ ok (string devnet_genesis)
  pub statuses : Value
  pub listed : answer k t (genesis_request ∷ log) (statuses_request signature) ≡ ok statuses
  pub status : Value
  pub is_only : only_status statuses ≡ some status
  pub classified : IsClassified status report.confirmation_status report.transaction_error
  pub height : Value
  pub measured :
      answer k t (statuses_request signature ∷ genesis_request ∷ log) height_request ≡ ok height
  pub is_height : as_integer max_integer height ≡ some report.current_block_height
  pub expired : report.blockhash_expired ≡ ltb last_valid report.current_block_height
  pub no_retry : report.automatic_retry_allowed ≡ false
  pub requests : log' ≡ height_request ∷ statuses_request signature ∷ genesis_request ∷ log

classify-Returns :
    (Q : Text × Option Bool → Log → Type 0) (log : Log) (status : Value)
    → ((level : Text) (error : Option Bool)
        → IsClassified status level error
        → Q (level, error) log)
    → Returns Q (classify status) log
unfolding classify
classify-Returns Q log null h = pure-Returns Q log _ (h _ _ missing)
classify-Returns Q log status h = >>=-Returns Q log _ _ (
    require-Returns _ log invalid_signature_status (read_status status)
      (λ f e. pure-Returns Q log _ (h f.0 (some f.1) (read_status-IsClassified status f.0 f.1 e))))

module _ (k : Ed25519) (t : Transport) where
  reads_height : is_write (text "getBlockHeight") ≡ false
  unfolding text_dec
  reads_height = refl

  reads_statuses : is_write (text "getSignatureStatuses") ≡ false
  unfolding text_dec
  reads_statuses = refl

  submission_status-Returns :
      (signature : Text) (last_valid : ℕ) (log : Log)
      → Returns
          (IsReported k t signature last_valid log)
          (submission_status k t signature last_valid)
          log
  unfolding submission_status
  submission_status-Returns s last_valid log = >>=-Returns _ log _ _ (
      lift-Returns _ log (decode58 64 s) (λ _ _. >>=-Returns _ log _ _ (
        raise_if-Returns _ log (ltb max_integer last_valid || (last_valid == 0))
          invalid_last_valid_block_height
          (λ _. >>=-Returns _ log _ _ (
            assert_devnet-Returns k t _ log (λ devnet. >>=-Returns _ _ _ _ (
              call-Returns k t _ _ (text "getSignatureStatuses") (statuses_params s) reads_statuses
                (λ statuses listed. >>=-Returns _ _ _ _ (
                  require-Returns _ _ invalid_signature_status (only_status statuses)
                    (λ status is_only. >>=-Returns _ _ _ _ (
                      classify-Returns _ _ status (λ level error classified. >>=-Returns _ _ _ _ (
                        call-Returns k t _ _ (text "getBlockHeight") height_request.params
                          reads_height
                          (λ answered measured. >>=-Returns _ _ _ _ (
                            require-Returns _ _ invalid_block_height
                              (as_integer max_integer answered)
                              (λ height is_height. pure-Returns _ _ _ (record {
                                devnet = devnet;
                                statuses = statuses;
                                listed = listed;
                                status = status;
                                is_only = is_only;
                                classified = classified;
                                height = answered;
                                measured = measured;
                                is_height = is_height;
                                expired = refl;
                                no_retry = refl;
                                requests = refl;
                              })))))))))))))))))

  -- Where `submission_status` reports on a signature, the network named itself the Devnet, the one
  -- status that it gave is reported as missing where it is null, and else by its level and whether it
  -- has an error, the blockhash is reported as expired exactly where the height is past the last valid
  -- one, no retry is allowed, and nothing but the three requests that read this was sent.
  pub submission_status_sound :
      (signature : Text) (last_valid : ℕ) (log log' : Log) (report : Submission)
      → submission_status k t signature last_valid log ≡ (ok report, log')
      → IsReported k t signature last_valid log report log'
  unfolding Returns
  submission_status_sound s last_valid log log' report h =
      submission_status-Returns s last_valid log report log' h
