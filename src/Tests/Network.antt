-- ===== src/Tests/Network.antt =====
-- A network that names itself the Devnet and has the one transaction, and the theorems on its calls.
use reliamesh.Prelude.{
  ◌≤◌, ◌≡◌, refl, true, false, none, some, [], ◌∷◌, ◌++◌, text, text_dec, if◌then◌else◌, ok,
}
use reliamesh.Storage.Sqlite.Tables.{same}
use reliamesh.Attestation.Values.{
  Value, null, string, integer, object, array, Members, member, close, item, end, has, has_text,
  get, get_as, is_text, is_null, has_null, as_object, as_array, as_text, as_integer, only,
  is_accepted, count,
}
use reliamesh.Detection.Prune.{mem_text}
use reliamesh.Attestation.Replies.{
  received, devnet_rpc, read_response, read_reply, is_identity, result_of, is_one,
}
use reliamesh.Attestation.Transaction.{devnet_genesis}
use reliamesh.Attestation.Receipt.{
  Receipt, max_fee_lamports, check_transaction, check_found, encoded_of, block_time_of, is_final,
}
use reliamesh.Attestation.Rpc.{
  Log, Request, Transport, call, genesis_request, ◌>>=◌, lift, raise_if, pure, require,
  assert_devnet, exchange, answer, only_status,
}
use reliamesh.Attestation.Status.{Submission, submission_status, classify, read_status, is_error}
use reliamesh.Attestation.Finality.{verify_finalized}
use reliamesh.Attestation.Finalized.{
  IsFinalized, verify_finalized_sound, transaction_request, statuses_request,
}
use reliamesh.Attestation.Submitted.{IsReported, submission_status_sound, height_request}
use reliamesh.Attestation.Guard.{IsGuarded, start, call-IsGuarded}
use reliamesh.Tests.Devnet.{
  key, commitment, config, sent_text, signature, signer, checked, verified, decoded_signature,
  decoded_signer,
}

abbrev transaction : Members
transaction = member (text "version") (string (text "legacy")) (
    member (text "meta")
      (object (member (text "err") null (member (text "fee") (integer 5000) close)))
      (member (text "transaction")
        (array (item (string sent_text) (item (string (text "base64")) end)))
        (member (text "slot") (integer 42) close)))

abbrev statuses : Value
statuses = object (
    member (text "value")
      (array (
        item
          (object (
            member (text "confirmationStatus") (string (text "finalized"))
              (member (text "err") null (member (text "slot") (integer 42) close))))
          end))
      close)

abbrev result : Request → Value
result r =
    if same r.method (text "getGenesisHash")
    then string devnet_genesis
    else if same r.method (text "getTransaction")
    then object transaction
    else if same r.method (text "getSignatureStatuses")
    then statuses
    else integer 1000

abbrev network : Transport
network = record {
  respond = λ log r. received (record {
    status = 200;
    url = devnet_rpc;
    content_encoding = none;
    size = 900;
    parsed = some (
        object (
          member (text "jsonrpc") (string (text "2.0"))
            (member (text "id") (integer 1) (member (text "result") (result r) close))));
  });
  body_size = λ r. some 300;
}

call-IsGuarded_example :
    IsGuarded key network
      (call key network
        (text "sendTransaction")
        (item (string sent_text) (item (object config) end))
        []).1
call-IsGuarded_example =
    call-IsGuarded key network (text "sendTransaction")
      (item (string sent_text) (item (object config) end)) [] start

abbrev receipt : Receipt
receipt = record {
  slot = 42;
  block_time = none;
  fee_lamports = 5000;
  signer = signer;
  signature = signature;
  explorer_url = text "https://explorer.solana.com/tx/" ++ signature ++ text "?cluster=devnet";
}

abbrev requests : Log
requests = statuses_request signature ∷ transaction_request signature ∷ genesis_request ∷ []

finalized : verify_finalized key network commitment signature signer [] ≡ (ok receipt, requests)
unfolding verify_finalized check_transaction check_found encoded_of block_time_of is_final ◌>>=◌
    lift raise_if pure require assert_devnet exchange answer read_response read_reply is_identity
    result_of is_one has has_text get get_as is_text is_null has_null as_object as_array as_text
    as_integer only is_accepted call mem_text text_dec count only_status
finalized = rw (checked, decoded_signature, decoded_signer, verified) refl

verify_finalized_sound_example :
    IsFinalized key network commitment signature signer [] receipt requests
    × (receipt.fee_lamports ≤ max_fee_lamports)
verify_finalized_sound_example =
    verify_finalized_sound key network commitment signature signer [] requests receipt finalized

abbrev report : Submission
report = record {
  signature = signature;
  confirmation_status = text "finalized";
  transaction_error = some false;
  current_block_height = 1000;
  last_valid_block_height = 900;
  blockhash_expired = true;
  automatic_retry_allowed = false;
}

abbrev status_requests : Log
status_requests = height_request ∷ statuses_request signature ∷ genesis_request ∷ []

reported : submission_status key network signature 900 [] ≡ (ok report, status_requests)
unfolding submission_status classify read_status is_error ◌>>=◌ lift raise_if pure require
    assert_devnet exchange answer read_response read_reply is_identity result_of is_one has has_text
    get get_as is_text is_null has_null as_object as_array as_text as_integer only is_accepted call
    mem_text text_dec count only_status
reported = rw decoded_signature refl

submission_status_sound_example : IsReported key network signature 900 [] report status_requests
submission_status_sound_example =
    submission_status_sound key network signature 900 [] status_requests report reported
