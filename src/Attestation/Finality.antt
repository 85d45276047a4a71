-- ===== src/Attestation/Finality.antt =====
-- `verify_finalized` of src/reliamesh/solana_attest.py.
use reliamesh.Prelude.{Text, text, not}
use reliamesh.Attestation.Base58.{
  decode58, invalid_signature_status, transaction_not_finalized_or_unavailable,
}
use reliamesh.Attestation.Transaction.{Ed25519, check_commitment}
use reliamesh.Attestation.Rpc.{
  Transport, Rpc, pure, lift, require, ◌>>=◌, ◌>>◌, raise_if, assert_devnet, call, statuses_params,
  only_status,
}
use reliamesh.Attestation.Receipt.{Receipt, transaction_params, is_final, check_transaction}

module _ (k : Ed25519) (t : Transport) where
  unfoldable pub verify_finalized : Text → Text → Text → Rpc Receipt
  verify_finalized commitment signature expected_signer = do
    _ ← lift (check_commitment commitment)
    _ ← lift (decode58 64 signature)
    _ ← lift (decode58 32 expected_signer)
    _ ← assert_devnet k t
    transaction ← call k t (text "getTransaction") (transaction_params signature)
    receipt ← lift (check_transaction k commitment signature expected_signer transaction)
    statuses ← call k t (text "getSignatureStatuses") (statuses_params signature)
    status ← require invalid_signature_status (only_status statuses)
    raise_if (not (is_final receipt.slot status)) transaction_not_finalized_or_unavailable
    pure receipt
