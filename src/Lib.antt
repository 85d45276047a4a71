-- ===== src/Lib.antt =====
-- ReliaMesh: agents send reliability events through the SDK's client to an HTTP service, which
-- authenticates them, bounds their rate, and folds each batch into one bounded state a tenant that
-- a store keeps in a transaction.
--
-- The parts, by the path of their code from the repository's root:
--   Protocol   src/reliamesh/protocol.py: `Event` after its validation, `canonical_hash`,
--              `version_metadata`, `failure_fingerprint`; Fields and Validation have its validation.
--   Detection  src/reliamesh/detection.py: State (the state, a record for the JSON object), Stats
--              (`_stats`, `wilson_interval`), Signals (`_signals`, `_recovered`), Prune (`_prune`),
--              Process (the loop of `process_events`, `_evaluate`), Batch (`process_events`),
--              Summary (`_fingerprints`, `summarize`). Steps inverts each function on its successful
--              branch; Shapes, Rows, Labels, Order, Windows and Replay carry the lemmas; Invariant,
--              Counting, Memory and Reads hold what is concluded.
--   Storage    src/reliamesh/storage.py: Common (arguments and limits), Sqlite (`SQLiteStore` as
--              transactions on three tables), Firestore (`FirestoreStore` as callbacks on three
--              collections).
--   Security   src/reliamesh/security.py: `Limiter`.
--   Api        src/reliamesh/api.py: Body (the middleware's cap and scan), Middleware (the whole of
--              `SafetyMiddleware.__call__`), Messages and Responses, Access (`bearer`, `require`,
--              `admin`), Endpoints (the handlers over `SQLiteStore`), Quota.
--   Config     src/reliamesh/config.py: `Settings` and its checks.
--   Sdk        sdk/python/src/reliamesh_sdk/client.py: Client (`emit`, `_request`, `flush`), with
--              Batches, Accounts and Flushes; events.py beside it: Fields (its constants) and Events,
--              and what it and the server agree on in Correspondence, Acceptance, Prepared,
--              Attributes, Mapping and Agreement.
--   Attestation  src/reliamesh/solana_attest.py: Base58 and Base64 (`_encode58`, `_decode58`,
--              `_decode64`), Values (JSON), Transaction (`_commitment`, `_message`, the key pair,
--              `build_transaction`, `_verify_wire`), Writes (`_validate_write`), Replies and Rpc
--              (`DevnetRPC`), Status (`submission_status`) and Classified, Receipt and Finality
--              (`verify_finalized`); Steps reasons on calls in sequence. Report has
--              src/reliamesh/attestation.py: `WindowReport`, `report_from_summary`.
--   Prelude and Host hold what the parts share; Tests holds runs at concrete inputs.
--
-- How code becomes definitions. A function that raises returns a Result; a method that changes its
-- object takes the object and returns the new one beside its result. A dict is a list of keys and
-- values in insertion order. A method holds its lock or its transaction for its whole body, so
-- methods follow one another, and an interleaving of requests is a sequence of calls.
--
-- Parameters, for what is not the repository's code. Host has the floats, SHA-256, and the texts of
-- floats and datetimes, about which nothing is assumed. Codec has `json.dumps` and `json.loads` of a
-- tenant's state; where a property needs that decoding inverts encoding, it says so. `encoded_size`
-- is the length of the detector's state as JSON. The SDK's server is a function from the number of
-- the attempt to what it meets; what `emit` is given of an event and the size of its JSON are arguments.
-- Formats has the interpreter's UUIDs, ISO 8601 times and
-- comparisons of floats. Ed25519 is a record of the public key, the signature and its verification; the network
-- answers a request by those before it, with what `json.loads` makes of the body. The middleware's
-- application and `JSONResponse` are functions to the messages that they send. Clocks are arguments.
--
-- Numbers. Time is in microseconds since 0001-01-01, which doubles of `datetime.timestamp()` keep
-- apart up to the year 2242. `rank_95` has `math.ceil(0.95 * n)` for n up to 50, the length of a
-- window. Python's integers do not overflow.
--
-- Fuel. `Sdk.Client.flush_loop` runs on the number of queued events, and each batch takes one at
-- least, so that `Sdk.Flushes.flush-drains` finds the queue empty. `decimal_text` runs on the number
-- that it prints, and each step divides it by ten. Base 58 has two digits of fuel for a byte, and
-- `decode58` 88 bytes for 88 digits; the round trip shows that they are enough. All other loops go down a list or a count.
--
-- Not modelled: the parsing of UUIDs and timestamps, the SDK's endpoint check, `observe`, the reading
-- of the environment, the bundle of a report and its hash, the command lines and
-- static pages. SQLite and Firestore are their documented behaviour: the constraints of the tables, the rollback of what a
-- connection did not commit, and transactions that apply all of their writes or none.
pub mod Prelude
pub mod Host
pub mod Protocol
pub mod Detection
pub mod Storage
pub mod Security
pub mod Api
pub mod Attestation
pub mod Config
pub mod Sdk
pub mod Tests
