-- ===== src/Api/Access.antt =====
-- The credentials of src/reliamesh/api.py: `bearer`, `require` and `admin`, over `SQLiteStore`.
use reliamesh.Prelude.{
  ℕ, Bool, none, some, Text, text, length, take, drop, ◌==◌, if◌then◌else◌, not, ◌&&◌, ◌||◌, Result,
  ok, err, all_chars,
}
use reliamesh.Host.{Host}
use reliamesh.Detection.State
use reliamesh.Detection.Prune.{mem_text}
use reliamesh.Storage.Common
use reliamesh.Storage.Common.{KeyRecord, is_id_char}
use reliamesh.Storage.Sqlite.Tables.{Database, same}
use reliamesh.Storage.Sqlite.Methods.{authenticate}
use reliamesh.Security.Limiter.{Limiter, allow}

-- What the handlers raise themselves: an `HTTPException` with its status and code, or an error of
-- the detector.
pub data Refusal : Type 0 where
  http : ℕ → Text → Refusal
  detection : State.Error → Refusal

-- How a request fails.
pub data Failure : Type 0 where
  refused : Refusal → Failure
  storage : Common.Error Refusal → Failure

-- The status of the response: the exception handlers', or the middleware's 503.
unfoldable pub status : Failure → ℕ
status (refused (http code error)) = code
status (refused (detection e)) = 409
status (storage Common.storage_limit) = 409
status (storage Common.tenant_missing) = 401
status (storage _) = 503

-- An exception of a callback passes through the store.
unfoldable pub of_store : {A : Type 0} → Result (Common.Error Refusal) A → Result Failure A
of_store (ok a) = ok a
of_store (err (Common.callback_error r)) = err (refused r)
of_store (err e) = err (storage e)

abbrev pub invalid_credentials : Failure
invalid_credentials = refused (http 401 (text "invalid_credentials"))

pub record Principal : Type 0 where
  pub key : KeyRecord
  pub key_hash : Text

-- the server: its store, and the limiter of tenants
pub record Server : Type 0 where
  pub db : Database
  pub tenant_limiter : Limiter

abbrev pub Handler : Type 0 → Type 0
Handler A = Server → Result Failure A × Server

infixl 5 ◌>>=◌
abbrev pub ◌>>=◌ : {A B : Type 0} → Handler A → (A → Handler B) → Handler B
◌>>=◌ m f s = let (r, s') = m s in elim r [ ok a ↦ f a s' | err e ↦ (err e, s') ]

infixl 5 ◌>>◌
abbrev pub ◌>>◌ : {A B : Type 0} → Handler A → Handler B → Handler B
m >> k = m >>= λ _. k

abbrev pub pure : {A : Type 0} → A → Handler A
pure a s = (ok a, s)

abbrev pub raise_if : Bool → Failure → Handler (Unit {0})
raise_if b e s = (if b then err e else ok tt, s)

abbrev pub lift : {A : Type 0} → Result Failure A → Handler A
lift r s = (r, s)

-- a call of the store
abbrev pub call : {A : Type 0} → (Database → Result (Common.Error Refusal) A × Database) → Handler A
call method s = let (r, db) = method s.db in (of_store r, record s { db = db })

-- `Bearer rm_[A-Za-z0-9_-]{43}`
unfoldable pub is_bearer : Text → Bool
is_bearer header =
    length header == 53
    && (same (take 10 header) (text "Bearer rm_") && all_chars is_id_char (drop 10 header))

module _ (h : Host) where
  unfoldable pub bearer : Text → Result Failure Text
  bearer header =
      if is_bearer header then ok (h.sha256 (drop 7 header)) else err invalid_credentials

  -- `require(scope)`, at the limiter's clock
  unfoldable pub require : Text → ℕ → Text → Handler Principal
  require scope clock header = do
    key_hash ← lift (bearer header)
    found ← call (authenticate key_hash)
    elim found [
      | none ↦ (λ s. (err invalid_credentials, s))
      | some key ↦ (do
        raise_if (not key.active) invalid_credentials
        raise_if (not (mem_text scope key.scopes)) (refused (http 403 (text "insufficient_scope")))
        (λ s.
            let (allowed, limiter) = allow s.tenant_limiter clock key.tenant_id in
            (
              if allowed
                  then ok (record { key = key; key_hash = key_hash })
                  else err (refused (http 429 (text "rate_limited"))),
              record s { tenant_limiter = limiter },
            )))
    ]

  -- the administrator's key; an empty digest admits nobody
  unfoldable pub admin : Text → Text → Result Failure (Unit {0})
  admin admin_hash header = elim (bearer header) [
    | err e ↦ err e
    | ok candidate ↦
        if length admin_hash == 0 || not (same candidate admin_hash)
        then err invalid_credentials
        else ok tt
  ]
