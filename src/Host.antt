-- ===== src/Host.antt =====
-- What the program takes from the interpreter's floats, from hashlib and from the encoders of
-- floats and datetimes. The model makes no assumption about them unless a theorem names it.
use reliamesh.Prelude.{ℕ, ◌*◌, Bool, Text, if◌then◌else◌, not}

-- A point in time in microseconds since 0001-01-01T00:00:00Z, the least `datetime`. Python compares
-- `datetime.timestamp()` values, doubles that keep every microsecond apart up to the year 2242.
abbrev pub Instant : Type 0
Instant = ℕ

-- 1970-01-01T00:00:00Z, where `timestamp()` is 0.0.
abbrev pub unix_epoch : Instant
unix_epoch = 62_135_596_800_000_000

abbrev pub seconds : ℕ → ℕ
seconds n = n * 1_000_000

pub record Host : Type 1 where
  pub Float : Type 0
  pub of_ℕ : ℕ → Float
  -- `decimal m e` is the literal m / 10 ^ e
  pub decimal : ℕ → ℕ → Float
  pub add : Float → Float → Float
  pub sub : Float → Float → Float
  pub mul : Float → Float → Float
  pub div : Float → Float → Float
  pub sqrt : Float → Float
  pub lt : Float → Float → Bool
  -- `round(x, 6)`
  pub round6 : Float → Float
  -- `json.dumps` of a float
  pub repr : Float → Text
  -- a UTC datetime under `model_dump(mode="json")`
  pub isoformat : Instant → Text
  -- the hex digest of SHA-256
  pub sha256 : Text → Text

module _ (h : Host) where
  open h use {Float, lt}

  -- `max(a, b)` and `min(a, b)` return `a` where neither is larger.
  unfoldable pub float_max : Float → Float → Float
  float_max a b = if lt a b then b else a

  unfoldable pub float_min : Float → Float → Float
  float_min a b = if lt b a then b else a

  -- `a <= b`, of floats that are no NaN
  abbrev pub float_le : Float → Float → Bool
  float_le a b = not (lt b a)
