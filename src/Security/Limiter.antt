-- ===== src/Security/Limiter.antt =====
-- `Limiter` of src/reliamesh/security.py: fixed windows in a bounded dict, the least recently
-- admitted identifier dropped first. The clock is an argument, in ticks; `allow` holds the lock.
use reliamesh.Prelude.{
  ℕ, ◌+◌, ◌-◌, Bool, true, false, none, some, List, [], ◌∷◌, ◌++◌, Text, length, ltb, leb,
  if◌then◌else◌,
}
use reliamesh.Prelude.Dict.{Dict, lookup, erase}

pub record Bucket : Type 0 where
  pub start : ℕ
  pub count : ℕ

pub record Limiter : Type 0 where
  pub limit : ℕ
  pub seconds : ℕ
  pub capacity : ℕ
  -- the least recently admitted first
  pub buckets : Dict Bucket

-- `while len(self.buckets) > self.capacity: self.buckets.popitem(last=False)`
unfoldable pub pop_items : ℕ → Dict Bucket → Dict Bucket
pop_items capacity [] = []
pop_items capacity (b ∷ buckets) =
    let rest = pop_items capacity buckets in
    if ltb capacity (length (b ∷ buckets)) then rest else b ∷ buckets

-- `(now, 0)`
unfoldable pub fresh : ℕ → Bucket
fresh now = record { start = now; count = 0 }

-- `self.buckets.get(identifier, (now, 0))`, begun again where its window is over
unfoldable pub current_bucket : Limiter → ℕ → Text → Bucket
current_bucket l now identifier = elim (lookup identifier l.buckets) [
  | none ↦ fresh now
  | some b ↦ if leb l.seconds (now - b.start) then fresh now else b
]

unfoldable pub allow : Limiter → ℕ → Text → Bool × Limiter
allow l now identifier =
    let bucket = current_bucket l now identifier in
    if leb l.limit bucket.count then (false, l) else (
      true,
      record l {
        buckets = pop_items l.capacity (
            erase identifier l.buckets
            ++ (identifier, record { start = bucket.start; count = bucket.count + 1 }) ∷ []);
      },
    )

-- How many of the calls on one identifier are admitted, at these times in turn.
unfoldable pub admitted : Limiter → Text → List ℕ → ℕ
admitted l identifier [] = 0
admitted l identifier (now ∷ times) =
    let (ok, l') = allow l now identifier in
    let rest = admitted l' identifier times in if ok then rest + 1 else rest
