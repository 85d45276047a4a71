-- ===== src/Security/Bounds.antt =====
-- What `Limiter` bounds: its memory, and the calls that it admits in a window.
use reliamesh.Prelude.{
  ℕ, ◌+◌, ◌-◌, ◌*◌, ◌≤◌, ◌<◌, ◌≡◌, true, false, List, [], ◌∷◌, ◌++◌, Text, length, leb,
  if◌then◌else◌, All, All-append, arith, Bool-cases, inl, inr,
}
use reliamesh.Prelude.Dict.{Dict, lookup, erase}
use reliamesh.Security.Limiter.{Bucket, Limiter, pop_items, fresh, current_bucket, allow, admitted}

-- No more buckets than the capacity, and in none a count above the limit.
pub record IsBounded (l : Limiter) : Type 0 where
  pub size : length l.buckets ≤ l.capacity
  pub counts : All (λ e. e.1.count ≤ l.limit) l.buckets

length-pop_items : (n : ℕ) (d : Dict Bucket) → length (pop_items n d) ≤ n
unfolding pop_items
length-pop_items n [] = omega arith
length-pop_items n (b ∷ d) = ground (arith, length-pop_items n d)

All-pop_items :
    (P : Text × Bucket → Type 0) (n : ℕ) (d : Dict Bucket) → All P d → All P (pop_items n d)
unfolding pop_items
All-pop_items P n [] h = tt
All-pop_items P n (b ∷ d) h = ground (arith, All-pop_items P n d h.1)

All-erase : (P : Text × Bucket → Type 0) (k : Text) (d : Dict Bucket) → All P d → All P (erase k d)
unfolding erase
All-erase P k [] h = tt
All-erase P k (b ∷ d) h = ground (arith, All-erase P k d h.1)

admit-IsBounded :
    (l : Limiter) (identifier : Text) (b : Bucket)
    → b.count ≤ l.limit
    → IsBounded l
    → IsBounded (record l {
      buckets = pop_items l.capacity (erase identifier l.buckets ++ (identifier, b) ∷ []);
    })
admit-IsBounded l identifier b h bounded = record {
  size = length-pop_items l.capacity _;
  counts =
      All-pop_items (λ e. e.1.count ≤ l.limit) l.capacity _
        (All-append (λ e. e.1.count ≤ l.limit) (erase identifier l.buckets) ((identifier, b) ∷ [])
          (All-erase (λ e. e.1.count ≤ l.limit) identifier l.buckets bounded.counts) (h, tt));
}

-- Every call of `allow`, admitted or not, keeps the number of buckets within the capacity and every
-- count within the limit.
pub allow-IsBounded :
    (l : Limiter) (now : ℕ) (identifier : Text) → IsBounded l → IsBounded (allow l now identifier).1
unfolding allow
allow-IsBounded l now identifier h =
    let bucket = current_bucket l now identifier in
    ground (
      arith,
      h,
      admit-IsBounded l identifier (record { start = bucket.start; count = bucket.count + 1 }),
    )

-- A limiter that has seen one identifier, as the one of all requests has.
unfoldable pub single : ℕ → ℕ → ℕ → Text → Bucket → Limiter
single limit seconds capacity identifier b = record {
  limit = limit;
  seconds = seconds;
  capacity = capacity;
  buckets = (identifier, b) ∷ [];
}

module _ (limit seconds capacity : ℕ) (identifier : Text) (room : 1 ≤ capacity) where
  allow-single_same :
      (b : Bucket) (now : ℕ)
      → now - b.start < seconds
      → allow (single limit seconds capacity identifier b) now identifier ≡ (
          if leb limit b.count then (false, single limit seconds capacity identifier b) else (
            true,
            single limit seconds capacity identifier
                (record { start = b.start; count = b.count + 1 }),
          ))
  unfolding allow current_bucket lookup erase pop_items single
  allow-single_same b now h = ground (arith, room)

  allow-single_reset :
      (b : Bucket) (now : ℕ)
      → seconds ≤ now - b.start
      → allow (single limit seconds capacity identifier b) now identifier ≡ (
          if leb limit 0
          then (false, single limit seconds capacity identifier b)
          else (true, single limit seconds capacity identifier (record { start = now; count = 1 })))
  unfolding allow current_bucket lookup erase pop_items single fresh
  allow-single_reset b now h = ground (arith, room)

  -- no window ends before `a + seconds`
  admitted-same :
      (a : ℕ) (b : Bucket) (times : List ℕ)
      → a ≤ b.start
      → b.count ≤ limit
      → All (λ t. (a ≤ t) × (t < a + seconds)) times
      → admitted (single limit seconds capacity identifier b) identifier times + b.count ≤ limit
  unfolding admitted
  admitted-same a b [] start h before = omega (arith, h)
  admitted-same a b (now ∷ times) start h before =
      let same = allow-single_same b now (omega (arith, before.0.0, before.0.1, start)) in
      ground (
        arith,
        same,
        admitted-same a b times start h before.1,
        admitted-same a (record { start = b.start; count = b.count + 1 }) times start,
        before.1,
      )

  -- In any interval as long as a window, a limiter that has room and has seen one identifier alone
  -- admits at most twice the limit of that identifier's calls, those counted in the running window
  -- included.
  pub admitted-le :
      (a : ℕ) (b : Bucket) (times : List ℕ)
      → b.count ≤ limit
      → All (λ t. (a ≤ t) × (t < a + seconds)) times
      → admitted (single limit seconds capacity identifier b) identifier times + b.count ≤ 2 * limit
  unfolding admitted
  admitted-le a b [] h interval = omega arith
  admitted-le a b (now ∷ times) h interval = elim (Bool-cases (leb seconds (now - b.start))) [
    | inl over ↦
        (let reset = allow-single_reset b now (ground (arith, over)) in
          ground (
            arith,
            reset,
            admitted-le a b times h interval.1,
            admitted-same a (record { start = now; count = 1 }) times interval.0.0,
            interval.1,
          ))
    | inr within ↦
        (let same = allow-single_same b now (ground (arith, within)) in
          ground (
            arith,
            same,
            admitted-le a b times h interval.1,
            admitted-le a (record { start = b.start; count = b.count + 1 }) times,
            interval.1,
          ))
  ]
