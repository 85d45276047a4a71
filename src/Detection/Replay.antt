-- ===== src/Detection/Replay.antt =====
-- The replay cache: what is popped from it is remembered by the replay floor.
use reliamesh.Prelude.{
  ℕ, zero, suc, ◌+◌, ◌-◌, ◌≤◌, ◌≡◌, refl, sym, ap, ◌∙◌, ◌⊎◌, inl, inr, Bool, none, some, [], ◌∷◌,
  Text, text_dec, length, take, length-take, arith, All, All-take, tests, All-map, All-both, ltb,
  max, ite, Bool-cases,
}
use mathlib.Core.Path.{subst}
use reliamesh.Prelude.Dict.{
  Dict, lookup, erase, IsDistinct, erase-IsDistinct, length-erase, lookup-erase, All-own,
}
use reliamesh.Host.{Host, Instant}
use reliamesh.Detection.State.{State, max_dedup}
use reliamesh.Detection.Batch.{insert_by, sort_by, sort_dedup, evict, bound_dedup}

-- Sorting keeps every entry, and adds none.
record SortedLike {V : Type 0} (d s : Dict V) : Type 0 where
  same_lookup : (k : Text) → lookup k s ≡ lookup k d
  distinct : IsDistinct s
  same_length : length s ≡ length d

module _ {V : Type 0} (le : Text × V → Text × V → Bool) where
  lookup-insert_by :
      (k : Text) (x : Text × V) (d : Dict V)
      → lookup x.0 d ≡ none
      → lookup k (insert_by le x d) ≡ ite (text_dec k x.0) (some x.1) (lookup k d)
  unfolding lookup insert_by
  lookup-insert_by k x [] n = refl
  lookup-insert_by k x (e ∷ d) n = ground (arith, lookup-insert_by k x d)

  insert_by-IsDistinct :
      (x : Text × V) (d : Dict V)
      → lookup x.0 d ≡ none
      → IsDistinct d
      → IsDistinct (insert_by le x d)
  unfolding lookup insert_by
  insert_by-IsDistinct x [] n u = (refl, tt)
  insert_by-IsDistinct x (e ∷ d) n u =
      ground (arith, insert_by-IsDistinct x d, lookup-insert_by e.0 x d)

  length-insert_by : (x : Text × V) (d : Dict V) → length (insert_by le x d) ≡ suc (length d)
  unfolding insert_by
  length-insert_by x [] = refl
  length-insert_by x (e ∷ d) = ground (arith, length-insert_by x d)

  SortedLike-cons :
      (e : Text × V) (d s : Dict V)
      → lookup e.0 d ≡ none
      → SortedLike d s
      → SortedLike (e ∷ d) (insert_by le e s)
  SortedLike-cons e d s new r = record {
    same_lookup = λ k. rw (lookup-insert_by k e s absent, r.same_lookup) (unfold lookup in refl);
    distinct = insert_by-IsDistinct e s absent r.distinct;
    same_length = omega (arith, length-insert_by e s, r.same_length);
  }
    where
      absent : lookup e.0 s ≡ none
      absent = r.same_lookup e.0 ∙ new

  sort_by-SortedLike : (d : Dict V) → IsDistinct d → SortedLike d (sort_by le d)
  unfolding sort_by
  sort_by-SortedLike [] u = record { same_lookup = λ k. refl; distinct = tt; same_length = refl }
  sort_by-SortedLike (e ∷ d) u = SortedLike-cons e d (sort_by le d) u.0 (sort_by-SortedLike d u.1)

module _ {ℓ} {A : Type ℓ} where
  lookup-take-none :
      (n : ℕ) (k : Text) (d : Dict A) → lookup k d ≡ none → lookup k (take n d) ≡ none
  unfolding take lookup
  lookup-take-none zero k d m = refl
  lookup-take-none (suc n) k [] m = refl
  lookup-take-none (suc n) k (e ∷ d) m = ground (arith, lookup-take-none n k d)

  take-IsDistinct : (n : ℕ) (d : Dict A) → IsDistinct d → IsDistinct (take n d)
  unfolding take
  take-IsDistinct zero d u = tt
  take-IsDistinct (suc n) [] u = tt
  take-IsDistinct (suc n) (e ∷ d) u = (lookup-take-none n e.0 d u.0, take-IsDistinct n d u.1)

-- Each entry is one of the cache's.
abbrev IsCached : Dict (Text × Instant) → Dict (Text × Instant) → Type 0
IsCached d es = All (λ e. lookup e.0 d ≡ some e.1) es

erase-IsCached :
    (k : Text) (d es : Dict (Text × Instant))
    → lookup k es ≡ none
    → IsDistinct es
    → IsCached d es
    → IsCached (erase k d) es
erase-IsCached k d es n u c = All-map _ _ stays es (All-both _ _ es (All-own es u) c)
  where
    stays :
        (x : Text × (Text × Instant))
        → (lookup x.0 es ≡ some x.1) × (lookup x.0 d ≡ some x.1)
        → lookup x.0 (erase k d) ≡ some x.1
    stays x own = ground (arith, lookup-erase x.0 k d)

module _ {h : Host} where
  -- What the eviction of some entries leaves, and what it remembers of each that it pops.
  pub record Evicted (count : ℕ) (state state' : State h) : Type 0 where
    pub kept :
        (k : Text) (v : Text × Instant)
        → lookup k state'.dedup ≡ some v
        → lookup k state.dedup ≡ some v
    pub remembered :
        (k : Text) (v : Text × Instant)
        → lookup k state.dedup ≡ some v
        → (lookup k state'.dedup ≡ some v) ⊎ (v.1 ≤ state'.replay_floor)
    pub floor_grows : state.replay_floor ≤ state'.replay_floor
    pub shorter : length state'.dedup + count ≡ length state.dedup
    pub distinct : IsDistinct state'.dedup
    pub same_streams : state'.streams ≡ state.streams
    pub same_incidents : state'.incidents ≡ state.incidents
    pub same_totals : state'.totals ≡ state.totals

  abbrev pop : Text × (Text × Instant) → State h → State h
  pop e state = record state {
    replay_floor = max state.replay_floor e.1.1;
    dedup = erase e.0 state.dedup;
  }

  Evicted-pop :
      (e : Text × (Text × Instant)) (n : ℕ) (state state' : State h)
      → IsDistinct state.dedup
      → lookup e.0 state.dedup ≡ some e.1
      → Evicted n (pop e state) state'
      → Evicted (suc n) state state'
  Evicted-pop e n state state' d c rest = record {
    kept = λ k v q. ground (arith, rest.kept k v q, lookup-erase k e.0 state.dedup);
    remembered = past;
    floor_grows = omega (arith, rest.floor_grows);
    shorter = omega (arith, rest.shorter, length-erase e.0 e.1 state.dedup d c);
    distinct = rest.distinct;
    same_streams = rest.same_streams;
    same_incidents = rest.same_incidents;
    same_totals = rest.same_totals;
  }
    where
      past :
          (k : Text) (v : Text × Instant)
          → lookup k state.dedup ≡ some v
          → (lookup k state'.dedup ≡ some v) ⊎ (v.1 ≤ state'.replay_floor)
      past k v q = elim (text_dec k e.0) [
        | yes same ↦
            let own : some v ≡ some e.1 = sym q ∙ ap (λ j. lookup j state.dedup) same ∙ c in
            inr (ground (arith, rest.floor_grows))
        | no other ↦ rest.remembered k v (ground (arith, lookup-erase k e.0 state.dedup))
      ]

  Evicted-none : (state : State h) → IsDistinct state.dedup → Evicted 0 state state
  Evicted-none state d = record {
    kept = λ k v e. e;
    remembered = λ k v e. inl e;
    floor_grows = omega arith;
    shorter = omega arith;
    distinct = d;
    same_streams = refl;
    same_incidents = refl;
    same_totals = refl;
  }

  pub evict-Evicted :
      (es : Dict (Text × Instant)) (state : State h)
      → IsDistinct es
      → IsDistinct state.dedup
      → IsCached state.dedup es
      → Evicted (length es) state (evict h es state)
  unfolding evict
  evict-Evicted [] state u d c = Evicted-none state d
  evict-Evicted (e ∷ es) state u d c = Evicted-pop e (length es) state _ d c.0 (
      evict-Evicted es (pop e state) u.1 (erase-IsDistinct e.0 state.dedup d)
        (erase-IsCached e.0 state.dedup es u.0 u.1 c.1))

  -- `process_events` pops as many entries as are too many, and each is an entry of the cache.
  pub bound_dedup-Evicted :
      (state : State h)
      → IsDistinct state.dedup
      → Evicted (length state.dedup - max_dedup) state (bound_dedup h state)
  unfolding bound_dedup sort_dedup
  bound_dedup-Evicted state d = elim (Bool-cases (ltb max_dedup (length state.dedup))) [
    | inl over ↦ rw over (
        subst (λ n. Evicted n state (evict h oldest state)) count
          (evict-Evicted oldest state (take-IsDistinct excess _ sorted.distinct) d cached))
    | inr fits ↦
        rw fits (subst (λ n. Evicted n state state) (omega (tests, fits)) (Evicted-none state d))
  ]
    where
      excess : ℕ
      excess = length state.dedup - max_dedup

      sorted : SortedLike state.dedup (sort_dedup h state.dedup)
      sorted = sort_by-SortedLike _ state.dedup d

      oldest : Dict (Text × Instant)
      oldest = take excess (sort_dedup h state.dedup)

      count : length oldest ≡ excess
      count = omega (arith, length-take excess (sort_dedup h state.dedup), sorted.same_length)

      cached : IsCached state.dedup oldest
      cached = All-take _ excess _ (
          All-map _ _ (λ e own. sym (sorted.same_lookup e.0) ∙ own) _
            (All-own (sort_dedup h state.dedup) sorted.distinct))
