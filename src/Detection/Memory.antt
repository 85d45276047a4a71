-- ===== src/Detection/Memory.antt =====
-- An accepted event stays known to the detector for as long as it could be sent again: it is in the
-- replay cache, or not above the replay floor, or expired.
use reliamesh.Prelude.{
  ℕ, ◌+◌, ◌-◌, ◌≤◌, ◌<◌, ◌≡◌, refl, sym, ap, inl, inr, Option, none, some, List, [], ◌∷◌, length,
  arith, Result, ok, >>=-eq-ok, Bool-cases, tests,
}
use reliamesh.Prelude.Dict.{
  lookup, insert, lookup-insert, lookup-insert_self, IsDistinct, insert-IsDistinct, keep-IsDistinct,
  lookup-keep,
}
use reliamesh.Host.{Host, Instant}
use reliamesh.Protocol.Event.{Event}
use reliamesh.Detection.State.{State, Counts, Usage, aware, no_counts, retention, max_dedup}
use reliamesh.Detection.Prune.{prune, or_empty, is_fresh}
use reliamesh.Detection.Process.{event_digest, accept_event, process_event, process_all}
use reliamesh.Detection.Batch.{bound_dedup, add_totals, sort_events, process_events}
use reliamesh.Detection.Steps.{
  accept_event-eq-ok, process_event-eq-ok, process_events-eq-ok, Handled, duplicate, accepted,
}
use reliamesh.Detection.Replay.{Evicted, bound_dedup-Evicted}

ok-injective {ℓ} : {E A : Type ℓ} {a b : A} → Path (Result E A) (ok a) (ok b) → a ≡ b
ok-injective e = cc

aware-injective : {a b : Instant} → aware a ≡ aware b → a ≡ b
aware-injective e = cc

module _ {h : Host} where
  -- The changes of a tenant's state, each at a time that is not before the last one.
  pub data Step (t : Instant) (s : State h) (u : Instant) (s' : State h) : Type 0 where
    event :
        (c c' : Counts) (e : Event h)
        → u ≡ t
        → process_event h t (s, c) e ≡ ok (s', c')
        → Step t s u s'
    bound : u ≡ t → s' ≡ bound_dedup h s → Step t s u s'
    recount : (m : Counts) → u ≡ t → s' ≡ add_totals h m s → Step t s u s'
    charge : (usage : Option Usage) → u ≡ t → s' ≡ record s { usage = usage } → Step t s u s'
    expire : t ≤ u → s' ≡ prune (some s) u → Step t s u s'

  pub data Reach (t : Instant) (s : State h) : Instant → State h → Type 0 where
    here : Reach t s t s
    next : {u v : Instant} {s' s'' : State h} → Reach t s u s' → Step u s' v s'' → Reach t s v s''

  pub data Known (t : Instant) (s : State h) (e : Event h) : Type 0 where
    cached : lookup e.event_id s.dedup ≡ some (event_digest h e, e.timestamp) → Known t s e
    below : e.timestamp ≤ s.replay_floor → Known t s e
    expired : e.timestamp + retention ≤ t → Known t s e

  pub record Remembers (t : Instant) (s : State h) (e : Event h) : Type 0 where
    pub known : Known t s e
    pub distinct : IsDistinct s.dedup

  accept_event-Remembers :
      (t : Instant) (s s' : State h) (e : Event h)
      → IsDistinct s.dedup
      → accept_event h s e ≡ ok s'
      → Remembers t s' e
  accept_event-Remembers t s s' e d ran = rw ((accept_event-eq-ok s e s' ran).result) (record {
    known = cached (lookup-insert_self e.event_id _ s.dedup);
    distinct = insert-IsDistinct e.event_id _ s.dedup d;
  })

  -- A round of the loop overwrites nothing in the cache.
  event-Remembers :
      (t : Instant) (acc acc' : State h × Counts) (e f : Event h)
      → Remembers t acc.0 e
      → process_event h t acc f ≡ ok acc'
      → Remembers t acc'.0 e
  event-Remembers t acc acc' e f r ran = handled (process_event-eq-ok t acc f acc' ran).handled
    where
      kept :
          (s' : State h)
          → s'.replay_floor ≡ acc.0.replay_floor
          → s'.dedup ≡ insert f.event_id (event_digest h f, f.timestamp) acc.0.dedup
          → lookup f.event_id acc.0.dedup ≡ none
          → Known t acc.0 e
          → Known t s' e
      kept s' floor dedup new (cached c) = cached (
          ground (
            arith,
            lookup-insert e.event_id f.event_id (event_digest h f, f.timestamp) acc.0.dedup,
          ))
      kept s' floor dedup new (below b) = below (omega arith)
      kept s' floor dedup new (expired x) = expired x

      handled : Handled acc f acc' → Remembers t acc'.0 e
      handled (duplicate previous found same q) = rw q r
      handled (accepted new took q) =
          let a = accept_event-eq-ok acc.0 f acc'.0 took in
          record {
            known =
                kept acc'.0 (ap (λ (x : State h). x.replay_floor) a.result)
                  (ap (λ (x : State h). x.dedup) a.result) new r.known;
            distinct = rw a.result (insert-IsDistinct f.event_id _ acc.0.dedup r.distinct);
          }

  prune-Remembers :
      (t u : Instant) (s : State h) (e : Event h)
      → t ≤ u
      → Remembers t s e
      → Remembers u (prune (some s) u) e
  unfolding prune or_empty
  prune-Remembers t u s e l r = record {
    known = kept r.known;
    distinct = keep-IsDistinct _ s.dedup r.distinct;
  }
    where
      kept : Known t s e → Known u (prune (some s) u) e
      kept (cached c) = elim (Bool-cases (is_fresh u e.timestamp)) [
        | inl fresh ↦ cached (lookup-keep _ e.event_id _ s.dedup c fresh)
        | inr old ↦ expired (omega (tests, old))
      ]
      kept (below b) = below b
      kept (expired x) = expired (omega arith)

  bound-Remembers :
      (t : Instant) (s : State h) (e : Event h) → Remembers t s e → Remembers t (bound_dedup h s) e
  bound-Remembers t s e r = record { known = kept r.known; distinct = bounded.distinct }
    where
      bounded : Evicted (length s.dedup - max_dedup) s (bound_dedup h s)
      bounded = bound_dedup-Evicted s r.distinct

      kept : Known t s e → Known t (bound_dedup h s) e
      kept (cached c) = elim (bounded.remembered e.event_id _ c) [
        | inl there ↦ cached there
        | inr popped ↦ below popped
      ]
      kept (below b) = below (omega (arith, bounded.floor_grows))
      kept (expired x) = expired x

  Known-later :
      (t u : Instant) (s s' : State h) (e : Event h)
      → t ≤ u
      → s'.dedup ≡ s.dedup
      → s'.replay_floor ≡ s.replay_floor
      → Known t s e
      → Known u s' e
  Known-later t u s s' e l d f (cached c) = cached (rw d c)
  Known-later t u s s' e l d f (below b) = below (omega arith)
  Known-later t u s s' e l d f (expired x) = expired (omega arith)

  Step-Remembers :
      (t u : Instant) (s s' : State h) (e : Event h)
      → Step t s u s'
      → Remembers t s e
      → Remembers u s' e
  unfolding add_totals
  Step-Remembers t u s s' e (event c c' f l ran) r =
      rw l (event-Remembers t (s, c) (s', c') e f r ran)
  Step-Remembers t u s s' e (bound l q) r = rw (l, q) (bound-Remembers t s e r)
  Step-Remembers t u s s' e (recount m l q) r =
      rw (l, q)
        (record {
          known = Known-later t t s _ e (omega arith) refl refl r.known;
          distinct = r.distinct;
        })
  Step-Remembers t u s s' e (charge usage l q) r =
      rw (l, q)
        (record {
          known = Known-later t t s _ e (omega arith) refl refl r.known;
          distinct = r.distinct;
        })
  Step-Remembers t u s s' e (expire l q) r = rw q (prune-Remembers t u s e l r)

  Reach-Remembers :
      {t : Instant} {s : State h} {u : Instant} {s' : State h} (e : Event h)
      → Remembers t s e
      → Reach t s u s'
      → Remembers u s' e
  Reach-Remembers e r here = r
  Reach-Remembers e r (next {u = u} {v = v} {s' = s'} {s'' = s''} reach step) =
      Step-Remembers u v s' s'' e step (Reach-Remembers e r reach)

  -- An event that the detector knows is not accepted again.
  Known-not-accepted :
      (t : Instant) (acc acc' : State h × Counts) (e : Event h)
      → Known t acc.0 e
      → t < e.timestamp + retention
      → Handled acc e acc'
      → acc' ≡ (acc.0, record acc.1 { duplicates = acc.1.duplicates + 1 })
  Known-not-accepted t acc acc' e k l (duplicate previous found same q) = q
  Known-not-accepted t acc acc' e (cached c) l (accepted new took q) = absurd (cc)
  Known-not-accepted t acc acc' e (below b) l (accepted new took q) =
      absurd (omega (arith, (accept_event-eq-ok acc.0 e acc'.0 took).above_floor))
  Known-not-accepted t acc acc' e (expired x) l (accepted new took q) = absurd (omega arith)

  -- Where an event was accepted into a state whose cache lists no event twice, and the state has
  -- since changed by steps of `Reach` alone, processing the same event again either raises or counts
  -- it as a duplicate and changes nothing else.
  pub at_most_once :
      (t u : Instant) (s s₁ s₂ : State h) (e : Event h) (c : Counts) (acc' : State h × Counts)
      → IsDistinct s.dedup
      → accept_event h s e ≡ ok s₁
      → Reach t s₁ u s₂
      → process_event h u (s₂, c) e ≡ ok acc'
      → acc' ≡ (s₂, record c { duplicates = c.duplicates + 1 })
  at_most_once t u s s₁ s₂ e c acc' d took reach again =
      let r = Reach-Remembers e (accept_event-Remembers t s s₁ e d took) reach in
      let p = process_event-eq-ok u (s₂, c) e acc' again in
      Known-not-accepted u (s₂, c) acc' e r.known p.not_expired p.handled

  process_all-Reach :
      (t : Instant) (acc acc' : State h × Counts) (events : List (Event h)) {t₀ : Instant}
      {s₀ : State h}
      → Reach t₀ s₀ t acc.0
      → process_all h t acc events ≡ ok acc'
      → Reach t₀ s₀ t acc'.0
  unfolding process_all
  process_all-Reach t acc acc' [] reach e = rw (ok-injective (sym e)) reach
  process_all-Reach t acc acc' (e₁ ∷ events) reach e =
      let (mid, ran, rest) = >>=-eq-ok (process_event h t acc e₁) _ e in
      process_all-Reach t mid acc' events (next reach (event acc.1 mid.1 e₁ refl ran)) rest

  -- A batch that returns, at a time no earlier than the last, takes the state along steps of `Reach`:
  -- the pruning, the events in turn, the bound on the cache and the totals.
  pub process_events-Reach :
      (encoded_size : State h → ℕ) (t u : Instant) (s s' : State h) (m : Counts)
      (events : List (Event h))
      → t ≤ u
      → process_events h encoded_size (some s) events (aware u) ≡ ok (s', m)
      → Reach t s u s'
  process_events-Reach encoded_size t u s s' m events l e =
      let b = process_events-eq-ok encoded_size (some s) events (aware u) s' m e in
      let same : u ≡ b.server_time = aware-injective b.is_aware in
      let ran = rw (← same) at b.ran in
      next
        (next
          (process_all-Reach u (prune (some s) u, no_counts) (b.processed, m) (sort_events h events)
            (next here (expire l refl)) ran)
          (bound refl refl))
        (recount m refl b.result)
