-- ===== src/Storage/Sqlite/Additions.antt =====
-- The keys that `SQLiteStore.add_key` adds.
use reliamesh.Prelude.{
  ◌≡◌, refl, sym, ap, ◌∙◌, inl, inr, Bool-cases, Result-cases, text_le, length, true, false, Option,
  some, List, [], ◌∷◌, ◌++◌, Text, ok, arith, any, find?, take, ◌&&◌, ◌||◌,
}
use reliamesh.Prelude.Dict.{contains}
use mathlib.Core.Path.{subst}
use reliamesh.Detection.Prune.{mem_text}
use reliamesh.Detection.Batch.{insert_by, sort_by}
use reliamesh.Detection.Counting.{length-sort_by}
use reliamesh.Host.{Instant}
use reliamesh.Detection.State.{aware}
use reliamesh.Storage.Common.{key_record, utc, check_tenant_id, check_digest, check_scopes}
use reliamesh.Storage.Sqlite.Tables.{KeyRow, Database, same, insert_key}
use reliamesh.Storage.Sqlite.Methods.{require_tenant, require_key, find_key, authenticate, add_key}
use reliamesh.Storage.Sqlite.Credentials.{find-append, no_hash-find}

no_conflict-any :
    (tenant key id : Text) (rows : List KeyRow)
    → any
        (λ (k : KeyRow). same k.key_hash key || (same k.tenant_id tenant && same k.key_id id))
        rows
      ≡ false
    → any (λ (k : KeyRow). same k.key_hash key) rows ≡ false
no_conflict-any tenant key id [] e = refl
no_conflict-any tenant key id (k ∷ rows) e = ground (arith, e, no_conflict-any tenant key id rows)

-- each text is at most the next, from a first one
pub IsAbove : Text → List Text → Type 0
IsAbove x [] = Unit
IsAbove x (y ∷ ys) = (text_le x y ≡ true) × IsAbove y ys

pub IsSorted : List Text → Type 0
IsSorted [] = Unit
IsSorted (x ∷ xs) = IsAbove x xs

text_le-total : (x y : Text) → text_le x y ≡ false → text_le y x ≡ true
unfolding text_le
text_le-total [] ys e = cc
text_le-total (x ∷ xs) [] e = refl
text_le-total (x ∷ xs) (y ∷ ys) e = ground (arith, e, text_le-total xs ys)

insert_by-IsAbove :
    (lo x : Text) (xs : List Text)
    → text_le lo x ≡ true
    → IsAbove lo xs
    → IsAbove lo (insert_by text_le x xs)
unfolding insert_by IsAbove
insert_by-IsAbove lo x [] le a = (le, tt)
insert_by-IsAbove lo x (y ∷ ys) le a = elim (Bool-cases (text_le x y)) [
  | inl below ↦ rw below (le, (below, a.1))
  | inr above ↦ rw above (a.0, insert_by-IsAbove y x ys (text_le-total x y above) a.1)
]

insert_by-IsSorted : (x : Text) (xs : List Text) → IsSorted xs → IsSorted (insert_by text_le x xs)
unfolding insert_by IsSorted IsAbove
insert_by-IsSorted x [] s = tt
insert_by-IsSorted x (y ∷ ys) s = elim (Bool-cases (text_le x y)) [
  | inl below ↦ rw below (below, s)
  | inr above ↦ rw above (insert_by-IsAbove y x ys (text_le-total x y above) s)
]

sort_by-IsSorted : (xs : List Text) → IsSorted (sort_by text_le xs)
unfolding sort_by IsSorted
sort_by-IsSorted [] = tt
sort_by-IsSorted (x ∷ xs) = insert_by-IsSorted x (sort_by text_le xs) (sort_by-IsSorted xs)

mem_text-insert_by :
    (t x : Text) (xs : List Text) → mem_text t (insert_by text_le x xs) ≡ mem_text t (x ∷ xs)
unfolding mem_text insert_by
mem_text-insert_by t x [] = refl
mem_text-insert_by t x (y ∷ ys) = ground (arith, mem_text-insert_by t x ys)

mem_text-sort_by : (t : Text) (xs : List Text) → mem_text t (sort_by text_le xs) ≡ mem_text t xs
unfolding mem_text sort_by
mem_text-sort_by t [] = refl
mem_text-sort_by t (x ∷ xs) =
    ground (arith, mem_text-insert_by t x (sort_by text_le xs), mem_text-sort_by t xs)

-- a key of a tenant, with these scopes
abbrev new_row : Text → Text → List Text → Instant → KeyRow
new_row tenant key scopes t = record {
  key_hash = key;
  tenant_id = tenant;
  key_id = take 12 key;
  scopes = scopes;
  created_at = t;
}

module _ (E : Type 0) where
  add_key-eq-ok :
      (tenant key : Text) (values scopes : List Text) (t : Instant) (expected : Option Text)
      (db : Database)
      → check_scopes {E = E} values ≡ ok scopes
      → (add_key {E = E} tenant key values (aware t) expected db).0 ≡ ok tt
      → (any
            (λ (k : KeyRow).
              same k.key_hash key || (same k.tenant_id tenant && same k.key_id (take 12 key)))
            db.api_keys
          ≡ false)
        × (check_digest {E = E} key ≡ ok key)
        × (contains tenant db.tenants ≡ true)
        × ((add_key {E = E} tenant key values (aware t) expected db).1
            ≡ record db { api_keys = db.api_keys ++ new_row tenant key scopes t ∷ [] })
  unfolding add_key insert_key require_tenant require_key check_tenant_id check_digest utc
  add_key-eq-ok tenant key values scopes t expected db s e = ground (arith, s, e)

  authenticate-add_key :
      (tenant key : Text) (values scopes : List Text) (t : Instant) (expected : Option Text)
      (db : Database)
      → check_scopes {E = E} values ≡ ok scopes
      → (add_key {E = E} tenant key values (aware t) expected db).0 ≡ ok tt
      → (authenticate {E = E} key (add_key {E = E} tenant key values (aware t) expected db).1).0
        ≡ ok (some (key_record tenant key scopes t))
  unfolding authenticate find_key
  authenticate-add_key tenant key values scopes t expected db s e =
      let (fresh, digest, there, after) =
        add_key-eq-ok tenant key values scopes t expected db s e in
      let no_hash = no_conflict-any tenant key (take 12 key) db.api_keys fresh in
      let db' = (add_key {E = E} tenant key values (aware t) expected db).1 in
      let found : find? (λ (k : KeyRow). same k.key_hash key && contains k.tenant_id db'.tenants)
            db'.api_keys
          ≡ some (new_row tenant key scopes t) =
        rw (after, find-append, no_hash-find key db.tenants db.api_keys no_hash)
          (ground (arith, there)) in
      rw (digest, found, authenticate) refl

  add_key-scopes :
      (tenant key : Text) (values : List Text) (t : Instant) (expected : Option Text)
      (db : Database)
      → (add_key {E = E} tenant key values (aware t) expected db).0 ≡ ok tt
      → (scopes : List Text) × (check_scopes {E = E} values ≡ ok scopes)
  unfolding add_key check_tenant_id check_digest
  add_key-scopes tenant key values t expected db e =
      elim (Result-cases (check_scopes {E = E} values)) [
        | inl found ↦ found
        | inr (error, s) ↦ absurd (ground (arith, s, e))
      ]

  check_scopes-eq-ok :
      (values scopes : List Text)
      → check_scopes {E = E} values ≡ ok scopes
      → sort_by text_le values ≡ scopes
  unfolding check_scopes
  check_scopes-eq-ok values scopes e = ground (arith, e)

  -- Where a key has been added, it authenticates as a key of that tenant, and its scopes are those that
  -- were asked for, as many, and in the order of their texts.
  pub added_key_authenticates :
      (tenant key : Text) (values : List Text) (t : Instant) (expected : Option Text)
      (db : Database)
      → (add_key {E = E} tenant key values (aware t) expected db).0 ≡ ok tt
      → (scopes : List Text) × ((authenticate {E = E} key
            (add_key {E = E} tenant key values (aware t) expected db).1).0
          ≡ ok (some (key_record tenant key scopes t)))
        × IsSorted scopes
        × (length scopes ≡ length values)
        × ((scope : Text) → mem_text scope scopes ≡ mem_text scope values)
  added_key_authenticates tenant key values t expected db e =
      let (scopes, s) = add_key-scopes tenant key values t expected db e in
      let sorted = check_scopes-eq-ok values scopes s in
      (
        scopes,
        authenticate-add_key tenant key values scopes t expected db s e,
        subst IsSorted sorted (sort_by-IsSorted values),
        ap length (sym sorted) ∙ length-sort_by text_le values,
        λ scope. ap (mem_text scope) (sym sorted) ∙ mem_text-sort_by scope values,
      )
