-- ===== src/Sdk/Attributes.antt =====
-- The members that `event` and `from_otel_attributes` of sdk/python/src/reliamesh_sdk/events.py join.
use reliamesh.Prelude.{
  ◌≡◌, refl, sym, Bool, true, false, Option, none, some, List, [], ◌∷◌, ◌++◌, Text, text, text_dec,
  not, ◌&&◌, if◌then◌else◌, arith, Option-cases, inl, inr,
}
use mathlib.Core.Path.{subst}
use reliamesh.Detection.Prune.{mem_text}
use reliamesh.Storage.Sqlite.Tables.{same}
use reliamesh.Attestation.Values.{Value, string, Members, member, close, get, get_as, as_text}
use reliamesh.Sdk.Events.{
  joined, with_failure, event_members, otel_fields, otel_operation, selected, with_latency,
}

-- The operation of an event, by `gen_ai.operation.name`.
pub data IsOperation : Text → Text → Type 0 where
  chat : IsOperation (text "chat") (text "model")
  text_completion : IsOperation (text "text_completion") (text "model")
  generate_content : IsOperation (text "generate_content") (text "model")
  embeddings : IsOperation (text "embeddings") (text "model")
  invoke_agent : IsOperation (text "invoke_agent") (text "agent")
  execute_tool : IsOperation (text "execute_tool") (text "tool")

known :
    {n o name operation : Text}
    → IsOperation n o
    → name ≡ n
    → operation ≡ o
    → IsOperation name operation
known {n = n} {operation = operation} is e f =
    subst (λ m. IsOperation m operation) (sym e) (subst (IsOperation n) (sym f) is)

pub otel_operation-IsOperation :
    (name operation : Text) → otel_operation name ≡ some operation → IsOperation name operation
unfolding otel_operation
otel_operation-IsOperation name operation e = elim (text_dec name (text "chat")) [
  | yes y ↦ known chat y (ground (arith, y, e))
  | no n0 ↦ elim (text_dec name (text "text_completion")) [
    | yes y ↦ known text_completion y (ground (arith, n0, y, e))
    | no n1 ↦ elim (text_dec name (text "generate_content")) [
      | yes y ↦ known generate_content y (ground (arith, n0, n1, y, e))
      | no n2 ↦ elim (text_dec name (text "embeddings")) [
        | yes y ↦ known embeddings y (ground (arith, n0, n1, n2, y, e))
        | no n3 ↦ elim (text_dec name (text "invoke_agent")) [
          | yes y ↦ known invoke_agent y (ground (arith, n0, n1, n2, n3, y, e))
          | no n4 ↦ elim (text_dec name (text "execute_tool")) [
            | yes y ↦ known execute_tool y (ground (arith, n0, n1, n2, n3, n4, y, e))
            | no n5 ↦ absurd (ground (arith, n0, n1, n2, n3, n4, n5, e))
          ]
        ]
      ]
    ]
  ]
]

-- the attributes that go to a field
unfoldable pub sources : Text → List (Text × Text) → List Text
sources k [] = []
sources k (e ∷ names) = let rest = sources k names in if same k e.1 then e.0 ∷ rest else rest

pub get-selected_none :
    (k : Text) (names : List (Text × Text)) (a rest : Members)
    → sources k names ≡ []
    → get k (selected names a rest) ≡ get k rest
unfolding sources selected get
get-selected_none k [] a rest e = refl
get-selected_none k (n ∷ names) a rest e = elim (text_dec k n.1) [
  | yes y ↦ absurd (ground (arith, y, e))
  | no y ↦ elim (Option-cases (get n.0 a)) [
    | inl z ↦ ground (arith, y, z, e, get-selected_none k names a rest)
    | inr (v, z) ↦ ground (arith, y, z, e, get-selected_none k names a rest)
  ]
]

pub get-selected :
    (k s : Text) (names : List (Text × Text)) (a rest : Members)
    → sources k names ≡ s ∷ []
    → get k rest ≡ none
    → get k (selected names a rest) ≡ get s a
unfolding sources selected get
get-selected k s [] a rest e absent = cc
get-selected k s (n ∷ names) a rest e absent = elim (text_dec k n.1) [
  | yes y ↦
      let only : sources k names ≡ [] = ground (arith, y, e) in
      let here : n.0 ≡ s = ground (arith, y, e) in
      let after = get-selected_none k names a rest only in
      elim (Option-cases (get n.0 a)) [
        | inl z ↦ ground (arith, y, z, here, after, absent)
        | inr (v, z) ↦ ground (arith, y, z, here)
      ]
  | no y ↦ elim (Option-cases (get n.0 a)) [
    | inl z ↦ ground (arith, y, z, e, get-selected k s names a rest, absent)
    | inr (v, z) ↦ ground (arith, y, z, e, get-selected k s names a rest, absent)
  ]
]

pub get-joined_other :
    (k : Text) (d more : Members) → get k d ≡ none → get k (joined d more) ≡ get k more
unfolding joined get
get-joined_other k close more e = refl
get-joined_other k (member j v d) more e = ground (arith, e, get-joined_other k d more)

pub get-joined_there :
    (k : Text) (v : Value) (d more : Members) → get k d ≡ some v → get k (joined d more) ≡ some v
unfolding joined get
get-joined_there k v close more e = cc
get-joined_there k v (member j w d) more e = ground (arith, e, get-joined_there k v d more)

-- the fields that `event` sets itself
abbrev pub own_fields : List Text
own_fields =
    text "schema_version"
    ∷ text "event_id"
    ∷ text "timestamp"
    ∷ text "deployment_id"
    ∷ text "agent_id"
    ∷ text "operation"
    ∷ text "outcome"
    ∷ text "synthetic"
    ∷ text "failure_type"
    ∷ []

abbrev pub is_only : Text → List Text → Bool
is_only s (t ∷ []) = same t s
is_only s _ = false

-- whether a field is filled from one attribute alone
unfoldable pub is_renamed : Text → Text → Bool
is_renamed k s =
    not (mem_text k own_fields)
    && (not (same k (text "latency_ms")) && is_only s (sources k otel_fields))

pub only_one : (s : Text) (ss : List Text) → is_only s ss ≡ true → ss ≡ s ∷ []
only_one s [] e = cc
only_one s (t ∷ []) e = ground (arith, e)
only_one s (t ∷ u ∷ ss) e = cc

pub text_there :
    (k t : Text) (d : Members) → get_as as_text k d ≡ some t → get k d ≡ some (string t)
unfolding get_as as_text
text_there k t d e = elim (Option-cases (get k d)) [
  | inl none_ ↦ absurd (ground (arith, none_, e))
  | inr (string u, there) ↦ ground (arith, there, e)
  | inr (v, there) ↦ absurd (ground (arith, there, e))
]

pub apart_own :
    (k : Text)
    → mem_text k own_fields ≡ false
    → (same k (text "event_id") ≡ false) × (same k (text "timestamp") ≡ false)
unfolding mem_text
apart_own k e = (ground (arith, e), ground (arith, e))

-- the keys of an object
unfoldable keys_of : Members → List Text
keys_of close = []
keys_of (member k v d) = k ∷ keys_of d

get_absent : (k : Text) (d : Members) → mem_text k (keys_of d) ≡ false → get k d ≡ none
unfolding keys_of mem_text get
get_absent k close e = refl
get_absent k (member j v d) e = ground (arith, e, get_absent k d)

mem_text-left :
    (k : Text) (xs ys : List Text) → mem_text k (xs ++ ys) ≡ false → mem_text k xs ≡ false
unfolding mem_text
mem_text-left k [] ys e = refl
mem_text-left k (x ∷ xs) ys e = ground (arith, e, mem_text-left k xs ys)

pub get-with_latency :
    (k : Text) (o : Option Value)
    → same k (text "latency_ms") ≡ false
    → get k (with_latency o) ≡ none
unfolding with_latency get
get-with_latency k none e = refl
get-with_latency k (some v) e = ground (arith, e)

pub latency_itself : (o : Option Value) → get (text "latency_ms") (with_latency o) ≡ o
unfolding with_latency get text_dec
latency_itself none = refl
latency_itself (some v) = refl

module _ (id time : Text) (deployment agent operation outcome synthetic : Value) where
  pub members_none :
      (failure : Option Value) (k : Text)
      → mem_text k own_fields ≡ false
      → get k (event_members id time deployment agent operation outcome failure synthetic) ≡ none
  unfolding event_members keys_of with_failure
  members_none none k e = get_absent k _ (mem_text-left k _ (text "failure_type" ∷ []) e)
  members_none (some v) k e = get_absent k _ e

  pub failure_joined :
      (failure : Option Value) (more : Members)
      → get (text "failure_type") more ≡ none
      → get
          (text "failure_type")
          (joined (event_members id time deployment agent operation outcome failure synthetic) more)
        ≡ failure
  unfolding event_members with_failure joined get text_dec
  failure_joined none more e = e
  failure_joined (some v) more e = refl
