-- ===== src/Attestation/Values.antt =====
-- The values that JSON has in Python, as src/reliamesh/solana_attest.py tests them.
use reliamesh.Prelude.{
  ℕ, suc, Bool, true, false, Option, none, some, Text, leb, if◌then◌else◌, not, ◌&&◌,
}
use reliamesh.Storage.Sqlite.Tables.{same}

mutual
  pub data Value : Type 0 where
    null : Value
    boolean : Bool → Value
    integer : ℕ → Value
    -- `negative n` is -(n + 1)
    negative : ℕ → Value
    -- a float, and `constant` for NaN and the infinities
    number : Text → Value
    constant : Value
    string : Text → Value
    array : Values → Value
    object : Members → Value

  pub data Values : Type 0 where
    end : Values
    item : Value → Values → Values

  pub data Members : Type 0 where
    close : Members
    member : Text → Value → Members → Members

-- `d.get(k)`
unfoldable pub get : Text → Members → Option Value
get k close = none
get k (member j v d) = if same k j then some v else get k d

unfoldable pub has : Text → Members → Bool
has k d = elim (get k d) [ none ↦ false | some _ ↦ true ]

unfoldable pub count : Values → ℕ
count end = 0
count (item v vs) = suc (count vs)

-- `v == t`, for a text
unfoldable pub is_text : Text → Value → Bool
is_text t (string s) = same s t
is_text t _ = false

unfoldable pub is_null : Value → Bool
is_null null = true
is_null _ = false

-- a value of a type, where it is one
unfoldable pub as_object : Value → Option Members
as_object (object d) = some d
as_object _ = none

unfoldable pub as_array : Value → Option Values
as_array (array vs) = some vs
as_array _ = none

unfoldable pub as_text : Value → Option Text
as_text (string t) = some t
as_text _ = none

-- `type(value) is int and 0 <= value <= maximum`
unfoldable pub as_integer : ℕ → Value → Option ℕ
as_integer maximum (integer n) = if leb n maximum then some n else none
as_integer maximum _ = none

unfoldable pub get_as {ℓ} : {A : Type ℓ} → (Value → Option A) → Text → Members → Option A
get_as f k d = elim (get k d) [ none ↦ none | some v ↦ f v ]

-- `d[k] == t`, for a text, where the object has it
unfoldable pub has_text : Text → Text → Members → Bool
has_text k t d = elim (get k d) [ none ↦ false | some v ↦ is_text t v ]

-- `k in d and d[k] is None`
unfoldable pub has_null : Text → Members → Bool
has_null k d = elim (get k d) [ none ↦ false | some v ↦ is_null v ]

-- `vs[0]`, where it is all
unfoldable pub only : Values → Option Value
only (item v end) = some v
only _ = none

unfoldable mutual
  -- Whether no object repeats a member and no constant stands in the value: where `_unique_object`
  -- and `_invalid_number` raise nothing.
  pub is_accepted : Value → Bool
  is_accepted constant = false
  is_accepted (array vs) = are_accepted vs
  is_accepted (object d) = is_unique d
  is_accepted _ = true

  pub are_accepted : Values → Bool
  are_accepted end = true
  are_accepted (item v vs) = is_accepted v && are_accepted vs

  pub is_unique : Members → Bool
  is_unique close = true
  is_unique (member k v d) = is_accepted v && (not (has k d) && is_unique d)
