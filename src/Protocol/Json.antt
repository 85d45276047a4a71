-- ===== src/Protocol/Json.antt =====
-- `json.dumps(value, sort_keys=True, separators=(",", ":"), ensure_ascii=True)` of the flat objects
-- that `canonical_hash` of src/reliamesh/protocol.py is given.
use reliamesh.Prelude.{
  ℕ, zero, suc, ◌+◌, ◌-◌, ◌/◌, ◌%◌, Bool, true, false, ◌&&◌, [], ◌∷◌, ◌++◌, Text, text, text_le,
  ◌≡◌, refl, ltb, leb, ◌==◌, if◌then◌else◌,
}
use reliamesh.Prelude.Dict.{Dict}
use reliamesh.Host.{Host}

-- A JSON value that is no container. A float is its text.
pub data Scalar : Type 0 where
  null : Scalar
  boolean : Bool → Scalar
  integer : ℕ → Scalar
  number : Text → Scalar
  string : Text → Scalar

-- The digits of `n` before `rest`; `fuel` above `n` is enough.
decimal_onto : ℕ → ℕ → Text → Text
decimal_onto zero n rest = rest
decimal_onto (suc fuel) n rest =
    let more = decimal_onto fuel (n / 10) ((48 + n % 10) ∷ rest) in
    if ltb n 10 then (48 + n) ∷ rest else more

unfoldable pub decimal_text : ℕ → Text
unfolding decimal_onto
decimal_text n = decimal_onto (suc n) n []

hex_digit : ℕ → ℕ
hex_digit d = if ltb d 10 then 48 + d else 87 + d

-- `\uXXXX` of one UTF-16 unit
unicode_escape : ℕ → Text
unfolding hex_digit
unicode_escape u =
    92
    ∷ 117
    ∷ hex_digit (u / 4096 % 16)
    ∷ hex_digit (u / 256 % 16)
    ∷ hex_digit (u / 16 % 16)
    ∷ hex_digit (u % 16)
    ∷ []

unfoldable pub escape : ℕ → Text
unfolding unicode_escape
escape c =
    if c == 34
    then 92 ∷ 34 ∷ []
    else if c == 92
    then 92 ∷ 92 ∷ []
    else if c == 10
    then 92 ∷ 110 ∷ []
    else if c == 13
    then 92 ∷ 114 ∷ []
    else if c == 9
    then 92 ∷ 116 ∷ []
    else if c == 12
    then 92 ∷ 102 ∷ []
    else if c == 8
    then 92 ∷ 98 ∷ []
    else if leb 32 c && leb c 126
    then c ∷ []
    else if ltb c 65536
    then unicode_escape c
    else unicode_escape (55296 + (c - 65536) / 1024 % 1024)
      ++ unicode_escape (56320 + (c - 65536) % 1024)

escape_all : Text → Text
unfolding escape
escape_all [] = []
escape_all (c ∷ cs) = escape c ++ escape_all cs

unfoldable pub quote : Text → Text
unfolding escape_all
quote s = 34 ∷ escape_all s ++ 34 ∷ []

unfoldable pub scalar_text : Scalar → Text
unfolding quote decimal_text
scalar_text null = text "null"
scalar_text (boolean true) = text "true"
scalar_text (boolean false) = text "false"
scalar_text (integer n) = decimal_text n
scalar_text (number t) = t
scalar_text (string t) = quote t

-- insertion by key, for `sort_keys`
insert_sorted {ℓ} : {V : Type ℓ} → Text × V → Dict V → Dict V
insert_sorted e [] = e ∷ []
insert_sorted e (x ∷ d) = if text_le e.0 x.0 then e ∷ x ∷ d else x ∷ insert_sorted e d

-- `sorted(d.items())`; the keys of a dict are distinct
unfoldable pub sort_keys {ℓ} : {V : Type ℓ} → Dict V → Dict V
unfolding insert_sorted text_le
sort_keys [] = []
sort_keys (e ∷ d) = insert_sorted e (sort_keys d)

member_text : Text × Scalar → Text
unfolding quote scalar_text
member_text (k, v) = quote k ++ 58 ∷ scalar_text v

members_text : Dict Scalar → Text
unfolding member_text
members_text [] = []
members_text (e ∷ []) = member_text e
members_text (e ∷ f ∷ d) = member_text e ++ 44 ∷ members_text (f ∷ d)

unfoldable pub dumps : Dict Scalar → Text
unfolding sort_keys members_text
dumps d = 123 ∷ members_text (sort_keys d) ++ 125 ∷ []

unfoldable pub canonical_hash : Host → Dict Scalar → Text
unfolding dumps
canonical_hash h value = h.sha256 (dumps value)

dumps_example :
    dumps
      ((text "b", boolean true) ∷ (text "a", integer 120) ∷ (text "c", string (text "x\"y")) ∷ [])
    ≡ text "{\"a\":120,\"b\":true,\"c\":\"x\\\"y\"}"
unfolding dumps
dumps_example = refl
