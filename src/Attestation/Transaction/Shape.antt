-- ===== src/Attestation/Transaction/Shape.antt =====
-- What the decoders and `_message` of src/reliamesh/solana_attest.py give where they return.
use reliamesh.Prelude.{
  ℕ, zero, suc, ◌+◌, ◌≤◌, ◌≡◌, refl, sym, ap, ◌∙◌, true, List, [], ◌∷◌, ◌++◌, Text, text_dec,
  length, take, drop, all_chars, in_range, All, ltb, ok, arith, All-append, length-append,
  Option-cases, inl, inr,
}
use reliamesh.Prelude.Digits.{digits, value, digits-All}
use reliamesh.Storage.Common.{is_hex}
use reliamesh.Storage.Sqlite.Tables.{same}
use reliamesh.Attestation.Base58.{
  Bytes, encode58, decode58, number_from, leading, repeat, digit_of, index_from, character,
}
use reliamesh.Attestation.Base58.RoundTrip.{IsByte}
use reliamesh.Attestation.Base64.{b64encode, decode64}
use reliamesh.Attestation.Transaction.{
  check_commitment, message, instruction, memo_prefix, memo_program,
}

module _ {ℓ} {A : Type ℓ} where
  pub take-append : (n : ℕ) (xs ys : List A) → length xs ≡ n → take n (xs ++ ys) ≡ xs
  unfolding take
  take-append zero [] ys e = refl
  take-append zero (x ∷ xs) ys e = absurd (omega (arith, e))
  take-append (suc n) [] ys e = absurd (omega (arith, e))
  take-append (suc n) (x ∷ xs) ys e = ap (λ zs. x ∷ zs) (take-append n xs ys (omega (arith, e)))

  pub drop-append : (n : ℕ) (xs ys : List A) → length xs ≡ n → drop n (xs ++ ys) ≡ ys
  unfolding drop
  drop-append zero [] ys e = refl
  drop-append zero (x ∷ xs) ys e = absurd (omega (arith, e))
  drop-append (suc n) [] ys e = absurd (omega (arith, e))
  drop-append (suc n) (x ∷ xs) ys e = drop-append n xs ys (omega (arith, e))

  -- Two splits of a list at the same place are the same.
  pub append-cancel :
      (n : ℕ) (xs ys zs ws : List A)
      → length xs ≡ n
      → length zs ≡ n
      → xs ++ ys ≡ zs ++ ws
      → (xs ≡ zs) × (ys ≡ ws)
  append-cancel n xs ys zs ws e f same_list = (
    sym (take-append n xs ys e) ∙ ap (take n) same_list ∙ take-append n zs ws f,
    sym (drop-append n xs ys e) ∙ ap (drop n) same_list ∙ drop-append n zs ws f,
  )

repeat-IsByte : (k : ℕ) → All IsByte (repeat k 0)
unfolding repeat
repeat-IsByte zero = tt
repeat-IsByte (suc k) = (omega arith, repeat-IsByte k)

-- A text that `_decode58` accepts is the encoding of what it returns.
pub decode58_sound :
    (size : ℕ) (encoded : Text) (bytes : Bytes)
    → decode58 size encoded ≡ ok bytes
    → (length bytes ≡ size) × (encode58 bytes ≡ encoded)
unfolding decode58
decode58_sound size encoded bytes h = ground (arith, h)

pub decode58-IsByte :
    (size : ℕ) (encoded : Text) (bytes : Bytes)
    → decode58 size encoded ≡ ok bytes
    → All IsByte bytes
unfolding decode58
decode58-IsByte size encoded bytes h = elim (Option-cases (number_from 0 encoded)) [
  | inl nothing ↦ absurd (ground (arith, h, nothing))
  | inr (n, e) ↦
      (let whole : repeat (leading b'1' encoded) 0 ++ digits 256 88 n [] ≡ bytes =
          ground (arith, h, e) in
        rw (sym whole) (
          All-append IsByte (repeat (leading b'1' encoded) 0) (digits 256 88 n [])
            (repeat-IsByte (leading b'1' encoded)) (digits-All 256 (omega arith) 88 n [] tt)))
]

pub decode64_sound :
    (limit : ℕ) (encoded : Text) (bytes : Bytes)
    → decode64 limit encoded ≡ ok bytes
    → (length bytes ≤ limit) × (b64encode bytes ≡ encoded)
unfolding decode64
decode64_sound limit encoded bytes h = ground (arith, h)

pub check_commitment_sound :
    (digest : Text) (bytes : Bytes)
    → check_commitment digest ≡ ok bytes
    → (bytes ≡ digest) × (length digest ≡ 64)
unfolding check_commitment
check_commitment_sound digest bytes h = ground (arith, h)

pub same-eq : (a b : Text) → same a b ≡ true → a ≡ b
same-eq a b h = ground (arith, h)

pub same_refl : (a : Text) → same a a ≡ true
same_refl a = ground arith

-- The Memo program's id in bytes.
unfoldable pub program_id : Bytes
program_id =
    5 ∷ 74 ∷ 83 ∷ 90 ∷ 153 ∷ 41 ∷ 33 ∷ 6 ∷ 77 ∷ 36 ∷ 232 ∷ 113 ∷ 96 ∷ 218 ∷ 56 ∷ 124 ∷ 124 ∷ 53
    ∷ 181 ∷ 221 ∷ 188 ∷ 146 ∷ 187 ∷ 129 ∷ 228 ∷ 31 ∷ 168 ∷ 64 ∷ 65 ∷ 5 ∷ 68 ∷ 141 ∷ []

decode58-program : decode58 32 memo_program ≡ ok program_id
unfolding decode58 number_from digit_of index_from leading repeat digits value encode58 character
    text_dec program_id
decode58-program = refl

length-program_id : length program_id ≡ 32
unfolding program_id
length-program_id = refl

-- the message of checked arguments
unfoldable pub message_bytes : Text → Bytes → Bytes → Bytes
message_bytes digest signer blockhash =
    1 ∷ 0 ∷ 1 ∷ 2 ∷ (signer ++ (program_id ++ (blockhash ++ instruction (memo_prefix ++ digest))))

pub message_sound :
    (digest : Text) (signer blockhash body : Bytes)
    → message digest signer blockhash ≡ ok body
    → (body ≡ message_bytes digest signer blockhash)
      × (length digest ≡ 64)
      × (length signer ≡ 32)
      × (length blockhash ≡ 32)
unfolding message check_commitment message_bytes
message_sound digest signer blockhash body h = ground (arith, h, decode58-program)

pub message-commitment :
    (digest : Text) (signer blockhash body : Bytes)
    → message digest signer blockhash ≡ ok body
    → all_chars is_hex digest ≡ true
unfolding message check_commitment
message-commitment digest signer blockhash body h = ground (arith, h, decode58-program)

pub message-ok :
    (digest : Text) (signer blockhash : Bytes)
    → check_commitment digest ≡ ok digest
    → length signer ≡ 32
    → length blockhash ≡ 32
    → message digest signer blockhash ≡ ok (message_bytes digest signer blockhash)
unfolding message message_bytes
message-ok digest signer blockhash c s b = ground (arith, c, s, b, decode58-program)

pub drop-add :
    (n : ℕ) (xs ys : Bytes) (m k : ℕ) → length xs ≡ n → m ≡ n + k → drop m (xs ++ ys) ≡ drop k ys
unfolding drop
drop-add zero [] ys m k e f = ap (λ i. drop i ys) (omega (arith, f))
drop-add zero (x ∷ xs) ys m k e f = absurd (omega (arith, e))
drop-add (suc n) [] ys m k e f = absurd (omega (arith, e))
drop-add (suc n) (x ∷ xs) ys zero k e f = absurd (omega (arith, f))
drop-add (suc n) (x ∷ xs) ys (suc m) k e f =
    drop-add n xs ys m k (omega (arith, e)) (omega (arith, f))

-- The blockhash of a message is where `_verify_wire` takes it.
pub message_bytes-blockhash :
    (digest : Text) (signer blockhash : Bytes)
    → length signer ≡ 32
    → length blockhash ≡ 32
    → take 32 (drop 68 (message_bytes digest signer blockhash)) ≡ blockhash
unfolding message_bytes
message_bytes-blockhash digest signer blockhash s b =
    let rest = instruction (memo_prefix ++ digest) in
    ap (take 32) (
      drop-add 4 (1 ∷ 0 ∷ 1 ∷ 2 ∷ []) (signer ++ (program_id ++ (blockhash ++ rest))) 68 64 refl
        refl
      ∙ drop-add 32 signer (program_id ++ (blockhash ++ rest)) 64 32 s refl
      ∙ drop-append 32 program_id (blockhash ++ rest) length-program_id)
    ∙ take-append 32 blockhash rest b

-- The signer and the commitment, where `_validate_write` takes them.
pub message_bytes-signer :
    (digest : Text) (signer blockhash : Bytes)
    → length signer ≡ 32
    → take 32 (drop 4 (message_bytes digest signer blockhash)) ≡ signer
unfolding message_bytes
message_bytes-signer digest signer blockhash s =
    let rest = program_id ++ (blockhash ++ instruction (memo_prefix ++ digest)) in
    ap (take 32) (drop-append 4 (1 ∷ 0 ∷ 1 ∷ 2 ∷ []) (signer ++ rest) refl)
    ∙ take-append 32 signer rest s

pub message_bytes-digest :
    (digest : Text) (signer blockhash : Bytes)
    → length signer ≡ 32
    → length blockhash ≡ 32
    → drop 132 (message_bytes digest signer blockhash) ≡ digest
unfolding message_bytes instruction
message_bytes-digest digest signer blockhash s b =
    let rest = instruction (memo_prefix ++ digest) in
    drop-add 4 (1 ∷ 0 ∷ 1 ∷ 2 ∷ []) (signer ++ (program_id ++ (blockhash ++ rest))) 132 128 refl
      refl
    ∙ drop-add 32 signer (program_id ++ (blockhash ++ rest)) 128 96 s refl
    ∙ drop-add 32 program_id (blockhash ++ rest) 96 64 length-program_id refl
    ∙ drop-add 32 blockhash rest 64 32 b refl
    ∙ drop-append 32 (1 ∷ 1 ∷ 1 ∷ 0 ∷ length (memo_prefix ++ digest) ∷ memo_prefix) digest refl

pub length-message_bytes :
    (digest : Text) (signer blockhash : Bytes)
    → length digest ≡ 64
    → length signer ≡ 32
    → length blockhash ≡ 32
    → length (message_bytes digest signer blockhash) ≡ 196
unfolding message_bytes instruction
length-message_bytes digest signer blockhash d s b =
    let rest = instruction (memo_prefix ++ digest) in
    omega (
      arith,
      length-append signer (program_id ++ (blockhash ++ rest)),
      length-append program_id (blockhash ++ rest),
      length-append blockhash rest,
      length-append memo_prefix digest,
      length-program_id,
      d,
      s,
      b,
    )

-- Messages with the same bytes have the same commitment and the same signer.
pub message_bytes-injective :
    (d e : Text) (s t b c : Bytes)
    → length s ≡ 32
    → length t ≡ 32
    → length b ≡ 32
    → length c ≡ 32
    → message_bytes d s b ≡ message_bytes e t c
    → (d ≡ e) × (s ≡ t)
unfolding message_bytes instruction
message_bytes-injective d e s t b c ls lt_ lb lc same_bytes =
    let memo = instruction (memo_prefix ++ d) in
    let memo' = instruction (memo_prefix ++ e) in
    let head : Bytes = 1 ∷ 0 ∷ 1 ∷ 2 ∷ [] in
    let (_, bodies) =
      append-cancel 4 head (s ++ (program_id ++ (b ++ memo))) head
        (t ++ (program_id ++ (c ++ memo'))) refl refl same_bytes in
    let (signers, rest) =
      append-cancel 32 s (program_id ++ (b ++ memo)) t (program_id ++ (c ++ memo')) ls lt_ bodies in
    let (_, blocks) =
      append-cancel 32 program_id (b ++ memo) program_id (c ++ memo') length-program_id
        length-program_id rest in
    let (_, memos) = append-cancel 32 b memo c memo' lb lc blocks in
    let (_, digests) =
      append-cancel 32 (1 ∷ 1 ∷ 1 ∷ 0 ∷ length (memo_prefix ++ d) ∷ memo_prefix) d
        (1 ∷ 1 ∷ 1 ∷ 0 ∷ length (memo_prefix ++ e) ∷ memo_prefix) e refl refl memos in
    (digests, signers)

pub all_bytes-IsByte : (bytes : Bytes) → all_chars (λ c. ltb c 256) bytes ≡ true → All IsByte bytes
all_bytes-IsByte [] h = tt
all_bytes-IsByte (c ∷ bytes) h = ground (arith, h, all_bytes-IsByte bytes)

is_hex-IsByte : (digest : Text) → all_chars is_hex digest ≡ true → All IsByte digest
unfolding is_hex in_range
is_hex-IsByte [] h = tt
is_hex-IsByte (c ∷ digest) h = ground (arith, h, is_hex-IsByte digest)

pub check_commitment-IsByte :
    (digest : Text) → check_commitment digest ≡ ok digest → All IsByte digest
unfolding check_commitment
check_commitment-IsByte digest h = is_hex-IsByte digest (ground (arith, h))

pub message_bytes-IsByte :
    (digest : Text) (signer blockhash : Bytes)
    → length digest ≡ 64
    → All IsByte digest
    → All IsByte signer
    → All IsByte blockhash
    → All IsByte (message_bytes digest signer blockhash)
unfolding message_bytes instruction program_id
message_bytes-IsByte digest signer blockhash n d s b =
    let memo = memo_prefix ++ digest in
    let rest : All IsByte (length memo ∷ memo) = (
      omega (arith, length-append memo_prefix digest, n),
      All-append IsByte memo_prefix digest (all_bytes-IsByte memo_prefix refl) d,
    ) in
    let head : Bytes = 1 ∷ 0 ∷ 1 ∷ 2 ∷ [] in
    let call : Bytes = 1 ∷ 1 ∷ 1 ∷ 0 ∷ [] in
    All-append IsByte head (signer ++ (program_id ++ (blockhash ++ instruction memo)))
      (all_bytes-IsByte head refl)
      (All-append IsByte signer (program_id ++ (blockhash ++ instruction memo)) s (
        All-append IsByte program_id (blockhash ++ instruction memo)
          (all_bytes-IsByte program_id refl)
          (All-append IsByte blockhash (instruction memo) b
            (All-append IsByte call (length memo ∷ memo) (all_bytes-IsByte call refl) rest))))
