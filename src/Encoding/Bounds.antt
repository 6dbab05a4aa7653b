-- ===== src/Encoding/Bounds.antt =====
-- mnet/encoding.c: what the base 64 routines return and how much they store, on every branch.
use mathlib.Core.List.{reverse, reverse_aux}
use i2p_lite.Base.{
  ℕ, zero, suc, ◌+◌, ◌-◌, ◌*◌, ◌/◌, ◌%◌, ◌^◌, ◌≤◌, ◌<◌, ◌≡◌, refl, true, Bool-cases, ◌&&◌, [], ◌∷◌,
  none, some, inl, inr, Option-cases, arith, ◌∙◌,
}
use i2p_lite.Base.{ltb, ◌==◌, Bytes, length, length-replicate, if◌then◌else◌, replicate}
use i2p_lite.Encoding.{
  p64, encoding_buffer_size, encode, decode_groups, count_padding, decoded, too_long, underrun,
  decode_checked, decode,
}
use i2p_lite.Memory.Order.{length-reverse}
use i2p_lite.Encoding.RoundTrip.{
  FitsInt, length-encode_groups, decode-eq, encode-eq, encoding_buffer_size-eq, decode_checked-eq,
}

encode-short :
    (bs : Bytes) (len : ℕ)
    → FitsInt (length bs)
    → ltb len (4 * ((length bs + 2) / 3)) ≡ true
    → encode bs len ≡ record { count = 0; stored = [] }
unfolding encode
encode-short bs len small short =
    let n = length bs / 3 in
    let low : n % 2 ^ 32 ≡ n = omega arith in
    let count : (if length bs % 3 == 0 then 4 * n else 4 * (n + 1)) ≡ 4 * ((length bs + 2) / 3) =
      ground arith in
    let low4 : 4 * ((length bs + 2) / 3) % 2 ^ 32 ≡ 4 * ((length bs + 2) / 3) = omega arith in
    let less4 : ltb (4 * ((length bs + 2) / 3)) (2 ^ 31) ≡ true = ground arith in
    rw (low, count, low4, less4, short) refl

-- The encoder returns the announced size if that fits the output buffer, and 0 if not, for sizes that are
-- those of an `int`. It stores as many characters as it returns.
pub encode_sizes :
    (bs : Bytes) (len : ℕ)
    → FitsInt (length bs)
    → let size = encoding_buffer_size (length bs) in
      ((encode bs len).count ≡ (if ltb len size then 0 else size))
      × (length (encode bs len).stored ≡ (encode bs len).count)
encode_sizes bs len small = elim (Bool-cases (ltb len (4 * ((length bs + 2) / 3)))) [
  | inl short ↦
      rw (encoding_buffer_size-eq (length bs) small, encode-short bs len small short, short)
        (refl, refl)
  | inr room ↦
      rw (encoding_buffer_size-eq (length bs) small, encode-eq bs len small (ground arith), room)
        (refl, length-encode_groups bs)
]

-- The bytes that the decoder's loop stores: with whole groups of padding at the end it stores one
-- byte behind the end that it was given.
abbrev pub overrun : (n left : ℕ) → ℕ
overrun n left = if (left % 3 == 0) && ltb left (3 * n) then 1 else 0

length-decode_groups :
    (left : ℕ) (input : Bytes) (n : ℕ)
    → length input ≡ 4 * n
    → left ≤ 3 * n
    → length (decode_groups left input) ≡ left + overrun n left
unfolding decode_groups
length-decode_groups left [] n e h = ground arith
length-decode_groups left (a ∷ []) n e h = absurd (omega arith)
length-decode_groups left (a ∷ b ∷ []) n e h = absurd (omega arith)
length-decode_groups left (a ∷ b ∷ c ∷ []) n e h = absurd (omega arith)
length-decode_groups left (a ∷ b ∷ c ∷ d ∷ rest) n e h =
    ground (arith, length-decode_groups (left - 3) rest (n - 1))

-- On `n` groups of four, of which the last `pad` characters are padding, and with room for the
-- result, the decoder returns 3 * n - pad. It stores as many bytes, and one byte more if these are
-- whole groups of three and not all.
pub decode_sizes :
    (input : Bytes) (len n pad : ℕ)
    → 0 < n
    → length input ≡ 4 * n
    → count_padding (reverse input) ≡ some pad
    → 3 * n < 2 ^ 31
    → pad ≤ 3 * n
    → 3 * n - pad ≤ len
    → (out : Bytes) × (decode input len ≡ decoded (3 * n - pad) out)
      × (length out ≡ 3 * n - pad + overrun n (3 * n - pad))
decode_sizes input len n pad pos e p small le fits = (
  decode_groups (3 * n - pad) input,
  (let four : length input / 4 ≡ n = omega arith in
      decode-eq input len pad (omega arith) (omega arith) (omega arith) p
      ∙ rw four
          (decode_checked-eq n pad len input (3 * n - pad) (omega arith) small (omega arith) fits)),
  length-decode_groups (3 * n - pad) input n e (omega arith),
)

-- What is stored against what is returned.
abbrev pub InBounds : ℕ → ℕ → Bytes → Type 0
InBounds len count out = (count ≤ len) × (count ≤ length out) × (length out ≤ count + 1)

count_padding-le : (cs : Bytes) (k : ℕ) → count_padding cs ≡ some k → k ≤ length cs
unfolding count_padding
count_padding-le [] k h = cc
count_padding-le (c ∷ cs) k h = elim (Bool-cases (c == p64)) [
  | inl e ↦ elim (Option-cases (count_padding cs)) [
    | inl e' ↦ ground arith
    | inr (j, e') ↦ let le = count_padding-le cs j e' in ground arith
  ]
  | inr e ↦ ground arith
]

-- With more padding than 3 * n the count wraps round, and is too long for any buffer.
decode_checked-wrapped :
    (n pad len : ℕ) (input : Bytes)
    → 3 * n < 2 ^ 31
    → 3 * n < pad
    → pad ≤ 4 * n
    → len < 2 ^ 63
    → decode_checked n pad len input ≡ too_long
unfolding decode_checked
decode_checked-wrapped n pad len input small more le room =
    let low : 3 * n % 2 ^ 32 ≡ 3 * n = omega arith in
    let less : ltb (3 * n) (2 ^ 31) ≡ true = ground arith in
    let big : (3 * n + (2 ^ 64 - pad % 2 ^ 64)) % 2 ^ 64 ≡ 3 * n + (2 ^ 64 - pad) = omega arith in
    let over : ltb len (3 * n + (2 ^ 64 - pad)) ≡ true = ground arith in
    rw (low, less, big, over) refl

decode_checked-short :
    (n pad len : ℕ) (input : Bytes)
    → 3 * n < 2 ^ 31
    → pad ≤ 3 * n
    → len < 3 * n - pad
    → decode_checked n pad len input ≡ too_long
unfolding decode_checked
decode_checked-short n pad len input small le short =
    let low : 3 * n % 2 ^ 32 ≡ 3 * n = omega arith in
    let less : ltb (3 * n) (2 ^ 31) ≡ true = ground arith in
    let count : (3 * n + (2 ^ 64 - pad % 2 ^ 64)) % 2 ^ 64 ≡ 3 * n - pad = omega arith in
    let over : ltb len (3 * n - pad) ≡ true = ground arith in rw (low, less, count, over) refl

decode_checked_bounds :
    (n pad len : ℕ) (input : Bytes) (count : ℕ) (out : Bytes)
    → 3 * n < 2 ^ 31
    → len < 2 ^ 63
    → pad ≤ 4 * n
    → length input ≡ 4 * n
    → decode_checked n pad len input ≡ decoded count out
    → InBounds len count out
decode_checked_bounds n pad len input count out small room le e h =
    elim (Bool-cases (ltb (3 * n) pad)) [
      | inl more ↦ let w = decode_checked-wrapped n pad len input small (ground arith) le room in cc
      | inr less ↦ elim (Bool-cases (ltb len (3 * n - pad))) [
        | inl short ↦
            let w = decode_checked-short n pad len input small (ground arith) (ground arith) in cc
        | inr fits ↦
            let w =
              decode_checked-eq n pad len input (3 * n - pad) (ground arith) small (omega arith)
                (ground arith) in
            let l = length-decode_groups (3 * n - pad) input n e (omega arith) in ground (arith, l)
      ]
    ]

-- A number of bytes that the decoder returns is at most the length of the output buffer, and it stores
-- at least as many bytes as it returns and at most one more, for an input whose groups of three bytes
-- are as many as an `int` holds, and a buffer of less than 2 ^ 63 bytes.
pub decode_bounds :
    (input : Bytes) (len : ℕ) {count : ℕ} {out : Bytes}
    → 3 * (length input / 4) < 2 ^ 31
    → len < 2 ^ 63
    → decode input len ≡ decoded count out
    → InBounds len count out
unfolding decode
decode_bounds input len {count} {out} small room h =
    let low : length input / 4 % 2 ^ 32 ≡ length input / 4 = omega arith in
    elim (Option-cases (count_padding (reverse input))) [
      | inl e ↦ ground arith
      | inr (pad, e) ↦
          let le = count_padding-le (reverse input) pad e in
          let same = length-reverse input in
          ground (
            arith,
            decode_checked_bounds (length input / 4) pad len input count out small room,
            le,
            same,
          )
    ]

count_padding-replicate :
    (n m : ℕ) → count_padding (reverse_aux (replicate n p64) (replicate m p64)) ≡ none
unfolding count_padding
count_padding-replicate zero zero = refl
count_padding-replicate zero (suc m) = rw (count_padding-replicate zero m)
count_padding-replicate (suc n) m = count_padding-replicate n (suc m)

-- On an input of padding alone the decoder reads before its start.
pub decode-padding : (n len : ℕ) → decode (replicate (4 * suc n) p64) len ≡ underrun
unfolding decode
decode-padding n len =
    let input = replicate (4 * suc n) p64 in
    let size : length input ≡ 4 * suc n = length-replicate (4 * suc n) p64 in
    ground (arith, count_padding-replicate (4 * suc n) 0)
