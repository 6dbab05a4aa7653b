-- ===== src/Encoding/RoundTrip.antt =====
-- mnet/encoding.c: the base 64 decoder takes back what the encoder writes.
use mathlib.Core.List.{reverse-append}
use i2p_lite.Base.{
  ℕ, suc, ◌+◌, ◌-◌, ◌*◌, ◌/◌, ◌%◌, ◌^◌, ◌≤◌, ◌<◌, ◌≡◌, refl, true, false, [], ◌∷◌, ◌++◌, some,
  Option-cases, inl, inr, reverse, arith, ap, ◌∙◌,
}
use i2p_lite.Base.{ltb, ◌==◌, if◌then◌else◌, Bytes, AllBytes, length, take, take-all}
use i2p_lite.Encoding.{
  t64, it64, p64, Encoded, digit1, digit2, digit3, digit4, last_digit2, last_digit3, byte1, byte2,
  byte3, encoding_buffer_size, encode_groups, encode, encode_str, decode_groups, count_padding,
  decoded, decode_checked, decode, decode_str,
}
use i2p_lite.Encoding.Digits.{
  digit1-eq, digit2-eq, digit3-eq, digit4-eq, last_digit2-eq, last_digit3-eq, byte1-eq, byte2-eq,
  byte3-eq, last_digit2_or, it64-t64, t64-ne-p64,
}

-- The first byte of a group, from its first two digits.
first_byte :
    (a e : ℕ) → a < 256 → e < 64 → e / 16 ≡ a % 4 → byte1 (it64 (t64 (digit1 a))) (it64 (t64 e)) ≡ a
first_byte a e ha he h =
    ground (arith, digit1-eq a ha, it64-t64 (a / 4), it64-t64 e, byte1-eq (a / 4) e)

second_byte :
    (b e f : ℕ)
    → b < 256
    → e < 64
    → f < 64
    → e % 16 ≡ b / 16
    → f / 4 ≡ b % 16
    → byte2 (it64 (t64 e)) (it64 (t64 f)) ≡ b
second_byte b e f hb he hf p q = ground (arith, it64-t64 e, it64-t64 f, byte2-eq e f)

third_byte :
    (c f : ℕ) → c < 256 → f < 64 → f % 4 ≡ c / 64 → byte3 (it64 (t64 f)) (it64 (t64 (digit4 c))) ≡ c
third_byte c f hc hf p =
    ground (arith, digit4-eq c hc, it64-t64 f, it64-t64 (c % 64), byte3-eq f (c % 64))

-- A group of one, two or three bytes comes back.
decode-one : (a : ℕ) → a < 256 → decode_groups 1 (encode_groups (a ∷ [])) ≡ a ∷ []
unfolding decode_groups encode_groups
decode-one a ha =
    ap (λ x. x ∷ [])
      (first_byte a (last_digit2 a) ha (ground (arith, last_digit2-eq a ha))
        (ground (arith, last_digit2-eq a ha)))

decode-two :
    (a b : ℕ) → a < 256 → b < 256 → decode_groups 2 (encode_groups (a ∷ b ∷ [])) ≡ a ∷ b ∷ []
unfolding decode_groups encode_groups
decode-two a b ha hb =
    let e = a % 4 * 16 + b / 16 in
    rw (last_digit2_or a b ha hb)
      (ground (arith, first_byte a e ha, second_byte b e (last_digit3 b) hb, last_digit3-eq b hb))

decode_group :
    (n w x y z : ℕ) (rest : Bytes)
    → decode_groups (suc (suc (suc n))) (w ∷ x ∷ y ∷ z ∷ rest)
      ≡ byte1 (it64 w) (it64 x)
        ∷ byte2 (it64 x) (it64 y)
        ∷ byte3 (it64 y) (it64 z)
        ∷ decode_groups n rest
unfolding decode_groups
decode_group n w x y z rest = ground arith

decode-three :
    (n a b c : ℕ) (rest : Bytes)
    → a < 256
    → b < 256
    → c < 256
    → decode_groups (suc (suc (suc n))) (encode_groups (a ∷ b ∷ c ∷ rest))
      ≡ a ∷ b ∷ c ∷ decode_groups n (encode_groups rest)
unfolding encode_groups
decode-three n a b c rest ha hb hc =
    let x = digit2 a b in
    let y = digit3 b c in
    let ex = digit2-eq a b ha hb in
    let ey = digit3-eq b c hb hc in
    rw (
      decode_group n (t64 (digit1 a)) (t64 x) (t64 y) (t64 (digit4 c)) (encode_groups rest),
      first_byte a x ha (omega arith) (omega arith),
      second_byte b x y hb (omega arith) (omega arith) (omega arith) (omega arith),
      third_byte c y hc (omega arith) (omega arith),
    )

decode_groups-encode_groups :
    (bs : Bytes) → AllBytes bs → decode_groups (length bs) (encode_groups bs) ≡ bs
decode_groups-encode_groups [] h = unfold decode_groups encode_groups in refl
decode_groups-encode_groups (a ∷ []) h = decode-one a h.0
decode_groups-encode_groups (a ∷ b ∷ []) h = decode-two a b h.0 h.1.0
decode_groups-encode_groups (a ∷ b ∷ c ∷ rest) h =
    decode-three (length rest) a b c rest h.0 h.1.0 h.1.1.0
    ∙ ap (λ t. a ∷ b ∷ c ∷ t) (decode_groups-encode_groups rest h.1.1.1)

-- The padding of a group that holds some bytes.
abbrev pub padding : Bytes → ℕ
padding bs = (3 - length bs % 3) % 3

pub length-encode_groups : (bs : Bytes) → length (encode_groups bs) ≡ 4 * ((length bs + 2) / 3)
unfolding encode_groups
length-encode_groups [] = refl
length-encode_groups (a ∷ []) = refl
length-encode_groups (a ∷ b ∷ []) = refl
length-encode_groups (a ∷ b ∷ c ∷ rest) = omega (arith, length-encode_groups rest)

-- A digit that is not padding ends the count.
count_padding-append :
    (xs ys : Bytes) (k : ℕ) → count_padding xs ≡ some k → count_padding (xs ++ ys) ≡ some k
unfolding count_padding
count_padding-append [] ys k h = cc
count_padding-append (x ∷ xs) ys k h = elim (Option-cases (count_padding xs)) [
  | inl e ↦ ground arith
  | inr (j, e) ↦ let more = count_padding-append xs ys j e in rw (more, ← h, e)
]

count_digit : (c : ℕ) (cs : Bytes) → (c == p64) ≡ false → count_padding (c ∷ cs) ≡ some 0
unfolding count_padding
count_digit c cs h = rw h

count_pad :
    (k : ℕ) (cs : Bytes) → count_padding cs ≡ some k → count_padding (p64 ∷ cs) ≡ some (suc k)
unfolding count_padding
count_pad k cs h = rw h

digit4-lt : (c : ℕ) → c < 256 → digit4 c < 64
digit4-lt c h = omega (arith, digit4-eq c h)

count_padding-encode_groups :
    (a : ℕ) (bs : Bytes)
    → AllBytes (a ∷ bs)
    → count_padding (reverse (encode_groups (a ∷ bs))) ≡ some (padding (a ∷ bs))
unfolding encode_groups
count_padding-encode_groups a [] h =
    count_pad 1 _
      (count_pad 0 _ (count_digit _ _ (t64-ne-p64 _ (omega (arith, last_digit2-eq a h.0)))))
count_padding-encode_groups a (b ∷ []) h =
    count_pad 0 _ (count_digit _ _ (t64-ne-p64 _ (omega (arith, last_digit3-eq b h.1.0))))
count_padding-encode_groups a (b ∷ c ∷ []) h = count_digit _ _ (t64-ne-p64 _ (digit4-lt c h.1.1.0))
count_padding-encode_groups a (b ∷ c ∷ d ∷ rest) h =
    let g = t64 (digit1 a) ∷ t64 (digit2 a b) ∷ t64 (digit3 b c) ∷ t64 (digit4 c) ∷ [] in
    ap count_padding (reverse-append g (encode_groups (d ∷ rest)))
    ∙ count_padding-append (reverse (encode_groups (d ∷ rest))) (reverse g) _
        (count_padding-encode_groups d rest h.1.1.1)
    ∙ ap some (omega arith)

-- The sizes for which the `int`s do not overflow.
abbrev pub FitsInt : ℕ → Type 0
FitsInt n = 4 * ((n + 2) / 3) < 2 ^ 31

pub encoding_buffer_size-eq : (n : ℕ) → FitsInt n → encoding_buffer_size n ≡ 4 * ((n + 2) / 3)
unfolding encoding_buffer_size
encoding_buffer_size-eq n h =
    let low : n % 2 ^ 32 ≡ n = omega arith in
    let small : ltb n (2 ^ 31) ≡ true = ground arith in rw (low, small) (ground arith)

-- Into a buffer of the computed size the encoder always writes all its groups.
pub encode-eq :
    (bs : Bytes) (len : ℕ)
    → FitsInt (length bs)
    → 4 * ((length bs + 2) / 3) ≤ len
    → encode bs len ≡ record { count = 4 * ((length bs + 2) / 3); stored = encode_groups bs }
unfolding encode
encode-eq bs len small h =
    let n = length bs / 3 in
    let low : n % 2 ^ 32 ≡ n = omega arith in
    let more : ltb n (2 ^ 31) ≡ true = ground arith in
    let whole : take (3 * n + length bs % 3) bs ≡ bs = take-all _ bs (omega arith) in
    let count : (if length bs % 3 == 0 then 4 * n else 4 * (n + 1)) ≡ 4 * ((length bs + 2) / 3) =
      ground arith in
    let low4 : 4 * ((length bs + 2) / 3) % 2 ^ 32 ≡ 4 * ((length bs + 2) / 3) = omega arith in
    let less4 : ltb (4 * ((length bs + 2) / 3)) (2 ^ 31) ≡ true = ground arith in
    let room : ltb len (4 * ((length bs + 2) / 3)) ≡ false = ground arith in
    rw (low, more, whole, count, low4, less4, room) refl

encode_str-eq : (bs : Bytes) → FitsInt (length bs) → encode_str bs ≡ encode_groups bs
unfolding encode_str
encode_str-eq bs small =
    let size = encoding_buffer_size-eq (length bs) small in
    ap (λ (r : Encoded). r.stored)
      (encode-eq bs (encoding_buffer_size (length bs)) small (omega (arith, size)))

pub decode_checked-eq :
    (n pad len : ℕ) (input : Bytes) (size : ℕ)
    → size + pad ≡ 3 * n
    → 3 * n < 2 ^ 31
    → length input ≤ 4 * n
    → size ≤ len
    → decode_checked n pad len input ≡ decoded size (decode_groups size input)
unfolding decode_checked
decode_checked-eq n pad len input size e small whole h =
    let low : 3 * n % 2 ^ 32 ≡ 3 * n = omega arith in
    let less : ltb (3 * n) (2 ^ 31) ≡ true = ground arith in
    let more : ltb n (2 ^ 31) ≡ true = ground arith in
    let all : take (4 * n) input ≡ input = take-all (4 * n) input whole in
    let e' : (3 * n + (2 ^ 64 - pad % 2 ^ 64)) % 2 ^ 64 ≡ size = omega arith in
    let room : ltb len size ≡ false = ground arith in rw (low, less, more, all, e', room) refl

pub decode-eq :
    (input : Bytes) (len pad : ℕ)
    → 0 < length input
    → length input % 4 ≡ 0
    → 3 * (length input / 4) < 2 ^ 31
    → count_padding (reverse input) ≡ some pad
    → decode input len ≡ decode_checked (length input / 4) pad len input
unfolding decode
decode-eq input len pad pos whole small h =
    let low : length input / 4 % 2 ^ 32 ≡ length input / 4 = omega arith in ground arith

decode-encode_groups :
    (a : ℕ) (bs : Bytes) (len : ℕ)
    → AllBytes (a ∷ bs)
    → FitsInt (length (a ∷ bs))
    → length (a ∷ bs) ≤ len
    → decode (encode_groups (a ∷ bs)) len ≡ decoded (length (a ∷ bs)) (a ∷ bs)
decode-encode_groups a bs len h small fits =
    let l = length-encode_groups (a ∷ bs) in
    let enc = encode_groups (a ∷ bs) in
    decode-eq enc len (padding (a ∷ bs)) (omega arith) (omega arith) (omega arith)
      (count_padding-encode_groups a bs h)
    ∙ decode_checked-eq (length enc / 4) (padding (a ∷ bs)) len enc (length (a ∷ bs)) (omega arith)
        (omega arith) (omega arith) fits
    ∙ ap (decoded (length (a ∷ bs))) (decode_groups-encode_groups (a ∷ bs) h)

-- Decoding the base 64 string of bytes gives their number and the bytes back, if the length of the string is
-- that of an `int`.
pub decode_str-encode_str :
    (bs : Bytes)
    → AllBytes bs
    → FitsInt (length bs)
    → decode_str (encode_str bs) ≡ decoded (length bs) bs
unfolding decode_str
decode_str-encode_str [] h small = rw (encode_str-eq [] small) (unfold decode encode_groups in refl)
decode_str-encode_str (a ∷ bs) h small =
    rw (encode_str-eq (a ∷ bs) small)
      (decode-encode_groups a bs _ h small (omega (arith, length-encode_groups (a ∷ bs))))
