-- ===== src/Encoding/Tests.antt =====
-- Runs of mnet/encoding.c, and the theorems about it at concrete buffers.
use i2p_lite.Base.{◌≡◌, refl, ◌∷◌, [], some, take, arith}
use i2p_lite.Base.{Bytes, codes}
use i2p_lite.Encoding.{
  it64, byte2, byte1, decode_groups, refill, base32_char, base32_loop, decode_checked,
  count_padding, last_digit3, last_digit2, digit1, t64, encode_groups, encoding_buffer_size, encode,
  encode_str, decoded, too_long, decode, decode_str, base32_encode,
}
use i2p_lite.Encoding.RoundTrip.{decode_str-encode_str}
use i2p_lite.Encoding.Bounds.{decode_bounds, InBounds}
use i2p_lite.Encoding.Base32.{base32_encode-reference, base32_reference}

abbrev two_bytes : Bytes
two_bytes = 255 ∷ 254 ∷ []

test_encode_str : encode_str two_bytes ≡ codes "~~4="
unfolding encode_str encode encoding_buffer_size encode_groups t64 digit1 last_digit2 last_digit3
test_encode_str = refl

test_decode_too_long : decode (codes "AAAA") 2 ≡ too_long
unfolding decode count_padding decode_checked
test_decode_too_long = refl

test_base32 : base32_encode (codes "foob") 7 ≡ some (codes "mzxw6yq")
unfolding base32_encode base32_loop base32_char refill
test_base32 = refl

decode_str-encode_str_example : decode_str (encode_str two_bytes) ≡ decoded 2 two_bytes
decode_str-encode_str_example =
    decode_str-encode_str two_bytes (omega arith, (omega arith, tt)) (omega arith)

base32_encode-reference_example :
    base32_encode two_bytes 3 ≡ some (take 3 (base32_reference two_bytes))
base32_encode-reference_example =
    base32_encode-reference 255 (254 ∷ []) 3 (omega arith, (omega arith, tt))

test_decode : decode (codes "~~4=") 4 ≡ decoded 2 two_bytes
unfolding decode count_padding decode_checked decode_groups byte1 byte2 it64
test_decode = refl

decode_bounds_example : InBounds 4 2 two_bytes
decode_bounds_example = decode_bounds (codes "~~4=") 4 (omega arith) (omega arith) test_decode
