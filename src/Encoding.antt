-- ===== src/Encoding.antt =====
-- mnet/encoding.c: base 64 with the I2P alphabet, and base 32.
-- Buffers are lists of bytes, and their lengths are those of the lists. An `unsigned char` is a
-- number below 256: what is assigned to one is cut by `% 256`.
pub mod Digits
pub mod RoundTrip
pub mod Bounds
pub mod Base32
mod Tests
use i2p_lite.Base.{
  ℕ, zero, suc, ◌+◌, ◌-◌, ◌*◌, ◌/◌, ◌%◌, ◌^◌, ◌≡◌, Bool, true, false, not, ◌&&◌, ◌||◌, List, [],
  ◌∷◌, ◌++◌, Option, none, some, bit_and, bit_or, reverse,
}
use i2p_lite.Base.{
  ltb, leb, ◌==◌, if◌then◌else◌, Bytes, codes, length, get_or, set, replicate, take,
}

-- `T64`, which is also `MNET_BASE64_CHARS`.
unfoldable pub t64_table : Bytes
t64_table = codes "ABCDEFGHIJKLMNOPQRSTUVWXYZabcdefghijklmnopqrstuvwxyz0123456789-~"

unfoldable pub t64 : ℕ → ℕ
unfolding t64_table
t64 d = get_or t64_table d 0

-- `P64`
abbrev pub p64 : ℕ
p64 = b'='

-- An `int` by its bit pattern: what it is converted to as a `size_t`, which extends the sign, and the
-- rounds of a loop from 0 up to it.
abbrev pub to_int : ℕ → ℕ
to_int x = x % 2 ^ 32

abbrev pub int_to_size : ℕ → ℕ
int_to_size x = if ltb x (2 ^ 31) then x else x + (2 ^ 64 - 2 ^ 32)

abbrev pub int_rounds : ℕ → ℕ
int_rounds x = if ltb x (2 ^ 31) then x else 0

-- `div(x, 3)`, which rounds towards 0: the quotient, and whether there is a remainder.
abbrev pub div_three : ℕ → ℕ × Bool
div_three x =
    let size = if ltb x (2 ^ 31) then x else 2 ^ 32 - x in
    (if ltb x (2 ^ 31) then size / 3 else to_int (2 ^ 32 - size / 3), not (size % 3 == 0))

-- `mnet_base64_encoding_buffer_size`
pub encoding_buffer_size : ℕ → ℕ
encoding_buffer_size input_size =
    let (quot, rem) = div_three (to_int input_size) in
    int_to_size (to_int (4 * (if rem then quot + 1 else quot)))

-- The four digits of three bytes, as the encoder's accumulators compute them.
unfoldable pub digit1 : ℕ → ℕ
digit1 a = a / 2 ^ 2

unfoldable pub digit2 : ℕ → ℕ → ℕ
digit2 a b = bit_or (bit_and (a * 2 ^ 4) 0x30 % 256) (b / 2 ^ 4)

unfoldable pub digit3 : ℕ → ℕ → ℕ
digit3 b c = bit_or (bit_and b 0x0f * 2 ^ 2 % 256) (c / 2 ^ 6)

unfoldable pub digit4 : ℕ → ℕ
digit4 c = bit_and c 0x3f

-- The second and third digit where the input ends inside the group.
unfoldable pub last_digit2 : ℕ → ℕ
last_digit2 a = bit_and (a * 2 ^ 4) 0x3f % 256

unfoldable pub last_digit3 : ℕ → ℕ
last_digit3 b = bit_and b 0x0f * 2 ^ 2 % 256

-- The loop over whole groups, and the one or two bytes that are left.
unfoldable pub encode_groups : Bytes → Bytes
encode_groups [] = []
encode_groups (a ∷ []) = t64 (digit1 a) ∷ t64 (last_digit2 a) ∷ p64 ∷ p64 ∷ []
encode_groups (a ∷ b ∷ []) =
    t64 (digit1 a) ∷ t64 (bit_or (last_digit2 a) (b / 2 ^ 4)) ∷ t64 (last_digit3 b) ∷ p64 ∷ []
encode_groups (a ∷ b ∷ c ∷ rest) =
    t64 (digit1 a) ∷ t64 (digit2 a b) ∷ t64 (digit3 b c) ∷ t64 (digit4 c) ∷ encode_groups rest

-- What a call returns, and the bytes that it has stored from the start of its output buffer.
pub record Encoded : Type 0 where
  pub count : ℕ
  pub stored : Bytes

-- `mnet_base64_encode` into a buffer of `len` bytes. `n` is an `int`, and so is what is computed from
-- it; a product that overflows wraps.
unfoldable pub encode : Bytes → ℕ → Encoded
encode buf len =
    let n = to_int (length buf / 3) in
    let m = length buf % 3 in
    let out_count = int_to_size (to_int (if m == 0 then 4 * n else 4 * (n + 1))) in
    if ltb len out_count
    then record { count = 0; stored = [] }
    else record { count = out_count; stored = encode_groups (take (3 * int_rounds n + m) buf) }

-- `mnet_base64_encode_str`: the string before its terminator, which `xmalloc` has zeroed.
pub encode_str : Bytes → Bytes
encode_str buf = (encode buf (encoding_buffer_size (length buf))).stored

-- `iT64Build`: every entry of `char iT64[256]` is -1, that is 255 once read as an
-- `unsigned char`, then the 64 digits and the padding are entered.
it64_fill : ℕ → Bytes → Bytes → Bytes
it64_fill i [] table = table
it64_fill i (c ∷ cs) table = it64_fill (i + 1) cs (set table c i)

pub it64_table : Bytes
unfolding it64_fill t64_table
it64_table = set (it64_fill 0 t64_table (replicate 256 255)) p64 0

pub it64 : ℕ → ℕ
unfolding it64_table
it64 c = get_or it64_table c 0

-- The three bytes of four digits.
pub byte1 : ℕ → ℕ → ℕ
byte1 d e = bit_or (d * 2 ^ 2 % 256) (e / 2 ^ 4)

pub byte2 : ℕ → ℕ → ℕ
byte2 e f = bit_or (e * 2 ^ 4 % 256) (f / 2 ^ 2)

pub byte3 : ℕ → ℕ → ℕ
byte3 f g = bit_or g (f * 2 ^ 6) % 256

-- The loop over groups of four; `left` is how far `pd` is from `endOfOutBuffer`. It stops behind
-- the first or the second byte of a group that reaches the end.
pub decode_groups : ℕ → Bytes → Bytes
decode_groups left (a ∷ b ∷ c ∷ d ∷ rest) =
    let more = decode_groups (left - 3) rest in
    byte1 (it64 a) (it64 b)
    ∷ (if leb left 1
        then []
        else byte2 (it64 b) (it64 c) ∷ (if leb left 2 then [] else byte3 (it64 c) (it64 d) ∷ more))
decode_groups left short = []

-- `while (*ps-- == P64) outCount--;` on the reversed input; `none` is a read before the buffer.
pub count_padding : Bytes → Option ℕ
count_padding [] = none
count_padding (c ∷ cs) =
    if c == p64 then elim (count_padding cs) [ none ↦ none | some k ↦ some (suc k) ] else some 0

-- `too_long` is the return of -1, `underrun` a read before the input buffer.
pub data Decoded : Type 0 where
  decoded : ℕ → Bytes → Decoded
  too_long underrun : Decoded

-- `outCount` against the output buffer's length. It is a `size_t`: with more padding than
-- 3 * n it wraps round. 3 * n is an `int`, which wraps if it overflows.
pub decode_checked : (n pad len : ℕ) → Bytes → Decoded
decode_checked n pad len input =
    let out_count = (int_to_size (to_int (3 * n)) + (2 ^ 64 - pad % 2 ^ 64)) % 2 ^ 64 in
    if ltb len out_count
    then too_long
    else decoded out_count (decode_groups out_count (take (4 * int_rounds n) input))

-- `mnet_base64_decode` into a buffer of `len` bytes
pub decode : Bytes → ℕ → Decoded
decode input len =
    let n = to_int (length input / 4) in
    let m = length input % 4 in
    if ltb 0 (length input) && m == 0
    then elim (count_padding (reverse input)) [
      | none ↦ underrun
      | some pad ↦ decode_checked n pad len input
    ]
    else decoded 0 []

-- `mnet_base64_decode_str`, whose buffer has the input's length
pub decode_str : Bytes → Decoded
decode_str input = decode input (length input)

-- The loop of `mnet_base32_encode`. `room` is `outLen - ret`, `rest` is the input from `pos` on, and
-- `tmp` is an `int`, here by its bit pattern: a shift that overflows it wraps.
pub record Pending : Type 0 where
  pub rest : Bytes
  pub bits : ℕ
  pub tmp : ℕ

-- `if (bits < 5) { ... }`
pub refill : Bytes → ℕ → ℕ → Pending
refill [] bits tmp =
    if ltb bits 5
    then record { rest = []; bits = 5; tmp = tmp * 2 ^ (5 - bits) % 2 ^ 32 }
    else record { rest = []; bits = bits; tmp = tmp }
refill (b ∷ rest) bits tmp =
    if ltb bits 5
    then record {
      rest = rest;
      bits = bits + 8;
      tmp = bit_or (tmp * 2 ^ 8 % 2 ^ 32) (bit_and b 0xff);
    }
    else record { rest = b ∷ rest; bits = bits; tmp = tmp }

pub base32_char : ℕ → ℕ
base32_char ind = if ltb ind 26 then ind + b'a' else ind - 26 + b'2'

pub base32_loop : (room : ℕ) → Pending → Bytes
base32_loop zero p = []
base32_loop (suc room) p =
    let q = refill p.rest p.bits p.tmp in
    let bits = q.bits - 5 in
    let ind = bit_and (q.tmp / 2 ^ bits) 0x1f in
    let more = base32_loop room (record { rest = q.rest; bits = bits; tmp = q.tmp }) in
    if ltb 0 p.bits || ltb 0 (length p.rest) then base32_char ind ∷ more else []

-- `mnet_base32_encode`: the characters that are stored, whose number is returned. `none` is the
-- read of `inBuf[0]` of an empty input.
pub base32_encode : Bytes → (out_len : ℕ) → Option Bytes
base32_encode [] out_len = none
base32_encode (b ∷ rest) out_len =
    some (base32_loop out_len (record { rest = rest; bits = 8; tmp = b }))
