-- ===== src/Bencode/Mismatch.antt =====
-- mnet/bencode.c: what the reader makes of a string that the writer has written.
use i2p_lite.Base.{ℕ, suc, ◌+◌, ◌<◌, ◌≡◌, refl, true, false, [], ◌∷◌, ◌++◌, some, arith}
use i2p_lite.Base.{Bytes, ltb, ◌==◌, length}
use i2p_lite.Bencode.{str}
use i2p_lite.Bencode.Write.{count}
use i2p_lite.Bencode.Encode.{encode_str}
use i2p_lite.Bencode.Read.{got, get_line, c_string, number_buffer, read_str, read_obj, read_file}
use i2p_lite.Numerals.{decimal, decimal_from, atoi, atoi_sign, atoi_digits, is_digit}

decimal-digit : (n : ℕ) → n < 10 → decimal n ≡ (b'0' + n) ∷ []
unfolding decimal decimal_from
decimal-digit n h = let small : ltb n 10 ≡ true = ground arith in rw small refl

pub read_str-digit :
    (c n : ℕ) (cs : Bytes)
    → read_str c (record { rest = b':' ∷ cs; read = count n })
      ≡ got (some []) (record { rest = cs; read = count (n + 1) })
unfolding read_str c_string get_line number_buffer atoi atoi_sign atoi_digits
read_str-digit c n cs = let left : (length (b':' ∷ cs) == 0) ≡ false = ground arith in rw left refl

-- A string of less than ten bytes that the writer has written is read as the empty string: the one
-- digit of its length is dropped, the call reports two bytes, and the bytes of the string are left in
-- the stream.
pub read_file-encode_str :
    (fuel : ℕ) (s rest : Bytes)
    → length s < 10
    → read_file (suc fuel) (encode_str s ++ rest)
      ≡ got (some (str [])) (record { rest = s ++ rest; read = count 2 })
unfolding read_file read_obj encode_str
read_file-encode_str fuel s rest h =
    let c : ℕ = b'0' + length s in
    let no_list : (c == b'l') ≡ false = ground arith in
    let no_dict : (c == b'd') ≡ false = ground arith in
    let digit : is_digit c ≡ true = ground arith in
    rw (decimal-digit (length s) h, no_list, no_dict, digit, read_str-digit c 1 (s ++ rest)) refl
