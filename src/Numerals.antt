-- ===== src/Numerals.antt =====
-- Numerals of the C library: what `%d` and `%ld` print, and what `atoi` reads.
pub mod Laws
use i2p_lite.Base.{
  ℕ, zero, suc, ◌+◌, ◌-◌, ◌*◌, ◌/◌, ◌%◌, ◌^◌, Bool, ◌&&◌, ◌||◌, [], ◌∷◌, ◌++◌, ℤ, pos, negsuc,
}
use i2p_lite.Base.{Bytes, ltb, leb, ◌==◌, if◌then◌else◌}

-- `%ld`: the digits of a number, on fuel that is greater than the number.
unfoldable pub decimal_from : ℕ → ℕ → Bytes
decimal_from zero n = []
decimal_from (suc fuel) n =
    let front = decimal_from fuel (n / 10) in
    if ltb n 10 then (b'0' + n) ∷ [] else front ++ (b'0' + n % 10) ∷ []

unfoldable pub decimal : ℕ → Bytes
unfolding decimal_from
decimal n = decimal_from (suc n) n

abbrev pub decimal_int : ℤ → Bytes
decimal_int (pos n) = decimal n
decimal_int (negsuc n) = b'-' ∷ decimal (suc n)

-- `atoi` on an object with these bytes: a number, a number below zero (`negative n` is -n), or what C
-- leaves undefined, a number of more than 31 bits or a read behind the object.
pub data Atoi : Type 0 where
  value : ℕ → Atoi
  negative : ℕ → Atoi
  undefined : Atoi

abbrev pub is_digit : ℕ → Bool
is_digit c = leb b'0' c && leb c b'9'

unfoldable pub atoi_digits : (acc : ℕ) → Bytes → Atoi
atoi_digits acc [] = undefined
atoi_digits acc (c ∷ cs) =
    let more = atoi_digits (acc * 10 + (c - b'0')) cs in
    if is_digit c then more else if ltb acc (2 ^ 31) then value acc else undefined

abbrev pub negate : Atoi → Atoi
negate (value n) = if n == 0 then value 0 else negative n
negate (negative n) = undefined
negate undefined = undefined

unfoldable pub atoi_sign : Bytes → Atoi
atoi_sign [] = undefined
atoi_sign (c ∷ cs) =
    if c == b'-'
    then negate (atoi_digits 0 cs)
    else if c == b'+'
    then atoi_digits 0 cs
    else atoi_digits 0 (c ∷ cs)

abbrev pub is_space : ℕ → Bool
is_space c = (c == b' ') || (leb 9 c && leb c 13)

unfoldable pub atoi : Bytes → Atoi
atoi [] = undefined
atoi (c ∷ cs) = if is_space c then atoi cs else atoi_sign (c ∷ cs)
