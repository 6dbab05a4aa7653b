-- ===== src/Memory/Order.antt =====
-- mnet/memory.c: what is stored in network order is read back, on a host of either byte order.
use mathlib.Core.List.{reverse-reverse, reverse_aux}
use native.Mathlib.Nat.{pow-suc}
use i2p_lite.Base.{
  ℕ, zero, suc, ◌+◌, ◌*◌, ◌/◌, ◌%◌, ◌^◌, ◌≤◌, ◌<◌, ◌≡◌, refl, sym, ap, ◌∙◌, [], ◌∷◌, ◌++◌, some,
  reverse, arith,
}
use i2p_lite.Base.{
  Bytes, AllBytes, length, take, drop, length-append, take-length-append, length-take,
}
use i2p_lite.Memory.{
  Host, little, big, Width, w16, size, le_value, le_bytes, host_bytes, host_value, swap_be, buf_toh,
  bufbe_toh, htobuf, htobe_buf,
}

-- The number that bytes stand for in network order.
abbrev pub be_value : Bytes → ℕ
be_value bs = le_value (reverse bs)

pub length-le_bytes : (n v : ℕ) → length (le_bytes n v) ≡ n
unfolding le_bytes
length-le_bytes zero v = refl
length-le_bytes (suc n) v = ap suc (length-le_bytes n (v / 256))

AllBytes-le_bytes : (n v : ℕ) → AllBytes (le_bytes n v)
unfolding le_bytes
AllBytes-le_bytes zero v = tt
AllBytes-le_bytes (suc n) v = (omega arith, AllBytes-le_bytes n (v / 256))

le_value-le_bytes : (n v : ℕ) → v < 256 ^ n → le_value (le_bytes n v) ≡ v
unfolding le_value le_bytes
le_value-le_bytes zero v h = omega arith
le_value-le_bytes (suc n) v h =
    let p = pow-suc 256 n in omega (arith, le_value-le_bytes n (v / 256) (omega arith))

le_bytes-le_value : (bs : Bytes) → AllBytes bs → le_bytes (length bs) (le_value bs) ≡ bs
unfolding le_value le_bytes
le_bytes-le_value [] h = refl
le_bytes-le_value (b ∷ bs) h =
    let low : (b + 256 * le_value bs) % 256 ≡ b = omega arith in
    let high : (b + 256 * le_value bs) / 256 ≡ le_value bs = omega arith in
    rw (low, high, le_bytes-le_value bs h.1)

AllBytes-reverse_aux : (xs ys : Bytes) → AllBytes xs → AllBytes ys → AllBytes (reverse_aux xs ys)
AllBytes-reverse_aux [] ys h k = k
AllBytes-reverse_aux (x ∷ xs) ys h k = AllBytes-reverse_aux xs (x ∷ ys) h.1 (h.0, k)

length-reverse_aux : (xs ys : Bytes) → length (reverse_aux xs ys) ≡ length xs + length ys
length-reverse_aux [] ys = omega arith
length-reverse_aux (x ∷ xs) ys = omega (arith, length-reverse_aux xs (x ∷ ys))

pub length-reverse : (xs : Bytes) → length (reverse xs) ≡ length xs
length-reverse xs = omega (arith, length-reverse_aux xs [])

AllBytes-reverse : (xs : Bytes) → AllBytes xs → AllBytes (reverse xs)
AllBytes-reverse xs h = AllBytes-reverse_aux xs [] h tt

AllBytes-take : (n : ℕ) (xs : Bytes) → AllBytes xs → AllBytes (take n xs)
AllBytes-take zero xs h = tt
AllBytes-take (suc n) [] h = tt
AllBytes-take (suc n) (x ∷ xs) h = (h.0, AllBytes-take n xs h.1)

-- The bytes of a word in network order.
abbrev pub be_bytes : Width → ℕ → Bytes
be_bytes w v = reverse (le_bytes (size w) v)

swapped :
    (host : Host) (w : Width) (bs : Bytes)
    → length bs ≡ size w
    → AllBytes bs
    → swap_be host w (host_value host bs) ≡ be_value bs
unfolding swap_be host_value
swapped little w bs e h = rw (← e) (ap be_value (le_bytes-le_value bs h))
swapped big w bs e h = refl

-- Reading from a buffer that holds a word gives the value of the first bytes, highest first, whatever
-- the host's byte order.
pub bufbe_toh-be_value :
    (host : Host) (w : Width) (buf : Bytes)
    → AllBytes buf
    → size w ≤ length buf
    → bufbe_toh host w buf ≡ some (be_value (take (size w) buf))
unfolding bufbe_toh buf_toh
bufbe_toh-be_value host w buf h fits =
    let e =
      swapped host w (take (size w) buf) (omega (arith, length-take (size w) buf))
        (AllBytes-take (size w) buf h) in
    ground arith

stored_bytes :
    (host : Host) (w : Width) (v : ℕ) → host_bytes host w (swap_be host w v) ≡ be_bytes w v
unfolding swap_be host_bytes
stored_bytes little w v =
    let bs = be_bytes w v in
    let n : length bs ≡ size w =
      length-reverse (le_bytes (size w) v) ∙ length-le_bytes (size w) v in
    ap (λ k. le_bytes k (le_value bs)) (sym n)
    ∙ le_bytes-le_value bs (AllBytes-reverse (le_bytes (size w) v) (AllBytes-le_bytes (size w) v))
stored_bytes big w v = refl

-- Storing in network order, in a buffer with room for the word, replaces the first bytes by the
-- value's bytes, highest first.
pub htobe_buf-be_bytes :
    (host : Host) (w : Width) (buf : Bytes) (v : ℕ)
    → size w ≤ length buf
    → htobe_buf host w buf v ≡ some (be_bytes w v ++ drop (size w) buf)
unfolding htobe_buf htobuf
htobe_buf-be_bytes host w buf v fits = rw (stored_bytes host w v) (ground arith)

pub AllBytes-append : (xs ys : Bytes) → AllBytes xs → AllBytes ys → AllBytes (xs ++ ys)
AllBytes-append [] ys h k = k
AllBytes-append (x ∷ xs) ys h k = (h.0, AllBytes-append xs ys h.1 k)

AllBytes-drop : (n : ℕ) (xs : Bytes) → AllBytes xs → AllBytes (drop n xs)
AllBytes-drop zero xs h = h
AllBytes-drop (suc n) [] h = tt
AllBytes-drop (suc n) (x ∷ xs) h = AllBytes-drop n xs h.1

pub length-be_bytes : (w : Width) (v : ℕ) → length (be_bytes w v) ≡ size w
length-be_bytes w v = length-reverse (le_bytes (size w) v) ∙ length-le_bytes (size w) v

AllBytes-be_bytes : (w : Width) (v : ℕ) → AllBytes (be_bytes w v)
AllBytes-be_bytes w v = AllBytes-reverse (le_bytes (size w) v) (AllBytes-le_bytes (size w) v)

be_value-be_bytes : (w : Width) (v : ℕ) → v < 256 ^ size w → be_value (be_bytes w v) ≡ v
be_value-be_bytes w v h =
    ap le_value (reverse-reverse (le_bytes (size w) v)) ∙ le_value-le_bytes (size w) v h

-- The first bytes of a buffer that begins with the bytes of a word.
pub bufbe_toh-be_bytes :
    (host : Host) (w : Width) (v : ℕ) (rest : Bytes)
    → v < 256 ^ size w
    → AllBytes rest
    → bufbe_toh host w (be_bytes w v ++ rest) ≡ some v
bufbe_toh-be_bytes host w v rest h bytes =
    let out = be_bytes w v ++ rest in
    let n = length-be_bytes w v in
    let front : take (size w) out ≡ be_bytes w v =
      ap (λ k. take k out) (sym n) ∙ take-length-append (be_bytes w v) rest in
    bufbe_toh-be_value host w out
      (AllBytes-append (be_bytes w v) rest (AllBytes-be_bytes w v) bytes)
      (omega (arith, length-append (be_bytes w v) rest))
    ∙ ap some (ap be_value front ∙ be_value-be_bytes w v h)

-- A value that fits the width, which one host stores in network order in a buffer with room for it,
-- is read back by any host, of either byte order.
pub bufbe_toh-htobe_buf :
    (writer reader : Host) (w : Width) (buf : Bytes) (v : ℕ) {out : Bytes}
    → AllBytes buf
    → size w ≤ length buf
    → v < 256 ^ size w
    → htobe_buf writer w buf v ≡ some out
    → bufbe_toh reader w out ≡ some v
bufbe_toh-htobe_buf writer reader w buf v {out} bytes fits h e =
    let same : out ≡ be_bytes w v ++ drop (size w) buf =
      cc (htobe_buf-be_bytes writer w buf v fits) in
    rw same (bufbe_toh-be_bytes reader w v (drop (size w) buf) h (AllBytes-drop (size w) buf bytes))

-- Sixteen bits: the two bytes, and a word at the front of a buffer.
pub be_bytes-w16 : (v : ℕ) → be_bytes w16 v ≡ v / 256 % 256 ∷ v % 256 ∷ []
unfolding le_bytes
be_bytes-w16 v = refl

pub htobe_buf-w16 :
    (host : Host) (a b v : ℕ) (rest : Bytes)
    → htobe_buf host w16 (a ∷ b ∷ rest) v ≡ some (v / 256 % 256 ∷ v % 256 ∷ rest)
htobe_buf-w16 host a b v rest =
    htobe_buf-be_bytes host w16 (a ∷ b ∷ rest) v (omega arith)
    ∙ ap (λ bs. some (bs ++ rest)) (be_bytes-w16 v)

pub bufbe_toh-w16 :
    (host : Host) (v : ℕ) (rest : Bytes)
    → v < 2 ^ 16
    → AllBytes rest
    → bufbe_toh host w16 (v / 256 % 256 ∷ v % 256 ∷ rest) ≡ some v
bufbe_toh-w16 host v rest h bytes =
    rw (be_bytes-w16 v) at (bufbe_toh-be_bytes host w16 v rest (omega arith) bytes)
