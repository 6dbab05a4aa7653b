-- ===== src/Cert/Laws.antt =====
-- mnet/cert.c: what the readers take from a serialised certificate, and what they report.
use mathlib.Core.List.{append-nil}
use i2p_lite.Base.{
  ℕ, zero, suc, ◌+◌, ◌-◌, ◌*◌, ◌/◌, ◌%◌, ◌^◌, ◌≤◌, ◌<◌, ◌≡◌, refl, true, false, [], ◌∷◌, ◌++◌, some,
  arith,
}
use i2p_lite.Base.{
  Bytes, AllBytes, length, take, drop, replicate, set, ltb, leb, ◌==◌, if◌then◌else◌, length-append,
  take-length-append, drop-length-append, length-take, length-replicate, drop-length, take-length,
}
use i2p_lite.Memory.{Host}
use i2p_lite.Memory.Order.{AllBytes-append, htobe_buf-w16, bufbe_toh-w16}
use i2p_lite.Cert.{
  Cert, copy_to, copy_from, init, read_body, read, write, next, over_read, read_buffer,
}

-- The serialised form: type, length in network order, payload.
abbrev pub encoded : ℕ → Bytes → Bytes
encoded type payload = type ∷ length payload / 256 % 256 ∷ length payload % 256 ∷ payload

-- The certificate that the readers should give.
abbrev pub cert_of : ℕ → Bytes → Cert
cert_of type payload = record { bytes = some (encoded type payload); len = length payload + 3 }

-- The certificate that the buffer reader gives: the length field stays zero.
abbrev pub parsed_of : ℕ → Bytes → Cert
parsed_of type payload = record { bytes = some (type ∷ 0 ∷ 0 ∷ payload); len = length payload + 3 }

-- The last bytes of an object, overwritten by as many.
copy_to-end :
    (front src dst : Bytes)
    → length dst ≡ length src
    → copy_to (length front) src (front ++ dst) ≡ some (front ++ src)
unfolding copy_to
copy_to-end front src dst e =
    let whole = length-append front dst in
    let end : length front + length src ≡ length (front ++ dst) = omega arith in
    let test : ltb (length (front ++ dst)) (length (front ++ dst)) ≡ false = ground arith in
    rw (end, test, drop-length, take-length-append, append-nil)

-- The bytes behind the first ones of an object.
copy_from-front :
    (front src rest : Bytes)
    → copy_from (length front) (length src) (front ++ (src ++ rest)) ≡ some src
unfolding copy_from
copy_from-front front src rest =
    let whole = length-append front (src ++ rest) in
    let size = length-append src rest in
    let test : ltb (length (front ++ (src ++ rest))) (length front + length src) ≡ false =
      ground arith in
    rw (test, drop-length-append, take-length-append)

-- A fresh object of `n + 3` bytes that holds a type.
fresh_body : (n type : ℕ) → set (replicate (n + 3) 0) 0 type ≡ type ∷ 0 ∷ 0 ∷ replicate n 0
fresh_body n type = let e : n + 3 ≡ suc (suc (suc n)) = omega arith in rw e

-- The payload that `mnet_cert_init` copies, and copies only if there is any.
copied_payload :
    (payload : Bytes)
    → (if length payload == 0 then some [] else copy_from 0 (length payload) payload) ≡ some payload
copied_payload [] = refl
copied_payload (x ∷ xs) =
    let front = copy_from-front [] (x ∷ xs) [] in
    let whole : copy_from 0 (length (x ∷ xs)) (x ∷ xs) ≡ some (x ∷ xs) = rw append-nil at front in
    ground arith

module _ (host : Host) (type : ℕ) where
  -- `mnet_cert_init` gives the serialised form: the type, the length in network order and the
  -- first `len` bytes of the payload, on a host of either byte order.
  pub init-encoded :
      (payload : Bytes) → init host type payload (length payload) ≡ some (cert_of type payload)
  unfolding init
  init-encoded payload =
      let n = length payload in
      let tail : Bytes = replicate n 0 in
      let same = length-replicate n 0 in
      let hi = n / 256 % 256 in
      let lo = n % 256 in
      let field = hi ∷ lo ∷ tail in
      let lengths : copy_to 1 field (type ∷ 0 ∷ 0 ∷ tail) ≡ some (type ∷ field) =
        copy_to-end (type ∷ []) field (0 ∷ 0 ∷ tail) refl in
      let copied : copy_to 3 payload (type ∷ field) ≡ some (type ∷ hi ∷ lo ∷ payload) =
        copy_to-end (type ∷ hi ∷ lo ∷ []) payload tail same in
      rw (fresh_body n type, htobe_buf-w16 host 0 0 n tail, lengths, copied_payload payload, copied)

  -- The buffer reader takes a serialised certificate, with a payload of less than 2 ^ 16 bytes, off
  -- the front of a buffer. The bytes of its length stay zero in the copy that it keeps.
  pub read_buffer-encoded :
      (c : Cert) (payload rest : Bytes)
      → length payload < 2 ^ 16
      → AllBytes payload
      → AllBytes rest
      → read_buffer host c (encoded type payload ++ rest) ≡ next (parsed_of type payload) rest
  unfolding read_buffer
  read_buffer-encoded c payload rest small bytes more =
      let n = length payload in
      let tail : Bytes = replicate n 0 in
      let hi = n / 256 % 256 in
      let lo = n % 256 in
      let size = length-append payload rest in
      let whole = encoded type payload ++ rest in
      let long : ltb (length whole) 3 ≡ false = ground arith in
      let fits : ltb (length whole) n ≡ false = ground arith in
      let kept : copy_from 3 n whole ≡ some payload =
        copy_from-front (type ∷ hi ∷ lo ∷ []) payload rest in
      let copied : copy_to 3 payload (set (replicate (n + 3) 0) 0 type)
          ≡ some (type ∷ 0 ∷ 0 ∷ payload) =
        rw (fresh_body n type)
          (copy_to-end (type ∷ 0 ∷ 0 ∷ []) payload tail (length-replicate n 0)) in
      let behind : drop (n + 3) whole ≡ rest =
        (let three : n + 3 ≡ suc (suc (suc n)) = omega arith in
          rw three (drop-length-append payload rest)) in
      rw (
        long,
        bufbe_toh-w16 host n (payload ++ rest) small (AllBytes-append payload rest bytes more),
        fits,
        kept,
        copied,
        behind,
      )

-- A buffer that holds the length field and some of the payload it announces, but up to three bytes
-- too few, is read past its end: the reader compares the payload's length alone.
pub read_buffer-over_read :
    (host : Host) (c : Cert) (type n : ℕ) (tail : Bytes)
    → n < 2 ^ 16
    → AllBytes tail
    → length tail < n
    → n ≤ length tail + 3
    → read_buffer host c (type ∷ n / 256 % 256 ∷ n % 256 ∷ tail) ≡ over_read
unfolding read_buffer copy_from
read_buffer-over_read host c type n tail small bytes short long =
    let d = type ∷ n / 256 % 256 ∷ n % 256 ∷ tail in
    let enough : ltb (length d) 3 ≡ false = ground arith in
    let fits : ltb (length d) n ≡ false = ground arith in
    let missing : ltb (length d) (3 + n) ≡ true = ground arith in
    rw (enough, bufbe_toh-w16 host n tail small bytes, fits, missing)

one_item : (n : ℕ) → (n / n == n) ≡ leb n 1
one_item zero = refl
one_item (suc zero) = refl
one_item (suc (suc n)) = grind arith

-- Writing reports success only for a buffer of one byte, so for no certificate: `fwrite` returns
-- the number of items, which is 1, and it is compared with the number of bytes. The bytes are
-- written nevertheless, as far as the stream takes them.
pub write-reports :
    (type room : ℕ) (payload : Bytes)
    → write (cert_of type payload) room ≡ (false, take room (encoded type payload))
unfolding write
write-reports type room payload =
    let body = encoded type payload in
    let size : (length payload + 3) * 1 ≡ length body = omega arith in
    let all : take (length body) body ≡ body = take-length body in
    rw (size, all) (ground (arith, length-take room body))

-- Reading a serialised certificate from a stream takes all of it, and reports success exactly when
-- the payload has at most one byte: `fread` returns the number of items.
pub read-encoded :
    (host : Host) (c : Cert) (type : ℕ) (payload rest : Bytes)
    → length payload < 2 ^ 16
    → read host c (encoded type payload ++ rest)
      ≡ record { result = leb (length payload) 1; cert = cert_of type payload; rest = rest }
unfolding read read_body
read-encoded host c type payload rest small =
    let n = length payload in
    let once : n * 1 ≡ n = omega arith in
    rw
      (
        bufbe_toh-w16 host n [] small tt,
        once,
        take-length-append payload rest,
        drop-length-append payload rest,
      )
      (let none_left : n - n ≡ 0 = omega arith in rw (one_item n, none_left, append-nil))
