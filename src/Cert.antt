-- ===== src/Cert.antt =====
-- mnet/cert.c: certificates, a type byte, a length in network order and a payload.
pub mod Laws
mod Tests
use i2p_lite.Base.{
  ℕ, zero, suc, ◌+◌, ◌-◌, ◌%◌, ◌^◌, Bool, true, false, [], ◌∷◌, ◌++◌, Option, none, some,
}
use i2p_lite.Base.{Bytes, length, take, drop, replicate, get_or, set, ltb, ◌==◌, if◌then◌else◌}
use i2p_lite.Memory.{Host, w16, bufbe_toh, htobe_buf}
use i2p_lite.Stdio.{Read, Written, fread, fwrite}

-- `struct mnet_cert`; `none` is the NULL of a certificate that has no buffer yet.
pub record Cert : Type 0 where
  pub bytes : Option Bytes
  pub len : ℕ

-- `mnet_cert_new`: `xmalloc` zeroes.
unfoldable pub new : Cert
new = record { bytes = none; len = 0 }

-- `memcpy(dst + off, src, length of src)`; `none` is a write behind the end of `dst`.
unfoldable pub copy_to : (off : ℕ) → Bytes → Bytes → Option Bytes
copy_to off src dst =
    if ltb (length dst) (off + length src)
    then none
    else some (take off dst ++ (src ++ drop (off + length src) dst))

-- `memcpy` of `n` bytes from `src + off`; `none` is a read behind the end of `src`.
unfoldable pub copy_from : (off n : ℕ) → Bytes → Option Bytes
copy_from off n src = if ltb (length src) (off + n) then none else some (take n (drop off src))

infixl 5 ◌>>=◌
abbrev ◌>>=◌ : {A B : Type 0} → Option A → (A → Option B) → Option B
none >>= k = none
some a >>= k = k a

-- `mnet_cert_init`; `none` is an access outside of a buffer. The length is a `uint16_t`.
unfoldable pub init : Host → (type : ℕ) → Bytes → (len : ℕ) → Option Cert
init host type src len = do
  let body = set (replicate (len + 3) 0) 0 type
  field ← htobe_buf host w16 (drop 1 body) len
  body' ← copy_to 1 field body
  payload ← (if len == 0 then some [] else copy_from 0 len src)
  body'' ← copy_to 3 payload body'
  some (record { bytes = some body''; len = len + 3 })

-- What a call that reads from a stream leaves: its result, the certificate, and the stream.
pub record Loaded : Type 0 where
  pub result : Bool
  pub cert : Cert
  pub rest : Bytes

-- The part of `mnet_cert_read` behind the first check, with `b` the first three bytes.
unfoldable pub read_body : Cert → Bytes → (n : ℕ) → Bytes → Loaded
read_body c b n input =
    let r = fread n 1 input in
    record {
      result = r.items == n;
      cert = record { bytes = some (b ++ (r.got ++ replicate (n - length r.got) 0)); len = n + 3 };
      rest = r.rest;
    }

-- `mnet_cert_read`
unfoldable pub read : Host → Cert → Bytes → Loaded
read host c input =
    let head = fread 1 3 input in
    if head.items == 3
    then elim (bufbe_toh host w16 (drop 1 head.got)) [
      | none ↦ record { result = false; cert = c; rest = head.rest }
      | some n ↦ read_body c head.got n head.rest
    ]
    else record { result = false; cert = c; rest = head.rest }

-- `mnet_cert_write` to a stream that takes `room` bytes: the result and what was written. A NULL
-- buffer has length 0, and writes nothing.
unfoldable pub write : Cert → (room : ℕ) → Bool × Bytes
write c room =
    let w = fwrite (elim c.bytes [ none ↦ [] | some b ↦ b ]) c.len 1 room in
    (w.items == c.len, w.out)

-- `mnet_cert_read_buffer`: NULL with the certificate as it was left, the bytes behind the
-- certificate, or a read behind the end of the buffer.
pub data Parsed : Type 0 where
  null : Cert → Parsed
  next : Cert → Bytes → Parsed
  over_read : Parsed

unfoldable pub read_buffer : Host → Cert → Bytes → Parsed
read_buffer host c d = if ltb (length d) 3 then null c else elim (bufbe_toh host w16 (drop 1 d)) [
  | none ↦ over_read
  | some n ↦
      let body = set (replicate (n + 3) 0) 0 (get_or d 0 0) in
      if ltb (length d) n
      then null (record { bytes = some body; len = n + 3 })
      else elim (copy_from 3 n d) [
        | none ↦ over_read
        | some payload ↦ elim (copy_to 3 payload body) [
          | none ↦ over_read
          | some body' ↦ next (record { bytes = some body'; len = n + 3 }) (drop (n + 3) d)
        ]
      ]
]

-- `mnet_cert_buffer`
unfoldable pub buffer : Cert → Bytes
buffer c = elim c.bytes [ none ↦ [] | some b ↦ b ]

-- `mnet_cert_buffer_length` and `mnet_cert_data_length`, both `uint16_t`
unfoldable pub buffer_length : Cert → ℕ
buffer_length c = c.len % 2 ^ 16

unfoldable pub data_length : Cert → ℕ
data_length c = (c.len + 2 ^ 16 - 3) % 2 ^ 16

-- `mnet_cert_data`: the bytes from the payload on.
unfoldable pub payload : Cert → Bytes
unfolding buffer
payload c = drop 3 (buffer c)

-- `mnet_cert_type`
unfoldable pub cert_type : Cert → ℕ
unfolding buffer
cert_type c = get_or (buffer c) 0 0
