-- ===== src/Identity.antt =====
-- mnet/identity.c: identities, a key to verify with and a certificate, and their private keys.
-- `none` as a whole result is an access through NULL or outside of a buffer. The field `ident` is
-- never read or written, and is left out.
pub mod Keys
pub mod Laws
pub mod Unreadable
mod Tests
use i2p_lite.Base.{
  ℕ, zero, suc, ◌+◌, ◌-◌, Bool, true, false, not, ◌&&◌, [], ◌∷◌, ◌++◌, Option, none, some,
}
use i2p_lite.Base.{Bytes, length, take, drop, replicate, ltb, leb, ◌==◌, if◌then◌else◌}
use i2p_lite.Memory.{Host}
use i2p_lite.Stdio.{Read, Written, fread, fwrite}
use i2p_lite.Encoding.{Decoded, decoded, too_long, underrun, decode_str, encode_str}
use i2p_lite.Cert.{
  Cert, new as cert_new, read as cert_read, write as cert_write, read_buffer as cert_read_buffer,
  buffer, buffer_length, copy_from, Parsed, null, next, over_read,
}
use i2p_lite.Sodium.{Sodium}
use i2p_lite.Eddsa.{
  Verify, verify_new, get_key, hash, hasher_new, hasher_update, hasher_final, verify_signature,
}

-- `struct mnet_identity`
pub record Identity : Type 0 where
  pub cert : Option Cert
  pub eddsa : Option Verify

-- `mnet_identity_new`: `xmalloc` zeroes.
abbrev pub new : Identity
new = record { cert = none; eddsa = none }

abbrev pub identity : Verify → Cert → Identity
identity v c = record { cert = some c; eddsa = some v }

infixl 5 ◌>>=◌
abbrev pub ◌>>=◌ : {A B : Type 0} → Option A → (A → Option B) → Option B
none >>= k = none
some a >>= k = k a

-- What a call that reads from a stream leaves.
pub record Loaded : Type 0 where
  pub result : Bool
  pub identity : Identity
  pub rest : Bytes

-- What a call that reads from a buffer leaves: NULL, what is behind the identity, or an access
-- outside of the buffer.
pub data Buffered : Type 0 where
  stopped : Identity → Buffered
  went_on : Identity → Bytes → Buffered
  outside : Buffered

abbrev pub with_key : Verify → Parsed → Buffered
with_key v (null c) = stopped (identity v c)
with_key v (next c rest) = went_on (identity v c) rest
with_key v over_read = outside

-- `mnet_identity_siglen`, and `mnet_identity_sigtype` with SIGNING_KEY_TYPE_NACL
abbrev pub siglen : Sodium → ℕ
siglen n = n.signature_bytes

abbrev pub sigtype : ℕ
sigtype = 0

-- The buffer of `mnet_identity_to_base64` has this size.
abbrev pub base64_size : ℕ
base64_size = 128

module _ (n : Sodium) where
  -- `mnet_identity_read`
  unfoldable pub read : Host → Identity → Bytes → Loaded
  read host i input =
      let r = fread n.public_key_bytes 1 input in
      if r.items == n.public_key_bytes
      then (let c = cert_read host cert_new r.rest in
          record {
            result = c.result;
            identity = identity (verify_new r.got) c.cert;
            rest = c.rest;
          })
      else record { result = false; identity = i; rest = r.rest }

  -- `mnet_identity_read_buffer`, for the bytes of the buffer
  unfoldable pub read_buffer : Host → Identity → Bytes → Buffered
  read_buffer host i input =
      if ltb (length input) (3 + n.public_key_bytes)
      then stopped i
      else with_key (verify_new (take n.public_key_bytes input))
          (cert_read_buffer host cert_new (drop n.public_key_bytes input))

  abbrev pub is_read : Buffered → Option (Bool × Identity)
  is_read (stopped i) = some (false, i)
  is_read (went_on i rest) = some (true, i)
  is_read outside = none

  -- The return of -1 is taken for a size: the buffer is as long as the text, and zeroed.
  abbrev pub from_decoded : Host → Identity → (text_size : ℕ) → Decoded → Option (Bool × Identity)
  from_decoded host i text_size (decoded sz bytes) =
      if sz == 0 then some (false, i) else is_read (read_buffer host i bytes)
  from_decoded host i text_size too_long =
      if ltb text_size (3 + n.public_key_bytes)
      then none
      else is_read (read_buffer host i (replicate text_size 0))
  from_decoded host i text_size underrun = none

  -- `mnet_identity_from_base64`
  unfoldable pub from_base64 : Host → Identity → Bytes → Option (Bool × Identity)
  from_base64 host i text = from_decoded host i (length text) (decode_str text)

  -- `mnet_identity_write` to a stream that takes `room` bytes. The result of `fwrite` is not -1, so
  -- the first `return 0` is never reached.
  unfoldable pub write : Identity → (room : ℕ) → Option (Bool × Bytes)
  write i room = do
    v ← i.eddsa
    c ← i.cert
    let w = fwrite (get_key v) n.public_key_bytes 1 room
    let (ok, out) = cert_write c (room - length w.out)
    some (ok, w.out ++ out)

  -- `mnet_identity_size`
  unfoldable pub size : Identity → Option ℕ
  size i = do c ← i.cert; some (n.public_key_bytes + buffer_length c)

  -- `mnet_identity_verify_data`
  unfoldable pub verify_data : Identity → (data_in sig : Bytes) → Option Bool
  verify_data i data_in sig = do
    v ← i.eddsa
    ed_sig ← copy_from 0 n.signature_bytes sig
    some (verify_signature n v (hash n data_in) ed_sig)

  -- `mnet_identity_hash`
  unfoldable pub ident_hash : Identity → Option Bytes
  ident_hash i = do
    v ← i.eddsa
    c ← i.cert
    let h = hasher_update n (hasher_new n) (take n.public_key_bytes (get_key v))
    some (hasher_final n (hasher_update n h (take (buffer_length c) (buffer c))))

  -- `mnet_identity_to_base64`; the outer `none` is a crash, the inner one NULL. The certificate is
  -- copied to where the key has been copied.
  unfoldable pub to_base64 : Identity → Option (Option Bytes)
  to_base64 i = do
    v ← i.eddsa
    c ← i.cert
    let key = take n.public_key_bytes (get_key v)
    let sz = buffer_length c
    let bytes = key ++ replicate (base64_size - length key) 0
    let bytes' = take sz (buffer c) ++ drop sz bytes
    some (
        if leb (sz + n.public_key_bytes) base64_size
        then some (encode_str (take (sz + n.public_key_bytes) bytes'))
        else none)
