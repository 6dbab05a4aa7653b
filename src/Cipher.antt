-- ===== src/Cipher.antt =====
-- mnet/chacha.c: the cipher of a tunnel's data messages. A message is 2048 bytes: the authenticator,
-- the nonce, the tunnel id and the encrypted block (include/mnet/datatypes.h).
pub mod Laws
pub mod Sample
mod Tests
use i2p_lite.Base.{ℕ, ◌+◌, ◌-◌, ◌≡◌, ◌++◌, Option, none, some}
use i2p_lite.Base.{Bytes, length, take, drop}

-- The calls of libsodium: the encrypted bytes with their authenticator, and the decrypted bytes, if
-- the authenticator is right.
pub record Aead : Type 0 where
  pub encrypt_detached : (message associated nonce key : Bytes) → Bytes × Bytes
  pub decrypt_detached : (encrypted mac associated nonce key : Bytes) → Option Bytes

abbrev pub mac_size : ℕ
mac_size = 16

abbrev pub nonce_size : ℕ
nonce_size = 12

abbrev pub tunnel_id_size : ℕ
tunnel_id_size = 4

abbrev pub tunnel_data_size : ℕ
tunnel_data_size = 2016

abbrev pub message_size : ℕ
message_size = mac_size + nonce_size + tunnel_id_size + tunnel_data_size

abbrev pub data_offset : ℕ
data_offset = message_size - tunnel_data_size

abbrev pub mac_offset : ℕ
mac_offset = 0

abbrev pub tunnel_id_offset : ℕ
tunnel_id_offset = nonce_size + mac_size

abbrev pub nonce_offset : ℕ
nonce_offset = mac_size

-- What is documented of the calls: the sizes of what they give, and that decrypting accepts what
-- encrypting gives, and nothing else, under the same key, nonce and associated data.
pub record Documented (a : Aead) : Type 0 where
  pub encrypted_size : (m d n k : Bytes) → length (a.encrypt_detached m d n k).0 ≡ length m
  pub authenticator_size : (m d n k : Bytes) → length (a.encrypt_detached m d n k).1 ≡ mac_size
  pub decrypted :
      (m d n k : Bytes)
      → let (c, mac) = a.encrypt_detached m d n k in a.decrypt_detached c mac d n k ≡ some m
  pub authentic :
      (c mac d n k m : Bytes)
      → a.decrypt_detached c mac d n k ≡ some m
      → a.encrypt_detached m d n k ≡ (c, mac)

-- `struct tunnel_ChaCha`; `tunnel_ChaCha_init` enters the two functions below.
pub record ChaCha : Type 0 where
  pub key : Bytes
  pub next_tid : ℕ

-- The bytes of an array from an offset on, and an array in which they have been written.
abbrev pub read_at : (off n : ℕ) → Bytes → Bytes
read_at off n msg = take n (drop off msg)

abbrev pub store_at : (off : ℕ) → Bytes → Bytes → Bytes
store_at off src msg = take off msg ++ (src ++ drop (off + length src) msg)

module _ (a : Aead) where
  -- `i2p_tunnel_v2_decrypt`: the block, or `none` for the return of -1.
  unfoldable pub decrypt : ChaCha → (msg : Bytes) → Option Bytes
  decrypt ch msg =
      a.decrypt_detached (read_at data_offset tunnel_data_size msg)
        (read_at mac_offset mac_size msg) (read_at tunnel_id_offset tunnel_id_size msg)
        (read_at nonce_offset nonce_size msg) ch.key

  -- `i2p_tunnel_v2_encrypt`: the message afterwards. The call does not fail.
  unfoldable pub encrypt : ChaCha → (block msg : Bytes) → Bytes
  encrypt ch block msg =
      let (c, mac) =
        a.encrypt_detached block (read_at tunnel_id_offset tunnel_id_size msg)
          (read_at nonce_offset nonce_size msg) ch.key in
      store_at mac_offset mac (store_at data_offset c msg)
