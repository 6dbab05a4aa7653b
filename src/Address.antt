-- ===== src/Address.antt =====
-- mnet/address.c: the network addresses of routers.
-- Strings are lists of bytes that are not NUL. The size of a public key is that of libsodium.
pub mod Port
mod Tests
use i2p_lite.Base.{ℕ, ◌-◌, ◌%◌, ◌^◌, ◌++◌, [], ◌∷◌, Option, none, some}
use i2p_lite.Base.{Bytes, codes, bytes_eq, take, replicate, ◌==◌, if◌then◌else◌}
use i2p_lite.Memory.{Host, w16, swap_be}
use i2p_lite.Numerals.{Atoi, value, negative, undefined, atoi, decimal}
use i2p_lite.Encoding.{Decoded, decoded, too_long, underrun, decode_str}

-- `struct mnet_addr`; the strings are NULL at first.
pub record Address : Type 0 where
  pub style : Option Bytes
  pub host : Option Bytes
  pub port : ℕ
  pub cost : ℕ
  pub date : ℕ
  pub key : Bytes

-- `a->port = htons(atoi(v))`: an `int` is cut to sixteen bits. `none` is what C leaves undefined.
unfoldable pub set_port : Host → Atoi → Address → Option Address
set_port machine (value n) a = some (record a { port = swap_be machine w16 (n % 2 ^ 16) })
set_port machine (negative n) a =
    some (record a { port = swap_be machine w16 ((2 ^ 16 - n % 2 ^ 16) % 2 ^ 16) })
set_port machine undefined a = none

-- `memcpy(a->key, key, len)` for a key of the right size, in the zeroed buffer of the decoder.
abbrev pub set_key : (key_size : ℕ) → Decoded → Address → Option Address
set_key key_size (decoded len bytes) a = some (
    if len == key_size then record a { key = take key_size (bytes ++ replicate key_size 0) } else a)
set_key key_size too_long a = some a
set_key key_size underrun a = none

-- `mnet_addr_process_dict`
unfoldable pub process_dict : Host → (key_size : ℕ) → (k v : Bytes) → Address → Option Address
process_dict machine key_size k v a =
    if bytes_eq k (codes "host")
    then some (record a { host = some v })
    else if bytes_eq k (codes "port")
    then set_port machine (atoi (v ++ 0 ∷ [])) a
    else if bytes_eq k (codes "key")
    then set_key key_size (decode_str v) a
    else some a

-- `mnet_addr_read_dict`: it returns NULL whatever is there.
abbrev pub read_dict : Bytes → Option Bytes
read_dict b = none

-- `mnet_addr_free`: what `*addr` is afterwards. `none` is an access through NULL.
abbrev pub free : Option Address → Option (Option Address)
free none = none
free (some a) = some none

-- `mnet_addr_port_str`, with a buffer of ten bytes
unfoldable pub port_str : Host → Address → Bytes
port_str machine a = take 9 (decimal (swap_be machine w16 a.port))
