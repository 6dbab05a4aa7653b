-- ===== src/Memory.antt =====
-- mnet/memory.c: words in buffers, in the host's byte order and in network byte order.
-- A buffer is the list of bytes from the pointer to the end of its object. `none` is a `memcpy`
-- that leaves the object.
pub mod Order
mod Tests
use i2p_lite.Base.{
  ℕ, zero, suc, ◌+◌, ◌*◌, ◌/◌, ◌%◌, ◌^◌, List, [], ◌∷◌, ◌++◌, Option, none, some, reverse,
}
use i2p_lite.Base.{Bytes, length, take, drop, ltb, if◌then◌else◌}

-- The byte order of the machine, on which `be16toh` and its relatives depend.
pub data Host : Type 0 where
  little big : Host

pub data Width : Type 0 where
  w16 w32 w64 : Width

abbrev pub size : Width → ℕ
size w16 = 2
size w32 = 4
size w64 = 8

-- The number that bytes stand for, the lowest byte first, and the bytes of a number.
unfoldable pub le_value : Bytes → ℕ
le_value [] = 0
le_value (b ∷ bs) = b + 256 * le_value bs

unfoldable pub le_bytes : ℕ → ℕ → Bytes
le_bytes zero v = []
le_bytes (suc n) v = v % 256 ∷ le_bytes n (v / 256)

-- The bytes of a word as they lie in memory, and back.
unfoldable pub host_bytes : Host → Width → ℕ → Bytes
host_bytes little w v = le_bytes (size w) v
host_bytes big w v = reverse (le_bytes (size w) v)

unfoldable pub host_value : Host → Bytes → ℕ
host_value little bs = le_value bs
host_value big bs = le_value (reverse bs)

-- `be16toh`, `be32toh`, `be64toh` and, since they swap or do nothing, `htobe16` and so on.
unfoldable pub swap_be : Host → Width → ℕ → ℕ
swap_be little w v = le_value (reverse (le_bytes (size w) v))
swap_be big w v = v

-- `buf16toh`, `buf32toh`, `buf64toh`
unfoldable pub buf_toh : Host → Width → Bytes → Option ℕ
buf_toh host w buf =
    if ltb (length buf) (size w) then none else some (host_value host (take (size w) buf))

-- `bufbe16toh`, `bufbe32toh`, `bufbe64toh`
unfoldable pub bufbe_toh : Host → Width → Bytes → Option ℕ
bufbe_toh host w buf = elim (buf_toh host w buf) [ none ↦ none | some v ↦ some (swap_be host w v) ]

-- `htobuf16`, `htobuf32`, `htobuf64`: the buffer after the write.
unfoldable pub htobuf : Host → Width → Bytes → ℕ → Option Bytes
htobuf host w buf v =
    if ltb (length buf) (size w) then none else some (host_bytes host w v ++ drop (size w) buf)

-- `htobe16buf`, `htobe32buf`, `htobe64buf`
unfoldable pub htobe_buf : Host → Width → Bytes → ℕ → Option Bytes
htobe_buf host w buf v = htobuf host w buf (swap_be host w v)
