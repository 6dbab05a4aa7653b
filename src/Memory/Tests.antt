-- ===== src/Memory/Tests.antt =====
-- Runs of mnet/memory.c, and the theorems about it at concrete buffers.
use i2p_lite.Base.{◌≡◌, refl, ◌∷◌, [], some, arith}
use i2p_lite.Memory.{
  le_value, swap_be, le_bytes, host_bytes, htobuf, little, big, w16, bufbe_toh, htobe_buf,
}
use i2p_lite.Memory.Order.{bufbe_toh-htobe_buf}

test_htobe_buf : htobe_buf little w16 (0 ∷ 0 ∷ 7 ∷ []) 0x1234 ≡ some (0x12 ∷ 0x34 ∷ 7 ∷ [])
unfolding htobe_buf htobuf host_bytes le_bytes swap_be le_value
test_htobe_buf = refl

bufbe_toh-htobe_buf_example : bufbe_toh big w16 (0x12 ∷ 0x34 ∷ 7 ∷ []) ≡ some 0x1234
bufbe_toh-htobe_buf_example =
    bufbe_toh-htobe_buf little big w16 (0 ∷ 0 ∷ 7 ∷ []) 0x1234
      (omega arith, (omega arith, (omega arith, tt))) (omega arith) (omega arith) test_htobe_buf
