-- ===== src/Cert/Tests.antt =====
-- Runs of mnet/cert.c, and the theorems about it at concrete certificates.
use i2p_lite.Base.{◌≡◌, refl, ◌∷◌, [], some, arith}
use i2p_lite.Base.{Bytes}
use i2p_lite.Memory.{le_value, swap_be, le_bytes, host_bytes, htobuf, htobe_buf, little, big}
use i2p_lite.Cert.{copy_from, copy_to, new, init, next, read_buffer}
use i2p_lite.Cert.Laws.{cert_of, parsed_of, read_buffer-encoded}

abbrev key_types : Bytes
key_types = 0 ∷ 7 ∷ 0 ∷ 4 ∷ []

test_init : init little 5 key_types 4 ≡ some (cert_of 5 key_types)
unfolding init htobe_buf htobuf copy_to host_bytes le_bytes copy_from swap_be le_value
test_init = refl

read_buffer-encoded_example :
    read_buffer big new (5 ∷ 0 ∷ 4 ∷ 0 ∷ 7 ∷ 0 ∷ 4 ∷ 99 ∷ [])
    ≡ next (parsed_of 5 key_types) (99 ∷ [])
read_buffer-encoded_example =
    read_buffer-encoded big 5 new key_types (99 ∷ []) (omega arith)
      (omega arith, (omega arith, (omega arith, (omega arith, tt)))) (omega arith, tt)
