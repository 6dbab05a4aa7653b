-- ===== src/Cipher/Tests.antt =====
-- The theorems about mnet/chacha.c at a concrete cipher.
use i2p_lite.Base.{◌≡◌, ◌↔◌, ◌++◌, some, refl}
use i2p_lite.Base.{Bytes, length, codes}
use i2p_lite.Sodium.Sample.{filled}
use i2p_lite.Cipher.{decrypt, encrypt, read_at, message_size}
use i2p_lite.Cipher.Laws.{decrypt-encrypt, decrypt↔encrypt}
use i2p_lite.Cipher.Sample.{sample, sample_documented, channel, block}

abbrev message : Bytes
message = filled 16 (codes "tag") ++ (filled 12 (codes "nonce") ++ (filled 4 (codes "id") ++ block))

decrypt-encrypt_example :
    let out = encrypt sample channel block message in
    (decrypt sample channel out ≡ some block)
    × (length out ≡ message_size)
    × (read_at 16 16 out ≡ read_at 16 16 message)
decrypt-encrypt_example = decrypt-encrypt sample channel sample_documented block refl message refl

decrypt↔encrypt_example :
    (decrypt sample channel message ≡ some block) ↔ (encrypt sample channel block message ≡ message)
decrypt↔encrypt_example = decrypt↔encrypt sample channel sample_documented block refl message refl
