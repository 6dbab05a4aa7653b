-- ===== src/Identity/Tests.antt =====
-- The theorems about mnet/identity.c at a concrete instance of libsodium, and runs of it.
use i2p_lite.Base.{◌≡◌, ◌≢◌, true, [], ◌∷◌, ◌++◌, none, some, pos}
use i2p_lite.Base.{codes}
use i2p_lite.Cert.{Cert, buffer, buffer_length}
use i2p_lite.Numerals.{decimal, decimal_from}
use i2p_lite.Bencode.Encode.{encode, encode_fields, encode_str}
use i2p_lite.Sodium.Sample.{sample, sample_documented}
use i2p_lite.Eddsa.{Sign, verify_new, sign_new, keygen, hash, sign_data}
use i2p_lite.Identity.{verify_data}
use i2p_lite.Identity.Keys.{Keys, returned, write as keys_write, read as keys_read}
use i2p_lite.Identity.Unreadable.{keys_read-never}
use i2p_lite.Identity.Laws.{saved, keys, keys_write-saved, verify_data-generated}

abbrev signer : Sign
signer = sign_new sample (codes "seed")

abbrev empty_cert : Cert
empty_cert = record { bytes = some (0 ∷ 0 ∷ 0 ∷ []); len = 3 }

abbrev no_keys : Keys
no_keys = record { ident = none; eddsa = none }

test_saved :
    keys_write sample (keys signer none empty_cert) 200
    ≡ some (true, saved sample signer empty_cert)
unfolding encode encode_fields encode_str decimal decimal_from buffer buffer_length
test_saved = keys_write-saved sample signer none empty_cert 200

verify_data-generated_example :
    let (priv, pub_key) = keygen sample (codes "random") in
    verify_data sample
      (record { cert = none; eddsa = some (verify_new pub_key) })
      (codes "message")
      (sign_data sample (sign_new sample priv) (hash sample (codes "message")) ++ codes "tail")
    ≡ some true
verify_data-generated_example =
    verify_data-generated sample sample_documented none (codes "random") (codes "message")
      (codes "tail")

keys_read-never_example : keys_read sample 20 no_keys (codes "de") ≢ returned (pos 1) no_keys []
keys_read-never_example = keys_read-never sample 20 no_keys no_keys (codes "de") []
