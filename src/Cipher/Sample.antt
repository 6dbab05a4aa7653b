-- ===== src/Cipher/Sample.antt =====
-- A cipher that has the documented laws and computes, for the examples.
use i2p_lite.Base.{◌≡◌, ◌++◌, Option, none, some, Bool, true, false, refl, sym, ap, ◌∙◌}
use i2p_lite.Base.{Bytes, bytes_eq, bytes_eq_refl, bytes_eq→eq, codes}
use i2p_lite.Sodium.Sample.{filled, length-filled}
use i2p_lite.Cipher.{Aead, Documented, ChaCha}

-- The identity as the cipher, and as authenticator the beginning of all that is authenticated.
abbrev tag : Bytes → Bytes → Bytes → Bytes → Bytes
tag m d n k = filled 16 (m ++ (d ++ (n ++ k)))

abbrev checked : Bool → Bytes → Option Bytes
checked true c = some c
checked false c = none

abbrev pub sample : Aead
sample = record {
  encrypt_detached = λ m d n k. (m, tag m d n k);
  decrypt_detached = λ c mac d n k. checked (bytes_eq mac (tag c d n k)) c;
}

checked-some : (t : Bool) (c m : Bytes) → checked t c ≡ some m → (t ≡ true) × (c ≡ m)
checked-some true c m h = (refl, cc)
checked-some false c m h = cc

pub sample_documented : Documented sample
sample_documented = record {
  encrypted_size = λ m d n k. refl;
  authenticator_size = λ m d n k. length-filled 16 (m ++ (d ++ (n ++ k)));
  decrypted = λ m d n k. ap (λ t. checked t m) (bytes_eq_refl (tag m d n k));
  authentic = λ c mac d n k m h.
      let both = checked-some (bytes_eq mac (tag c d n k)) c m h in
      let cm : m ≡ c = sym both.1 in
      let mac_tag : mac ≡ tag c d n k = bytes_eq→eq mac (tag c d n k) both.0 in
      ap (λ r. (r, tag r d n k)) cm ∙ ap (λ r. (c, r)) (sym mac_tag);
}

abbrev pub channel : ChaCha
channel = record { key = codes "key"; next_tid = 7 }

abbrev pub block : Bytes
block = filled 2016 (codes "a block of a tunnel")
