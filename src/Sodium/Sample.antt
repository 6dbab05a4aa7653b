-- ===== src/Sodium/Sample.antt =====
-- An instance of the interface to libsodium that has all the laws and computes: a signature is the
-- key and the message, and a digest the beginning of the message, both filled up with zeros.
use i2p_lite.Base.{
  ℕ, ◌≡◌, refl, sym, ap, ◌∙◌, [], ◌++◌, arith, length-take, length-append, length-replicate,
  take-length-append, take-length,
}
use i2p_lite.Base.{Bytes, bytes_eq, bytes_eq_refl, length, take, replicate}
use i2p_lite.Sodium.{Sodium, Documented}

abbrev pub zeros : ℕ → Bytes
zeros n = replicate n 0

abbrev pub filled : ℕ → Bytes → Bytes
filled n b = take n (b ++ zeros n)

pub length-filled : (n : ℕ) (b : Bytes) → length (filled n b) ≡ n
length-filled n b =
    let size = length-take n (b ++ zeros n) in
    let whole = length-append b (zeros n) in
    let fill : length (zeros n) ≡ n = length-replicate n 0 in omega arith

filled-full : (n : ℕ) (b : Bytes) → length b ≡ n → filled n b ≡ b
filled-full n b h = ap (λ k. take k (b ++ zeros n)) (sym h) ∙ take-length-append b (zeros n)

take-full : (n : ℕ) (b : Bytes) → length b ≡ n → take n b ≡ b
take-full n b h = ap (λ k. take k b) (sym h) ∙ take-length b

abbrev pub sample : Sodium
sample = record {
  seed_bytes = 32;
  public_key_bytes = 32;
  signature_bytes = 64;
  digest_bytes = 32;
  seed_keypair = λ seed. (filled 32 seed, filled 32 seed);
  sign_detached = λ m k. filled 64 (k ++ m);
  verify_detached = λ s m k. bytes_eq s (filled 64 (k ++ m));
  generic_hash = filled;
  HashState = ℕ × Bytes;
  hash_init = λ d. (d, []);
  hash_update = λ h m. (h.0, h.1 ++ m);
  hash_final = λ h. filled h.0 h.1;
}

pub sample_documented : Documented sample
sample_documented = record {
  public_key_size = length-filled 32;
  digest_size = length-filled;
  signature_size = λ m k. length-filled 64 (k ++ m);
  secret_key_seed = λ seed h. ap (take 32) (filled-full 32 seed h) ∙ take-full 32 seed h;
  seed_fits_digest = omega arith;
  verify-sign = λ m seed h. bytes_eq_refl (filled 64 (filled 32 seed ++ m));
  hash_parts = λ d a b. refl;
}
