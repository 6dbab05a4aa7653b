-- ===== src/Eddsa/Sane.antt =====
-- mnet/eddsa.c and mnet/crypto.c: generated keys sign what they verify.
use i2p_lite.Base.{◌≤◌, ◌≡◌, refl, ◌∙◌, Bool, true, false, arith, inl, inr, Bool-cases, length-take}
use i2p_lite.Base.{Bytes, length, take}
use i2p_lite.Sodium.{Sodium, Documented}
use i2p_lite.Eddsa.{
  CryptoConfig, verify_new, hash, sign_new, keygen, sign_data, copy_key_data, verify_signature,
  eddsa_test, crypto_init,
}

module _ (n : Sodium) (d : Documented n) where
  keygen-size : (random : Bytes) → length (keygen n random).0 ≡ n.seed_bytes
  keygen-size random =
      let h = hash n (take n.seed_bytes random) in
      let size : length h ≡ n.digest_bytes =
        d.digest_size n.digest_bytes (take n.seed_bytes random) in
      let fits : n.seed_bytes ≤ n.digest_bytes = d.seed_fits_digest in
      length-take n.seed_bytes h ∙ omega arith

  -- Whatever the random bytes are, the signer of a generated private key signs every message so that
  -- the verifier of the public key accepts it, and it gives the private key back.
  pub keygen-Signs :
      (random message : Bytes)
      → let (priv, pub_key) = keygen n random in
        (verify_signature n (verify_new pub_key) message (sign_data n (sign_new n priv) message)
          ≡ true)
        × (copy_key_data n (sign_new n priv) ≡ priv)
  keygen-Signs random message = (
    d.verify-sign message (keygen n random).0 (keygen-size random),
    d.secret_key_seed (keygen n random).0 (keygen-size random),
  )

  -- The initialisation succeeds if and only if libsodium's does: the sanity check never fails.
  pub crypto_init-ready :
      (ready : Bool) (cfg : CryptoConfig) (random message : Bytes)
      → crypto_init n ready cfg random message ≡ ready
  unfolding crypto_init eddsa_test
  crypto_init-ready false cfg random message = refl
  crypto_init-ready true cfg random message = elim (Bool-cases cfg.sanity_check) [
    | inl e ↦ rw (e, (keygen-Signs random message).0) refl
    | inr e ↦ rw e refl
  ]
