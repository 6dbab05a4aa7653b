-- ===== src/Eddsa.antt =====
-- mnet/eddsa.c, mnet/hash.c and mnet/crypto.c: signatures and hashes, on top of libsodium.
pub mod Sane
use i2p_lite.Base.{ℕ, Bool, true, false}
use i2p_lite.Base.{Bytes, take, if◌then◌else◌}
use i2p_lite.Sodium.{Sodium}

-- `struct eddsa_Verify` and `struct eddsa_Sign`
pub record Verify : Type 0 where
  pub public_key : Bytes

pub record Sign : Type 0 where
  pub secret_key : Bytes

-- `struct mnet_crypto_config`
pub record CryptoConfig : Type 0 where
  pub sanity_check : Bool

-- `eddsa_Verify_new` with the bytes of an `eddsa_pubkey`, and `eddsa_Verify_get_key`
abbrev pub verify_new : Bytes → Verify
verify_new pub_key = record { public_key = pub_key }

abbrev pub get_key : Verify → Bytes
get_key v = v.public_key

module _ (n : Sodium) where
  -- `mnet_hash`
  abbrev pub hash : Bytes → Bytes
  hash message = n.generic_hash n.digest_bytes message

  -- `mnet_hasher_new`, `mnet_hasher_update` and `mnet_hasher_final`
  abbrev pub hasher_new : n.HashState
  hasher_new = n.hash_init n.digest_bytes

  abbrev pub hasher_update : n.HashState → Bytes → n.HashState
  hasher_update h message = n.hash_update h message

  abbrev pub hasher_final : n.HashState → Bytes
  hasher_final h = n.hash_final h

  -- `eddsa_Sign_new`
  abbrev pub sign_new : (priv : Bytes) → Sign
  sign_new priv = record { secret_key = (n.seed_keypair priv).1 }

  -- `eddsa_keygen`, for the bytes that `mnet_rand` gives: the private key and the public key. The seed
  -- is the beginning of the hash.
  abbrev pub keygen : (random : Bytes) → Bytes × Bytes
  keygen random =
      let h = hash (take n.seed_bytes random) in
      let seed = take n.seed_bytes h in (seed, (n.seed_keypair seed).0)

  -- `eddsa_sign_data`
  abbrev pub sign_data : Sign → Bytes → Bytes
  sign_data s message = n.sign_detached message s.secret_key

  -- `eddsa_Sign_copy_key_data`: the beginning of the secret key.
  abbrev pub copy_key_data : Sign → Bytes
  copy_key_data s = take n.seed_bytes s.secret_key

  -- `eddsa_verify_signature`
  abbrev pub verify_signature : Verify → (message signature : Bytes) → Bool
  verify_signature v message signature = n.verify_detached signature message v.public_key

  -- `eddsa_test`, for the random bytes of the key and of the message
  unfoldable pub eddsa_test : (random message : Bytes) → Bool
  eddsa_test random message =
      let (priv, pub_key) = keygen random in
      verify_signature (verify_new pub_key) message (sign_data (sign_new priv) message)

  -- `mnet_crypto_init`, where `ready` is whether `sodium_init` succeeds
  unfoldable pub crypto_init : (ready : Bool) → CryptoConfig → (random message : Bytes) → Bool
  crypto_init ready cfg random message =
      if ready then (if cfg.sanity_check then eddsa_test random message else true) else false
