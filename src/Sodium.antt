-- ===== src/Sodium.antt =====
-- What mnet/eddsa.c, mnet/hash.c and mnet/crypto.c call of libsodium, which is not in the repository.
pub mod Sample
use i2p_lite.Base.{ℕ, ◌≤◌, ◌≡◌, Bool, true, false, ◌++◌}
use i2p_lite.Base.{Bytes, length, take}

-- The calls, and the sizes of their keys, signatures and digests. A call that returns 0 or -1 is a
-- test here, and `seed_keypair` gives the public key and the secret key.
pub record Sodium : Type 1 where
  pub seed_bytes : ℕ
  pub public_key_bytes : ℕ
  pub signature_bytes : ℕ
  pub digest_bytes : ℕ
  pub seed_keypair : (seed : Bytes) → Bytes × Bytes
  pub sign_detached : (message secret_key : Bytes) → Bytes
  pub verify_detached : (signature message public_key : Bytes) → Bool
  pub generic_hash : (digest_size : ℕ) (message : Bytes) → Bytes
  pub HashState : Type 0
  pub hash_init : (digest_size : ℕ) → HashState
  pub hash_update : HashState → Bytes → HashState
  pub hash_final : HashState → Bytes

-- What its documentation says of them: the sizes of what they give, that a signature of a key pair
-- is valid under its public key, that a secret key begins with its seed, and that hashing in parts
-- is hashing the whole.
pub record Documented (n : Sodium) : Type 0 where
  pub public_key_size : (seed : Bytes) → length (n.seed_keypair seed).0 ≡ n.public_key_bytes
  pub digest_size : (d : ℕ) (m : Bytes) → length (n.generic_hash d m) ≡ d
  pub signature_size : (m k : Bytes) → length (n.sign_detached m k) ≡ n.signature_bytes
  pub secret_key_seed :
      (seed : Bytes) → length seed ≡ n.seed_bytes → take n.seed_bytes (n.seed_keypair seed).1 ≡ seed
  pub seed_fits_digest : n.seed_bytes ≤ n.digest_bytes
  pub verify-sign :
      (m seed : Bytes)
      → length seed ≡ n.seed_bytes
      → n.verify_detached (n.sign_detached m (n.seed_keypair seed).1) m (n.seed_keypair seed).0
        ≡ true
  pub hash_parts :
      (d : ℕ) (a b : Bytes)
      → n.hash_final (n.hash_update (n.hash_update (n.hash_init d) a) b) ≡ n.generic_hash d (a ++ b)
