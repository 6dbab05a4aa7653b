-- ===== src/Benchmark.antt =====
-- test/bench_crypto.c: the rounds of the tunnel cipher and of the signatures. The bytes that `mnet_rand`
-- gives are parameters, and so is what a decryption that fails leaves in the block.
pub mod Fails
mod Tests
use i2p_lite.Base.{
  ℕ, zero, suc, ◌+◌, ◌*◌, ◌/◌, ◌%◌, ◌^◌, Bool, true, false, List, [], ◌∷◌, Option, none, some,
}
use i2p_lite.Base.{Bytes, replicate, ltb, if◌then◌else◌}
use i2p_lite.Sodium.{Sodium}
use i2p_lite.Eddsa.{Verify, Sign, verify_new, sign_new, keygen, sign_data, verify_signature}
use i2p_lite.Cipher.{Aead, ChaCha, encrypt, decrypt, message_size}

-- The locals of `benchmark_chacha`. An encryption does not fail.
pub record Rounds : Type 0 where
  pub decryptfails : ℕ
  pub msg : Bytes
  pub block : Bytes

module _ (a : Aead) (spoiled : Bytes) (ch : ChaCha) where
  -- `if(ch.decrypt(...)) decryptfails ++`
  abbrev pub with_block : Rounds → (msg : Bytes) → Option Bytes → Rounds
  with_block r msg none = record {
    decryptfails = (r.decryptfails + 1) % 2 ^ 64;
    msg = msg;
    block = spoiled;
  }
  with_block r msg (some block) = record { decryptfails = r.decryptfails; msg = msg; block = block }

  abbrev pub round : Rounds → Rounds
  round r = let msg = encrypt a ch r.block r.msg in with_block r msg (decrypt a ch msg)

  unfoldable pub rounds : (n : ℕ) → Rounds → Rounds
  rounds zero r = r
  rounds (suc n) r = rounds n (round r)

  -- `benchmark_chacha`, whose message is zeroed
  unfoldable pub benchmark_chacha : (n : ℕ) → (block : Bytes) → Rounds
  benchmark_chacha n block =
      rounds n (record { decryptfails = 0; msg = replicate message_size 0; block = block })

module _ (n : Sodium) where
  -- The loop of `benchmark_eddsa`, for the data of its rounds
  unfoldable pub eddsa_rounds : Sign → Verify → (fails : ℕ) → List Bytes → ℕ
  eddsa_rounds s v fails [] = fails
  eddsa_rounds s v fails (message ∷ messages) =
      let verified = verify_signature n v message (sign_data n s message) in
      eddsa_rounds s v (if verified then fails else (fails + 1) % 2 ^ 64) messages

  -- `benchmark_eddsa`: the number of fails
  unfoldable pub benchmark_eddsa : (random : Bytes) → List Bytes → ℕ
  benchmark_eddsa random messages =
      let (priv, pub_key) = keygen n random in
      eddsa_rounds (sign_new n priv) (verify_new pub_key) 0 messages

-- The loop of `main`: the numbers of rounds that it runs, on fuel.
unfoldable pub schedule : (fuel rounds : ℕ) → List ℕ
schedule zero rounds = []
schedule (suc fuel) rounds =
    let rest = schedule fuel (rounds * 2) in if ltb rounds 200000 then rounds ∷ rest else []
