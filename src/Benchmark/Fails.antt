-- ===== src/Benchmark/Fails.antt =====
-- test/bench_crypto.c: no round fails.
use i2p_lite.Base.{ap, subst, sym, ℕ, zero, suc, ◌≡◌, refl, List, [], ◌∷◌}
use i2p_lite.Base.{Bytes, length, replicate}
use i2p_lite.Sodium.{Sodium, Documented as SodiumDocumented}
use i2p_lite.Eddsa.Sane.{keygen-Signs}
use i2p_lite.Cipher.{Aead, Documented, ChaCha, encrypt, message_size, tunnel_data_size}
use i2p_lite.Cipher.Laws.{decrypt-encrypt}
use i2p_lite.Benchmark.{with_block, Rounds, rounds, benchmark_chacha, eddsa_rounds, benchmark_eddsa}

module _ (a : Aead) (spoiled : Bytes) (ch : ChaCha) (law : Documented a) where
  -- The block is what it was, and no decryption has failed.
  rounds_fine :
      (n : ℕ) (msg block : Bytes)
      → length block ≡ tunnel_data_size
      → length msg ≡ message_size
      → let out = rounds a spoiled ch n (record { decryptfails = 0; msg = msg; block = block }) in
        (out.decryptfails ≡ 0) × (out.block ≡ block)
  unfolding rounds
  rounds_fine zero msg block lb lm = (refl, refl)
  rounds_fine (suc n) msg block lb lm =
      let back = decrypt-encrypt a ch law block lb msg lm in
      let start : Rounds = record { decryptfails = 0; msg = msg; block = block } in
      let one = ap (with_block a spoiled ch start (encrypt a ch block msg)) back.0 in
      subst
        (λ r.
          ((rounds a spoiled ch n r).decryptfails ≡ 0) × ((rounds a spoiled ch n r).block ≡ block))
        (sym one) (rounds_fine n (encrypt a ch block msg) block lb back.1)

  -- Whatever the key and the block are, no round of the tunnel cipher fails, and the block comes back.
  pub benchmark_chacha_fine :
      (n : ℕ) (block : Bytes)
      → length block ≡ tunnel_data_size
      → ((benchmark_chacha a spoiled ch n block).decryptfails ≡ 0)
        × ((benchmark_chacha a spoiled ch n block).block ≡ block)
  unfolding benchmark_chacha
  benchmark_chacha_fine n block lb =
      let message : Bytes = replicate message_size 0 in
      let whole : length message ≡ message_size = refl in rounds_fine n message block lb whole

module _ (n : Sodium) (law : SodiumDocumented n) where
  -- No round of the signatures fails.
  pub benchmark_eddsa_fine :
      (random : Bytes) (messages : List Bytes) → benchmark_eddsa n random messages ≡ 0
  unfolding benchmark_eddsa eddsa_rounds
  benchmark_eddsa_fine random [] = refl
  benchmark_eddsa_fine random (message ∷ messages) =
      rw (keygen-Signs n law random message).0 (benchmark_eddsa_fine random messages)
