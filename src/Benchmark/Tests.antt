-- ===== src/Benchmark/Tests.antt =====
-- Runs of test/bench_crypto.c.
use i2p_lite.Base.{◌≡◌, refl, [], ◌∷◌}
use i2p_lite.Benchmark.{schedule, benchmark_chacha}
use i2p_lite.Benchmark.Fails.{benchmark_chacha_fine}
use i2p_lite.Cipher.Sample.{sample, sample_documented, channel, block}

-- The loop ends behind eight rounds.
test_schedule : schedule 9 1000 ≡ 1000 ∷ 2000 ∷ 4000 ∷ 8000 ∷ 16000 ∷ 32000 ∷ 64000 ∷ 128000 ∷ []
unfolding schedule
test_schedule = refl

benchmark_chacha_fine_example :
    ((benchmark_chacha sample [] channel 1000 block).decryptfails ≡ 0)
    × ((benchmark_chacha sample [] channel 1000 block).block ≡ block)
benchmark_chacha_fine_example =
    benchmark_chacha_fine sample [] channel sample_documented 1000 block refl
