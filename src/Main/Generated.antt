-- ===== src/Main/Generated.antt =====
-- mrouter.c with mnet_config_gen: the program behind a configuration file that it has generated.
use mathlib.Core.Option.{bind}
use i2p_lite.Base.{ℕ, ◌≤◌, ◌<◌, ◌≡◌, refl, true, false, [], some, pos, arith, reverse}
use i2p_lite.Base.{Bytes, length}
use i2p_lite.Numerals.{atoi, atoi_sign, atoi_digits}
use i2p_lite.Config.{append_entry, alloc, for_each, default_config, gen}
use i2p_lite.Config.Written.{OneLine, StorableValue, load-gen}
use i2p_lite.Log.{scope_all}
use i2p_lite.Main.{Settings, iter_config_main, configure, Env, ready, then_do}
use i2p_lite.Main.Setup.{
  gen_datadir, gen_file, config_text, load_text, ensure_datadir, first_config, configured,
}

length-gen : (time datadir : Bytes) → 6 ≤ length (gen time datadir)
unfolding gen
length-gen time datadir = omega arith

module _ (sep : Bytes) (env : Env) where
  -- What is configured if the file sets the level of the log to 1 and nothing else.
  abbrev pub level_only : Settings
  level_only = record {
    config = first_config sep env;
    log = some (record { level = pos 1; scope = scope_all; out = [] });
  }

  configured-default :
      (loglevel : ℕ) (datadir : Bytes)
      → configured sep env loglevel
          (record { entries = reverse (for_each (default_config datadir)); size = 3 })
        ≡ ensure_datadir sep env (some level_only)
  unfolding configured configure iter_config_main bind for_each default_config append_entry alloc
      atoi atoi_sign atoi_digits
  configured-default loglevel datadir = refl

  -- If the configuration file is not there and can be written, the program goes on as with a file that
  -- sets the level of the log only: the data directory in the generated file is not read.
  pub configured-generated :
      (loglevel : ℕ) (file datadir : Bytes)
      → env.exists file ≡ false
      → env.writable file ≡ true
      → gen_datadir sep env ≡ ready datadir
      → OneLine env.time
      → length env.time < 1000
      → StorableValue datadir
      → then_do
          (config_text sep env file)
          (λ text. then_do (load_text sep env text) (configured sep env loglevel))
        ≡ ensure_datadir sep env (some level_only)
  unfolding config_text gen_file
  configured-generated loglevel file datadir missing can_write dir one short storable =
      let text = gen env.time datadir in
      let enough : 6 ≤ length text = length-gen env.time datadir in
      let loaded = load-gen (length text) env.time datadir one short storable enough in
      rw (missing, can_write, dir, loaded) (configured-default loglevel datadir)
