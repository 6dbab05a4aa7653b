-- ===== src/Main/Setup.antt =====
-- mrouter.c and mnet_config_gen of mnet/config.c: which files are used, and what is configured.
use mathlib.Core.Option.{bind}
use i2p_lite.Base.{ℕ, Bool, true, false, not, ◌&&◌, [], ◌∷◌, Option, none, some, pos, negsuc}
use i2p_lite.Base.{Bytes, codes, length, ltb, ◌==◌, if◌then◌else◌}
use i2p_lite.Paths.{path_join, max_filename_size}
use i2p_lite.Config.{Config, for_each, gen, load as config_load}
use i2p_lite.Log.{State as LogState, init as log_init, set_level, set_scope, level_debug, scope_all}
use i2p_lite.Main.{
  MainConfig, default_config, Settings, with_log, configure, Options, no_options, read_options, Env,
  Outcome, ready, exited, crashed, then_do, of_path,
}

module _ (sep : Bytes) (env : Env) where
  -- The configuration file that is used if no option names one.
  abbrev pub default_file : Option Bytes → Outcome Bytes
  default_file none = of_path (path_join sep (codes ".") (codes "mnet.conf" ∷ []))
  default_file (some home) = of_path (path_join sep home (codes ".mnet.conf" ∷ []))

  abbrev pub config_file : Option Bytes → Outcome Bytes
  config_file none = default_file env.home
  config_file (some file) = ready file

  -- `optind >= argc && !configfile && argc > 1`
  abbrev pub lacks_file : Option Bytes → Bool
  lacks_file none = not env.has_words && env.has_arguments
  lacks_file (some file) = false

  -- The data directory that `mnet_config_gen` writes: both paths are made if there is a home.
  abbrev pub home_datadir : Option Bytes → Bytes → Outcome Bytes
  home_datadir none path = ready path
  home_datadir (some home) path = of_path (path_join sep home (codes ".config" ∷ codes "mnet" ∷ []))

  unfoldable pub gen_datadir : Outcome Bytes
  gen_datadir =
      then_do (of_path (path_join sep (codes "/") (codes "usr" ∷ codes "lib" ∷ codes "mnet" ∷ [])))
        (home_datadir env.home)

  -- `mnet_config_gen` for a file that is not there: what it holds afterwards.
  unfoldable pub gen_file : (file : Bytes) → Outcome (Option Bytes)
  gen_file file =
      if env.writable file
      then then_do gen_datadir (λ datadir. ready (some (gen env.time datadir)))
      else exited (negsuc 0)

  -- The bytes of the configuration file, which is made if it is not there; `none` if it can not be opened.
  unfoldable pub config_text : (file : Bytes) → Outcome (Option Bytes)
  config_text file = if env.exists file then ready (env.files file) else gen_file file

  -- `mnet_config_load`, with the bytes of the file as fuel, which is enough.
  abbrev pub if_config : Option (Config × Bool) → Outcome Config
  if_config none = crashed
  if_config (some (cfg, true)) = ready cfg
  if_config (some (cfg, false)) = exited (pos 1)

  abbrev pub load_text : Option Bytes → Outcome Config
  load_text none = if_config (config_load 0 none)
  load_text (some text) = if_config (config_load (length text) (some text))

  -- The data directory that is used if the configuration sets none. `memcpy` to NULL is fine with
  -- no bytes.
  abbrev pub home_dir : Option Bytes → Outcome (Option Bytes)
  home_dir none = crashed
  home_dir (some home) =
      then_do (of_path (path_join sep home (codes ".mnet" ∷ []))) (λ dir. ready (some dir))

  abbrev pub root_dir : Option Bytes → Outcome (Option Bytes)
  root_dir none = home_dir env.home
  root_dir (some dir) =
      if ltb (length dir) max_filename_size && not (length dir == 0) then crashed else ready none

  abbrev pub default_dir : Option Bytes → Outcome (Option Bytes)
  default_dir none = root_dir env.mnet_root
  default_dir (some dir) = ready (some dir)

  abbrev pub with_datadir : Settings → Option Bytes → Settings
  with_datadir s dir = record s {
    config = record s.config { router = record s.config.router { datadir = dir } };
  }

  abbrev pub ensure_datadir : Option Settings → Outcome Settings
  ensure_datadir none = crashed
  ensure_datadir (some s) =
      then_do (default_dir s.config.router.datadir) (λ dir. ready (with_datadir s dir))

  -- The log as it is set up before the file is loaded.
  abbrev pub first_log : (loglevel : ℕ) → Option LogState
  first_log loglevel = bind (set_level (pos loglevel) log_init) (set_scope scope_all)

  abbrev pub first_config : MainConfig
  first_config = record default_config { router = record default_config.router { loop = env.loop } }

  unfoldable pub configured : (loglevel : ℕ) → Config → Outcome Settings
  configured loglevel cfg =
      ensure_datadir (bind (with_log first_config (first_log loglevel)) (configure (for_each cfg)))

  abbrev pub with_options : Option Options → Outcome Settings
  with_options none = exited (pos 1)
  with_options (some o) =
      if lacks_file o.configfile && not (o.loglevel == level_debug)
      then exited (negsuc 0)
      else then_do (config_file o.configfile) (λ file.
        then_do (config_text file) (λ text. then_do (load_text text) (configured o.loglevel)))

  -- `main` up to the initialization of the cryptography
  unfoldable pub setup : Outcome Settings
  setup = with_options (read_options env.options no_options)
