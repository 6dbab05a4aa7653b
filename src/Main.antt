-- ===== src/Main.antt =====
-- mrouter.c: the main program, from its options to the loading of the router.
-- The results of `getopt`, the environment, the file system and the clock are parameters; the lines that
-- are printed and logged are left out, but for the level and the scope of the log.
pub mod Setup
pub mod Run
pub mod Laws
pub mod Datadir
pub mod Generated
mod Tests
use mathlib.Core.Option.{bind}
use i2p_lite.Base.{
  ℕ, zero, suc, ◌-◌, ◌^◌, Bool, true, false, not, ◌&&◌, ◌||◌, List, [], ◌∷◌, ◌++◌, Option, none,
  some, ℤ, pos, negsuc, bit_or,
}
use i2p_lite.Base.{Bytes, codes, bytes_eq, length, ltb, ◌==◌, if◌then◌else◌}
use i2p_lite.Numerals.{Atoi, value, negative, undefined, atoi}
use i2p_lite.Paths.{Joined, joined, aborted, overflowed, path_join, max_filename_size}
use i2p_lite.Eddsa.{CryptoConfig}
use i2p_lite.Config.{Entry, Config, for_each, gen, load as config_load}
use i2p_lite.Log.{
  State as LogState, init as log_init, set_level, set_scope, level_debug, level_info, scope_all,
  scope_crypto,
}
use i2p_lite.Router.Events.{RouterConfig}

-- `struct main_config`, and its defaults
pub record MainConfig : Type 0 where
  pub router : RouterConfig
  pub crypto : CryptoConfig

abbrev pub default_config : MainConfig
default_config = record {
  router = record { loop = 0; datadir = none; bootstrap = none };
  crypto = record { sanity_check = true };
}

-- MNET_CONFIG_CRYPTO_CHECK, MNET_CONFIG_LOG_LEVEL and MNET_CONFIG_ROUTER_DIR
abbrev pub crypto_check : Bytes
crypto_check = codes "mnet.crypto.check"

abbrev pub log_level : Bytes
log_level = codes "mnet.log.level"

abbrev pub router_dir : Bytes
router_dir = codes "mnet.router.dir"

-- The configuration and the log, which the callback changes.
pub record Settings : Type 0 where
  pub config : MainConfig
  pub log : LogState

abbrev pub with_log : MainConfig → Option LogState → Option Settings
with_log config none = none
with_log config (some log) = some (record { config = config; log = log })

-- `mnet_log_set_level(atoi(v))`; `none` is what C leaves undefined, or a log that is NULL.
abbrev pub set_log_level : Settings → Atoi → Option Settings
set_log_level s (value n) = with_log s.config (set_level (pos n) s.log)
set_log_level s (negative n) = with_log s.config (set_level (negsuc (n - 1)) s.log)
set_log_level s undefined = none

abbrev pub set_check : Bytes → MainConfig → MainConfig
set_check v c = record c { crypto = record { sanity_check = bytes_eq v (codes "1") } }

-- `strdup(k)`: it is the key that becomes the data directory.
abbrev pub set_datadir : (k : Bytes) → MainConfig → MainConfig
set_datadir k c = record c { router = record c.router { datadir = some k } }

-- `iter_config_main`; the three keys are different.
unfoldable pub iter_config_main : Entry → Settings → Option Settings
iter_config_main e s =
    if bytes_eq e.name crypto_check
    then some (record s { config = set_check e.value s.config })
    else if bytes_eq e.name log_level
    then set_log_level s (atoi (e.value ++ 0 ∷ []))
    else if bytes_eq e.name router_dir
    then some (record s { config = set_datadir e.name s.config })
    else some s

-- `mnet_config_for_each` with this callback
unfoldable pub configure : List Entry → Settings → Option Settings
configure [] s = some s
configure (e ∷ es) s = bind (iter_config_main e s) (configure es)

-- A result of `getopt`, and `argv[optind-1]` behind it.
pub record Opt : Type 0 where
  pub opt : ℕ
  pub word : Bytes

-- The locals of `main` that the options set.
pub record Options : Type 0 where
  pub configfile : Option Bytes
  pub bootstrap : Option Bytes
  pub loglevel : ℕ

abbrev pub no_options : Options
no_options = record { configfile = none; bootstrap = none; loglevel = level_info }

-- One round of the loop; `none` is the help with the return of 1.
abbrev pub read_option : Opt → Options → Option Options
read_option o s =
    if o.opt == b'f'
    then some (record s { configfile = some o.word })
    else if o.opt == b'v'
    then some (record s { loglevel = level_debug })
    else if o.opt == b'b'
    then some (record s { bootstrap = some o.word })
    else none

unfoldable pub read_options : List Opt → Options → Option Options
read_options [] s = some s
read_options (o ∷ os) s = bind (read_option o s) (read_options os)

-- What the program finds: the options, whether there are arguments and whether words are left behind
-- the options; the environment; the files that exist, what can be read of them and those that can be written, and the time as it is printed.
pub record Env : Type 0 where
  pub options : List Opt
  pub has_arguments : Bool
  pub has_words : Bool
  pub home : Option Bytes
  pub mnet_root : Option Bytes
  pub exists : Bytes → Bool
  pub files : Bytes → Option Bytes
  pub writable : Bytes → Bool
  pub time : Bytes
  pub loop : ℕ

-- The setting up of the program: the configuration with the log, the value that `main` returns, or a
-- failed `assert`, an access to NULL or outside of an object, or what C leaves undefined.
pub data Outcome (A : Type 0) : Type 0 where
  ready : A → Outcome A
  exited : ℤ → Outcome A
  crashed : Outcome A

abbrev pub then_do : {A B : Type 0} → Outcome A → (A → Outcome B) → Outcome B
then_do (ready a) k = k a
then_do (exited v) k = exited v
then_do crashed k = crashed

abbrev pub of_path : Joined → Outcome Bytes
of_path (joined path) = ready path
of_path aborted = crashed
of_path overflowed = crashed
