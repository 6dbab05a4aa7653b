-- ===== src/Main/Run.antt =====
-- mrouter.c: the start of the router, and the value that the program returns. `infos` is what the router
-- infos of the network database point to.
use i2p_lite.Base.{ℕ, ◌-◌, ◌^◌, Bool, true, false, Option, none, some, ℤ, pos, bit_or}
use i2p_lite.Base.{Bytes, if◌then◌else◌}
use i2p_lite.Memory.{Host}
use i2p_lite.Sodium.{Sodium}
use i2p_lite.Eddsa.{crypto_init}
use i2p_lite.Log.{State as LogState, set_scope, scope_all, scope_crypto}
use i2p_lite.RouterInfo.{RouterInfo}
use i2p_lite.Router.{
  Disk, Context, Step, returned, crashed as load_crashed, endless as load_endless,
  fuel_end as load_fuel_end, load as router_load,
}
use i2p_lite.Router.Events.{
  RouterConfig, Router, Made, made, broken, Leftover, new as router_new, free as router_free,
  run as router_run,
}
use i2p_lite.Main.{Settings, Env, Outcome, ready, exited, crashed}
use i2p_lite.Main.Setup.{setup}

-- The scope of the log behind the initialization: `LOG_ALL | (~LOG_CRYPTO)`.
abbrev pub setup_scope : ℕ
setup_scope = bit_or scope_all (2 ^ 32 - 1 - scope_crypto)

-- What becomes of the program: the event loop runs with the router, or it ends.
pub data Program : Type 0 where
  running : Router → LogState → Program
  ended : ℤ → Program
  failed endless fuel_end : Program

-- The files of the router: `router.keys` and `router.info`, if they are there, and the others.
pub record Files : Type 0 where
  pub keys_file : Option Bytes
  pub info_file : Option Bytes
  pub disk : Disk

-- The bytes that `mnet_rand` gives for the router, and those of the check of the cryptography.
pub record Random : Type 0 where
  pub keys : Bytes
  pub check_key : Bytes
  pub check_message : Bytes

module _ (n : Sodium) (host : Host) (fuel : ℕ) (sep : Bytes) (self : ℕ)
    (infos : ℕ → RouterInfo) where
  abbrev pub context_of : Files → Router → Context
  context_of f r = record {
    keys_file = f.keys_file;
    info_file = f.info_file;
    privkeys = r.privkeys;
    our_ri = r.our_ri;
    map = r.netdb.map;
  }

  abbrev pub with_context : Router → Context → Router
  with_context r ctx = record r {
    privkeys = ctx.privkeys;
    our_ri = ctx.our_ri;
    netdb = record r.netdb { map = ctx.map };
  }

  -- `router_context_free`, behind which 0 is returned.
  abbrev pub after_free : Option Leftover → Program
  after_free none = failed
  after_free (some left) = ended (pos 0)

  abbrev pub after_load : LogState → Router → Step → Program
  after_load log r (returned true ctx) = running (router_run (with_context r ctx)) log
  after_load log r (returned false ctx) = after_free (router_free infos fuel (with_context r ctx))
  after_load log r load_crashed = failed
  after_load log r load_endless = endless
  after_load log r load_fuel_end = fuel_end

  abbrev pub start_router : (random : Bytes) → Files → LogState → Made → Program
  start_router random f log broken = failed
  start_router random f log (made r) =
      after_load log r (router_load n host fuel random f.disk (context_of f r))

  abbrev pub under : (random : Bytes) → Files → RouterConfig → Option LogState → Program
  under random f cfg none = failed
  under random f cfg (some log) = start_router random f log (router_new sep self cfg)

  -- `main`, where `inits` is whether `sodium_init` succeeds
  abbrev pub begin : (inits : Bool) → Random → Files → Outcome Settings → Program
  begin inits random f (ready s) =
      if crypto_init n inits s.config.crypto random.check_key random.check_message
      then under random.keys f s.config.router (set_scope setup_scope s.log)
      else ended (pos 1)
  begin inits random f (exited v) = ended v
  begin inits random f crashed = failed

  unfoldable pub main : (inits : Bool) → Random → Files → Env → Program
  main inits random f env = begin inits random f (setup sep env)
