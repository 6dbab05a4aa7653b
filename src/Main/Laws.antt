-- ===== src/Main/Laws.antt =====
-- mrouter.c: what the main program comes to.
use i2p_lite.Base.{ℕ, ◌≢◌, refl, subst, Bool, true, false, Option, none, some, inl, inr, Bool-cases}
use i2p_lite.Base.{Bytes}
use i2p_lite.Memory.{Host}
use i2p_lite.Sodium.{Sodium}
use i2p_lite.Eddsa.{crypto_init}
use i2p_lite.Log.{State as LogState, set_scope}
use i2p_lite.Router.{
  Step, returned, crashed as load_crashed, endless as load_endless, fuel_end as load_fuel_end,
  load as router_load,
}
use i2p_lite.Router.Laws.{router_load-never}
use i2p_lite.Router.Events.{
  RouterConfig, Router, Made, made, broken, Leftover, new as router_new, free as router_free,
}
use i2p_lite.RouterInfo.{RouterInfo}
use i2p_lite.Main.{Settings, Env, Outcome, ready, exited, crashed}
use i2p_lite.Main.Setup.{setup}
use i2p_lite.Main.Run.{
  Program, running, ended, failed, endless, fuel_end, Files, Random, context_of, with_context,
  after_free, after_load, start_router, under, begin, main, setup_scope,
}

abbrev Idle : Program → Type 0
Idle (running r log) = ⊥
Idle (ended v) = Unit
Idle failed = Unit
Idle endless = Unit
Idle fuel_end = Unit

module _ (n : Sodium) (host : Host) (fuel : ℕ) (sep : Bytes) (self : ℕ)
    (infos : ℕ → RouterInfo) where
  after_free-Idle : (l : Option Leftover) → Idle (after_free n host fuel sep self infos l)
  after_free-Idle none = tt
  after_free-Idle (some left) = tt

  after_load-Idle :
      (log : LogState) (r : Router) (s : Step)
      → ((ctx : _) → s ≢ returned true ctx)
      → Idle (after_load n host fuel sep self infos log r s)
  after_load-Idle log r (returned true ctx) h = absurd (h ctx refl)
  after_load-Idle log r (returned false ctx) h =
      after_free-Idle (router_free infos fuel (with_context n host fuel sep self infos r ctx))
  after_load-Idle log r load_crashed h = tt
  after_load-Idle log r load_endless h = tt
  after_load-Idle log r load_fuel_end h = tt

  start_router-Idle :
      (random : Bytes) (f : Files) (log : LogState) (m : Made)
      → Idle (start_router n host fuel sep self infos random f log m)
  start_router-Idle random f log broken = tt
  start_router-Idle random f log (made r) =
      let ctx = context_of n host fuel sep self infos f r in
      after_load-Idle log r (router_load n host fuel random f.disk ctx)
        (router_load-never n host fuel random f.disk ctx)

  under-Idle :
      (random : Bytes) (f : Files) (cfg : RouterConfig) (log : Option LogState)
      → Idle (under n host fuel sep self infos random f cfg log)
  under-Idle random f cfg none = tt
  under-Idle random f cfg (some log) = start_router-Idle random f log (router_new sep self cfg)

  begin-Idle :
      (inits : Bool) (random : Random) (f : Files) (o : Outcome Settings)
      → Idle (begin n host fuel sep self infos inits random f o)
  begin-Idle inits random f (ready s) =
      elim (Bool-cases
        (crypto_init n inits s.config.crypto random.check_key random.check_message)) [
          | inl sane ↦
              rw sane (under-Idle random.keys f s.config.router (set_scope setup_scope s.log))
          | inr insane ↦ rw insane tt
        ]
  begin-Idle inits random f (exited v) = tt
  begin-Idle inits random f crashed = tt

  -- Whatever the options, the environment and the files are, the program does not come to run the
  -- event loop.
  pub main-never :
      (inits : Bool) (random : Random) (f : Files) (env : Env) (r : Router) (log : LogState)
      → main n host fuel sep self infos inits random f env ≢ running r log
  unfolding main
  main-never inits random f env r log e = subst Idle e (begin-Idle inits random f (setup sep env))
