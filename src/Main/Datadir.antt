-- ===== src/Main/Datadir.antt =====
-- mrouter.c: which data directory the router is given, and whether it is told of a node.
use mathlib.Core.Option.{bind}
use i2p_lite.Base.{
  ℕ, ◌≡◌, refl, subst, ap, ◌⊎◌, not, ◌&&◌, List, [], ◌∷◌, ◌++◌, Option, none, some, pos, inl, inr,
  Bool-cases,
}
use i2p_lite.Base.{Bytes, codes, bytes_eq, bytes_eq→eq, length, ltb, ◌==◌}
use i2p_lite.Numerals.{Atoi, value, negative, undefined, atoi}
use i2p_lite.Paths.{Joined, joined, aborted, overflowed, path_join, max_filename_size}
use i2p_lite.Config.{Entry, Config, for_each}
use i2p_lite.Log.{State as LogState, level_debug, scope_all}
use i2p_lite.Router.Events.{RouterConfig}
use i2p_lite.Main.{
  MainConfig, Settings, with_log, set_log_level, iter_config_main, configure, crypto_check,
  log_level, router_dir, Options, no_options, read_options, Env, Outcome, ready, exited, crashed,
  then_do, of_path,
}
use i2p_lite.Main.Setup.{
  config_file, config_text, load_text, default_dir, root_dir, home_dir, ensure_datadir,
  with_datadir, first_log, first_config, configured, with_options, lacks_file, setup,
}

-- The router's configuration before the data directory is chosen.
abbrev Named : RouterConfig → Type 0
Named cfg = (cfg.bootstrap ≡ none) × ((cfg.datadir ≡ none) ⊎ (cfg.datadir ≡ some router_dir))

abbrev AllNamed : Option Settings → Type 0
AllNamed none = Unit
AllNamed (some s) = Named s.config.router

with_log-Named : (c : MainConfig) (l : Option LogState) → Named c.router → AllNamed (with_log c l)
with_log-Named c none h = tt
with_log-Named c (some l) h = h

set_log_level-Named :
    (s : Settings) (a : Atoi) → Named s.config.router → AllNamed (set_log_level s a)
set_log_level-Named s (value n) h = with_log-Named s.config _ h
set_log_level-Named s (negative n) h = with_log-Named s.config _ h
set_log_level-Named s undefined h = tt

iter-Named : (e : Entry) (s : Settings) → Named s.config.router → AllNamed (iter_config_main e s)
unfolding iter_config_main
iter-Named e s h = elim (Bool-cases (bytes_eq e.name crypto_check)) [
  | inl check ↦ rw check h
  | inr no_check ↦ rw no_check (elim (Bool-cases (bytes_eq e.name log_level)) [
    | inl level ↦ rw level (set_log_level-Named s (atoi (e.value ++ 0 ∷ [])) h)
    | inr no_level ↦ rw no_level (elim (Bool-cases (bytes_eq e.name router_dir)) [
      | inl dir ↦ rw dir (h.0, inr (ap some (bytes_eq→eq e.name router_dir dir)))
      | inr no_dir ↦ rw no_dir h
    ])
  ])
]

configure-Named :
    (es : List Entry) (s : Settings) → Named s.config.router → AllNamed (configure es s)
unfolding configure bind
configure-Named [] s h = h
configure-Named (e ∷ es) s h = rest (iter_config_main e s) (iter-Named e s h) (configure-Named es)
  where
    rest :
        (o : Option Settings)
        → AllNamed o
        → ((t : Settings) → Named t.config.router → AllNamed (configure es t))
        → AllNamed (bind o (configure es))
    rest none h k = tt
    rest (some t) h k = k t h

module _ (sep : Bytes) (env : Env) where
  -- `path` is `.mnet` in the home directory.
  abbrev pub InHome : (path : Bytes) → Type 0
  InHome path =
      (home : Bytes) × (env.home ≡ some home)
      × (path_join sep home (codes ".mnet" ∷ []) ≡ joined path)

  -- No node to bootstrap from, and no data directory, the key of the configuration, or the directory
  -- in the home directory.
  abbrev pub Chosen : RouterConfig → Type 0
  Chosen cfg =
      (cfg.bootstrap ≡ none)
      × ((cfg.datadir ≡ none)
          ⊎ ((cfg.datadir ≡ some router_dir)
              ⊎ ((path : Bytes) × (cfg.datadir ≡ some path) × InHome path)))

  abbrev AllChosen : Outcome Settings → Type 0
  AllChosen (ready s) = Chosen s.config.router
  AllChosen (exited v) = Unit
  AllChosen crashed = Unit

  module _ (s : Settings) (unset : s.config.router.bootstrap ≡ none) where
    abbrev chosen : Outcome (Option Bytes) → Outcome Settings
    chosen o = then_do o (λ dir. ready (with_datadir sep env s dir))

    home_dir-Chosen :
        (home : Option Bytes) → env.home ≡ home → AllChosen (chosen (home_dir sep env home))
    home_dir-Chosen none e = tt
    home_dir-Chosen (some home) e = by_path (path_join sep home (codes ".mnet" ∷ [])) refl
      where
        by_path :
            (j : Joined)
            → path_join sep home (codes ".mnet" ∷ []) ≡ j
            → AllChosen (chosen (then_do (of_path j) (λ dir. ready (some dir))))
        by_path (joined path) p = (unset, inr (inr (path, refl, (home, e, p))))
        by_path aborted p = tt
        by_path overflowed p = tt

    root_dir-Chosen : (root : Option Bytes) → AllChosen (chosen (root_dir sep env root))
    root_dir-Chosen none = home_dir-Chosen env.home refl
    root_dir-Chosen (some dir) =
        elim (Bool-cases (ltb (length dir) max_filename_size && not (length dir == 0))) [
          | inl e ↦ rw e tt
          | inr e ↦ rw e (unset, inl refl)
        ]

    default_dir-Chosen :
        (dir : Option Bytes)
        → (dir ≡ none) ⊎ (dir ≡ some router_dir)
        → AllChosen (chosen (default_dir sep env dir))
    default_dir-Chosen none h = root_dir-Chosen env.mnet_root
    default_dir-Chosen (some dir) (inl e) = (unset, inl e)
    default_dir-Chosen (some dir) (inr e) = (unset, inr (inl e))

  ensure_datadir-Chosen : (o : Option Settings) → AllNamed o → AllChosen (ensure_datadir sep env o)
  ensure_datadir-Chosen none h = tt
  ensure_datadir-Chosen (some s) h = default_dir-Chosen s h.0 s.config.router.datadir h.1

  configured-Chosen : (loglevel : ℕ) (cfg : Config) → AllChosen (configured sep env loglevel cfg)
  unfolding configured bind
  configured-Chosen loglevel cfg =
      let started : Settings = record {
        config = first_config sep env;
        log = some (record { level = pos loglevel; scope = scope_all; out = [] });
      } in
      ensure_datadir-Chosen
        (bind (with_log (first_config sep env) (first_log sep env loglevel))
          (configure (for_each cfg)))
        (configure-Named (for_each cfg) started (refl, inl refl))

  then_do-Chosen :
      {A : Type 0} (o : Outcome A) (k : A → Outcome Settings)
      → ((a : A) → AllChosen (k a))
      → AllChosen (then_do o k)
  then_do-Chosen (ready a) k h = h a
  then_do-Chosen (exited v) k h = tt
  then_do-Chosen crashed k h = tt

  with_options-Chosen : (o : Option Options) → AllChosen (with_options sep env o)
  with_options-Chosen none = tt
  with_options-Chosen (some o) =
      elim (Bool-cases (lacks_file sep env o.configfile && not (o.loglevel == level_debug))) [
        | inl lacks ↦ rw lacks tt
        | inr enough ↦ rw enough (
            then_do-Chosen (config_file sep env o.configfile) _ λ file.
              then_do-Chosen (config_text sep env file) _ λ text.
                then_do-Chosen (load_text sep env text) (configured sep env o.loglevel)
                  (configured-Chosen o.loglevel))
      ]

  -- The router is never given a node to bootstrap from, whatever the options say. Its data directory is
  -- not one that the configuration file names: it is none, the name of the key itself, or `.mnet` in the
  -- home directory.
  pub setup-Chosen : (s : Settings) → setup sep env ≡ ready s → Chosen s.config.router
  unfolding setup
  setup-Chosen s e = subst AllChosen e (with_options-Chosen (read_options env.options no_options))
