-- ===== src/Router/Events/Names.antt =====
-- mnet/router.c: the files of a new router.
use i2p_lite.Base.{ℕ, ◌+◌, ◌<◌, ◌≡◌, refl, ap, ◌∙◌, ◌++◌, some, arith}
use i2p_lite.Base.{Bytes, codes, length}
use i2p_lite.Paths.{max_filename_size}
use i2p_lite.Paths.Join.{path_join-name}
use i2p_lite.Router.Events.{RouterConfig, made, with_paths, new_at, new}

-- A router with a data directory whose name is short enough has its files in it, under their names,
-- the network database in `nodes`, and nothing else yet; the transports know the router.
pub router_new-paths :
    (sep : Bytes) (self : ℕ) (cfg : RouterConfig) (dir : Bytes)
    → cfg.datadir ≡ some dir
    → 0 < length sep
    → 0 < length dir
    → length dir + (length sep + 11) < max_filename_size
    → new sep self cfg
      ≡ made (
          with_paths sep self cfg dir
            (dir ++ (sep ++ codes "router.info"))
            (dir ++ (sep ++ codes "router.keys"))
            (dir ++ (sep ++ codes "nodes")))
unfolding new
router_new-paths sep self cfg dir set some_sep some_dir fits =
    let info = path_join-name sep dir (codes "router.info") some_sep some_dir fits in
    let keys = path_join-name sep dir (codes "router.keys") some_sep some_dir fits in
    let nodes = path_join-name sep dir (codes "nodes") some_sep some_dir (omega arith) in
    ap (new_at sep self cfg) set ∙ rw (info, keys, nodes) refl
