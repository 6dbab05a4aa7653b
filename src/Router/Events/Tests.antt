-- ===== src/Router/Events/Tests.antt =====
-- Runs of mnet/router.c at concrete routers.
use i2p_lite.Base.{◌≡◌, refl, ◌⊎◌, Option, some, arith}
use i2p_lite.Base.{Bytes, codes}
use i2p_lite.Memory.{little}
use i2p_lite.Sodium.Sample.{sample}
use i2p_lite.Hashmap.{init}
use i2p_lite.Netdb.{new as netdb_new}
use i2p_lite.Router.Events.{
  RouterConfig, Router, crashed, endless, with_paths, run, ensure_min_peers,
}
use i2p_lite.Router.Events.Bootstrap.{ensure_min_peers-fails}

abbrev config : RouterConfig
config = record { loop = 1; datadir = some (codes "/data"); bootstrap = some (codes "node.dat") }

abbrev router : Router
router =
    with_paths (codes "/") 7 config (codes "/data") (codes "/data/router.info")
      (codes "/data/router.keys") (codes "/data/nodes")

abbrev files : Bytes → Option Bytes
files path = some (codes "de")

ensure_min_peers-fails_example :
    (ensure_min_peers sample little 20 files (run router) ≡ crashed)
    ⊎ (ensure_min_peers sample little 20 files (run router) ≡ endless)
unfolding run netdb_new init
ensure_min_peers-fails_example =
    ensure_min_peers-fails sample little 20 files (run router) (codes "node.dat") (codes "de")
      (omega arith) refl refl (omega arith)
