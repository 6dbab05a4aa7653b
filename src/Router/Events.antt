-- ===== src/Router/Events.antt =====
-- mnet/router.c: making, running and closing the router, its timer, and the bootstrap.
-- An event of the loop is a call of its handler; what the files hold is a parameter. A pointer to the
-- event loop is a number. The tunnels of a router and their pool are there or not.
pub mod Bootstrap
pub mod Names
mod Tests
use i2p_lite.Base.{ℕ, Bool, true, false, [], ◌∷◌, Option, none, some}
use i2p_lite.Base.{Bytes, codes, ltb, if◌then◌else◌}
use i2p_lite.Memory.{Host}
use i2p_lite.Sodium.{Sodium}
use i2p_lite.Paths.{Joined, joined, aborted, overflowed, path_join}
use i2p_lite.Transport.{Transport, new as transport_new}
use i2p_lite.Hashmap.{free_map}
use i2p_lite.Hashmap.Heap.{Run, done, fault, out_of_fuel}
use i2p_lite.Netdb.{Netdb, new as netdb_new, loaded_peer_count}
use i2p_lite.Identity.Keys.{Keys}
use i2p_lite.RouterInfo.{
  RouterInfo, InfoRead, returned as info_returned, crashed as info_crashed, endless as info_endless,
  fuel_end as info_fuel_end, new as info_new, load as info_load, free_info, verify, base64_ident,
}

-- `struct router_context_config`
pub record RouterConfig : Type 0 where
  pub loop : ℕ
  pub datadir : Option Bytes
  pub bootstrap : Option Bytes

-- `struct router_context`: its strings and the components that it makes.
pub record Router : Type 0 where
  pub loop : ℕ
  pub ticking : Bool
  pub data_dir : Bytes
  pub router_info : Bytes
  pub router_keys : Bytes
  pub bootstrap : Option Bytes
  pub netdb : Netdb
  pub transport : Transport
  pub tunnels : Bool
  pub exploritory_pool : Bool
  pub privkeys : Option Keys
  pub our_ri : Option RouterInfo

-- The object, or a failed `assert`, a write outside of a buffer or an access to NULL.
pub data Made : Type 0 where
  made : Router → Made
  broken : Made

abbrev pub with_path : Joined → (Bytes → Made) → Made
with_path (joined path) k = k path
with_path aborted k = broken
with_path overflowed k = broken

module _ (sep : Bytes) (self : ℕ) where
  abbrev pub with_paths : RouterConfig → (dir info keys nodes : Bytes) → Router
  with_paths cfg dir info keys nodes = record {
    loop = cfg.loop;
    ticking = false;
    data_dir = dir;
    router_info = info;
    router_keys = keys;
    bootstrap = cfg.bootstrap;
    netdb = netdb_new nodes;
    transport = record (transport_new cfg.loop) { router = self };
    tunnels = false;
    exploritory_pool = false;
    privkeys = none;
    our_ri = none;
  }

  abbrev pub new_in : RouterConfig → (dir : Bytes) → Made
  new_in cfg dir = with_path (path_join sep dir (codes "router.info" ∷ [])) λ info.
      with_path (path_join sep dir (codes "router.keys" ∷ [])) λ keys.
        with_path (path_join sep dir (codes "nodes" ∷ []))
          λ nodes. made (with_paths cfg dir info keys nodes)

  abbrev pub new_at : RouterConfig → Option Bytes → Made
  new_at cfg none = broken
  new_at cfg (some dir) = new_in cfg dir

  -- `router_context_new`, for a router at the address `self`
  unfoldable pub new : RouterConfig → Made
  new cfg = new_at cfg cfg.datadir

-- What `router_context_free` leaves allocated, and whether the loop still holds the timer.
pub record Leftover : Type 0 where
  pub privkeys : Option Keys
  pub our_ri : Option RouterInfo
  pub tunnels : Bool
  pub exploritory_pool : Bool
  pub ticking : Bool

-- `router_context_free`: what is left, or a fault of the hash map's release.
abbrev pub left_of : Router → Run (Unit {0}) → Option Leftover
left_of r (done u m) = some (record {
  privkeys = r.privkeys;
  our_ri = r.our_ri;
  tunnels = r.tunnels;
  exploritory_pool = r.exploritory_pool;
  ticking = r.ticking;
})
left_of r fault = none
left_of r out_of_fuel = none

unfoldable pub free : (infos : ℕ → RouterInfo) → ℕ → Router → Option Leftover
free infos fuel r = left_of r (free_map infos fuel r.netdb.map)

-- `router_context_run`: the tunnel context and the pool are made, and the timer is started.
unfoldable pub run : Router → Router
run r = record r { tunnels = true; exploritory_pool = true; ticking = true }

-- `router_context_close`
unfoldable pub router_close : Router → Router
router_close r = record r { ticking = false }

-- `NETDB_MIN_PEERS`
abbrev pub netdb_min_peers : ℕ
netdb_min_peers = 20

-- What `router_context_ensure_min_peers` comes to: there are peers enough; there is no node to
-- bootstrap from; its file can not be opened, is no router info or is invalid; or it is tried.
pub data Peers : Type 0 where
  enough : ℕ → Peers
  no_node unopened bad_format invalid : Peers
  tried : RouterInfo → Peers
  crashed endless fuel_end : Peers

module _ (n : Sodium) (host : Host) (fuel : ℕ) where
  -- `router_context_try_bootstrap_from_router`, which takes the name of the router for the log.
  abbrev pub try_bootstrap : RouterInfo → Option Bytes → Peers
  try_bootstrap ri none = crashed
  try_bootstrap ri (some ident) = tried ri

  abbrev pub verified : RouterInfo → Option Bool → Peers
  verified ri none = crashed
  verified ri (some true) = try_bootstrap ri (base64_ident n ri)
  verified ri (some false) = if free_info ri then invalid else crashed

  abbrev pub identified : RouterInfo → Option Bytes → Peers
  identified ri none = crashed
  identified ri (some ident) = verified ri (verify n ri)

  abbrev pub from_info : InfoRead → Peers
  from_info (info_returned true ri) = identified ri (base64_ident n ri)
  from_info (info_returned false ri) = if free_info ri then bad_format else crashed
  from_info info_crashed = crashed
  from_info info_endless = endless
  from_info info_fuel_end = fuel_end

  unfoldable pub from_file : Option Bytes → Peers
  from_file none = unopened
  from_file (some input) = from_info (info_load n host fuel info_new input)

  abbrev pub from_bootstrap : (files : Bytes → Option Bytes) → Option Bytes → Peers
  from_bootstrap files none = no_node
  from_bootstrap files (some path) = from_file (files path)

  abbrev pub with_count : (files : Bytes → Option Bytes) → Option Bytes → Run ℕ → Peers
  with_count files bootstrap (done sz m) =
      if ltb sz netdb_min_peers then from_bootstrap files bootstrap else enough sz
  with_count files bootstrap fault = crashed
  with_count files bootstrap out_of_fuel = fuel_end

  -- `router_context_ensure_min_peers`
  unfoldable pub ensure_min_peers : (files : Bytes → Option Bytes) → Router → Peers
  ensure_min_peers files r = with_count files r.bootstrap (loaded_peer_count r.netdb.map)

  -- `router_context_handle_tick`, for the router that the timer holds
  unfoldable pub handle_tick : (files : Bytes → Option Bytes) → (timer : Router) → Peers
  handle_tick files timer = ensure_min_peers files timer

-- `router_context_try_reseed_from`: whether it writes a line to the log.
abbrev pub try_reseed_from : (url : Option Bytes) → Bool
try_reseed_from none = false
try_reseed_from (some url) = true
