-- ===== src/Tunnels.antt =====
-- mnet/tunnel_context.c: the hash map of tunnels by their ids.
-- Nothing but the map points into its chains, so a chain is the list of the nodes behind its anchor.
-- A `struct mnet_garlic_tunnel *` is a number, and 0 is NULL.
pub mod Context
pub mod Put
mod Tests
use i2p_lite.Base.{
  ℕ, zero, suc, ◌+◌, ◌-◌, ◌%◌, Bool, true, false, List, [], ◌∷◌, ◌++◌, Option, none, some,
}
use i2p_lite.Base.{◌==◌, if◌then◌else◌, update}

-- `TC_BUCKETS`
abbrev pub tc_buckets : ℕ
tc_buckets = 256

-- `struct mnet_garlic_tc_hashnode`
pub record HashNode : Type 0 where
  pub tid : ℕ
  pub tunnel : ℕ

-- `struct mnet_garlic_tc_hashmap`: the nodes behind each anchor, in order. An anchor's `tid` is the 0
-- that `xmalloc` has put there.
pub record TcMap : Type 0 where
  pub chains : ℕ → List HashNode
  pub sz : ℕ

abbrev pub anchor_tid : ℕ
anchor_tid = 0

-- `mnet_garlic_tc_hashnode_hash`
abbrev pub hash : ℕ → ℕ
hash tid = tid % tc_buckets

-- `mnet_garlic_tc_hashmap_init`
unfoldable pub init : TcMap
init = record { chains = λ s. []; sz = 0 }

-- The loop of `mnet_garlic_tc_hashmap_get`
unfoldable pub get_loop : List HashNode → ℕ → Option ℕ
get_loop [] tid = none
get_loop (n ∷ ns) tid = if n.tid == tid then some n.tunnel else get_loop ns tid

-- `mnet_garlic_tc_hashmap_get`: `none` for the return of 0.
unfoldable pub get : TcMap → ℕ → Option ℕ
get map tid = get_loop (map.chains (hash tid)) tid

-- The loop of `mnet_garlic_tc_hashmap_put` at a node with a tid and the nodes behind it: those
-- behind it afterwards, or `none` for the return of 0. A node is compared if it has a next one.
unfoldable pub put_loop : (at : ℕ) → List HashNode → ℕ → ℕ → Option (List HashNode)
put_loop at [] tid tunnel = some (record { tid = tid; tunnel = tunnel } ∷ [])
put_loop at (n ∷ ns) tid tunnel =
    let more = put_loop n.tid ns tid tunnel in
    if at == tid then none else elim more [ none ↦ none | some ms ↦ some (n ∷ ms) ]

abbrev pub store : TcMap → ℕ → Option (List HashNode) → Bool × TcMap
store map slot none = (false, map)
store map slot (some ms) = (true, record map { chains = update map.chains slot ms })

-- `mnet_garlic_tc_hashmap_put`
unfoldable pub put : TcMap → ℕ → ℕ → Bool × TcMap
put map tid tunnel = store map (hash tid) (put_loop anchor_tid (map.chains (hash tid)) tid tunnel)

-- `mnet_garlic_tc_hashmap_remove`: it walks over the chain, does nothing, and returns 0.
unfoldable pub remove_loop : List HashNode → ℕ → Bool
remove_loop [] tid = false
remove_loop (n ∷ ns) tid = remove_loop ns tid

unfoldable pub remove : TcMap → ℕ → Bool × TcMap
remove map tid = (remove_loop (map.chains (hash tid)) tid, map)

-- `mnet_garlic_tc_hashnode_free` down a chain, and the loop of `mnet_garlic_tc_hashmap_free`: the
-- tunnels that are freed, in order.
unfoldable pub free_chain : List HashNode → List ℕ
free_chain [] = []
free_chain (n ∷ ns) = let rest = free_chain ns in if n.tunnel == 0 then rest else n.tunnel ∷ rest

unfoldable pub free_from : (left idx : ℕ) → TcMap → List ℕ
free_from zero idx map = []
free_from (suc left) idx map = free_chain (map.chains idx) ++ free_from left (idx + 1) map

unfoldable pub free_map : TcMap → List ℕ
free_map map = free_from tc_buckets 0 map
