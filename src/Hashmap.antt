-- ===== src/Hashmap.antt =====
-- mnet/netdb_hashmap.c: the network database's hash map, over an explicit heap.
-- Pointers are numbers and 0 is NULL; a freed or unallocated address holds nothing, and an access to
-- it is a fault. A `struct router_info *` is a number too, `infos` is what it points to, and a key is
-- the list of its bytes. The loops over a chain run on fuel.
pub mod Heap
pub mod Free
pub mod Steps
pub mod Chain
pub mod Lookup
pub mod Append
pub mod Insert
pub mod Contract
pub mod Remove
pub mod ForEach
mod Tests
use i2p_lite.Base.{
  ℕ, zero, suc, ◌+◌, ◌-◌, ◌%◌, ◌^◌, Bool, true, false, not, List, [], ◌∷◌, ◌++◌, Option, none, some,
}
use i2p_lite.Base.{Bytes, bytes_eq, take, ◌==◌, if◌then◌else◌}
use i2p_lite.Memory.{Host, host_value}
use i2p_lite.RouterInfo.{RouterInfo}
use Heap.{
  Ptr, null, Node, node, Link, anchor, next_of, Map, Cmd, out_of_fuel, fault, pure, ◌>>=◌, ◌>>◌,
  load, read_link, write_link, set_next, allocate, free_node, release, set_size, size_of,
}

-- `BUCKETS`
abbrev pub buckets : ℕ
buckets = 128

-- `netdb_hashmap_hash_ident`: the first eight bytes as a `size_t` of the host.
unfoldable pub slot_of : Host → Bytes → ℕ
slot_of host k = host_value host (take 8 k) % buckets

-- `netdb_hashmap_cmp_ident`
abbrev pub matches : Node → Bytes → Bool
matches n k = bytes_eq n.key k

-- `netdb_hash_node_free`: releases the router info and the node, and returns the next node.
unfoldable pub node_free : (infos : ℕ → RouterInfo) → Ptr → Cmd Ptr
node_free infos p = if p == null then pure null else do
  n ← load p
  if n.ri == null then pure tt else release infos n.ri
  free_node p
  pure n.next

-- `while((node = netdb_hash_node_free(node))) continue;`
unfoldable pub free_chain : (infos : ℕ → RouterInfo) → ℕ → Ptr → Cmd (Unit {0})
free_chain infos zero p = λ _. out_of_fuel
free_chain infos (suc fuel) p = do
  q ← node_free infos p
  if q == null then pure tt else free_chain infos fuel q

-- The loop of `netdb_hashmap_free`, from a bucket on, with `left` buckets to go.
unfoldable pub free_buckets : (infos : ℕ → RouterInfo) → ℕ → (left idx : ℕ) → Cmd (Unit {0})
free_buckets infos fuel zero idx = pure tt
free_buckets infos fuel (suc left) idx = do
  p ← read_link (anchor idx)
  free_chain infos fuel p
  free_buckets infos fuel left (idx + 1)

-- The nodes that `netdb_hashmap_free` gives back, before the map itself.
unfoldable pub free_map : (infos : ℕ → RouterInfo) → ℕ → Cmd (Unit {0})
free_map infos fuel = free_buckets infos fuel buckets 0

-- The loop of `netdb_hashmap_get`
unfoldable pub get_loop : ℕ → Ptr → Bytes → Cmd (Option ℕ)
get_loop zero p k = λ _. out_of_fuel
get_loop (suc fuel) p k =
    if p == null
    then pure none
    else do n ← load p; if matches n k then pure (some n.ri) else get_loop fuel n.next k

-- `netdb_hashmap_get`: `none` for the return of 0.
unfoldable pub get : Host → ℕ → Bytes → Cmd (Option ℕ)
get host fuel k = do p ← read_link (anchor (slot_of host k)); get_loop fuel p k

-- The loop of `netdb_hashmap_insert` over `node` and `prev`: `none` for a duplicate.
unfoldable pub insert_loop : ℕ → Link → Option Link → Bytes → Cmd (Option (Link × Option Link))
insert_loop zero link prev k = λ _. out_of_fuel
insert_loop (suc fuel) link prev k = do
  p ← read_link link
  if p == null then pure (some (link, prev)) else do
    n ← load p
    if matches n k then pure none else insert_loop fuel (next_of p) (some link) k

-- `(*prev)->next = *node`, if there is a `prev`.
unfoldable pub relink : Link → Option Link → Cmd (Unit {0})
relink link none = pure tt
relink link (some prev) = do p ← read_link link; q ← read_link prev; set_next q p

-- What `netdb_hashmap_insert` does at the end of the chain; `fresh` is what `mallocx` returns.
unfoldable pub append : (fresh : Ptr) → Bytes → ℕ → Link × Option Link → Cmd Bool
append fresh k ri (link, prev) = do
  allocate fresh (node k ri null)
  write_link link fresh
  relink link prev
  sz ← size_of
  set_size ((sz + 1) % 2 ^ 64)
  pure true

-- `netdb_hashmap_insert` of a router info whose hash is `k`.
unfoldable pub insert : Host → ℕ → (fresh : Ptr) → Bytes → ℕ → Cmd Bool
insert host fuel fresh k ri = do
  end ← insert_loop fuel (anchor (slot_of host k)) none k
  elim end [ none ↦ pure false | some e ↦ append fresh k ri e ]

-- `if(prev) (*prev)->next = (*node)->next;` with `q` for `(*node)->next`.
unfoldable pub unlink : Option Link → Ptr → Cmd (Unit {0})
unlink none q = pure tt
unlink (some prev) q = do p ← read_link prev; set_next p q

-- The match in `netdb_hashmap_remove`: `*node` is read again behind the unlinking.
unfoldable pub remove_match : (infos : ℕ → RouterInfo) → Link → Option Link → Ptr → Cmd Bool
remove_match infos link prev q = do
  unlink prev q
  victim ← read_link link
  node_free infos victim
  sz ← size_of
  set_size ((sz + 2 ^ 64 - 1) % 2 ^ 64)
  pure true

unfoldable pub remove_loop : (infos : ℕ → RouterInfo) → ℕ → Link → Option Link → Bytes → Cmd Bool
remove_loop infos zero link prev k = λ _. out_of_fuel
remove_loop infos (suc fuel) link prev k = do
  p ← read_link link
  if p == null then pure false else do
    n ← load p
    if matches n k
        then remove_match infos link prev n.next
        else remove_loop infos fuel (next_of p) (some link) k

-- `netdb_hashmap_remove`
unfoldable pub remove : (infos : ℕ → RouterInfo) → Host → ℕ → Bytes → Cmd Bool
remove infos host fuel k = remove_loop infos fuel (anchor (slot_of host k)) none k

-- The inner loop of `netdb_hashmap_for_each`: the keys and values that the callback is given, for a
-- callback that leaves the map alone.
unfoldable pub visit_chain : ℕ → Link → Cmd (List (Bytes × ℕ))
visit_chain zero link = λ _. out_of_fuel
visit_chain (suc fuel) link = do
  p ← read_link link
  if p == null
      then pure []
      else do n ← load p; rest ← visit_chain fuel (next_of p); pure ((n.key, n.ri) ∷ rest)

-- `while(--idx)`
unfoldable pub visit_buckets : ℕ → (idx : ℕ) → Cmd (List (Bytes × ℕ))
visit_buckets fuel zero = pure []
visit_buckets fuel (suc idx) =
    if idx == 0
    then pure []
    else do here ← visit_chain fuel (anchor idx); rest ← visit_buckets fuel idx; pure (here ++ rest)

-- `netdb_hashmap_for_each`
unfoldable pub for_each : ℕ → Cmd (List (Bytes × ℕ))
for_each fuel = visit_buckets fuel buckets

-- `netdb_hashmap_size`
unfoldable pub map_size : Cmd ℕ
map_size = size_of

-- `netdb_hashmap_init`: `xmalloc` zeroes the anchors and the size.
unfoldable pub init : Map
init = record { table = λ _. null; sz = 0; heap = λ _. none; released = [] }
