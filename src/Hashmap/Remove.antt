-- ===== src/Hashmap/Remove.antt =====
-- `netdb_hashmap_remove`.
use i2p_lite.Base.{
  ℕ, zero, suc, ◌+◌, ◌-◌, ◌%◌, ◌^◌, ◌<◌, ◌≡◌, ◌≢◌, refl, sym, subst, ap, ◌∙◌, Bool, true, false,
  ◌||◌, List, ◌∷◌, Option, none, some, arith, Bool-cases, inl, inr,
}
use i2p_lite.Base.{update, Bytes, bytes_eq, length, ◌==◌, if◌then◌else◌}
use i2p_lite.Memory.{Host}
use i2p_lite.RouterInfo.{RouterInfo}
use i2p_lite.Hashmap.{slot_of, get_loop, get, node_free, unlink, remove_match, remove_loop, remove}
use i2p_lite.Hashmap.Heap.{
  Ptr, null, node, Link, anchor, next_of, Map, Run, fault, done, can_release, release, read_link,
  size_of, set_size,
}
use i2p_lite.Hashmap.Steps.{
  live-test, load-some, load-none, read_next-some, read_anchor, free_node-some,
}
use i2p_lite.Hashmap.Chain.{Cell, Chain, nil, cons, contains, Returns, returns, IsMap}

remove_loop-missing :
    (infos : ℕ → RouterInfo) (fuel : ℕ) (link : Link) (prev : Option Link) (k : Bytes) (m : Map)
    {p : Ptr} {cs : List Cell}
    → read_link link m ≡ done p m
    → Chain m.heap p cs
    → length cs < fuel
    → contains k cs ≡ false
    → remove_loop infos fuel link prev k m ≡ done false m
unfolding remove_loop contains
remove_loop-missing infos zero link prev k m r c h missing = absurd (omega arith)
remove_loop-missing infos (suc fuel) link prev k m r (nil e) h missing = rw (r, e)
remove_loop-missing infos (suc fuel) link prev k m r (cons {p} {k = j} ne e out rest) h missing =
    let miss : bytes_eq j k ≡ false = ground arith in
    rw (r, live-test p ne, load-some m p e, miss)
      (remove_loop-missing infos fuel (next_of p) (some link) k m (read_next-some m p e) rest
        (omega arith) (ground arith))

-- Removing a key that its bucket does not hold, from a well-formed map, returns 0 and changes nothing.
pub remove-missing :
    (host : Host) (infos : ℕ → RouterInfo) (fuel : ℕ) (k : Bytes) (m : Map) (bs : ℕ → List Cell)
    → IsMap (slot_of host) m bs
    → length (bs (slot_of host k)) < fuel
    → contains k (bs (slot_of host k)) ≡ false
    → remove infos host fuel k m ≡ done false m
unfolding remove
remove-missing host infos fuel k m bs is enough missing =
    let s = slot_of host k in
    remove_loop-missing infos fuel (anchor s) none k m (read_anchor s m) (is.chains s) enough
      missing

-- The memory after a node and its router info have been freed.
abbrev released_with : Map → ℕ → List ℕ
released_with m ri = if ri == null then m.released else ri ∷ m.released

abbrev node_gone : Map → Ptr → ℕ → Map
node_gone m p ri = record {
  table = m.table;
  sz = m.sz;
  heap = update m.heap p none;
  released = released_with m ri;
}

-- Whether a node with this router info can be freed.
abbrev pub releasable : (ℕ → RouterInfo) → Map → ℕ → Bool
releasable infos m ri = (ri == null) || can_release infos m.released ri

node_free-gone :
    (infos : ℕ → RouterInfo) (m : Map) (p : Ptr) {k : Bytes} (ri : ℕ) {q : Ptr}
    → p ≢ null
    → m.heap p ≡ some (node k ri q)
    → releasable infos m ri ≡ true
    → node_free infos p m ≡ done q (node_gone m p ri)
unfolding node_free release
node_free-gone infos m p ri ne e ok = elim (Bool-cases (ri == null)) [
  | inl none_held ↦ rw (live-test p ne, load-some m p e, none_held, free_node-some m p e)
  | inr held ↦
      let m1 = record m { released = ri ∷ m.released } in
      let can : can_release infos m.released ri ≡ true = ground arith in
      rw (live-test p ne, load-some m p e, held, can, free_node-some m1 p e)
]

get-dangling :
    (host : Host) (fuel : ℕ) (j : Bytes) (m : Map)
    → m.table (slot_of host j) ≢ null
    → m.heap (m.table (slot_of host j)) ≡ none
    → get host (suc fuel) j m ≡ fault
unfolding get get_loop
get-dangling host fuel j m ne e =
    let s = slot_of host j in
    rw (read_anchor s m, live-test (m.table s) ne, load-none m (m.table s) e)

-- The map is one entry smaller by its count, and a lookup reads freed memory.
abbrev pub Dangling : Host → Map → Bytes → ℕ → Bool → Map → Type 0
Dangling host m j fuel b m' =
    (b ≡ true) × (m'.sz ≡ (m.sz + 2 ^ 64 - 1) % 2 ^ 64) × (get host (suc fuel) j m' ≡ fault)

remove_head :
    (host : Host) (infos : ℕ → RouterInfo) (fuel more : ℕ) (k j : Bytes) (m : Map) (p : Ptr)
    {c : Cell} {cs : List Cell}
    → m.table (slot_of host k) ≡ p
    → Chain m.heap p (c ∷ cs)
    → bytes_eq c.key k ≡ true
    → slot_of host j ≡ slot_of host k
    → releasable infos m c.ri ≡ true
    → Returns (Dangling host m j more) (remove infos host (suc fuel) k m)
unfolding remove remove_loop remove_match unlink size_of set_size
remove_head host infos fuel more k j m p {c} at (cons ne e out rest) hit same ok =
    let m1 = node_gone m p c.ri in
    let s = slot_of host k in
    rw
      (
        read_anchor s m,
        at,
        live-test p ne,
        load-some m p e,
        hit,
        read_anchor s m,
        at,
        node_free-gone infos m p c.ri ne e ok,
      )
      (returns (
        refl,
        refl,
        (let head = ap m.table same ∙ at in
            let gone = update m.heap p none in
            get-dangling host more j _ (rw head ne) (rw head (ground arith))),
      ))

node_free-stuck :
    (infos : ℕ → RouterInfo) (m : Map) (p : Ptr) {k : Bytes} (ri : ℕ) {q : Ptr}
    → p ≢ null
    → m.heap p ≡ some (node k ri q)
    → releasable infos m ri ≡ false
    → node_free infos p m ≡ fault
unfolding node_free release
node_free-stuck infos m p ri ne e stuck =
    let held : (ri == null) ≡ false = ground arith in
    let can : can_release infos m.released ri ≡ false = ground arith in
    rw (live-test p ne, load-some m p e, held, can) refl

remove_head-stuck :
    (host : Host) (infos : ℕ → RouterInfo) (fuel : ℕ) (k : Bytes) (m : Map) (p : Ptr) {c : Cell}
    {cs : List Cell}
    → m.table (slot_of host k) ≡ p
    → Chain m.heap p (c ∷ cs)
    → bytes_eq c.key k ≡ true
    → releasable infos m c.ri ≡ false
    → remove infos host (suc fuel) k m ≡ fault
unfolding remove remove_loop remove_match unlink
remove_head-stuck host infos fuel k m p {c} at (cons ne e out rest) hit stuck =
    let s = slot_of host k in
    rw
      (
        read_anchor s m,
        at,
        live-test p ne,
        load-some m p e,
        hit,
        read_anchor s m,
        at,
        node_free-stuck infos m p c.ri ne e stuck,
      )
      refl

-- What the removal of a first node comes to, by whether it can be freed.
abbrev pub Removed : (can_free : Bool) → Host → Map → Bytes → ℕ → Run Bool → Type 0
Removed true host m j more r = Returns (Dangling host m j more) r
Removed false host m j more r = r ≡ fault

-- Removing the key of the first node of a bucket, whose router info is NULL or can be freed, returns 1 and
-- frees the node, but the anchor goes on pointing to it: a later lookup in that bucket reads freed memory.
-- With a router info that can not be freed the removal itself is a fault.
pub remove-first :
    (host : Host) (infos : ℕ → RouterInfo) (fuel more : ℕ) (k j : Bytes) (m : Map) {c : Cell}
    {cs : List Cell}
    → Chain m.heap (m.table (slot_of host k)) (c ∷ cs)
    → bytes_eq c.key k ≡ true
    → slot_of host j ≡ slot_of host k
    → Removed (releasable infos m c.ri) host m j more (remove infos host (suc fuel) k m)
remove-first host infos fuel more k j m {c} chain hit same =
    elim (Bool-cases (releasable infos m c.ri)) [
      | inl ok ↦
          subst (λ b. Removed b host m j more (remove infos host (suc fuel) k m)) (sym ok)
            (remove_head host infos fuel more k j m _ refl chain hit same ok)
      | inr stuck ↦
          subst (λ b. Removed b host m j more (remove infos host (suc fuel) k m)) (sym stuck)
            (remove_head-stuck host infos fuel k m _ refl chain hit stuck)
    ]
