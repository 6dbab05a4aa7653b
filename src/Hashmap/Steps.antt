-- ===== src/Hashmap/Steps.antt =====
-- The commands on memory where they do not fault.
use i2p_lite.Base.{ℕ, ◌≡◌, ◌≢◌, refl, false, none, inl, inr, ap, Option-cases, some, arith}
use i2p_lite.Base.{update, ◌==◌}
use i2p_lite.Hashmap.Heap.{
  Ptr, null, Node, Link, anchor, next_of, Map, fault, done, load, set_next, read_link, allocate,
  free_node,
}

pub live-test : (p : Ptr) → p ≢ null → (p == null) ≡ false
live-test p ne = ground arith

module _ (m : Map) (p : Ptr) {n : Node} (e : m.heap p ≡ some n) where
  pub load-some : load p m ≡ done n m
  unfolding load
  load-some = rw (e, load)

  pub set_next-some :
      (q : Ptr)
      → set_next p q m
        ≡ done tt (record m { heap = update m.heap p (some (record n { next = q })) })
  unfolding set_next
  set_next-some q = rw (e, set_next)

  pub read_next-some : read_link (next_of p) m ≡ done n.next m
  unfolding read_link
  read_next-some = rw (e, read_link)

  pub free_node-some : free_node p m ≡ done tt (record m { heap = update m.heap p none })
  unfolding free_node
  free_node-some = rw (e, free_node)

pub allocate-live :
    (p : Ptr) (n : Node) (m : Map)
    → p ≢ null
    → allocate p n m ≡ done tt (record m { heap = update m.heap p (some n) })
unfolding allocate
allocate-live p n m ne = rw (live-test p ne)

-- A dangling pointer cannot be read through.
module _ (m : Map) (p : Ptr) (e : m.heap p ≡ none) where
  pub load-none : load p m ≡ fault
  unfolding load
  load-none = rw (e, load)

  pub read_next-none : read_link (next_of p) m ≡ fault
  unfolding read_link
  read_next-none = rw (e, read_link)

-- Two memories agree at a link.
abbrev pub SameAt : Link → Map → Map → Type 0
SameAt (anchor s) m m' = m'.table s ≡ m.table s
SameAt (next_of a) m m' = m'.heap a ≡ m.heap a

pub read_link-same :
    (link : Link) (m m' : Map) (p : Ptr)
    → SameAt link m m'
    → read_link link m ≡ done p m
    → read_link link m' ≡ done p m'
unfolding read_link
read_link-same (anchor s) m m' p same r = ap (λ q. done q m') (ground arith)
read_link-same (next_of a) m m' p same r = elim (Option-cases (m.heap a)) [
  | inl e ↦ cc (read_next-none m a e)
  | inr (n, e) ↦
      rw (same, e, read_link) (ap (λ q. done q m') (ground (arith, read_next-some m a e)))
]

pub read_anchor : (s : ℕ) (m : Map) → read_link (anchor s) m ≡ done (m.table s) m
unfolding read_link
read_anchor s m = refl
