-- ===== src/Hashmap/Append.antt =====
-- The loop of `netdb_hashmap_insert`, and a node that is appended to its chain.
use i2p_lite.Base.{
  ℕ, zero, suc, ◌+◌, ◌%◌, ◌^◌, ◌<◌, ◌≡◌, ◌≢◌, refl, ap, ◌∙◌, true, false, List, [], ◌∷◌, ◌++◌,
  Option, none, some, arith, Bool-cases, Option-cases, inl, inr,
}
use i2p_lite.Base.{update, Bytes, bytes_eq, length, if◌then◌else◌}
use i2p_lite.Hashmap.{insert_loop, relink, append}
use i2p_lite.Hashmap.Heap.{
  Ptr, null, Node, node, Link, anchor, next_of, Map, done, read_link, write_link, size_of, set_size,
}
use i2p_lite.Hashmap.Steps.{
  live-test, load-some, set_next-some, read_next-some, read_next-none, allocate-live, SameAt,
  read_link-same,
}
use i2p_lite.Hashmap.Chain
use i2p_lite.Hashmap.Chain.{
  Cell, cell, holds, Chain, nil, cons, frame, contains, Returns, returns, IsMap, not-holds_other,
}

-- Where the loop stops on a chain without the key.
abbrev pub end_link : Link → List Cell → Link
end_link link [] = link
end_link link (c ∷ cs) = end_link (next_of c.addr) cs

abbrev pub end_prev : Link → Option Link → List Cell → Option Link
end_prev link prev [] = prev
end_prev link prev (c ∷ cs) = end_prev (next_of c.addr) (some link) cs

pub insert_loop-run :
    (fuel : ℕ) (link : Link) (prev : Option Link) (k : Bytes) (m : Map) {p : Ptr} {cs : List Cell}
    → read_link link m ≡ done p m
    → Chain m.heap p cs
    → length cs < fuel
    → insert_loop fuel link prev k m
      ≡ done (if contains k cs then none else some (end_link link cs, end_prev link prev cs)) m
unfolding insert_loop contains
insert_loop-run zero link prev k m r c h = absurd (omega arith)
insert_loop-run (suc fuel) link prev k m r (nil e) h = rw (r, e)
insert_loop-run (suc fuel) link prev k m r (cons {p} {q} {k = j} {v} {cs} ne e out rest) h =
    rw (r, live-test p ne, load-some m p e)
      (elim (Bool-cases (bytes_eq j k)) [
        | inl hit ↦ rw hit
        | inr miss ↦ rw miss (
            insert_loop-run fuel (next_of p) (some link) k m (read_next-some m p e) rest
              (omega arith))
      ])

-- The memory with one node more at the end of a chain, and all else as it was.
pub record Grown (m : Map) (p : Ptr) (cs : List Cell) (new : Cell) (m' : Map) : Type 0 where
  pub heap : (a : Ptr) → holds a cs ≡ false → a ≢ new.addr → m'.heap a ≡ m.heap a
  pub table : m'.table ≡ m.table
  pub size : m'.sz ≡ (m.sz + 1) % 2 ^ 64
  pub released : m'.released ≡ m.released
  pub chain : Chain m'.heap p (cs ++ new ∷ [])

holds-append_one :
    (a : Ptr) (cs : List Cell) (new : Cell)
    → holds a cs ≡ false
    → a ≢ new.addr
    → holds a (cs ++ new ∷ []) ≡ false
holds-append_one a [] new h ne = ground arith
holds-append_one a (c ∷ cs) new h ne = ground (arith, holds-append_one a cs new)

pub not-holds_unused :
    {h : Ptr → Option Node} {p : Ptr} {cs : List Cell} (a : Ptr)
    → Chain h p cs
    → h a ≡ none
    → holds a cs ≡ false
not-holds_unused a (nil e) unused = refl
not-holds_unused a (cons ne e out rest) unused = ground (arith, not-holds_unused a rest unused)

-- A link that no node of the chain holds.
abbrev Outside : Link → List Cell → Type 0
Outside (anchor s) cs = Unit
Outside (next_of a) cs = holds a cs ≡ false

Outside-SameAt :
    (link : Link) (m m' : Map) (p : Ptr)
    → ((a : Ptr) (n : Node) → link ≡ next_of a → m.heap a ≡ some n → m'.heap a ≡ m.heap a)
    → m'.table ≡ m.table
    → read_link link m ≡ done p m
    → SameAt link m m'
Outside-SameAt (anchor s) m m' p heap table r = ap (λ (t : ℕ → Ptr). t s) table
Outside-SameAt (next_of a) m m' p heap table r = elim (Option-cases (m.heap a)) [
  | inl e ↦ cc (read_next-none m a e)
  | inr (n, e) ↦ heap a n refl e
]

module _ (fresh : Ptr) (k : Bytes) (v : ℕ) (live : fresh ≢ null) where
  -- The memory after the new node is linked behind `p`.
  abbrev linked : Map → Ptr → Bytes → ℕ → Map
  linked m p j w = record {
    table = m.table;
    sz = (m.sz + 1) % 2 ^ 64;
    heap =
        update (update (update m.heap fresh (some (node k v null))) p (some (node j w fresh))) p
          (some (node j w fresh));
    released = m.released;
  }

  append-one :
      (link : Link) (m : Map) (p q : Ptr) (j : Bytes) (w : ℕ)
      → m.heap fresh ≡ none
      → read_link link m ≡ done p m
      → m.heap p ≡ some (node j w q)
      → Outside link (cell p j w ∷ [])
      → append fresh k v (next_of p, some link) m ≡ done true (linked m p j w)
  unfolding append relink write_link size_of set_size
  append-one link m p q j w unused r e out =
      let new = node k v null in
      let m1 = record m { heap = update m.heap fresh (some new) } in
      let m2 = record m1 { heap = update m1.heap p (some (node j w fresh)) } in
      let ne : p ≢ fresh = grind arith in
      let e1 : m1.heap p ≡ some (node j w q) = ground arith in
      let e2 : m2.heap p ≡ some (node j w fresh) = ground arith in
      rw (
        allocate-live fresh new m live,
        set_next-some m1 p e1 fresh,
        read_next-some m2 p e2,
        read_link-same link m m2 p
            (Outside-SameAt link m m2 p (λ a n l h. kept link a n out l h) refl r) r,
        set_next-some m2 p e2 fresh,
      )
    where
      kept :
          (l : Link) (a : Ptr) (n : Node)
          → Outside l (cell p j w ∷ [])
          → l ≡ next_of a
          → m.heap a ≡ some n
          → update (update m.heap fresh (some (node k v null))) p (some (node j w fresh)) a
            ≡ m.heap a
      kept (anchor s) a n out l h = cc
      kept (next_of b) a n out l h = ground arith

  pub append-Grown :
      (m : Map) (link : Link) (p : Ptr) {q : Ptr} {cs : List Cell} (j : Bytes) (w : ℕ)
      → m.heap fresh ≡ none
      → read_link link m ≡ done p m
      → p ≢ null
      → m.heap p ≡ some (node j w q)
      → holds p cs ≡ false
      → Chain m.heap q cs
      → Outside link (cell p j w ∷ cs)
      → Returns
          (λ b m'. (b ≡ true) × Grown m p (cell p j w ∷ cs) (cell fresh k v) m')
          (append fresh k v (end_link (next_of p) cs, end_prev (next_of p) (some link) cs) m)
  append-Grown m link p {q} j w unused r ne e out (nil z) outside =
      let apart : p ≢ fresh = grind arith in
      rw (append-one link m p q j w unused r e outside) (
        returns (
          refl,
          record {
            heap = λ a o n. ground arith;
            table = refl;
            size = refl;
            released = refl;
            chain =
                cons ne (ground arith) (ground arith) (cons live (ground arith) refl (nil refl));
          },
        ))
  append-Grown m link p j w unused r ne e out
        (cons {p = p'} {k = j'} {v = w'} {cs = cs'} ne' e' out' rest) outside =
      let apart : p ≢ fresh = grind arith in
      let tail_apart = not-holds_unused fresh rest unused in
      Chain.mono
        (append-Grown m (next_of p) p' j' w' unused (read_next-some m p e) ne' e' out' rest out)
        λ b m' (added, g). (
          added,
          record {
            heap = λ a o n. g.heap a (ground arith) n;
            table = g.table;
            size = g.size;
            released = g.released;
            chain =
                cons ne (g.heap p out apart ∙ e)
                  (holds-append_one p (cell p' j' w' ∷ cs') (cell fresh k v) out apart) g.chain;
          },
        )
