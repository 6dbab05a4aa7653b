-- ===== src/Hashmap/Insert.antt =====
-- `netdb_hashmap_insert`.
use i2p_lite.Base.{
  not, ℕ, ◌+◌, ◌%◌, ◌^◌, ◌<◌, ◌≡◌, ◌≢◌, refl, sym, ap, subst, false≢true, ◌∙◌, Bool, true, false,
  List, [], ◌∷◌, ◌++◌, none, arith, Bool-cases, inl, inr,
}
use i2p_lite.Base.{update, Bytes, length, ◌==◌, All}
use i2p_lite.Memory.{Host}
use i2p_lite.Hashmap.{slot_of, relink, append, insert}
use i2p_lite.Hashmap.Heap.{Ptr, null, node, anchor, Map, done, write_link, size_of, set_size}
use i2p_lite.Hashmap.Steps.{read_anchor, allocate-live}
use i2p_lite.Hashmap.Chain
use i2p_lite.Hashmap.Chain.{
  Cell, cell, holds, Chain, nil, cons, frame, contains, Returns, returns, IsMap, not-holds_other,
}
use i2p_lite.Hashmap.Append.{end_link, end_prev, insert_loop-run, not-holds_unused, append-Grown}

-- The buckets after the insertion of a cell.
abbrev pub with_cell : (ℕ → List Cell) → ℕ → Cell → ℕ → List Cell
with_cell bs s c = update bs s (bs s ++ c ∷ [])

All-append_one :
    (P : Cell → Type 0) (cs : List Cell) (c : Cell) → All P cs → P c → All P (cs ++ c ∷ [])
All-append_one P [] c all here = (here, tt)
All-append_one P (x ∷ cs) c all here = (all.0, All-append_one P cs c all.1 here)

-- The memory in which the chain of one bucket has grown.
record Extended (m : Map) (s : ℕ) (cs : List Cell) (new : Cell) (m' : Map) : Type 0 where
  heap : (a : Ptr) → holds a cs ≡ false → a ≢ new.addr → m'.heap a ≡ m.heap a
  table : (t : ℕ) → t ≢ s → m'.table t ≡ m.table t
  size : m'.sz ≡ (m.sz + 1) % 2 ^ 64
  released : m'.released ≡ m.released
  chain : Chain m'.heap (m'.table s) (cs ++ new ∷ [])

module _ {slot : Bytes → ℕ} {m m' : Map} {bs : ℕ → List Cell} (s : ℕ) (new : Cell)
    (is : IsMap slot m bs) (unused : m.heap new.addr ≡ none) (g : Extended m s (bs s) new m') where
  other-Chain : (t : ℕ) → t ≢ s → Chain m'.heap (m'.table t) (bs t)
  other-Chain t ne = rw (g.table t ne) (
      Chain.frame (is.chains t) λ a i. g.heap a (not-holds_other is s t a (λ e. ne (sym e)) i) (λ e.
        false≢true (
          sym (not-holds_unused new.addr (is.chains t) unused)
          ∙ ap (λ b. holds b (bs t)) (sym e)
          ∙ i)))

  Extended-IsMap : slot new.key ≡ s → IsMap slot m' (with_cell bs s new)
  Extended-IsMap own = record {
    chains = λ t. elim (Bool-cases (t == s)) [
      | inl same ↦
          let e : t ≡ s = ground arith in
          rw same (subst (λ u. Chain m'.heap (m'.table u) (bs s ++ new ∷ [])) (sym e) g.chain)
      | inr other ↦ rw other (other-Chain t (ground arith))
    ];
    slots = λ t. elim (Bool-cases (t == s)) [
      | inl same ↦
          let e : t ≡ s = ground arith in
          rw same (
            subst (λ u. All (λ (c : Cell). slot c.key ≡ u) (bs s ++ new ∷ [])) (sym e)
              (All-append_one (λ (c : Cell). slot c.key ≡ s) (bs s) new (is.slots s) own))
      | inr other ↦ rw other (is.slots t)
    ];
  }

-- The end of an insertion, from the anchor of a bucket on.
append-Extended :
    (fresh : Ptr) (k : Bytes) (v : ℕ) (live : fresh ≢ null) (m : Map) (s p : ℕ) {cs : List Cell}
    → m.heap fresh ≡ none
    → m.table s ≡ p
    → Chain m.heap p cs
    → Returns
        (λ b m'. (b ≡ true) × Extended m s cs (cell fresh k v) m')
        (append fresh k v (end_link (anchor s) cs, end_prev (anchor s) none cs) m)
unfolding append write_link relink size_of set_size
append-Extended fresh k v live m s p unused at (nil e) =
    rw (allocate-live fresh (node k v null) m live) (
      returns (
        refl,
        record {
          heap = λ a o n. ground arith;
          table = λ t d. ground arith;
          size = refl;
          released = refl;
          chain =
              (let self : update m.table s fresh s ≡ fresh = ground arith in
                rw self (cons live (ground arith) refl (nil refl)));
        },
      ))
append-Extended fresh k v live m s p unused at (cons {k = j} {v = w} ne e out rest) =
    Chain.mono
      (append-Grown fresh k v live m (anchor s) p j w unused
        (read_anchor s m ∙ ap (λ q. done q m) at) ne e out rest tt)
      λ b m' (added, g). (
        added,
        record {
          heap = g.heap;
          table = λ t d. ap (λ (f : ℕ → Ptr). f t) g.table;
          size = g.size;
          released = g.released;
          chain = rw (g.table, at) g.chain;
        },
      )

-- What an insertion leaves: the memory itself under a key that was there, and else the new cell in its
-- bucket, and one entry more.
abbrev pub Inserted : (old : Bool) → (Bytes → ℕ) → (ℕ → List Cell) → ℕ → Cell → Map → Map → Type 0
Inserted true slot bs s c m m' = m' ≡ m
Inserted false slot bs s c m m' =
    IsMap slot m' (with_cell bs s c) × (m'.sz ≡ (m.sz + 1) % 2 ^ 64) × (m'.released ≡ m.released)

-- Inserting a router info under a key that its bucket holds already changes nothing and returns 0.
-- Any other is appended to the chain of its bucket, in a node that the allocator gives, which must
-- not be in use: the other buckets stay as they are, no router info is given back, the size grows by
-- one, and 1 is returned.
pub insert-IsMap :
    (host : Host) (fuel : ℕ) (fresh : Ptr) (k : Bytes) (v : ℕ) (m : Map) (bs : ℕ → List Cell)
    → IsMap (slot_of host) m bs
    → length (bs (slot_of host k)) < fuel
    → fresh ≢ null
    → m.heap fresh ≡ none
    → let s = slot_of host k in
      let old = contains k (bs s) in
      Returns
        (λ b m'. (b ≡ not old) × Inserted old (slot_of host) bs s (cell fresh k v) m m')
        (insert host fuel fresh k v m)
unfolding insert
insert-IsMap host fuel fresh k v m bs is enough live unused =
    let s = slot_of host k in
    rw (insert_loop-run fuel (anchor s) none k m (read_anchor s m) (is.chains s) enough)
      (elim (Bool-cases (contains k (bs s))) [
        | inl old ↦ rw old (returns (refl, refl))
        | inr new ↦ rw new (
            Chain.mono (append-Extended fresh k v live m s (m.table s) unused refl (is.chains s))
              λ b m' (added, x).
                (added, (Extended-IsMap s (cell fresh k v) is unused x refl, x.size, x.released)))
      ])
