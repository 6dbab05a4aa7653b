-- ===== src/Hashmap/Free.antt =====
-- `netdb_hashmap_free`.
use i2p_lite.Base.{
  ℕ, zero, suc, ◌+◌, ◌≤◌, ◌<◌, ◌≡◌, ◌≢◌, refl, sym, subst, ap, ◌∙◌, Bool, true, false, ◌&&◌, ◌||◌,
  false≢true, List, [], ◌∷◌, none, some, arith, Bool-cases, inl, inr,
}
use i2p_lite.Base.{Bytes, update, length, ◌==◌, if◌then◌else◌}
use i2p_lite.Memory.{Host}
use i2p_lite.RouterInfo.{RouterInfo}
use i2p_lite.Hashmap.{slot_of, node_free, free_chain, free_buckets, free_map, buckets}
use i2p_lite.Hashmap.Heap.{
  Ptr, null, node, Map, Run, done, fault, out_of_fuel, can_release, release, bind_run,
}
use i2p_lite.Hashmap.Steps.{live-test, load-some, free_node-some, read_anchor}
use i2p_lite.Hashmap.Chain.{
  Cell, cell, holds, Chain, nil, cons, frame, Returns, returns, IsMap, mono, not-holds_other,
}

-- The router infos of a chain, in front of those that have been freed before.
abbrev pub with_info : ℕ → List ℕ → List ℕ
with_info v infos = if v == null then infos else v ∷ infos

unfoldable pub released_by : List Cell → List ℕ → List ℕ
released_by [] infos = infos
released_by (c ∷ cs) infos = released_by cs (with_info c.ri infos)

-- Whether the router infos of a chain can be freed, one behind the other.
abbrev pub releasable : (ℕ → RouterInfo) → ℕ → List ℕ → Bool
releasable infos v before = (v == null) || can_release infos before v

unfoldable pub chain_releasable : (ℕ → RouterInfo) → List Cell → List ℕ → Bool
chain_releasable infos [] before = true
chain_releasable infos (c ∷ cs) before =
    releasable infos c.ri before && chain_releasable infos cs (with_info c.ri before)

-- A map whose node at an address has been freed.
abbrev without : Map → Ptr → ℕ → Map
without m p v = record m { heap = update m.heap p none; released = with_info v m.released }

node_free-live :
    (infos : ℕ → RouterInfo) (m : Map) (p q : Ptr) {k : _} (v : ℕ)
    → p ≢ null
    → m.heap p ≡ some (node k v q)
    → releasable infos v m.released ≡ true
    → node_free infos p m ≡ done q (without m p v)
unfolding node_free release
node_free-live infos m p q v ne e ok = elim (Bool-cases (v == null)) [
  | inl no_info ↦ rw (live-test p ne, load-some m p e, no_info, free_node-some m p e) refl
  | inr info ↦
      let can : can_release infos m.released v ≡ true = ground arith in
      rw
        (
          live-test p ne,
          load-some m p e,
          info,
          can,
          free_node-some (record m { released = v ∷ m.released }) p e,
        )
        refl
]

node_free-null : (infos : ℕ → RouterInfo) (m : Map) → node_free infos null m ≡ done null m
unfolding node_free
node_free-null infos m = refl

not-held : (p a : Ptr) (cs : List Cell) → holds p cs ≡ false → holds a cs ≡ true → (a == p) ≡ false
not-held p a cs out i = elim (Bool-cases (a == p)) [
  | inl here ↦
      let same : a ≡ p = ground arith in
      absurd (false≢true (sym out ∙ ap (λ x. holds x cs) (sym same) ∙ i))
  | inr there ↦ there
]

-- What the release of a chain leaves.
record Freed (cs : List Cell) (m m' : Map) : Type 0 where
  same_table : m'.table ≡ m.table
  infos : m'.released ≡ released_by cs m.released
  gone : (a : Ptr) → holds a cs ≡ true → m'.heap a ≡ none
  kept : (a : Ptr) → holds a cs ≡ false → m'.heap a ≡ m.heap a

Freed-nil : (m : Map) → Freed [] m m
unfolding released_by
Freed-nil m = record { same_table = refl; infos = refl; gone = λ a i. cc; kept = λ a i. refl }

Freed-cons :
    (m m' : Map) (p : Ptr) {k : Bytes} (v : ℕ) {cs : List Cell}
    → holds p cs ≡ false
    → Freed cs (without m p v) m'
    → Freed (cell p k v ∷ cs) m m'
unfolding released_by
Freed-cons m m' p v {cs} out f = record {
  same_table = f.same_table;
  infos = f.infos;
  gone = λ a i. elim (Bool-cases (a == p)) [
    | inl here ↦
        let same : a ≡ p = ground arith in
        let not_later : holds a cs ≡ false = ap (λ x. holds x cs) same ∙ out in
        f.kept a not_later ∙ rw here refl
    | inr there ↦ f.gone a (ground arith)
  ];
  kept = λ a i.
      let other : (a == p) ≡ false = ground arith in
      let later : holds a cs ≡ false = ground arith in f.kept a later ∙ rw other refl;
}

free_chain-Freed :
    (infos : ℕ → RouterInfo) (fuel : ℕ) (m : Map) (p : Ptr) {cs : List Cell}
    → Chain m.heap p cs
    → length cs < fuel
    → chain_releasable infos cs m.released ≡ true
    → Returns (λ u m'. Freed cs m m') (free_chain infos fuel p m)
unfolding free_chain chain_releasable
free_chain-Freed infos zero m p c h ok = absurd (omega arith)
free_chain-Freed infos (suc fuel) m p (nil e) h ok =
    rw (e, node_free-null infos m) (returns (Freed-nil m))
free_chain-Freed infos (suc fuel) m p (cons {q} {k} {v} ne e out (nil last)) h ok =
    rw (node_free-live infos m p q v ne e (ground arith), last)
      (returns (Freed-cons m (without m p v) p v out (Freed-nil (without m p v))))
free_chain-Freed infos (suc fuel) m p
      (cons {q} {k} {v} ne e out (cons {q = q2} {k = k2} {v = v2} {cs = cs2} ne' e' out' rest)) h
      ok =
    let chain =
      frame {g = update m.heap p none} (cons ne' e' out' rest)
        (λ a i. rw (not-held p a (cell q k2 v2 ∷ cs2) out i) refl) in
    rw (node_free-live infos m p q v ne e (ground arith), live-test q ne')
      (mono (free_chain-Freed infos fuel (without m p v) q chain (omega arith) (ground arith))
        (λ u m' f. Freed-cons m m' p v out f))

-- The router infos of the chains of buckets, from a bucket on.
pub released_from : (left idx : ℕ) → (ℕ → List Cell) → List ℕ → List ℕ
released_from zero idx bs infos = infos
released_from (suc left) idx bs infos = released_from left (idx + 1) bs (released_by (bs idx) infos)

unfoldable pub buckets_releasable :
    (ℕ → RouterInfo) → (left idx : ℕ) → (ℕ → List Cell) → List ℕ → Bool
buckets_releasable infos zero idx bs before = true
buckets_releasable infos (suc left) idx bs before =
    chain_releasable infos (bs idx) before
    && buckets_releasable infos left (idx + 1) bs (released_by (bs idx) before)

-- What the release of the buckets from `idx` up to `idx + left` leaves.
record FreedFrom (bs : ℕ → List Cell) (left idx : ℕ) (m m' : Map) : Type 0 where
  infos : m'.released ≡ released_from left idx bs m.released
  gone : (s a : ℕ) → idx ≤ s → s < idx + left → holds a (bs s) ≡ true → m'.heap a ≡ none
  kept : (a : ℕ) → ((s : ℕ) → idx ≤ s → holds a (bs s) ≡ false) → m'.heap a ≡ m.heap a

module _ (bs : ℕ → List Cell)
    (apart : (s t a : ℕ) → s ≢ t → holds a (bs t) ≡ true → holds a (bs s) ≡ false) where
  FreedFrom-next :
      (left idx : ℕ) (m m1 m2 : Map)
      → Freed (bs idx) m m1
      → FreedFrom bs left (idx + 1) m1 m2
      → FreedFrom bs (suc left) idx m m2
  unfolding released_from
  FreedFrom-next left idx m m1 m2 f g = record {
    infos = g.infos ∙ ap (released_from left (idx + 1) bs) f.infos;
    gone = λ s a low high i. elim (Bool-cases (s == idx)) [
      | inl first ↦
          let same : s ≡ idx = ground arith in
          let here : holds a (bs idx) ≡ true = ap (λ t. holds a (bs t)) (sym same) ∙ i in
          g.kept a (λ t lt. apart t idx a (ground arith) here) ∙ f.gone a here
      | inr later ↦ g.gone s a (ground arith) (ground arith) i
    ];
    kept = λ a out. g.kept a (λ s low. out s (omega arith)) ∙ f.kept a (out idx (omega arith));
  }

  module _ (infos : ℕ → RouterInfo) (fuel : ℕ) (enough : (s : ℕ) → length (bs s) < fuel) where
    free_buckets-FreedFrom :
        (left idx : ℕ) (m : Map)
        → ((s : ℕ) → idx ≤ s → Chain m.heap (m.table s) (bs s))
        → buckets_releasable infos left idx bs m.released ≡ true
        → Returns (λ u m'. FreedFrom bs left idx m m') (free_buckets infos fuel left idx m)
    unfolding free_buckets released_from buckets_releasable
    free_buckets-FreedFrom zero idx m chains ok = returns (record {
      infos = refl;
      gone = λ s a low high i. absurd (omega arith);
      kept = λ a out. refl;
    })
    free_buckets-FreedFrom (suc left) idx m chains ok = rw (read_anchor idx m) (
        after (free_chain infos fuel (m.table idx) m)
          (free_chain-Freed infos fuel m (m.table idx) (chains idx (omega arith)) (enough idx)
            (ground arith))
          (λ m1 chains1 ok1. free_buckets-FreedFrom left (idx + 1) m1 chains1 ok1))
      where
        after :
            (r : Run (Unit {0}))
            → Returns (λ u m1. Freed (bs idx) m m1) r
            → ((m1 : Map)
                → ((s : ℕ) → idx + 1 ≤ s → Chain m1.heap (m1.table s) (bs s))
                → buckets_releasable infos left (idx + 1) bs m1.released ≡ true
                → Returns
                    (λ u m'. FreedFrom bs left (idx + 1) m1 m')
                    (free_buckets infos fuel left (idx + 1) m1))
            → Returns
                (λ u m'. FreedFrom bs (suc left) idx m m')
                (bind_run r (λ u. free_buckets infos fuel left (idx + 1)))
        after (done u m1) (returns f) rest =
            mono
              (rest m1
                (λ s low.
                  subst (λ t. Chain m1.heap (t s) (bs s)) (sym f.same_table)
                    (frame (chains s (omega arith))
                      (λ a i. f.kept a (apart idx s a (ground arith) i))))
                (rw f.infos (ground arith)))
              (λ u' m2 g. FreedFrom-next left idx m m1 m2 f g)
        after fault h rest = elim h [ ]
        after out_of_fuel h rest = elim h [ ]

module _ (host : Host) (infos : ℕ → RouterInfo) (fuel : ℕ) (m : Map) (bs : ℕ → List Cell)
    (is : IsMap (slot_of host) m bs) (enough : (s : ℕ) → length (bs s) < fuel) where
  -- Giving back a map whose chains are shorter than the fuel, and whose router infos are NULL or can be freed
  -- one behind the other, returns without a fault: every node of its buckets is gone then, and the router infos that are not NULL have been freed, one for each node, in
  -- the order of the buckets and of their chains.
  pub free_map-all :
      buckets_releasable infos buckets 0 bs m.released ≡ true
      → Returns
          (λ u m'.
            (m'.released ≡ released_from buckets 0 bs m.released)
            × ((s a : ℕ) → s < buckets → holds a (bs s) ≡ true → m'.heap a ≡ none))
          (free_map infos fuel m)
  unfolding free_map
  free_map-all ok =
      mono
        (free_buckets-FreedFrom bs (λ s t a ne i. not-holds_other is s t a ne i) infos fuel enough
          buckets 0 m (λ s low. is.chains s) ok)
        (λ u m' f. (f.infos, λ s a h i. f.gone s a (omega arith) h i))
