-- ===== src/Hashmap/ForEach.antt =====
-- `netdb_hashmap_for_each`.
use i2p_lite.Base.{ℕ, zero, suc, ◌<◌, ◌≡◌, refl, false, List, [], ◌++◌, map, arith}
use i2p_lite.Base.{Bytes, length, ◌==◌}
use i2p_lite.Memory.{Host}
use i2p_lite.Hashmap.{slot_of, visit_chain, visit_buckets, for_each, buckets}
use i2p_lite.Hashmap.Heap.{Ptr, Link, anchor, next_of, Map, done, read_link}
use i2p_lite.Hashmap.Steps.{live-test, load-some, read_next-some, read_anchor}
use i2p_lite.Hashmap.Chain.{Cell, Chain, nil, cons, IsMap}

-- The pairs that a callback is given for a chain, and for the buckets below `n` but the first,
-- from the last on.
unfoldable pub entries : List Cell → List (Bytes × ℕ)
entries cs = map (λ (c : Cell). (c.key, c.ri)) cs

unfoldable pub entries_below : ℕ → (ℕ → List Cell) → List (Bytes × ℕ)
entries_below zero bs = []
entries_below (suc zero) bs = []
entries_below (suc (suc n)) bs = entries (bs (suc n)) ++ entries_below (suc n) bs

visit_chain-entries :
    (fuel : ℕ) (m : Map) (link : Link) (p : Ptr) {cs : List Cell}
    → read_link link m ≡ done p m
    → Chain m.heap p cs
    → length cs < fuel
    → visit_chain fuel link m ≡ done (entries cs) m
unfolding visit_chain entries
visit_chain-entries zero m link p r c h = absurd (omega arith)
visit_chain-entries (suc fuel) m link p r (nil e) h = rw (r, e)
visit_chain-entries (suc fuel) m link p r (cons {q} ne e out rest) h = rw (
  r,
  live-test p ne,
  load-some m p e,
  visit_chain-entries fuel m (next_of p) q (read_next-some m p e) rest (omega arith),
)

module _ (host : Host) (fuel : ℕ) (m : Map) (bs : ℕ → List Cell) (is : IsMap (slot_of host) m bs)
    (enough : (s : ℕ) → length (bs s) < fuel) where
  visit_buckets-entries : (n : ℕ) → visit_buckets fuel n m ≡ done (entries_below n bs) m
  unfolding visit_buckets entries_below
  visit_buckets-entries zero = refl
  visit_buckets-entries (suc zero) = refl
  visit_buckets-entries (suc (suc n)) =
      let more : (suc n == 0) ≡ false = ground arith in
      rw (
        more,
        visit_chain-entries fuel m (anchor (suc n)) (m.table (suc n)) (read_anchor (suc n) m)
            (is.chains (suc n)) (enough (suc n)),
        visit_buckets-entries (suc n),
      )

  -- The iteration gives its callback the entries of the buckets 127 to 1, in that order, each
  -- bucket's in the order of its chain. It passes over the entries of bucket 0.
  pub for_each-entries : for_each fuel m ≡ done (entries_below buckets bs) m
  unfolding for_each
  for_each-entries = visit_buckets-entries buckets
