-- ===== src/Hashmap/Lookup.antt =====
-- `netdb_hashmap_get`.
use i2p_lite.Base.{ℕ, zero, suc, ◌<◌, ◌≡◌, List, arith, Bool-cases, inl, inr}
use i2p_lite.Base.{Bytes, bytes_eq, length}
use i2p_lite.Memory.{Host}
use i2p_lite.Hashmap.{slot_of, get_loop, get}
use i2p_lite.Hashmap.Heap.{Ptr, Map, done, read_link}
use i2p_lite.Hashmap.Steps.{live-test, load-some}
use i2p_lite.Hashmap.Chain.{Cell, Chain, nil, cons, find, IsMap}

pub get_loop-find :
    (fuel : ℕ) (k : Bytes) (m : Map) {p : Ptr} {cs : List Cell}
    → Chain m.heap p cs
    → length cs < fuel
    → get_loop fuel p k m ≡ done (find k cs) m
unfolding get_loop find
get_loop-find zero k m c h = absurd (omega arith)
get_loop-find (suc fuel) k m (nil e) h = rw e
get_loop-find (suc fuel) k m (cons {p} {q} {k = j} {cs} ne e out rest) h =
    rw (live-test p ne, load-some m p e)
      (elim (Bool-cases (bytes_eq j k)) [
        | inl hit ↦ rw hit
        | inr miss ↦ rw miss (get_loop-find fuel k m rest (omega arith))
      ])

-- In a well-formed map and on fuel above the length of the key's chain, looking up a key gives the router info of the first node of its bucket that has the key, or
-- nothing if there is none, and changes nothing.
pub get-find :
    (host : Host) (fuel : ℕ) (k : Bytes) (m : Map) (bs : ℕ → List Cell)
    → IsMap (slot_of host) m bs
    → length (bs (slot_of host k)) < fuel
    → get host fuel k m ≡ done (find k (bs (slot_of host k))) m
unfolding get read_link
get-find host fuel k m bs is h = get_loop-find fuel k m (is.chains (slot_of host k)) h
