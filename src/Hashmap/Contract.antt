-- ===== src/Hashmap/Contract.antt =====
-- `netdb_hashmap_insert` and `netdb_hashmap_get` together.
use i2p_lite.Base.{
  ℕ, suc, ◌<◌, ◌≡◌, ◌≢◌, refl, sym, ap, ◌∙◌, true, false, not, ◌&&◌, List, [], ◌∷◌, ◌++◌, none,
  some, arith, Bool-cases, inl, inr,
}
use i2p_lite.Base.{Bytes, bytes_eq, bytes_eq→eq, length, length-append, ◌==◌, if◌then◌else◌}
use i2p_lite.Memory.{Host}
use i2p_lite.Hashmap.{slot_of, get, insert}
use i2p_lite.Hashmap.Heap.{Ptr, null, Map, done}
use i2p_lite.Hashmap.Chain
use i2p_lite.Hashmap.Chain.{Cell, cell, find, contains, Returns, IsMap}
use i2p_lite.Hashmap.Lookup.{get-find}
use i2p_lite.Hashmap.Insert.{with_cell, insert-IsMap}

==_refl : (a : ℕ) → (a == a) ≡ true
==_refl a = ground arith

find-append_one :
    (j : Bytes) (cs : List Cell) (c : Cell)
    → contains c.key cs ≡ false
    → find j (cs ++ c ∷ []) ≡ (if bytes_eq c.key j then some c.ri else find j cs)
unfolding find contains
find-append_one j [] c h = refl
find-append_one j (x ∷ cs) c h = elim (Bool-cases (bytes_eq c.key j)) [
  | inl e ↦ let same = bytes_eq→eq c.key j e in ground (arith, find-append_one j cs c)
  | inr e ↦ ground (arith, find-append_one j cs c)
]

find-with_cell :
    (slot : Bytes → ℕ) (bs : ℕ → List Cell) (c : Cell) (j : Bytes)
    → contains c.key (bs (slot c.key)) ≡ false
    → find j (with_cell bs (slot c.key) c (slot j))
      ≡ (if bytes_eq c.key j then some c.ri else find j (bs (slot j)))
find-with_cell slot bs c j h = elim (Bool-cases (slot j == slot c.key)) [
  | inl same ↦
      let e : slot j ≡ slot c.key = ground arith in
      rw (e, ==_refl (slot c.key)) (find-append_one j (bs (slot c.key)) c h)
  | inr other ↦
      rw other (ap (λ b. if b then some c.ri else find j (bs (slot j))) (sym (apart other)))
]
  where
    apart : (slot j == slot c.key) ≡ false → bytes_eq c.key j ≡ false
    apart other = elim (Bool-cases (bytes_eq c.key j)) [
      | inl e ↦ let same = ap slot (bytes_eq→eq c.key j e) in ground arith
      | inr e ↦ e
    ]

length-with_cell :
    (bs : ℕ → List Cell) (s : ℕ) (c : Cell) (fuel t : ℕ)
    → length (bs t) < fuel
    → length (with_cell bs s c t) < suc fuel
length-with_cell bs s c fuel t h = elim (Bool-cases (t == s)) [
  | inl same ↦
      let e : t ≡ s = ground arith in
      rw same
        (let h' : length (bs s) < fuel = rw (← e) h in omega (arith, length-append (bs s) (c ∷ [])))
  | inr other ↦ rw other (omega arith)
]

-- An insertion returns whether the key was new. After it a lookup of the inserted key gives the inserted
-- router info, if the key was new; a lookup of any other key, and of a key that was there before, gives
-- what it gave before.
pub get-insert :
    (host : Host) (fuel : ℕ) (fresh : Ptr) (k j : Bytes) (v : ℕ) (m : Map) (bs : ℕ → List Cell)
    → IsMap (slot_of host) m bs
    → ((s : ℕ) → length (bs s) < fuel)
    → fresh ≢ null
    → m.heap fresh ≡ none
    → Returns
        (λ b m'.
          let new = not (contains k (bs (slot_of host k))) in
          (b ≡ new)
          × (get host (suc fuel) j m'
              ≡ done (if new && bytes_eq k j then some v else find j (bs (slot_of host j))) m'))
        (insert host fuel fresh k v m)
get-insert host fuel fresh k j v m bs is enough live unused =
    Chain.mono (insert-IsMap host fuel fresh k v m bs is (enough _) live unused)
      λ b m' (fresh_key, left). (
        fresh_key,
        elim (Bool-cases (contains k (bs (slot_of host k)))) [
          | inl old ↦
              let same : m' ≡ m = rw old at left in
              rw (old, same)
                (get-find host (suc fuel) j m bs is
                  (let h = enough (slot_of host j) in omega arith))
          | inr new ↦
              let s = slot_of host k in
              let c = cell fresh k v in
              let grown : IsMap (slot_of host) m' (with_cell bs s c) = (rw new at left).0 in
              rw new (
                get-find host (suc fuel) j m' (with_cell bs s c) grown
                  (length-with_cell bs s c fuel (slot_of host j) (enough _))
                ∙ ap (λ o. done o m') (find-with_cell (slot_of host) bs c j new))
        ],
      )
