-- ===== src/Hashmap/Tests.antt =====
-- The theorems about mnet/netdb_hashmap.c at a map with one entry.
use i2p_lite.Base.{
  ℕ, ◌≡◌, ◌<◌, refl, true, not, ◌&&◌, List, [], ◌∷◌, none, some, arith, replicate, Bool-cases, inl,
  inr,
}
use i2p_lite.Base.{Bytes, bytes_eq, ◌==◌, if◌then◌else◌, length}
use i2p_lite.RouterInfo.{RouterInfo, new, free_info}
use i2p_lite.Iwp.{new as iwp_new}
use i2p_lite.Memory.{little, host_value, le_value}
use i2p_lite.Hashmap.{slot_of, get, insert, remove, for_each, free_map, buckets}
use i2p_lite.Hashmap.Heap.{null, node, Map, done}
use i2p_lite.Hashmap.Chain.{Cell, cell, holds, nil, cons, find, contains, Returns, IsMap}
use i2p_lite.Hashmap.Insert.{insert-IsMap, with_cell}
use i2p_lite.Hashmap.Contract.{get-insert}
use i2p_lite.Hashmap.Remove.{remove-first, Dangling}
use i2p_lite.Hashmap.Free.{
  released_by, released_from, buckets_releasable, chain_releasable, free_map-all,
}
use i2p_lite.Hashmap.ForEach.{for_each-entries, entries_below}

-- Two hashes of the same bucket.
abbrev held : Bytes
held = replicate 32 1

abbrev other : Bytes
other = 1 ∷ replicate 31 3

abbrev one_map : Map
one_map = record {
  table = λ s. if s == 1 then 10 else null;
  sz = 1;
  heap = λ a. if a == 10 then some (node held 7 null) else none;
  released = [];
}

abbrev one_bucket : ℕ → List Cell
one_bucket s = if s == 1 then cell 10 held 7 ∷ [] else []

test_slot : slot_of little held ≡ 1
unfolding slot_of host_value le_value
test_slot = refl

test_other : slot_of little other ≡ 1
unfolding slot_of host_value le_value
test_other = refl

one_map-IsMap : IsMap (slot_of little) one_map one_bucket
one_map-IsMap = record {
  chains = λ s. elim (Bool-cases (s == 1)) [
    | inl e ↦ rw e (cons (omega arith) refl refl (nil refl))
    | inr e ↦ rw e (nil refl)
  ];
  slots = λ s. elim (Bool-cases (s == 1)) [
    | inl e ↦ rw e (ground (arith, test_slot), tt)
    | inr e ↦ rw e tt
  ];
}

one_bucket-short : (s : ℕ) → length (one_bucket s) < 2
one_bucket-short s = elim (Bool-cases (s == 1)) [
  | inl e ↦ rw e (omega arith)
  | inr e ↦ rw e (omega arith)
]

insert-IsMap_example :
    Returns
      (λ b m'.
        (b ≡ true)
        × (IsMap (slot_of little) m' (with_cell one_bucket 1 (cell 20 other 8))
            × (m'.sz ≡ 2)
            × (m'.released ≡ [])))
      (insert little 2 20 other 8 one_map)
unfolding slot_of contains host_value le_value
insert-IsMap_example =
    insert-IsMap little 2 20 other 8 one_map one_bucket one_map-IsMap (one_bucket-short 1)
      (omega arith) refl

get-insert_example :
    Returns
      (λ b m'.
        let new = not (contains other (one_bucket (slot_of little other))) in
        (b ≡ new)
        × (get little 3 other m'
            ≡ done
                (if new && bytes_eq other other
                  then some 8
                  else find other (one_bucket (slot_of little other)))
                m'))
      (insert little 2 20 other 8 one_map)
get-insert_example =
    get-insert little 2 20 other other 8 one_map one_bucket one_map-IsMap one_bucket-short
      (omega arith) refl

-- A router info of the heap, with a link.
abbrev linked_info : ℕ → RouterInfo
linked_info ri = record new { link = some iwp_new }

remove-first_example :
    Returns (Dangling little one_map held 0) (remove linked_info little 1 held one_map)
unfolding i2p_lite.Hashmap.Heap.is_released free_info
remove-first_example =
    remove-first little linked_info 0 0 held held one_map {c = cell 10 held 7} {cs = []}
      (unfold slot_of host_value le_value in one_map-IsMap.chains 1) refl refl

for_each-entries_example : for_each 2 one_map ≡ done (entries_below buckets one_bucket) one_map
for_each-entries_example =
    for_each-entries little 2 one_map one_bucket one_map-IsMap one_bucket-short

free_map-all_example :
    Returns
      (λ u m'.
        (m'.released ≡ released_from buckets 0 one_bucket [])
        × ((s a : ℕ) → s < buckets → holds a (one_bucket s) ≡ true → m'.heap a ≡ none))
      (free_map linked_info 2 one_map)
unfolding i2p_lite.Hashmap.Heap.is_released free_info buckets_releasable chain_releasable
    released_by
free_map-all_example =
    free_map-all little linked_info 2 one_map one_bucket one_map-IsMap one_bucket-short refl
