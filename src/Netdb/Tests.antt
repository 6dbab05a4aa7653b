-- ===== src/Netdb/Tests.antt =====
-- The theorems about mnet/netdb.c at concrete files and entries.
use i2p_lite.Base.{ℕ, ◌≡◌, refl, true, false, List, [], ◌∷◌, none, some}
use i2p_lite.Base.{codes, ◌==◌, if◌then◌else◌}
use i2p_lite.Memory.{little}
use i2p_lite.Cert.{Cert}
use i2p_lite.Sodium.Sample.{sample}
use i2p_lite.Eddsa.{verify_new}
use i2p_lite.Identity.{identity}
use i2p_lite.RouterInfo.{RouterInfo, new as info_new}
use i2p_lite.Hashmap.{visit_chain, visit_buckets, init, for_each}
use i2p_lite.Hashmap.Heap.{load, read_link, Map, node, done}
use i2p_lite.Base.{Option, map, bytes_eq}
use i2p_lite.Directory.{Stat, regular, directory, is_dir}
use i2p_lite.Directory.Visits.{kept}
use i2p_lite.Netdb.Tree.{load_tree, files_of, load_tree-load_all}
use i2p_lite.Netdb.Skiplist.{subdir, Ensured, entry_path-Ensured}
use i2p_lite.Base.{Bytes, ◌++◌, arith}
use i2p_lite.Paths.{joined}
use i2p_lite.Netdb.{
  Opened, absent, entry_path, ensure_skiplist, read_file, load_subdir, load_subdirs, File, WriteCtx,
  load_all, flush_to_disk,
}
use i2p_lite.Netdb.Laws.{load_all-nothing}
use i2p_lite.Netdb.Flush.{OnlyFirst, flush_to_disk-first}

abbrev unopened : List (List File)
unopened = (record { content = none; info = 1; fresh = 2 } ∷ []) ∷ [] ∷ []

abbrev no_count : ℕ
no_count = 0

test_load_all : load_all sample little 9 unopened init ≡ done no_count init
unfolding load_all load_subdirs load_subdir read_file
test_load_all = refl

load_all-nothing_example : (no_count ≡ 0) × (init ≡ init)
load_all-nothing_example =
    load_all-nothing sample little 9 init unopened no_count init test_load_all

-- A map of one entry, in the bucket 107, and its router info.
abbrev one_entry : Map
one_entry = record {
  table = λ s. if s == 107 then 1 else 0;
  sz = 1;
  heap = λ p. if p == 1 then some (node (codes "key") 9 0) else none;
  released = [];
}

abbrev known : ℕ → RouterInfo
known ri = record info_new {
  identity =
      some (
        identity (verify_new (codes "verify")) (record { bytes = some (0 ∷ 0 ∷ 0 ∷ []); len = 3 }));
}

test_for_each : for_each 2 one_entry ≡ done ((codes "key", 9) ∷ []) one_entry
unfolding for_each visit_buckets visit_chain read_link load
test_for_each = refl

abbrev after_flush : WriteCtx
after_flush = record { result = false; emptied = codes "root/ra/node-ra2V5.dat" ∷ [] }

test_flush :
    flush_to_disk sample (codes "/") (codes "root") (λ path. true) known 2 one_entry
    ≡ done after_flush one_entry
unfolding flush_to_disk for_each visit_buckets visit_chain read_link load
    i2p_lite.Netdb.write_entries i2p_lite.Netdb.write_entry i2p_lite.Netdb.entry_path
    i2p_lite.Paths.path_join i2p_lite.Paths.join_loop i2p_lite.Bencode.Read.c_string
    i2p_lite.Encoding.encode i2p_lite.Encoding.encode_groups i2p_lite.Encoding.t64
    i2p_lite.Encoding.digit1 i2p_lite.Encoding.digit2 i2p_lite.Cert.buffer
    i2p_lite.Cert.buffer_length i2p_lite.Encoding.digit3 i2p_lite.Encoding.digit4
    i2p_lite.Encoding.last_digit2 i2p_lite.Encoding.last_digit3 i2p_lite.Encoding.t64_table
    i2p_lite.Identity.to_base64 i2p_lite.RouterInfo.write
test_flush = refl

flush_to_disk-first_example :
    OnlyFirst (λ path. true) (entry_path (codes "/") (codes "root") (codes "key")) after_flush
    × (one_entry ≡ one_entry)
flush_to_disk-first_example =
    flush_to_disk-first sample (codes "/") (codes "root") (λ path. true) known one_entry 2
      (codes "key") 9 [] after_flush one_entry test_for_each test_flush

-- Nothing is there before.
abbrev nowhere : Bytes → Opened
nowhere path = absent

entry_path-Ensured_example :
    (c : ℕ) × (name : Bytes) × (made : List Bytes) × (entry_path
        (codes "/")
        (codes "/netdb")
        (codes "identity")
      ≡ joined
          (subdir (codes "/") (codes "/netdb") nowhere (λ path. true) c ++ (codes "/" ++ name)))
    × (ensure_skiplist (codes "/") (codes "/netdb") nowhere (λ path. true) ≡ some (true, made))
    × Ensured
        (codes "/")
        (codes "/netdb")
        nowhere
        (λ path. true)
        made
        (subdir (codes "/") (codes "/netdb") nowhere (λ path. true) c)
entry_path-Ensured_example =
    entry_path-Ensured (codes "/") (codes "/netdb") nowhere (λ path. true) b'i' (codes "dentity")
      (λ path. refl) (omega arith) (omega arith) (omega arith) (omega arith) (omega arith)

-- A root directory with one subdirectory, and one file in it that can not be opened.
abbrev listed : Bytes → Option (List Bytes)
listed path = some (if bytes_eq path (codes "/n") then codes "rA" ∷ [] else codes "a" ∷ [])

abbrev stat : Bytes → Stat
stat path = if bytes_eq path (codes "/n/rA") then directory else regular

abbrev unreadable : Bytes → File
unreadable path = record { content = none; info = 1; fresh = 2 }

abbrev names : Bytes → List Bytes
names path = codes "a" ∷ []

load_tree-load_all_example :
    load_tree sample little 9 (codes "/") listed 0 stat unreadable (codes "/n") init
    ≡ load_all sample little 9
        (map
          (files_of sample little 9 (codes "/") listed 0 stat unreadable names (omega arith))
          (kept (codes "/") (codes "/n") (is_dir stat) (codes "rA" ∷ [])))
        init
unfolding kept
load_tree-load_all_example =
    load_tree-load_all sample little 9 (codes "/") listed 0 stat unreadable names (omega arith)
      (codes "/n") (codes "rA" ∷ []) init (omega arith) refl (omega arith, tt)
      ((refl, (omega arith, tt), omega arith), tt)
