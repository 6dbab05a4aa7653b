-- ===== src/NetdbTest/Counts.antt =====
-- test/test_netdb.c: what the test program counts.
use i2p_lite.Base.{ℕ, zero, suc, ◌<◌, ◌≡◌, refl, subst, ap, ◌∙◌, List, []}
use i2p_lite.Memory.{Host}
use i2p_lite.Sodium.{Sodium}
use i2p_lite.RouterInfo.{RouterInfo}
use i2p_lite.Hashmap.{slot_of, buckets, init, for_each}
use i2p_lite.Hashmap.Heap.{Map, Run, done, fault, out_of_fuel}
use i2p_lite.Hashmap.Chain.{Cell, nil, IsMap}
use i2p_lite.Hashmap.ForEach.{entries, entries_below, for_each-entries}
use i2p_lite.Netdb.{File, load_all}
use i2p_lite.Netdb.Laws.{load_all-nothing}
use i2p_lite.NetdbTest.{ProcessCtx, FindCtx, process_entries, find_entries, test_netdb}

abbrev no_cells : ℕ → List Cell
no_cells s = []

entries_below-no_cells : (n : ℕ) → entries_below n no_cells ≡ []
unfolding entries_below entries
entries_below-no_cells zero = refl
entries_below-no_cells (suc zero) = refl
entries_below-no_cells (suc (suc n)) = entries_below-no_cells (suc n)

init-IsMap : (host : Host) → IsMap (slot_of host) init no_cells
unfolding init
init-IsMap host = record { chains = λ s. nil refl; slots = λ s. tt }

for_each-init : (host : Host) (fuel : ℕ) → 0 < fuel → for_each fuel init ≡ done [] init
for_each-init host fuel h =
    for_each-entries host fuel init no_cells (init-IsMap host) (λ s. h)
    ∙ ap (λ es. done es init) (entries_below-no_cells buckets)

-- Nothing has been counted.
abbrev pub zeros : ProcessCtx × FindCtx
zeros = (record { valid = 0; hashfail = 0; invalid = 0 }, record { hit = 0; miss = 0 })

abbrev Counted : Run (ProcessCtx × FindCtx) → Type 0
Counted (done r m) = (r ≡ zeros) × (m ≡ init)
Counted fault = Unit
Counted out_of_fuel = Unit

module _ (n : Sodium) (host : Host) (fuel : ℕ) (infos : ℕ → RouterInfo) (some_fuel : 0 < fuel) where
  test_netdb-init :
      (dirs : List (List File)) (s : Run ℕ)
      → load_all n host fuel dirs init ≡ s
      → Counted (test_netdb n host fuel infos dirs init)
  unfolding test_netdb process_entries find_entries
  test_netdb-init dirs (done c m) e =
      let empty : m ≡ init = (load_all-nothing n host fuel init dirs c m e).1 in
      let loaded = e ∙ ap (done c) empty in
      let walked = for_each-init host fuel some_fuel in rw (loaded, walked, walked) (refl, refl)
  test_netdb-init dirs fault e = rw e tt
  test_netdb-init dirs out_of_fuel e = rw e tt

  -- Whatever files there are, the test program, if it comes to its end, has counted no entry, neither a
  -- valid one nor any other, and has looked up none: nothing is ever loaded.
  pub test_netdb-zeros :
      (dirs : List (List File)) (r : ProcessCtx × FindCtx) (m : Map)
      → test_netdb n host fuel infos dirs init ≡ done r m
      → (r ≡ zeros) × (m ≡ init)
  test_netdb-zeros dirs r m e =
      subst Counted e (test_netdb-init dirs (load_all n host fuel dirs init) refl)
