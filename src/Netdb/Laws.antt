-- ===== src/Netdb/Laws.antt =====
-- mnet/netdb.c: what is loaded from the files of the database and what is written to them.
use i2p_lite.Base.{ℕ, ◌≡◌, refl, subst, true, false, List, [], ◌∷◌, Option, none, some}
use i2p_lite.Base.{Bytes}
use i2p_lite.Memory.{Host}
use i2p_lite.Sodium.{Sodium}
use i2p_lite.RouterInfo.{InfoRead, returned, crashed, endless, fuel_end, new as info_new, load}
use i2p_lite.RouterInfo.Laws.{load-new}
use i2p_lite.Hashmap.Heap.{Map, Run, done, fault, out_of_fuel, bind_run}
use i2p_lite.Netdb.{
  File, ReadCtx, read_entry, read_content, read_file, load_subdir, load_subdirs, load_all,
}

-- Nothing has been loaded, and the map is the same.
abbrev Unloaded : Map → Run ReadCtx → Type 0
Unloaded m (done ctx m') = (ctx.loaded ≡ 0) × (m' ≡ m)
Unloaded m fault = Unit
Unloaded m out_of_fuel = Unit

module _ (n : Sodium) (host : Host) (fuel : ℕ) (m : Map) where
  read_entry-Unloaded :
      (f : File) (ctx : ReadCtx) (input : Bytes) (r : InfoRead)
      → ctx.loaded ≡ 0
      → load n host fuel info_new input ≡ r
      → Unloaded m (read_entry n host fuel f ctx r m)
  read_entry-Unloaded f ctx input (returned true ri) z e =
      rw (load-new n host fuel input true ri e).1 tt
  read_entry-Unloaded f ctx input (returned false ri) z e =
      rw (load-new n host fuel input false ri e).2 tt
  read_entry-Unloaded f ctx input crashed z e = tt
  read_entry-Unloaded f ctx input endless z e = tt
  read_entry-Unloaded f ctx input fuel_end z e = tt

  read_content-Unloaded :
      (f : File) (ctx : ReadCtx) (c : Option Bytes)
      → ctx.loaded ≡ 0
      → Unloaded m (read_content n host fuel f ctx c m)
  read_content-Unloaded f ctx none z = (z, refl)
  read_content-Unloaded f ctx (some input) z =
      read_entry-Unloaded f ctx input (load n host fuel info_new input) z refl

  read_file-Unloaded :
      (f : File) (ctx : ReadCtx) → ctx.loaded ≡ 0 → Unloaded m (read_file n host fuel f ctx m)
  unfolding read_file
  read_file-Unloaded f ctx z = read_content-Unloaded f ctx f.content z

  then-Unloaded :
      (r : Run ReadCtx) (k : ReadCtx → Map → Run ReadCtx)
      → Unloaded m r
      → ((ctx : ReadCtx) → ctx.loaded ≡ 0 → Unloaded m (k ctx m))
      → Unloaded m (bind_run r k)
  then-Unloaded (done ctx m') k h next = rw h.1 (next ctx h.0)
  then-Unloaded fault k h next = tt
  then-Unloaded out_of_fuel k h next = tt

  load_subdir-Unloaded :
      (fs : List File) (ctx : ReadCtx)
      → ctx.loaded ≡ 0
      → Unloaded m (load_subdir n host fuel fs ctx m)
  unfolding load_subdir
  load_subdir-Unloaded [] ctx z = (z, refl)
  load_subdir-Unloaded (f ∷ fs) ctx z =
      then-Unloaded (read_file n host fuel f ctx m) (load_subdir n host fuel fs)
        (read_file-Unloaded f ctx z) (λ ctx' z'. load_subdir-Unloaded fs ctx' z')

  load_subdirs-Unloaded :
      (ds : List (List File)) (ctx : ReadCtx)
      → ctx.loaded ≡ 0
      → Unloaded m (load_subdirs n host fuel ds ctx m)
  unfolding load_subdirs
  load_subdirs-Unloaded [] ctx z = (z, refl)
  load_subdirs-Unloaded (d ∷ ds) ctx z =
      then-Unloaded (load_subdir n host fuel d ctx m) (load_subdirs n host fuel ds)
        (load_subdir-Unloaded d ctx z) (λ ctx' z'. load_subdirs-Unloaded ds ctx' z')

  abbrev NoneLoaded : Run ℕ → Type 0
  NoneLoaded (done c m') = (c ≡ 0) × (m' ≡ m)
  NoneLoaded fault = Unit
  NoneLoaded out_of_fuel = Unit

  only_count :
      (r : Run ReadCtx) → Unloaded m r → NoneLoaded (bind_run r (λ ctx m'. done ctx.loaded m'))
  only_count (done ctx m') h = h
  only_count fault h = tt
  only_count out_of_fuel h = tt

  -- Whatever files there are, loading them all returns, if it returns at all, 0 with the map as it
  -- was: no entry is ever loaded.
  pub load_all-nothing :
      (dirs : List (List File)) (count : ℕ) (m' : Map)
      → load_all n host fuel dirs m ≡ done count m'
      → (count ≡ 0) × (m' ≡ m)
  unfolding load_all
  load_all-nothing dirs count m' e = subst NoneLoaded e (
      only_count (load_subdirs n host fuel dirs (record { failed = 0; loaded = 0 }) m)
        (load_subdirs-Unloaded dirs (record { failed = 0; loaded = 0 }) refl))
