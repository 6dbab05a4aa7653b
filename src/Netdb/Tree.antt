-- ===== src/Netdb/Tree.antt =====
-- mnet_netdb_load_all of mnet/netdb.c over the directories that mnet/util.c goes over.
use i2p_lite.Base.{ℕ, ◌<◌, ◌≡◌, refl, sym, ap, ◌∙◌, Bool, List, [], ◌∷◌, Option, none, some, map}
use i2p_lite.Base.{Bytes, All, length}
use i2p_lite.Memory.{Host}
use i2p_lite.Sodium.{Sodium}
use i2p_lite.Hashmap.Heap.{Map, Run, done, fault, out_of_fuel, Cmd, pure, bind_run}
use i2p_lite.Directory.{Stat, is_file, is_dir, iterate_all_files, iterate_all_dirs}
use i2p_lite.Directory.Visits.{kept, each, AllFit, iterate_all-kept}
use i2p_lite.Netdb.{File, ReadCtx, read_file, load_subdir, load_subdirs, load_all}

-- A callback that runs behind what has run before, as the state of a call.
abbrev pub LoadState : Type 0
LoadState = Run ReadCtx

module _ (n : Sodium) (host : Host) (fuel : ℕ) (sep : Bytes) (opendir : Bytes → Option (List Bytes))
    (errno : ℕ) (stat : Bytes → Stat) (file : Bytes → File) where
  -- `netdb_read_file` as the callback
  abbrev pub read_callback : (path : Bytes) → LoadState → LoadState
  read_callback path s = bind_run s (read_file n host fuel (file path))

  abbrev pub after_dir : Option (Bool × LoadState) → LoadState
  after_dir none = fault
  after_dir (some (ok, s)) = s

  -- `netdb_load_skiplist_subdir` as the callback
  unfoldable pub subdir_callback : (dir : Bytes) → LoadState → LoadState
  subdir_callback dir s = after_dir (iterate_all_files sep opendir errno stat read_callback dir s)

  abbrev pub loaded_count : LoadState → Run ℕ
  loaded_count s = bind_run s (λ ctx. pure ctx.loaded)

  -- `mnet_netdb_load_all` for the root directory
  unfoldable pub load_tree : (rootdir : Bytes) → Map → Run ℕ
  load_tree rootdir m = loaded_count (
      after_dir (
        iterate_all_dirs sep opendir errno stat subdir_callback rootdir
          (done (record { failed = 0; loaded = 0 }) m)))

bind_run_assoc :
    {A B C : Type 0} (s : Run A) (k : A → Cmd B) (l : B → Cmd C)
    → bind_run (bind_run s k) l ≡ bind_run s (λ a m. bind_run (k a m) l)
bind_run_assoc (done a m) k l = refl
bind_run_assoc fault k l = refl
bind_run_assoc out_of_fuel k l = refl

bind_run-pure : {A : Type 0} (s : Run A) → bind_run s pure ≡ s
bind_run-pure (done a m) = refl
bind_run-pure fault = refl
bind_run-pure out_of_fuel = refl

module _ (n : Sodium) (host : Host) (fuel : ℕ) (sep : Bytes) (opendir : Bytes → Option (List Bytes))
    (errno : ℕ) (stat : Bytes → Stat) (file : Bytes → File) (names : Bytes → List Bytes)
    (some_sep : 0 < length sep) where
  -- A subdirectory that can be opened, with its entries, which fit.
  abbrev pub Readable : Bytes → Type 0
  Readable dir = (opendir dir ≡ some (names dir)) × AllFit sep dir (names dir) × (0 < length dir)

  -- The regular files of a subdirectory.
  abbrev pub files_of : Bytes → List File
  files_of dir = map file (kept sep dir (is_file stat) (names dir))

  each-load_subdir :
      (paths : List Bytes) (s : LoadState)
      → each (read_callback n host fuel sep opendir errno stat file) paths s
        ≡ bind_run s (load_subdir n host fuel (map file paths))
  unfolding each load_subdir
  each-load_subdir [] s = sym (bind_run-pure s)
  each-load_subdir (p ∷ ps) s =
      each-load_subdir ps (bind_run s (read_file n host fuel (file p)))
      ∙ bind_run_assoc s (read_file n host fuel (file p)) (load_subdir n host fuel (map file ps))

  subdir_callback-load :
      (dir : Bytes) (s : LoadState)
      → Readable dir
      → subdir_callback n host fuel sep opendir errno stat file dir s
        ≡ bind_run s (load_subdir n host fuel (files_of dir))
  unfolding subdir_callback
  subdir_callback-load dir s h =
      ap (after_dir n host fuel sep opendir errno stat file) (
        iterate_all-kept sep opendir errno (read_callback n host fuel sep opendir errno stat file)
          (is_file stat) dir some_sep h.2 (names dir) s h.0 h.1)
      ∙ each-load_subdir (kept sep dir (is_file stat) (names dir)) s

  each-load_subdirs :
      (dirs : List Bytes) (s : LoadState)
      → All Readable dirs
      → each (subdir_callback n host fuel sep opendir errno stat file) dirs s
        ≡ bind_run s (load_subdirs n host fuel (map files_of dirs))
  unfolding each load_subdirs
  each-load_subdirs [] s h = sym (bind_run-pure s)
  each-load_subdirs (d ∷ ds) s h =
      ap (each (subdir_callback n host fuel sep opendir errno stat file) ds)
        (subdir_callback-load d s h.0)
      ∙ each-load_subdirs ds (bind_run s (load_subdir n host fuel (files_of d))) h.1
      ∙ bind_run_assoc s (load_subdir n host fuel (files_of d))
          (load_subdirs n host fuel (map files_of ds))

  -- If the root directory and its subdirectories can be opened and their entries fit, going over them
  -- with the callbacks loads the regular files of the subdirectories, in the order in which they are read.
  pub load_tree-load_all :
      (rootdir : Bytes) (entries : List Bytes) (m : Map)
      → 0 < length rootdir
      → opendir rootdir ≡ some entries
      → AllFit sep rootdir entries
      → All Readable (kept sep rootdir (is_dir stat) entries)
      → load_tree n host fuel sep opendir errno stat file rootdir m
        ≡ load_all n host fuel (map files_of (kept sep rootdir (is_dir stat) entries)) m
  unfolding load_tree load_all
  load_tree-load_all rootdir entries m some_root opened fit readable =
      let start : LoadState = done (record { failed = 0; loaded = 0 }) m in
      let dirs = kept sep rootdir (is_dir stat) entries in
      ap
        (λ o.
          loaded_count n host fuel sep opendir errno stat file
            (after_dir n host fuel sep opendir errno stat file o))
        (iterate_all-kept sep opendir errno
          (subdir_callback n host fuel sep opendir errno stat file) (is_dir stat) rootdir some_sep
          some_root entries start opened fit)
      ∙ ap (loaded_count n host fuel sep opendir errno stat file)
          (each-load_subdirs dirs start readable)
