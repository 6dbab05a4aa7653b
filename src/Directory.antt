-- ===== src/Directory.antt =====
-- mnet/util.c: the tests of files, and going over the entries of a directory.
-- The calls of the system are parameters: what `access`, `stat`, `opendir` and `readdir` give, and
-- `errno` behind the loop. The callback changes a state of the caller.
pub mod Visits
mod Tests
use mathlib.Core.Option.{bind}
use i2p_lite.Base.{
  ℕ, Bool, true, false, not, ◌||◌, List, [], ◌∷◌, Option, none, some, ℤ, pos, negsuc,
}
use i2p_lite.Base.{Bytes, codes, bytes_eq, ◌==◌, if◌then◌else◌}
use i2p_lite.Paths.{Joined, joined, aborted, overflowed, path_join}

-- The file of a path as `stat` tells it; `missing` is its return of -1.
pub data Stat : Type 0 where
  missing regular directory other : Stat

abbrev pub is_regular : Stat → Bool
is_regular regular = true
is_regular missing = false
is_regular directory = false
is_regular other = false

abbrev pub is_directory : Stat → Bool
is_directory directory = true
is_directory missing = false
is_directory regular = false
is_directory other = false

-- `check_file`: a result other than -1 of `access`, and `del_file`, which is `unlink`.
abbrev pub is_error : ℤ → Bool
is_error (pos n) = false
is_error (negsuc n) = n == 0

abbrev pub check_file : (access : Bytes → ℤ) → Bytes → Bool
check_file access path = not (is_error (access path))

abbrev pub del_file : (unlink : Bytes → ℤ) → Bytes → ℤ
del_file unlink path = unlink path

-- `_is_file` and `_is_dir`
abbrev pub is_file : (stat : Bytes → Stat) → Bytes → Bool
is_file stat path = is_regular (stat path)

abbrev pub is_dir : (stat : Bytes → Stat) → Bytes → Bool
is_dir stat path = is_directory (stat path)

-- "." and ".."
abbrev pub is_dots : Bytes → Bool
is_dots name = bytes_eq name (codes ".") || bytes_eq name (codes "..")

module _ {S : Type 0} (sep : Bytes) (opendir : Bytes → Option (List Bytes)) (errno : ℕ) where
  module _ (i : Bytes → S → S) (f : Bytes → Bool) where
    abbrev pub visit : Joined → S → Option S
    visit (joined path) u = some (if f path then i path u else u)
    visit aborted u = none
    visit overflowed u = none

    -- The loop of `iterate_all_with_filter`; `none` is a path that does not fit.
    unfoldable pub visit_entries : (path : Bytes) → List Bytes → S → Option S
    visit_entries path [] u = some u
    visit_entries path (name ∷ names) u =
        bind (if is_dots name then some u else visit (path_join sep path (name ∷ [])) u)
          (visit_entries path names)

    abbrev pub finished : Option S → Option (Bool × S)
    finished none = none
    finished (some u) = some (errno == 0, u)

    abbrev pub iterate_entries : (path : Bytes) → Option (List Bytes) → S → Option (Bool × S)
    iterate_entries path none u = some (false, u)
    iterate_entries path (some names) u = finished (visit_entries path names u)

    -- `iterate_all_with_filter`
    unfoldable pub iterate_all_with_filter : (path : Bytes) → S → Option (Bool × S)
    iterate_all_with_filter path u = iterate_entries path (opendir path) u

  -- `iterate_all_files` and `iterate_all_dirs`
  abbrev pub iterate_all_files :
      (stat : Bytes → Stat) (i : Bytes → S → S) → (path : Bytes) → S → Option (Bool × S)
  iterate_all_files stat i path u = iterate_all_with_filter i (is_file stat) path u

  abbrev pub iterate_all_dirs :
      (stat : Bytes → Stat) (i : Bytes → S → S) → (path : Bytes) → S → Option (Bool × S)
  iterate_all_dirs stat i path u = iterate_all_with_filter i (is_dir stat) path u
