-- ===== src/Directory/Visits.antt =====
-- mnet/util.c: which entries of a directory the callback is given.
use mathlib.Core.Option.{bind}
use i2p_lite.Base.{
  ℕ, ◌+◌, ◌<◌, ◌≡◌, refl, ap, ◌∙◌, Bool, not, ◌&&◌, List, [], ◌∷◌, ◌++◌, Option, some, inl, inr,
  Bool-cases,
}
use i2p_lite.Base.{codes, bytes_eq, ◌||◌, Bytes, All, length, ◌==◌, if◌then◌else◌}
use i2p_lite.Paths.{max_filename_size, joined, path_join}
use i2p_lite.Paths.Join.{path_join-name}
use i2p_lite.Directory.{visit_entries, finished, iterate_entries, iterate_all_with_filter}

-- The directory itself and its parent.
abbrev pub is_special : Bytes → Bool
is_special name = bytes_eq name (codes ".") || bytes_eq name (codes "..")

-- The paths of the entries that pass the filter, without "." and "..", in their order.
unfoldable pub kept : (sep path : Bytes) (f : Bytes → Bool) → List Bytes → List Bytes
kept sep path f [] = []
kept sep path f (name ∷ names) =
    let rest = kept sep path f names in
    let whole = path ++ (sep ++ name) in
    if not (is_special name) && f whole then whole ∷ rest else rest

-- A callback on each path of a list.
unfoldable pub each : {S : Type 0} → (Bytes → S → S) → List Bytes → S → S
each i [] u = u
each i (p ∷ ps) u = each i ps (i p u)

-- Names that fit behind the path of the directory.
abbrev pub AllFit : (sep path : Bytes) → List Bytes → Type 0
AllFit sep path = All (λ name. length path + (length sep + length name) < max_filename_size)

module _ {S : Type 0} (sep : Bytes) (opendir : Bytes → Option (List Bytes)) (errno : ℕ)
    (i : Bytes → S → S) (f : Bytes → Bool) (path : Bytes) (some_sep : 0 < length sep)
    (some_path : 0 < length path) where
  visit_entries-kept :
      (names : List Bytes) (u : S)
      → AllFit sep path names
      → visit_entries sep opendir errno i f path names u ≡ some (each i (kept sep path f names) u)
  unfolding visit_entries kept each bind
  visit_entries-kept [] u h = refl
  visit_entries-kept (name ∷ names) u h =
      let whole = path ++ (sep ++ name) in
      let path_is : path_join sep path (name ∷ []) ≡ joined whole =
        path_join-name sep path name some_sep some_path h.0 in
      elim (Bool-cases (is_special name)) [
        | inl dots ↦ rw dots (visit_entries-kept names u h.1)
        | inr entry ↦
            rw (entry, path_is)
              (elim (Bool-cases (f whole)) [
                | inl passes ↦ rw passes (visit_entries-kept names (i whole u) h.1)
                | inr held ↦ rw held (visit_entries-kept names u h.1)
              ])
      ]

  -- A directory that can be opened, and whose entries fit the buffer: the callback is given each entry
  -- but "." and ".." that passes the filter, once and in the order in which they are read, and success
  -- is reported if `errno` is 0 then.
  pub iterate_all-kept :
      (names : List Bytes) (u : S)
      → opendir path ≡ some names
      → AllFit sep path names
      → iterate_all_with_filter sep opendir errno i f path u
        ≡ some (errno == 0, each i (kept sep path f names) u)
  unfolding iterate_all_with_filter
  iterate_all-kept names u opened h =
      ap (λ o. iterate_entries sep opendir errno i f path o u) opened
      ∙ ap (finished sep opendir errno i f) (visit_entries-kept names u h)
