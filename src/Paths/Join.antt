-- ===== src/Paths/Join.antt =====
-- mnet/util.c: the paths that fit the buffer, and those that do not.
use mathlib.Core.List.{append_assoc, append-nil}
use i2p_lite.Base.{
  ◌*◌, ◌+◌, ◌-◌, ◌≤◌, ◌<◌, ◌≡◌, refl, sym, ap, ◌∙◌, true, false, List, [], ◌∷◌, ◌++◌, arith,
}
use i2p_lite.Base.{take-all, Bytes, length, take, ltb, ◌==◌, length-append}
use i2p_lite.Paths.{max_filename_size, joined, overflowed, join_loop, path_join}

-- The parts, each behind a separator.
unfoldable pub parts_text : Bytes → List Bytes → Bytes
parts_text sep [] = []
parts_text sep (part ∷ parts) = sep ++ (part ++ parts_text sep parts)

join_loop-fits :
    (sep path : Bytes) (parts : List Bytes)
    → 0 < length sep
    → length path + length (parts_text sep parts) < max_filename_size
    → join_loop sep path (length path) parts ≡ joined (path ++ parts_text sep parts)
unfolding join_loop parts_text
join_loop-fits sep path [] some_sep fits = ap joined (sym (append-nil path))
join_loop-fits sep path (part ∷ parts) some_sep fits =
    let text = sep ++ part in
    let size = length-append sep part in
    let size2 = length-append sep (part ++ parts_text sep parts) in
    let size3 = length-append part (parts_text sep parts) in
    let low : ltb max_filename_size (length path) ≡ false = ground arith in
    let some_text : (length text == 0) ≡ false = ground arith in
    let whole : take (max_filename_size - length path - 1) text ≡ text =
      take-all _ text (omega arith) in
    let end = length-append path text in
    rw (low, some_text, whole, ← end)
      (join_loop-fits sep (path ++ text) parts some_sep (omega arith)
        ∙ ap joined (
            append_assoc path text (parts_text sep parts)
            ∙ ap (λ t. path ++ t) (append_assoc sep part (parts_text sep parts))))

-- With a base and a separator that are not empty, a path that fits the buffer with its terminator
-- comes out whole: the base, and each part behind a separator.
pub path_join-fits :
    (sep base : Bytes) (parts : List Bytes)
    → 0 < length sep
    → 0 < length base
    → length base + length (parts_text sep parts) < max_filename_size
    → path_join sep base parts ≡ joined (base ++ parts_text sep parts)
unfolding path_join
path_join-fits sep base parts some_sep some_base fits =
    let low : (length base == 0) ≡ false = ground arith in
    let whole : take (max_filename_size - 0 - 1) base ≡ base =
      take-all (max_filename_size - 0 - 1) base (omega arith) in
    rw (low, whole) (join_loop-fits sep base parts some_sep fits)

-- One name in a directory.
pub path_join-name :
    (sep base name : Bytes)
    → 0 < length sep
    → 0 < length base
    → length base + (length sep + length name) < max_filename_size
    → path_join sep base (name ∷ []) ≡ joined (base ++ (sep ++ name))
unfolding parts_text
path_join-name sep base name some_sep some_base fits =
    let last = append-nil name in
    let size = length-append sep name in
    path_join-fits sep base (name ∷ []) some_sep some_base (rw last (omega arith))
    ∙ ap (λ t. joined (base ++ (sep ++ t))) last

-- A name in a directory of a directory.
pub path_join-nested :
    (sep base dir name : Bytes)
    → 0 < length sep
    → 0 < length base
    → length base + (2 * length sep + (length dir + length name)) < max_filename_size
    → path_join sep base (dir ∷ name ∷ []) ≡ joined ((base ++ (sep ++ dir)) ++ (sep ++ name))
unfolding parts_text
path_join-nested sep base dir name some_sep some_base fits =
    let last = append-nil name in
    let size = length-append sep (dir ++ (sep ++ name)) in
    let size2 = length-append dir (sep ++ name) in
    let size3 = length-append sep name in
    path_join-fits sep base (dir ∷ name ∷ []) some_sep some_base (rw last (omega arith))
    ∙ ap (λ t. joined (base ++ (sep ++ (dir ++ (sep ++ t))))) last
    ∙ ap (λ t. joined (base ++ t)) (sym (append_assoc sep dir (sep ++ name)))
    ∙ ap joined (sym (append_assoc base (sep ++ dir) (sep ++ name)))

-- If the base and the first part do not fit the buffer and there is another part, it is written
-- behind the end of the buffer.
pub path_join-overflow :
    (sep base first second : Bytes) (parts : List Bytes)
    → 0 < length sep
    → 0 < length base
    → length base ≤ max_filename_size
    → max_filename_size < length base + length (sep ++ first)
    → path_join sep base (first ∷ second ∷ parts) ≡ overflowed
unfolding path_join join_loop
path_join-overflow sep base first second parts some_sep some_base short long =
    let low : (length base == 0) ≡ false = ground arith in
    let in_buffer : ltb max_filename_size (length base) ≡ false = ground arith in
    let size = length-append sep first in
    let some_text : (length (sep ++ first) == 0) ≡ false = ground arith in
    let behind : ltb max_filename_size (length base + length (sep ++ first)) ≡ true =
      ground arith in
    rw (low, in_buffer, some_text, behind) refl
