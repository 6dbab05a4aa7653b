-- ===== src/Netdb/Skiplist.antt =====
-- The directories of mnet/netdb.c: those that are ensured, and those that the entries are kept in.
use i2p_lite.Base.{
  ℕ, ◌+◌, ◌*◌, ◌/◌, ◌≤◌, ◌<◌, ◌≡◌, ◌≢◌, ◌⊎◌, inl, inr, refl, sym, ap, ◌∙◌, Bool, true, false, ◌&&◌,
  ◌||◌, not, holds_below, holds_below-at, List, [], ◌∷◌, ◌++◌, some, arith, Bool-cases,
}
use mathlib.Core.List.{Memᴰ}
use i2p_lite.Base.{Bytes, codes, length, length-take, take, ◌==◌}
use i2p_lite.Encoding.{t64, t64_table, digit1, Encoded, encode, encode_groups}
use i2p_lite.Encoding.RoundTrip.{encode-eq}
use i2p_lite.Paths.{joined, max_filename_size}
use i2p_lite.Paths.Join.{path_join-name, path_join-nested}
use i2p_lite.Bencode.Read.{c_string}
use i2p_lite.Netdb.{
  entry_path, Opened, opened, absent, refused, ensure_dir, ensure_more, ensure_root, ensure_loop,
  ensure_skiplist, base64_chars,
}

module _ (sep rootdir : Bytes) (opendir : Bytes → Opened) (mkdir : Bytes → Bool) where
  -- The directory of the entries whose names begin with a character.
  abbrev pub subdir : ℕ → Bytes
  subdir c = rootdir ++ (sep ++ (b'r' ∷ c ∷ []))

  -- Those that are not there yet.
  abbrev pub if_absent : Opened → Bytes → List Bytes → List Bytes
  if_absent opened path rest = rest
  if_absent absent path rest = path ∷ rest
  if_absent refused path rest = rest

  unfoldable pub missing : (chars : Bytes) → List Bytes
  missing [] = []
  missing (c ∷ cs) = if_absent (opendir (subdir c)) (subdir c) (missing cs)

  module _ (works : (path : Bytes) → mkdir path ≡ true) (some_sep : 0 < length sep)
      (some_root : 0 < length rootdir)
      (fits : length rootdir + (length sep + 2) < max_filename_size) where
    ensure_loop-missing :
        (chars : Bytes) → ensure_loop sep rootdir opendir mkdir chars ≡ some (true, missing chars)
    unfolding ensure_loop missing
    ensure_loop-missing [] = refl
    ensure_loop-missing (c ∷ cs) =
        rw
          (
            path_join-name sep rootdir (b'r' ∷ c ∷ []) some_sep some_root fits,
            ensure_loop-missing cs,
          )
          (by_dir (opendir (subdir c)))
      where
        by_dir :
            (o : Opened)
            → ensure_more sep rootdir opendir mkdir
                (ensure_dir sep rootdir opendir mkdir o (subdir c))
                (some (true, missing cs))
              ≡ some (true, if_absent o (subdir c) (missing cs))
        by_dir opened = refl
        by_dir absent = rw (works (subdir c)) refl
        by_dir refused = refl

    -- The directories that are not there are made, and no others.
    ensure_skiplist-missing :
        ensure_skiplist sep rootdir opendir mkdir ≡ some (true, missing base64_chars)
    unfolding ensure_skiplist
    ensure_skiplist-missing = by_root (opendir rootdir)
      where
        by_root :
            (o : Opened)
            → ensure_root sep rootdir opendir mkdir o ≡ some (true, missing base64_chars)
        by_root opened = ensure_loop-missing base64_chars
        by_root absent = rw (works rootdir) (ensure_loop-missing base64_chars)
        by_root refused = rw (works rootdir) (ensure_loop-missing base64_chars)

  -- A directory that has been there, or could not be opened for another reason than being absent, or
  -- that is among those made.
  abbrev pub Ensured : (made : List Bytes) → (path : Bytes) → Type 0
  Ensured made path = (opendir path ≢ absent) ⊎ Memᴰ path made

  Ensured-more :
      (o : Opened) (path other : Bytes) (made : List Bytes)
      → Ensured made path
      → Ensured (if_absent o other made) path
  Ensured-more opened path other made h = h
  Ensured-more absent path other made (inl there) = inl there
  Ensured-more absent path other made (inr m) = inr (Memᴰ.tail m)
  Ensured-more refused path other made h = h

  Ensured-first :
      (o : Opened) (path : Bytes) (made : List Bytes)
      → opendir path ≡ o
      → Ensured (if_absent o path made) path
  Ensured-first opened path made e = inl (λ h. not_absent (sym e ∙ h))
    where
      not_absent : opened ≢ absent
      not_absent h = cc
  Ensured-first absent path made e = inr (Memᴰ.head refl)
  Ensured-first refused path made e = inl (λ h. not_absent (sym e ∙ h))
    where
      not_absent : refused ≢ absent
      not_absent h = cc

  Ensured-missing : (c : ℕ) (chars : Bytes) → Memᴰ c chars → Ensured (missing chars) (subdir c)
  unfolding missing
  Ensured-missing c [] h = elim h [ ]
  Ensured-missing c (d ∷ ds) (Memᴰ.head e) =
      rw e (Ensured-first (opendir (subdir d)) (subdir d) (missing ds) refl)
  Ensured-missing c (d ∷ ds) (Memᴰ.tail m) =
      Ensured-more (opendir (subdir d)) (subdir c) (subdir d) (missing ds) (Ensured-missing c ds m)

-- The directory of an entry: its name begins with a digit of the base 64 alphabet.
any_of : ℕ → Bytes → Bool
any_of c [] = false
any_of c (d ∷ ds) = (c == d) || any_of c ds

any_of-Memᴰ : (c : ℕ) (ds : Bytes) → any_of c ds ≡ true → Memᴰ c ds
unfolding any_of
any_of-Memᴰ c [] h = ground arith
any_of-Memᴰ c (d ∷ ds) h = elim (Bool-cases (c == d)) [
  | inl same ↦ Memᴰ.head (ground arith)
  | inr other ↦ Memᴰ.tail (any_of-Memᴰ c ds (rw other at h))
]

digits-table : holds_below 64 (λ d. any_of (t64 d) base64_chars && not (t64 d == 0)) ≡ true
unfolding holds_below any_of t64 t64_table
digits-table = refl

first_digit :
    (a : ℕ) → a < 256 → Memᴰ (t64 (digit1 a)) base64_chars × ((t64 (digit1 a) == 0) ≡ false)
unfolding digit1
first_digit a h =
    let d : ℕ = a / 4 in
    let both : any_of (t64 d) base64_chars && not (t64 d == 0) ≡ true =
      holds_below-at 64 (λ d. any_of (t64 d) base64_chars && not (t64 d == 0)) d digits-table
        (omega arith) in
    (any_of-Memᴰ (t64 d) base64_chars (ground arith), ground arith)

encode_groups-first :
    (a : ℕ) (rest : Bytes) → (cs : Bytes) × (encode_groups (a ∷ rest) ≡ t64 (digit1 a) ∷ cs)
unfolding encode_groups
encode_groups-first a [] = (_, refl)
encode_groups-first a (b ∷ []) = (_, refl)
encode_groups-first a (b ∷ c ∷ rest) = (_, refl)

-- The name of an identity of at most 96 bytes fits the buffer.
encode-first :
    (a : ℕ) (rest : Bytes)
    → length (a ∷ rest) ≤ 96
    → (cs : Bytes) × ((encode (a ∷ rest) 128).stored ≡ t64 (digit1 a) ∷ cs)
encode-first a rest h =
    let (cs, e) = encode_groups-first a rest in
    (cs, ap (λ (r : Encoded). r.stored) (encode-eq (a ∷ rest) 128 (omega arith) (omega arith)) ∙ e)

-- The text of a name and its first character.
text-first :
    (a : ℕ) (rest : Bytes)
    → a < 256
    → length (a ∷ rest) ≤ 96
    → (cs : Bytes) × (c_string ((encode (a ∷ rest) 128).stored ++ 0 ∷ []) ≡ t64 (digit1 a) ∷ cs)
unfolding c_string
text-first a rest h size =
    let (cs, e) = encode-first a rest size in
    let some_char : (t64 (digit1 a) == 0) ≡ false = (first_digit a h).1 in
    (c_string (cs ++ 0 ∷ []), rw (e, some_char) refl)

-- If every `mkdir` works and the paths fit, the skiplist is ensured, and then the file of an entry is a
-- file of a directory that has been there, could be told not to be absent, or has been made.
pub entry_path-Ensured :
    (sep rootdir : Bytes) (opendir : Bytes → Opened) (mkdir : Bytes → Bool) (a : ℕ) (rest : Bytes)
    → ((path : Bytes) → mkdir path ≡ true)
    → 0 < length sep
    → 0 < length rootdir
    → length rootdir + (2 * length sep + 129) < max_filename_size
    → a < 256
    → length (a ∷ rest) ≤ 96
    → (c : ℕ) × (name : Bytes) × (made : List Bytes) × (entry_path sep rootdir (a ∷ rest)
        ≡ joined (subdir sep rootdir opendir mkdir c ++ (sep ++ name)))
      × (ensure_skiplist sep rootdir opendir mkdir ≡ some (true, made))
      × Ensured sep rootdir opendir mkdir made (subdir sep rootdir opendir mkdir c)
unfolding entry_path
entry_path-Ensured sep rootdir opendir mkdir a rest works some_sep some_root fits h size =
    let c = t64 (digit1 a) in
    let (cs, text) = text-first a rest h size in
    let name = take 127 (codes "node-r" ++ ((c ∷ cs) ++ codes ".dat")) in
    let short = length-take 127 (codes "node-r" ++ ((c ∷ cs) ++ codes ".dat")) in
    (
      c,
      name,
      missing sep rootdir opendir mkdir base64_chars,
      rw text (path_join-nested sep rootdir (b'r' ∷ c ∷ []) name some_sep some_root (omega arith)),
      ensure_skiplist-missing sep rootdir opendir mkdir works some_sep some_root (omega arith),
      Ensured-missing sep rootdir opendir mkdir c base64_chars (first_digit a h).0,
    )
