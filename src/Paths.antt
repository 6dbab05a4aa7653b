-- ===== src/Paths.antt =====
-- mnet/util.c: joining a path in a buffer of MAX_FILENAME_SIZE bytes.
-- Strings are lists of bytes that are not NUL. The separator `__PATH_SEP__`, which CMakeLists.txt
-- defines, is a parameter.
pub mod Join
use i2p_lite.Base.{ℕ, ◌+◌, ◌-◌, List, [], ◌∷◌, ◌++◌}
use i2p_lite.Base.{Bytes, length, take, ltb, ◌==◌, if◌then◌else◌}

-- `MAX_FILENAME_SIZE`
abbrev pub max_filename_size : ℕ
max_filename_size = 256

-- The copy that is returned, a failed `assert`, or a call of `snprintf` with the address behind the
-- buffer and a size that has wrapped round.
pub data Joined : Type 0 where
  joined : Bytes → Joined
  aborted overflowed : Joined

-- `snprintf(path + idx, sizeof(path) - idx, ...)`: the string in the buffer afterwards, of which
-- `path` is what ends at `idx`, or all of it if `idx` is the size.
abbrev pub print_at : (path : Bytes) (idx : ℕ) → Bytes → Bytes
print_at path idx text = path ++ take (max_filename_size - idx - 1) text

-- The loop of `path_join`
unfoldable pub join_loop : (sep path : Bytes) (idx : ℕ) → List Bytes → Joined
join_loop sep path idx [] = joined path
join_loop sep path idx (part ∷ parts) =
    let text = sep ++ part in
    let more = join_loop sep (print_at path idx text) (idx + length text) parts in
    if ltb max_filename_size idx then overflowed else if length text == 0 then aborted else more

-- `path_join`
unfoldable pub path_join : (sep base : Bytes) → List Bytes → Joined
path_join sep base parts =
    if length base == 0 then aborted else join_loop sep (print_at [] 0 base) (length base) parts
