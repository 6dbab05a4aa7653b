-- ===== src/Config.antt =====
-- mnet/config.c: the configuration file. A C string is the list of its bytes before the
-- terminator; a pointer into a line is what is left of the line.
pub mod Lines
pub mod RoundTrip
pub mod Written
mod Tests
use i2p_lite.Base.{
  ℕ, zero, suc, ◌+◌, ◌-◌, ◌%◌, ◌^◌, Bool, true, false, ◌&&◌, ◌||◌, List, [], ◌∷◌, ◌++◌, Option,
  none, some,
}
use i2p_lite.Base.{Bytes, codes, ltb, leb, ◌==◌, if◌then◌else◌}

abbrev pub newline : ℕ
newline = 10

-- `isalnum` in the C locale
unfoldable pub is_alnum : ℕ → Bool
is_alnum c = (leb b'0' c && leb c b'9') || (leb b'A' c && leb c b'Z') || (leb b'a' c && leb c b'z')

-- `skip_spaces`
unfoldable pub skip_spaces : Bytes → Bytes
skip_spaces [] = []
skip_spaces (c ∷ cs) = if c == b' ' then skip_spaces cs else c ∷ cs

-- What `skip_chars` goes over.
unfoldable pub is_name_char : ℕ → Bool
unfolding is_alnum
is_name_char c = (c == b'.') || is_alnum c

-- `skip_chars` and `strndup` of what it went over: the characters, and the rest.
unfoldable pub skip_chars : Bytes → Bytes × Bytes
skip_chars [] = ([], [])
skip_chars (c ∷ cs) =
    let (front, rest) = skip_chars cs in if is_name_char c then (c ∷ front, rest) else ([], c ∷ cs)

-- `read_to_comment`, likewise
unfoldable pub read_to_comment : Bytes → Bytes × Bytes
read_to_comment [] = ([], [])
read_to_comment (c ∷ cs) =
    let (front, rest) = read_to_comment cs in
    if (c == b'#') || (c == newline) then ([], c ∷ cs) else (c ∷ front, rest)

abbrev pub starts_with : ℕ → Bytes → Bool
starts_with c [] = false
starts_with c (d ∷ ds) = d == c

-- `is_comment_line` and `is_emtpy_line`
unfoldable pub is_comment_line : Bytes → Bool
is_comment_line line = starts_with b'#' (skip_spaces line)

unfoldable pub is_empty_line : Bytes → Bool
is_empty_line line = starts_with newline (skip_spaces line)

-- `struct mnet_config_entry` and `struct mnet_config`: the list begins with the last entry.
pub record Entry : Type 0 where
  pub name : Bytes
  pub value : Bytes

pub record Config : Type 0 where
  pub entries : List Entry
  pub size : ℕ

-- `mnet_config_alloc`
unfoldable pub alloc : Config
alloc = record { entries = []; size = 0 }

-- `mnet_config_append_entry`
unfoldable pub append_entry : Config → Bytes → Bytes → Config
append_entry cfg name value = record {
  entries = record { name = name; value = value } ∷ cfg.entries;
  size = (cfg.size + 1) % 2 ^ 64;
}

-- `mnet_config_for_each`: the entries in the order in which the callback is given them.
unfoldable pub for_each : Config → List Entry
for_each cfg = cfg.entries

-- What the loop of `mnet_config_load` makes of a line.
pub data Line : Type 0 where
  skipped bad : Line
  entry : Bytes → Bytes → Line

-- The value of a line, from behind the `=` on.
unfoldable pub read_value : Bytes → Bytes
read_value rest =
    let (front, more) = skip_chars (skip_spaces rest) in
    let (back, _) = read_to_comment more in front ++ back

-- The key is read; a line goes on with spaces and `=`.
unfoldable pub read_rest : Bytes → Bytes → Line
read_rest key [] = bad
read_rest key (c ∷ cs) = if c == b'=' then entry key (read_value cs) else bad

unfoldable pub read_line : Bytes → Line
read_line line =
    if is_comment_line line
    then skipped
    else if is_empty_line line
    then skipped
    else (let (key, rest) = skip_chars (skip_spaces line) in read_rest key (skip_spaces rest))

-- `fgets(linebuf, 1024, f)`: up to `room` bytes, to the end of a line. The bytes are not NUL.
unfoldable pub fgets : ℕ → Bytes → Bytes × Bytes
fgets zero input = ([], input)
fgets (suc room) [] = ([], [])
fgets (suc room) (c ∷ cs) =
    let (front, rest) = fgets room cs in if c == newline then (c ∷ [], cs) else (c ∷ front, rest)

abbrev pub line_room : ℕ
line_room = 1023

-- What a line makes of the loop, of which `continue` is the next round.
unfoldable pub load_line :
    (continue : Config → Bytes → Option (Config × Bool))
    → Config
    → Bytes
    → Line
    → Option (Config × Bool)
load_line continue cfg rest skipped = continue cfg rest
load_line continue cfg rest bad = some (cfg, false)
load_line continue cfg rest (entry k v) = continue (append_entry cfg k v) rest

-- The loop of `mnet_config_load`: the configuration and the return value. Each round reads a byte
-- at least, so the length of the file is enough fuel, and `none` is not returned.
unfoldable pub load_loop : ℕ → Config → Bytes → Option (Config × Bool)
load_loop fuel cfg [] = some (cfg, true)
load_loop zero cfg (c ∷ cs) = none
load_loop (suc fuel) cfg (c ∷ cs) =
    let (line, rest) = fgets line_room (c ∷ cs) in
    load_line (load_loop fuel) cfg rest (read_line line)

-- `mnet_config_load` of a file with these bytes; `none` is a file that cannot be opened.
unfoldable pub load : ℕ → Option Bytes → Option (Config × Bool)
load fuel none = some (alloc, false)
load fuel (some input) = load_loop fuel alloc input

-- `mnet_config_iter_write`
unfoldable pub write_entry : Entry → Bytes
write_entry e = e.name ++ (codes " = " ++ (e.value ++ newline ∷ []))

-- What `mnet_config_for_each` with `mnet_config_iter_write` writes.
unfoldable pub write_entries : List Entry → Bytes
write_entries [] = []
write_entries (e ∷ es) = write_entry e ++ write_entries es

-- The settings of `mnet_config_gen`, given the data directory.
unfoldable pub default_config : Bytes → Config
default_config datadir =
    append_entry
      (append_entry (append_entry alloc (codes "mnet.crypto.check") (codes "1"))
        (codes "mnet.datadir") datadir)
      (codes "mnet.log.level") (codes "1")

-- What `mnet_config_gen` writes, given the digits of the time and the data directory.
unfoldable pub gen : Bytes → Bytes → Bytes
gen time datadir =
    codes "# auto generated config file"
    ++ (newline
        ∷ (codes "# generated at "
            ++ (time ++ (newline ∷ newline ∷ write_entries (for_each (default_config datadir))))))
