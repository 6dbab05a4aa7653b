-- ===== src/Config/Tests.antt =====
-- Runs of mnet/config.c, and the theorems about it at concrete files.
use i2p_lite.Base.{◌≡◌, refl, ◌∷◌, [], Bool, true, some, arith, All, reverse}
use i2p_lite.Base.{codes}
use i2p_lite.Config.{
  alloc, append_entry, fgets, load_line, load_loop, read_to_comment, read_value, is_name_char,
  skip_chars, read_rest, is_empty_line, skip_spaces, is_comment_line, Entry, Config, for_each,
  default_config, gen, load, write_entries, entry, bad, read_line,
}
use i2p_lite.Config.RoundTrip.{load-total, load-clean, CleanEntry}
use i2p_lite.Config.Written.{load-write_entries, load-gen}

test_entry :
    read_line (codes " mnet.log.level =a b # why") ≡ entry (codes "mnet.log.level") (codes "a b ")
unfolding read_line is_comment_line skip_spaces is_empty_line read_rest skip_chars is_name_char
    read_value read_to_comment
test_entry = refl

test_bad : read_line (codes "log level = 1") ≡ bad
unfolding read_line is_comment_line skip_spaces is_empty_line read_rest skip_chars is_name_char
test_bad = refl

abbrev one_entry : Entry
one_entry = record { name = codes "a"; value = codes "1" }

load-total_example :
    (cfg : Config) × (ok : Bool) × (load 6 (some (codes "a = 1 ")) ≡ some (cfg, ok))
load-total_example = load-total 6 (codes "a = 1 ") (omega arith)

load-clean_example : All CleanEntry (one_entry ∷ [])
unfolding load_loop load_line read_line is_comment_line skip_spaces fgets is_empty_line read_rest
    skip_chars is_name_char append_entry read_value alloc read_to_comment
load-clean_example =
    load-clean 6 (codes "a = 1#") {cfg = record { entries = one_entry ∷ []; size = 1 }} {ok = true}
      (unfold load in refl)

load-write_entries_example :
    load 1 (some (write_entries (one_entry ∷ [])))
    ≡ some (record { entries = one_entry ∷ []; size = 1 }, true)
load-write_entries_example =
    load-write_entries 1 (one_entry ∷ [])
      (((unfold is_name_char in (refl, tt)), (refl, tt), (omega arith), (omega arith)), tt)
      (omega arith) (omega arith)

load-gen_example :
    load 6 (some (gen (codes "1500000000") (codes "/home/i2p/.config/mnet")))
    ≡ some (
      record {
        entries = reverse (for_each (default_config (codes "/home/i2p/.config/mnet")));
        size = 3;
      },
      true,
    )
load-gen_example =
    load-gen 6 (codes "1500000000") (codes "/home/i2p/.config/mnet") (ground arith) (omega arith)
      (ground arith, omega arith, omega arith) (omega arith)
