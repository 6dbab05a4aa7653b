-- ===== src/Directory/Tests.antt =====
-- Runs of mnet/util.c over a directory.
use i2p_lite.Base.{◌≡◌, ◌==◌, List, [], ◌∷◌, Option, some, arith, refl}
use i2p_lite.Base.{Bytes, codes, bytes_eq, if◌then◌else◌}
use i2p_lite.Directory.{Stat, regular, directory, is_file, iterate_all_with_filter}
use i2p_lite.Directory.Visits.{kept, each, iterate_all-kept}

abbrev entries : List Bytes
entries = codes "." ∷ codes ".." ∷ codes "a.dat" ∷ codes "rA" ∷ []

abbrev open_any : Bytes → Option (List Bytes)
open_any path = some entries

abbrev stat : Bytes → Stat
stat path = if bytes_eq path (codes "/nodes/a.dat") then regular else directory

abbrev collect : Bytes → List Bytes → List Bytes
collect path seen = path ∷ seen

test_kept : kept (codes "/") (codes "/nodes") (is_file stat) entries ≡ codes "/nodes/a.dat" ∷ []
unfolding kept
test_kept = refl

iterate_all-kept_example :
    iterate_all_with_filter (codes "/") open_any 0 collect (is_file stat) (codes "/nodes") []
    ≡ some (0 == 0, each collect (kept (codes "/") (codes "/nodes") (is_file stat) entries) [])
iterate_all-kept_example =
    iterate_all-kept (codes "/") open_any 0 collect (is_file stat) (codes "/nodes") (omega arith)
      (omega arith) entries [] refl (omega arith, (omega arith, (omega arith, (omega arith, tt))))
