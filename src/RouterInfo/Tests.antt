-- ===== src/RouterInfo/Tests.antt =====
-- The theorem about mnet/ri.c at a concrete file.
use i2p_lite.Base.{◌≡◌, refl, true, false, none}
use i2p_lite.Base.{codes}
use i2p_lite.Memory.{little}
use i2p_lite.Sodium.Sample.{sample}
use i2p_lite.Bencode.{free}
use i2p_lite.Bencode.Read.{read_file, read_obj, read_fields}
use i2p_lite.RouterInfo.{returned, new, load, iter_dict, info_hash, free_info}
use i2p_lite.RouterInfo.Laws.{load-new}

test_load : load sample little 5 new (codes "de") ≡ returned true new
unfolding load read_file read_obj read_fields free iter_dict
test_load = refl

load-new_example : (new ≡ new) × (info_hash sample new ≡ none) × (free_info new ≡ false)
load-new_example = load-new sample little 5 (codes "de") true new test_load
