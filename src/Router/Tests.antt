-- ===== src/Router/Tests.antt =====
-- Runs of mnet/router.c.
use i2p_lite.Base.{◌≢◌, true, false, [], none, some}
use i2p_lite.Base.{codes}
use i2p_lite.Memory.{little}
use i2p_lite.Sodium.Sample.{sample}
use i2p_lite.Hashmap.{init}
use i2p_lite.Router.{Disk, Context, returned, load}
use i2p_lite.Router.Laws.{router_load-never}

abbrev disk : Disk
disk = record {
  has_data_dir = true;
  makes_data_dir = false;
  keys_room = some 200;
  keys_room_again = some 200;
  opens_info = false;
  ensures_skiplist = true;
  nodes = [];
}

-- Keys and a router info that were there before.
abbrev context : Context
context = record {
  keys_file = some (codes "d4:cert");
  info_file = some (codes "de");
  privkeys = none;
  our_ri = none;
  map = init;
}

router_load-never_example : load sample little 9 [] disk context ≢ returned true context
router_load-never_example = router_load-never sample little 9 [] disk context context
