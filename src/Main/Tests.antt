-- ===== src/Main/Tests.antt =====
-- Runs of mrouter.c, and the theorems about it at a concrete system.
use i2p_lite.Paths.{join_loop, path_join}
use i2p_lite.Base.{◌≡◌, ◌≢◌, refl, true, false, [], ◌∷◌, none, some, pos, arith}
use i2p_lite.Base.{Bytes, codes}
use i2p_lite.Memory.{little}
use i2p_lite.Sodium.Sample.{sample}
use i2p_lite.Router.Events.{Router, with_paths}
use i2p_lite.Log.{scope_all}
use mathlib.Core.Option.{bind}
use i2p_lite.Config.{
  load, load_loop, load_line, read_line, is_comment_line, skip_spaces, fgets, is_empty_line,
  read_rest, skip_chars, is_name_char, is_alnum, read_to_comment, read_value, alloc, append_entry,
  for_each,
}
use i2p_lite.Main.{
  read_options, configure, iter_config_main, Settings, Env, ready, router_dir, then_do,
}
use i2p_lite.Main.Setup.{setup, gen_datadir, config_text, load_text, configured, ensure_datadir}
use i2p_lite.RouterInfo.{new as new_info}
use i2p_lite.Main.Run.{Files, Random, main, running, setup_scope}
use i2p_lite.Main.Laws.{main-never}
use i2p_lite.Main.Datadir.{Chosen, setup-Chosen}
use i2p_lite.Main.Generated.{level_only, configured-generated}

abbrev sep : Bytes
sep = codes "/"

-- A system with a home directory and a configuration that sets the data directory.
abbrev system : Env
system = record {
  options =
      record { opt = b'f'; word = codes "i2p.conf" }
      ∷ record { opt = b'b'; word = codes "node.dat" }
      ∷ [];
  has_arguments = true;
  has_words = false;
  home = some (codes "/home/i2p");
  mnet_root = none;
  exists = λ path. true;
  files = λ path. some (codes "mnet.router.dir = /data");
  writable = λ path. true;
  time = codes "1500000000";
  loop = 1;
}

-- A system with no configuration yet.
abbrev fresh_system : Env
fresh_system = record system { options = []; exists = λ path. false }

abbrev files : Files
files = record {
  keys_file = none;
  info_file = none;
  disk = record {
    has_data_dir = true;
    makes_data_dir = false;
    keys_room = some 200;
    keys_room_again = some 200;
    opens_info = false;
    ensures_skiplist = true;
    nodes = [];
  };
}

abbrev random : Random
random = record {
  keys = codes "random";
  check_key = codes "random";
  check_message = codes "message";
}

abbrev router : Router
router = with_paths sep 7 (record { loop = 1; datadir = none; bootstrap = none }) [] [] [] []

main-never_example :
    main sample little 20 sep 7 (λ ri. new_info) true random files system
    ≢ running router (some (record { level = pos 2; scope = setup_scope; out = [] }))
main-never_example =
    main-never sample little 20 sep 7 (λ ri. new_info) true random files system router
      (some (record { level = pos 2; scope = setup_scope; out = [] }))

abbrev settings : Settings
settings = record {
  config = record {
    router = record { loop = 1; datadir = some router_dir; bootstrap = none };
    crypto = record { sanity_check = true };
  };
  log = some (record { level = pos 2; scope = scope_all; out = [] });
}

test_setup : setup sep system ≡ ready settings
unfolding setup read_options bind config_text load load_loop load_line read_line is_comment_line
    skip_spaces fgets is_empty_line read_rest skip_chars is_name_char is_alnum read_to_comment
    read_value alloc append_entry for_each configured configure iter_config_main
test_setup = refl

setup-Chosen_example : Chosen sep system settings.config.router
setup-Chosen_example = setup-Chosen sep system settings test_setup

test_gen_datadir : gen_datadir sep fresh_system ≡ ready (codes "/home/i2p/.config/mnet")
unfolding gen_datadir path_join join_loop
test_gen_datadir = refl

configured-generated_example :
    then_do
      (config_text sep fresh_system (codes "/home/i2p/.mnet.conf"))
      (λ text. then_do (load_text sep fresh_system text) (configured sep fresh_system 2))
    ≡ ensure_datadir sep fresh_system (some (level_only sep fresh_system))
configured-generated_example =
    configured-generated sep fresh_system 2 (codes "/home/i2p/.mnet.conf")
      (codes "/home/i2p/.config/mnet") refl refl test_gen_datadir (ground arith) (omega arith)
      (ground arith, omega arith, omega arith)
