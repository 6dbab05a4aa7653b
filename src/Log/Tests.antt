-- ===== src/Log/Tests.antt =====
-- Runs of mnet/log.c.
use i2p_lite.Base.{List, ◌≡◌, refl, [], ◌∷◌, ◌++◌, some, pos}
use i2p_lite.Base.{codes}
use i2p_lite.Numerals.{decimal, decimal_from}
use i2p_lite.Log.{Log, line, dump, level_debug, level_warn, scope_main, scope_netdb, scope_all}
use i2p_lite.Log.Filter.{Message, log_all, shown, log_all-shown}

test_line :
    line level_warn 7 1000 (codes "a.c") (codes "text")
    ≡ 27 ∷ codes "[1;33m[WRN 1000 a.c:7] text" ++ (27 ∷ codes "[0m" ++ 10 ∷ [])
unfolding line decimal decimal_from
test_line = refl

-- The address behind a line break is that of the byte in front of it.
test_dump : dump (λ p. decimal p) 14 15 (1 ∷ 255 ∷ 3 ∷ []) ≡ codes " 01 ff" ++ (10 ∷ codes "15  03")
unfolding dump decimal decimal_from
test_dump = refl

abbrev messages : List Message
messages =
    record {
      level = level_debug;
      lineno = 1;
      time = 5;
      file = codes "a.c";
      scope = scope_main;
      text = codes "x";
    }
    ∷ record {
      level = level_warn;
      lineno = 2;
      time = 6;
      file = codes "a.c";
      scope = scope_netdb;
      text = codes "y";
    }
    ∷ []

abbrev info_log : Log
info_log = record { level = pos 2; scope = scope_all; out = codes "before" }

log_all-shown_example :
    log_all messages (some info_log)
    ≡ some (record info_log { out = codes "before" ++ shown (pos 2) scope_all messages })
log_all-shown_example = log_all-shown messages info_log
