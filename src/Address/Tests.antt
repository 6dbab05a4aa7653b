-- ===== src/Address/Tests.antt =====
-- Runs of mnet/address.c.
use mathlib.Core.Option.{map}
use i2p_lite.Base.{◌≡◌, refl, none, some, arith, replicate}
use i2p_lite.Base.{codes}
use i2p_lite.Memory.{little, swap_be, le_value, le_bytes}
use i2p_lite.Numerals.{decimal, decimal_from, atoi, atoi_sign, atoi_digits}
use i2p_lite.Address.{Address, process_dict, set_port, port_str}
use i2p_lite.Address.Port.{port_str-process_dict}

abbrev empty : Address
empty = record { style = none; host = none; port = 0; cost = 0; date = 0; key = replicate 32 0 }

-- A port below zero is cut to sixteen bits.
test_negative :
    map (port_str little) (process_dict little 32 (codes "port") (codes "-1") empty)
    ≡ some (codes "65535")
unfolding process_dict set_port port_str swap_be le_value le_bytes decimal decimal_from atoi
    atoi_sign atoi_digits
test_negative = refl

port_str-process_dict_example :
    map (port_str little) (process_dict little 32 (codes "port") (decimal 65537) empty)
    ≡ some (decimal 1)
port_str-process_dict_example = port_str-process_dict little 32 65537 empty (omega arith)
