-- ===== src/Address/Port.antt =====
-- mnet/address.c: the port of an address, which is kept in network order.
use mathlib.Core.Option.{map}
use i2p_lite.Base.{ℕ, ◌%◌, ◌^◌, ◌<◌, ◌≤◌, ◌≡◌, refl, [], ◌∷◌, ◌++◌, some, arith, take-all}
use i2p_lite.Base.{codes, length}
use i2p_lite.Memory.{Host, little, big, w16, swap_be, le_value, le_bytes}
use i2p_lite.Numerals.{decimal, atoi, value}
use i2p_lite.Numerals.Laws.{atoi-decimal, length-decimal}
use i2p_lite.Address.{Address, set_port, process_dict, port_str}

-- `ntohs` takes back what `htons` does.
swap_be-swap_be :
    (machine : Host) (v : ℕ) → v < 2 ^ 16 → swap_be machine w16 (swap_be machine w16 v) ≡ v
unfolding swap_be le_value le_bytes
swap_be-swap_be little v h = omega arith
swap_be-swap_be big v h = refl

-- A port that is given as a decimal numeral is printed back, on a host of either byte order: all of
-- it if it has at most sixteen bits, and its remainder modulo 2 ^ 16 otherwise, up to the largest `int`.
pub port_str-process_dict :
    (machine : Host) (key_size n : ℕ) (a : Address)
    → n < 2 ^ 31
    → map (port_str machine) (process_dict machine key_size (codes "port") (decimal n) a)
      ≡ some (decimal (n % 2 ^ 16))
unfolding process_dict set_port port_str
port_str-process_dict machine key_size n a h =
    let read : atoi (decimal n ++ 0 ∷ []) ≡ value n = atoi-decimal n 0 [] h refl in
    let back = swap_be-swap_be machine (n % 2 ^ 16) (omega arith) in
    let short : length (decimal (n % 2 ^ 16)) ≤ 9 =
      length-decimal 9 (n % 2 ^ 16) (omega arith) (omega arith) in
    rw (read, back, take-all 9 _ short) refl
