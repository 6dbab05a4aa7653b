-- ===== src/Log.antt =====
-- mnet/log.c: the filter of the log, its lines, and the dump of a piece of memory.
-- The clock, the text that `vfprintf` makes of a message and the text of a pointer are parameters.
pub mod Filter
mod Tests
use i2p_lite.Base.{
  ℕ, zero, suc, ◌+◌, ◌-◌, ◌%◌, ◌/◌, ◌*◌, ◌^◌, Bool, true, false, not, ◌&&◌, ◌||◌, List, [], ◌∷◌,
  ◌++◌, Option, none, some, ℤ, pos, negsuc, bit_and, bit_or,
}
use i2p_lite.Base.{Bytes, codes, ltb, ◌==◌, if◌then◌else◌}
use i2p_lite.Numerals.{decimal}

-- include/mnet/log.h: the levels and the scopes.
abbrev pub level_debug : ℕ
level_debug = 1

abbrev pub level_info : ℕ
level_info = 2

abbrev pub level_warn : ℕ
level_warn = 3

abbrev pub level_error : ℕ
level_error = 4

abbrev pub scope_net : ℕ
scope_net = 2 ^ 0

abbrev pub scope_crypto : ℕ
scope_crypto = 2 ^ 1

abbrev pub scope_i2np : ℕ
scope_i2np = 2 ^ 2

abbrev pub scope_ntcp : ℕ
scope_ntcp = 2 ^ 3

abbrev pub scope_ssu : ℕ
scope_ssu = 2 ^ 4

abbrev pub scope_main : ℕ
scope_main = 2 ^ 5

abbrev pub scope_config : ℕ
scope_config = 2 ^ 6

abbrev pub scope_router : ℕ
scope_router = 2 ^ 7

abbrev pub scope_netdb : ℕ
scope_netdb = 2 ^ 8

abbrev pub scope_data : ℕ
scope_data = 2 ^ 9

abbrev pub scope_util : ℕ
scope_util = 2 ^ 9

abbrev pub scope_all : ℕ
scope_all = bit_or scope_net (
    bit_or scope_crypto (
      bit_or scope_i2np (
        bit_or scope_ntcp (
          bit_or scope_ssu (
            bit_or scope_main (
              bit_or scope_config
                (bit_or scope_router (bit_or scope_netdb (bit_or scope_data scope_util)))))))))

-- The scopes, one bit each, of which LOG_DATA and LOG_UTIL are the same.
abbrev pub scopes : List ℕ
scopes =
    scope_net ∷ scope_crypto ∷ scope_i2np ∷ scope_ntcp ∷ scope_ssu ∷ scope_main ∷ scope_config
    ∷ scope_router ∷ scope_netdb ∷ scope_data ∷ scope_util ∷ []

-- `struct log_ctx`, with what has been written to its stream. A scope is an `int` by its bit pattern.
pub record Log : Type 0 where
  pub level : ℤ
  pub scope : ℕ
  pub out : Bytes

-- `log`, which is NULL before `mnet_log_init` and behind `mnet_log_end`; `none` is an access to NULL.
abbrev pub State : Type 0
State = Option Log

-- `mnet_log_init`: `xmalloc` zeroes the object.
abbrev pub init : State
init = some (record { level = pos 0; scope = 0; out = [] })

abbrev pub set_level : ℤ → State → Option State
set_level level none = none
set_level level (some l) = some (some (record l { level = level }))

abbrev pub set_scope : ℕ → State → Option State
set_scope scope none = none
set_scope scope (some l) = some (some (record l { scope = scope }))

-- `mnet_log_end`, for the stream `stderr`
abbrev pub finish : State → Option State
finish none = none
finish (some l) = some none

-- `log->level > level`
abbrev pub above : ℤ → ℕ → Bool
above (pos n) level = ltb level n
above (negsuc n) level = false

-- `log->level == L_DEBUG`
abbrev pub is_debug : ℤ → Bool
is_debug (pos n) = n == level_debug
is_debug (negsuc n) = false

-- The color and the name of a level.
abbrev pub level_color : ℕ → ℕ
level_color level =
    if level == level_info
    then 36
    else if level == level_debug
    then 37
    else if level == level_warn
    then 33
    else 31

abbrev pub level_name : ℕ → Bytes
level_name level =
    if level == level_info
    then codes "NFO"
    else if level == level_debug
    then codes "DBG"
    else if level == level_warn
    then codes "WRN"
    else if level == level_error
    then codes "ERR"
    else codes "???"

abbrev pub escape : Bytes
escape = 27 ∷ codes "["

-- A line of the log.
unfoldable pub line : (level lineno time : ℕ) → (file text : Bytes) → Bytes
line level lineno time file text =
    escape
    ++ (codes "1;"
        ++ (decimal (level_color level)
            ++ (codes "m["
                ++ (level_name level
                    ++ (codes " "
                        ++ (decimal time
                            ++ (codes " "
                                ++ (file
                                    ++ (codes ":"
                                        ++ (decimal lineno
                                            ++ (codes "] "
                                                ++ (text
                                                    ++ (escape
                                                        ++ (codes "0m" ++ 10 ∷ []))))))))))))))

-- `__mnet_log`
unfoldable pub log :
    (level lineno time : ℕ) → (file : Bytes) → (scope : ℕ) → (text : Bytes) → State → State
log level lineno time file scope text none = none
log level lineno time file scope text (some l) =
    if (bit_and l.scope scope == 0) || above l.level level
    then some l
    else some (record l { out = l.out ++ line level lineno time file text })

-- `%.2x` of a byte.
abbrev pub hex_digit : ℕ → ℕ
hex_digit d = if ltb d 10 then b'0' + d else b'a' + (d - 10)

abbrev pub hex : ℕ → Bytes
hex b = hex_digit (b / 16) ∷ hex_digit (b % 16) ∷ []

module _ (pointer : ℕ → Bytes) where
  -- The loop of `__mnet_debug_memory` from the address `p` on.
  unfoldable pub dump : (p c : ℕ) → Bytes → Bytes
  dump p c [] = []
  dump p c (b ∷ bs) =
      let rest = dump (p + 1) ((c + 1) % 2 ^ 64) bs in
      codes " "
      ++ (hex b ++ (if c % 16 == 0 then 10 ∷ (pointer p ++ (codes " " ++ rest)) else rest))

  -- `__mnet_debug_memory`, for the bytes from `begin` up to `end`
  unfoldable pub debug_memory :
      (lineno : ℕ) → (file : Bytes) → (scope begin end : ℕ) → Bytes → State → State
  debug_memory lineno file scope begin end memory none = none
  debug_memory lineno file scope begin end memory (some l) =
      if not (bit_and l.scope scope == 0) && is_debug l.level
      then some (record l {
        out =
            l.out
            ++ (codes "[MEM "
                ++ (file
                    ++ (codes ":"
                        ++ (decimal lineno
                            ++ (codes "] "
                                ++ (pointer begin
                                    ++ (codes " -> "
                                        ++ (pointer end
                                            ++ (10
                                                ∷ (pointer begin
                                                    ++ (codes " "
                                                        ++ (dump begin 1 memory
                                                            ++ 10 ∷ []))))))))))));
      })
      else some l
