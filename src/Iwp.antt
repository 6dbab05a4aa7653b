-- ===== src/Iwp.antt =====
-- mnet/iwp.c: the configuration of the transport protocol. The rest of the file is types.
use i2p_lite.Base.{Bool, true, false, ◌&&◌, [], ◌∷◌, Option, none, some}
use i2p_lite.Base.{Bytes, codes, bytes_eq, if◌then◌else◌}
use i2p_lite.Bencode.{Obj, str, int, dict, list, Fields, end, field, ring, getstr}
use i2p_lite.Bencode.Read.{c_string}

-- `struct iwp_config`
pub record IwpConfig : Type 0 where
  pub pubkey : Option Bytes
  pub addr : Option Bytes

-- `iwp_config_new`: `xmalloc` zeroes.
abbrev pub new : IwpConfig
new = record { pubkey = none; addr = none }

-- `if(v)` behind `bencode_obj_getstr`, and the copy that `strdup` makes.
abbrev pub copied : Option Bytes → Option Bytes → Option Bytes
copied none old = old
copied (some []) old = old
copied (some (c ∷ cs)) old = some (c_string (c ∷ cs))

-- `iwp_config_iter_dict`
unfoldable pub iter_entry : (key : Bytes) → Obj → IwpConfig → IwpConfig
iter_entry key v cfg =
    if bytes_eq key (codes "pubkey")
    then record cfg { pubkey = copied (getstr v) cfg.pubkey }
    else if bytes_eq key (codes "addr")
    then record cfg { addr = copied (getstr v) cfg.addr }
    else cfg

-- `bencode_obj_iter_dict`. A value of a dictionary has been cloned, so its chain is never tied.
unfoldable pub iter_dict : Fields → IwpConfig → IwpConfig
iter_dict end cfg = cfg
iter_dict (ring i u j v) cfg = cfg
iter_dict (field key v fs) cfg = iter_dict fs (iter_entry key v cfg)

-- The entries of an object: none, if it is not a dictionary.
abbrev pub entries : Obj → Fields
entries (str b) = end
entries (int i) = end
entries (dict fs) = fs
entries (list xs) = end

abbrev pub is_set : Option Bytes → Bool
is_set none = false
is_set (some b) = true

-- `iwp_config_load_dict`: the result and the configuration.
unfoldable pub load_dict : IwpConfig → Obj → Bool × IwpConfig
load_dict cfg d =
    let cfg' = iter_dict (entries d) cfg in (is_set cfg'.addr && is_set cfg'.pubkey, cfg')
