-- ===== src/RouterInfo.antt =====
-- mnet/ri.c: router infos.
-- `none` as a whole result is an access to NULL or to what has been freed.
pub mod Laws
mod Tests
use i2p_lite.Base.{
  ℕ, zero, suc, ◌+◌, ◌-◌, ◌%◌, ◌^◌, Bool, true, false, not, ◌&&◌, ◌||◌, [], ◌∷◌, ◌++◌, Option, none,
  some,
}
use i2p_lite.Base.{Bytes, codes, bytes_eq, length, take, drop, ltb, leb, ◌==◌, if◌then◌else◌}
use i2p_lite.Memory.{Host}
use i2p_lite.Encoding.{Encoded, encode}
use i2p_lite.Sodium.{Sodium}
use i2p_lite.Bencode.{
  Obj, str, int, dict, list, Fields, end, field, ring, is_tied, getstr, free, dict_set,
}
use i2p_lite.Bencode.Write.{is_positive}
use i2p_lite.Bencode.Read.{Source, Outcome, got, crash, looped, out_of_fuel, c_string, read_file}
use i2p_lite.Identity.{
  Identity, new as identity_new, from_base64, to_base64, siglen, verify_data, ident_hash, ◌>>=◌,
}
use i2p_lite.Identity.Keys.{Keys, to_public}
use i2p_lite.Iwp.{IwpConfig, new as iwp_new, load_dict}

-- The `caps` of a router info: NULL, a string of its own, the data of an object that is still there,
-- or the data of one that has been freed.
pub data Caps : Type 0 where
  no_caps : Caps
  own borrowed : Bytes → Caps
  dangling : Caps

-- `struct router_info`. Nothing in the sources sets `data` and `len`.
pub record RouterInfo : Type 0 where
  pub bytes : Option Bytes
  pub len : ℕ
  pub identity : Option Identity
  pub link : Option IwpConfig
  pub caps : Caps

-- `struct router_info_config`
pub record RouterInfoConfig : Type 0 where
  pub caps : Option Bytes

-- `router_info_new` and `router_info_config_new`: `xmalloc` zeroes.
abbrev pub new : RouterInfo
new = record { bytes = none; len = 0; identity = none; link = none; caps = no_caps }

abbrev pub config_new : RouterInfoConfig
config_new = record { caps = none }

-- `router_info_free`: whether it only frees what is there. `iwp_config_free` reads its argument, and
-- `free(NULL)` does nothing.
abbrev pub may_free : Caps → Bool
may_free no_caps = true
may_free (own b) = true
may_free (borrowed b) = false
may_free dangling = false

abbrev pub is_linked : Option IwpConfig → Bool
is_linked none = false
is_linked (some cfg) = true

unfoldable pub free_info : RouterInfo → Bool
free_info ri = is_linked ri.link && may_free ri.caps

-- `ri_read_ctx`, and whether data of the object have been freed.
pub record ReadCtx : Type 0 where
  pub ri : RouterInfo
  pub freed : Bool

-- The first part of "caps": what is freed.
abbrev pub drop_caps : ReadCtx → Caps → Option ReadCtx
drop_caps ctx no_caps = some ctx
drop_caps ctx (own b) = some (record ctx { ri = record ctx.ri { caps = no_caps } })
drop_caps ctx (borrowed b) = some (record { ri = record ctx.ri { caps = no_caps }; freed = true })
drop_caps ctx dangling = none

-- `ri->caps[sz] = 0`, where the data of an empty string are NULL.
abbrev pub take_caps : Option Bytes → ReadCtx → Option ReadCtx
take_caps none ctx = some ctx
take_caps (some []) ctx = none
take_caps (some (c ∷ cs)) ctx =
    some (record ctx { ri = record ctx.ri { caps = borrowed (c ∷ cs) } })

abbrev pub if_loaded : Bool × IwpConfig → Option IwpConfig
if_loaded (true, cfg) = some cfg
if_loaded (false, cfg) = none

module _ (n : Sodium) (host : Host) where
  -- What is done with "ident": a string that does not parse leaves what has been read of it.
  abbrev pub parsed_ident : Option Bytes → Option Identity
  parsed_ident none = some identity_new
  parsed_ident (some []) = some identity_new
  parsed_ident (some (c ∷ cs)) = do
    r ← from_base64 n host identity_new (c_string (c ∷ cs))
    some r.1

  -- `router_info_process`
  unfoldable pub process : (key : Bytes) → Obj → ReadCtx → Option ReadCtx
  process key v ctx =
      if bytes_eq key (codes "caps")
      then (drop_caps ctx ctx.ri.caps >>= take_caps (getstr v))
      else if bytes_eq key (codes "iwp")
      then some (record ctx { ri = record ctx.ri { link = if_loaded (load_dict iwp_new v) } })
      else if bytes_eq key (codes "ident")
      then (parsed_ident (getstr v) >>= λ i.
          some (record ctx { ri = record ctx.ri { identity = some i } }))
      else some ctx

  -- `bencode_obj_iter_dict`, of a chain that is not tied
  unfoldable pub iter_dict : Fields → ReadCtx → Option ReadCtx
  iter_dict end ctx = some ctx
  iter_dict (ring i u j v) ctx = some ctx
  iter_dict (field key v fs) ctx = process key v ctx >>= iter_dict fs

-- What `router_info_load` leaves: its result and the router info; or an access to NULL or to what has
-- been freed, or reading that does not end, or goes round a tied chain until an access faults.
pub data InfoRead : Type 0 where
  returned : Bool → RouterInfo → InfoRead
  crashed endless fuel_end : InfoRead

-- `bencode_obj_free`, behind which borrowed data are gone.
abbrev pub expired : Caps → Caps
expired no_caps = no_caps
expired (own b) = own b
expired (borrowed b) = dangling
expired dangling = dangling

abbrev pub freeing : Bool → Obj → Option ReadCtx → InfoRead
freeing success o none = crashed
freeing success o (some ctx) =
    if not ctx.freed && free o
    then returned success (record ctx.ri { caps = expired ctx.ri.caps })
    else crashed

module _ (n : Sodium) (host : Host) where
  abbrev pub from_obj : (positive : Bool) → RouterInfo → Option Obj → InfoRead
  from_obj true ri none = crashed
  from_obj true ri (some (dict fs)) =
      if is_tied fs
      then endless
      else freeing true (dict fs) (iter_dict n host fs (record { ri = ri; freed = false }))
  from_obj true ri (some (str b)) = returned false ri
  from_obj true ri (some (int i)) = returned false ri
  from_obj true ri (some (list xs)) =
      freeing false (list xs) (some (record { ri = ri; freed = false }))
  from_obj false ri none = returned false ri
  from_obj false ri (some o) = freeing false o (some (record { ri = ri; freed = false }))

  abbrev pub from_outcome : RouterInfo → Outcome (Option Obj) → InfoRead
  from_outcome ri (got o s) = from_obj (is_positive s.read) ri o
  from_outcome ri crash = crashed
  from_outcome ri looped = endless
  from_outcome ri out_of_fuel = fuel_end

  -- `router_info_load`
  unfoldable pub load : ℕ → RouterInfo → Bytes → InfoRead
  load fuel ri input = from_outcome ri (read_file fuel input)

-- `int l = ri->len - mnet_identity_siglen(ri->identity)`, if it is positive.
abbrev pub signed_length : (len siglen : ℕ) → Option ℕ
signed_length len siglen =
    let l = (len + 2 ^ 64 - siglen) % 2 ^ 32 in if ltb 0 l && ltb l (2 ^ 31) then some l else none

module _ (n : Sodium) where
  -- `router_info_verify`
  unfoldable pub verify : RouterInfo → Option Bool
  verify ri = elim (signed_length ri.len (siglen n)) [
    | none ↦ some false
    | some l ↦ ri.identity >>= λ i. ri.bytes >>= λ b. verify_data n i (take l b) (drop l b)
  ]

  -- `router_info_write` to a stream: its result and what it writes. The dictionary that it makes is
  -- freed again, and `strlen` of the text reads through NULL if there is none.
  unfoldable pub write : RouterInfo → Option (Bool × Bytes)
  write ri = do i ← ri.identity; text ← to_base64 n i; ident ← text; some (false, [])

  -- `router_info_hash` and `router_info_base64_ident`, with its buffer of 128 bytes
  unfoldable pub info_hash : RouterInfo → Option Bytes
  info_hash ri = ri.identity >>= ident_hash n

  unfoldable pub base64_ident : RouterInfo → Option Bytes
  base64_ident ri = info_hash ri >>= λ h. some (c_string ((encode h 128).stored ++ 0 ∷ []))

-- `router_info_generate`
abbrev pub generate : Keys → RouterInfoConfig → RouterInfo
generate k config = record new {
  identity = to_public k;
  caps = elim config.caps [ none ↦ no_caps | some c ↦ own c ];
}

-- `router_info_get_identity`, and `router_info_get_caps`: a read of freed data is `none`.
abbrev pub get_identity : RouterInfo → Option Identity
get_identity ri = ri.identity

abbrev pub copied_caps : Caps → Option (Option Bytes)
copied_caps no_caps = some none
copied_caps (own b) = some (some (c_string b))
copied_caps (borrowed b) = some (some (c_string b))
copied_caps dangling = none

abbrev pub get_caps : RouterInfo → Option (Option Bytes)
get_caps ri = copied_caps ri.caps
