-- ===== src/Identity/Keys.antt =====
-- mnet/identity.c: the private keys of an identity.
use i2p_lite.Base.{ℕ, Bool, true, false, not, ◌&&◌, ◌||◌, [], Option, none, some, ℤ, pos, negsuc}
use i2p_lite.Base.{Bytes, codes, bytes_eq, length, take, replicate, ltb, ◌==◌, if◌then◌else◌}
use i2p_lite.Memory.{Host, w16, htobe_buf}
use i2p_lite.Cert.{Cert, init as cert_init, buffer, buffer_length}
use i2p_lite.Sodium.{Sodium}
use i2p_lite.Eddsa.{Sign, verify_new, sign_new, keygen, copy_key_data}
use i2p_lite.Bencode.{
  Obj, str, int, dict, list, Fields, end, field, ring, is_tied, Run, done, fault, tied, too_deep,
  getstr, free, free_fields, dict_set,
}
use i2p_lite.Bencode.Write.{Wrote, wrote, fault as write_fault, is_failed, write_file}
use i2p_lite.Bencode.Read.{Outcome, got, crash, looped, out_of_fuel, read_file}
use i2p_lite.Identity.{Identity, identity, ◌>>=◌}

-- `struct mnet_identity_keys`
pub record Keys : Type 0 where
  pub ident : Option Identity
  pub eddsa : Option Sign

-- `mnet_identity_keys_new`
abbrev pub new : Keys
new = record { ident = none; eddsa = none }

-- `mnet_identity_keys_to_public`
abbrev pub to_public : Keys → Option Identity
to_public k = k.ident

-- `struct mnet_keys_iter_ctx`, and whether the data of a string have been freed.
pub record IterCtx : Type 0 where
  pub eddsa : Option Sign
  pub success : Bool
  pub freed : Bool

-- What `mnet_identity_keys_read` leaves: its result, the keys and the stream; or an access to NULL or
-- to what has been freed, or reading that does not end.
pub data KeysRead : Type 0 where
  returned : ℤ → Keys → Bytes → KeysRead
  crashed endless fuel_end : KeysRead

abbrev pub key_name : Bytes
key_name = codes "eddsa_privkey"

abbrev pub cert_name : Bytes
cert_name = codes "cert"

module _ (n : Sodium) where
  -- `mnet_identity_keys_generate`, for the bytes that `mnet_rand` gives
  unfoldable pub generate : Host → Keys → (sigtype : ℕ) → (random : Bytes) → Option Keys
  generate host k sigtype random = do
    let (priv, pub_key) = keygen n random
    cert ← htobe_buf host w16 (replicate 3 0) sigtype
    c ← cert_init host 0 cert 0
    some (record { ident = some (identity (verify_new pub_key) c); eddsa = some (sign_new n priv) })

  -- `mnet_identity_keys_iter_dict`; `free(NULL)` does nothing.
  abbrev pub privkey_found : Option Bytes → IterCtx → IterCtx
  privkey_found none ctx = record ctx { success = false }
  privkey_found (some b) ctx =
      if length b == n.seed_bytes
      then record {
        eddsa = some (sign_new n b);
        success = true;
        freed = ltb 0 (length b) || ctx.freed;
      }
      else record { eddsa = none; success = false; freed = ltb 0 (length b) || ctx.freed }

  unfoldable pub iter_entry : (key : Bytes) → Obj → IterCtx → IterCtx
  iter_entry key v ctx = elim ctx.eddsa [
    | some s ↦ ctx
    | none ↦ if bytes_eq key key_name then privkey_found (getstr v) ctx else ctx
  ]

  -- `bencode_obj_iter_dict`, of a chain that is not tied
  unfoldable pub iter_dict : Fields → IterCtx → IterCtx
  iter_dict end ctx = ctx
  iter_dict (ring i u j v) ctx = ctx
  iter_dict (field key v fs) ctx = iter_dict fs (iter_entry key v ctx)

  abbrev pub number : Bool → ℤ
  number b = if b then pos 1 else pos 0

  abbrev pub from_dict : Fields → Bytes → KeysRead
  from_dict fs rest =
      let ctx = iter_dict fs (record { eddsa = none; success = false; freed = false }) in
      if is_tied fs
      then endless
      else if not ctx.freed && free_fields fs
      then returned (number ctx.success) (record { ident = none; eddsa = ctx.eddsa }) rest
      else crashed

  abbrev pub from_obj : Keys → Option Obj → Bytes → KeysRead
  from_obj k none rest = crashed
  from_obj k (some (dict fs)) rest = from_dict fs rest
  from_obj k (some (str b)) rest = returned (pos 0) k rest
  from_obj k (some (int i)) rest = returned (pos 0) k rest
  from_obj k (some (list xs)) rest = if free (list xs) then returned (pos 0) k rest else crashed

  abbrev pub from_outcome : Keys → Outcome (Option Obj) → KeysRead
  from_outcome k (got o s) =
      if is_failed s.read then returned (negsuc 0) k s.rest else from_obj k o s.rest
  from_outcome k crash = crashed
  from_outcome k looped = endless
  from_outcome k out_of_fuel = fuel_end

  -- `mnet_identity_keys_read`
  unfoldable pub read : ℕ → Keys → Bytes → KeysRead
  read fuel k input = from_outcome k (read_file fuel input)

  -- The result of `dict_set`, and of `bencode_write_file` with its comparison.
  abbrev pub fields_of : Run Fields → Option Fields
  fields_of (done fs) = some fs
  fields_of fault = none
  fields_of tied = none
  fields_of too_deep = none

  abbrev pub written_out : Wrote → Option (Bool × Bytes)
  written_out (wrote s) = some (not (is_failed s.written), s.out)
  written_out write_fault = none

  -- `if(k->ident->cert)`
  abbrev pub set_cert : Fields → Option Cert → Option Fields
  set_cert fs none = some fs
  set_cert fs (some c) = fields_of (dict_set fs cert_name (str (take (buffer_length c) (buffer c))))

  -- The dictionary that `mnet_identity_keys_write` makes for a signer.
  unfoldable pub to_fields : Keys → Sign → Option Fields
  to_fields k s = do
    fs ← fields_of (dict_set end key_name (str (copy_key_data n s)))
    i ← k.ident
    set_cert fs i.cert

  -- `mnet_identity_keys_write` to a stream that takes `room` bytes
  unfoldable pub write : Keys → (room : ℕ) → Option (Bool × Bytes)
  write k room = elim k.eddsa [
    | none ↦ some (false, [])
    | some s ↦ to_fields k s >>= λ fs. written_out (write_file (dict fs) room)
  ]
