-- ===== src/Router.antt =====
-- mnet/router.c: loading the router's keys and its router info.
-- The file system is a parameter. The event loop, the transports and the strings of the paths are left
-- out, and so are the functions that wait for the timer.
pub mod Laws
pub mod Events
mod Tests
use i2p_lite.Base.{
  ℕ, zero, suc, Bool, true, false, ◌||◌, List, [], ◌∷◌, Option, none, some, ℤ, pos, negsuc,
}
use i2p_lite.Base.{Bytes, ltb, if◌then◌else◌}
use i2p_lite.Memory.{Host}
use i2p_lite.Sodium.{Sodium}
use i2p_lite.Identity.Keys.{
  Keys, KeysRead, returned as keys_returned, crashed as keys_crashed, endless as keys_endless,
  fuel_end as keys_fuel_end, new as keys_new, generate, write as keys_write, read as keys_read,
}
use i2p_lite.RouterInfo.{
  RouterInfo, InfoRead, returned as info_returned, crashed as info_crashed, endless as info_endless,
  fuel_end as info_fuel_end, config_new, new as info_new, generate as info_generate,
  write as info_write, load as info_load, free_info, base64_ident,
}
use i2p_lite.Hashmap.Heap.{Map, Run, done, fault, out_of_fuel}
use i2p_lite.Netdb.{File, load_all}

-- What the file system says: whether the data directory is there or can be made, the room for the keys
-- each time that `router.keys` is opened for writing, if it can be, and whether `router.info` can be;
-- whether the skiplist directories are ensured, and the files in them.
pub record Disk : Type 0 where
  pub has_data_dir : Bool
  pub makes_data_dir : Bool
  pub keys_room : Option ℕ
  pub keys_room_again : Option ℕ
  pub opens_info : Bool
  pub ensures_skiplist : Bool
  pub nodes : List (List File)

-- `struct router_context`, with the files `router.keys` and `router.info`, if they are there.
pub record Context : Type 0 where
  pub keys_file : Option Bytes
  pub info_file : Option Bytes
  pub privkeys : Option Keys
  pub our_ri : Option RouterInfo
  pub map : Map

-- What a call leaves: its result and the context; or an access to NULL or to what has been freed, or a
-- call that does not end.
pub data Step : Type 0 where
  returned : Bool → Context → Step
  crashed endless fuel_end : Step

-- `if(call) then else`
abbrev pub branch : Step → (Context → Step) → (Context → Step) → Step
branch (returned true ctx) on_success on_failure = on_success ctx
branch (returned false ctx) on_success on_failure = on_failure ctx
branch crashed on_success on_failure = crashed
branch endless on_success on_failure = endless
branch fuel_end on_success on_failure = fuel_end

-- `mnet_identity_keys_free(&ctx->privkeys)`
abbrev pub without_keys : Context → Context
without_keys ctx = record ctx { privkeys = none }

module _ (n : Sodium) (host : Host) (random : Bytes) where
  abbrev pub save_keys : Context → Keys → Option (Bool × Bytes) → Step
  save_keys ctx k none = crashed
  save_keys ctx k (some (true, out)) =
      returned true (record ctx { keys_file = some out; privkeys = some k })
  save_keys ctx k (some (false, out)) = returned false (record ctx { keys_file = some out })

  abbrev pub save_new : Context → (room : ℕ) → Option Keys → Step
  save_new ctx room none = crashed
  save_new ctx room (some k) = save_keys ctx k (keys_write n k room)

  -- `router_context_regenerate_identity`, with DEFAULT_IDENTITY_SIG_TYPE
  unfoldable pub regenerate_identity : (room : Option ℕ) → Context → Step
  regenerate_identity none ctx = returned false ctx
  regenerate_identity (some room) ctx = save_new ctx room (generate n host keys_new 0 random)

  -- The keys are made if `router.keys` is not there, and once more if that fails.
  unfoldable pub ensure_keys : Disk → Context → Step
  ensure_keys disk ctx = elim ctx.keys_file [
    | some file ↦ returned true ctx
    | none ↦
        branch (regenerate_identity disk.keys_room ctx) (returned true)
          (λ ctx'. regenerate_identity disk.keys_room_again (record ctx' { keys_file = none }))
  ]

module _ (n : Sodium) where
  abbrev pub saved_info : (opens : Bool) → Context → Option (Bool × Bytes) → Step
  saved_info false ctx written = returned true ctx
  saved_info true ctx none = crashed
  saved_info true ctx (some (ok, out)) = returned true (record ctx { info_file = some out })

  abbrev pub make_info : (opens : Bool) → Keys → Context → Step
  make_info opens k ctx =
      let ri = info_generate k config_new in
      saved_info opens (record ctx { our_ri = some ri }) (info_write n ri)

  -- `router_context_update_router_info`, for the keys in the context
  unfoldable pub update_router_info : (opens : Bool) → Keys → Context → Step
  update_router_info opens k ctx = elim ctx.our_ri [
    | none ↦ make_info opens k ctx
    | some ri ↦ if free_info ri then make_info opens k ctx else crashed
  ]

  -- What `router_context_load` does with the result of `mnet_identity_keys_read`.
  abbrev pub use_keys : Disk → Context → KeysRead → Step
  use_keys disk ctx (keys_returned (pos zero) k rest) = returned false (without_keys ctx)
  use_keys disk ctx (keys_returned (pos (suc m)) k rest) =
      update_router_info disk.opens_info k (record ctx { privkeys = some k })
  use_keys disk ctx (keys_returned (negsuc m) k rest) =
      update_router_info disk.opens_info k (record ctx { privkeys = some k })
  use_keys disk ctx keys_crashed = crashed
  use_keys disk ctx keys_endless = endless
  use_keys disk ctx keys_fuel_end = fuel_end

  unfoldable pub load_keys : ℕ → Disk → Context → Step
  load_keys fuel disk ctx = elim ctx.keys_file [
    | none ↦ returned false ctx
    | some file ↦ use_keys disk ctx (keys_read n fuel keys_new file)
  ]

module _ (n : Sodium) (host : Host) (fuel : ℕ) where
  -- The text of `router_info_base64_ident` for the log.
  abbrev pub logged : Context → RouterInfo → Option Bytes → Step
  logged ctx ri none = crashed
  logged ctx ri (some text) = returned true (record ctx { our_ri = some ri })

  abbrev pub use_info : Context → InfoRead → Step
  use_info ctx (info_returned true ri) = logged ctx ri (base64_ident n ri)
  use_info ctx (info_returned false ri) =
      if free_info ri then returned false (without_keys ctx) else crashed
  use_info ctx info_crashed = crashed
  use_info ctx info_endless = endless
  use_info ctx info_fuel_end = fuel_end

  unfoldable pub load_info : Context → Step
  load_info ctx = elim ctx.info_file [
    | none ↦ returned false (without_keys ctx)
    | some file ↦ use_info ctx (info_load n host fuel info_new file)
  ]

  abbrev pub loaded_nodes : Context → Run ℕ → Step
  loaded_nodes ctx (done count m) = returned true (record ctx { map = m })
  loaded_nodes ctx fault = crashed
  loaded_nodes ctx out_of_fuel = fuel_end

  abbrev pub freed_info : Context → Option RouterInfo → Step
  freed_info ctx none = returned false (without_keys ctx)
  freed_info ctx (some ri) = if free_info ri then returned false (without_keys ctx) else crashed

  unfoldable pub load_netdb : Disk → Context → Step
  load_netdb disk ctx =
      if disk.ensures_skiplist
      then loaded_nodes ctx (load_all n host fuel disk.nodes ctx.map)
      else freed_info ctx ctx.our_ri

  -- `router_context_load`, for the bytes that `mnet_rand` gives
  unfoldable pub load : (random : Bytes) → Disk → Context → Step
  load random disk ctx =
      if disk.has_data_dir || disk.makes_data_dir
      then branch (ensure_keys n host random disk ctx)
          (λ ctx1.
            branch (load_keys n fuel disk ctx1)
              (λ ctx2. branch (load_info ctx2) (load_netdb disk) (returned false)) (returned false))
          (returned false)
      else returned false ctx
