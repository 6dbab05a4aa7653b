-- ===== src/Netdb.antt =====
-- mnet/netdb.c: the network database, a hash map of router infos with a directory of files.
-- The file system, the addresses of the allocator and the path separator are parameters.
pub mod Laws
pub mod Flush
pub mod Skiplist
pub mod Tree
mod Tests
use i2p_lite.Base.{ℕ, zero, suc, ◌+◌, Bool, true, false, List, [], ◌∷◌, ◌++◌, Option, none, some}
use i2p_lite.Base.{Bytes, codes, take, if◌then◌else◌}
use i2p_lite.Memory.{Host}
use i2p_lite.Encoding.{Encoded, encode}
use i2p_lite.Paths.{Joined, joined, aborted, overflowed, path_join}
use i2p_lite.Sodium.{Sodium}
use i2p_lite.Bencode.Read.{c_string}
use i2p_lite.RouterInfo.{
  RouterInfo, InfoRead, returned, crashed, endless, fuel_end, new as info_new, load, write,
  info_hash, free_info,
}
use i2p_lite.Hashmap.{get, insert, for_each, map_size, init}
use i2p_lite.Hashmap.Heap.{Ptr, Map, Run, done, Cmd, fault, out_of_fuel, pure, ◌>>=◌, ◌>>◌}

-- `mnet_netdb_new`: the root directory and the map.
pub record Netdb : Type 0 where
  pub rootdir : Bytes
  pub map : Map

unfoldable pub new : (dir : Bytes) → Netdb
unfolding init
new dir = record { rootdir = dir; map = init }

-- `netdb_open_file`: the path that it opens.
unfoldable pub entry_path : (sep rootdir ident : Bytes) → Joined
entry_path sep rootdir ident =
    let base64 = c_string ((encode ident 128).stored ++ 0 ∷ []) in
    let skipdir = b'r' ∷ take 1 base64 in
    let name = take 127 (codes "node-r" ++ (base64 ++ codes ".dat")) in
    path_join sep rootdir (skipdir ∷ name ∷ [])

-- `struct netdb_write_ctx`, and the files that have been opened for writing, which empties them.
pub record WriteCtx : Type 0 where
  pub result : Bool
  pub emptied : List Bytes

-- A file in a subdirectory: its bytes if it can be opened, and the addresses of the router info and of
-- the node for it.
pub record File : Type 0 where
  pub content : Option Bytes
  pub info : ℕ
  pub fresh : Ptr

-- `struct netdb_read_ctx`
pub record ReadCtx : Type 0 where
  pub failed : ℕ
  pub loaded : ℕ

module _ (n : Sodium) (sep rootdir : Bytes) (opens : Bytes → Bool) (infos : ℕ → RouterInfo) where
  -- What `netdb_write_entry` does with the stream.
  abbrev pub write_to : (path : Bytes) → WriteCtx → Option (Bool × Bytes) → Cmd WriteCtx
  write_to path ctx none = λ m. fault
  write_to path ctx (some (ok, out)) =
      pure (record { result = ok; emptied = ctx.emptied ++ (path ∷ []) })

  abbrev pub write_at : Joined → (ri : ℕ) → WriteCtx → Cmd WriteCtx
  write_at (joined path) ri ctx =
      if opens path
      then write_to path ctx (write n (infos ri))
      else pure (record ctx { result = false })
  write_at aborted ri ctx = λ m. fault
  write_at overflowed ri ctx = λ m. fault

  -- `netdb_write_entry`
  unfoldable pub write_entry : (key : Bytes) → (ri : ℕ) → WriteCtx → Cmd WriteCtx
  write_entry key ri ctx =
      if ctx.result then write_at (entry_path sep rootdir key) ri ctx else pure ctx

  unfoldable pub write_entries : List (Bytes × ℕ) → WriteCtx → Cmd WriteCtx
  write_entries [] ctx = pure ctx
  write_entries ((key, ri) ∷ es) ctx = do ctx' ← write_entry key ri ctx; write_entries es ctx'

  -- `mnet_netdb_flush_to_disk`: its result, and the files it has emptied.
  unfoldable pub flush_to_disk : ℕ → Cmd WriteCtx
  flush_to_disk fuel = do
    es ← for_each fuel
    write_entries es (record { result = true; emptied = [] })

module _ (n : Sodium) (host : Host) (fuel : ℕ) where
  -- What `netdb_read_file` does with a router info that has been loaded or not.
  abbrev pub add_info : File → ReadCtx → Option Bytes → Cmd ReadCtx
  add_info f ctx none = λ m. fault
  add_info f ctx (some h) = do
    insert host fuel f.fresh h f.info
    pure (record ctx { loaded = ctx.loaded + 1 })

  abbrev pub read_entry : File → ReadCtx → InfoRead → Cmd ReadCtx
  read_entry f ctx (returned true ri) = add_info f ctx (info_hash n ri)
  read_entry f ctx (returned false ri) =
      if free_info ri then pure (record ctx { failed = ctx.failed + 1 }) else λ m. fault
  read_entry f ctx crashed = λ m. fault
  read_entry f ctx endless = λ m. out_of_fuel
  read_entry f ctx fuel_end = λ m. out_of_fuel

  abbrev pub read_content : File → ReadCtx → Option Bytes → Cmd ReadCtx
  read_content f ctx none = pure (record ctx { failed = ctx.failed + 1 })
  read_content f ctx (some input) = read_entry f ctx (load n host fuel info_new input)

  -- `netdb_read_file`
  unfoldable pub read_file : File → ReadCtx → Cmd ReadCtx
  read_file f ctx = read_content f ctx f.content

  -- `netdb_load_skiplist_subdir`
  unfoldable pub load_subdir : List File → ReadCtx → Cmd ReadCtx
  load_subdir [] ctx = pure ctx
  load_subdir (f ∷ fs) ctx = do ctx' ← read_file f ctx; load_subdir fs ctx'

  unfoldable pub load_subdirs : List (List File) → ReadCtx → Cmd ReadCtx
  load_subdirs [] ctx = pure ctx
  load_subdirs (d ∷ ds) ctx = do ctx' ← load_subdir d ctx; load_subdirs ds ctx'

  -- `mnet_netdb_load_all`, for the files of the subdirectories
  unfoldable pub load_all : List (List File) → Cmd ℕ
  load_all dirs = do ctx ← load_subdirs dirs (record { failed = 0; loaded = 0 }); pure ctx.loaded

-- `mnet_netdb_find_router_info`, `mnet_netdb_loaded_peer_count` and `mnet_netdb_for_each`
abbrev pub find_router_info : Host → ℕ → Bytes → Cmd (Option ℕ)
find_router_info host fuel ident = get host fuel ident

abbrev pub loaded_peer_count : Cmd ℕ
loaded_peer_count = map_size

abbrev pub visit_all : ℕ → Cmd (List (Bytes × ℕ))
visit_all fuel = for_each fuel

-- `mnet_netdb_put_router_info` and its return of 0
abbrev pub put_router_info : Bool
put_router_info = false

-- MNET_BASE64_CHARS
abbrev pub base64_chars : Bytes
base64_chars = codes "ABCDEFGHIJKLMNOPQRSTUVWXYZabcdefghijklmnopqrstuvwxyz0123456789-~"

-- What `opendir` gives, and why it fails.
pub data Opened : Type 0 where
  opened absent refused : Opened

module _ (sep rootdir : Bytes) (opendir : Bytes → Opened) (mkdir : Bytes → Bool) where
  -- A round of the loop of `mnet_netdb_ensure_skiplist`: its result, and the directory that is made.
  -- `none` is a path that does not fit.
  abbrev pub ensure_dir : Opened → (path : Bytes) → Option (Bool × List Bytes)
  ensure_dir opened path = some (true, [])
  ensure_dir absent path = if mkdir path then some (true, path ∷ []) else some (false, [])
  ensure_dir refused path = some (true, [])

  abbrev pub ensure_at : Joined → Option (Bool × List Bytes)
  ensure_at (joined path) = ensure_dir (opendir path) path
  ensure_at aborted = none
  ensure_at overflowed = none

  abbrev pub ensure_more :
      Option (Bool × List Bytes) → Option (Bool × List Bytes) → Option (Bool × List Bytes)
  ensure_more none more = none
  ensure_more (some (false, made)) more = some (false, made)
  ensure_more (some (true, made)) none = none
  ensure_more (some (true, made)) (some (ok, later)) = some (ok, made ++ later)

  unfoldable pub ensure_loop : (chars : Bytes) → Option (Bool × List Bytes)
  ensure_loop [] = some (true, [])
  ensure_loop (c ∷ cs) =
      ensure_more (ensure_at (path_join sep rootdir ((b'r' ∷ c ∷ []) ∷ []))) (ensure_loop cs)

  -- `mkdir` of the root directory, whatever the reason is that it can not be opened.
  abbrev pub ensure_root : Opened → Option (Bool × List Bytes)
  ensure_root opened = ensure_loop base64_chars
  ensure_root absent = if mkdir rootdir then ensure_loop base64_chars else some (false, [])
  ensure_root refused = if mkdir rootdir then ensure_loop base64_chars else some (false, [])

  -- `mnet_netdb_ensure_skiplist`
  unfoldable pub ensure_skiplist : Option (Bool × List Bytes)
  ensure_skiplist = ensure_root (opendir rootdir)
