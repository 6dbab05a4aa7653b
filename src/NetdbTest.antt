-- ===== src/NetdbTest.antt =====
-- test/test_netdb.c: loading the network database, and counting its entries. A router info of the map is
-- a number, and `infos` is what it points to.
pub mod Counts
use i2p_lite.Base.{ℕ, ◌+◌, ◌%◌, ◌^◌, Bool, true, false, List, [], ◌∷◌, Option, none, some}
use i2p_lite.Base.{Bytes, bytes_eq, ◌==◌, if◌then◌else◌}
use i2p_lite.Memory.{Host}
use i2p_lite.Sodium.{Sodium}
use i2p_lite.RouterInfo.{RouterInfo, verify, info_hash}
use i2p_lite.Hashmap.Heap.{Cmd, Run, done, fault, pure, ◌>>=◌}
use i2p_lite.Netdb.{File, load_all, visit_all, find_router_info}

-- `struct netdb_process_ctx`, and `struct netdb_find_ctx` without its database.
pub record ProcessCtx : Type 0 where
  pub valid : ℕ
  pub hashfail : ℕ
  pub invalid : ℕ

pub record FindCtx : Type 0 where
  pub hit : ℕ
  pub miss : ℕ

module _ (n : Sodium) (host : Host) (fuel : ℕ) (infos : ℕ → RouterInfo) where
  abbrev pub count_hash : (key : Bytes) → ProcessCtx → Option Bytes → Cmd ProcessCtx
  count_hash key ctx none = λ m. fault
  count_hash key ctx (some h) =
      if bytes_eq key h
      then pure (record ctx { valid = (ctx.valid + 1) % 2 ^ 64 })
      else pure (record ctx { hashfail = (ctx.hashfail + 1) % 2 ^ 64 })

  abbrev pub count_valid : (key : Bytes) → RouterInfo → ProcessCtx → Option Bool → Cmd ProcessCtx
  count_valid key ri ctx none = λ m. fault
  count_valid key ri ctx (some true) = count_hash key ctx (info_hash n ri)
  count_valid key ri ctx (some false) = pure (record ctx { invalid = (ctx.invalid + 1) % 2 ^ 64 })

  -- `process_netdb_entry`, less the lines that it logs of a valid entry's addresses.
  abbrev pub process_netdb_entry : (key : Bytes) → (ri : ℕ) → ProcessCtx → Cmd ProcessCtx
  process_netdb_entry key ri ctx = count_valid key (infos ri) ctx (verify n (infos ri))

  unfoldable pub process_entries : List (Bytes × ℕ) → ProcessCtx → Cmd ProcessCtx
  process_entries [] ctx = pure ctx
  process_entries ((key, ri) ∷ es) ctx = do
    ctx' ← process_netdb_entry key ri ctx
    process_entries es ctx'

  abbrev pub missed : FindCtx → FindCtx
  missed ctx = record ctx { miss = (ctx.miss + 1) % 2 ^ 64 }

  abbrev pub count_hit : (key : Bytes) → FindCtx → Option Bytes → Cmd FindCtx
  count_hit key ctx none = λ m. fault
  count_hit key ctx (some h) =
      if bytes_eq key h
      then pure (record ctx { hit = (ctx.hit + 1) % 2 ^ 64 })
      else pure (missed ctx)

  abbrev pub count_found : (key : Bytes) → FindCtx → Option ℕ → Cmd FindCtx
  count_found key ctx none = pure (missed ctx)
  count_found key ctx (some ri) =
      if ri == 0 then pure (missed ctx) else count_hit key ctx (info_hash n (infos ri))

  -- `test_find_netdb_entry`
  abbrev pub find_netdb_entry : (key : Bytes) → FindCtx → Cmd FindCtx
  find_netdb_entry key ctx = do found ← find_router_info host fuel key; count_found key ctx found

  unfoldable pub find_entries : List (Bytes × ℕ) → FindCtx → Cmd FindCtx
  find_entries [] ctx = pure ctx
  find_entries ((key, ri) ∷ es) ctx = do ctx' ← find_netdb_entry key ctx; find_entries es ctx'

  -- `main` behind the directories, whose files are given: the counts that it logs.
  unfoldable pub test_netdb : List (List File) → Cmd (ProcessCtx × FindCtx)
  test_netdb dirs = do
    loaded ← load_all n host fuel dirs
    es ← visit_all fuel
    p ← process_entries es (record { valid = 0; hashfail = 0; invalid = 0 })
    es' ← visit_all fuel
    f ← find_entries es' (record { hit = 0; miss = 0 })
    pure (p, f)
