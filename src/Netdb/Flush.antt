-- ===== src/Netdb/Flush.antt =====
-- mnet_netdb_flush_to_disk of mnet/netdb.c.
use i2p_lite.Base.{
  ℕ, ◌≡◌, refl, sym, subst, ap, ◌∙◌, Bool, true, false, List, [], ◌∷◌, Option, none, some, inl, inr,
  Bool-cases,
}
use i2p_lite.Base.{Bytes, if◌then◌else◌}
use i2p_lite.Sodium.{Sodium}
use i2p_lite.Paths.{Joined, joined, aborted, overflowed}
use i2p_lite.Identity.{to_base64, ◌>>=◌}
use i2p_lite.RouterInfo.{RouterInfo, write}
use i2p_lite.Hashmap.{for_each}
use i2p_lite.Hashmap.Heap.{Map, Run, done, fault, out_of_fuel, bind_run}
use i2p_lite.Netdb.{
  WriteCtx, write_to, write_at, entry_path, write_entry, write_entries, flush_to_disk,
}

-- What is written of a router info is never reported as written.
abbrev Unreported : Option (Bool × Bytes) → Type 0
Unreported none = Unit
Unreported (some (ok, out)) = (ok ≡ false) × (out ≡ [])

bind-Unreported :
    {A : Type 0} (o : Option A) (k : A → Option (Bool × Bytes))
    → ((a : A) → Unreported (k a))
    → Unreported (o >>= k)
bind-Unreported none k h = tt
bind-Unreported (some a) k h = h a

write-Unreported : (n : Sodium) (ri : RouterInfo) → Unreported (write n ri)
unfolding write
write-Unreported n ri =
    bind-Unreported ri.identity _
      λ i. bind-Unreported (to_base64 n i) _ λ text. bind-Unreported text _ λ ident. (refl, refl)

-- The path fits; the result is 0, the file at the path has been emptied if it can be opened, and no other
-- file; and the map is the same.
abbrev pub OnlyFirst : (Bytes → Bool) → Joined → WriteCtx → Type 0
OnlyFirst opens (joined path) ctx =
    (ctx.result ≡ false) × (ctx.emptied ≡ (if opens path then path ∷ [] else []))
OnlyFirst opens aborted ctx = ⊥
OnlyFirst opens overflowed ctx = ⊥

abbrev Failed : (Bytes → Bool) → Joined → Map → Run WriteCtx → Type 0
Failed opens j m (done ctx m') = OnlyFirst opens j ctx × (m' ≡ m)
Failed opens j m fault = Unit
Failed opens j m out_of_fuel = Unit

abbrev start : WriteCtx
start = record { result = true; emptied = [] }

module _ (n : Sodium) (sep rootdir : Bytes) (opens : Bytes → Bool) (infos : ℕ → RouterInfo)
    (m : Map) where
  write_to-Failed :
      (path : Bytes) (w : Option (Bool × Bytes))
      → opens path ≡ true
      → Unreported w
      → Failed opens (joined path) m (write_to n sep rootdir opens infos path start w m)
  write_to-Failed path none can h = tt
  write_to-Failed path (some (ok, out)) can h = rw can ((h.0, refl), refl)

  write_at-Failed :
      (j : Joined) (ri : ℕ) → Failed opens j m (write_at n sep rootdir opens infos j ri start m)
  write_at-Failed (joined path) ri = elim (Bool-cases (opens path)) [
    | inl e ↦ rw e (write_to-Failed path (write n (infos ri)) e (write-Unreported n (infos ri)))
    | inr e ↦ rw (e, e) ((refl, refl), refl)
  ]
  write_at-Failed aborted ri = tt
  write_at-Failed overflowed ri = tt

  write_entries-failed :
      (es : List (Bytes × ℕ)) (out : List Bytes)
      → let ctx : WriteCtx = record { result = false; emptied = out } in
        write_entries n sep rootdir opens infos es ctx m ≡ done ctx m
  unfolding write_entries write_entry
  write_entries-failed [] out = refl
  write_entries-failed ((key, ri) ∷ es) out = write_entries-failed es out

  write_entries-same :
      (es : List (Bytes × ℕ)) (ctx : WriteCtx)
      → ctx.result ≡ false
      → write_entries n sep rootdir opens infos es ctx m ≡ done ctx m
  write_entries-same es ctx h =
      let same : ctx ≡ record { result = false; emptied = ctx.emptied } =
        ap (λ b. record { result = b; emptied = ctx.emptied }) h in
      subst (λ c. write_entries n sep rootdir opens infos es c m ≡ done c m) (sym same)
        (write_entries-failed es ctx.emptied)

  then-Failed :
      (j : Joined) (r : Run WriteCtx) (es : List (Bytes × ℕ))
      → Failed opens j m r
      → Failed opens j m (bind_run r (write_entries n sep rootdir opens infos es))
  then-Failed (joined path) (done ctx m') es h =
      rw (h.1, write_entries-same es ctx h.0.0) (h.0, refl)
  then-Failed aborted (done ctx m') es h = elim h.0 [ ]
  then-Failed overflowed (done ctx m') es h = elim h.0 [ ]
  then-Failed j fault es h = tt
  then-Failed j out_of_fuel es h = tt

  -- If the iteration gives the database an entry at all, writing the entries to their files reports
  -- failure, if it returns: the path of the first one fits, its file is emptied, if it can be opened, and
  -- no other file is touched.
  pub flush_to_disk-first :
      (fuel : ℕ) (key : Bytes) (ri : ℕ) (es : List (Bytes × ℕ)) (ctx : WriteCtx) (m' : Map)
      → for_each fuel m ≡ done ((key, ri) ∷ es) m
      → flush_to_disk n sep rootdir opens infos fuel m ≡ done ctx m'
      → OnlyFirst opens (entry_path sep rootdir key) ctx × (m' ≡ m)
  unfolding flush_to_disk write_entries write_entry
  flush_to_disk-first fuel key ri es ctx m' visits e =
      subst (Failed opens (entry_path sep rootdir key) m)
        (sym
            (ap (λ r. bind_run r (λ es'. write_entries n sep rootdir opens infos es' start)) visits)
          ∙ e)
        (then-Failed (entry_path sep rootdir key)
          (write_at n sep rootdir opens infos (entry_path sep rootdir key) ri start m) es
          (write_at-Failed (entry_path sep rootdir key) ri))
