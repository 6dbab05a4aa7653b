-- ===== src/Router/Laws.antt =====
-- router_context_load of mnet/router.c.
use i2p_lite.Base.{ℕ, ◌≡◌, ◌≢◌, refl, subst, Bool, true, false, ◌||◌, Option, none, some}
use i2p_lite.Base.{Bytes, if◌then◌else◌}
use i2p_lite.Memory.{Host}
use i2p_lite.Sodium.{Sodium}
use i2p_lite.RouterInfo.{
  InfoRead, returned as info_returned, crashed as info_crashed, endless as info_endless,
  fuel_end as info_fuel_end, new as info_new, load as info_load, base64_ident,
}
use i2p_lite.RouterInfo.Laws.{load-new}
use i2p_lite.Router.{
  Disk, Context, Step, returned, crashed, endless, fuel_end, branch, ensure_keys, load_keys,
  use_info, load_info, load_netdb, load,
}

abbrev Stopped : Step → Type 0
Stopped (returned true ctx) = ⊥
Stopped (returned false ctx) = Unit
Stopped crashed = Unit
Stopped endless = Unit
Stopped fuel_end = Unit

branch-Stopped :
    (s : Step) (on_success : Context → Step)
    → ((ctx : Context) → Stopped (on_success ctx))
    → Stopped (branch s on_success (returned false))
branch-Stopped (returned true ctx) on_success h = h ctx
branch-Stopped (returned false ctx) on_success h = tt
branch-Stopped crashed on_success h = tt
branch-Stopped endless on_success h = tt
branch-Stopped fuel_end on_success h = tt

stays-Stopped :
    (s : Step) (on_success : Context → Step)
    → Stopped s
    → Stopped (branch s on_success (returned false))
stays-Stopped (returned true ctx) on_success h = elim h [ ]
stays-Stopped (returned false ctx) on_success h = tt
stays-Stopped crashed on_success h = tt
stays-Stopped endless on_success h = tt
stays-Stopped fuel_end on_success h = tt

module _ (n : Sodium) (host : Host) (fuel : ℕ) where
  use_info-Stopped :
      (ctx : Context) (file : Bytes) (r : InfoRead)
      → info_load n host fuel info_new file ≡ r
      → Stopped (use_info n host fuel ctx r)
  unfolding base64_ident
  use_info-Stopped ctx file (info_returned true ri) e =
      rw (load-new n host fuel file true ri e).1 tt
  use_info-Stopped ctx file (info_returned false ri) e =
      rw (load-new n host fuel file false ri e).2 tt
  use_info-Stopped ctx file info_crashed e = tt
  use_info-Stopped ctx file info_endless e = tt
  use_info-Stopped ctx file info_fuel_end e = tt

  load_info-Stopped : (ctx : Context) → Stopped (load_info n host fuel ctx)
  unfolding load_info
  load_info-Stopped ctx = by_file ctx.info_file
    where
      by_file :
          (f : Option Bytes)
          → Stopped (elim f [
            | none ↦ returned false (record ctx { privkeys = none })
            | some file ↦ use_info n host fuel ctx (info_load n host fuel info_new file)
          ])
      by_file none = tt
      by_file (some file) = use_info-Stopped ctx file (info_load n host fuel info_new file) refl

  -- Whatever the files hold and the file system allows, loading the router never succeeds: the router
  -- info that is loaded has no identity, and taking its hash for the log reads through NULL.
  pub router_load-never :
      (random : Bytes) (disk : Disk) (ctx ctx' : Context)
      → load n host fuel random disk ctx ≢ returned true ctx'
  unfolding load
  router_load-never random disk ctx ctx' e =
      elim (subst Stopped e (all (disk.has_data_dir || disk.makes_data_dir))) [ ]
    where
      all :
          (b : Bool)
          → Stopped (
              if b
              then branch
                  (ensure_keys n host random disk ctx)
                  (λ ctx1.
                    branch
                      (load_keys n fuel disk ctx1)
                      (λ ctx2.
                        branch
                          (load_info n host fuel ctx2)
                          (load_netdb n host fuel disk)
                          (returned false))
                      (returned false))
                  (returned false)
              else returned false ctx)
      all false = tt
      all true = branch-Stopped (ensure_keys n host random disk ctx) _ λ ctx1.
          branch-Stopped (load_keys n fuel disk ctx1) _ λ ctx2.
            stays-Stopped (load_info n host fuel ctx2) (load_netdb n host fuel disk)
              (load_info-Stopped ctx2)
