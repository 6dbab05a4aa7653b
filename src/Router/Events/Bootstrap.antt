-- ===== src/Router/Events/Bootstrap.antt =====
-- mnet/router.c: the bootstrap from a file never takes place.
use i2p_lite.Base.{
  ℕ, ◌+◌, ◌*◌, ◌≤◌, ◌<◌, ◌≡◌, ◌≢◌, ◌⊎◌, inl, inr, refl, ap, ◌∙◌, true, false, Option, some, arith,
}
use i2p_lite.Base.{Bytes, length, ltb}
use i2p_lite.Memory.{Host}
use i2p_lite.Sodium.{Sodium}
use i2p_lite.RouterInfo.{
  InfoRead, returned as info_returned, crashed as info_crashed, endless as info_endless,
  fuel_end as info_fuel_end, new as info_new, load as info_load, base64_ident,
}
use i2p_lite.RouterInfo.Laws.{load-new, load-total}
use i2p_lite.Hashmap.{map_size}
use i2p_lite.Hashmap.Heap.{size_of}
use i2p_lite.Router.Events.{
  Router, crashed, endless, netdb_min_peers, from_info, from_file, from_bootstrap, ensure_min_peers,
}

module _ (n : Sodium) (host : Host) (fuel : ℕ) where
  from_info-crashed :
      (input : Bytes) (r : InfoRead)
      → info_load n host fuel info_new input ≡ r
      → r ≢ info_fuel_end
      → (from_info n host fuel r ≡ crashed) ⊎ (from_info n host fuel r ≡ endless)
  unfolding base64_ident
  from_info-crashed input (info_returned true ri) e h =
      inl (rw (load-new n host fuel input true ri e).1 refl)
  from_info-crashed input (info_returned false ri) e h =
      inl (rw (load-new n host fuel input false ri e).2 refl)
  from_info-crashed input info_crashed e h = inl refl
  from_info-crashed input info_endless e h = inr refl
  from_info-crashed input info_fuel_end e h = absurd (h refl)

  -- With less than twenty peers, a file to bootstrap from that can be opened, and twice its bytes and
  -- two more as fuel, the check for peers ends with an access to NULL or does not end, whatever the file
  -- holds: the router info that is loaded has no identity, and it can not be freed either.
  pub ensure_min_peers-fails :
      (files : Bytes → Option Bytes) (r : Router) (path input : Bytes)
      → r.netdb.map.sz < netdb_min_peers
      → r.bootstrap ≡ some path
      → files path ≡ some input
      → 2 * length input + 2 ≤ fuel
      → (ensure_min_peers n host fuel files r ≡ crashed)
        ⊎ (ensure_min_peers n host fuel files r ≡ endless)
  unfolding ensure_min_peers from_file map_size size_of
  ensure_min_peers-fails files r path input few booted opened enough =
      let low : ltb r.netdb.map.sz netdb_min_peers ≡ true = ground arith in
      let whole : ensure_min_peers n host fuel files r
          ≡ from_info n host fuel (info_load n host fuel info_new input) =
        rw low (ap (from_bootstrap n host fuel files) booted ∙ ap (from_file n host fuel) opened) in
      elim (from_info-crashed input (info_load n host fuel info_new input) refl
        (load-total n host fuel input enough)) [ inl e ↦ inl (whole ∙ e) | inr e ↦ inr (whole ∙ e) ]
