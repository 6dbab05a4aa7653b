-- ===== src/Transport.antt =====
-- mnet/transport.c: the transport multiplexer, a fixed number of slots for implementations.
-- A name is a C string; an implementation that is registered or deregistered has one. The
-- pointers `sendto` and `impl` are numbers, and 0 is NULL.
pub mod Slots
pub mod Laws
pub mod Undo
mod Tests
use i2p_lite.Base.{ℕ, Bool, true, false, List, [], ◌∷◌, Option, none, some}
use i2p_lite.Base.{Bytes, bytes_eq, replicate, if◌then◌else◌}

-- `MAX_GARLIC_TRANSPORTS`
abbrev pub max_transports : ℕ
max_transports = 3

-- `struct mnet_garlic_transport_impl` of a caller, and as a slot, which is free if its name is NULL.
pub record Impl : Type 0 where
  pub name : Bytes
  pub sendto : ℕ
  pub impl : ℕ

pub record Slot : Type 0 where
  pub name : Option Bytes
  pub sendto : ℕ
  pub impl : ℕ

-- `struct mnet_garlic_transport`
pub record Transport : Type 0 where
  pub loop : ℕ
  pub router : ℕ
  pub links : List Slot

abbrev pub free_slot : Slot
free_slot = record { name = none; sendto = 0; impl = 0 }

abbrev pub slot_for : Impl → Slot
slot_for i = record { name = some i.name; sendto = i.sendto; impl = i.impl }

-- `mnet_garlic_transport_new`: `xmalloc` zeroes.
unfoldable pub new : (loop : ℕ) → Transport
new loop = record { loop = loop; router = 0; links = replicate max_transports free_slot }

-- `links[idx].name && !strcmp(links[idx].name, name)`
unfoldable pub named : Bytes → Slot → Bool
named name l = elim l.name [ none ↦ false | some n ↦ bytes_eq n name ]

unfoldable pub is_used : Slot → Bool
is_used l = elim l.name [ none ↦ false | some n ↦ true ]

-- `mnet_garlic_transport_impl_is_registered`
unfoldable pub is_registered : List Slot → Bytes → Bool
is_registered [] name = false
is_registered (l ∷ ls) name = if named name l then true else is_registered ls name

-- The loop of `mnet_garlic_transport_register`; `none` if no slot is free.
unfoldable pub put : List Slot → Impl → Option (List Slot)
put [] i = none
put (l ∷ ls) i =
    let more = put ls i in
    if is_used l
    then elim more [ none ↦ none | some ms ↦ some (l ∷ ms) ]
    else some (slot_for i ∷ ls)

-- `mnet_garlic_transport_register`
unfoldable pub register : Transport → Impl → Bool × Transport
register t i =
    if is_registered t.links i.name
    then (false, t)
    else elim (put t.links i) [ none ↦ (false, t) | some ls ↦ (true, record t { links = ls }) ]

-- The loop of `mnet_garlic_transport_deregister`
unfoldable pub clear : List Slot → Bytes → List Slot
clear [] name = []
clear (l ∷ ls) name = let more = clear ls name in if named name l then free_slot ∷ ls else l ∷ more

-- `mnet_garlic_transport_deregister`
unfoldable pub deregister : Transport → Impl → Transport
deregister t i = record t { links = clear t.links i.name }
