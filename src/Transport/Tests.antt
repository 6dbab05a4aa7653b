-- ===== src/Transport/Tests.antt =====
-- Runs of mnet/transport.c, and the theorems about it at a transport with one implementation.
use i2p_lite.Base.{◌+◌, ◌≡◌, refl, true, false, not, ◌&&◌, none, some}
use i2p_lite.Base.{Bytes, bytes_eq, codes, length, ltb, if◌then◌else◌}
use i2p_lite.Transport.{
  is_used, put, named, Impl, Transport, new, is_registered, register, deregister,
}
use i2p_lite.Transport.Slots.{route, used}
use i2p_lite.Transport.Undo.{deregister-register}
use i2p_lite.Transport.Laws.{
  IsValid, Reached, created, registered, Reached-IsValid, route-register, route-deregister,
}

abbrev iwp : Impl
iwp = record { name = codes "iwp"; sendto = 11; impl = 12 }

abbrev ntcp : Impl
ntcp = record { name = codes "ntcp"; sendto = 21; impl = 22 }

abbrev one_registered : Transport
one_registered = (register (new 1) iwp).1

test_register : (register (new 1) iwp).0 ≡ true
unfolding register is_registered new named put is_used
test_register = refl

test_register_twice : (register one_registered iwp).0 ≡ false
unfolding register is_registered new named put is_used
test_register_twice = refl

test_register_second : (register one_registered ntcp).0 ≡ true
unfolding register is_registered new named put is_used
test_register_second = refl

one_registered-Reached : Reached one_registered
one_registered-Reached = registered (created 1) iwp

Reached-IsValid_example : IsValid one_registered
Reached-IsValid_example = Reached-IsValid one_registered-Reached

route-register_example :
    let (ok, t) = register one_registered ntcp in
    (ok ≡ (
      not (is_registered one_registered.links (codes "ntcp"))
      && ltb (used one_registered.links) (length one_registered.links)))
    × (used t.links ≡ (if ok then used one_registered.links + 1 else used one_registered.links))
    × ((n : Bytes)
        → route t.links n ≡ (
            if ok && bytes_eq (codes "ntcp") n
            then some (21, 22)
            else route one_registered.links n))
route-register_example = route-register one_registered ntcp

route-deregister_example : route (deregister one_registered iwp).links (codes "iwp") ≡ none
route-deregister_example = route-deregister iwp (codes "iwp") one_registered-Reached

deregister-register_example : deregister (register one_registered ntcp).1 ntcp ≡ one_registered
deregister-register_example = deregister-register ntcp one_registered-Reached test_register_second
