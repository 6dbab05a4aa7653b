-- ===== src/Tunnels/Tests.antt =====
-- Runs of mnet/tunnel_context.c, and the theorem about it at a map with one tunnel.
use i2p_lite.Base.{◌≡◌, refl, true, false, not, none, some, ◌&&◌}
use i2p_lite.Base.{◌==◌, if◌then◌else◌}
use i2p_lite.Tunnels.{remove_loop, put_loop, TcMap, init, get, put, remove, hash, anchor_tid}
use i2p_lite.Tunnels.Put.{compared, or_else, get-put}

abbrev one_tunnel : TcMap
one_tunnel = (put init 256 7).1

-- The last node of a chain is not compared, so an id is entered twice; and the id 0 of the anchor
-- keeps another tunnel out.
test_duplicate : (put one_tunnel 256 8).0 ≡ true
unfolding put put_loop init
test_duplicate = refl

test_zero : (put one_tunnel 0 8).0 ≡ false
unfolding put put_loop init
test_zero = refl

test_remove : (remove one_tunnel 256).0 ≡ false
unfolding remove remove_loop put put_loop init
test_remove = refl

get-put_example :
    let (ok, map) = put one_tunnel 512 8 in
    (ok ≡ not (compared anchor_tid (one_tunnel.chains (hash 512)) 512))
    × (get map 512 ≡ or_else (get one_tunnel 512) (if ok && (512 == 512) then some 8 else none))
get-put_example = get-put one_tunnel 512 8 512
