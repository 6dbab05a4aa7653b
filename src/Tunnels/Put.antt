-- ===== src/Tunnels/Put.antt =====
-- mnet_garlic_tc_hashmap_put of mnet/tunnel_context.c: which ids it refuses, and what is found then.
use i2p_lite.Base.{
  ℕ, ◌≡◌, refl, sym, ap, ◌∙◌, Bool, true, false, not, ◌||◌, ◌&&◌, List, [], ◌∷◌, ◌++◌, Option, none,
  some, arith, inl, inr, Bool-cases,
}
use i2p_lite.Base.{◌==◌, if◌then◌else◌, update}
use i2p_lite.Tunnels.{HashNode, TcMap, anchor_tid, hash, get_loop, get, put_loop, store, put}

-- The ids that an insertion compares: from a node on, all that have a next node.
pub compared : ℕ → List HashNode → ℕ → Bool
compared at [] tid = false
compared at (n ∷ ns) tid = (at == tid) || compared n.tid ns tid

abbrev put_at : Bool → List HashNode → ℕ → ℕ → Option (List HashNode)
put_at stopped ns tid tunnel =
    if stopped then none else some (ns ++ record { tid = tid; tunnel = tunnel } ∷ [])

put_loop-eq :
    (at : ℕ) (ns : List HashNode) (tid tunnel : ℕ)
    → put_loop at ns tid tunnel ≡ put_at (compared at ns tid) ns tid tunnel
unfolding put_loop compared
put_loop-eq at [] tid tunnel = refl
put_loop-eq at (n ∷ ns) tid tunnel = elim (Bool-cases (at == tid)) [
  | inl e ↦ rw e refl
  | inr e ↦
      rw (e, put_loop-eq n.tid ns tid tunnel)
        (elim (Bool-cases (compared n.tid ns tid)) [ inl c ↦ rw c refl | inr c ↦ rw c refl ])
]

-- What a lookup finds behind the old nodes.
abbrev pub or_else : Option ℕ → Option ℕ → Option ℕ
or_else none o = o
or_else (some a) o = some a

get_loop-append :
    (ns : List HashNode) (tid tunnel other : ℕ)
    → get_loop (ns ++ record { tid = tid; tunnel = tunnel } ∷ []) other
      ≡ or_else (get_loop ns other) (if tid == other then some tunnel else none)
unfolding get_loop
get_loop-append [] tid tunnel other = refl
get_loop-append (n ∷ ns) tid tunnel other = elim (Bool-cases (n.tid == other)) [
  | inl e ↦ rw e refl
  | inr e ↦ rw e (get_loop-append ns tid tunnel other)
]

or_else-none : (o : Option ℕ) → or_else o none ≡ o
or_else-none none = refl
or_else-none (some a) = refl

abbrev grown : TcMap → ℕ → ℕ → TcMap
grown map tid tunnel = record map {
  chains =
      update map.chains (hash tid)
        (map.chains (hash tid) ++ record { tid = tid; tunnel = tunnel } ∷ []);
}

put-eq :
    (map : TcMap) (tid tunnel : ℕ)
    → put map tid tunnel ≡ (
        if compared anchor_tid (map.chains (hash tid)) tid
        then (false, map)
        else (true, grown map tid tunnel))
unfolding put
put-eq map tid tunnel =
    let ns = map.chains (hash tid) in
    ap (store map (hash tid)) (put_loop-eq anchor_tid ns tid tunnel)
    ∙ stored (compared anchor_tid ns tid)
  where
    stored :
        (b : Bool)
        → store map (hash tid) (put_at b (map.chains (hash tid)) tid tunnel)
          ≡ (if b then (false, map) else (true, grown map tid tunnel))
    stored true = refl
    stored false = refl

get-grown :
    (map : TcMap) (tid tunnel other : ℕ)
    → get (grown map tid tunnel) other
      ≡ or_else (get map other) (if tid == other then some tunnel else none)
unfolding get
get-grown map tid tunnel other = elim (Bool-cases (hash other == hash tid)) [
  | inl same ↦
      let e : hash other ≡ hash tid = ground arith in
      rw (same, e) (get_loop-append (map.chains (hash tid)) tid tunnel other)
  | inr apart ↦
      let differ : (tid == other) ≡ false = ground arith in
      rw (apart, differ) (sym (or_else-none (get_loop (map.chains (hash other)) other)))
]

-- An insertion is refused exactly if the anchor or a node that is not the last of its chain has
-- the id. If not, the new tunnel is found under its id unless another was found there before,
-- which stays; under other ids the lookup gives what it gave before.
pub get-put :
    (map : TcMap) (tid tunnel other : ℕ)
    → let (ok, map') = put map tid tunnel in
      (ok ≡ not (compared anchor_tid (map.chains (hash tid)) tid))
      × (get map' other
          ≡ or_else (get map other) (if ok && (tid == other) then some tunnel else none))
get-put map tid tunnel other =
    let c = compared anchor_tid (map.chains (hash tid)) tid in
    rw (put-eq map tid tunnel) (elim (Bool-cases c) [
      | inl e ↦ rw e (refl, sym (or_else-none (get map other)))
      | inr e ↦ rw e (refl, get-grown map tid tunnel other)
    ])
