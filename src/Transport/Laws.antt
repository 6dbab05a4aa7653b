-- ===== src/Transport/Laws.antt =====
-- mnet/transport.c: what registering and deregistering do to the routes, and the reachable states.
use i2p_lite.Base.{
  ℕ, ◌+◌, ◌≡◌, refl, not, ◌&&◌, none, some, arith, inl, inr, Bool-cases, Option-cases,
}
use i2p_lite.Base.{Bytes, bytes_eq, length, ltb, if◌then◌else◌}
use i2p_lite.Transport.{
  max_transports, Impl, Transport, new, is_registered, put, register, deregister,
}
use i2p_lite.Transport.Slots.{
  route, used, Distinct, route-put, put-Distinct, length-put, put-none, put-some, used-le,
  route-clear, length-clear, clear-Distinct, Distinct-replicate,
}

-- All slots are there, and no name has two of them.
pub IsValid : Transport → Type 0
IsValid t = (length t.links ≡ max_transports) × Distinct t.links

-- The states that the calls lead to.
pub data Reached : Transport → Type 0 where
  created : (loop : ℕ) → Reached (new loop)
  registered : {t : Transport} → Reached t → (i : Impl) → Reached (register t i).1
  deregistered : {t : Transport} → Reached t → (i : Impl) → Reached (deregister t i)

new-IsValid : (loop : ℕ) → IsValid (new loop)
unfolding new IsValid
new-IsValid loop = (refl, Distinct-replicate max_transports)

register-IsValid : (t : Transport) (i : Impl) → IsValid t → IsValid (register t i).1
unfolding register IsValid
register-IsValid t i (size, d) = elim (Bool-cases (is_registered t.links i.name)) [
  | inl old ↦ rw old (size, d)
  | inr fresh ↦ elim (Option-cases (put t.links i)) [
    | inl full ↦ rw (fresh, full) (size, d)
    | inr (ls, e) ↦
        rw (fresh, e) (omega (arith, length-put t.links i e), put-Distinct t.links i fresh e d)
  ]
]

deregister-IsValid : (t : Transport) (i : Impl) → IsValid t → IsValid (deregister t i)
unfolding deregister IsValid
deregister-IsValid t i (size, d) =
    (omega (arith, length-clear t.links i.name), clear-Distinct t.links i.name d)

-- In every state that is reached by registering and deregistering, in any order, there are as many
-- slots as at the start, and no name is registered in two of them.
pub Reached-IsValid : {t : Transport} → Reached t → IsValid t
Reached-IsValid (created loop) = new-IsValid loop
Reached-IsValid (registered {t} r i) = register-IsValid t i (Reached-IsValid r)
Reached-IsValid (deregistered {t} r i) = deregister-IsValid t i (Reached-IsValid r)

-- A registration succeeds exactly if the name is not registered and a slot is free. It then leads
-- the name to the implementation, and uses one slot more. Other names, and all names if it fails,
-- lead where they led before.
pub route-register :
    (t : Transport) (i : Impl)
    → let (ok, t') = register t i in
      (ok ≡ (not (is_registered t.links i.name) && ltb (used t.links) (length t.links)))
      × (used t'.links ≡ (if ok then used t.links + 1 else used t.links))
      × ((n : Bytes)
          → route t'.links n
            ≡ (if ok && bytes_eq i.name n then some (i.sendto, i.impl) else route t.links n))
unfolding register
route-register t i = elim (Bool-cases (is_registered t.links i.name)) [
  | inl old ↦ rw old (refl, refl, λ n. refl)
  | inr fresh ↦ elim (Option-cases (put t.links i)) [
    | inl full ↦
        let all = put-none t.links i full in rw (fresh, full) (ground arith, refl, λ n. refl)
    | inr (ls, e) ↦
        let more = put-some t.links i e in
        let size = length-put t.links i e in
        let room = used-le ls in
        rw (fresh, e) (ground arith, omega arith, λ n. route-put t.links i n fresh e)
  ]
]

-- In a state that is reached, deregistering an implementation makes its name lead nowhere, and
-- leaves the other names as they are.
pub route-deregister :
    {t : Transport} (i : Impl) (n : Bytes)
    → Reached t
    → route (deregister t i).links n ≡ (if bytes_eq i.name n then none else route t.links n)
unfolding deregister
route-deregister {t} i n r =
    let valid : IsValid t = Reached-IsValid r in
    route-clear t.links i.name n (unfold IsValid in valid.1)
