-- ===== src/Transport/Undo.antt =====
-- mnet/transport.c: deregistering takes a registration back.
use i2p_lite.Base.{
  ℕ, zero, suc, ◌≡◌, refl, sym, ap, ◌∙◌, true, false, List, [], ◌∷◌, some, arith, inl, inr,
  Bool-cases, Option-cases, false≢true,
}
use i2p_lite.Base.{Bytes, bytes_eq_refl, replicate, All}
use i2p_lite.Transport.{
  max_transports, Impl, Slot, Transport, free_slot, slot_for, new, named, is_used, is_registered,
  put, register, clear, deregister,
}
use i2p_lite.Transport.Slots.{put-used, put-free, rest-out}
use i2p_lite.Transport.Laws.{Reached, created, registered, deregistered}

-- An unused slot holds nothing.
abbrev Clean : List Slot → Type 0
Clean = All (λ (l : Slot). is_used l ≡ false → l ≡ free_slot)

put-Clean : (ls : List Slot) (i : Impl) {ms : List Slot} → put ls i ≡ some ms → Clean ls → Clean ms
put-Clean [] i e c = unfold put in absurd (ground arith)
put-Clean (l ∷ ls) i e c = elim (Bool-cases (is_used l)) [
  | inl u ↦ let (ns, s, same) = put-used l ls i u e in rw same (c.0, put-Clean ls i s c.1)
  | inr u ↦
      let taken : is_used (slot_for i) ≡ true = unfold is_used in refl in
      rw (put-free l ls i u e) ((λ h. absurd (false≢true (sym h ∙ taken))), c.1)
]

clear-Clean : (ls : List Slot) (name : Bytes) → Clean ls → Clean (clear ls name)
unfolding clear
clear-Clean [] name c = tt
clear-Clean (l ∷ ls) name c = elim (Bool-cases (named name l)) [
  | inl here ↦ rw here ((λ h. refl), c.1)
  | inr there ↦ rw there (c.0, clear-Clean ls name c.1)
]

Clean-replicate : (n : ℕ) → Clean (replicate n free_slot)
Clean-replicate zero = tt
Clean-replicate (suc n) = ((λ h. refl), Clean-replicate n)

register-Clean : (t : Transport) (i : Impl) → Clean t.links → Clean (register t i).1.links
unfolding register
register-Clean t i c = elim (Bool-cases (is_registered t.links i.name)) [
  | inl old ↦ rw old c
  | inr fresh ↦ elim (Option-cases (put t.links i)) [
    | inl full ↦ rw (fresh, full) c
    | inr (ls, e) ↦ rw (fresh, e) (put-Clean t.links i e c)
  ]
]

Reached-Clean : {t : Transport} → Reached t → Clean t.links
unfolding new deregister
Reached-Clean (created loop) = Clean-replicate max_transports
Reached-Clean (registered {t} r i) = register-Clean t i (Reached-Clean r)
Reached-Clean (deregistered {t} r i) = clear-Clean t.links i.name (Reached-Clean r)

clear-put :
    (ls : List Slot) (i : Impl) {ms : List Slot}
    → Clean ls
    → is_registered ls i.name ≡ false
    → put ls i ≡ some ms
    → clear ms i.name ≡ ls
unfolding clear
clear-put [] i c out e = unfold put in absurd (ground arith)
clear-put (l ∷ ls) i c out e =
    let (off, out') = rest-out l ls i.name out in
    elim (Bool-cases (is_used l)) [
      | inl u ↦
          let (ns, s, same) = put-used l ls i u e in
          rw (same, off) (ap (λ t. l ∷ t) (clear-put ls i c.1 out' s))
      | inr u ↦
          let own : named i.name (slot_for i) ≡ true = unfold named in bytes_eq_refl i.name in
          rw (put-free l ls i u e, own) (ap (λ t. t ∷ ls) (sym (c.0 u)))
    ]

-- In a state that is reached, deregistering an implementation that has just been registered with
-- success gives back the state before.
pub deregister-register :
    {t : Transport} (i : Impl)
    → Reached t
    → (register t i).0 ≡ true
    → deregister (register t i).1 i ≡ t
unfolding register deregister
deregister-register {t} i r ok = elim (Bool-cases (is_registered t.links i.name)) [
  | inl old ↦ absurd (ground arith)
  | inr fresh ↦ elim (Option-cases (put t.links i)) [
    | inl full ↦ absurd (ground arith)
    | inr (ls, e) ↦
        rw (fresh, e)
          (ap (λ (ms : List Slot). record t { links = ms })
            (clear-put t.links i (Reached-Clean r) fresh e))
  ]
]
