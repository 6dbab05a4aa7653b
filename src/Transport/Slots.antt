-- ===== src/Transport/Slots.antt =====
-- The slots of mnet/transport.c: the loops over them, and which implementation a name leads to.
use i2p_lite.Base.{
  ℕ, zero, suc, ◌≤◌, ◌≡◌, refl, sym, ap, ◌∙◌, true, false, not, ◌&&◌, ◌||◌, List, [], ◌∷◌, Option,
  none, some, arith, inl, inr, Bool-cases, Option-cases,
}
use i2p_lite.Base.{Bytes, bytes_eq, bytes_eq→eq, length, replicate, if◌then◌else◌}
use i2p_lite.Transport.{Impl, Slot, free_slot, slot_for, named, is_used, is_registered, put, clear}

-- What the first slot of a name holds.
pub route : List Slot → Bytes → Option (ℕ × ℕ)
route [] name = none
route (l ∷ ls) name = if named name l then some (l.sendto, l.impl) else route ls name

-- How many slots are used.
pub used : List Slot → ℕ
used [] = 0
used (l ∷ ls) = if is_used l then suc (used ls) else used ls

-- No name has two slots.
pub Distinct : List Slot → Type 0
Distinct [] = Unit
Distinct (l ∷ ls) =
    ((name : Bytes) → named name l ≡ true → is_registered ls name ≡ false) × Distinct ls

-- A slot has one name.
named-apart : (l : Slot) (n m : Bytes) → named n l ≡ false → named m l ≡ true → bytes_eq n m ≡ false
named-apart l n m h k = elim (Bool-cases (bytes_eq n m)) [
  | inl e ↦ let same = bytes_eq→eq n m e in cc
  | inr e ↦ e
]

named-used : (l : Slot) (n : Bytes) → is_used l ≡ false → named n l ≡ false
unfolding named is_used
named-used l n h = elim (Option-cases l.name) [
  | inl e ↦ rw e refl
  | inr (m, e) ↦ absurd (ground (arith, rw e at h))
]

named-slot_for : (i : Impl) (n : Bytes) → named n (slot_for i) ≡ bytes_eq i.name n
unfolding named
named-slot_for i n = refl

named-free_slot : (n : Bytes) → named n free_slot ≡ false
unfolding named
named-free_slot n = refl

-- The two ways in which the loop of a registration goes on from a slot.
pub put-used :
    (l : Slot) (ls : List Slot) (i : Impl) {ms : List Slot}
    → is_used l ≡ true
    → put (l ∷ ls) i ≡ some ms
    → (ns : List Slot) × (put ls i ≡ some ns) × (ms ≡ l ∷ ns)
unfolding put
put-used l ls i {ms} u e = elim (Option-cases (put ls i)) [
  | inl n ↦ absurd (ground arith)
  | inr (ns, s) ↦ (ns, s, ground arith)
]

pub put-free :
    (l : Slot) (ls : List Slot) (i : Impl) {ms : List Slot}
    → is_used l ≡ false
    → put (l ∷ ls) i ≡ some ms
    → ms ≡ slot_for i ∷ ls
unfolding put
put-free l ls i u e = ground arith

pub is_registered-put :
    (ls : List Slot) (i : Impl) (n : Bytes) {ms : List Slot}
    → put ls i ≡ some ms
    → is_registered ms n ≡ (bytes_eq i.name n || is_registered ls n)
unfolding is_registered
is_registered-put [] i n e = unfold put in absurd (ground arith)
is_registered-put (l ∷ ls) i n e = elim (Bool-cases (is_used l)) [
  | inl u ↦
      let (ns, s, same) = put-used l ls i u e in
      let ih = is_registered-put ls i n s in rw same (ground arith)
  | inr u ↦
      let same = put-free l ls i u e in
      let off = named-used l n u in rw same (ground (arith, named-slot_for i n))
]

pub route-put :
    (ls : List Slot) (i : Impl) (n : Bytes) {ms : List Slot}
    → is_registered ls i.name ≡ false
    → put ls i ≡ some ms
    → route ms n ≡ (if bytes_eq i.name n then some (i.sendto, i.impl) else route ls n)
unfolding route is_registered
route-put [] i n out e = unfold put in absurd (ground arith)
route-put (l ∷ ls) i n out e = elim (Bool-cases (is_used l)) [
  | inl u ↦
      let (ns, s, same) = put-used l ls i u e in
      let ih = route-put ls i n (ground arith) s in
      let apart = named-apart l i.name n (ground arith) in
      rw same (elim (Bool-cases (named n l)) [
        | inl here ↦ rw (here, apart here) refl
        | inr there ↦ rw there ih
      ])
  | inr u ↦ let same = put-free l ls i u e in rw (same, named-used l n u, named-slot_for i n)
]

pub rest-out :
    (l : Slot) (ls : List Slot) (n : Bytes)
    → is_registered (l ∷ ls) n ≡ false
    → (named n l ≡ false) × (is_registered ls n ≡ false)
unfolding is_registered
rest-out l ls n h = (ground arith, ground arith)

pub put-Distinct :
    (ls : List Slot) (i : Impl) {ms : List Slot}
    → is_registered ls i.name ≡ false
    → put ls i ≡ some ms
    → Distinct ls
    → Distinct ms
unfolding Distinct
put-Distinct [] i out e d = unfold put in absurd (ground arith)
put-Distinct (l ∷ ls) i out e d = elim (Bool-cases (is_used l)) [
  | inl u ↦
      let (ns, s, same) = put-used l ls i u e in
      let (off, out') = rest-out l ls i.name out in
      let first : (n : Bytes) → named n l ≡ true → is_registered ns n ≡ false =
        λ n here. is_registered-put ls i n s ∙ rw (named-apart l i.name n off here) (d.0 n here) in
      rw same (first, put-Distinct ls i out' s d.1)
  | inr u ↦
      let same = put-free l ls i u e in
      let (off, out') = rest-out l ls i.name out in
      let first : (n : Bytes) → named n (slot_for i) ≡ true → is_registered ls n ≡ false =
        λ n here. let k = bytes_eq→eq i.name n (sym (named-slot_for i n) ∙ here) in rw (← k) out' in
      rw same (first, d.1)
]

pub length-put :
    (ls : List Slot) (i : Impl) {ms : List Slot} → put ls i ≡ some ms → length ms ≡ length ls
length-put [] i e = unfold put in absurd (ground arith)
length-put (l ∷ ls) i e = elim (Bool-cases (is_used l)) [
  | inl u ↦ let (ns, s, same) = put-used l ls i u e in rw same (ap suc (length-put ls i s))
  | inr u ↦ rw (put-free l ls i u e) refl
]

-- A slot is free exactly if not all are used.
pub put-none : (ls : List Slot) (i : Impl) → put ls i ≡ none → used ls ≡ length ls
unfolding put used
put-none [] i e = refl
put-none (l ∷ ls) i e = elim (Bool-cases (is_used l)) [
  | inl u ↦ rw u (ground (arith, put-none ls i))
  | inr u ↦ absurd (ground arith)
]

pub used-le : (ls : List Slot) → used ls ≤ length ls
unfolding used
used-le [] = omega arith
used-le (l ∷ ls) = ground (arith, used-le ls)

pub put-some :
    (ls : List Slot) (i : Impl) {ms : List Slot} → put ls i ≡ some ms → used ms ≡ suc (used ls)
unfolding used
put-some [] i e = unfold put in absurd (ground arith)
put-some (l ∷ ls) i e = elim (Bool-cases (is_used l)) [
  | inl u ↦ let (ns, s, same) = put-used l ls i u e in rw (same, u) (ap suc (put-some ls i s))
  | inr u ↦
      let taken : is_used (slot_for i) ≡ true = unfold is_used in refl in
      rw (put-free l ls i u e, taken, u) refl
]

named-eq : (l : Slot) (n m : Bytes) → named n l ≡ true → named m l ≡ bytes_eq n m
unfolding named
named-eq l n m h = elim (Option-cases l.name) [
  | inl e ↦ absurd (ground (arith, rw e at h))
  | inr (k, e) ↦
      let same : k ≡ n = bytes_eq→eq k n (rw e at h) in rw e (ap (λ t. bytes_eq t m) same)
]

pub is_registered-clear :
    (ls : List Slot) (name n : Bytes)
    → Distinct ls
    → is_registered (clear ls name) n ≡ (not (bytes_eq name n) && is_registered ls n)
unfolding is_registered clear Distinct
is_registered-clear [] name n d = ground arith
is_registered-clear (l ∷ ls) name n d =
    let off = named-free_slot n in
    elim (Bool-cases (named name l)) [
      | inl here ↦
          let same = named-eq l name n here in
          rw (here, off, same)
            (elim (Bool-cases (bytes_eq name n)) [
              | inl e ↦ rw e (d.0 n (same ∙ e))
              | inr e ↦ rw e refl
            ])
      | inr there ↦
          rw (there, is_registered-clear ls name n d.1)
            (elim (Bool-cases (named n l)) [
              | inl k ↦ rw (k, named-apart l name n there k) refl
              | inr k ↦ rw k refl
            ])
    ]

route-unregistered : (ls : List Slot) (n : Bytes) → is_registered ls n ≡ false → route ls n ≡ none
unfolding route is_registered
route-unregistered [] n h = refl
route-unregistered (l ∷ ls) n h =
    let (off, out) = rest-out l ls n h in rw off (route-unregistered ls n out)

pub route-clear :
    (ls : List Slot) (name n : Bytes)
    → Distinct ls
    → route (clear ls name) n ≡ (if bytes_eq name n then none else route ls n)
unfolding route clear Distinct
route-clear [] name n d = ground arith
route-clear (l ∷ ls) name n d =
    let off = named-free_slot n in
    elim (Bool-cases (named name l)) [
      | inl here ↦
          let same = named-eq l name n here in
          rw (here, off, same)
            (elim (Bool-cases (bytes_eq name n)) [
              | inl e ↦ rw e (route-unregistered ls n (d.0 n (same ∙ e)))
              | inr e ↦ rw e refl
            ])
      | inr there ↦
          rw (there, route-clear ls name n d.1)
            (elim (Bool-cases (named n l)) [
              | inl k ↦ rw (k, named-apart l name n there k) refl
              | inr k ↦ rw k refl
            ])
    ]

pub length-clear : (ls : List Slot) (name : Bytes) → length (clear ls name) ≡ length ls
unfolding clear
length-clear [] name = refl
length-clear (l ∷ ls) name = ground (arith, length-clear ls name)

pub clear-Distinct : (ls : List Slot) (name : Bytes) → Distinct ls → Distinct (clear ls name)
unfolding clear Distinct
clear-Distinct [] name d = tt
clear-Distinct (l ∷ ls) name d = elim (Bool-cases (named name l)) [
  | inl here ↦ rw here ((λ n k. absurd (ground (arith, named-free_slot n))), d.1)
  | inr there ↦ rw there (
    (λ n k. is_registered-clear ls name n d.1 ∙ rw (named-apart l name n there k) (d.0 n k)),
    clear-Distinct ls name d.1,
  )
]

pub Distinct-replicate : (n : ℕ) → Distinct (replicate n free_slot)
unfolding Distinct
Distinct-replicate zero = tt
Distinct-replicate (suc n) =
    ((λ name h. absurd (ground (arith, named-free_slot name))), Distinct-replicate n)
