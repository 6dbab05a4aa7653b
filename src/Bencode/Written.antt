-- ===== src/Bencode/Written.antt =====
-- mnet/bencode.c: _bencode_write writes the bencoding, as far as the stream takes it.
use mathlib.Core.List.{append-nil}
use i2p_lite.Base.{
  take-all, ℕ, ◌+◌, ◌-◌, ◌≤◌, ◌<◌, ◌≡◌, refl, sym, ap, ◌∙◌, true, false, [], ◌∷◌, ◌++◌, Option,
  none, some, arith, inl, inr, Bool-cases, false≢true,
}
use i2p_lite.Base.{Bytes, ltb, leb, ◌==◌, if◌then◌else◌, length, take}
use i2p_lite.Bencode.{
  Obj, str, int, dict, list, Items, nil, item, lost, absent, Fields, end, field, ring,
}
use i2p_lite.Bencode.Write.{
  Count, count, failed, is_failed, is_positive, Sink, print, emit, write_string, tally, after_key,
  Wrote, wrote, fault, and_then, unless_failed, close, enclosed, write_obj, write_fields,
  write_items, write_file,
}
use i2p_lite.Numerals.{decimal, decimal_int}
use i2p_lite.Bencode.Encode.{
  encode_str, encode, encode_fields, Listless, ListlessFields, opened, full, Sound, is_open,
  is_full, emit-fits, emit-short, emit-full, emit-Sound, emit-append, fits_or_not,
}

print-fits :
    (t : Bytes) (r : ℕ) (o : Bytes) (n : ℕ)
    → length t ≤ r
    → print t (opened r o n) ≡ (true, opened (r - length t) (o ++ t) n)
unfolding print
print-fits t r o n h =
    let ok : leb (length t) r ≡ true = ground arith in rw (ok, take-all r t h) refl

print-short :
    (t : Bytes) (r : ℕ) (o : Bytes) (n : ℕ)
    → r < length t
    → print t (opened r o n) ≡ (false, opened 0 (o ++ take r t) n)
unfolding print
print-short t r o n h =
    let ok : leb (length t) r ≡ false = ground arith in
    let none_left : r - length t ≡ 0 = omega arith in rw (ok, none_left) refl

emit-nil : (r : ℕ) (o : Bytes) (n : ℕ) → emit [] (opened r o n) ≡ opened r o n
emit-nil r o n =
    let none_taken : r - 0 ≡ r = omega arith in
    let none_added : n + 0 ≡ n = omega arith in
    emit-fits [] r o n (omega arith) ∙ rw (none_taken, none_added, append-nil) refl

-- The last of the three texts of a string, which is not written if it is empty.
write_last :
    (k : Bytes) (r : ℕ) (o : Bytes) (n base m : ℕ)
    → n + base ≡ m
    → tally (
        if length k == 0
        then (some base, opened r o n)
        else if (print k (opened r o n)).0
        then (some (base + length k), (print k (opened r o n)).1)
        else (none, (print k (opened r o n)).1))
      ≡ emit k (opened r o m)
write_last [] r o n base m e = rw (emit-nil r o m, e) refl
write_last (x ∷ k) r o n base m e =
    let some_text : (length (x ∷ k) == 0) ≡ false = ground arith in
    rw some_text (elim (fits_or_not (length (x ∷ k)) r) [
      | inl h ↦
          let sum : n + (base + length (x ∷ k)) ≡ m + length (x ∷ k) = omega arith in
          rw (print-fits (x ∷ k) r o n h, emit-fits (x ∷ k) r o m h, sum) refl
      | inr h ↦ rw (print-short (x ∷ k) r o n h, emit-short (x ∷ k) r o m h) refl
    ])

-- A string, its size and its colon are three texts.
write_string-emit :
    (k : Bytes) (r : ℕ) (o : Bytes) (n : ℕ)
    → tally (write_string k (opened r o n))
      ≡ emit k (emit (b':' ∷ []) (emit (decimal (length k)) (opened r o n)))
unfolding write_string
write_string-emit k r o n =
    let size = decimal (length k) in
    elim (fits_or_not (length size) r) [
      | inr h ↦
          let o1 = o ++ take r size in
          rw
            (
              print-short size r o n h,
              emit-short size r o n h,
              emit-full (b':' ∷ []) o1,
              emit-full k o1,
            )
            refl
      | inl h ↦
          let r1 : ℕ = r - length size in
          let o1 = o ++ size in
          let n1 : ℕ = n + length size in
          rw (print-fits size r o n h, emit-fits size r o n h)
            (elim (fits_or_not 1 r1) [
              | inr k_out ↦
                  let o2 = o1 ++ take r1 (b':' ∷ []) in
                  rw
                    (
                      print-short (b':' ∷ []) r1 o1 n k_out,
                      emit-short (b':' ∷ []) r1 o1 n1 k_out,
                      emit-full k o2,
                    )
                    refl
              | inl k_in ↦
                  rw (print-fits (b':' ∷ []) r1 o1 n k_in, emit-fits (b':' ∷ []) r1 o1 n1 k_in)
                    (write_last k (r1 - 1) (o1 ++ b':' ∷ []) n (length size + 1) (n1 + 1)
                      (omega arith))
            ])
    ]

print-full : (t : Bytes) (o : Bytes) → print t (full o) ≡ (leb (length t) 0, full o)
unfolding print
print-full t o = let none_left : 0 - length t ≡ 0 = omega arith in rw (none_left, append-nil) refl

write_string-full : (k o : Bytes) → tally (write_string k (full o)) ≡ full o
unfolding write_string
write_string-full k o =
    let size = decimal (length k) in
    rw (print-full size o, print-full (b':' ∷ []) o)
      (elim (Bool-cases (leb (length size) 0)) [ inl e ↦ rw e refl | inr e ↦ rw e refl ])

write_string-encode_str :
    (k : Bytes) {s : Sink} → Sound s → tally (write_string k s) ≡ emit (encode_str k) s
unfolding encode_str
write_string-encode_str k (is_full o) = write_string-full k o ∙ sym (emit-full (encode_str k) o)
write_string-encode_str k (is_open r o n) =
    let s = is_open r o n in
    let size = decimal (length k) in
    write_string-emit k r o n
    ∙ emit-append (b':' ∷ []) k (emit-Sound size s)
    ∙ emit-append size (b':' ∷ k) s

-- Behind a key that failed, the value is not written either.
after_key-tally :
    (v : Obj) (p : Option ℕ × Sink) → after_key (write_obj v) p ≡ write_obj v (tally p)
unfolding write_obj
after_key-tally (str b) (none, s) = refl
after_key-tally (int i) (none, s) = refl
after_key-tally (dict fs) (none, s) = refl
after_key-tally (list xs) (none, s) = refl
after_key-tally v (some n, s) = refl

close-emit :
    (x : ℕ) (t : Bytes) {s : Sink}
    → Sound s
    → close (emit (x ∷ t) s) ≡ wrote (emit (x ∷ (t ++ b'e' ∷ [])) s)
close-emit x t h = closed h ∙ ap wrote (emit-append (x ∷ t) (b'e' ∷ []) h)
  where
    closed :
        {s : Sink} → Sound s → close (emit (x ∷ t) s) ≡ wrote (emit (b'e' ∷ []) (emit (x ∷ t) s))
    closed (is_full o) = rw (emit-full (x ∷ t) o, emit-full (b'e' ∷ []) o) refl
    closed (is_open r o n) = elim (fits_or_not (length (x ∷ t)) r) [
      | inl k ↦
          let some_text : ltb 0 (n + length (x ∷ t)) ≡ true = ground arith in
          rw (emit-fits (x ∷ t) r o n k, some_text) refl
      | inr k ↦
          let o1 = o ++ take r (x ∷ t) in
          rw (emit-short (x ∷ t) r o n k, emit-full (b'e' ∷ []) o1) refl
    ]

-- Entries that write a text, between the sign and the end.
enclosed-emit :
    (sign : ℕ) (entries : Sink → Wrote) (t : Bytes) (r : ℕ) (o : Bytes) (n : ℕ)
    → ((s : Sink) → Sound s → entries s ≡ wrote (emit t s))
    → enclosed sign entries (opened r o n) ≡ wrote (emit (sign ∷ (t ++ b'e' ∷ [])) (opened r o n))
enclosed-emit sign entries t r o n writes =
    let s = is_open r o n in
    let s1 = emit (sign ∷ []) (opened r o n) in
    ap (λ w. and_then w close) inner ∙ ap close (emit-append (sign ∷ []) t s) ∙ close-emit sign t s
  where
    inner :
        (if (print (sign ∷ []) (opened r o n)).0
          then entries (emit (sign ∷ []) (opened r o n))
          else wrote (emit (sign ∷ []) (opened r o n)))
        ≡ wrote (emit t (emit (sign ∷ []) (opened r o n)))
    inner = elim (fits_or_not 1 r) [
      | inl k ↦
          rw (print-fits (sign ∷ []) r o n k)
            (writes (emit (sign ∷ []) (opened r o n)) (emit-Sound (sign ∷ []) (is_open r o n)))
      | inr k ↦
          let o1 = o ++ take r (sign ∷ []) in
          rw (print-short (sign ∷ []) r o n k, emit-short (sign ∷ []) r o n k, emit-full t o1) refl
    ]

mutual
  unfolding write_obj encode Listless

  write_obj-encode :
      (v : Obj) (s : Sink) → Listless v → Sound s → write_obj v s ≡ wrote (emit (encode v) s)
  write_obj-encode (str b) s l (is_full o) = rw (emit-full (encode_str b) o) refl
  write_obj-encode (str b) s l (is_open r o n) =
      ap wrote (write_string-encode_str b (is_open r o n))
  write_obj-encode (int i) s l (is_full o) =
      rw (emit-full (b'i' ∷ (decimal_int i ++ b'e' ∷ [])) o) refl
  write_obj-encode (int i) s l (is_open r o n) = close-emit b'i' (decimal_int i) (is_open r o n)
  write_obj-encode (dict fs) s l (is_full o) =
      rw (emit-full (b'd' ∷ (encode_fields fs ++ b'e' ∷ [])) o) refl
  write_obj-encode (dict fs) s l (is_open r o n) =
      enclosed-emit b'd' (write_fields fs) (encode_fields fs) r o n
        (λ s1 h. write_fields-encode fs s1 l h)
  write_obj-encode (list xs) s l h = elim l [ ]

  write_fields-encode :
      (fs : Fields) (s : Sink)
      → ListlessFields fs
      → Sound s
      → write_fields fs s ≡ wrote (emit (encode_fields fs) s)
  write_fields-encode end s l (is_full o) = rw (emit-full [] o) refl
  write_fields-encode end s l (is_open r o n) = ap wrote (sym (emit-nil r o n))
  write_fields-encode (ring i w k v) s l h = elim l [ ]
  write_fields-encode (field k v fs) s l h =
      let key = emit-Sound (encode_str k) h in
      let value = emit-Sound (encode v) key in
      let keyed : after_key (write_obj v) (write_string k s)
          ≡ wrote (emit (encode v) (emit (encode_str k) s)) =
        after_key-tally v (write_string k s)
        ∙ ap (write_obj v) (write_string-encode_str k h)
        ∙ write_obj-encode v (emit (encode_str k) s) l.0 key in
      ap (λ w. and_then w (write_fields fs)) keyed
      ∙ write_fields-encode fs (emit (encode v) (emit (encode_str k) s)) l.1 value
      ∙ ap wrote (
          emit-append (encode v) (encode_fields fs) key
          ∙ emit-append (encode_str k) (encode v ++ encode_fields fs) h)

pub write_file-encode :
    (v : Obj) (room : ℕ)
    → Listless v
    → write_file v room
      ≡ wrote (record {
        room = room - length (encode v);
        out = take room (encode v);
        written = if leb (length (encode v)) room then count (length (encode v)) else failed;
      })
unfolding write_file
write_file-encode v room l =
    write_obj-encode v (opened room [] 0) l (is_open room [] 0)
    ∙ ap wrote (elim (fits_or_not (length (encode v)) room) [
      | inl h ↦
          let ok : leb (length (encode v)) room ≡ true = ground arith in
          rw (emit-fits (encode v) room [] 0 h, ok, take-all room (encode v) h)
            (ap (λ (k : ℕ). opened (room - length (encode v)) (encode v) k) (omega arith))
      | inr h ↦
          let ok : leb (length (encode v)) room ≡ false = ground arith in
          let none_left : room - length (encode v) ≡ 0 = omega arith in
          rw (emit-short (encode v) room [] 0 h, ok, none_left) refl
    ])

-- An access through NULL, or the return of -1.
abbrev pub Unwritten : Wrote → Type 0
Unwritten (wrote s) = is_failed s.written ≡ true
Unwritten fault = Unit

unless_failed-Unwritten : (s : Sink) → Unwritten (unless_failed s fault)
unless_failed-Unwritten s = elim (Bool-cases (is_failed s.written)) [
  | inl e ↦ rw e e
  | inr e ↦ rw e tt
]

and_then-Unwritten :
    (w : Wrote) (k : Sink → Wrote) → ((s : Sink) → Unwritten (k s)) → Unwritten (and_then w k)
and_then-Unwritten (wrote s) k h = h s
and_then-Unwritten fault k h = tt

write_items-Unwritten : (xs : Items) (s : Sink) → Unwritten (write_items xs s)
unfolding write_items
write_items-Unwritten nil s = unless_failed-Unwritten s
write_items-Unwritten (item v xs) s =
    and_then-Unwritten (write_obj v s) (write_items xs) (write_items-Unwritten xs)
write_items-Unwritten (lost xs) s =
    and_then-Unwritten (unless_failed s fault) (write_items xs) (write_items-Unwritten xs)
write_items-Unwritten (absent xs) s =
    and_then-Unwritten (unless_failed s fault) (write_items xs) (write_items-Unwritten xs)

close-Unwritten : (w : Wrote) → Unwritten w → Unwritten (and_then w close)
close-Unwritten (wrote s) h = unpositive s.written h
  where
    unpositive :
        (c : Count)
        → is_failed c ≡ true
        → Unwritten (
            wrote (
              if is_positive c
              then emit (b'e' ∷ []) (record s { written = c })
              else record s { written = c }))
    unpositive failed h = refl
    unpositive (count n) h = absurd (false≢true h)
close-Unwritten fault h = tt

-- No list is ever written: behind the sign and the items, NULL is read through, or writing has
-- failed before.
pub write_file-list : (xs : Items) (room : ℕ) → Unwritten (write_file (list xs) room)
unfolding write_file write_obj
write_file-list xs room =
    let s = opened room [] 0 in
    close-Unwritten
      (if (print (b'l' ∷ []) s).0
        then write_items xs (emit (b'l' ∷ []) s)
        else wrote (emit (b'l' ∷ []) s))
      (elim (fits_or_not 1 room) [
        | inl h ↦
            rw (print-fits (b'l' ∷ []) room [] 0 h) (write_items-Unwritten xs (emit (b'l' ∷ []) s))
        | inr h ↦ rw (print-short (b'l' ∷ []) room [] 0 h, emit-short (b'l' ∷ []) room [] 0 h) refl
      ])
