-- ===== src/Bencode/Ends.antt =====
-- bencode_read_file of mnet/bencode.c ends.
use i2p_lite.Base.{
  ℕ, zero, suc, ◌+◌, ◌-◌, ◌*◌, ◌≤◌, ◌≢◌, refl, sym, subst, [], ◌∷◌, Option, none, some, arith, inl,
  inr, Bool-cases, length-drop,
}
use i2p_lite.Base.{Bytes, ◌==◌, length, take, drop}
use i2p_lite.Stdio.{fread}
use i2p_lite.Bencode.{
  Obj, dict, list, Items, nil, Fields, end, Run, done, fault, tied, too_deep, dict_set,
}
use i2p_lite.Bencode.Dict.{dict_set-total}
use i2p_lite.Bencode.Write.{Count, count, add, is_failed, is_positive}
use i2p_lite.Bencode.Read.{
  Source, Outcome, got, crash, looped, out_of_fuel, get_line, c_string, line_length, outside_line,
  number_buffer, read_data, read_sized, read_str, append_freed, freeable, freeing, next_byte,
  first_byte, counted, with_obj, and_then, entered, enter, dispatch, item_round, after_key,
  field_round, read_obj, read_items, read_fields, read_file,
}
use i2p_lite.Numerals.{Atoi, value, negative, undefined, is_digit, atoi}

-- A call has ended, and leaves at most `n` bytes in the stream.
abbrev Ends : {A : Type 0} → ℕ → Outcome A → Type 0
Ends n (got a s) = length s.rest ≤ n
Ends n crash = Unit
Ends n looped = Unit
Ends n out_of_fuel = ⊥

Ends-weaken : {A : Type 0} (m n : ℕ) (r : Outcome A) → m ≤ n → Ends m r → Ends n r
Ends-weaken m n (got a s) le h = omega arith
Ends-weaken m n crash le h = tt
Ends-weaken m n looped le h = tt
Ends-weaken m n out_of_fuel le h = elim h [ ]

and_then-Ends :
    {A B : Type 0} (n : ℕ) (r : Outcome A) (k : A → Source → Outcome B)
    → Ends n r
    → ((a : A) (s : Source) → length s.rest ≤ n → Ends n (k a s))
    → Ends n (and_then r k)
and_then-Ends n (got a s) k h next = next a s h
and_then-Ends n crash k h next = tt
and_then-Ends n looped k h next = tt
and_then-Ends n out_of_fuel k h next = elim h [ ]

with_obj-Ends :
    {A : Type 0} (n : ℕ) (f : A → Obj) (r : Outcome A) → Ends n r → Ends n (with_obj f r)
with_obj-Ends n f (got a s) h = h
with_obj-Ends n f crash h = tt
with_obj-Ends n f looped h = tt
with_obj-Ends n f out_of_fuel h = elim h [ ]

get_line-shorter : (cs : Bytes) → length (get_line cs).1 ≤ length cs
unfolding get_line
get_line-shorter [] = omega arith
get_line-shorter (c ∷ cs) =
    let later = get_line-shorter cs in
    elim (Bool-cases (c == b':')) [ inl e ↦ rw e (omega arith) | inr e ↦ rw e (omega arith) ]

read_sized-Ends : (n : ℕ) (a : Atoi) (s : Source) → length s.rest ≤ n → Ends n (read_sized a s)
unfolding read_data
read_sized-Ends n (negative k) s h = h
read_sized-Ends n undefined s h = tt
read_sized-Ends n (value sz) s h = elim (Bool-cases (sz == 0)) [
  | inl e ↦ rw e h
  | inr e ↦ rw e (elim (Bool-cases ((fread sz 1 s.rest).items == sz)) [
    | inl g ↦ rw g (shorter)
    | inr g ↦ rw g (shorter)
  ])
]
  where
    shorter : length (fread sz 1 s.rest).rest ≤ n
    shorter = subst (λ z. z ≤ n) (sym (length-drop (sz * 1) s.rest)) (omega arith)

read_str-Ends : (n p : ℕ) (s : Source) → length s.rest ≤ n → Ends n (read_str p s)
unfolding read_str
read_str-Ends n p s h =
    let shorter = get_line-shorter s.rest in
    elim (Bool-cases (length s.rest == 0)) [
      | inl e ↦ rw e h
      | inr e ↦ rw e (elim (Bool-cases (outside_line (line_length (get_line s.rest).0))) [
        | inl g ↦ rw g tt
        | inr g ↦ rw g (
            by_size
              (atoi (
                drop 1 (
                  number_buffer p
                    (take (line_length (get_line s.rest).0 - 1) (get_line s.rest).0))))
              (add (line_length (get_line s.rest).0) s.read) shorter)
      ])
    ]
  where
    by_size :
        (a : Atoi) (r : Count)
        → length (get_line s.rest).1 ≤ length s.rest
        → Ends n (read_sized a (record { rest = (get_line s.rest).1; read = r }))
    by_size a r le =
        read_sized-Ends n a (record { rest = (get_line s.rest).1; read = r }) (omega arith)

entered-Ends :
    (n : ℕ) (r : Run Fields) (s : Source) → r ≢ too_deep → length s.rest ≤ n → Ends n (entered r s)
entered-Ends n (done fs) s ne h = h
entered-Ends n fault s ne h = tt
entered-Ends n tied s ne h = tt
entered-Ends n too_deep s ne h = elim (ne refl) [ ]

enter-Ends :
    (n : ℕ) (fs : Fields) (k : Bytes) (v : Option Obj) (s : Source)
    → length s.rest ≤ n
    → Ends n (enter fs k v s)
unfolding enter
enter-Ends n fs [] v s h = tt
enter-Ends n fs (c ∷ cs) none s h = tt
enter-Ends n fs (c ∷ cs) (some v) s h =
    entered-Ends n (dict_set fs (c_string (c ∷ cs)) v) s (dict_set-total fs (c_string (c ∷ cs)) v) h

-- The next byte is gone from the stream, if there was one.
abbrev Taken : ℕ → Option ℕ × Source → Type 0
Taken n (none, s) = length s.rest ≤ n
Taken n (some c, s) = suc (length s.rest) ≤ n

next_byte-Taken :
    (n : ℕ) (cs : Bytes) (r : Count)
    → length cs ≤ n
    → Taken n (next_byte (record { rest = cs; read = r }))
next_byte-Taken n [] r h = h
next_byte-Taken n (c ∷ cs) r h = h

Taken-shorter : (n : ℕ) (p : Option ℕ × Source) → Taken n p → length p.1.rest ≤ n
Taken-shorter n (none, s) h = h
Taken-shorter n (some c, s) h = omega arith

first_byte-shorter : (n p : ℕ) (s : Source) → length s.rest ≤ n → length (first_byte p s).1.rest ≤ n
first_byte-shorter n zero s h = Taken-shorter n (next_byte s) (next_byte-Taken n s.rest s.read h)
first_byte-shorter n (suc p) s h = h

dispatch-Ends :
    (n : ℕ) (items : Items → Source → Outcome Items) (fields : Fields → Source → Outcome Fields)
    → (c : Option ℕ) (s : Source) → length s.rest ≤ n
    → ((xs : Items) → Ends n (items xs s))
    → ((fs : Fields) → Ends n (fields fs s))
    → Ends n (dispatch items fields c s)
dispatch-Ends n items fields none s h i f = h
dispatch-Ends n items fields (some c) s h i f = elim (Bool-cases (c == b'l')) [
  | inl e ↦ rw e (with_obj-Ends n list (items nil s) (i nil))
  | inr e ↦ rw e (elim (Bool-cases (c == b'd')) [
    | inl g ↦ rw g (with_obj-Ends n dict (fields end s) (f end))
    | inr g ↦ rw g (elim (Bool-cases (is_digit c)) [
      | inl d ↦ rw d (and_then-Ends n (read_str c s) _ (read_str-Ends n c s h) (λ b s' hs. hs))
      | inr d ↦ rw d h
    ])
  ])
]

-- What a call on a shorter stream is known to do, for each of the three calls.
abbrev ItemsEnd : ℕ → (Items → Source → Outcome Items) → Type 0
ItemsEnd n items = (xs : Items) (s : Source) → length s.rest ≤ n → Ends n (items xs s)

abbrev FieldsEnd : ℕ → (Fields → Source → Outcome Fields) → Type 0
FieldsEnd n fields = (fs : Fields) (s : Source) → length s.rest ≤ n → Ends n (fields fs s)

abbrev ObjEnds : ℕ → (Source → Outcome (Option Obj)) → Type 0
ObjEnds n obj = (s : Source) → length s.rest ≤ n → Ends n (obj s)

freeing-Ends :
    {A : Type 0} (n : ℕ) (v : Option Obj) (r : Outcome A) → Ends n r → Ends n (freeing v r)
freeing-Ends n v r h = elim (Bool-cases (freeable v)) [ inl e ↦ rw e h | inr e ↦ rw e tt ]

item_round-Ends :
    (n : ℕ) (again : Items → Source → Outcome Items) (obj : ℕ → Source → Outcome (Option Obj))
    → (xs : Items) (p : Option ℕ × Source) → Taken n p
    → ((m : ℕ) → suc m ≤ n → ItemsEnd m again)
    → ((m : ℕ) → suc m ≤ n → (c : ℕ) → ObjEnds m (obj c))
    → Ends n (item_round again obj xs p)
item_round-Ends n again obj xs (none, s) h i o = h
item_round-Ends n again obj xs (some c, s) h i o = elim (Bool-cases (c == b'e')) [
  | inl e ↦ rw e (omega arith)
  | inr e ↦ rw e (
      let m : ℕ = n - 1 in
      Ends-weaken m n _ (omega arith) (
        and_then-Ends m (obj c (counted s)) _ (o m (omega arith) c (counted s) (omega arith))
          (λ v s' hs. freeing-Ends m v _ (i m (omega arith) (append_freed v xs) s' hs))))
]

after_key-Ends :
    (n : ℕ) (obj : Source → Outcome (Option Obj)) (fs : Fields) (k : Option Bytes) (s : Source)
    → length s.rest ≤ n
    → ObjEnds n obj
    → Ends n (after_key obj fs k s)
after_key-Ends n obj fs k s h o = elim (Bool-cases (is_failed s.read)) [
  | inl e ↦ rw e h
  | inr e ↦ rw e (
      and_then-Ends n (obj s) _ (o s h) (λ v s' hs. elim (Bool-cases (is_positive s'.read)) [
        | inl g ↦ rw g (
            and_then-Ends n (elim k [ none ↦ crash | some b ↦ enter fs b v s' ]) _ (entry k v s' hs)
              (λ fs' s'' hs'. freeing-Ends n v (got fs' s'') hs'))
        | inr g ↦ rw g (freeing-Ends n v (got fs s') hs)
      ]))
]
  where
    entry :
        (k : Option Bytes) (v : Option Obj) (s' : Source)
        → length s'.rest ≤ n
        → Ends n (elim k [ none ↦ crash | some b ↦ enter fs b v s' ])
    entry none v s' hs = tt
    entry (some b) v s' hs = enter-Ends n fs b v s' hs

field_round-Ends :
    (n : ℕ) (again : Fields → Source → Outcome Fields) (obj : Source → Outcome (Option Obj))
    → (fs : Fields) (p : Option ℕ × Source) → Taken n p
    → ((m : ℕ) → suc m ≤ n → FieldsEnd m again)
    → ((m : ℕ) → suc m ≤ n → ObjEnds m obj)
    → Ends n (field_round again obj fs p)
field_round-Ends n again obj fs (none, s) h i o = h
field_round-Ends n again obj fs (some c, s) h i o = elim (Bool-cases (c == b'e')) [
  | inl e ↦ rw e (omega arith)
  | inr e ↦ rw e (
      let m : ℕ = n - 1 in
      Ends-weaken m n _ (omega arith) (
        and_then-Ends m (read_str c (counted s)) _ (read_str-Ends m c (counted s) (omega arith))
          (λ k s' hs.
            and_then-Ends m (after_key obj fs k s') _
              (after_key-Ends m obj fs k s' hs (o m (omega arith)))
              (λ fs' s'' hs'. i m (omega arith) fs' s'' hs'))))
]

mutual
  unfolding read_obj read_items read_fields

  read_obj-Ends :
      (fuel n p : ℕ) (s : Source)
      → 2 * n + 2 ≤ fuel
      → length s.rest ≤ n
      → Ends n (read_obj fuel p s)
  read_obj-Ends zero n p s e h = absurd (omega arith)
  read_obj-Ends (suc fuel) n p s e h =
      let shorter = first_byte-shorter n p s h in
      dispatch-Ends n (read_items fuel) (read_fields fuel) (first_byte p s).0 (first_byte p s).1
        shorter (λ xs. read_items-Ends fuel n xs (first_byte p s).1 (omega arith) shorter)
        (λ fs. read_fields-Ends fuel n fs (first_byte p s).1 (omega arith) shorter)

  read_items-Ends :
      (fuel n : ℕ) (xs : Items) (s : Source)
      → 2 * n + 1 ≤ fuel
      → length s.rest ≤ n
      → Ends n (read_items fuel xs s)
  read_items-Ends zero n xs s e h = absurd (omega arith)
  read_items-Ends (suc fuel) n xs s e h =
      item_round-Ends n (read_items fuel) (read_obj fuel) xs (next_byte s)
        (next_byte-Taken n s.rest s.read h)
        (λ m le ys t ht. read_items-Ends fuel m ys t (omega arith) ht)
        (λ m le c t ht. read_obj-Ends fuel m c t (omega arith) ht)

  read_fields-Ends :
      (fuel n : ℕ) (fs : Fields) (s : Source)
      → 2 * n + 1 ≤ fuel
      → length s.rest ≤ n
      → Ends n (read_fields fuel fs s)
  read_fields-Ends zero n fs s e h = absurd (omega arith)
  read_fields-Ends (suc fuel) n fs s e h =
      field_round-Ends n (read_fields fuel) (read_obj fuel 0) fs (next_byte s)
        (next_byte-Taken n s.rest s.read h)
        (λ m le gs t ht. read_fields-Ends fuel m gs t (omega arith) ht)
        (λ m le t ht. read_obj-Ends fuel m 0 t (omega arith) ht)

-- The reader's own loops and calls end on every input, or a call of bencode_obj_dict_set does not return:
-- twice the bytes of the input and two more are enough rounds and calls.
pub read_file-total :
    (fuel : ℕ) (input : Bytes) → 2 * length input + 2 ≤ fuel → read_file fuel input ≢ out_of_fuel
unfolding read_file
read_file-total fuel input h e =
    subst (Ends (length input)) e (
      read_obj-Ends fuel (length input) 0 (record { rest = input; read = count 0 }) h (omega arith))
