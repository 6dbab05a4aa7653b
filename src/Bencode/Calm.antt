-- ===== src/Bencode/Calm.antt =====
-- bencode_read_file of mnet/bencode.c, where there are no dictionaries to read.
use i2p_lite.Base.{
  ℕ, zero, suc, ◌+◌, ◌-◌, ◌*◌, ◌≤◌, ◌≡◌, ◌≢◌, refl, false, [], ◌∷◌, Option, none, some, inl, inr,
  Bool-cases,
}
use i2p_lite.Base.{Bytes, All, ◌==◌, length, take, drop}
use i2p_lite.Stdio.{fread}
use i2p_lite.Bencode.{Obj, list, Items, nil, Fields}
use i2p_lite.Bencode.Write.{Count, count, add}
use i2p_lite.Bencode.Read.{
  Source, Outcome, got, crash, looped, out_of_fuel, get_line, line_length, outside_line,
  number_buffer, read_data, read_sized, read_str, append_freed, freeable, freeing, counted,
  with_obj, and_then, dispatch, item_round, read_obj, read_items, read_fields, read_file, next_byte,
  first_byte,
}
use i2p_lite.Bencode.Ends.{read_file-total}
use i2p_lite.Numerals.{Atoi, value, negative, undefined, is_digit, atoi}

-- No byte is the sign of a dictionary.
abbrev pub Dictless : Bytes → Type 0
Dictless bytes = All (λ c. (c == b'd') ≡ false) bytes

-- A call does not go round a tied chain, and what it leaves in the stream has no sign of a dictionary.
abbrev Calm : {A : Type 0} → Outcome A → Type 0
Calm (got a s) = Dictless s.rest
Calm crash = Unit
Calm looped = ⊥
Calm out_of_fuel = Unit

and_then-Calm :
    {A B : Type 0} (r : Outcome A) (k : A → Source → Outcome B)
    → Calm r
    → ((a : A) (s : Source) → Dictless s.rest → Calm (k a s))
    → Calm (and_then r k)
and_then-Calm (got a s) k h next = next a s h
and_then-Calm crash k h next = tt
and_then-Calm looped k h next = elim h [ ]
and_then-Calm out_of_fuel k h next = tt

with_obj-Calm : {A : Type 0} (f : A → Obj) (r : Outcome A) → Calm r → Calm (with_obj f r)
with_obj-Calm f (got a s) h = h
with_obj-Calm f crash h = tt
with_obj-Calm f looped h = elim h [ ]
with_obj-Calm f out_of_fuel h = tt

drop-Dictless : (n : ℕ) (bytes : Bytes) → Dictless bytes → Dictless (drop n bytes)
drop-Dictless zero bytes h = h
drop-Dictless (suc n) [] h = h
drop-Dictless (suc n) (c ∷ cs) h = drop-Dictless n cs h.1

get_line-Dictless : (bytes : Bytes) → Dictless bytes → Dictless (get_line bytes).1
unfolding get_line
get_line-Dictless [] h = tt
get_line-Dictless (c ∷ cs) h = elim (Bool-cases (c == b':')) [
  | inl e ↦ rw e h.1
  | inr e ↦ rw e (get_line-Dictless cs h.1)
]

read_sized-Calm : (a : Atoi) (s : Source) → Dictless s.rest → Calm (read_sized a s)
unfolding read_data
read_sized-Calm (negative k) s h = h
read_sized-Calm undefined s h = tt
read_sized-Calm (value sz) s h = elim (Bool-cases (sz == 0)) [
  | inl e ↦ rw e h
  | inr e ↦ rw e (elim (Bool-cases ((fread sz 1 s.rest).items == sz)) [
    | inl g ↦ rw g (drop-Dictless (sz * 1) s.rest h)
    | inr g ↦ rw g (drop-Dictless (sz * 1) s.rest h)
  ])
]

read_str-Calm : (p : ℕ) (s : Source) → Dictless s.rest → Calm (read_str p s)
unfolding read_str
read_str-Calm p s h = elim (Bool-cases (length s.rest == 0)) [
  | inl e ↦ rw e h
  | inr e ↦ rw e (elim (Bool-cases (outside_line (line_length (get_line s.rest).0))) [
    | inl g ↦ rw g tt
    | inr g ↦ rw g (
        read_sized-Calm
          (atoi (
            drop 1
              (number_buffer p (take (line_length (get_line s.rest).0 - 1) (get_line s.rest).0))))
          (record {
            rest = (get_line s.rest).1;
            read = add (line_length (get_line s.rest).0) s.read;
          })
          (get_line-Dictless s.rest h))
  ])
]

-- The next byte is not the sign of a dictionary, nor is one behind it.
abbrev Plain : Option ℕ × Source → Type 0
Plain (none, s) = Dictless s.rest
Plain (some c, s) = ((c == b'd') ≡ false) × Dictless s.rest

next_byte-Plain :
    (cs : Bytes) (r : Count) → Dictless cs → Plain (next_byte (record { rest = cs; read = r }))
next_byte-Plain [] r h = tt
next_byte-Plain (c ∷ cs) r h = (h.0, h.1)

counted-Plain : (p : Option ℕ × Source) → Plain p → Plain (p.0, counted p.1)
counted-Plain (none, s) h = h
counted-Plain (some c, s) h = h

first_byte-Plain :
    (p : ℕ) (s : Source) → (p == b'd') ≡ false → Dictless s.rest → Plain (first_byte p s)
first_byte-Plain zero s no_dict h = counted-Plain (next_byte s) (next_byte-Plain s.rest s.read h)
first_byte-Plain (suc p) s no_dict h = (no_dict, h)

dispatch-Calm :
    (items : Items → Source → Outcome Items) (fields : Fields → Source → Outcome Fields)
    → (p : Option ℕ × Source) → Plain p
    → ((s : Source) → Dictless s.rest → Calm (items nil s))
    → Calm (dispatch items fields p.0 p.1)
dispatch-Calm items fields (none, s) h i = h
dispatch-Calm items fields (some c, s) h i = elim (Bool-cases (c == b'l')) [
  | inl e ↦ rw e (with_obj-Calm list (items nil s) (i s h.1))
  | inr e ↦
      rw (e, h.0)
        (elim (Bool-cases (is_digit c)) [
          | inl d ↦ rw d (and_then-Calm (read_str c s) _ (read_str-Calm c s h.1) (λ b s' hs. hs))
          | inr d ↦ rw d h.1
        ])
]

freeing-Calm : {A : Type 0} (v : Option Obj) (r : Outcome A) → Calm r → Calm (freeing v r)
freeing-Calm v r h = elim (Bool-cases (freeable v)) [ inl e ↦ rw e h | inr e ↦ rw e tt ]

item_round-Calm :
    (again : Items → Source → Outcome Items) (obj : ℕ → Source → Outcome (Option Obj))
    → (xs : Items) (p : Option ℕ × Source) → Plain p
    → ((ys : Items) (s : Source) → Dictless s.rest → Calm (again ys s))
    → ((c : ℕ) (s : Source) → (c == b'd') ≡ false → Dictless s.rest → Calm (obj c s))
    → Calm (item_round again obj xs p)
item_round-Calm again obj xs (none, s) h i o = h
item_round-Calm again obj xs (some c, s) h i o = elim (Bool-cases (c == b'e')) [
  | inl e ↦ rw e h.1
  | inr e ↦ rw e (
      and_then-Calm (obj c (counted s)) _ (o c (counted s) h.0 h.1)
        (λ v s' hs. freeing-Calm v _ (i (append_freed v xs) s' hs)))
]

mutual
  unfolding read_obj read_items

  read_obj-Calm :
      (fuel p : ℕ) (s : Source) → (p == b'd') ≡ false → Dictless s.rest → Calm (read_obj fuel p s)
  read_obj-Calm zero p s no_dict h = tt
  read_obj-Calm (suc fuel) p s no_dict h =
      dispatch-Calm (read_items fuel) (read_fields fuel) (first_byte p s)
        (first_byte-Plain p s no_dict h) (λ t ht. read_items-Calm fuel nil t ht)

  read_items-Calm :
      (fuel : ℕ) (xs : Items) (s : Source) → Dictless s.rest → Calm (read_items fuel xs s)
  read_items-Calm zero xs s h = tt
  read_items-Calm (suc fuel) xs s h =
      item_round-Calm (read_items fuel) (read_obj fuel) xs (next_byte s)
        (next_byte-Plain s.rest s.read h) (λ ys t ht. read_items-Calm fuel ys t ht)
        (λ c t e ht. read_obj-Calm fuel c t e ht)

-- A call has come to its end: with a result, or with a fault.
abbrev pub Ended : {A : Type 0} → Outcome A → Type 0
Ended (got a s) = Unit
Ended crash = Unit
Ended looped = ⊥
Ended out_of_fuel = ⊥

Calm-Ended : {A : Type 0} (r : Outcome A) → Calm r → r ≢ out_of_fuel → Ended r
Calm-Ended (got a s) h e = tt
Calm-Ended crash h e = tt
Calm-Ended looped h e = h
Calm-Ended out_of_fuel h e = e refl

-- Reading an input that has no byte `d`, the sign of a dictionary, comes to its end, with a result or with a
-- fault: twice the bytes of the input and two more are enough rounds and calls, whatever the lengths and
-- the nesting of the lists in it are.
pub read_file-Ended :
    (fuel : ℕ) (input : Bytes)
    → 2 * length input + 2 ≤ fuel
    → Dictless input
    → Ended (read_file fuel input)
unfolding read_file
read_file-Ended fuel input h dictless =
    Calm-Ended (read_file fuel input)
      (read_obj-Calm fuel 0 (record { rest = input; read = count 0 }) refl dictless)
      (read_file-total fuel input h)
