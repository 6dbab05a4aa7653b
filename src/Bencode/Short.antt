-- ===== src/Bencode/Short.antt =====
-- bencode_read_file of mnet/bencode.c: how long the keys are that it enters into a dictionary.
use i2p_lite.Base.{
  ℕ, zero, suc, ◌-◌, ◌*◌, ◌≤◌, ◌≡◌, true, [], ◌∷◌, Option, none, some, min, arith, inl, inr,
  Bool-cases, length-take,
}
use i2p_lite.Base.{Bytes, ◌==◌, length, take, drop}
use i2p_lite.Stdio.{fread, fread-one}
use i2p_lite.Bencode.{
  Obj, str, int, dict, list, Items, nil, Fields, end, field, ring, str_gt, Run, done, fault, tied,
  too_deep, ◌>>=◌, seek, dict_put, clone, depth, dict_set,
}
use i2p_lite.Bencode.Write.{Count, add, is_failed, is_positive}
use i2p_lite.Bencode.Read.{
  Source, Outcome, got, crash, looped, out_of_fuel, get_line, c_string, line_length, outside_line,
  number_buffer, read_data, read_sized, read_str, freeable, freeing, next_byte, first_byte, counted,
  with_obj, and_then, entered, enter, dispatch, after_key, field_round, read_obj, read_items,
  read_fields, read_file,
}
use i2p_lite.Numerals.{Atoi, value, negative, undefined, is_digit, atoi}

-- The keys of a dictionary have at most one byte; nothing is said of its values.
unfoldable pub ShortKeys : Fields → Type 0
ShortKeys end = Unit
ShortKeys (field k v fs) = (length k ≤ 1) × ShortKeys fs
ShortKeys (ring j w k v) = (length j ≤ 1) × (length k ≤ 1)

abbrev pub ShortDict : Option Obj → Type 0
ShortDict none = Unit
ShortDict (some (str b)) = Unit
ShortDict (some (int i)) = Unit
ShortDict (some (dict fs)) = ShortKeys fs
ShortDict (some (list xs)) = Unit

abbrev ShortData : Option Bytes → Type 0
ShortData none = Unit
ShortData (some b) = length b ≤ 1

-- What holds of what a call gives, if it gives anything.
abbrev pub Gives : {A : Type 0} → (A → Type 0) → Outcome A → Type 0
Gives P (got a s) = P a
Gives P crash = Unit
Gives P looped = Unit
Gives P out_of_fuel = Unit

abbrev RunGives : {A : Type 0} → (A → Type 0) → Run A → Type 0
RunGives P (done a) = P a
RunGives P fault = Unit
RunGives P tied = Unit
RunGives P too_deep = Unit

and_then-Gives :
    {A B : Type 0} (P : A → Type 0) (Q : B → Type 0) (r : Outcome A) (k : A → Source → Outcome B)
    → Gives P r
    → ((a : A) (s : Source) → P a → Gives Q (k a s))
    → Gives Q (and_then r k)
and_then-Gives P Q (got a s) k h next = next a s h
and_then-Gives P Q crash k h next = tt
and_then-Gives P Q looped k h next = tt
and_then-Gives P Q out_of_fuel k h next = tt

bind-RunGives :
    {A B : Type 0} (P : B → Type 0) (r : Run A) (k : A → Run B)
    → ((a : A) → RunGives P (k a))
    → RunGives P (r >>= k)
bind-RunGives P (done a) k h = h a
bind-RunGives P fault k h = tt
bind-RunGives P tied k h = tt
bind-RunGives P too_deep k h = tt

behind-RunGives :
    (j : Bytes) (w : Obj) (r : Run Fields)
    → length j ≤ 1
    → RunGives ShortKeys r
    → RunGives ShortKeys (r >>= λ fs. done (field j w fs))
unfolding ShortKeys
behind-RunGives j w (done fs) l h = (l, h)
behind-RunGives j w fault l h = tt
behind-RunGives j w tied l h = tt
behind-RunGives j w too_deep l h = tt

seek-RunGives :
    (fs : Fields) (k : Bytes) (v : Obj)
    → length k ≤ 1
    → ShortKeys fs
    → RunGives ShortKeys (seek fs k v)
unfolding seek ShortKeys
seek-RunGives end k v l h = tt
seek-RunGives (field j w fs) k v l h = elim (Bool-cases (str_gt j k)) [
  | inl e ↦ rw e (h.0, l)
  | inr e ↦ rw e (behind-RunGives j w (seek fs k v) h.0 (seek-RunGives fs k v l h.1))
]
seek-RunGives (ring j w i u) k v l h = elim (Bool-cases (str_gt j k)) [
  | inl e ↦ rw e (h.0, l)
  | inr e ↦
      rw e (elim (Bool-cases (str_gt i k)) [ inl e' ↦ rw e' (h.0, (h.1, l)) | inr e' ↦ rw e' tt ])
]

dict_put-RunGives :
    (fs : Fields) (k : Bytes) (v : Obj)
    → length k ≤ 1
    → ShortKeys fs
    → RunGives ShortKeys (dict_put fs k v)
unfolding dict_put ShortKeys
dict_put-RunGives end k v l h = (l, tt)
dict_put-RunGives (field j w fs) k v l h = elim (Bool-cases (str_gt j k)) [
  | inl e ↦ rw e (l, h)
  | inr e ↦ rw e (seek-RunGives (field j w fs) k v l h)
]
dict_put-RunGives (ring j w i u) k v l h = elim (Bool-cases (str_gt j k)) [
  | inl e ↦ rw e (l, h)
  | inr e ↦ rw e (seek-RunGives (ring j w i u) k v l h)
]

c_string-shorter : (b : Bytes) → length (c_string b) ≤ length b
unfolding c_string
c_string-shorter [] = omega arith
c_string-shorter (c ∷ cs) =
    let later = c_string-shorter cs in
    elim (Bool-cases (c == 0)) [ inl e ↦ rw e (omega arith) | inr e ↦ rw e (omega arith) ]

entered-Gives : (r : Run Fields) (s : Source) → RunGives ShortKeys r → Gives ShortKeys (entered r s)
entered-Gives (done fs) s h = h
entered-Gives fault s h = tt
entered-Gives tied s h = tt
entered-Gives too_deep s h = tt

enter-Gives :
    (fs : Fields) (k : Bytes) (v : Option Obj) (s : Source)
    → length k ≤ 1
    → ShortKeys fs
    → Gives ShortKeys (enter fs k v s)
unfolding enter dict_set
enter-Gives fs [] v s l h = tt
enter-Gives fs (c ∷ cs) none s l h = tt
enter-Gives fs (c ∷ cs) (some v) s l h =
    let shorter = c_string-shorter (c ∷ cs) in
    entered-Gives (dict_set fs (c_string (c ∷ cs)) v) s (
      bind-RunGives ShortKeys (clone (depth v) v) (λ w. dict_put fs (c_string (c ∷ cs)) w)
        (λ w. dict_put-RunGives fs (c_string (c ∷ cs)) w (omega arith) h))

-- A string is only read if it has at most one byte: `fread` gives the number of items, one.
read_sized-Gives : (a : Atoi) (s : Source) → Gives ShortData (read_sized a s)
unfolding read_data
read_sized-Gives (negative n) s = tt
read_sized-Gives undefined s = tt
read_sized-Gives (value sz) s = elim (Bool-cases (sz == 0)) [
  | inl e ↦ rw e (omega arith)
  | inr e ↦ rw e (elim (Bool-cases ((fread sz 1 s.rest).items == sz)) [
    | inl g ↦ rw g (one g)
    | inr g ↦ rw g tt
  ])
]
  where
    one : (fread sz 1 s.rest).items == sz ≡ true → length (take (sz * 1) s.rest) ≤ 1
    one g =
        let items = fread-one sz s.rest in
        let size : sz ≤ 1 = ground arith in
        let taken : length (take (sz * 1) s.rest) ≡ min (sz * 1) (length s.rest) =
          length-take (sz * 1) s.rest in
        omega arith

read_str-Gives : (p : ℕ) (s : Source) → Gives ShortData (read_str p s)
unfolding read_str
read_str-Gives p s = elim (Bool-cases (length s.rest == 0)) [
  | inl e ↦ rw e tt
  | inr e ↦ rw e (elim (Bool-cases (outside_line (line_length (get_line s.rest).0))) [
    | inl g ↦ rw g tt
    | inr g ↦ rw g (
        read_sized-Gives
          (atoi (
            drop 1
              (number_buffer p (take (line_length (get_line s.rest).0 - 1) (get_line s.rest).0))))
          (record {
            rest = (get_line s.rest).1;
            read = add (line_length (get_line s.rest).0) s.read;
          }))
  ])
]

freeing-Gives :
    {A : Type 0} (P : A → Type 0) (v : Option Obj) (r : Outcome A)
    → Gives P r
    → Gives P (freeing v r)
freeing-Gives P v r h = elim (Bool-cases (freeable v)) [ inl e ↦ rw e h | inr e ↦ rw e tt ]

after_key-Gives :
    (obj : Source → Outcome (Option Obj)) (fs : Fields) (k : Option Bytes) (s : Source)
    → ShortData k
    → ShortKeys fs
    → Gives ShortKeys (after_key obj fs k s)
after_key-Gives obj fs k s l h = elim (Bool-cases (is_failed s.read)) [
  | inl e ↦ rw e h
  | inr e ↦ rw e (
      and_then-Gives (λ v. Unit {0}) ShortKeys (obj s) _ (any (obj s))
        (λ v s' u. elim (Bool-cases (is_positive s'.read)) [
          | inl g ↦ rw g (
              and_then-Gives ShortKeys ShortKeys
                (elim k [ none ↦ crash | some b ↦ enter fs b v s' ]) _ (entry k v s' l)
                (λ fs' s'' h'. freeing-Gives ShortKeys v (got fs' s'') h'))
          | inr g ↦ rw g (freeing-Gives ShortKeys v (got fs s') h)
        ]))
]
  where
    any : {A : Type 0} (r : Outcome A) → Gives (λ v. Unit {0}) r
    any (got a s) = tt
    any crash = tt
    any looped = tt
    any out_of_fuel = tt

    entry :
        (k : Option Bytes) (v : Option Obj) (s' : Source)
        → ShortData k
        → Gives ShortKeys (elim k [ none ↦ crash | some b ↦ enter fs b v s' ])
    entry none v s' l = tt
    entry (some b) v s' l = enter-Gives fs b v s' l h

field_round-Gives :
    (again : Fields → Source → Outcome Fields) (obj : Source → Outcome (Option Obj))
    → (fs : Fields) (p : Option ℕ × Source) → ShortKeys fs
    → ((gs : Fields) (s : Source) → ShortKeys gs → Gives ShortKeys (again gs s))
    → Gives ShortKeys (field_round again obj fs p)
field_round-Gives again obj fs (none, s) h more = h
field_round-Gives again obj fs (some c, s) h more = elim (Bool-cases (c == b'e')) [
  | inl e ↦ rw e h
  | inr e ↦ rw e (
      and_then-Gives ShortData ShortKeys (read_str c (counted s)) _ (read_str-Gives c (counted s))
        (λ k s' l.
          and_then-Gives ShortKeys ShortKeys (after_key obj fs k s') _
            (after_key-Gives obj fs k s' l h) (λ gs s'' hs. more gs s'' hs)))
]

read_fields-Gives :
    (fuel : ℕ) (fs : Fields) (s : Source) → ShortKeys fs → Gives ShortKeys (read_fields fuel fs s)
unfolding read_fields
read_fields-Gives zero fs s h = tt
read_fields-Gives (suc fuel) fs s h =
    field_round-Gives (read_fields fuel) (read_obj fuel 0) fs (next_byte s) h
      (λ gs t hs. read_fields-Gives fuel gs t hs)

dict-Gives : (r : Outcome Fields) → Gives ShortKeys r → Gives ShortDict (with_obj dict r)
dict-Gives (got fs s) h = h
dict-Gives crash h = tt
dict-Gives looped h = tt
dict-Gives out_of_fuel h = tt

list-Gives : (r : Outcome Items) → Gives ShortDict (with_obj list r)
list-Gives (got xs s) = tt
list-Gives crash = tt
list-Gives looped = tt
list-Gives out_of_fuel = tt

data-Gives :
    (r : Outcome (Option Bytes))
    → Gives ShortDict (and_then r (λ b s'. got (elim b [ none ↦ none | some d ↦ some (str d) ]) s'))
data-Gives (got none s) = tt
data-Gives (got (some d) s) = tt
data-Gives crash = tt
data-Gives looped = tt
data-Gives out_of_fuel = tt

dispatch-Gives :
    (fuel : ℕ) (c : Option ℕ) (s : Source)
    → Gives ShortDict (dispatch (read_items fuel) (read_fields fuel) c s)
unfolding ShortKeys
dispatch-Gives fuel none s = tt
dispatch-Gives fuel (some c) s = elim (Bool-cases (c == b'l')) [
  | inl e ↦ rw e (list-Gives (read_items fuel nil s))
  | inr e ↦ rw e (elim (Bool-cases (c == b'd')) [
    | inl g ↦ rw g (dict-Gives (read_fields fuel end s) (read_fields-Gives fuel end s tt))
    | inr g ↦ rw g (elim (Bool-cases (is_digit c)) [
      | inl d ↦ rw d (data-Gives (read_str c s))
      | inr d ↦ rw d tt
    ])
  ])
]

-- Whatever the input is, a dictionary that is read from it has keys of at most one byte.
pub read_file-ShortDict : (fuel : ℕ) (input : Bytes) → Gives ShortDict (read_file fuel input)
unfolding read_file read_obj
read_file-ShortDict zero input = tt
read_file-ShortDict (suc fuel) input =
    let start : Source = record { rest = input; read = Count.count 0 } in
    dispatch-Gives fuel (first_byte 0 start).0 (first_byte 0 start).1
