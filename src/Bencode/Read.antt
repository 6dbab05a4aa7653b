-- ===== src/Bencode/Read.antt =====
-- mnet/bencode.c: reading an object from a stream.
use i2p_lite.Base.{ℕ, zero, suc, ◌-◌, ◌%◌, ◌^◌, ◌||◌, Bool, true, [], ◌∷◌, ◌++◌, Option, none, some}
use i2p_lite.Base.{Bytes, leb, ◌==◌, if◌then◌else◌, length, take, drop, replicate}
use i2p_lite.Stdio.{fread}
use i2p_lite.Numerals.{Atoi, value, negative, undefined, is_digit, atoi}
use i2p_lite.Bencode.{
  Obj, str, dict, list, Items, nil, item, lost, absent, Fields, end, Run, done, fault, tied,
  too_deep, free, dict_set,
}
use i2p_lite.Bencode.Write.{Count, count, failed, add, is_failed, is_positive}

-- `bencode_obj_read_ctx_t`: the bytes that are left in the stream, and `read`.
pub record Source : Type 0 where
  pub rest : Bytes
  pub read : Count

abbrev pub fail : Source → Source
fail s = record { rest = s.rest; read = failed }

-- What a call leaves. `crash` is an access outside of an object or to NULL, and `looped` is a call
-- of `bencode_obj_dict_set` that goes round a tied chain and does not return.
pub data Outcome (A : Type 0) : Type 0 where
  got : A → Source → Outcome A
  crash looped out_of_fuel : Outcome A

-- `getdelim(&line, &n, ':', f)` of a stream that is not at its end: up to the delimiter, if there is
-- one, and what is left.
unfoldable pub get_line : Bytes → Bytes × Bytes
get_line [] = ([], [])
get_line (c ∷ cs) =
    let (line, rest) = get_line cs in if c == b':' then (c ∷ [], cs) else (c ∷ line, rest)

-- The bytes of an object as a C string.
unfoldable pub c_string : Bytes → Bytes
c_string [] = []
c_string (c ∷ cs) = if c == 0 then [] else c ∷ c_string cs

-- `numbuf`: the prefix, and the line behind it. `strncpy` fills up with zeros.
unfoldable pub number_buffer : (prefix : ℕ) → Bytes → Bytes
number_buffer prefix line = prefix ∷ take 31 (line ++ replicate 31 0)

-- The data of a string of `sz` bytes: `fread` is asked for one item, and its result is compared with
-- the number of bytes.
unfoldable pub read_data : ℕ → Source → Outcome (Option Bytes)
read_data sz s =
    let r = fread sz 1 s.rest in
    if r.items == sz
    then got (some r.got) (record { rest = r.rest; read = add sz s.read })
    else got none (record { rest = r.rest; read = failed })

-- What `_bencode_read_str` does with its number.
abbrev pub read_sized : Atoi → Source → Outcome (Option Bytes)
read_sized (value sz) s = if sz == 0 then got (some []) s else read_data sz s
read_sized (negative n) s = got none (fail s)
read_sized undefined s = crash

-- `int slen = strlen(line)`, by its bit pattern, and whether the write in front of it is outside of the
-- line.
abbrev pub line_length : Bytes → ℕ
line_length line = length (c_string line) % 2 ^ 32

abbrev pub outside_line : ℕ → Bool
outside_line slen = (slen == 0) || leb (2 ^ 31) slen

-- `_bencode_read_str`: the bytes of the string, if there is one. `line[slen-sizeof(char)] = 0` is
-- written in front of the line if `slen` is 0 or negative, as it is if the line begins with NUL. `strncpy` returns where it has copied to,
-- behind the prefix, and this is what `atoi` reads.
unfoldable pub read_str : (prefix : ℕ) → Source → Outcome (Option Bytes)
read_str prefix s =
    let (line, rest) = get_line s.rest in
    let slen = line_length line in
    let num = drop 1 (number_buffer prefix (take (slen - 1) line)) in
    if length s.rest == 0
    then got none (fail s)
    else if outside_line slen
    then crash
    else read_sized (atoi num) (record { rest = rest; read = add slen s.read })

-- An object that is appended and then freed, or NULL, at the end of a list.
unfoldable pub append_freed : Option Obj → Items → Items
append_freed none nil = absent nil
append_freed (some o) nil = lost nil
append_freed o (item v xs) = item v (append_freed o xs)
append_freed o (lost xs) = lost (append_freed o xs)
append_freed o (absent xs) = absent (append_freed o xs)

-- `fgetc`
abbrev pub next_byte : Source → Option ℕ × Source
next_byte s = elim s.rest [ [] ↦ (none, s) | c ∷ cs ↦ (some c, record s { rest = cs }) ]

abbrev pub counted : Source → Source
counted s = record s { read = add 1 s.read }

-- `if(prefix) c = prefix; else { c = fgetc(ctx->f); ctx->read += sizeof(char); }`
abbrev pub first_byte : (prefix : ℕ) → Source → Option ℕ × Source
first_byte zero s = let (c, s') = next_byte s in (c, counted s')
first_byte (suc p) s = (some (suc p), s)

abbrev pub with_obj : {A : Type 0} → (A → Obj) → Outcome A → Outcome (Option Obj)
with_obj f (got a s) = got (some (f a)) s
with_obj f crash = crash
with_obj f looped = looped
with_obj f out_of_fuel = out_of_fuel

abbrev pub and_then : {A B : Type 0} → Outcome A → (A → Source → Outcome B) → Outcome B
and_then (got a s) k = k a s
and_then crash k = crash
and_then looped k = looped
and_then out_of_fuel k = out_of_fuel

-- The end of a dictionary's entry: the key is a C string, and NULL if it is empty.
abbrev pub entered : Run Fields → Source → Outcome Fields
entered (done fs) s = got fs s
entered fault s = crash
entered tied s = looped
entered too_deep s = out_of_fuel

unfoldable pub enter : Fields → Bytes → Option Obj → Source → Outcome Fields
enter fs [] v s = crash
enter fs (c ∷ cs) none s = crash
enter fs (c ∷ cs) (some v) s = entered (dict_set fs (c_string (c ∷ cs)) v) s

-- What `_bencode_read` does with its first byte, given the loops for a list and a dictionary.
abbrev pub dispatch :
    (items : Items → Source → Outcome Items) (fields : Fields → Source → Outcome Fields)
    → Option ℕ
    → Source
    → Outcome (Option Obj)
dispatch items fields none s = got none (fail s)
dispatch items fields (some c) s =
    if c == b'l'
    then with_obj list (items nil s)
    else if c == b'd'
    then with_obj dict (fields end s)
    else if is_digit c
    then and_then (read_str c s) (λ b s'. got (elim b [ none ↦ none | some d ↦ some (str d) ]) s')
    else got none (fail s)

-- `if(v) bencode_obj_free(&v)`, and what goes on behind it.
abbrev pub freeable : Option Obj → Bool
freeable none = true
freeable (some o) = free o

abbrev pub freeing : {A : Type 0} → Option Obj → Outcome A → Outcome A
freeing v more = if freeable v then more else crash

-- A round of the loop for a list: the first byte of an item, and what comes then.
abbrev pub item_round :
    (again : Items → Source → Outcome Items) (read_item : ℕ → Source → Outcome (Option Obj))
    → Items
    → Option ℕ × Source
    → Outcome Items
item_round again read_item xs (none, s) = got xs (fail s)
item_round again read_item xs (some c, s) =
    if c == b'e'
    then got xs s
    else and_then (read_item c (counted s)) (λ v s'. freeing v (again (append_freed v xs) s'))

-- `_bencode_read_dict_item` behind the key
abbrev pub after_key :
    (read_value : Source → Outcome (Option Obj)) → Fields → Option Bytes → Source → Outcome Fields
after_key read_value fs k s =
    if is_failed s.read
    then got fs s
    else and_then (read_value s) (λ v s'.
      if is_positive s'.read
      then and_then (elim k [ none ↦ crash | some b ↦ enter fs b v s' ])
          (λ fs' s''. freeing v (got fs' s''))
      else freeing v (got fs s'))

abbrev pub field_round :
    (again : Fields → Source → Outcome Fields) (read_value : Source → Outcome (Option Obj))
    → Fields
    → Option ℕ × Source
    → Outcome Fields
field_round again read_value fs (none, s) = got fs (fail s)
field_round again read_value fs (some c, s) =
    if c == b'e'
    then got fs s
    else and_then (read_str c (counted s))
        (λ k s'. and_then (after_key read_value fs k s') (λ fs' s''. again fs' s''))

-- `_bencode_read`, and its loops for a list and for a dictionary. Twice the bytes of the stream and
-- two more are enough fuel.
unfoldable mutual
  pub read_obj : ℕ → (prefix : ℕ) → Source → Outcome (Option Obj)
  read_obj zero prefix s = out_of_fuel
  read_obj (suc fuel) prefix s =
      let (c, s') = first_byte prefix s in dispatch (read_items fuel) (read_fields fuel) c s'

  pub read_items : ℕ → Items → Source → Outcome Items
  read_items zero xs s = out_of_fuel
  read_items (suc fuel) xs s = item_round (read_items fuel) (read_obj fuel) xs (next_byte s)

  pub read_fields : ℕ → Fields → Source → Outcome Fields
  read_fields zero fs s = out_of_fuel
  read_fields (suc fuel) fs s = field_round (read_fields fuel) (read_obj fuel 0) fs (next_byte s)

-- `bencode_read_file`: the object that `*o` points to, the stream and the result.
unfoldable pub read_file : ℕ → Bytes → Outcome (Option Obj)
read_file fuel input = read_obj fuel 0 (record { rest = input; read = count 0 })

-- `bencode_read_fd`: -1 if no stream can be opened for the descriptor.
abbrev pub read_fd : ℕ → (stream : Option Bytes) → Outcome (Option Obj)
read_fd fuel none = got none (record { rest = []; read = failed })
read_fd fuel (some input) = read_file fuel input
