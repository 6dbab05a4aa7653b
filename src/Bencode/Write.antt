-- ===== src/Bencode/Write.antt =====
-- mnet/bencode.c: writing an object to a stream.
use i2p_lite.Base.{ℕ, ◌+◌, ◌-◌, Bool, true, false, [], ◌∷◌, ◌++◌, Option, none, some}
use i2p_lite.Numerals.{decimal, decimal_int}
use i2p_lite.Base.{Bytes, ltb, leb, ◌==◌, if◌then◌else◌, length, take}
use i2p_lite.Bencode.{
  Obj, str, int, dict, list, Items, nil, item, lost, absent, Fields, end, field, ring,
}

-- `ctx->written` and `ctx->read`: a number of bytes, or -1. What is added to it is not 0 or it is
-- not -1.
pub data Count : Type 0 where
  count : ℕ → Count
  failed : Count

abbrev pub add : ℕ → Count → Count
add n (count m) = count (m + n)
add n failed = if n == 0 then failed else count (n - 1)

abbrev pub is_failed : Count → Bool
is_failed (count n) = false
is_failed failed = true

abbrev pub is_positive : Count → Bool
is_positive (count n) = ltb 0 n
is_positive failed = false

-- `bencode_obj_write_ctx_t`, with a stream that takes `room` more bytes, and what it has taken.
pub record Sink : Type 0 where
  pub room : ℕ
  pub out : Bytes
  pub written : Count

-- `fprintf`, `fputc`, or `fwrite` of single bytes: whether all of a text is taken.
unfoldable pub print : Bytes → Sink → Bool × Sink
print text s = (
  leb (length text) s.room,
  record s { room = s.room - length text; out = s.out ++ take s.room text },
)

-- Such a call, and what `_bencode_write` does with its result.
unfoldable pub emit : Bytes → Sink → Sink
emit text s =
    let (ok, s') = print text s in
    if ok
    then record s' { written = add (length text) s'.written }
    else record s' { written = failed }

-- `_bencode_write_string`: the number of bytes, or `none` for the return of -1.
unfoldable pub write_string : Bytes → Sink → Option ℕ × Sink
write_string k s =
    let size = decimal (length k) in
    let (ok1, s1) = print size s in
    let (ok2, s2) = print (b':' ∷ []) s1 in
    let (ok3, s3) = print k s2 in
    if ok1
    then (if ok2
        then (if length k == 0
            then (some (length size + 1), s2)
            else if ok3
            then (some (length size + 1 + length k), s3)
            else (none, s3))
        else (none, s2))
    else (none, s1)

-- What the callers of `_bencode_write_string` do with its result.
abbrev pub tally : Option ℕ × Sink → Sink
tally (none, s) = record s { written = failed }
tally (some n, s) = record s { written = add n s.written }

-- A fault is an access through NULL or to an object that has been freed, or the writing of a tied chain,
-- which does not end.
pub data Wrote : Type 0 where
  wrote : Sink → Wrote
  fault : Wrote

abbrev pub and_then : Wrote → (Sink → Wrote) → Wrote
and_then (wrote s) k = k s
and_then fault k = fault

-- `if(ctx->written == -1) return;`
abbrev pub unless_failed : Sink → Wrote → Wrote
unless_failed s r = if is_failed s.written then wrote s else r

-- `if(ctx->written > 0)` with the final `e`
abbrev pub close : Sink → Wrote
close s = wrote (if is_positive s.written then emit (b'e' ∷ []) s else s)

-- The sign of a dictionary or a list, its entries, and the final `e`.
abbrev pub enclosed : ℕ → (Sink → Wrote) → Sink → Wrote
enclosed sign entries s =
    let s' = emit (sign ∷ []) s in
    and_then (if (print (sign ∷ []) s).0 then entries s' else wrote s') close

-- What `_bencode_dict_write` does behind the key.
abbrev pub after_key : (Sink → Wrote) → Option ℕ × Sink → Wrote
after_key value (none, s) = wrote (record s { written = failed })
after_key value (some n, s) = value (record s { written = add n s.written })

-- `_bencode_write`, `bencode_obj_iter_dict` with `_bencode_dict_write`, and `bencode_obj_iter_list`
-- with `_bencode_list_write`, which the NULL of the last node is given to too.
unfoldable mutual
  pub write_obj : Obj → Sink → Wrote
  write_obj (str b) s = unless_failed s (wrote (tally (write_string b s)))
  write_obj (int i) s = unless_failed s (close (emit (b'i' ∷ decimal_int i) s))
  write_obj (dict fs) s = unless_failed s (enclosed b'd' (write_fields fs) s)
  write_obj (list xs) s = unless_failed s (enclosed b'l' (write_items xs) s)

  pub write_fields : Fields → Sink → Wrote
  write_fields end s = wrote s
  write_fields (ring j w k v) s = fault
  write_fields (field k v fs) s =
      and_then (after_key (write_obj v) (write_string k s)) (write_fields fs)

  pub write_items : Items → Sink → Wrote
  write_items nil s = unless_failed s fault
  write_items (item v xs) s = and_then (write_obj v s) (write_items xs)
  write_items (lost xs) s = and_then (unless_failed s fault) (write_items xs)
  write_items (absent xs) s = and_then (unless_failed s fault) (write_items xs)

-- `bencode_write_file` to a stream that takes `room` bytes
unfoldable pub write_file : Obj → (room : ℕ) → Wrote
write_file o room = write_obj o (record { room = room; out = []; written = count 0 })

-- `bencode_write_fd`: -1 if no stream can be opened for the descriptor.
abbrev pub write_fd : Obj → (stream : Option ℕ) → Wrote
write_fd o none = wrote (record { room = 0; out = []; written = failed })
write_fd o (some room) = write_file o room

-- `bencode_write_buffer` and its NULL
abbrev pub write_buffer : Obj → Count × Option Bytes
write_buffer o = (failed, none)
