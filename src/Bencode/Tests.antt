-- ===== src/Bencode/Tests.antt =====
-- Runs of mnet/bencode.c, and the theorems about it at concrete objects.
use i2p_lite.Base.{ℕ, ◌≡◌, refl, [], ◌∷◌, some, arith, pos}
use i2p_lite.Base.{Bytes, codes}
use i2p_lite.Bencode.{
  Obj, Fields, str, int, end, field, ring, done, fault, dict_set, clone, depth, dict_put, seek,
  free,
}
use i2p_lite.Bencode.Read.{
  enter, number_buffer, get_line, c_string, read_str, read_obj, read_file, got, crash, looped,
  read_data,
}
use i2p_lite.Numerals.{decimal, atoi_digits, atoi_sign, atoi}
use i2p_lite.Bencode.Write.{count}
use i2p_lite.Bencode.Dict.{Before, here, there, chain, dict_set-str}
use i2p_lite.Bencode.Calm.{Ended, Dictless, read_file-Ended}

test_decimal : decimal 1204 ≡ codes "1204"
unfolding decimal
test_decimal = refl

test_read_hello :
    read_file 20 (codes "5:hello")
    ≡ got (some (str [])) (record { rest = codes "hello"; read = count 2 })
unfolding read_file read_obj read_str c_string get_line atoi number_buffer atoi_sign atoi_digits
test_read_hello = refl

test_read_key : read_file 20 (codes "d3:0:e") ≡ crash
unfolding read_file read_obj read_str c_string get_line atoi number_buffer atoi_sign atoi_digits
    enter
test_read_key = refl

-- A dictionary {"b": 1}.
abbrev one_field : Fields
one_field = field (codes "b") (int (pos 1)) end

abbrev entry : ℕ → Bytes × Obj
entry c = (c ∷ [], int (pos 1))

dict_set-str_example :
    (dict_set one_field (codes "a") (str []) ≡ done (field (codes "a") (str []) one_field))
    × (dict_set (chain (entry b'a' ∷ []) end) (codes "a") (str []) ≡ fault)
    × (dict_set (chain (entry b'a' ∷ []) one_field) (codes "a") (str [])
        ≡ done (chain (entry b'a' ∷ []) (ring (codes "b") (int (pos 1)) (codes "a") (str []))))
dict_set-str_example =
    dict_set-str (entry b'a') [] (codes "b") (int (pos 1)) end (codes "a") [] (not_before, tt)
      (here (omega arith))
  where
    not_before : ¬ Before (codes "a") (codes "a")
    not_before (here h) = absurd (omega arith)
    not_before (there e h) = nothing h
      where
        nothing : ¬ Before [] []
        nothing h = elim h [ ]

-- The second key is greater than the third: the chain is tied. The fourth goes round it for ever.
test_tied : read_file 40 (codes "d01:c00:01:b00:01:b00:01:d00:e") ≡ looped
unfolding read_file read_obj read_str c_string get_line atoi number_buffer atoi_sign atoi_digits
    enter dict_set clone depth dict_put seek read_data free
test_tied = refl

-- A list with a list and a string in it.
read_file-Ended_example : Ended (read_file 20 (codes "ll0:e0:e"))
read_file-Ended_example = read_file-Ended 20 (codes "ll0:e0:e") (omega arith) dictless
  where
    dictless : Dictless (codes "ll0:e0:e")
    dictless = (refl, (refl, (refl, (refl, (refl, (refl, (refl, (refl, tt))))))))
