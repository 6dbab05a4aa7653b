-- ===== src/Stdio.antt =====
-- The C library's buffered streams, as far as the sources use them: `fread` and `fwrite` return the
-- number of whole items that they moved, not of bytes. A stream to read is the bytes that are left;
-- a stream to write takes `room` more bytes before it fails.
use native.Mathlib.Nat.{div-le_of_le-mul}
use i2p_lite.Base.{ℕ, ◌*◌, ◌/◌, ◌≤◌, ◌≡◌, min, arith, length-take}
use i2p_lite.Base.{Bytes, length, take, drop}

pub record Read : Type 0 where
  pub items : ℕ
  pub got : Bytes
  pub rest : Bytes

pub record Written : Type 0 where
  pub items : ℕ
  pub out : Bytes

-- `fread(buf, size, count, f)`
abbrev pub fread : (size count : ℕ) → Bytes → Read
fread size count input = record {
  items = length (take (size * count) input) / size;
  got = take (size * count) input;
  rest = drop (size * count) input;
}

-- `fwrite(bytes, size, count, f)`
abbrev pub fwrite : Bytes → (size count room : ℕ) → Written
fwrite bytes size count room = record {
  items = length (take room (take (size * count) bytes)) / size;
  out = take room (take (size * count) bytes);
}

-- Of one item, at most one is moved, whatever its size is.
pub fread-one : (size : ℕ) (input : Bytes) → (fread size 1 input).items ≤ 1
fread-one size input =
    let some_of : length (take (size * 1) input) ≡ min (size * 1) (length input) =
      length-take (size * 1) input in
    div-le_of_le-mul size (omega arith)
