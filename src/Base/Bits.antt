-- ===== src/Base/Bits.antt =====
-- `bit_and` and `bit_or` at variables: a mask of low bits, and the join of two disjoint fields.
use Prim.Native.Nat.{
  ℕ, zero, suc, ◌+◌, ◌*◌, ◌/◌, ◌%◌, ◌^◌, ◌≤◌, ◌<◌, min, max, digits, bit_and, bit_or,
  bit_and-bitwise, bit_or-bitwise,
}
use mathlib.Core.Path.{◌≡◌, refl, sym, ap, ◌∙◌}
use native.Mathlib.Nat.{pow-suc}
use native.Mathlib.Omega.{arith}

module _ (rest : ℕ → ℕ) (digit : ℕ → ℕ → ℕ) where
  -- Any count of digits that the number does not exceed gives one result.
  digits_stable : (n m a b : ℕ) → a ≤ n → a ≤ m → digits rest digit n a b ≡ digits rest digit m a b
  digits_stable n m zero b hn hm = digits_zero n ∙ sym (digits_zero m)
    where
      digits_zero : (k : ℕ) → digits rest digit k 0 b ≡ rest b
      digits_zero zero = refl
      digits_zero (suc k) = refl
  digits_stable zero m (suc a) b hn hm = absurd (omega arith)
  digits_stable (suc n) zero (suc a) b hn hm = absurd (omega arith)
  digits_stable (suc n) (suc m) (suc a) b hn hm =
      let below = digits_stable n m (suc a / 2) (b / 2) (omega arith) (omega arith) in
      ap (λ (t : ℕ). t * 2 + digit (suc a % 2) (b % 2)) below

and_zero_left : (b : ℕ) → bit_and 0 b ≡ 0
and_zero_left b = bit_and-bitwise 0 b

or_zero_left : (b : ℕ) → bit_or 0 b ≡ b
or_zero_left b = bit_or-bitwise 0 b

and_lowest : (a b : ℕ) → bit_and a b ≡ bit_and (a / 2) (b / 2) * 2 + min (a % 2) (b % 2)
and_lowest zero b = omega (arith, and_zero_left b, and_zero_left (b / 2))
and_lowest (suc a) b =
    let half = suc a / 2 in
    let stable = digits_stable (λ c. 0) min a half half (b / 2) (omega arith) (omega arith) in
    omega (arith, stable, bit_and-bitwise half (b / 2), bit_and-bitwise (suc a) b)

or_lowest : (a b : ℕ) → bit_or a b ≡ bit_or (a / 2) (b / 2) * 2 + max (a % 2) (b % 2)
or_lowest zero b = omega (arith, or_zero_left b, or_zero_left (b / 2))
or_lowest (suc a) b =
    let half = suc a / 2 in
    let stable = digits_stable (λ c. c) max a half half (b / 2) (omega arith) (omega arith) in
    omega (arith, stable, bit_or-bitwise half (b / 2), bit_or-bitwise (suc a) b)

and_zero_right : (n a : ℕ) → a ≤ n → bit_and a 0 ≡ 0
and_zero_right n zero h = and_zero_left 0
and_zero_right zero (suc a) h = absurd (omega arith)
and_zero_right (suc n) (suc a) h =
    omega (arith, and_lowest (suc a) 0, and_zero_right n (suc a / 2) (omega arith))

or_zero_right : (n a : ℕ) → a ≤ n → bit_or a 0 ≡ a
or_zero_right n zero h = or_zero_left 0
or_zero_right zero (suc a) h = absurd (omega arith)
or_zero_right (suc n) (suc a) h =
    omega (arith, or_lowest (suc a) 0, or_zero_right n (suc a / 2) (omega arith))

-- `a & (2 ^ k - 1)` for the masks of the source.
and_three : (a : ℕ) → bit_and a 3 ≡ a % 4
and_three a = omega (
  arith,
  and_lowest a 3,
  and_lowest (a / 2) 1,
  and_zero_right (a / 2 / 2) (a / 2 / 2) (omega arith),
)

pub bit_and_31 : (a : ℕ) → bit_and a 0x1f ≡ a % 32
bit_and_31 a = omega (
  arith,
  and_lowest a 31,
  and_lowest (a / 2) 15,
  and_lowest (a / 2 / 2) 7,
  and_three (a / 2 / 2 / 2),
)

pub bit_and_255 : (a : ℕ) → bit_and a 0xff ≡ a % 256
bit_and_255 a = omega (
  arith,
  and_lowest a 255,
  and_lowest (a / 2) 127,
  and_lowest (a / 2 / 2) 63,
  bit_and_31 (a / 2 / 2 / 2),
)

-- `(q << k) | r` where `r` has at most `k` bits.
pub bit_or_join : (k q r : ℕ) → r < 2 ^ k → bit_or (q * 2 ^ k) r ≡ q * 2 ^ k + r
bit_or_join zero q r h = ground (arith, or_zero_right q q)
bit_or_join (suc k) q r h =
    let twice : q * 2 ^ suc k ≡ 2 * (q * 2 ^ k) =
      omega (arith, ap (λ (t : ℕ). q * t) (pow-suc 2 k)) in
    ground (arith, or_lowest (q * 2 ^ suc k) r, pow-suc 2 k, bit_or_join k q (r / 2))
