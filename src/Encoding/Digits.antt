-- ===== src/Encoding/Digits.antt =====
-- The bit operations of mnet/encoding.c as arithmetic, and the two digit tables as inverses.
use i2p_lite.Base.{
  ℕ, ◌+◌, ◌*◌, ◌/◌, ◌%◌, ◌^◌, ◌<◌, ◌≡◌, refl, true, false, ◌&&◌, not, bit_and, bit_or, arith, ◌==◌,
  ==_iff, holds_below, holds_below-at,
}
use i2p_lite.Encoding.{
  t64, it64, digit1, digit2, digit3, digit4, last_digit2, last_digit3, byte1, byte2, byte3, p64,
}

-- `hi * 2 ^ k | lo` for a low part of `k` bits, over all bytes.
or4_table : holds_below 16 (λ hi. holds_below 16 (λ lo. bit_or (hi * 16) lo == hi * 16 + lo)) ≡ true
unfolding holds_below
or4_table = refl

or2_table : holds_below 64 (λ hi. holds_below 4 (λ lo. bit_or (hi * 4) lo == hi * 4 + lo)) ≡ true
unfolding holds_below
or2_table = refl

or6_table :
    holds_below 64 (λ hi. holds_below 64 (λ lo. bit_or lo (hi * 64) % 256 == hi % 4 * 64 + lo))
    ≡ true
unfolding holds_below
or6_table = refl

mask_table :
    holds_below 256 (λ a.
      (bit_and (a * 2 ^ 4) 0x30 % 256 == a % 4 * 16)
      && (bit_and (a * 2 ^ 4) 0x3f % 256 == a % 4 * 16)
      && (bit_and a 0x0f == a % 16)
      && (bit_and a 0x3f == a % 64))
    ≡ true
unfolding holds_below
mask_table = refl

pair_sound :
    (n m : ℕ) (p : ℕ → ℕ → ℕ) (q : ℕ → ℕ → ℕ) (x y : ℕ)
    → holds_below n (λ a. holds_below m (λ b. p a b == q a b)) ≡ true
    → x < n
    → y < m
    → p x y ≡ q x y
pair_sound n m p q x y t hx hy = (==_iff _ _).0 (
    holds_below-at m (λ b. p x b == q x b) y
      (holds_below-at n (λ a. holds_below m (λ b. p a b == q a b)) x t hx) hy)

or4 : (hi lo : ℕ) → hi < 16 → lo < 16 → bit_or (hi * 16) lo ≡ hi * 16 + lo
or4 hi lo = pair_sound 16 16 (λ a b. bit_or (a * 16) b) (λ a b. a * 16 + b) hi lo or4_table

or2 : (hi lo : ℕ) → hi < 64 → lo < 4 → bit_or (hi * 4) lo ≡ hi * 4 + lo
or2 hi lo = pair_sound 64 4 (λ a b. bit_or (a * 4) b) (λ a b. a * 4 + b) hi lo or2_table

or6 : (hi lo : ℕ) → hi < 64 → lo < 64 → bit_or lo (hi * 64) % 256 ≡ hi % 4 * 64 + lo
or6 hi lo =
    pair_sound 64 64 (λ a b. bit_or b (a * 64) % 256) (λ a b. a % 4 * 64 + b) hi lo or6_table

module _ (a : ℕ) (small : a < 256) where
  masks :
      (bit_and (a * 2 ^ 4) 0x30 % 256 ≡ a % 4 * 16)
      × (bit_and (a * 2 ^ 4) 0x3f % 256 ≡ a % 4 * 16)
      × (bit_and a 0x0f ≡ a % 16)
      × (bit_and a 0x3f ≡ a % 64)
  masks = ground (arith, holds_below-at 256 _ a mask_table small)

  pub digit1-eq : digit1 a ≡ a / 4
  unfolding digit1
  digit1-eq = refl

  pub digit4-eq : digit4 a ≡ a % 64
  unfolding digit4
  digit4-eq = masks.3

  pub last_digit2-eq : last_digit2 a ≡ a % 4 * 16
  unfolding last_digit2
  last_digit2-eq = masks.1

  pub last_digit3-eq : last_digit3 a ≡ a % 16 * 4
  unfolding last_digit3
  last_digit3-eq = ground (arith, masks)

module _ (a b : ℕ) (ha : a < 256) (hb : b < 256) where
  pub digit2-eq : digit2 a b ≡ a % 4 * 16 + b / 16
  unfolding digit2
  digit2-eq = ground (arith, masks a ha, or4 (a % 4) (b / 16))

  pub digit3-eq : digit3 a b ≡ a % 16 * 4 + b / 64
  unfolding digit3
  digit3-eq = ground (arith, masks a ha, or2 (a % 16) (b / 64))

  -- The second digit of a last group of two bytes.
  pub last_digit2_or : bit_or (last_digit2 a) (b / 16) ≡ a % 4 * 16 + b / 16
  last_digit2_or = ground (arith, last_digit2-eq a ha, or4 (a % 4) (b / 16))

module _ (d e : ℕ) (hd : d < 64) (he : e < 64) where
  pub byte1-eq : byte1 d e ≡ d * 4 + e / 16
  unfolding byte1
  byte1-eq = ground (arith, or2 d (e / 16))

  pub byte2-eq : byte2 d e ≡ d % 16 * 16 + e / 4
  unfolding byte2
  byte2-eq = ground (arith, or4 (d % 16) (e / 4))

  pub byte3-eq : byte3 d e ≡ d % 4 * 64 + e
  unfolding byte3
  byte3-eq = or6 d e hd he

tables : holds_below 64 (λ d. (it64 (t64 d) == d) && not (t64 d == p64)) ≡ true
unfolding holds_below it64 t64
tables = refl

pub it64-t64 : (d : ℕ) → d < 64 → it64 (t64 d) ≡ d
it64-t64 d h = ground (arith, holds_below-at 64 _ d tables h)

pub t64-ne-p64 : (d : ℕ) → d < 64 → (t64 d == p64) ≡ false
t64-ne-p64 d h = ground (arith, holds_below-at 64 _ d tables h)
