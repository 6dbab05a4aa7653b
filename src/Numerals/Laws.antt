-- ===== src/Numerals/Laws.antt =====
-- What is printed as a number is read again.
use i2p_lite.Base.{
  ℕ, zero, suc, ◌+◌, ◌-◌, ◌*◌, ◌/◌, ◌%◌, ◌<◌, ◌≤◌, ◌^◌, ◌≡◌, refl, ap, ◌∙◌, true, false, [], ◌∷◌,
  ◌++◌, arith, inl, inr, Bool-cases,
}
use i2p_lite.Base.{Bytes, length, length-append, ltb, ◌==◌}
use native.Mathlib.Nat.{pow-suc}
use mathlib.Core.List.{append_assoc}
use i2p_lite.Numerals.{
  value, decimal_from, decimal, is_digit, is_space, atoi_digits, atoi_sign, atoi,
}

-- A text that begins with a digit.
abbrev StartsDigit : Bytes → Type 0
StartsDigit [] = ⊥
StartsDigit (c ∷ cs) = is_digit c ≡ true

append-StartsDigit : (xs ys : Bytes) → StartsDigit xs → StartsDigit (xs ++ ys)
append-StartsDigit [] ys h = elim h [ ]
append-StartsDigit (c ∷ cs) ys h = h

decimal_from-StartsDigit : (fuel n : ℕ) → n < fuel → StartsDigit (decimal_from fuel n)
unfolding decimal_from
decimal_from-StartsDigit zero n h = absurd (omega arith)
decimal_from-StartsDigit (suc fuel) n h = elim (Bool-cases (ltb n 10)) [
  | inl small ↦ rw small (let lt : n < 10 = ground arith in ground arith)
  | inr large ↦ rw large (
      let ge : 10 < suc n = ground arith in
      append-StartsDigit (decimal_from fuel (n / 10)) ((b'0' + n % 10) ∷ [])
        (decimal_from-StartsDigit fuel (n / 10) (omega arith)))
]

digit-read :
    (acc d : ℕ) (r : Bytes)
    → d < 10
    → atoi_digits acc ((b'0' + d) ∷ r) ≡ atoi_digits (acc * 10 + d) r
unfolding atoi_digits
digit-read acc d r h =
    let digit : is_digit (b'0' + d) ≡ true = ground arith in
    let val : (b'0' + d) - b'0' ≡ d = omega arith in rw (digit, val) refl

digits-read :
    (fuel n : ℕ) (r : Bytes) → n < fuel → atoi_digits 0 (decimal_from fuel n ++ r) ≡ atoi_digits n r
unfolding decimal_from
digits-read zero n r h = absurd (omega arith)
digits-read (suc fuel) n r h = elim (Bool-cases (ltb n 10)) [
  | inl small ↦ rw small (
      let lt : n < 10 = ground arith in
      let alone : 0 * 10 + n ≡ n = omega arith in
      digit-read 0 n r lt ∙ ap (λ k. atoi_digits k r) alone)
  | inr large ↦ rw large (
      let ge : 10 < suc n = ground arith in
      let again : n / 10 * 10 + n % 10 ≡ n = omega arith in
      let d : ℕ = b'0' + n % 10 in
      ap (atoi_digits 0) (append_assoc (decimal_from fuel (n / 10)) (d ∷ []) r)
      ∙ digits-read fuel (n / 10) (d ∷ r) (omega arith)
      ∙ digit-read (n / 10) (n % 10) r (omega arith)
      ∙ ap (λ k. atoi_digits k r) again)
]

atoi-digits : (cs : Bytes) → StartsDigit cs → atoi cs ≡ atoi_digits 0 cs
unfolding atoi atoi_sign
atoi-digits [] h = elim h [ ]
atoi-digits (c ∷ cs) h =
    let no_space : is_space c ≡ false = ground arith in
    let no_minus : (c == b'-') ≡ false = ground arith in
    let no_plus : (c == b'+') ≡ false = ground arith in rw (no_space, no_minus, no_plus) refl

-- The digits of a number that fits an `int`, with a byte behind them that is no digit.
pub atoi-decimal :
    (n c : ℕ) (r : Bytes) → n < 2 ^ 31 → is_digit c ≡ false → atoi (decimal n ++ (c ∷ r)) ≡ value n
unfolding decimal atoi_digits
atoi-decimal n c r small stop =
    let fits : ltb n (2 ^ 31) ≡ true = ground arith in
    atoi-digits (decimal_from (suc n) n ++ (c ∷ r)) (
      append-StartsDigit (decimal_from (suc n) n) (c ∷ r)
        (decimal_from-StartsDigit (suc n) n (omega arith)))
    ∙ digits-read (suc n) n (c ∷ r) (omega arith)
    ∙ rw (stop, fits) refl

length-decimal_from : (fuel k n : ℕ) → 0 < k → n < 10 ^ k → length (decimal_from fuel n) ≤ k
unfolding decimal_from
length-decimal_from zero k n some_k h = omega arith
length-decimal_from (suc fuel) zero n some_k h = absurd (omega arith)
length-decimal_from (suc fuel) (suc zero) n some_k h =
    let small : ltb n 10 ≡ true = ground arith in rw small (omega arith)
length-decimal_from (suc fuel) (suc (suc k)) n some_k h =
    let rest =
      length-decimal_from fuel (suc k) (n / 10) (omega arith) (omega (arith, pow-suc 10 (suc k))) in
    let whole = length-append (decimal_from fuel (n / 10)) ((b'0' + n % 10) ∷ []) in
    elim (Bool-cases (ltb n 10)) [
      | inl small ↦ rw small (omega arith)
      | inr large ↦ rw large (omega arith)
    ]

-- A number of at most `k` digits.
pub length-decimal : (k n : ℕ) → 0 < k → n < 10 ^ k → length (decimal n) ≤ k
unfolding decimal
length-decimal k n some_k h = length-decimal_from (suc n) k n some_k h
