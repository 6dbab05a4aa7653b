-- ===== src/Bencode/Encode.antt =====
-- mnet/bencode.c: what is written, against the bencoding of an object.
use mathlib.Core.List.{append-nil, append_assoc}
use i2p_lite.Base.{
  ℕ, zero, suc, ◌+◌, ◌-◌, ◌≤◌, ◌<◌, ◌≡◌, refl, ap, true, false, [], ◌∷◌, ◌++◌, arith, inl, inr, ◌⊎◌,
  Bool-cases,
}
use i2p_lite.Base.{take-all, Bytes, leb, length, take, length-append}
use i2p_lite.Bencode.{Obj, str, int, dict, list, Fields, end, field, ring}
use i2p_lite.Bencode.Write.{count, failed, Sink, print, emit}
use i2p_lite.Numerals.{decimal, decimal_int}

-- The bencoding: strings with their length, integers and dictionaries with their signs.
unfoldable pub encode_str : Bytes → Bytes
encode_str b = decimal (length b) ++ (b':' ∷ b)

unfoldable mutual
  pub encode : Obj → Bytes
  encode (str b) = encode_str b
  encode (int i) = b'i' ∷ (decimal_int i ++ b'e' ∷ [])
  encode (dict fs) = b'd' ∷ (encode_fields fs ++ b'e' ∷ [])
  encode (list xs) = []

  pub encode_fields : Fields → Bytes
  encode_fields end = []
  encode_fields (ring j w k v) = []
  encode_fields (field k v fs) = encode_str k ++ (encode v ++ encode_fields fs)

-- An object that no list is part of.
unfoldable mutual
  pub Listless : Obj → Type 0
  Listless (str b) = Unit
  Listless (int i) = Unit
  Listless (dict fs) = ListlessFields fs
  Listless (list xs) = ⊥

  pub ListlessFields : Fields → Type 0
  ListlessFields end = Unit
  ListlessFields (ring j w k v) = ⊥
  ListlessFields (field k v fs) = Listless v × ListlessFields fs

-- A stream that takes more, and one that has failed and is full.
abbrev pub opened : ℕ → Bytes → ℕ → Sink
opened r o n = record { room = r; out = o; written = count n }

abbrev pub full : Bytes → Sink
full o = record { room = 0; out = o; written = failed }

pub data Sound : Sink → Type 0 where
  is_open : (r : ℕ) (o : Bytes) (n : ℕ) → Sound (opened r o n)
  is_full : (o : Bytes) → Sound (full o)

take-append_le : (n : ℕ) (xs ys : Bytes) → n ≤ length xs → take n (xs ++ ys) ≡ take n xs
take-append_le zero xs ys h = refl
take-append_le (suc n) [] ys h = absurd (omega arith)
take-append_le (suc n) (x ∷ xs) ys h = ap (λ t. x ∷ t) (take-append_le n xs ys (omega arith))

take-append :
    (n : ℕ) (xs ys : Bytes) → length xs ≤ n → take n (xs ++ ys) ≡ xs ++ take (n - length xs) ys
take-append n [] ys h = ap (λ k. take k ys) (omega arith)
take-append zero (x ∷ xs) ys h = absurd (omega arith)
take-append (suc n) (x ∷ xs) ys h =
    let e : suc n - suc (length xs) ≡ n - length xs = omega arith in
    rw e (ap (λ t. x ∷ t) (take-append n xs ys (omega arith)))

pub emit-fits :
    (t : Bytes) (r : ℕ) (o : Bytes) (n : ℕ)
    → length t ≤ r
    → emit t (opened r o n) ≡ opened (r - length t) (o ++ t) (n + length t)
unfolding emit print
emit-fits t r o n h =
    let ok : leb (length t) r ≡ true = ground arith in rw (ok, take-all r t h) refl

pub emit-short :
    (t : Bytes) (r : ℕ) (o : Bytes) (n : ℕ)
    → r < length t
    → emit t (opened r o n) ≡ full (o ++ take r t)
unfolding emit print
emit-short t r o n h =
    let ok : leb (length t) r ≡ false = ground arith in
    let none_left : r - length t ≡ 0 = omega arith in rw (ok, none_left) refl

pub emit-full : (t : Bytes) (o : Bytes) → emit t (full o) ≡ full o
unfolding emit print
emit-full [] o = rw append-nil refl
emit-full (x ∷ t) o =
    let ok : leb (suc (length t)) 0 ≡ false = ground arith in
    let none_left : 0 - suc (length t) ≡ 0 = omega arith in rw (ok, none_left, append-nil) refl

pub fits_or_not : (a b : ℕ) → (a ≤ b) ⊎ (b < a)
fits_or_not a b = elim (Bool-cases (leb a b)) [
  | inl e ↦ inl (ground arith)
  | inr e ↦ inr (ground arith)
]

pub emit-Sound : (t : Bytes) {s : Sink} → Sound s → Sound (emit t s)
emit-Sound t (is_full o) = rw (emit-full t o) (is_full o)
emit-Sound t (is_open r o n) = elim (fits_or_not (length t) r) [
  | inl h ↦ rw (emit-fits t r o n h) (is_open (r - length t) (o ++ t) (n + length t))
  | inr h ↦ rw (emit-short t r o n h) (is_full (o ++ take r t))
]

-- Two texts, one after the other, are as good as one.
pub emit-append : (t u : Bytes) {s : Sink} → Sound s → emit u (emit t s) ≡ emit (t ++ u) s
emit-append t u (is_full o) = rw (emit-full t o, emit-full u o, emit-full (t ++ u) o) refl
emit-append t u (is_open r o n) =
    let size = length-append t u in
    elim (fits_or_not (length t) r) [
      | inr h ↦
          rw
            (
              emit-short t r o n h,
              emit-full u (o ++ take r t),
              emit-short (t ++ u) r o n (omega arith),
              take-append_le r t u (omega arith),
            )
            refl
      | inl h ↦ rw (emit-fits t r o n h) (elim (fits_or_not (length u) (r - length t)) [
        | inl k ↦
            rw
              (
                emit-fits u (r - length t) (o ++ t) (n + length t) k,
                emit-fits (t ++ u) r o n (omega arith),
              )
              (ap₃ (omega arith) (append_assoc o t u) (omega arith))
        | inr k ↦
            rw
              (
                emit-short u (r - length t) (o ++ t) (n + length t) k,
                emit-short (t ++ u) r o n (omega arith),
                take-append r t u h,
              )
              (ap full (append_assoc o t (take (r - length t) u)))
      ])
    ]
  where
    ap₃ :
        {r1 r2 n1 n2 : ℕ} {o1 o2 : Bytes}
        → r1 ≡ r2
        → o1 ≡ o2
        → n1 ≡ n2
        → opened r1 o1 n1 ≡ opened r2 o2 n2
    ap₃ p q e = rw (p, q, e) refl
