-- ===== src/Encoding/Base32.antt =====
-- mnet/encoding.c: base 32 against its definition by bits.
use i2p_lite.Base.{
  ℕ, zero, suc, ◌+◌, ◌-◌, ◌*◌, ◌/◌, ◌%◌, ◌^◌, ◌≤◌, ◌<◌, ◌≡◌, refl, true, false, ◌||◌, List, [], ◌∷◌,
  ◌++◌, some, arith, sym, ap, ap₂, ◌∙◌, map, bit_and, bit_or, inl, inr, Bool-cases,
}
use i2p_lite.Base.Bits.{bit_and_31, bit_and_255, bit_or_join}
use i2p_lite.Base.{ltb, Bytes, AllBytes, length, take}
use i2p_lite.Encoding.{Pending, refill, base32_char, base32_loop, base32_encode}

-- The lowest `k` bits of a number, the highest first.
pub low_bits : ℕ → ℕ → List ℕ
low_bits zero t = []
low_bits (suc k) t = (t / 2 ^ k % 2) ∷ low_bits k t

-- The bits of a string of bytes.
pub bits_of : Bytes → List ℕ
bits_of [] = []
bits_of (b ∷ bs) = low_bits 8 b ++ bits_of bs

abbrev quintet : ℕ → ℕ → ℕ → ℕ → ℕ → ℕ
quintet a b c d e = a * 16 + b * 8 + c * 4 + d * 2 + e

-- The bits in groups of five, the last filled up with zeros.
pub quintets : List ℕ → List ℕ
quintets [] = []
quintets (a ∷ []) = quintet a 0 0 0 0 ∷ []
quintets (a ∷ b ∷ []) = quintet a b 0 0 0 ∷ []
quintets (a ∷ b ∷ c ∷ []) = quintet a b c 0 0 ∷ []
quintets (a ∷ b ∷ c ∷ d ∷ []) = quintet a b c d 0 ∷ []
quintets (a ∷ b ∷ c ∷ d ∷ e ∷ rest) = quintet a b c d e ∷ quintets rest

-- The reference: one character for each group of five bits.
pub base32_reference : Bytes → Bytes
base32_reference bs = map base32_char (quintets (bits_of bs))

-- The loop works on the bits that it holds and those that it has not read.
pub pending_bits : Pending → List ℕ
pending_bits p = low_bits p.bits p.tmp ++ bits_of p.rest

-- The five highest of the bits that are held make the next group.
take_five :
    (k t : ℕ) (ys : List ℕ)
    → k ≤ 7
    → quintets (low_bits (suc (suc (suc (suc (suc k))))) t ++ ys)
      ≡ t / 2 ^ k % 32 ∷ quintets (low_bits k t ++ ys)
unfolding quintets low_bits
take_five k t ys h = ap (λ v. v ∷ quintets (low_bits k t ++ ys)) (value k t h)
  where
    value :
        (k t : ℕ)
        → k ≤ 7
        → quintet
            (t / 2 ^ suc (suc (suc (suc k))) % 2)
            (t / 2 ^ suc (suc (suc k)) % 2)
            (t / 2 ^ suc (suc k) % 2)
            (t / 2 ^ suc k % 2)
            (t / 2 ^ k % 2)
          ≡ t / 2 ^ k % 32
    value zero t h = omega arith
    value (suc zero) t h = omega arith
    value (suc (suc zero)) t h = omega arith
    value (suc (suc (suc zero))) t h = omega arith
    value (suc (suc (suc (suc zero)))) t h = omega arith
    value (suc (suc (suc (suc (suc zero))))) t h = omega arith
    value (suc (suc (suc (suc (suc (suc zero)))))) t h = omega arith
    value (suc (suc (suc (suc (suc (suc (suc zero))))))) t h = omega arith
    value (suc (suc (suc (suc (suc (suc (suc (suc k)))))))) t h = absurd (omega arith)

abbrev shifted_in : ℕ → ℕ → ℕ
shifted_in tmp b = tmp % 2 ^ 24 * 256 + b

shift_in : (tmp b : ℕ) → b < 256 → bit_or (tmp * 2 ^ 8 % 2 ^ 32) (bit_and b 0xff) ≡ shifted_in tmp b
shift_in tmp b h = ground (arith, bit_and_255 b, bit_or_join 8 (tmp % 2 ^ 24) b)

abbrev and_eight : ℕ → ℕ
and_eight k = suc (suc (suc (suc (suc (suc (suc (suc k)))))))

bit-shift_in :
    (k tmp b : ℕ) → k ≤ 3 → b < 256 → shifted_in tmp b / 2 ^ and_eight k % 2 ≡ tmp / 2 ^ k % 2
bit-shift_in zero tmp b h small = omega arith
bit-shift_in (suc zero) tmp b h small = omega arith
bit-shift_in (suc (suc zero)) tmp b h small = omega arith
bit-shift_in (suc (suc (suc zero))) tmp b h small = omega arith
bit-shift_in (suc (suc (suc (suc k)))) tmp b h small = absurd (omega arith)

low_byte : (k x b : ℕ) → x % 2 ^ 8 ≡ b → k ≤ 8 → low_bits k x ≡ low_bits k b
unfolding low_bits
low_byte zero x b e h = refl
low_byte (suc k) x b e h = ap₂ ◌∷◌ (bit k h) (low_byte k x b e (omega arith))
  where
    bit : (k : ℕ) → suc k ≤ 8 → x / 2 ^ k % 2 ≡ b / 2 ^ k % 2
    bit zero h = omega arith
    bit (suc zero) h = omega arith
    bit (suc (suc zero)) h = omega arith
    bit (suc (suc (suc zero))) h = omega arith
    bit (suc (suc (suc (suc zero)))) h = omega arith
    bit (suc (suc (suc (suc (suc zero))))) h = omega arith
    bit (suc (suc (suc (suc (suc (suc zero)))))) h = omega arith
    bit (suc (suc (suc (suc (suc (suc (suc zero))))))) h = omega arith
    bit (suc (suc (suc (suc (suc (suc (suc (suc k)))))))) h = absurd (omega arith)

-- Reading a byte appends its bits.
low_bits-shift_in :
    (k tmp b : ℕ) (ys : List ℕ)
    → k ≤ 4
    → b < 256
    → low_bits (and_eight k) (shifted_in tmp b) ++ ys ≡ low_bits k tmp ++ (low_bits 8 b ++ ys)
unfolding low_bits
low_bits-shift_in zero tmp b ys h small =
    ap (λ bs. bs ++ ys) (low_byte 8 (shifted_in tmp b) b (omega arith) (omega arith))
low_bits-shift_in (suc k) tmp b ys h small =
    ap₂ ◌∷◌ (bit-shift_in k tmp b (omega arith) small)
      (low_bits-shift_in k tmp b ys (omega arith) small)

-- At the end of the input the bits that are left are filled up with zeros.
last_bits :
    (k tmp : ℕ)
    → 0 < k
    → k ≤ 4
    → quintets (low_bits k tmp ++ []) ≡ tmp * 2 ^ (5 - k) % 2 ^ 32 % 32 ∷ []
unfolding low_bits quintets
last_bits zero tmp pos h = absurd (omega arith)
last_bits (suc zero) tmp pos h = ground arith
last_bits (suc (suc zero)) tmp pos h = ground arith
last_bits (suc (suc (suc zero))) tmp pos h = ground arith
last_bits (suc (suc (suc (suc zero)))) tmp pos h = ground arith
last_bits (suc (suc (suc (suc (suc k))))) tmp pos h = absurd (omega arith)

-- The refilled state, with its five highest bits cut off.
abbrev advanced : Pending → Pending
advanced q = record { rest = q.rest; bits = q.bits - 5; tmp = q.tmp }

abbrev group_of : Pending → ℕ
group_of q = bit_and (q.tmp / 2 ^ (q.bits - 5)) 0x1f

take_round :
    (q : Pending)
    → 5 ≤ q.bits
    → q.bits ≤ 12
    → quintets (pending_bits q) ≡ group_of q ∷ quintets (pending_bits (advanced q))
unfolding pending_bits
take_round q lo hi =
    let k = q.bits - 5 in
    let e : q.bits ≡ suc (suc (suc (suc (suc k)))) = omega arith in
    let ys = bits_of q.rest in
    ap (λ n. quintets (low_bits n q.tmp ++ ys)) e
    ∙ take_five k q.tmp ys (omega arith)
    ∙ ap (λ v. v ∷ quintets (low_bits k q.tmp ++ ys)) (sym (bit_and_31 (q.tmp / 2 ^ k)))

-- Reading a byte leaves the pending bits as they are.
read_byte :
    (bits tmp b : ℕ) (rest : Bytes)
    → bits ≤ 4
    → b < 256
    → low_bits bits tmp ++ bits_of (b ∷ rest)
      ≡ pending_bits (record {
        rest = rest;
        bits = bits + 8;
        tmp = bit_or (tmp * 2 ^ 8 % 2 ^ 32) (bit_and b 0xff);
      })
unfolding pending_bits bits_of
read_byte bits tmp b rest h small =
    let eight : bits + 8 ≡ and_eight bits = omega arith in
    rw (shift_in tmp b small, eight) (sym (low_bits-shift_in bits tmp b (bits_of rest) h small))

abbrev filled : ℕ → ℕ → ℕ
filled bits tmp = tmp * 2 ^ (5 - bits) % 2 ^ 32

last_round :
    (bits tmp : ℕ)
    → 0 < bits
    → bits ≤ 4
    → quintets (low_bits bits tmp ++ bits_of [])
      ≡ bit_and (filled bits tmp / 2 ^ 0) 0x1f
        ∷ quintets (pending_bits (record { rest = []; bits = 0; tmp = filled bits tmp }))
unfolding pending_bits bits_of low_bits quintets
last_round bits tmp pos small =
    unfold bits_of in
    last_bits bits tmp pos small
    ∙ ap (λ v. v ∷ []) (omega (arith, bit_and_31 (filled bits tmp / 2 ^ 0)))

-- One round takes one group off the pending bits.
abbrev Takes : ℕ → ℕ → Bytes → Type 0
Takes bits tmp rest =
    quintets (low_bits bits tmp ++ bits_of rest)
    ≡ group_of (refill rest bits tmp) ∷ quintets (pending_bits (advanced (refill rest bits tmp)))

round-Takes :
    (bits tmp : ℕ) (rest : Bytes)
    → bits ≤ 8
    → AllBytes rest
    → (ltb 0 bits || ltb 0 (length rest)) ≡ true
    → Takes bits tmp rest
unfolding refill
round-Takes bits tmp [] h bytes more = elim (Bool-cases (ltb bits 5)) [
  | inl e ↦ rw e (last_round bits tmp (ground arith) (ground arith))
  | inr e ↦ rw e (
      unfold pending_bits in
      take_round (record { rest = []; bits = bits; tmp = tmp }) (ground arith) (omega arith))
]
round-Takes bits tmp (b ∷ rest) h bytes more = elim (Bool-cases (ltb bits 5)) [
  | inl e ↦ rw e (
      ap quintets (read_byte bits tmp b rest (ground arith) bytes.0)
      ∙ take_round _ (omega arith) (let small : bits < 5 = ground arith in omega arith))
  | inr e ↦ rw e (
      unfold pending_bits in
      take_round (record { rest = b ∷ rest; bits = bits; tmp = tmp }) (ground arith) (omega arith))
]

refill_bounds :
    (bits tmp : ℕ) (rest : Bytes)
    → bits ≤ 8
    → AllBytes rest
    → ((refill rest bits tmp).bits ≤ 12) × AllBytes (refill rest bits tmp).rest
unfolding refill
refill_bounds bits tmp [] h bytes = ground arith
refill_bounds bits tmp (b ∷ rest) h bytes = elim (Bool-cases (ltb bits 5)) [
  | inl e ↦ rw e (let small : bits < 5 = ground arith in omega arith, bytes.1)
  | inr e ↦ rw e (omega arith, bytes)
]

nothing_pending :
    (bits tmp : ℕ) (rest : Bytes)
    → (ltb 0 bits || ltb 0 (length rest)) ≡ false
    → quintets (low_bits bits tmp ++ bits_of rest) ≡ []
unfolding low_bits bits_of quintets
nothing_pending zero tmp [] h = refl
nothing_pending zero tmp (b ∷ rest) h = absurd (ground arith)
nothing_pending (suc bits) tmp rest h = absurd (ground arith)

-- From any state of the loop: the groups of the pending bits, as far as there is room.
base32_loop-quintets :
    (room : ℕ) (p : Pending)
    → p.bits ≤ 8
    → AllBytes p.rest
    → base32_loop room p ≡ take room (map base32_char (quintets (pending_bits p)))
unfolding base32_loop pending_bits
base32_loop-quintets zero p h bytes = refl
base32_loop-quintets (suc room) p h bytes =
    elim (Bool-cases (ltb 0 p.bits || ltb 0 (length p.rest))) [
      | inl more ↦
          let q = refill p.rest p.bits p.tmp in
          let keep = refill_bounds p.bits p.tmp p.rest h bytes in
          let ih = base32_loop-quintets room (advanced q) (omega (arith, keep.0)) keep.1 in
          rw more (
            ap (λ t. base32_char (group_of q) ∷ t) ih
            ∙ ap (λ (gs : List ℕ). take (suc room) (map base32_char gs))
                (sym (round-Takes p.bits p.tmp p.rest h bytes more)))
      | inr done ↦ rw (done, nothing_pending p.bits p.tmp p.rest done)
    ]

-- On an input that is not empty, the base 32 encoder writes the characters of the input's bits in
-- groups of five, the last group filled up with zeros, as far as the output buffer has room.
pub base32_encode-reference :
    (b : ℕ) (bs : Bytes) (out_len : ℕ)
    → AllBytes (b ∷ bs)
    → base32_encode (b ∷ bs) out_len ≡ some (take out_len (base32_reference (b ∷ bs)))
unfolding base32_encode base32_reference
base32_encode-reference b bs out_len h = ap some (
    unfold pending_bits bits_of in
    base32_loop-quintets out_len (record { rest = bs; bits = 8; tmp = b }) (omega arith) h.1)
