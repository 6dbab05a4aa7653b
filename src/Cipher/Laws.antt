-- ===== src/Cipher/Laws.antt =====
-- mnet/chacha.c: what the cipher does with a message of 2048 bytes.
use i2p_lite.Base.{
  ◌+◌, ◌≡◌, ◌↔◌, sym, subst, ap, ◌∙◌, ◌++◌, some, arith, length-take, length-drop, length-append,
  take-front, drop-front, drop-drop, take-drop, take-length, drop-length,
}
use mathlib.Core.List.{append_assoc, append-nil, []}
use i2p_lite.Base.{Bytes, length, take, drop}
use i2p_lite.Cipher.{
  Aead, Documented, ChaCha, read_at, store_at, decrypt, encrypt, message_size, tunnel_data_size,
}

-- A message in its four parts.
module _ (m n t b : Bytes) (lm : length m ≡ 16) (ln : length n ≡ 12) (lt : length t ≡ 4)
    (lb : length b ≡ 2016) where
  abbrev whole : Bytes
  whole = m ++ (n ++ (t ++ b))

  behind_mac : drop 16 whole ≡ n ++ (t ++ b)
  behind_mac = drop-front 16 m (n ++ (t ++ b)) lm

  behind_nonce : drop 28 whole ≡ t ++ b
  behind_nonce = sym (drop-drop 16 12 whole) ∙ ap (drop 12) behind_mac ∙ drop-front 12 n (t ++ b) ln

  behind_id : drop 32 whole ≡ b
  behind_id = sym (drop-drop 28 4 whole) ∙ ap (drop 4) behind_nonce ∙ drop-front 4 t b lt

  read_mac : read_at 0 16 whole ≡ m
  read_mac = take-front 16 m (n ++ (t ++ b)) lm

  read_nonce : read_at 16 12 whole ≡ n
  read_nonce = ap (take 12) behind_mac ∙ take-front 12 n (t ++ b) ln

  read_id : read_at 28 4 whole ≡ t
  read_id = ap (take 4) behind_nonce ∙ take-front 4 t b lt

  read_block : read_at 32 2016 whole ≡ b
  read_block = ap (take 2016) behind_id ∙ subst (λ k. take k b ≡ b) lb (take-length b)

  front_parts : (c : Bytes) → m ++ (n ++ (t ++ c)) ≡ (m ++ (n ++ t)) ++ c
  front_parts c = ap (λ r. m ++ r) (sym (append_assoc n t c)) ∙ sym (append_assoc m (n ++ t) c)

  front_size : length (m ++ (n ++ t)) ≡ 32
  front_size = rw (length-append m (n ++ t), length-append n t, lm, ln, lt)

  parts_size : length whole ≡ 2048
  parts_size = ap length (front_parts b) ∙ length-append (m ++ (n ++ t)) b ∙ rw (front_size, lb)

  -- The nonce and the tunnel id, which are neither encrypted nor replaced.
  read_header : read_at 16 16 whole ≡ n ++ t
  read_header =
      let size : length (n ++ t) ≡ 16 = length-append n t ∙ rw (ln, lt) in
      ap (take 16) (behind_mac ∙ sym (append_assoc n t b)) ∙ take-front 16 (n ++ t) b size

  -- The block is written behind the other parts.
  write_block : (c : Bytes) → length c ≡ 2016 → store_at 32 c whole ≡ m ++ (n ++ (t ++ c))
  write_block c lc =
      let fits : length whole ≡ 32 + length c =
        ap length (front_parts b) ∙ length-append (m ++ (n ++ t)) b ∙ rw (front_size, lb, lc) in
      let rest : drop (32 + length c) whole ≡ [] =
        subst (λ k. drop k whole ≡ []) fits (drop-length whole) in
      let front : take 32 whole ≡ m ++ (n ++ t) =
        ap (take 32) (front_parts b) ∙ take-front 32 (m ++ (n ++ t)) b front_size in
      rw (rest, front, append-nil, front_parts c)

  -- The authenticator is written in place of the one there.
  write_mac : (m' : Bytes) → length m' ≡ 16 → store_at 0 m' whole ≡ m' ++ (n ++ (t ++ b))
  write_mac m' lm' =
      let size : 0 + length m' ≡ 16 = omega arith in
      ap (λ k. m' ++ drop k whole) size ∙ ap (λ r. m' ++ r) behind_mac

-- What the two calls do with the parts.
module _ (a : Aead) (ch : ChaCha) (m n t b : Bytes) (lm : length m ≡ 16) (ln : length n ≡ 12)
    (lt : length t ≡ 4) (lb : length b ≡ 2016) where
  decrypt-parts : decrypt a ch (m ++ (n ++ (t ++ b))) ≡ a.decrypt_detached b m t n ch.key
  unfolding decrypt
  decrypt-parts = rw (
    read_block m n t b lm ln lt lb,
    read_mac m n t b lm ln lt lb,
    read_id m n t b lm ln lt lb,
    read_nonce m n t b lm ln lt lb,
    decrypt,
  )

  encrypt-parts :
      Documented a
      → (block : Bytes) → length block ≡ 2016
      → let (c, mac) = a.encrypt_detached block t n ch.key in
        encrypt a ch block (m ++ (n ++ (t ++ b))) ≡ mac ++ (n ++ (t ++ c))
  unfolding encrypt
  encrypt-parts law block lk =
      let lc = law.encrypted_size block t n ch.key ∙ lk in
      let lm' = law.authenticator_size block t n ch.key in
      rw
        (
          read_id m n t b lm ln lt lb,
          read_nonce m n t b lm ln lt lb,
          write_block m n t b lm ln lt lb _ lc,
        )
        (write_mac m n t _ lm ln lt lc _ lm')

-- A message of the right size is its four parts.
abbrev split : Bytes → Bytes
split msg = take 16 msg ++ (take 12 (drop 16 msg) ++ (take 4 (drop 28 msg) ++ drop 32 msg))

split-all : (msg : Bytes) → split msg ≡ msg
split-all msg =
    let nonce = take 12 (drop 16 msg) in
    let behind : take 4 (drop 28 msg) ++ drop 32 msg ≡ drop 28 msg =
      ap (λ r. take 4 (drop 28 msg) ++ r) (sym (drop-drop 28 4 msg)) ∙ take-drop 4 (drop 28 msg) in
    let middle : nonce ++ drop 28 msg ≡ drop 16 msg =
      ap (λ r. nonce ++ r) (sym (drop-drop 16 12 msg)) ∙ take-drop 12 (drop 16 msg) in
    ap (λ r. take 16 msg ++ (nonce ++ r)) behind
    ∙ ap (λ r. take 16 msg ++ r) middle
    ∙ take-drop 16 msg

module _ {ℓ} (P : Bytes → Type ℓ)
    (parts : (m n t b : Bytes)
      → length m ≡ 16
      → length n ≡ 12
      → length t ≡ 4
      → length b ≡ 2016
      → P (m ++ (n ++ (t ++ b)))) where
  by_parts : (msg : Bytes) → length msg ≡ message_size → P msg
  by_parts msg l =
      let l16 = length-drop 16 msg in
      let l28 = length-drop 28 msg in
      let l32 = length-drop 32 msg in
      let t16 = length-take 16 msg in
      let t12 = length-take 12 (drop 16 msg) in
      let t4 = length-take 4 (drop 28 msg) in
      subst P (split-all msg) (
        parts (take 16 msg) (take 12 (drop 16 msg)) (take 4 (drop 28 msg)) (drop 32 msg)
          (omega arith) (omega arith) (omega arith) (omega arith))

module _ (a : Aead) (ch : ChaCha) (law : Documented a) (block : Bytes)
    (lk : length block ≡ tunnel_data_size) where
  -- A block that has been encrypted into a message is what decrypting the message gives, and the
  -- message keeps its length, its nonce and its tunnel id.
  pub decrypt-encrypt :
      (msg : Bytes)
      → length msg ≡ message_size
      → let out = encrypt a ch block msg in
        (decrypt a ch out ≡ some block)
        × (length out ≡ message_size)
        × (read_at 16 16 out ≡ read_at 16 16 msg)
  decrypt-encrypt =
      by_parts
        (λ msg.
          let out = encrypt a ch block msg in
          (decrypt a ch out ≡ some block)
          × (length out ≡ message_size)
          × (read_at 16 16 out ≡ read_at 16 16 msg))
        (λ m n t b lm ln lt lb.
          let (c, mac) = a.encrypt_detached block t n ch.key in
          let lc : length c ≡ 2016 = law.encrypted_size block t n ch.key ∙ lk in
          let lmac : length mac ≡ 16 = law.authenticator_size block t n ch.key in
          let parts = encrypt-parts a ch m n t b lm ln lt lb law block lk in
          (
            ap (decrypt a ch) parts
                ∙ decrypt-parts a ch mac n t c lmac ln lt lc
                ∙ law.decrypted block t n ch.key,
            ap length parts ∙ parts_size mac n t c lmac ln lt lc,
            ap (read_at 16 16) parts
                ∙ read_header mac n t c lmac ln lt lc
                ∙ sym (read_header m n t b lm ln lt lb),
          ))

  -- Decrypting a message of the right size gives a block exactly if encrypting the block into the
  -- message leaves the message as it is.
  pub decrypt↔encrypt :
      (msg : Bytes)
      → length msg ≡ message_size
      → (decrypt a ch msg ≡ some block) ↔ (encrypt a ch block msg ≡ msg)
  decrypt↔encrypt msg l =
      (forth msg l, λ h. subst (λ out. decrypt a ch out ≡ some block) h (decrypt-encrypt msg l).0)
    where
      forth :
          (msg : Bytes)
          → length msg ≡ message_size
          → (decrypt a ch msg ≡ some block)
          → (encrypt a ch block msg ≡ msg)
      forth =
          by_parts (λ msg. (decrypt a ch msg ≡ some block) → encrypt a ch block msg ≡ msg)
            (λ m n t b lm ln lt lb h.
              let same =
                law.authentic b m t n ch.key block
                  (sym (decrypt-parts a ch m n t b lm ln lt lb) ∙ h) in
              encrypt-parts a ch m n t b lm ln lt lb law block lk
              ∙ ap (λ r. r.1 ++ (n ++ (t ++ r.0))) same)
