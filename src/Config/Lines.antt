-- ===== src/Config/Lines.antt =====
-- The scanners of mnet/config.c on the parts of a line.
use i2p_lite.Base.{
  ℕ, zero, suc, ◌<◌, ◌≡◌, ◌≢◌, refl, sym, subst, ap, ◌∙◌, Bool, true, false, ◌||◌, [], ◌∷◌, ◌++◌,
  arith, inl, inr, Bool-cases,
}
use i2p_lite.Base.{not, Bytes, codes, length, ◌==◌, All}
use i2p_lite.Config.{
  newline, is_name_char, skip_spaces, skip_chars, read_to_comment, is_comment_line, is_empty_line,
  read_value, read_rest, read_line, entry, skipped, fgets,
}

-- The characters of a key, and those that a value may hold.
abbrev pub IsName : Bytes → Type 0
IsName = All (λ c. is_name_char c ≡ true)

abbrev pub is_plain : ℕ → Bool
is_plain c = not ((c == b'#') || (c == newline))

abbrev pub IsPlain : Bytes → Type 0
IsPlain = All (λ c. is_plain c ≡ true)

-- A value that can be written and read: no comment sign, no end of line, and no leading space.
abbrev pub NoLeadingSpace : Bytes → Type 0
NoLeadingSpace [] = Unit
NoLeadingSpace (c ∷ cs) = c ≢ b' '

pub skip_chars-name :
    (name : Bytes) (c : ℕ) (rest : Bytes)
    → IsName name
    → is_name_char c ≡ false
    → skip_chars (name ++ c ∷ rest) ≡ (name, c ∷ rest)
unfolding skip_chars
skip_chars-name [] c rest h stop = rw stop
skip_chars-name (d ∷ name) c rest h stop = rw (skip_chars-name name c rest h.1 stop, h.0)

pub read_to_comment-plain :
    (front : Bytes) (c : ℕ) (rest : Bytes)
    → IsPlain front
    → is_plain c ≡ false
    → read_to_comment (front ++ c ∷ rest) ≡ (front, c ∷ rest)
unfolding read_to_comment
read_to_comment-plain [] c rest h stop = ground arith
read_to_comment-plain (d ∷ front) c rest h stop = ground (arith, read_to_comment-plain front c rest)

-- What is gone over and what is left make up the line again, and each has its characters.
pub skip_chars-split :
    (line : Bytes)
    → ((skip_chars line).0 ++ (skip_chars line).1 ≡ line) × IsName (skip_chars line).0
unfolding skip_chars
skip_chars-split [] = (refl, tt)
skip_chars-split (c ∷ cs) = elim (Bool-cases (is_name_char c)) [
  | inl e ↦ let ih = skip_chars-split cs in rw e (ap (λ t. c ∷ t) ih.0, (e, ih.1))
  | inr e ↦ rw e (refl, tt)
]

pub read_to_comment-IsPlain : (line : Bytes) → IsPlain (read_to_comment line).0
unfolding read_to_comment
read_to_comment-IsPlain [] = tt
read_to_comment-IsPlain (c ∷ cs) = elim (Bool-cases ((c == b'#') || (c == newline))) [
  | inl e ↦ rw e tt
  | inr e ↦ rw e (rw e refl, read_to_comment-IsPlain cs)
]

pub name_char-plain : (c : ℕ) → is_name_char c ≡ true → ((c == b'#') || (c == newline)) ≡ false
unfolding is_name_char
name_char-plain c h = ground arith

-- The value goes up to the comment sign or the end of the line: what `skip_chars` goes over first
-- would be gone over by `read_to_comment` too.
chars-then-comment :
    (line : Bytes)
    → (skip_chars line).0 ++ (read_to_comment (skip_chars line).1).0 ≡ (read_to_comment line).0
unfolding skip_chars read_to_comment
chars-then-comment [] = refl
chars-then-comment (c ∷ cs) = elim (Bool-cases (is_name_char c)) [
  | inl e ↦ rw (e, name_char-plain c e) (ap (λ t. c ∷ t) (chars-then-comment cs))
  | inr e ↦ rw e
]

pub read_value-eq : (rest : Bytes) → read_value rest ≡ (read_to_comment (skip_spaces rest)).0
unfolding read_value
read_value-eq rest = chars-then-comment (skip_spaces rest)

pub skip_spaces-other : (c : ℕ) (cs : Bytes) → (c == b' ') ≡ false → skip_spaces (c ∷ cs) ≡ c ∷ cs
unfolding skip_spaces
skip_spaces-other c cs h = rw h

skip_spaces-value :
    (value rest : Bytes)
    → NoLeadingSpace value
    → skip_spaces (b' ' ∷ (value ++ newline ∷ rest)) ≡ value ++ newline ∷ rest
unfolding skip_spaces
skip_spaces-value [] rest lead = refl
skip_spaces-value (c ∷ cs) rest lead = skip_spaces-other c (cs ++ newline ∷ rest) (ground arith)

-- The value of a written line comes back whole.
pub read_value-plain :
    (value rest : Bytes)
    → IsPlain value
    → NoLeadingSpace value
    → read_value (b' ' ∷ (value ++ newline ∷ rest)) ≡ value
read_value-plain value rest h lead =
    read_value-eq (b' ' ∷ (value ++ newline ∷ rest))
    ∙ ap (λ l. (read_to_comment l).0) (skip_spaces-value value rest lead)
    ∙ ap (λ (r : Bytes × Bytes). r.0) (read_to_comment-plain value newline rest h refl)

pub fgets-line :
    (room : ℕ) (line rest : Bytes)
    → length line < room
    → All (λ c. (c == newline) ≡ false) line
    → fgets room (line ++ newline ∷ rest) ≡ (line ++ newline ∷ [], rest)
unfolding fgets
fgets-line zero line rest h all = absurd (omega arith)
fgets-line (suc room) [] rest h all = refl
fgets-line (suc room) (c ∷ cs) rest h all = rw (fgets-line room cs rest (omega arith) all.1, all.0)

-- A line with a comment sign, or with nothing, in front is passed over.
pub read_line-comment : (line : Bytes) → read_line (b'#' ∷ line) ≡ skipped
unfolding read_line is_comment_line skip_spaces
read_line-comment line = refl

pub read_line-empty : read_line (newline ∷ []) ≡ skipped
unfolding read_line is_comment_line is_empty_line skip_spaces
read_line-empty = refl

read_rest-clean :
    (key rest : Bytes) {k v : Bytes} → read_rest key rest ≡ entry k v → (key ≡ k) × IsPlain v
unfolding read_rest
read_rest-clean key [] h = absurd (ground arith)
read_rest-clean key (c ∷ cs) {k} {v} h =
    let same : read_value cs ≡ v = ground arith in
    (
      ground arith,
      subst IsPlain (sym (read_value-eq cs) ∙ same) (read_to_comment-IsPlain (skip_spaces cs)),
    )

-- Every key that a line gives consists of the key's characters, and no value has a comment sign or
-- an end of line.
pub read_line-clean :
    (line : Bytes) {k v : Bytes} → read_line line ≡ entry k v → IsName k × IsPlain v
unfolding read_line
read_line-clean line {k} {v} h =
    let split = skip_chars (skip_spaces line) in
    let parsed : read_rest split.0 (skip_spaces split.1) ≡ entry k v = ground arith in
    let (same, plain) = read_rest-clean split.0 (skip_spaces split.1) parsed in
    (subst IsName same (skip_chars-split (skip_spaces line)).1, plain)

name_char-not_space : (c : ℕ) → is_name_char c ≡ true → (c == b' ') ≡ false
unfolding is_name_char
name_char-not_space c h = ground arith

-- Behind the key: a space, the sign, and the value.
read_rest-written :
    (key value : Bytes)
    → IsPlain value
    → NoLeadingSpace value
    → read_rest key (b'=' ∷ b' ' ∷ (value ++ newline ∷ [])) ≡ entry key value
unfolding read_rest
read_rest-written key value h lead = ap (entry key) (read_value-plain value [] h lead)

plain-sign : (c : ℕ) → ((c == b'#') || (c == newline)) ≡ false → (c == b'#') ≡ false
plain-sign c h = ground arith

plain-end : (c : ℕ) → ((c == b'#') || (c == newline)) ≡ false → (c == newline) ≡ false
plain-end c h = ground arith

-- A line that begins with a character of a key.
read_line-name :
    (c : ℕ) (cs : Bytes)
    → is_name_char c ≡ true
    → read_line (c ∷ cs)
      ≡ (let (key, rest) = skip_chars (c ∷ cs) in read_rest key (skip_spaces rest))
unfolding read_line is_comment_line is_empty_line
read_line-name c cs h =
    let plain = name_char-plain c h in
    rw (skip_spaces-other c cs (name_char-not_space c h), plain-sign c plain, plain-end c plain)

pub read_line-written :
    (name value : Bytes)
    → IsName name
    → IsPlain value
    → NoLeadingSpace value
    → read_line (name ++ (codes " = " ++ (value ++ newline ∷ []))) ≡ entry name value
read_line-written [] value hn hv lead =
    unfold read_line is_comment_line is_empty_line skip_spaces skip_chars is_name_char in
    read_rest-written [] value hv lead
read_line-written (c ∷ name) value hn hv lead =
    let rest = b'=' ∷ b' ' ∷ (value ++ newline ∷ []) in
    let space : is_name_char b' ' ≡ false = unfold is_name_char in refl in
    let over : skip_spaces (b' ' ∷ rest) ≡ rest = unfold skip_spaces in refl in
    read_line-name c (name ++ b' ' ∷ rest) hn.0
    ∙ rw (skip_chars-name (c ∷ name) b' ' rest hn space, over)
        (read_rest-written (c ∷ name) value hv lead)
