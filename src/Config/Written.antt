-- ===== src/Config/Written.antt =====
-- Loading the files that mnet_config_iter_write and mnet_config_gen of mnet/config.c write.
use mathlib.Core.List.{append_assoc, reverse, reverse_aux}
use i2p_lite.Base.{
  ℕ, zero, suc, ◌+◌, ◌-◌, ◌%◌, ◌^◌, ◌≤◌, ◌<◌, ◌≡◌, refl, sym, ap, ◌∙◌, Bool, true, false, ◌&&◌, [],
  ◌∷◌, ◌++◌, List, some, arith,
}
use i2p_lite.Base.{Bytes, codes, length, length-append, ◌==◌, All}
use i2p_lite.Config.{
  newline, Entry, Config, alloc, append_entry, for_each, entry, read_line, line_room, load_loop,
  load_line, load, write_entry, write_entries, default_config, gen, is_name_char, is_alnum,
}
use i2p_lite.Config.Lines.{
  IsName, IsPlain, is_plain, NoLeadingSpace, name_char-plain, fgets-line, read_line-comment,
  read_line-empty, read_line-written,
}
use i2p_lite.Config.RoundTrip.{load_loop-step}

-- A line of the file, without its end, that fits the buffer.
abbrev pub OneLine : Bytes → Type 0
OneLine line = All (λ c. (c == newline) ≡ false) line

load_loop-line :
    (fuel : ℕ) (cfg : Config) (line rest : Bytes)
    → length line < line_room
    → OneLine line
    → load_loop (suc fuel) cfg (line ++ newline ∷ rest)
      ≡ load_line (load_loop fuel) cfg rest (read_line (line ++ newline ∷ []))
load_loop-line fuel cfg [] rest short one =
    load_loop-step fuel cfg newline rest ∙ rw (fgets-line line_room [] rest short one) refl
load_loop-line fuel cfg (c ∷ cs) rest short one =
    load_loop-step fuel cfg c (cs ++ newline ∷ rest)
    ∙ rw (fgets-line line_room (c ∷ cs) rest short one) refl

OneLine-append : (xs ys : Bytes) → OneLine xs → OneLine ys → OneLine (xs ++ ys)
OneLine-append [] ys h k = k
OneLine-append (x ∷ xs) ys h k = (h.0, OneLine-append xs ys h.1 k)

OneLine-name : (name : Bytes) → IsName name → OneLine name
OneLine-name [] h = tt
OneLine-name (c ∷ cs) h = (ground (arith, name_char-plain c h.0), OneLine-name cs h.1)

OneLine-plain : (value : Bytes) → IsPlain value → OneLine value
OneLine-plain [] h = tt
OneLine-plain (c ∷ cs) h = (ground arith, OneLine-plain cs h.1)

-- An entry that can be written and read: its line fits the buffer.
abbrev pub Storable : Entry → Type 0
Storable e =
    IsName e.name
    × IsPlain e.value
    × NoLeadingSpace e.value
    × (length e.name + length e.value < 1020)

-- The configuration after the entries are appended, from the first on.
append_all : Config → List Entry → Config
append_all cfg [] = cfg
append_all cfg (e ∷ es) = append_all (append_entry cfg e.name e.value) es

entry_line : Entry → Bytes
entry_line e = e.name ++ (codes " = " ++ e.value)

write_entry-line :
    (e : Entry) (rest : Bytes) → write_entry e ++ rest ≡ entry_line e ++ newline ∷ rest
unfolding write_entry entry_line
write_entry-line e rest =
    append_assoc e.name (codes " = " ++ (e.value ++ newline ∷ [])) rest
    ∙ ap (λ t. e.name ++ (codes " = " ++ t)) (append_assoc e.value (newline ∷ []) rest)
    ∙ sym (append_assoc e.name (codes " = " ++ e.value) (newline ∷ rest))

entry_line-OneLine :
    (e : Entry) → Storable e → OneLine (entry_line e) × (length (entry_line e) < line_room)
unfolding entry_line
entry_line-OneLine e h = (
  OneLine-append e.name (codes " = " ++ e.value) (OneLine-name e.name h.0)
      (refl, (refl, (refl, OneLine-plain e.value h.1))),
  omega (arith, length-append e.name (codes " = " ++ e.value)),
)

load_loop-entry :
    (fuel : ℕ) (cfg : Config) (e : Entry) (rest : Bytes)
    → Storable e
    → load_loop (suc fuel) cfg (write_entry e ++ rest)
      ≡ load_loop fuel (append_entry cfg e.name e.value) rest
load_loop-entry fuel cfg e rest h =
    let fits = entry_line-OneLine e h in
    let joined : entry_line e ++ newline ∷ []
        ≡ e.name ++ (codes " = " ++ (e.value ++ newline ∷ [])) =
      (unfold entry_line in append_assoc e.name (codes " = " ++ e.value) (newline ∷ [])) in
    let read : read_line (entry_line e ++ newline ∷ []) ≡ entry e.name e.value =
      ap read_line joined ∙ read_line-written e.name e.value h.0 h.1 h.2 in
    ap (load_loop (suc fuel) cfg) (write_entry-line e rest)
    ∙ load_loop-line fuel cfg (entry_line e) rest fits.1 fits.0
    ∙ ap (load_line (load_loop fuel) cfg rest) read
    ∙ (unfold load_line in refl)

load_loop-write_entries :
    (fuel : ℕ) (cfg : Config) (es : List Entry)
    → All Storable es
    → length es ≤ fuel
    → load_loop fuel cfg (write_entries es) ≡ some (append_all cfg es, true)
unfolding write_entries append_all
load_loop-write_entries fuel cfg [] h enough = unfold load_loop in refl
load_loop-write_entries zero cfg (e ∷ es) h enough = absurd (omega arith)
load_loop-write_entries (suc fuel) cfg (e ∷ es) h enough =
    load_loop-entry fuel cfg e (write_entries es) h.0
    ∙ load_loop-write_entries fuel (append_entry cfg e.name e.value) es h.1 (omega arith)

config_eq :
    {es fs : List Entry} {n m : ℕ}
    → es ≡ fs
    → n ≡ m
    → ◌≡◌ {A = Config} (record { entries = es; size = n }) (record { entries = fs; size = m })
config_eq p q = rw (p, q) refl

append_all-eq :
    (cfg : Config) (es : List Entry)
    → cfg.size + length es < 2 ^ 64
    → append_all cfg es
      ≡ record { entries = reverse_aux es cfg.entries; size = cfg.size + length es }
unfolding append_all append_entry
append_all-eq cfg [] h = config_eq {es = cfg.entries} refl (omega arith)
append_all-eq cfg (e ∷ es) h =
    let fits : (cfg.size + 1) % 2 ^ 64 ≡ cfg.size + 1 = omega arith in
    append_all-eq (append_entry cfg e.name e.value) es (omega arith)
    ∙ config_eq {es = reverse_aux (e ∷ es) cfg.entries} refl (omega arith)

alloc-eq :
    (es : List Entry)
    → ◌≡◌ {A = Config}
        (record { entries = reverse_aux es alloc.entries; size = alloc.size + length es })
        (record { entries = reverse es; size = length es })
unfolding alloc
alloc-eq es = config_eq {es = reverse es} refl (omega arith)

-- Entries that are written are loaded back, in the reverse order, with their number, where each
-- key consists of the key's characters, no value has a comment sign, an end of line or a leading
-- space, and each line fits the line buffer.
pub load-write_entries :
    (fuel : ℕ) (es : List Entry)
    → All Storable es
    → length es ≤ fuel
    → length es < 2 ^ 64
    → load fuel (some (write_entries es))
      ≡ some (record { entries = reverse es; size = length es }, true)
unfolding load
load-write_entries fuel es h enough small =
    load_loop-write_entries fuel alloc es h enough
    ∙ ap (λ (cfg : Config). some (cfg, true))
        (append_all-eq alloc es (unfold alloc in omega arith) ∙ alloc-eq es)

load_loop-comment :
    (fuel : ℕ) (cfg : Config) (text rest : Bytes)
    → length text < 1022
    → OneLine text
    → load_loop (suc fuel) cfg (b'#' ∷ (text ++ newline ∷ rest)) ≡ load_loop fuel cfg rest
load_loop-comment fuel cfg text rest short one =
    load_loop-line fuel cfg (b'#' ∷ text) rest (omega arith) (refl, one)
    ∙ ap (load_line (load_loop fuel) cfg rest) (read_line-comment (text ++ newline ∷ []))
    ∙ (unfold load_line in refl)

load_loop-empty :
    (fuel : ℕ) (cfg : Config) (rest : Bytes)
    → load_loop (suc fuel) cfg (newline ∷ rest) ≡ load_loop fuel cfg rest
load_loop-empty fuel cfg rest =
    load_loop-line fuel cfg [] rest (omega arith) tt
    ∙ ap (load_line (load_loop fuel) cfg rest) read_line-empty
    ∙ (unfold load_line in refl)

-- A test of every character, for the texts that are fixed.
all_true : (ℕ → Bool) → Bytes → Bool
all_true p [] = true
all_true p (c ∷ cs) = p c && all_true p cs

all_true-All : (p : ℕ → Bool) (cs : Bytes) → all_true p cs ≡ true → All (λ c. p c ≡ true) cs
unfolding all_true
all_true-All p [] h = tt
all_true-All p (c ∷ cs) h = (ground arith, all_true-All p cs (ground arith))

IsName-check : (cs : Bytes) → all_true is_name_char cs ≡ true → IsName cs
IsName-check cs h = all_true-All is_name_char cs h

IsPlain-check : (cs : Bytes) → all_true is_plain cs ≡ true → IsPlain cs
IsPlain-check cs h = all_true-All is_plain cs h

abbrev title : Bytes
title = codes " auto generated config file"

abbrev generated : Bytes
generated = codes " generated at "

load_loop-heading :
    (fuel : ℕ) (time rest : Bytes)
    → OneLine time
    → length time < 1000
    → load_loop
        (suc (suc (suc fuel)))
        alloc
        (b'#' ∷ (title ++ newline ∷ (b'#' ∷ (generated ++ (time ++ newline ∷ newline ∷ rest)))))
      ≡ load_loop fuel alloc rest
load_loop-heading fuel time rest one short =
    let one_title : OneLine title =
      OneLine-plain title (IsPlain-check title (unfold all_true in refl)) in
    let one_stamp : OneLine (generated ++ time) =
      OneLine-append generated time
        (OneLine-plain generated (IsPlain-check generated (unfold all_true in refl))) one in
    load_loop-comment (suc (suc fuel)) alloc title
      (b'#' ∷ (generated ++ (time ++ newline ∷ newline ∷ rest))) (omega arith) one_title
    ∙ load_loop-comment (suc fuel) alloc (generated ++ time) (newline ∷ rest) (omega arith)
        one_stamp
    ∙ load_loop-empty fuel alloc rest

-- The name of the data directory.
abbrev pub StorableValue : Bytes → Type 0
StorableValue value = IsPlain value × NoLeadingSpace value × (length value < 1000)

default_settings-Storable :
    (datadir : Bytes) → StorableValue datadir → All Storable (for_each (default_config datadir))
unfolding for_each default_config append_entry alloc is_name_char is_alnum all_true
default_settings-Storable datadir h =
    let one : IsPlain (codes "1") = IsPlain-check (codes "1") refl in
    (
      (IsName-check (codes "mnet.log.level") refl, one, omega arith, omega arith),
      (
        (IsName-check (codes "mnet.datadir") refl, h.0, h.1, omega arith),
        ((IsName-check (codes "mnet.crypto.check") refl, one, omega arith, omega arith), tt),
      ),
    )

append_default_settings :
    (datadir : Bytes)
    → append_all alloc (for_each (default_config datadir))
      ≡ record { entries = reverse (for_each (default_config datadir)); size = 3 }
unfolding for_each default_config append_entry alloc append_all
append_default_settings datadir = refl

-- The generated file is loaded, with the default settings in the reverse order, if the data
-- directory's name can be stored and the time is written on one line.
pub load-gen :
    (fuel : ℕ) (time datadir : Bytes)
    → OneLine time
    → length time < 1000
    → StorableValue datadir
    → 6 ≤ fuel
    → load fuel (some (gen time datadir))
      ≡ some (record { entries = reverse (for_each (default_config datadir)); size = 3 }, true)
load-gen fuel time datadir one short fits enough =
    let es = for_each (default_config datadir) in
    let left : ℕ = fuel - 3 in
    let three : fuel ≡ suc (suc (suc left)) = omega arith in
    let count : length es ≡ 3 = unfold for_each default_config append_entry alloc in refl in
    let heading : load (suc (suc (suc left))) (some (gen time datadir))
        ≡ load_loop left alloc (write_entries es) =
      (unfold load gen in load_loop-heading left time (write_entries es) one short) in
    ap (λ n. load n (some (gen time datadir))) three
    ∙ heading
    ∙ load_loop-write_entries left alloc es (default_settings-Storable datadir fits) (omega arith)
    ∙ ap (λ (cfg : Config). some (cfg, true)) (append_default_settings datadir)
