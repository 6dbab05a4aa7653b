-- ===== src/Config/RoundTrip.antt =====
-- The loop of mnet_config_load in mnet/config.c on whole files, and on the files that
-- mnet_config_iter_write and mnet_config_gen write.
use i2p_lite.Base.{
  ℕ, zero, suc, ◌≤◌, ◌≡◌, refl, sym, subst, ◌∙◌, Bool, true, false, [], ◌∷◌, Option, some, arith,
  inl, inr, Bool-cases,
}
use i2p_lite.Base.{Bytes, length, ◌==◌, All}
use i2p_lite.Config.{
  newline, Entry, Config, alloc, append_entry, Line, skipped, bad, entry, read_line, fgets,
  line_room, load_loop, load_line, load,
}
use i2p_lite.Config.Lines.{IsName, IsPlain, read_line-clean}

fgets_rest : (room : ℕ) (input : Bytes) → length (fgets room input).1 ≤ length input
unfolding fgets
fgets_rest zero input = omega arith
fgets_rest (suc room) [] = omega arith
fgets_rest (suc room) (c ∷ cs) = elim (Bool-cases (c == newline)) [
  | inl e ↦ rw e (omega arith)
  | inr e ↦ rw e (omega (arith, fgets_rest room cs))
]

-- A round of the loop reads a byte at least.
fgets-progress : (room c : ℕ) (cs : Bytes) → length (fgets (suc room) (c ∷ cs)).1 ≤ length cs
unfolding fgets
fgets-progress room c cs = elim (Bool-cases (c == newline)) [
  | inl e ↦ rw e (omega arith)
  | inr e ↦ rw e (fgets_rest room cs)
]

data LineCases (l : Line) : Type 0 where
  is_skipped : l ≡ skipped → LineCases l
  is_bad : l ≡ bad → LineCases l
  is_entry : (k v : Bytes) → l ≡ entry k v → LineCases l

line_cases : (l : Line) → LineCases l
line_cases skipped = is_skipped refl
line_cases bad = is_bad refl
line_cases (entry k v) = is_entry k v refl

pub load_loop-step :
    (fuel : ℕ) (cfg : Config) (c : ℕ) (cs : Bytes)
    → load_loop (suc fuel) cfg (c ∷ cs) ≡ (
        let (line, rest) = fgets line_room (c ∷ cs) in
        load_line (load_loop fuel) cfg rest (read_line line))
unfolding load_loop
load_loop-step fuel cfg c cs = refl

load_line-total :
    (continue : Config → Bytes → Option (Config × Bool)) (cfg : Config) (rest : Bytes) (l : Line)
    → ((cfg2 : Config) → (r : Config × Bool) × (continue cfg2 rest ≡ some r))
    → (r : Config × Bool) × (load_line continue cfg rest l ≡ some r)
unfolding load_line
load_line-total continue cfg rest skipped h = h cfg
load_line-total continue cfg rest bad h = ((cfg, false), refl)
load_line-total continue cfg rest (entry k v) h = h (append_entry cfg k v)

pub load_loop-total :
    (fuel : ℕ) (cfg : Config) (input : Bytes)
    → length input ≤ fuel
    → (r : Config × Bool) × (load_loop fuel cfg input ≡ some r)
load_loop-total fuel cfg [] h = ((cfg, true), (unfold load_loop in refl))
load_loop-total zero cfg (c ∷ cs) h = absurd (omega arith)
load_loop-total (suc fuel) cfg (c ∷ cs) h =
    let (line, rest) = fgets line_room (c ∷ cs) in
    let short : length rest ≤ fuel = omega (arith, fgets-progress 1022 c cs) in
    rw (load_loop-step fuel cfg c cs) (
      load_line-total (load_loop fuel) cfg rest (read_line line)
        (λ cfg2. load_loop-total fuel cfg2 rest short))

-- Loading ends for every file: the length of the file is enough fuel.
pub load-total :
    (fuel : ℕ) (input : Bytes)
    → length input ≤ fuel
    → (cfg : Config) × (ok : Bool) × (load fuel (some input) ≡ some (cfg, ok))
unfolding load
load-total fuel input h = let (r, e) = load_loop-total fuel alloc input h in (r.0, r.1, e)

-- A key of the key's characters, and a value without comment sign and end of line.
abbrev pub CleanEntry : Entry → Type 0
CleanEntry e = IsName e.name × IsPlain e.value

abbrev CleanConfig : Config → Type 0
CleanConfig cfg = All CleanEntry cfg.entries

load_stops :
    {cfg out : Config} {ok good : Bool}
    → CleanConfig cfg
    → ◌≡◌ {A = Option (Config × Bool)} (some (cfg, good)) (some (out, ok))
    → CleanConfig out
load_stops {cfg} {out} all e = let same : cfg ≡ out = ground arith in subst CleanConfig same all

load_loop-clean :
    (fuel : ℕ) (cfg : Config) (input : Bytes) {out : Config} {ok : Bool}
    → CleanConfig cfg
    → load_loop fuel cfg input ≡ some (out, ok)
    → CleanConfig out
load_loop-clean fuel cfg [] {out} {ok} all e =
    load_stops {cfg = cfg} {out = out} {ok = ok} {good = true} all (unfold load_loop in e)
load_loop-clean zero cfg (c ∷ cs) all e = unfold load_loop in absurd (ground arith)
load_loop-clean (suc fuel) cfg (c ∷ cs) {out} {ok} all e =
    let (line, rest) = fgets line_room (c ∷ cs) in
    let step = sym (load_loop-step fuel cfg c cs) ∙ e in
    elim (line_cases (read_line line)) [
      | is_skipped s ↦
          load_loop-clean fuel cfg rest {out = out} {ok = ok} all
            (unfold load_line in (rw s at step))
      | is_bad s ↦
          load_stops {cfg = cfg} {out = out} {ok = ok} {good = false} all
            (unfold load_line in (rw s at step))
      | is_entry k v s ↦
          load_loop-clean fuel (append_entry cfg k v) rest {out = out} {ok = ok}
            (unfold append_entry in (read_line-clean line s, all))
            (unfold load_line in (rw s at step))
    ]

-- Whatever the file, the keys that loading it gives consist of letters, digits and points, and no
-- value has a comment sign or an end of line.
pub load-clean :
    (fuel : ℕ) (input : Bytes) {cfg : Config} {ok : Bool}
    → load fuel (some input) ≡ some (cfg, ok)
    → All CleanEntry cfg.entries
unfolding load
load-clean fuel input e = load_loop-clean fuel alloc input (unfold alloc in tt) e
