-- ===== src/Log/Filter.antt =====
-- mnet/log.c: which messages are written.
use mathlib.Core.List.{append_assoc, append-nil}
use i2p_lite.Base.{
  ℕ, ◌≡◌, refl, sym, ap, ◌∙◌, Bool, true, false, not, ◌&&◌, ◌||◌, List, [], ◌∷◌, ◌++◌, some, ℤ, pos,
  negsuc, zero, suc, arith, bit_and, Bool-cases, inl, inr,
}
use i2p_lite.Base.{Bytes, codes, leb, ◌==◌, if◌then◌else◌}
use i2p_lite.Numerals.{decimal, decimal_from}
use i2p_lite.Log.{Log, State, log, line, above}

-- The arguments of a call.
pub record Message : Type 0 where
  pub level : ℕ
  pub lineno : ℕ
  pub time : ℕ
  pub file : Bytes
  pub scope : ℕ
  pub text : Bytes

abbrev pub log_message : Message → State → State
log_message m = log m.level m.lineno m.time m.file m.scope m.text

-- The color and the name of a level, as they stand in the line.
abbrev pub heading : ℕ → Bytes
heading zero = codes "31m[???"
heading (suc zero) = codes "37m[DBG"
heading (suc (suc zero)) = codes "36m[NFO"
heading (suc (suc (suc zero))) = codes "33m[WRN"
heading (suc (suc (suc (suc zero)))) = codes "31m[ERR"
heading (suc (suc (suc (suc (suc n))))) = codes "31m[???"

unfoldable pub concat : List Bytes → Bytes
concat [] = []
concat (p ∷ ps) = p ++ concat ps

-- The line of a message: its pieces, one behind the other.
abbrev pub pieces : Message → List Bytes
pieces m =
    (27 ∷ codes "[1;")
    ∷ heading m.level
    ∷ codes " "
    ∷ decimal m.time
    ∷ codes " "
    ∷ m.file
    ∷ codes ":"
    ∷ decimal m.lineno
    ∷ codes "] "
    ∷ m.text
    ∷ (27 ∷ codes "[0m")
    ∷ (10 ∷ [])
    ∷ []

-- One call behind the other.
unfoldable pub log_all : List Message → State → State
log_all [] s = s
log_all (m ∷ ms) s = log_all ms (log_message m s)

-- Whether a message's level is at least the one that has been set.
abbrev pub at_least : ℤ → ℕ → Bool
at_least (pos n) level = leb n level
at_least (negsuc n) level = true

-- A message of a scope that has been switched on, and of no lower level than the one that has been set.
abbrev pub is_shown : (level : ℤ) (scope : ℕ) → Message → Bool
is_shown level scope m = not (bit_and scope m.scope == 0) && at_least level m.level

unfoldable pub shown : (level : ℤ) (scope : ℕ) → List Message → Bytes
shown level scope [] = []
shown level scope (m ∷ ms) =
    let rest = shown level scope ms in
    if is_shown level scope m then concat (pieces m) ++ rest else rest

above-at_least : (level : ℤ) (n : ℕ) → above level n ≡ not (at_least level n)
above-at_least (pos k) n = ground arith
above-at_least (negsuc k) n = refl

line-pieces :
    (level lineno time : ℕ) (file : Bytes) (scope : ℕ) (text : Bytes)
    → line level lineno time file text
      ≡ concat (
          pieces (record {
            level = level;
            lineno = lineno;
            time = time;
            file = file;
            scope = scope;
            text = text;
          }))
unfolding line decimal decimal_from concat
line-pieces zero lineno time file scope text = refl
line-pieces (suc zero) lineno time file scope text = refl
line-pieces (suc (suc zero)) lineno time file scope text = refl
line-pieces (suc (suc (suc zero))) lineno time file scope text = refl
line-pieces (suc (suc (suc (suc zero)))) lineno time file scope text = refl
line-pieces (suc (suc (suc (suc (suc n))))) lineno time file scope text =
    let level = suc (suc (suc (suc (suc n)))) in
    let info : (level == 2) ≡ false = ground arith in
    let debug : (level == 1) ≡ false = ground arith in
    let warn : (level == 3) ≡ false = ground arith in
    let error : (level == 4) ≡ false = ground arith in rw (info, debug, warn, error) refl

log-shown :
    (m : Message) (l : Log)
    → log_message m (some l)
      ≡ some
          (if is_shown l.level l.scope m then record l { out = l.out ++ concat (pieces m) } else l)
unfolding log
log-shown m l =
    rw (above-at_least l.level m.level, line-pieces m.level m.lineno m.time m.file m.scope m.text)
      (by_tests (bit_and l.scope m.scope == 0) (at_least l.level m.level))
  where
    by_tests :
        (closed high : Bool)
        → (if closed || not high
            then some l
            else some (record l { out = l.out ++ concat (pieces m) }))
          ≡ some (if not closed && high then record l { out = l.out ++ concat (pieces m) } else l)
    by_tests true high = refl
    by_tests false true = refl
    by_tests false false = refl

-- What a log holds behind a sequence of calls: what it held before, and the pieces of the lines of the messages that
-- are shown, in their order. The level and the scope stay as they are.
pub log_all-shown :
    (ms : List Message) (l : Log)
    → log_all ms (some l) ≡ some (record l { out = l.out ++ shown l.level l.scope ms })
unfolding log_all shown
log_all-shown [] l = ap (λ o. some (record l { out = o })) (sym (append-nil l.out))
log_all-shown (m ∷ ms) l = rw (log-shown m l) (elim (Bool-cases (is_shown l.level l.scope m)) [
  | inl yes_shown ↦ rw yes_shown (
      log_all-shown ms (record l { out = l.out ++ concat (pieces m) })
      ∙ ap (λ o. some (record l { out = o }))
          (append_assoc l.out (concat (pieces m)) (shown l.level l.scope ms)))
  | inr hidden ↦ rw hidden (log_all-shown ms l)
])
