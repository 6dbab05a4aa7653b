-- ===== src/Bencode/Dict.antt =====
-- bencode_obj_dict_set and bencode_obj_clone of mnet/bencode.c.
use Prim.Native.Nat.{max}
use i2p_lite.Base.{
  ℕ, zero, suc, ◌≤◌, ◌≡◌, ◌≢◌, ◌<◌, refl, subst, false≢true, true, false, List, [], ◌∷◌, arith, inl,
  inr, Bool-cases,
}
use i2p_lite.Base.{Bytes, ltb, ◌==◌}
use i2p_lite.Bencode.{
  Obj, str, int, dict, list, Items, nil, item, lost, absent, Fields, end, field, ring, str_gt, Run,
  done, fault, tied, too_deep, ◌>>=◌, seek, dict_put, depth, depth_fields, depth_items, copy_fields,
  copy_items, clone, dict_set,
}

-- The order of the keys: by the first byte that differs, and a key behind its beginnings.
pub data Before : Bytes → Bytes → Type 0 where
  shorter : {c : ℕ} {t : Bytes} → Before [] (c ∷ t)
  here : {a b : ℕ} {s t : Bytes} → a < b → Before (a ∷ s) (b ∷ t)
  there : {a b : ℕ} {s t : Bytes} → a ≡ b → Before s t → Before (a ∷ s) (b ∷ t)

str_gt-yes : (k j : Bytes) → Before k j → str_gt j k ≡ true
str_gt-yes [] [] h = elim h [ ]
str_gt-yes (a ∷ s) [] h = elim h [ ]
str_gt-yes [] (c ∷ t) shorter = refl
str_gt-yes (a ∷ s) (b ∷ t) (here h) =
    let other : (b == a) ≡ false = ground arith in rw other (ground arith)
str_gt-yes (a ∷ s) (b ∷ t) (there e h) =
    let same : (b == a) ≡ true = ground arith in rw same (str_gt-yes s t h)

str_gt-Before : (k j : Bytes) → str_gt j k ≡ true → Before k j
str_gt-Before k [] h = absurd (false≢true h)
str_gt-Before [] (b ∷ t) h = shorter
str_gt-Before (a ∷ s) (b ∷ t) h = elim (Bool-cases (b == a)) [
  | inl e ↦
      let later : str_gt t s ≡ true = rw e at h in there (ground arith) (str_gt-Before s t later)
  | inr e ↦ let less : ltb a b ≡ true = rw e at h in here (ground arith)
]

str_gt-no : (k j : Bytes) → ¬ Before k j → str_gt j k ≡ false
str_gt-no k j h = elim (Bool-cases (str_gt j k)) [
  | inl e ↦ absurd (h (str_gt-Before k j e))
  | inr e ↦ e
]

-- The chain of some entries, and the one that ends in a ring.
unfoldable pub chain : List (Bytes × Obj) → Fields → Fields
chain [] last = last
chain ((j, w) ∷ es) last = field j w (chain es last)

abbrev pub NoneBehind : Bytes → List (Bytes × Obj) → Type 0
NoneBehind k [] = Unit
NoneBehind k ((j, w) ∷ es) = (¬ Before k j) × NoneBehind k es

module _ (k : Bytes) (v : Obj) where
  seek-missing : (es : List (Bytes × Obj)) → NoneBehind k es → seek (chain es end) k v ≡ fault
  unfolding seek chain
  seek-missing [] h = refl
  seek-missing ((j, w) ∷ es) h = rw (str_gt-no k j h.0, seek-missing es h.1) refl

  seek-ring :
      (es : List (Bytes × Obj)) (j : Bytes) (w : Obj) (fs : Fields)
      → NoneBehind k es
      → Before k j
      → seek (chain es (field j w fs)) k v ≡ done (chain es (ring j w k v))
  unfolding seek chain
  seek-ring [] j w fs h above = rw (str_gt-yes k j above) refl
  seek-ring ((i, u) ∷ es) j w fs h above =
      rw (str_gt-no k i h.0, seek-ring es j w fs h.1 above) refl

-- A key, with a string, is entered in front of a first key that comes behind it. If the first entries do
-- not come behind it, NULL is written through if there are no others; and if the next one comes behind
-- it, the chain becomes a loop of this one and the new one, and the entries behind are lost.
pub dict_set-str :
    (e : Bytes × Obj) (es : List (Bytes × Obj)) (j : Bytes) (w : Obj) (fs : Fields) (k b : Bytes)
    → NoneBehind k (e ∷ es)
    → Before k j
    → (dict_set (field j w fs) k (str b) ≡ done (field k (str b) (field j w fs)))
      × (dict_set (chain (e ∷ es) end) k (str b) ≡ fault)
      × (dict_set (chain (e ∷ es) (field j w fs)) k (str b)
          ≡ done (chain (e ∷ es) (ring j w k (str b))))
unfolding dict_set clone depth dict_put chain
dict_set-str e es j w fs k b none_behind above = (
  rw (str_gt-yes k j above) refl,
  rw (str_gt-no k e.0 none_behind.0) (seek-missing k (str b) (e ∷ es) none_behind),
  rw (str_gt-no k e.0 none_behind.0) (seek-ring k (str b) (e ∷ es) j w fs none_behind above),
)

-- A clone ends within its fuel, and is not deeper than the object.
abbrev Shallow : ℕ → Run Obj → Type 0
Shallow d (done o) = depth o ≤ d
Shallow d fault = Unit
Shallow d tied = Unit
Shallow d too_deep = ⊥

abbrev ShallowFields : ℕ → Run Fields → Type 0
ShallowFields d (done fs) = depth_fields fs ≤ d
ShallowFields d fault = Unit
ShallowFields d tied = Unit
ShallowFields d too_deep = ⊥

abbrev Copies : ℕ → (Obj → Run Obj) → Type 0
Copies d copy = (o : Obj) → depth o ≤ d → Shallow d (copy o)

bind-Shallow :
    (d : ℕ) (r : Run Obj) (k : Obj → Run Obj)
    → Shallow d r
    → ((o : Obj) → depth o ≤ d → Shallow d (k o))
    → Shallow d (r >>= k)
bind-Shallow d (done o) k h next = next o h
bind-Shallow d fault k h next = tt
bind-Shallow d tied k h next = tt
bind-Shallow d too_deep k h next = elim h [ ]

bind-ShallowFields :
    (d : ℕ) (r : Run Obj) (k : Obj → Run Fields)
    → Shallow d r
    → ((o : Obj) → depth o ≤ d → ShallowFields d (k o))
    → ShallowFields d (r >>= k)
bind-ShallowFields d (done o) k h next = next o h
bind-ShallowFields d fault k h next = tt
bind-ShallowFields d tied k h next = tt
bind-ShallowFields d too_deep k h next = elim h [ ]

bind_fields-ShallowFields :
    (d : ℕ) (r : Run Fields) (k : Fields → Run Fields)
    → ShallowFields d r
    → ((fs : Fields) → depth_fields fs ≤ d → ShallowFields d (k fs))
    → ShallowFields d (r >>= k)
bind_fields-ShallowFields d (done fs) k h next = next fs h
bind_fields-ShallowFields d fault k h next = tt
bind_fields-ShallowFields d tied k h next = tt
bind_fields-ShallowFields d too_deep k h next = elim h [ ]

behind-ShallowFields :
    (d : ℕ) (j : Bytes) (w : Obj) (r : Run Fields)
    → depth w ≤ d
    → ShallowFields d r
    → ShallowFields d (r >>= λ fs. done (field j w fs))
unfolding depth_fields
behind-ShallowFields d j w (done fs) e h = omega arith
behind-ShallowFields d j w fault e h = tt
behind-ShallowFields d j w tied e h = tt
behind-ShallowFields d j w too_deep e h = elim h [ ]

seek-ShallowFields :
    (d : ℕ) (fs : Fields) (k : Bytes) (v : Obj)
    → depth_fields fs ≤ d
    → depth v ≤ d
    → ShallowFields d (seek fs k v)
unfolding seek depth_fields
seek-ShallowFields d end k v h e = tt
seek-ShallowFields d (field j w fs) k v h e = elim (Bool-cases (str_gt j k)) [
  | inl g ↦ rw g (omega arith)
  | inr g ↦ rw g (
      behind-ShallowFields d j w (seek fs k v) (omega arith)
        (seek-ShallowFields d fs k v (omega arith) e))
]
seek-ShallowFields d (ring j w i u) k v h e = elim (Bool-cases (str_gt j k)) [
  | inl g ↦ rw g (omega arith)
  | inr g ↦
      rw g (elim (Bool-cases (str_gt i k)) [ inl g' ↦ rw g' (omega arith) | inr g' ↦ rw g' tt ])
]

dict_put-ShallowFields :
    (d : ℕ) (fs : Fields) (k : Bytes) (v : Obj)
    → depth_fields fs ≤ d
    → depth v ≤ d
    → ShallowFields d (dict_put fs k v)
unfolding dict_put depth_fields
dict_put-ShallowFields d end k v h e = omega arith
dict_put-ShallowFields d (field j w fs) k v h e = elim (Bool-cases (str_gt j k)) [
  | inl g ↦ rw g (omega arith)
  | inr g ↦ rw g (seek-ShallowFields d (field j w fs) k v h e)
]
dict_put-ShallowFields d (ring j w i u) k v h e = elim (Bool-cases (str_gt j k)) [
  | inl g ↦ rw g (omega arith)
  | inr g ↦ rw g (seek-ShallowFields d (ring j w i u) k v h e)
]

copy_fields-ShallowFields :
    (d : ℕ) (copy : Obj → Run Obj) (fs c : Fields)
    → Copies d copy
    → depth_fields fs ≤ d
    → depth_fields c ≤ d
    → ShallowFields d (copy_fields copy fs c)
unfolding copy_fields depth_fields
copy_fields-ShallowFields d copy end c h e k = k
copy_fields-ShallowFields d copy (ring i u j v) c h e k = tt
copy_fields-ShallowFields d copy (field j v fs) c h e k =
    let later : (c' : Fields) → depth_fields c' ≤ d → ShallowFields d (copy_fields copy fs c') =
      λ c' hc. copy_fields-ShallowFields d copy fs c' h (omega arith) hc in
    bind-ShallowFields d (copy v)
      (λ w. copy w >>= λ u. dict_put c j u >>= λ c'. copy_fields copy fs c') (h v (omega arith))
      λ w hw.
        bind-ShallowFields d (copy w) (λ u. dict_put c j u >>= λ c'. copy_fields copy fs c')
          (h w hw)
          λ u hu.
            bind_fields-ShallowFields d (dict_put c j u) (λ c'. copy_fields copy fs c')
              (dict_put-ShallowFields d c j u k hu) later

copy_items-Shallow :
    (d : ℕ) (copy : Obj → Run Obj) (xs : Items)
    → Copies d copy
    → depth_items xs ≤ d
    → Shallow d (copy_items copy xs)
unfolding copy_items depth_items
copy_items-Shallow d copy nil h e = tt
copy_items-Shallow d copy (lost xs) h e = tt
copy_items-Shallow d copy (absent xs) h e = tt
copy_items-Shallow d copy (item v xs) h e =
    bind-Shallow d (copy v) (λ w. copy_items copy xs) (h v (omega arith))
      λ w hw. copy_items-Shallow d copy xs h (omega arith)

wrap_dict :
    (d : ℕ) (r : Run Fields) → ShallowFields d r → Shallow (suc d) (r >>= λ c. done (dict c))
unfolding depth
wrap_dict d (done c) h = omega arith
wrap_dict d fault h = tt
wrap_dict d tied h = tt
wrap_dict d too_deep h = elim h [ ]

weaken : (d e : ℕ) (r : Run Obj) → d ≤ e → Shallow d r → Shallow e r
weaken d e (done o) le h = omega arith
weaken d e fault le h = tt
weaken d e tied le h = tt
weaken d e too_deep le h = elim h [ ]

clone-Shallow : (n : ℕ) (o : Obj) → depth o ≤ n → Shallow n (clone n o)
unfolding clone depth
clone-Shallow zero (str b) h = absurd (omega arith)
clone-Shallow zero (int i) h = absurd (omega arith)
clone-Shallow zero (dict fs) h = absurd (omega arith)
clone-Shallow zero (list xs) h = absurd (omega arith)
clone-Shallow (suc n) (str b) h = omega arith
clone-Shallow (suc n) (int i) h = omega arith
clone-Shallow (suc n) (dict fs) h =
    wrap_dict n (copy_fields (clone n) fs end)
      (copy_fields-ShallowFields n (clone n) fs end (clone-Shallow n) (omega arith) (omega arith))
clone-Shallow (suc n) (list xs) h =
    weaken n (suc n) (copy_items (clone n) xs) (omega arith)
      (copy_items-Shallow n (clone n) xs (clone-Shallow n) (omega arith))

-- Entering any value ends within the fuel for its clone.
pub dict_set-total : (fs : Fields) (k : Bytes) (v : Obj) → dict_set fs k v ≢ too_deep
unfolding dict_set
dict_set-total fs k v e =
    let d = max (depth_fields fs) (depth v) in
    subst (ShallowFields d) e (
      bind-ShallowFields d (clone (depth v) v) (λ w. dict_put fs k w)
        (weaken (depth v) d (clone (depth v) v) (omega arith)
          (clone-Shallow (depth v) v (omega arith)))
        (λ w hw. dict_put-ShallowFields d fs k w (omega arith) hw))
