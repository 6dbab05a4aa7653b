-- ===== src/RouterInfo/Laws.antt =====
-- mnet/ri.c: what is loaded from a file, and what becomes of it.
use i2p_lite.Base.{
  ℕ, ◌+◌, ◌*◌, ◌≤◌, ◌≡◌, ◌≢◌, not, ◌&&◌, refl, subst, ap, Bool, true, false, Option, none, some,
  arith, inl, inr, Bool-cases,
}
use i2p_lite.Base.{Bytes, codes, length}
use i2p_lite.Memory.{Host}
use i2p_lite.Sodium.{Sodium}
use i2p_lite.Bencode.{Obj, str, int, dict, list, Fields, end, field, ring, is_tied, free}
use i2p_lite.Bencode.Write.{is_positive}
use i2p_lite.Bencode.Read.{Outcome, got, crash, looped, out_of_fuel, read_file}
use i2p_lite.Bencode.Ends.{read_file-total}
use i2p_lite.Bencode.Short.{ShortKeys, ShortDict, Gives, read_file-ShortDict}
use i2p_lite.Identity.Unreadable.{bytes_eq-shorter}
use i2p_lite.RouterInfo.{
  RouterInfo, ReadCtx, InfoRead, returned, crashed, endless, fuel_end, new, process, iter_dict,
  freeing, from_obj, from_outcome, load, free_info, info_hash,
}

abbrev Blank : InfoRead → Type 0
Blank (returned b ri) = ri ≡ new
Blank crashed = Unit
Blank endless = Unit
Blank fuel_end = Unit

abbrev start : ReadCtx
start = record { ri = new; freed = false }

freeing-Blank : (b : Bool) (o : Obj) → Blank (freeing b o (some start))
freeing-Blank b o = elim (Bool-cases (free o)) [ inl e ↦ rw e refl | inr e ↦ rw e tt ]

module _ (n : Sodium) (host : Host) where
  iter_dict-ShortKeys :
      (fs : Fields) (ctx : ReadCtx) → ShortKeys fs → iter_dict n host fs ctx ≡ some ctx
  unfolding iter_dict process ShortKeys
  iter_dict-ShortKeys end ctx h = refl
  iter_dict-ShortKeys (ring i u j v) ctx h = refl
  iter_dict-ShortKeys (field k v fs) ctx h =
      let short : length k ≤ 1 = h.0 in
      rw
        (
          bytes_eq-shorter k (codes "caps") (omega arith),
          bytes_eq-shorter k (codes "iwp") (omega arith),
          bytes_eq-shorter k (codes "ident") (omega arith),
        )
        (iter_dict-ShortKeys fs ctx h.1)

  from_obj-Blank : (b : Bool) (o : Option Obj) → ShortDict o → Blank (from_obj n host b new o)
  from_obj-Blank true none h = tt
  from_obj-Blank true (some (str b)) h = refl
  from_obj-Blank true (some (int i)) h = refl
  from_obj-Blank true (some (list xs)) h = freeing-Blank false (list xs)
  from_obj-Blank true (some (dict fs)) h =
      rw (iter_dict-ShortKeys fs start h) (elim (Bool-cases (is_tied fs)) [
        | inl tied ↦ rw tied tt
        | inr straight ↦ rw straight (freeing-Blank true (dict fs))
      ])
  from_obj-Blank false none h = refl
  from_obj-Blank false (some o) h = freeing-Blank false o

  from_outcome-Blank :
      (r : Outcome (Option Obj)) → Gives ShortDict r → Blank (from_outcome n host new r)
  from_outcome-Blank (got o s) h = from_obj-Blank (is_positive s.read) o h
  from_outcome-Blank crash h = tt
  from_outcome-Blank looped h = tt
  from_outcome-Blank out_of_fuel h = tt

  -- Whatever a file holds, loading it into a new router info leaves it as it was, with success or
  -- without; its hash then reads through NULL, and so does freeing it.
  pub load-new :
      (fuel : ℕ) (input : Bytes) (b : Bool) (ri : RouterInfo)
      → load n host fuel new input ≡ returned b ri
      → (ri ≡ new) × (info_hash n ri ≡ none) × (free_info ri ≡ false)
  unfolding load info_hash free_info
  load-new fuel input b ri e =
      let blank : ri ≡ new =
        subst Blank e
          (from_outcome-Blank (read_file fuel input) (read_file-ShortDict fuel input)) in
      (blank, ap (info_hash n) blank, ap free_info blank)

-- Results other than running out of fuel.
abbrev Ended : InfoRead → Type 0
Ended (returned b ri) = Unit
Ended crashed = Unit
Ended endless = Unit
Ended fuel_end = ⊥

freeing-Ended : (b : Bool) (o : Obj) (c : Option ReadCtx) → Ended (freeing b o c)
freeing-Ended b o none = tt
freeing-Ended b o (some ctx) = elim (Bool-cases (not ctx.freed && free o)) [
  | inl fine ↦ rw fine tt
  | inr not_fine ↦ rw not_fine tt
]

module _ (n : Sodium) (host : Host) where
  from_obj-Ended : (b : Bool) (o : Option Obj) → Ended (from_obj n host b new o)
  from_obj-Ended true none = tt
  from_obj-Ended true (some (str b)) = tt
  from_obj-Ended true (some (int i)) = tt
  from_obj-Ended true (some (list xs)) = freeing-Ended false (list xs) (some start)
  from_obj-Ended true (some (dict fs)) = elim (Bool-cases (is_tied fs)) [
    | inl tied ↦ rw tied tt
    | inr straight ↦ rw straight (freeing-Ended true (dict fs) (iter_dict n host fs start))
  ]
  from_obj-Ended false none = tt
  from_obj-Ended false (some o) = freeing-Ended false o (some start)

  from_outcome-Ended :
      (r : Outcome (Option Obj)) → r ≢ out_of_fuel → Ended (from_outcome n host new r)
  from_outcome-Ended (got o s) h = from_obj-Ended (is_positive s.read) o
  from_outcome-Ended crash h = tt
  from_outcome-Ended looped h = tt
  from_outcome-Ended out_of_fuel h = absurd (h refl)

  -- Twice the bytes of the file and two more are enough fuel.
  pub load-total :
      (fuel : ℕ) (input : Bytes)
      → 2 * length input + 2 ≤ fuel
      → load n host fuel new input ≢ fuel_end
  unfolding load
  load-total fuel input h e =
      subst Ended e (from_outcome-Ended (read_file fuel input) (read_file-total fuel input h))
