-- ===== src/Identity/Unreadable.antt =====
-- mnet_identity_keys_read of mnet/identity.c never finds a key.
use i2p_lite.Base.{
  ℕ, ◌<◌, ◌≤◌, ◌≡◌, ◌≢◌, refl, subst, ap, false, Option, none, some, ℤ, pos, negsuc, arith, inl,
  inr, Bool-cases,
}
use i2p_lite.Base.{Bytes, bytes_eq, bytes_eq→eq, length}
use i2p_lite.Sodium.{Sodium}
use i2p_lite.Bencode.{
  Obj, str, int, dict, list, Fields, end, field, ring, is_tied, free, free_fields,
}
use i2p_lite.Bencode.Write.{is_failed}
use i2p_lite.Bencode.Read.{Outcome, got, crash, looped, out_of_fuel, read_file}
use i2p_lite.Bencode.Short.{ShortKeys, ShortDict, Gives, read_file-ShortDict}
use i2p_lite.Identity.Keys.{
  Keys, IterCtx, KeysRead, returned, crashed, endless, fuel_end, key_name, iter_entry, iter_dict,
  from_obj, from_outcome, read,
}

-- A shorter string is another one.
pub bytes_eq-shorter : (k t : Bytes) → length k < length t → bytes_eq k t ≡ false
bytes_eq-shorter k t h = elim (Bool-cases (bytes_eq k t)) [
  | inl e ↦ let same : length k ≡ length t = ap length (bytes_eq→eq k t e) in absurd (omega arith)
  | inr e ↦ e
]

abbrev searching : IterCtx
searching = record { eddsa = none; success = false; freed = false }

module _ (n : Sodium) where
  iter_dict-ShortKeys : (fs : Fields) → ShortKeys fs → iter_dict n fs searching ≡ searching
  unfolding iter_dict iter_entry ShortKeys
  iter_dict-ShortKeys end h = refl
  iter_dict-ShortKeys (ring i u j v) h = refl
  iter_dict-ShortKeys (field k v fs) h =
      let short : length k ≤ 1 = h.0 in
      rw (bytes_eq-shorter k key_name (omega arith)) (iter_dict-ShortKeys fs h.1)

  abbrev Keyless : KeysRead → Type 0
  Keyless (returned r k rest) = r ≢ pos 1
  Keyless crashed = Unit
  Keyless endless = Unit
  Keyless fuel_end = Unit

  abbrev magnitude : ℤ → ℕ
  magnitude (pos m) = m
  magnitude (negsuc m) = 0

  other_number : (r : ℤ) → magnitude r ≡ 0 → r ≢ pos 1
  other_number r z e = let same : magnitude r ≡ 1 = ap magnitude e in absurd (omega arith)

  from_obj-Keyless :
      (k : Keys) (o : Option Obj) (rest : Bytes) → ShortDict o → Keyless (from_obj n k o rest)
  from_obj-Keyless k none rest h = tt
  from_obj-Keyless k (some (str b)) rest h = other_number (pos 0) refl
  from_obj-Keyless k (some (int i)) rest h = other_number (pos 0) refl
  from_obj-Keyless k (some (list xs)) rest h = elim (Bool-cases (free (list xs))) [
    | inl e ↦ rw e (other_number (pos 0) refl)
    | inr e ↦ rw e tt
  ]
  from_obj-Keyless k (some (dict fs)) rest h =
      rw (iter_dict-ShortKeys fs h) (elim (Bool-cases (is_tied fs)) [
        | inl tied ↦ rw tied tt
        | inr straight ↦ rw straight (elim (Bool-cases (free_fields fs)) [
          | inl e ↦ rw e (other_number (pos 0) refl)
          | inr e ↦ rw e tt
        ])
      ])

  from_outcome-Keyless :
      (k : Keys) (r : Outcome (Option Obj)) → Gives ShortDict r → Keyless (from_outcome n k r)
  from_outcome-Keyless k (got o s) h = elim (Bool-cases (is_failed s.read)) [
    | inl e ↦ rw e (other_number (negsuc 0) refl)
    | inr e ↦ rw e (from_obj-Keyless k o s.rest h)
  ]
  from_outcome-Keyless k crash h = tt
  from_outcome-Keyless k looped h = tt
  from_outcome-Keyless k out_of_fuel h = tt

  -- No input is ever loaded as keys: the result is never 1, whatever the keys were before.
  pub keys_read-never :
      (fuel : ℕ) (k k' : Keys) (input rest : Bytes) → read n fuel k input ≢ returned (pos 1) k' rest
  unfolding read
  keys_read-never fuel k k' input rest e =
      subst Keyless e
        (from_outcome-Keyless k (read_file fuel input) (read_file-ShortDict fuel input)) refl
