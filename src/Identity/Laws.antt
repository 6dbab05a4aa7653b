-- ===== src/Identity/Laws.antt =====
-- mnet/identity.c: what becomes of keys that are saved, and of identities that are read and printed.
use i2p_lite.Base.{
  take-all, ℕ, zero, suc, ◌+◌, ◌*◌, ◌-◌, ◌<◌, ◌≡◌, refl, sym, subst, ap, ◌∙◌, true, false, [], ◌∷◌,
  ◌++◌, Option, none, some, arith, negsuc, inl, inr, Bool-cases, length-append, take-length-append,
}
use i2p_lite.Base.{Bytes, codes, length, take, drop, replicate, ltb, leb, ◌==◌, if◌then◌else◌}
use i2p_lite.Memory.{Host}
use i2p_lite.Stdio.{fread, fread-one}
use i2p_lite.Encoding.{encode_str as encode_base64}
use i2p_lite.Cert.{Cert, copy_from, buffer, buffer_length}
use i2p_lite.Sodium.{Sodium, Documented}
use i2p_lite.Eddsa.{Verify, verify_new, Sign, hash, sign_new, sign_data, keygen, copy_key_data}
use i2p_lite.Eddsa.Sane.{keygen-Signs}
use i2p_lite.Bencode.{str, dict, Fields, end, field, clone, depth, dict_put, dict_set}
use i2p_lite.Numerals.{decimal, decimal_from}
use i2p_lite.Bencode.Encode.{encode, encode_fields, encode_str, Listless, ListlessFields}
use i2p_lite.Bencode.Written.{write_file-encode}
use i2p_lite.Bencode.Read.{read_file, read_obj, read_fields}
use i2p_lite.Bencode.Mismatch.{read_str-digit}
use i2p_lite.Identity.{Identity, identity, read, verify_data, base64_size, to_base64}
use i2p_lite.Identity.Keys.{
  Keys, returned, key_name, cert_name, to_fields, write as keys_write, read as keys_read,
}

-- The dictionary in the file of saved keys, with the certificate in front, and its bencoding.
abbrev pub saved_fields : Sodium → Sign → Cert → Fields
saved_fields n s c =
    field cert_name (str (take (buffer_length c) (buffer c)))
      (field key_name (str (copy_key_data n s)) end)

abbrev pub saved : Sodium → Sign → Cert → Bytes
saved n s c = encode (dict (saved_fields n s c))

abbrev pub keys : Sign → Option Verify → Cert → Keys
keys s v c = record { ident = some (record { cert = some c; eddsa = v }); eddsa = some s }

-- The keys of an identity with a certificate are saved as a dictionary of the certificate and the
-- seed, as far as the stream takes it, and saving them reports success if it takes all.
pub keys_write-saved :
    (n : Sodium) (s : Sign) (v : Option Verify) (c : Cert) (room : ℕ)
    → keys_write n (keys s v c) room
      ≡ some (leb (length (saved n s c)) room, take room (saved n s c))
unfolding keys_write to_fields dict_set clone depth dict_put Listless ListlessFields
keys_write-saved n s v c room =
    rw (write_file-encode (dict (saved_fields n s c)) room (tt, (tt, tt)))
      (elim (Bool-cases (leb (length (saved n s c)) room)) [
        | inl e ↦ rw e refl
        | inr e ↦ rw e refl
      ])

-- Reading stops at the first letters of the first key: its length is read as 0, and its first
-- letter as a value, which fails.
read-stops :
    (n : Sodium) (fuel : ℕ) (k : Keys) (rest : Bytes)
    → keys_read n (suc (suc (suc fuel))) k (codes "d4:ce" ++ rest) ≡ returned (negsuc 0) k rest
unfolding keys_read read_file read_obj read_fields
read-stops n fuel k rest = rw (read_str-digit b'4' 2 (codes "ce" ++ rest)) refl

saved-starts :
    (n : Sodium) (s : Sign) (c : Cert) → saved n s c ≡ codes "d4:ce" ++ drop 5 (saved n s c)
unfolding encode encode_fields encode_str decimal decimal_from
saved-starts n s c = refl

-- Keys that have been saved as a whole can not be loaded: the result is -1, and the keys in memory
-- stay as they were.
pub keys_read-saved :
    (n : Sodium) (s : Sign) (v : Option Verify) (c : Cert) (room fuel : ℕ) (out : Bytes) (k : Keys)
    → keys_write n (keys s v c) room ≡ some (true, out)
    → keys_read n (suc (suc (suc fuel))) k out ≡ returned (negsuc 0) k (drop 5 out)
keys_read-saved n s v c room fuel out k h =
    let e : some (leb (length (saved n s c)) room, take room (saved n s c)) ≡ some (true, out) =
      sym (keys_write-saved n s v c room) ∙ h in
    let fits : leb (length (saved n s c)) room ≡ true =
      ap (λ o. elim o [ none ↦ true | some r ↦ r.0 ]) e in
    let all : saved n s c ≡ out =
      sym (take-all room (saved n s c) (ground arith))
      ∙ ap (λ o. elim o [ none ↦ [] | some r ↦ r.1 ]) e in
    subst (λ b. keys_read n (suc (suc (suc fuel))) k b ≡ returned (negsuc 0) k (drop 5 b)) all
      (ap (keys_read n (suc (suc (suc fuel))) k) (saved-starts n s c)
        ∙ read-stops n fuel k (drop 5 (saved n s c)))

-- An identity can not be read from a stream: with keys of two bytes or more, the call fails behind
-- the key, whatever the stream holds, and leaves the identity as it was.
pub read-fails :
    (n : Sodium) (host : Host) (i : Identity) (input : Bytes)
    → 1 < n.public_key_bytes
    → read n host i input
      ≡ record { result = false; identity = i; rest = drop (n.public_key_bytes * 1) input }
unfolding read
read-fails n host i input h =
    let one = fread-one n.public_key_bytes input in
    let short : ((fread n.public_key_bytes 1 input).items == n.public_key_bytes) ≡ false =
      ground arith in
    rw short refl

-- The identity of generated keys accepts the signature of every message's hash, for every
-- certificate and whatever follows the signature in memory.
pub verify_data-generated :
    (n : Sodium) (d : Documented n) (c : Option Cert) (random message tail : Bytes)
    → let (priv, pub_key) = keygen n random in
      verify_data n
        (record { cert = c; eddsa = some (verify_new pub_key) })
        message
        (sign_data n (sign_new n priv) (hash n message) ++ tail)
      ≡ some true
unfolding verify_data copy_from
verify_data-generated n d c random message tail =
    let (priv, pub_key) = keygen n random in
    let sig = sign_data n (sign_new n priv) (hash n message) in
    let size : length sig ≡ n.signature_bytes =
      d.signature_size (hash n message) (sign_new n priv).secret_key in
    let whole : length (sig ++ tail) ≡ length sig + length tail = length-append sig tail in
    let enough : ltb (length (sig ++ tail)) (0 + n.signature_bytes) ≡ false = ground arith in
    let front : take n.signature_bytes (sig ++ tail) ≡ sig =
      ap (λ z. take z (sig ++ tail)) (sym size) ∙ take-length-append sig tail in
    rw (enough, front, (keygen-Signs n d random (hash n message)).0) refl

drop_append-eq :
    (m : ℕ) (a b z : Bytes)
    → length a ≡ length b
    → drop m a ≡ drop m b
    → drop m (a ++ z) ≡ drop m (b ++ z)
drop_append-eq zero a b z l e = ap (λ x. x ++ z) e
drop_append-eq (suc m) [] [] z l e = refl
drop_append-eq (suc m) [] (y ∷ b) z l e = absurd (omega arith)
drop_append-eq (suc m) (x ∷ a) [] z l e = absurd (omega arith)
drop_append-eq (suc m) (x ∷ a) (y ∷ b) z l e = drop_append-eq m a b z (omega arith) e

-- The base 64 form of an identity has lost the beginning of its key: two keys of one length that
-- agree behind as many bytes as the certificate has give the same text.
pub to_base64-overwritten :
    (n : Sodium) (v w : Verify) (c : Cert)
    → length (take n.public_key_bytes v.public_key) ≡ length (take n.public_key_bytes w.public_key)
    → drop (buffer_length c) (take n.public_key_bytes v.public_key)
      ≡ drop (buffer_length c) (take n.public_key_bytes w.public_key)
    → to_base64 n (identity v c) ≡ to_base64 n (identity w c)
unfolding to_base64
to_base64-overwritten n v w c l e =
    let sz = buffer_length c in
    let kv = take n.public_key_bytes v.public_key in
    let kw = take n.public_key_bytes w.public_key in
    let zeros = λ (k : ℕ). replicate (base64_size - k) 0 in
    let same : drop sz (kv ++ zeros (length kv)) ≡ drop sz (kw ++ zeros (length kw)) =
      drop_append-eq sz kv kw (zeros (length kv)) l e ∙ ap (λ k. drop sz (kw ++ zeros k)) l in
    ap
      (λ rest. some (
        if leb (sz + n.public_key_bytes) base64_size
        then some (encode_base64 (take (sz + n.public_key_bytes) (take sz (buffer c) ++ rest)))
        else none))
      same
