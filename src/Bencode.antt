-- ===== src/Bencode.antt =====
-- mnet/bencode.c: bencoded objects in memory.
-- An object has one of four kinds. The list of a dictionary begins with a node that has no key, and
-- the list of a list ends with a node whose value is NULL: neither is written here. A string is the
-- list of its bytes, and its data are NULL if there are none; a key is a C string.
pub mod Dict
pub mod Write
pub mod Encode
pub mod Written
pub mod Read
pub mod Ends
pub mod Calm
pub mod Mismatch
pub mod Short
mod Tests
use Prim.Native.Nat.{max}
use i2p_lite.Base.{ℕ, zero, suc, ◌+◌, Bool, true, false, ◌&&◌, [], ◌∷◌, Option, none, some, ℤ}
use i2p_lite.Base.{Bytes, ltb, ◌==◌, if◌then◌else◌, length}

-- `struct bencode_obj`, `struct bencode_list_node` and `struct bencode_dict_node`. A list can hold
-- pointers to objects that have been freed (`lost`), and NULL (`absent`). A `ring` is the last two nodes
-- of a chain that has been tied into a loop: the second one points back to the first.
mutual
  pub data Obj : Type 0 where
    str : Bytes → Obj
    int : ℤ → Obj
    dict : Fields → Obj
    list : Items → Obj

  pub data Items : Type 0 where
    nil : Items
    item : Obj → Items → Items
    lost absent : Items → Items

  pub data Fields : Type 0 where
    end : Fields
    field : Bytes → Obj → Fields → Fields
    ring : Bytes → Obj → Bytes → Obj → Fields

-- `bencode_obj_str`, `bencode_obj_int`, `bencode_obj_dict` and `bencode_obj_list`
abbrev pub new_str : Bytes → Obj
new_str b = str b

abbrev pub new_int : ℤ → Obj
new_int i = int i

abbrev pub new_dict : Obj
new_dict = dict end

abbrev pub new_list : Obj
new_list = list nil

-- `bencode_obj_free`: whether it only frees what has not been freed before.
unfoldable mutual
  pub free : Obj → Bool
  free (str b) = true
  free (int i) = true
  free (dict fs) = free_fields fs
  free (list xs) = free_items xs

  pub free_fields : Fields → Bool
  free_fields end = true
  free_fields (field k v fs) = free v && free_fields fs
  free_fields (ring j w k v) = false

  pub free_items : Items → Bool
  free_items nil = true
  free_items (item v xs) = free v && free_items xs
  free_items (lost xs) = false
  free_items (absent xs) = free_items xs

-- `bencode_obj_getstr`: the data and their size, or `none` for the return of -1.
abbrev pub getstr : Obj → Option Bytes
getstr (str b) = some b
getstr (int i) = none
getstr (dict fs) = none
getstr (list xs) = none

-- `bencode_obj_getint`
abbrev pub getint : Obj → Option ℤ
getint (str b) = none
getint (int i) = some i
getint (dict fs) = none
getint (list xs) = none

-- `bencode_obj_is_dict` and `bencode_obj_is_list`
abbrev pub is_dict : Obj → Bool
is_dict (str b) = false
is_dict (int i) = false
is_dict (dict fs) = true
is_dict (list xs) = false

abbrev pub is_list : Obj → Bool
is_list (str b) = false
is_list (int i) = false
is_list (dict fs) = false
is_list (list xs) = true

-- `strcmp(s, t) > 0`, by the bytes as `unsigned char`
abbrev pub str_gt : Bytes → Bytes → Bool
str_gt [] t = false
str_gt (a ∷ s) [] = true
str_gt (a ∷ s) (b ∷ t) = if a == b then str_gt s t else ltb b a

-- A fault is an access through NULL or to a freed object. `tied` is a call that goes round the loop of a
-- tied chain and does not return, and `too_deep` the end of the fuel of `clone`.
pub data Run (A : Type 0) : Type 0 where
  done : A → Run A
  fault tied too_deep : Run A

infixl 5 ◌>>=◌
abbrev pub ◌>>=◌ : {A B : Type 0} → Run A → (A → Run B) → Run B
done a >>= k = k a
fault >>= k = fault
tied >>= k = tied
too_deep >>= k = too_deep

-- The loop of `bencode_obj_dict_set` from its second round on, where `curr` and `next` are one node, and
-- the linking behind it. Without a greater key `curr` becomes NULL at the end of the chain, and a ring is
-- never left. Behind a greater key the new node is linked in behind `curr` and points to `next`, the same
-- node: what was behind is lost.
unfoldable pub seek : Fields → Bytes → Obj → Run Fields
seek end k v = fault
seek (field j w fs) k v =
    let behind = seek fs k v in
    if str_gt j k then done (ring j w k v) else (behind >>= λ fs'. done (field j w fs'))
seek (ring j w i u) k v =
    if str_gt j k
    then done (ring j w k v)
    else if str_gt i k
    then done (field j w (ring i u k v))
    else tied

-- `bencode_obj_dict_set`, for the value that `bencode_obj_clone` has given. In the first round `curr`
-- is the node without a key, and `next` the first one with a key.
unfoldable pub dict_put : Fields → Bytes → Obj → Run Fields
dict_put end k v = done (field k v end)
dict_put (field j w fs) k v =
    if str_gt j k then done (field k v (field j w fs)) else seek (field j w fs) k v
dict_put (ring j w i u) k v =
    if str_gt j k then done (field k v (ring j w i u)) else seek (ring j w i u) k v

-- Whether a chain has been tied into a loop.
abbrev pub is_tied : Fields → Bool
is_tied end = false
is_tied (field k v fs) = is_tied fs
is_tied (ring j w k v) = true

-- How deep the objects in an object are nested.
unfoldable mutual
  pub depth : Obj → ℕ
  depth (str b) = 1
  depth (int i) = 1
  depth (dict fs) = suc (depth_fields fs)
  depth (list xs) = suc (depth_items xs)

  pub depth_fields : Fields → ℕ
  depth_fields end = 0
  depth_fields (field k v fs) = max (depth v) (depth_fields fs)
  depth_fields (ring j w k v) = max (depth w) (depth v)

  pub depth_items : Items → ℕ
  depth_items nil = 0
  depth_items (item v xs) = max (depth v) (depth_items xs)
  depth_items (lost xs) = depth_items xs
  depth_items (absent xs) = depth_items xs

-- `bencode_obj_iter_dict` with `_bencode_dict_copy`, where `copy` is `bencode_obj_clone`: a value is
-- cloned here, and once more by `bencode_obj_dict_set`.
unfoldable pub copy_fields : (copy : Obj → Run Obj) → Fields → Fields → Run Fields
copy_fields copy end c = done c
copy_fields copy (ring j w k v) c = tied
copy_fields copy (field k v fs) c =
    copy v >>= λ w. copy w >>= λ u. dict_put c k u >>= λ c'. copy_fields copy fs c'

-- `bencode_obj_iter_list` with `_bencode_list_copy`: the NULL of the last node is given to the
-- callback too.
unfoldable pub copy_items : (copy : Obj → Run Obj) → Items → Run Obj
copy_items copy nil = fault
copy_items copy (item v xs) = copy v >>= λ w. copy_items copy xs
copy_items copy (lost xs) = fault
copy_items copy (absent xs) = fault

-- `bencode_obj_clone`, on fuel for the depth.
unfoldable pub clone : ℕ → Obj → Run Obj
clone zero o = too_deep
clone (suc n) (str b) = done (str b)
clone (suc n) (int i) = done (int i)
clone (suc n) (dict fs) = copy_fields (clone n) fs end >>= λ c. done (dict c)
clone (suc n) (list xs) = copy_items (clone n) xs

-- `bencode_obj_dict_set`: the depth of the value is enough fuel.
unfoldable pub dict_set : Fields → Bytes → Obj → Run Fields
dict_set fs k v = clone (depth v) v >>= λ w. dict_put fs k w

-- `bencode_obj_list_append`: the object itself is put into the last node, not a copy of it.
abbrev pub list_append : Items → Obj → Items
list_append nil v = item v nil
list_append (item w xs) v = item w (list_append xs v)
list_append (lost xs) v = lost (list_append xs v)
list_append (absent xs) v = absent (list_append xs v)
