-- ===== src/Hashmap/Heap.antt =====
-- The memory of the hash map: nodes at addresses, the anchors of the buckets, and the commands that
-- read and write them.
use i2p_lite.Base.{ℕ, Bool, false, not, ◌&&◌, ◌||◌, List, [], ◌∷◌, Option, none, some}
use i2p_lite.RouterInfo.{RouterInfo, free_info}
use i2p_lite.Base.{Bytes, update, ◌==◌, if◌then◌else◌}

abbrev pub Ptr : Type 0
Ptr = ℕ

abbrev pub null : Ptr
null = 0

-- `struct netdb_hash_node`
pub record Node : Type 0 where
  pub key : Bytes
  pub ri : ℕ
  pub next : Ptr

abbrev pub node : Bytes → ℕ → Ptr → Node
node k ri q = record { key = k; ri = ri; next = q }

-- `struct netdb_hashmap`, with the `next` field of each anchor, the heap, and the router infos
-- that have been freed, the last one first.
pub record Map : Type 0 where
  pub table : ℕ → Ptr
  pub sz : ℕ
  pub heap : Ptr → Option Node
  pub released : List ℕ

-- What a `struct netdb_hash_node **` points to: the `next` of an anchor or of a node.
pub data Link : Type 0 where
  anchor : ℕ → Link
  next_of : Ptr → Link

pub data Run (A : Type 0) : Type 0 where
  done : A → Map → Run A
  fault : Run A
  out_of_fuel : Run A

abbrev pub Cmd : Type 0 → Type 0
Cmd A = Map → Run A

abbrev pub pure : {A : Type 0} → A → Cmd A
pure a m = done a m

module _ {A B : Type 0} where
  abbrev pub bind_run : Run A → (A → Cmd B) → Run B
  bind_run (done a m) k = k a m
  bind_run fault k = fault
  bind_run out_of_fuel k = out_of_fuel

  infixl 5 ◌>>=◌ ◌>>◌
  abbrev pub ◌>>=◌ : Cmd A → (A → Cmd B) → Cmd B
  c >>= k = λ m. bind_run (c m) k

  abbrev pub ◌>>◌ : Cmd A → Cmd B → Cmd B
  c >> d = c >>= λ _. d

-- `*p`
unfoldable pub load : Ptr → Cmd Node
load p m = elim (m.heap p) [ none ↦ fault | some n ↦ done n m ]

-- `p->next = q`
unfoldable pub set_next : Ptr → Ptr → Cmd (Unit {0})
set_next p q m = elim (m.heap p) [
  | none ↦ fault
  | some n ↦ done tt (record m { heap = update m.heap p (some (record n { next = q })) })
]

-- `*link` and `*link = p`
unfoldable pub read_link : Link → Cmd Ptr
read_link (anchor s) m = done (m.table s) m
read_link (next_of p) m = elim (m.heap p) [ none ↦ fault | some n ↦ done n.next m ]

unfoldable pub write_link : Link → Ptr → Cmd (Unit {0})
write_link (anchor s) q m = done tt (record m { table = update m.table s q })
write_link (next_of p) q m = set_next p q m

-- A fresh node, zeroed and filled in; a failed allocation is written through, which is a fault.
unfoldable pub allocate : Ptr → Node → Cmd (Unit {0})
allocate p n m = if p == null then fault else done tt (record m { heap = update m.heap p (some n) })

-- `free(p)`
unfoldable pub free_node : Ptr → Cmd (Unit {0})
free_node p m = elim (m.heap p) [
  | none ↦ fault
  | some n ↦ done tt (record m { heap = update m.heap p none })
]

unfoldable pub is_released : ℕ → List ℕ → Bool
is_released ri [] = false
is_released ri (v ∷ vs) = (ri == v) || is_released ri vs

-- Whether `router_info_free` only frees what is there and has not been freed before.
abbrev pub can_release : (infos : ℕ → RouterInfo) → List ℕ → ℕ → Bool
can_release infos before ri = free_info (infos ri) && not (is_released ri before)

-- `router_info_free(&ri)`, where `infos` is what the router infos point to.
unfoldable pub release : (infos : ℕ → RouterInfo) → ℕ → Cmd (Unit {0})
release infos ri m =
    if can_release infos m.released ri
    then done tt (record m { released = ri ∷ m.released })
    else fault

unfoldable pub size_of : Cmd ℕ
size_of m = done m.sz m

unfoldable pub set_size : ℕ → Cmd (Unit {0})
set_size n m = done tt (record m { sz = n })
