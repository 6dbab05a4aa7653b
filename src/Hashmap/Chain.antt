-- ===== src/Hashmap/Chain.antt =====
-- What the chains of the hash map stand for, and total runs of commands.
use i2p_lite.Base.{
  ℕ, ◌≡◌, ◌≢◌, Bool, true, false, ◌||◌, List, [], ◌∷◌, Option, none, some, arith, sym, ap, ◌∙◌,
  Bool-cases, inl, inr,
}
use i2p_lite.Base.{Bytes, bytes_eq, ◌==◌, if◌then◌else◌, All}
use i2p_lite.Hashmap.Heap.{Ptr, null, Node, node, Map, Run, done}

-- A node with its address.
pub record Cell : Type 0 where
  pub addr : Ptr
  pub key : Bytes
  pub ri : ℕ

abbrev pub cell : Ptr → Bytes → ℕ → Cell
cell a k v = record { addr = a; key = k; ri = v }

-- Whether an address is that of one of the cells.
abbrev pub holds : Ptr → List Cell → Bool
holds a [] = false
holds a (c ∷ cs) = (a == c.addr) || holds a cs

-- From `p` on the `next` pointers lead through the distinct nodes `cs` to NULL.
pub data Chain (h : Ptr → Option Node) : Ptr → List Cell → Type 0 where
  nil : {p : Ptr} → p ≡ null → Chain h p []
  cons :
      {p q : Ptr} {k : Bytes} {v : ℕ} {cs : List Cell}
      → p ≢ null
      → h p ≡ some (node k v q)
      → holds p cs ≡ false
      → Chain h q cs
      → Chain h p (cell p k v ∷ cs)

-- A chain is kept by every change outside of it.
pub frame :
    {h g : Ptr → Option Node} {p : Ptr} {cs : List Cell}
    → Chain h p cs
    → ((a : Ptr) → holds a cs ≡ true → g a ≡ h a)
    → Chain g p cs
frame (nil e) same = nil e
frame (cons {p} ne e out rest) same =
    cons ne (ground (arith, same p)) out (frame rest λ a i. same a (ground arith))

-- The value of the first cell with a key.
unfoldable pub find : Bytes → List Cell → Option ℕ
find k [] = none
find k (c ∷ cs) = if bytes_eq c.key k then some c.ri else find k cs

unfoldable pub contains : Bytes → List Cell → Bool
contains k [] = false
contains k (c ∷ cs) = bytes_eq c.key k || contains k cs

-- A run that ends without a fault and within its fuel, in a state with a property.
pub data Returns {A : Type 0} (P : A → Map → Type 0) : Run A → Type 0 where
  returns : {a : A} {m : Map} → P a m → Returns P (done a m)

-- A map with the chains of its buckets: the keys of a bucket belong there.
pub record IsMap (slot : Bytes → ℕ) (m : Map) (bs : ℕ → List Cell) : Type 0 where
  pub chains : (s : ℕ) → Chain m.heap (m.table s) (bs s)
  pub slots : (s : ℕ) → All (λ (c : Cell). slot c.key ≡ s) (bs s)

pub mono :
    {A : Type 0} {P Q : A → Map → Type 0} {r : Run A}
    → Returns P r
    → ((a : A) (m : Map) → P a m → Q a m)
    → Returns Q r
mono (returns p) weaken = returns (weaken _ _ p)

-- The node at an address of a chain belongs to the chain's bucket.
pub node_at :
    (slot : Bytes → ℕ) {h : Ptr → Option Node} {p : Ptr} {cs : List Cell} (s a : ℕ)
    → Chain h p cs
    → All (λ (c : Cell). slot c.key ≡ s) cs
    → holds a cs ≡ true
    → (n : Node) × (h a ≡ some n) × (slot n.key ≡ s)
node_at slot s a (nil e) all i = cc
node_at slot s a (cons {p} {q} {k} {v} ne e out rest) all i = elim (Bool-cases (a == p)) [
  | inl here ↦ (node k v q, ground arith, all.0)
  | inr there ↦ node_at slot s a rest all.1 (ground arith)
]

-- No address is in the chains of two buckets.
pub not-holds_other :
    {slot : Bytes → ℕ} {m : Map} {bs : ℕ → List Cell}
    → IsMap slot m bs
    → (s t a : ℕ) → s ≢ t
    → holds a (bs t) ≡ true
    → holds a (bs s) ≡ false
not-holds_other {slot} {m} {bs} is s t a ne i = elim (Bool-cases (holds a (bs s))) [
  | inl j ↦
      let (n, e, x) = node_at slot s a (is.chains s) (is.slots s) j in
      let (n', e', x') = node_at slot t a (is.chains t) (is.slots t) i in
      let same : n ≡ n' = cc in absurd (ne (sym x ∙ ap (λ (l : Node). slot l.key) same ∙ x'))
  | inr out ↦ out
]
