-- ===== src/Db/AvlTree/Nodes.antt =====
-- The list of nodes of db/avltree.h, searched by the hash of a key and changed through a pointer.
use boostcache.Prelude.{
  ℕ, ◌≡◌, ◌≢◌, refl, Option, none, some, List, [], ◌∷◌, ◌++◌, ◌==◌, if◌then◌else◌, All, arith,
}
use boostcache.Wire.{Bytes}
use boostcache.Db.AvlTree.{Node, node_at, write_value, erase_at}

-- The first node with a hash.
unfoldable pub node_of : ℕ → List Node → Option Node
node_of k [] = none
node_of k (n ∷ nodes) = if n.internal_key == k then some n else node_of k nodes

abbrev pub address_of : Option Node → Option ℕ
address_of none = none
address_of (some n) = some n.address

abbrev pub value_of : Option Node → Option Bytes
value_of none = none
value_of (some n) = some n.value

-- Two nodes share neither their address nor their hash.
abbrev pub Apart : Node → Node → Type 0
Apart n m = (m.address ≢ n.address) × (m.internal_key ≢ n.internal_key)

abbrev pub Distinct : List Node → Type 0
Distinct [] = Unit
Distinct (n ∷ nodes) = All (Apart n) nodes × Distinct nodes

-- No node behind a node with the address of one in front of it.
node_of_address :
    (n m : Node) (k : ℕ) (nodes : List Node)
    → All (Apart n) nodes
    → node_of k nodes ≡ some m
    → (m.address ≢ n.address) × (m.internal_key ≢ n.internal_key)
unfolding node_of
node_of_address n m k [] d h = absurd (ground arith)
node_of_address n m k (x ∷ nodes) d h = ground (arith, node_of_address n m k nodes d.1)

pub node_of_key :
    (k : ℕ) (nodes : List Node) (n : Node) → node_of k nodes ≡ some n → n.internal_key ≡ k
unfolding node_of
node_of_key k [] n h = ground arith
node_of_key k (x ∷ nodes) n h = ground (arith, node_of_key k nodes n)

-- The pointer that belongs to a hash leads to its node.
pub node_at-node_of :
    (k : ℕ) (nodes : List Node) (n : Node)
    → Distinct nodes
    → node_of k nodes ≡ some n
    → node_at n.address nodes ≡ some n
unfolding node_of node_at
node_at-node_of k [] n d h = ground arith
node_at-node_of k (x ∷ nodes) n d h =
    ground (arith, node_at-node_of k nodes n d.1, node_of_address x n k nodes d.0)

pub node_of-write_value :
    (k j : ℕ) (v : Bytes) (nodes : List Node) (n : Node)
    → Distinct nodes
    → node_of k nodes ≡ some n
    → node_of j (write_value n.address v nodes)
      ≡ (if k == j then some (record n { value = v }) else node_of j nodes)
unfolding node_of write_value
node_of-write_value k j v [] n d h = ground arith
node_of-write_value k j v (x ∷ nodes) n d h =
    ground (arith, node_of-write_value k j v nodes n d.1, node_of_address x n k nodes d.0)

node_of-Apart :
    (n : Node) (nodes : List Node) → All (Apart n) nodes → node_of n.internal_key nodes ≡ none
unfolding node_of
node_of-Apart n [] d = refl
node_of-Apart n (x ∷ nodes) d = ground (arith, node_of-Apart n nodes d.1)

pub node_of-erase_at :
    (k j : ℕ) (nodes : List Node) (n : Node)
    → Distinct nodes
    → node_of k nodes ≡ some n
    → node_of j (erase_at n.address nodes) ≡ (if k == j then none else node_of j nodes)
unfolding node_of erase_at
node_of-erase_at k j [] n d h = ground arith
node_of-erase_at k j (x ∷ nodes) n d h = ground (
  arith,
  node_of-erase_at k j nodes n d.1,
  node_of_address x n k nodes d.0,
  node_of-Apart x nodes d.0,
)

pub node_of-append :
    (j : ℕ) (nodes : List Node) (m : Node)
    → node_of m.internal_key nodes ≡ none
    → node_of j (nodes ++ m ∷ []) ≡ (if m.internal_key == j then some m else node_of j nodes)
unfolding node_of
node_of-append j [] m h = refl
node_of-append j (x ∷ nodes) m h = ground (arith, node_of-append j nodes m)
