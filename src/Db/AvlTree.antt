-- ===== src/Db/AvlTree.antt =====
-- db/avltree.h and db/avltree.cpp. The nodes stand in the list `m_nodes`, which owns them, in the
-- order of their insertion; the tree orders pointers to them by the hash of the key alone.
-- `std::hash` and boost's intrusive tree are not the program's: both are parameters.
pub mod Nodes
pub mod Invariant
pub mod Foreach
pub mod Database
use boostcache.Prelude.{
  ℕ, ◌+◌, ◌≡◌, Bool, true, false, Option, none, some, ◌>>=◌, List, [], ◌∷◌, ◌++◌, get_elem?, ◌==◌,
  if◌then◌else◌,
}
use boostcache.Wire.{Bytes}
use boostcache.Wire.Decimal.{Decimal}
use boostcache.Reply.{reply_nil, reply_ok, reply_false, reply_true, reply_error, to_reply_string}
use boostcache.JsVm.{V8, init}
use boostcache.JsVm.Visit.{visit}
use boostcache.CommandHandler.State.{Arguments}

-- `Node`, with its address, and the fields of `Node::Data`. `listIterator` is the position of the
-- node itself in the list, so it is the address once more. `internalKey` is a `size_t`: each one is a
-- value of the hash, which the program's hash keeps below 2 ^ 64.
pub record Node : Type 0 where
  pub address : ℕ
  pub internal_key : ℕ
  pub key : Bytes
  pub value : Bytes

-- `boost::intrusive::avltree` of pointers, ordered by `internalKey`.
pub record OrderedSet : Type 1 where
  pub Tree : Type 0
  pub empty : Tree
  -- the address that is stored under a key; `none` is `end()`
  pub find : ℕ → Tree → Option ℕ
  -- `insert_unique` of an address under its key
  pub insert_unique : ℕ → ℕ → Tree → Tree
  -- `erase` of what is stored under a key
  pub erase : ℕ → Tree → Tree
  pub find-empty : (k : ℕ) → find k empty ≡ none
  -- a key that is there already is left as it is
  pub find-insert_unique :
      (k j a : ℕ) (t : Tree)
      → find k t ≡ none
      → find j (insert_unique k a t) ≡ (if k == j then some a else find j t)
  pub find-erase : (k j : ℕ) (t : Tree) → find j (erase k t) ≡ (if k == j then none else find j t)

-- The node at an address: `none` is a pointer to no node.
unfoldable pub node_at : ℕ → List Node → Option Node
node_at a [] = none
node_at a (n ∷ nodes) = if n.address == a then some n else node_at a nodes

-- A write through a pointer to a node.
unfoldable pub write_value : ℕ → Bytes → List Node → List Node
write_value a v [] = []
write_value a v (n ∷ nodes) =
    if n.address == a then record n { value = v } ∷ nodes else n ∷ write_value a v nodes

-- `m_nodes.erase(listIterator)`
unfoldable pub erase_at : ℕ → List Node → List Node
erase_at a [] = []
erase_at a (n ∷ nodes) = let rest = erase_at a nodes in if n.address == a then nodes else n ∷ rest

abbrev pub node_key : Node → Bytes
node_key n = n.key

abbrev pub node_value : Node → Bytes
node_value n = n.value

abbrev pub node_with : Node → Bytes → Node
node_with n s = record n { value = s }

abbrev pub visit_reply : Bool → Bytes
visit_reply true = reply_true
visit_reply false = reply_error

module _ (hash : Bytes → ℕ) (o : OrderedSet) where
  open o use {Tree}

  -- `m_nodes`, `*m_tree` and the allocator's next address.
  pub record AvlTree : Type 0 where
    pub nodes : List Node
    pub tree : Tree
    pub fresh : ℕ

  abbrev pub new_tree : AvlTree
  new_tree = record { nodes = []; tree = o.empty; fresh = 0 }

  -- `found->get().value`
  abbrev found_reply : Decimal → List Node → Option ℕ → Option Bytes
  found_reply p nodes none = some reply_nil
  found_reply p nodes (some a) = do n ← node_at a nodes; some (to_reply_string p n.value)

  unfoldable pub get : Decimal → AvlTree → Arguments → Option (AvlTree × Bytes)
  get p s args = do
    key ← get_elem? args 1
    reply ← found_reply p s.nodes (o.find (hash key) s.tree)
    some (s, reply)

  abbrev set_found : AvlTree → Bytes → Bytes → Option ℕ → AvlTree
  set_found s key value (some a) = record s { nodes = write_value a value s.nodes }
  set_found s key value none = record {
    nodes =
        s.nodes
        ++ record { address = s.fresh; internal_key = hash key; key = key; value = value } ∷ [];
    tree = o.insert_unique (hash key) s.fresh s.tree;
    fresh = s.fresh + 1;
  }

  unfoldable pub set : AvlTree → Arguments → Option (AvlTree × Bytes)
  set s args = do
    key ← get_elem? args 1
    value ← get_elem? args 2
    some (set_found s key value (o.find (hash key) s.tree), reply_ok)

  -- `erase_and_dispose(found, m_deleteDisposer)`
  abbrev del_found : AvlTree → Bytes → Option ℕ → AvlTree × Bytes
  del_found s key none = (s, reply_false)
  del_found s key (some a) =
      (record s { nodes = erase_at a s.nodes; tree = o.erase (hash key) s.tree }, reply_true)

  unfoldable pub del : AvlTree → Arguments → Option (AvlTree × Bytes)
  del s args = do key ← get_elem? args 1; some (del_found s key (o.find (hash key) s.tree))

  module _ (v : V8) where
    abbrev run_pass : AvlTree → Option (V8.Value v) → Option (AvlTree × Bytes)
    run_pass s none = some (s, reply_error)
    run_pass s (some f) = do
      (nodes, done) ← visit v node_key node_value node_with f s.nodes
      some (record s { nodes = nodes }, visit_reply done)

    unfoldable pub foreach : AvlTree → Arguments → Option (AvlTree × Bytes)
    foreach s args = do code ← get_elem? args 1; run_pass s (init v code)
