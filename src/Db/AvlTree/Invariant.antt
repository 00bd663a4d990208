-- ===== src/Db/AvlTree/Invariant.antt =====
-- The tree and the list of nodes of db/avltree.h, under the operations of db/avltree.cpp.
use boostcache.Prelude.{
  ℕ, ◌+◌, ◌<◌, ◌≡◌, refl, ap, ◌∙◌, Option, none, some, List, [], ◌∷◌, ◌++◌, ◌==◌, if◌then◌else◌,
  All, All-append_one, arith, Option-cases, inl, inr,
}
use boostcache.Wire.{Bytes}
use boostcache.Wire.Decimal.{Decimal}
use boostcache.Reply.{reply_ok}
use boostcache.Db.Contract.{found_reply, del_reply}
use boostcache.Db.AvlTree.{
  Node, OrderedSet, AvlTree, new_tree, write_value, erase_at, get, set, del,
}
use boostcache.Db.AvlTree.Nodes.{
  node_of, address_of, value_of, Apart, Distinct, node_at-node_of, node_of-write_value,
  node_of-erase_at, node_of-append,
}

-- Properties of each node that a write of a value does not touch.
All-write_value :
    (P : Node → Type 0) (a : ℕ) (v : Bytes) (nodes : List Node)
    → ((n : Node) → P n → P (record n { value = v }))
    → All P nodes
    → All P (write_value a v nodes)
unfolding write_value
All-write_value P a v [] keep h = tt
All-write_value P a v (n ∷ nodes) keep h =
    ground (arith, keep n h.0, All-write_value P a v nodes keep h.1)

Distinct-write_value :
    (a : ℕ) (v : Bytes) (nodes : List Node) → Distinct nodes → Distinct (write_value a v nodes)
unfolding write_value
Distinct-write_value a v [] d = tt
Distinct-write_value a v (n ∷ nodes) d =
    ground (
      arith,
      Distinct-write_value a v nodes d.1,
      All-write_value (Apart n) a v nodes (λ m h. h) d.0,
    )

All-erase_at :
    (P : Node → Type 0) (a : ℕ) (nodes : List Node) → All P nodes → All P (erase_at a nodes)
unfolding erase_at
All-erase_at P a [] h = tt
All-erase_at P a (n ∷ nodes) h = ground (arith, All-erase_at P a nodes h.1)

Distinct-erase_at : (a : ℕ) (nodes : List Node) → Distinct nodes → Distinct (erase_at a nodes)
unfolding erase_at
Distinct-erase_at a [] d = tt
Distinct-erase_at a (n ∷ nodes) d =
    ground (arith, Distinct-erase_at a nodes d.1, All-erase_at (Apart n) a nodes d.0)

Distinct-append :
    (nodes : List Node) (m : Node)
    → All (λ n. n.address < m.address) nodes
    → node_of m.internal_key nodes ≡ none
    → Distinct nodes
    → Distinct (nodes ++ m ∷ [])
unfolding node_of
Distinct-append [] m below absent d = (tt, tt)
Distinct-append (n ∷ nodes) m below absent d = (
  All-append_one (Apart n) nodes m d.0 (ground arith, ground arith),
  Distinct-append nodes m below.1 (ground arith) d.1,
)

All-weaken :
    (a : ℕ) (nodes : List Node)
    → All (λ n. n.address < a) nodes
    → All (λ n. n.address < a + 1) nodes
All-weaken a [] h = tt
All-weaken a (n ∷ nodes) h = (omega (arith, h.0), All-weaken a nodes h.1)

module _ (hash : Bytes → ℕ) (o : OrderedSet) where
  pub record IsValid (s : AvlTree hash o) : Type 0 where
    -- the tree leads from a hash to the node that has it, and to nothing else
    pub indexed : (k : ℕ) → o.find k s.tree ≡ address_of (node_of k s.nodes)
    pub distinct : Distinct s.nodes
    pub allocated : All (λ n. n.address < s.fresh) s.nodes
    pub hashed : All (λ n. n.internal_key ≡ hash n.key) s.nodes

  -- What a client can find: a value for a hash.
  abbrev pub at_hash : AvlTree hash o → ℕ → Option Bytes
  at_hash s k = value_of (node_of k s.nodes)

  pub new_tree-IsValid : IsValid (new_tree hash o)
  unfolding node_of
  new_tree-IsValid = record {
    indexed = λ k. o.find-empty k;
    distinct = tt;
    allocated = tt;
    hashed = tt;
  }

  -- GET reads what stands at the hash of its key, and changes nothing; no pointer dangles.
  pub get_lem :
      (p : Decimal) (s : AvlTree hash o) (name key : Bytes) (rest : List Bytes)
      → IsValid s
      → get hash o p s (name ∷ key ∷ rest) ≡ some (s, found_reply p (at_hash s (hash key)))
  unfolding get
  get_lem p s name key rest v = elim (Option-cases (node_of (hash key) s.nodes)) [
    | inl e ↦ ground (arith, v.indexed (hash key))
    | inr (n, e) ↦
        ground (arith, v.indexed (hash key), node_at-node_of (hash key) s.nodes n v.distinct e)
  ]

  -- The state after a SET: the node at the hash is written, or a new one is put in.
  abbrev set_state : AvlTree hash o → Bytes → Bytes → Option Node → AvlTree hash o
  set_state s key value none = record {
    nodes =
        s.nodes
        ++ record { address = s.fresh; internal_key = hash key; key = key; value = value } ∷ [];
    tree = o.insert_unique (hash key) s.fresh s.tree;
    fresh = s.fresh + 1;
  }
  set_state s key value (some n) = record s { nodes = write_value n.address value s.nodes }

  -- What an operation that changes the state leaves: a valid state and a reply, and the view that
  -- is stated.
  abbrev pub Leaves : Option (AvlTree hash o × Bytes) → Bytes → (ℕ → Option Bytes) → Type 0
  Leaves result reply view =
      (s' : AvlTree hash o) × (result ≡ some (s', reply))
      × IsValid s'
      × ((k : ℕ) → at_hash s' k ≡ view k)

  set_new :
      (s : AvlTree hash o) (key value : Bytes)
      → IsValid s
      → node_of (hash key) s.nodes ≡ none
      → IsValid (set_state s key value none)
        × ((k : ℕ)
            → at_hash (set_state s key value none) k
              ≡ (if hash key == k then some value else at_hash s k))
  set_new s key value v absent =
      let m : Node = record {
        address = s.fresh;
        internal_key = hash key;
        key = key;
        value = value;
      } in
      let free : o.find (hash key) s.tree ≡ none = v.indexed (hash key) ∙ ap address_of absent in
      (
        record {
          indexed = λ k. ground (
            arith,
            o.find-insert_unique (hash key) k s.fresh s.tree,
            node_of-append k s.nodes m,
            v.indexed k,
          );
          distinct = Distinct-append s.nodes m v.allocated absent v.distinct;
          allocated =
              All-append_one (λ n. n.address < s.fresh + 1) s.nodes m
                (All-weaken s.fresh s.nodes v.allocated) (omega arith);
          hashed = All-append_one (λ n. n.internal_key ≡ hash n.key) s.nodes m v.hashed refl;
        },
        λ k. ground (arith, node_of-append k s.nodes m),
      )

  set_old :
      (s : AvlTree hash o) (key value : Bytes) (n : Node)
      → IsValid s
      → node_of (hash key) s.nodes ≡ some n
      → IsValid (set_state s key value (some n))
        × ((k : ℕ)
            → at_hash (set_state s key value (some n)) k
              ≡ (if hash key == k then some value else at_hash s k))
  set_old s key value n v e = (
    record {
      indexed = λ k.
          ground (arith, node_of-write_value (hash key) k value s.nodes n v.distinct, v.indexed k);
      distinct = Distinct-write_value n.address value s.nodes v.distinct;
      allocated =
          All-write_value (λ m. m.address < s.fresh) n.address value s.nodes (λ m h. h) v.allocated;
      hashed =
          All-write_value (λ m. m.internal_key ≡ hash m.key) n.address value s.nodes (λ m h. h)
            v.hashed;
    },
    λ k. ground (arith, node_of-write_value (hash key) k value s.nodes n v.distinct),
  )

  -- SET answers OK and makes its value the one at the hash of its key; every other hash is as it was.
  pub set_lem :
      (s : AvlTree hash o) (name key value : Bytes) (rest : List Bytes)
      → IsValid s
      → Leaves
          (set hash o s (name ∷ key ∷ value ∷ rest))
          reply_ok
          (λ k. if hash key == k then some value else at_hash s k)
  unfolding set
  set_lem s name key value rest v = elim (Option-cases (node_of (hash key) s.nodes)) [
    | inl e ↦
        let (valid, view) = set_new s key value v e in
        (set_state s key value none, ground (arith, v.indexed (hash key)), valid, view)
    | inr (n, e) ↦
        let (valid, view) = set_old s key value n v e in
        (set_state s key value (some n), ground (arith, v.indexed (hash key)), valid, view)
  ]

  del_old :
      (s : AvlTree hash o) (key : Bytes) (n : Node)
      → IsValid s
      → node_of (hash key) s.nodes ≡ some n
      → IsValid (record s { nodes = erase_at n.address s.nodes; tree = o.erase (hash key) s.tree })
        × ((k : ℕ)
            → value_of (node_of k (erase_at n.address s.nodes))
              ≡ (if hash key == k then none else at_hash s k))
  del_old s key n v e = (
    record {
      indexed = λ k. ground (
        arith,
        o.find-erase (hash key) k s.tree,
        node_of-erase_at (hash key) k s.nodes n v.distinct,
        v.indexed k,
      );
      distinct = Distinct-erase_at n.address s.nodes v.distinct;
      allocated = All-erase_at (λ m. m.address < s.fresh) n.address s.nodes v.allocated;
      hashed = All-erase_at (λ m. m.internal_key ≡ hash m.key) n.address s.nodes v.hashed;
    },
    λ k. ground (arith, node_of-erase_at (hash key) k s.nodes n v.distinct),
  )

  -- DEL answers whether there was a value at the hash of its key, and leaves none there; every
  -- other hash is as it was.
  pub del_lem :
      (s : AvlTree hash o) (name key : Bytes) (rest : List Bytes)
      → IsValid s
      → Leaves
          (del hash o s (name ∷ key ∷ rest))
          (del_reply (at_hash s (hash key)))
          (λ k. if hash key == k then none else at_hash s k)
  unfolding del
  del_lem s name key rest v = elim (Option-cases (node_of (hash key) s.nodes)) [
    | inl e ↦ (s, ground (arith, v.indexed (hash key)), v, λ k. ground arith)
    | inr (n, e) ↦
        let (valid, view) = del_old s key n v e in
        (
          record s { nodes = erase_at n.address s.nodes; tree = o.erase (hash key) s.tree },
          ground (arith, v.indexed (hash key)),
          valid,
          view,
        )
  ]
