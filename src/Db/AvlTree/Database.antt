-- ===== src/Db/AvlTree/Database.antt =====
-- The tree of db/avltree.cpp as a database of the contract, with `foreach`.
use boostcache.Prelude.{
  ℕ, ◌≡◌, refl, fun_ext, Bool, true, Option, none, some, List, [], ◌∷◌, All, map, length, arith,
  ◌==◌,
}
use boostcache.Wire.{Bytes}
use boostcache.Wire.Decimal.{Decimal}
use boostcache.Reply.{reply_ok}
use boostcache.JsVm.{V8}
use boostcache.JsVm.Visit.{visit}
use boostcache.JsVm.Pure.{Function, Computes, replaced, visit-map}
use boostcache.Db.Contract.{
  Database, View, Leaves, TellsKeys, found_reply, del_reply, for_reply, at_value, update,
  replace_all,
}
use boostcache.Db.AvlTree.{
  Node, OrderedSet, AvlTree, get, set, del, foreach, node_key, node_value, node_with,
}
use boostcache.Db.AvlTree.Nodes.{node_of, value_of}
use boostcache.Db.AvlTree.Foreach.{SameNodes, Same-IsValid}
use boostcache.Db.AvlTree.Invariant.{IsValid, at_hash, get_lem, set_lem, del_lem}

-- The tree does not tell keys with one hash apart.
abbrev pub same_hash : (Bytes → ℕ) → Bytes → Bytes → Bool
same_hash hash j k = hash j == hash k

module _ (v : V8) where
  abbrev node_after : Function → Node → Node
  node_after = replaced v node_key node_value node_with

  Same-after : (g : Function) (nodes : List Node) → SameNodes (map (node_after g) nodes) nodes
  Same-after g [] = tt
  Same-after g (n ∷ nodes) = (refl, refl, refl, Same-after g nodes)

  -- The node at the hash of a key is the one of the key.
  node_of-after :
      (hash : Bytes → ℕ) (g : Function) (k : Bytes) (nodes : List Node)
      → All (λ n. n.internal_key ≡ hash n.key) nodes
      → TellsKeys (λ i j. hash i == hash j)
      → value_of (node_of (hash k) (map (node_after g) nodes))
        ≡ at_value g k (value_of (node_of (hash k) nodes))
  unfolding node_of
  node_of-after hash g k [] own tells = refl
  node_of-after hash g k (n ∷ nodes) own tells =
      ground (arith, own.0, tells n.key k, node_of-after hash g k nodes own.1 tells)

module _ (hash : Bytes → ℕ) (o : OrderedSet) where
  abbrev pub tree_view : AvlTree hash o → View
  tree_view s k = at_hash hash o s (hash k)

  module _ (p : Decimal) (v : V8) where
    pub get_law :
        (s : AvlTree hash o) (name key : Bytes) (rest : List Bytes)
        → IsValid hash o s
        → Leaves
            (IsValid hash o)
            tree_view
            (get hash o p s (name ∷ key ∷ rest))
            (found_reply p (tree_view s key))
            (tree_view s)
    get_law s name key rest v = (s, get_lem hash o p s name key rest v, v, refl)

    pub set_law :
        (s : AvlTree hash o) (name key value : Bytes) (rest : List Bytes)
        → IsValid hash o s
        → Leaves
            (IsValid hash o)
            tree_view
            (set hash o s (name ∷ key ∷ value ∷ rest))
            reply_ok
            (update (same_hash hash) (tree_view s) key (some value))
    set_law s name key value rest v =
        let (s', run, v', view) = set_lem hash o s name key value rest v in
        (s', run, v', fun_ext (λ j. view (hash j)))

    pub del_law :
        (s : AvlTree hash o) (name key : Bytes) (rest : List Bytes)
        → IsValid hash o s
        → Leaves
            (IsValid hash o)
            tree_view
            (del hash o s (name ∷ key ∷ rest))
            (del_reply (tree_view s key))
            (update (same_hash hash) (tree_view s) key none)
    del_law s name key rest v =
        let (s', run, v', view) = del_lem hash o s name key rest v in
        (s', run, v', fun_ext (λ j. view (hash j)))

    -- FOR with a function that neither throws nor remembers replaces every value, where the hash
    -- tells all keys apart.
    pub foreach_law :
        (s : AvlTree hash o) (name code : Bytes) (rest : List Bytes) (g : Option Function)
        → IsValid hash o s
        → Computes v code g
        → TellsKeys (same_hash hash)
        → Leaves
            (IsValid hash o)
            tree_view
            (foreach hash o v s (name ∷ code ∷ rest))
            (for_reply g)
            (replace_all g (tree_view s))
    unfolding foreach
    foreach_law s name code rest none valid fails tells = (s, ground (arith, fails), valid, refl)
    foreach_law s name code rest (some g) valid (f, made, stays) tells =
        let after : List Node = map (node_after v g) s.nodes in
        let pass : visit v node_key node_value node_with f s.nodes ≡ some (after, true) =
          visit-map v node_key node_value node_with g f s.nodes (stays (length s.nodes)) in
        (
          record s { nodes = after },
          ground (arith, made, pass),
          Same-IsValid hash o s after (Same-after v g s.nodes) valid,
          fun_ext (λ k. node_of-after v hash g k s.nodes valid.hashed tells),
        )

    abbrev pub avl_tree_database : Database p v
    avl_tree_database = record {
      State = AvlTree hash o;
      IsValid = IsValid hash o;
      view = tree_view;
      same = same_hash hash;
      get = get hash o p;
      set = set hash o;
      del = del hash o;
      foreach = foreach hash o v;
      get_law = get_law;
      set_law = set_law;
      del_law = del_law;
      foreach_law = foreach_law;
    }
