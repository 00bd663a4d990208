-- ===== src/Db/AvlTree/Foreach.antt =====
-- `foreach` of db/avltree.cpp, which writes values in place.
use boostcache.Prelude.{
  ℕ, ◌<◌, ◌≡◌, refl, sym, subst, ◌∙◌, Bool, false, Option, none, some, List, [], ◌∷◌, All, arith,
  Option-cases, inl, inr,
}
use boostcache.Wire.{Bytes}
use boostcache.JsVm.{V8, call, init}
use boostcache.JsVm.Passes.{IsCallable, visit_defined, made, Passed, Passed-refl, visit-Passed}
use boostcache.JsVm.Visit.{visit}
use boostcache.Db.AvlTree.{
  Node, OrderedSet, AvlTree, node_key, node_value, node_with, visit_reply, foreach,
}
use boostcache.Db.AvlTree.Nodes.{node_of, address_of, Apart, Distinct}
use boostcache.Db.AvlTree.Invariant.{IsValid}

-- The same nodes, up to their values.
abbrev pub SameNodes : List Node → List Node → Type 0
SameNodes [] [] = Unit
SameNodes (m ∷ ms) (n ∷ ns) =
    (m.address ≡ n.address) × (m.internal_key ≡ n.internal_key) × (m.key ≡ n.key) × SameNodes ms ns
SameNodes _ _ = ⊥

SameNodes-refl : (ns : List Node) → SameNodes ns ns
SameNodes-refl [] = tt
SameNodes-refl (n ∷ ns) = (refl, refl, refl, SameNodes-refl ns)

visit-SameNodes :
    (v : V8) (f : V8.Value v) (nodes after : List Node) (done : Bool)
    → visit v node_key node_value node_with f nodes ≡ some (after, done)
    → SameNodes after nodes
unfolding visit
visit-SameNodes v f [] after done run =
    let e : [] ≡ after = ground arith in subst (λ ms. SameNodes ms []) e tt
visit-SameNodes v f (n ∷ nodes) after done run = elim (Option-cases (call v f n.key n.value)) [
  | inl e ↦ absurd (ground arith)
  | inr ((none, f'), e) ↦
      let stay : n ∷ nodes ≡ after = ground arith in
      subst (λ ms. SameNodes ms (n ∷ nodes)) stay (SameNodes-refl (n ∷ nodes))
  | inr ((some new, f'), e) ↦ elim (Option-cases (visit v node_key node_value node_with f' nodes)) [
    | inl e' ↦ absurd (ground arith)
    | inr ((rest, d), e') ↦
        let written : node_with n new ∷ rest ≡ after = ground arith in
        subst (λ ms. SameNodes ms (n ∷ nodes)) written
          (refl, refl, refl, visit-SameNodes v f' nodes rest d e')
  ]
]

Same-node_of :
    (k : ℕ) (ms ns : List Node)
    → SameNodes ms ns
    → address_of (node_of k ms) ≡ address_of (node_of k ns)
unfolding node_of
Same-node_of k [] [] same = refl
Same-node_of k [] (n ∷ ns) same = absurd same
Same-node_of k (m ∷ ms) [] same = absurd same
Same-node_of k (m ∷ ms) (n ∷ ns) same = ground (arith, Same-node_of k ms ns same.3)

Same-Apart :
    (m n : Node) (ms ns : List Node)
    → m.address ≡ n.address
    → m.internal_key ≡ n.internal_key
    → SameNodes ms ns
    → All (Apart n) ns
    → All (Apart m) ms
Same-Apart m n [] [] e h same d = tt
Same-Apart m n [] (y ∷ ns) e h same d = absurd same
Same-Apart m n (x ∷ ms) [] e h same d = absurd same
Same-Apart m n (x ∷ ms) (y ∷ ns) e h same d =
    ((ground arith, ground arith), Same-Apart m n ms ns e h same.3 d.1)

Same-Distinct : (ms ns : List Node) → SameNodes ms ns → Distinct ns → Distinct ms
Same-Distinct [] [] same d = tt
Same-Distinct [] (n ∷ ns) same d = absurd same
Same-Distinct (m ∷ ms) [] same d = absurd same
Same-Distinct (m ∷ ms) (n ∷ ns) same d =
    (Same-Apart m n ms ns same.0 same.1 same.3 d.0, Same-Distinct ms ns same.3 d.1)

Same-allocated :
    (a : ℕ) (ms ns : List Node)
    → SameNodes ms ns
    → All (λ n. n.address < a) ns
    → All (λ n. n.address < a) ms
Same-allocated a [] [] same d = tt
Same-allocated a [] (n ∷ ns) same d = absurd same
Same-allocated a (m ∷ ms) [] same d = absurd same
Same-allocated a (m ∷ ms) (n ∷ ns) same d = (ground arith, Same-allocated a ms ns same.3 d.1)

Same-hashed :
    (hash : Bytes → ℕ) (ms ns : List Node)
    → SameNodes ms ns
    → All (λ n. n.internal_key ≡ hash n.key) ns
    → All (λ n. n.internal_key ≡ hash n.key) ms
Same-hashed hash [] [] same d = tt
Same-hashed hash [] (n ∷ ns) same d = absurd same
Same-hashed hash (m ∷ ms) [] same d = absurd same
Same-hashed hash (m ∷ ms) (n ∷ ns) same d = (ground arith, Same-hashed hash ms ns same.3 d.1)

pub Same-IsValid :
    (hash : Bytes → ℕ) (o : OrderedSet) (s : AvlTree hash o) (ms : List Node)
    → SameNodes ms s.nodes
    → IsValid hash o s
    → IsValid hash o (record s { nodes = ms })
Same-IsValid hash o s ms same v = record {
  indexed = λ k. v.indexed k ∙ sym (Same-node_of k ms s.nodes same);
  distinct = Same-Distinct ms s.nodes same v.distinct;
  allocated = Same-allocated s.fresh ms s.nodes same v.allocated;
  hashed = Same-hashed hash ms s.nodes same v.hashed;
}

module _ (hash : Bytes → ℕ) (o : OrderedSet) (v : V8) where
  -- The same keys in the same order, each at its own hash, with the values that the function of a
  -- code has returned.
  pub record Visited (s : AvlTree hash o) (code : Bytes) (result : Option (AvlTree hash o × Bytes))
      : Type 0 where
    pub tree : AvlTree hash o
    pub done : Bool
    pub run : result ≡ some (tree, visit_reply done)
    pub valid : IsValid hash o tree
    pub same : SameNodes tree.nodes s.nodes
    pub passed : Passed v code node_key node_value node_with done s.nodes tree.nodes

  foreach-Visited :
      (s : AvlTree hash o) (name code : Bytes) (rest : List Bytes)
      → ((f : V8.Value v)
          → init v code ≡ some f
          → (after : List Node) × (done : Bool) × (visit v node_key node_value node_with f s.nodes
              ≡ some (after, done)))
      → IsValid hash o s
      → Visited s code (foreach hash o v s (name ∷ code ∷ rest))
  unfolding foreach
  foreach-Visited s name code rest passes valid = elim (Option-cases (init v code)) [
    | inl e ↦ record {
      tree = s;
      done = false;
      run = ground arith;
      valid = valid;
      same = SameNodes-refl s.nodes;
      passed = Passed-refl v code node_key node_value node_with s.nodes;
    }
    | inr (f, e) ↦
        let (after, done, pass) = passes f e in
        let same : SameNodes after s.nodes = visit-SameNodes v f s.nodes after done pass in
        record {
          tree = record s { nodes = after };
          done = done;
          run = ground (arith, pass, e);
          valid = Same-IsValid hash o s after same valid;
          same = same;
          passed =
              visit-Passed v code node_key node_value node_with f s.nodes after done (made f e)
                pass;
        }
  ]

  -- The same of any run that is defined.
  pub foreach_run :
      (s : AvlTree hash o) (name code : Bytes) (rest : List Bytes) (r : AvlTree hash o × Bytes)
      → IsValid hash o s
      → foreach hash o v s (name ∷ code ∷ rest) ≡ some r
      → Visited s code (foreach hash o v s (name ∷ code ∷ rest))
  unfolding foreach
  foreach_run s name code rest r valid run =
      foreach-Visited s name code rest (λ f e. passes f e run) valid
    where
      passes :
          (f : V8.Value v)
          → init v code ≡ some f
          → foreach hash o v s (name ∷ code ∷ rest) ≡ some r
          → (after : List Node) × (done : Bool) × (visit v node_key node_value node_with f s.nodes
              ≡ some (after, done))
      passes f e h = elim (Option-cases (visit v node_key node_value node_with f s.nodes)) [
        | inl undefined ↦ absurd (ground (arith, undefined, e))
        | inr ((after, done), pass) ↦ (after, done, pass)
      ]

  pub foreach_lem :
      (s : AvlTree hash o) (name code : Bytes) (rest : List Bytes)
      → IsCallable v code
      → IsValid hash o s
      → Visited s code (foreach hash o v s (name ∷ code ∷ rest))
  foreach_lem s name code rest callable valid =
      foreach-Visited s name code rest
        (λ f e. visit_defined v code node_key node_value node_with callable f s.nodes (made f e))
        valid
