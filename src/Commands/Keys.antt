-- ===== src/Commands/Keys.antt =====
-- The values behind a FOR of db/hashtable.cpp or db/avltree.cpp, as a client finds them.
use boostcache.Prelude.{
  ℕ, Option, ◌≡◌, refl, sym, ap, subst, Bool, List, [], ◌∷◌, All, arith, inl, inr, Bool-cases, ◌==◌,
}
use boostcache.Wire.{Bytes}
use boostcache.Wire.Equality.{same_bytes, same_bytes_iff}
use boostcache.UnorderedMap.{lookup}
use boostcache.JsVm.Passes.{Passed}
use boostcache.Db.HashTable
use boostcache.Db.HashTable.{Table, key_of, with_value}
use boostcache.Db.AvlTree.{Node, node_key, node_value, node_with}
use boostcache.Db.AvlTree.Nodes.{node_of, value_of}
use boostcache.Commands.{Platform}
use boostcache.Commands.Spec.{Revalued}

module _ (s : Platform) (code : Bytes) (done : Bool) where
  Revalued-cast :
      (IsKey : Bytes → Type 0) (x x' y y' : Option Bytes)
      → x ≡ x'
      → y ≡ y'
      → Revalued s code done IsKey x' y'
      → Revalued s code done IsKey x y
  Revalued-cast IsKey x x' y y' e f r =
      subst (λ z. Revalued s code done IsKey z y) (sym e)
        (subst (Revalued s code done IsKey x') (sym f) r)

  pub lookup-Revalued :
      (k : Bytes) (t u : Table)
      → Passed s.v8 code key_of HashTable.value_of with_value done t u
      → Revalued s code done (λ key. key ≡ k) (lookup k t) (lookup k u)
  unfolding lookup
  lookup-Revalued k [] [] p = inl (refl, inl refl)
  lookup-Revalued k [] (e ∷ u) p = absurd p
  lookup-Revalued k (e ∷ t) [] p = absurd p
  lookup-Revalued k ((i, v) ∷ t) ((j, w) ∷ u) p =
      let rest = lookup-Revalued k t u p.1 in
      elim (Bool-cases (same_bytes i k)) [
        | inl hit ↦ elim p.0 [
          | inl (x, e, ret) ↦
              let same : j ≡ i = ap (λ e. e.0) e in
              let new : w ≡ x = ap (λ e. e.1) e in
              inr (i, v, x, (same_bytes_iff i k).0 hit, ground arith, ground arith, ret)
          | inr (e, ended) ↦
              let same : j ≡ i = ap (λ e. e.0) e in
              let old : w ≡ v = ap (λ e. e.1) e in inl (ground arith, inr ended)
        ]
        | inr miss ↦
            let same : j ≡ i = elim p.0 [
              | inl (x, e, ret) ↦ ap (λ e. e.0) e
              | inr (e, ended) ↦ ap (λ e. e.0) e
            ] in
            Revalued-cast (λ key. key ≡ k) _ (lookup k t) _ (lookup k u) (ground arith)
              (ground arith) rest
      ]

  pub node_of-Revalued :
      (k : ℕ) (ms ns : List Node)
      → All (λ n. n.internal_key ≡ s.hash n.key) ms
      → Passed s.v8 code node_key node_value node_with done ms ns
      → Revalued s code done
          (λ key. s.hash key ≡ k)
          (value_of (node_of k ms))
          (value_of (node_of k ns))
  unfolding node_of
  node_of-Revalued k [] [] own p = inl (refl, inl refl)
  node_of-Revalued k [] (n ∷ ns) own p = absurd p
  node_of-Revalued k (m ∷ ms) [] own p = absurd p
  node_of-Revalued k (m ∷ ms) (n ∷ ns) own p =
      let rest = node_of-Revalued k ms ns own.1 p.1 in
      let same : n.internal_key ≡ m.internal_key = elim p.0 [
        | inl (x, e, ret) ↦ ap (λ n. n.internal_key) e
        | inr (e, ended) ↦ ap (λ n. n.internal_key) e
      ] in
      elim (Bool-cases (m.internal_key == k)) [
        | inl hit ↦ elim p.0 [
          | inl (x, e, ret) ↦
              let new : n.value ≡ x = ap (λ n. n.value) e in
              inr (m.key, m.value, x, ground (arith, own.0), ground arith, ground arith, ret)
          | inr (e, ended) ↦
              let old : n.value ≡ m.value = ap (λ n. n.value) e in inl (ground arith, inr ended)
        ]
        | inr miss ↦
            Revalued-cast (λ key. s.hash key ≡ k) _ (value_of (node_of k ms)) _
              (value_of (node_of k ns)) (ground arith) (ground arith) rest
      ]
