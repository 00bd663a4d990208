-- ===== src/Db/Agreement.antt =====
-- The two databases against each other, and `AvlTree` against the contract: its keys are hashes.
use boostcache.Prelude.{
  ℕ, ◌≡◌, refl, sym, ap, ◌∙◌, Bool, Option, none, some, List, [], ◌∷◌, All, All-map, arith,
  if◌then◌else◌,
}
use boostcache.Wire.{Bytes}
use boostcache.Wire.Equality.{same_bytes, same_bytes_iff}
use boostcache.Wire.Decimal.{Decimal}
use boostcache.Reply.{reply_ok, to_reply_string}
use boostcache.JsVm.{V8}
use boostcache.UnorderedMap.{lookup}
use boostcache.Db.Contract.{
  found_reply, del_reply, Request, IsComputed, All-IsCovered, IsCovered, View, update, run,
  map_replies, map_after, run-map_replies,
}
use boostcache.Db.HashTable.{Table}
use boostcache.Db.HashTable.Laws.{table_view, IsMap}
use boostcache.Db.HashTable.Database.{hash_table_database}
use boostcache.Db.AvlTree.{OrderedSet, AvlTree, new_tree}
use boostcache.Db.AvlTree.Nodes.{node_of}
use boostcache.Db.AvlTree.Invariant.{IsValid, new_tree-IsValid}
use boostcache.Db.AvlTree.Database.{avl_tree_database, tree_view, same_hash}

module _ (p : Decimal) (v : V8) where
  -- Any requests to a hash table, FOR among them with functions that neither throw nor remember,
  -- are answered as a plain map with the table's view answers them, and leave a table with one
  -- entry at most for each key, which stands for the map that is left.
  pub hash_table_replies :
      (t : Table) (rs : List Request)
      → IsMap t
      → All (IsComputed v) rs
      → (t' : Table) × (run p v (hash_table_database v p) t rs
          ≡ some (t', map_replies p same_bytes (table_view t) rs))
        × IsMap t'
        × (table_view t' ≡ map_after same_bytes (table_view t) rs)
  hash_table_replies t rs m computed =
      run-map_replies p v (hash_table_database v p) t rs m (
        All-IsCovered p v (hash_table_database v p) rs (λ j k e. (same_bytes_iff j k).0 e) computed)

  -- A request to GET, SET or DEL one of some keys.
  abbrev pub IsAbout : (Bytes → Type 0) → Request → Type 0
  IsAbout Key (Request.get k) = Key k
  IsAbout Key (Request.del k) = Key k
  IsAbout Key (Request.set k w) = Key k
  IsAbout Key (Request.visit code g) = ⊥

  -- Maps that have the same values at some keys, which they tell apart alike.
  abbrev Alike : (Bytes → Type 0) → View → View → Type 0
  Alike Key m n = (k : Bytes) → Key k → m k ≡ n k

  module _ (same other : Bytes → Bytes → Bool) (Key : Bytes → Type 0)
      (tell : (j k : Bytes) → Key j → Key k → same j k ≡ other j k) where
    update-Alike :
        (m n : View) (k : Bytes) (w : Option Bytes)
        → Key k
        → Alike Key m n
        → Alike Key (update same m k w) (update other n k w)
    update-Alike m n k w at alike = λ j key i. if tell k j at key i then w else alike j key i

    map_replies-Alike :
        (m n : View) (rs : List Request)
        → Alike Key m n
        → All (IsAbout Key) rs
        → (map_replies p same m rs ≡ map_replies p other n rs)
          × Alike Key (map_after same m rs) (map_after other n rs)
    unfolding map_replies map_after
    map_replies-Alike m n [] alike about = (refl, alike)
    map_replies-Alike m n (Request.get k ∷ rs) alike about =
        let (replies, after) = map_replies-Alike m n rs alike about.1 in
        ((λ i. found_reply p (alike k about.0 i) ∷ replies i), after)
    map_replies-Alike m n (Request.del k ∷ rs) alike about =
        let (replies, after) =
          map_replies-Alike (update same m k none) (update other n k none) rs
            (update-Alike m n k none about.0 alike) about.1 in
        ((λ i. del_reply (alike k about.0 i) ∷ replies i), after)
    map_replies-Alike m n (Request.set k w ∷ rs) alike about =
        let (replies, after) =
          map_replies-Alike (update same m k (some w)) (update other n k (some w)) rs
            (update-Alike m n k (some w) about.0 alike) about.1 in
        (ap (λ l. reply_ok ∷ l) replies, after)
    map_replies-Alike m n (Request.visit code g ∷ rs) alike about = absurd about.0

  about-IsComputed : (Key : Bytes → Type 0) (r : Request) → IsAbout Key r → IsComputed v r
  about-IsComputed Key (Request.get k) about = tt
  about-IsComputed Key (Request.del k) about = tt
  about-IsComputed Key (Request.set k w) about = tt
  about-IsComputed Key (Request.visit code g) about = absurd about

  module _ (hash : Bytes → ℕ) (o : OrderedSet) where
    about-IsCovered :
        (Key : Bytes → Type 0) (r : Request)
        → IsAbout Key r
        → IsCovered p v (avl_tree_database hash o p v) r
    about-IsCovered Key (Request.get k) about = tt
    about-IsCovered Key (Request.del k) about = tt
    about-IsCovered Key (Request.set k w) about = tt
    about-IsCovered Key (Request.visit code g) about = absurd about

    -- Where no two of some keys have one hash, the two databases, both new, give the same replies to any
    -- GET, SET and DEL of these keys, and have the same values at them then.
    pub run_agree :
        (Key : Bytes → Type 0) (rs : List Request)
        → ((j k : Bytes) → Key j → Key k → hash j ≡ hash k → j ≡ k)
        → All (IsAbout Key) rs
        → (t : AvlTree hash o) × (h : Table) × (replies : List Bytes) × (run p v
              (avl_tree_database hash o p v)
              (new_tree hash o)
              rs
            ≡ some (t, replies))
          × (run p v (hash_table_database v p) [] rs ≡ some (h, replies))
          × ((k : Bytes) → Key k → tree_view hash o t k ≡ table_view h k)
    unfolding node_of lookup
    run_agree Key rs injective about =
        let d = avl_tree_database hash o p v in
        let tell : (j k : Bytes) → Key j → Key k → same_hash hash j k ≡ same_bytes j k =
          λ j k at at'.
            ground (arith, same_bytes_iff j k, injective j k at at', λ (e : j ≡ k). ap hash e) in
        let (t, tree_run, tv, tree_map) =
          run-map_replies p v d (new_tree hash o) rs (new_tree-IsValid hash o)
            (All-map (IsAbout Key) (IsCovered p v d) rs (about-IsCovered Key) about) in
        let (h, table_run, hm, table_map) =
          hash_table_replies [] rs tt
            (All-map (IsAbout Key) (IsComputed v) rs (about-IsComputed Key) about) in
        let (replies, after) =
          map_replies-Alike (same_hash hash) same_bytes Key tell (λ k. none) (λ k. none) rs
            (λ k at. refl) about in
        (
          t,
          h,
          map_replies p same_bytes (λ k. none) rs,
          tree_run ∙ ap (λ l. some (t, l)) replies,
          table_run,
          λ k at. ap (λ m. m k) tree_map ∙ after k at ∙ sym (ap (λ m. m k) table_map),
        )

    -- A collision: after SET of one key, GET of another key with the same hash answers with the value
    -- of the first, whatever stood there, and DEL of it removes that value.
    pub run_collision :
        (s : AvlTree hash o) (j k w : Bytes)
        → IsValid hash o s
        → hash k ≡ hash j
        → (s' : AvlTree hash o) × (run p v
              (avl_tree_database hash o p v)
              s
              (Request.set k w ∷ Request.get j ∷ Request.del j ∷ Request.get k ∷ [])
            ≡ some
                (s', reply_ok ∷ to_reply_string p w ∷ del_reply (some w) ∷ found_reply p none ∷ []))
    unfolding map_replies
    run_collision s j k w valid same =
        let rs : List Request =
          Request.set k w ∷ Request.get j ∷ Request.del j ∷ Request.get k ∷ [] in
        let (s', all, v', view) =
          run-map_replies p v (avl_tree_database hash o p v) s rs valid
            (tt, (tt, (tt, (tt, tt)))) in
        (s', ground (arith, all))
