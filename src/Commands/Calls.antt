-- ===== src/Commands/Calls.antt =====
-- The calls of what `find` of kernel/commands.cpp returns: arguments, states and replies.
use boostcache.Prelude.{
  none, ◌++◌, Bool, true, false, ◌≡◌, ◌∙◌, refl, sym, subst, ◌%◌, ◌^◌, Option, some, List, [], ◌∷◌,
  length, arith, ap, fun_ext, ℕ,
}
use boostcache.Wire.{Bytes, Int32}
use boostcache.Reply.{to_reply_string, to_error_reply_string}
use boostcache.Commands.Keys.{lookup-Revalued, node_of-Revalued}
use boostcache.Commands.Spec.{
  Store, visitor, pass_reply, hashed, ordered, maps, Answer, listed, pinged, versioned, got, put,
  deleted, visited, unknown, miscounted, counts,
}
use boostcache.JsVm.Passes.{IsCallable}
use boostcache.Db.HashTable
use boostcache.Db.HashTable.Laws.{IsMap}
use boostcache.Db.HashTable.Laws
use boostcache.Db.HashTable.Foreach.{foreach_keys, foreach_run}
use boostcache.Db.AvlTree
use boostcache.Db.AvlTree.Invariant
use boostcache.Db.AvlTree.Foreach
use boostcache.Db.AvlTree.Foreach.{foreach_lem}
use boostcache.Commands.{
  Platform, Commands, command_table, new_commands, Callback, commands_list, ping_pong, version,
  hash_get, hash_set, hash_del, hash_for, avl_get, avl_set, avl_del, avl_for, Bound,
  not_implemented, malformed_arguments, registered, find, call, call_bound, executor,
  not_implemented_yet, malformed_arguments_reply, commands_list_reply, names, on_hash_table,
  on_avl_tree,
}
use boostcache.Commands.Table.{
  FindOutcome, Accepts, all_commands, command_name, command_table-eq-all_commands, find-FindOutcome,
}

hash_reply : (done : Bool) → HashTable.visit_reply done ≡ pass_reply done
hash_reply true = refl
hash_reply false = refl

avl_reply : (done : Bool) → AvlTree.visit_reply done ≡ pass_reply done
avl_reply true = refl
avl_reply false = refl

module _ (s : Platform) where
  -- The table is the constructor's, and both databases are well-formed.
  pub record IsValid (c : Commands s) : Type 0 where
    pub whole : c.table ≡ command_table
    pub is_map : IsMap c.db_hash_table
    pub tree : AvlTree.Invariant.IsValid s.hash s.set c.db_avl_tree

  pub new_commands-IsValid : IsValid (new_commands s)
  new_commands-IsValid = record {
    whole = refl;
    is_map = tt;
    tree = AvlTree.Invariant.new_tree-IsValid s.hash s.set;
  }

  -- A call of a command by a name is defined, leaves a valid state, and is one of the answers that
  -- are specified.
  abbrev pub Replies : Commands s → Bytes → List Bytes → Option (Commands s × Bytes) → Type 0
  Replies c name args result =
      (c' : Commands s) × (reply : Bytes) × (result ≡ some (c', reply))
      × IsValid c'
      × Answer s name args (maps s c) reply (maps s c')

  on_hash_table-Replies :
      (c : Commands s) (name : Bytes) (args : List Bytes) (t : HashTable.Table) (reply : Bytes)
      (result : Option (HashTable.Table × Bytes))
      → IsValid c
      → result ≡ some (t, reply)
      → IsMap t
      → Answer s name args (maps s c) reply (maps s (record c { db_hash_table = t }))
      → Replies c name args (on_hash_table s c result)
  on_hash_table-Replies c name args t reply result v e m answer = (
    record c { db_hash_table = t },
    reply,
    ap (on_hash_table s c) e,
    record { whole = v.whole; is_map = m; tree = v.tree },
    answer,
  )

  on_avl_tree-Replies :
      (c : Commands s) (name : Bytes) (args : List Bytes) (t : AvlTree.AvlTree s.hash s.set)
      (reply : Bytes) (result : Option (AvlTree.AvlTree s.hash s.set × Bytes))
      → IsValid c
      → result ≡ some (t, reply)
      → AvlTree.Invariant.IsValid s.hash s.set t
      → Answer s name args (maps s c) reply (maps s (record c { db_avl_tree = t }))
      → Replies c name args (on_avl_tree s c result)
  on_avl_tree-Replies c name args t reply result v e w answer = (
    record c { db_avl_tree = t },
    reply,
    ap (on_avl_tree s c) e,
    record { whole = v.whole; is_map = v.is_map; tree = w },
    answer,
  )

  -- The maps with another view of the one database.
  with_by_key :
      (c : Commands s) (f g : Bytes → Option Bytes)
      → f ≡ g
      → record (maps s c) { by_key = f } ≡ record (maps s c) { by_key = g }
  with_by_key c f g e = ap (λ f. record (maps s c) { by_key = f }) e

  with_by_hash :
      (c : Commands s) (f g : ℕ → Option Bytes)
      → ((k : ℕ) → f k ≡ g k)
      → record (maps s c) { by_hash = f } ≡ record (maps s c) { by_hash = g }
  with_by_hash c f g e = ap (λ f. record (maps s c) { by_hash = f }) (fun_ext e)

  -- The calls of a user's function are defined.
  abbrev Runs : Callback → Option (Commands s × Bytes) → Type 0
  Runs hash_for result = (r : Commands s × Bytes) × (result ≡ some r)
  Runs avl_for result = (r : Commands s × Bytes) × (result ≡ some r)
  Runs _ result = Unit

  abbrev BoundRuns : Bound → Option (Commands s × Bytes) → Type 0
  BoundRuns (registered k) result = Runs k result
  BoundRuns _ result = Unit

  defined-Runs :
      (k : Callback) (result : Option (Commands s × Bytes)) (r : Commands s × Bytes)
      → result ≡ some r
      → Runs k result
  defined-Runs hash_for result r h = (r, h)
  defined-Runs avl_for result r h = (r, h)
  defined-Runs _ result r h = tt

  defined-BoundRuns :
      (b : Bound) (result : Option (Commands s × Bytes)) (r : Commands s × Bytes)
      → result ≡ some r
      → BoundRuns b result
  defined-BoundRuns (registered k) result r h = defined-Runs k result r h
  defined-BoundRuns not_implemented result r h = tt
  defined-BoundRuns (malformed_arguments i e) result r h = tt

  hash_run :
      (c : Commands s) (result : Option (HashTable.Table × Bytes)) (r : Commands s × Bytes)
      → on_hash_table s c result ≡ some r
      → (x : HashTable.Table × Bytes) × (result ≡ some x)
  hash_run c none r h = absurd (ground arith)
  hash_run c (some x) r h = (x, refl)

  avl_run :
      (c : Commands s) (result : Option (AvlTree.AvlTree s.hash s.set × Bytes))
      (r : Commands s × Bytes)
      → on_avl_tree s c result ≡ some r
      → (x : AvlTree.AvlTree s.hash s.set × Bytes) × (result ≡ some x)
  avl_run c none r h = absurd (ground arith)
  avl_run c (some x) r h = (x, refl)

  -- A callback is only called with the arguments that it reads.
  call-Replies :
      (k : Callback) (c : Commands s) (name : Bytes) (args : List Bytes)
      → Runs k (call s k c (name ∷ args))
      → name ≡ command_name k
      → Accepts k (length args % 2 ^ 32)
      → IsValid c
      → Replies c name args (call s k c (name ∷ args))
  unfolding call commands_list_reply
  call-Replies commands_list c name args runs n fits v = (
    c,
    _,
    refl,
    v,
    listed (s.order all_commands) n (s.order-Perm all_commands)
        (ap (λ t. to_reply_string s.decimal (names (s.order t)))
          (v.whole ∙ command_table-eq-all_commands))
        refl,
  )
  call-Replies ping_pong c name args runs n fits v = (c, _, refl, v, pinged n refl refl)
  call-Replies version c name args runs n fits v = (c, _, refl, v, versioned n refl refl)
  call-Replies hash_get c name [] runs n fits v = absurd (omega (arith, fits))
  call-Replies hash_get c name (key ∷ rest) runs n fits v =
      let (t, run, m, view) =
        HashTable.Laws.get_law s.decimal c.db_hash_table name key rest v.is_map in
      on_hash_table-Replies c name _ t _ _ v run m
        (got hashed key rest n refl refl (with_by_key c _ _ view))
  call-Replies hash_set c name [] runs n fits v = absurd (omega (arith, fits))
  call-Replies hash_set c name (key ∷ []) runs n fits v = absurd (omega (arith, fits))
  call-Replies hash_set c name (key ∷ value ∷ rest) runs n fits v =
      let (t, run, m, view) =
        HashTable.Laws.set_law s.decimal c.db_hash_table name key value rest v.is_map in
      on_hash_table-Replies c name _ t _ _ v run m
        (put hashed key value rest n refl refl (with_by_key c _ _ view))
  call-Replies hash_del c name [] runs n fits v = absurd (omega (arith, fits))
  call-Replies hash_del c name (key ∷ rest) runs n fits v =
      let (t, run, m, view) =
        HashTable.Laws.del_law s.decimal c.db_hash_table name key rest v.is_map in
      on_hash_table-Replies c name _ t _ _ v run m
        (deleted hashed key rest n refl refl (with_by_key c _ _ view))
  call-Replies hash_for c name [] runs n fits v = absurd (omega (arith, fits))
  call-Replies hash_for c name (code ∷ rest) runs n fits v =
      let (x, defined) = hash_run c _ runs.0 runs.1 in
      let (t, done, run, passed, keys, m) =
        foreach_run s.v8 c.db_hash_table name code rest x v.is_map defined in
      on_hash_table-Replies c name _ t _ _ v run m (
        visited hashed code rest done n refl (hash_reply done)
          ((λ k. lookup-Revalued s code done k c.db_hash_table t passed), refl))
  call-Replies avl_get c name [] runs n fits v = absurd (omega (arith, fits))
  call-Replies avl_get c name (key ∷ rest) runs n fits v =
      on_avl_tree-Replies c name _ c.db_avl_tree _ _ v
        (AvlTree.Invariant.get_lem s.hash s.set s.decimal c.db_avl_tree name key rest v.tree) v.tree
        (got ordered key rest n refl refl refl)
  call-Replies avl_set c name [] runs n fits v = absurd (omega (arith, fits))
  call-Replies avl_set c name (key ∷ []) runs n fits v = absurd (omega (arith, fits))
  call-Replies avl_set c name (key ∷ value ∷ rest) runs n fits v =
      let (t, run, w, view) =
        AvlTree.Invariant.set_lem s.hash s.set c.db_avl_tree name key value rest v.tree in
      on_avl_tree-Replies c name _ t _ _ v run w
        (put ordered key value rest n refl refl (with_by_hash c _ _ view))
  call-Replies avl_del c name [] runs n fits v = absurd (omega (arith, fits))
  call-Replies avl_del c name (key ∷ rest) runs n fits v =
      let (t, run, w, view) =
        AvlTree.Invariant.del_lem s.hash s.set c.db_avl_tree name key rest v.tree in
      on_avl_tree-Replies c name _ t _ _ v run w
        (deleted ordered key rest n refl refl (with_by_hash c _ _ view))
  call-Replies avl_for c name [] runs n fits v = absurd (omega (arith, fits))
  call-Replies avl_for c name (code ∷ rest) runs n fits v =
      let (x, defined) = avl_run c _ runs.0 runs.1 in
      let after =
        AvlTree.Foreach.foreach_run s.hash s.set s.v8 c.db_avl_tree name code rest x v.tree
          defined in
      on_avl_tree-Replies c name _ after.tree _ _ v after.run after.valid (
        visited ordered code rest after.done n refl (avl_reply after.done) (
          (λ k.
              node_of-Revalued s code after.done k c.db_avl_tree.nodes after.tree.nodes
                v.tree.hashed after.passed),
          refl,
        ))

  bound-Replies :
      (b : Bound) (c : Commands s) (name : Bytes) (args : List Bytes)
      → BoundRuns b (call_bound s b c (name ∷ args))
      → FindOutcome name (length args % 2 ^ 32) b
      → IsValid c
      → Replies c name args (call_bound s b c (name ∷ args))
  unfolding call_bound not_implemented_yet malformed_arguments_reply
  bound-Replies not_implemented c name args runs found v = (c, _, refl, v, unknown found refl refl)
  bound-Replies (malformed_arguments input expected) c name args runs found v = (
    c,
    _,
    refl,
    v,
    miscounted found.1 expected found.2 found.3 found.4
        (ap (λ n. to_error_reply_string (name ++ counts s n expected)) found.0) refl,
  )
  bound-Replies (registered k) c name args runs found v =
      call-Replies k c name args runs found.0 found.1 v

  outcome :
      (c : Commands s) (name : Bytes) (n : Int32)
      → IsValid c
      → FindOutcome name n (find c.table name n)
  outcome c name n v =
      subst (λ t. FindOutcome name n (find t name n)) (sym v.whole) (find-FindOutcome name n)

  -- What `find` returns answers as specified, where its call is defined.
  pub find_and_call-run :
      (c : Commands s) (name : Bytes) (args : List Bytes) (r : Commands s × Bytes)
      → IsValid c
      → (executor s).find_and_call c name (length args % 2 ^ 32) (name ∷ args) ≡ some r
      → Replies c name args ((executor s).find_and_call c name (length args % 2 ^ 32) (name ∷ args))
  find_and_call-run c name args r v run =
      let b = find c.table name (length args % 2 ^ 32) in
      bound-Replies b c name args (defined-BoundRuns b _ r run)
        (outcome c name (length args % 2 ^ 32) v) v

  -- If FOR is called, its code is for a function, or fails.
  abbrev pub IsSafe : Bytes → List Bytes → Type 0
  IsSafe name args =
      (st : Store) (code : Bytes) (rest : List Bytes)
      → name ≡ command_name (visitor st)
      → args ≡ code ∷ rest
      → IsCallable s.v8 code

  safe-Runs :
      (k : Callback) (c : Commands s) (name : Bytes) (args : List Bytes)
      → IsSafe name args
      → name ≡ command_name k
      → Accepts k (length args % 2 ^ 32)
      → IsValid c
      → Runs k (call s k c (name ∷ args))
  unfolding call
  safe-Runs hash_for c name [] safe n fits v = absurd (omega (arith, fits))
  safe-Runs hash_for c name (code ∷ rest) safe n fits v =
      let (t, done, run, passed, keys, m) =
        foreach_keys s.v8 c.db_hash_table name code rest (safe hashed code rest n refl) v.is_map in
      (_, ap (on_hash_table s c) run)
  safe-Runs avl_for c name [] safe n fits v = absurd (omega (arith, fits))
  safe-Runs avl_for c name (code ∷ rest) safe n fits v =
      let after =
        foreach_lem s.hash s.set s.v8 c.db_avl_tree name code rest (safe ordered code rest n refl)
          v.tree in
      (_, ap (on_avl_tree s c) after.run)
  safe-Runs _ c name args safe n fits v = tt

  safe-BoundRuns :
      (b : Bound) (c : Commands s) (name : Bytes) (args : List Bytes)
      → IsSafe name args
      → FindOutcome name (length args % 2 ^ 32) b
      → IsValid c
      → BoundRuns b (call_bound s b c (name ∷ args))
  unfolding call_bound
  safe-BoundRuns (registered k) c name args safe found v =
      safe-Runs k c name args safe found.0 found.1 v
  safe-BoundRuns not_implemented c name args safe found v = tt
  safe-BoundRuns (malformed_arguments i e) c name args safe found v = tt

  -- What `find` returns is called on all the arguments that it reads, and answers as specified.
  pub find_and_call-Replies :
      (c : Commands s) (name : Bytes) (args : List Bytes)
      → IsSafe name args
      → IsValid c
      → Replies c name args ((executor s).find_and_call c name (length args % 2 ^ 32) (name ∷ args))
  find_and_call-Replies c name args safe v =
      let b = find c.table name (length args % 2 ^ 32) in
      let found = outcome c name (length args % 2 ^ 32) v in
      bound-Replies b c name args (safe-BoundRuns b c name args safe found v) found v
