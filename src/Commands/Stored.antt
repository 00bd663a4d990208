-- ===== src/Commands/Stored.antt =====
-- SET and GET of both databases, called as `find` of kernel/commands.cpp returns them.
use boostcache.Prelude.{ℕ, ◌≡◌, refl, sym, subst, ap, ◌∙◌, Option, some, List, [], ◌∷◌, ==_refl}
use boostcache.Wire.{Bytes}
use boostcache.Wire.Equality.{same_bytes_refl}
use boostcache.Reply.{reply_ok}
use boostcache.Db.Contract.{found_reply}
use boostcache.Db.HashTable.Laws
use boostcache.Db.AvlTree.Invariant
use boostcache.Commands.{
  Platform, Commands, Callback, hash_get, hash_set, avl_get, avl_set, registered, find, call,
  call_bound, executor, on_hash_table, on_avl_tree,
}
use boostcache.Commands.Table.{Accepts, command_name, find-command_name}
use boostcache.Commands.Calls.{IsValid}
use boostcache.Commands.Spec.{Store, hashed, ordered, setter, getter, maps, at}

module _ (s : Platform) where
  -- The value that a database has for a key.
  abbrev pub value_at : Store → Commands s → Bytes → Option Bytes
  value_at st c key = at s st (maps s c) key

  -- A call under its own name.
  call-find :
      (c : Commands s) (k : Callback) (n : ℕ) (args : List Bytes)
      → IsValid s c
      → Accepts k n
      → (executor s).find_and_call c (command_name k) n args ≡ call s k c args
  unfolding call_bound
  call-find c k n args v a =
      ap (λ b. call_bound s b c args)
        (subst (λ t. find t (command_name k) n ≡ registered k) (sym v.whole)
          (find-command_name k n a))

  pub setter_lem :
      (st : Store) (c : Commands s) (key value : Bytes)
      → IsValid s c
      → (c' : Commands s) × ((executor s).find_and_call c
            (command_name (setter st))
            2
            (command_name (setter st) ∷ key ∷ value ∷ [])
          ≡ some (c', reply_ok))
        × IsValid s c'
        × (value_at st c' key ≡ some value)
  unfolding call
  setter_lem hashed c key value v =
      let (t, run, m, view) =
        Laws.set_law s.decimal c.db_hash_table (command_name hash_set) key value [] v.is_map in
      (
        record c { db_hash_table = t },
        call-find c hash_set 2 _ v refl ∙ ap (on_hash_table s c) run,
        record { whole = v.whole; is_map = m; tree = v.tree },
        ap (λ f. f key) view ∙ rw (same_bytes_refl key) refl,
      )
  setter_lem ordered c key value v =
      let (t, run, w, view) =
        Invariant.set_lem s.hash s.set c.db_avl_tree (command_name avl_set) key value [] v.tree in
      (
        record c { db_avl_tree = t },
        call-find c avl_set 2 _ v refl ∙ ap (on_avl_tree s c) run,
        record { whole = v.whole; is_map = v.is_map; tree = w },
        view (s.hash key) ∙ rw ==_refl,
      )

  pub getter_lem :
      (st : Store) (c : Commands s) (key : Bytes)
      → IsValid s c
      → (c' : Commands s) × ((executor s).find_and_call c
            (command_name (getter st))
            1
            (command_name (getter st) ∷ key ∷ [])
          ≡ some (c', found_reply s.decimal (value_at st c key)))
        × IsValid s c'
  unfolding call
  getter_lem hashed c key v =
      let (t, run, m, view) =
        Laws.get_law s.decimal c.db_hash_table (command_name hash_get) key [] v.is_map in
      (
        record c { db_hash_table = t },
        call-find c hash_get 1 _ v refl ∙ ap (on_hash_table s c) run,
        record { whole = v.whole; is_map = m; tree = v.tree },
      )
  getter_lem ordered c key v = (
    c,
    call-find c avl_get 1 _ v refl
        ∙ ap (on_avl_tree s c) (
            Invariant.get_lem s.hash s.set s.decimal c.db_avl_tree (command_name avl_get) key []
              v.tree),
    v,
  )
