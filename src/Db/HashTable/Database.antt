-- ===== src/Db/HashTable/Database.antt =====
-- The hash table of db/hashtable.cpp as a database of the contract, with `foreach`.
use boostcache.Prelude.{
  ◌≡◌, refl, ap, fun_ext, true, Option, none, some, List, [], ◌∷◌, map, length, arith,
}
use boostcache.Wire.{Bytes}
use boostcache.Wire.Equality.{same_bytes, same_bytes_iff}
use boostcache.Wire.Decimal.{Decimal}
use boostcache.JsVm.{V8}
use boostcache.JsVm.Visit.{visit}
use boostcache.JsVm.Pure.{Function, Computes, replaced, visit-map}
use boostcache.UnorderedMap.{lookup}
use boostcache.Db.Contract.{Database, Leaves, TellsKeys, at_value, for_reply, replace_all}
use boostcache.Db.HashTable.{Table, get, set, del, foreach, key_of, value_of, with_value}
use boostcache.Db.HashTable.Laws.{IsMap, table_view, get_law, set_law, del_law}
use boostcache.Db.HashTable.Foreach.{keys-IsMap}

module _ (v : V8) where
  abbrev entry_after : Function → Bytes × Bytes → Bytes × Bytes
  entry_after = replaced v key_of value_of with_value

  lookup-map :
      (g : Function) (k : Bytes) (t : Table)
      → lookup k (map (entry_after g) t) ≡ at_value g k (lookup k t)
  unfolding lookup
  lookup-map g k [] = refl
  lookup-map g k ((j, w) ∷ t) = ground (arith, lookup-map g k t, same_bytes_iff j k)

  keys-map : (g : Function) (t : Table) → map key_of (map (entry_after g) t) ≡ map key_of t
  keys-map g [] = refl
  keys-map g (e ∷ t) = ap (λ ks. e.0 ∷ ks) (keys-map g t)

  -- FOR with a function that neither throws nor remembers replaces every value.
  pub foreach_law :
      (t : Table) (name code : Bytes) (rest : List Bytes) (g : Option Function)
      → IsMap t
      → Computes v code g
      → TellsKeys same_bytes
      → Leaves IsMap table_view
          (foreach v t (name ∷ code ∷ rest))
          (for_reply g)
          (replace_all g (table_view t))
  unfolding foreach
  foreach_law t name code rest none m fails tells = (t, ground (arith, fails), m, refl)
  foreach_law t name code rest (some g) m (f, made, stays) tells =
      let pass : visit v key_of value_of with_value f t ≡ some (map (entry_after g) t, true) =
        visit-map v key_of value_of with_value g f t (stays (length t)) in
      (
        map (entry_after g) t,
        ground (arith, made, pass),
        keys-IsMap (map (entry_after g) t) t (keys-map g t) m,
        fun_ext (λ k. lookup-map g k t),
      )

  abbrev pub hash_table_database : (p : Decimal) → Database p v
  hash_table_database p = record {
    State = Table;
    IsValid = IsMap;
    view = table_view;
    same = same_bytes;
    get = get p;
    set = set;
    del = del;
    foreach = foreach v;
    get_law = get_law p;
    set_law = set_law p;
    del_law = del_law p;
    foreach_law = foreach_law;
  }
