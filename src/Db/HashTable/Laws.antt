-- ===== src/Db/HashTable/Laws.antt =====
-- The operations of db/hashtable.cpp against the contract of the databases.
use boostcache.Prelude.{
  ◌≡◌, ◌≢◌, refl, fun_ext, Option, none, some, List, [], ◌∷◌, if◌then◌else◌, All, arith,
  Option-cases, inl, inr,
}
use boostcache.Wire.{Bytes}
use boostcache.Wire.Equality.{same_bytes, same_bytes_iff}
use boostcache.Wire.Decimal.{Decimal}
use boostcache.UnorderedMap.{lookup, assign, erase, lookup-assign, lookup-erase}
use boostcache.Db.Contract.{Leaves, found_reply, del_reply, update}
use boostcache.Reply.{reply_ok}
use boostcache.Db.HashTable.{Table, get, set, del}

-- One entry at most for a key.
abbrev pub IsMap : Table → Type 0
IsMap [] = Unit
IsMap ((k, v) ∷ t) = All (λ e. e.0 ≢ k) t × IsMap t

absent-assign :
    (j k v : Bytes) (t : Table) → k ≢ j → All (λ e. e.0 ≢ j) t → All (λ e. e.0 ≢ j) (assign k v t)
unfolding assign
absent-assign j k v [] h a = (h, tt)
absent-assign j k v ((i, w) ∷ t) h a = ground (arith, absent-assign j k v t h a.1)

pub assign-IsMap : (k v : Bytes) (t : Table) → IsMap t → IsMap (assign k v t)
unfolding assign
assign-IsMap k v [] m = (tt, tt)
assign-IsMap k v ((j, w) ∷ t) m =
    ground (arith, assign-IsMap k v t m.1, absent-assign j k v t, same_bytes_iff j k)

absent-erase : (j k : Bytes) (t : Table) → All (λ e. e.0 ≢ j) t → All (λ e. e.0 ≢ j) (erase k t)
unfolding erase
absent-erase j k [] a = tt
absent-erase j k ((i, w) ∷ t) a = ground (arith, absent-erase j k t a.1)

pub erase-IsMap : (k : Bytes) (t : Table) → IsMap t → IsMap (erase k t)
unfolding erase
erase-IsMap k [] m = tt
erase-IsMap k ((j, w) ∷ t) m = ground (arith, erase-IsMap k t m.1, absent-erase j k t m.0)

abbrev pub table_view : Table → Bytes → Option Bytes
table_view t k = lookup k t

module _ (p : Decimal) where
  pub get_law :
      (t : Table) (name key : Bytes) (rest : List Bytes)
      → IsMap t
      → Leaves IsMap table_view
          (get p t (name ∷ key ∷ rest))
          (found_reply p (table_view t key))
          (table_view t)
  unfolding get
  get_law t name key rest m = (t, refl, m, refl)

  pub set_law :
      (t : Table) (name key value : Bytes) (rest : List Bytes)
      → IsMap t
      → Leaves IsMap table_view
          (set t (name ∷ key ∷ value ∷ rest))
          reply_ok
          (update same_bytes (table_view t) key (some value))
  unfolding set
  set_law t name key value rest m = (
    assign key value t,
    refl,
    assign-IsMap key value t m,
    fun_ext (λ j. lookup-assign key j value t),
  )

  -- Nothing stands at a key that was not found.
  unchanged :
      (t : Table) (key j : Bytes)
      → lookup key t ≡ none
      → lookup j t ≡ (if same_bytes key j then none else lookup j t)
  unchanged t key j e = ground (arith, same_bytes_iff key j)

  pub del_law :
      (t : Table) (name key : Bytes) (rest : List Bytes)
      → IsMap t
      → Leaves IsMap table_view
          (del t (name ∷ key ∷ rest))
          (del_reply (table_view t key))
          (update same_bytes (table_view t) key none)
  unfolding del
  del_law t name key rest m = elim (Option-cases (lookup key t)) [
    | inl e ↦ (t, ground arith, m, fun_ext (λ j. unchanged t key j e))
    | inr (v, e) ↦
        (erase key t, ground arith, erase-IsMap key t m, fun_ext (λ j. lookup-erase key j t))
  ]
