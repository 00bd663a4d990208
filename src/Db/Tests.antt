-- ===== src/Db/Tests.antt =====
-- The theorems on the databases at concrete requests.
use mathlib.Core.List.Perm
use mathlib.Core.Quot
use boostcache.Prelude.{
  ◌⊎◌, inl, inr, ◌∙◌, sym, ap, arith, ℕ, zero, suc, All, ◌++◌, ◌≡◌, refl, none, some, List, [], ◌∷◌,
  ◌==◌, if◌then◌else◌,
}
use boostcache.Wire.{Bytes, codes}
use boostcache.CommandHandler.State.{first_byte}
use boostcache.Wire.Equality.{same_bytes}
use boostcache.Wire.Printer.{plain_decimal}
use boostcache.Reply.{reply_ok, to_reply_string}
use boostcache.Examples.{suffix_v8, suffix_script, list_code, pair_set}
use boostcache.Db.Contract.{
  Request, IsComputed, run, map_replies, map_after, found_reply, del_reply,
}
use boostcache.Db.HashTable.Laws.{IsMap, table_view}
use boostcache.Db.HashTable.{Table}
use boostcache.Db.AvlTree.{AvlTree, new_tree, set, del}
use boostcache.Db.AvlTree.Invariant.{Leaves, at_hash, new_tree-IsValid, set_lem, del_lem}
use boostcache.Db.HashTable.Order.{Whole, Unordered, run-Perm}
use boostcache.Db.HashTable.Database.{hash_table_database}
use boostcache.Db.AvlTree.Database.{avl_tree_database, tree_view}
use boostcache.JsVm.{init, call, c_str}
use boostcache.JsVm.Pure.{Function, Stays}
use boostcache.Db.Agreement.{run_agree, run_collision, hash_table_replies}

-- What the script does with a value, as C strings.
abbrev exclaim : Function
exclaim key value = c_str (c_str value ++ codes "!")

abbrev requests : List Request
requests =
    Request.set (codes "k") (codes "v")
    ∷ Request.visit (codes "!") (some exclaim)
    ∷ Request.get (codes "k")
    ∷ Request.visit [] none
    ∷ Request.del (codes "k")
    ∷ []

exclaim-Stays : (n : ℕ) → Stays suffix_v8 exclaim n (codes "!")
unfolding call c_str
exclaim-Stays zero = tt
exclaim-Stays (suc n) = λ k s. (codes "!", refl, exclaim-Stays n)

requests-IsComputed : All (IsComputed suffix_v8) requests
unfolding init c_str suffix_script
requests-IsComputed = (tt, ((codes "!", refl, exclaim-Stays), (tt, (refl, (tt, tt)))))

-- Requests for two keys, by their first byte.
abbrev hash : Bytes → ℕ
hash k = first_byte k

abbrev IsKey : Bytes → Type 0
IsKey k = (k ≡ codes "k") ⊎ (k ≡ codes "l")

abbrev two_keys : List Request
two_keys =
    Request.set (codes "k") (codes "v")
    ∷ Request.get (codes "l")
    ∷ Request.del (codes "k")
    ∷ Request.get (codes "k")
    ∷ []

hash-injective : (j k : Bytes) → IsKey j → IsKey k → hash j ≡ hash k → j ≡ k
hash-injective j k (inl a) (inl b) same = a ∙ sym b
hash-injective j k (inr a) (inr b) same = a ∙ sym b
hash-injective j k (inl a) (inr b) same =
    let clash : hash (codes "k") ≡ hash (codes "l") = sym (ap hash a) ∙ same ∙ ap hash b in
    absurd (omega (arith, clash))
hash-injective j k (inr a) (inl b) same =
    let clash : hash (codes "l") ≡ hash (codes "k") = sym (ap hash a) ∙ same ∙ ap hash b in
    absurd (omega (arith, clash))

run_agree_example :
    (t : AvlTree hash pair_set) × (h : Table) × (replies : List Bytes) × (run plain_decimal
        suffix_v8
        (avl_tree_database hash pair_set plain_decimal suffix_v8)
        (new_tree hash pair_set)
        two_keys
      ≡ some (t, replies))
    × (run plain_decimal suffix_v8 (hash_table_database suffix_v8 plain_decimal) [] two_keys
        ≡ some (h, replies))
    × ((k : Bytes) → IsKey k → tree_view hash pair_set t k ≡ table_view h k)
run_agree_example =
    run_agree plain_decimal suffix_v8 hash pair_set IsKey two_keys hash-injective
      (inl refl, (inr refl, (inl refl, (inl refl, tt))))

-- A hash that takes all keys for one.
abbrev constant : Bytes → ℕ
constant k = 0

abbrev colliding : List Request
colliding =
    Request.set (codes "b") (codes "v")
    ∷ Request.get (codes "a")
    ∷ Request.del (codes "a")
    ∷ Request.get (codes "b")
    ∷ []

run_collision_example :
    (s : AvlTree constant pair_set) × (run plain_decimal suffix_v8
        (avl_tree_database constant pair_set plain_decimal suffix_v8)
        (new_tree constant pair_set)
        colliding
      ≡ some (
        s,
        reply_ok
            ∷ to_reply_string plain_decimal (codes "v")
            ∷ del_reply (some (codes "v"))
            ∷ found_reply plain_decimal none
            ∷ [],
      ))
run_collision_example =
    run_collision plain_decimal suffix_v8 constant pair_set (new_tree constant pair_set) (codes "a")
      (codes "b") (codes "v") (new_tree-IsValid constant pair_set) refl

hash_table_replies_example :
    (t : Table) × (run plain_decimal suffix_v8
        (hash_table_database suffix_v8 plain_decimal)
        []
        requests
      ≡ some (t, map_replies plain_decimal same_bytes (table_view []) requests))
    × IsMap t
    × (table_view t ≡ map_after same_bytes (table_view []) requests)
hash_table_replies_example =
    hash_table_replies plain_decimal suffix_v8 [] requests tt requests-IsComputed

abbrev arguments : List Bytes
arguments = codes "ATSET" ∷ codes "k" ∷ codes "v" ∷ []

set_lem_example :
    Leaves list_code pair_set
      (set list_code pair_set (new_tree list_code pair_set) arguments)
      reply_ok
      (λ k.
        if list_code (codes "k") == k
        then some (codes "v")
        else at_hash list_code pair_set (new_tree list_code pair_set) k)
set_lem_example =
    set_lem list_code pair_set (new_tree list_code pair_set) (codes "ATSET") (codes "k") (codes "v")
      [] (new_tree-IsValid list_code pair_set)

del_lem_example :
    Leaves list_code pair_set
      (del list_code pair_set (new_tree list_code pair_set) arguments)
      (del_reply (at_hash list_code pair_set (new_tree list_code pair_set) (list_code (codes "k"))))
      (λ k.
        if list_code (codes "k") == k
        then none
        else at_hash list_code pair_set (new_tree list_code pair_set) k)
del_lem_example =
    del_lem list_code pair_set (new_tree list_code pair_set) (codes "ATSET") (codes "k")
      (codes "v" ∷ []) (new_tree-IsValid list_code pair_set)

-- Two entries in two orders.
abbrev first_order : Whole
first_order =
    ((codes "k", codes "v") ∷ (codes "l", codes "w") ∷ [], (((λ h. ground arith), tt), (tt, tt)))

abbrev other_order : Whole
other_order =
    ((codes "l", codes "w") ∷ (codes "k", codes "v") ∷ [], (((λ h. ground arith), tt), (tt, tt)))

run-Perm_example :
    (c : Whole) × (d : Whole) × (replies : List Bytes) × (run plain_decimal suffix_v8
        (hash_table_database suffix_v8 plain_decimal)
        first_order.0
        requests
      ≡ some (c.0, replies))
    × (run plain_decimal suffix_v8
          (hash_table_database suffix_v8 plain_decimal)
          other_order.0
          requests
        ≡ some (d.0, replies))
    × Path Unordered (Quot.mk c) (Quot.mk d)
run-Perm_example =
    run-Perm plain_decimal suffix_v8 first_order other_order requests (Perm.swap _ _ [])
      requests-IsComputed
