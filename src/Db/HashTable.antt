-- ===== src/Db/HashTable.antt =====
-- db/hashtable.h and db/hashtable.cpp. Each operation holds the lock to its end, so that it is one
-- step; an argument that is not there is read outside the vector, which is not defined.
pub mod Laws
pub mod Foreach
pub mod Database
pub mod Order
use boostcache.Prelude.{
  Bool, true, false, Option, none, some, ◌>>=◌, List, [], ◌∷◌, get_elem?, if◌then◌else◌,
}
use boostcache.Wire.{Bytes}
use boostcache.Wire.Decimal.{Decimal}
use boostcache.Reply.{reply_nil, reply_ok, reply_false, reply_true, reply_error, to_reply_string}
use boostcache.JsVm.{V8, init}
use boostcache.JsVm.Visit.{visit}
use boostcache.UnorderedMap.{UnorderedMap, lookup, assign, erase}
use boostcache.Db.Contract.{found_reply}
use boostcache.CommandHandler.State.{Arguments}

-- `Table`
abbrev pub Table : Type 0
Table = UnorderedMap Bytes

unfoldable pub get : Decimal → Table → Arguments → Option (Table × Bytes)
get p t args = do key ← get_elem? args 1; some (t, found_reply p (lookup key t))

unfoldable pub set : Table → Arguments → Option (Table × Bytes)
set t args = do
  key ← get_elem? args 1
  value ← get_elem? args 2
  some (assign key value t, reply_ok)

abbrev del_found : Table → Bytes → Option Bytes → Table × Bytes
del_found t key none = (t, reply_false)
del_found t key (some v) = (erase key t, reply_true)

unfoldable pub del : Table → Arguments → Option (Table × Bytes)
del t args = do key ← get_elem? args 1; some (del_found t key (lookup key t))

abbrev pub visit_reply : Bool → Bytes
visit_reply true = reply_true
visit_reply false = reply_error

abbrev pub key_of : Bytes × Bytes → Bytes
key_of e = e.0

abbrev pub value_of : Bytes × Bytes → Bytes
value_of e = e.1

abbrev pub with_value : Bytes × Bytes → Bytes → Bytes × Bytes
with_value e s = (e.0, s)

module _ (v : V8) where
  abbrev run_pass : Table → Option (V8.Value v) → Option (Table × Bytes)
  run_pass t none = some (t, reply_error)
  run_pass t (some f) = do
    (t', done) ← visit v key_of value_of with_value f t
    some (t', visit_reply done)

  unfoldable pub foreach : Table → Arguments → Option (Table × Bytes)
  foreach t args = do code ← get_elem? args 1; run_pass t (init v code)
