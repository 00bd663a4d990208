-- ===== src/Commands/Spec.antt =====
-- What the commands of kernel/commands.cpp promise: answers over two maps.
use mathlib.Core.List.{Perm}
use boostcache.Prelude.{
  ℕ, ◌≡◌, ◌≢◌, ◌⊎◌, ◌%◌, ◌^◌, Bool, true, false, Option, none, some, List, ◌∷◌, ◌++◌, length, ◌==◌,
  if◌then◌else◌,
}
use boostcache.Wire.Decimal.{format_int}
use boostcache.Wire.{Bytes, Int32, codes}
use boostcache.Wire.Equality.{same_bytes}
use boostcache.Reply.{
  reply_ok, reply_true, reply_error, to_reply_string, to_inline_reply_string, to_error_reply_string,
}
use boostcache.JsVm.Passes.{Returned}
use boostcache.Version.{version_string}
use boostcache.Db.Contract.{found_reply, del_reply, update}
use boostcache.Db.HashTable.Laws.{table_view}
use boostcache.Db.AvlTree.Invariant.{at_hash}
use boostcache.Commands.{
  Platform, Commands, CommandTable, Callback, commands_list, ping_pong, version, hash_get, hash_set,
  hash_del, hash_for, avl_get, avl_set, avl_del, avl_for, names, is_verbose,
}
use boostcache.Commands.Table.{Accepts, command_name, all_commands}

-- The two databases.
pub data Store : Type 0 where
  hashed ordered : Store

abbrev pub getter : Store → Callback
getter hashed = hash_get
getter ordered = avl_get

abbrev pub setter : Store → Callback
setter hashed = hash_set
setter ordered = avl_set

abbrev pub deleter : Store → Callback
deleter hashed = hash_del
deleter ordered = avl_del

abbrev pub visitor : Store → Callback
visitor hashed = hash_for
visitor ordered = avl_for

-- A map from keys, and one from the hashes of keys.
pub record Maps : Type 0 where
  pub by_key : Bytes → Option Bytes
  pub by_hash : ℕ → Option Bytes

abbrev pub no_values : Maps
no_values = record { by_key = λ k. none; by_hash = λ k. none }

-- The replies of FOR: true after a pass over all entries, an error where it has ended before.
abbrev pub pass_reply : Bool → Bytes
pass_reply true = reply_true
pass_reply false = reply_error

module _ (s : Platform) where
  -- The maps of a state of the commands.
  abbrev pub maps : Commands s → Maps
  maps c = record {
    by_key = table_view c.db_hash_table;
    by_hash = at_hash s.hash s.set c.db_avl_tree;
  }

  abbrev pub at : Store → Maps → Bytes → Option Bytes
  at hashed m key = m.by_key key
  at ordered m key = m.by_hash (s.hash key)

  abbrev pub change : Store → Maps → Bytes → Option Bytes → Maps
  change hashed m key v = record m { by_key = update same_bytes m.by_key key v }
  change ordered m key v = record m { by_hash = λ k. if s.hash key == k then v else m.by_hash k }

  -- The value for a key is what a call of the code's function on the key and the value in front
  -- has returned; it is as it was where there is none, or where the pass has ended before.
  abbrev pub Revalued : Bytes → Bool → (Bytes → Type 0) → Option Bytes → Option Bytes → Type 0
  Revalued code done IsKey before after =
      ((after ≡ before) × ((before ≡ none) ⊎ (done ≡ false)))
      ⊎ ((key : Bytes) × (v : Bytes) × (w : Bytes) × IsKey key
          × (before ≡ some v)
          × (after ≡ some w)
          × Returned s.v8 code key v w)

  -- The one map is revalued, and the other is as it was.
  abbrev pub Visits : Store → Bytes → Bool → Maps → Maps → Type 0
  Visits hashed code done m m' =
      ((k : Bytes) → Revalued code done (λ key. key ≡ k) (m.by_key k) (m'.by_key k))
      × (m'.by_hash ≡ m.by_hash)
  Visits ordered code done m m' =
      ((k : ℕ) → Revalued code done (λ key. s.hash key ≡ k) (m.by_hash k) (m'.by_hash k))
      × (m'.by_key ≡ m.by_key)

  -- The numbers of arguments that were given and that are expected.
  abbrev pub counts : Int32 → Int32 → Bytes
  counts input expected =
      codes " malformed number of arguments ("
      ++ (format_int s.decimal input
          ++ (codes " vs " ++ (format_int s.decimal expected ++ codes ")")))

  -- The command of a name, called with the arguments behind the name, answers and changes the maps.
  pub data Answer (name : Bytes) (args : List Bytes) (m : Maps) (reply : Bytes) (m' : Maps)
      : Type 0 where
    listed :
        (t : CommandTable)
        → name ≡ command_name commands_list
        → Perm t all_commands
        → reply ≡ to_reply_string s.decimal (names t)
        → m' ≡ m
        → Answer name args m reply m'
    pinged :
        name ≡ command_name ping_pong
        → reply ≡ to_inline_reply_string (codes "PONG")
        → m' ≡ m
        → Answer name args m reply m'
    versioned :
        name ≡ command_name version
        → reply
          ≡ to_inline_reply_string
              (version_string s.version_float s.version_git (is_verbose (name ∷ args)))
        → m' ≡ m
        → Answer name args m reply m'
    got :
        (st : Store) (key : Bytes) (rest : List Bytes)
        → name ≡ command_name (getter st)
        → args ≡ key ∷ rest
        → reply ≡ found_reply s.decimal (at st m key)
        → m' ≡ m
        → Answer name args m reply m'
    put :
        (st : Store) (key value : Bytes) (rest : List Bytes)
        → name ≡ command_name (setter st)
        → args ≡ key ∷ value ∷ rest
        → reply ≡ reply_ok
        → m' ≡ change st m key (some value)
        → Answer name args m reply m'
    deleted :
        (st : Store) (key : Bytes) (rest : List Bytes)
        → name ≡ command_name (deleter st)
        → args ≡ key ∷ rest
        → reply ≡ del_reply (at st m key)
        → m' ≡ change st m key none
        → Answer name args m reply m'
    visited :
        (st : Store) (code : Bytes) (rest : List Bytes) (done : Bool)
        → name ≡ command_name (visitor st)
        → args ≡ code ∷ rest
        → reply ≡ pass_reply done
        → Visits st code done m m'
        → Answer name args m reply m'
    -- no command has that name
    unknown :
        ((k : Callback) → name ≢ command_name k)
        → reply ≡ to_error_reply_string (name ++ codes " is not implemented")
        → m' ≡ m
        → Answer name args m reply m'
    -- the command of that name takes another number of arguments
    miscounted :
        (k : Callback) (expected : Int32)
        → name ≡ command_name k
        → Accepts k expected
        → ¬ (Accepts k (length args % 2 ^ 32))
        → reply ≡ to_error_reply_string (name ++ counts (length args % 2 ^ 32) expected)
        → m' ≡ m
        → Answer name args m reply m'
