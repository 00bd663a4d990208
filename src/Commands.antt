-- ===== src/Commands.antt =====
-- kernel/commands.h and kernel/commands.cpp: the table of commands, the choice of a callback and
-- its call.
pub mod Table
pub mod Spec
mod Keys
pub mod Framing
pub mod Calls
pub mod Safety
pub mod Stored
pub mod Keeps
mod Tests
use mathlib.Core.List.{Perm}
use boostcache.Prelude.{
  ℕ, ◌<◌, ◌^◌, ℕ, ◌-◌, ◌^◌, Bool, true, false, not, ◌&&◌, Option, none, some, ◌>>=◌, List, [], ◌∷◌,
  ◌++◌, get_elem?, length, ◌==◌, if◌then◌else◌,
}
use boostcache.Wire.{Bytes, Int32, codes, minus_one, is_negative}
use boostcache.Wire.Equality.{same_bytes}
use boostcache.Wire.Decimal.{Decimal, format_int}
use boostcache.Reply.{to_reply_string, to_inline_reply_string, to_error_reply_string}
use boostcache.JsVm.{V8}
use boostcache.UnorderedMap.{UnorderedMap, lookup, assign}
use boostcache.Version.{version_string}
use boostcache.Db.HashTable
use boostcache.Db.AvlTree
use boostcache.Db.AvlTree.{OrderedSet}
use boostcache.CommandHandler.State.{Arguments}
use boostcache.CommandHandler.{Executor}

-- What `std::bind` was given: a method of `Commands`, or one of a database.
pub data Callback : Type 0 where
  commands_list ping_pong version : Callback
  hash_get hash_set hash_del hash_for : Callback
  avl_get avl_set avl_del avl_for : Callback

-- `CallbackInfo`
pub record CallbackInfo : Type 0 where
  pub callback : Callback
  pub number_of_arguments : Int32

abbrev pub CommandTable : Type 0
CommandTable = UnorderedMap CallbackInfo

-- `ADD_COMMAND`
abbrev add_command : Bytes → Callback → Int32 → CommandTable → CommandTable
add_command name c n = assign name (record { callback = c; number_of_arguments = n })

unfoldable pub add_generic_commands : CommandTable → CommandTable
add_generic_commands t =
    add_command (codes "VERSION") version minus_one
      (add_command (codes "PING") ping_pong 0 (add_command (codes "COMMANDS") commands_list 0 t))

unfoldable pub add_db_commands : CommandTable → CommandTable
add_db_commands t =
    let hashed = add_command (codes "HFOR") hash_for 1 (
      add_command (codes "HDEL") hash_del 1
        (add_command (codes "HSET") hash_set 2 (add_command (codes "HGET") hash_get 1 t))) in
    add_command (codes "ATFOR") avl_for 1 (
      add_command (codes "ATDEL") avl_del 1
        (add_command (codes "ATSET") avl_set 2 (add_command (codes "ATGET") avl_get 1 hashed)))

-- `m_commands` after the constructor
unfoldable pub command_table : CommandTable
command_table = add_db_commands (add_generic_commands [])

-- The callable that `find` returns.
pub data Bound : Type 0 where
  not_implemented : Bound
  malformed_arguments : Int32 → Int32 → Bound
  registered : Callback → Bound

abbrev find_info : Int32 → Option CallbackInfo → Bound
find_info n none = not_implemented
find_info n (some info) =
    if not (is_negative info.number_of_arguments) && not (info.number_of_arguments == n)
    then malformed_arguments n info.number_of_arguments
    else registered info.callback

-- `Commands::find`
unfoldable pub find : CommandTable → Bytes → Int32 → Bound
find t name n = find_info n (lookup name t)

-- `notImplementedYetCallback`
unfoldable pub not_implemented_yet : Arguments → Option Bytes
not_implemented_yet args = do
  name ← get_elem? args 0
  some (to_error_reply_string (name ++ codes " is not implemented"))

-- `malformedArgumentsCallback`
unfoldable pub malformed_arguments_reply : Decimal → Arguments → Int32 → Int32 → Option Bytes
malformed_arguments_reply p args input expected = do
  name ← get_elem? args 0
  some (
      to_error_reply_string (
        name
        ++ (codes " malformed number of arguments ("
            ++ (format_int p input ++ (codes " vs " ++ (format_int p expected ++ codes ")"))))))

abbrev pub names : CommandTable → Bytes
names [] = []
names ((name, info) ∷ t) = name ++ (codes "\n" ++ names t)

-- `commandsList`
unfoldable pub commands_list_reply : Decimal → (CommandTable → CommandTable) → CommandTable → Bytes
commands_list_reply p order t = to_reply_string p (names (order t))

-- `version(arguments)`: `VERBOSE` as the only argument asks for more.
abbrev pub is_verbose : Arguments → Bool
is_verbose (name ∷ arg ∷ []) = same_bytes arg (codes "VERBOSE")
is_verbose _ = false

-- What the server is built with and runs on.
pub record Platform : Type 1 where
  pub decimal : Decimal
  -- the order in which a loop over the table meets its entries
  pub order : CommandTable → CommandTable
  pub order-Perm : (t : CommandTable) → Perm (order t) t
  pub v8 : V8
  -- `std::hash`, a `size_t`
  pub hash : Bytes → ℕ
  pub hash_bound : (key : Bytes) → hash key < 2 ^ 64
  pub set : OrderedSet
  pub version_float : Bytes
  pub version_git : Bytes

module _ (s : Platform) where
  open s use {decimal, order, v8, hash, version_float, version_git}

  -- The state of `Commands`: its table is filled once, by the constructor.
  pub record Commands : Type 0 where
    pub table : CommandTable
    pub db_hash_table : HashTable.Table
    pub db_avl_tree : AvlTree.AvlTree hash s.set

  abbrev pub new_commands : Commands
  new_commands = record {
    table = command_table;
    db_hash_table = [];
    db_avl_tree = AvlTree.new_tree hash s.set;
  }

  abbrev on_hash_table : Commands → Option (HashTable.Table × Bytes) → Option (Commands × Bytes)
  on_hash_table c none = none
  on_hash_table c (some (t, reply)) = some (record c { db_hash_table = t }, reply)

  abbrev on_avl_tree :
      Commands → Option (AvlTree.AvlTree hash s.set × Bytes) → Option (Commands × Bytes)
  on_avl_tree c none = none
  on_avl_tree c (some (t, reply)) = some (record c { db_avl_tree = t }, reply)

  unfoldable pub call : Callback → Commands → Arguments → Option (Commands × Bytes)
  call commands_list c args = some (c, commands_list_reply decimal order c.table)
  call ping_pong c args = some (c, to_inline_reply_string (codes "PONG"))
  call version c args =
      some (c, to_inline_reply_string (version_string version_float version_git (is_verbose args)))
  call hash_get c args = on_hash_table c (HashTable.get decimal c.db_hash_table args)
  call hash_set c args = on_hash_table c (HashTable.set c.db_hash_table args)
  call hash_del c args = on_hash_table c (HashTable.del c.db_hash_table args)
  call hash_for c args = on_hash_table c (HashTable.foreach v8 c.db_hash_table args)
  call avl_get c args = on_avl_tree c (AvlTree.get hash s.set decimal c.db_avl_tree args)
  call avl_set c args = on_avl_tree c (AvlTree.set hash s.set c.db_avl_tree args)
  call avl_del c args = on_avl_tree c (AvlTree.del hash s.set c.db_avl_tree args)
  call avl_for c args = on_avl_tree c (AvlTree.foreach hash s.set v8 c.db_avl_tree args)

  abbrev pub with_commands : Commands → Option Bytes → Option (Commands × Bytes)
  with_commands c none = none
  with_commands c (some reply) = some (c, reply)

  unfoldable pub call_bound : Bound → Commands → Arguments → Option (Commands × Bytes)
  call_bound not_implemented c args = with_commands c (not_implemented_yet args)
  call_bound (malformed_arguments input expected) c args =
      with_commands c (malformed_arguments_reply decimal args input expected)
  call_bound (registered k) c args = call k c args

  -- The handler's view of the commands: `find`, and the call of what it returns.
  abbrev pub executor : Executor Commands
  executor = record { find_and_call = λ c name n args. call_bound (find c.table name n) c args }
