-- ===== src/Commands/Table.antt =====
-- The table of kernel/commands.cpp: what is registered, and `find` on it.
use boostcache.Prelude.{
  Bool-cases, Option-cases, inl, inr, some, All, ◌∙◌, ℕ, ◌≡◌, refl, sym, subst, true, ◌≢◌, [], ◌∷◌,
  arith,
}
use boostcache.Wire.{Bytes, Int32, codes, minus_one}
use boostcache.Wire.Equality.{same_bytes, same_bytes_iff}
use boostcache.UnorderedMap.{lookup, assign}
use boostcache.Commands.{
  Callback, commands_list, ping_pong, version, hash_get, hash_set, hash_del, hash_for, avl_get,
  avl_set, avl_del, avl_for, CommandTable, CallbackInfo, command_table, add_generic_commands,
  add_db_commands, Bound, not_implemented, malformed_arguments, registered, find,
}

abbrev entry : Callback → Int32 → CallbackInfo
entry c n = record { callback = c; number_of_arguments = n }

-- The table as a literal.
abbrev pub all_commands : CommandTable
all_commands =
    (codes "COMMANDS", entry commands_list 0)
    ∷ (codes "PING", entry ping_pong 0)
    ∷ (codes "VERSION", entry version minus_one)
    ∷ (codes "HGET", entry hash_get 1)
    ∷ (codes "HSET", entry hash_set 2)
    ∷ (codes "HDEL", entry hash_del 1)
    ∷ (codes "HFOR", entry hash_for 1)
    ∷ (codes "ATGET", entry avl_get 1)
    ∷ (codes "ATSET", entry avl_set 2)
    ∷ (codes "ATDEL", entry avl_del 1)
    ∷ (codes "ATFOR", entry avl_for 1)
    ∷ []

pub command_table-eq-all_commands : command_table ≡ all_commands
unfolding command_table add_generic_commands add_db_commands assign same_bytes
command_table-eq-all_commands = refl

-- The numbers of arguments with which a callback may be called.
abbrev pub Accepts : Callback → ℕ → Type 0
Accepts commands_list n = n ≡ 0
Accepts ping_pong n = n ≡ 0
Accepts version n = Unit
Accepts hash_get n = n ≡ 1
Accepts hash_set n = n ≡ 2
Accepts hash_del n = n ≡ 1
Accepts hash_for n = n ≡ 1
Accepts avl_get n = n ≡ 1
Accepts avl_set n = n ≡ 2
Accepts avl_del n = n ≡ 1
Accepts avl_for n = n ≡ 1

-- The name under which a callback is called.
abbrev pub command_name : Callback → Bytes
command_name commands_list = codes "COMMANDS"
command_name ping_pong = codes "PING"
command_name version = codes "VERSION"
command_name hash_get = codes "HGET"
command_name hash_set = codes "HSET"
command_name hash_del = codes "HDEL"
command_name hash_for = codes "HFOR"
command_name avl_get = codes "ATGET"
command_name avl_set = codes "ATSET"
command_name avl_del = codes "ATDEL"
command_name avl_for = codes "ATFOR"

-- What `find` may return for a name and a number of arguments.
abbrev pub FindOutcome : Bytes → Int32 → Bound → Type 0
FindOutcome name n (registered k) = (name ≡ command_name k) × Accepts k n
FindOutcome name n (malformed_arguments input expected) =
    (input ≡ n) × (k : Callback) × (name ≡ command_name k) × Accepts k expected × ¬ (Accepts k n)
FindOutcome name n not_implemented = (k : Callback) → name ≢ command_name k

is_named : (a name : Bytes) → same_bytes a name ≡ true → name ≡ a
is_named a name h = sym ((same_bytes_iff a name).0 h)

-- A callback is found under its own name with a number of arguments that it accepts.
find_own :
    (k : Callback) (n : Int32) → Accepts k n → find all_commands (command_name k) n ≡ registered k
unfolding find lookup same_bytes
find_own commands_list n a = ground arith
find_own _ n a = ground arith

own_malformed :
    (k : Callback) (n input expected : Int32)
    → find all_commands (command_name k) n ≡ malformed_arguments input expected
    → Accepts k expected × ¬ (Accepts k n)
unfolding find lookup same_bytes
own_malformed commands_list n input expected h = ground arith
own_malformed _ n input expected h = ground arith

own_implemented :
    (k : Callback) (n : Int32) → find all_commands (command_name k) n ≢ not_implemented
unfolding find lookup same_bytes
own_implemented commands_list n h = ground arith
own_implemented _ n h = ground arith

malformed_input :
    (name : Bytes) (n input expected : Int32)
    → find all_commands name n ≡ malformed_arguments input expected
    → input ≡ n
unfolding find
malformed_input name n input expected h = ground arith

-- A name that is found is the one of a callback.
abbrev IsNamed : Bytes → Type 0
IsNamed name = (k : Callback) × (name ≡ command_name k)

named :
    (name : Bytes) (t : CommandTable) (info : CallbackInfo)
    → All (λ e. IsNamed e.0) t
    → lookup name t ≡ some info
    → IsNamed name
unfolding lookup
named name [] info a h = absurd (ground arith)
named name ((j, w) ∷ t) info a h = elim (Bool-cases (same_bytes j name)) [
  | inl hit ↦ (a.0.0, is_named j name hit ∙ a.0.1)
  | inr miss ↦ named name t info a.1 (ground (arith, miss))
]

command_of_name : All (λ e. IsNamed e.0) all_commands
command_of_name = (
  (commands_list, refl),
  (
    (ping_pong, refl),
    (
      (version, refl),
      (
        (hash_get, refl),
        (
          (hash_set, refl),
          (
            (hash_del, refl),
            (
              (hash_for, refl),
              ((avl_get, refl), ((avl_set, refl), ((avl_del, refl), ((avl_for, refl), tt)))),
            ),
          ),
        ),
      ),
    ),
  ),
)

find_all :
    (name : Bytes) (n : Int32) (b : Bound) → find all_commands name n ≡ b → FindOutcome name n b
unfolding find lookup
find_all name n (registered k) h = ground (
  arith,
  is_named (codes "COMMANDS") name,
  is_named (codes "PING") name,
  is_named (codes "VERSION") name,
  is_named (codes "HGET") name,
  is_named (codes "HSET") name,
  is_named (codes "HDEL") name,
  is_named (codes "HFOR") name,
  is_named (codes "ATGET") name,
  is_named (codes "ATSET") name,
  is_named (codes "ATDEL") name,
  is_named (codes "ATFOR") name,
)
find_all name n (malformed_arguments input expected) h =
    elim (Option-cases (lookup name all_commands)) [
      | inl missing ↦ absurd (ground arith)
      | inr (info, found) ↦
          let (k, e) = named name all_commands info command_of_name found in
          let (takes, other) =
            own_malformed k n input expected
              (subst (λ s. find all_commands s n ≡ malformed_arguments input expected) e h) in
          (malformed_input name n input expected h, k, e, takes, other)
    ]
find_all name n not_implemented h =
    λ k e. own_implemented k n (subst (λ s. find all_commands s n ≡ not_implemented) e h)

-- `find` returns a callback only under its own name and with a number of arguments that it accepts.
-- It refuses a number of arguments only where the name is one of the eleven and its command does
-- not accept that number, and says then which number it accepts; it calls a command not implemented only where the name is none of the eleven.
pub find-FindOutcome : (name : Bytes) (n : Int32) → FindOutcome name n (find command_table name n)
find-FindOutcome name n =
    subst (λ t. FindOutcome name n (find t name n)) (sym command_table-eq-all_commands)
      (find_all name n (find all_commands name n) refl)

-- Every one of the eleven callbacks is found under its own name, with any number of arguments that
-- it accepts.
pub find-command_name :
    (k : Callback) (n : Int32) → Accepts k n → find command_table (command_name k) n ≡ registered k
find-command_name k n a =
    subst (λ t. find t (command_name k) n ≡ registered k) (sym command_table-eq-all_commands)
      (find_own k n a)
