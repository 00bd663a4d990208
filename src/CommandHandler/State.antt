-- ===== src/CommandHandler/State.antt =====
-- The state of a `CommandHandler` and its reset: kernel/commandhandler.h, and `reset` and
-- `toString` of kernel/commandhandler.cpp.
use boostcache.Prelude.{ℕ, List, [], ◌∷◌, ◌++◌}
use boostcache.Wire.{Bytes, Int32, minus_one, codes}

-- `enum Type`
pub data Kind : Type 0 where
  not_set inline multi_bulk : Kind

-- `Arguments`
abbrev pub Arguments : Type 0
Arguments = List Bytes

-- The fields of the class. `m_lineBuffer` is never used; the finish callback is the reply that
-- `execute_command` returns.
pub record Handler : Type 0 where
  pub kind : Kind
  pub command_string : Bytes
  pub command_offset : ℕ
  pub number_of_arguments : Int32
  pub number_of_arguments_left : Int32
  pub last_argument_length : Int32
  pub command_arguments : Arguments

-- `reset()`: every field is overwritten.
abbrev pub reset : Handler → Handler
reset h = record {
  kind = not_set;
  command_string = [];
  command_offset = 0;
  number_of_arguments = minus_one;
  number_of_arguments_left = minus_one;
  last_argument_length = minus_one;
  command_arguments = [];
}

-- The constructor calls `reset()` on fields that hold anything.
abbrev pub initial : Handler
initial = record {
  kind = not_set;
  command_string = [];
  command_offset = 0;
  number_of_arguments = minus_one;
  number_of_arguments_left = minus_one;
  last_argument_length = minus_one;
  command_arguments = [];
}

-- `*begin`: at the end of the string it is the terminator.
abbrev pub first_byte : Bytes → ℕ
first_byte [] = 0
first_byte (c ∷ cs) = c

-- `toString()`, the arguments in quotes, a line each.
abbrev quoted_lines : Arguments → Bytes
quoted_lines [] = []
quoted_lines (a ∷ args) = codes "'" ++ (a ++ (codes "'\n" ++ quoted_lines args))

unfoldable pub to_string : Handler → Bytes
to_string h = quoted_lines h.command_arguments
