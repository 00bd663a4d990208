-- ===== src/Options.antt =====
-- util/options.h and util/options.cpp: the values of the options, and the level of verbosity that
-- `-v`, `-vv`, … ask for. The command line and the config file are parsed by boost, into a map of
-- the values that were given or have a default.
pub mod Result
pub mod LogLevel
pub mod Config
pub mod Parse
pub mod Dump
pub mod Typed
mod Tests
use boostcache.Prelude.{
  ℕ, zero, suc, ◌+◌, ◌-◌, Bool, true, false, Option, none, some, List, [], ◌∷◌, ◌++◌, if◌then◌else◌,
}
use boostcache.Wire.{Bytes, Int32, codes}
use boostcache.UnorderedMap.{UnorderedMap, lookup, assign}

-- A `boost::any`, of the types that the program asks for, or of another one.
pub data Any : Type 0 where
  int : Int32 → Any
  text : Bytes → Any
  float : ℕ → Any
  bool : Bool → Any
  other : Any

-- What boost stores for an option without a value.
abbrev pub flag : Any
flag = text []

-- The value that an option takes, with its default.
pub data ValueSemantic : Type 0 where
  no_value : ValueSemantic
  int_value : Option Int32 → ValueSemantic
  text_value : Option Bytes → ValueSemantic

pub record Description : Type 0 where
  pub name : Bytes
  pub value : ValueSemantic
  pub text : Bytes

-- `variables_map`: the values, and the names of those that are defaults.
pub record Variables : Type 0 where
  pub values : UnorderedMap Any
  pub defaults : List Bytes

pub record Options : Type 0 where
  pub visible_options : List Description
  pub hidden_options : List Description
  pub variables_map : UnorderedMap Any
  pub defaulted : List Bytes
  pub expanded_options : UnorderedMap Any

-- `any_cast<int>`, `as<int>()`: `none` is the exception of a cast to another type.
abbrev pub as_int : Any → Option Int32
as_int (int n) = some n
as_int _ = none

abbrev pub as_text : Any → Option Bytes
as_text (text s) = some s
as_text _ = none

-- `m_variablesMap.count(key)`
abbrev pub is_given : Option Any → Bool
is_given none = false
is_given (some a) = true

module _ {A : Type 0} (cast : Any → Option A) (default : A) where
  abbrev from_variables : Option Any → Option A
  from_variables none = some default
  from_variables (some a) = cast a

  abbrev from_expanded : Option Any → Options → Bytes → Option A
  from_expanded (some a) o key = cast a
  from_expanded none o key = from_variables (lookup key o.variables_map)

  -- `getValue<Type>(key)`; `IGNORE_NOT_EXISTED_ITEMS` is `true`, and `default` is `Type()`.
  unfoldable pub get_value : Options → Bytes → Option A
  get_value o key = from_expanded (lookup key o.expanded_options) o key

-- `getValue(key)` of a flag
unfoldable pub has_value : Options → Bytes → Bool
has_value o key =
    if is_given (lookup key o.expanded_options) then true else is_given (lookup key o.variables_map)

-- `MAX_VERBOSE_LEVEL`
abbrev pub max_verbose_level : ℕ
max_verbose_level = 20

abbrev pub log_level_key : Bytes
log_level_key = codes "logLevel"

-- `std::string(n, 'v')`, as the loop builds it up
abbrev pub vs : ℕ → Bytes
vs zero = []
vs (suc n) = b'v' ∷ vs n

abbrev set_log_level : Options → ℕ → Options
set_log_level o n = record o { expanded_options = assign log_level_key (int n) o.expanded_options }

-- `for (s = "vv"; s.length() <= MAX_VERBOSE_LEVEL; s.append("v"))`, from a length on, with the
-- rounds that are left.
unfoldable pub expand_verbose : ℕ → ℕ → Options → Options
expand_verbose zero n o = o
expand_verbose (suc left) n o =
    expand_verbose left (n + 1)
      (if is_given (lookup (vs n) o.variables_map) then set_log_level o n else o)

-- The end of `parseOptions`.
unfoldable pub expand_log_level : Options → Options
unfolding expand_verbose
expand_log_level o =
    expand_verbose (max_verbose_level - 1) 2
      (set_log_level o (if is_given (lookup (codes "verbose") o.variables_map) then 1 else 0))
