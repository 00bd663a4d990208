-- ===== src/JsVm/Console.antt =====
-- server/jsvm.cpp: the construction of the virtual machine, what scripts print with `console`, and
-- what the wrapper logs of an exception.
mod Tests
use boostcache.Prelude.{Option, none, some, ◌>>=◌, List, [], ◌∷◌, ◌++◌}
use boostcache.Wire.{Bytes, codes}
use boostcache.Log.{Severity, info, error}
use boostcache.UnorderedMap.{UnorderedMap, lookup, assign}
use boostcache.JsVm.{V8, c_str}

-- A record of the log.
pub record LogRecord : Type 0 where
  pub severity : Severity
  pub message : Bytes

-- The functions that scripts are given.
pub data Printer : Type 0 where
  print_log print_error : Printer

-- The constructor: the template of the globals, and the source.
pub record JsVm : Type 0 where
  pub global : UnorderedMap (UnorderedMap Printer)
  pub source : Bytes

unfoldable pub new_js_vm : Bytes → JsVm
new_js_vm code =
    let console = assign (codes "error") print_error (assign (codes "log") print_log []) in
    record { global = assign (codes "console") console []; source = c_str code }

module _ (v : V8) where
  open v use {Value}

  -- `logArgs2String(args)`: each text is appended up to its first zero byte.
  unfoldable pub log_args_to_string : List Value → Option Bytes
  log_args_to_string [] = some []
  log_args_to_string (a ∷ args) = do
    str ← v.utf8 a
    message ← log_args_to_string args
    some (c_str str ++ message)

  abbrev severity_of : Printer → Severity
  severity_of print_log = info
  severity_of print_error = error

  -- `log(args)` and `error(args)`
  unfoldable pub print : Printer → List Value → Option LogRecord
  print f args = do
    message ← log_args_to_string args
    some (record { severity = severity_of f; message = message })

  -- `fillTryCatch()`, with the exception that was caught.
  unfoldable pub fill_try_catch : Value → Option LogRecord
  fill_try_catch exception = do
    text ← v.utf8 exception
    some (record { severity = error; message = c_str text })
