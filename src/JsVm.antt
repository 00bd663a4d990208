-- ===== src/JsVm.antt =====
-- server/jsvm.h and server/jsvm.cpp: a user's function that is called on keys and values.
-- V8 is not the program's: its virtual machine enters as a parameter.
pub mod Visit
pub mod Console
pub mod Pure
pub mod Passes
use boostcache.Prelude.{ℕ, Option, none, some, ◌>>=◌, [], ◌∷◌, ◌==◌, if◌then◌else◌}
use boostcache.Wire.{Bytes}

-- What the wrapper uses of V8. A `Value` carries the state of its isolate, so that a call gives
-- the function's next state. `none` of `compile`, of `run` and of a call's result is the empty
-- handle that V8 returns when the script throws. A call of a value that is no function is not
-- defined, and `utf8` has no text for a value whose conversion to a string throws.
pub record V8 : Type 1 where
  pub Script : Type 0
  pub Value : Type 0
  pub compile : Bytes → Option Script
  pub run : Script → Option Value
  pub call : Value → Bytes → Bytes → Option (Option Value × Value)
  pub utf8 : Value → Option Bytes

-- `c_str()` handed to a function that reads up to the terminator.
unfoldable pub c_str : Bytes → Bytes
c_str [] = []
c_str (c ∷ cs) = if c == 0 then [] else c ∷ c_str cs

module _ (v : V8) where
  open v use {Script, Value}

  -- `JsVm vm(code); vm.init()`: `none` is `false`, else the function that `m_function` holds.
  unfoldable pub init : Bytes → Option Value
  unfolding c_str
  init code = do script ← v.compile (c_str code); v.run script

  -- `call`: the exception is `none`.
  unfoldable pub call : Value → Bytes → Bytes → Option (Option Bytes × Value)
  unfolding c_str
  call f key value = do
    (ret, f') ← v.call f (c_str key) (c_str value)
    elim ret [
      | none ↦ some (none, f')
      | some r ↦ (do text ← v.utf8 r; some (some (c_str text), f'))
    ]
