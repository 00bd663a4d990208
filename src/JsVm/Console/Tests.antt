-- ===== src/JsVm/Console/Tests.antt =====
-- `console.log` and `console.error` of the example's machine.
use boostcache.Prelude.{◌≡◌, refl, some, [], ◌∷◌}
use boostcache.Wire.{codes}
use boostcache.Log.{info, error}
use boostcache.Examples.{appending_v8}
use boostcache.JsVm.{c_str}
use boostcache.JsVm.Console.{print_log, log_args_to_string, print, fill_try_catch}

log-two :
    print appending_v8 print_log (codes "a" ∷ codes "b" ∷ [])
    ≡ some (record { severity = info; message = codes "ab" })
unfolding print log_args_to_string c_str
log-two = refl

exception-error :
    fill_try_catch appending_v8 (codes "no")
    ≡ some (record { severity = error; message = codes "no" })
unfolding fill_try_catch c_str
exception-error = refl
