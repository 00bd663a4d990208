-- ===== src/Exception/StackTrace.antt =====
-- util/stacktrace.cpp, and kernel/exceptiontrace.h, which prints a trace where it is thrown. The
-- frames and their symbols are glibc's.
use boostcache.Prelude.{ℕ, ◌≤◌, Option, none, some, ◌>>=◌, List, [], ◌∷◌, ◌++◌, length}
use boostcache.Wire.{Bytes, lf, codes}
use boostcache.Exception.{Exception, new_exception}

-- `MAX_BACK_TRACE_FRAMES`
abbrev pub max_back_trace_frames : ℕ
max_back_trace_frames = 20

-- `backtrace`, `backtrace_symbols` with `none` for the null pointer, and the text of a pointer.
pub record Backtrace : Type 0 where
  pub frames : ℕ → List ℕ
  pub symbols : List ℕ → Option (List Bytes)
  pub pointer_text : ℕ → Bytes
  pub length-frames : (n : ℕ) → length (frames n) ≤ n

-- The loop over the frames, and the one over their symbols.
abbrev pub frame_texts : Backtrace → List ℕ → Bytes
frame_texts b [] = []
frame_texts b (f ∷ fs) = b.pointer_text f ++ (codes " " ++ frame_texts b fs)

abbrev pub symbol_lines : List Bytes → Bytes
symbol_lines [] = []
symbol_lines (s ∷ ss) = codes " " ++ (s ++ (lf ∷ symbol_lines ss))

-- `printStackTrace(os)`: the strings are read also where there are none, if there is a frame.
abbrev pub symbols_text : List ℕ → Option (List Bytes) → Option Bytes
symbols_text fs (some ss) = some (symbol_lines ss)
symbols_text [] none = some []
symbols_text (f ∷ fs) none = none

unfoldable pub print_stack_trace : Backtrace → Option Bytes
print_stack_trace b = do
  let fs = b.frames max_back_trace_frames
  lines ← symbols_text fs (b.symbols fs)
  some ((frame_texts b fs ++ lf ∷ []) ++ lines)

-- `ExceptionTrace(message)`: what it writes, and the exception.
unfoldable pub new_exception_trace : Backtrace → Bytes → Option (Bytes × Exception)
new_exception_trace b message = do trace ← print_stack_trace b; some (trace, new_exception message)
