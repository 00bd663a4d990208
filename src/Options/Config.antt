-- ===== src/Options/Config.antt =====
-- `parseConfigFile` of util/options.cpp: the lines of the config file without their quotes. What
-- boost's string algorithms do is a parameter.
pub mod Lines
pub mod Quotes
pub mod Examples
use boostcache.Prelude.{
  ℕ, zero, suc, ◌+◌, ◌-◌, ◌≡◌, ◌≢◌, Bool, true, false, List, [], ◌∷◌, ◌++◌, ◌==◌, if◌then◌else◌,
  length, ◌⊎◌,
}
use boostcache.Wire.{Bytes, lf}
use boostcache.Wire.Search.{Free}
use boostcache.JsVm.{c_str}

-- `PATH_MAX` of the platform.
abbrev pub path_max : ℕ
path_max = 4096

abbrev pub quote : ℕ
quote = 39

abbrev pub double_quote : ℕ
double_quote = 34

abbrev pub IsQuote : ℕ → Type 0
IsQuote c = (c ≡ quote) ⊎ (c ≡ double_quote)

-- `replace_first(s, c, "")` for one byte, and `trim_right_if(s, is_any_of("'\""))`.
pub record StringAlgorithms : Type 0 where
  pub erase_first : ℕ → Bytes → Bytes
  pub trim_right_quotes : Bytes → Bytes
  pub erase_first-Free : (c : ℕ) (s : Bytes) → Free c s → erase_first c s ≡ s
  pub erase_first-hit : (c : ℕ) (s t : Bytes) → Free c s → erase_first c (s ++ c ∷ t) ≡ s ++ t
  pub trim_right_quotes-nil : trim_right_quotes [] ≡ []
  pub trim_right_quotes-quote :
      (c : ℕ) (s : Bytes) → IsQuote c → trim_right_quotes (s ++ c ∷ []) ≡ trim_right_quotes s
  pub trim_right_quotes-other :
      (c : ℕ) (s : Bytes) → ¬ (IsQuote c) → trim_right_quotes (s ++ c ∷ []) ≡ s ++ c ∷ []

-- What `getline` leaves: the bytes of the line, those behind it, and `failbit`.
pub record Got : Type 0 where
  pub line : Bytes
  pub rest : Bytes
  pub failed : Bool

abbrev before_got : ℕ → Got → Got
before_got c g = record g { line = c ∷ g.line }

-- Bytes up to a line feed, which is taken and not stored, or to the end; with no room left for one
-- more byte it fails.
unfoldable pub extract_line : ℕ → Bytes → Got
extract_line room [] = record { line = []; rest = []; failed = false }
extract_line zero (c ∷ cs) =
    if c == lf
    then record { line = []; rest = cs; failed = false }
    else record { line = []; rest = c ∷ cs; failed = true }
extract_line (suc room) (c ∷ cs) =
    if c == lf
    then record { line = []; rest = cs; failed = false }
    else before_got c (extract_line room cs)

-- `fileStream.getline(line, size)`: at the end of the file there is nothing to take, and it fails.
unfoldable pub getline : ℕ → Bytes → Got
unfolding extract_line
getline size [] = record { line = []; rest = []; failed = true }
getline size (c ∷ cs) = extract_line (size - 1) (c ∷ cs)

module _ (b : StringAlgorithms) where
  -- The two `replace_first` and the `trim_right_if`.
  abbrev pub unquoted : Bytes → Bytes
  unquoted s = b.trim_right_quotes (b.erase_first double_quote (b.erase_first quote s))

  -- `while (fileStream)`, with fuel: a round that does not fail takes a byte.
  unfoldable pub config_loop : ℕ → Bytes → Bytes
  unfolding c_str
  config_loop zero s = []
  config_loop (suc fuel) s =
      let g = getline path_max s in
      let rest = config_loop fuel g.rest in
      unquoted (c_str g.line) ++ lf ∷ (if g.failed then [] else rest)

  -- `parseConfigFile(fileStream, stringStream)`: the text that is put into the second stream.
  unfoldable pub parse_config_file : Bytes → Bytes
  unfolding config_loop
  parse_config_file s = config_loop (length s + 1) s
