-- ===== src/Options/Config/Lines.antt =====
-- `getline` of `parseConfigFile` of util/options.cpp on one line.
use boostcache.Prelude.{
  ℕ, zero, suc, ◌-◌, ◌≤◌, ◌<◌, ◌≡◌, refl, ap, true, false, [], ◌∷◌, ◌++◌, arith, length, take, ◌⊎◌,
  inl, inr,
}
use boostcache.Wire.{Bytes, lf}
use boostcache.Wire.Search.{Free}
use boostcache.JsVm.{c_str}
use boostcache.Options.Config.{path_max, quote, double_quote, extract_line, getline}

-- A line that ends in the room.
extract_line-line :
    (room : ℕ) (l rest : Bytes)
    → Free lf l
    → length l ≤ room
    → extract_line room (l ++ lf ∷ rest) ≡ record { line = l; rest = rest; failed = false }
unfolding extract_line
extract_line-line zero [] rest f h = ground arith
extract_line-line (suc room) [] rest f h = ground arith
extract_line-line zero (c ∷ l) rest f h = absurd (omega arith)
extract_line-line (suc room) (c ∷ l) rest f h = ground (arith, extract_line-line room l rest f.1)

-- A line that does not.
extract_line-long :
    (room : ℕ) (l rest : Bytes)
    → Free lf l
    → room < length l
    → ((extract_line room (l ++ rest)).line ≡ take room l)
      × ((extract_line room (l ++ rest)).failed ≡ true)
unfolding extract_line
extract_line-long room [] rest f h = absurd (omega arith)
extract_line-long zero (c ∷ l) rest f h = (ground arith, ground arith)
extract_line-long (suc room) (c ∷ l) rest f h =
    let (line, failed) = extract_line-long room l rest f.1 (omega arith) in
    (ground (arith, line), ground (arith, failed))

pub getline-line :
    (l rest : Bytes)
    → Free lf l
    → length l < path_max
    → getline path_max (l ++ lf ∷ rest) ≡ record { line = l; rest = rest; failed = false }
unfolding getline
getline-line [] rest f h = extract_line-line 4095 [] rest f (omega arith)
getline-line (c ∷ l) rest f h = extract_line-line 4095 (c ∷ l) rest f (omega arith)

pub getline-long :
    (l rest : Bytes)
    → Free lf l
    → path_max ≤ length l
    → ((getline path_max (l ++ rest)).line ≡ take (path_max - 1) l)
      × ((getline path_max (l ++ rest)).failed ≡ true)
unfolding getline
getline-long [] rest f h = absurd (omega arith)
getline-long (c ∷ l) rest f h = extract_line-long 4095 (c ∷ l) rest f (omega arith)

pub c_str-Free : (s : Bytes) → Free 0 s → c_str s ≡ s
unfolding c_str
c_str-Free [] f = refl
c_str-Free (c ∷ s) f = ground (arith, c_str-Free s f.1)

-- A text without a quote.
abbrev pub Unquoted : Bytes → Type 0
Unquoted s = Free quote s × Free double_quote s

-- The last byte of a text.
pub snoc-cases : (s : Bytes) → (s ≡ []) ⊎ ((t : Bytes) × (c : ℕ) × (s ≡ t ++ c ∷ []))
snoc-cases [] = inl refl
snoc-cases (x ∷ s) = elim (snoc-cases s) [
  | inl e ↦ inr ([], x, ap (λ r. x ∷ r) e)
  | inr (t, c, e) ↦ inr (x ∷ t, c, ap (λ r. x ∷ r) e)
]
