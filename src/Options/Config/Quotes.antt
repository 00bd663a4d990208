-- ===== src/Options/Config/Quotes.antt =====
-- `parseConfigFile` of util/options.cpp on whole files: values in quotes, and long lines.
use boostcache.Prelude.{
  ℕ, zero, suc, ◌+◌, ◌-◌, ◌≤◌, ◌<◌, ◌≡◌, ◌≢◌, refl, sym, ap, ◌∙◌, subst, true, List, [], ◌∷◌, ◌++◌,
  All, All-append, All-append_inv, All-append_one, arith, length, take, drop, take-append-drop,
  length-append, append_assoc, inl, inr, if◌then◌else◌,
}
use boostcache.Wire.{Bytes, lf}
use boostcache.Wire.Search.{Free, Free-prefix}
use boostcache.JsVm.{c_str}
use boostcache.Options.Config.{
  path_max, quote, double_quote, IsQuote, StringAlgorithms, getline, unquoted, config_loop,
  parse_config_file,
}
use boostcache.Options.Config.Lines.{getline-line, getline-long, c_str-Free, Unquoted, snoc-cases}

-- A line of the file: as it stands, or with a value between two equal quotes at its end.
pub data Line : Type 0 where
  plain : Bytes → Line
  quoted : Bytes → ℕ → Bytes → Line

abbrev pub written : Line → Bytes
written (plain s) = s
written (quoted key q value) = key ++ q ∷ (value ++ q ∷ [])

abbrev pub meaning : Line → Bytes
meaning (plain s) = s
meaning (quoted key q value) = key ++ value

-- Neither a line feed nor a zero byte; short enough.
abbrev pub Fits : Bytes → Type 0
Fits s = Free lf s × Free 0 s × (length s < path_max)

abbrev pub IsLine : Line → Type 0
IsLine (plain s) = Unquoted s × Fits s
IsLine (quoted key q value) =
    IsQuote q × Unquoted key × Unquoted value × Fits (written (quoted key q value))

-- The text of a file.
abbrev pub file : List Bytes → Bytes
file [] = []
file (l ∷ ls) = l ++ lf ∷ file ls

abbrev pub each : (Line → Bytes) → List Line → List Bytes
each f [] = []
each f (l ∷ ls) = f l ∷ each f ls

module _ (b : StringAlgorithms) where
  trim-Unquoted : (s : Bytes) → Unquoted s → b.trim_right_quotes s ≡ s
  trim-Unquoted s u = elim (snoc-cases s) [
    | inl e ↦ rw e b.trim_right_quotes-nil
    | inr (t, c, e) ↦
        let (single, double) = subst Unquoted e u in
        let (_, not_quote) = All-append_inv (λ x. x ≢ quote) t (c ∷ []) single in
        let (_, not_double) = All-append_inv (λ x. x ≢ double_quote) t (c ∷ []) double in
        rw e (
          b.trim_right_quotes-other c t
            (λ h. elim h [ inl p ↦ not_quote.0 p | inr p ↦ not_double.0 p ]))
  ]

  erase-Unquoted : (s : Bytes) → Unquoted s → b.erase_first double_quote (b.erase_first quote s) ≡ s
  erase-Unquoted s (single, double) =
      rw (b.erase_first-Free quote s single) (b.erase_first-Free double_quote s double)

  unquoted-Unquoted : (s : Bytes) → Unquoted s → unquoted b s ≡ s
  unquoted-Unquoted s u = ap b.trim_right_quotes (erase-Unquoted s u) ∙ trim-Unquoted s u

  Unquoted-append : (s t : Bytes) → Unquoted s → Unquoted t → Unquoted (s ++ t)
  Unquoted-append s t (a, a') (c, c') =
      (All-append (λ x. x ≢ quote) s t a c, All-append (λ x. x ≢ double_quote) s t a' c')

  trim-closed : (s : Bytes) (q : ℕ) → IsQuote q → Unquoted s → b.trim_right_quotes (s ++ q ∷ []) ≡ s
  trim-closed s q h u = b.trim_right_quotes-quote q s h ∙ trim-Unquoted s u

  -- The value behind the second of the two erasures.
  erase-single :
      (key value : Bytes)
      → Unquoted key
      → Unquoted value
      → unquoted b (key ++ quote ∷ (value ++ quote ∷ [])) ≡ key ++ value
  erase-single key value k v =
      let double-Free : Free double_quote ((key ++ value) ++ quote ∷ []) =
        All-append_one (λ x. x ≢ double_quote) (key ++ value) quote
          (Unquoted-append key value k v).1 (omega arith) in
      ap (λ s. b.trim_right_quotes (b.erase_first double_quote s))
        (b.erase_first-hit quote key (value ++ quote ∷ []) k.0
          ∙ sym (append_assoc key value (quote ∷ [])))
      ∙ ap b.trim_right_quotes (b.erase_first-Free double_quote _ double-Free)
      ∙ trim-closed (key ++ value) quote (inl refl) (Unquoted-append key value k v)

  erase-double :
      (key value : Bytes)
      → Unquoted key
      → Unquoted value
      → unquoted b (key ++ double_quote ∷ (value ++ double_quote ∷ [])) ≡ key ++ value
  erase-double key value k v =
      let behind : Free quote (value ++ double_quote ∷ []) =
        All-append_one (λ x. x ≢ quote) value double_quote v.0 (omega arith) in
      let single-Free : Free quote (key ++ double_quote ∷ (value ++ double_quote ∷ [])) =
        All-append (λ x. x ≢ quote) key _ k.0 (omega arith, behind) in
      ap (λ s. b.trim_right_quotes (b.erase_first double_quote s))
        (b.erase_first-Free quote _ single-Free)
      ∙ ap b.trim_right_quotes (
          b.erase_first-hit double_quote key (value ++ double_quote ∷ []) k.1
          ∙ sym (append_assoc key value (double_quote ∷ [])))
      ∙ trim-closed (key ++ value) double_quote (inr refl) (Unquoted-append key value k v)

  unquoted-written : (l : Line) → IsLine l → unquoted b (written l) ≡ meaning l
  unquoted-written (plain s) h = unquoted-Unquoted s h.0
  unquoted-written (quoted key q value) h = elim (h.0) [
    | inl e ↦
        subst (λ q. unquoted b (written (quoted key q value)) ≡ key ++ value) (sym e)
          (erase-single key value h.1 h.2)
    | inr e ↦
        subst (λ q. unquoted b (written (quoted key q value)) ≡ key ++ value) (sym e)
          (erase-double key value h.1 h.2)
  ]

  written-Fits : (l : Line) → IsLine l → Fits (written l)
  written-Fits (plain s) h = h.1
  written-Fits (quoted key q value) h = h.3

  -- Each line takes one round; the round behind the last one puts an empty line.
  config_loop-file :
      (fuel : ℕ) (ls : List Line)
      → All IsLine ls
      → length ls < fuel
      → config_loop b fuel (file (each written ls)) ≡ file (each meaning ls) ++ lf ∷ []
  unfolding config_loop getline
  config_loop-file zero ls hs h = absurd (omega arith)
  config_loop-file (suc fuel) [] hs h = ap (λ s. s ++ lf ∷ []) (unquoted-Unquoted [] (tt, tt))
  config_loop-file (suc fuel) (l ∷ ls) hs h =
      let (no_lf, no_zero, short) = written-Fits l hs.0 in
      let read = getline-line (written l) (file (each written ls)) no_lf short in
      let value = ap (unquoted b) (c_str-Free (written l) no_zero) ∙ unquoted-written l hs.0 in
      let more = config_loop-file fuel ls hs.1 (omega arith) in
      ap
        (λ g.
          unquoted b (c_str g.line) ++ lf ∷ (if g.failed then [] else config_loop b fuel g.rest))
        read
      ∙ ap (λ s. s ++ lf ∷ config_loop b fuel (file (each written ls))) value
      ∙ ap (λ s. meaning l ++ lf ∷ s) more
      ∙ sym (append_assoc (meaning l) (lf ∷ file (each meaning ls)) (lf ∷ []))

  length-file : (ls : List Bytes) → length ls ≤ length (file ls)
  length-file [] = omega arith
  length-file (l ∷ ls) = omega (arith, length-append l (lf ∷ file ls), length-file ls)

  length-each : (f : Line → Bytes) (ls : List Line) → length (each f ls) ≡ length ls
  length-each f [] = refl
  length-each f (l ∷ ls) = ap suc (length-each f ls)

  -- A file whose lines fit and whose quotes stand around values at the ends of lines comes out with
  -- the same lines in the same order, the values without their quotes, and one empty line more.
  pub parse_config_file-file :
      (ls : List Line)
      → All IsLine ls
      → parse_config_file b (file (each written ls)) ≡ file (each meaning ls) ++ lf ∷ []
  unfolding parse_config_file
  parse_config_file-file ls hs =
      config_loop-file _ ls hs
        (omega (arith, length-file (each written ls), length-each written ls))

  Free-take : (c n : ℕ) (l : Bytes) → Free c l → Free c (take n l)
  Free-take c n l h =
      Free-prefix c (take n l) (drop n l) (subst (Free c) (sym (take-append-drop n l)) h)

  unquoted-take :
      (n : ℕ) (l : Bytes) → Free 0 l → Unquoted l → unquoted b (c_str (take n l)) ≡ take n l
  unquoted-take n l no_zero (single, double) =
      ap (unquoted b) (c_str-Free (take n l) (Free-take 0 n l no_zero))
      ∙ unquoted-Unquoted (take n l) (Free-take quote n l single, Free-take double_quote n l double)

  -- A round that fails is the last one.
  config_loop-failed :
      (fuel : ℕ) (s line : Bytes)
      → (getline path_max s).line ≡ line
      → (getline path_max s).failed ≡ true
      → config_loop b (suc fuel) s ≡ unquoted b (c_str line) ++ lf ∷ []
  unfolding config_loop
  config_loop-failed fuel s line e failed = rw (e, failed) refl

  -- In a file whose first line has `PATH_MAX` bytes or more, without quotes and zero bytes, this line
  -- is cut, and nothing else is read: what stands behind it makes no difference.
  pub parse_config_file-long :
      (l rest : Bytes)
      → path_max ≤ length l
      → Free lf l
      → Free 0 l
      → Unquoted l
      → parse_config_file b (l ++ rest) ≡ take (path_max - 1) l ++ lf ∷ []
  unfolding parse_config_file
  parse_config_file-long l rest long no_lf no_zero u =
      let (line, failed) = getline-long l rest no_lf long in
      let one : length (l ++ rest) + 1 ≡ suc (length (l ++ rest)) = omega arith in
      ap (λ fuel. config_loop b fuel (l ++ rest)) one
      ∙ config_loop-failed (length (l ++ rest)) (l ++ rest) (take (path_max - 1) l) line failed
      ∙ ap (λ s. s ++ lf ∷ []) (unquoted-take (path_max - 1) l no_zero u)
