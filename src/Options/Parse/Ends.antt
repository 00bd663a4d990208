-- ===== src/Options/Parse/Ends.antt =====
-- How `tryParseOptions` of util/options.cpp ends: the log.
use boostcache.Prelude.{
  ◌≢◌, ℕ, ◌-◌, ◌≤◌, ◌≡◌, refl, sym, ap, ◌∙◌, subst, ◌⊎◌, inl, inr, true, false, Option, none, some,
  List, [], ◌∷◌, if◌then◌else◌, arith, Bool-cases,
}
use boostcache.Wire.{Bytes, codes, is_negative}
use boostcache.UnorderedMap.{lookup}
use boostcache.Log.{
  FileLog, install_logger_file, Severity, rank, install_logger_level, install_logger_level_total,
}
use boostcache.Wire.Decimal.{Decimal}
use boostcache.Options.Result.{returned, >>=-returned}
use boostcache.Options.Config.{StringAlgorithms}
use boostcache.Options.LogLevel.{IsGiven, expand_log_level_lem, expand_log_level-kept}
use boostcache.Options.Parse.{
  ProgramOptions, installed, load_options, parse_options, log_file, after_parse, try_parse_options,
}
use boostcache.Options.{
  Options, as_int, as_text, is_given, get_value, log_level_key, vs, expand_log_level,
}

-- The level that the options `o` ask for: the length of the longest `-vv…` up to 20, else 1 with
-- `--verbose` and 0 without.
abbrev pub IsLevel : Options → ℕ → Type 0
IsLevel o level =
    ((n : ℕ) → 2 ≤ n → n ≤ 20 → IsGiven o n → n ≤ level)
    × ((level ≡ (if is_given (lookup (codes "verbose") o.variables_map) then 1 else 0))
        ⊎ ((2 ≤ level) × (level ≤ 20) × IsGiven o level))

-- What the name of the log's file asks for.
abbrev pub IsLogOf : Bytes → Option FileLog → Type 0
IsLogOf name log =
    (name ≡ [] → log ≡ none)
    × (name ≢ []
        → log
          ≡ some (record {
            file_name = name;
            rotation_size = 10485760;
            auto_flush = true;
            append = true;
            rotation_hour = 0;
          }))

log_file-IsLogOf : (name : Bytes) → IsLogOf name (log_file name)
unfolding install_logger_file
log_file-IsLogOf [] = ((λ e. refl), λ n. absurd (n refl))
log_file-IsLogOf (c ∷ cs) = ((λ e. absurd (ground arith)), λ n. refl)

IsLevel-values :
    (o o' : Options) (level : ℕ)
    → o.variables_map ≡ o'.variables_map
    → IsLevel o level
    → IsLevel o' level
IsLevel-values o o' level e (most, origin) = (
  subst (λ m. (n : ℕ) → 2 ≤ n → n ≤ 20 → is_given (lookup (vs n) m) ≡ true → n ≤ level) e most,
  subst
      (λ m.
        (level ≡ (if is_given (lookup (codes "verbose") m) then 1 else 0))
        ⊎ ((2 ≤ level) × (level ≤ 20) × (is_given (lookup (vs level) m) ≡ true)))
      e origin,
)

IsLevel-small : (o : Options) (level : ℕ) → IsLevel o level → is_negative level ≡ false
IsLevel-small o level (most, inl e) =
    elim (Bool-cases (is_given (lookup (codes "verbose") o.variables_map))) [
      | inl t ↦ ground arith
      | inr f ↦ ground arith
    ]
IsLevel-small o level (most, inr (l, u, g)) = ground arith

module _ (b : ProgramOptions) (a : StringAlgorithms) (read_file : Bytes → Option Bytes) where
  -- What is returned comes out of the loop over `-vv…`.
  parse_options-expanded :
      (argv : List Bytes) (o₀ o : Options)
      → parse_options b a read_file argv o₀ ≡ returned o
      → (o' : Options) × (expand_log_level o' ≡ o)
  unfolding parse_options
  parse_options-expanded argv o₀ o h =
      let (o', _, e) =
        >>=-returned (load_options b a read_file argv o₀) (λ o. returned (expand_log_level o)) h in
      (o', cc)

  module _ (p : Decimal) where
    install_runs :
        (float git : Bytes) (o : Options) (name : Bytes) (level : ℕ) (filter : Severity)
        → is_given (lookup (codes "help") o.variables_map) ≡ false
        → is_given (lookup (codes "version") o.variables_map) ≡ false
        → get_value as_int 0 o log_level_key ≡ some level
        → install_logger_level level ≡ some filter
        → get_value as_text [] o (codes "logFile") ≡ some name
        → after_parse b p float git (returned o) ≡ installed o (some filter) (log_file name)
    install_runs float git o name level filter no_help no_version got installs log =
        rw (no_help, no_version, got, installs, log) refl

    -- Where the options are parsed, neither the help nor the version is asked for, and the name of the
    -- log's file is a text, the log is installed: its filter counts down from fatal by the level that
    -- the options ask for, to trace at 5; it goes to no file where the name is empty, and otherwise to
    -- the file of this name, to which it appends and flushes every record, with a new file at midnight
    -- and at 10 MB.
    pub try_parse_options-installed :
        (float git : Bytes) (argv : List Bytes) (o₀ o : Options) (name : Bytes)
        → parse_options b a read_file argv o₀ ≡ returned o
        → is_given (lookup (codes "help") o.variables_map) ≡ false
        → is_given (lookup (codes "version") o.variables_map) ≡ false
        → get_value as_text [] o (codes "logFile") ≡ some name
        → (filter : Severity) × (level : ℕ) × (log : Option FileLog) × (try_parse_options b p a
              read_file float git argv o₀
            ≡ installed o (some filter) log)
          × (rank filter ≡ 5 - level)
          × IsLevel o level
          × IsLogOf name log
    unfolding try_parse_options
    try_parse_options-installed float git argv o₀ o name parsed no_help no_version log =
        let (o', e) = parse_options-expanded argv o₀ o parsed in
        let (level, got, most, origin) = expand_log_level_lem o' in
        let asked : IsLevel o level =
          IsLevel-values o' o level (sym (expand_log_level-kept o') ∙ ap (λ o. o.variables_map) e)
            (most, origin) in
        let got' : get_value as_int 0 o log_level_key ≡ some level =
          subst (λ o. get_value as_int 0 o log_level_key ≡ some level) e got in
        let (filter, installs, counts) = install_logger_level_total level in
        (
          filter,
          level,
          log_file name,
          ap (after_parse b p float git) parsed
              ∙ install_runs float git o name level filter no_help no_version got' installs log,
          ground (arith, counts, IsLevel-small o level asked),
          asked,
          log_file-IsLogOf name,
        )
