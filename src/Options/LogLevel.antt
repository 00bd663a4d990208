-- ===== src/Options/LogLevel.antt =====
-- The level of verbosity that util/options.cpp makes of `-v`, `-vv`, `-vvv` and so on.
use boostcache.Prelude.{
  ℕ, zero, suc, ◌+◌, ◌-◌, ◌≤◌, ◌<◌, ◌≡◌, refl, sym, ap, subst, ◌∙◌, ◌⊎◌, inl, inr, Bool, true,
  false, some, arith, Bool-cases, ◌==◌, if◌then◌else◌,
}
use boostcache.Wire.{Bytes, codes}
use boostcache.Wire.Equality.{same_bytes, same_bytes_refl}
use boostcache.UnorderedMap.{lookup, lookup-assign}
use boostcache.Options.{
  int, Options, as_int, is_given, from_expanded, get_value, log_level_key, vs, set_log_level,
  expand_verbose, expand_log_level, max_verbose_level,
}

-- `-v` written `n` times is given.
abbrev pub IsGiven : Options → ℕ → Type 0
IsGiven o n = is_given (lookup (vs n) o.variables_map) ≡ true

set_log_level_lem :
    (o : Options) (n : ℕ) → lookup log_level_key (set_log_level o n).expanded_options ≡ some (int n)
set_log_level_lem o n = ground (
  arith,
  lookup-assign log_level_key log_level_key (int n) o.expanded_options,
  same_bytes_refl log_level_key,
)

-- What the loop from `n` on leaves, from a level `l` that was set before.
record Expanded (o : Options) (left n l : ℕ) (o' : Options) : Type 0 where
  level : ℕ
  set : lookup log_level_key o'.expanded_options ≡ some (int level)
  kept : o'.variables_map ≡ o.variables_map
  grown : l ≤ level
  most : (k : ℕ) → n ≤ k → k < n + left → IsGiven o k → k ≤ level
  origin : (level ≡ l) ⊎ ((n ≤ level) × (level < n + left) × IsGiven o level)

-- A round that finds its option.
given_step :
    (left n l : ℕ) (o o' : Options)
    → l < n
    → IsGiven o n
    → Expanded (set_log_level o n) left (n + 1) n o'
    → Expanded o (suc left) n l o'
given_step left n l o o' below given r = record {
  level = r.level;
  set = r.set;
  kept = r.kept;
  grown = omega (arith, r.grown);
  most = λ k a b g. elim (Bool-cases (k == n)) [
    | inl here ↦ ground (arith, r.grown)
    | inr behind ↦ r.most k (ground arith) (omega arith) g
  ];
  origin = elim r.origin [
    | inl e ↦ inr (omega arith, omega arith, subst (IsGiven o) (sym e) given)
    | inr (a, b, g) ↦ inr (omega arith, omega arith, g)
  ];
}

-- A round that does not.
other_step :
    (left n l : ℕ) (o o' : Options)
    → is_given (lookup (vs n) o.variables_map) ≡ false
    → Expanded o left (n + 1) l o'
    → Expanded o (suc left) n l o'
other_step left n l o o' other r = record {
  level = r.level;
  set = r.set;
  kept = r.kept;
  grown = r.grown;
  most = λ k a b g. elim (Bool-cases (k == n)) [
    | inl here ↦ ground arith
    | inr behind ↦ r.most k (ground arith) (omega arith) g
  ];
  origin = elim r.origin [ inl e ↦ inl e | inr (a, b, g) ↦ inr (omega arith, omega arith, g) ];
}

expand_verbose-Expanded :
    (left n l : ℕ) (o : Options)
    → l < n
    → lookup log_level_key o.expanded_options ≡ some (int l)
    → Expanded o left n l (expand_verbose left n o)
unfolding expand_verbose
expand_verbose-Expanded zero n l o below at = record {
  level = l;
  set = at;
  kept = refl;
  grown = omega arith;
  most = λ k a b g. omega arith;
  origin = inl refl;
}
expand_verbose-Expanded (suc left) n l o below at =
    let now : Bool → Options = λ b. if b then set_log_level o n else o in
    let rest : Options → Options = expand_verbose left (n + 1) in
    elim (Bool-cases (is_given (lookup (vs n) o.variables_map))) [
      | inl given ↦
          subst (λ b. Expanded o (suc left) n l (rest (now b))) (sym given)
            (given_step left n l o (rest (set_log_level o n)) below given (
              expand_verbose-Expanded left (n + 1) n (set_log_level o n) (omega arith)
                (set_log_level_lem o n)))
      | inr other ↦
          subst (λ b. Expanded o (suc left) n l (rest (now b))) (sym other)
            (other_step left n l o (rest o) other
              (expand_verbose-Expanded left (n + 1) l o (omega arith) at))
    ]

-- The level that the server asks for is the length of the longest `-vv…` up to 20 that is given;
-- without any it is 1 with `--verbose`, else 0.
pub expand_log_level_lem :
    (o : Options)
    → (level : ℕ) × (get_value as_int 0 (expand_log_level o) log_level_key ≡ some level)
      × ((n : ℕ) → 2 ≤ n → n ≤ 20 → IsGiven o n → n ≤ level)
      × ((level ≡ (if is_given (lookup (codes "verbose") o.variables_map) then 1 else 0))
          ⊎ ((2 ≤ level) × (level ≤ 20) × IsGiven o level))
unfolding expand_log_level get_value
expand_log_level_lem o =
    let start : ℕ = if is_given (lookup (codes "verbose") o.variables_map) then 1 else 0 in
    let r =
      expand_verbose-Expanded (max_verbose_level - 1) 2 start (set_log_level o start) (ground arith)
        (set_log_level_lem o start) in
    (
      r.level,
      ap (λ x. from_expanded as_int 0 x (expand_log_level o) log_level_key) r.set,
      λ n a b g. r.most n a (omega arith) g,
      elim r.origin [ inl e ↦ inl e | inr (a, b, g) ↦ inr (a, omega arith, g) ],
    )

set_log_level-kept :
    (o : Options) (n : ℕ) (b : Bool)
    → (if b then set_log_level o n else o).variables_map ≡ o.variables_map
set_log_level-kept o n true = refl
set_log_level-kept o n false = refl

expand_verbose-kept :
    (left n : ℕ) (o : Options) → (expand_verbose left n o).variables_map ≡ o.variables_map
unfolding expand_verbose
expand_verbose-kept zero n o = refl
expand_verbose-kept (suc left) n o =
    expand_verbose-kept left (n + 1) _
    ∙ set_log_level-kept o n (is_given (lookup (vs n) o.variables_map))

-- The values stay as they are.
pub expand_log_level-kept : (o : Options) → (expand_log_level o).variables_map ≡ o.variables_map
unfolding expand_log_level
expand_log_level-kept o = expand_verbose-kept (max_verbose_level - 1) 2 _

set_log_level-other :
    (o : Options) (n : ℕ) (b : Bool) (key : Bytes)
    → same_bytes log_level_key key ≡ false
    → lookup key (if b then set_log_level o n else o).expanded_options
      ≡ lookup key o.expanded_options
set_log_level-other o n true key h =
    lookup-assign log_level_key key (int n) o.expanded_options ∙ rw h refl
set_log_level-other o n false key h = refl

expand_verbose-other :
    (left n : ℕ) (o : Options) (key : Bytes)
    → same_bytes log_level_key key ≡ false
    → lookup key (expand_verbose left n o).expanded_options ≡ lookup key o.expanded_options
unfolding expand_verbose
expand_verbose-other zero n o key h = refl
expand_verbose-other (suc left) n o key h =
    expand_verbose-other left (n + 1) _ key h
    ∙ set_log_level-other o n (is_given (lookup (vs n) o.variables_map)) key h

-- Nothing but the level is expanded.
pub expand_log_level-other :
    (o : Options) (key : Bytes)
    → same_bytes log_level_key key ≡ false
    → lookup key (expand_log_level o).expanded_options ≡ lookup key o.expanded_options
unfolding expand_log_level
expand_log_level-other o key h =
    expand_verbose-other (max_verbose_level - 1) 2 _ key h ∙ set_log_level-other o _ true key h
