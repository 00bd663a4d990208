-- ===== src/Options/Typed.antt =====
-- The types of the options of server/options.cpp and util/options.cpp: what boost stores has the type
-- that the description of the option says.
use boostcache.Prelude.{
  ℕ, ◌≡◌, refl, sym, ap, ◌∙◌, subst, Bool, true, false, Option, none, some, List, [], ◌∷◌, All,
  arith, if◌then◌else◌, ◌==◌, Bool-cases, Option-cases, inl, inr,
}
use boostcache.Wire.{Bytes, codes}
use boostcache.Wire.Equality.{same_bytes, same_bytes_iff}
use boostcache.UnorderedMap.{UnorderedMap, lookup}
use boostcache.Options.Result.{Result, returned, thrown, ◌>>=◌, >>=-returned}
use boostcache.Options.LogLevel.{expand_log_level-kept, expand_log_level-other}
use boostcache.Options.Parse.{
  ProgramOptions, describe, variables, with_variables, all_options, is_defaulted, read_config,
  store_config, load_options, parse_options,
}
use boostcache.Options.Config.{StringAlgorithms, parse_config_file}
use boostcache.Options.{
  Any, int, text, ValueSemantic, no_value, int_value, text_value, Description, Variables, Options,
  as_int, as_text, get_value, log_level_key, expand_log_level,
}

-- The long name of an option, in front of the comma.
abbrev pub long_name : Bytes → Bytes
long_name [] = []
long_name (c ∷ s) = let rest = long_name s in if c == b',' then [] else c ∷ rest

abbrev pub semantic : List Description → Bytes → Option ValueSemantic
semantic [] key = none
semantic (d ∷ ds) key = if same_bytes (long_name d.name) key then some d.value else semantic ds key

-- The value has the type that is described; a flag is stored as a text, which is empty on the command
-- line, and what stands behind `=` in a file.
abbrev pub suits : Option ValueSemantic → Any → Bool
suits (some (int_value d)) (int n) = true
suits (some (text_value d)) (text s) = true
suits (some no_value) (text s) = true
suits _ a = false

abbrev pub TypedBy : List Description → UnorderedMap Any → Type 0
TypedBy ds = All (λ e. suits (semantic ds e.0) e.1 ≡ true)

abbrev pub TypedValues : List Description → Variables → Type 0
TypedValues ds v = TypedBy ds v.values

-- A property of what is returned, if anything is.
abbrev pub Holds {ℓ κ} : {A : Type ℓ} → (A → Type κ) → Result A → Type κ
Holds P (returned a) = P a
Holds P (thrown e) = Unit

pub Holds-bind {ℓ κ μ ν} :
    {A : Type ℓ} {B : Type κ} (P : A → Type μ) (Q : B → Type ν) (m : Result A) (f : A → Result B)
    → Holds P m
    → ((a : A) → P a → Holds Q (f a))
    → Holds Q (m >>= f)
Holds-bind P Q (returned a) f h g = g a h
Holds-bind P Q (thrown e) f h g = tt

Holds-any {ℓ} : {A : Type ℓ} (m : Result A) → Holds (λ a. Unit {0}) m
Holds-any (returned a) = tt
Holds-any (thrown e) = tt

-- What boost promises: values are read as the descriptions say, and stored as they were read.
pub record StoresTyped (b : ProgramOptions) : Type 1 where
  pub Describes : List Description → b.Parsed → Type 0
  pub line :
      (ds : List Description) (argv : List Bytes) → Holds (Describes ds) (b.command_line ds argv)
  pub file : (ds : List Description) (s : Bytes) → Holds (Describes ds) (b.config_file ds s)
  pub store :
      (ds : List Description) (parsed : b.Parsed) (v : Variables)
      → Describes ds parsed
      → TypedValues ds v
      → Holds (TypedValues ds) (b.store parsed v)
  pub notify :
      (ds : List Description) (v : Variables)
      → TypedValues ds v
      → Holds (TypedValues ds) (b.notify v)

typed-lookup :
    (ds : List Description) (m : UnorderedMap Any) (key : Bytes) (a : Any)
    → TypedBy ds m
    → lookup key m ≡ some a
    → suits (semantic ds key) a ≡ true
unfolding lookup
typed-lookup ds [] key a t h = cc
typed-lookup ds ((k, x) ∷ m) key a t h = elim (Bool-cases (same_bytes k key)) [
  | inl e ↦
      let key' : k ≡ key = ground (arith, same_bytes_iff k key) in
      let value : x ≡ a = ground arith in
      subst (λ a. suits (semantic ds key) a ≡ true) value
        (subst (λ k. suits (semantic ds k) x ≡ true) key' t.0)
  | inr e ↦ typed-lookup ds m key a t.1 (ground arith)
]

text-cases :
    (d : Option Bytes) (a : Any)
    → suits (some (text_value d)) a ≡ true
    → (s : Bytes) × (as_text a ≡ some s)
text-cases d (text s) h = (s, refl)
text-cases d (int n) h = cc
text-cases d _ h = cc

int-cases :
    (d : Option ℕ) (a : Any) → suits (some (int_value d)) a ≡ true → (n : ℕ) × (as_int a ≡ some n)
int-cases d (int n) h = (n, refl)
int-cases d (text s) h = cc
int-cases d _ h = cc

lookup_nil : (key : Bytes) → lookup {V = Any} key [] ≡ none
unfolding lookup
lookup_nil key = refl

-- The program's casts of described values succeed.
pub get_value-text :
    (ds : List Description) (o : Options) (key : Bytes) (d : Option Bytes)
    → TypedBy ds o.variables_map
    → semantic ds key ≡ some (text_value d)
    → lookup key o.expanded_options ≡ none
    → (s : Bytes) × (get_value as_text [] o key ≡ some s)
unfolding get_value
get_value-text ds o key d t e plain = elim (Option-cases (lookup key o.variables_map)) [
  | inl miss ↦ ([], rw (plain, miss) refl)
  | inr (a, hit) ↦
      let (s, cast) =
        text-cases d a
          (subst (λ v. suits v a ≡ true) e (typed-lookup ds o.variables_map key a t hit)) in
      (s, rw (plain, hit) cast)
]

pub get_value-int :
    (ds : List Description) (o : Options) (key : Bytes) (d : Option ℕ)
    → TypedBy ds o.variables_map
    → semantic ds key ≡ some (int_value d)
    → lookup key o.expanded_options ≡ none
    → (n : ℕ) × (get_value as_int 0 o key ≡ some n)
unfolding get_value
get_value-int ds o key d t e plain = elim (Option-cases (lookup key o.variables_map)) [
  | inl miss ↦ (0, rw (plain, miss) refl)
  | inr (a, hit) ↦
      let (n, cast) =
        int-cases d a
          (subst (λ v. suits v a ≡ true) e (typed-lookup ds o.variables_map key a t hit)) in
      (n, rw (plain, hit) cast)
]

module _ (b : ProgramOptions) (a : StringAlgorithms) (read_file : Bytes → Option Bytes)
    (t : StoresTyped b) where
  -- Values typed by the descriptions, and no others expanded yet.
  abbrev Loaded : Options → Options → Type 0
  Loaded o₀ o =
      TypedBy (all_options o₀) o.variables_map
      × (all_options o ≡ all_options o₀)
      × (o.expanded_options ≡ o₀.expanded_options)

  store_config-Loaded :
      (o₀ o : Options) (text : Option Bytes)
      → Loaded o₀ o
      → Holds (Loaded o₀) (store_config b a read_file o text)
  store_config-Loaded o₀ o none h = elim (Bool-cases (is_defaulted (codes "config") o.defaulted)) [
    | inl e ↦ rw e h
    | inr e ↦ rw e tt
  ]
  store_config-Loaded o₀ o (some s) (typed, same, plain) =
      let typed' : TypedBy (all_options o) o.variables_map =
        subst (λ ds. TypedBy ds o.variables_map) (sym same) typed in
      Holds-bind (t.Describes (all_options o)) (Loaded o₀) _ _
        (t.file (all_options o) (parse_config_file a s))
        (λ parsed d.
          Holds-bind (TypedValues (all_options o)) (Loaded o₀) _ _
            (t.store (all_options o) parsed (variables o) d typed')
            (λ v w. (subst (λ ds. TypedBy ds v.values) same w, same, plain)))

  read_config-Loaded :
      (o₀ o : Options) (name : Bytes)
      → Loaded o₀ o
      → Holds (Loaded o₀) (read_config b a read_file o name)
  read_config-Loaded o₀ o [] h = h
  read_config-Loaded o₀ o (c ∷ cs) h = store_config-Loaded o₀ o _ h

  load_options-Loaded :
      (argv : List Bytes) (o₀ : Options)
      → TypedBy (all_options (describe o₀)) o₀.variables_map
      → Holds (Loaded (describe o₀)) (load_options b a read_file argv o₀)
  unfolding load_options describe
  load_options-Loaded argv o₀ h =
      let ds = all_options (describe o₀) in
      Holds-bind (t.Describes ds) (Loaded (describe o₀)) _ _ (t.line ds argv) (λ parsed d.
        Holds-bind (TypedValues ds) (Loaded (describe o₀)) _ _
          (t.store ds parsed (variables (describe o₀)) d h)
          (λ v w.
            Holds-bind (λ name. Unit {0}) (Loaded (describe o₀)) _ _ (Holds-any _)
              (λ name u.
                Holds-bind (Loaded (describe o₀)) (Loaded (describe o₀)) _ _
                  (read_config-Loaded (describe o₀) (with_variables (describe o₀) v) name
                    (w, refl, refl))
                  (λ o l.
                    Holds-bind (TypedValues ds) (Loaded (describe o₀)) (b.notify (variables o))
                      (λ v'. returned (with_variables o v')) (t.notify ds (variables o) l.0)
                      (λ v' w'. (w', l.1, l.2))))))

  -- What `parseOptions` returns, from options without values.
  pub parse_options-typed :
      (argv : List Bytes) (o₀ o : Options)
      → o₀.variables_map ≡ []
      → o₀.expanded_options ≡ []
      → parse_options b a read_file argv o₀ ≡ returned o
      → TypedBy (all_options (describe o₀)) o.variables_map
        × ((key : Bytes)
            → same_bytes log_level_key key ≡ false
            → lookup key o.expanded_options ≡ none)
  unfolding parse_options describe
  parse_options-typed argv o₀ o no_values no_expanded parsed =
      let (o', run, e) =
        >>=-returned (load_options b a read_file argv o₀) (λ o. returned (expand_log_level o))
          parsed in
      let same : expand_log_level o' ≡ o = cc in
      let start : TypedBy (all_options (describe o₀)) o₀.variables_map =
        subst (TypedBy (all_options (describe o₀))) (sym no_values) tt in
      let (typed, _, plain) =
        subst (Holds (Loaded (describe o₀))) run (load_options-Loaded argv o₀ start) in
      (
        subst (TypedBy (all_options (describe o₀)))
            (sym (expand_log_level-kept o') ∙ ap (λ o. o.variables_map) same) typed,
        λ key h.
            ap (λ o. lookup key o.expanded_options) (sym same)
            ∙ expand_log_level-other o' key h
            ∙ ap (lookup key) (plain ∙ no_expanded)
            ∙ lookup_nil key,
      )
