-- ===== src/JsVm/Visit.antt =====
-- The loop that both databases make over their entries in `foreach`: each value is replaced by
-- what the user's function returns, up to the first exception.
use boostcache.Prelude.{
  ◌≡◌, inl, inr, Option-cases, Bool, true, false, Option, none, some, ◌>>=◌, List, [], ◌∷◌, map,
  arith,
}
use boostcache.Wire.{Bytes}
use boostcache.JsVm.{V8, call}

module _ (v : V8) {A : Type 0} (key value : A → Bytes) (with_value : A → Bytes → A) where
  open v use {Value}

  -- One pass over the entries that are left: the flag is `false` when a call has thrown.
  unfoldable pub visit : Value → List A → Option (List A × Bool)
  visit f [] = some ([], true)
  visit f (a ∷ entries) = elim (call v f (key a) (value a)) [
    | none ↦ none
    | some (none, f') ↦ some (a ∷ entries, false)
    | some (some new, f') ↦ (do
      (rest, done) ← visit f' entries
      some (with_value a new ∷ rest, done))
  ]

  -- A pass changes no key, if a new value does not.
  pub visit-key :
      ((a : A) (s : Bytes) → key (with_value a s) ≡ key a)
      → (f : Value) (entries after : List A) {done : Bool} → visit f entries ≡ some (after, done)
      → map key after ≡ map key entries
  unfolding visit
  visit-key keeps f [] after run = ground arith
  visit-key keeps f (a ∷ entries) after {done} run =
      elim (Option-cases (call v f (key a) (value a))) [
        | inl e ↦ absurd (ground arith)
        | inr ((none, f'), e) ↦ ground arith
        | inr ((some new, f'), e) ↦ elim (Option-cases (visit f' entries)) [
          | inl e' ↦ absurd (ground arith)
          | inr ((rest, d), e') ↦ ground (arith, visit-key keeps f' entries rest e', keeps a new)
        ]
      ]
