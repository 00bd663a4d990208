-- ===== src/JsVm/Passes.antt =====
-- What a pass of a user's function (server/jsvm.cpp) leaves of each entry.
use boostcache.Prelude.{
  ◌≡◌, refl, subst, ◌⊎◌, Bool, true, false, Option, none, some, List, [], ◌∷◌, arith, inl, inr,
  Option-cases,
}
use boostcache.Wire.{Bytes}
use boostcache.JsVm.{V8, init, call}
use boostcache.JsVm.Visit.{visit}

-- The function of a code, after some calls.
pub data Made (v : V8) (code : Bytes) : V8.Value v → Type 0 where
  made : (f : V8.Value v) → init v code ≡ some f → Made v code f
  called :
      (f f' : V8.Value v) (key s : Bytes) (r : Option Bytes)
      → Made v code f
      → call v f key s ≡ some (r, f')
      → Made v code f'

module _ (v : V8) (code : Bytes) where
  -- The code is for a function: it can be called, and a value that it returns has a text. Where
  -- the code fails, nothing is asked.
  abbrev pub IsCallable : Type 0
  IsCallable =
      (f : V8.Value v)
      → Made v code f
      → (key s : Bytes) → (r : Option Bytes × V8.Value v) × (call v f key s ≡ some r)

  -- A call of it has returned a value.
  abbrev pub Returned : Bytes → Bytes → Bytes → Type 0
  Returned key s w =
      (f : V8.Value v) × (f' : V8.Value v) × Made v code f × (call v f key s ≡ some (some w, f'))

  module _ {A : Type 0} (key value : A → Bytes) (with_value : A → Bytes → A) where
    -- Each entry has the value that a call on it has returned; where a call has thrown, it may be
    -- as it was.
    abbrev pub Passed : Bool → List A → List A → Type 0
    Passed done [] [] = Unit
    Passed done (a ∷ rest) (b ∷ bs) =
        (((w : Bytes) × (b ≡ with_value a w) × Returned (key a) (value a) w)
          ⊎ ((b ≡ a) × (done ≡ false)))
        × Passed done rest bs
    Passed done _ _ = ⊥

    pub Passed-refl : (xs : List A) → Passed false xs xs
    Passed-refl [] = tt
    Passed-refl (a ∷ rest) = (inr (refl, refl), Passed-refl rest)

    pub visit-Passed :
        (f : V8.Value v) (entries after : List A) (done : Bool)
        → Made v code f
        → visit v key value with_value f entries ≡ some (after, done)
        → Passed done entries after
    unfolding visit
    visit-Passed f [] after done m run =
        let end : [] ≡ after = ground arith in subst (Passed done []) end tt
    visit-Passed f (a ∷ entries) after done m run =
        elim (Option-cases (call v f (key a) (value a))) [
          | inl e ↦ absurd (ground arith)
          | inr ((none, f'), e) ↦
              let stay : a ∷ entries ≡ after = ground arith in
              let flag : false ≡ done = ground arith in
              subst (λ d. Passed d (a ∷ entries) after) flag
                (subst (Passed false (a ∷ entries)) stay (Passed-refl (a ∷ entries)))
          | inr ((some new, f'), e) ↦
              elim (Option-cases (visit v key value with_value f' entries)) [
                | inl e' ↦ absurd (ground arith)
                | inr ((rest, d), e') ↦
                    let written : with_value a new ∷ rest ≡ after = ground arith in
                    let flag : d ≡ done = ground arith in
                    let others =
                      visit-Passed f' entries rest d (called f f' (key a) (value a) (some new) m e)
                        e' in
                    subst (λ d. Passed d (a ∷ entries) after) flag
                      (subst (Passed d (a ∷ entries)) written
                        (inl (new, refl, (f, f', m, e)), others))
              ]
        ]

    -- A pass of a function that can be called is defined.
    pub visit_defined :
        IsCallable
        → (f : V8.Value v) (entries : List A) → Made v code f
        → (after : List A) × (done : Bool) × (visit v key value with_value f entries
            ≡ some (after, done))
    unfolding visit
    visit_defined callable f [] m = ([], true, refl)
    visit_defined callable f (a ∷ entries) m =
        let ((ret, f'), e) = callable f m (key a) (value a) in
        go ret f' e (λ g n. visit_defined callable g entries n)
      where
        go :
            (ret : Option Bytes) (f' : V8.Value v)
            → call v f (key a) (value a) ≡ some (ret, f')
            → ((g : V8.Value v)
                → Made v code g
                → (after : List A) × (done : Bool) × (visit v key value with_value g entries
                    ≡ some (after, done)))
            → (after : List A) × (done : Bool) × (visit v key value with_value f (a ∷ entries)
                ≡ some (after, done))
        go none f' e rest = (a ∷ entries, false, ground (arith, e))
        go (some new) f' e rest =
            let (after, done, pass) = rest f' (called f f' (key a) (value a) (some new) m e) in
            (with_value a new ∷ after, done, ground (arith, pass, e))
