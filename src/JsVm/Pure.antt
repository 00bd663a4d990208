-- ===== src/JsVm/Pure.antt =====
-- User's functions (server/jsvm.cpp) that neither throw nor remember, in a pass over entries.
use boostcache.Prelude.{
  ℕ, zero, suc, ◌≡◌, refl, true, Option, none, some, List, [], ◌∷◌, map, arith, length,
}
use boostcache.Wire.{Bytes}
use boostcache.JsVm.{V8, init, call}
use boostcache.JsVm.Visit.{visit}

-- What such a function does with a key and a value.
abbrev pub Function : Type 0
Function = Bytes → Bytes → Bytes

module _ (v : V8) where
  -- The next calls return what the function computes, whatever they are.
  abbrev pub Stays : Function → ℕ → V8.Value v → Type 0
  Stays g zero f = Unit
  Stays g (suc n) f =
      (k s : Bytes) → (f' : V8.Value v) × (call v f k s ≡ some (some (g k s), f')) × Stays g n f'

  -- The function that a code is for, if it is for one.
  abbrev pub Computes : Bytes → Option Function → Type 0
  Computes code none = init v code ≡ none
  Computes code (some g) = (f : V8.Value v) × (init v code ≡ some f) × ((n : ℕ) → Stays g n f)

  module _ {A : Type 0} (key value : A → Bytes) (with_value : A → Bytes → A) where
    -- An entry with its new value.
    abbrev pub replaced : Function → A → A
    replaced g a = with_value a (g (key a) (value a))

    -- A pass of such a function replaces all values.
    pub visit-map :
        (g : Function) (f : V8.Value v) (entries : List A)
        → Stays g (length entries) f
        → visit v key value with_value f entries ≡ some (map (replaced g) entries, true)
    unfolding visit
    visit-map g f [] stays = refl
    visit-map g f (a ∷ entries) stays =
        let (f', called, rest) = stays (key a) (value a) in
        ground (arith, called, visit-map g f' entries rest)
