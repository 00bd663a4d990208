-- ===== src/Db/HashTable/Foreach.antt =====
-- `foreach` of db/hashtable.cpp: the keys behind it.
use boostcache.Prelude.{
  ◌≡◌, ◌≢◌, refl, sym, subst, Bool, Option, false, some, List, [], ◌∷◌, map, All, arith,
  Option-cases, inl, inr,
}
use boostcache.Wire.{Bytes}
use boostcache.JsVm.{V8, init}
use boostcache.JsVm.Passes.{IsCallable, visit_defined, made, Passed, Passed-refl, visit-Passed}
use boostcache.JsVm.Visit.{visit, visit-key}
use boostcache.Db.HashTable.{Table, key_of, value_of, with_value, visit_reply, foreach}
use boostcache.Db.HashTable.Laws.{IsMap}

absent_keys :
    (k : Bytes) (t u : Table)
    → map key_of t ≡ map key_of u
    → All (λ e. e.0 ≢ k) u
    → All (λ e. e.0 ≢ k) t
absent_keys k [] u h a = tt
absent_keys k (e ∷ t) [] h a = absurd (ground arith)
absent_keys k (e ∷ t) (f ∷ u) h a = (ground arith, absent_keys k t u (ground arith) a.1)

pub keys-IsMap : (t u : Table) → map key_of t ≡ map key_of u → IsMap u → IsMap t
keys-IsMap [] u h m = tt
keys-IsMap (e ∷ t) [] h m = absurd (ground arith)
keys-IsMap (e ∷ t) (f ∷ u) h m =
    let same : e.0 ≡ f.0 = ground arith in
    let rest : map key_of t ≡ map key_of u = ground arith in
    (
      absent_keys e.0 t u rest (subst (λ k. All (λ e. e.0 ≢ k) u) (sym same) m.0),
      keys-IsMap t u rest m.1,
    )

-- What `foreach` leaves, where a pass of the function is defined.
abbrev Visited : V8 → Table → Bytes → Option (Table × Bytes) → Type 0
Visited v t code result =
    (t' : Table) × (done : Bool) × (result ≡ some (t', visit_reply done))
    × Passed v code key_of value_of with_value done t t'
    × (map key_of t' ≡ map key_of t)
    × IsMap t'

foreach-Visited :
    (v : V8) (t : Table) (name code : Bytes) (rest : List Bytes)
    → ((f : V8.Value v)
        → init v code ≡ some f
        → (after : Table) × (done : Bool) × (visit v key_of value_of with_value f t
            ≡ some (after, done)))
    → IsMap t
    → Visited v t code (foreach v t (name ∷ code ∷ rest))
unfolding foreach
foreach-Visited v t name code rest passes m = elim (Option-cases (init v code)) [
  | inl e ↦ (t, false, ground arith, Passed-refl v code key_of value_of with_value t, refl, m)
  | inr (f, e) ↦
      let (after, done, pass) = passes f e in
      let same : map key_of after ≡ map key_of t =
        visit-key v key_of value_of with_value (λ a s. refl) f t after pass in
      (
        after,
        done,
        ground (arith, pass, e),
        visit-Passed v code key_of value_of with_value f t after done (made f e) pass,
        same,
        keys-IsMap after t same m,
      )
]

-- The same of any run that is defined.
pub foreach_run :
    (v : V8) (t : Table) (name code : Bytes) (rest : List Bytes) (r : Table × Bytes)
    → IsMap t
    → foreach v t (name ∷ code ∷ rest) ≡ some r
    → Visited v t code (foreach v t (name ∷ code ∷ rest))
unfolding foreach
foreach_run v t name code rest r m run =
    foreach-Visited v t name code rest (λ f e. passes f e run) m
  where
    passes :
        (f : V8.Value v)
        → init v code ≡ some f
        → foreach v t (name ∷ code ∷ rest) ≡ some r
        → (after : Table) × (done : Bool) × (visit v key_of value_of with_value f t
            ≡ some (after, done))
    passes f e h = elim (Option-cases (visit v key_of value_of with_value f t)) [
      | inl undefined ↦ absurd (ground (arith, undefined, e))
      | inr ((after, done), pass) ↦ (after, done, pass)
    ]

pub foreach_keys :
    (v : V8) (t : Table) (name code : Bytes) (rest : List Bytes)
    → IsCallable v code
    → IsMap t
    → (t' : Table) × (done : Bool) × (foreach v t (name ∷ code ∷ rest)
        ≡ some (t', visit_reply done))
      × Passed v code key_of value_of with_value done t t'
      × (map key_of t' ≡ map key_of t)
      × IsMap t'
foreach_keys v t name code rest callable m =
    foreach-Visited v t name code rest
      (λ f e. visit_defined v code key_of value_of with_value callable f t (made f e)) m
