-- ===== src/Commands/Keeps.antt =====
-- The calls that leave the value at a key as it is.
use boostcache.Prelude.{
  ℕ, ◌≡◌, refl, sym, ap, ◌∙◌, Bool, true, false, ◌||◌, ◌&&◌, some, List, [], ◌∷◌, length, arith,
  ◌==◌, ◌%◌, ◌^◌,
}
use boostcache.Wire.{Bytes, codes}
use boostcache.Wire.Equality.{same_bytes}
use boostcache.Commands.{Platform, Commands, executor}
use boostcache.Commands.Calls.{IsValid, find_and_call-run}
use boostcache.Commands.Stored.{value_at}
use boostcache.Commands.Spec.{
  Store, hashed, ordered, Maps, maps, at, Answer, listed, pinged, versioned, got, put, deleted,
  visited, unknown, miscounted,
}

-- The first argument is the key, for a test of equality of keys.
abbrev is_first : (Bytes → Bytes → Bool) → Bytes → List Bytes → Bool
is_first same key [] = false
is_first same key (k ∷ args) = same k key

-- A request may change the value at a key: it is a SET or DEL of the key, or a FOR over all.
abbrev pub touches : (Bytes → ℕ) → Store → Bytes → Bytes → List Bytes → Bool
touches hash hashed key name args =
    same_bytes name (codes "HFOR")
    || ((same_bytes name (codes "HSET") || same_bytes name (codes "HDEL"))
        && is_first same_bytes key args)
touches hash ordered key name args =
    same_bytes name (codes "ATFOR")
    || ((same_bytes name (codes "ATSET") || same_bytes name (codes "ATDEL"))
        && is_first (λ k key. hash k == hash key) key args)

-- The name and the arguments of a call by what they are.
touches_as :
    (hash : Bytes → ℕ) (st : Store) (key name : Bytes) (args : List Bytes) (as_name : Bytes)
    (as_args : List Bytes)
    → touches hash st key name args ≡ false
    → name ≡ as_name
    → args ≡ as_args
    → touches hash st key as_name as_args ≡ false
touches_as hash st key name args as_name as_args far n a = rw (sym n, sym a) far

module _ (s : Platform) where
  -- An answer that does not touch a key leaves its value.
  Answer-at :
      (st : Store) (key name : Bytes) (args : List Bytes) (m m' : Maps) (reply : Bytes)
      → touches s.hash st key name args ≡ false
      → Answer s name args m reply m'
      → at s st m' key ≡ at s st m key
  unfolding same_bytes
  Answer-at st key name args m m' reply far (listed t n perm r same) = ap (λ m. at s st m key) same
  Answer-at st key name args m m' reply far (pinged n r same) = ap (λ m. at s st m key) same
  Answer-at st key name args m m' reply far (versioned n r same) = ap (λ m. at s st m key) same
  Answer-at st key name args m m' reply far (got st' k rest n a r same) =
      ap (λ m. at s st m key) same
  Answer-at st key name args m m' reply far (unknown none_ r same) = ap (λ m. at s st m key) same
  Answer-at st key name args m m' reply far (miscounted k expected n takes other r same) =
      ap (λ m. at s st m key) same
  Answer-at hashed key name args m m' reply far (put hashed k v rest n a r same) =
      ap (λ m. at s hashed m key) same
      ∙ rw (touches_as s.hash hashed key name args _ _ far n a) refl
  Answer-at hashed key name args m m' reply far (put ordered k v rest n a r same) =
      ap (λ m. at s hashed m key) same
  Answer-at ordered key name args m m' reply far (put hashed k v rest n a r same) =
      ap (λ m. at s ordered m key) same
  Answer-at ordered key name args m m' reply far (put ordered k v rest n a r same) =
      ap (λ m. at s ordered m key) same
      ∙ rw (touches_as s.hash ordered key name args _ _ far n a) refl
  Answer-at hashed key name args m m' reply far (deleted hashed k rest n a r same) =
      ap (λ m. at s hashed m key) same
      ∙ rw (touches_as s.hash hashed key name args _ _ far n a) refl
  Answer-at hashed key name args m m' reply far (deleted ordered k rest n a r same) =
      ap (λ m. at s hashed m key) same
  Answer-at ordered key name args m m' reply far (deleted hashed k rest n a r same) =
      ap (λ m. at s ordered m key) same
  Answer-at ordered key name args m m' reply far (deleted ordered k rest n a r same) =
      ap (λ m. at s ordered m key) same
      ∙ rw (touches_as s.hash ordered key name args _ _ far n a) refl
  Answer-at hashed key name args m m' reply far (visited hashed code rest done n a r same) =
      let seen : true ≡ false = touches_as s.hash hashed key name args _ _ far n a in
      absurd (ground arith)
  Answer-at hashed key name args m m' reply far (visited ordered code rest done n a r same) =
      ap (λ f. f key) same.1
  Answer-at ordered key name args m m' reply far (visited hashed code rest done n a r same) =
      ap (λ f. f (s.hash key)) same.1
  Answer-at ordered key name args m m' reply far (visited ordered code rest done n a r same) =
      let seen : true ≡ false = touches_as s.hash ordered key name args _ _ far n a in
      absurd (ground arith)

  -- A request that does not touch a key leaves its value.
  pub find_and_call-value_at :
      (st : Store) (c c' : Commands s) (key name reply : Bytes) (args : List Bytes)
      → IsValid s c
      → touches s.hash st key name args ≡ false
      → (executor s).find_and_call c name (length args % 2 ^ 32) (name ∷ args) ≡ some (c', reply)
      → value_at s st c' key ≡ value_at s st c key
  find_and_call-value_at st c c' key name reply args v far h =
      let (d, answer, run, w, spec) = find_and_call-run s c name args (c', reply) v h in
      let same : d ≡ c' = ground (arith, run, h) in
      ap (λ d. value_at s st d key) (sym same)
      ∙ Answer-at st key name args (maps s c) (maps s d) answer far spec
