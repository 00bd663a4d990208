-- ===== src/UnorderedMap.antt =====
-- A `std::unordered_map` with `std::string` keys (the databases of db/ and the table of commands of
-- kernel/commands.cpp), as a list of its entries in the order in which a loop over the map meets
-- them. The library leaves that order open; no theorem rests on it.
use boostcache.Prelude.{◌≡◌, refl, Option, none, some, List, [], ◌∷◌, arith, if◌then◌else◌}
use boostcache.Wire.{Bytes}
use boostcache.Wire.Equality.{same_bytes, same_bytes_iff}

abbrev pub UnorderedMap : Type 0 → Type 0
UnorderedMap V = List (Bytes × V)

module _ {V : Type 0} where
  -- `find`
  unfoldable pub lookup : Bytes → UnorderedMap V → Option V
  lookup k [] = none
  lookup k ((j, v) ∷ t) = if same_bytes j k then some v else lookup k t

  -- `map[k] = v`
  unfoldable pub assign : Bytes → V → UnorderedMap V → UnorderedMap V
  assign k v [] = (k, v) ∷ []
  assign k v ((j, w) ∷ t) = if same_bytes j k then (j, v) ∷ t else (j, w) ∷ assign k v t

  -- `erase` of a key
  unfoldable pub erase : Bytes → UnorderedMap V → UnorderedMap V
  erase k [] = []
  erase k ((j, w) ∷ t) = let rest = erase k t in if same_bytes j k then rest else (j, w) ∷ rest

  pub lookup-assign :
      (k j : Bytes) (v : V) (t : UnorderedMap V)
      → lookup j (assign k v t) ≡ (if same_bytes k j then some v else lookup j t)
  unfolding lookup assign
  lookup-assign k j v [] = refl
  lookup-assign k j v ((i, w) ∷ t) =
      ground
        (arith, lookup-assign k j v t, same_bytes_iff k j, same_bytes_iff i k, same_bytes_iff i j)

  pub lookup-erase :
      (k j : Bytes) (t : UnorderedMap V)
      → lookup j (erase k t) ≡ (if same_bytes k j then none else lookup j t)
  unfolding lookup erase
  lookup-erase k j [] = ground arith
  lookup-erase k j ((i, w) ∷ t) =
      ground (arith, lookup-erase k j t, same_bytes_iff k j, same_bytes_iff i k, same_bytes_iff i j)
