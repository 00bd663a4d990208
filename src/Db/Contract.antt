-- ===== src/Db/Contract.antt =====
-- What both databases promise: the contract of db/interface.h, and the
-- replies to any sequence of requests as those of a plain map.
use boostcache.Prelude.{
  ◌≡◌, refl, ap, ◌∙◌, Bool, true, All, All-map, Option, none, some, ◌>>=◌, List, [], ◌∷◌,
  if◌then◌else◌,
}
use boostcache.Wire.{Bytes, codes}
use boostcache.Wire.Decimal.{Decimal}
use boostcache.Reply.{reply_nil, reply_ok, reply_false, reply_true, reply_error, to_reply_string}
use boostcache.CommandHandler.State.{Arguments}
use boostcache.JsVm.{V8}
use boostcache.JsVm.Pure.{Function, Computes}

-- The replies to GET and DEL, by what stands at the key.
abbrev pub found_reply : Decimal → Option Bytes → Bytes
found_reply p none = reply_nil
found_reply p (some v) = to_reply_string p v

abbrev pub del_reply : Option Bytes → Bytes
del_reply none = reply_false
del_reply (some v) = reply_true

-- The reply to FOR with a function, or with a code that is for none.
abbrev pub for_reply : Option Function → Bytes
for_reply none = reply_error
for_reply (some g) = reply_true

abbrev pub at_value : Function → Bytes → Option Bytes → Option Bytes
at_value g k none = none
at_value g k (some v) = some (g k v)

-- A map from keys to values.
abbrev pub View : Type 0
View = Bytes → Option Bytes

-- A map with one value changed, at all keys that are not told apart from the given one.
abbrev pub update : (Bytes → Bytes → Bool) → View → Bytes → Option Bytes → View
update same m k v j = if same k j then v else m j

-- A map whose values a function has replaced.
abbrev pub replace_all : Option Function → View → View
replace_all none m = m
replace_all (some g) m = λ k. at_value g k (m k)

-- Keys that are not told apart are one key.
abbrev pub TellsKeys : (Bytes → Bytes → Bool) → Type 0
TellsKeys same = (j k : Bytes) → same j k ≡ true → j ≡ k

-- An operation has answered, and left a valid state with a view.
abbrev pub Leaves :
    {S : Type 0} → (S → Type 0) → (S → View) → Option (S × Bytes) → Bytes → View → Type 0
Leaves {S} IsValid view result reply m =
    (s' : S) × (result ≡ some (s', reply)) × IsValid s' × (view s' ≡ m)

pub record Database (p : Decimal) (v : V8) : Type 1 where
  pub State : Type 0
  pub IsValid : State → Type 0
  pub view : State → View
  -- the keys that it does not tell apart
  pub same : Bytes → Bytes → Bool
  pub get : State → Arguments → Option (State × Bytes)
  pub set : State → Arguments → Option (State × Bytes)
  pub del : State → Arguments → Option (State × Bytes)
  pub foreach : State → Arguments → Option (State × Bytes)
  pub get_law :
      (s : State) (name key : Bytes) (rest : Arguments)
      → IsValid s
      → Leaves IsValid view (get s (name ∷ key ∷ rest)) (found_reply p (view s key)) (view s)
  pub set_law :
      (s : State) (name key value : Bytes) (rest : Arguments)
      → IsValid s
      → Leaves IsValid view
          (set s (name ∷ key ∷ value ∷ rest))
          reply_ok
          (update same (view s) key (some value))
  pub del_law :
      (s : State) (name key : Bytes) (rest : Arguments)
      → IsValid s
      → Leaves IsValid view
          (del s (name ∷ key ∷ rest))
          (del_reply (view s key))
          (update same (view s) key none)
  pub foreach_law :
      (s : State) (name code : Bytes) (rest : Arguments) (g : Option Function)
      → IsValid s
      → Computes v code g
      → TellsKeys same
      → Leaves IsValid view (foreach s (name ∷ code ∷ rest)) (for_reply g) (replace_all g (view s))

-- FOR names its code, and the function that the code is for.
pub data Request : Type 0 where
  visit : Bytes → Option Function → Request
  get del : Bytes → Request
  set : Bytes → Bytes → Request

-- FOR is asked for with codes for functions that neither throw nor remember, or for none.
abbrev pub IsComputed : V8 → Request → Type 0
IsComputed v (visit code g) = Computes v code g
IsComputed v _ = Unit

-- The map that requests leave.
unfoldable pub map_after : (Bytes → Bytes → Bool) → View → List Request → View
map_after same m [] = m
map_after same m (get k ∷ rs) = map_after same m rs
map_after same m (del k ∷ rs) = map_after same (update same m k none) rs
map_after same m (set k v ∷ rs) = map_after same (update same m k (some v)) rs
map_after same m (visit code g ∷ rs) = map_after same (replace_all g m) rs

module _ (p : Decimal) where
  -- The replies of a plain map.
  unfoldable pub map_replies : (Bytes → Bytes → Bool) → View → List Request → List Bytes
  map_replies same m [] = []
  map_replies same m (get k ∷ rs) = found_reply p (m k) ∷ map_replies same m rs
  map_replies same m (del k ∷ rs) = del_reply (m k) ∷ map_replies same (update same m k none) rs
  map_replies same m (set k v ∷ rs) = reply_ok ∷ map_replies same (update same m k (some v)) rs
  map_replies same m (visit code g ∷ rs) = for_reply g ∷ map_replies same (replace_all g m) rs

  module _ (v : V8) (d : Database p v) where
    -- And then of a database that tells all keys apart.
    abbrev pub IsCovered : Request → Type 0
    IsCovered (visit code g) = Computes v code g × TellsKeys d.same
    IsCovered _ = Unit

    covered : TellsKeys d.same → (r : Request) → IsComputed v r → IsCovered r
    covered tells (get k) c = tt
    covered tells (del k) c = tt
    covered tells (set k w) c = tt
    covered tells (visit code g) c = (c, tells)

    pub All-IsCovered :
        (rs : List Request) → TellsKeys d.same → All (IsComputed v) rs → All IsCovered rs
    All-IsCovered rs tells = All-map (IsComputed v) IsCovered rs (covered tells)

    -- The arguments start with the name of the command, which the databases do not read.
    unfoldable pub request : d.State → Request → Option (d.State × Bytes)
    request s (get k) = d.get s (codes "GET" ∷ k ∷ [])
    request s (del k) = d.del s (codes "DEL" ∷ k ∷ [])
    request s (set k w) = d.set s (codes "SET" ∷ k ∷ w ∷ [])
    request s (visit code g) = d.foreach s (codes "FOR" ∷ code ∷ [])

    unfoldable pub run : d.State → List Request → Option (d.State × List Bytes)
    run s [] = some (s, [])
    run s (r ∷ rs) = do
      (s', reply) ← request s r
      (s'', replies) ← run s' rs
      some (s'', reply ∷ replies)

    -- The replies of a plain map, and a valid state that stands for the map they leave.
    abbrev pub Answers : Option (d.State × List Bytes) → List Bytes → View → Type 0
    Answers result replies m =
        (s : d.State) × (result ≡ some (s, replies)) × d.IsValid s × (d.view s ≡ m)

    run_step :
        (s s' : d.State) (r : Request) (rs : List Request) (reply : Bytes) (m : View)
        → request s r ≡ some (s', reply)
        → d.view s' ≡ m
        → Answers (run s' rs) (map_replies d.same (d.view s') rs) (map_after d.same (d.view s') rs)
        → Answers (run s (r ∷ rs)) (reply ∷ map_replies d.same m rs) (map_after d.same m rs)
    unfolding run
    run_step s s' r rs reply m one same (s'', rest, valid, view) = (
      s'',
      rw one (rw rest (ap (λ w. some (s'', reply ∷ map_replies d.same w rs)) same)),
      valid,
      view ∙ ap (λ w. map_after d.same w rs) same,
    )

    -- Any sequence of requests that are covered, to a valid database, is defined, and answered as
    -- the map of its view answers it; the database then stands for the map that is left.
    pub run-map_replies :
        (s : d.State) (rs : List Request)
        → d.IsValid s
        → All IsCovered rs
        → Answers (run s rs) (map_replies d.same (d.view s) rs) (map_after d.same (d.view s) rs)
    unfolding map_replies map_after request
    run-map_replies s [] valid covered = (s, unfold run in refl, valid, refl)
    run-map_replies s (get k ∷ rs) valid covered =
        let (s', one, valid', same) = d.get_law s (codes "GET") k [] valid in
        run_step s s' (get k) rs _ _ one same (run-map_replies s' rs valid' covered.1)
    run-map_replies s (del k ∷ rs) valid covered =
        let (s', one, valid', same) = d.del_law s (codes "DEL") k [] valid in
        run_step s s' (del k) rs _ _ one same (run-map_replies s' rs valid' covered.1)
    run-map_replies s (set k w ∷ rs) valid covered =
        let (s', one, valid', same) = d.set_law s (codes "SET") k w [] valid in
        run_step s s' (set k w) rs _ _ one same (run-map_replies s' rs valid' covered.1)
    run-map_replies s (visit code g ∷ rs) valid covered =
        let (s', one, valid', same) =
          d.foreach_law s (codes "FOR") code [] g valid covered.0.0 covered.0.1 in
        run_step s s' (visit code g) rs _ _ one same (run-map_replies s' rs valid' covered.1)
