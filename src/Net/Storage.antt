-- ===== src/Net/Storage.antt =====
-- A client that stores a value and reads it later in the same session of kernel/net/session.cpp.
mod Tests
use boostcache.Prelude.{ℕ, ◌≡◌, sym, false, List, [], ◌∷◌, Option, ◌>>=◌, All}
use boostcache.Wire.{Bytes}
use boostcache.Wire.Decimal.{Decimal}
use boostcache.Commands.{Platform, Commands}
use boostcache.Commands.Table.{command_name}
use boostcache.Commands.Spec.{Store, setter, getter}
use boostcache.Commands.Keeps.{touches}
use boostcache.Net.Session.Serves.{Sent}

module _ (s : Platform) (p : Decimal) (st : Store) (key value : Bytes) where
  -- The requests that store the value and read it.
  abbrev pub Sets : Sent p → Type 0
  Sets r = (r.name ≡ command_name (setter st)) × (r.args ≡ key ∷ value ∷ [])

  abbrev pub Gets : Sent p → Type 0
  Gets r = (r.name ≡ command_name (getter st)) × (r.args ≡ key ∷ [])

  -- Requests that neither store, delete nor visit the key.
  abbrev pub Others : List (Sent p) → Type 0
  Others = All (λ r. touches s.hash st key (Sent.name r) (Sent.args r) ≡ false)
