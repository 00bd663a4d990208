-- ===== src/Net/Conversation.antt =====
-- A client and a session over the program's own commands: request by request.
use boostcache.Prelude.{ℕ, zero, suc, ◌≤◌, ◌≡◌, List, [], ◌∷◌, Option, some, ◌>>=◌, All, length}
use boostcache.Wire.{Bytes, int_max}
use boostcache.Wire.Decimal.{Decimal}
use boostcache.Reply.Client.{Reply, read_reply}
use boostcache.Reply.Frames.{IsFramed}
use boostcache.Commands.{Platform, Commands, executor}
use boostcache.Commands.Calls.{IsValid}
use boostcache.Net.Session.Serves.{Sent, run_calls}

-- A client reads a number of replies, one after another.
unfoldable pub read_replies : ℕ → Bytes → Option (List Reply × Bytes)
read_replies zero s = some ([], s)
read_replies (suc n) s = do
  (r, rest) ← read_reply s
  (rs, rest') ← read_replies n rest
  some (r ∷ rs, rest')

module _ (s : Platform) (p : Decimal) where
  -- What the calls leave.
  abbrev Called : Commands s → List (Sent p) → Type 0
  Called c rs =
      (c' : Commands s) × (replies : List Bytes) × (run_calls (executor s) p c rs
        ≡ some (c', replies))
      × IsValid s c'
      × (length replies ≡ length rs)
      × (All (λ x. length x ≤ int_max) replies → All IsFramed replies)
