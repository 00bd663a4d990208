-- ===== src/Net/IoServicePool.antt =====
-- kernel/net/ioservicepool.h and kernel/net/ioservicepool.cpp. An `io_service` is boost's: it is
-- its index here, and whether `stop` has been called on it.
pub mod RoundRobin
pub mod Threads
use boostcache.Prelude.{
  ℕ, zero, suc, ◌+◌, ◌≡◌, Bool, true, false, Option, none, some, ◌>>=◌, List, [], ◌∷◌, ◌++◌, map,
  length, get_elem?, ◌==◌, if◌then◌else◌,
}

pub record IoService : Type 0 where
  pub index : ℕ
  -- the `work` that keeps `run` from returning
  pub has_work : Bool
  pub stopped : Bool

pub record IoServicePool : Type 0 where
  pub io_services : List IoService
  pub next : ℕ

-- The rounds of the constructor's loop from `i` on.
unfoldable pub make_services : ℕ → ℕ → List IoService
make_services zero i = []
make_services (suc left) i =
    record { index = i; has_work = true; stopped = false } ∷ make_services left (i + 1)

-- The constructor.
unfoldable pub new_pool : ℕ → IoServicePool
unfolding make_services
new_pool size = record { io_services = make_services size 0; next = 0 }

-- `ioService()`: a read outside the vector is not defined.
unfoldable pub io_service : IoServicePool → Option (IoService × IoServicePool)
io_service p = do
  s ← get_elem? p.io_services p.next
  let n = p.next + 1
  some (s, record p { next = if n == length p.io_services then 0 else n })

abbrev stop_service : IoService → IoService
stop_service s = record s { stopped = true }

-- `stop()`
unfoldable pub stop : IoServicePool → IoServicePool
stop p = record p { io_services = map stop_service p.io_services }
