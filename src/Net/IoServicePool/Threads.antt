-- ===== src/Net/IoServicePool/Threads.antt =====
-- `IoServicePool::start`: a thread for each service runs it, and the caller joins them in turn.
-- Threads are the library's, and `run` of a service is boost's: it returns once the service is
-- stopped, and not before, since the pool's `work` is never taken back.
pub mod Stopping
pub mod Joining
use boostcache.Prelude.{
  ℕ, ◌+◌, ◌≡◌, Bool, true, false, some, List, [], ◌∷◌, ◌++◌, map, length, get_elem?,
}
use boostcache.Net.IoServicePool.{IoService, IoServicePool, stop_service}

-- A thread, and whether its `run` has returned.
pub record Thread : Type 0 where
  pub service : IoService
  pub returned : Bool

-- `start()` under way: all threads are there, and so many of them are joined.
pub record Starting : Type 0 where
  pub threads : List Thread
  pub joined : ℕ

abbrev new_thread : IoService → Thread
new_thread s = record { service = s; returned = false }

-- `start()` behind its first loop
unfoldable pub start : IoServicePool → Starting
start p = record { threads = map new_thread p.io_services; joined = 0 }

abbrev pub stop_thread : Thread → Thread
stop_thread t = record t { service = stop_service t.service }

-- `run` of a service returns, or the second loop joins one more thread.
pub data Step (r : Starting) : Starting → Type 0 where
  run_returns :
      (before behind : List Thread) (t : Thread)
      → r.threads ≡ before ++ t ∷ behind
      → t.service.stopped ≡ true
      → t.returned ≡ false
      → Step r (record r { threads = before ++ record t { returned = true } ∷ behind })
  joins :
      (t : Thread)
      → get_elem? r.threads r.joined ≡ some t
      → t.returned ≡ true
      → Step r (record r { joined = r.joined + 1 })

-- `start()` has returned.
abbrev pub IsDone : Starting → Type 0
IsDone r = r.joined ≡ length r.threads

-- `stop()` meanwhile, on a signal
unfoldable pub stop_all : Starting → Starting
stop_all r = record r { threads = map stop_thread r.threads }

pub data Reach (from : Starting) : Starting → Type 0 where
  here : Reach from from
  next : {r t : Starting} → Reach from r → Step r t → Reach from t
  stopped : {r : Starting} → Reach from r → Reach from (stop_all r)

-- Whatever order the threads come in, `start()` returns: there is a step as long as it has not, and
-- it returns behind every step.
pub data Returns : Starting → Type 0 where
  done : (r : Starting) → IsDone r → Returns r
  later : (r u : Starting) → Step r u → ((t : Starting) → Step r t → Returns t) → Returns r
