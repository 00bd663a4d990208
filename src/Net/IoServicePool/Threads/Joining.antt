-- ===== src/Net/IoServicePool/Threads/Joining.antt =====
-- `start` of kernel/net/ioservicepool.cpp from its threads to its return.
use boostcache.Prelude.{ℕ, ◌≤◌, ◌<◌, ◌≡◌, true, some, length, get_elem?, All}
use boostcache.Net.IoServicePool.{IoServicePool}
use boostcache.Net.IoServicePool.Threads.{Thread, Starting, stopped}
use boostcache.Net.IoServicePool.Threads.Stopping.{IsStopped}

-- No more threads are joined than have returned, and a thread has returned only where its service
-- is stopped.
pub record IsValid (r : Starting) : Type 0 where
  pub joined : r.joined ≤ length r.threads
  pub returned :
      (i : ℕ) → i < r.joined → (t : Thread) × (get_elem? r.threads i ≡ some t) × (t.returned ≡ true)
  pub stopped : All (λ t. t.returned ≡ true → IsStopped t) r.threads
