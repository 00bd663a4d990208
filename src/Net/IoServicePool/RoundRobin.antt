-- ===== src/Net/IoServicePool/RoundRobin.antt =====
-- The turn of `ioService()` of kernel/net/ioservicepool.cpp.
use boostcache.Prelude.{
  ℕ, zero, suc, ◌+◌, ◌%◌, ◌<◌, ◌≤◌, ◌≡◌, refl, ap, subst, ◌∙◌, sym, true, false, Option, some,
  ◌>>=◌, List, [], ◌∷◌, map, length, get_elem?, ◌==◌, if◌then◌else◌, arith,
}
use native.Mathlib.Nat.{mod-eq_of_lt, mod-add-mod}
use boostcache.Net.IoServicePool.{
  IoService, IoServicePool, make_services, new_pool, io_service, stop_service, stop,
}

-- The services that `n` calls return, in order, and the pool behind them.
unfoldable pub take_services : ℕ → IoServicePool → Option (List IoService × IoServicePool)
take_services zero p = some ([], p)
take_services (suc n) p = do
  (s, p') ← io_service p
  (services, p'') ← take_services n p'
  some (s ∷ services, p'')

-- A pool whose services carry their positions, and whose next one is among them.
pub record IsValid (size : ℕ) (p : IoServicePool) : Type 0 where
  pub sized : length p.io_services ≡ size
  pub inside : p.next < size
  pub indexed :
      (i : ℕ) → i < size → (s : IoService) × (get_elem? p.io_services i ≡ some s) × (s.index ≡ i)

length-make_services : (n i : ℕ) → length (make_services n i) ≡ n
unfolding make_services
length-make_services zero i = refl
length-make_services (suc n) i = ap suc (length-make_services n (i + 1))

get_elem?-make_services :
    (n i j : ℕ)
    → j < n
    → get_elem? (make_services n i) j
      ≡ some (record { index = i + j; has_work = true; stopped = false })
unfolding make_services
get_elem?-make_services zero i j h = absurd (omega arith)
get_elem?-make_services (suc n) i zero h = ground arith
get_elem?-make_services (suc n) i (suc j) h =
    let e : i + 1 + j ≡ i + suc j = omega arith in
    get_elem?-make_services n (i + 1) j (omega arith)
    ∙ ap (λ k. some (record { index = k; has_work = true; stopped = false })) e

pub new_pool-IsValid : (size : ℕ) → 1 ≤ size → IsValid size (new_pool size)
unfolding new_pool
new_pool-IsValid size h = record {
  sized = length-make_services size 0;
  inside = h;
  indexed = λ i lt. (
    record { index = 0 + i; has_work = true; stopped = false },
    get_elem?-make_services size 0 i lt,
    omega arith,
  );
}

-- A call is defined on a pool with a service, keeps the services, and returns the service at
-- `m_next`, which goes on by one around the pool.
pub io_service-IsValid :
    (size : ℕ) (p : IoServicePool)
    → IsValid size p
    → (s : IoService) × (p' : IoServicePool) × (io_service p ≡ some (s, p'))
      × (s.index ≡ p.next)
      × (p'.next ≡ (p.next + 1) % size)
      × (p'.io_services ≡ p.io_services)
      × IsValid size p'
unfolding io_service
io_service-IsValid size p v =
    let (s, at, named) = v.indexed p.next v.inside in
    (
      s,
      record p { next = if p.next + 1 == length p.io_services then 0 else p.next + 1 },
      ground (arith, at),
      named,
      grind (arith, v.sized, v.inside),
      refl,
      record { sized = v.sized; inside = ground (arith, v.sized, v.inside); indexed = v.indexed },
    )

-- The `i`-th of the calls returns the service at `next + i`, around the pool.
abbrev pub Rounds : ℕ → ℕ → List IoService → Type 0
Rounds size next services =
    (i : ℕ)
    → i < length services
    → (s : IoService) × (get_elem? services i ≡ some s) × (s.index ≡ (next + i) % size)

Rounds-cons :
    (size next : ℕ) (s : IoService) (services : List IoService)
    → next < size
    → s.index ≡ next
    → Rounds size ((next + 1) % size) services
    → Rounds size next (s ∷ services)
Rounds-cons size next s services inside named rest zero h =
    (s, refl, let e : next + 0 ≡ next = omega arith in named ∙ rw e (sym (mod-eq_of_lt inside)))
Rounds-cons size next s services inside named rest (suc i) h =
    let e : next + 1 + i ≡ next + suc i = omega arith in
    let (u, at, index) = rest i (omega arith) in
    (u, at, index ∙ mod-add-mod (next + 1) size i ∙ ap (λ k. k % size) e)

-- Any number of calls on a valid pool is defined, and goes round the services from `m_next` on.
pub take_services-Rounds :
    (size n : ℕ) (p : IoServicePool)
    → IsValid size p
    → (services : List IoService) × (p' : IoServicePool) × (take_services n p ≡ some (services, p'))
      × (length services ≡ n)
      × Rounds size p.next services
      × IsValid size p'
unfolding take_services
take_services-Rounds size zero p v = ([], p, refl, refl, (λ i h. absurd (omega arith)), v)
take_services-Rounds size (suc n) p v =
    let (s, p₁, call, named, next, same, v₁) = io_service-IsValid size p v in
    let (services, p', calls, count, rounds, v') = take_services-Rounds size n p₁ v₁ in
    (
      s ∷ services,
      p',
      ground (arith, call, calls),
      ap suc count,
      Rounds-cons size p.next s services v.inside named
          (subst (λ k. Rounds size k services) next rounds),
      v',
    )

length-stop : (services : List IoService) → length (map stop_service services) ≡ length services
length-stop [] = refl
length-stop (s ∷ services) = ap suc (length-stop services)

get_elem?-stop :
    (services : List IoService) (i : ℕ) (s : IoService)
    → get_elem? services i ≡ some s
    → get_elem? (map stop_service services) i ≡ some (stop_service s)
get_elem?-stop [] i s h = ground arith
get_elem?-stop (x ∷ services) zero s h = ground arith
get_elem?-stop (x ∷ services) (suc i) s h = get_elem?-stop services i s h

-- `stop` changes neither the services' places nor whose turn it is.
pub stop-IsValid :
    (size : ℕ) (p : IoServicePool)
    → IsValid size p
    → IsValid size (stop p) × ((stop p).next ≡ p.next)
unfolding stop
stop-IsValid size p v = (
  record {
    sized = length-stop p.io_services ∙ v.sized;
    inside = v.inside;
    indexed = λ i h.
        let (s, at, index) = v.indexed i h in
        (stop_service s, get_elem?-stop p.io_services i s at, index);
  },
  refl,
)
