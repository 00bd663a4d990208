-- ===== src/Net/IoServicePool/Threads/Stopping.antt =====
-- The threads of `start` of kernel/net/ioservicepool.cpp where the services are stopped.
use boostcache.Prelude.{
  ℕ, zero, suc, ◌+◌, ◌-◌, ◌≤◌, ◌<◌, ◌≡◌, ◌≢◌, refl, subst, ap, ◌∙◌, true, false, some, List, [],
  ◌∷◌, ◌++◌, length, get_elem?, All, All-append, All-append_inv, length-append, arith, inl, inr,
  Bool-cases,
}
use native.Mathlib.Decide.{ℕ_discrete}
use boostcache.Net.IoServicePool.Threads.{
  Thread, Starting, Step, run_returns, joins, Returns, done, later,
}

abbrev pub IsStopped : Thread → Type 0
IsStopped t = t.service.stopped ≡ true

-- The threads whose `run` has not returned.
abbrev running : List Thread → ℕ
running [] = 0
running (t ∷ ts) = elim t.returned [ true ↦ running ts | false ↦ suc (running ts) ]

running-append : (ts us : List Thread) → running (ts ++ us) ≡ running ts + running us
running-append [] us = omega arith
running-append (t ∷ ts) us = ground (arith, running-append ts us)

-- A thread at a place, and those around it.
split_at :
    (ts : List Thread) (i : ℕ) (t : Thread)
    → get_elem? ts i ≡ some t
    → (before : List Thread) × (behind : List Thread) × (ts ≡ before ++ t ∷ behind)
split_at [] i t h = absurd (ground arith)
split_at (u ∷ ts) zero t h = ([], ts, ground arith)
split_at (u ∷ ts) (suc i) t h =
    let (before, behind, e) = split_at ts i t h in (u ∷ before, behind, ap (λ l. u ∷ l) e)

get_elem?_inside :
    (ts : List Thread) (i : ℕ) → i < length ts → (t : Thread) × (get_elem? ts i ≡ some t)
get_elem?_inside [] i h = absurd (omega arith)
get_elem?_inside (t ∷ ts) zero h = (t, refl)
get_elem?_inside (t ∷ ts) (suc i) h = get_elem?_inside ts i (omega arith)

pub get_elem?_outside :
    (ts : List Thread) (i : ℕ) (t : Thread) → get_elem? ts i ≡ some t → i < length ts
get_elem?_outside [] i t h = absurd (ground arith)
get_elem?_outside (u ∷ ts) zero t h = omega arith
get_elem?_outside (u ∷ ts) (suc i) t h = omega (arith, get_elem?_outside ts i t h)

-- All services are stopped, and no more threads are joined than there are.
pub record IsStopping (r : Starting) : Type 0 where
  pub all : All IsStopped r.threads
  pub joined : r.joined ≤ length r.threads

-- What is left to do.
abbrev pub work : Starting → ℕ
work r = running r.threads + (length r.threads - r.joined)

running-one :
    (t : Thread) (ts : List Thread) → t.returned ≡ false → running (t ∷ ts) ≡ suc (running ts)
running-one t ts h = ground arith

-- A step keeps that, and leaves less to do.
Step-IsStopping : (r t : Starting) → Step r t → IsStopping r → IsStopping t × (work t < work r)
Step-IsStopping r t (run_returns before behind x e s fresh) v =
    let x' : Thread = record x { returned = true } in
    let (front, (now, back)) =
      All-append_inv IsStopped before (x ∷ behind) (subst (All IsStopped) e v.all) in
    let size : length r.threads ≡ length before + suc (length behind) =
      ap length e ∙ length-append before (x ∷ behind) in
    let size' : length (before ++ x' ∷ behind) ≡ length before + suc (length behind) =
      length-append before (x' ∷ behind) in
    let count : running r.threads ≡ running before + suc (running behind) =
      ap running e
      ∙ running-append before (x ∷ behind)
      ∙ ap (λ n. running before + n) (running-one x behind fresh) in
    let count' : running (before ++ x' ∷ behind) ≡ running before + running behind =
      running-append before (x' ∷ behind) in
    (
      record {
        all = All-append IsStopped before (x' ∷ behind) front (s, back);
        joined = omega (arith, v.joined, size, size');
      },
      omega (arith, v.joined, size, size', count, count'),
    )
Step-IsStopping r t (joins x e returned) v =
    let inside : r.joined < length r.threads = get_elem?_outside r.threads r.joined x e in
    (record { all = v.all; joined = omega arith }, omega arith)

-- There is a step as long as not all threads are joined.
goes_on : (r : Starting) → IsStopping r → r.joined ≢ length r.threads → (t : Starting) × Step r t
goes_on r v open_ =
    let (x, at) = get_elem?_inside r.threads r.joined (omega (arith, v.joined)) in
    let (before, behind, e) = split_at r.threads r.joined x at in
    let (front, (now, back)) =
      All-append_inv IsStopped before (x ∷ behind) (subst (All IsStopped) e v.all) in
    elim (Bool-cases x.returned) [
      | inl returned ↦ (_, joins x at returned)
      | inr runs ↦ (_, run_returns before behind x e now runs)
    ]

pub IsStopping-Returns : (n : ℕ) (r : Starting) → work r < n → IsStopping r → Returns r
IsStopping-Returns zero r h v = absurd (omega arith)
IsStopping-Returns (suc n) r h v = elim (ℕ_discrete r.joined (length r.threads)) [
  | yes e ↦ done r e
  | no open_ ↦
      let (u, st) = goes_on r v open_ in
      later r u st (λ t step.
        let (v', less) = Step-IsStopping r t step v in IsStopping-Returns n t (omega arith) v')
]
