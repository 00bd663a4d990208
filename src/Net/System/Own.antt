-- ===== src/Net/System/Own.antt =====
-- Whose reply a session writes.
use boostcache.Prelude.{
  sym, ap, ◌∙◌, refl, map, append_assoc, false, ℕ, suc, ◌+◌, ◌≤◌, ◌<◌, ◌≡◌, ◌≢◌, subst, List, [],
  ◌∷◌, ◌++◌, length, arith, ◌==◌, if◌then◌else◌,
}
use boostcache.Wire.{Bytes}
use boostcache.Net.Session.{Session, write}
use boostcache.Net.Session.Serves.{Event, received, sent}
use boostcache.Net.System.Requests.{sent_by}
use boostcache.Net.System.Calls.{Call, writes, messages}

-- The replies to the calls of a session, the last in front.
abbrev pub replies_of : ℕ → List Call → List Bytes
replies_of i [] = []
replies_of i (k ∷ ks) =
    let before = replies_of i ks in if k.request.owner == i then k.reply ∷ before else before

-- A session that is not deleted has written the replies to all of its own calls, in their order, or
-- is writing the last of them; and it has written nothing else.
abbrev pub Delivers : List Call → List (ℕ × Event) → ℕ → Session → Type 0
Delivers ks events i s =
    s.deleted ≡ false → replies_of i ks ≡ writes s.outstanding ++ sent_by i events

-- A property of each session and its place.
abbrev pub Each : (ℕ → Session → Type 0) → ℕ → List Session → Type 0
Each P i [] = Unit
Each P i (s ∷ ss) = P i s × Each P (suc i) ss

pub Each-append :
    (P : ℕ → Session → Type 0) (i : ℕ) (ss ts : List Session)
    → Each P i ss
    → Each P (i + length ss) ts
    → Each P i (ss ++ ts)
Each-append P i [] ts h k = subst (λ n. Each P n ts) (omega arith) k
Each-append P i (s ∷ ss) ts h k =
    (h.0, Each-append P (suc i) ss ts h.1 (subst (λ n. Each P n ts) (omega arith) k))

Each-append_inv :
    (P : ℕ → Session → Type 0) (i : ℕ) (ss ts : List Session)
    → Each P i (ss ++ ts)
    → Each P i ss × Each P (i + length ss) ts
Each-append_inv P i [] ts h = (tt, subst (λ n. Each P n ts) (omega arith) h)
Each-append_inv P i (s ∷ ss) ts h =
    let (front, back) = Each-append_inv P (suc i) ss ts h.1 in
    ((h.0, front), subst (λ n. Each P n ts) (omega arith) back)

pub Each-map :
    (P Q : ℕ → Session → Type 0) (i : ℕ) (ss : List Session)
    → ((j : ℕ) (x : Session) → i ≤ j → j < i + length ss → P j x → Q j x)
    → Each P i ss
    → Each Q i ss
Each-map P Q i [] f h = tt
Each-map P Q i (s ∷ ss) f h = (
  f i s (omega arith) (omega arith) h.0,
  Each-map P Q (suc i) ss (λ j x low high. f j x (omega arith) (omega arith)) h.1,
)

-- The property of the session at a place.
pub Each-at :
    (P : ℕ → Session → Type 0) (before behind : List Session) (s : Session)
    → Each P 0 (before ++ s ∷ behind)
    → P (length before) s
Each-at P before behind s h =
    subst (λ n. P n s) (omega arith) (Each-append_inv P 0 before (s ∷ behind) h).1.0

-- Another session in the place of one, where the others keep the property.
pub Each-replace :
    (P Q : ℕ → Session → Type 0) (before behind : List Session) (s s' : Session)
    → ((j : ℕ) (x : Session) → j ≢ length before → P j x → Q j x)
    → Each P 0 (before ++ s ∷ behind)
    → Q (length before) s'
    → Each Q 0 (before ++ s' ∷ behind)
Each-replace P Q before behind s s' f h q =
    let (front, (now, back)) = Each-append_inv P 0 before (s ∷ behind) h in
    Each-append Q 0 before (s' ∷ behind)
      (Each-map P Q 0 before (λ j x low high. f j x (omega arith)) front)
      (
        subst (λ n. Q n s') (omega arith) q,
        Each-map P Q (suc (0 + length before)) behind (λ j x low high. f j x (omega arith)) back,
      )

-- What has happened to one session changes nothing for the others.
pub sent_by-other :
    (i j : ℕ) (what : List Event) (events : List (ℕ × Event))
    → i ≢ j
    → sent_by i (map (λ x. (j, x)) what ++ events) ≡ sent_by i events
sent_by-other i j [] events other = refl
sent_by-other i j (sent m ∷ what) events other = ground (arith, sent_by-other i j what events other)
sent_by-other i j (received b ∷ what) events other = sent_by-other i j what events other

sent_by-own :
    (i : ℕ) (what : List Event) (events : List (ℕ × Event))
    → sent_by i (map (λ x. (i, x)) what ++ events) ≡ messages what ++ sent_by i events
sent_by-own i [] events = refl
sent_by-own i (sent m ∷ what) events = ground (arith, sent_by-own i what events)
sent_by-own i (received b ∷ what) events = sent_by-own i what events

pub quiet-Delivers :
    (ks : List Call) (what : List Event) (events : List (ℕ × Event)) (before behind : List Session)
    (s s' : Session)
    → Each (Delivers ks events) 0 (before ++ s ∷ behind)
    → s.deleted ≡ false
    → (s'.deleted ≡ false → writes s.outstanding ≡ writes s'.outstanding ++ messages what)
    → Each (Delivers ks (map (λ x. (length before, x)) what ++ events)) 0 (before ++ s' ∷ behind)
quiet-Delivers ks what events before behind s s' h kept moves =
    let i = length before in
    let after = map (λ x. (i, x)) what ++ events in
    Each-replace (Delivers ks events) (Delivers ks after) before behind s s'
      (λ j x other k d.
        k d ∙ ap (λ l. writes x.outstanding ++ l) (sym (sent_by-other j i what events other)))
      h
      (λ d.
        Each-at (Delivers ks events) before behind s h kept
        ∙ ap (λ l. l ++ sent_by i events) (moves d)
        ∙ append_assoc (writes s'.outstanding) (messages what) (sent_by i events)
        ∙ ap (λ l. writes s'.outstanding ++ l) (sym (sent_by-own i what events)))

replies_of-own :
    (i : ℕ) (k : Call) (ks : List Call)
    → k.request.owner ≡ i
    → replies_of i (k ∷ ks) ≡ k.reply ∷ replies_of i ks
replies_of-own i k ks same = ground arith

pub replies_of-other :
    (i : ℕ) (k : Call) (ks : List Call)
    → i ≢ k.request.owner
    → replies_of i (k ∷ ks) ≡ replies_of i ks
replies_of-other i k ks other = ground arith

pub called-Delivers :
    (k : Call) (ks : List Call) (b : Bytes) (events : List (ℕ × Event))
    (before behind : List Session) (s s' : Session)
    → k.request.owner ≡ length before
    → Each (Delivers ks events) 0 (before ++ s ∷ behind)
    → s.deleted ≡ false
    → writes s.outstanding ≡ []
    → s'.outstanding ≡ write k.reply ∷ []
    → Each (Delivers (k ∷ ks) ((length before, received b) ∷ events)) 0 (before ++ s' ∷ behind)
called-Delivers k ks b events before behind s s' place h kept silent asked =
    let i = length before in
    Each-replace (Delivers ks events) (Delivers (k ∷ ks) ((i, received b) ∷ events)) before behind s
      s' (λ j x other old d. replies_of-other j k ks (λ e. other (e ∙ place)) ∙ old d) h
      (λ d.
        replies_of-own i k ks place
        ∙ ap (λ l. k.reply ∷ l)
            (Each-at (Delivers ks events) before behind s h kept
              ∙ ap (λ l. l ++ sent_by i events) silent)
        ∙ ap (λ l. writes l ++ sent_by i events) (sym asked))
