-- ===== src/Wire/Search.antt =====
-- `memchr` over the bytes from a pointer to an end pointer.
use boostcache.Prelude.{
  ℕ, ◌≡◌, ◌≢◌, refl, Option, none, some, List, [], ◌∷◌, ◌++◌, arith, ◌==◌, ==_refl, if◌then◌else◌,
  All, inl, inr, Option-cases, Bool, true, false,
}

-- One byte in front of a hit.
abbrev pub before_hit : ℕ → Option (List ℕ × List ℕ) → Option (List ℕ × List ℕ)
before_hit c none = none
before_hit c (some (line, rest)) = some (c ∷ line, rest)

-- The bytes in front of the first hit, and those behind it.
unfoldable pub memchr : ℕ → List ℕ → Option (List ℕ × List ℕ)
memchr b [] = none
memchr b (c ∷ cs) = if c == b then some ([], cs) else before_hit c (memchr b cs)

-- No byte of a text is `b`.
abbrev pub Free : ℕ → List ℕ → Type 0
Free b = All (λ c. c ≢ b)

-- The first hit behind a text without one is the one that stands there.
pub memchr-append :
    (b : ℕ) (line rest : List ℕ) → Free b line → memchr b (line ++ b ∷ rest) ≡ some (line, rest)
unfolding memchr
memchr-append b [] rest h = rw ==_refl
memchr-append b (c ∷ line) rest h = ground (arith, memchr-append b line rest h.1)

-- More bytes behind a hit do not move it.
pub memchr-append_some :
    (b : ℕ) (s more : List ℕ) {line rest : List ℕ}
    → memchr b s ≡ some (line, rest)
    → memchr b (s ++ more) ≡ some (line, rest ++ more)
unfolding memchr
memchr-append_some b [] more h = cc
memchr-append_some b (c ∷ s) more {line} {rest} h = elim (Option-cases (memchr b s)) [
  | inl miss ↦ ground arith
  | inr ((line', rest'), hit) ↦ ground (arith, memchr-append_some b s more hit)
]

-- A hit takes the text apart.
pub memchr_sound :
    (b : ℕ) (s : List ℕ) {line rest : List ℕ}
    → memchr b s ≡ some (line, rest)
    → (s ≡ line ++ b ∷ rest) × Free b line
unfolding memchr
memchr_sound b [] h = cc
memchr_sound b (c ∷ s) {line} {rest} h = elim (Option-cases (memchr b s)) [
  | inl miss ↦ ground arith
  | inr ((line', rest'), hit) ↦ ground (arith, memchr_sound b s hit)
]

-- A text without the byte.
pub memchr-Free : (b : ℕ) (s : List ℕ) → Free b s → memchr b s ≡ none
unfolding memchr
memchr-Free b [] f = refl
memchr-Free b (c ∷ s) f = ground (arith, memchr-Free b s f.1)

-- A part of a text without a byte has none of it.
pub Free-prefix : (b : ℕ) (s t : List ℕ) → Free b (s ++ t) → Free b s
Free-prefix b [] t f = tt
Free-prefix b (c ∷ s) t f = (f.0, Free-prefix b s t f.1)

-- The test for it.
abbrev pub is_free : ℕ → List ℕ → Bool
is_free b [] = true
is_free b (c ∷ s) = if c == b then false else is_free b s

pub is_free-Free : (b : ℕ) (s : List ℕ) → is_free b s ≡ true → Free b s
is_free-Free b [] h = tt
is_free-Free b (c ∷ s) h = (ground arith, is_free-Free b s (ground arith))
