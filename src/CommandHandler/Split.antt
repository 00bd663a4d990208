-- ===== src/CommandHandler/Split.antt =====
-- `split` of kernel/commandhandler.cpp: the words of an inline command.
use boostcache.Prelude.{
  ℕ, zero, suc, Option, none, some, List, [], ◌∷◌, ◌++◌, ◌==◌, if◌then◌else◌, ◌>>=◌, length,
}
use boostcache.Wire.{Bytes}
use boostcache.Wire.Search.{memchr}

abbrev pub space : ℕ
space = b' '

-- `while (*found == delimiter) ++found`: `stop` is the byte at the end pointer. A pointer that
-- passes the end makes the next `memchr` undefined.
unfoldable pub skip_delimiters : ℕ → Bytes → Option Bytes
skip_delimiters stop [] = if stop == space then none else some []
skip_delimiters stop (c ∷ cs) = if c == space then skip_delimiters stop cs else some (c ∷ cs)

-- The rounds of `while (true)`, with fuel; `none` is a pointer past the end, or no fuel left.
unfoldable pub split_loop : ℕ → ℕ → Bytes → List Bytes → Option (List Bytes)
split_loop zero stop begin words = none
split_loop (suc fuel) stop begin words = elim (memchr space begin) [
  | none ↦ (do rest ← skip_delimiters stop []; some (words ++ begin ∷ []))
  | some (word, after) ↦ elim (skip_delimiters stop (space ∷ after)) [
    | none ↦ none
    | some [] ↦ some (words ++ word ∷ [])
    | some (c ∷ cs) ↦ split_loop fuel stop (c ∷ cs) (words ++ word ∷ [])
  ]
]

-- `split(begin, end, destination)`: each round but the last passes a delimiter, so that one more
-- round than there are bytes is enough.
unfoldable pub split : ℕ → Bytes → List Bytes → Option (List Bytes)
split stop text destination = split_loop (suc (length text)) stop text destination
