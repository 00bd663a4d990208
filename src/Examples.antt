-- ===== src/Examples.antt =====
-- Stand-ins for what the program takes from elsewhere: they show that what is asked of it can be
-- met, and the tests run on them.
use mathlib.Core.List.Perm
use boostcache.Prelude.{
  ◌%◌, ◌^◌, ℕ, zero, suc, ◌+◌, ◌*◌, ◌≤◌, ◌≡◌, refl, Option, none, some, List, [], ◌∷◌, ◌++◌, ◌==◌,
  if◌then◌else◌, arith, Bool-cases, inl, inr,
}
use boostcache.Wire.{Bytes, codes}
use boostcache.Wire.Printer.{plain_decimal}
use boostcache.JsVm.Passes.{IsCallable}
use boostcache.Commands.{Platform}
use boostcache.JsVm.{V8, call, c_str}
use boostcache.Db.AvlTree.{OrderedSet}

-- A hash without collisions.
head_code : ℕ → ℕ → ℕ
head_code zero t = 2 * t + 1
head_code (suc c) t = 2 * head_code c t + 2

pub list_code : Bytes → ℕ
list_code [] = 0
list_code (c ∷ cs) = head_code c (list_code cs)

head_code_pos : (c t : ℕ) → 1 ≤ head_code c t
unfolding head_code
head_code_pos zero t = omega arith
head_code_pos (suc c) t = omega arith

head_code_injective : (c d t u : ℕ) → head_code c t ≡ head_code d u → (c ≡ d) × (t ≡ u)
unfolding head_code
head_code_injective zero zero t u h = omega arith
head_code_injective zero (suc d) t u h = absurd (omega arith)
head_code_injective (suc c) zero t u h = absurd (omega arith)
head_code_injective (suc c) (suc d) t u h = omega (arith, head_code_injective c d t u (omega arith))

pub list_code_injective : (j k : Bytes) → list_code j ≡ list_code k → j ≡ k
unfolding list_code
list_code_injective [] [] h = refl
list_code_injective [] (d ∷ k) h = absurd (omega (arith, head_code_pos d (list_code k)))
list_code_injective (c ∷ j) [] h = absurd (omega (arith, head_code_pos c (list_code j)))
list_code_injective (c ∷ j) (d ∷ k) h =
    let (same, rest) = head_code_injective c d (list_code j) (list_code k) h in
    cc (same, list_code_injective j k rest)

-- An ordered set, as a list of keys and addresses.
abbrev Pairs : Type 0
Pairs = List (ℕ × ℕ)

find_pair : ℕ → Pairs → Option ℕ
find_pair k [] = none
find_pair k ((j, a) ∷ t) = if j == k then some a else find_pair k t

erase_pair : ℕ → Pairs → Pairs
erase_pair k [] = []
erase_pair k ((j, a) ∷ t) = let rest = erase_pair k t in if j == k then rest else (j, a) ∷ rest

find_pair-cons :
    (k j a : ℕ) (t : Pairs)
    → find_pair k t ≡ none
    → find_pair j ((k, a) ∷ t) ≡ (if k == j then some a else find_pair j t)
unfolding find_pair
find_pair-cons k j a t h = refl

find_pair-erase_pair :
    (k j : ℕ) (t : Pairs) → find_pair j (erase_pair k t) ≡ (if k == j then none else find_pair j t)
unfolding find_pair erase_pair
find_pair-erase_pair k j [] = ground arith
find_pair-erase_pair k j ((i, a) ∷ t) = ground (arith, find_pair-erase_pair k j t)

find_pair-nil : (k : ℕ) → find_pair k [] ≡ none
unfolding find_pair
find_pair-nil k = refl

pub pair_set : OrderedSet
pair_set = record {
  Tree = Pairs;
  empty = [];
  find = find_pair;
  insert_unique = λ k a t. (k, a) ∷ t;
  erase = erase_pair;
  find-empty = find_pair-nil;
  find-insert_unique = find_pair-cons;
  find-erase = find_pair-erase_pair;
}

-- Scripts whose function puts the script's own text behind a value, and throws at an empty one.
unfoldable pub appending : Bytes → Bytes → Bytes → Option (Option Bytes × Bytes)
appending f key [] = some (none, f)
appending f key (c ∷ value) = some (some ((c ∷ value) ++ f), f)

abbrev pub appending_v8 : V8
appending_v8 = record {
  Script = Bytes;
  Value = Bytes;
  compile = λ code. some code;
  run = λ script. some script;
  call = appending;
  utf8 = λ s. some s;
}

pub appending-IsCallable : (code : Bytes) → IsCallable appending_v8 code
unfolding appending call c_str
appending-IsCallable code f m key [] = (_, refl)
appending-IsCallable code f m key (c ∷ value) = elim (Bool-cases (c == 0)) [
  | inl e ↦ ((none, f), rw e refl)
  | inr e ↦ ((some (c ∷ c_str (c_str value ++ f)), f), ground (arith, e))
]

-- Scripts whose function puts the script's own text behind a value; the empty script has no function.
unfoldable pub suffix_script : Bytes → Option Bytes
suffix_script [] = none
suffix_script (c ∷ code) = some (c ∷ code)

abbrev pub suffix_v8 : V8
suffix_v8 = record {
  Script = Bytes;
  Value = Bytes;
  compile = suffix_script;
  run = λ script. some script;
  call = λ f key value. some (some (value ++ f), f);
  utf8 = λ s. some s;
}

-- A server with all of these.
abbrev pub platform : Platform
platform = record {
  decimal = plain_decimal;
  order = λ t. t;
  order-Perm = λ t. Perm.refl t;
  v8 = appending_v8;
  hash = λ k. list_code k % 2 ^ 64;
  hash_bound = λ k. omega arith;
  set = pair_set;
  version_float = codes "0.1";
  version_git = codes "abc";
}
