-- ===== src/Db/HashTable/Order.antt =====
-- Tables of db/hashtable.cpp up to the order of their entries, which `std::unordered_map` leaves
-- open.
use mathlib.Core.Logic.{∥∥₁_elim}
use mathlib.Core.List.{Perm, Permᴰ}
use mathlib.Core.Quot
use mathlib.Core.Quot.{Quot, Quot-set}
use native.Mathlib.Nat.{ℕ_set}
use boostcache.Prelude.{◌≡◌, ◌≢◌, refl, sym, ◌∙◌, ap, subst, fun_ext, some, List, All, arith}
use boostcache.Wire.{Bytes}
use boostcache.Wire.Equality.{same_bytes, same_bytes_iff}
use boostcache.Wire.Decimal.{Decimal}
use boostcache.JsVm.{V8}
use boostcache.UnorderedMap.{lookup}
use boostcache.Db.Contract.{View, Request, IsComputed, run, map_replies, map_after}
use boostcache.Db.HashTable.{Table}
use boostcache.Db.HashTable.Laws.{IsMap, table_view}
use boostcache.Db.HashTable.Database.{hash_table_database}
use boostcache.Db.Agreement.{hash_table_replies}

-- Tables with one entry at most for each key.
abbrev pub Whole : Type 0
Whole = (t : Table) × IsMap t

-- The same values, whatever the order of the entries.
abbrev pub SameMap : Whole → Whole → Type 0
SameMap a b = table_view a.0 ≡ table_view b.0

abbrev pub Unordered : Type 0
Unordered = Quot SameMap

View-set : IsSet View
View-set = hlevel (ℕ_set)

pub view : Unordered → View
view = Quot.lift View-set (λ a. table_view a.0) (λ a b h. h)

absent-Permᴰ : (k : Bytes) {t u : Table} → Permᴰ t u → All (λ e. e.0 ≢ k) t → All (λ e. e.0 ≢ k) u
absent-Permᴰ k Permᴰ.nil a = tt
absent-Permᴰ k (Permᴰ.cons e d) a = (λ h. a.0 (ap (λ x. x.0) e ∙ h), absent-Permᴰ k d a.1)
absent-Permᴰ k (Permᴰ.swap e f) a =
    (λ h. a.1.0 (ap (λ x. x.0) f ∙ h), (λ h. a.0 (ap (λ x. x.0) e ∙ h), a.1.1))
absent-Permᴰ k (Permᴰ.trans c d) a = absent-Permᴰ k d (absent-Permᴰ k c a)

Permᴰ-IsMap : {t u : Table} → Permᴰ t u → IsMap t → IsMap u
Permᴰ-IsMap Permᴰ.nil m = tt
Permᴰ-IsMap (Permᴰ.cons {b} {l₂} e d) m = (
  subst (λ (x : Bytes × Bytes). All (λ y. y.0 ≢ x.0) l₂) e (absent-Permᴰ _ d m.0),
  Permᴰ-IsMap d m.1,
)
Permᴰ-IsMap (Permᴰ.swap {l} e f) m = (
  (
    λ h. m.0.0 (ap (λ x. x.0) f ∙ sym h ∙ sym (ap (λ x. x.0) e)),
    subst (λ (x : Bytes × Bytes). All (λ y. y.0 ≢ x.0) l) f m.1.0,
  ),
  (subst (λ (x : Bytes × Bytes). All (λ y. y.0 ≢ x.0) l) e m.0.1, m.1.1),
)
Permᴰ-IsMap (Permᴰ.trans c d) m = Permᴰ-IsMap d (Permᴰ-IsMap c m)

Permᴰ-lookup : (k : Bytes) {t u : Table} → Permᴰ t u → IsMap t → lookup k t ≡ lookup k u
unfolding lookup
Permᴰ-lookup k Permᴰ.nil m = refl
Permᴰ-lookup k (Permᴰ.cons e d) m = ground (arith, Permᴰ-lookup k d m.1)
Permᴰ-lookup k (Permᴰ.swap {a} {b} e f) m =
    ground (arith, same_bytes_iff a.0 k, same_bytes_iff b.0 k)
Permᴰ-lookup k (Permᴰ.trans c d) m = Permᴰ-lookup k c m ∙ Permᴰ-lookup k d (Permᴰ-IsMap c m)

-- Tables with the same entries in another order are one up to the order.
pub Perm-Unordered : (a b : Whole) → Perm a.0 b.0 → Path Unordered (Quot.mk a) (Quot.mk b)
Perm-Unordered a b p =
    Quot.sound (∥∥₁_elim p (View-set _ _) (λ d. fun_ext (λ k. Permᴰ-lookup k d a.1)))

module _ (p : Decimal) (v : V8) where
  -- What a table answers, and what it leaves up to the order.
  answer_of : (rs : List Request) → All (IsComputed v) rs → Whole → List Bytes × Unordered
  answer_of rs computed (t, m) =
      let (t', run, m', after) = hash_table_replies p v t rs m computed in
      (map_replies p same_bytes (table_view t) rs, Quot.mk (t', m'))

  answer_of-SameMap :
      (rs : List Request) (computed : All (IsComputed v) rs) (a b : Whole)
      → SameMap a b
      → answer_of rs computed a ≡ answer_of rs computed b
  unfolding answer_of
  answer_of-SameMap rs computed (t, m) (u, n) h =
      let (t', run_t, m', after_t) = hash_table_replies p v t rs m computed in
      let (u', run_u, n', after_u) = hash_table_replies p v u rs n computed in
      let same : SameMap (t', m') (u', n') =
        after_t ∙ ap (λ w. map_after same_bytes w rs) h ∙ sym after_u in
      λ i. (map_replies p same_bytes (h i) rs, Quot.sound {a = (t', m')} {b = (u', n')} same i)

  -- So the requests are answered by the tables up to the order.
  pub answered : (rs : List Request) → All (IsComputed v) rs → Unordered → List Bytes × Unordered
  answered rs computed =
      Quot.lift (hlevel (ℕ_set, Quot-set)) (answer_of rs computed) (answer_of-SameMap rs computed)

  run-answered :
      (a : Whole) (rs : List Request) (computed : All (IsComputed v) rs)
      → (b : Whole) × (run p v (hash_table_database v p) a.0 rs
          ≡ some (b.0, (answered rs computed (Quot.mk a)).0))
        × (Quot.mk b ≡ (answered rs computed (Quot.mk a)).1)
  unfolding answered answer_of
  run-answered (t, m) rs computed =
      let (t', run, m', after) = hash_table_replies p v t rs m computed in ((t', m'), run, refl)

  -- The order of the entries cannot be told from the replies: two tables with the same entries in
  -- any two orders, one at most for each key, answer any requests alike, FOR among them with
  -- functions that neither throw nor remember, and leave tables that are one up to the order.
  pub run-Perm :
      (a b : Whole) (rs : List Request)
      → Perm a.0 b.0
      → All (IsComputed v) rs
      → (c : Whole) × (d : Whole) × (replies : List Bytes) × (run p v
            (hash_table_database v p)
            a.0
            rs
          ≡ some (c.0, replies))
        × (run p v (hash_table_database v p) b.0 rs ≡ some (d.0, replies))
        × Path Unordered (Quot.mk c) (Quot.mk d)
  run-Perm a b rs perm computed =
      let same = ap (answered rs computed) (Perm-Unordered a b perm) in
      let (c, run_a, after_a) = run-answered a rs computed in
      let (d, run_b, after_b) = run-answered b rs computed in
      (
        c,
        d,
        (answered rs computed (Quot.mk a)).0,
        run_a,
        run_b ∙ ap (λ x. some (d.0, x.0)) (sym same),
        after_a ∙ ap (λ x. x.1) same ∙ sym after_b,
      )
