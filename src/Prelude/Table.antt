-- ===== src/Prelude/Table.antt =====
-- An ordered table with number keys: `BTreeMap<u64, V>` of the standard library, and a redb table
-- whose keys are `Inode` or `BlobId`. The entries stand in increasing order of their keys.
use Prim.Native.Nat.{ℕ, suc, ◌≤◌, ◌<◌}
use mathlib.Core.Path.{◌≡◌, refl}
use mathlib.Core.Option.{Option, none, some}
use mathlib.Core.List.{List, [], ◌∷◌, ◌++◌}
use native.Mathlib.Omega.{arith}
use mathlib.Core.Bool.{◌&&◌}
use realize.Prelude.Tests.{leb, ltb, ◌==◌, if◌then◌else◌}

abbrev pub Table {ℓ} : Type ℓ → Type ℓ
Table V = List (ℕ × V)

module _ {ℓ} {V : Type ℓ} where
  unfoldable pub get : ℕ → Table V → Option V
  get k [] = none
  get k ((j, v) ∷ t) = if j == k then some v else get k t

  -- An entry with the same key is replaced.
  unfoldable pub insert : ℕ → V → Table V → Table V
  insert k v [] = (k, v) ∷ []
  insert k v ((j, w) ∷ t) =
      if ltb k j then (k, v) ∷ (j, w) ∷ t else if j == k then (k, v) ∷ t else (j, w) ∷ insert k v t

  unfoldable pub remove : ℕ → Table V → Table V
  remove k [] = []
  remove k ((j, w) ∷ t) = if j == k then t else (j, w) ∷ remove k t

  -- The entry with the greatest key.
  unfoldable pub last : Table V → Option (ℕ × V)
  last [] = none
  last (e ∷ []) = some e
  last (e ∷ f ∷ t) = last (f ∷ t)

  -- The entry with the greatest key below `k`: `range(..k).next_back()`.
  unfoldable pub last_lt : ℕ → Table V → Option (ℕ × V)
  last_lt k [] = none
  last_lt k ((j, w) ∷ t) =
      if ltb j k then (elim (last_lt k t) [ none ↦ some (j, w) | some e ↦ some e ]) else none

  -- The entry with the least key that is not below `k`: `range(k..).next()`.
  unfoldable pub first_ge : ℕ → Table V → Option (ℕ × V)
  first_ge k [] = none
  first_ge k ((j, w) ∷ t) = if ltb j k then first_ge k t else some (j, w)

  -- The entries with keys from `a` up to `b`, without `b`: `range(a..b)`.
  unfoldable pub range : ℕ → ℕ → Table V → Table V
  range a b [] = []
  range a b ((j, w) ∷ t) =
      let rest = range a b t in if leb a j && ltb j b then (j, w) ∷ rest else rest

  -- The entries with keys from `k` on: `range(k..)`.
  unfoldable pub range_from : ℕ → Table V → Table V
  range_from k [] = []
  range_from k ((j, w) ∷ t) = if ltb j k then range_from k t else (j, w) ∷ t

  -- The keys increase, and none is below `lo`.
  abbrev pub IsSorted : ℕ → Table V → Type 0
  IsSorted lo [] = Unit
  IsSorted lo ((k, v) ∷ t) = (lo ≤ k) × IsSorted (suc k) t

  -- Every key is below `hi`.
  abbrev pub Below : ℕ → Table V → Type 0
  Below hi [] = Unit
  Below hi ((k, v) ∷ t) = (k < hi) × Below hi t

module _ {ℓ} {V : Type ℓ} where
  pub IsSorted-mono : (lo lo' : ℕ) (t : Table V) → lo' ≤ lo → IsSorted lo t → IsSorted lo' t
  IsSorted-mono lo lo' [] h s = tt
  IsSorted-mono lo lo' ((k, v) ∷ t) h s = (omega arith, s.1)

  pub get_below : (k lo : ℕ) (t : Table V) → IsSorted lo t → k < lo → get k t ≡ none
  unfolding get
  get_below k lo [] s h = refl
  get_below k lo ((j, w) ∷ t) s h = ground (arith, get_below k (suc j) t)

  pub get-insert :
      (k j : ℕ) (v : V) (t : Table V) → get j (insert k v t) ≡ (if k == j then some v else get j t)
  unfolding get insert
  get-insert k j v [] = refl
  get-insert k j v ((i, w) ∷ t) = ground (arith, get-insert k j v t)

  pub get-remove :
      (k j lo : ℕ) (t : Table V)
      → IsSorted lo t
      → get j (remove k t) ≡ (if k == j then none else get j t)
  unfolding get remove
  get-remove k j lo [] s = ground arith
  get-remove k j lo ((i, w) ∷ t) s =
      ground (arith, get-remove k j (suc i) t s.1, get_below k (suc i) t s.1)

  pub insert-IsSorted :
      (k lo : ℕ) (v : V) (t : Table V) → lo ≤ k → IsSorted lo t → IsSorted lo (insert k v t)
  unfolding insert
  insert-IsSorted k lo v [] h s = (h, tt)
  insert-IsSorted k lo v ((j, w) ∷ t) h s = ground (arith, insert-IsSorted k (suc j) v t)

  pub remove-IsSorted : (k lo : ℕ) (t : Table V) → IsSorted lo t → IsSorted lo (remove k t)
  unfolding remove
  remove-IsSorted k lo [] s = tt
  remove-IsSorted k lo ((j, w) ∷ t) s =
      ground (arith, remove-IsSorted k (suc j) t s.1, IsSorted-mono (suc j) lo t)

  -- A key above all others goes to the end.
  pub insert_above : (k : ℕ) (v : V) (t : Table V) → Below k t → insert k v t ≡ t ++ (k, v) ∷ []
  unfolding insert
  insert_above k v [] b = refl
  insert_above k v ((j, w) ∷ t) b = ground (arith, insert_above k v t b.1)

  pub Below-append :
      (hi hi' k : ℕ) (v : V) (t : Table V)
      → hi ≤ hi'
      → k < hi'
      → Below hi t
      → Below hi' (t ++ (k, v) ∷ [])
  Below-append hi hi' k v [] h l b = (l, tt)
  Below-append hi hi' k v ((j, w) ∷ t) h l b = (omega arith, Below-append hi hi' k v t h l b.1)

  pub Below-mono : (hi hi' : ℕ) (t : Table V) → hi ≤ hi' → Below hi t → Below hi' t
  Below-mono hi hi' [] h b = tt
  Below-mono hi hi' ((j, w) ∷ t) h b = (omega arith, Below-mono hi hi' t h b.1)

  pub range_from-IsSorted : (k lo : ℕ) (t : Table V) → IsSorted lo t → IsSorted lo (range_from k t)
  unfolding range_from
  range_from-IsSorted k lo [] s = tt
  range_from-IsSorted k lo ((j, w) ∷ t) s =
      ground (arith, range_from-IsSorted k (suc j) t s.1, IsSorted-mono (suc j) lo (range_from k t))

  pub get-range_from :
      (k j lo : ℕ) (t : Table V)
      → IsSorted lo t
      → get j (range_from k t) ≡ (if ltb j k then none else get j t)
  unfolding range_from get
  get-range_from k j lo [] s = ground arith
  get-range_from k j lo ((i, w) ∷ t) s =
      ground (arith, get-range_from k j (suc i) t s.1, get_below j (suc i) t s.1)
