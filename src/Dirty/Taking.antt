-- ===== src/Dirty/Taking.antt =====
-- `take_dirty` takes the path that has been dirty for the longest time.
use realize.Prelude.{
  ℕ, suc, ◌<◌, ◌≡◌, ◌≢◌, ◌↔◌, refl, sym, none, some, [], ◌∷◌, arith, inl, inr, Option-cases,
}
use realize.Prelude.Table
use realize.Prelude.Table.{Table, IsSorted, get_below}
use realize.Prelude.Eq.{
  nat_eq, list_eq, list_beq_iff, Assoc, lookup, delete, Unique, lookup-delete, delete-Unique,
}
use realize.FilePath.{Text, FilePath, parse}
use realize.FilePath.Laws.{parse-some}
use realize.Dirty.{DirtyTables, get_dirty, take_loop, take_dirty}
use realize.Dirty.Invariant.{IsValid}

-- A log with counters from `lo` on, and its dirty table.
record Linked (lo : ℕ) (log : Table Text) (dirty : Assoc Text ℕ) : Type 0 where
  once : Unique dirty
  sorted : IsSorted lo log
  linked : (p : Text) (c : ℕ) → (lookup p dirty ≡ some c) ↔ (Table.get c log ≡ some p)

Linked-pop :
    (lo k : ℕ) (p : Text) (log : Table Text) (dirty : Assoc Text ℕ)
    → Linked lo ((k, p) ∷ log) dirty
    → Linked (suc k) log (delete p dirty)
unfolding Table.get
Linked-pop lo k p log dirty w = record {
  once = delete-Unique p dirty w.once;
  sorted = w.sorted.1;
  linked = λ q c. ground (
    arith,
    lookup-delete p q dirty w.once,
    get_below c (suc k) log w.sorted.1,
    w.linked q c,
    w.linked p k,
    w.linked p c,
    w.linked q k,
    list_beq_iff p q,
  );
}

-- What `take_loop` returns.
abbrev Takes : Table Text → Assoc Text ℕ → FilePath → ℕ → Type 0
Takes log dirty path c =
    let ((log', dirty'), taken) = take_loop log dirty in
    (lookup path.chars dirty ≡ some c)
    × (lookup path.chars dirty' ≡ none)
    × ((q : Text) (d : ℕ) → lookup q dirty' ≡ some d → c < d)
    × ((q : Text) (d : ℕ) → c < d → lookup q dirty ≡ some d → lookup q dirty' ≡ some d)

take_nothing :
    (dirty : Assoc Text ℕ) (path : FilePath) (c : ℕ) → (take_loop [] dirty).1 ≢ some (path, c)
unfolding take_loop
take_nothing dirty path c = λ e. cc

take_skipped :
    (k : ℕ) (p : Text) (log : Table Text) (dirty : Assoc Text ℕ)
    → parse p ≡ none
    → take_loop ((k, p) ∷ log) dirty ≡ take_loop log (delete p dirty)
unfolding take_loop
take_skipped k p log dirty n = rw (take_loop, n) refl

take_found :
    (k : ℕ) (p : Text) (log : Table Text) (dirty : Assoc Text ℕ) (q : FilePath)
    → parse p ≡ some q
    → take_loop ((k, p) ∷ log) dirty ≡ ((log, delete p dirty), some (q, k))
unfolding take_loop
take_found k p log dirty q n = rw (take_loop, n) refl

take_loop-Takes :
    (lo : ℕ) (log : Table Text) (dirty : Assoc Text ℕ) (path : FilePath) (c : ℕ)
    → Linked lo log dirty
    → (take_loop log dirty).1 ≡ some (path, c)
    → Takes log dirty path c
unfolding Table.get
take_loop-Takes lo [] dirty path c w e = absurd (take_nothing dirty path c e)
take_loop-Takes lo ((k, p) ∷ log) dirty path c w e =
    let popped = Linked-pop lo k p log dirty w in
    let left : (q : Text) → _ = λ q. lookup-delete p q dirty w.once in
    let at_k = (w.linked p k).1 (ground arith) in
    elim (Option-cases (parse p)) [
      | inl n ↦
          let (there, gone, later, kept) =
            take_loop-Takes (suc k) log (delete p dirty) path c popped
              (rw (sym (take_skipped k p log dirty n)) e) in
          let above : k < c =
            ground (arith, popped.linked path.chars c, get_below c (suc k) log w.sorted.1) in
          rw (take_skipped k p log dirty n) (
            ground (arith, left path.chars),
            gone,
            later,
            λ q d l g. kept q d l (ground (arith, left q, at_k, list_beq_iff p q)),
          )
      | inr (q, n) ↦
          let same : (q ≡ path) × (k ≡ c) = ground (arith, take_found k p log dirty q n) in
          let text : path.chars ≡ p = cc (same.0, (parse-some p q n).0) in
          rw (take_found k p log dirty q n) (
            cc (text, at_k, same.1),
            ground (arith, left path.chars, text, list_beq_iff p path.chars),
            (λ r d g.
                ground (arith, same.1, popped.linked r d, get_below d (suc k) log w.sorted.1)),
            λ r d l g. ground (arith, same.1, left r, at_k, list_beq_iff p r),
          )
    ]

-- On valid tables, the path that `take_dirty` returns was dirty with the counter returned and is
-- dirty no more, every path still dirty has a greater counter, and every path with a greater counter
-- is still dirty with it.
pub take_dirty_lem :
    (t : DirtyTables) (path : FilePath) (c : ℕ)
    → IsValid t
    → (take_dirty t).1 ≡ some (path, c)
    → (get_dirty t path ≡ some c)
      × (get_dirty (take_dirty t).0 path ≡ none)
      × ((q : FilePath) (d : ℕ) → get_dirty (take_dirty t).0 q ≡ some d → c < d)
      × ((q : FilePath) (d : ℕ)
          → c < d
          → get_dirty t q ≡ some d
          → get_dirty (take_dirty t).0 q ≡ some d)
unfolding take_dirty
take_dirty_lem t path c v e =
    let (there, gone, later, kept) =
      take_loop-Takes 0 t.dirty_log t.dirty path c
        (record { once = v.paths_once; sorted = v.log_sorted; linked = v.linked }) e in
    (there, gone, (λ q. later q.chars), λ q. kept q.chars)
