-- ===== src/Dirty/Ranges.antt =====
-- Deleting a range of counters, and taking the first dirty path.
use realize.Prelude.{
  ℕ, zero, suc, ◌+◌, ◌-◌, Bool, ◌&&◌, ◌≡◌, refl, ◌∙◌, Option, none, some, arith, inl, inr,
  Option-cases, leb, ltb, ◌==◌, if◌then◌else◌,
}
use realize.Prelude.Table
use realize.Prelude.Table.{Table, IsSorted, get_below}
use realize.Prelude.Eq.{nat_eq, list_eq, lookup}
use realize.FilePath.{Text, FilePath}
use realize.Dirty.{DirtyTables, delete_counter, delete_loop, delete_range, get_dirty}
use realize.Dirty.Invariant.{IsValid, delete_counter-IsValid}
use realize.Dirty.Marking.{forget_lem, unlogged_lem}

-- `keeps q d` is what a path with the counter `c` has left, where the counters in `f` are deleted.
abbrev pub without : (ℕ → Bool) → Option ℕ → Option ℕ
without f none = none
without f (some c) = if f c then none else some c

delete_counter_lem :
    (t : DirtyTables) (counter : ℕ) (q : Text)
    → IsValid t
    → lookup q (delete_counter t counter).dirty ≡ without (λ c. c == counter) (lookup q t.dirty)
unfolding delete_counter
delete_counter_lem t counter q v = elim (Option-cases (lookup q t.dirty)) [
  | inl a ↦ elim (Option-cases (Table.get counter t.dirty_log)) [
    | inl e ↦ rw (delete_counter, e, a) refl
    | inr (p, e) ↦ rw (delete_counter, e) ((forget_lem t counter p q v e).1 (λ h. cc) ∙ (rw a refl))
  ]
  | inr (c, a) ↦ elim (Option-cases (Table.get counter t.dirty_log)) [
    | inl e ↦ rw (delete_counter, e, a) (ground (arith, unlogged_lem t counter q v e))
    | inr (p, e) ↦ rw (delete_counter, e) (ground (arith, forget_lem t counter p q v e))
  ]
]

delete_loop_lem :
    (n beg : ℕ) (t : DirtyTables) (q : Text)
    → IsValid t
    → lookup q (delete_loop n beg t).dirty
      ≡ without (λ c. leb beg c && ltb c (beg + n)) (lookup q t.dirty)
unfolding delete_loop
delete_loop_lem zero beg t q v = elim (Option-cases (lookup q t.dirty)) [
  | inl a ↦ rw a refl
  | inr (c, a) ↦ rw a (ground arith)
]
delete_loop_lem (suc n) beg t q v =
    delete_loop_lem n (suc beg) (delete_counter t beg) q (delete_counter-IsValid t beg v)
    ∙ (rw (delete_counter_lem t beg q v) (elim (Option-cases (lookup q t.dirty)) [
      | inl a ↦ rw a refl
      | inr (c, a) ↦ rw a (ground arith)
    ]))

-- Deleting the counters from `beg` up to `end` clears exactly the paths that have one of them.
pub delete_range_lem :
    (t : DirtyTables) (beg end : ℕ) (q : FilePath)
    → IsValid t
    → get_dirty (delete_range t beg end) q ≡ without (λ c. leb beg c && ltb c end) (get_dirty t q)
unfolding delete_range
delete_range_lem t beg end q v =
    delete_loop_lem (end - beg) beg t q.chars v ∙ (elim (Option-cases (lookup q.chars t.dirty)) [
      | inl a ↦ rw a refl
      | inr (c, a) ↦ rw a (ground arith)
    ])
