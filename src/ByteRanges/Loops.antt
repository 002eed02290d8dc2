-- ===== src/ByteRanges/Loops.antt =====
-- The three loops run as sweeps: their depth never leaves 0 to 2, so no `debug_assert!` fails, and
-- each insertion goes to the end of the result.
use mathlib.Core.List.{append_assoc, append-nil}
use realize.Prelude.{
  ℕ, suc, ◌-◌, ◌<◌, Bool, true, ◌||◌, ◌≡◌, ◌∙◌, [], ◌∷◌, ◌++◌, arith, ◌==◌, ◌⊎◌, inl, inr,
  Bool-cases, if◌then◌else◌,
}
use realize.Prelude.Table.{Table, IsSorted, Below, insert, insert_above, Below-append, Below-mono}
use realize.ByteRanges.{Point, Swept, union_loop, intersection_loop, subtraction_loop}
use realize.ByteRanges.Sweep.{after, passes, sweep, sweep_nil, sweep_emit, sweep_keep, Bounded}

-- The result of a loop with threshold `t`.
pub gather : ℕ → Table Point → Table Point → ℕ → Table Point
gather t [] acc d = acc
gather t ((k, p) ∷ m) acc d =
    gather t m (if passes t d (after p d) then insert k p acc else acc) (after p d)

pub gather-sweep :
    (t lo d : ℕ) (m acc : Table Point)
    → IsSorted lo (sweep t d m)
    → Below lo acc
    → gather t m acc d ≡ acc ++ sweep t d m
unfolding gather
gather-sweep t lo d [] acc s b = rw (sweep_nil t d, append-nil)
gather-sweep t lo d ((k, p) ∷ m) acc s b = elim (Bool-cases (passes t d (after p d))) [
  | inl h ↦
      let s' = rw (sweep_emit t d k p m h) at s in
      rw (h, insert_above k p acc (Below-mono lo k acc s'.0 b), sweep_emit t d k p m h)
        (gather-sweep t (suc k) (after p d) m (acc ++ (k, p) ∷ []) s'.1
            (Below-append lo (suc k) k p acc (omega arith) (omega arith) b)
          ∙ append_assoc acc ((k, p) ∷ []) (sweep t (after p d) m))
  | inr h ↦
      rw (h, sweep_keep t d k p m h)
        (gather-sweep t lo (after p d) m acc (rw (sweep_keep t d k p m h) at s) b)
]

abbrev pub swept : Table Point → ℕ → Bool → Swept
swept m d held = record { btree = m; depth = d; held = held }

pub union_loop-gather :
    (fin d : ℕ) (held : Bool) (m acc : Table Point)
    → Bounded fin d m
    → union_loop m acc d held ≡ swept (gather 1 m acc d) fin held
unfolding union_loop gather
union_loop-gather fin d held [] acc b = ground arith
union_loop-gather fin d held ((k, Point.start) ∷ m) acc b = ground (
  arith,
  union_loop-gather fin (suc d) held m
      (if passes 1 d (suc d) then insert k Point.start acc else acc) b.2,
)
union_loop-gather fin d held ((k, Point.end) ∷ m) acc b = ground (
  arith,
  union_loop-gather fin (d - 1) held m (if passes 1 d (d - 1) then insert k Point.end acc else acc)
      b.2,
)

pub intersection_loop-gather :
    (fin d : ℕ) (held : Bool) (m acc : Table Point)
    → Bounded fin d m
    → intersection_loop m acc d held ≡ swept (gather 2 m acc d) fin held
unfolding intersection_loop gather
intersection_loop-gather fin d held [] acc b = ground arith
intersection_loop-gather fin d held ((k, Point.start) ∷ m) acc b = ground (
  arith,
  intersection_loop-gather fin (suc d) held m
      (if passes 2 d (suc d) then insert k Point.start acc else acc) b.2,
)
intersection_loop-gather fin d held ((k, Point.end) ∷ m) acc b = ground (
  arith,
  intersection_loop-gather fin (d - 1) held m
      (if passes 2 d (d - 1) then insert k Point.end acc else acc) b.2,
)

-- `started` is true whenever the depth is 2.
pub subtraction_loop-gather :
    (fin d : ℕ) (started held : Bool) (m acc : Table Point)
    → (started ≡ true) ⊎ (d < 2)
    → Bounded fin d m
    → subtraction_loop m acc d started held ≡ swept (gather 2 m acc d) fin held
unfolding subtraction_loop gather
subtraction_loop-gather fin d started held [] acc o b = ground arith
subtraction_loop-gather fin d started held ((k, Point.start) ∷ m) acc o b = ground (
  arith,
  subtraction_loop-gather fin (suc d) (started || suc d == 2) held m
      (if passes 2 d (suc d) then insert k Point.start acc else acc) (ground arith) b.2,
)
subtraction_loop-gather fin d started held ((k, Point.end) ∷ m) acc o b = ground (
  arith,
  subtraction_loop-gather fin (d - 1) started held m
      (if passes 2 d (d - 1) then insert k Point.end acc else acc) (ground arith) b.2,
)
