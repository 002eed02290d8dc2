-- ===== src/ByteRanges/Sweep.antt =====
-- The loops of `union`, `intersection` and `subtraction` in one form: `sweep t` keeps a point where
-- the depth passes the threshold `t`.
use realize.Prelude.{
  ℕ, suc, ◌+◌, ◌-◌, ◌<◌, ◌≤◌, Bool, true, false, not, ◌&&◌, ◌||◌, ◌≡◌, refl, ◌∙◌, [], ◌∷◌, arith,
  ltb, leb, if◌then◌else◌, inl, inr, Bool-cases,
}
use realize.Prelude.Table.{Table}
use realize.ByteRanges.{Point}
use realize.ByteRanges.Covers.{opens, covers_from, Alternates, Alternates-mono}

abbrev pub bit : Bool → ℕ
bit true = 1
bit false = 0

abbrev pub after : Point → ℕ → ℕ
after Point.start d = suc d
after Point.end d = d - 1

-- One of two depths is below the threshold and the other is not.
abbrev pub passes : ℕ → ℕ → ℕ → Bool
passes t d d' = (leb t d && ltb d' t) || (leb t d' && ltb d t)

-- The points that a loop with threshold `t` inserts, from the depth `d` on.
unfoldable pub sweep : ℕ → ℕ → Table Point → Table Point
sweep t d [] = []
sweep t d ((k, p) ∷ m) =
    let rest = sweep t (after p d) m in if passes t d (after p d) then (k, p) ∷ rest else rest

-- The depth stays from 0 to 2, and ends at `fin`.
abbrev pub Bounded : ℕ → ℕ → Table Point → Type 0
Bounded fin d [] = d ≡ fin
Bounded fin d ((k, p) ∷ m) =
    (d + bit (opens p) < 3) × (0 < d + bit (opens p)) × Bounded fin (after p d) m

-- What the swept points cover, one point at a time.
pub sweep_before :
    (t d k x : ℕ) (p : Point) (m : Table Point)
    → x < k
    → covers_from (leb t (after p d)) (sweep t (after p d) m) x ≡ leb t (after p d)
    → covers_from (leb t d) (sweep t d ((k, p) ∷ m)) x ≡ leb t d
unfolding covers_from sweep
sweep_before t d k x Point.start m h e = ground arith
sweep_before t d k x Point.end m h e = ground arith

pub sweep_after :
    (t d k x : ℕ) (p : Point) (m : Table Point)
    → k ≤ x
    → 0 < t
    → 0 < d + bit (opens p)
    → covers_from (leb t d) (sweep t d ((k, p) ∷ m)) x
      ≡ covers_from (leb t (after p d)) (sweep t (after p d) m) x
unfolding covers_from sweep
sweep_after t d k x Point.start m h g e = ground arith
sweep_after t d k x Point.end m h g e = ground arith

pub sweep_nil : (t d : ℕ) → sweep t d [] ≡ []
unfolding sweep
sweep_nil t d = refl

pub sweep_emit :
    (t d k : ℕ) (p : Point) (m : Table Point)
    → passes t d (after p d) ≡ true
    → sweep t d ((k, p) ∷ m) ≡ (k, p) ∷ sweep t (after p d) m
unfolding sweep
sweep_emit t d k p m e = rw e

pub sweep_keep :
    (t d k : ℕ) (p : Point) (m : Table Point)
    → passes t d (after p d) ≡ false
    → sweep t d ((k, p) ∷ m) ≡ sweep t (after p d) m
unfolding sweep
sweep_keep t d k p m e = rw e

passes-state :
    (t d : ℕ) (p : Point)
    → 0 < d + bit (opens p)
    → passes t d (after p d) ≡ true
    → (opens p ≡ not (leb t d)) × (leb t (after p d) ≡ not (leb t d))
passes-state t d Point.start e h = ground arith
passes-state t d Point.end e h = ground arith

keeps-state : (t d d' : ℕ) → passes t d d' ≡ false → leb t d' ≡ leb t d
keeps-state t d d' h = ground arith

passes_once :
    (t d : ℕ) (p : Point)
    → 0 < d + bit (opens p)
    → passes t d (after p d) ≡ true
    → passes t (after p d) (after p (after p d)) ≡ false
passes_once t d Point.start e h = ground arith
passes_once t d Point.end e h = ground arith

pub sweep-Alternates :
    (fin t d lo k : ℕ) (p : Point) (m : Table Point)
    → lo ≤ k
    → 0 < d + bit (opens p)
    → Alternates (leb t fin) (leb t (after p d)) (suc k) (sweep t (after p d) m)
    → Alternates (leb t fin) (leb t d) lo (sweep t d ((k, p) ∷ m))
sweep-Alternates fin t d lo k p m l e w = elim (Bool-cases (passes t d (after p d))) [
  | inl h ↦
      let (flips, state) = passes-state t d p e h in
      rw (sweep_emit t d k p m h) (l, flips, (rw state at w))
  | inr h ↦ rw (sweep_keep t d k p m h) (
      Alternates-mono (leb t fin) (leb t d) (suc k) lo (sweep t (after p d) m) (omega arith)
        (rw (keeps-state t d (after p d) h) at w))
]

-- Two equal points in a row: the depth passes the threshold at one of them at most.
pub sweep-Alternates_twice :
    (fin t d lo k : ℕ) (p : Point) (m : Table Point)
    → lo ≤ k
    → 0 < d + bit (opens p)
    → 0 < after p d + bit (opens p)
    → Alternates (leb t fin) (leb t (after p (after p d))) (suc k) (sweep t (after p (after p d)) m)
    → Alternates (leb t fin) (leb t d) lo (sweep t d ((k, p) ∷ (k, p) ∷ m))
sweep-Alternates_twice fin t d lo k p m l e f w = elim (Bool-cases (passes t d (after p d))) [
  | inl h ↦
      let (flips, state) = passes-state t d p e h in
      let once = passes_once t d p e h in
      rw (sweep_emit t d k p ((k, p) ∷ m) h, sweep_keep t (after p d) k p m once)
        (l, flips, (rw (keeps-state t (after p d) (after p (after p d)) once ∙ state) at w))
  | inr h ↦
      rw (sweep_keep t d k p ((k, p) ∷ m) h, ← keeps-state t d (after p d) h)
        (sweep-Alternates fin t (after p d) lo k p m l f w)
]
