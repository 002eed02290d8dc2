-- ===== src/ByteRanges/Covers.antt =====
-- What a `ByteRanges` stands for: the set of bytes that it covers, read off its points in order, and
-- the shape that every operation keeps, starts and ends in turn at increasing keys.
use realize.Prelude.{
  ℕ, suc, ◌<◌, ◌≤◌, Bool, true, false, not, ◌≡◌, refl, [], ◌∷◌, arith, ltb, if◌then◌else◌,
}
use realize.Prelude.Table.{Table, IsSorted}
use realize.ByteRanges.{Point, ByteRanges}

abbrev pub opens : Point → Bool
opens Point.start = true
opens Point.end = false

-- Whether the byte `x` lies in the set, if the bytes before the first point do by `inside`.
unfoldable pub covers_from : Bool → Table Point → ℕ → Bool
covers_from inside [] x = inside
covers_from inside ((k, p) ∷ t) x = if ltb x k then inside else covers_from (opens p) t x

unfoldable pub covers : ByteRanges → ℕ → Bool
unfolding covers_from
covers b x = covers_from false b.btree x

-- From the state `inside` each point changes the state, the keys increase from `lo` on, and the
-- last state is `fin`.
abbrev pub Alternates : Bool → Bool → ℕ → Table Point → Type 0
Alternates fin inside lo [] = inside ≡ fin
Alternates fin inside lo ((k, p) ∷ t) =
    (lo ≤ k) × (opens p ≡ not inside) × Alternates fin (not inside) (suc k) t

-- The representation invariant.
abbrev pub IsValid : ByteRanges → Type 0
IsValid b = Alternates false false 0 b.btree

pub Alternates-IsSorted :
    (fin inside : Bool) (lo : ℕ) (t : Table Point) → Alternates fin inside lo t → IsSorted lo t
Alternates-IsSorted fin inside lo [] w = tt
Alternates-IsSorted fin inside lo ((k, p) ∷ t) w =
    (w.0, Alternates-IsSorted fin (not inside) (suc k) t w.2)

pub Alternates-mono :
    (fin inside : Bool) (lo lo' : ℕ) (t : Table Point)
    → lo' ≤ lo
    → Alternates fin inside lo t
    → Alternates fin inside lo' t
Alternates-mono fin inside lo lo' [] h w = w
Alternates-mono fin inside lo lo' ((k, p) ∷ t) h w = (omega arith, w.1, w.2)

-- Before the first point the state is the one at the start.
pub covers_from_below :
    (fin inside : Bool) (lo x : ℕ) (t : Table Point)
    → x < lo
    → Alternates fin inside lo t
    → covers_from inside t x ≡ inside
unfolding covers_from
covers_from_below fin inside lo x [] h w = refl
covers_from_below fin inside lo x ((k, p) ∷ t) h w = ground arith
