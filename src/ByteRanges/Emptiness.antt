-- ===== src/ByteRanges/Emptiness.antt =====
-- `ByteRanges::is_empty` against the bytes of the set.
use realize.Prelude.{ℕ, suc, true, false, ◌≡◌, refl, [], ◌∷◌, arith}
use realize.Prelude.Table.{Table}
use realize.ByteRanges.{ByteRanges, Point, is_empty}
use realize.ByteRanges.Covers.{covers, covers_from, IsValid, Alternates, covers_from_below}

no_points :
    (t : Table Point) (x : ℕ)
    → is_empty (record { btree = t }) ≡ true
    → covers_from false t x ≡ false
unfolding is_empty covers_from
no_points [] x h = refl
no_points (p ∷ t) x h = cc

pub is_empty-covers : (r : ByteRanges) (x : ℕ) → is_empty r ≡ true → covers r x ≡ false
unfolding is_empty covers
is_empty-covers r x h = no_points r.btree x h

first_point :
    (t : Table Point)
    → Alternates false false 0 t
    → is_empty (record { btree = t }) ≡ false
    → (x : ℕ) × (covers_from false t x ≡ true)
unfolding is_empty covers_from
first_point [] w h = cc
first_point ((k, p) ∷ t) w h =
    (k, (rw (w.1) (ground (arith, covers_from_below false true (suc k) k t (omega arith) w.2))))

-- A set with a point has a byte.
pub a_byte : (r : ByteRanges) → IsValid r → is_empty r ≡ false → (x : ℕ) × (covers r x ≡ true)
unfolding is_empty covers
a_byte r w h = first_point r.btree w h
