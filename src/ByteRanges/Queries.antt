-- ===== src/ByteRanges/Queries.antt =====
-- `overlaps`, on a range that is not empty.
use realize.Prelude.{
  ℕ, suc, ◌-◌, ◌<◌, ◌≤◌, Bool, true, false, not, ◌&&◌, ◌||◌, ◌≡◌, refl, some, [], ◌∷◌, arith, any,
  inl, inr, le_or_lt, ltb_of_ge,
}
use realize.Prelude.Table.{Table, IsSorted, IsSorted-mono, last_lt, range}
use realize.ByteRange
use realize.ByteRange.{ByteRange}
use realize.ByteRanges.{Point, ByteRanges, single, is_start, overlaps}
use realize.ByteRanges.Covers.{
  opens, covers_from, covers, Alternates, IsValid, Alternates-IsSorted, covers_from_below,
}
use realize.ByteRanges.Add.{single_nonempty, single_lem}
use realize.ByteRanges.Fill.{state, state-is_start}

abbrev starts : ℕ × Point → Bool
starts e = is_start (some e)

-- The test of `overlaps` from any state.
meets : Bool → ℕ → ℕ → Table Point → Bool
meets inside lo hi t = any starts (range lo hi t) || state inside (last_lt lo t)

-- `o` says whether a byte from `lo - 1` up to `hi` is covered.
pub record Tells (lo hi : ℕ) (f : ℕ → Bool) (o : Bool) : Type 0 where
  pub found : o ≡ true → (x : ℕ) × (lo ≤ suc x) × (x < hi) × (f x ≡ true)
  pub clear : o ≡ false → (x : ℕ) → lo ≤ suc x → x < hi → f x ≡ false

range_above : (lo hi : ℕ) (t : Table Point) → IsSorted hi t → any starts (range lo hi t) ≡ false
unfolding range
range_above lo hi [] s = refl
range_above lo hi ((k, p) ∷ t) s = ground (arith, range_above lo hi t, IsSorted-mono (suc k) hi t)

meets_before :
    (inside : Bool) (lo hi k : ℕ) (p : Point) (t : Table Point)
    → k < lo
    → meets inside lo hi ((k, p) ∷ t) ≡ meets (opens p) lo hi t
unfolding meets range last_lt
meets_before inside lo hi k p t h = ground arith

-- Where the list begins at `lo` or later.
meets_from :
    (inside : Bool) (lo hi : ℕ) (t : Table Point)
    → lo < hi
    → (inside ≡ true → 0 < lo)
    → Alternates false inside lo t
    → Tells lo hi (covers_from inside t) (meets inside lo hi t)
unfolding meets range last_lt covers_from is_start
meets_from inside lo hi [] l g w = record { found = λ e. cc; clear = λ e x a b. w }
meets_from true lo hi ((k, p) ∷ t) l g w = record {
  found = λ e. (lo - 1, omega (arith, g refl), omega arith, ground (arith, g refl));
  clear = λ e. ground arith;
}
meets_from false lo hi ((k, Point.end) ∷ t) l g w = cc
meets_from false lo hi ((k, Point.start) ∷ t) l g w = elim (le_or_lt hi k) [
  | inl h ↦ record {
    found = λ e. absurd (
        ground (
          arith,
          range_above lo hi ((k, Point.start) ∷ t)
              (h, Alternates-IsSorted false true (suc k) t w.2),
        ));
    clear = λ e x a b. ground arith;
  }
  | inr h ↦ record {
    found = λ e. (k, omega arith, h, ground (arith, covers_from_below false true (suc k) k t));
    clear = λ e. ground arith;
  }
]

Tells-cons :
    (inside o : Bool) (lo hi k : ℕ) (p : Point) (t : Table Point)
    → k < lo
    → Tells lo hi (covers_from (opens p) t) o
    → Tells lo hi (covers_from inside ((k, p) ∷ t)) o
unfolding covers_from
Tells-cons inside o lo hi k p t h r = record {
  found = λ e. let (x, a, b, c) = r.found e in (x, a, b, ground arith);
  clear = λ e x a b. ground (arith, r.clear e x);
}

meets-Tells :
    (inside : Bool) (least lo hi : ℕ) (t : Table Point)
    → lo < hi
    → (inside ≡ true → 0 < lo)
    → Alternates false inside least t
    → Tells lo hi (covers_from inside t) (meets inside lo hi t)
meets-Tells inside least lo hi [] l g w = meets_from inside lo hi [] l g w
meets-Tells inside least lo hi ((k, p) ∷ t) l g w = elim (le_or_lt lo k) [
  | inl h ↦ meets_from inside lo hi ((k, p) ∷ t) l g (h, w.1, w.2)
  | inr h ↦ rw (meets_before inside lo hi k p t h) (
      Tells-cons inside _ lo hi k p t h
        (rw w.1 (meets-Tells (not inside) (suc k) lo hi t l (λ _. omega arith) w.2)))
]

overlaps-meets :
    (b : ByteRanges) (r : ByteRange)
    → r.start < r.end
    → overlaps b r ≡ some (meets false r.start r.end b.btree)
unfolding overlaps meets
overlaps-meets b r l = rw (ltb_of_ge r.end r.start (omega arith), state-is_start)

-- On a valid set and a range that is not empty, `overlaps` returns true exactly when the set covers
-- a byte of the range or the byte just before the range.
pub overlaps_lem :
    (b : ByteRanges) (r : ByteRange)
    → IsValid b
    → r.start < r.end
    → (o : Bool) × (overlaps b r ≡ some o) × Tells r.start r.end (covers b) o
overlaps_lem b r w l = (
  meets false r.start r.end b.btree,
  overlaps-meets b r l,
  unfold covers in meets-Tells false 0 r.start r.end b.btree l (λ e. cc) w,
)

-- A set that ends where the range begins, and so shares no byte with it, is reported to overlap it,
-- while `ByteRange::overlaps` and the intersection of the two say that they share nothing.
pub overlaps_adjacent :
    (lo mid hi : ℕ)
    → lo < mid
    → mid < hi
    → (overlaps (single lo mid) (ByteRange.new mid hi) ≡ some true)
      × (ByteRange.overlaps (ByteRange.new lo mid) (ByteRange.new mid hi) ≡ false)
      × ((x : ℕ)
          → (covers (single lo mid) x && ByteRange.contains (ByteRange.new mid hi) x) ≡ false)
unfolding overlaps ByteRange.overlaps ByteRange.new ByteRange.contains range last_lt
overlaps_adjacent lo mid hi h l = (
  (rw (single_nonempty lo mid h) (ground arith)),
  ground arith,
  λ x. ground (arith, (single_lem lo mid).same x),
)
