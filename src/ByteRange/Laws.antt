-- ===== src/ByteRange/Laws.antt =====
-- The operations on one range, by the bytes that they hold.
use realize.Prelude.{ℕ, ◌<◌, ◌≤◌, ◌≡◌, ◌↔◌, true, false, not, ◌&&◌, arith}
use realize.ByteRange.{ByteRange, zero_len, empty, is_empty, overlaps, intersection, span, contains}

-- The intersection of two ranges holds exactly the bytes that both hold, empty or inverted
-- ranges included.
pub contains-intersection :
    (a b : ByteRange) (x : ℕ) → contains (intersection a b) x ≡ (contains a x && contains b x)
unfolding contains intersection
contains-intersection a b x = ground arith

-- Two ranges that are not empty overlap exactly when their intersection is not empty.
pub overlaps-eq-intersection :
    (a b : ByteRange)
    → is_empty a ≡ false
    → is_empty b ≡ false
    → overlaps a b ≡ not (is_empty (intersection a b))
unfolding overlaps is_empty intersection
overlaps-eq-intersection a b ha hb = ground arith

-- An empty range placed strictly inside another one is reported to overlap it, though their
-- intersection is empty.
pub overlaps-zero_len :
    (p : ℕ) (r : ByteRange)
    → r.start < p
    → p < r.end
    → (overlaps (zero_len p) r ≡ true) × (intersection (zero_len p) r ≡ empty)
unfolding overlaps zero_len intersection
overlaps-zero_len p r h k = ground arith

-- The span of two ranges that are not empty is the least range that holds every byte of both:
-- any range that contains them contains it.
pub span_least :
    (a b c : ByteRange)
    → is_empty a ≡ false
    → is_empty b ≡ false
    → ((c.start ≤ (span a b).start) × ((span a b).end ≤ c.end))
      ↔ (((c.start ≤ a.start) × (a.end ≤ c.end)) × ((c.start ≤ b.start) × (b.end ≤ c.end)))
unfolding span is_empty
span_least a b c ha hb = ground arith
