-- ===== src/ByteRange/Chunks.antt =====
-- Chunking a range: termination and the shape of the chunks.
use realize.Prelude.{
  ℕ, zero, suc, ◌+◌, ◌-◌, ◌<◌, ◌≤◌, min, ◌≡◌, refl, ◌&&◌, none, some, List, [], ◌∷◌, arith, any,
  ltb, leb, inl, inr, le_or_lt,
}
use realize.ByteRange.{
  ByteRange, ChunkIterator, new, contains, chunked, chunk_end, next, collect, u64_mod,
}

-- The ranges follow one another from `lo` to `hi`; each has `size` bytes, but the last may be cut
-- at `hi`.
abbrev pub Tiles : ℕ → ℕ → ℕ → List ByteRange → Type 0
Tiles size lo hi [] = hi ≤ lo
Tiles size lo hi (r ∷ rs) =
    (lo < hi) × (r.start ≡ lo) × (r.end ≡ min (lo + size) hi) × Tiles size r.end hi rs

chunk_end-eq-min :
    (it : ChunkIterator)
    → it.total + it.chunk_size < u64_mod
    → it.offset < it.total
    → chunk_end it ≡ min (it.offset + it.chunk_size) it.total
unfolding chunk_end
chunk_end-eq-min it h k = ground arith

next_more :
    (it : ChunkIterator)
    → 0 < it.chunk_size
    → it.offset < it.total
    → next it ≡ some (new it.offset (chunk_end it), record it { offset = chunk_end it })
unfolding next
next_more it c k = ground arith

next_done : (it : ChunkIterator) → it.total ≤ it.offset → next it ≡ none
unfolding next
next_done it k = ground arith

collect-Tiles :
    (fuel : ℕ) (it : ChunkIterator)
    → it.total - it.offset < fuel
    → 0 < it.chunk_size
    → it.total + it.chunk_size < u64_mod
    → (rs : List ByteRange) × (collect fuel it ≡ some rs)
      × Tiles it.chunk_size it.offset it.total rs
unfolding collect new
collect-Tiles zero it f c b = elim f [ ]
collect-Tiles (suc fuel) it f c b = elim (le_or_lt it.total it.offset) [
  | inl k ↦ ([], (rw (next_done it k, collect)), k)
  | inr k ↦
      let e = chunk_end-eq-min it b k in
      let (rs, run, tiles) =
        collect-Tiles fuel (record it { offset = chunk_end it }) (omega (arith, e)) c b in
      (
        new it.offset (chunk_end it) ∷ rs,
        (rw (next_more it c k, collect) (rw run)),
        (k, refl, e, tiles),
      )
]

-- A range cut into chunks of a positive size, where end plus size fits in a `u64`: with fuel for
-- one step more than the range has bytes the iterator runs to its end, and the chunks follow one
-- another from the range's start to its end, all of the given size but the last one.
pub chunked-Tiles :
    (fuel : ℕ) (r : ByteRange) (size : ℕ)
    → r.end - r.start < fuel
    → 0 < size
    → r.end + size < u64_mod
    → (rs : List ByteRange) × (collect fuel (chunked r size) ≡ some rs)
      × Tiles size r.start r.end rs
unfolding chunked
chunked-Tiles fuel r size f c b = collect-Tiles fuel (chunked r size) f c b

-- Every tile list holds exactly the bytes from `lo` to `hi`.
Tiles-contains :
    (size lo hi x : ℕ) (rs : List ByteRange)
    → Tiles size lo hi rs
    → any (λ r. contains r x) rs ≡ (leb lo x && ltb x hi)
unfolding contains
Tiles-contains size lo hi x [] t = ground arith
Tiles-contains size lo hi x (r ∷ rs) t = ground (arith, Tiles-contains size r.end hi x rs t.3)

-- Whatever list the chunk iterator yields, a byte lies in one of the chunks exactly when it lies
-- in the range, for a positive chunk size that does not overflow.
pub contains-chunked :
    (fuel : ℕ) (r : ByteRange) (size x : ℕ)
    → r.end - r.start < fuel
    → 0 < size
    → r.end + size < u64_mod
    → (rs : List ByteRange) × (collect fuel (chunked r size) ≡ some rs)
      × (any (λ c. contains c x) rs ≡ contains r x)
contains-chunked fuel r size x f c b =
    let (rs, run, tiles) = chunked-Tiles fuel r size f c b in
    (rs, run, unfold contains in Tiles-contains size r.start r.end x rs tiles)
