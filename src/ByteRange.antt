-- ===== src/ByteRange.antt =====
-- `ByteRange` and `ChunkIterator` of crate/realize-types/src/byterange.rs. Offsets are `u64`; the
-- sums wrap around, as in a release build.
pub mod Laws
pub mod Chunks
use realize.Prelude.{
  ℕ, zero, suc, ◌+◌, ◌-◌, ◌%◌, ◌^◌, min, max, Bool, ◌&&◌, ◌||◌, Option, none, some, List, [], ◌∷◌,
  ltb, leb, ◌==◌, if◌then◌else◌,
}
use mathlib.Core.Option as OptionLib

abbrev pub u64_mod : ℕ
u64_mod = 2 ^ 64

abbrev pub add64 : ℕ → ℕ → ℕ
add64 a b = (a + b) % u64_mod

-- The bytes from `start` up to `end`, without `end`.
pub record ByteRange : Type 0 where
  pub start : ℕ
  pub end : ℕ

unfoldable pub new : ℕ → ℕ → ByteRange
new start end = record { start = start; end = end }

unfoldable pub new_with_size : ℕ → ℕ → ByteRange
new_with_size start size = record { start = start; end = add64 start size }

unfoldable pub zero_len : ℕ → ByteRange
zero_len start = record { start = start; end = start }

unfoldable pub empty : ByteRange
empty = record { start = 0; end = 0 }

unfoldable pub is_empty : ByteRange → Bool
is_empty r = leb r.end r.start

-- `saturating_sub` stops at 0, as `-` does.
unfoldable pub bytecount : ByteRange → ℕ
bytecount r = r.end - r.start

unfoldable pub overlaps : ByteRange → ByteRange → Bool
overlaps r other = ltb r.start other.end && ltb other.start r.end

unfoldable pub intersection : ByteRange → ByteRange → ByteRange
unfolding empty
intersection r other =
    let start = max r.start other.start in
    let end = min r.end other.end in
    if leb end start then empty else record { start = start; end = end }

unfoldable pub span : ByteRange → ByteRange → ByteRange
span r other = record { start = min r.start other.start; end = max r.end other.end }

unfoldable pub contains : ByteRange → ℕ → Bool
contains r val = leb r.start val && ltb val r.end

pub record ChunkIterator : Type 0 where
  pub offset : ℕ
  pub total : ℕ
  pub chunk_size : ℕ

unfoldable pub chunked : ByteRange → ℕ → ChunkIterator
chunked r chunk_size = record { offset = r.start; total = r.end; chunk_size = chunk_size }

-- The end of the chunk at the iterator's offset.
unfoldable pub chunk_end : ChunkIterator → ℕ
chunk_end it = let end = add64 it.offset it.chunk_size in if ltb it.total end then it.total else end

-- The item, and the iterator that is left.
unfoldable pub next : ChunkIterator → Option (ByteRange × ChunkIterator)
unfolding chunk_end new
next it =
    if it.chunk_size == 0 || leb it.total it.offset
    then none
    else some (new it.offset (chunk_end it), record it { offset = chunk_end it })

-- All the items, as `collect()` gathers them; `none` means that the fuel ran out.
unfoldable pub collect : ℕ → ChunkIterator → Option (List ByteRange)
collect zero it = none
collect (suc fuel) it = elim (next it) [
  | none ↦ some []
  | some (r, it') ↦ OptionLib.map (λ rs. r ∷ rs) (collect fuel it')
]
