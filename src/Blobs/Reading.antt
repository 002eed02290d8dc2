-- ===== src/Blobs/Reading.antt =====
-- `Blob::readable_length`: what a read may return, against the bytes that are available.
use realize.Prelude.{
  ℕ, ◌+◌, ◌-◌, ◌≤◌, ◌<◌, min, true, false, ◌||◌, ◌≡◌, Option, none, some, arith, leb, ◌⊎◌, inl, inr,
  Bool-cases, ◌==◌,
}
use realize.ByteRange.{ByteRange, u64_mod}
use realize.ByteRanges.Covers.{covers, IsValid}
use realize.ByteRanges.Lookup.{IsRun, containing_range_lem}
use realize.Blobs.{Blob}
use realize.Blobs.Handle.{readable_length}

-- What `readable_length` may answer for a read of `requested` bytes at `offset`.
pub data Answers (b : Blob) (offset requested : ℕ) : Option ℕ → Type 0 where
  -- nothing was asked for, or the offset is past the end of the file
  nothing_to_read : (requested ≡ 0) ⊎ (b.size ≤ offset) → Answers b offset requested (some 0)
  -- every byte up to there is available, and the next one is not, if fewer than asked for
  readable :
      (n : ℕ)
      → 0 < n
      → n ≤ requested
      → offset < b.size
      → ((x : ℕ) → offset ≤ x → x < offset + n → covers b.available_ranges x ≡ true)
      → (n < requested → covers b.available_ranges (offset + n) ≡ false)
      → Answers b offset requested (some n)
  -- the first byte is not available
  incomplete :
      0 < requested
      → offset < b.size
      → covers b.available_ranges offset ≡ false
      → Answers b offset requested none

readable_run :
    (b : Blob) (offset requested : ℕ) (r : ByteRange)
    → 0 < requested
    → offset < b.size
    → IsRun (covers b.available_ranges) offset r
    → Answers b offset requested (some (min requested (r.end - offset)))
readable_run b offset requested r p l run =
    readable (min requested (r.end - offset)) (ground arith) (ground arith) l
      (λ x a c. run.inside x (omega arith) (ground arith)) (λ h. ground (arith, run.after))

-- A read returns only bytes that are available, and as many of them as it can; it fails if and only if
-- it asks for at least one byte and the byte at the offset is in the file and not available. The size
-- of the file is a `u64`.
pub readable_length-Answers :
    (b : Blob) (offset requested : ℕ)
    → IsValid b.available_ranges
    → b.size < u64_mod
    → Answers b offset requested (readable_length b offset requested)
unfolding readable_length
readable_length-Answers b offset requested w s =
    elim (Bool-cases (requested == 0 || leb b.size offset)) [
      | inl t ↦ rw (readable_length, t) (nothing_to_read (ground arith))
      | inr t ↦
          let p : 0 < requested = ground arith in
          let l : offset < b.size = ground arith in
          let found = containing_range_lem b.available_ranges offset w (omega arith) in
          elim (Bool-cases (covers b.available_ranges offset)) [
            | inl c ↦
                let (r, e, run) = found.0 c in
                rw (readable_length, t, e) (readable_run b offset requested r p l run)
            | inr c ↦ rw (readable_length, t, found.1 c) (incomplete p l c)
          ]
    ]
