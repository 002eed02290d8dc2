-- ===== src/Blobs/Availability.antt =====
-- `local_availability`: how much of a file is in its blob, against the bytes of the file.
use realize.Prelude.{
  ℕ, ◌<◌, Bool, true, false, ◌≡◌, ◌↔◌, ap, Option, none, some, [], ◌∷◌, arith, inl, inr, Bool-cases,
  ==_iff,
}
use realize.Prelude.Table.{Table}
use realize.ByteRanges
use realize.ByteRanges.{ByteRanges, Point, same_point}
use realize.ByteRanges.Covers.{covers, IsValid}
use realize.ByteRanges.SetOps.{intersection_lem}
use realize.ByteRanges.Add.{single_lem}
use realize.ByteRanges.Canonical.{covers-injective}
use realize.ByteRanges.Emptiness.{is_empty-covers, a_byte}
use realize.Data.{Hash, Hash_eq}
use realize.Engine.{LocalAvailability, missing, complete, verified, partial}
use realize.Blobs.{BlobTableEntry, same_points, has_hash, availability_of}

same_point_iff : (p q : Point) → (same_point p q ≡ true) ↔ (p ≡ q)
unfolding same_point
same_point_iff Point.start Point.start = ground arith
same_point_iff Point.start Point.end = ground arith
same_point_iff Point.end Point.start = ground arith
same_point_iff Point.end Point.end = ground arith

same_points_iff : (s t : Table Point) → (same_points s t ≡ true) ↔ (s ≡ t)
unfolding same_points
same_points_iff [] [] = ground arith
same_points_iff [] (q ∷ t) = ground arith
same_points_iff (p ∷ s) [] = ground arith
same_points_iff ((j, p) ∷ s) ((k, q) ∷ t) =
    ground (arith, ==_iff j k, same_point_iff p q, same_points_iff s t)

-- The whole file is in the blob.
abbrev pub Holds : ℕ → BlobTableEntry → Type 0
Holds size e = (x : ℕ) → x < size → covers e.written_areas x ≡ true

-- The test of `local_availability`.
abbrev pub is_complete : ℕ → BlobTableEntry → Bool
is_complete size e =
    let file_range = ByteRanges.single 0 size in
    same_points file_range.btree (ByteRanges.intersection file_range e.written_areas).btree

is_complete_iff :
    (size : ℕ) (e : BlobTableEntry)
    → IsValid e.written_areas
    → (is_complete size e ≡ true) ↔ Holds size e
is_complete_iff size e w =
    let f = single_lem 0 size in
    let i = intersection_lem (ByteRanges.single 0 size) e.written_areas f.valid w in
    let test =
      same_points_iff (ByteRanges.single 0 size).btree
        (ByteRanges.intersection (ByteRanges.single 0 size) e.written_areas).btree in
    (
      (λ h x l.
          let same : covers (ByteRanges.single 0 size) x
              ≡ covers (ByteRanges.intersection (ByteRanges.single 0 size) e.written_areas) x =
            ap (λ t. covers (record { btree = t }) x) (test.0 h) in
          ground (arith, same, f.same x, i.same x)),
      λ h. test.1 (
          ap (λ (r : ByteRanges). r.btree)
            (covers-injective (ByteRanges.single 0 size)
              (ByteRanges.intersection (ByteRanges.single 0 size) e.written_areas) f.valid i.valid
              (λ x. ground (arith, f.same x, i.same x, h x)))),
    )

pub has_hash_iff : (o : Option Hash) (h : Hash) → (has_hash o h ≡ true) ↔ (o ≡ some h)
unfolding has_hash
has_hash_iff none h = ground arith
has_hash_iff (some g) h =
    ((λ e. ap some ((Hash_eq.beq_iff g h).0 e)), λ e. (Hash_eq.beq_iff g h).1 (cc))

-- What each answer says of the bytes of the file.
pub data Tells (size : ℕ) (h : Hash) (e : BlobTableEntry) : LocalAvailability → Type 0 where
  tells_verified : Holds size e → e.content_hash ≡ some h → Tells size h e verified
  tells_complete : Holds size e → (e.content_hash ≡ some h → ⊥) → Tells size h e complete
  tells_missing :
      (Holds size e → ⊥) → ((x : ℕ) → covers e.written_areas x ≡ false) → Tells size h e missing
  tells_partial :
      (Holds size e → ⊥)
      → (x : ℕ) → covers e.written_areas x ≡ true
      → Tells size h e (partial size e.written_areas)

-- The answer is verified or complete if and only if every byte of the file was written, verified
-- if and only if moreover the content hash is the hash of the file; else it is missing if no byte
-- was written, and partial if one was.
pub availability_of-Tells :
    (size : ℕ) (h : Hash) (e : BlobTableEntry)
    → IsValid e.written_areas
    → Tells size h e (availability_of size h e)
unfolding availability_of
availability_of-Tells size h e w =
    let t = is_complete_iff size e w in
    let g = has_hash_iff e.content_hash h in
    elim (Bool-cases (is_complete size e)) [
      | inl c ↦ elim (Bool-cases (has_hash e.content_hash h)) [
        | inl m ↦ rw (availability_of, c, m) (tells_verified (t.0 c) (g.0 m))
        | inr m ↦ rw (availability_of, c, m) (tells_complete (t.0 c) (λ q. cc (g.1 q, m)))
      ]
      | inr c ↦ elim (Bool-cases (ByteRanges.is_empty e.written_areas)) [
        | inl n ↦
            rw (availability_of, c, n)
              (tells_missing (λ q. cc (t.1 q, c)) (λ x. is_empty-covers e.written_areas x n))
        | inr n ↦
            let b = a_byte e.written_areas w n in
            rw (availability_of, c, n) (tells_partial (λ q. cc (t.1 q, c)) b.0 b.1)
      ]
    ]
