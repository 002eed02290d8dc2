-- ===== src/Engine/Jobs.antt =====
-- Which job `next_job` finds, and what a round of `build_jobs` leaves in the tables.
use realize.Prelude.{
  ℕ, suc, ◌<◌, ◌≤◌, ◌&&◌, ◌≡◌, refl, ◌∙◌, Option, none, some, [], ◌∷◌, arith, ltb, leb, inl, inr,
  le_or_lt, Option-cases, Bool-cases,
}
use realize.Prelude.Table
use realize.Prelude.Table.{Table, IsSorted, get_below, range_from-IsSorted, get-range_from}
use realize.Prelude.Eq.{nat_eq, list_eq, lookup}
use realize.Data.{Job}
use realize.FilePath.{Text, FilePath}
use realize.Dirty.{DirtyTables, get_dirty}
use realize.Dirty.Invariant.{IsValid, delete_range-IsValid}
use realize.Dirty.Ranges.{without, delete_range_lem}
use realize.Engine.{ArenaView, build_job, entry_job, next_loop, next_job, collect}

module _ (view : ArenaView) where
  -- The identifier of a job is the counter of its entry.
  entry_job-id : (c : ℕ) (p : Text) (job : ℕ × Job) → entry_job view c p ≡ some job → job.0 ≡ c
  unfolding entry_job build_job
  entry_job-id c p job h = ground arith

  next_none :
      (log : Table Text) (last : Option ℕ)
      → (next_loop view log last).0 ≡ none
      → (c : ℕ) (p : Text) → Table.get c log ≡ some p
      → entry_job view c p ≡ none
  unfolding next_loop Table.get
  next_none [] last h c p e = cc
  next_none ((k, q) ∷ log) last h c p e = ground (arith, next_none log (some k) _ c p)

  next_some :
      (lo : ℕ) (log : Table Text) (last : Option ℕ) (job : ℕ × Job)
      → IsSorted lo log
      → (next_loop view log last).0 ≡ some job
      → ((next_loop view log last).1 ≡ some job.0)
        × (p : Text) × (Table.get job.0 log ≡ some p)
        × (entry_job view job.0 p ≡ some job)
        × ((c : ℕ) (q : Text) → c < job.0 → Table.get c log ≡ some q → entry_job view c q ≡ none)
  unfolding next_loop Table.get
  next_some lo [] last job s h = cc
  next_some lo ((k, q) ∷ log) last job s h = elim (Option-cases (entry_job view k q)) [
    | inl e ↦
        let (found, p, at, made, before) = next_some (suc k) log (some k) job s.1 (ground arith) in
        (
          ground arith,
          p,
          ground (arith, get_below job.0 (suc k) log s.1),
          made,
          λ c r l g. ground (arith, before c r),
        )
    | inr (found, e) ↦
        let id = entry_job-id k q found e in
        (
          ground arith,
          q,
          ground arith,
          ground arith,
          λ c r l g. ground (arith, get_below c (suc k) log s.1),
        )
  ]

  -- The first job at `start` or later, on valid tables: where `next_job` finds a job, it belongs to
  -- an entry of the log at `start` or later, its counter is the last one looked at, and no entry
  -- between has a job. Where it finds none, no entry at `start` or later has one.
  pub next_job_lem :
      (t : DirtyTables) (start : ℕ)
      → IsValid t
      → ((job : ℕ × Job)
          → (next_job view t start).0 ≡ some job
          → ((next_job view t start).1 ≡ some job.0)
            × (start ≤ job.0)
            × (p : Text) × (Table.get job.0 t.dirty_log ≡ some p)
            × (entry_job view job.0 p ≡ some job)
            × ((c : ℕ) (q : Text)
                → start ≤ c
                → c < job.0
                → Table.get c t.dirty_log ≡ some q
                → entry_job view c q ≡ none))
        × ((next_job view t start).0 ≡ none
            → (c : ℕ) (q : Text) → start ≤ c
            → Table.get c t.dirty_log ≡ some q
            → entry_job view c q ≡ none)
  unfolding next_job
  next_job_lem t start v =
      let sorted = range_from-IsSorted start 0 t.dirty_log v.log_sorted in
      let inside : (c : ℕ) → _ = λ c. get-range_from start c 0 t.dirty_log v.log_sorted in
      (
        (λ job h.
            let (found, p, at, made, before) =
              next_some 0 (Table.range_from start t.dirty_log) none job sorted h in
            (
              found,
              ground (arith, inside job.0),
              p,
              ground (arith, inside job.0),
              made,
              λ c q a b g. before c q b (ground (arith, inside c)),
            )),
        λ h c q a g.
            next_none (Table.range_from start t.dirty_log) none h c q (ground (arith, inside c)),
      )

  -- The last entry looked at is an entry with no entry with a job before it.
  next_stops :
      (t : DirtyTables) (start last c : ℕ) (p : Text) (job : ℕ × Job)
      → IsValid t
      → (next_job view t start).1 ≡ some last
      → start ≤ c
      → Table.get c t.dirty_log ≡ some p
      → entry_job view c p ≡ some job
      → last ≤ c
  next_stops t start last c p job v e a g h = elim (Option-cases (next_job view t start).0) [
    | inl n ↦ cc (h, (next_job_lem t start v).1 n c p a g)
    | inr (found, n) ↦
        let (at, lo, q, there, made, before) = (next_job_lem t start v).0 found n in
        elim (le_or_lt last c) [ inl l ↦ l | inr l ↦ cc (h, before c p a (ground arith) g) ]
  ]

  pub collect-IsValid :
      (t : DirtyTables) (start : ℕ) → IsValid t → IsValid (collect view t start).tables
  unfolding collect
  collect-IsValid t start v = elim (Option-cases (next_job view t start).1) [
    | inl e ↦ rw (collect, e) v
    | inr (last, e) ↦ elim (Bool-cases (ltb start last)) [
      | inl l ↦ rw (collect, e, l) (delete_range-IsValid t start last v)
      | inr l ↦ rw (collect, e, l) v
    ]
  ]

  -- What a round does to a path.
  collect_dirty :
      (t : DirtyTables) (start last : ℕ) (path : FilePath)
      → IsValid t
      → (next_job view t start).1 ≡ some last
      → get_dirty (collect view t start).tables path
        ≡ without (λ c. leb start c && ltb c last) (get_dirty t path)
  unfolding collect
  collect_dirty t start last path v e = elim (Bool-cases (ltb start last)) [
    | inl l ↦ rw (collect, e, l) (delete_range_lem t start last path v)
    | inr l ↦
        rw (collect, e, l)
          (elim (Option-cases (lookup path.chars t.dirty)) [
            | inl a ↦ rw a refl
            | inr (c, a) ↦ rw a (ground arith)
          ])
  ]

  collect_job :
      (t : DirtyTables) (start : ℕ) (job : ℕ × Job)
      → (collect view t start).job ≡ some job
      → (next_job view t start).0 ≡ some job
  unfolding collect
  collect_job t start job e = ground arith

  -- A round of collecting jobs takes away no path that has a job: on valid tables it stays dirty
  -- with its counter, whatever the round starts from.
  pub collect_keeps :
      (t : DirtyTables) (start c : ℕ) (path : FilePath) (job : ℕ × Job)
      → IsValid t
      → get_dirty t path ≡ some c
      → entry_job view c path.chars ≡ some job
      → get_dirty (collect view t start).tables path ≡ some c
  collect_keeps t start c path job v e h = elim (Option-cases (next_job view t start).1) [
    | inl n ↦ unfold collect in rw (collect, n) e
    | inr (last, n) ↦
        collect_dirty t start last path v n
        ∙ (rw e (elim (le_or_lt start c) [
          | inl a ↦ ground (
            arith,
            next_stops t start last c path.chars job v n a ((v.linked path.chars c).0 e) h,
          )
          | inr a ↦ ground arith
        ]))
  ]

  -- Where a round finds a job, the paths without a job that it looked at before are dirty no more.
  pub collect_clears :
      (t : DirtyTables) (start c : ℕ) (path : FilePath) (job : ℕ × Job)
      → IsValid t
      → (collect view t start).job ≡ some job
      → get_dirty t path ≡ some c
      → start ≤ c
      → c < job.0
      → get_dirty (collect view t start).tables path ≡ none
  collect_clears t start c path job v e g a b =
      let at = ((next_job_lem t start v).0 job (collect_job t start job e)).0 in
      collect_dirty t start job.0 path v at ∙ (rw g (ground arith))
