-- ===== src/Dirty/Marking.antt =====
-- What marking a path dirty and finishing its job do to the dirty paths.
use realize.Prelude.{
  ℕ, suc, ◌+◌, ◌<◌, ◌≡◌, ◌≢◌, refl, Option, none, some, arith, inl, inr, Option-cases,
}
use realize.Prelude.Table
use realize.Prelude.Table.{Table, get-insert, get-remove, insert-IsSorted}
use realize.Prelude.Eq.{nat_eq, list_eq, list_beq_iff, lookup, lookup-put, lookup-delete}
use realize.ByteRange.{u64_mod}
use realize.Data.{JobStatus, done, abandoned}
use realize.FilePath.{Text, FilePath}
use realize.Dirty.{
  DirtyTables, UnixTime, last_counter, mark_dirty, forget, job_done, job_failed, job_finished,
  next_failure, stored_time, clear_dirty, get_dirty,
}
use realize.Dirty.Invariant.{IsValid, next_counter}

-- Marking a path dirty gives it a counter greater than any given out before, without a failure,
-- whether or not it was dirty, and leaves the other paths as they are.
pub mark_dirty_lem :
    (t : DirtyTables) (path : FilePath)
    → last_counter t + 1 < u64_mod
    → IsValid t
    → let (t', counter) = mark_dirty t path in
      (last_counter t < counter)
      × (get_dirty t' path ≡ some counter)
      × (Table.get counter t'.failed_job ≡ none)
      × ((q : FilePath) → q.chars ≢ path.chars → get_dirty t' q ≡ get_dirty t q)
unfolding mark_dirty
mark_dirty_lem t path h v =
    let l = last_counter t in
    let unlogged = v.failed_logged (suc l) (v.given (suc l) (omega arith)) in
    let failed = λ (c : ℕ). get-remove c (suc l) 0 t.failed_job v.failed_sorted in
    rw (next_counter t h) (
      omega arith,
      ground (
        arith,
        lookup-put path.chars path.chars (suc l) t.dirty,
        list_beq_iff path.chars path.chars,
      ),
      (elim (Option-cases (lookup path.chars t.dirty)) [
        | inl e ↦ rw (mark_dirty, e) unlogged
        | inr (c, e) ↦ rw (mark_dirty, e) (ground (arith, failed c, unlogged))
      ]),
      λ q d.
          ground
            (arith, lookup-put path.chars q.chars (suc l) t.dirty, list_beq_iff path.chars q.chars),
    )

-- The old counter of a path that is marked again leaves the log.
marked_away :
    (t : DirtyTables) (path : FilePath) (c : ℕ)
    → last_counter t + 1 < u64_mod
    → IsValid t
    → lookup path.chars t.dirty ≡ some c
    → Table.get c (mark_dirty t path).0.dirty_log ≡ none
unfolding mark_dirty
marked_away t path c h v e =
    let sorted =
      insert-IsSorted (suc (last_counter t)) 0 path.chars t.dirty_log (omega arith) v.log_sorted in
    rw (mark_dirty, e, next_counter t h) (ground (arith, get-remove c c 0 _ sorted))

-- Reporting a job whose counter is not in the log changes nothing.
finished_unlogged :
    (strategy : ℕ → Option ℕ) (now : UnixTime) (status : Option JobStatus) (t : DirtyTables) (c : ℕ)
    → Table.get c t.dirty_log ≡ none
    → job_finished strategy now t c status ≡ t
unfolding job_finished job_done job_failed
finished_unlogged strategy now (some done) t c e = rw (job_done, e) refl
finished_unlogged strategy now (some abandoned) t c e = rw (job_done, e) refl
finished_unlogged strategy now none t c e = ground arith

-- Once a path is marked dirty again, reporting its old job, with any outcome, changes nothing.
pub mark_dirty-job_finished :
    (strategy : ℕ → Option ℕ) (now : UnixTime) (status : Option JobStatus) (t : DirtyTables)
    (path : FilePath) (c : ℕ)
    → last_counter t + 1 < u64_mod
    → IsValid t
    → get_dirty t path ≡ some c
    → job_finished strategy now (mark_dirty t path).0 c status ≡ (mark_dirty t path).0
mark_dirty-job_finished strategy now status t path c h v e =
    finished_unlogged strategy now status (mark_dirty t path).0 c (marked_away t path c h v e)

-- Forgetting a counter of the log clears exactly the path that has it.
pub forget_lem :
    (t : DirtyTables) (c : ℕ) (p q : Text)
    → IsValid t
    → Table.get c t.dirty_log ≡ some p
    → (lookup q t.dirty ≡ some c → lookup q (forget t c p).dirty ≡ none)
      × (lookup q t.dirty ≢ some c → lookup q (forget t c p).dirty ≡ lookup q t.dirty)
unfolding forget
forget_lem t c p q v e =
    let cleared = lookup-delete p q t.dirty v.paths_once in
    (
      (λ h. ground (arith, cleared, v.linked q c, v.linked p c, list_beq_iff p q)),
      λ h. ground (arith, cleared, v.linked p c, list_beq_iff p q),
    )

-- A counter that is not in the log is not the counter of a path.
pub unlogged_lem :
    (t : DirtyTables) (c : ℕ) (q : Text)
    → IsValid t
    → Table.get c t.dirty_log ≡ none
    → lookup q t.dirty ≢ some c
unlogged_lem t c q v e h = cc (e, (v.linked q c).0 h)

-- A job that is done clears the path that has its counter, and no other path.
pub job_done_lem :
    (t : DirtyTables) (job_id : ℕ) (q : FilePath)
    → IsValid t
    → (get_dirty t q ≡ some job_id → get_dirty (job_done t job_id) q ≡ none)
      × (get_dirty t q ≢ some job_id → get_dirty (job_done t job_id) q ≡ get_dirty t q)
unfolding job_done
job_done_lem t job_id q v = elim (Option-cases (Table.get job_id t.dirty_log)) [
  | inl e ↦ rw (job_done, e) ((λ h. absurd (unlogged_lem t job_id q.chars v e h)), λ h. refl)
  | inr (p, e) ↦ rw (job_done, e) (forget_lem t job_id p q.chars v e)
]

-- Clearing the dirty mark of a path is the same as reporting its job as done.
pub clear_dirty-job_done :
    (t : DirtyTables) (path : FilePath) (c : ℕ)
    → IsValid t
    → get_dirty t path ≡ some c
    → clear_dirty t path ≡ job_done t c
unfolding clear_dirty job_done
clear_dirty-job_done t path c v e = ground (arith, (v.linked path.chars c).0 e)

-- A job of a dirty path fails: where the retry strategy gives up, the path is dirty no more;
-- otherwise it stays dirty with the same counter, the failure is counted, the time to wait until is
-- stored in whole seconds, and that time is returned in full. Other paths stay as they are.
pub job_failed_lem :
    (strategy : ℕ → Option ℕ) (now : UnixTime) (t : DirtyTables) (path q : FilePath) (c : ℕ)
    → IsValid t
    → get_dirty t path ≡ some c
    → let (t', result) = job_failed strategy now t c in
      (strategy (next_failure t c) ≡ none → (result ≡ none) × (get_dirty t' path ≡ none))
      × ((delay : ℕ)
          → strategy (next_failure t c) ≡ some delay
          → (result ≡ some (now + delay))
            × (get_dirty t' path ≡ some c)
            × (Table.get c t'.failed_job
                ≡ some (record {
                  failure_count = next_failure t c;
                  backoff_until = stored_time (now + delay);
                })))
      × (q.chars ≢ path.chars → get_dirty t' q ≡ get_dirty t q)
unfolding job_failed
job_failed_lem strategy now t path q c v e =
    let logged = (v.linked path.chars c).0 e in
    let others : q.chars ≢ path.chars → lookup q.chars t.dirty ≢ some c =
      λ d h. d (ground (arith, v.linked q.chars c, logged)) in
    elim (Option-cases (strategy (next_failure t c))) [
      | inl f ↦
          rw (job_failed, logged, f)
            (
              (λ g. (refl, (forget_lem t c path.chars path.chars v logged).0 e)),
              (λ delay g. cc g),
              λ d. (forget_lem t c path.chars q.chars v logged).1 (others d),
            )
      | inr (delay, f) ↦
          rw (job_failed, logged, f)
            (
              (λ g. cc g),
              (λ delay' g. ground (
                arith,
                e,
                get-insert c c
                    (record {
                      failure_count = next_failure t c;
                      backoff_until = stored_time (now + delay);
                    })
                    t.failed_job,
              )),
              λ d. refl,
            )
    ]
