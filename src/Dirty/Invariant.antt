-- ===== src/Dirty/Invariant.antt =====
-- The invariant of the dirty path tables: the dirty table and the log are inverse to each other.
use realize.Prelude.{
  ℕ, zero, suc, ◌+◌, ◌-◌, ◌<◌, ◌≡◌, ◌↔◌, refl, Option, none, some, arith, inl, inr, Option-cases,
}
use realize.Prelude.Table
use realize.Prelude.Table.{
  Table, IsSorted, Below, IsSorted-mono, Below-mono, get-insert, get-remove, insert-IsSorted,
  remove-IsSorted,
}
use realize.Prelude.Eq.{
  nat_eq, list_eq, list_beq_iff, lookup, put, Unique, lookup-put, lookup-delete, put-Unique,
  delete-Unique,
}
use realize.ByteRange.{add64, u64_mod}
use realize.Data.{JobStatus, done, abandoned}
use realize.FilePath.{Text, FilePath}
use realize.Dirty.{
  DirtyTables, FailedJobTableEntry, empty_tables, last_counter, mark_dirty, forget, job_done,
  job_failed, job_finished, next_failure, delete_counter, delete_loop, delete_range, clear_dirty,
}

-- A path is dirty with a counter exactly where the log has the path at the counter; no counter of
-- the log is greater than the last one given out; only a counter of the log has a failed job.
pub record IsValid (t : DirtyTables) : Type 0 where
  pub paths_once : Unique t.dirty
  pub log_sorted : IsSorted 0 t.dirty_log
  pub failed_sorted : IsSorted 0 t.failed_job
  pub linked : (p : Text) (c : ℕ) → (lookup p t.dirty ≡ some c) ↔ (Table.get c t.dirty_log ≡ some p)
  pub given : (c : ℕ) → last_counter t < c → Table.get c t.dirty_log ≡ none
  pub failed_logged : (c : ℕ) → Table.get c t.dirty_log ≡ none → Table.get c t.failed_job ≡ none

pub empty-IsValid : IsValid empty_tables
unfolding empty_tables lookup Table.get
empty-IsValid = record {
  paths_once = tt;
  log_sorted = tt;
  failed_sorted = tt;
  linked = λ p c. ((λ h. cc), λ h. cc);
  given = λ c h. refl;
  failed_logged = λ c h. refl;
}

-- Forgetting a counter of the log with its path.
pub forget-IsValid :
    (t : DirtyTables) (counter : ℕ) (p : Text)
    → Table.get counter t.dirty_log ≡ some p
    → IsValid t
    → IsValid (forget t counter p)
unfolding forget last_counter
forget-IsValid t counter p h v = record {
  paths_once = delete-Unique p t.dirty v.paths_once;
  log_sorted = remove-IsSorted counter 0 t.dirty_log v.log_sorted;
  failed_sorted = remove-IsSorted counter 0 t.failed_job v.failed_sorted;
  linked = λ q c. ground (
    arith,
    lookup-delete p q t.dirty v.paths_once,
    get-remove counter c 0 t.dirty_log v.log_sorted,
    v.linked q c,
    v.linked p counter,
    v.linked p c,
    v.linked q counter,
    list_beq_iff p q,
  );
  given = λ c l. ground (arith, get-remove counter c 0 t.dirty_log v.log_sorted, v.given c);
  failed_logged = λ c l. ground (
    arith,
    get-remove counter c 0 t.dirty_log v.log_sorted,
    get-remove counter c 0 t.failed_job v.failed_sorted,
    v.failed_logged c,
  );
}

-- The counter that `mark_dirty` gives out.
pub next_counter :
    (t : DirtyTables)
    → last_counter t + 1 < u64_mod
    → add64 (last_counter t) 1 ≡ suc (last_counter t)
next_counter t h = ground arith

-- A new mark on a path that is not dirty.
module _ (t : DirtyTables) (v : IsValid t) (h : last_counter t + 1 < u64_mod) (p : Text) where
  marked_new :
      lookup p t.dirty ≡ none
      → IsValid (record {
        dirty = put p (suc (last_counter t)) t.dirty;
        dirty_log = Table.insert (suc (last_counter t)) p t.dirty_log;
        dirty_counter = some (suc (last_counter t));
        failed_job = t.failed_job;
      })
  unfolding last_counter
  marked_new e = record {
    paths_once = put-Unique p _ t.dirty v.paths_once;
    log_sorted = insert-IsSorted _ 0 p t.dirty_log (omega arith) v.log_sorted;
    failed_sorted = v.failed_sorted;
    linked = λ q c. ground (
      arith,
      lookup-put p q (suc (last_counter t)) t.dirty,
      get-insert (suc (last_counter t)) c p t.dirty_log,
      v.given (suc (last_counter t)),
      v.linked q c,
      v.linked q (suc (last_counter t)),
      v.linked p c,
      list_beq_iff p q,
    );
    given = λ c l. ground (arith, get-insert (suc (last_counter t)) c p t.dirty_log, v.given c);
    failed_logged =
        λ c l. ground (arith, get-insert (suc (last_counter t)) c p t.dirty_log, v.failed_logged c);
  }

  -- A new mark on a path that is dirty with the counter `prev`.
  marked_again :
      (prev : ℕ)
      → lookup p t.dirty ≡ some prev
      → IsValid (record {
        dirty = put p (suc (last_counter t)) t.dirty;
        dirty_log = Table.remove prev (Table.insert (suc (last_counter t)) p t.dirty_log);
        dirty_counter = some (suc (last_counter t));
        failed_job = Table.remove prev t.failed_job;
      })
  unfolding last_counter
  marked_again prev e =
      let sorted =
        insert-IsSorted (suc (last_counter t)) 0 p t.dirty_log (omega arith) v.log_sorted in
      let new_log : (c : ℕ) → _ = λ c. get-remove prev c 0 _ sorted in
      record {
        paths_once = put-Unique p _ t.dirty v.paths_once;
        log_sorted = remove-IsSorted prev 0 _ sorted;
        failed_sorted = remove-IsSorted prev 0 t.failed_job v.failed_sorted;
        linked = λ q c. ground (
          arith,
          lookup-put p q (suc (last_counter t)) t.dirty,
          new_log c,
          get-insert (suc (last_counter t)) c p t.dirty_log,
          v.given (suc (last_counter t)),
          v.given prev,
          v.linked p prev,
          v.linked q c,
          v.linked q prev,
          v.linked p c,
          list_beq_iff p q,
        );
        given = λ c l.
            ground (arith, new_log c, get-insert (suc (last_counter t)) c p t.dirty_log, v.given c);
        failed_logged = λ c l. ground (
          arith,
          new_log c,
          get-insert (suc (last_counter t)) c p t.dirty_log,
          get-remove prev c 0 t.failed_job v.failed_sorted,
          v.failed_logged c,
        );
      }

-- Marking a path dirty keeps the invariant, as long as the counters fit in a `u64`.
pub mark_dirty-IsValid :
    (t : DirtyTables) (path : FilePath)
    → last_counter t + 1 < u64_mod
    → IsValid t
    → IsValid (mark_dirty t path).0
unfolding mark_dirty
mark_dirty-IsValid t path h v = elim (Option-cases (lookup path.chars t.dirty)) [
  | inl e ↦ rw (e, next_counter t h) (marked_new t v h path.chars e)
  | inr (prev, e) ↦ rw (e, next_counter t h) (marked_again t v h path.chars prev e)
]

pub job_done-IsValid : (t : DirtyTables) (job_id : ℕ) → IsValid t → IsValid (job_done t job_id)
unfolding job_done
job_done-IsValid t job_id v = elim (Option-cases (Table.get job_id t.dirty_log)) [
  | inl e ↦ rw (job_done, e) v
  | inr (p, e) ↦ rw (job_done, e) (forget-IsValid t job_id p e v)
]

-- A failure written for a counter of the log.
failed-IsValid :
    (t : DirtyTables) (job_id : ℕ) (p : Text) (entry : FailedJobTableEntry)
    → Table.get job_id t.dirty_log ≡ some p
    → IsValid t
    → IsValid (record t { failed_job = Table.insert job_id entry t.failed_job })
unfolding last_counter
failed-IsValid t job_id p entry e v = record {
  paths_once = v.paths_once;
  log_sorted = v.log_sorted;
  failed_sorted = insert-IsSorted job_id 0 entry t.failed_job (omega arith) v.failed_sorted;
  linked = v.linked;
  given = v.given;
  failed_logged = λ c l. ground (arith, get-insert job_id c entry t.failed_job, v.failed_logged c);
}

pub job_failed-IsValid :
    (strategy : ℕ → Option ℕ) (now : ℕ) (t : DirtyTables) (job_id : ℕ)
    → IsValid t
    → IsValid (job_failed strategy now t job_id).0
unfolding job_failed
job_failed-IsValid strategy now t job_id v = elim (Option-cases (Table.get job_id t.dirty_log)) [
  | inl e ↦ rw (job_failed, e) v
  | inr (p, e) ↦ elim (Option-cases (strategy (next_failure t job_id))) [
    | inl f ↦ rw (job_failed, e, f) (forget-IsValid t job_id p e v)
    | inr (delay, f) ↦ rw (job_failed, e, f) (failed-IsValid t job_id p _ e v)
  ]
]

-- Whatever the outcome of a job, the retry strategy and the clock, reporting it keeps the invariant.
pub job_finished-IsValid :
    (strategy : ℕ → Option ℕ) (now : ℕ) (t : DirtyTables) (job_id : ℕ) (status : Option JobStatus)
    → IsValid t
    → IsValid (job_finished strategy now t job_id status)
unfolding job_finished
job_finished-IsValid strategy now t job_id (some done) v = job_done-IsValid t job_id v
job_finished-IsValid strategy now t job_id (some abandoned) v = job_done-IsValid t job_id v
job_finished-IsValid strategy now t job_id none v = job_failed-IsValid strategy now t job_id v

unlogged-IsValid :
    (t : DirtyTables) (counter : ℕ)
    → IsValid t
    → IsValid (record t { failed_job = Table.remove counter t.failed_job })
unfolding last_counter
unlogged-IsValid t counter v = record {
  paths_once = v.paths_once;
  log_sorted = v.log_sorted;
  failed_sorted = remove-IsSorted counter 0 t.failed_job v.failed_sorted;
  linked = v.linked;
  given = v.given;
  failed_logged =
      λ c l. ground (arith, get-remove counter c 0 t.failed_job v.failed_sorted, v.failed_logged c);
}

pub delete_counter-IsValid :
    (t : DirtyTables) (counter : ℕ) → IsValid t → IsValid (delete_counter t counter)
unfolding delete_counter
delete_counter-IsValid t counter v = elim (Option-cases (Table.get counter t.dirty_log)) [
  | inl e ↦ rw (delete_counter, e) (unlogged-IsValid t counter v)
  | inr (p, e) ↦ rw (delete_counter, e) (forget-IsValid t counter p e v)
]

pub delete_loop-IsValid : (n beg : ℕ) (t : DirtyTables) → IsValid t → IsValid (delete_loop n beg t)
unfolding delete_loop
delete_loop-IsValid zero beg t v = v
delete_loop-IsValid (suc n) beg t v =
    delete_loop-IsValid n (suc beg) (delete_counter t beg) (delete_counter-IsValid t beg v)

-- Deleting a range of counters keeps the invariant.
pub delete_range-IsValid :
    (t : DirtyTables) (beg end : ℕ) → IsValid t → IsValid (delete_range t beg end)
unfolding delete_range
delete_range-IsValid t beg end v = delete_loop-IsValid (end - beg) beg t v

-- Clearing a dirty mark keeps the invariant.
pub clear_dirty-IsValid :
    (t : DirtyTables) (path : FilePath) → IsValid t → IsValid (clear_dirty t path)
unfolding clear_dirty
clear_dirty-IsValid t path v = elim (Option-cases (lookup path.chars t.dirty)) [
  | inl e ↦ rw (clear_dirty, e) v
  | inr (c, e) ↦ rw (clear_dirty, e) (forget-IsValid t c path.chars ((v.linked path.chars c).0 e) v)
]
