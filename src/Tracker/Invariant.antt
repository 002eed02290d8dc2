-- ===== src/Tracker/Invariant.antt =====
-- The tracker's invariant: the queue `finished` holds the keys of the finished jobs, each once.
use realize.Prelude.{
  ℕ, Bool, true, false, ◌&&◌, ◌≡◌, refl, ap, ◌∙◌, Option, none, some, List, [], ◌∷◌, ◌++◌, arith,
  length, length-append, ltb, inl, inr, Bool-cases, and_left,
}
use realize.Prelude.Eq.{
  Assoc, lookup, put, delete, Unique, lookup-put, lookup-delete, put-Unique, delete-Unique, elem,
  Distinct, beq_refl, elem-snoc, Distinct-snoc, tally, tally-put, tally-delete,
}
use realize.Data.{Arena, Job, GlobalJobId, GlobalJobId_eq}
use realize.Tracker.{
  JobProgress, is_finished, is_pending, is_running, running, fresh, JobInfo, JobInfoTracker,
  ChurtenNotification, new, start, finish, update_action, update_byte_count, trim_loop, trim,
  update, update_entry, new_tracker, global_job_id,
}

abbrev pub has_finished : JobInfo → Bool
has_finished info = is_finished info.progress

-- Whether an entry is there and finished.
abbrev pub finished_at : Option JobInfo → Bool
finished_at none = false
finished_at (some info) = has_finished info

pub record Tracks (jobs : Assoc GlobalJobId JobInfo) (finished : List GlobalJobId) : Type 0 where
  pub keys_once : Unique jobs
  pub queue_once : Distinct finished
  pub queued : (id : GlobalJobId) → elem id finished ≡ finished_at (lookup id jobs)
  pub counted : tally has_finished jobs ≡ length finished

pub record IsValid (t : JobInfoTracker) : Type 0 where
  pub tracks : Tracks t.jobs t.finished

-- The front of the queue goes, with its job.
Tracks-pop :
    (jobs : Assoc GlobalJobId JobInfo) (key : GlobalJobId) (keys : List GlobalJobId)
    → Tracks jobs (key ∷ keys)
    → Tracks (delete key jobs) keys
Tracks-pop jobs key keys t = record {
  keys_once = delete-Unique key jobs t.keys_once;
  queue_once = t.queue_once.1;
  queued = λ id. ground (
    arith,
    t.queued id,
    t.queue_once.0,
    lookup-delete key id jobs t.keys_once,
    GlobalJobId_eq.beq_iff key id,
  );
  counted =
      ground (arith, t.counted, t.queued key, beq_refl key, tally-delete has_finished key jobs);
}

trim_loop-Tracks :
    (limit : ℕ) (jobs : Assoc GlobalJobId JobInfo) (finished : List GlobalJobId)
    → Tracks jobs finished
    → Tracks (trim_loop limit jobs finished).0 (trim_loop limit jobs finished).1
unfolding trim_loop
trim_loop-Tracks limit jobs [] t = t
trim_loop-Tracks limit jobs (key ∷ keys) t = elim (Bool-cases (ltb limit (length jobs))) [
  | inl h ↦ rw h (trim_loop-Tracks limit (delete key jobs) keys (Tracks-pop jobs key keys t))
  | inr h ↦ rw h t
]

pub trim-IsValid : (t : JobInfoTracker) → IsValid t → IsValid (trim t)
unfolding trim
trim-IsValid t v = record { tracks = trim_loop-Tracks t.limit t.jobs t.finished v.tracks }

-- A job that is not finished, new or already there, is written.
Tracks-put_active :
    (jobs : Assoc GlobalJobId JobInfo) (finished : List GlobalJobId) (id : GlobalJobId)
    (info : JobInfo)
    → finished_at (lookup id jobs) ≡ false
    → has_finished info ≡ false
    → Tracks jobs finished
    → Tracks (put id info jobs) finished
Tracks-put_active jobs finished id info a b t = record {
  keys_once = put-Unique id info jobs t.keys_once;
  queue_once = t.queue_once;
  queued = λ j. ground (arith, t.queued j, lookup-put id j info jobs, GlobalJobId_eq.beq_iff id j);
  counted = ground (arith, tally-put has_finished id info jobs);
}

-- A job that was not finished is written as finished, and queued.
Tracks-put_finished :
    (jobs : Assoc GlobalJobId JobInfo) (finished : List GlobalJobId) (id : GlobalJobId)
    (info : JobInfo)
    → finished_at (lookup id jobs) ≡ false
    → has_finished info ≡ true
    → Tracks jobs finished
    → Tracks (put id info jobs) (finished ++ id ∷ [])
Tracks-put_finished jobs finished id info a b t = record {
  keys_once = put-Unique id info jobs t.keys_once;
  queue_once = Distinct-snoc id finished (t.queued id ∙ a) t.queue_once;
  queued = λ j. ground (
    arith,
    t.queued j,
    lookup-put id j info jobs,
    GlobalJobId_eq.beq_iff id j,
    elem-snoc j id finished,
  );
  counted = ground (arith, tally-put has_finished id info jobs, length-append finished (id ∷ []));
}

-- A notification whose progress, if it finishes a job, is a finished one.
abbrev pub IsProper : ChurtenNotification → Type 0
IsProper (finish arena job_id progress) = is_finished progress ≡ true
IsProper _ = Unit

running_unfinished : (p : JobProgress) → is_running p ≡ true → is_finished p ≡ false
unfolding is_running is_finished
running_unfinished p h = ground arith

pending_unfinished : (p : JobProgress) → is_pending p ≡ true → is_finished p ≡ false
unfolding is_pending is_finished
pending_unfinished p h = ground arith

running_lem : is_finished running ≡ false
unfolding is_finished
running_lem = refl

pub fresh-active : (arena : Arena) (id : ℕ) (job : Job) → has_finished (fresh arena id job) ≡ false
unfolding is_finished fresh
fresh-active arena id job = refl

-- The entry of a job that is not finished is replaced by one with the progress `p`.
module _ (t : JobInfoTracker) (id : GlobalJobId) (v : IsValid t) where
  write_active :
      (info : JobInfo)
      → finished_at (lookup id t.jobs) ≡ false
      → has_finished info ≡ false
      → IsValid (record t { jobs = put id info t.jobs })
  write_active info a b = record {
    tracks = Tracks-put_active t.jobs t.finished id info a b v.tracks;
  }

  write_finished :
      (info : JobInfo)
      → finished_at (lookup id t.jobs) ≡ false
      → has_finished info ≡ true
      → IsValid (record t { jobs = put id info t.jobs; finished = t.finished ++ id ∷ [] })
  write_finished info a b = record {
    tracks = Tracks-put_finished t.jobs t.finished id info a b v.tracks;
  }

update_entry-IsValid :
    (t : JobInfoTracker) (id : GlobalJobId) (o : Option JobInfo) (n : ChurtenNotification)
    → lookup id t.jobs ≡ o
    → IsProper n
    → IsValid t
    → IsValid (update_entry t id o n).0
unfolding update_entry
update_entry-IsValid t id none (new arena job_id job) e g v = trim-IsValid _ (
    write_active t id v (fresh arena job_id job) (ap finished_at e) (fresh-active arena job_id job))
update_entry-IsValid t id none (start arena job_id) e g v = v
update_entry-IsValid t id none (finish arena job_id progress) e g v = v
update_entry-IsValid t id none (update_action arena job_id index action) e g v = v
update_entry-IsValid t id none (update_byte_count arena job_id index current total) e g v = v
update_entry-IsValid t id (some info) (new arena job_id job) e g v = v
update_entry-IsValid t id (some info) (start arena job_id) e g v =
    elim (Bool-cases (is_pending info.progress)) [
      | inl h ↦ rw h (
          write_active t id v (record info { progress = running })
            (ap finished_at e ∙ pending_unfinished info.progress h) running_lem)
      | inr h ↦ rw h v
    ]
update_entry-IsValid t id (some info) (finish arena job_id progress) e g v =
    elim (Bool-cases (is_finished info.progress)) [
      | inl h ↦ rw h v
      | inr h ↦ rw h (
          trim-IsValid _ (
            write_finished t id v (record info { progress = progress; action = none })
              (ap finished_at e ∙ h) g))
    ]
update_entry-IsValid t id (some info) (update_action arena job_id index action) e g v =
    elim (Bool-cases (is_running info.progress && ltb info.notification_index index)) [
      | inl h ↦
          let active = running_unfinished info.progress (and_left (is_running info.progress) _ h) in
          rw h (
            write_active t id v
              (record info {
                notification_index = index;
                action = some action;
                byte_progress = none;
              })
              (ap finished_at e ∙ active) active)
      | inr h ↦ rw h v
    ]
update_entry-IsValid t id (some info) (update_byte_count arena job_id index current total) e g v =
    elim (Bool-cases (is_running info.progress && ltb info.notification_index index)) [
      | inl h ↦
          let active = running_unfinished info.progress (and_left (is_running info.progress) _ h) in
          rw h (
            write_active t id v
              (record info { notification_index = index; byte_progress = some (current, total) })
              (ap finished_at e ∙ active) active)
      | inr h ↦ rw h v
    ]

-- One notification keeps the invariant: whatever arrives, in whatever order and however often, the
-- queue of finished jobs matches the map, as long as a job is only finished with a finished
-- progress.
pub update-IsValid :
    (t : JobInfoTracker) (n : ChurtenNotification) → IsProper n → IsValid t → IsValid (update t n).0
unfolding update
update-IsValid t n g v = update_entry-IsValid t (global_job_id n) _ n refl g v

pub new_tracker-IsValid : (limit : ℕ) → IsValid (new_tracker limit)
unfolding new_tracker lookup
new_tracker-IsValid limit = record {
  tracks = record { keys_once = tt; queue_once = tt; queued = λ id. refl; counted = refl };
}
