-- ===== src/Tests/Jobs.antt =====
-- Runs of crate/realize-core/src/consensus/tracker.rs on one and two jobs.
use realize.Prelude.{false, ◌≡◌, refl, inl, some, [], ◌∷◌, arith}
use realize.Prelude.Eq.{lookup, put}
use realize.Data.{Job, download, GlobalJobId, GlobalJobId_eq}
use realize.Tracker.{
  JobInfoTracker, ChurtenNotification, new, start, finish, done, fresh, is_finished, trim,
  trim_loop, new_tracker, update, update_entry, global_job_id, arena_of, job_id_of,
}
use realize.Tracker.Invariant.{IsValid, update-IsValid, new_tracker-IsValid}
use realize.Tracker.Updates.{update_others}
use realize.Tracker.Limit.{WithinLimit, update-WithinLimit}
use realize.Tracker.Repeats.{update_twice}

abbrev job : Job
job = download (record { chars = b'a' ∷ [] }) (record { bytes = 1 ∷ [] })

abbrev id_1 : GlobalJobId
id_1 = ("a", 1)

abbrev created : ChurtenNotification
created = new "a" 1 job

abbrev started : ChurtenNotification
started = start "a" 2

abbrev finished_1 : ChurtenNotification
finished_1 = finish "a" 1 done

abbrev empty_tracker : JobInfoTracker
empty_tracker = new_tracker 3

-- with the job 1
abbrev busy : JobInfoTracker
busy = (update empty_tracker created).0

busy-IsValid : IsValid busy
busy-IsValid = update-IsValid empty_tracker created tt (new_tracker-IsValid 3)

busy-lookup : lookup id_1 busy.jobs ≡ some (fresh "a" 1 job)
unfolding update update_entry global_job_id arena_of job_id_of new_tracker lookup put trim trim_loop
    GlobalJobId_eq
busy-lookup = refl

update-IsValid_example : IsValid (update busy finished_1).0
update-IsValid_example = update-IsValid busy finished_1 (unfold is_finished in refl) busy-IsValid

update-WithinLimit_example : WithinLimit (update empty_tracker created).0
update-WithinLimit_example =
    update-WithinLimit empty_tracker created (unfold new_tracker in inl (omega arith))

update_twice_example : (update (update busy finished_1).0 finished_1).1 ≡ false
update_twice_example = update_twice busy finished_1 (unfold is_finished in refl) busy-IsValid

update_others_example : lookup id_1 (update busy started).0.jobs ≡ some (fresh "a" 1 job)
update_others_example =
    update_others busy started id_1 (fresh "a" 1 job) busy-IsValid
      (unfold GlobalJobId_eq global_job_id arena_of job_id_of in refl) busy-lookup
      (unfold fresh is_finished in refl)
