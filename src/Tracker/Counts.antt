-- ===== src/Tracker/Counts.antt =====
-- `active_len` counts the jobs that are not finished.
use realize.Prelude.{◌+◌, ◌≡◌, ◌≤◌, [], ◌∷◌, arith, length}
use realize.Prelude.Eq.{Assoc, tally}
use realize.Data.{GlobalJobId, GlobalJobId_eq}
use realize.Tracker.{JobInfo, JobInfoTracker, active_of, active, active_len}
use realize.Tracker.Invariant.{has_finished, IsValid}

length-active_of :
    (jobs : Assoc GlobalJobId JobInfo)
    → length (active_of jobs) + tally has_finished jobs ≡ length jobs
unfolding active_of
length-active_of [] = ground arith
length-active_of ((id, info) ∷ rest) = ground (arith, length-active_of rest)

-- In a valid tracker the subtraction of `active_len` does not underflow, and gives the number of
-- jobs that `active` lists.
pub active_len_lem :
    (t : JobInfoTracker)
    → IsValid t
    → (length t.finished ≤ length t.jobs) × (active_len t ≡ length (active t))
unfolding active_len active
active_len_lem t v =
    let count = length-active_of t.jobs in
    (omega (arith, count, v.tracks.counted), omega (arith, count, v.tracks.counted))
