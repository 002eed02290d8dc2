-- ===== src/Tracker/Trimming.antt =====
-- What `trim` leaves of the jobs.
use realize.Prelude.{ℕ, false, ◌≡◌, refl, ◌⊎◌, none, some, List, [], ◌∷◌, arith, inr}
use realize.Prelude.Eq.{
  Assoc, lookup, put, delete, Unique, lookup-put, lookup-delete, delete-Unique, elem, beq_refl,
}
use realize.Data.{GlobalJobId, GlobalJobId_eq}
use realize.Tracker.{JobInfo, JobInfoTracker, trim_loop, trim}

pub lookup-put_self :
    (id : GlobalJobId) (info : JobInfo) (jobs : Assoc GlobalJobId JobInfo)
    → lookup id (put id info jobs) ≡ some info
lookup-put_self id info jobs = ground (arith, lookup-put id id info jobs, beq_refl id)

-- Trimming takes away no job that is not queued, and changes none.
trim_loop-lookup :
    (limit : ℕ) (id : GlobalJobId) (jobs : Assoc GlobalJobId JobInfo) (finished : List GlobalJobId)
    → Unique jobs
    → elem id finished ≡ false
    → lookup id (trim_loop limit jobs finished).0 ≡ lookup id jobs
unfolding trim_loop
trim_loop-lookup limit id jobs [] u h = refl
trim_loop-lookup limit id jobs (key ∷ keys) u h = ground (
  arith,
  trim_loop-lookup limit id (delete key jobs) keys (delete-Unique key jobs u),
  lookup-delete key id jobs u,
)

trim_loop-lookup_cases :
    (limit : ℕ) (id : GlobalJobId) (jobs : Assoc GlobalJobId JobInfo) (finished : List GlobalJobId)
    → Unique jobs
    → (lookup id (trim_loop limit jobs finished).0 ≡ none)
      ⊎ (lookup id (trim_loop limit jobs finished).0 ≡ lookup id jobs)
unfolding trim_loop
trim_loop-lookup_cases limit id jobs [] u = inr refl
trim_loop-lookup_cases limit id jobs (key ∷ keys) u =
    let rest = trim_loop-lookup_cases limit id (delete key jobs) keys (delete-Unique key jobs u) in
    ground (arith, rest, lookup-delete key id jobs u)

pub lookup-trim :
    (t : JobInfoTracker) (id : GlobalJobId)
    → Unique t.jobs
    → elem id t.finished ≡ false
    → lookup id (trim t).jobs ≡ lookup id t.jobs
unfolding trim
lookup-trim t id u h = trim_loop-lookup t.limit id t.jobs t.finished u h

-- A second look at the entry after a trim finds it unchanged, or gone.
pub lookup-trim_cases :
    (t : JobInfoTracker) (id : GlobalJobId)
    → Unique t.jobs
    → (lookup id (trim t).jobs ≡ none) ⊎ (lookup id (trim t).jobs ≡ lookup id t.jobs)
unfolding trim
lookup-trim_cases t id u = trim_loop-lookup_cases t.limit id t.jobs t.finished u
