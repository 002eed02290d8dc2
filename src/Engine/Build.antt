-- ===== src/Engine/Build.antt =====
-- When `build_job` builds which job.
use realize.Prelude.{
  ℕ, true, false, ◌≡◌, ◌≢◌, refl, sym, ap, Option, none, some, arith, inl, inr, Option-cases,
  Bool-cases,
}
use mathlib.Core.Path.{subst}
use realize.Data.{Hash, Hash_eq_iff, Job, download, realize_file, unrealize, job_path, job_hash}
use realize.FilePath.{FilePath}
use realize.Engine.{
  Mark, watch, keep, own, ArenaView, IndexedFile, LocalAvailability, is_verified, same_hash,
  outdated_by, cached_job, build_job,
}

-- The state of a path that calls for a job.
abbrev pub CallsFor : Mark → Option IndexedFile → LocalAvailability → Job → Type 0
CallsFor mark indexed av (unrealize path h) =
    (mark ≢ own) × (file : IndexedFile) × (indexed ≡ some file) × (file.hash ≡ h)
CallsFor mark indexed av (download path h) =
    (mark ≡ keep)
    × (is_verified av ≡ false)
    × ((file : IndexedFile) → indexed ≡ some file → file.hash ≢ h)
CallsFor mark indexed av (realize_file path h none) = (mark ≡ own) × (indexed ≡ none)
CallsFor mark indexed av (realize_file path h (some from)) =
    (mark ≡ own)
    × (file : IndexedFile) × (indexed ≡ some file)
    × (file.outdated_by ≡ some h)
    × (file.hash ≡ from)

same_hash-true :
    (h : Hash) (indexed : Option IndexedFile)
    → same_hash h indexed ≡ true
    → (file : IndexedFile) × (indexed ≡ some file) × (file.hash ≡ h)
unfolding same_hash
same_hash-true h none e = cc
same_hash-true h (some file) e = (file, refl, ground (arith, Hash_eq_iff h file.hash))

same_hash-false :
    (h : Hash) (indexed : Option IndexedFile)
    → same_hash h indexed ≡ false
    → (file : IndexedFile) → indexed ≡ some file
    → file.hash ≢ h
unfolding same_hash
same_hash-false h none e file g = cc
same_hash-false h (some f) e file g = λ d. ground (arith, Hash_eq_iff h f.hash)

outdated_by_true :
    (h : Hash) (file : IndexedFile) → outdated_by h file ≡ true → file.outdated_by ≡ some h
unfolding outdated_by
outdated_by_true h file e = elim (Option-cases file.outdated_by) [
  | inl n ↦ cc
  | inr (g, n) ↦ ground (arith, Hash_eq_iff g h)
]

-- A job that is right for a path, a hash and what the tables say.
pub record IsFor (mark : Mark) (path : FilePath) (h : Hash) (indexed : Option IndexedFile)
    (av : LocalAvailability) (job : Job) : Type 0 where
  pub on_path : job_path job ≡ path
  pub on_hash : job_hash job ≡ h
  pub called_for : CallsFor mark indexed av job

unrealize-IsFor :
    (mark : Mark) (path : FilePath) (h : Hash) (indexed : Option IndexedFile)
    (av : LocalAvailability)
    → mark ≢ own
    → same_hash h indexed ≡ true
    → IsFor mark path h indexed av (unrealize path h)
unfolding job_path job_hash
unrealize-IsFor mark path h indexed av d e =
    let (file, at, same) = same_hash-true h indexed e in
    record { on_path = refl; on_hash = refl; called_for = (d, file, at, same) }

cached_job-IsFor :
    (mark : Mark) (path : FilePath) (h : Hash) (indexed : Option IndexedFile)
    (av : LocalAvailability) (job : Job)
    → cached_job mark path h indexed av ≡ some job
    → IsFor mark path h indexed av job
unfolding cached_job job_path job_hash
cached_job-IsFor watch path h indexed av job e = elim (Bool-cases (same_hash h indexed)) [
  | inl s ↦
      let f : unrealize path h ≡ job = ground arith in
      subst (IsFor watch path h indexed av) f (unrealize-IsFor watch path h indexed av (λ d. cc) s)
  | inr s ↦ absurd (ground arith)
]
cached_job-IsFor keep path h indexed av job e = elim (Bool-cases (same_hash h indexed)) [
  | inl s ↦
      let f : unrealize path h ≡ job = ground arith in
      subst (IsFor keep path h indexed av) f (unrealize-IsFor keep path h indexed av (λ d. cc) s)
  | inr s ↦
      let v : is_verified av ≡ false = ground arith in
      let f : download path h ≡ job = ground arith in
      subst (IsFor keep path h indexed av) f (record {
        on_path = refl;
        on_hash = refl;
        called_for = (refl, v, same_hash-false h indexed s);
      })
]
cached_job-IsFor own path h none av job e =
    let f : realize_file path h none ≡ job = ground arith in
    subst (IsFor own path h none av) f
      (record { on_path = refl; on_hash = refl; called_for = (refl, refl) })
cached_job-IsFor own path h (some file) av job e =
    let o : outdated_by h file ≡ true = ground arith in
    let f : realize_file path h (some file.hash) ≡ job = ground arith in
    subst (IsFor own path h (some file) av) f (record {
      on_path = refl;
      on_hash = refl;
      called_for = (refl, file, refl, outdated_by_true h file o, refl);
    })

-- A job is only built for a path with a cached file, for that file's hash and with the counter
-- given: an unrealize job for a path that is not marked own and whose indexed file has that hash, a
-- download for a path marked keep whose content is not verified and whose indexed file, if any, is
-- another one, and a realize job for a path marked own that has no indexed file or one that the
-- cached file outdates.
pub build_job_lem :
    (view : ArenaView) (path : FilePath) (counter : ℕ) (built : ℕ × Job)
    → build_job view path counter ≡ some built
    → (built.0 ≡ counter)
      × (h : Hash) × (view.cached path ≡ some h)
      × IsFor (view.get_mark path) path h (view.indexed path) (view.availability path) built.1
unfolding build_job
build_job_lem view path counter built e = elim (Option-cases (view.cached path)) [
  | inl n ↦ cc
  | inr (h, n) ↦
      elim (Option-cases
        (cached_job (view.get_mark path) path h (view.indexed path) (view.availability path))) [
          | inl m ↦ absurd (ground arith)
          | inr (job, m) ↦
              let f : (counter, job) ≡ built = ground arith in
              (
                ap (λ (b : ℕ × Job). b.0) (sym f),
                h,
                n,
                subst
                    (IsFor (view.get_mark path) path h (view.indexed path) (view.availability path))
                    (ap (λ (b : ℕ × Job). b.1) f) (cached_job-IsFor _ path h _ _ job m),
              )
        ]
]
