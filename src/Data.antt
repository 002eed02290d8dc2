-- ===== src/Data.antt =====
-- Identifiers and data that several components share: `Arena`, `Hash`, `Job`, `JobStatus`.
use Prim.Native.String.{String}
use realize.Prelude.{ℕ, List, Option, true, ◌≡◌, ◌↔◌, ap}
use realize.Prelude.Eq.{Eq, list_beq, list_beq_iff, nat_eq, string_eq, pair_eq}
use realize.FilePath.{FilePath}

-- An arena is identified by its name.
abbrev pub Arena : Type 0
Arena = String

-- 32 bytes.
pub record Hash : Type 0 where
  pub bytes : List ℕ

pub Hash_eq_iff : (g h : Hash) → (list_beq g.bytes h.bytes ≡ true) ↔ (g ≡ h)
Hash_eq_iff g h = (
  (λ e. ap (λ (b : List ℕ). record { bytes = b }) ((list_beq_iff g.bytes h.bytes).0 e)),
  λ e. (list_beq_iff g.bytes h.bytes).1 (ap (λ (i : Hash). i.bytes) e),
)

instance abbrev pub Hash_eq : Eq Hash
Hash_eq = record { beq = λ g h. list_beq g.bytes h.bytes; beq_iff = Hash_eq_iff }

pub data Job : Type 0 where
  download : FilePath → Hash → Job
  realize_file : FilePath → Hash → Option Hash → Job
  unrealize : FilePath → Hash → Job

-- `Job::path` and `Job::hash`.
unfoldable pub job_path : Job → FilePath
job_path (download path h) = path
job_path (realize_file path h from) = path
job_path (unrealize path h) = path

unfoldable pub job_hash : Job → Hash
job_hash (download path h) = h
job_hash (realize_file path h from) = h
job_hash (unrealize path h) = h

pub data JobStatus : Type 0 where
  done abandoned : JobStatus

-- `(Arena, JobId)`.
abbrev pub GlobalJobId : Type 0
GlobalJobId = String × ℕ

instance unfoldable pub GlobalJobId_eq : Eq GlobalJobId
GlobalJobId_eq = pair_eq ⦃a = string_eq⦄ ⦃b = nat_eq⦄
