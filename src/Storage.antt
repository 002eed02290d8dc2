-- ===== src/Storage.antt =====
-- The error type of crate/realize-storage/src/error.rs, fallible operations, and the table entries of
-- crate/realize-storage/src/global/types.rs. An operation that fails ends its transaction, so that an
-- error carries no state.
use realize.Prelude.{ℕ, ◌⊎◌, inl, inr, Option, none, some, ◌≡◌, refl}
use realize.Data.{Arena, Hash}
use realize.Dirty.{UnixTime}
use realize.FilePath.{Text, FilePath}
use realize.Inodes.{Inode}

pub data StorageError : Type 0 where
  database io byte_conversion unavailable not_found not_a_directory is_a_directory join_error
        invalid_rsync_signature :
      StorageError
  unknown_arena no_local_storage : Arena → StorageError

pub data Result {ℓ} (A : Type ℓ) : Type ℓ where
  err : StorageError → Result A
  ok : A → Result A

-- The `?` operator: what follows runs on the value, and an error ends the operation.
infixl 5 ◌>>=◌
abbrev pub ◌>>=◌ {ℓ κ} : {A : Type ℓ} {B : Type κ} → Result A → (A → Result B) → Result B
result >>= next = elim result [ err failure ↦ err failure | ok value ↦ next value ]

-- `ok_or`
abbrev pub ok_or {ℓ} : {A : Type ℓ} → StorageError → Option A → Result A
ok_or e none = err e
ok_or e (some a) = ok a

abbrev pub BlobId : Type 0
BlobId = ℕ

-- The name of a peer, which is not empty.
abbrev pub Peer : Type 0
Peer = Text

pub record FileMetadata : Type 0 where
  pub size : ℕ
  pub mtime : UnixTime

pub record FileContent : Type 0 where
  pub path : FilePath
  pub hash : Hash
  pub blob : Option BlobId

pub record FileTableEntry : Type 0 where
  pub metadata : FileMetadata
  pub content : FileContent
  pub parent_inode : Inode

-- `FileTableEntry::new`
unfoldable pub new_file_entry : FilePath → ℕ → UnixTime → Hash → Inode → FileTableEntry
new_file_entry path size mtime hash parent_inode = record {
  metadata = record { size = size; mtime = mtime };
  content = record { path = path; hash = hash; blob = none };
  parent_inode = parent_inode;
}

pub Result-cases {ℓ} :
    {A : Type ℓ} (r : Result A) → ((a : A) × (r ≡ ok a)) ⊎ ((e : StorageError) × (r ≡ err e))
Result-cases (ok a) = inl (a, refl)
Result-cases (err e) = inr (e, refl)
