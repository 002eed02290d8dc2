-- ===== src/Notifications.antt =====
-- `Notification` and `Progress` of crate/realize-storage/src/arena/notifier.rs: what a peer reports of
-- the files in its local store.
use realize.Prelude.{ℕ, Option, none, some}
use realize.Data.{Arena, Hash}
use realize.Dirty.{UnixTime}
use realize.FilePath.{FilePath}

-- 128 bits.
abbrev pub Uuid : Type 0
Uuid = ℕ

pub data Notification : Type 0 where
  add :
      (arena : Arena) (index : ℕ) (path : FilePath) (mtime : UnixTime) (size : ℕ) (hash : Hash)
      → Notification
  replace :
      (arena : Arena) (index : ℕ) (path : FilePath) (mtime : UnixTime) (size : ℕ)
      (hash old_hash : Hash)
      → Notification
  remove : (arena : Arena) (index : ℕ) (path : FilePath) (old_hash : Hash) → Notification
  drop : (arena : Arena) (index : ℕ) (path : FilePath) (old_hash : Hash) → Notification
  catchup_start : (arena : Arena) → Notification
  catchup :
      (arena : Arena) (path : FilePath) (mtime : UnixTime) (size : ℕ) (hash : Hash) → Notification
  catchup_complete : (arena : Arena) (index : ℕ) → Notification
  connected : (arena : Arena) (uuid : Uuid) → Notification

-- `Notification::arena`, `path` and `index`.
unfoldable pub arena : Notification → Arena
arena (Notification.add a i p t n h) = a
arena (Notification.replace a i p t n h g) = a
arena (Notification.remove a i p g) = a
arena (Notification.drop a i p g) = a
arena (Notification.catchup_start a) = a
arena (Notification.catchup a p t n h) = a
arena (Notification.catchup_complete a i) = a
arena (Notification.connected a u) = a

unfoldable pub path : Notification → Option FilePath
path (Notification.add a i p t n h) = some p
path (Notification.replace a i p t n h g) = some p
path (Notification.remove a i p g) = some p
path (Notification.drop a i p g) = some p
path (Notification.catchup_start a) = none
path (Notification.catchup a p t n h) = some p
path (Notification.catchup_complete a i) = none
path (Notification.connected a u) = none

unfoldable pub index : Notification → Option ℕ
index (Notification.add a i p t n h) = some i
index (Notification.replace a i p t n h g) = some i
index (Notification.remove a i p g) = some i
index (Notification.drop a i p g) = some i
index (Notification.catchup_start a) = none
index (Notification.catchup a p t n h) = none
index (Notification.catchup_complete a i) = some i
index (Notification.connected a u) = none

pub record Progress : Type 0 where
  pub uuid : Uuid
  pub last_seen : ℕ
