-- ===== src/Notifier.antt =====
-- `subscribe` of crate/realize-storage/src/arena/notifier.rs: the notifications that a subscriber gets
-- of an index, as a list.
pub mod Learning
pub mod CatchingUp
use mathlib.Core.Option as OptionLib
use realize.Prelude.{
  ℕ, suc, ◌+◌, Bool, true, false, ◌&&◌, Option, none, some, List, [], ◌∷◌, ◌++◌, ltb, ◌==◌,
  if◌then◌else◌,
}
use realize.Prelude.Table
use realize.Prelude.Table.{Table}
use realize.Prelude.Eq.{nat_eq, list_eq, lookup}
use realize.ByteRange.{add64}
use realize.Data.{Arena}
use realize.FilePath.{FilePath}
use realize.Index.{
  IndexedFileTableEntry, HistoryTableEntry, RealIndex, last_history_index, get_file, has_file,
  all_files,
}
use realize.Notifications.{Notification, Progress, Uuid}

-- The notification of one history entry, which reports what is in the index now.
unfoldable pub notification_of : RealIndex → ℕ → HistoryTableEntry → Option Notification
unfolding get_file has_file
notification_of i n (HistoryTableEntry.add path) =
    OptionLib.map (λ e. Notification.add i.arena n path e.mtime e.size e.hash) (get_file i path)
notification_of i n (HistoryTableEntry.replace path old_hash) = elim (get_file i path) [
  | some e ↦ some (Notification.replace i.arena n path e.mtime e.size e.hash old_hash)
  | none ↦ some (Notification.remove i.arena n path old_hash)
]
notification_of i n (HistoryTableEntry.remove path old_hash) = elim (get_file i path) [
  | some e ↦ some (Notification.replace i.arena n path e.mtime e.size e.hash old_hash)
  | none ↦ some (Notification.remove i.arena n path old_hash)
]
notification_of i n (HistoryTableEntry.drop path old_hash) =
    if has_file i path then none else some (Notification.drop i.arena n path old_hash)

-- The loop of `send_notifications` over a range of the history.
unfoldable pub notifications_of : RealIndex → Table HistoryTableEntry → List Notification
unfolding notification_of
notifications_of i [] = []
notifications_of i ((n, ev) ∷ history) =
    let rest = notifications_of i history in
    elim (notification_of i n ev) [ none ↦ rest | some m ↦ m ∷ rest ]

-- `history(last_seen + 1..current + 1)`
unfoldable pub send_notifications : RealIndex → ℕ → ℕ → List Notification
unfolding notifications_of
send_notifications i last_seen current =
    notifications_of i (Table.range (add64 last_seen 1) (add64 current 1) i.history)

unfoldable pub catchup_files : Arena → List (FilePath × IndexedFileTableEntry) → List Notification
catchup_files a [] = []
catchup_files a ((path, e) ∷ files) =
    Notification.catchup a path e.mtime e.size e.hash ∷ catchup_files a files

unfoldable pub catchup : RealIndex → ℕ → List Notification
unfolding catchup_files all_files
catchup i catchup_index =
    Notification.catchup_start i.arena ∷ catchup_files i.arena (all_files i.files)
    ++ Notification.catchup_complete i.arena catchup_index ∷ []

-- The last index that a subscriber has seen; another store has other indexes.
unfoldable pub last_seen_of : Uuid → Option Progress → ℕ
last_seen_of uuid none = 0
last_seen_of uuid (some p) = if p.uuid == uuid then p.last_seen else 0

-- What is sent up to the history index at the time of the subscription. Later changes are sent by
-- `send_notifications` from there.
unfoldable pub subscribe : RealIndex → Uuid → Option Progress → List Notification
unfolding last_seen_of catchup send_notifications
subscribe i uuid progress =
    let last_seen = last_seen_of uuid progress in
    let current = last_history_index i.history in
    Notification.connected i.arena uuid
    ∷ (if last_seen == 0 && ltb last_seen current
        then catchup i current
        else send_notifications i last_seen current)
