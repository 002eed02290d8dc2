-- ===== src/Blobs/Histories.antt =====
-- Any sequence of calls on a handle, with other handles, deletions and moved files in between.
use realize.Prelude.{Bool, true, false}
use realize.Blobs.Handle.{Task, not_joined}
use realize.Blobs.Bytes.{Bytes}
use realize.Blobs.Requests.{Request, update, verify_content, delete, move_into}

-- The requests that take no byte away.
abbrev pub joins : Task → Bool
joins (not_joined ran) = false
joins _ = true

abbrev pub is_safe : Request → Bool
is_safe (update synced task) = joins task
is_safe (verify_content synced task hash_task) = joins task
is_safe delete = false
is_safe (move_into size) = false
is_safe _ = true
