-- ===== src/Cache/Visibility.antt =====
-- No notification of any peer breaks the tie between default entries and entries of peers.
use realize.Prelude.{
  ℕ, true, ◌≡◌, sym, ap, refl, Option, none, some, List, [], ◌∷◌, arith, inl, inr, Option-cases,
  Bool-cases,
}
use mathlib.Core.Path.{subst}
use realize.Prelude.Eq.{nat_eq, list_eq, lookup}
use realize.Prelude.Order
use realize.Prelude.Order.{nat_order, text_order, pair_order}
use realize.Data.{Hash}
use realize.FilePath.{Text, FilePath, name, parent}
use realize.Inodes.{Inode}
use realize.Notifications.{Notification, Uuid}
use realize.Storage.{Result-cases, ok, ◌>>=◌, FileTableEntry, Peer, new_file_entry}
use realize.Cache.{
  ArenaCache, key_eq, do_create_file, do_mkdirs, enter_file, do_lookup_path, get_dir_entry,
}
use realize.Cache.Files.{
  Env, default_key, get_file_entry, do_write_file_entry, do_write_default_file_entry,
  do_rm_file_entry,
}
use realize.Cache.Updates.{
  add_entry, replace_entry, catchup_entry, with_default, marked, unmarked, entry_has_hash,
  do_unlink, rm_loop, do_delete_marked_files, connect, update, do_unmark_peer_file,
  do_mark_peer_files, do_update_last_seen_notification, is_directory,
}
use realize.Cache.Entries.{found, found-insert, found_entry}
use realize.Cache.Defaults.{Shown, IsPeer, peer-Shown, first-Shown, do_rm_file_entry-Shown}

-- The entry of a peer followed by the default entry, if there is none.
with_default-Shown :
    (c : ArenaCache) (inode : Inode) (peer : Text) (e : FileTableEntry)
    → IsPeer peer
    → Shown c.files
    → Shown (with_default (do_write_file_entry c inode peer e) inode e).files
unfolding with_default get_file_entry do_write_file_entry do_write_default_file_entry
with_default-Shown c inode peer e p v =
    let t1 = Order.insert (inode, peer) e c.files in
    elim (Option-cases (lookup (inode, default_key) t1)) [
      | inl n ↦ rw (with_default, n) (first-Shown c.files v inode peer e e p)
      | inr (d, n) ↦
          let here : found c.files inode default_key ≡ true = ground (
            arith,
            found_entry t1 inode default_key d n,
            found-insert inode peer e c.files inode default_key,
          ) in
          rw (with_default, n) (peer-Shown c.files v inode peer e p here)
    ]

add_entry-Shown :
    (c : ArenaCache) (inode : Inode) (peer : Text) (e : FileTableEntry)
    → IsPeer peer
    → Shown c.files
    → Shown (add_entry c inode peer e).files
unfolding add_entry get_file_entry
add_entry-Shown c inode peer e p v = elim (Option-cases (lookup (inode, peer) c.files)) [
  | inl n ↦ rw (add_entry, n) (with_default-Shown c inode peer e p v)
  | inr (d, n) ↦ rw (add_entry, n) v
]

entry_has_hash-some :
    (o : Option FileTableEntry) (h : Hash)
    → entry_has_hash o h ≡ true
    → (e : FileTableEntry) × (o ≡ some e)
unfolding entry_has_hash
entry_has_hash-some none h q = cc
entry_has_hash-some (some e) h q = (e, refl)

replace_entry-Shown :
    (c : ArenaCache) (inode : Inode) (peer : Text) (e : FileTableEntry) (old_hash : Hash)
    → IsPeer peer
    → Shown c.files
    → Shown (replace_entry c inode peer e old_hash).files
unfolding replace_entry get_file_entry do_write_file_entry do_write_default_file_entry
replace_entry-Shown c inode peer e old_hash p v =
    elim (Bool-cases (entry_has_hash (lookup (inode, default_key) c.files) old_hash)) [
      | inl h ↦ rw (replace_entry, h) (first-Shown c.files v inode peer e e p)
      | inr h ↦ elim (Bool-cases (entry_has_hash (lookup (inode, peer) c.files) old_hash)) [
        | inr k ↦ rw (replace_entry, h, k) v
        | inl k ↦
            let (d, n) = entry_has_hash-some (lookup (inode, peer) c.files) old_hash k in
            rw (replace_entry, h, k)
              (peer-Shown c.files v inode peer e p
                (v.visible inode peer p (found_entry c.files inode peer d n)))
      ]
    ]

rm_loop-Shown :
    (env : Env) (peer : Text) (files : List (Inode × Inode)) (c : ArenaCache)
    → IsPeer peer
    → Shown c.files
    → Shown (rm_loop env peer files c).files
unfolding rm_loop
rm_loop-Shown env peer [] c p v = v
rm_loop-Shown env peer ((inode, parent_inode) ∷ files) c p v =
    rm_loop-Shown env peer files (do_rm_file_entry env c parent_inode inode peer none) p
      (do_rm_file_entry-Shown env c parent_inode inode peer none p v)

do_create_file-files :
    (now : ℕ) (c : ArenaCache) (path : FilePath) (c' : ArenaCache) (inodes : Inode × Inode)
    → do_create_file now c path ≡ ok (c', inodes)
    → c'.files ≡ c.files
unfolding do_create_file
do_create_file-files now c path c' inodes h =
    elim (Result-cases
      (do_mkdirs now c.arena c.allocator c.directories c.arena_root (parent path))) [
        | inr (e, g) ↦ cc
        | inl (dir, g) ↦ elim (Result-cases (enter_file now c.arena dir (name path))) [
          | inr (e, g1) ↦ cc
          | inl (made, g1) ↦
              let out : ◌≡◌ {A = ArenaCache × (Inode × Inode)}
                  (
                    record c { allocator = made.allocator; directories = made.directories },
                    (dir.inode, made.inode),
                  )
                  (c', inodes) =
                cc in
              sym (ap (λ (p : ArenaCache × (Inode × Inode)). p.0.files) out)
        ]
      ]

do_unlink-Shown :
    (env : Env) (c : ArenaCache) (peer : Text) (path : FilePath) (h : Hash) (c' : ArenaCache)
    → IsPeer peer
    → Shown c.files
    → do_unlink env c peer path h ≡ ok c'
    → Shown c'.files
unfolding do_unlink
do_unlink-Shown env c peer path h c' p v q =
    elim (Result-cases (do_lookup_path c.directories c.arena_root (parent path))) [
      | inr (e, g) ↦ cc
      | inl ((parent_inode, a), g) ↦ elim (Bool-cases (is_directory a)) [
        | inr d ↦ cc
        | inl d ↦ elim (Option-cases (get_dir_entry c.directories parent_inode (name path))) [
          | inl n ↦ cc
          | inr (e, n) ↦ elim (Bool-cases (is_directory e.assignment)) [
            | inl b ↦ cc
            | inr b ↦
                let out : do_rm_file_entry env c parent_inode e.inode peer (some h) ≡ c' = cc in
                subst (λ (k : ArenaCache). Shown k.files) out
                  (do_rm_file_entry-Shown env c parent_inode e.inode peer (some h) p v)
          ]
        ]
      ]
    ]

-- A change of a created file.
created-Shown :
    (now : ℕ) (c : ArenaCache) (path : FilePath) (f : ArenaCache → Inode → Inode → ArenaCache)
    (c' : ArenaCache)
    → ((k : ArenaCache) (parent_inode inode : Inode)
        → Shown k.files
        → Shown (f k parent_inode inode).files)
    → Shown c.files
    → (do_create_file now c path >>= λ x. ok (f x.0 x.1.0 x.1.1)) ≡ ok c'
    → Shown c'.files
created-Shown now c path f c' keeps v q = elim (Result-cases (do_create_file now c path)) [
  | inr (e, g) ↦ cc
  | inl ((k, (i, j)), g) ↦
      let same = do_create_file-files now c path k (i, j) g in
      let out : f k i j ≡ c' = cc in
      subst (λ (k : ArenaCache). Shown k.files) out (keeps k i j (subst Shown (sym same) v))
]

connect-files : (c : ArenaCache) (peer : Text) (uuid : Uuid) → (connect c peer uuid).files ≡ c.files
unfolding connect
connect-files c peer uuid = ground arith

-- Whatever a peer reports, in a catchup or not, a file has a default entry afterwards if and only if
-- it has an entry of some peer, if that was so before.
pub update-Shown :
    (env : Env) (c : ArenaCache) (peer : Peer) (n : Notification) (c' : ArenaCache)
    → IsPeer peer
    → Shown c.files
    → update env c peer n ≡ ok c'
    → Shown c'.files
unfolding update catchup_entry do_delete_marked_files do_mark_peer_files do_unmark_peer_file
    do_update_last_seen_notification
update-Shown env c peer (Notification.add a x path mtime size hash) c' p v q =
    created-Shown env.now (do_update_last_seen_notification c peer x) path
      (λ k i j. add_entry k j peer (new_file_entry path size mtime hash i)) c'
      (λ k i j w. add_entry-Shown k j peer (new_file_entry path size mtime hash i) p w) v q
update-Shown env c peer (Notification.replace a x path mtime size hash old_hash) c' p v q =
    created-Shown env.now (do_update_last_seen_notification c peer x) path
      (λ k i j. replace_entry k j peer (new_file_entry path size mtime hash i) old_hash) c'
      (λ k i j w. replace_entry-Shown k j peer (new_file_entry path size mtime hash i) old_hash p w)
      v q
update-Shown env c peer (Notification.remove a x path old_hash) c' p v q =
    do_unlink-Shown env (do_update_last_seen_notification c peer x) peer path old_hash c' p v q
update-Shown env c peer (Notification.drop a x path old_hash) c' p v q =
    do_unlink-Shown env (do_update_last_seen_notification c peer x) peer path old_hash c' p v q
update-Shown env c peer (Notification.catchup_start a) c' p v q =
    let out : do_mark_peer_files c peer ≡ c' = cc in subst (λ (k : ArenaCache). Shown k.files) out v
update-Shown env c peer (Notification.catchup a path mtime size hash) c' p v q =
    created-Shown env.now c path
      (λ k i j. catchup_entry k j peer (new_file_entry path size mtime hash i)) c'
      (λ k i j w.
        with_default-Shown (do_unmark_peer_file k peer j) j peer
          (new_file_entry path size mtime hash i) p w)
      v q
update-Shown env c peer (Notification.catchup_complete a x) c' p v q =
    let out : do_update_last_seen_notification (do_delete_marked_files env c peer) peer x ≡ c' =
      cc in
    subst (λ (k : ArenaCache). Shown k.files) out
      (rm_loop-Shown env peer (marked peer c.pending_catchup)
        (record c { pending_catchup = unmarked peer c.pending_catchup }) p v)
update-Shown env c peer (Notification.connected a uuid) c' p v q =
    let out : connect c peer uuid ≡ c' = cc in
    subst (λ (k : ArenaCache). Shown k.files) out (rw (connect-files c peer uuid) v)
