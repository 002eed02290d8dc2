-- ===== src/Cache/Marking/Reach.antt =====
-- The paths that `mark_dirty_recursive` makes dirty are those of the files under its path.
use realize.Prelude.{
  ℕ, zero, suc, ◌+◌, ◌<◌, ◌≤◌, true, false, ◌≡◌, ◌↔◌, ◌∙◌, sym, ap, refl, Option, [], ◌∷◌, arith,
  ◌⊎◌, inl, inr, Bool-cases, ◌==◌,
}
use mathlib.Core.Path.{subst}
use realize.Prelude.Eq.{nat_eq, list_eq, pair_eq}
use realize.Dirty.{DirtyTables}
use realize.FilePath.{Text, FilePath}
use realize.Index.Removal.{dirty_key}
use realize.Inodes.{Inode}
use realize.Storage.{ok}
use realize.Cache.{
  ArenaCache, DirTable, FileTable, key_eq, InodeAssignment, ReadDirEntry, DirTableEntry, entries_of,
  regular_entries, do_readdir, do_lookup_path,
}
use realize.Cache.Marking.{mark_file_dirty, entry_dirty, mark_dir_dirty, mark_dirty_recursive}
use realize.Cache.Marking.Loops.{
  Among, Under, child, deeper, shown_at, or_left, or_cases, mark_file-Kept, mark_entries-reaches,
  mark_entries-only, mark_dir-Kept, dirty_key-mark_file,
}

-- A file under a directory whose path is `k`.
abbrev pub ShownUnder : DirTable → FileTable → Inode → Text → Type 0
ShownUnder dirs files i k = (j : Inode) × Under dirs i j × (shown_at files j k ≡ true)

-- An inode of an entry is greater than the one of its directory, and below `bound`: the entry gets
-- its inode when the directory is there.
abbrev pub Deepens : DirTable → ℕ → Type 0
Deepens dirs bound =
    (parent : Inode) (s : Text) (e : ReadDirEntry)
    → Among (s, e) (do_readdir dirs parent)
    → (parent < e.inode) × (e.inode < bound)

-- The same of a table.
abbrev pub Grows : ℕ → DirTable → Type 0
Grows bound [] = Unit
Grows bound (((p, s), DirTableEntry.regular e) ∷ m) =
    (p < e.inode) × (e.inode < bound) × Grows bound m
Grows bound (((p, s), DirTableEntry.dot_entry mtime) ∷ m) = Grows bound m

module _ (p : Inode) (s : Text) (v : DirTableEntry) (dirs : DirTable) (parent : Inode) where
  readdir_in :
      (p == parent) ≡ true
      → do_readdir (((p, s), v) ∷ dirs) parent ≡ regular_entries ((s, v) ∷ entries_of parent dirs)
  unfolding do_readdir
  readdir_in q =
      ap regular_entries {x = entries_of parent (((p, s), v) ∷ dirs)}
        {y = (s, v) ∷ entries_of parent dirs} (rw (entries_of, q) refl)

  readdir_out :
      (p == parent) ≡ false → do_readdir (((p, s), v) ∷ dirs) parent ≡ do_readdir dirs parent
  unfolding do_readdir
  readdir_out q =
      ap regular_entries {x = entries_of parent (((p, s), v) ∷ dirs)} {y = entries_of parent dirs}
        (rw (entries_of, q) refl)

pub Grows-Deepens : (bound : ℕ) (dirs : DirTable) → Grows bound dirs → Deepens dirs bound
unfolding do_readdir entries_of regular_entries
Grows-Deepens bound [] g parent s e m = elim m [ ]
Grows-Deepens bound (((p, s'), DirTableEntry.regular e') ∷ dirs) g parent s e m =
    elim (Bool-cases (p == parent)) [
      | inl q ↦
          elim (subst (Among (s, e)) (readdir_in p s' (DirTableEntry.regular e') dirs parent q) m) [
            | inl h ↦
                let same : e' ≡ e = sym (ap (λ x. x.1) h) in
                subst (λ (x : ReadDirEntry). (parent < x.inode) × (x.inode < bound)) same
                  (ground (arith, q, g.0), g.1)
            | inr r ↦ Grows-Deepens bound dirs g.2 parent s e r
          ]
      | inr q ↦
          Grows-Deepens bound dirs g.2 parent s e
            (subst (Among (s, e)) (readdir_out p s' (DirTableEntry.regular e') dirs parent q) m)
    ]
Grows-Deepens bound (((p, s'), DirTableEntry.dot_entry mtime) ∷ dirs) g parent s e m =
    elim (Bool-cases (p == parent)) [
      | inl q ↦
          Grows-Deepens bound dirs g parent s e
            (subst (Among (s, e)) (readdir_in p s' (DirTableEntry.dot_entry mtime) dirs parent q) m)
      | inr q ↦
          Grows-Deepens bound dirs g parent s e (
            subst (Among (s, e)) (readdir_out p s' (DirTableEntry.dot_entry mtime) dirs parent q) m)
    ]

mark_file-shown :
    (files : FileTable) (inode : Inode) (t : DirtyTables) (k : Text)
    → shown_at files inode k ≡ true
    → dirty_key (mark_file_dirty files inode t) k ≡ true
mark_file-shown files inode t k h =
    dirty_key-mark_file files inode t k ∙ or_left (shown_at files inode k) (dirty_key t k) h

mark_file-only :
    (files : FileTable) (inode : Inode) (t : DirtyTables) (k : Text)
    → dirty_key (mark_file_dirty files inode t) k ≡ true
    → (shown_at files inode k ≡ true) ⊎ (dirty_key t k ≡ true)
mark_file-only files inode t k h =
    or_cases (shown_at files inode k) (dirty_key t k)
      (sym (dirty_key-mark_file files inode t k) ∙ h)

module _ (dirs : DirTable) (files : FileTable) (k : Text) where
  entry-only :
      (fuel : ℕ) (i : Inode) (s : Text) (e : ReadDirEntry) (t : DirtyTables)
      → Among (s, e) (do_readdir dirs i)
      → ((x : DirtyTables)
          → dirty_key (mark_dir_dirty fuel dirs files e.inode x) k ≡ true
          → (dirty_key x k ≡ true) ⊎ ShownUnder dirs files e.inode k)
      → (a : InodeAssignment) → e.assignment ≡ a
      → dirty_key (entry_dirty (mark_dir_dirty fuel dirs files) files a e.inode t) k ≡ true
      → (dirty_key t k ≡ true) ⊎ ShownUnder dirs files i k
  unfolding entry_dirty
  entry-only fuel i s e t m f InodeAssignment.file q h = elim (mark_file-only files e.inode t k h) [
    | inl d ↦ inr (e.inode, child i s e m q, d)
    | inr d ↦ inl d
  ]
  entry-only fuel i s e t m f InodeAssignment.directory q h = elim (f t h) [
    | inl d ↦ inl d
    | inr (j, u, d) ↦ inr (j, deeper i j s e m q u, d)
  ]

  mark_dir-only :
      (fuel : ℕ) (i : Inode) (t : DirtyTables)
      → dirty_key (mark_dir_dirty fuel dirs files i t) k ≡ true
      → (dirty_key t k ≡ true) ⊎ ShownUnder dirs files i k
  unfolding mark_dir_dirty
  mark_dir-only zero i t h = inl h
  mark_dir-only (suc fuel) i t h =
      mark_entries-only (mark_dir_dirty fuel dirs files) files (do_readdir dirs i) k
        (ShownUnder dirs files i k)
        (λ s e x m d. entry-only fuel i s e x m (mark_dir-only fuel e.inode) e.assignment refl d) t
        h

  entry-file :
      (fuel : ℕ) (e : ReadDirEntry) (t : DirtyTables)
      → e.assignment ≡ InodeAssignment.file
      → shown_at files e.inode k ≡ true
      → dirty_key (entry_dirty (mark_dir_dirty fuel dirs files) files e.assignment e.inode t) k
        ≡ true
  unfolding entry_dirty
  entry-file fuel e t q h =
      ap (λ a. dirty_key (entry_dirty (mark_dir_dirty fuel dirs files) files a e.inode t) k) q
      ∙ mark_file-shown files e.inode t k h

  entry-directory :
      (fuel : ℕ) (e : ReadDirEntry) (t : DirtyTables)
      → e.assignment ≡ InodeAssignment.directory
      → dirty_key (mark_dir_dirty fuel dirs files e.inode t) k ≡ true
      → dirty_key (entry_dirty (mark_dir_dirty fuel dirs files) files e.assignment e.inode t) k
        ≡ true
  unfolding entry_dirty
  entry-directory fuel e t q h =
      ap (λ a. dirty_key (entry_dirty (mark_dir_dirty fuel dirs files) files a e.inode t) k) q ∙ h

  mark_dir-reaches :
      (bound fuel : ℕ) (i j : Inode)
      → Deepens dirs bound
      → bound ≤ fuel + i
      → Under dirs i j
      → shown_at files j k ≡ true
      → (t : DirtyTables) → dirty_key (mark_dir_dirty fuel dirs files i t) k ≡ true
  unfolding mark_dir_dirty
  mark_dir-reaches bound zero i j d l (child p s e m q) h t =
      let x = d p s e m in let no : ⊥ = omega (arith, x.0, x.1) in elim no [ ]
  mark_dir-reaches bound zero i j d l (deeper p v s e m q u) h t =
      let x = d p s e m in let no : ⊥ = omega (arith, x.0, x.1) in elim no [ ]
  mark_dir-reaches bound (suc fuel) i j d l (child p s e m q) h t =
      mark_entries-reaches (mark_dir_dirty fuel dirs files) files (do_readdir dirs p) s e k
        (mark_dir-Kept fuel dirs files) m (λ x. entry-file fuel e x q h) t
  mark_dir-reaches bound (suc fuel) i j d l (deeper p v s e m q u) h t =
      let x = d p s e m in
      mark_entries-reaches (mark_dir_dirty fuel dirs files) files (do_readdir dirs p) s e k
        (mark_dir-Kept fuel dirs files) m
        (λ y.
          entry-directory fuel e y q
            (mark_dir-reaches bound fuel e.inode v d (omega (arith, x.0, l)) u h y))
        t

-- If the path leads to an inode, the inodes of entries are greater than those of their directories
-- and below a bound, and the fuel is at least the bound, then marking a path recursively makes dirty
-- exactly the paths that were dirty, the path of a file at the inode, and those of the files under it.
pub mark_dirty_recursive_lem :
    (c : ArenaCache) (path : Option FilePath) (inode : Inode) (a : InodeAssignment) (bound fuel : ℕ)
    → do_lookup_path c.directories c.arena_root path ≡ ok (inode, a)
    → Grows bound c.directories
    → bound ≤ fuel
    → (c' : ArenaCache) × (mark_dirty_recursive fuel c path ≡ ok c')
      × ((k : Text)
          → (dirty_key c'.tables k ≡ true) ↔ (
              (dirty_key c.tables k ≡ true)
              ⊎ ((shown_at c.files inode k ≡ true) ⊎ ShownUnder c.directories c.files inode k)))
unfolding mark_dirty_recursive
mark_dirty_recursive_lem c path inode a bound fuel q g l =
    let d = Grows-Deepens bound c.directories g in
    let tables = mark_file_dirty c.files inode c.tables in
    (
      record c { tables = mark_dir_dirty fuel c.directories c.files inode tables },
      rw (mark_dirty_recursive, q) refl,
      λ k. (
        λ h. elim (mark_dir-only c.directories c.files k fuel inode tables h) [
          | inr u ↦ inr (inr u)
          | inl e ↦ elim (mark_file-only c.files inode c.tables k e) [
            | inl s ↦ inr (inl s)
            | inr s ↦ inl s
          ]
        ],
        λ o. elim o [
          | inl h ↦
              mark_dir-Kept fuel c.directories c.files inode tables k
                (mark_file-Kept c.files inode c.tables k h)
          | inr (inl h) ↦
              mark_dir-Kept fuel c.directories c.files inode tables k
                (mark_file-shown c.files inode c.tables k h)
          | inr (inr (j, u, h)) ↦
              mark_dir-reaches c.directories c.files k bound fuel inode j d (omega arith) u h tables
        ],
      ),
    )
