-- ===== src/Cache/Marking/Loops.antt =====
-- The loop of `mark_dir_dirty` over the entries of a directory: what it makes dirty, and what it keeps.
use realize.Prelude.{
  ℕ, zero, suc, Bool, true, false, ◌||◌, ◌≡◌, ◌∙◌, ap, refl, none, some, List, [], ◌∷◌, ◌⊎◌, inl,
  inr, Option-cases,
}
use mathlib.Core.Path.{subst}
use realize.Prelude.Eq.{nat_eq, list_eq, list_beq, pair_eq, lookup}
use realize.Dirty.{DirtyTables}
use realize.FilePath.{Text}
use realize.Index.Removal.{dirty_key, dirty_key-mark_dirty}
use realize.Inodes.{Inode}
use realize.Cache.{DirTable, FileTable, key_eq, InodeAssignment, ReadDirEntry, do_readdir}
use realize.Cache.Files.{default_key}
use realize.Cache.Marking.{mark_file_dirty, entry_dirty, mark_entries, mark_dir_dirty}

abbrev pub Among : (Text × ReadDirEntry) → List (Text × ReadDirEntry) → Type 0
Among x [] = ⊥
Among x (y ∷ ys) = (x ≡ y) ⊎ Among x ys

-- The files in a directory and in the directories under it.
pub data Under (dirs : DirTable) : Inode → Inode → Type 0 where
  child :
      (parent : Inode) (s : Text) (e : ReadDirEntry)
      → Among (s, e) (do_readdir dirs parent)
      → e.assignment ≡ InodeAssignment.file
      → Under dirs parent e.inode
  deeper :
      (parent inode : Inode) (s : Text) (e : ReadDirEntry)
      → Among (s, e) (do_readdir dirs parent)
      → e.assignment ≡ InodeAssignment.directory
      → Under dirs e.inode inode
      → Under dirs parent inode

-- The path of the default entry of a file.
unfoldable pub shown_at : FileTable → Inode → Text → Bool
shown_at files inode k = elim (lookup (inode, default_key) files) [
  | none ↦ false
  | some e ↦ list_beq e.content.path.chars k
]

pub dirty_key-mark_file :
    (files : FileTable) (inode : Inode) (t : DirtyTables) (k : Text)
    → dirty_key (mark_file_dirty files inode t) k ≡ shown_at files inode k || dirty_key t k
unfolding mark_file_dirty shown_at
dirty_key-mark_file files inode t k = elim (Option-cases (lookup (inode, default_key) files)) [
  | inl q ↦ rw (mark_file_dirty, shown_at, q) refl
  | inr (e, q) ↦ rw (mark_file_dirty, shown_at, q) (dirty_key-mark_dirty t e.content.path k)
]

-- Nothing becomes clean.
abbrev pub Kept : (DirtyTables → DirtyTables) → Type 0
Kept f = (t : DirtyTables) (k : Text) → dirty_key t k ≡ true → dirty_key (f t) k ≡ true

or_right : (a b : Bool) → b ≡ true → (a || b) ≡ true
or_right true b h = refl
or_right false b h = h

pub or_left : (a b : Bool) → a ≡ true → (a || b) ≡ true
or_left true b h = refl
or_left false b h = cc

pub or_cases : (a b : Bool) → (a || b) ≡ true → (a ≡ true) ⊎ (b ≡ true)
or_cases true b h = inl refl
or_cases false b h = inr h

pub mark_file-Kept : (files : FileTable) (inode : Inode) → Kept (mark_file_dirty files inode)
mark_file-Kept files inode t k h =
    dirty_key-mark_file files inode t k ∙ or_right (shown_at files inode k) (dirty_key t k) h

module _ (go : Inode → DirtyTables → DirtyTables) (files : FileTable) where
  entry-Kept : (a : InodeAssignment) (i : Inode) → Kept (go i) → Kept (entry_dirty go files a i)
  unfolding entry_dirty
  entry-Kept InodeAssignment.file i g t k h = mark_file-Kept files i t k h
  entry-Kept InodeAssignment.directory i g t k h = g t k h

  pub mark_entries-Kept :
      (entries : List (Text × ReadDirEntry))
      → ((i : Inode) → Kept (go i))
      → Kept (mark_entries go files entries)
  unfolding mark_entries
  mark_entries-Kept [] g t k h = h
  mark_entries-Kept ((s, e) ∷ entries) g t k h =
      mark_entries-Kept entries g (entry_dirty go files e.assignment e.inode t) k
        (entry-Kept e.assignment e.inode (g e.inode) t k h)

  -- What an entry makes dirty is dirty after the loop.
  pub mark_entries-reaches :
      (entries : List (Text × ReadDirEntry)) (s : Text) (e : ReadDirEntry) (k : Text)
      → ((i : Inode) → Kept (go i))
      → Among (s, e) entries
      → ((t : DirtyTables) → dirty_key (entry_dirty go files e.assignment e.inode t) k ≡ true)
      → (t : DirtyTables) → dirty_key (mark_entries go files entries t) k ≡ true
  unfolding mark_entries
  mark_entries-reaches [] s e k g m h t = elim m [ ]
  mark_entries-reaches ((s', e') ∷ entries) s e k g (inl q) h t =
      let same : e ≡ e' = ap (λ x. x.1) q in
      mark_entries-Kept entries g (entry_dirty go files e'.assignment e'.inode t) k (
        subst
          (λ (x : ReadDirEntry). dirty_key (entry_dirty go files x.assignment x.inode t) k ≡ true)
          same (h t))
  mark_entries-reaches ((s', e') ∷ entries) s e k g (inr m) h t =
      mark_entries-reaches entries s e k g m h (entry_dirty go files e'.assignment e'.inode t)

  -- What is dirty after the loop was dirty before, or an entry made it so.
  pub mark_entries-only :
      (entries : List (Text × ReadDirEntry)) (k : Text) (R : Type 0)
      → ((s : Text) (e : ReadDirEntry) (t : DirtyTables)
          → Among (s, e) entries
          → dirty_key (entry_dirty go files e.assignment e.inode t) k ≡ true
          → (dirty_key t k ≡ true) ⊎ R)
      → (t : DirtyTables) → dirty_key (mark_entries go files entries t) k ≡ true
      → (dirty_key t k ≡ true) ⊎ R
  unfolding mark_entries
  mark_entries-only [] k R f t h = inl h
  mark_entries-only ((s, e) ∷ entries) k R f t h =
      elim (mark_entries-only entries k R (λ s' e' t' m. f s' e' t' (inr m))
        (entry_dirty go files e.assignment e.inode t) h) [
          | inl d ↦ f s e t (inl refl) d
          | inr r ↦ inr r
        ]

pub mark_dir-Kept :
    (fuel : ℕ) (dirs : DirTable) (files : FileTable) (i : Inode)
    → Kept (mark_dir_dirty fuel dirs files i)
unfolding mark_dir_dirty
mark_dir-Kept zero dirs files i t k h = h
mark_dir-Kept (suc fuel) dirs files i t k h =
    mark_entries-Kept (mark_dir_dirty fuel dirs files) files (do_readdir dirs i)
      (mark_dir-Kept fuel dirs files) t k h
