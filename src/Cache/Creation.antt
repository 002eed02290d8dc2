-- ===== src/Cache/Creation.antt =====
-- `do_create_file` against `do_lookup_path`, on whole paths.
use realize.Prelude.{◌≡◌, ◌∙◌, refl, Option, some, List, [], ◌∷◌, ◌++◌, inl, inr, Option-cases, All}
use mathlib.Core.Path.{subst}
use realize.Prelude.Eq.{nat_eq, list_eq}
use realize.Dirty.{UnixTime}
use realize.FilePath.{Text, FilePath, name, parent, components}
use realize.FilePath.Laws.{parent-some, parent-none}
use realize.Inodes.{Inode}
use realize.Storage.{ok, Result-cases}
use realize.Cache.{
  ArenaCache, ReadDirEntry, InodeAssignment, do_lookup_path, do_mkdirs, enter_file, do_create_file,
}
use realize.Cache.Directories.{
  IsName, Extends, enter_file-Entered, lookup_loop-Extends, mkdirs_loop-lookup_loop,
  lookup_loop-append,
}

All-append : (P : Text → Type 0) (xs ys : List Text) → All P (xs ++ ys) → All P xs × All P ys
All-append P [] ys a = (tt, a)
All-append P (x ∷ xs) ys a = let (l, r) = All-append P xs ys a.1 in ((a.0, l), r)

components-name :
    (path : FilePath) → components (some path) ≡ components (parent path) ++ name path ∷ []
components-name path = elim (Option-cases (parent path)) [
  | inl e ↦ rw e ((parent-none path e).1 ∙ (unfold components in refl))
  | inr (q, e) ↦ rw e ((parent-some path q e).1)
]

-- What is found after a file was created.
pub record Created (c c' : ArenaCache) (path : FilePath) (i j : Inode) : Type 0 where
  pub parent_found :
      do_lookup_path c'.directories c'.arena_root (parent path) ≡ ok (i, InodeAssignment.directory)
  pub file_found :
      do_lookup_path c'.directories c'.arena_root (some path) ≡ ok (j, InodeAssignment.file)
  pub still_found :
      (q : Option FilePath) (x : Inode × InodeAssignment)
      → All IsName (components q)
      → do_lookup_path c.directories c.arena_root q ≡ ok x
      → do_lookup_path c'.directories c'.arena_root q ≡ ok x

-- When `do_create_file` succeeds for a path whose components are names, the path leads to the inode of
-- the file, its parent to the inode of the directory, and every path that led somewhere still leads
-- there.
pub do_create_file-Created :
    (now : UnixTime) (c : ArenaCache) (path : FilePath) (c' : ArenaCache) (i j : Inode)
    → All IsName (components (some path))
    → do_create_file now c path ≡ ok (c', (i, j))
    → Created c c' path i j
unfolding do_create_file do_mkdirs do_lookup_path
do_create_file-Created now c path c' i j d q =
    let (dp, dn) =
      All-append IsName (components (parent path)) (name path ∷ [])
        (subst (All IsName) (components-name path) d) in
    elim (Result-cases
      (do_mkdirs now c.arena c.allocator c.directories c.arena_root (parent path))) [
        | inr (e, g) ↦ cc
        | inl (dir, g) ↦ elim (Result-cases (enter_file now c.arena dir (name path))) [
          | inr (e, g1) ↦ cc
          | inl (made, g1) ↦
              let out : ◌≡◌ {A = ArenaCache × (Inode × Inode)}
                  (
                    record c { allocator = made.allocator; directories = made.directories },
                    (dir.inode, made.inode),
                  )
                  (c', (i, j)) =
                cc in
              let file = enter_file-Entered now c.arena dir (name path) made dn.0 g1 in
              let (up, keeps) =
                mkdirs_loop-lookup_loop now c.arena (components (parent path)) _ dir dp g in
              let k : ArenaCache = record c {
                allocator = made.allocator;
                directories = made.directories;
              } in
              let extends : Extends c.directories made.directories =
                λ i s e w h. file.extends i s e w (keeps i s e w h) in
              let start : Inode × InodeAssignment = (c.arena_root, InodeAssignment.directory) in
              let leaf : ReadDirEntry = record {
                inode = made.inode;
                assignment = InodeAssignment.file;
              } in
              let at_parent =
                lookup_loop-Extends dir.directories made.directories (components (parent path))
                  start (dir.inode, InodeAssignment.directory) dp file.extends up in
              let made_found : Created c k path dir.inode made.inode = record {
                parent_found = at_parent;
                file_found = rw (components-name path) (
                    lookup_loop-append made.directories (components (parent path)) (name path) start
                      dir.inode leaf at_parent file.entry);
                still_found = λ r x w h.
                    lookup_loop-Extends c.directories made.directories (components r) _ x w extends
                      h;
              } in
              subst (λ (p : ArenaCache × (Inode × Inode)). Created c p.0 path p.1.0 p.1.1) out
                made_found
        ]
      ]
