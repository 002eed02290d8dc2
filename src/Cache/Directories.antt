-- ===== src/Cache/Directories.antt =====
-- `do_mkdirs` and `do_create_file` against `do_lookup_path`: what is created is found, and what could
-- be found still is.
use realize.Prelude.{
  false, ◌&&◌, ◌≡◌, ◌∙◌, ap, refl, none, some, List, [], ◌∷◌, ◌++◌, ◌==◌, ==_iff, if◌then◌else◌,
  arith, ◌⊎◌, inl, inr, Option-cases, All,
}
use mathlib.Core.Path.{subst}
use realize.Prelude.Eq.{nat_eq, list_eq, list_beq, list_beq_iff, lookup}
use realize.Prelude.Order
use realize.Prelude.Order.{nat_order, text_order, pair_order, lookup-insert}
use realize.Data.{Arena}
use realize.Dirty.{UnixTime}
use realize.FilePath.{Text}
use realize.Inodes.{Inode, InodeAllocator}
use realize.Storage.{ok, Result-cases}
use realize.Cache.{
  DirTable, DirTableEntry, ReadDirEntry, InodeAssignment, regular, dot_entry, dot_name, key_eq,
  into_readdir_entry, get_dir_entry, add_dir_entry, lookup_loop, allocate_inode, Made, make_entry,
  enter, mkdirs_loop, enter_file,
}

-- A name that is not the entry of a directory for itself.
abbrev pub IsName : Text → Type 0
IsName s = list_beq s dot_name ≡ false

-- Every entry with a name is still there.
abbrev pub Extends : DirTable → DirTable → Type 0
Extends dirs dirs' =
    (i : Inode) (s : Text) (e : ReadDirEntry)
    → IsName s
    → get_dir_entry dirs i s ≡ some e
    → get_dir_entry dirs' i s ≡ some e

lookup_dotted :
    (k : Inode) (v : DirTableEntry) (t : DirTable) (i : Inode) (r : Text)
    → IsName r
    → lookup (i, r) (Order.insert (k, dot_name) v t) ≡ lookup (i, r) t
lookup_dotted k v t i r d = ground (
  arith,
  lookup-insert (k, dot_name) (i, r) v t,
  list_beq_iff dot_name r,
  list_beq_iff r dot_name,
)

lookup-add :
    (now : UnixTime) (dirs : DirTable) (p new : Inode) (s : Text) (a : InodeAssignment) (i : Inode)
    (r : Text)
    → IsName r
    → lookup (i, r) (add_dir_entry now dirs p new s a)
      ≡ lookup (i, r) (Order.insert (p, s) (regular (record { inode = new; assignment = a })) dirs)
unfolding add_dir_entry
lookup-add now dirs p new s InodeAssignment.file i r d =
    let entry = regular (record { inode = new; assignment = InodeAssignment.file }) in
    lookup_dotted p (dot_entry now) (Order.insert (p, s) entry dirs) i r d
lookup-add now dirs p new s InodeAssignment.directory i r d =
    let entry = regular (record { inode = new; assignment = InodeAssignment.directory }) in
    let named = Order.insert (p, s) entry dirs in
    lookup_dotted new (dot_entry now) (Order.insert (p, dot_name) (dot_entry now) named) i r d
    ∙ lookup_dotted p (dot_entry now) named i r d

get-add :
    (now : UnixTime) (dirs : DirTable) (p new : Inode) (s : Text) (a : InodeAssignment) (i : Inode)
    (r : Text)
    → IsName r
    → get_dir_entry (add_dir_entry now dirs p new s a) i r ≡ (
        if p == i && list_beq s r
        then some (record { inode = new; assignment = a })
        else get_dir_entry dirs i r)
unfolding get_dir_entry into_readdir_entry
get-add now dirs p new s a i r d =
    let entry = regular (record { inode = new; assignment = a }) in
    rw (lookup-add now dirs p new s a i r d, lookup-insert (p, s) (i, r) entry dirs)
      (ground (arith))

-- What a new entry in a directory is.
make_entry-ok :
    (now : UnixTime) (arena : Arena) (allocator : InodeAllocator) (dirs : DirTable) (p : Inode)
    (s : Text) (a : InodeAssignment) (m : Made)
    → make_entry now arena allocator dirs p s a ≡ ok m
    → m.directories ≡ add_dir_entry now dirs p m.inode s a
unfolding make_entry
make_entry-ok now arena allocator dirs p s a m q =
    elim (Result-cases (allocate_inode allocator arena)) [
      | inr (e, g) ↦ cc
      | inl ((al, n), g) ↦
          let out : ◌≡◌ {A = Made}
              (record { allocator = al; directories = add_dir_entry now dirs p n s a; inode = n })
              m =
            cc in
          subst (λ (m : Made). m.directories ≡ add_dir_entry now dirs p m.inode s a) out refl
    ]

-- An entry of a directory that was created or found.
pub record Entered (dirs : DirTable) (p : Inode) (s : Text) (a : InodeAssignment) (m : Made)
    : Type 0 where
  pub entry : get_dir_entry m.directories p s ≡ some (record { inode = m.inode; assignment = a })
  pub extends : Extends dirs m.directories

made-Entered :
    (now : UnixTime) (arena : Arena) (allocator : InodeAllocator) (dirs : DirTable) (p : Inode)
    (s : Text) (a : InodeAssignment) (m : Made)
    → IsName s
    → get_dir_entry dirs p s ≡ none
    → make_entry now arena allocator dirs p s a ≡ ok m
    → Entered dirs p s a m
made-Entered now arena allocator dirs p s a m d n q =
    let made = make_entry-ok now arena allocator dirs p s a m q in
    record {
      entry = rw made (ground (arith, get-add now dirs p m.inode s a p s d, list_beq_iff s s));
      extends = λ i r e w g.
          rw made
            (ground (arith, get-add now dirs p m.inode s a i r w, ==_iff p i, list_beq_iff s r));
    }

found-Entered :
    (m : Made) (s : Text) (a : InodeAssignment) (e : ReadDirEntry)
    → get_dir_entry m.directories m.inode s ≡ some e
    → e.assignment ≡ a
    → Entered m.directories m.inode s a (record m { inode = e.inode })
found-Entered m s a e n h = record {
  entry = n ∙ ap (λ (b : InodeAssignment). some (record { inode = e.inode; assignment = b })) h;
  extends = λ i r e' w g. g;
}

assignment-cases :
    (a : InodeAssignment) → (a ≡ InodeAssignment.file) ⊎ (a ≡ InodeAssignment.directory)
assignment-cases InodeAssignment.file = inl refl
assignment-cases InodeAssignment.directory = inr refl

-- A step of `do_mkdirs`.
enter-Entered :
    (now : UnixTime) (arena : Arena) (m : Made) (s : Text) (m' : Made)
    → IsName s
    → enter now arena m s ≡ ok m'
    → Entered m.directories m.inode s InodeAssignment.directory m'
unfolding enter
enter-Entered now arena m s m' d q = elim (Option-cases (get_dir_entry m.directories m.inode s)) [
  | inl n ↦
      made-Entered now arena m.allocator m.directories m.inode s InodeAssignment.directory m' d n
        (cc)
  | inr (e, n) ↦ elim (assignment-cases e.assignment) [
    | inl f ↦ cc
    | inr f ↦
        let out : ◌≡◌ {A = Made} (record m { inode = e.inode }) m' = cc in
        subst (Entered m.directories m.inode s InodeAssignment.directory) out
          (found-Entered m s InodeAssignment.directory e n f)
  ]
]

pub enter_file-Entered :
    (now : UnixTime) (arena : Arena) (m : Made) (s : Text) (m' : Made)
    → IsName s
    → enter_file now arena m s ≡ ok m'
    → Entered m.directories m.inode s InodeAssignment.file m'
unfolding enter_file
enter_file-Entered now arena m s m' d q =
    elim (Option-cases (get_dir_entry m.directories m.inode s)) [
      | inl n ↦
          made-Entered now arena m.allocator m.directories m.inode s InodeAssignment.file m' d n
            (cc)
      | inr (e, n) ↦ elim (assignment-cases e.assignment) [
        | inr f ↦ cc
        | inl f ↦
            let out : ◌≡◌ {A = Made} (record m { inode = e.inode }) m' = cc in
            subst (Entered m.directories m.inode s InodeAssignment.file) out
              (found-Entered m s InodeAssignment.file e n f)
      ]
    ]

-- A path that leads somewhere leads there in every extension.
pub lookup_loop-Extends :
    (dirs dirs' : DirTable) (ss : List Text) (current x : Inode × InodeAssignment)
    → All IsName ss
    → Extends dirs dirs'
    → lookup_loop dirs current ss ≡ ok x
    → lookup_loop dirs' current ss ≡ ok x
unfolding lookup_loop
lookup_loop-Extends dirs dirs' [] current x d w q = q
lookup_loop-Extends dirs dirs' (s ∷ ss) (i, InodeAssignment.file) x d w q = cc
lookup_loop-Extends dirs dirs' (s ∷ ss) (i, InodeAssignment.directory) x d w q =
    elim (Option-cases (get_dir_entry dirs i s)) [
      | inl n ↦ cc
      | inr (e, n) ↦
          rw (lookup_loop, w i s e d.0 n)
            (lookup_loop-Extends dirs dirs' ss (e.inode, e.assignment) x d.1 w (cc))
    ]

step_down :
    (dirs : DirTable) (i : Inode) (s : Text) (ss : List Text) (e : ReadDirEntry)
    → get_dir_entry dirs i s ≡ some e
    → lookup_loop dirs (i, InodeAssignment.directory) (s ∷ ss)
      ≡ lookup_loop dirs (e.inode, e.assignment) ss
unfolding lookup_loop
step_down dirs i s ss e h = rw (lookup_loop, h) refl

-- The directories that `do_mkdirs` goes through.
pub mkdirs_loop-lookup_loop :
    (now : UnixTime) (arena : Arena) (ss : List Text) (m m' : Made)
    → All IsName ss
    → mkdirs_loop now arena m ss ≡ ok m'
    → (lookup_loop m'.directories (m.inode, InodeAssignment.directory) ss
        ≡ ok (m'.inode, InodeAssignment.directory))
      × Extends m.directories m'.directories
unfolding mkdirs_loop
mkdirs_loop-lookup_loop now arena [] m m' d q =
    let out : m ≡ m' = cc in
    subst
      (λ (k : Made).
        (lookup_loop k.directories (m.inode, InodeAssignment.directory) []
          ≡ ok (k.inode, InodeAssignment.directory))
        × Extends m.directories k.directories)
      out ((unfold lookup_loop in refl), λ i s e w g. g)
mkdirs_loop-lookup_loop now arena (s ∷ ss) m m' d q = elim (Result-cases (enter now arena m s)) [
  | inr (e, g) ↦ cc
  | inl (m1, g) ↦
      let here = enter-Entered now arena m s m1 d.0 g in
      let rest = mkdirs_loop-lookup_loop now arena ss m1 m' d.1 (cc) in
      let e : ReadDirEntry = record { inode = m1.inode; assignment = InodeAssignment.directory } in
      (
        step_down m'.directories m.inode s ss e (rest.1 m.inode s e d.0 here.entry) ∙ rest.0,
        λ i r f w h. rest.1 i r f w (here.extends i r f w h),
      )
]

pub lookup_loop-append :
    (dirs : DirTable) (ss : List Text) (s : Text) (current : Inode × InodeAssignment) (i : Inode)
    (e : ReadDirEntry)
    → lookup_loop dirs current ss ≡ ok (i, InodeAssignment.directory)
    → get_dir_entry dirs i s ≡ some e
    → lookup_loop dirs current (ss ++ s ∷ []) ≡ ok (e.inode, e.assignment)
unfolding lookup_loop
lookup_loop-append dirs [] s current i e q h =
    let at : ◌≡◌ {A = Inode × InodeAssignment} (i, InodeAssignment.directory) current = cc in
    subst
      (λ (c : Inode × InodeAssignment). lookup_loop dirs c (s ∷ []) ≡ ok (e.inode, e.assignment)) at
      (step_down dirs i s [] e h)
lookup_loop-append dirs (r ∷ ss) s (j, InodeAssignment.file) i e q h = cc
lookup_loop-append dirs (r ∷ ss) s (j, InodeAssignment.directory) i e q h =
    elim (Option-cases (get_dir_entry dirs j r)) [
      | inl n ↦ cc
      | inr (f, n) ↦
          rw (lookup_loop, n) (lookup_loop-append dirs ss s (f.inode, f.assignment) i e (cc) h)
    ]
