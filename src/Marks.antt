-- ===== src/Marks.antt =====
-- `PathMarks` of crate/realize-storage/src/arena/mark.rs: the marks of paths, inherited from the nearest
-- parent that has one. `none` in place of a path is the root of the arena.
pub mod Inheritance
pub mod Marking
use realize.Prelude.{ℕ, zero, suc, Bool, true, false, not, Option, none, some, List, [], length}
use realize.Prelude.Eq.{nat_eq, list_eq, Assoc, lookup, put, delete}
use realize.FilePath.{Text, FilePath, parent}
use realize.Engine.{Mark, watch, keep, own}

-- `mark_table`, with the root at the empty text.
abbrev pub MarkTable : Type 0
MarkTable = Assoc Text Mark

abbrev pub key : Option FilePath → Text
key none = []
key (some path) = path.chars

-- The derived `==` on marks.
unfoldable pub same_mark : Mark → Mark → Bool
same_mark watch watch = true
same_mark keep keep = true
same_mark own own = true
same_mark _ _ = false

-- The loop of `do_get_mark`; `none` means that the fuel ran out.
unfoldable pub mark_loop : ℕ → MarkTable → Option FilePath → Option Mark
unfolding parent
mark_loop zero t current = none
mark_loop (suc fuel) t none = elim (lookup [] t) [ some mark ↦ some mark | none ↦ some watch ]
mark_loop (suc fuel) t (some path) =
    let rest = mark_loop fuel t (parent path) in
    elim (lookup path.chars t) [ some mark ↦ some mark | none ↦ rest ]

-- A bound on the number of parents.
abbrev pub size : Option FilePath → ℕ
size none = 0
size (some path) = suc (length path.chars)

unfoldable pub do_get_mark : MarkTable → Option FilePath → Option Mark
unfolding mark_loop
do_get_mark t path = mark_loop (suc (size path)) t path

-- `before != after`, on marks as `do_get_mark` returns them.
unfoldable pub impact : Option Mark → Option Mark → Bool
unfolding same_mark
impact (some before) (some after) = not (same_mark before after)
impact _ _ = true

-- The new table, and whether the files under the path are marked dirty.
unfoldable pub set_mark_or_root : MarkTable → Option FilePath → Mark → MarkTable × Bool
unfolding do_get_mark impact
set_mark_or_root t path mark = (put (key path) mark t, impact (do_get_mark t path) (some mark))

unfoldable pub clear_mark : MarkTable → FilePath → MarkTable × Bool
unfolding do_get_mark impact
clear_mark t path = elim (lookup path.chars t) [
  | none ↦ (t, false)
  | some before ↦
      let t' = delete path.chars t in (t', impact (some before) (do_get_mark t' (some path)))
]
