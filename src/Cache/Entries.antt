-- ===== src/Cache/Entries.antt =====
-- The entries of one inode in a table with pairs as keys.
use realize.Prelude.{
  Bool, true, false, not, ◌&&◌, ◌||◌, ◌≡◌, ◌∙◌, refl, none, some, [], ◌∷◌, ◌==◌, ==_iff, arith,
}
use realize.Prelude.Eq.{
  nat_eq, list_eq, list_beq, list_beq_iff, pair_eq, lookup, delete, Unique, lookup-delete,
}
use realize.Prelude.Order
use realize.Prelude.Order.{
  nat_order, text_order, pair_order, Ascending, Above, lookup-insert, Ascending-Unique,
}
use realize.FilePath.{Text}
use realize.Inodes.{Inode}
use realize.Storage.{FileTableEntry}
use realize.Cache.{FileTable, key_eq, entries_of}

pub lookup-entries_of :
    (inode : Inode) (s : Text) (t : FileTable) → lookup s (entries_of inode t) ≡ lookup (inode, s) t
unfolding lookup entries_of
lookup-entries_of inode s [] = refl
lookup-entries_of inode s (((i, r), v) ∷ t) =
    ground (arith, lookup-entries_of inode s t, ==_iff i inode, list_beq_iff r s)

entries_of-none :
    (inode : Inode) (s : Text) (t : FileTable)
    → lookup (inode, s) t ≡ none
    → lookup s (entries_of inode t) ≡ none
entries_of-none inode s t h = lookup-entries_of inode s t ∙ h

pub entries_of-Unique : (inode : Inode) (t : FileTable) → Unique t → Unique (entries_of inode t)
unfolding lookup entries_of
entries_of-Unique inode [] u = tt
entries_of-Unique inode (((i, r), v) ∷ t) u =
    ground (arith, entries_of-Unique inode t u.1, entries_of-none i r t u.0, ==_iff i inode)

pub found : FileTable → Inode → Text → Bool
found t inode s = elim (lookup (inode, s) t) [ none ↦ false | some e ↦ true ]

pub found-insert :
    (k : Inode) (r : Text) (e : FileTableEntry) (t : FileTable) (inode : Inode) (s : Text)
    → found (Order.insert (k, r) e t) inode s ≡ ((k == inode && list_beq r s) || found t inode s)
unfolding found
found-insert k r e t inode s = ground (arith, lookup-insert (k, r) (inode, s) e t)

pub found-delete :
    (k : Inode) (r : Text) (t : FileTable) (inode : Inode) (s : Text)
    → Ascending t
    → found (delete (k, r) t) inode s ≡ (not (k == inode && list_beq r s) && found t inode s)
unfolding found
found-delete k r t inode s a =
    ground (arith, lookup-delete (k, r) (inode, s) t (Ascending-Unique t a))

pub found_entry :
    (t : FileTable) (inode : Inode) (s : Text) (e : FileTableEntry)
    → lookup (inode, s) t ≡ some e
    → found t inode s ≡ true
unfolding found
found_entry t inode s e h = rw (found, h) refl

pub unfound :
    (t : FileTable) (inode : Inode) (s : Text)
    → lookup (inode, s) t ≡ none
    → found t inode s ≡ false
unfolding found
unfound t inode s h = rw (found, h) refl

pub found_nothing : (inode : Inode) (s : Text) → found [] inode s ≡ false
unfolding found lookup
found_nothing inode s = refl
