-- ===== src/Cache/Catchup.antt =====
-- A new version of a file that is reported by a catchup, against `file_availability`.
use realize.Prelude.{
  false, ◌≡◌, ◌∙◌, sym, ap, refl, none, some, [], ◌∷◌, arith, inl, inr, Bool-cases,
}
use realize.Prelude.Eq.{nat_eq, list_eq, list_beq, list_beq_iff, lookup, Assoc, Unique}
use realize.Prelude.Order
use realize.Prelude.Order.{
  nat_order, text_order, pair_order, lookup-insert, insert-Ascending, Ascending-Unique,
}
use realize.Data.{Arena, Hash, Hash_eq}
use realize.FilePath.{Text}
use realize.Inodes.{Inode}
use realize.Storage.{err, not_found, FileTableEntry, Peer}
use realize.Cache.{ArenaCache, key_eq, entries_of}
use realize.Cache.Files.{
  default_key, get_file_entry, do_write_file_entry, peers_with, availability_of_default,
  availability_in, do_file_availability,
}
use realize.Cache.Updates.{catchup_entry, with_default, do_unmark_peer_file}
use realize.Cache.Entries.{lookup-entries_of, entries_of-Unique}
use realize.Cache.Defaults.{Shown, IsPeer}

-- An entry of the rest of a list is an entry of the list.
lookup_later :
    (s r : Text) (e f : FileTableEntry) (m : Assoc Text FileTableEntry)
    → lookup s m ≡ none
    → lookup r m ≡ some f
    → (list_beq s r ≡ false) × (lookup r ((s, e) ∷ m) ≡ some f)
unfolding lookup
lookup_later s r e f m n h = ground (arith, list_beq_iff s r)

peers_with-none :
    (h : Hash) (m : Assoc Text FileTableEntry)
    → Unique m
    → ((s : Text) (f : FileTableEntry) → lookup s m ≡ some f → Hash_eq.beq f.content.hash h ≡ false)
    → peers_with h m ≡ []
unfolding peers_with
peers_with-none h [] u n = refl
peers_with-none h ((s, e) ∷ m) u n =
    let rest = peers_with-none h m u.1 (λ r f g. n r f (lookup_later s r e f m u.0 g).1) in
    let here = n s e (unfold lookup in (ground (arith, list_beq_iff s s))) in rw here rest

availability_in-none :
    (arena : Arena) (d : FileTableEntry) (m : Assoc Text FileTableEntry)
    → Unique m
    → lookup default_key m ≡ some d
    → ((s : Text) (f : FileTableEntry)
        → IsPeer s
        → lookup s m ≡ some f
        → Hash_eq.beq f.content.hash d.content.hash ≡ false)
    → availability_in arena m ≡ err not_found
unfolding availability_in availability_of_default
availability_in-none arena d [] u h n = refl
availability_in-none arena d ((s, e) ∷ m) u h n = elim (Bool-cases (list_beq s default_key)) [
  | inr k ↦ rw k refl
  | inl k ↦
      let same : e ≡ d = unfold lookup in (ground (arith, h)) in
      let none_left = peers_with-none e.content.hash m u.1 (λ r f g.
        let (differ, there) = lookup_later s r e f m u.0 g in
        let peer : IsPeer r =
          ground
            (arith, list_beq_iff s default_key, list_beq_iff r default_key, list_beq_iff s r) in
        rw same (n r f peer there)) in
      rw (k, none_left) refl
]

with_default_there :
    (c : ArenaCache) (inode : Inode) (e d : FileTableEntry)
    → lookup (inode, default_key) c.files ≡ some d
    → with_default c inode e ≡ c
unfolding with_default get_file_entry
with_default_there c inode e d h = rw (with_default, h) refl

-- If the only peer of a file reports another version of it in a catchup, the default entry keeps the
-- old version, and the file is not available from any peer.
pub catchup_entry-unavailable :
    (c : ArenaCache) (inode : Inode) (peer : Peer) (e d : FileTableEntry) (arena : Arena)
    → IsPeer peer
    → Shown c.files
    → lookup (inode, default_key) c.files ≡ some d
    → ((s : Text) (f : FileTableEntry) → IsPeer s → lookup (inode, s) c.files ≡ some f → s ≡ peer)
    → Hash_eq.beq e.content.hash d.content.hash ≡ false
    → let files = (catchup_entry c inode peer e).files in
      (lookup (inode, default_key) files ≡ some d)
      × (do_file_availability files inode arena ≡ err not_found)
unfolding do_file_availability catchup_entry do_write_file_entry do_unmark_peer_file
catchup_entry-unavailable c inode peer e d arena p v h only n =
    let t = Order.insert (inode, peer) e c.files in
    let once =
      entries_of-Unique inode t
        (Ascending-Unique t (insert-Ascending (inode, peer) e c.files v.ascending)) in
    let here = λ (s : Text). lookup-insert (inode, peer) (inode, s) e c.files in
    let still : lookup (inode, default_key) t ≡ some d = ground (arith, here default_key) in
    let files : (catchup_entry c inode peer e).files ≡ t =
      ap (λ (k : ArenaCache). k.files)
        (with_default_there (do_write_file_entry (do_unmark_peer_file c peer inode) inode peer e)
          inode e d still) in
    rw files (
      still,
      availability_in-none arena d (entries_of inode t) once
          (lookup-entries_of inode default_key t ∙ still)
          (λ s f q g.
            let there : lookup (inode, s) t ≡ some f = sym (lookup-entries_of inode s t) ∙ g in
            elim (Bool-cases (list_beq peer s)) [
              | inl k ↦ let same : f ≡ e = ground (arith, here s) in rw same n
              | inr k ↦
                  let old : lookup (inode, s) c.files ≡ some f = ground (arith, here s) in
                  let name = only s f q old in ground (arith, list_beq_iff peer s)
            ]),
    )
