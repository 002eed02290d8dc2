-- ===== src/Cache/Defaults.antt =====
-- The default entries against the entries of the peers: a file is visible exactly as long as a peer
-- has it.
use realize.Prelude.{
  ℕ, true, false, ◌≡◌, ◌∙◌, sym, refl, Option, none, some, [], ◌∷◌, ◌==◌, ==_iff, if◌then◌else◌,
  arith, inl, inr, Option-cases, Bool-cases,
}
use mathlib.Core.Path.{subst}
use realize.Prelude.Eq.{
  nat_eq, list_eq, list_beq, list_beq_iff, pair_eq, Assoc, lookup, delete, lookup-delete,
  delete-Unique,
}
use realize.Prelude.Order
use realize.Prelude.Order.{
  nat_order, text_order, pair_order, Ascending, lookup-insert, insert-Ascending, delete-Ascending,
  Ascending-Unique,
}
use realize.Data.{Hash, Hash_eq}
use realize.FilePath.{Text, FilePath}
use realize.Inodes.{Inode}
use realize.Storage.{FileTableEntry}
use realize.Cache.{ArenaCache, FileTable, key_eq, entries_of}
use realize.Cache.Files.{
  Env, default_key, do_write_default_file_entry, forget_file, choose_default, no_entries,
  rm_peer_entry, do_rm_file_entry, some_hash, most_recent, other_version,
}
use realize.Cache.Entries.{
  found_nothing, found, found-insert, found-delete, lookup-entries_of, entries_of-Unique,
  found_entry, unfound,
}

-- The name of a peer.
abbrev pub IsPeer : Text → Type 0
IsPeer s = list_beq s default_key ≡ false

-- A file has a default entry if and only if it has an entry of a peer.
pub record Shown (t : FileTable) : Type 0 where
  pub ascending : Ascending t
  pub visible :
      (inode : Inode) (s : Text)
      → IsPeer s
      → found t inode s ≡ true
      → found t inode default_key ≡ true
  pub backed :
      (inode : Inode)
      → found t inode default_key ≡ true
      → (s : Text) × IsPeer s × (found t inode s ≡ true)

module _ (t : FileTable) (v : Shown t) (inode : Inode) where
  -- Another version for a peer, in a file that is visible.
  pub peer-Shown :
      (peer : Text) (e : FileTableEntry)
      → IsPeer peer
      → found t inode default_key ≡ true
      → Shown (Order.insert (inode, peer) e t)
  peer-Shown peer e p h = record {
    ascending = insert-Ascending (inode, peer) e t v.ascending;
    visible = λ i s q f. ground (
      arith,
      found-insert inode peer e t i s,
      found-insert inode peer e t i default_key,
      v.visible i s q,
      ==_iff inode i,
    );
    backed = λ i f.
        let (s, q, g) = v.backed i (ground (arith, found-insert inode peer e t i default_key)) in
        (s, q, ground (arith, found-insert inode peer e t i s));
  }

  -- Another default entry, in a file that is visible.
  pub default-Shown :
      (e : FileTableEntry)
      → found t inode default_key ≡ true
      → Shown (Order.insert (inode, default_key) e t)
  default-Shown e h = record {
    ascending = insert-Ascending (inode, default_key) e t v.ascending;
    visible = λ i s q f. ground (
      arith,
      found-insert inode default_key e t i s,
      found-insert inode default_key e t i default_key,
      v.visible i s q,
      list_beq_iff s default_key,
      list_beq_iff default_key s,
    );
    backed = λ i f.
        let h' : found t i default_key ≡ true =
          ground (arith, found-insert inode default_key e t i default_key, ==_iff inode i) in
        let (s, q, g) = v.backed i h' in
        (s, q, ground (arith, found-insert inode default_key e t i s));
  }

  -- The first version of a file.
  pub first-Shown :
      (peer : Text) (e d : FileTableEntry)
      → IsPeer peer
      → Shown (Order.insert (inode, default_key) d (Order.insert (inode, peer) e t))
  first-Shown peer e d p =
      let t1 = Order.insert (inode, peer) e t in
      let one = λ (i : Inode) (s : Text). found-insert inode peer e t i s in
      let two = λ (i : Inode) (s : Text). found-insert inode default_key d t1 i s in
      record {
        ascending =
            insert-Ascending (inode, default_key) d t1
              (insert-Ascending (inode, peer) e t v.ascending);
        visible = λ i s q f. ground (
          arith,
          one i s,
          two i s,
          one i default_key,
          two i default_key,
          v.visible i s q,
          list_beq_iff default_key s,
          list_beq_iff s default_key,
          ==_iff inode i,
        );
        backed = λ i f. elim (Bool-cases (inode == i)) [
          | inl h ↦ (peer, p, ground (arith, one i peer, two i peer, list_beq_iff peer peer))
          | inr h ↦
              let (s, q, g) = v.backed i (ground (arith, one i default_key, two i default_key)) in
              (s, q, ground (arith, one i s, two i s))
        ];
      }

  -- The last peer of a file leaves.
  pub gone-Shown :
      (peer : Text)
      → ((s : Text) → IsPeer s → list_beq peer s ≡ false → found t inode s ≡ false)
      → Shown (delete (inode, default_key) (delete (inode, peer) t))
  gone-Shown peer none_left =
      let t1 = delete (inode, peer) t in
      let sorted = delete-Ascending (inode, peer) t v.ascending in
      let one = λ (i : Inode) (s : Text). found-delete inode peer t i s v.ascending in
      let two = λ (i : Inode) (s : Text). found-delete inode default_key t1 i s sorted in
      record {
        ascending = delete-Ascending (inode, default_key) t1 sorted;
        visible = λ i s q f. elim (Bool-cases (inode == i)) [
          | inl h ↦
              let same : inode ≡ i = (==_iff inode i).0 h in
              elim (Bool-cases (list_beq peer s)) [
                | inl d ↦ ground (arith, one i s, two i s)
                | inr d ↦
                    let absent = subst (λ k. found t k s ≡ false) same (none_left s q d) in
                    ground (arith, one i s, two i s, absent)
              ]
          | inr h ↦
              ground
                (arith, one i s, two i s, one i default_key, two i default_key, v.visible i s q)
        ];
        backed = λ i f.
            let differ : (inode == i) ≡ false =
              ground (arith, two i default_key, list_beq_iff default_key default_key) in
            let (s, q, g) = v.backed i (ground (arith, one i default_key, two i default_key)) in
            (s, q, ground (arith, one i s, two i s));
      }

  -- A peer leaves, and another one is left.
  pub left-Shown :
      (peer s : Text)
      → IsPeer peer
      → IsPeer s
      → list_beq peer s ≡ false
      → found t inode s ≡ true
      → Shown (delete (inode, peer) t)
  left-Shown peer s p q d h =
      let one = λ (i : Inode) (s : Text). found-delete inode peer t i s v.ascending in
      record {
        ascending = delete-Ascending (inode, peer) t v.ascending;
        visible = λ i r q' f. ground (arith, one i r, one i default_key, v.visible i r q');
        backed = λ i f. elim (Bool-cases (inode == i)) [
          | inl h' ↦ (s, q, ground (arith, one i s, ==_iff inode i))
          | inr h' ↦
              let (r, q', g) = v.backed i (ground (arith, one i default_key)) in
              (r, q', ground (arith, one i r))
        ];
      }

pub empty-Shown : Shown []
empty-Shown = record {
  ascending = tt;
  visible = λ inode s p h. cc (h, found_nothing inode s);
  backed = λ inode h. cc (h, found_nothing inode default_key);
}

-- What is left of the entries of a file without a peer and without the default entry.
others : FileTable → Inode → Text → Assoc Text FileTableEntry
others t inode peer = delete default_key (delete peer (entries_of inode t))

lookup-others :
    (t : FileTable) (inode : Inode) (peer s : Text)
    → Ascending t
    → lookup s (others t inode peer) ≡ (
        if list_beq default_key s
        then none
        else if list_beq peer s
        then none
        else lookup (inode, s) t)
unfolding others
lookup-others t inode peer s a =
    let once = entries_of-Unique inode t (Ascending-Unique t a) in
    ground (
      arith,
      lookup-delete peer s (entries_of inode t) once,
      lookup-delete default_key s (delete peer (entries_of inode t))
          (delete-Unique peer (entries_of inode t) once),
      lookup-entries_of inode s t,
    )

no_entries-lookup :
    (m : Assoc Text FileTableEntry) (s : Text) → no_entries m ≡ true → lookup s m ≡ none
unfolding no_entries lookup
no_entries-lookup [] s h = refl
no_entries-lookup (e ∷ m) s h = cc

an_entry :
    (m : Assoc Text FileTableEntry)
    → no_entries m ≡ false
    → (s : Text) × (e : FileTableEntry) × (lookup s m ≡ some e)
unfolding no_entries lookup
an_entry [] h = cc
an_entry ((s, e) ∷ m) h = (s, e, ground (arith, list_beq_iff s s))

-- Choosing a default entry keeps the table or writes the default entry.
chosen-Shown :
    (env : Env) (c : ArenaCache) (inode : Inode) (h : Option Hash) (m : Assoc Text FileTableEntry)
    → Shown c.files
    → found c.files inode default_key ≡ true
    → Shown (choose_default env c inode h m).files
unfolding choose_default do_write_default_file_entry
chosen-Shown env c inode h m v f = elim (Bool-cases (some_hash h m)) [
  | inl b ↦ rw (choose_default, b) v
  | inr b ↦ elim (Option-cases (most_recent (env.hash_order m))) [
    | inl e ↦ rw (choose_default, b, e) v
    | inr (d, e) ↦ rw (choose_default, b, e) (default-Shown c.files v inode d f)
  ]
]

forgotten_files :
    (now : ℕ) (c : ArenaCache) (parent inode : Inode) (path : Option FilePath)
    → (forget_file now c parent inode path).files ≡ delete (inode, default_key) c.files
unfolding forget_file
forgotten_files now c parent inode path = refl

rm_peer-Shown :
    (env : Env) (c : ArenaCache) (parent inode : Inode) (peer : Text) (e : FileTableEntry)
    → IsPeer peer
    → Shown c.files
    → lookup (inode, peer) c.files ≡ some e
    → Shown (rm_peer_entry env c parent inode peer (entries_of inode c.files)).files
unfolding rm_peer_entry others
rm_peer-Shown env c parent inode peer e p v h =
    let m = others c.files inode peer in
    let here = λ (s : Text). lookup-others c.files inode peer s v.ascending in
    let visible = v.visible inode peer p (found_entry c.files inode peer e h) in
    let c' : ArenaCache = record c { files = delete (inode, peer) c.files } in
    elim (Bool-cases (no_entries m)) [
      | inl n ↦
          let absent : (s : Text)
              → IsPeer s
              → list_beq peer s ≡ false
              → found c.files inode s ≡ false =
            λ s q d. unfound c.files inode s (
              ground (
                arith,
                here s,
                no_entries-lookup m s n,
                list_beq_iff default_key s,
                list_beq_iff s default_key,
              )) in
          rw (rm_peer_entry, n) (gone-Shown c.files v inode peer absent)
      | inr n ↦
          let (s, f, g) = an_entry m n in
          let q : IsPeer s =
            ground (arith, here s, list_beq_iff default_key s, list_beq_iff s default_key) in
          let d : list_beq peer s ≡ false = ground (arith, here s) in
          let there : lookup (inode, s) c.files ≡ some f = ground (arith, here s) in
          let left =
            left-Shown c.files v inode peer s p q d (found_entry c.files inode s f there) in
          let still : found c'.files inode default_key ≡ true =
            ground (arith, found-delete inode peer c.files inode default_key v.ascending) in
          rw (rm_peer_entry, n) (chosen-Shown env c' inode _ m left still)
    ]

pub do_rm_file_entry-Shown :
    (env : Env) (c : ArenaCache) (parent inode : Inode) (peer : Text) (old_hash : Option Hash)
    → IsPeer peer
    → Shown c.files
    → Shown (do_rm_file_entry env c parent inode peer old_hash).files
unfolding do_rm_file_entry
do_rm_file_entry-Shown env c parent inode peer old_hash p v =
    let here = lookup-entries_of inode peer c.files in
    elim (Option-cases (lookup peer (entries_of inode c.files))) [
      | inl e ↦ rw (do_rm_file_entry, e) v
      | inr (f, e) ↦ elim (Bool-cases (other_version old_hash f.content.hash)) [
        | inl o ↦ rw (do_rm_file_entry, e, o) v
        | inr o ↦
            rw (do_rm_file_entry, e, o) (rm_peer-Shown env c parent inode peer f p v (sym here ∙ e))
      ]
    ]
