-- ===== src/Marks/Inheritance.antt =====
-- Which marks a path inherits, and that files are marked dirty whenever a mark changes.
use realize.Prelude.{
  ℕ, zero, suc, ◌<◌, true, false, ◌≡◌, refl, sym, ap, ◌∙◌, Option, none, some, [], arith, length,
  inl, inr, Option-cases, Bool-cases,
}
use realize.Prelude.Eq.{
  nat_eq, list_eq, list_beq, list_beq_iff, lookup, put, delete, Unique, lookup-put, lookup-delete,
}
use realize.FilePath.{Text, FilePath, parent, rfind}
use realize.FilePath.Laws.{parent-length}
use realize.Engine.{Mark, watch, keep, own}
use realize.Marks.{
  MarkTable, key, same_mark, mark_loop, size, do_get_mark, impact, set_mark_or_root, clear_mark,
}

parent-size : (path : FilePath) → size (parent path) < size (some path)
parent-size path = elim (Option-cases (parent path)) [
  | inl e ↦ rw e (omega arith)
  | inr (q, e) ↦ rw e (omega (arith, parent-length path q e))
]

-- More fuel gives the same mark.
mark_loop_enough :
    (f g : ℕ) (t : MarkTable) (path : Option FilePath)
    → size path < f
    → size path < g
    → mark_loop f t path ≡ mark_loop g t path
unfolding mark_loop
mark_loop_enough zero g t path a b = absurd (omega (arith, a))
mark_loop_enough (suc f) zero t path a b = absurd (omega (arith, b))
mark_loop_enough (suc f) (suc g) t none a b = refl
mark_loop_enough (suc f) (suc g) t (some path) a b =
    let rest =
      mark_loop_enough f g t (parent path) (omega (arith, a, parent-size path))
        (omega (arith, b, parent-size path)) in
    ground (arith, rest)

-- A path has its own mark, or else that of its parent.
pub do_get_mark_step :
    (t : MarkTable) (path : FilePath)
    → do_get_mark t (some path)
      ≡ (elim (lookup path.chars t) [ some mark ↦ some mark | none ↦ do_get_mark t (parent path) ])
unfolding do_get_mark mark_loop
do_get_mark_step t path =
    let rest =
      mark_loop_enough (suc (length path.chars)) (suc (size (parent path))) t (parent path)
        (parent-size path) (omega arith) in
    ground (arith, rest)

root_mark :
    (t : MarkTable)
    → do_get_mark t none ≡ (elim (lookup [] t) [ some mark ↦ some mark | none ↦ some watch ])
unfolding do_get_mark mark_loop
root_mark t = refl

empty_path : (path : FilePath) → path.chars ≡ [] → parent path ≡ none
unfolding parent rfind
empty_path path h = rw h refl

-- A mark depends on the key alone.
same_key :
    (t : MarkTable) (a b : Option FilePath) → key a ≡ key b → do_get_mark t a ≡ do_get_mark t b
same_key t none none h = refl
same_key t (some p) (some q) h = ap (λ s. do_get_mark t (some (record { chars = s }))) h
same_key t none (some q) h =
    ground (arith, h, root_mark t, do_get_mark_step t q, empty_path q (sym h))
same_key t (some p) none h = ground (arith, h, root_mark t, do_get_mark_step t p, empty_path p h)

own_mark :
    (t : MarkTable) (path : Option FilePath) (mark : Mark)
    → lookup (key path) t ≡ some mark
    → do_get_mark t path ≡ some mark
own_mark t none mark e = ground (arith, root_mark t)
own_mark t (some p) mark e = ground (arith, do_get_mark_step t p)

-- Two tables that differ only at a key, where they give the same mark.
module _ (t t' : MarkTable) (path : Option FilePath)
    (there : do_get_mark t path ≡ do_get_mark t' path)
    (others : (k : Text) → list_beq k (key path) ≡ false → lookup k t' ≡ lookup k t) where
  up_marks :
      (q : Option FilePath)
      → list_beq (key q) (key path) ≡ false
      → ((p : FilePath) → q ≡ some p → do_get_mark t' (parent p) ≡ do_get_mark t (parent p))
      → do_get_mark t' q ≡ do_get_mark t q
  up_marks none e up = ground (arith, root_mark t, root_mark t', others [] e)
  up_marks (some p) e up =
      ground (arith, do_get_mark_step t p, do_get_mark_step t' p, others p.chars e, up p refl)

  same_marks : (n : ℕ) (q : Option FilePath) → size q < n → do_get_mark t' q ≡ do_get_mark t q
  same_marks zero q h = absurd (omega (arith, h))
  same_marks (suc n) q h = elim (Bool-cases (list_beq (key q) (key path))) [
    | inl e ↦
        let same = (list_beq_iff (key q) (key path)).0 e in
        same_key t' q path same ∙ sym there ∙ sym (same_key t q path same)
    | inr e ↦
        up_marks q e (λ p f. same_marks n (parent p) (omega (arith, h, ap size f, parent-size p)))
  ]

same_mark-eq : (a b : Mark) → same_mark a b ≡ true → a ≡ b
unfolding same_mark
same_mark-eq watch watch h = refl
same_mark-eq keep keep h = refl
same_mark-eq own own h = refl
same_mark-eq watch keep h = cc
same_mark-eq watch own h = cc
same_mark-eq keep watch h = cc
same_mark-eq keep own h = cc
same_mark-eq own watch h = cc
same_mark-eq own keep h = cc

impact-eq : (a b : Option Mark) → impact a b ≡ false → a ≡ b
unfolding impact
impact-eq none b h = cc
impact-eq (some a) none h = cc
impact-eq (some a) (some b) h = ap some (same_mark-eq a b (ground arith))

-- Where setting a mark marks no files dirty, no path has another mark than before.
pub set_mark_or_root_unchanged :
    (t : MarkTable) (path : Option FilePath) (mark : Mark) (q : Option FilePath)
    → (set_mark_or_root t path mark).1 ≡ false
    → do_get_mark (set_mark_or_root t path mark).0 q ≡ do_get_mark t q
unfolding set_mark_or_root
set_mark_or_root_unchanged t path mark q h =
    let t' = put (key path) mark t in
    let own = own_mark t' path mark (
      ground
        (arith, lookup-put (key path) (key path) mark t, list_beq_iff (key path) (key path))) in
    same_marks t t' path (impact-eq (do_get_mark t path) (some mark) h ∙ sym own)
      (λ k d. ground (
        arith,
        lookup-put (key path) k mark t,
        list_beq_iff k (key path),
        list_beq_iff (key path) k,
      ))
      (suc (size q)) q (omega arith)

-- Where clearing the mark of a path marks no files dirty, no path has another mark than before.
pub clear_mark_unchanged :
    (t : MarkTable) (path : FilePath) (q : Option FilePath)
    → Unique t
    → (clear_mark t path).1 ≡ false
    → do_get_mark (clear_mark t path).0 q ≡ do_get_mark t q
unfolding clear_mark
clear_mark_unchanged t path q u h = elim (Option-cases (lookup path.chars t)) [
  | inl e ↦ rw (clear_mark, e) refl
  | inr (before, e) ↦
      let t' = delete path.chars t in
      let same : impact (some before) (do_get_mark t' (some path)) ≡ false = ground arith in
      let was = own_mark t (some path) before e in
      rw (clear_mark, e)
        (same_marks t t' (some path)
          (was ∙ impact-eq (some before) (do_get_mark t' (some path)) same)
          (λ k d. ground (
            arith,
            lookup-delete path.chars k t u,
            list_beq_iff k path.chars,
            list_beq_iff path.chars k,
          ))
          (suc (size q)) q (omega arith))
]

-- A mark that is set is the mark of the path.
pub get-set_mark_or_root :
    (t : MarkTable) (path : Option FilePath) (mark : Mark)
    → do_get_mark (set_mark_or_root t path mark).0 path ≡ some mark
unfolding set_mark_or_root
get-set_mark_or_root t path mark =
    own_mark (put (key path) mark t) path mark
      (ground (arith, lookup-put (key path) (key path) mark t, list_beq_iff (key path) (key path)))

mark_loop_total :
    (f : ℕ) (t : MarkTable) (path : Option FilePath)
    → size path < f
    → (mark : Mark) × (mark_loop f t path ≡ some mark)
unfolding mark_loop
mark_loop_total zero t path h = absurd (omega (arith, h))
mark_loop_total (suc f) t none h = elim (Option-cases (lookup [] t)) [
  | inl e ↦ (watch, ground arith)
  | inr (mark, e) ↦ (mark, ground arith)
]
mark_loop_total (suc f) t (some path) h =
    let (inherited, up) = mark_loop_total f t (parent path) (omega (arith, h, parent-size path)) in
    elim (Option-cases (lookup path.chars t)) [
      | inl e ↦ (inherited, ground (arith, up))
      | inr (mark, e) ↦ (mark, ground arith)
    ]

-- Every path has a mark: the fuel of `do_get_mark` never runs out.
pub do_get_mark_total :
    (t : MarkTable) (path : Option FilePath) → (mark : Mark) × (do_get_mark t path ≡ some mark)
unfolding do_get_mark
do_get_mark_total t path = mark_loop_total (suc (size path)) t path (omega arith)
