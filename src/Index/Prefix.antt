-- ===== src/Index/Prefix.antt =====
-- The keys that `PathPrefix` selects: those of the path and of what is below it.
use realize.Prelude.{
  ◌≤◌, ◌≡◌, ◌∙◌, ◌⊎◌, inl, inr, refl, sym, ap, true, false, none, [], ◌∷◌, ◌++◌, arith,
  Option-cases, Bool-cases, if◌then◌else◌, length,
}
use mathlib.Core.List.{append-nil}
use realize.Prelude.Eq.{nat_eq, list_eq, list_beq_iff, Assoc, lookup}
use realize.Prelude.Order.{text_order, text_lt, Ascending, Above}
use realize.FilePath.{Text, slash, strip_prefix, at_boundary}
use realize.FilePath.Split.{strip_prefix-some, strip_prefix-append}
use realize.Index.{IndexedFileTableEntry, in_range, accept, selected, extracted, retained}

not_below : (k : Text) → text_lt k [] ≡ false
not_below [] = refl
not_below (c ∷ k) = refl

-- Every key that is accepted lies in the range that is scanned.
pub accept-in_range : (prefix key : Text) → accept prefix key ≡ true → in_range prefix key ≡ true
unfolding accept in_range strip_prefix at_boundary
accept-in_range [] [] h = refl
accept-in_range [] (c ∷ k) h = ground arith
accept-in_range (c ∷ p) [] h = cc
accept-in_range (c ∷ p) (d ∷ k) h = ground (arith, accept-in_range p k)

pub selected-accept : (prefix key : Text) → selected prefix key ≡ accept prefix key
unfolding selected
selected-accept prefix key = ground (arith, accept-in_range prefix key)

-- The key is the path, or lies below it.
abbrev pub AtOrBelow : Text → Text → Type 0
AtOrBelow path key = (key ≡ path) ⊎ ((rest : Text) × (key ≡ path ++ slash ∷ rest))

boundary-AtOrBelow : (p k r : Text) → k ≡ p ++ r → at_boundary r ≡ true → AtOrBelow p k
unfolding at_boundary
boundary-AtOrBelow p k [] e b = inl (e ∙ append-nil p)
boundary-AtOrBelow p k (c ∷ r) e b =
    let same : c ≡ slash = ground arith in inr (r, e ∙ ap (λ x. p ++ x ∷ r) same)

pub accept-AtOrBelow : (p k : Text) → accept p k ≡ true → AtOrBelow p k
unfolding accept
accept-AtOrBelow p k h = elim (Option-cases (strip_prefix p k)) [
  | inl q ↦ cc
  | inr (r, q) ↦ boundary-AtOrBelow p k r (strip_prefix-some p k r q) (ground (arith, q))
]

pub AtOrBelow-accept : (p k : Text) → AtOrBelow p k → accept p k ≡ true
unfolding accept at_boundary
AtOrBelow-accept p k (inl e) =
    let found = ap (strip_prefix p) (e ∙ sym (append-nil p)) ∙ strip_prefix-append p [] in
    ground (arith, found)
AtOrBelow-accept p k (inr (r, e)) =
    let found = ap (strip_prefix p) e ∙ strip_prefix-append p (slash ∷ r) in ground (arith, found)

pub not-AtOrBelow : (p k : Text) → ¬ (AtOrBelow p k) → accept p k ≡ false
not-AtOrBelow p k n = elim (Bool-cases (accept p k)) [
  | inl q ↦ let no : ⊥ = n (accept-AtOrBelow p k q) in elim no [ ]
  | inr q ↦ q
]

pub lookup-extracted :
    (p k : Text) (files : Assoc Text IndexedFileTableEntry)
    → lookup k (extracted p files) ≡ (if selected p k then lookup k files else none)
unfolding lookup extracted
lookup-extracted p k [] = ground arith
lookup-extracted p k ((j, e) ∷ files) = ground (arith, lookup-extracted p k files, list_beq_iff j k)

pub lookup-retained :
    (p k : Text) (files : Assoc Text IndexedFileTableEntry)
    → lookup k (retained p files) ≡ (if selected p k then none else lookup k files)
unfolding lookup retained
lookup-retained p k [] = ground arith
lookup-retained p k ((j, e) ∷ files) = ground (arith, lookup-retained p k files, list_beq_iff j k)

extracted-Above :
    (p i : Text) (files : Assoc Text IndexedFileTableEntry)
    → Above i files
    → Above i (extracted p files)
unfolding extracted
extracted-Above p i [] a = tt
extracted-Above p i ((j, e) ∷ files) a = ground (arith, extracted-Above p i files a.1)

pub extracted-Ascending :
    (p : Text) (files : Assoc Text IndexedFileTableEntry)
    → Ascending files
    → Ascending (extracted p files)
unfolding extracted
extracted-Ascending p [] a = tt
extracted-Ascending p ((j, e) ∷ files) a =
    ground (arith, extracted-Ascending p files a.1, extracted-Above p j files a.0)

retained-Above :
    (p i : Text) (files : Assoc Text IndexedFileTableEntry)
    → Above i files
    → Above i (retained p files)
unfolding retained
retained-Above p i [] a = tt
retained-Above p i ((j, e) ∷ files) a = ground (arith, retained-Above p i files a.1)

pub retained-Ascending :
    (p : Text) (files : Assoc Text IndexedFileTableEntry)
    → Ascending files
    → Ascending (retained p files)
unfolding retained
retained-Ascending p [] a = tt
retained-Ascending p ((j, e) ∷ files) a =
    ground (arith, retained-Ascending p files a.1, retained-Above p j files a.0)

pub extracted-length :
    (p : Text) (files : Assoc Text IndexedFileTableEntry)
    → length (extracted p files) ≤ length files
unfolding extracted
extracted-length p [] = omega arith
extracted-length p ((j, e) ∷ files) = ground (arith, extracted-length p files)
