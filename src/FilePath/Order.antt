-- ===== src/FilePath/Order.antt =====
-- `starts_with` works at the level of components.
use mathlib.Core.List.{append-nil}
use realize.Prelude.{
  true, ◌≡◌, ◌↔◌, refl, sym, ap, ◌∙◌, some, List, [], ◌∷◌, ◌++◌, arith, inl, inr, Option-cases,
  ==_iff,
}
use realize.FilePath.{
  Text, FilePath, split, slash, components, starts_with, strip_prefix, at_boundary,
}
use realize.FilePath.Split.{
  split-append, split-cons, join, join-split, join-append, strip_prefix-some, strip_prefix-append,
}

rest_parts :
    (s r : Text)
    → at_boundary r ≡ true
    → (ws : List Text) × (split slash (s ++ r) ≡ split slash s ++ ws)
unfolding at_boundary
rest_parts s [] h = ([], simp append-nil)
rest_parts s (c ∷ cs) h = (split slash cs, (rw ((==_iff c slash).0 h) (split-append slash s cs)))

starts_with_cases :
    (p q : FilePath)
    → starts_with p q ≡ true
    → (r : Text) × (strip_prefix q.chars p.chars ≡ some r) × (at_boundary r ≡ true)
unfolding starts_with
starts_with_cases p q h = elim (Option-cases (strip_prefix q.chars p.chars)) [
  | inl e ↦ cc
  | inr (r, e) ↦ (r, e, ground arith)
]

starts_with_rest :
    (p q : FilePath) (r : Text)
    → p.chars ≡ q.chars ++ r
    → at_boundary r ≡ true
    → starts_with p q ≡ true
unfolding starts_with
starts_with_rest p q r e b =
    let found = ap (strip_prefix q.chars) e ∙ strip_prefix-append q.chars r in ground (arith, found)

parts_rest :
    (s t w : Text) (ws : List Text)
    → split slash s ≡ split slash t ++ w ∷ ws
    → s ≡ t ++ slash ∷ join slash (w ∷ ws)
parts_rest s t w ws e =
    let (v, vs, f) = split-cons slash t in
    sym (join-split slash s)
    ∙ ap (join slash) (e ∙ ap (λ xs. xs ++ w ∷ ws) f)
    ∙ join-append slash v w vs ws
    ∙ ap (λ x. x ++ slash ∷ join slash (w ∷ ws)) (sym (ap (join slash) f) ∙ join-split slash t)

parts_start :
    (p q : FilePath) (ws : List Text)
    → split slash p.chars ≡ split slash q.chars ++ ws
    → starts_with p q ≡ true
parts_start p q [] e =
    starts_with_rest p q []
      (sym (join-split slash p.chars)
        ∙ ap (join slash) (e ∙ append-nil (split slash q.chars))
        ∙ join-split slash q.chars
        ∙ sym (append-nil q.chars))
      (unfold at_boundary in refl)
parts_start p q (w ∷ ws) e =
    starts_with_rest p q (slash ∷ join slash (w ∷ ws)) (parts_rest p.chars q.chars w ws e)
      (unfold at_boundary in refl)

-- A path starts with another one exactly when the components of the other are the first ones of its
-- own.
pub starts_with_iff :
    (p q : FilePath)
    → (starts_with p q ≡ true)
      ↔ ((ws : List Text) × (components (some p) ≡ components (some q) ++ ws))
unfolding components
starts_with_iff p q = (
  (λ h.
      let (r, e, b) = starts_with_cases p q h in
      let (ws, f) = rest_parts q.chars r b in
      (ws, ap (split slash) (strip_prefix-some q.chars p.chars r e) ∙ f)),
  λ h. parts_start p q h.0 h.1,
)
