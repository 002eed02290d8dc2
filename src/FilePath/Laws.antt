-- ===== src/FilePath/Laws.antt =====
-- What `parse` accepts, and that `parent` and `name` stay within it.
use realize.Prelude.{
  ℕ, suc, ◌<◌, Bool, true, not, ◌||◌, ◌≡◌, refl, sym, ap, ◌∙◌, none, some, [], ◌∷◌, ◌++◌, arith,
  any, any-append, take, drop, length, length-append, ◌==◌, if◌then◌else◌, inl, inr, Option-cases,
}
use realize.FilePath.{
  Text, FilePath, split, rfind, holds_char, bad_part, slash, colon, parse, name, parent, components,
  last_or,
}
use realize.FilePath.Split.{split-append, split_whole, rfind-some, rfind-none, last_or-append}

abbrev is_good : Text → Bool
is_good s = not (holds_char colon s || any bad_part (split slash s))

parse_lem : (s : Text) → parse s ≡ (if is_good s then some (record { chars = s }) else none)
unfolding parse
parse_lem [] = refl
parse_lem (c ∷ cs) = ground arith

-- The text around the last slash.
module _ (s : Text) (i : ℕ) (e : rfind slash s ≡ some i) where
  last_slash : s ≡ take i s ++ slash ∷ drop (suc i) s
  last_slash = (rfind-some slash s i e).0

  split_last : split slash s ≡ split slash (take i s) ++ drop (suc i) s ∷ []
  split_last =
      ap (split slash) last_slash
      ∙ split-append slash (take i s) (drop (suc i) s)
      ∙ ap (λ ws. split slash (take i s) ++ ws)
          (split_whole slash (drop (suc i) s) (rfind-some slash s i e).1)

  name_last : last_or s (split slash s) ≡ drop (suc i) s
  name_last = ap (last_or s) split_last ∙ last_or-append s (drop (suc i) s) (split slash (take i s))

parent-eq :
    (p q : FilePath)
    → parent p ≡ some q
    → (i : ℕ) × (rfind slash p.chars ≡ some i) × (q.chars ≡ take i p.chars)
unfolding parent
parent-eq p q h = elim (Option-cases (rfind slash p.chars)) [
  | inl e ↦ cc
  | inr (i, e) ↦ (i, e, ground arith)
]

-- Where a path has a parent, its text is the parent, a slash and the name, and its components are
-- those of the parent followed by the name.
pub parent-some :
    (p q : FilePath)
    → parent p ≡ some q
    → (p.chars ≡ q.chars ++ slash ∷ name p)
      × (components (some p) ≡ components (some q) ++ name p ∷ [])
unfolding name components
parent-some p q h =
    let (i, e, start) = parent-eq p q h in
    (
      cc (last_slash p.chars i e, name_last p.chars i e, start),
      cc (split_last p.chars i e, name_last p.chars i e, start),
    )

-- A path without a parent is its own name, and its only component.
pub parent-none :
    (p : FilePath) → parent p ≡ none → (name p ≡ p.chars) × (components (some p) ≡ name p ∷ [])
unfolding parent name components last_or
parent-none p h =
    let whole = split_whole slash p.chars (rfind-none slash p.chars (ground arith)) in
    (ap (last_or p.chars) whole, whole ∙ sym (ap (λ ws. last_or p.chars ws ∷ []) whole))

-- A path that `parse` accepts is `some` of its own text, and its parts are good.
pub parse-some : (s : Text) (p : FilePath) → parse s ≡ some p → (p.chars ≡ s) × (is_good s ≡ true)
parse-some s p h = ground (arith, parse_lem s)

pub parse_good : (s : Text) → is_good s ≡ true → parse s ≡ some (record { chars = s })
parse_good s h = rw parse_lem (rw h)

good-prefix :
    (s t : Text) → is_good (s ++ slash ∷ t) ≡ true → (is_good s ≡ true) × (is_good t ≡ true)
good-prefix s t h =
    let colons = any-append (λ x. x == colon) s (slash ∷ t) in
    let bad =
      ap (any bad_part) (split-append slash s t)
      ∙ any-append bad_part (split slash s) (split slash t) in
    ground (arith, colons, bad)

-- The parent and the name of a path that `parse` accepts are accepted too.
parent-parse :
    (s : Text) (p q : FilePath)
    → parse s ≡ some p
    → parent p ≡ some q
    → (parse q.chars ≡ some q) × (parse (name p) ≡ some (record { chars = name p }))
parent-parse s p q h k =
    let (same, good) = parse-some s p h in
    let parts = (parent-some p q k).0 in
    let (left, right) = good-prefix q.chars (name p) (rw (sym parts ∙ same) good) in
    (parse_good q.chars left, parse_good (name p) right)

-- The parent is shorter than the path.
pub parent-length : (p q : FilePath) → parent p ≡ some q → length q.chars < length p.chars
parent-length p q h =
    omega (arith, ap length (parent-some p q h).0, length-append q.chars (slash ∷ name p))
