-- ===== src/FilePath.antt =====
-- `Path` of crate/realize-types/src/path.rs: a relative path with `/` between its parts. A text is
-- the list of its characters, as code points.
pub mod Split
pub mod Laws
pub mod Order
use mathlib.Core.Option as OptionLib
use realize.Prelude.{
  ℕ, zero, suc, Bool, true, false, not, ◌&&◌, ◌||◌, ◌≡◌, ◌↔◌, refl, ap, Option, none, some, List,
  [], ◌∷◌, arith, any, take, drop, ◌==◌, if◌then◌else◌,
}
use realize.Prelude.Eq.{Eq, nat_eq, list_beq, list_beq_iff}

abbrev pub Text : Type 0
Text = List ℕ

pub record FilePath : Type 0 where
  pub chars : Text

pub FilePath_eq_iff : (p q : FilePath) → (list_beq p.chars q.chars ≡ true) ↔ (p ≡ q)
FilePath_eq_iff p q = (
  (λ h. ap (λ (s : Text). record { chars = s }) ((list_beq_iff p.chars q.chars).0 h)),
  λ h. (list_beq_iff p.chars q.chars).1 (ap (λ (r : FilePath). r.chars) h),
)

-- `str::split`: the texts between the separators, one at least.
unfoldable pub cons_first : ℕ → List Text → List Text
cons_first c [] = (c ∷ []) ∷ []
cons_first c (w ∷ ws) = (c ∷ w) ∷ ws

unfoldable pub split : ℕ → Text → List Text
unfolding cons_first
split sep [] = [] ∷ []
split sep (c ∷ cs) = let rest = split sep cs in if c == sep then [] ∷ rest else cons_first c rest

-- `str::find(..).is_some()`, and `str::rfind`.
abbrev pub holds_char : ℕ → Text → Bool
holds_char c s = any (λ x. x == c) s

unfoldable pub rfind : ℕ → Text → Option ℕ
rfind c [] = none
rfind c (x ∷ xs) = elim (rfind c xs) [
  | some i ↦ some (suc i)
  | none ↦ if x == c then some 0 else none
]

abbrev pub slash : ℕ
slash = b'/'

abbrev pub dot : ℕ
dot = b'.'

abbrev pub colon : ℕ
colon = b':'

unfoldable pub bad_part : Text → Bool
bad_part [] = true
bad_part (c ∷ []) = c == dot
bad_part (c ∷ d ∷ []) = c == dot && d == dot
bad_part _ = false

-- `none` is `PathError::InvalidPath`.
unfoldable pub parse : Text → Option FilePath
unfolding bad_part split
parse [] = none
parse (c ∷ cs) =
    if holds_char colon (c ∷ cs) || any bad_part (split slash (c ∷ cs))
    then none
    else some (record { chars = c ∷ cs })

-- The first item of `rsplit('/')` is the last of `split('/')`.
unfoldable pub last_or : Text → List Text → Text
last_or d [] = d
last_or d (w ∷ ws) = last_or w ws

unfoldable pub name : FilePath → Text
unfolding last_or split
name p = last_or p.chars (split slash p.chars)

unfoldable pub ext : FilePath → Text
unfolding name rfind
ext p = elim (rfind dot (name p)) [ some pos ↦ drop pos (name p) | none ↦ [] ]

unfoldable pub parent : FilePath → Option FilePath
unfolding rfind
parent p = OptionLib.map (λ i. record { chars = take i p.chars }) (rfind slash p.chars)

unfoldable pub components : Option FilePath → List Text
unfolding split
components none = []
components (some p) = split slash p.chars

-- `str::strip_prefix`.
unfoldable pub strip_prefix : Text → Text → Option Text
strip_prefix [] s = some s
strip_prefix (c ∷ cs) [] = none
strip_prefix (c ∷ cs) (d ∷ ds) = if c == d then strip_prefix cs ds else none

unfoldable pub at_boundary : Text → Bool
at_boundary [] = true
at_boundary (c ∷ cs) = c == slash

unfoldable pub starts_with : FilePath → FilePath → Bool
unfolding strip_prefix at_boundary
starts_with p other = elim (strip_prefix other.chars p.chars) [
  | none ↦ false
  | some rest ↦ at_boundary rest
]

instance abbrev pub FilePath_eq : Eq FilePath
FilePath_eq = record { beq = λ p q. list_beq p.chars q.chars; beq_iff = FilePath_eq_iff }
