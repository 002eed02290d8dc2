-- ===== src/FilePath/Split.antt =====
-- Splitting a text at its separators, and joining the parts again.
use realize.Prelude.{
  ℕ, zero, suc, false, ◌≡◌, refl, sym, ap, ◌∙◌, none, some, List, [], ◌∷◌, ◌++◌, arith, take, drop,
  ◌==◌, inl, inr, Bool-cases,
}
use mathlib.Core.List.{append_assoc}
use realize.FilePath.{Text, split, cons_first, rfind, holds_char, strip_prefix, last_or}

cons_first-append :
    (c : ℕ) (w : Text) (ws vs : List Text)
    → cons_first c ((w ∷ ws) ++ vs) ≡ cons_first c (w ∷ ws) ++ vs
unfolding cons_first
cons_first-append c w ws vs = refl

-- A split has at least one part.
pub split-cons : (sep : ℕ) (s : Text) → (w : Text) × (ws : List Text) × (split sep s ≡ w ∷ ws)
unfolding split cons_first
split-cons sep [] = ([], [], refl)
split-cons sep (c ∷ cs) =
    let (w, ws, e) = split-cons sep cs in
    elim (Bool-cases (c == sep)) [
      | inl h ↦ ([], split sep cs, rw h)
      | inr h ↦ (c ∷ w, ws, rw (h, e))
    ]

-- A separator splits a text in two.
pub split-append : (sep : ℕ) (s t : Text) → split sep (s ++ sep ∷ t) ≡ split sep s ++ split sep t
unfolding split cons_first
split-append sep [] t = ground arith
split-append sep (c ∷ cs) t =
    let (w, ws, e) = split-cons sep cs in ground (arith, e, split-append sep cs t)

-- A text without the separator is its own only part.
pub split_whole : (sep : ℕ) (s : Text) → holds_char sep s ≡ false → split sep s ≡ s ∷ []
unfolding split cons_first
split_whole sep [] h = refl
split_whole sep (c ∷ cs) h = ground (arith, split_whole sep cs)

pub rfind-none : (c : ℕ) (s : Text) → rfind c s ≡ none → holds_char c s ≡ false
unfolding rfind
rfind-none c [] h = refl
rfind-none c (x ∷ xs) h = ground (arith, rfind-none c xs)

rfind_step : (c x : ℕ) (xs : Text) (i : ℕ) → rfind c (x ∷ xs) ≡ some (suc i) → rfind c xs ≡ some i
unfolding rfind
rfind_step c x xs i h = ground arith

-- `rfind` finds the last separator.
pub rfind-some :
    (c : ℕ) (s : Text) (i : ℕ)
    → rfind c s ≡ some i
    → (s ≡ take i s ++ c ∷ drop (suc i) s) × (holds_char c (drop (suc i) s) ≡ false)
unfolding rfind
rfind-some c [] i h = cc
rfind-some c (x ∷ xs) zero h = ground (arith, rfind-none c xs)
rfind-some c (x ∷ xs) (suc i) h =
    let (parts, last) = rfind-some c xs i (rfind_step c x xs i h) in (ap (λ t. x ∷ t) parts, last)

-- The parts with the separator between them.
abbrev pub join : ℕ → List Text → Text
join sep [] = []
join sep (w ∷ []) = w
join sep (w ∷ v ∷ vs) = w ++ sep ∷ join sep (v ∷ vs)

join-cons_first :
    (sep c : ℕ) (w : Text) (ws : List Text)
    → join sep (cons_first c (w ∷ ws)) ≡ c ∷ join sep (w ∷ ws)
unfolding cons_first
join-cons_first sep c w [] = refl
join-cons_first sep c w (v ∷ vs) = refl

pub join-split : (sep : ℕ) (s : Text) → join sep (split sep s) ≡ s
unfolding split
join-split sep [] = refl
join-split sep (c ∷ cs) =
    let (w, ws, e) = split-cons sep cs in
    let rest = join-split sep cs in ground (arith, e, rest, join-cons_first sep c w ws)

pub join-append :
    (sep : ℕ) (w v : Text) (ws vs : List Text)
    → join sep ((w ∷ ws) ++ v ∷ vs) ≡ join sep (w ∷ ws) ++ sep ∷ join sep (v ∷ vs)
join-append sep w v [] vs = refl
join-append sep w v (u ∷ us) vs =
    ap (λ t. w ++ sep ∷ t) (join-append sep u v us vs)
    ∙ sym (append_assoc w (sep ∷ join sep (u ∷ us)) (sep ∷ join sep (v ∷ vs)))

pub strip_prefix-some : (a s r : Text) → strip_prefix a s ≡ some r → s ≡ a ++ r
unfolding strip_prefix
strip_prefix-some [] s r h = ground arith
strip_prefix-some (c ∷ cs) [] r h = cc
strip_prefix-some (c ∷ cs) (d ∷ ds) r h = ground (arith, strip_prefix-some cs ds r)

pub strip_prefix-append : (a r : Text) → strip_prefix a (a ++ r) ≡ some r
unfolding strip_prefix
strip_prefix-append [] r = refl
strip_prefix-append (c ∷ cs) r = ground (arith, strip_prefix-append cs r)

pub last_or-append : (d w : Text) (ws : List Text) → last_or d (ws ++ w ∷ []) ≡ w
unfolding last_or
last_or-append d w [] = refl
last_or-append d w (v ∷ vs) = last_or-append v w vs
