-- ===== src/Tests/Paths.antt =====
-- Runs of crate/realize-types/src/path.rs on the path `a/b/c`.
use realize.Prelude.{true, ◌≡◌, ◌↔◌, some, List, [], ◌∷◌, ◌++◌}
use realize.FilePath.{Text, FilePath, slash, components, starts_with}
use realize.FilePath.Order.{starts_with_iff}

abbrev abc : FilePath
abc = record { chars = b'a' ∷ slash ∷ b'b' ∷ slash ∷ b'c' ∷ [] }

abbrev ab : FilePath
ab = record { chars = b'a' ∷ slash ∷ b'b' ∷ [] }

abbrev a : FilePath
a = record { chars = b'a' ∷ [] }

starts_with_iff_example :
    (starts_with abc ab ≡ true)
    ↔ ((ws : List Text) × (components (some abc) ≡ components (some ab) ++ ws))
starts_with_iff_example = starts_with_iff abc ab
