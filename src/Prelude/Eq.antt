-- ===== src/Prelude/Eq.antt =====
-- Types with a Boolean equality, Rust's `Eq`; maps over such keys, Rust's `HashMap` and redb tables
-- with text keys.
use Prim.Native.Nat.{ℕ, ◌+◌}
use Prim.Native.String.{String}
use mathlib.Core.Path.{◌≡◌, refl}
use mathlib.Core.Logic.{◌↔◌}
use mathlib.Core.Bool.{Bool, true, false, ◌&&◌, ◌||◌}
use mathlib.Core.Option.{Option, none, some}
use mathlib.Core.List.{List, [], ◌∷◌, ◌++◌}
use native.Mathlib.Omega.{arith}
use text.Mathlib.Text.{◌==◌ as str_eq}
use text.Mathlib.TextEquality.{eq_iff}
use realize.Prelude.Lists.{length}
use realize.Prelude.Tests.{◌==◌, ==_iff, if◌then◌else◌}

pub record Eq {ℓ} (A : Type ℓ) : Type ℓ where
  pub beq : A → A → Bool
  pub beq_iff : (a b : A) → (beq a b ≡ true) ↔ (a ≡ b)

instance abbrev pub nat_eq : Eq ℕ
nat_eq = record { beq = ◌==◌; beq_iff = ==_iff }

instance abbrev pub string_eq : Eq String
string_eq = record { beq = str_eq; beq_iff = eq_iff }

module _ {ℓ κ} {A : Type ℓ} {B : Type κ} ⦃a : Eq A⦄ ⦃b : Eq B⦄ where
  abbrev pub pair_beq : A × B → A × B → Bool
  pair_beq x y = a.beq x.0 y.0 && b.beq x.1 y.1

  pub pair_beq_iff : (x y : A × B) → (pair_beq x y ≡ true) ↔ (x ≡ y)
  pair_beq_iff x y = ground (arith, a.beq_iff x.0 y.0, b.beq_iff x.1 y.1)

  instance abbrev pub pair_eq : Eq (A × B)
  pair_eq = record { beq = pair_beq; beq_iff = pair_beq_iff }

module _ {ℓ} {A : Type ℓ} ⦃a : Eq A⦄ where
  abbrev pub list_beq : List A → List A → Bool
  list_beq [] [] = true
  list_beq (x ∷ xs) (y ∷ ys) = a.beq x y && list_beq xs ys
  list_beq _ _ = false

  pub list_beq_iff : (xs ys : List A) → (list_beq xs ys ≡ true) ↔ (xs ≡ ys)
  list_beq_iff [] [] = ground arith
  list_beq_iff [] (y ∷ ys) = ground arith
  list_beq_iff (x ∷ xs) [] = ground arith
  list_beq_iff (x ∷ xs) (y ∷ ys) = ground (arith, a.beq_iff x y, list_beq_iff xs ys)

  instance abbrev pub list_eq : Eq (List A)
  list_eq = record { beq = list_beq; beq_iff = list_beq_iff }

module _ {ℓ} {K : Type ℓ} ⦃e : Eq K⦄ where
  pub beq_refl : (k : K) → e.beq k k ≡ true
  beq_refl k = (e.beq_iff k k).1 refl

  abbrev pub elem : K → List K → Bool
  elem k [] = false
  elem k (j ∷ js) = e.beq j k || elem k js

  -- No item stands twice in the list.
  abbrev pub Distinct : List K → Type 0
  Distinct [] = Unit
  Distinct (k ∷ ks) = (elem k ks ≡ false) × Distinct ks

module _ {ℓ} {K : Type ℓ} ⦃e : Eq K⦄ where
  pub elem-snoc : (j k : K) (ks : List K) → elem j (ks ++ k ∷ []) ≡ (elem j ks || e.beq k j)
  elem-snoc j k [] = ground arith
  elem-snoc j k (i ∷ is) = ground (arith, elem-snoc j k is)

  pub Distinct-snoc :
      (k : K) (ks : List K) → elem k ks ≡ false → Distinct ks → Distinct (ks ++ k ∷ [])
  Distinct-snoc k [] h d = (refl, tt)
  Distinct-snoc k (i ∷ is) h d =
      ground (arith, Distinct-snoc k is, elem-snoc i k is, e.beq_iff k i, e.beq_iff i k)

abbrev pub weigh {κ} : {V : Type κ} → (V → Bool) → Option V → ℕ
weigh p none = 0
weigh p (some v) = if p v then 1 else 0

abbrev pub Assoc {ℓ κ} : Type ℓ → Type κ → Type (ℓ ⊔ κ)
Assoc K V = List (K × V)

module _ {ℓ κ} {K : Type ℓ} {V : Type κ} ⦃e : Eq K⦄ where
  unfoldable pub lookup : K → Assoc K V → Option V
  lookup k [] = none
  lookup k ((j, v) ∷ m) = if e.beq j k then some v else lookup k m

  unfoldable pub put : K → V → Assoc K V → Assoc K V
  put k v [] = (k, v) ∷ []
  put k v ((j, w) ∷ m) = if e.beq j k then (k, v) ∷ m else (j, w) ∷ put k v m

  unfoldable pub delete : K → Assoc K V → Assoc K V
  delete k [] = []
  delete k ((j, w) ∷ m) = if e.beq j k then m else (j, w) ∷ delete k m

  -- Every key stands once.
  abbrev pub Unique : Assoc K V → Type κ
  Unique [] = Unit
  Unique ((k, v) ∷ m) = (lookup k m ≡ none) × Unique m

  pub lookup-put :
      (k j : K) (v : V) (m : Assoc K V)
      → lookup j (put k v m) ≡ (if e.beq k j then some v else lookup j m)
  unfolding lookup put
  lookup-put k j v [] = refl
  lookup-put k j v ((i, w) ∷ m) =
      ground (arith, lookup-put k j v m, e.beq_iff i k, e.beq_iff i j, e.beq_iff k j)

  pub put-Unique : (k : K) (v : V) (m : Assoc K V) → Unique m → Unique (put k v m)
  unfolding lookup put
  put-Unique k v [] u = (refl, tt)
  put-Unique k v ((j, w) ∷ m) u =
      ground (arith, put-Unique k v m u.1, lookup-put k j v m, e.beq_iff j k, e.beq_iff k j)

  pub lookup-delete :
      (k j : K) (m : Assoc K V)
      → Unique m
      → lookup j (delete k m) ≡ (if e.beq k j then none else lookup j m)
  unfolding lookup delete
  lookup-delete k j [] u = ground arith
  lookup-delete k j ((i, w) ∷ m) u =
      ground (arith, lookup-delete k j m u.1, e.beq_iff i k, e.beq_iff i j, e.beq_iff k j)

  pub delete-Unique : (k : K) (m : Assoc K V) → Unique m → Unique (delete k m)
  unfolding lookup delete
  delete-Unique k [] u = tt
  delete-Unique k ((j, w) ∷ m) u =
      ground (arith, delete-Unique k m u.1, lookup-delete k j m u.1, e.beq_iff j k, e.beq_iff k j)

  -- The number of values that pass a test.
  abbrev pub tally : (V → Bool) → Assoc K V → ℕ
  tally p [] = 0
  tally p ((k, v) ∷ m) = (if p v then 1 else 0) + tally p m

  pub tally-put :
      (p : V → Bool) (k : K) (v : V) (m : Assoc K V)
      → tally p (put k v m) + weigh p (lookup k m) ≡ tally p m + (if p v then 1 else 0)
  unfolding lookup put
  tally-put p k v [] = ground arith
  tally-put p k v ((j, w) ∷ m) = ground (arith, tally-put p k v m)

  pub tally-delete :
      (p : V → Bool) (k : K) (m : Assoc K V)
      → tally p (delete k m) + weigh p (lookup k m) ≡ tally p m
  unfolding lookup delete
  tally-delete p k [] = ground arith
  tally-delete p k ((j, w) ∷ m) = ground (arith, tally-delete p k m)

  -- A value written over another one adds no entry.
  pub length-put_there :
      (k : K) (v w : V) (m : Assoc K V) → lookup k m ≡ some w → length (put k v m) ≡ length m
  unfolding lookup put
  length-put_there k v w [] h = cc
  length-put_there k v w ((j, u) ∷ m) h = ground (arith, length-put_there k v w m)
