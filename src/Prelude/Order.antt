-- ===== src/Prelude/Order.antt =====
-- Types with a strict total order, and tables in the order of such keys: redb tables with text keys
-- or with pairs as keys. A text is compared by its characters, in the order of their code points,
-- which is the order of its bytes.
use Prim.Native.Nat.{ℕ}
use mathlib.Core.Path.{◌≡◌, refl}
use mathlib.Core.Bool.{Bool, true, false, ◌||◌, ◌&&◌}
use mathlib.Core.Option.{none, some}
use mathlib.Core.List.{List, [], ◌∷◌}
use native.Mathlib.Omega.{arith}
use mathlib.Core.Path.{subst}
use mathlib.Core.Logic.{inl, inr}
use realize.Prelude.Tests.{Bool-cases, ltb, ◌==◌, if◌then◌else◌}
use realize.Prelude.Eq.{
  Eq, nat_eq, list_eq, list_beq, pair_eq, pair_beq, Assoc, lookup, delete, Unique,
}

pub record Order {ℓ} (K : Type ℓ) : Type ℓ where
  pub eq : Eq K
  pub lt : K → K → Bool
  pub lt_irrefl : (a : K) → lt a a ≡ false
  pub lt_trans : (a b c : K) → lt a b ≡ true → lt b c ≡ true → lt a c ≡ true
  pub lt_total : (a b : K) → lt a b ≡ false → eq.beq b a ≡ false → lt b a ≡ true

pub ltb_irrefl : (a : ℕ) → ltb a a ≡ false
ltb_irrefl a = ground arith

pub ltb_trans : (a b c : ℕ) → ltb a b ≡ true → ltb b c ≡ true → ltb a c ≡ true
ltb_trans a b c g h = ground arith

pub ltb_total : (a b : ℕ) → ltb a b ≡ false → (b == a) ≡ false → ltb b a ≡ true
ltb_total a b g h = ground arith

instance abbrev pub nat_order : Order ℕ
nat_order = record {
  eq = nat_eq;
  lt = ltb;
  lt_irrefl = ltb_irrefl;
  lt_trans = ltb_trans;
  lt_total = ltb_total;
}

abbrev pub text_lt : List ℕ → List ℕ → Bool
text_lt [] [] = false
text_lt [] (b ∷ ys) = true
text_lt (a ∷ xs) [] = false
text_lt (a ∷ xs) (b ∷ ys) = ltb a b || (a == b && text_lt xs ys)

pub text_lt_irrefl : (a : List ℕ) → text_lt a a ≡ false
text_lt_irrefl [] = refl
text_lt_irrefl (a ∷ xs) = ground (arith, text_lt_irrefl xs)

pub text_lt_trans : (a b c : List ℕ) → text_lt a b ≡ true → text_lt b c ≡ true → text_lt a c ≡ true
text_lt_trans [] [] c g h = cc
text_lt_trans [] (b ∷ ys) [] g h = cc
text_lt_trans [] (b ∷ ys) (c ∷ zs) g h = refl
text_lt_trans (a ∷ xs) [] c g h = cc
text_lt_trans (a ∷ xs) (b ∷ ys) [] g h = cc
text_lt_trans (a ∷ xs) (b ∷ ys) (c ∷ zs) g h = ground (arith, text_lt_trans xs ys zs)

pub text_lt_total : (a b : List ℕ) → text_lt a b ≡ false → list_beq b a ≡ false → text_lt b a ≡ true
text_lt_total [] [] g h = cc
text_lt_total [] (b ∷ ys) g h = cc
text_lt_total (a ∷ xs) [] g h = refl
text_lt_total (a ∷ xs) (b ∷ ys) g h = ground (arith, text_lt_total xs ys)

instance abbrev pub text_order : Order (List ℕ)
text_order = record {
  eq = list_eq;
  lt = text_lt;
  lt_irrefl = text_lt_irrefl;
  lt_trans = text_lt_trans;
  lt_total = text_lt_total;
}

module _ {ℓ κ} {A : Type ℓ} {B : Type κ} ⦃a : Order A⦄ ⦃b : Order B⦄ where
  abbrev pub pair_lt : A × B → A × B → Bool
  pair_lt x y = a.lt x.0 y.0 || (a.eq.beq x.0 y.0 && b.lt x.1 y.1)

  pub pair_lt_irrefl : (x : A × B) → pair_lt x x ≡ false
  pair_lt_irrefl x = ground (arith, a.lt_irrefl x.0, b.lt_irrefl x.1)

  pub pair_lt_trans : (x y z : A × B) → pair_lt x y ≡ true → pair_lt y z ≡ true → pair_lt x z ≡ true
  pair_lt_trans x y z g h = ground (
    arith,
    a.lt_trans x.0 y.0 z.0,
    b.lt_trans x.1 y.1 z.1,
    a.eq.beq_iff x.0 y.0,
    a.eq.beq_iff y.0 z.0,
    a.eq.beq_iff x.0 z.0,
  )

  pub pair_lt_total :
      (x y : A × B)
      → pair_lt x y ≡ false
      → pair_beq ⦃a = a.eq⦄ ⦃b = b.eq⦄ y x ≡ false
      → pair_lt y x ≡ true
  pair_lt_total x y g h =
      ground
        (arith, a.lt_total x.0 y.0, b.lt_total x.1 y.1, a.eq.beq_iff x.0 y.0, a.eq.beq_iff y.0 x.0)

  instance abbrev pub pair_order : Order (A × B)
  pair_order = record {
    eq = pair_eq ⦃a = a.eq⦄ ⦃b = b.eq⦄;
    lt = pair_lt;
    lt_irrefl = pair_lt_irrefl;
    lt_trans = pair_lt_trans;
    lt_total = pair_lt_total;
  }

module _ {ℓ κ} {K : Type ℓ} {V : Type κ} ⦃o : Order K⦄ where
  unfoldable pub insert : K → V → Assoc K V → Assoc K V
  insert k v [] = (k, v) ∷ []
  insert k v ((j, w) ∷ m) =
      if o.lt k j
      then (k, v) ∷ (j, w) ∷ m
      else if o.eq.beq j k
      then (k, v) ∷ m
      else (j, w) ∷ insert k v m

  -- Every key is above `k`.
  abbrev pub Above : K → Assoc K V → Type 0
  Above k [] = Unit
  Above k ((j, w) ∷ m) = (o.lt k j ≡ true) × Above k m

  abbrev pub Ascending : Assoc K V → Type 0
  Ascending [] = Unit
  Ascending ((k, v) ∷ m) = Above k m × Ascending m

  pub lookup-insert :
      (k j : K) (v : V) (m : Assoc K V)
      → lookup ⦃e = o.eq⦄ j (insert k v m)
        ≡ (if o.eq.beq k j then some v else lookup ⦃e = o.eq⦄ j m)
  unfolding lookup insert
  lookup-insert k j v [] = refl
  lookup-insert k j v ((i, w) ∷ m) =
      ground (arith, lookup-insert k j v m, o.eq.beq_iff i k, o.eq.beq_iff i j, o.eq.beq_iff k j)

  pub Above-trans : (j k : K) (m : Assoc K V) → o.lt j k ≡ true → Above k m → Above j m
  Above-trans j k [] h a = tt
  Above-trans j k ((i, w) ∷ m) h a = (o.lt_trans j k i h a.0, Above-trans j k m h a.1)

  pub lookup-Above : (k : K) (m : Assoc K V) → Above k m → lookup ⦃e = o.eq⦄ k m ≡ none
  unfolding lookup
  lookup-Above k [] a = refl
  lookup-Above k ((j, w) ∷ m) a =
      ground (arith, lookup-Above k m a.1, o.eq.beq_iff j k, o.lt_irrefl k)

  pub Ascending-Unique : (m : Assoc K V) → Ascending m → Unique ⦃e = o.eq⦄ m
  Ascending-Unique [] a = tt
  Ascending-Unique ((k, v) ∷ m) a = (lookup-Above k m a.0, Ascending-Unique m a.1)

  pub insert-Above :
      (i k : K) (v : V) (m : Assoc K V) → o.lt i k ≡ true → Above i m → Above i (insert k v m)
  unfolding insert
  insert-Above i k v [] h a = (h, tt)
  insert-Above i k v ((j, w) ∷ m) h a = ground (arith, insert-Above i k v m h a.1)

  pub insert-Ascending : (k : K) (v : V) (m : Assoc K V) → Ascending m → Ascending (insert k v m)
  unfolding insert
  insert-Ascending k v [] a = (tt, tt)
  insert-Ascending k v ((j, w) ∷ m) a = elim (Bool-cases (o.lt k j)) [
    | inl l ↦ rw (insert, l) ((l, Above-trans k j m l a.0), a)
    | inr l ↦ elim (Bool-cases (o.eq.beq j k)) [
      | inl e ↦
          let same = (o.eq.beq_iff j k).0 e in
          rw (insert, l, e) (subst (λ i. Above i m) same a.0, a.1)
      | inr e ↦
          rw (insert, l, e)
            (insert-Above j k v m (o.lt_total k j l e) a.0, insert-Ascending k v m a.1)
    ]
  ]

  pub delete-Above : (i k : K) (m : Assoc K V) → Above i m → Above i (delete ⦃e = o.eq⦄ k m)
  unfolding delete
  delete-Above i k [] a = tt
  delete-Above i k ((j, w) ∷ m) a = ground (arith, delete-Above i k m a.1)

  pub delete-Ascending : (k : K) (m : Assoc K V) → Ascending m → Ascending (delete ⦃e = o.eq⦄ k m)
  unfolding delete
  delete-Ascending k [] a = tt
  delete-Ascending k ((j, w) ∷ m) a =
      ground (arith, delete-Ascending k m a.1, delete-Above j k m a.0)
