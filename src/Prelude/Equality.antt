-- ===== src/Prelude/Equality.antt =====
-- Decidable equality as an interface, `x in l`, and lists without repetition.
use Prim.Native.Nat.{ℕ}
use mathlib.Core.Path.{◌≡◌, refl, ap, subst}
use mathlib.Core.Logic.{◌↔◌, ◌≢◌, inl, inr}
use mathlib.Core.Bool.{Bool, true, false, ◌||◌, ◌&&◌}
use mathlib.Core.List.{List, [], ◌∷◌, ◌++◌}
use native.Mathlib.Omega.{arith}
use csc512_distributed_syste.Prelude.Lists.{All, all, select, all-append, all-select}
use csc512_distributed_syste.Prelude.Tests.{if◌then◌else◌, nat_beq, nat_beq→eq, Bool-cases}

pub record Eq {ℓ} (A : Type ℓ) : Type ℓ where
  pub beq : A → A → Bool
  pub beq_iff : (a b : A) → (beq a b ≡ true) ↔ (a ≡ b)

pub nat_beq_iff : (a b : ℕ) → (nat_beq a b ≡ true) ↔ (a ≡ b)
nat_beq_iff a b = (nat_beq→eq a b, λ p. ground (arith, p))

instance abbrev pub nat_eq : Eq ℕ
nat_eq = record { beq = nat_beq; beq_iff = nat_beq_iff }

pub pair_beq_iff {ℓ κ} :
    {A : Type ℓ} {B : Type κ} ⦃e : Eq A⦄ ⦃f : Eq B⦄ (p q : A × B)
    → (e.beq p.0 q.0 && f.beq p.1 q.1 ≡ true) ↔ (p ≡ q)
pair_beq_iff ⦃e⦄ ⦃f⦄ p q = (
  λ h.
      let a : p.0 ≡ q.0 = (e.beq_iff p.0 q.0).0 (ground (arith, h)) in
      let b : p.1 ≡ q.1 = (f.beq_iff p.1 q.1).0 (ground (arith, h)) in cc (a, b),
  λ h.
      let a : e.beq p.0 q.0 ≡ true = (e.beq_iff p.0 q.0).1 (ap (λ r. r.0) h) in
      let b : f.beq p.1 q.1 ≡ true = (f.beq_iff p.1 q.1).1 (ap (λ r. r.1) h) in
      ground (arith, a, b),
)

instance abbrev pub pair_eq {ℓ κ} : {A : Type ℓ} {B : Type κ} ⦃e : Eq A⦄ ⦃f : Eq B⦄ → Eq (A × B)
pair_eq ⦃e⦄ ⦃f⦄ = record { beq = λ p q. e.beq p.0 q.0 && f.beq p.1 q.1; beq_iff = pair_beq_iff }

infix 50 ◌==◌
abbrev pub ◌==◌ {ℓ} : {A : Type ℓ} ⦃e : Eq A⦄ → A → A → Bool
◌==◌ ⦃e⦄ = e.beq

module _ {ℓ} {A : Type ℓ} ⦃e : Eq A⦄ where
  pub eq_self : (a : A) → a == a ≡ true
  eq_self a = (e.beq_iff a a).1 refl

  pub sound : (a b : A) → a == b ≡ true → a ≡ b
  sound a b = (e.beq_iff a b).0

  pub sound_not : (a b : A) → a == b ≡ false → a ≢ b
  sound_not a b h p = cc (h, (e.beq_iff a b).1 p)

  -- x in l
  unfoldable pub member : A → List A → Bool
  member a [] = false
  member a (x ∷ xs) = x == a || member a xs

  pub member-append : (a : A) (xs ys : List A) → member a (xs ++ ys) ≡ member a xs || member a ys
  unfolding member
  member-append a [] ys = refl
  member-append a (x ∷ xs) ys = ground (arith, member-append a xs ys)

  -- No element occurs twice.
  abbrev pub Distinct : List A → Type 0
  Distinct [] = Unit
  Distinct (x ∷ xs) = (member x xs ≡ false) × Distinct xs

  pub Distinct-snoc :
      (a : A) (xs : List A) → member a xs ≡ false → Distinct xs → Distinct (xs ++ a ∷ [])
  unfolding member
  Distinct-snoc a [] h d = (refl, tt)
  Distinct-snoc a (x ∷ xs) h d = (
    ground (arith, member-append x xs (a ∷ []), e.beq_iff x a, e.beq_iff a x),
    Distinct-snoc a xs (ground arith) d.1,
  )

  -- `Distinct`, as a test.
  unfoldable pub is_distinct : List A → Bool
  unfolding member
  is_distinct [] = true
  is_distinct (x ∷ xs) = if member x xs then false else is_distinct xs

  pub is_distinct→Distinct : (xs : List A) → is_distinct xs ≡ true → Distinct xs
  unfolding is_distinct
  is_distinct→Distinct [] h = tt
  is_distinct→Distinct (x ∷ xs) h = ground (arith, is_distinct→Distinct xs)

  -- Every element of `xs` is one of `index`.
  unfoldable pub subset : List A → List A → Bool
  subset xs index = all (λ x. member x index) xs

  subset-cons : (x : A) (xs index : List A) → subset xs index ≡ true → subset xs (x ∷ index) ≡ true
  unfolding subset all member
  subset-cons x [] index h = refl
  subset-cons x (y ∷ xs) index h = ground (arith, subset-cons x xs index)

  pub subset_self : (xs : List A) → subset xs xs ≡ true
  unfolding subset all member
  subset_self [] = refl
  subset_self (x ∷ xs) = ground (arith, e.beq_iff x x, subset-cons x xs xs (subset_self xs))

  pub subset-append :
      (xs ys index : List A) → subset (xs ++ ys) index ≡ subset xs index && subset ys index
  unfolding subset
  subset-append xs ys index = all-append (λ x. member x index) xs ys

  pub subset-select :
      (p : A → Bool) (xs index : List A)
      → subset xs index ≡ true
      → subset (select p xs) index ≡ true
  unfolding subset
  subset-select p xs index h = all-select (λ x. member x index) p xs h

  pub subset-member :
      (x : A) (xs index : List A)
      → subset xs index ≡ true
      → member x xs ≡ true
      → member x index ≡ true
  unfolding subset all member
  subset-member x [] index h m = cc
  subset-member x (y ∷ xs) index h m = ground (arith, subset-member x xs index, e.beq_iff y x)

-- A member has what all have.
pub member-of_all {ℓ} :
    {A : Type ℓ} ⦃e : Eq A⦄ (p : A → Bool) (x : A) (xs : List A)
    → all p xs ≡ true
    → member x xs ≡ true
    → p x ≡ true
unfolding all member
member-of_all p x [] h m = cc
member-of_all ⦃e⦄ p x (y ∷ ys) h m = ground (arith, e.beq_iff y x, member-of_all p x ys)

pub all-of_member {ℓ} :
    {A : Type ℓ} ⦃e : Eq A⦄ (p : A → Bool) (xs : List A)
    → ((x : A) → member x xs ≡ true → p x ≡ true)
    → all p xs ≡ true
unfolding all member
all-of_member p [] f = refl
all-of_member p (x ∷ xs) f =
    ground (arith, f x (ground (arith, eq_self x)), all-of_member p xs (λ y h. f y (ground arith)))

-- A member has what all have, for a property that is no test.
pub member-All {ℓ κ} :
    {A : Type ℓ} ⦃e : Eq A⦄ (P : A → Type κ) (x : A) (xs : List A)
    → All P xs
    → member x xs ≡ true
    → P x
unfolding member
member-All P x [] h m = cc
member-All ⦃e⦄ P x (y ∷ ys) h m = elim (Bool-cases (e.beq y x)) [
  | inl q ↦ subst (λ z. P z) (sound y x q) h.0
  | inr q ↦ member-All P x ys h.1 (rw q at m)
]
