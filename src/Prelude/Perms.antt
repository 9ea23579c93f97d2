-- ===== src/Prelude/Perms.antt =====
-- Lists that hold the same elements in another order, by the library's derivations `Permᴰ`.
use mathlib.Core.Path.{◌≡◌, refl, ap}
use mathlib.Core.Bool.{Bool, true}
use mathlib.Core.List.{List, [], Memᴰ, Permᴰ}
use native.Mathlib.Omega.{arith}
use csc512_distributed_syste.Prelude.Lists.{any}
use csc512_distributed_syste.Prelude.Equality.{Eq, member, Distinct}

module _ {ℓ} {A : Type ℓ} where
  pub Memᴰ-perm : {a : A} {xs ys : List A} → Permᴰ xs ys → Memᴰ a xs → Memᴰ a ys
  Memᴰ-perm Permᴰ.nil m = m
  Memᴰ-perm (Permᴰ.cons p q) (Memᴰ.head h) = Memᴰ.head (cc)
  Memᴰ-perm (Permᴰ.cons p q) (Memᴰ.tail m) = Memᴰ.tail (Memᴰ-perm q m)
  Memᴰ-perm (Permᴰ.swap p q) (Memᴰ.head h) = Memᴰ.tail (Memᴰ.head (cc))
  Memᴰ-perm (Permᴰ.swap p q) (Memᴰ.tail (Memᴰ.head h)) = Memᴰ.head (cc)
  Memᴰ-perm (Permᴰ.swap p q) (Memᴰ.tail (Memᴰ.tail m)) = Memᴰ.tail (Memᴰ.tail m)
  Memᴰ-perm (Permᴰ.trans p q) m = Memᴰ-perm q (Memᴰ-perm p m)

  pub any-perm : (p : A → Bool) {xs ys : List A} → Permᴰ xs ys → any p xs ≡ any p ys
  unfolding any
  any-perm p Permᴰ.nil = refl
  any-perm p (Permᴰ.cons {a} {b} h q) = cc (ap p h, any-perm p q)
  any-perm p (Permᴰ.swap h k) = rw (h, k) (ground arith)
  any-perm p (Permᴰ.trans q r) = cc (any-perm p q, any-perm p r)

module _ {ℓ} {A : Type ℓ} ⦃e : Eq A⦄ where
  pub member-perm : (a : A) {xs ys : List A} → Permᴰ xs ys → member a xs ≡ member a ys
  unfolding member
  member-perm a Permᴰ.nil = refl
  member-perm a (Permᴰ.cons h q) = rw h (ground (arith, member-perm a q))
  member-perm a (Permᴰ.swap h k) = rw (h, k) (ground arith)
  member-perm a (Permᴰ.trans q r) = cc (member-perm a q, member-perm a r)

  pub Distinct-perm : {xs ys : List A} → Permᴰ xs ys → Distinct xs → Distinct ys
  unfolding member
  Distinct-perm Permᴰ.nil d = d
  Distinct-perm (Permᴰ.cons h q) d = (rw (← h, ← member-perm _ q) d.0, Distinct-perm q d.1)
  Distinct-perm (Permᴰ.swap {a} {b} h k) d =
      rw (← h, ← k) (ground (arith, e.beq_iff a b, e.beq_iff b a))
  Distinct-perm (Permᴰ.trans q r) d = Distinct-perm r (Distinct-perm q d)

  pub member_of_Memᴰ : {a : A} {xs : List A} → Memᴰ a xs → member a xs ≡ true
  unfolding member
  member_of_Memᴰ {a} (Memᴰ.head {x = x} h) = ground (arith, e.beq_iff x a, h)
  member_of_Memᴰ (Memᴰ.tail m) = ground (arith, member_of_Memᴰ m)

pub perm-nil {ℓ} : {A : Type ℓ} {xs ys : List A} → Permᴰ xs ys → ys ≡ [] → xs ≡ []
perm-nil Permᴰ.nil h = refl
perm-nil (Permᴰ.cons p q) h = cc
perm-nil (Permᴰ.swap p q) h = cc
perm-nil (Permᴰ.trans q r) h = perm-nil q (perm-nil r h)
