-- ===== src/Prelude/Dict.antt =====
-- Python's `dict`: an association list in the order of first insertion.

use mathlib.Core.Path.{◌≡◌, refl, ap, sym, subst}
use mathlib.Core.Bool.{Bool, true, false, ◌||◌}
use mathlib.Core.Option.{Option, none, some}
use mathlib.Core.List.{List, [], ◌∷◌, ◌++◌, map}
use native.Mathlib.Omega.{arith}
use mathlib.Core.Logic.{inl, inr, ◌≢◌}
use csc512_distributed_syste.Prelude.Tests.{if◌then◌else◌, Bool-cases}
use csc512_distributed_syste.Prelude.Lists.{any, All}
use csc512_distributed_syste.Prelude.Equality.{Eq, ◌==◌, member, Distinct, sound}

abbrev pub Dict {ℓ κ} : Type ℓ → Type κ → Type (ℓ ⊔ κ)
Dict K V = List (K × V)

module _ {ℓ κ} {K : Type ℓ} {V : Type κ} where
  -- list(d.keys())
  unfoldable pub keys : Dict K V → List K
  keys = map (λ e. e.0)

  -- list(d.values())
  unfoldable pub values : Dict K V → List V
  values = map (λ e. e.1)

module _ {ℓ κ} {K : Type ℓ} {V : Type κ} ⦃e : Eq K⦄ where
  -- d.get(k)
  unfoldable pub get : K → Dict K V → Option V
  get k [] = none
  get k ((j, v) ∷ d) = if j == k then some v else get k d

  -- d[k] = v: in place, or at the end
  unfoldable pub put : K → V → Dict K V → Dict K V
  put k v [] = (k, v) ∷ []
  put k v ((j, w) ∷ d) = let rest = put k v d in if j == k then (j, v) ∷ d else (j, w) ∷ rest

  -- d.get(k, v)
  unfoldable pub get_or : K → V → Dict K V → V
  get_or k v d = elim (get k d) [ none ↦ v | some w ↦ w ]

  pub get-put :
      (k j : K) (v : V) (d : Dict K V) → get j (put k v d) ≡ (if k == j then some v else get j d)
  unfolding get put
  get-put k j v [] = refl
  get-put k j v ((i, w) ∷ d) =
      ground (arith, get-put k j v d, e.beq_iff i k, e.beq_iff i j, e.beq_iff k j)

  pub get-put_self : (k : K) (v : V) (d : Dict K V) → get k (put k v d) ≡ some v
  get-put_self k v d = ground (arith, get-put k k v d, e.beq_iff k k)

  pub keys-put :
      (k : K) (v : V) (d : Dict K V)
      → keys (put k v d) ≡ (if member k (keys d) then keys d else keys d ++ k ∷ [])
  unfolding keys put member
  keys-put k v [] = refl
  keys-put k v ((i, w) ∷ d) = ground (arith, keys-put k v d)

  pub member-keys-put :
      (k j : K) (v : V) (d : Dict K V)
      → member j (keys (put k v d)) ≡ (if k == j then true else member j (keys d))
  unfolding keys put member
  member-keys-put k j v [] = ground arith
  member-keys-put k j v ((i, w) ∷ d) =
      ground (arith, member-keys-put k j v d, e.beq_iff i k, e.beq_iff i j, e.beq_iff k j)

  pub put-Distinct :
      (k : K) (v : V) (d : Dict K V) → Distinct (keys d) → Distinct (keys (put k v d))
  unfolding keys put member
  put-Distinct k v [] h = (refl, tt)
  put-Distinct k v ((i, w) ∷ d) h =
      ground (arith, put-Distinct k v d h.1, member-keys-put k i v d, e.beq_iff i k, e.beq_iff k i)

  pub get-eq-none : (k : K) (d : Dict K V) → member k (keys d) ≡ false → get k d ≡ none
  unfolding get keys member
  get-eq-none k [] h = refl
  get-eq-none k ((i, w) ∷ d) h = ground (arith, get-eq-none k d)

  pub member-keys-of_get :
      (k : K) (v : V) (d : Dict K V) → get k d ≡ some v → member k (keys d) ≡ true
  unfolding get keys member
  member-keys-of_get k v [] h = cc
  member-keys-of_get k v ((i, w) ∷ d) h = ground (arith, member-keys-of_get k v d)

  pub put-append :
      (k : K) (v : V) (d : Dict K V) → member k (keys d) ≡ false → put k v d ≡ d ++ (k, v) ∷ []
  unfolding put keys member
  put-append k v [] h = refl
  put-append k v ((i, w) ∷ d) h = ground (arith, put-append k v d)

  pub any-values_of_get :
      (p : V → Bool) (k : K) (w : V) (d : Dict K V)
      → get k d ≡ some w
      → p w ≡ true
      → any p (values d) ≡ true
  unfolding get values any
  any-values_of_get p k w [] h t = cc
  any-values_of_get p k w ((i, u) ∷ d) h t = ground (arith, any-values_of_get p k w d)

  -- A write keeps what holds of some value, if the value that it replaces hands it on.
  pub any-values-put :
      (p : V → Bool) (k : K) (v : V) (d : Dict K V)
      → ((w : V) → get k d ≡ some w → p w ≡ true → p v ≡ true)
      → any p (values (put k v d)) ≡ p v || any p (values d)
  unfolding get put values any
  any-values-put p k v [] h = refl
  any-values-put p k v ((i, u) ∷ d) h = elim (Bool-cases (i == k)) [
    | inl e ↦ let keep : p u ≡ true → p v ≡ true = h u (rw e) in rw e (ground (arith, keep))
    | inr e ↦
        let later : (w : V) → get k d ≡ some w → p w ≡ true → p v ≡ true = λ w g. h w (rw e g) in
        rw e (ground (arith, any-values-put p k v d later))
  ]

  pub get-ne-none : (k : K) (d : Dict K V) → member k (keys d) ≡ true → get k d ≢ none
  unfolding get keys member
  get-ne-none k [] h q = cc
  get-ne-none k ((i, u) ∷ d) h q = ground (arith, get-ne-none k d)

module _ {ℓ κ μ} {K : Type ℓ} {V : Type κ} ⦃e : Eq K⦄ (P : K → V → Type μ) where
  abbrev some_value : V → Option V → V
  some_value v none = v
  some_value v (some w) = w

  -- What holds of all entries holds of the entry that is got.
  pub get-All : (k : K) (v : V) (d : Dict K V) → All (λ a. P a.0 a.1) d → get k d ≡ some v → P k v
  unfolding get
  get-All k v [] h p = cc
  get-All k v ((j, w) ∷ d) h p = elim (Bool-cases (j == k)) [
    | inl q ↦
        let same : w ≡ v = ap (some_value v) (rw q at p) in
        subst (λ u. P k u) same (subst (λ i. P i w) (sound j k q) h.0)
    | inr q ↦ get-All k v d h.1 (rw q at p)
  ]

  pub put-All :
      (k : K) (v : V) (d : Dict K V)
      → P k v
      → All (λ a. P a.0 a.1) d
      → All (λ a. P a.0 a.1) (put k v d)
  unfolding put
  put-All k v [] new h = (new, tt)
  put-All k v ((j, w) ∷ d) new h = elim (Bool-cases (j == k)) [
    | inl q ↦ rw q (subst (λ i. P i v) (sym (sound j k q)) new, h.1)
    | inr q ↦ rw q (h.0, put-All k v d new h.1)
  ]

module _ {ℓ κ} {K : Type ℓ} {V : Type κ} ⦃e : Eq K⦄ (w : V) where
  pub get_or-put :
      (k j : K) (v : V) (d : Dict K V)
      → get_or j w (put k v d) ≡ (if k == j then v else get_or j w d)
  unfolding get_or
  get_or-put k j v d = ground (arith, get-put k j v d)

  still_got :
      (k : K) (v : V) (d whole : Dict K V)
      → member k (keys d) ≡ false
      → All (λ a. get_or a.0 w whole ≡ a.1) d
      → All (λ a. get_or a.0 w ((k, v) ∷ whole) ≡ a.1) d
  unfolding member keys get_or get
  still_got k v [] whole h got = tt
  still_got k v (a ∷ d) whole h got = (
    ground (arith, h, got.0, e.beq_iff k a.0, e.beq_iff a.0 k),
    still_got k v d whole (ground (arith, h)) got.1,
  )

  -- Without a key twice, the entries of a dictionary are what is got of it.
  pub entries-got : (d : Dict K V) → Distinct (keys d) → All (λ a. get_or a.0 w d ≡ a.1) d
  unfolding keys get_or get
  entries-got [] h = tt
  entries-got ((k, v) ∷ d) h =
      (ground (arith, e.beq_iff k k), still_got k v d d h.0 (entries-got d h.1))
