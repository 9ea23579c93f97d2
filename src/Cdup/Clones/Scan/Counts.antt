-- ===== src/Cdup/Clones/Scan/Counts.antt =====
-- The dictionary of active clones of cdup/src/detect.py: what the matches of a statement add to it.
use csc512_distributed_syste.Prelude.{
  ℕ, ◌+◌, ◌-◌, ◌≤◌, ◌≡◌, refl, ap, subst, Bool, true, false, ◌&&◌, ◌||◌, List, [], ◌∷◌, member,
  member-append, select, ltb, leb, ◌==◌, nat_eq, if◌then◌else◌, All, All-weaken, All-select, all,
  pair_eq, Distinct, arith, and_true, Bool-cases, inl, inr,
}
use csc512_distributed_syste.Prelude.Dict.{
  Dict, get, get_or, put, keys, get-put, put-Distinct, put-All,
}
use csc512_distributed_syste.Prelude.Text.{text_eq}
use csc512_distributed_syste.Cdup.Clones.Scan.{Flat, is_entry, advance_match, advance, ended}

get_or-put :
    (k j v : ℕ) (d : Dict ℕ ℕ) → get_or j 0 (put k v d) ≡ (if k == j then v else get_or j 0 d)
unfolding get_or
get_or-put k j v d = ground (arith, get-put k j v d)

pub get_or-select :
    (p : ℕ → Bool) (k : ℕ) (d : Dict ℕ ℕ)
    → get_or k 0 (select (λ a. p a.0) d) ≡ (if p k then get_or k 0 d else 0)
unfolding get_or get select
get_or-select p k [] = ground arith
get_or-select p k ((j, v) ∷ d) =
    let later = get_or-select p k d in
    elim (Bool-cases (p j)) [
      | inl e ↦ rw e (ground (arith, later, ap p, e))
      | inr e ↦ rw e (ground (arith, later, ap p, e))
    ]

-- Whether a match is `o` after the current entry.
abbrev is_at : ℕ → ℕ → ℕ → Bool
is_at current o m = ltb 0 o && m == current + o

unfoldable pub found : ℕ → ℕ → List ℕ → Bool
found current o [] = false
found current o (m ∷ ms) = is_at current o m || found current o ms

advance_match-get_or :
    (flat : Flat) (current m : ℕ) (s : Dict ℕ ℕ × List ℕ) (o : ℕ)
    → is_entry flat m ≡ true
    → get_or o 0 (advance_match flat current m s).0
      ≡ get_or o 0 s.0 + (if is_at current o m then 1 else 0)
unfolding advance_match get_or
advance_match-get_or flat current m s o h = elim (Bool-cases (leb m current)) [
  | inl e ↦ rw (advance_match, e) (ground (arith, e))
  | inr e ↦
      rw (advance_match, e, h)
        (ground (
          arith,
          e,
          get_or-put (m - current) o (get_or (m - current) 0 s.0 + 1) s.0,
          ap (λ k. get_or k 0 s.0),
        ))
]

advance_match-member :
    (flat : Flat) (current m : ℕ) (s : Dict ℕ ℕ × List ℕ) (o : ℕ)
    → is_entry flat m ≡ true
    → member o (advance_match flat current m s).1 ≡ member o s.1 || is_at current o m
unfolding member advance_match
advance_match-member flat current m s o h = elim (Bool-cases (leb m current)) [
  | inl e ↦ rw (advance_match, e) (ground (arith, e))
  | inr e ↦ rw (advance_match, e, h) (ground (arith, e, member-append o s.1 ((m - current) ∷ [])))
]

pub found-member :
    (current o : ℕ) (ms : List ℕ) → found current o ms ≡ ltb 0 o && member (current + o) ms
unfolding found member
found-member current o [] = ground arith
found-member current o (m ∷ ms) = ground (arith, found-member current o ms)

found_once :
    (current o m : ℕ) (ms : List ℕ)
    → member m ms ≡ false
    → is_at current o m ≡ true
    → found current o ms ≡ false
found_once current o m ms h k =
    let same : m ≡ current + o = ground (arith, k) in
    let away : member (current + o) ms ≡ false = subst (λ n. member n ms ≡ false) same h in
    ground (arith, found-member current o ms, away)

-- The state after all matches.
pub advance-get_or :
    (flat : Flat) (current : ℕ) (ms : List ℕ) (s : Dict ℕ ℕ × List ℕ)
    → Distinct ms
    → all (is_entry flat) ms ≡ true
    → (o : ℕ)
    → get_or o 0 (advance flat current ms s).0
      ≡ get_or o 0 s.0 + (if found current o ms then 1 else 0)
unfolding advance found all
advance-get_or flat current [] s h k o = omega arith
advance-get_or flat current (m ∷ ms) s h k o =
    let kept = and_true (is_entry flat m) (all (is_entry flat) ms) k in
    ground (
      arith,
      advance-get_or flat current ms (advance_match flat current m s) h.1 kept.1 o,
      advance_match-get_or flat current m s o kept.0,
      found_once current o m ms h.0,
    )

pub advance-member :
    (flat : Flat) (current : ℕ) (ms : List ℕ) (s : Dict ℕ ℕ × List ℕ)
    → all (is_entry flat) ms ≡ true
    → (o : ℕ) → member o (advance flat current ms s).1 ≡ member o s.1 || found current o ms
unfolding advance found all
advance-member flat current [] s k o = ground arith
advance-member flat current (m ∷ ms) s k o =
    let kept = and_true (is_entry flat m) (all (is_entry flat) ms) k in
    ground (
      arith,
      advance-member flat current ms (advance_match flat current m s) kept.1 o,
      advance_match-member flat current m s o kept.0,
    )

-- A dictionary of counts: no key twice, no count of 0.
pub record IsCount (d : Dict ℕ ℕ) : Type 0 where
  pub once : Distinct (keys d)
  pub positive : All (λ a. 1 ≤ a.1) d

advance_match-IsCount :
    (flat : Flat) (current m : ℕ) (s : Dict ℕ ℕ × List ℕ)
    → IsCount s.0
    → IsCount (advance_match flat current m s).0
unfolding advance_match
advance_match-IsCount flat current m s h = elim (Bool-cases (leb m current)) [
  | inl e ↦ rw (advance_match, e) h
  | inr e ↦ elim (Bool-cases (is_entry flat m)) [
    | inl f ↦
        rw (advance_match, e, f)
          (record {
            once = put-Distinct (m - current) (get_or (m - current) 0 s.0 + 1) s.0 h.once;
            positive =
                put-All (λ k v. 1 ≤ v) (m - current) (get_or (m - current) 0 s.0 + 1) s.0
                  (omega arith) h.positive;
          })
    | inr f ↦ rw (advance_match, e, f) h
  ]
]

pub advance-IsCount :
    (flat : Flat) (current : ℕ) (ms : List ℕ) (s : Dict ℕ ℕ × List ℕ)
    → IsCount s.0
    → IsCount (advance flat current ms s).0
unfolding advance
advance-IsCount flat current [] s h = h
advance-IsCount flat current (m ∷ ms) s h =
    advance-IsCount flat current ms (advance_match flat current m s)
      (advance_match-IsCount flat current m s h)

keys-select :
    (p : ℕ × ℕ → Bool) (k : ℕ) (d : Dict ℕ ℕ)
    → member k (keys d) ≡ false
    → member k (keys (select p d)) ≡ false
unfolding member keys select
keys-select p k [] h = refl
keys-select p k (a ∷ d) h = ground (arith, keys-select p k d)

select-Distinct :
    (p : ℕ × ℕ → Bool) (d : Dict ℕ ℕ) → Distinct (keys d) → Distinct (keys (select p d))
unfolding keys select
select-Distinct p [] h = tt
select-Distinct p (a ∷ d) h = elim (Bool-cases (p a)) [
  | inl e ↦ rw e (keys-select p a.0 d h.0, select-Distinct p d h.1)
  | inr e ↦ rw e (select-Distinct p d h.1)
]

pub select-IsCount : (p : ℕ × ℕ → Bool) (d : Dict ℕ ℕ) → IsCount d → IsCount (select p d)
select-IsCount p d h = record {
  once = select-Distinct p d h.once;
  positive =
      All-weaken (λ a. (1 ≤ a.1) × (p a ≡ true)) (λ a. 1 ≤ a.1) (select p d) (λ a g. g.0)
        (All-select (λ a. 1 ≤ a.1) p d h.positive);
}

still_got :
    (k v : ℕ) (d whole : Dict ℕ ℕ)
    → member k (keys d) ≡ false
    → All (λ a. get_or a.0 0 whole ≡ a.1) d
    → All (λ a. get_or a.0 0 ((k, v) ∷ whole) ≡ a.1) d
unfolding member keys get_or get
still_got k v [] whole h all_got = tt
still_got k v (a ∷ d) whole h all_got =
    (ground (arith, h, all_got.0), still_got k v d whole (ground (arith, h)) all_got.1)

-- The entries of a dictionary of counts are what is got of it.
pub entries-got : (d : Dict ℕ ℕ) → Distinct (keys d) → All (λ a. get_or a.0 0 d ≡ a.1) d
unfolding keys get_or get
entries-got [] h = tt
entries-got ((k, v) ∷ d) h = (ground arith, still_got k v d d h.0 (entries-got d h.1))

pub ended-member :
    (min_length current o l : ℕ) (d : Dict ℕ ℕ)
    → get_or o 0 d ≡ l
    → 1 ≤ l
    → min_length ≤ l
    → member (current - l, (current - l + o, l)) (ended min_length current d) ≡ true
unfolding get_or get ended select member
ended-member min_length current o l [] h k m = absurd (omega arith)
ended-member min_length current o l ((j, v) ∷ d) h k m =
    ground (arith, h, k, m, ended-member min_length current o l d)
