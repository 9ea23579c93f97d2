-- ===== src/Cdup/Clones/Scan/Exact.antt =====
-- The runs that the scan of cdup/src/detect.py reports are exactly the longest ones.
use csc512_distributed_syste.Prelude.{
  ℕ, suc, ◌+◌, ◌≡◌, refl, ap, sym, ◌∙◌, subst, true, false, Option, none, some, List, [], ◌∷◌, ◌++◌,
  member, select, length, get_elem?, nat_eq, pair_eq, all, Distinct, arith,
}
use csc512_distributed_syste.Prelude.Dict.{Dict, get, get_or, keys}
use csc512_distributed_syste.Prelude.Text.{Text, text_eq}
use csc512_distributed_syste.Cdup.Clones.Scan.{
  Entry, Flat, Scan, is_entry, advance, ended, scan_entry, scan_entries,
}
use csc512_distributed_syste.Cdup.Clones.Scan.Counts.{
  found, advance-get_or, advance-member, advance-IsCount,
}
use csc512_distributed_syste.Cdup.Clones.Scan.Runs.{hit, run, IsScanned, closed, closed-IsScanned}

select-all : (d : Dict ℕ ℕ) → select (λ a. true) d ≡ d
unfolding select
select-all [] = refl
select-all (a ∷ d) = ap (λ e. a ∷ e) (select-all d)

select-none : (d : Dict ℕ ℕ) → select (λ a. false) d ≡ []
unfolding select
select-none [] = refl
select-none (a ∷ d) = select-none d

past_end : (flat : Flat) → get_elem? flat (length flat) ≡ none
past_end [] = refl
past_end (x ∷ flat) = past_end flat

abbrev pub last_scan : Flat → Dict Text (List ℕ) → ℕ → Scan
last_scan flat index min_length =
    scan_entry flat index min_length (length flat) none
      (scan_entries flat index min_length 0 flat (record { active = []; completed = [] }))

-- What the scan needs of an index: for each norm, different positions of entries.
abbrev pub IsIndex : Flat → Dict Text (List ℕ) → Type 0
IsIndex flat index =
    (norm : Text)
    → Distinct (get_or norm [] index) × (all (is_entry flat) (get_or norm [] index) ≡ true)

module _ (flat : Flat) (index : Dict Text (List ℕ)) (min_length : ℕ)
    (indexed : IsIndex flat index) where
  between_segments :
      (i : ℕ) (s : Scan)
      → ((o : ℕ) → hit flat index o i ≡ false)
      → IsScanned flat index min_length i s
      → IsScanned flat index min_length (suc i) (scan_entry flat index min_length i none s)
  unfolding scan_entry closed hit member
  between_segments i s missed h =
      let all_closed =
        closed-IsScanned flat index min_length i s (s.active, []) h h.count
          (λ o. rw (missed o) (omega (arith, h.counted o))) (λ o. sym (missed o)) in
      subst (λ x. IsScanned flat index min_length (suc i) x)
        (λ k. record {
          active = select-none s.active k;
          completed = s.completed ++ ended min_length i (select-all s.active k);
        })
        all_closed

  at_statement :
      (i : ℕ) (e : Entry) (s : Scan)
      → get_elem? flat i ≡ some (some e)
      → IsScanned flat index min_length i s
      → IsScanned flat index min_length (suc i) (scan_entry flat index min_length i (some e) s)
  unfolding scan_entry closed hit member
  at_statement i e s at h =
      let matches = get_or e.norm [] index in
      let hits : (o : ℕ) → hit flat index o i ≡ found i o matches = λ o. rw (hit, at) refl in
      closed-IsScanned flat index min_length i s (advance flat i matches (s.active, [])) h
        (advance-IsCount flat i matches (s.active, []) h.count)
        (λ o. rw (hits o) (
          omega (
            arith,
            h.counted o,
            advance-get_or flat i matches (s.active, []) (indexed e.norm).0 (indexed e.norm).1 o,
          )))
        (λ o. rw (hits o) (advance-member flat i matches (s.active, []) (indexed e.norm).1 o))

  scan_entry-IsScanned :
      (i : ℕ) (x : Option Entry) (s : Scan)
      → get_elem? flat i ≡ some x
      → IsScanned flat index min_length i s
      → IsScanned flat index min_length (suc i) (scan_entry flat index min_length i x s)
  unfolding hit
  scan_entry-IsScanned i none s at h = between_segments i s (λ o. rw (hit, at) refl) h
  scan_entry-IsScanned i (some e) s at h = at_statement i e s at h

  at_same : (i j : ℕ) → i ≡ j → get_elem? flat i ≡ get_elem? flat j
  at_same i j e = ap (λ n. get_elem? flat n) e

  unscanned : IsScanned flat index min_length 0 (record { active = []; completed = [] })
  unfolding run keys get_or get
  unscanned = record {
    count = record { once = tt; positive = tt };
    counted = λ o. refl;
    sound = tt;
    complete = λ o j h. absurd (omega (arith, h));
  }

  scan_entries-IsScanned :
      (i : ℕ) (rest : Flat) (s : Scan)
      → ((k : ℕ) → get_elem? flat (i + k) ≡ get_elem? rest k)
      → IsScanned flat index min_length i s
      → IsScanned flat index min_length
          (i + length rest)
          (scan_entries flat index min_length i rest s)
  unfolding scan_entries
  scan_entries-IsScanned i [] s here h =
      subst (λ n. IsScanned flat index min_length n s) (omega arith) h
  scan_entries-IsScanned i (x ∷ rest) s here h =
      let after : (k : ℕ) → get_elem? flat (suc i + k) ≡ get_elem? rest k =
        λ k. at_same (suc i + k) (i + suc k) (omega arith) ∙ here (suc k) in
      let first : get_elem? flat i ≡ some x = at_same i (i + 0) (omega arith) ∙ here 0 in
      let next = scan_entry flat index min_length i x s in
      subst
        (λ n.
          IsScanned flat index min_length n (scan_entries flat index min_length (suc i) rest next))
        (omega arith)
        (scan_entries-IsScanned (suc i) rest next after (scan_entry-IsScanned i x s first h))

  pub scanned :
      IsScanned flat index min_length (suc (length flat)) (last_scan flat index min_length)
  unfolding hit run
  scanned =
      between_segments (length flat) _ (λ o. rw (hit, past_end flat) refl)
        (subst
          (λ n.
            IsScanned flat index min_length n
              (scan_entries flat index min_length 0 flat (record { active = []; completed = [] })))
          (omega arith)
          (scan_entries-IsScanned 0 flat (record { active = []; completed = [] })
            (λ k. at_same (0 + k) k (omega arith)) unscanned))
