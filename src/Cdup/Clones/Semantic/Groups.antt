-- ===== src/Cdup/Clones/Semantic/Groups.antt =====
-- The classes of Type IV of cdup/src/detect.py.
use csc512_distributed_syste.Prelude.{
  ℕ, ◌≤◌, ◌≡◌, refl, ap, sym, ◌∙◌, Bool, true, false, List, [], ◌∷◌, ◌++◌, select, length, leb,
  leb→le, ◌==◌, if◌then◌else◌, All, All-select, All-weaken, append_assoc, append-nil, Distinct,
  sound,
}
use csc512_distributed_syste.Prelude.Dict.{
  Dict, get, get_or, put, keys, values, get_or-put, put-Distinct, entries-got,
}
use csc512_distributed_syste.Prelude.Sort.{sorted, All-sorted}
use csc512_distributed_syste.Prelude.Text.{Text, text_eq}
use csc512_distributed_syste.Cdup.Ir.{Segment}
use csc512_distributed_syste.Cdup.Clones.Semantic.{
  Signature, signature_hash, signature_groups, fn_segments, detect_type4,
}

module _ (hash : Signature → Text) (segments : List Segment) where
  -- The segments with a hash.
  unfoldable pub alike : Text → List Segment → List Segment
  alike h = select (λ s. signature_hash hash segments s == h)

  signature_groups-get_or :
      (h : Text) (groups : Dict Text (List Segment)) (ss : List Segment)
      → get_or h [] (signature_groups hash segments groups ss) ≡ get_or h [] groups ++ alike h ss
  unfolding signature_groups alike select
  signature_groups-get_or h groups [] = sym (append-nil (get_or h [] groups))
  signature_groups-get_or h groups (s ∷ ss) =
      let sig = signature_hash hash segments s in
      let old = get_or sig [] groups in
      signature_groups-get_or h (put sig (old ++ s ∷ []) groups) ss
      ∙ ap (λ l. l ++ alike h ss) (get_or-put [] sig h (old ++ s ∷ []) groups)
      ∙ at (sig == h) refl
    where
      at :
          (b : Bool)
          → signature_hash hash segments s == h ≡ b
          → (if b
                then get_or (signature_hash hash segments s) [] groups ++ s ∷ []
                else get_or h [] groups)
              ++ alike h ss
            ≡ get_or h [] groups ++ (if b then s ∷ alike h ss else alike h ss)
      at true q =
          append_assoc (get_or (signature_hash hash segments s) [] groups) (s ∷ []) (alike h ss)
          ∙ ap (λ k. get_or k [] groups ++ s ∷ alike h ss)
              (sound (signature_hash hash segments s) h q)
      at false q = refl

  signature_groups-Distinct :
      (groups : Dict Text (List Segment)) (ss : List Segment)
      → Distinct (keys groups)
      → Distinct (keys (signature_groups hash segments groups ss))
  unfolding signature_groups
  signature_groups-Distinct groups [] h = h
  signature_groups-Distinct groups (s ∷ ss) h =
      let sig = signature_hash hash segments s in
      let old = get_or sig [] groups in
      signature_groups-Distinct (put sig (old ++ s ∷ []) groups) ss
        (put-Distinct sig (old ++ s ∷ []) groups h)

  -- A class of Type IV: all function segments with one hash, two at least.
  abbrev pub IsSemanticClass : ℕ → List Segment → Type 0
  IsSemanticClass min_length g =
      ((h : Text) × (g ≡ alike h (fn_segments min_length segments))) × (2 ≤ length g)

  values-All :
      (fs : List Segment) (d : Dict Text (List Segment))
      → All (λ e. e.1 ≡ alike e.0 fs) d
      → All (λ g. (h : Text) × (g ≡ alike h fs)) (values d)
  unfolding values
  values-All fs [] h = tt
  values-All fs (e ∷ d) h = ((e.0, h.0), values-All fs d h.1)

  -- Each reported class is, for one hash, all the functions of the minimal length whose signature has
  -- this hash, in order, and there are two at least.
  pub detect_type4-IsSemanticClass :
      (min_length : ℕ)
      → All (λ g. IsSemanticClass min_length g) (detect_type4 hash min_length segments)
  unfolding detect_type4 get_or get keys
  detect_type4-IsSemanticClass min_length =
      let fs = fn_segments min_length segments in
      let groups = signature_groups hash segments [] fs in
      let got = entries-got [] groups (signature_groups-Distinct [] fs tt) in
      let filed =
        All-weaken (λ e. get_or e.0 [] groups ≡ e.1) (λ e. e.1 ≡ alike e.0 fs) groups
          (λ e h. sym h ∙ signature_groups-get_or e.0 [] fs) got in
      let ordered =
        All-sorted (λ g h. leb (length h) (length g)) (λ g. (h : Text) × (g ≡ alike h fs))
          (values groups) (values-All fs groups filed) in
      let all_groups = sorted (λ g h. leb (length h) (length g)) (values groups) in
      All-weaken (λ g. ((h : Text) × (g ≡ alike h fs)) × (leb 2 (length g) ≡ true))
        (λ g. IsSemanticClass min_length g) (select (λ g. leb 2 (length g)) all_groups)
        (λ g h. (h.0, leb→le 2 (length g) h.1))
        (All-select (λ g. (h : Text) × (g ≡ alike h fs)) (λ g. leb 2 (length g)) all_groups ordered)
