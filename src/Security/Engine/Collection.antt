-- ===== src/Security/Engine/Collection.antt =====
-- What the main thread collects from the futures.
use mathlib.Core.List.Memᴰ
use mathlib.Core.List.{Memᴰ, Permᴰ}
use mathlib.Core.Option
use csc512_distributed_syste.Prelude.{
  ◌≡◌, refl, sym, ◌∙◌, Bool, true, false, Option, none, some, List, [], ◌∷◌, ◌++◌, map, any, arith,
  if◌then◌else◌, member, nat_eq, Distinct, ◌==◌, inl, inr, Bool-cases, length, any-append,
  append_assoc, append-nil,
}
use csc512_distributed_syste.Prelude.Dict.{Dict, get, put, keys, get-put, get-eq-none, get-ne-none}
use csc512_distributed_syste.Prelude.Perms.{member_of_Memᴰ, any-perm}
use csc512_distributed_syste.Prelude.Text.{Text, text_eq, text_beq_iff}
use csc512_distributed_syste.Security.Finding.{Finding}
use csc512_distributed_syste.Security.Report.{Execution, success, failed}
use csc512_distributed_syste.Security.Plugin.{TargetProfile, Plugin, Attempt, ok, raised}
use csc512_distributed_syste.Security.Engine.{
  start, start_loop, amend, Progress, complete, complete_loop, merge_loop,
}
use csc512_distributed_syste.Security.Engine.Selection.{or_option}

-- Other names keep the entry that they had.
pub get-start_loop_other :
    (k : Text) (statuses : Dict Text Execution) (ps : List Plugin)
    → member k (map (λ p. p.name) ps) ≡ false
    → get k (start_loop statuses ps) ≡ get k statuses
unfolding start_loop member
get-start_loop_other k statuses [] h = refl
get-start_loop_other k statuses (p ∷ ps) h =
    ground (
      arith,
      get-put p.name k start statuses,
      get-start_loop_other k (put p.name start statuses) ps,
    )

-- Every submitted plugin is entered as running.
pub get-start_loop :
    (k : Text) (statuses : Dict Text Execution) (ps : List Plugin)
    → member k (map (λ p. p.name) ps) ≡ true
    → get k (start_loop statuses ps) ≡ some start
unfolding start_loop member
get-start_loop k statuses [] h = cc
get-start_loop k statuses (p ∷ ps) h = elim (Bool-cases (member k (map (λ q. q.name) ps))) [
  | inl later ↦ get-start_loop k (put p.name start statuses) ps later
  | inr last ↦
      rw
        (
          get-start_loop_other k (put p.name start statuses) ps last,
          get-put p.name k start statuses,
        )
        (ground arith)
]

-- The change that a result makes to the entry of its plugin.
abbrev pub finish : Attempt (List Finding) → Execution → Execution
finish (ok found) x = record x { status = success; findings_count = length found }
finish (raised e) x = record x { status = failed; error = some e }

get-amend :
    (k name : Text) (change : Execution → Execution) (statuses : Dict Text Execution)
    → get k (amend name change statuses)
      ≡ (if name == k then Option.map change (get k statuses) else get k statuses)
unfolding amend
get-amend k name change statuses = go (get name statuses) refl
  where
    go :
        (o : Option Execution)
        → get name statuses ≡ o
        → get k (elim o [ none ↦ statuses | some x ↦ put name (change x) statuses ])
          ≡ (if name == k then Option.map change (get k statuses) else get k statuses)
    go none e = elim (Bool-cases (name == k)) [
      | inl h ↦ let q : get k statuses ≡ none = cc (e, (text_beq_iff name k).0 h) in rw (h, q)
      | inr h ↦ rw h
    ]
    go (some x) e = elim (Bool-cases (name == k)) [
      | inl h ↦
          let q : get k statuses ≡ some x = cc (e, (text_beq_iff name k).0 h) in
          rw (get-put name k (change x) statuses, h, q)
      | inr h ↦ rw (get-put name k (change x) statuses, h)
    ]

get-complete :
    (k : Text) (s : Progress) (p : Plugin) (r : Attempt (List Finding))
    → get k (complete s p r).statuses
      ≡ (if p.name == k then Option.map (finish r) (get k s.statuses) else get k s.statuses)
unfolding complete
get-complete k s p (ok found) = get-amend k p.name (finish (ok found)) s.statuses
get-complete k s p (raised e) = get-amend k p.name (finish (raised e)) s.statuses

module _ (profile : TargetProfile) where
  pub get-complete_loop_other :
      (k : Text) (s : Progress) (ps : List Plugin)
      → member k (map (λ p. p.name) ps) ≡ false
      → get k (complete_loop profile s ps).statuses ≡ get k s.statuses
  unfolding complete_loop member
  get-complete_loop_other k s [] h = refl
  get-complete_loop_other k s (p ∷ ps) h = ground (
    arith,
    get-complete k s p (p.execute profile),
    get-complete_loop_other k (complete s p (p.execute profile)) ps,
  )

  -- A plugin among those that complete, all of other names, gets the entry of its own result.
  pub get-complete_loop :
      (p : Plugin) (s : Progress) (ps : List Plugin)
      → Memᴰ p ps
      → Distinct (map (λ q. q.name) ps)
      → get p.name (complete_loop profile s ps).statuses
        ≡ Option.map (finish (p.execute profile)) (get p.name s.statuses)
  unfolding complete_loop
  get-complete_loop p s [] m d = elim m [ ]
  get-complete_loop p s (q ∷ ps) (Memᴰ.head h) d = rw (
    h,
    get-complete_loop_other q.name (complete s q (q.execute profile)) ps d.0,
    get-complete q.name s q (q.execute profile),
    (text_beq_iff q.name q.name).1 refl,
  )
  get-complete_loop p s (q ∷ ps) (Memᴰ.tail m) d =
      rw (get-complete_loop p (complete s q (q.execute profile)) ps m d.1) (
        ground (
          arith,
          get-complete p.name s q (q.execute profile),
          text_beq_iff q.name p.name,
          member_of_Memᴰ (Memᴰ.map (λ r. r.name) m),
        ))

-- A status that is there already stays; the first one to come fills a gap.
pub get-merge_loop :
    (k : Text) (execution statuses : Dict Text Execution)
    → get k (merge_loop execution statuses) ≡ or_option (get k execution) (get k statuses)
unfolding merge_loop get
get-merge_loop k execution [] = ground arith
get-merge_loop k execution ((name, x) ∷ statuses) =
    elim (Bool-cases (member name (keys execution))) [
      | inl old ↦ rw old (
          get-merge_loop k execution statuses
          ∙ ground (arith, text_beq_iff name k, get-ne-none name execution old))
      | inr new ↦ rw new (
          get-merge_loop k (put name x execution) statuses
          ∙ ground (
            arith,
            get-put name k x execution,
            text_beq_iff name k,
            get-eq-none name execution new,
          ))
    ]

-- The findings that a plugin returns: none if it raises.
abbrev pub returned : Attempt (List Finding) → List Finding
returned (ok found) = found
returned (raised e) = []

abbrev pub harvest : TargetProfile → List Plugin → List Finding
harvest profile [] = []
harvest profile (p ∷ ps) = returned (p.execute profile) ++ harvest profile ps

-- The findings collected are those of the plugins that returned, in the order of completion.
pub findings-complete_loop :
    (profile : TargetProfile) (s : Progress) (ps : List Plugin)
    → (complete_loop profile s ps).findings ≡ s.findings ++ harvest profile ps
unfolding complete_loop complete
findings-complete_loop profile s [] = sym (append-nil s.findings)
findings-complete_loop profile s (p ∷ ps) =
    findings-complete_loop profile (complete s p (p.execute profile)) ps ∙ go (p.execute profile)
  where
    go :
        (r : Attempt (List Finding))
        → (complete s p r).findings ++ harvest profile ps
          ≡ s.findings ++ (returned r ++ harvest profile ps)
    go (ok found) = append_assoc s.findings found (harvest profile ps)
    go (raised e) = refl

any-harvest :
    (t : Finding → Bool) (profile : TargetProfile) (ps : List Plugin)
    → any t (harvest profile ps) ≡ any (λ p. any t (returned (p.execute profile))) ps
unfolding any
any-harvest t profile [] = refl
any-harvest t profile (p ∷ ps) = ground (
  arith,
  any-append t (returned (p.execute profile)) (harvest profile ps),
  any-harvest t profile ps,
)

-- A test of the findings sees no order of completion.
pub any-harvest-perm :
    (t : Finding → Bool) (profile : TargetProfile) {ps qs : List Plugin}
    → Permᴰ ps qs
    → any t (harvest profile ps) ≡ any t (harvest profile qs)
any-harvest-perm t profile {ps} {qs} h =
    any-harvest t profile ps
    ∙ any-perm (λ p. any t (returned (p.execute profile))) h
    ∙ sym (any-harvest t profile qs)
