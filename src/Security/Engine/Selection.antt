-- ===== src/Security/Engine/Selection.antt =====
-- Which plugins the engine runs, and the status that it gives to those that it does not run.
use mathlib.Core.List.Memᴰ
use mathlib.Core.List.{Memᴰ}
use csc512_distributed_syste.Prelude.{
  ◌≡◌, refl, Bool, true, false, not, ◌&&◌, Option, none, some, List, [], ◌∷◌, map, arith,
  if◌then◌else◌, member, nat_eq, Eq, Distinct, ◌==◌, inl, inr, Bool-cases,
}
use csc512_distributed_syste.Prelude.Dict.{Dict, get, get-put}
use csc512_distributed_syste.Prelude.Perms.{member_of_Memᴰ}
use csc512_distributed_syste.Prelude.Text.{Text, text_eq, text_beq_iff}
use csc512_distributed_syste.Security.Report.{Execution}
use csc512_distributed_syste.Security.Plugin.{TargetProfile, Plugin, Attempt, ok, raised, mode_eq}
use csc512_distributed_syste.Security.Engine.{
  select_plugins, not_for_mode, not_handled, skip, skip_step, skip_loop,
}

abbrev pub says_yes : Attempt Bool → Bool
says_yes (ok b) = b
says_yes (raised e) = false

-- The plugin is for the mode and its `can_handle` returns True.
abbrev pub applies : TargetProfile → Plugin → Bool
applies profile p = member profile.mode p.scan_modes && says_yes (p.can_handle profile)

select_plugins-yes :
    (profile : TargetProfile) (p : Plugin) (ps : List Plugin)
    → applies profile p ≡ true
    → select_plugins profile (p ∷ ps) ≡ p ∷ select_plugins profile ps
unfolding select_plugins
select_plugins-yes profile p ps h = ground arith

select_plugins-no :
    (profile : TargetProfile) (p : Plugin) (ps : List Plugin)
    → applies profile p ≡ false
    → select_plugins profile (p ∷ ps) ≡ select_plugins profile ps
unfolding select_plugins
select_plugins-no profile p ps h = ground arith

-- A plugin that applies is selected.
pub Memᴰ-select_plugins :
    (profile : TargetProfile) {p : Plugin} (ps : List Plugin)
    → Memᴰ p ps
    → applies profile p ≡ true
    → Memᴰ p (select_plugins profile ps)
Memᴰ-select_plugins profile [] m t = elim m [ ]
Memᴰ-select_plugins profile {p} (q ∷ ps) (Memᴰ.head h) t =
    rw (select_plugins-yes profile q ps (rw (← h) t)) (Memᴰ.head h)
Memᴰ-select_plugins profile {p} (q ∷ ps) (Memᴰ.tail m) t =
    let rest = Memᴰ-select_plugins profile ps m t in
    elim (Bool-cases (applies profile q)) [
      | inl y ↦ rw (select_plugins-yes profile q ps y) (Memᴰ.tail rest)
      | inr n ↦ rw (select_plugins-no profile q ps n) rest
    ]

module _ {ℓ} {K : Type ℓ} ⦃e : Eq K⦄ (key : Plugin → K) where
  member-select_plugins :
      (profile : TargetProfile) (k : K) (ps : List Plugin)
      → member k (map key ps) ≡ false
      → member k (map key (select_plugins profile ps)) ≡ false
  unfolding select_plugins member
  member-select_plugins profile k [] h = refl
  member-select_plugins profile k (p ∷ ps) h = ground (arith, member-select_plugins profile k ps)

  pub Distinct-select_plugins :
      (profile : TargetProfile) (ps : List Plugin)
      → Distinct (map key ps)
      → Distinct (map key (select_plugins profile ps))
  unfolding select_plugins
  Distinct-select_plugins profile [] h = tt
  Distinct-select_plugins profile (p ∷ ps) h =
      ground
        (arith, Distinct-select_plugins profile ps h.1, member-select_plugins profile (key p) ps)

  -- Membership in the selection, by the key, is what `applies` says.
  pub member-select_plugins_iff :
      (profile : TargetProfile) (p : Plugin) (ps : List Plugin)
      → Memᴰ p ps
      → Distinct (map key ps)
      → member (key p) (map key (select_plugins profile ps)) ≡ applies profile p
  unfolding member
  member-select_plugins_iff profile p [] m d = elim m [ ]
  member-select_plugins_iff profile p (q ∷ ps) (Memᴰ.head h) d =
      rw h (elim (Bool-cases (applies profile q)) [
        | inl y ↦ rw (select_plugins-yes profile q ps y) (ground (arith, e.beq_iff (key q) (key q)))
        | inr n ↦
            rw (select_plugins-no profile q ps n, n) (member-select_plugins profile (key q) ps d.0)
      ])
  member-select_plugins_iff profile p (q ∷ ps) (Memᴰ.tail m) d =
      let rest = member-select_plugins_iff profile p ps m d.1 in
      elim (Bool-cases (applies profile q)) [
        | inl y ↦
            rw (select_plugins-yes profile q ps y)
              (ground (arith, rest, e.beq_iff (key q) (key p), member_of_Memᴰ (Memᴰ.map key m)))
        | inr n ↦ rw (select_plugins-no profile q ps n) rest
      ]

-- The entry that the loop over all plugins makes for one that is not run.
abbrev pub skipped_entry : TargetProfile → List Plugin → Plugin → Option Execution
skipped_entry profile applicable p =
    if not (member profile.mode p.scan_modes)
    then some (skip (not_for_mode profile))
    else if not (member p.ident (map (λ q. q.ident) applicable))
    then some (skip not_handled)
    else none

abbrev pub or_option : Option Execution → Option Execution → Option Execution
or_option none y = y
or_option (some x) y = some x

module _ (profile : TargetProfile) (applicable : List Plugin) where
  get-skip_step :
      (k : Text) (statuses : Dict Text Execution) (p : Plugin)
      → get k (skip_step profile applicable statuses p) ≡ (
          if p.name == k
          then or_option (skipped_entry profile applicable p) (get k statuses)
          else get k statuses)
  unfolding skip_step
  get-skip_step k statuses p = ground (
    arith,
    get-put p.name k (skip (not_for_mode profile)) statuses,
    get-put p.name k (skip not_handled) statuses,
  )

  get-skip_loop_other :
      (k : Text) (statuses : Dict Text Execution) (ps : List Plugin)
      → member k (map (λ p. p.name) ps) ≡ false
      → get k (skip_loop profile applicable statuses ps) ≡ get k statuses
  unfolding skip_loop member
  get-skip_loop_other k statuses [] h = refl
  get-skip_loop_other k statuses (p ∷ ps) h = ground (
    arith,
    get-skip_step k statuses p,
    get-skip_loop_other k (skip_step profile applicable statuses p) ps,
  )

  pub get-skip_loop :
      (p : Plugin) (statuses : Dict Text Execution) (ps : List Plugin)
      → Memᴰ p ps
      → Distinct (map (λ q. q.name) ps)
      → get p.name (skip_loop profile applicable statuses ps)
        ≡ or_option (skipped_entry profile applicable p) (get p.name statuses)
  unfolding skip_loop
  get-skip_loop p statuses [] m d = elim m [ ]
  get-skip_loop p statuses (q ∷ ps) (Memᴰ.head h) d =
      rw (h, get-skip_loop_other q.name (skip_step profile applicable statuses q) ps d.0)
        (ground (arith, get-skip_step q.name statuses q, text_beq_iff q.name q.name))
  get-skip_loop p statuses (q ∷ ps) (Memᴰ.tail m) d =
      rw
        (
          get-skip_loop p (skip_step profile applicable statuses q) ps m d.1,
          get-skip_step p.name statuses q,
        )
        (ground (arith, text_beq_iff q.name p.name, member_of_Memᴰ (Memᴰ.map (λ r. r.name) m)))
