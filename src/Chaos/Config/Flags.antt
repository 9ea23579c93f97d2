-- ===== src/Chaos/Config/Flags.antt =====
-- Which snapshots limit the network, and what holds of each profile of the table.
use csc512_distributed_syste.Prelude.{
  ℕ, ◌≡◌, ◌↔◌, ◌≤◌, refl, Bool, true, false, ◌&&◌, none, some, List, [], ◌∷◌, All, any, map, length,
  ltb, arith,
}
use csc512_distributed_syste.Prelude.Dict.{get-All}
use csc512_distributed_syste.Prelude.Text.{Text, text_eq}
use csc512_distributed_syste.Chaos.Config.{
  ResourceSnapshot, DynamicStep, ChaosProfile, has_net_chaos, shell, clear_command, to_tc_commands,
  post_init,
}
use csc512_distributed_syste.Chaos.Config.Profiles.{profiles, chaos_profile, get_profile}

-- The snapshot sets neither a delay nor a loss nor a rate of the network.
abbrev pub LeavesNetwork : ResourceSnapshot → Type 0
LeavesNetwork s = (s.net_delay_ms ≡ none) × (s.net_loss_pct ≡ none) × (s.net_rate_kbps ≡ none)

has_net_chaos-LeavesNetwork : (s : ResourceSnapshot) → (has_net_chaos s ≡ false) ↔ LeavesNetwork s
unfolding has_net_chaos
has_net_chaos-LeavesNetwork s = ground arith

steps_leave :
    (steps : List DynamicStep)
    → (any has_net_chaos (map (λ s. s.snapshot) steps) ≡ false)
      ↔ All (λ s. LeavesNetwork s.snapshot) steps
unfolding any
steps_leave [] = (λ h. tt, λ h. refl)
steps_leave (s ∷ steps) =
    let (there, back) = steps_leave steps in
    let (here, again) = has_net_chaos-LeavesNetwork s.snapshot in
    (λ h. (here (ground arith), there (ground arith)), λ h. ground (arith, again h.0, back h.1))

-- A profile does without the right to administer the network exactly if neither its first snapshot nor
-- that of any step sets a delay, a loss or a rate of the network.
pub needs_net_admin_iff :
    (p : ChaosProfile)
    → ((post_init p).needs_net_admin ≡ false)
      ↔ (LeavesNetwork p.initial × All (λ s. LeavesNetwork s.snapshot) p.steps)
unfolding post_init any
needs_net_admin_iff p =
    let (there, back) = steps_leave p.steps in
    let (here, again) = has_net_chaos-LeavesNetwork p.initial in
    (λ h. (here (ground arith), there (ground arith)), λ h. ground (arith, again h.0, back h.1))

-- The commands of a snapshot only clear earlier rules exactly if it sets neither a delay nor a loss nor
-- a rate of the network; there are two at most exactly if it sets no rate.
pub to_tc_commands_iff :
    (s : ResourceSnapshot)
    → ((to_tc_commands s ≡ shell clear_command ∷ []) ↔ LeavesNetwork s)
      × ((length (to_tc_commands s) ≤ 2) ↔ (s.net_rate_kbps ≡ none))
unfolding to_tc_commands has_net_chaos
to_tc_commands_iff s = ground arith

-- The numbers ascend, from above a bound.
abbrev pub ascends : ℕ → List ℕ → Bool
ascends bound [] = true
ascends bound (n ∷ ns) = ltb bound n && ascends n ns

-- A profile filed under a name: it has this name, its steps come one after the other, after the start,
-- and none of its snapshots leaves room for swap beyond the memory.
pub record IsProfile (name : Text) (p : ChaosProfile) : Type 0 where
  named : p.name ≡ name
  timed : ascends 0 (map (λ s. s.delay_s) p.steps) ≡ true
  starts : p.initial.memory_swap_mb ≡ p.initial.memory_mb
  goes_on : All (λ s. s.snapshot.memory_swap_mb ≡ s.snapshot.memory_mb) p.steps

IsProfile-row :
    {name : Text} {p : ChaosProfile}
    → p.name ≡ name
    → ascends 0 (map (λ s. s.delay_s) p.steps) ≡ true
    → p.initial.memory_swap_mb ≡ p.initial.memory_mb
    → All (λ s. s.snapshot.memory_swap_mb ≡ s.snapshot.memory_mb) p.steps
    → IsProfile name p
IsProfile-row a b c d = record { named = a; timed = b; starts = c; goes_on = d }

-- A profile that is found has the name that was asked for, its steps stand in the order of their times,
-- no two at one time and none at the start, and every snapshot of it limits memory and swap alike.
pub get_profile-IsProfile :
    (name : Text) (p : ChaosProfile) → get_profile name ≡ some p → IsProfile name p
unfolding get_profile profiles chaos_profile post_init
get_profile-IsProfile name p h =
    get-All IsProfile name p profiles
      (
        IsProfile-row refl refl refl tt,
        (
          IsProfile-row refl refl refl tt,
          (
            IsProfile-row refl refl refl tt,
            (
              IsProfile-row refl refl refl (refl, (refl, (refl, (refl, tt)))),
              (
                IsProfile-row refl refl refl (refl, tt),
                (
                  IsProfile-row refl refl refl tt,
                  (
                    IsProfile-row refl refl refl (refl, (refl, (refl, tt))),
                    (IsProfile-row refl refl refl (refl, (refl, (refl, (refl, tt)))), tt),
                  ),
                ),
              ),
            ),
          ),
        ),
      )
      h
