-- ===== src/Chaos/Examples.antt =====
-- Concrete snapshots and profiles, on which the properties of the chaos runner are evaluated.
use csc512_distributed_syste.Prelude.{
  ◌≡◌, ◌↔◌, ◌≤◌, refl, false, All, length, Option, none, some, [], ◌∷◌,
}
use csc512_distributed_syste.Prelude.Dict.{get}
use csc512_distributed_syste.Prelude.Text.{decimal, codes, text_eq, text_beq}
use csc512_distributed_syste.Chaos.Config.{
  ResourceSnapshot, ChaosProfile, baseline, shell, clear_command, to_run_flags, to_update_flags,
  to_tc_commands, post_init,
}
use csc512_distributed_syste.Chaos.Config.Profiles.{get_profile}
use csc512_distributed_syste.Chaos.Config.Flags.{
  LeavesNetwork, IsProfile, needs_net_admin_iff, to_tc_commands_iff, get_profile-IsProfile,
}

abbrev a_snapshot : ResourceSnapshot
a_snapshot = record baseline { memory_mb = some 512; net_delay_ms = some 10 }

abbrev a_profile : ChaosProfile
a_profile = record {
  name = codes "slow";
  description = [];
  initial = baseline;
  steps = record { delay_s = 5; snapshot = a_snapshot; label = [] } ∷ [];
  needs_net_admin = false;
}

needs_net_admin_iff_example :
    ((post_init a_profile).needs_net_admin ≡ false)
    ↔ (LeavesNetwork a_profile.initial × All (λ s. LeavesNetwork s.snapshot) a_profile.steps)
needs_net_admin_iff_example = needs_net_admin_iff a_profile

to_tc_commands_iff_example :
    ((to_tc_commands a_snapshot ≡ shell clear_command ∷ []) ↔ LeavesNetwork a_snapshot)
    × ((length (to_tc_commands a_snapshot) ≤ 2) ↔ (a_snapshot.net_rate_kbps ≡ none))
to_tc_commands_iff_example = to_tc_commands_iff a_snapshot

-- The memory is limited, and the swap with it.
memory_flags :
    to_run_flags a_snapshot
    ≡ codes "--memory" ∷ codes "512m" ∷ codes "--memory-swap" ∷ codes "512m" ∷ []
unfolding to_run_flags decimal
memory_flags = refl

-- An update takes the quota in units of the period; the product is a stand-in.
quota_flags :
    to_update_flags (λ q n. n) (record baseline { cpu_quota = some (codes "1.0") })
    ≡ codes "--cpu-period" ∷ codes "100000" ∷ codes "--cpu-quota" ∷ codes "100000" ∷ []
unfolding to_update_flags decimal
quota_flags = refl

abbrev profile_of : Option ChaosProfile → ChaosProfile
profile_of none = a_profile
profile_of (some p) = p

abbrev memory_bomb : ChaosProfile
memory_bomb = profile_of (get_profile (codes "memory_bomb"))

memory_bomb-found : get_profile (codes "memory_bomb") ≡ some memory_bomb
unfolding get_profile get text_beq
memory_bomb-found = refl

get_profile-IsProfile_example : IsProfile (codes "memory_bomb") memory_bomb
get_profile-IsProfile_example =
    get_profile-IsProfile (codes "memory_bomb") memory_bomb memory_bomb-found
