-- ===== src/Chaos/Config/Profiles.antt =====
-- runtime_chaos/chaos_config.py: the table PROFILES and `get_profile`.
use csc512_distributed_syste.Prelude.{ℕ, false, Option, some, List, [], ◌∷◌}
use csc512_distributed_syste.Prelude.Dict.{Dict, get}
use csc512_distributed_syste.Prelude.Text.{Text, codes, text_eq}
use csc512_distributed_syste.Chaos.Config.{
  ResourceSnapshot, DynamicStep, ChaosProfile, baseline, post_init,
}

abbrev pub quota : Text → ResourceSnapshot
quota q = record baseline { cpu_quota = some q }

abbrev pub memory : ℕ → ℕ → ResourceSnapshot
memory n swap = record baseline { memory_mb = some n; memory_swap_mb = some swap }

abbrev pub loss : Text → ResourceSnapshot
loss q = record baseline { net_loss_pct = some q }

abbrev pub step : ℕ → ResourceSnapshot → Text → DynamicStep
step delay s label = record { delay_s = delay; snapshot = s; label = label }

-- The constructor of the dataclass.
unfoldable pub chaos_profile : Text → Text → ResourceSnapshot → List DynamicStep → ChaosProfile
unfolding post_init
chaos_profile name description initial steps = post_init (record {
  name = name;
  description = description;
  initial = initial;
  steps = steps;
  needs_net_admin = false;
})

unfoldable pub profiles : Dict Text ChaosProfile
unfolding chaos_profile
profiles =
    (codes "none", chaos_profile (codes "none") (codes "clean baseline run") baseline [])
    ∷ (
      codes "cpu_half",
      chaos_profile (codes "cpu_half") (codes "Fixed 50% CPU from start") (quota (codes "0.5")) [],
    )
    ∷ (
      codes "cpu_tenth",
      chaos_profile (codes "cpu_tenth") (codes "Fixed 10% CPU from start (Severely throttle CPU)")
          (quota (codes "0.1")) [],
    )
    ∷ (
      codes "memory_squeeze",
      chaos_profile (codes "memory_squeeze") (codes "RAM shrinks 512→256→128→64→32 MB over 20s")
          (memory 512 512)
          (step 5 (memory 256 256) (codes "RAM → 256 MB")
            ∷ step 10 (memory 128 128) (codes "RAM → 128 MB")
            ∷ step 15 (memory 64 64) (codes "RAM → 64 MB")
            ∷ step 20 (memory 32 32) (codes "RAM → 32 MB (OOM risk)")
            ∷ []),
    )
    ∷ (
      codes "memory_bomb",
      chaos_profile (codes "memory_bomb")
          (codes "Generous RAM, then sudden drop to 16 MB at 10s — tests OOM handling")
          (memory 512 512) (step 10 (memory 16 16) (codes "RAM → 16 MB") ∷ []),
    )
    ∷ (
      codes "memory_ceiling",
      chaos_profile (codes "memory_ceiling") (codes "Fixed 256 MB ceiling from the start")
          (memory 256 256) [],
    )
    ∷ (
      codes "network_degrade",
      chaos_profile (codes "network_degrade")
          (codes "Latency and loss ramp up, then bandwidth capped at 64kbps")
          (record baseline { net_delay_ms = some 10 })
          (step 5 (record (loss (codes "2.0")) { net_delay_ms = some 150 })
              (codes "net: 150ms + 2% loss")
            ∷ step 15 (record (loss (codes "15.0")) { net_delay_ms = some 500 })
                (codes "net: 500ms + 15% loss")
            ∷ step 30 (record baseline { net_delay_ms = some 100; net_rate_kbps = some 64 })
                (codes "net: 64kbps cap")
            ∷ []),
    )
    ∷ (
      codes "network_flap",
      chaos_profile (codes "network_flap")
          (codes "100% packet loss every 5s to simulate intermittent outage") baseline
          (step 5 (loss (codes "100.0")) (codes "net: BLACKOUT")
            ∷ step 10 baseline (codes "net: restore")
            ∷ step 15 (loss (codes "100.0")) (codes "net: BLACKOUT")
            ∷ step 20 baseline (codes "net: restore")
            ∷ []),
    )
    ∷ []

-- none is the ValueError for an unknown profile.
unfoldable pub get_profile : Text → Option ChaosProfile
unfolding profiles
get_profile name = get name profiles
