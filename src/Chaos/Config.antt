-- ===== src/Chaos/Config.antt =====
-- runtime_chaos/chaos_config.py: resource snapshots, their command lines, and the chaos profiles. A
-- float is the text that `str` prints of it.
pub mod Profiles
pub mod Flags
use Prim.Native.Nat.{max}
use csc512_distributed_syste.Prelude.{
  ℕ, ◌*◌, Bool, true, false, ◌||◌, Option, none, some, List, [], ◌∷◌, ◌++◌, map, any, if◌then◌else◌,
}
use csc512_distributed_syste.Prelude.Text.{Text, codes, decimal}

pub record ResourceSnapshot : Type 0 where
  pub cpu_quota : Option Text
  pub cpu_period_us : ℕ
  pub memory_mb : Option ℕ
  pub memory_swap_mb : Option ℕ
  pub net_delay_ms : Option ℕ
  pub net_loss_pct : Option Text
  pub net_rate_kbps : Option ℕ

abbrev pub baseline : ResourceSnapshot
baseline = record {
  cpu_quota = none;
  cpu_period_us = 100000;
  memory_mb = none;
  memory_swap_mb = none;
  net_delay_ms = none;
  net_loss_pct = none;
  net_rate_kbps = none;
}

abbrev pub megabytes : ℕ → Text
megabytes n = decimal n ++ codes "m"

unfoldable pub to_run_flags : ResourceSnapshot → List Text
to_run_flags s =
    (elim s.cpu_quota [ none ↦ [] | some quota ↦ codes "--cpus" ∷ quota ∷ [] ])
    ++ (elim s.memory_mb [
      | none ↦ []
      | some memory ↦
          codes "--memory"
          ∷ megabytes memory
          ∷ codes "--memory-swap"
          ∷ megabytes (elim s.memory_swap_mb [ none ↦ memory | some swap ↦ swap ])
          ∷ []
    ])

-- `scaled q n` is `int(q * n)` for a float q.
unfoldable pub to_update_flags : (Text → ℕ → ℕ) → ResourceSnapshot → List Text
to_update_flags scaled s =
    (elim s.cpu_quota [
      | none ↦ []
      | some quota ↦
          codes "--cpu-period"
          ∷ decimal s.cpu_period_us
          ∷ codes "--cpu-quota"
          ∷ decimal (scaled quota s.cpu_period_us)
          ∷ []
    ])
    ++ (elim s.memory_mb [
      | none ↦ []
      | some memory ↦
          codes "--memory"
          ∷ megabytes memory
          ∷ codes "--memory-swap"
          ∷ megabytes (elim s.memory_swap_mb [ none ↦ memory | some swap ↦ swap ])
          ∷ []
    ])

abbrev pub is_given {ℓ} : {A : Type ℓ} → Option A → Bool
is_given none = false
is_given (some a) = true

unfoldable pub has_net_chaos : ResourceSnapshot → Bool
has_net_chaos s = is_given s.net_delay_ms || (is_given s.net_loss_pct || is_given s.net_rate_kbps)

abbrev pub shell : Text → List Text
shell command = codes "sh" ∷ codes "-c" ∷ command ∷ []

unfoldable pub clear_command : Text
clear_command = codes "tc qdisc del dev eth0 root 2>/dev/null || true"

unfoldable pub netem_command : ResourceSnapshot → Text
netem_command s =
    codes "tc qdisc add dev eth0 root handle 1: netem"
    ++ (elim s.net_delay_ms [
      | none ↦ []
      | some delay ↦ codes " delay " ++ decimal delay ++ codes "ms"
    ])
    ++ (elim s.net_loss_pct [ none ↦ [] | some loss ↦ codes " loss " ++ loss ++ codes "%" ])

unfoldable pub tbf_command : ℕ → Text
tbf_command rate =
    codes "tc qdisc add dev eth0 parent 1: handle 10: tbf rate "
    ++ decimal rate
    ++ codes "kbit burst "
    ++ decimal (max (rate * 125) 1600)
    ++ codes " latency 100ms"

unfoldable pub to_tc_commands : ResourceSnapshot → List (List Text)
unfolding clear_command has_net_chaos netem_command tbf_command
to_tc_commands s =
    if has_net_chaos s
    then shell clear_command
      ∷ shell (netem_command s)
      ∷ (elim s.net_rate_kbps [ none ↦ [] | some rate ↦ shell (tbf_command rate) ∷ [] ])
    else shell clear_command ∷ []

pub record DynamicStep : Type 0 where
  pub delay_s : ℕ
  pub snapshot : ResourceSnapshot
  pub label : Text

pub record ChaosProfile : Type 0 where
  pub name : Text
  pub description : Text
  pub initial : ResourceSnapshot
  pub steps : List DynamicStep
  pub needs_net_admin : Bool

abbrev pub all_snaps : ChaosProfile → List ResourceSnapshot
all_snaps p = p.initial ∷ map (λ s. s.snapshot) p.steps

-- `__post_init__`
unfoldable pub post_init : ChaosProfile → ChaosProfile
unfolding has_net_chaos
post_init p = record p { needs_net_admin = any has_net_chaos (all_snaps p) }
