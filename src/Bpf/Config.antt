-- ===== src/Bpf/Config.antt =====
-- pkg/bpf/config.go: writing the cooldown to the probe's config map.
mod Tests
use conntracct.Prelude.{
  ℕ, ◌+◌, ◌*◌, Bool, List, [], ◌∷◌, Option, none, some, String, u32, ◌==◌, if◌then◌else◌,
}

-- `CooldownMillis` is a uint32.
pub record Config : Type 0 where
  pub cooldown_millis : ℕ

abbrev pub config_cooldown : ℕ
config_cooldown = 0

pub data ConfigError : Type 0 where
  cooldown : String → ConfigError

-- The product is taken in uint32.
cooldown_nanos : ℕ → ℕ
cooldown_nanos ms = u32 (ms * 1_000_000)

-- gobpf's `UpdateElement` answers as the first argument says. The result holds the writes that
-- succeeded, a key with its value.
pub configure_probe : (ℕ → ℕ → Option String) → Config → List (ℕ × ℕ) × Option ConfigError
unfolding cooldown_nanos
configure_probe update cfg =
    if cfg.cooldown_millis == 0
    then ([], none)
    else let cd = cooldown_nanos cfg.cooldown_millis in
      elim (update config_cooldown cd) [
        | none ↦ ((config_cooldown, cd) ∷ [], none)
        | some e ↦ ([], some (cooldown e))
      ]

abbrev first_value : List (ℕ × ℕ) × Option ConfigError → ℕ
first_value ([], e) = 0
first_value (w ∷ ws, e) = w.1
