-- ===== src/Bpf/Config/Tests.antt =====
-- The cooldown at two settings.
use conntracct.Prelude.{◌≡◌, refl, [], ◌∷◌, none}
use conntracct.Bpf.Config.{configure_probe}

-- Five seconds become 0.7 seconds.
five_seconds :
    configure_probe (λ k v. none) (record { cooldown_millis = 5000 })
    ≡ ((0, 705_032_704) ∷ [], none)
unfolding configure_probe
five_seconds = refl
