-- ===== src/Boottime/Tests.antt =====
-- Four rounds, of which two agree.
use mathlib.Core.List.{reverse}
use mathlib.Core.List.{reverse_perm}
use conntracct.Prelude.{ℕ, ◌+◌, ◌-◌, ◌≤◌, ◌≡◌, refl, List, [], ◌∷◌, map, ◌==◌, ==_iff, arith}
use conntracct.Prelude.Int.{ℤ, pos, negsuc}
use conntracct.GoMap.{KeyEq, assign, lookup}
use conntracct.Boottime.{TimeLib, Sample, boot_time, tally, estimate, vote, most_voted}
use conntracct.Boottime.Vote.{count, estimate-count}

abbrev ℕ_eq : KeyEq ℕ
ℕ_eq = record { same = ◌==◌; same_refl = λ k. ground arith; same_sound = λ k l. (==_iff k l).0 }

abbrev shifted : ℕ → ℤ → ℕ
shifted t (pos n) = t + n
shifted t (negsuc n) = t - n - 1

abbrev clock : TimeLib
clock = record { Time = ℕ; eq = ℕ_eq; zero_time = 0; add = shifted }

abbrev round : ℕ → ℕ → Sample clock
round ns t = record { nanotime = pos ns; now = t }

abbrev four_rounds : List (Sample clock)
four_rounds = round 10 110 ∷ round 20 121 ∷ round 30 131 ∷ round 40 142 ∷ []

estimate_four : estimate clock reverse four_rounds ≡ 101
unfolding estimate most_voted tally vote assign lookup
estimate_four = refl

estimate-count_example :
    (1 ≤ count clock (estimate clock reverse four_rounds) (map (boot_time clock) four_rounds))
    × ((t : ℕ)
        → count clock t (map (boot_time clock) four_rounds)
          ≤ count clock (estimate clock reverse four_rounds) (map (boot_time clock) four_rounds))
estimate-count_example =
    estimate-count clock reverse four_rounds (omega arith) (omega arith) (reverse_perm _)
