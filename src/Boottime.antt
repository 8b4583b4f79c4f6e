-- ===== src/Boottime.antt =====
-- pkg/boottime/boottime.go: the boot time, by a vote over what two clocks say. The package time and
-- the clocks are not part of the repository: they are arguments.
pub mod Vote
mod Tests
use conntracct.Prelude.{
  ℕ, zero, suc, ◌+◌, ◌^◌, ◌%◌, Bool, List, [], ◌∷◌, map, Option, none, some, ltb, if◌then◌else◌,
}
use conntracct.Prelude.Int.{ℤ, pos, negsuc, int64}
use conntracct.GoMap.{KeyEq, lookup, assign}

-- `time.Time` with its `==`, its zero value and `Add`.
pub record TimeLib : Type 1 where
  pub Time : Type 0
  pub eq : KeyEq Time
  pub zero_time : Time
  pub add : Time → ℤ → Time

-- `-d` of an int64.
abbrev pub negate : ℤ → ℤ
negate (pos zero) = pos 0
negate (pos (suc n)) = negsuc n
negate (negsuc n) = int64 (suc n)

-- A round: what `nanotime` and then `time.Now` return.
pub record Sample (lib : TimeLib) : Type 0 where
  pub nanotime : ℤ
  pub now : lib.Time

module _ (lib : TimeLib) where
  open lib use {Time, eq, zero_time, add}

  abbrev pub boot_time : Sample lib → Time
  boot_time s = add s.now (negate s.nanotime)

  abbrev pub votes_or_zero : Option ℕ → ℕ
  votes_or_zero none = 0
  votes_or_zero (some n) = n

  -- `t[bootTime]++`, on a uint8.
  unfoldable pub vote : Time → List (Time × ℕ) → List (Time × ℕ)
  vote t m = assign eq t ((votes_or_zero (lookup eq t m) + 1) % 2 ^ 8) m

  unfoldable pub tally : List Time → List (Time × ℕ) → List (Time × ℕ)
  tally [] m = m
  tally (t ∷ ts) m = tally ts (vote t m)

  -- The loop over the map, with `out` and `max` so far.
  unfoldable pub most_voted : List (Time × ℕ) → Time → ℕ → Time × ℕ
  most_voted [] out max = (out, max)
  most_voted ((ts, n) ∷ rest) out max =
      if ltb max n then most_voted rest ts n else most_voted rest out max

  -- `Estimate` on what its rounds read; the first argument is the order in which Go iterates over
  -- the map.
  unfoldable pub estimate : (List (Time × ℕ) → List (Time × ℕ)) → List (Sample lib) → Time
  estimate order samples = (most_voted (order (tally (map boot_time samples) [])) zero_time 0).0

-- `rounds`.
abbrev pub rounds : ℕ
rounds = 15
