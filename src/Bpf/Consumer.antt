-- ===== src/Bpf/Consumer.antt =====
-- pkg/bpf/consumer.go: consumers, and the list of them that a probe keeps. The probe's methods on
-- that list are functions on the list; their lock makes each one step.
pub mod Registry
pub mod Removal
mod Tests
use Prim.Native.Nat.{bit_and, bit_or}
use conntracct.Prelude.{
  ℕ, zero, suc, ◌+◌, ◌-◌, ◌≤◌, ◌<◌, ◌≡◌, refl, Bool, true, false, List, [], ◌∷◌, ◌++◌, Option, none,
  some, String, str_eq, Go, ok, panic, ◌>>=◌, length, get_elem?, get_or, set, take, ltb, ◌==◌,
  arith, if◌then◌else◌,
}
use conntracct.Chan.{Chan, close}
use conntracct.Bpf.Event.{Event}
use conntracct.Bpf.Stats.{ConsumerStats, zero_consumer_stats}

-- `ConsumerMode`, a uint8 of flags.
abbrev pub consumer_update : ℕ
consumer_update = 1

abbrev pub consumer_destroy : ℕ
consumer_destroy = 2

abbrev pub consumer_all : ℕ
consumer_all = bit_or consumer_update consumer_destroy

pub record Consumer : Type 0 where
  pub name : String
  pub events : Chan Event
  pub mode : ℕ
  pub stats : ConsumerStats

unfoldable pub new_consumer : String → Chan Event → ℕ → Consumer
new_consumer name events mode = record {
  name = name;
  events = events;
  mode = if mode == 0 then consumer_all else mode;
  stats = zero_consumer_stats;
}

unfoldable pub want_update : Consumer → Bool
want_update c = ltb 0 (bit_and c.mode consumer_update)

unfoldable pub want_destroy : Consumer → Bool
want_destroy c = ltb 0 (bit_and c.mode consumer_destroy)

-- `Name`, `Events` and `Stats` of a consumer.
abbrev pub consumer_name : Consumer → String
consumer_name c = c.name

abbrev pub consumer_events : Consumer → Chan Event
consumer_events c = c.events

abbrev pub consumer_stats : Consumer → ConsumerStats
consumer_stats c = c.stats

-- `Consumer.Close`.
unfoldable pub close_consumer : Consumer → Go Consumer
close_consumer c = close c.events >>= λ ch. ok (record c { events = ch })

pub data ConsumerError : Type 0 where
  consumer_nil dup_consumer no_consumer : ConsumerError

-- The loop that looks for a name: the position of the first consumer that has it.
unfoldable pub index_of : String → List Consumer → Option ℕ
index_of n [] = none
index_of n (c ∷ cs) =
    let rest = index_of n cs in
    if str_eq c.name n then some 0 else elim rest [ none ↦ none | some i ↦ some (suc i) ]

-- A nil pointer is `none`. The consumers come back with the error.
unfoldable pub register_consumer :
    List Consumer → Option Consumer → List Consumer × Option ConsumerError
register_consumer cs none = (cs, some consumer_nil)
register_consumer cs (some ac) = elim (index_of ac.name cs) [
  | some i ↦ (cs, some dup_consumer)
  | none ↦ (cs ++ (ac ∷ []), none)
]

-- The last element goes into slot i, and the slice loses its last slot. (The nil that the source
-- writes to that slot first is out of the slice then.)
unfoldable pub swap_remove : List Consumer → ℕ → Consumer → List Consumer
swap_remove cs i c = take (length cs - 1) (set cs i (get_or cs (length cs - 1) c))

unfoldable pub remove_consumer :
    List Consumer → Option Consumer → List Consumer × Option ConsumerError
unfolding swap_remove
remove_consumer cs none = (cs, some consumer_nil)
remove_consumer cs (some ac) = elim (index_of ac.name cs) [
  | none ↦ (cs, some no_consumer)
  | some i ↦ (swap_remove cs i ac, none)
]

unfoldable pub get_consumer : List Consumer → String → Option Consumer
get_consumer cs n = elim (index_of n cs) [ none ↦ none | some i ↦ get_elem? cs i ]
