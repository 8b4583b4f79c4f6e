-- ===== src/Pipeline/Warnings.antt =====
-- internal/pipeline/sysctl.go: the warnings about conntrack timeouts that RegisterSink logs once.
-- Reading a sysctl is an argument.
use mathlib.Core.Option.{map as option_map}
use conntracct.Prelude.{
  ℕ, ◌^◌, ◌<◌, ◌≡◌, refl, ap, sym, ◌∙◌, Bool, true, false, not, ◌&&◌, List, [], ◌∷◌, Option, none,
  some, String, ltb, arith, All, Option-cases, inl, inr, if◌then◌else◌,
}
use conntracct.Prelude.Int.{ℤ, pos, negsuc}
use conntracct.Text.{Text, format_uint}
use conntracct.Text.Decimal.{atoi, atoi-format_uint}
use conntracct.Sinks.Sink.{SinkOps}

-- The recommended values, in one order of the map.
abbrev pub sysctl_wait : List (String × ℕ)
sysctl_wait =
    ("net/netfilter/nf_conntrack_tcp_timeout_close_wait", 15)
    ∷ ("net/netfilter/nf_conntrack_tcp_timeout_fin_wait", 15)
    ∷ ("net/netfilter/nf_conntrack_tcp_timeout_time_wait", 15)
    ∷ ("net/netfilter/nf_conntrack_udp_timeout", 10)
    ∷ ("net/netfilter/nf_conntrack_udp_timeout_stream", 30)
    ∷ []

-- `cur > v`, where there is a number.
above : ℕ → Option ℤ → Bool
above v none = false
above v (some (pos n)) = ltb v n
above v (some (negsuc n)) = false

read_number : Option Text → Option ℤ
read_number none = none
read_number (some s) = atoi s

abbrev pub is_empty : List (String × ℕ) → Bool
is_empty [] = true
is_empty (e ∷ es) = false

module _ (get : String → Option Text) where
  -- The entries of the map that are warned of, in the order of the iteration.
  pub warned : List (String × ℕ) → List (String × ℕ)
  unfolding above read_number
  warned [] = []
  warned ((k, v) ∷ rest) =
      let later = warned rest in if above v (read_number (get k)) then (k, v) ∷ later else later

  -- `warnSysctlWait`: the warnings, and whether the advice follows.
  pub warn_sysctl_wait : List (String × ℕ) → List (String × ℕ) × Bool
  warn_sysctl_wait entries = (warned entries, not (is_empty (warned entries)))

  -- `warnSysctl`; the flag is the `sync.Once`.
  pub warn_sysctl : Bool → List (String × ℕ) → Bool × Option (List (String × ℕ) × Bool)
  warn_sysctl true entries = (true, none)
  warn_sysctl false entries = (true, some (warn_sysctl_wait entries))

  -- What RegisterSink logs: nothing for a sink that it refuses or that wants no destroy events.
  unfoldable pub register_warns :
      (ops : SinkOps)
      → ops.Sink
      → Bool
      → List (String × ℕ)
      → Bool × Option (List (String × ℕ) × Bool)
  register_warns ops s once entries =
      if ops.is_init s && ops.want_destroy s then warn_sysctl once entries else (once, none)

-- The entries whose value is known and above the recommended one.
abbrev pub too_high : (String → Option ℕ) → List (String × ℕ) → List (String × ℕ)
too_high value [] = []
too_high value ((k, v) ∷ rest) =
    let later = too_high value rest in
    elim (value k) [ none ↦ later | some n ↦ if ltb v n then (k, v) ∷ later else later ]

-- A sysctl shows its value as a decimal number that fits an int, or cannot be read.
abbrev pub Shows : (String → Option Text) → (String → Option ℕ) → String → Type 0
Shows get value k =
    (get k ≡ option_map (format_uint 10) (value k)) × ((n : ℕ) → value k ≡ some n → n < 2 ^ 63)

above-Shows :
    (get : String → Option Text) (value : String → Option ℕ) (k : String) (v : ℕ) (o : Option ℕ)
    → value k ≡ o
    → Shows get value k
    → above v (read_number (get k)) ≡ (elim o [ none ↦ false | some n ↦ ltb v n ])
unfolding above read_number
above-Shows get value k v none e (shown, fits) =
    ap (λ s. above v (read_number s)) (shown ∙ ap (option_map (format_uint 10)) e)
above-Shows get value k v (some n) e (shown, fits) =
    ap (λ s. above v (read_number s)) (shown ∙ ap (option_map (format_uint 10)) e)
    ∙ ap (above v) (atoi-format_uint n (fits n e))

warned-too_high :
    (get : String → Option Text) (value : String → Option ℕ) (entries : List (String × ℕ))
    → All (λ e. Shows get value e.0) entries
    → warned get entries ≡ too_high value entries
unfolding warned
warned-too_high get value [] h = refl
warned-too_high get value ((k, v) ∷ rest) h = elim (Option-cases (value k)) [
  | inl e ↦
      rw (above-Shows get value k v none e h.0)
        (warned-too_high get value rest h.1 ∙ ap (pick rest k v) (sym e))
  | inr (n, e) ↦ rw (above-Shows get value k v (some n) e h.0) (
      ap (λ later. if ltb v n then (k, v) ∷ later else later) (warned-too_high get value rest h.1)
      ∙ ap (pick rest k v) (sym e))
]
  where
    pick : List (String × ℕ) → String → ℕ → Option ℕ → List (String × ℕ)
    pick rest k v none = too_high value rest
    pick rest k v (some n) = if ltb v n then (k, v) ∷ too_high value rest else too_high value rest

-- If every sysctl of the map shows a decimal number that fits an int or cannot be read, then the
-- first registration of an initialized sink that wants destroy events warns, in the order of the
-- iteration, of exactly the sysctls that are known to be above the recommended value, and gives the
-- advice exactly if there is one; no later registration of any sink warns.
pub register_warns_once :
    (get : String → Option Text) (value : String → Option ℕ) (entries : List (String × ℕ))
    (ops : SinkOps) (s t : ops.Sink)
    → All (λ e. Shows get value e.0) entries
    → ops.is_init s ≡ true
    → ops.want_destroy s ≡ true
    → (register_warns get ops s false entries
        ≡ (true, some (too_high value entries, not (is_empty (too_high value entries)))))
      × (register_warns get ops t (register_warns get ops s false entries).0 entries ≡ (true, none))
unfolding register_warns warn_sysctl warn_sysctl_wait
register_warns_once get value entries ops s t h ready destroys =
    let first : register_warns get ops s false entries
        ≡ (true, some (too_high value entries, not (is_empty (too_high value entries)))) =
      rw (register_warns, ready, destroys)
        (ap (λ ws. (true, some (ws, not (is_empty ws)))) (warned-too_high get value entries h)) in
    (first, ap (λ r. register_warns get ops t r.0 entries) first ∙ later)
  where
    later : register_warns get ops t true entries ≡ (true, none)
    later = ground arith
