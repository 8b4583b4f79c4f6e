-- ===== src/Bpf/Probe/Fanout.antt =====
-- `fanoutEvent` over all consumers: each gets the event by itself.
use mathlib.Core.Option
use mathlib.Core.Path.{subst}
use conntracct.Prelude.{
  sym, ◌++◌, ◌⊎◌, All-append, ltb, ◌≡◌, refl, ◌∙◌, Bool, true, false, List, [], ◌∷◌, map, ◌↔◌, ◌&&◌,
  ◌||◌, some, String, str_eq, Go, ok, panic, All, arith, if◌then◌else◌, Bool-cases, inl, inr,
}
use conntracct.Chan.{len}
use conntracct.Bpf.Event.{Event}
use conntracct.Bpf.Consumer.{Consumer, get_consumer}
use conntracct.Bpf.Consumer.Registry.{get_consumer-cons, get_consumer-nil}
use conntracct.Bpf.Probe.{wants, deliver, offer, fanout_event}

-- No consumer's channel is closed.
abbrev pub IsOpen : Consumer → Type 0
IsOpen c = c.events.closed ≡ false

-- The value of a call, if it does not panic.
abbrev pub value_or {ℓ} : {A : Type ℓ} → A → Go A → A
value_or d (ok a) = a
value_or d _ = d

-- A consumer after an event was offered to it.
abbrev pub offered : Event → Bool → Consumer → Consumer
offered ae update c = value_or c (offer ae update c)

pub offer-IsOpen :
    (ae : Event) (update : Bool) (c : Consumer)
    → IsOpen c
    → (offer ae update c ≡ ok (offered ae update c))
      × ((offered ae update c).name ≡ c.name)
      × IsOpen (offered ae update c)
      × ((offered ae update c).mode ≡ c.mode)
unfolding offer deliver
offer-IsOpen ae update c h = ground arith

offered-queue :
    (ae : Event) (update : Bool) (c : Consumer)
    → IsOpen c
    → ((offered ae update c).events.queue ≡ c.events.queue)
      ⊎ ((offered ae update c).events.queue ≡ c.events.queue ++ (ae ∷ []))
unfolding offer deliver
offered-queue ae update c h = elim (Bool-cases (wants update c)) [
  | inr n ↦ inl (rw n)
  | inl y ↦ elim (Bool-cases (c.events.made && ltb (len c.events) c.events.cap)) [
    | inl room ↦ inr (ground (arith, y, h, room))
    | inr none_left ↦ inl (ground (arith, y, h, none_left))
  ]
]

-- What holds of all events that wait holds on when such an event is offered.
pub offered-All :
    (P : Event → Type 0) (ae : Event) (update : Bool) (c : Consumer)
    → IsOpen c
    → P ae
    → All P c.events.queue
    → All P (offered ae update c).events.queue
offered-All P ae update c h a q = elim (offered-queue ae update c h) [
  | inl same ↦ subst (All P) (sym same) q
  | inr more ↦ subst (All P) (sym more) (All-append P c.events.queue (ae ∷ []) q (a, tt))
]

pub fanout_event-map :
    (ae : Event) (update : Bool) (cs : List Consumer)
    → All IsOpen cs
    → fanout_event ae update cs ≡ ok (map (offered ae update) cs)
unfolding fanout_event
fanout_event-map ae update [] h = refl
fanout_event-map ae update (c ∷ cs) h =
    rw ((offer-IsOpen ae update c h.0).0, fanout_event-map ae update cs h.1)

get_consumer-map :
    (ae : Event) (update : Bool) (cs : List Consumer) (n : String)
    → All IsOpen cs
    → get_consumer (map (offered ae update) cs) n
      ≡ Option.map (offered ae update) (get_consumer cs n)
get_consumer-map ae update [] n h = rw get_consumer-nil
get_consumer-map ae update (c ∷ cs) n h =
    let name = (offer-IsOpen ae update c h.0).1 in
    let ih = get_consumer-map ae update cs n h.1 in
    get_consumer-cons (offered ae update c) (map (offered ae update) cs) n
    ∙ rw (name, get_consumer-cons c cs n) (split (str_eq c.name n) ih)
  where
    split :
        (b : Bool)
        → get_consumer (map (offered ae update) cs) n
          ≡ Option.map (offered ae update) (get_consumer cs n)
        → (if b then some (offered ae update c) else get_consumer (map (offered ae update) cs) n)
          ≡ Option.map (offered ae update) (if b then some c else get_consumer cs n)
    split true ih = refl
    split false ih = ih

map-IsOpen :
    (ae : Event) (update : Bool) (cs : List Consumer)
    → All IsOpen cs
    → All IsOpen (map (offered ae update) cs)
map-IsOpen ae update [] h = tt
map-IsOpen ae update (c ∷ cs) h = ((offer-IsOpen ae update c h.0).2, map-IsOpen ae update cs h.1)

-- While no registered channel is closed, fanning out an event does not panic; every consumer is
-- then found under its name as it is after the event was offered to it alone, so a slow or
-- uninterested consumer holds up no other, and the channels stay open.
pub fanout_event_isolated :
    (ae : Event) (update : Bool) (cs : List Consumer)
    → All IsOpen cs
    → (ds : List Consumer) × (fanout_event ae update cs ≡ ok ds)
      × ((n : String) → get_consumer ds n ≡ Option.map (offered ae update) (get_consumer cs n))
      × All IsOpen ds
fanout_event_isolated ae update cs h = (
  map (offered ae update) cs,
  fanout_event-map ae update cs h,
  λ n. get_consumer-map ae update cs n h,
  map-IsOpen ae update cs h,
)

-- A listener whose channel was closed without being removed from the probe.
abbrev pub has_closed_listener : Bool → List Consumer → Bool
has_closed_listener update [] = false
has_closed_listener update (c ∷ cs) =
    (wants update c && c.events.closed) || has_closed_listener update cs

offer-panic :
    (ae : Event) (update : Bool) (c : Consumer)
    → ((wants update c && c.events.closed) ≡ true → offer ae update c ≡ panic)
      × ((wants update c && c.events.closed) ≡ false → offer ae update c ≡ ok (offered ae update c))
unfolding offer deliver
offer-panic ae update c = (λ h. ground arith, λ h. ground arith)

-- Fanning out panics exactly if a consumer that wants the event has closed its channel while it
-- is still registered.
pub fanout_event_panics :
    (ae : Event) (update : Bool) (cs : List Consumer)
    → (fanout_event ae update cs ≡ panic) ↔ (has_closed_listener update cs ≡ true)
unfolding fanout_event
fanout_event_panics ae update [] = (λ h. cc, λ h. cc)
fanout_event_panics ae update (c ∷ cs) =
    let (bad, good) = offer-panic ae update c in
    let ih = fanout_event_panics ae update cs in
    elim (Bool-cases (wants update c && c.events.closed)) [
      | inl e ↦ rw (e, bad e) (λ _. refl, λ _. refl)
      | inr e ↦ rw (e, good e) (λ h. ih.0 (ground arith), λ h. rw (ih.1 h))
    ]
