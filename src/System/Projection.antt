-- ===== src/System/Projection.antt =====
-- What a run of the program is for one source: the records offered to it, and its rounds.
use mathlib.Core.Path.{subst}
use conntracct.Prelude.{
  ℕ, ◌≡◌, refl, ap, Bool, true, false, List, [], ◌∷◌, ◌++◌, String, Go, ok, bind_ok, Bool-cases,
  inl, inr,
}
use conntracct.Chan.{make}
use conntracct.Bpf.Event.{Event, Bytes, Endian}
use conntracct.Bpf.Consumer.{
  Consumer, new_consumer, consumer_update, consumer_destroy, want_update, want_destroy,
}
use conntracct.Bpf.Probe.{wants}
use conntracct.Bpf.Probe.Ledger.{Ledger, Kept, offers, takes, fresh, wanted, run-new_consumer}
use conntracct.Bpf.Probe.Ledger
use conntracct.Pipeline.{update_source_name, destroy_source_name}
use conntracct.Pipeline.Setup.{update_source, destroy_source}
use conntracct.System
use conntracct.System.{Act, delivers, pushes, works}
use conntracct.System.Simulation.{decoded}

pub run-append :
    (xs ys : List Ledger.Act) (l m : Ledger)
    → Ledger.run xs l ≡ ok m
    → Ledger.run (xs ++ ys) l ≡ Ledger.run ys m
unfolding Ledger.run
run-append [] ys l m h = rw (ledger_inj h)
  where
    ledger_inj : ◌≡◌ {A = Go Ledger} (ok l) (ok m) → l ≡ m
    ledger_inj e = cc
run-append (a ∷ xs) ys l m h =
    let (n, first, rest) = bind_ok (Ledger.act a l) (Ledger.run xs) m h in
    rw first (run-append xs ys n m rest)

pub wanted-append :
    (c : Consumer) (xs ys : List Ledger.Act) → wanted c (xs ++ ys) ≡ wanted c xs ++ wanted c ys
wanted-append c [] ys = refl
wanted-append c (takes ∷ xs) ys = wanted-append c xs ys
wanted-append c (offers ae update ∷ xs) ys = elim (Bool-cases (wants update c)) [
  | inl t ↦ rw t (ap (◌∷◌ ae) (wanted-append c xs ys))
  | inr f ↦ rw f (wanted-append c xs ys)
]

-- The events that the kernel's records of one kind stand for, in their order.
abbrev pub record_of : {Own : Type 0} → Endian → Bool → Act Own → List Event
record_of en true (delivers true eb receiver) = decoded en eb ∷ []
record_of en true (delivers false eb receiver) = []
record_of en false (delivers true eb receiver) = []
record_of en false (delivers false eb receiver) = decoded en eb ∷ []
record_of en u (System.takes v) = []
record_of en u (pushes v) = []
record_of en u (works i o) = []

abbrev pub delivered : {Own : Type 0} → Endian → Bool → List (Act Own) → List Event
delivered en u [] = []
delivered en u (a ∷ acts) = record_of en u a ++ delivered en u acts

pub wanted_update :
    (Own : Type 0) (en : Endian) (update : Bool) (eb : Bytes) (receiver : Bool)
    → wanted update_source (offers (decoded en eb) update ∷ [])
      ≡ (let a : Act Own = delivers update eb receiver in record_of en true a)
unfolding wants want_update want_destroy new_consumer
wanted_update Own en true eb receiver = refl
wanted_update Own en false eb receiver = refl

pub wanted_destroy :
    (Own : Type 0) (en : Endian) (update : Bool) (eb : Bytes) (receiver : Bool)
    → wanted destroy_source (offers (decoded en eb) update ∷ [])
      ≡ (let a : Act Own = delivers update eb receiver in record_of en false a)
unfolding wants want_update want_destroy new_consumer
wanted_destroy Own en true eb receiver = refl
wanted_destroy Own en false eb receiver = refl

abbrev pub fresh_update : Ledger
fresh_update = fresh update_source_name 1024 consumer_update

abbrev pub fresh_destroy : Ledger
fresh_destroy = fresh destroy_source_name 1024 consumer_destroy

pub Kept-at :
    (name : String) (mode : ℕ) (acts : List Ledger.Act) (l : Ledger)
    → Ledger.run acts (fresh name 1024 mode) ≡ ok l
    → Kept (new_consumer name (make 1024) mode) (wanted (new_consumer name (make 1024) mode) acts) l
Kept-at name mode acts l h =
    let (m, done, kept) = run-new_consumer name 1024 mode acts in
    let same : m ≡ l = cc (done, h) in
    subst
      (Kept (new_consumer name (make 1024) mode) (wanted (new_consumer name (make 1024) mode) acts))
      same kept
