-- ===== src/Bpf/Consumer/Tests.antt =====
-- Consumers of a probe, registered and removed.
use conntracct.Prelude.{◌≡◌, refl, List, [], ◌∷◌, none, some, str_eq, if◌then◌else◌}
use conntracct.Chan.{make}
use conntracct.Bpf.Consumer.{
  Consumer, new_consumer, register_consumer, remove_consumer, get_consumer, index_of, want_update,
  want_destroy, consumer_update, consumer_destroy,
}
use conntracct.Bpf.Consumer.Registry.{Unique, or_else, get_consumer-register_consumer}
use conntracct.Bpf.Consumer.Removal.{get_consumer-remove_consumer, register_remove-Unique}

abbrev updates_c : Consumer
updates_c = new_consumer "PipelineAcctUpdate" (make 1024) consumer_update

abbrev destroys_c : Consumer
destroys_c = new_consumer "PipelineAcctDestroy" (make 1024) consumer_destroy

abbrev extra : Consumer
extra = new_consumer "extra" (make 1) 0

abbrev three : List Consumer
three = updates_c ∷ destroys_c ∷ extra ∷ []

-- The last consumer takes the slot of the removed one.
swapped : remove_consumer three (some updates_c) ≡ (extra ∷ destroys_c ∷ [], none)
unfolding remove_consumer index_of new_consumer
swapped = refl

zero_mode_wants_all :
    (want_update extra ≡ want_update updates_c) × (want_destroy extra ≡ want_destroy destroys_c)
unfolding want_update want_destroy new_consumer
zero_mode_wants_all = (refl, refl)

three-Unique : Unique three
unfolding get_consumer index_of new_consumer
three-Unique = (refl, (refl, (refl, tt)))

get_consumer-register_consumer_example :
    get_consumer (register_consumer three (some updates_c)).0 "extra"
    ≡ or_else
        (get_consumer three "extra")
        (if str_eq updates_c.name "extra" then some updates_c else none)
get_consumer-register_consumer_example = (get_consumer-register_consumer three updates_c "extra").0

get_consumer-remove_consumer_example :
    get_consumer (remove_consumer three (some updates_c)).0 "extra"
    ≡ (if str_eq updates_c.name "extra" then none else get_consumer three "extra")
get_consumer-remove_consumer_example =
    (get_consumer-remove_consumer three updates_c "extra" three-Unique).0

register_remove-Unique_example :
    Unique (register_consumer three (some extra)).0 × Unique (remove_consumer three (some extra)).0
register_remove-Unique_example = register_remove-Unique three (some extra) three-Unique
