-- ===== src/Bpf/Consumer/Registry.antt =====
-- The list of consumers as a dictionary: what each method does to every lookup.
use conntracct.Prelude.{
  ◌≡◌, refl, ap, ◌∙◌, ◌↔◌, List, [], ◌∷◌, ◌++◌, Option, none, some, String, str_eq, str_eq_iff,
  arith, if◌then◌else◌, Option-cases, inl, inr,
}
use conntracct.Bpf.Consumer.{
  Consumer, index_of, get_consumer, register_consumer, dup_consumer, consumer_nil,
}

-- The first of two lookups that finds something.
abbrev pub or_else : Option Consumer → Option Consumer → Option Consumer
or_else none b = b
or_else (some a) b = some a

-- No two consumers have one name.
abbrev pub Unique : List Consumer → Type 0
Unique [] = Unit {0}
Unique (c ∷ cs) = (get_consumer cs c.name ≡ none) × Unique cs

pub get_consumer-cons :
    (c : Consumer) (cs : List Consumer) (n : String)
    → get_consumer (c ∷ cs) n ≡ (if str_eq c.name n then some c else get_consumer cs n)
unfolding get_consumer index_of
get_consumer-cons c cs n = ground arith

pub get_consumer-nil : (n : String) → get_consumer [] n ≡ none
unfolding get_consumer index_of
get_consumer-nil n = refl

pub get_consumer-append :
    (cs ds : List Consumer) (n : String)
    → get_consumer (cs ++ ds) n ≡ or_else (get_consumer cs n) (get_consumer ds n)
get_consumer-append [] ds n = rw get_consumer-nil
get_consumer-append (c ∷ cs) ds n =
    ground (
      arith,
      get_consumer-cons c cs n,
      get_consumer-cons c (cs ++ ds) n,
      get_consumer-append cs ds n,
    )

pub get_consumer-one :
    (c : Consumer) (n : String)
    → get_consumer (c ∷ []) n ≡ (if str_eq c.name n then some c else none)
get_consumer-one c n = ground (arith, get_consumer-cons c [] n, get_consumer-nil n)

-- The position that the loop finds, and the lookup, fail together.
pub index_of-none :
    (n : String) (cs : List Consumer) → index_of n cs ≡ none → get_consumer cs n ≡ none
unfolding get_consumer
index_of-none n cs h = ground arith

pub index_of-get_none :
    (n : String) (cs : List Consumer) → get_consumer cs n ≡ none → index_of n cs ≡ none
unfolding index_of
index_of-get_none n [] h = refl
index_of-get_none n (c ∷ cs) h = ground (arith, get_consumer-cons c cs n, index_of-get_none n cs)

register_consumer-fresh :
    (cs : List Consumer) (ac : Consumer)
    → get_consumer cs ac.name ≡ none
    → register_consumer cs (some ac) ≡ (cs ++ (ac ∷ []), none)
unfolding register_consumer
register_consumer-fresh cs ac h = rw (index_of-get_none ac.name cs h, register_consumer)

register_consumer-dup :
    (cs : List Consumer) (ac c : Consumer)
    → get_consumer cs ac.name ≡ some c
    → register_consumer cs (some ac) ≡ (cs, some dup_consumer)
unfolding register_consumer
register_consumer-dup cs ac c h = ground (arith, index_of-none ac.name cs)

-- Registering never changes what a name finds, refuses a nil pointer, and refuses a consumer
-- exactly if its name is found already; one that is accepted is found under its name.
pub get_consumer-register_consumer :
    (cs : List Consumer) (ac : Consumer) (n : String)
    → (get_consumer (register_consumer cs (some ac)).0 n
        ≡ or_else (get_consumer cs n) (if str_eq ac.name n then some ac else none))
      × (((register_consumer cs (some ac)).1 ≡ none) ↔ (get_consumer cs ac.name ≡ none))
      × (register_consumer cs none ≡ (cs, some consumer_nil))
get_consumer-register_consumer cs ac n = elim (Option-cases (get_consumer cs ac.name)) [
  | inl e ↦ rw (register_consumer-fresh cs ac e) (
    get_consumer-append cs (ac ∷ []) n ∙ ap (or_else (get_consumer cs n)) (get_consumer-one ac n),
    (λ _. e, λ _. refl),
    unfold register_consumer in refl,
  )
  | inr (c, e) ↦ rw (register_consumer-dup cs ac c e) (
    ground (arith, e, str_eq_iff ac.name n),
    (λ h. cc, λ h. cc (e, h)),
    unfold register_consumer in refl,
  )
]

pub Unique-append_one :
    (cs : List Consumer) (c : Consumer)
    → Unique cs
    → get_consumer cs c.name ≡ none
    → Unique (cs ++ (c ∷ []))
Unique-append_one [] c u h = (get_consumer-nil c.name, tt)
Unique-append_one (d ∷ cs) c u h = (
  ground (
    arith,
    u.0,
    get_consumer-cons d cs c.name,
    get_consumer-append cs (c ∷ []) d.name,
    get_consumer-one c d.name,
    str_eq_iff c.name d.name,
    str_eq_iff d.name c.name,
  ),
  Unique-append_one cs c u.1 (ground (arith, get_consumer-cons d cs c.name)),
)
