-- ===== src/Bpf/Consumer/Removal.antt =====
-- The removal of a consumer: the last one moves into the slot.
use conntracct.Prelude.{
  ℕ, zero, suc, ◌-◌, ◌≡◌, refl, ap, ◌∙◌, ◌↔◌, true, false, List, [], ◌∷◌, ◌++◌, Option, none, some,
  String, str_eq, str_eq_iff, length, get_or, take, arith, if◌then◌else◌, Option-cases, inl, inr,
}
use conntracct.Bpf.Consumer.{
  Consumer, index_of, get_consumer, register_consumer, swap_remove, remove_consumer, no_consumer,
  consumer_nil,
}
use conntracct.Bpf.Consumer.Registry.{
  Unique, or_else, get_consumer-cons, get_consumer-append, get_consumer-one, get_consumer-nil,
  index_of-none, index_of-get_none, Unique-append_one,
}

-- Swapping the last element into the front of the rest.
take_last :
    (d : Consumer) (ds : List Consumer) (a : Consumer)
    → d ∷ ds ≡ take (length ds) (d ∷ ds) ++ (get_or (d ∷ ds) (length ds) a ∷ [])
take_last d [] a = refl
take_last d (e ∷ ds) a = ap (◌∷◌ d) (take_last e ds a)

Unique-rotate : (cs : List Consumer) (l : Consumer) → Unique (cs ++ (l ∷ [])) → Unique (l ∷ cs)
Unique-rotate [] l u = u
Unique-rotate (d ∷ cs) l u =
    let ih = Unique-rotate cs l u.1 in
    let apart : or_else (get_consumer cs d.name) (get_consumer (l ∷ []) d.name) ≡ none =
      rw (get_consumer-append cs (l ∷ []) d.name) at u.0 in
    (
      ground (
        arith,
        ih.0,
        apart,
        get_consumer-cons d cs l.name,
        get_consumer-one l d.name,
        str_eq_iff d.name l.name,
        str_eq_iff l.name d.name,
      ),
      (ground (arith, apart), ih.1),
    )

get_consumer-rotate :
    (cs : List Consumer) (l : Consumer) (n : String)
    → Unique (cs ++ (l ∷ []))
    → get_consumer (l ∷ cs) n ≡ get_consumer (cs ++ (l ∷ [])) n
get_consumer-rotate cs l n u = ground (
  arith,
  (Unique-rotate cs l u).0,
  get_consumer-cons l cs n,
  get_consumer-append cs (l ∷ []) n,
  get_consumer-one l n,
  str_eq_iff l.name n,
)

swap_remove-suc :
    (c d : Consumer) (ds : List Consumer) (i : ℕ) (a : Consumer)
    → swap_remove (c ∷ d ∷ ds) (suc i) a ≡ c ∷ swap_remove (d ∷ ds) i a
unfolding swap_remove
swap_remove-suc c d ds i a =
    let two : suc (suc (length ds)) - 1 ≡ suc (length ds) = omega arith in
    let one : suc (length ds) - 1 ≡ length ds = omega arith in rw (two, one)

swap_remove-zero :
    (c d : Consumer) (ds : List Consumer) (a : Consumer)
    → swap_remove (c ∷ d ∷ ds) 0 a ≡ get_or (d ∷ ds) (length ds) a ∷ take (length ds) (d ∷ ds)
unfolding swap_remove
swap_remove-zero c d ds a =
    let two : suc (suc (length ds)) - 1 ≡ suc (length ds) = omega arith in rw two

-- What the loop finds in a list of two or more.
data Found (n : String) (c : Consumer) (cs : List Consumer) : ℕ → Type 0 where
  front : str_eq c.name n ≡ true → Found n c cs 0
  behind : (i : ℕ) → str_eq c.name n ≡ false → index_of n cs ≡ some i → Found n c cs (suc i)

index_of-Found :
    (n : String) (c : Consumer) (cs : List Consumer) (i : ℕ)
    → index_of n (c ∷ cs) ≡ some i
    → Found n c cs i
unfolding index_of
index_of-Found n c cs zero h = front (ground arith)
index_of-Found n c cs (suc i) h = behind i (ground arith) (ground arith)

-- The lookup after the swap, under the names' uniqueness, and that the names stay unique.
abbrev Removed : String → List Consumer → List Consumer → Type 0
Removed m cs ds =
    ((n : String) → get_consumer ds n ≡ (if str_eq m n then none else get_consumer cs n))
    × Unique ds

swap_remove-front :
    (c d : Consumer) (ds : List Consumer) (a : Consumer)
    → Unique (c ∷ d ∷ ds)
    → Removed c.name (c ∷ d ∷ ds) (swap_remove (c ∷ d ∷ ds) 0 a)
swap_remove-front c d ds a u =
    let l = get_or (d ∷ ds) (length ds) a in
    let t = take (length ds) (d ∷ ds) in
    let u' : Unique (t ++ (l ∷ [])) = rw (← take_last d ds a) u.1 in
    let fresh : get_consumer (t ++ (l ∷ [])) c.name ≡ none = rw (← take_last d ds a) u.0 in
    rw (swap_remove-zero c d ds a) (
      (λ n.
          get_consumer-rotate t l n u'
          ∙ rw (← take_last d ds a)
              (ground (arith, u.0, get_consumer-cons c (d ∷ ds) n, str_eq_iff c.name n))),
      Unique-rotate t l u',
    )

swap_remove-Found :
    (c d : Consumer) (ds : List Consumer) (a : Consumer) (m : String) (i : ℕ)
    → Unique (c ∷ d ∷ ds)
    → ((j : ℕ) → index_of m (d ∷ ds) ≡ some j → Removed m (d ∷ ds) (swap_remove (d ∷ ds) j a))
    → Found m c (d ∷ ds) i
    → Removed m (c ∷ d ∷ ds) (swap_remove (c ∷ d ∷ ds) i a)
swap_remove-Found c d ds a m i u ih (front e) =
    rw (← (str_eq_iff c.name m).0 e) (swap_remove-front c d ds a u)
swap_remove-Found c d ds a m _ u ih (behind i e h) =
    let (lookups, unique) = ih i h in
    let kept = swap_remove (d ∷ ds) i a in
    rw (swap_remove-suc c d ds i a) (
      (λ n. ground (
        arith,
        e,
        lookups n,
        get_consumer-cons c kept n,
        get_consumer-cons c (d ∷ ds) n,
        str_eq_iff c.name n,
        str_eq_iff m n,
        str_eq_iff c.name m,
      )),
      (ground (arith, u.0, lookups c.name), unique),
    )

swap_remove-one :
    (c a : Consumer) (m : String) (i : ℕ)
    → Found m c [] i
    → Removed m (c ∷ []) (swap_remove (c ∷ []) i a)
unfolding swap_remove index_of
swap_remove-one c a m i (front e) = (
  (λ n. ground (
    arith,
    e,
    get_consumer-nil n,
    get_consumer-one c n,
    str_eq_iff c.name n,
    str_eq_iff m n,
    str_eq_iff c.name m,
  )),
  tt,
)
swap_remove-one c a m _ (behind i e h) = absurd (cc)

swap_remove-Removed :
    (cs : List Consumer) (i : ℕ) (a : Consumer) (m : String)
    → Unique cs
    → index_of m cs ≡ some i
    → Removed m cs (swap_remove cs i a)
swap_remove-Removed [] i a m u h = absurd (unfold index_of in cc)
swap_remove-Removed (c ∷ []) i a m u h = swap_remove-one c a m i (index_of-Found m c [] i h)
swap_remove-Removed (c ∷ d ∷ ds) i a m u h =
    swap_remove-Found c d ds a m i u (λ j e. swap_remove-Removed (d ∷ ds) j a m u.1 e)
      (index_of-Found m c (d ∷ ds) i h)

-- Among consumers with distinct names, removing one by its name takes away what that name finds and
-- nothing else, though the last consumer moves into its slot. It is refused exactly if the name is
-- not found; a refusal changes nothing, and a nil pointer is refused.
pub get_consumer-remove_consumer :
    (cs : List Consumer) (ac : Consumer) (n : String)
    → Unique cs
    → (get_consumer (remove_consumer cs (some ac)).0 n
        ≡ (if str_eq ac.name n then none else get_consumer cs n))
      × (((remove_consumer cs (some ac)).1 ≡ some no_consumer) ↔ (get_consumer cs ac.name ≡ none))
      × (remove_consumer cs none ≡ (cs, some consumer_nil))
unfolding remove_consumer
get_consumer-remove_consumer cs ac n u = elim (Option-cases (index_of ac.name cs)) [
  | inl e ↦
      rw (e, remove_consumer)
        (
          ground (arith, index_of-none ac.name cs e, str_eq_iff ac.name n),
          (λ _. index_of-none ac.name cs e, λ _. refl),
          refl,
        )
  | inr (i, e) ↦
      rw (e, remove_consumer)
        (
          (swap_remove-Removed cs i ac ac.name u e).0 n,
          (λ h. absurd (cc), λ h. absurd (cc (e, index_of-get_none ac.name cs h))),
          refl,
        )
]

-- Both methods keep the consumers' names distinct, whatever they are called with.
pub register_remove-Unique :
    (cs : List Consumer) (ac : Option Consumer)
    → Unique cs
    → Unique (register_consumer cs ac).0 × Unique (remove_consumer cs ac).0
unfolding register_consumer remove_consumer
register_remove-Unique cs none u = (u, u)
register_remove-Unique cs (some ac) u = elim (Option-cases (index_of ac.name cs)) [
  | inl e ↦
      rw (e, remove_consumer, register_consumer)
        (Unique-append_one cs ac u (index_of-none ac.name cs e), u)
  | inr (i, e) ↦
      rw (e, remove_consumer, register_consumer) (u, (swap_remove-Removed cs i ac ac.name u e).1)
]
