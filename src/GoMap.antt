-- ===== src/GoMap.antt =====
-- Go maps: the entries in some order, with keys compared by `==`. Of the entries that have one
-- key the first one counts, and no operation makes a second one.
use conntracct.Prelude.{
  ◌≡◌, refl, ap, ◌∙◌, Bool, true, false, List, [], ◌∷◌, Option, none, some, Bool-cases, inl, inr,
  arith, if◌then◌else◌,
}

-- `==` on the keys.
pub record KeyEq {ℓ} (K : Type ℓ) : Type ℓ where
  pub same : K → K → Bool
  pub same_refl : (k : K) → same k k ≡ true
  pub same_sound : (k l : K) → same k l ≡ true → k ≡ l

pub differs {ℓ} : {K : Type ℓ} (eq : KeyEq K) (l k : K) → eq.same l k ≡ false → eq.same k l ≡ false
differs eq l k f = elim (Bool-cases (eq.same k l)) [
  | inl t ↦ absurd (ground (arith, f, ap (eq.same l) (eq.same_sound k l t) ∙ eq.same_refl l))
  | inr g ↦ g
]

module _ {ℓ κ} {K : Type ℓ} {V : Type κ} (eq : KeyEq K) where
  open eq use {same, same_refl, same_sound}

  -- `v, ok := m[k]`.
  unfoldable pub lookup : K → List (K × V) → Option V
  lookup k [] = none
  lookup k ((l, v) ∷ m) = let rest = lookup k m in if same l k then some v else rest

  -- `m[k] = v`.
  unfoldable pub assign : K → V → List (K × V) → List (K × V)
  assign k v [] = (k, v) ∷ []
  assign k v ((l, w) ∷ m) =
      let rest = assign k v m in if same l k then (l, v) ∷ m else (l, w) ∷ rest

  abbrev pub IsUnique : List (K × V) → Type κ
  IsUnique [] = Unit
  IsUnique ((k, v) ∷ m) = (lookup k m ≡ none) × IsUnique m

  pub lookup-assign_same : (k : K) (v : V) (m : List (K × V)) → lookup k (assign k v m) ≡ some v
  unfolding lookup assign
  lookup-assign_same k v [] = rw (same_refl k)
  lookup-assign_same k v ((l, w) ∷ m) = elim (Bool-cases (same l k)) [
    | inl t ↦ rw t (rw t)
    | inr f ↦ rw f (rw (f, lookup-assign_same k v m))
  ]

  pub lookup-assign_other :
      (k x : K) (v : V) (m : List (K × V)) → same k x ≡ false → lookup x (assign k v m) ≡ lookup x m
  unfolding lookup assign
  lookup-assign_other k x v [] h = rw h
  lookup-assign_other k x v ((l, w) ∷ m) h = elim (Bool-cases (same l k)) [
    | inl t ↦ rw t (rw (ap (λ y. same y x) (same_sound l k t) ∙ h))
    | inr f ↦ rw f (rw (lookup-assign_other k x v m h))
  ]

  pub assign-IsUnique : (k : K) (v : V) (m : List (K × V)) → IsUnique m → IsUnique (assign k v m)
  unfolding lookup assign
  assign-IsUnique k v [] h = (refl, tt)
  assign-IsUnique k v ((l, w) ∷ m) h = elim (Bool-cases (same l k)) [
    | inl t ↦ rw t h
    | inr f ↦ rw f (lookup-assign_other k l v m (differs eq l k f) ∙ h.0, assign-IsUnique k v m h.1)
  ]
