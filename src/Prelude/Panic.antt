-- ===== src/Prelude/Panic.antt =====
-- How a Go call can end: with a value, in a panic, or not before another goroutine acts.
use mathlib.Core.Path.{◌≡◌, refl}

pub data Go {ℓ} (A : Type ℓ) : Type ℓ where
  ok : A → Go A
  panic : Go A
  waits : Go A

infixl 5 ◌>>=◌
abbrev pub ◌>>=◌ {ℓ κ} : {A : Type ℓ} {B : Type κ} → Go A → (A → Go B) → Go B
ok a >>= f = f a
panic >>= f = panic
waits >>= f = waits

-- Inversion of a call that returns after another one.
pub bind_ok {ℓ κ} :
    {A : Type ℓ} {B : Type κ} (m : Go A) (f : A → Go B) (b : B)
    → (m >>= f) ≡ ok b
    → (a : A) × (m ≡ ok a) × (f a ≡ ok b)
bind_ok (ok a) f b h = (a, refl, h)
bind_ok panic f b h = cc
bind_ok waits f b h = cc
