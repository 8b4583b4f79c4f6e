-- ===== src/Chan.antt =====
-- Go channels, as far as the program uses them: a buffer with a capacity, which may be closed. The
-- `nil` channel is the one that was never made. A receiver takes from the buffer, so a channel
-- without one accepts a send only if a receiver waits at that moment; where the program has such a
-- channel (`errChan`, `lostChan`), whether one waits is an argument.
use conntracct.Prelude.{
  ℕ, Bool, true, false, not, ◌&&◌, List, [], ◌∷◌, ◌++◌, Go, ok, panic, length, ltb, if◌then◌else◌,
}

pub record Chan {ℓ} (A : Type ℓ) : Type ℓ where
  pub made : Bool
  pub closed : Bool
  pub cap : ℕ
  pub queue : List A

module _ {ℓ} {A : Type ℓ} where
  abbrev pub nil_chan : Chan A
  nil_chan = record { made = false; closed = false; cap = 0; queue = [] }

  -- `make(chan A, cap)`.
  abbrev pub make : ℕ → Chan A
  make cap = record { made = true; closed = false; cap = cap; queue = [] }

  -- `len(c)`.
  abbrev pub len : Chan A → ℕ
  len c = length c.queue

  -- `close(c)` panics on a nil and on a closed channel.
  abbrev pub close : Chan A → Go (Chan A)
  close c = if c.made && not c.closed then ok (record c { closed = true }) else panic

pub data Sent {ℓ} (A : Type ℓ) : Type ℓ where
  sent : Chan A → Sent A
  full : Sent A
  closed_chan : Sent A

pub data Received {ℓ} (A : Type ℓ) : Type ℓ where
  item : A → Chan A → Received A
  drained : Received A
  blocked : Received A

module _ {ℓ} {A : Type ℓ} where
  -- The case `c <- a` of a `select` with a `default`: `full` is the default. A send on a closed
  -- channel panics.
  abbrev pub try_send : Chan A → A → Sent A
  try_send c a =
      if c.closed
      then closed_chan
      else if c.made && ltb (length c.queue) c.cap
      then sent (record c { queue = c.queue ++ (a ∷ []) })
      else full

  -- `a, ok := <-c`: `drained` is `ok == false`, on a closed channel that is empty.
  abbrev receive_from : Chan A → List A → Received A
  receive_from c [] = if c.closed then drained else blocked
  receive_from c (a ∷ rest) = item a (record c { queue = rest })

  abbrev pub receive : Chan A → Received A
  receive c = receive_from c c.queue
