-- ===== src/Mage/Integration.antt =====
-- magefile-integration.go: the integration tests, with sudo unless the user is root.
use conntracct.Prelude.{List, [], ◌∷◌, ◌++◌, Option, none, some, String, if◌then◌else◌}
use conntracct.Text.{Text, codes, text_eq}
use conntracct.Kernel.{Host, ◌then_do◌}

abbrev pub int_cov : Text
int_cov = codes "test/output/integration.cover"

abbrev pub test_command : Text → List Text
test_command uid =
    let args =
      codes "go"
      ∷ codes "test"
      ∷ codes "-v"
      ∷ codes "-race"
      ∷ (codes "-coverprofile=" ++ int_cov)
      ∷ codes "-covermode=atomic"
      ∷ codes "-tags=integration"
      ∷ codes "./..."
      ∷ [] in
    if text_eq uid (codes "0") then args else args ++ (codes "-exec=sudo" ∷ [])

-- How a target ends, unless it panics.
abbrev pub Ending : Type 0 → Type 0
Ending World = Option (World × Option String)

module _ (host : Host) where
  open host use {World, run}

  -- `Test`, by what `user.Current` answers; without a user, the read of its field panics.
  abbrev pub test : Option Text → World → Ending World
  test none w = none
  test (some uid) w = some (run (test_command uid) w)

  abbrev pub report : Ending World → Ending World
  report none = none
  report (some x) =
      some (
        x
        then_do run (codes "go" ∷ codes "tool" ∷ codes "cover" ∷ (codes "-html=" ++ int_cov) ∷ []))

  -- `Coverhtml`, after the tests. An error of the tests ends the program, which counts as an error here.
  abbrev pub coverhtml : Option Text → World → Ending World
  coverhtml user w = report (test user w)

  -- `Dev`.
  abbrev pub dev : World → World × Option String
  dev w = run (codes "modd" ∷ codes "-f" ∷ codes "modd-integration.conf" ∷ []) w
