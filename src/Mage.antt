-- ===== src/Mage.antt =====
-- The targets of mage: magefile-bpf.go (Mage/Bpf), magefile.go (Mage/App) and magefile-integration.go
-- (Mage/Integration), over the disk and the commands. What they print is left out.
pub mod Bpf
pub mod App
pub mod Integration
mod Tests
use conntracct.Prelude.{Bool, List, Option, String, ◌⊎◌}
use conntracct.Text.{Text}
use conntracct.Kernel.{Host}

-- What `os.Lstat` answers.
pub data Link : Type 0 where
  absent symlink other : Link

module _ (host : Host) where
  open host use {World}

  -- What the targets use besides the `Host` of pkg/kernel, whose `run` stands for `sh.Run`, `sh.RunV`
  -- and `sh.RunCmd`: `os.RemoveAll`, `sh.Rm`, `target.Path` and `target.Dir` of mage, the two ends
  -- of a pipeline (`Start` and `Wait` of the reader, `Run` of the writer), and the symbolic links.
  -- `read_link` is the target that `os.Readlink` returns, whatever its error.
  pub record Tools : Type 0 where
    pub remove_all : Text → World → World × Option String
    pub rm : Text → World → World × Option String
    pub newer : Text → List Text → World → String ⊎ Bool
    pub newer_in : Text → List Text → World → String ⊎ Bool
    pub start : List Text → World → World × Option String
    pub run_into : List Text → World → World × Option String
    pub wait : List Text → World → World × Option String
    pub lstat : Text → World → Link
    pub eval_symlinks : Text → World → Option Text
    pub read_link : Text → World → Text
