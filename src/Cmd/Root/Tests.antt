-- ===== src/Cmd/Root/Tests.antt =====
-- Tests and witnesses for Cmd/Root: settings as a record, and a home directory that holds a file.
use conntracct.Prelude.{
  ◌≢◌, ◌≡◌, refl, ap, ◌∙◌, true, List, [], ◌∷◌, ◌++◌, Option, none, some, inr, if◌then◌else◌,
}
use conntracct.Text.{Text, codes, text_eq}
use conntracct.GoMap.{lookup, IsUnique}
use conntracct.Kernel.{slash}
use conntracct.Cmd.Root.{
  bool, table, empty, entry, Value, Viper, Exit, goes_on, exits, cfg_defaults, init_config,
  init_defaults, locate, search_home, read_config, execute, root_pre_run, debug_level, info,
}
use conntracct.Cmd.Root.Documented.{
  lowered, lowered_table, is_distinct, is_distinct_table, text_key, or_else, View, Behaves, Outcome,
  HasKeys, first_in, target, usable, in_list,
}
use conntracct.Cmd.Root.Search.{init_config_reads}

pub record Kept : Type 0 where
  pub file : Text
  pub paths : List Text
  pub config_name : Text
  pub loaded : Option Text
  pub defaults : List (Text × Value)

abbrev home_file : Text
home_file = codes "/root/.config/conntracct.yml"

abbrev held : Text → Text → Option Text
held dir name =
    if text_eq dir (codes "/root/.config")
    then some (dir ++ (slash ∷ (name ++ codes ".yml")))
    else none

abbrev first_held : Text → List Text → Option Text
first_held name [] = none
first_held name (d ∷ ds) = or_else (held d name) (first_held name ds)

abbrev chosen : Text → List Text → Text → Option Text
chosen [] dirs name = first_held name dirs
chosen (c ∷ path) dirs name = some (c ∷ path)

abbrev plain_viper : Viper
plain_viper = record {
  Settings = Kept;
  set_default = λ k v s. record s { defaults = (k, lowered v) ∷ s.defaults };
  set_config_file = λ f s. record s { file = f };
  add_config_path =
      λ p s. record s { paths = if in_list p s.paths then s.paths else s.paths ++ (p ∷ []) };
  set_config_name = λ n s. record s { config_name = n; file = [] };
  set_env_prefix = λ p s. s;
  automatic_env = λ s. s;
  read_in_config = λ s. (record s { loaded = chosen s.file s.paths s.config_name }, none);
  join = λ a b. a ++ (slash ∷ b);
}

abbrev view : View plain_viper
view = record {
  file = λ s. s.file;
  paths = λ s. s.paths;
  config_name = λ s. s.config_name;
  loaded = λ s. s.loaded;
  default = λ k s. lookup text_key k s.defaults;
  absolute = λ p. p;
  holds = held;
  readable = λ f. true;
}

abbrev fresh : Kept
fresh = record { file = []; paths = []; config_name = []; loaded = none; defaults = [] }

first_held-first_in :
    (name : Text) (ds : List Text) → first_held name ds ≡ first_in plain_viper view name ds
first_held-first_in name [] = refl
first_held-first_in name (d ∷ ds) = ap (or_else (held d name)) (first_held-first_in name ds)

usable_all : (f : Option Text) → f ≡ usable plain_viper view f
usable_all none = refl
usable_all (some f) = refl

chosen-target :
    (f : Text) (ds : List Text) (name : Text) → chosen f ds name ≡ target plain_viper view f ds name
chosen-target [] ds name = first_held-first_in name ds
chosen-target (c ∷ path) ds name = refl

append-slash : (a b : Text) → a ++ (slash ∷ b) ≢ []
append-slash [] b h = cc
append-slash (c ∷ a) b h = cc

viper-Behaves : Behaves plain_viper view
unfolding lookup
viper-Behaves = record {
  sets_default = λ k j v s a b c. refl;
  default_keeps = λ k v s. (refl, refl, refl);
  sets_file = λ f s h. refl;
  file_keeps = λ f s k. refl;
  adds_path = λ p s h. refl;
  path_keeps = λ p s. (refl, λ k. refl);
  sets_name = λ n s h. (refl, refl);
  joins = λ a b h. append-slash a b;
  name_keeps = λ n s. (refl, λ k. refl);
  prefix_keeps = λ p s. ((refl, refl, refl), λ k. refl);
  env_keeps = λ s. ((refl, refl, refl), λ k. refl);
  reads = λ s. (chosen-target s.file s.paths s.config_name ∙ usable_all _, λ k. refl);
}

defaults-IsUnique : IsUnique text_key cfg_defaults
unfolding lookup text_eq
defaults-IsUnique = (refl, (refl, (refl, (refl, (refl, (refl, tt))))))

defaults-HasKeys : HasKeys cfg_defaults
unfolding is_distinct is_distinct_table text_eq
defaults-HasKeys = (
  (refl, refl),
  ((refl, refl), ((refl, refl), ((refl, refl), ((refl, refl), ((refl, refl), tt))))),
)

init_config_reads_example : Outcome plain_viper view [] (inr (codes "/root")) (
    init_config plain_viper [] (inr (codes "/root")) (init_defaults plain_viper cfg_defaults fresh))
unfolding lookup
init_config_reads_example =
    init_config_reads plain_viper view viper-Behaves fresh (refl, refl) (λ k. refl) cfg_defaults
      defaults-IsUnique defaults-HasKeys (λ k. refl) [] (inr (codes "/root"))

-- A key inside of a default is kept in lower case.
source_ports_lowered :
    lowered (table (entry (codes "sourcePorts") (bool true) empty))
    ≡ table (entry (codes "sourceports") (bool true) empty)
unfolding lowered lowered_table
source_ports_lowered = refl

-- The file of the home directory is the one that is read.
abbrev loaded_of : Exit Kept → Option Text
loaded_of (goes_on s) = s.loaded
loaded_of (exits n) = none

home_file_loaded :
    loaded_of (
      init_config plain_viper []
        (inr (codes "/root"))
        (init_defaults plain_viper cfg_defaults fresh))
    ≡ some home_file
unfolding init_config locate search_home read_config init_defaults text_eq
home_file_loaded = refl

execute-error : execute (fresh, some "unknown command") ≡ exits 1
unfolding execute
execute-error = refl

debug_flag : root_pre_run true info ≡ debug_level
unfolding root_pre_run
debug_flag = refl
