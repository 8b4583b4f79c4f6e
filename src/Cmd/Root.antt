-- ===== src/Cmd/Root.antt =====
-- cmd/root.go and the defaults of cmd/config.go: where the configuration comes from. The package viper,
-- the home directory and the execution of the commands by cobra are arguments; log output is left out.
pub mod Documented
pub mod Search
mod Tests
use conntracct.Prelude.{
  ℕ, Bool, true, false, List, [], ◌∷◌, ◌++◌, Option, none, some, String, ◌⊎◌, inl, inr,
  if◌then◌else◌, ◌==◌,
}
use conntracct.Text.{Text, codes, text_eq}

mutual
  -- The values of the default configuration, with tables for its maps.
  pub data Value : Type 0 where
    bool : Bool → Value
    text : Text → Value
    table : Table → Value

  pub data Table : Type 0 where
    empty : Table
    entry : Text → Value → Table → Table

abbrev pub app_name : Text
app_name = codes "conntracct"

abbrev pub cfg_api_enabled : Text
cfg_api_enabled = codes "api_enabled"

abbrev pub cfg_api_endpoint : Text
cfg_api_endpoint = codes "api_endpoint"

abbrev pub cfg_sysctl_manage : Text
cfg_sysctl_manage = codes "sysctl_manage"

abbrev pub cfg_pprof_enabled : Text
cfg_pprof_enabled = codes "pprof_enabled"

abbrev pub cfg_pprof_endpoint : Text
cfg_pprof_endpoint = codes "pprof_endpoint"

abbrev pub cfg_sinks : Text
cfg_sinks = codes "sinks"

-- `cfgDefaults`, in one order of the map.
abbrev pub cfg_defaults : List (Text × Value)
cfg_defaults =
    (cfg_api_enabled, bool true)
    ∷ (cfg_api_endpoint, text (codes "localhost:8000"))
    ∷ (
      cfg_sinks,
      table (
          entry (codes "stdout")
            (table (
              entry (codes "type") (text (codes "stdout"))
                (entry (codes "sourcePorts") (bool true) empty)))
            empty),
    )
    ∷ (cfg_sysctl_manage, bool true)
    ∷ (cfg_pprof_enabled, bool false)
    ∷ (cfg_pprof_endpoint, text (codes "localhost:6060"))
    ∷ []

-- The package viper with its settings, which it keeps in a variable of its own. `read_in_config`
-- answers with the error, if any.
pub record Viper : Type 1 where
  pub Settings : Type 0
  pub set_default : Text → Value → Settings → Settings
  pub set_config_file : Text → Settings → Settings
  pub add_config_path : Text → Settings → Settings
  pub set_config_name : Text → Settings → Settings
  pub set_env_prefix : Text → Settings → Settings
  pub automatic_env : Settings → Settings
  pub read_in_config : Settings → Settings × Option String
  -- `path.Join`.
  pub join : Text → Text → Text

-- How a part of the program ends: it goes on, or the process ends with an exit code.
pub data Exit (A : Type 0) : Type 0 where
  goes_on : A → Exit A
  exits : ℕ → Exit A

-- `Execute`, by what cobra answers.
unfoldable pub execute : {A : Type 0} → A × Option String → Exit A
execute (a, none) = goes_on a
execute (a, some e) = exits 1

-- `rootPreRun`: the level of the log, by the flag.
pub data Level : Type 0 where
  info debug_level : Level

unfoldable pub root_pre_run : Bool → Level → Level
root_pre_run debug level = if debug then debug_level else level

module _ (viper : Viper) where
  open viper use {
    Settings, set_default, set_config_file, add_config_path, set_config_name, set_env_prefix,
    automatic_env, read_in_config, join,
  }

  -- The `init` of cmd/config.go, for an order of the map.
  unfoldable pub init_defaults : List (Text × Value) → Settings → Settings
  init_defaults [] s = s
  init_defaults ((k, v) ∷ rest) s = init_defaults rest (set_default k v s)

  -- Where the file is looked for without a flag; `home` is what homedir answers.
  search_home : String ⊎ Text → Settings → Exit Settings
  search_home (inl e) s = exits 1
  search_home (inr home) s =
      let in_home = add_config_path (join home (codes ".config")) s in
      let in_etc = add_config_path (codes "/etc/" ++ app_name) in_home in
      goes_on (set_config_name app_name in_etc)

  -- The first part of `initConfig`, by the flag `--config`.
  locate : Text → String ⊎ Text → Settings → Exit Settings
  unfolding search_home
  locate [] home s = search_home home s
  locate (c ∷ path) home s = goes_on (set_config_file (c ∷ path) s)

  -- The rest of it. An error of the reading is not looked at.
  read_config : Exit Settings → Exit Settings
  read_config (exits n) = exits n
  read_config (goes_on s) =
      goes_on (read_in_config (automatic_env (set_env_prefix (codes "ct") s))).0

  -- `initConfig`.
  unfoldable pub init_config : Text → String ⊎ Text → Settings → Exit Settings
  unfolding locate read_config
  init_config cfg_file home s = read_config (locate cfg_file home s)
