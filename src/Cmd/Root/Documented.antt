-- ===== src/Cmd/Root/Documented.antt =====
-- What viper is documented to do, and which configuration the program is to come to.
use mathlib.Core.Option.{map as option_map}
use conntracct.Prelude.{
  not, ◌+◌, ◌≢◌, ◌&&◌, ◌||◌, ◌==◌, leb, All, ◌≡◌, refl, Bool, true, false, List, [], ◌∷◌, ◌++◌,
  Option, none, some, String, ◌⊎◌, inl, inr, if◌then◌else◌,
}
use conntracct.Text.{Text, codes, text_eq, text_eq_iff}
use conntracct.GoMap.{KeyEq, lookup}
use conntracct.Cmd.Root.{
  Table, bool, text, table, empty, entry, Value, Viper, Exit, goes_on, exits, app_name,
  cfg_defaults,
}

abbrev pub text_key : KeyEq Text
text_key = record {
  same = text_eq;
  same_refl = λ k. (text_eq_iff k k).1 refl;
  same_sound = λ k l. (text_eq_iff k l).0;
}

abbrev pub or_else : {A : Type 0} → Option A → Option A → Option A
or_else (some a) d = some a
or_else none d = d

pub or_else-none : {A : Type 0} (x : Option A) → or_else x none ≡ x
or_else-none none = refl
or_else-none (some a) = refl

pub or_else_same : {A : Type 0} (x : Option A) → or_else x x ≡ x
or_else_same none = refl
or_else_same (some a) = refl

abbrev pub in_list : Text → List Text → Bool
in_list p [] = false
in_list p (q ∷ qs) = let rest = in_list p qs in if text_eq q p then true else rest

-- `strings.ToLower` on ASCII.
abbrev pub lower : Text → Text
lower [] = []
lower (c ∷ k) = (if leb b'A' c && leb c b'Z' then c + 32 else c) ∷ lower k

unfoldable mutual
  -- What viper keeps of a default: the keys of its tables in lower case.
  pub lowered : Value → Value
  lowered (bool b) = bool b
  lowered (text t) = text t
  lowered (table t) = table (lowered_table t)

  pub lowered_table : Table → Table
  lowered_table empty = empty
  lowered_table (entry k v rest) = entry (lower k) (lowered v) (lowered_table rest)

abbrev pub lower_keys : Table → List Text
lower_keys empty = []
lower_keys (entry k v rest) = lower k ∷ lower_keys rest

unfoldable mutual
  -- No two keys of a table become the same in lower case.
  pub is_distinct : Value → Bool
  is_distinct (bool b) = true
  is_distinct (text t) = true
  is_distinct (table t) = is_distinct_table t

  pub is_distinct_table : Table → Bool
  is_distinct_table empty = true
  is_distinct_table (entry k v rest) =
      not (in_list (lower k) (lower_keys rest)) && (is_distinct v && is_distinct_table rest)

-- Keys of lower-case letters and underscores, which viper takes as they are.
abbrev pub is_key : Text → Bool
is_key [] = true
is_key (c ∷ k) = ((leb b'a' c && leb c b'z') || c == b'_') && is_key k

abbrev pub HasKeys : List (Text × Value) → Type 0
HasKeys order = All (λ d. (is_key d.0 ≡ true) × (is_distinct d.1 ≡ true)) order

-- A file is used if it can be read and parsed.
abbrev pub only_if : Bool → Text → Option Text
only_if b f = if b then some f else none

module _ (viper : Viper) where
  open viper use {
    Settings, set_default, set_config_file, add_config_path, set_config_name, set_env_prefix,
    automatic_env, read_in_config, join,
  }

  -- What can be seen of the settings: the file that was given, the directories to search, the name to
  -- look for, the file whose contents the last reading loaded, and the default of a key. On the disk, a directory
  -- may hold a file of a name with one of the extensions of viper, and that may be readable.
  pub record View : Type 0 where
    pub file : Settings → Text
    pub paths : Settings → List Text
    pub config_name : Settings → Text
    pub loaded : Settings → Option Text
    pub default : Text → Settings → Option Value
    pub absolute : Text → Text
    pub holds : Text → Text → Option Text
    pub readable : Text → Bool

  module _ (view : View) where
    open view use {file, paths, config_name, loaded, default, absolute, holds, readable}

    abbrev pub first_in : Text → List Text → Option Text
    first_in name [] = none
    first_in name (d ∷ ds) = or_else (holds d name) (first_in name ds)

    -- The file that a reading takes: the one that was given, or the first that the search finds.
    abbrev pub target : Text → List Text → Text → Option Text
    target [] dirs name = first_in name dirs
    target (c ∷ path) dirs name = some (c ∷ path)

    abbrev pub usable : Option Text → Option Text
    usable none = none
    usable (some f) = only_if (readable f) f

    abbrev pub SameBut : Settings → Settings → Type 0
    SameBut s t = (file t ≡ file s) × (paths t ≡ paths s) × (config_name t ≡ config_name s)

    abbrev pub SameDefaults : Settings → Settings → Type 0
    SameDefaults s t = (k : Text) → default k t ≡ default k s

    abbrev pub HasDefaults : Settings → Type 0
    HasDefaults s =
        (k : Text)
        → is_key k ≡ true
        → default k s ≡ option_map lowered (lookup text_key k cfg_defaults)

    -- What is documented of viper.
    pub record Behaves : Type 0 where
      pub sets_default :
          (k j : Text) (v : Value) (s : Settings)
          → is_key k ≡ true
          → is_key j ≡ true
          → is_distinct v ≡ true
          → default j (set_default k v s) ≡ (if text_eq k j then some (lowered v) else default j s)
      pub default_keeps : (k : Text) (v : Value) (s : Settings) → SameBut s (set_default k v s)
      pub sets_file : (f : Text) (s : Settings) → f ≢ [] → file (set_config_file f s) ≡ f
      pub file_keeps : (f : Text) (s : Settings) → SameDefaults s (set_config_file f s)
      -- A path is made absolute and added at the end, unless it is there.
      pub adds_path :
          (p : Text) (s : Settings)
          → p ≢ []
          → paths (add_config_path p s)
            ≡ (if in_list (absolute p) (paths s) then paths s else paths s ++ (absolute p ∷ []))
      pub path_keeps :
          (p : Text) (s : Settings)
          → (file (add_config_path p s) ≡ file s) × SameDefaults s (add_config_path p s)
      -- A name takes the place of a file that was given.
      pub sets_name :
          (n : Text) (s : Settings)
          → n ≢ []
          → (config_name (set_config_name n s) ≡ n) × (file (set_config_name n s) ≡ [])
      pub joins : (a b : Text) → b ≢ [] → join a b ≢ []
      pub name_keeps :
          (n : Text) (s : Settings)
          → (paths (set_config_name n s) ≡ paths s) × SameDefaults s (set_config_name n s)
      pub prefix_keeps :
          (p : Text) (s : Settings)
          → SameBut s (set_env_prefix p s) × SameDefaults s (set_env_prefix p s)
      pub env_keeps :
          (s : Settings) → SameBut s (automatic_env s) × SameDefaults s (automatic_env s)
      pub reads :
          (s : Settings)
          → (loaded (read_in_config s).0 ≡ usable (target (file s) (paths s) (config_name s)))
            × SameDefaults s (read_in_config s).0

    -- The settings with which the program goes on, after a reading of this file, if there is one.
    abbrev pub Reads : Option Text → Exit Settings → Type 0
    Reads f x = (s : Settings) × (x ≡ goes_on s) × (loaded s ≡ usable f) × HasDefaults s

    abbrev pub Outcome : Text → String ⊎ Text → Exit Settings → Type 0
    Outcome (c ∷ path) home x = Reads (some (c ∷ path)) x
    Outcome [] (inl e) x = x ≡ exits 1
    Outcome [] (inr home) x =
        Reads
          (or_else (holds (absolute (join home (codes ".config"))) app_name)
            (holds (absolute (codes "/etc/conntracct")) app_name))
          x
