-- ===== src/Cmd/Root/Search.antt =====
-- Which configuration the program comes to.
use mathlib.Core.Option.{map as option_map}
use conntracct.Prelude.{
  ◌≡◌, refl, sym, ap, ◌∙◌, true, Bool-cases, List, [], ◌∷◌, ◌++◌, Option, none, some, String, ◌⊎◌,
  inl, inr, if◌then◌else◌,
}
use conntracct.Text.{Text, codes, text_eq, text_eq_iff}
use conntracct.GoMap.{lookup, IsUnique}
use conntracct.Cmd.Root.{
  Value, Viper, goes_on, app_name, cfg_defaults, init_defaults, locate, search_home, read_config,
  init_config,
}
use conntracct.Cmd.Root.Documented.{
  lowered, text_key, or_else, or_else-none, or_else_same, in_list, is_key, HasKeys, View, first_in,
  target, usable, SameBut, HasDefaults, Behaves, Reads, Outcome,
}

module _ (viper : Viper) (view : View viper) (laws : Behaves viper view) where
  open viper use {
    Settings, set_default, set_config_file, add_config_path, set_config_name, set_env_prefix,
    automatic_env, read_in_config, join,
  }
  open view use {file, paths, config_name, loaded, default, absolute, holds, readable}

  -- The two directories, one of which may be the other.
  first_in_two :
      (a b name : Text)
      → first_in viper view name (if in_list b (a ∷ []) then a ∷ [] else a ∷ b ∷ [])
        ≡ or_else (holds a name) (holds b name)
  first_in_two a b name = elim (Bool-cases (text_eq a b)) [
    | inl t ↦ rw t (
        or_else-none (holds a name)
        ∙ (sym (or_else_same (holds a name))
            ∙ ap (λ x. or_else (holds a name) (holds x name)) ((text_eq_iff a b).0 t)))
    | inr f ↦ rw f (ap (or_else (holds a name)) (or_else-none (holds b name)))
  ]

  target_eq :
      (f g : Text) (ps qs : List Text) (n m : Text)
      → f ≡ g
      → ps ≡ qs
      → n ≡ m
      → target viper view f ps n ≡ target viper view g qs m
  target_eq f g ps qs n m p q r = λ i. target viper view (p i) (q i) (r i)

  target-SameBut :
      (s t : Settings)
      → SameBut viper view s t
      → target viper view (file t) (paths t) (config_name t)
        ≡ target viper view (file s) (paths s) (config_name s)
  target-SameBut s t (f, p, n) = target_eq _ _ _ _ _ _ f p n

  read_config-Reads :
      (s : Settings) (f : Option Text)
      → target viper view (file s) (paths s) (config_name s) ≡ f
      → HasDefaults viper view s
      → Reads viper view f (read_config viper (goes_on s))
  unfolding read_config
  read_config-Reads s f t d =
      let prefixed = set_env_prefix (codes "ct") s in
      let ready = automatic_env prefixed in
      let (kept, same) = laws.prefix_keeps (codes "ct") s in
      let (kept', same') = laws.env_keeps prefixed in
      let (got, same'') = laws.reads ready in
      (
        (read_in_config ready).0,
        refl,
        got
            ∙ ap (usable viper view)
                (target-SameBut prefixed ready kept' ∙ (target-SameBut s prefixed kept ∙ t)),
        λ k key. same'' k ∙ (same' k ∙ (same k ∙ d k key)),
      )

  -- No later default has this key.
  moved :
      (j : Text) (v : Value) (rest : List (Text × Value)) (s : Settings) (k : Text)
      → IsUnique text_key ((j, v) ∷ rest)
      → or_else
          (option_map lowered (lookup text_key k rest))
          (if text_eq j k then some (lowered v) else default k s)
        ≡ or_else (option_map lowered (lookup text_key k ((j, v) ∷ rest))) (default k s)
  unfolding lookup
  moved j v rest s k u = elim (Bool-cases (text_eq j k)) [
    | inl t ↦ rw t (
        ap (λ x. or_else (option_map lowered x) (some (lowered v)))
          (ap (λ x. lookup text_key x rest) (sym ((text_eq_iff j k).0 t)) ∙ u.0))
    | inr f ↦ rw f refl
  ]

  init_defaults-lookup :
      (order : List (Text × Value)) (s : Settings) (k : Text)
      → IsUnique text_key order
      → HasKeys order
      → is_key k ≡ true
      → default k (init_defaults viper order s)
        ≡ or_else (option_map lowered (lookup text_key k order)) (default k s)
  unfolding init_defaults lookup
  init_defaults-lookup [] s k u keys key = refl
  init_defaults-lookup ((j, v) ∷ rest) s k u keys key =
      init_defaults-lookup rest (set_default j v s) k u.1 keys.1 key
      ∙ (ap (or_else (option_map lowered (lookup text_key k rest)))
            (laws.sets_default j k v s keys.0.0 key keys.0.1)
          ∙ moved j v rest s k u)

  init_defaults-SameBut :
      (order : List (Text × Value)) (s : Settings)
      → SameBut viper view s (init_defaults viper order s)
  unfolding init_defaults
  init_defaults-SameBut [] s = (refl, refl, refl)
  init_defaults-SameBut ((j, v) ∷ rest) s =
      let (f, p, n) = init_defaults-SameBut rest (set_default j v s) in
      let (f', p', n') = laws.default_keeps j v s in (f ∙ f', p ∙ p', n ∙ n')

  search-Outcome :
      (flag : Text) (home : String ⊎ Text) (s : Settings)
      → (file s ≡ []) × (paths s ≡ [])
      → HasDefaults viper view s
      → Outcome viper view flag home (read_config viper (locate viper flag home s))
  unfolding locate search_home read_config
  search-Outcome (c ∷ path) home s none_yet d =
      read_config-Reads (set_config_file (c ∷ path) s) (some (c ∷ path))
        (target_eq _ _ _ _ _ _ (laws.sets_file (c ∷ path) s (λ x. cc)) refl refl)
        (λ k key. laws.file_keeps (c ∷ path) s k ∙ d k key)
  search-Outcome [] (inl e) s none_yet d = refl
  search-Outcome [] (inr home) s (no_file, no_paths) d =
      let a = join home (codes ".config") in
      let b = codes "/etc/conntracct" in
      let one = add_config_path a s in
      let two = add_config_path b one in
      let (p, same) = laws.name_keeps app_name two in
      let (_, same') = laws.path_keeps b one in
      let (_, same'') = laws.path_keeps a s in
      let (n, f) = laws.sets_name app_name two (λ x. cc) in
      let added = λ (x : Text) (xs : List Text).
        if in_list (absolute x) xs then xs else xs ++ (absolute x ∷ []) in
      let first =
        laws.adds_path a s (laws.joins home (codes ".config") (λ x. cc)) ∙ ap (added a) no_paths in
      let both = laws.adds_path b one (λ x. cc) ∙ ap (added b) first in
      read_config-Reads (set_config_name app_name two) _
        (target_eq _ _ _ _ _ _ f (p ∙ both) n ∙ first_in_two (absolute a) (absolute b) app_name)
        (λ k key. same k ∙ (same' k ∙ (same'' k ∙ d k key)))

  -- If viper behaves as documented, then starting from empty settings, with the defaults of the
  -- program set in any order of their map: with a file given by the flag, that file is the one that
  -- is read; without it, an unknown home directory ends the process with code 1, and otherwise
  -- the file is the first one that .config of the home directory or /etc/conntracct holds
  -- under the name of the program. A file that cannot be read, or none, is no error: nothing is
  -- loaded then. In every case each key of lower-case letters and underscores keeps exactly the
  -- default of the program, the keys inside of it in lower case, as viper stores them.
  pub init_config_reads :
      (fresh : Settings)
      → (file fresh ≡ []) × (paths fresh ≡ [])
      → ((k : Text) → default k fresh ≡ none)
      → (order : List (Text × Value)) → IsUnique text_key order
      → HasKeys order
      → ((k : Text) → lookup text_key k order ≡ lookup text_key k cfg_defaults)
      → (flag : Text) (home : String ⊎ Text)
      → Outcome viper view flag home (init_config viper flag home (init_defaults viper order fresh))
  unfolding init_config
  init_config_reads fresh (no_file, no_paths) no_default order unique keys same flag home =
      let (f, p, n) = init_defaults-SameBut order fresh in
      search-Outcome flag home (init_defaults viper order fresh) (f ∙ no_file, p ∙ no_paths)
        (λ k key.
          init_defaults-lookup order fresh k unique keys key
          ∙ (ap (or_else (option_map lowered (lookup text_key k order))) (no_default k)
              ∙ (or_else-none (option_map lowered (lookup text_key k order))
                  ∙ ap (option_map lowered) (same k))))
