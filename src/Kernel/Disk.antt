-- ===== src/Kernel/Disk.antt =====
-- A disk as the list of its paths, on which curl and tar make what they are documented to make.
use conntracct.Prelude.{
  ◌≡◌, refl, ◌+◌, Bool, true, false, List, [], ◌∷◌, ◌++◌, none, inl, get_or, Bool-cases, inr, arith,
  if◌then◌else◌, drop, length,
}
use conntracct.Text.{Text, codes, text_eq, text_eq_iff}
use conntracct.Kernel.{
  Kernel, Params, Host, exists, missing, curl_command, tar_command, directory, name, slash,
  trim_ext,
}
use conntracct.Kernel.Table.{build_dir}
use conntracct.Kernel.Fetched.{Behaves, IsThere, Keeps}

abbrev pub has : Text → List Text → Bool
has p [] = false
has p (q ∷ w) = let rest = has p w in if text_eq q p then true else rest

abbrev pub slash_join : Text → Text → Text
slash_join a b = a ++ (slash ∷ b)

-- An archive of the build directory unpacks to its name without the extension.
abbrev pub unpacked : Text → Text
unpacked archive = slash_join build_dir (trim_ext (drop (length build_dir + 1) archive))

abbrev pub made_by : List Text → Text
made_by [] = []
made_by (c ∷ args) =
    if text_eq c (codes "curl")
    then get_or args 3 []
    else if text_eq c (codes "tar")
    then unpacked (get_or args 1 [])
    else []

abbrev pub disk : Host
disk = record {
  World = List Text;
  KConfig = Params;
  join = slash_join;
  stat = λ p w. if has p w then exists else missing;
  mkdir_all = λ d w. if has d w then (w, none) else (d ∷ w, none);
  run = λ c w. (made_by c ∷ w, none);
  read_config = λ p w. inr [];
  merge = λ ps kc. ps ++ kc;
  write_config = λ p kc w. (p ∷ w, none);
}

pub has-first : (p : Text) (w : List Text) → has p (p ∷ w) ≡ true
has-first p w = rw ((text_eq_iff p p).1 refl)

pub has-IsThere : (p : Text) (w : List Text) → has p w ≡ true → IsThere disk p w
has-IsThere p w h e = ground (arith, h, e)

pub IsThere-has : (p : Text) (w : List Text) → IsThere disk p w → has p w ≡ true
IsThere-has p w h = elim (Bool-cases (has p w)) [ inl t ↦ t | inr f ↦ absurd (h (rw f)) ]

pub has-more : (p q : Text) (w : List Text) → has p w ≡ true → has p (q ∷ w) ≡ true
has-more p q w h = ground (arith, h)

abbrev pub IsMade : Text → List Text → Type 0
IsMade d w = has d w ≡ true

pub run-Keeps : (c : List Text) (w : List Text) → Keeps disk IsMade w (disk.run c w).0
run-Keeps c w = (
  λ d h. has-more d (made_by c) w h,
  λ p h. has-IsThere p (made_by c ∷ w) (has-more p (made_by c) w (IsThere-has p w h)),
)

pub mkdir-IsMade : (d : Text) (w : List Text) → IsMade d (disk.mkdir_all d w).0
mkdir-IsMade d w = elim (Bool-cases (has d w)) [ inl t ↦ rw t t | inr f ↦ rw f (has-first d w) ]

pub disk-Behaves : (k : Kernel) → Behaves disk build_dir k IsMade
unfolding text_eq name
disk-Behaves k = record {
  mkdir_makes = λ d w h. mkdir-IsMade d w;
  mkdir_again = λ d w h. rw h;
  curl_writes = λ url path w h. has-IsThere path (path ∷ w) (has-first path w);
  tar_unpacks = λ w h.
      has-IsThere (directory disk build_dir k) (directory disk build_dir k ∷ w)
        (has-first (directory disk build_dir k) w);
  curl_keeps = λ url path w. run-Keeps (curl_command url path) w;
  tar_keeps = λ archive dest w. run-Keeps (tar_command archive dest) w;
}
