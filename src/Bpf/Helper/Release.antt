-- ===== src/Bpf/Helper/Release.antt =====
-- `kernelRelease` on releases as distributions write them.
use mathlib.Core.List.{append-nil}
use conntracct.Prelude.{
  ℕ, zero, suc, ◌≤◌, ◌≡◌, refl, sym, ap, Bool, true, false, [], ◌∷◌, ◌++◌, Option, none, some, ok,
  ◌>>=◌, inl, inr, All, length, arith, ◌==◌, ◌&&◌, Bool-cases,
}
use conntracct.Text.{Text, Free}
use conntracct.Bpf.Helper.{
  until_nul, is_digit, take_digits, is_empty, dotted, one_line, captured, patch, minor,
  match_release, kernel_release,
}

-- One to three digits.
pub record IsNumber (d : Text) : Type 0 where
  pub digits : All (λ c. is_digit c ≡ true) d
  pub some_digit : is_empty d ≡ false
  pub short : length d ≤ 3

abbrev pub digit_first : Text → Bool
digit_first [] = false
digit_first (c ∷ s) = is_digit c

abbrev pub number_next : Text → Bool
number_next [] = false
number_next (c ∷ s) = c == b'.' && digit_first s

take_digits-append :
    (k : ℕ) (d r : Text)
    → All (λ c. is_digit c ≡ true) d
    → length d ≤ k
    → digit_first r ≡ false
    → take_digits k (d ++ r) ≡ (d, r)
unfolding take_digits
take_digits-append zero [] r h le f = refl
take_digits-append zero (c ∷ d) r h le f = absurd (omega (arith, le))
take_digits-append (suc k) [] [] h le f = refl
take_digits-append (suc k) [] (c ∷ r) h le f = rw f
take_digits-append (suc k) (c ∷ d) r h le f =
    rw (h.0, take_digits-append k d r h.1 (omega (arith, le)) f)

dotted-number :
    (d r : Text)
    → IsNumber d
    → digit_first r ≡ false
    → dotted (b'.' ∷ (d ++ r)) ≡ some (b'.' ∷ d, r)
unfolding dotted
dotted-number d r h f = rw (take_digits-append 3 d r h.digits h.short f) (rw h.some_digit)

take_digits-none : (k : ℕ) (r : Text) → digit_first r ≡ false → (take_digits k r).0 ≡ []
unfolding take_digits
take_digits-none zero r f = refl
take_digits-none (suc k) [] f = refl
take_digits-none (suc k) (c ∷ r) f = rw f

dotted-other : (r : Text) → number_next r ≡ false → dotted r ≡ none
unfolding dotted
dotted-other [] h = refl
dotted-other (c ∷ s) h = elim (Bool-cases (digit_first s)) [
  | inl t ↦ ground (arith, h, t)
  | inr f ↦ rw (take_digits-none 3 s f) (ground arith)
]

one_line-Free : (s : Text) → Free 10 s → one_line s ≡ true
unfolding one_line
one_line-Free [] h = refl
one_line-Free (c ∷ s) h = rw (h.0, one_line-Free s h.1)

until_nul-append : (s junk : Text) → Free 0 s → until_nul (s ++ (0 ∷ junk)) ≡ ok s
unfolding until_nul
until_nul-append [] junk h = refl
until_nul-append (c ∷ s) junk h = rw (h.0, until_nul-append s junk h.1)

-- A release: its numbers, the third one perhaps missing, and what a distribution adds.
pub record Release : Type 0 where
  pub major : Text
  pub minor : Text
  pub patch : Option Text
  pub suffix : Text

abbrev dot_patch : Option Text → Text
dot_patch none = []
dot_patch (some c) = b'.' ∷ c

abbrev pub version : Release → Text
version r = (r.major ++ (b'.' ∷ r.minor)) ++ dot_patch r.patch

abbrev pub release_text : Release → Text
release_text r = r.major ++ (b'.' ∷ (r.minor ++ (dot_patch r.patch ++ r.suffix)))

abbrev IsPatch : Option Text → Text → Type 0
IsPatch none suffix = number_next suffix ≡ false
IsPatch (some c) suffix = IsNumber c

-- The suffix does not go on with the version.
pub record IsRelease (r : Release) : Type 0 where
  pub major : IsNumber r.major
  pub minor : IsNumber r.minor
  pub patch : IsPatch r.patch r.suffix
  pub ends : digit_first r.suffix ≡ false
  pub one_line : Free 10 r.suffix

patch-captured :
    (v : Text) (p : Option Text) (suffix : Text)
    → IsPatch p suffix
    → digit_first suffix ≡ false
    → Free 10 suffix
    → patch v (dot_patch p ++ suffix) ≡ some (v ++ dot_patch p)
unfolding patch captured
patch-captured v none suffix h e l =
    rw (patch, dotted-other suffix h)
      (rw (captured, one_line-Free suffix l) (ap some (sym (append-nil v))))
patch-captured v (some c) suffix h e l =
    rw (patch, dotted-number c suffix h e) (rw (captured, one_line-Free suffix l))

dot_patch-first :
    (p : Option Text) (suffix : Text)
    → digit_first suffix ≡ false
    → digit_first (dot_patch p ++ suffix) ≡ false
dot_patch-first none suffix h = h
dot_patch-first (some c) suffix h = refl

match_release-version :
    (r : Release) → IsRelease r → match_release (release_text r) ≡ some (version r)
unfolding match_release minor
match_release-version r h =
    let tail = dot_patch r.patch ++ r.suffix in
    rw (take_digits-append 3 r.major (b'.' ∷ (r.minor ++ tail)) h.major.digits h.major.short refl) (
      rw h.major.some_digit (
        rw (minor, dotted-number r.minor tail h.minor (dot_patch-first r.patch r.suffix h.ends))
          (patch-captured (r.major ++ (b'.' ∷ r.minor)) r.patch r.suffix h.patch h.ends
            h.one_line)))

kernel_release-matched :
    (uname s v : Text)
    → until_nul uname ≡ ok s
    → match_release s ≡ some v
    → kernel_release uname ≡ ok (inr v)
unfolding kernel_release
kernel_release-matched uname s v h m = rw (kernel_release, h) (rw (◌>>=◌, m))

-- From a release that is two or three dotted numbers of one to three digits and a suffix that does
-- not go on with the version and holds no newline, `kernelRelease` returns just the numbers,
-- whatever stands behind the zero byte.
pub kernel_release-version :
    (r : Release) (junk : Text)
    → IsRelease r
    → Free 0 (release_text r)
    → kernel_release (release_text r ++ (0 ∷ junk)) ≡ ok (inr (version r))
kernel_release-version r junk h z =
    kernel_release-matched _ _ _ (until_nul-append (release_text r) junk z)
      (match_release-version r h)
