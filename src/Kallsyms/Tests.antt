-- ===== src/Kallsyms/Tests.antt =====
-- Two lines of /proc/kallsyms, the second one of a module.
use conntracct.Prelude.{
  ℕ, ◌≡◌, refl, Bool, true, [], ◌∷◌, none, some, ok, inr, All, not, ◌&&◌, ◌==◌, arith,
}
use conntracct.Text.{Text, codes, Free}
use conntracct.Kallsyms.{refresh}
use conntracct.Kallsyms.Parse.{Line, IsLine, IsColumn, format, refresh-format}

abbrev start_kernel : Line
start_kernel = record {
  address = codes "ffffffff8202a000";
  kind = codes "T";
  name = codes "start_kernel";
  in_module = none;
}

abbrev nf_ct_delete : Line
nf_ct_delete = record {
  address = codes "ffffffffc0a0";
  kind = codes "t";
  name = codes "nf_ct_delete";
  in_module = some (codes "[nf_conntrack]");
}

is_free : ℕ → Text → Bool
is_free c [] = true
is_free c (x ∷ s) = not (x == c) && is_free c s

is_free-Free : (c : ℕ) (s : Text) → is_free c s ≡ true → Free c s
unfolding is_free
is_free-Free c [] h = tt
is_free-Free c (x ∷ s) h = (ground (arith, h), is_free-Free c s (ground (arith, h)))

is_free-IsColumn :
    (t : Text) → is_free 32 t ≡ true → is_free 9 t ≡ true → is_free 10 t ≡ true → IsColumn t
is_free-IsColumn t a b c = (is_free-Free 32 t a, is_free-Free 9 t b, is_free-Free 10 t c)

both-IsLine : All IsLine (start_kernel ∷ nf_ct_delete ∷ [])
unfolding is_free
both-IsLine = (
  record {
    address = is_free-IsColumn start_kernel.address refl refl refl;
    kind = is_free-IsColumn start_kernel.kind refl refl refl;
    name = is_free-IsColumn start_kernel.name refl refl refl;
    in_module = tt;
  },
  (
    record {
      address = is_free-IsColumn nf_ct_delete.address refl refl refl;
      kind = is_free-IsColumn nf_ct_delete.kind refl refl refl;
      name = is_free-IsColumn nf_ct_delete.name refl refl refl;
      in_module = is_free-IsColumn (codes "[nf_conntrack]") refl refl refl;
    },
    tt,
  ),
)

refresh-format_example :
    refresh (inr (format (start_kernel ∷ nf_ct_delete ∷ []))) []
    ≡ ok (codes "start_kernel" ∷ codes "nf_ct_delete" ∷ [], none)
refresh-format_example = refresh-format start_kernel (nf_ct_delete ∷ []) [] both-IsLine
