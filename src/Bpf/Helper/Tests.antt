-- ===== src/Bpf/Helper/Tests.antt =====
-- A Fedora release, and two symbols of which one is looked up.
use mathlib.Core.List.{Mem}
use conntracct.Prelude.{◌≡◌, ◌↔◌, refl, [], ◌∷◌, ◌++◌, Option, none, some, ok, inr, All, arith}
use conntracct.Text.{codes, Free}
use conntracct.Kallsyms.Parse.{Line, IsLine, format}
use conntracct.Bpf.Helper.{HelperError, check_probe_ksyms, kernel_release}
use conntracct.Bpf.Helper.Symbols.{KProbe, IsKProbe, check_probe_ksyms-format}
use conntracct.Bpf.Helper.Release.{Release, IsRelease, release_text, kernel_release-version}

abbrev pub fedora : Release
fedora = record {
  major = codes "4";
  minor = codes "20";
  patch = some (codes "3");
  suffix = codes "-fc29";
}

pub fedora-IsRelease : IsRelease fedora
fedora-IsRelease = record {
  major = record { digits = (refl, tt); some_digit = refl; short = omega arith };
  minor = record { digits = (refl, (refl, tt)); some_digit = refl; short = omega arith };
  patch = record { digits = (refl, tt); some_digit = refl; short = omega arith };
  ends = refl;
  one_line = (refl, (refl, (refl, (refl, (refl, tt)))));
}

pub fedora-Free : Free 0 (release_text fedora)
fedora-Free =
    (refl, (refl, (refl, (refl, (refl, (refl, (refl, (refl, (refl, (refl, (refl, tt)))))))))))

kernel_release-version_example :
    kernel_release (codes "4.20.3-fc29" ++ (0 ∷ 7 ∷ [])) ≡ ok (inr (codes "4.20.3"))
kernel_release-version_example = kernel_release-version fedora (7 ∷ []) fedora-IsRelease fedora-Free

abbrev pub nf_free : Line
nf_free = record {
  address = codes "c0";
  kind = codes "t";
  name = codes "free";
  in_module = some (codes "nf");
}

pub nf_free-IsLine : IsLine nf_free
nf_free-IsLine = record {
  address = ((refl, (refl, tt)), (refl, (refl, tt)), (refl, (refl, tt)));
  kind = ((refl, tt), (refl, tt), (refl, tt));
  name = (
    (refl, (refl, (refl, (refl, tt)))),
    (refl, (refl, (refl, (refl, tt)))),
    (refl, (refl, (refl, (refl, tt)))),
  );
  in_module = ((refl, (refl, tt)), (refl, (refl, tt)), (refl, (refl, tt)));
}

abbrev pub on_free : KProbe
on_free = record { kind = codes "kprobe"; symbol = codes "free" }

abbrev on_exit : KProbe
on_exit = record { kind = codes "kprobe"; symbol = codes "exit" }

pub on_free-IsKProbe : IsKProbe on_free
on_free-IsKProbe = record {
  kind = (refl, (refl, (refl, (refl, (refl, (refl, tt))))));
  symbol = (refl, (refl, (refl, (refl, tt))));
}

both-IsKProbe : All IsKProbe (on_free ∷ on_exit ∷ [])
both-IsKProbe = (
  on_free-IsKProbe,
  (
    record {
      kind = (refl, (refl, (refl, (refl, (refl, (refl, tt))))));
      symbol = (refl, (refl, (refl, (refl, tt))));
    },
    tt,
  ),
)

check_probe_ksyms-format_example :
    (r : Option HelperError) × (check_probe_ksyms
        (inr (format (nf_free ∷ [])))
        []
        (codes "kprobe/free" ∷ codes "kprobe/exit" ∷ [])
      ≡ ok (codes "free" ∷ [], r))
    × ((r ≡ none) ↔ All (λ p. Mem p.symbol (codes "free" ∷ [])) (on_free ∷ on_exit ∷ []))
check_probe_ksyms-format_example =
    check_probe_ksyms-format nf_free [] [] (on_free ∷ on_exit ∷ []) (nf_free-IsLine, tt)
      both-IsKProbe
