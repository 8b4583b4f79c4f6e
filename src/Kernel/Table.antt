-- ===== src/Kernel/Table.antt =====
-- pkg/kernel/builds.go and pkg/kernel/directory.go: the table of the kernels, and the directory
-- that they are built in.
use conntracct.Prelude.{List, [], ◌∷◌}
use conntracct.Text.{Text, codes}
use conntracct.Kernel.{Kernel, Params}

abbrev pub mark_nft_nat : Params
mark_nft_nat =
    (codes "CONFIG_NETFILTER", codes "y")
    ∷ (codes "CONFIG_NETFILTER_ADVANCED", codes "y")
    ∷ (codes "CONFIG_NF_CONNTRACK", codes "m")
    ∷ (codes "CONFIG_NF_CONNTRACK_MARK", codes "y")
    ∷ (codes "CONFIG_NF_CONNTRACK_EVENTS", codes "y")
    ∷ (codes "CONFIG_NF_CONNTRACK_TIMESTAMP", codes "y")
    ∷ (codes "CONFIG_NF_NAT", codes "m")
    ∷ (codes "CONFIG_NF_TABLES", codes "m")
    ∷ (codes "CONFIG_NFT_NAT", codes "m")
    ∷ []

abbrev pub acct_v1 : List Text
acct_v1 =
    codes "kprobe/nf_conntrack_free"
    ∷ codes "kretprobe/__nf_ct_refresh_acct"
    ∷ codes "kprobe/__nf_ct_refresh_acct"
    ∷ []

-- `Builds`, in one order of the map.
abbrev pub builds : List (Text × Kernel)
builds =
    (
      codes "4.9.142",
      record {
        version = codes "4.9.142";
        url = codes "https://cdn.kernel.org/pub/linux/kernel/v4.x/linux-4.9.142.tar.xz";
        params = mark_nft_nat;
        probes = acct_v1;
      },
    )
    ∷ (
      codes "4.14.85",
      record {
        version = codes "4.14.85";
        url = codes "https://cdn.kernel.org/pub/linux/kernel/v4.x/linux-4.14.85.tar.xz";
        params = mark_nft_nat;
        probes = acct_v1;
      },
    )
    ∷ (
      codes "4.17.9",
      record {
        version = codes "4.17.9";
        url = codes "https://cdn.kernel.org/pub/linux/kernel/v4.x/linux-4.17.9.tar.xz";
        params = mark_nft_nat;
        probes = acct_v1;
      },
    )
    ∷ []

-- The initial value of `buildDir`, `SetBuildDir` and `GetBuildDir`.
abbrev pub build_dir : Text
build_dir = codes "/tmp/conntracct/kernels"

abbrev pub set_build_dir : Text → Text → Text
set_build_dir p old = p

abbrev pub get_build_dir : Text → Text
get_build_dir dir = dir
