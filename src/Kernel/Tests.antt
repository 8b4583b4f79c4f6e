-- ===== src/Kernel/Tests.antt =====
-- The fetching of one kernel to a disk.
use conntracct.Prelude.{◌≡◌, refl, [], none}
use conntracct.Text.{codes, text_eq, split, trim_right}
use conntracct.Kernel.{
  Kernel, archive_path, directory, name, fetch, curl, unarchive, trim_ext, base, archive_name,
  trim_end,
}
use conntracct.Kernel.Table.{mark_nft_nat, acct_v1, build_dir}
use conntracct.Kernel.Disk.{disk, IsMade, disk-Behaves}
use conntracct.Kernel.Fetched.{IsThere, fetch_once}

abbrev linux : Kernel
linux = record {
  version = codes "4.9.142";
  url = codes "https://cdn.kernel.org/pub/linux/kernel/v4.x/linux-4.9.142.tar.xz";
  params = mark_nft_nat;
  probes = acct_v1;
}

fetch-linux : (fetch disk build_dir linux []).1 ≡ none
unfolding fetch curl unarchive name archive_name trim_ext trim_end base trim_right split text_eq
fetch-linux = refl

name_linux : name linux ≡ codes "linux-4.9.142"
unfolding name archive_name trim_ext trim_end base trim_right split text_eq
name_linux = refl

fetch_once_example :
    IsMade build_dir (fetch disk build_dir linux []).0
    × IsThere disk (archive_path disk build_dir linux) (fetch disk build_dir linux []).0
    × IsThere disk (directory disk build_dir linux) (fetch disk build_dir linux []).0
    × (fetch disk build_dir linux (fetch disk build_dir linux []).0
        ≡ ((fetch disk build_dir linux []).0, none))
fetch_once_example = fetch_once disk build_dir linux IsMade (disk-Behaves linux) [] fetch-linux
