-- ===== src/Config/Layout.antt =====
-- The partition layouts of pkg/config/cos.go. The tools that look at a disk are parameters:
-- `eval_symlinks` for filepath.EvalSymlinks and `get_disk_size_bytes` for lsblk.
pub mod Fits
use harvester_installer.Prelude.{
  Bool, List, Option, Result, String, [], if◌then◌else◌, map_err, none, not, ok, some, ℕ, ◌==◌,
  ◌>>=◌, ◌>>◌, ◌∷◌,
}
use harvester_installer.Config.Types.{
  HarvesterConfig, default_cos_oem_size_mib, default_cos_recovery_size_mib,
  default_cos_state_size_mib,
}
use harvester_installer.Util.Disk.{
  DiskError, byte_to_gi, byte_to_mi, gi_to_byte, parse_partition_size,
}

pub record ElementalSystem : Type 0 where
  pub label : String
  pub size : ℕ
  pub fs : String
  pub uri : String

pub record ElementalPartition : Type 0 where
  pub filesystem_label : String
  pub size : ℕ
  pub fs : String

pub record ElementalDefaultPartition : Type 0 where
  pub oem : Option ElementalPartition
  pub state : Option ElementalPartition
  pub recovery : Option ElementalPartition
  pub persistent : Option ElementalPartition

pub record ElementalInstallSpec : Type 0 where
  pub target : String
  pub firmware : String
  pub part_table : String
  pub partitions : Option ElementalDefaultPartition
  pub extra_partitions : List ElementalPartition
  pub cloud_init : String
  pub tty : String
  pub system : Option ElementalSystem

pub record ElementalConfig : Type 0 where
  pub install : ElementalInstallSpec

abbrev pub default_system_image_size : ℕ
default_system_image_size = 3072

unfoldable pub new_elemental_config : ElementalConfig
new_elemental_config = record {
  install = record {
    target = "";
    firmware = "";
    part_table = "";
    partitions = none;
    extra_partitions = [];
    cloud_init = "";
    tty = "";
    system = none;
  };
}

-- The error of a tool, or of the size that was asked for.
pub data LayoutError : Type 0 where
  tool_failed : String → LayoutError
  bad_size : DiskError → LayoutError

unfoldable pub convert_to_elemental_config :
    (String → Result String String) → HarvesterConfig → Result LayoutError ElementalConfig
unfolding new_elemental_config
convert_to_elemental_config eval_symlinks c = do
  target ← map_err tool_failed (eval_symlinks c.install.device)
  let spec = new_elemental_config.install
  ok (record {
    install = record spec {
      firmware = (if c.install.force_efi then "efi" else "");
      part_table = (if not c.install.force_gpt then "msdos" else "gpt");
      target = target;
      cloud_init = c.install.config_url;
      tty = c.install.tty;
      system = some (record { label = ""; size = default_system_image_size; fs = ""; uri = "" });
    };
  })

abbrev pub partition : String → ℕ → ElementalPartition
partition label size = record { filesystem_label = label; size = size; fs = "ext4" }

unfoldable pub default_partitions : ℕ → ElementalDefaultPartition
default_partitions persistent_size = record {
  oem = some (partition "COS_OEM" default_cos_oem_size_mib);
  state = some (partition "COS_STATE" default_cos_state_size_mib);
  recovery = some (partition "COS_RECOVERY" default_cos_recovery_size_mib);
  persistent = some (partition "COS_PERSISTENT" persistent_size);
}

unfoldable pub create_root_partitioning_layout_separate_data_disk :
    ElementalConfig → ElementalConfig
create_root_partitioning_layout_separate_data_disk e =
    let spec = e.install in
    record { install = record spec { partitions = some (default_partitions 0) } }

unfoldable pub calc_cos_persistent_part_size : ℕ → String → Bool → Result DiskError ℕ
calc_cos_persistent_part_size disk_size_gib part_size skip_checks = do
  size ← parse_partition_size (gi_to_byte disk_size_gib) part_size skip_checks
  ok (byte_to_mi size)

-- `fmt.Sprintf("%dGi", PersistentSizeMinGiB)` where no size is given.
unfoldable pub persistent_size_of : HarvesterConfig → String
persistent_size_of c =
    if c.install.persistent_partition_size == ""
    then "150Gi"
    else c.install.persistent_partition_size

unfoldable pub create_root_partitioning_layout_shared_data_disk :
    (String → Result String ℕ)
    → ElementalConfig
    → HarvesterConfig
    → Result LayoutError ElementalConfig
create_root_partitioning_layout_shared_data_disk get_disk_size_bytes e c = do
  disk_size_bytes ← map_err tool_failed (get_disk_size_bytes c.install.device)
  cos_persistent_size_mib ← map_err bad_size (
      calc_cos_persistent_part_size (byte_to_gi disk_size_bytes) (persistent_size_of c)
        c.install.skip_checks)
  let spec = e.install
  ok (record {
    install = record spec {
      partitions = some (default_partitions cos_persistent_size_mib);
      extra_partitions = partition "HARV_LH_DEFAULT" 0 ∷ [];
    };
  })
