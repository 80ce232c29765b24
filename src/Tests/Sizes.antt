-- ===== src/Tests/Sizes.antt =====
-- Runs of the model of pkg/util/disk.go and of the layouts of pkg/config/cos.go.
use harvester_installer.Prelude.{
  Result, String, [], arith, codes, err, false, none, ok, refl, some, ℕ, ◌*◌, ◌+◌, ◌^◌, ◌∷◌, ◌≡◌,
  ◌≤◌,
}
use harvester_installer.Util.Disk.{
  bad_unit, byte_to_gi, byte_to_mi, fixed_occupied_size, gi_to_byte, parse_partition_codes,
  parse_partition_size, partition_too_large,
}
use harvester_installer.Util.Disk.Sizes.{
  IsSize, gi, parse_partition_codes-IsSize, parse_partition_codes-append,
}
use harvester_installer.Util.Disk.Bounds.{parse_partition_size_bounds}
use harvester_installer.Config.Layout.{
  ElementalConfig, calc_cos_persistent_part_size, create_root_partitioning_layout_shared_data_disk,
  default_partitions, new_elemental_config, partition, persistent_size_of,
}
use harvester_installer.Config.Layout.Fits.{
  FitsOnDisk, create_root_partitioning_layout_shared_data_disk-FitsOnDisk,
}
use harvester_installer.Tests.{first_node}

smallest_size : parse_partition_size (300 * 2 ^ 30) "150Gi" false ≡ ok (150 * 2 ^ 30)
unfolding parse_partition_size
smallest_size = refl

too_large_size :
    parse_partition_size (2000 * 2 ^ 30) "1999Gi" false ≡ err (partition_too_large 1926)
unfolding parse_partition_size
too_large_size = refl

unknown_unit : parse_partition_size (2000 * 2 ^ 30) "1Ti" false ≡ err bad_unit
unfolding parse_partition_size
unknown_unit = refl

parse_partition_size_bounds_example :
    (250 * 2 ^ 30 ≤ 300 * 2 ^ 30)
    × (150 * 2 ^ 30 ≤ 150 * 2 ^ 30)
    × (150 * 2 ^ 30 + fixed_occupied_size ≤ 300 * 2 ^ 30)
parse_partition_size_bounds_example =
    parse_partition_size_bounds (300 * 2 ^ 30) "150Gi" (omega arith) smallest_size

-- 17179869384 is 2 ^ 34 + 200.
parse_partition_codes-append_example :
    parse_partition_codes (codes "17179869384Gi") ≡ ok (200 * 2 ^ 30)
parse_partition_codes-append_example =
    parse_partition_codes-append b'1'
      (b'7' ∷ b'1' ∷ b'7' ∷ b'9' ∷ b'8' ∷ b'6' ∷ b'9' ∷ b'3' ∷ b'8' ∷ b'4' ∷ []) gi
      (refl, (refl, (refl, (refl, (refl, (refl, (refl, (refl, (refl, (refl, (refl, tt)))))))))))

size_150 : parse_partition_codes (codes "150Gi") ≡ ok (150 * 2 ^ 30)
unfolding parse_partition_codes
size_150 = refl

parse_partition_codes-IsSize_example : IsSize (codes "150Gi") (150 * 2 ^ 30)
parse_partition_codes-IsSize_example = parse_partition_codes-IsSize (codes "150Gi") size_150

abbrev laid_out : ElementalConfig
laid_out = record {
  install = record {
    target = "";
    firmware = "";
    part_table = "";
    partitions = some (default_partitions 153600);
    extra_partitions = partition "HARV_LH_DEFAULT" 0 ∷ [];
    cloud_init = "";
    tty = "";
    system = none;
  };
}

abbrev disk_of_300_gi : String → Result String ℕ
disk_of_300_gi dev = ok (300 * 2 ^ 30)

layout_of_300_gi :
    create_root_partitioning_layout_shared_data_disk disk_of_300_gi new_elemental_config first_node
    ≡ ok laid_out
unfolding create_root_partitioning_layout_shared_data_disk calc_cos_persistent_part_size byte_to_gi
    byte_to_mi gi_to_byte new_elemental_config persistent_size_of parse_partition_size
layout_of_300_gi = refl

create_root_partitioning_layout_shared_data_disk-FitsOnDisk_example :
    FitsOnDisk (300 * 2 ^ 30) laid_out
create_root_partitioning_layout_shared_data_disk-FitsOnDisk_example =
    create_root_partitioning_layout_shared_data_disk-FitsOnDisk disk_of_300_gi new_elemental_config
      first_node (omega arith) refl refl layout_of_300_gi
