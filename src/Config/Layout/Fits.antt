-- ===== src/Config/Layout/Fits.antt =====
-- pkg/config/cos.go: the partitions of the layout for a disk that VM data shares.
use harvester_installer.Prelude.{
  Result, String, [], arith, err, false, ok, refl, some, ℕ, ◌*◌, ◌+◌, ◌<◌, ◌>>=◌, ◌^◌, ◌∷◌, ◌≡◌,
  ◌≤◌,
}
use harvester_installer.Config.Types.{
  HarvesterConfig, default_cos_oem_size_mib, default_cos_recovery_size_mib,
  default_cos_state_size_mib,
}
use harvester_installer.Config.Layout.{
  ElementalConfig, calc_cos_persistent_part_size, create_root_partitioning_layout_shared_data_disk,
  default_partitions, partition, persistent_size_of,
}
use harvester_installer.Util.Disk.{
  DiskError, byte_to_gi, byte_to_mi, fixed_occupied_size, gi_to_byte, min_disk_size,
  min_persistent_size, parse_partition_size,
}
use harvester_installer.Util.Disk.Bounds.{parse_partition_size_bounds}

-- All fixed partitions, with the ESP and 50 GiB for VM data, in MiB.
abbrev pub fixed_mib : ℕ
fixed_mib =
    default_cos_oem_size_mib + default_cos_state_size_mib + default_cos_recovery_size_mib + 64
    + 51200

byte_to_mi_bounds :
    (disk size : ℕ)
    → (min_disk_size ≤ disk) × (min_persistent_size ≤ size) × (size + fixed_occupied_size ≤ disk)
    → (153600 ≤ byte_to_mi size) × ((byte_to_mi size + fixed_mib) * 2 ^ 20 ≤ disk)
unfolding byte_to_mi
byte_to_mi_bounds disk size h = omega arith

calc_bounds :
    (bytes : ℕ) (text : String) {mib : ℕ} (parsed : Result DiskError ℕ)
    → bytes < 2 ^ 64
    → parse_partition_size (gi_to_byte (byte_to_gi bytes)) text false ≡ parsed
    → (parsed >>= λ size. ok (byte_to_mi size)) ≡ ok mib
    → (153600 ≤ mib) × ((mib + fixed_mib) * 2 ^ 20 ≤ bytes)
unfolding gi_to_byte byte_to_gi
calc_bounds bytes text {mib} (ok size) small e h =
    let bounds = parse_partition_size_bounds (gi_to_byte (byte_to_gi bytes)) text (omega arith) e in
    let (low, high) = byte_to_mi_bounds _ size bounds in ground (arith, low, high)
calc_bounds bytes text (err _) small e h = cc

calc_cos_persistent_part_size_bounds :
    (bytes : ℕ) (text : String) {mib : ℕ}
    → bytes < 2 ^ 64
    → calc_cos_persistent_part_size (byte_to_gi bytes) text false ≡ ok mib
    → (153600 ≤ mib) × ((mib + fixed_mib) * 2 ^ 20 ≤ bytes)
unfolding calc_cos_persistent_part_size
calc_cos_persistent_part_size_bounds bytes text small h = calc_bounds bytes text _ small refl h

-- The layout `e` of an installation on a disk of `bytes` bytes that VM data shares.
pub record FitsOnDisk (bytes : ℕ) (e : ElementalConfig) : Type 0 where
  pub persistent_mib : ℕ
  pub partitions_are : e.install.partitions ≡ some (default_partitions persistent_mib)
  pub extra_are : e.install.extra_partitions ≡ partition "HARV_LH_DEFAULT" 0 ∷ []
  pub persistent_low : 153600 ≤ persistent_mib
  pub fits : (persistent_mib + fixed_mib) * 2 ^ 20 ≤ bytes

module _ (get_disk_size_bytes : String → Result String ℕ) (e : ElementalConfig)
    (c : HarvesterConfig) where
  layout_of_size :
      {bytes : ℕ} {r : ElementalConfig} (sized : Result DiskError ℕ)
      → bytes < 2 ^ 64
      → get_disk_size_bytes c.install.device ≡ ok bytes
      → calc_cos_persistent_part_size
          (byte_to_gi bytes)
          (persistent_size_of c)
          c.install.skip_checks
        ≡ sized
      → c.install.skip_checks ≡ false
      → create_root_partitioning_layout_shared_data_disk get_disk_size_bytes e c ≡ ok r
      → FitsOnDisk bytes r
  unfolding create_root_partitioning_layout_shared_data_disk
  layout_of_size {bytes} {r} (ok mib) small disk size checks h =
      let h' = rw (disk, size) at h in
      let (low, high) =
        calc_cos_persistent_part_size_bounds bytes (persistent_size_of c) small
          (simp checks at size) in
      record {
        persistent_mib = mib;
        partitions_are = cc;
        extra_are = cc;
        persistent_low = low;
        fits = high;
      }
  layout_of_size (err _) small disk size checks h = cc (rw (disk, size) at h)

  -- With the checks on, and a disk size below 2 ^ 64, the layout for a disk that VM data shares has a
  -- persistent partition of 150 GiB at least, and its partitions fit on the disk, with 50 GiB left
  -- for VM data.
  pub create_root_partitioning_layout_shared_data_disk-FitsOnDisk :
      {bytes : ℕ} {r : ElementalConfig}
      → bytes < 2 ^ 64
      → get_disk_size_bytes c.install.device ≡ ok bytes
      → c.install.skip_checks ≡ false
      → create_root_partitioning_layout_shared_data_disk get_disk_size_bytes e c ≡ ok r
      → FitsOnDisk bytes r
  create_root_partitioning_layout_shared_data_disk-FitsOnDisk small disk checks h =
      layout_of_size _ small disk refl checks h
