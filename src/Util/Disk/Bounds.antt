-- ===== src/Util/Disk/Bounds.antt =====
-- pkg/util/disk.go: bounds of the sizes.
use harvester_installer.Prelude.{
  Bool-cases, Result, String, arith, err, fail_if, false, inl, inr, ltb, ok, refl, true, ℕ, ◌+◌,
  ◌<◌, ◌>>=◌, ◌>>◌, ◌^◌, ◌≡◌, ◌≤◌,
}
use harvester_installer.Util.Disk.{
  DiskError, disk_too_small, fit_partition, fixed_occupied_size, min_disk_size, min_persistent_size,
  parse_partition_bytes, parse_partition_size, sub64,
}

module _ (disk : ℕ) where
  pub fit_partition_bounds :
      (parsed : ℕ) {size : ℕ}
      → min_disk_size ≤ disk
      → disk < 2 ^ 64
      → fit_partition disk false parsed ≡ ok size
      → (min_persistent_size ≤ size) × (size + fixed_occupied_size ≤ disk)
  unfolding fit_partition
  fit_partition_bounds parsed enough small e = ground arith

  -- With `skip_checks` the size is cut down to what is left.
  pub fit_partition_skip :
      (parsed : ℕ)
      → fixed_occupied_size ≤ disk
      → disk < 2 ^ 64
      → (size : ℕ) × (fit_partition disk true parsed ≡ ok size)
        × (size ≤ parsed)
        × (size + fixed_occupied_size ≤ disk)
        × (parsed + fixed_occupied_size ≤ disk → size ≡ parsed)
  unfolding fit_partition
  fit_partition_skip parsed enough small =
      elim (Bool-cases (ltb (sub64 disk fixed_occupied_size) parsed)) [
        | inl over ↦
            (sub64 disk fixed_occupied_size, rw over, ground arith, ground arith, ground arith)
        | inr fits ↦ (parsed, rw fits, ground arith, ground arith, λ _. refl)
      ]

  -- The same behind the first test and the parse.
  sized_bounds :
      (parsed : Result DiskError ℕ) {size : ℕ}
      → disk < 2 ^ 64
      → (fail_if (ltb disk min_disk_size) (disk_too_small 250)
          >> (parsed >>= fit_partition disk false))
        ≡ ok size
      → (min_disk_size ≤ disk) × (min_persistent_size ≤ size) × (size + fixed_occupied_size ≤ disk)
  sized_bounds (ok parsed) {size} small e =
      ground (arith, fit_partition_bounds parsed {size = size})
  sized_bounds (err _) {size} small e = ground arith

-- A size that `ParsePartitionSize` returns with the checks on, for a disk size below 2 ^ 64, comes
-- from a disk of 250 GiB at least, is 150 GiB at least, and leaves room on the disk for the other
-- partitions and 50 GiB of VM data.
pub parse_partition_size_bounds :
    (disk : ℕ) (text : String) {size : ℕ}
    → disk < 2 ^ 64
    → parse_partition_size disk text false ≡ ok size
    → (min_disk_size ≤ disk) × (min_persistent_size ≤ size) × (size + fixed_occupied_size ≤ disk)
unfolding parse_partition_size
parse_partition_size_bounds disk text h e = sized_bounds disk (parse_partition_bytes text) h e
