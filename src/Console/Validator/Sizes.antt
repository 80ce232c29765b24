-- ===== src/Console/Validator/Sizes.antt =====
-- pkg/console/validator.go: the sizes of the disks that `checkDevice` lets pass.
use harvester_installer.Prelude.{
  >>-passes, Bool, Result, String, arith, eq_iff, err, fail_if, false, if◌then◌else◌, map_err, not,
  ok, refl, ℕ, ◌*◌, ◌==◌, ◌>>=◌, ◌>>◌, ◌^◌, ◌≡◌, ◌≢◌, ◌≤◌, ◌⊎◌,
}
use harvester_installer.Config.Types.{HarvesterConfig, role_witness}
use harvester_installer.Util.Disk.{byte_to_gi}
use harvester_installer.Console.Disks.{DiskOptionsCache, refresh}
use harvester_installer.Console.Validator.Fields.{
  Check, ValidationError, device_not_found, device_not_specified, tool_failed,
}
use harvester_installer.Console.Validator.Machine.{
  Host, check_device, check_disk_sizes, has_value, or_too_small, validate_data_disk_size,
  validate_disk_size, validate_size,
}

module _ (h : Host) where
  -- The disk has `limit` GiB at least.
  abbrev pub HasSize : String → ℕ → Type 0
  HasSize dev limit =
      (bytes : ℕ) × (h.get_disk_size_bytes dev ≡ ok bytes) × (limit * 2 ^ 30 ≤ bytes)

  validate_size_sound :
      (limit : ℕ) (dev : String) (bytes : Result String ℕ)
      → h.get_disk_size_bytes dev ≡ bytes
      → validate_size h limit dev ≡ ok tt
      → HasSize dev limit
  unfolding validate_size byte_to_gi
  validate_size_sound limit dev (ok bytes) e p = (bytes, e, ground arith)
  validate_size_sound limit dev (err _) e p = cc (rw e at p)

  or_too_small_sound : (dev : String) (c : Check) → or_too_small h dev c ≡ ok tt → c ≡ ok tt
  or_too_small_sound dev (ok tt) p = refl
  or_too_small_sound dev (err _) p = cc

  sized :
      (limit : ℕ) (dev : String)
      → or_too_small h dev (validate_size h limit dev) ≡ ok tt
      → HasSize dev limit
  sized limit dev p = validate_size_sound limit dev _ refl (or_too_small_sound dev _ p)

  -- What the sizes must be for the role and the disks of a configuration.
  pub record HasSizes (c : HarvesterConfig) : Type 0 where
    pub witness : c.install.role ≡ role_witness → HasSize c.install.device 180
    pub shared :
        c.install.role ≢ role_witness
        → (c.install.data_disk ≡ c.install.device) ⊎ (c.install.data_disk ≡ "")
        → HasSize c.install.device 250
    pub separate :
        c.install.role ≢ role_witness
        → c.install.data_disk ≢ c.install.device
        → c.install.data_disk ≢ ""
        → HasSize c.install.device 180 × HasSize c.install.data_disk 50

  pub check_disk_sizes-HasSizes : (c : HarvesterConfig) → check_disk_sizes h c ≡ ok tt → HasSizes c
  unfolding check_disk_sizes validate_disk_size validate_data_disk_size
  check_disk_sizes-HasSizes c p = record {
    witness = λ w. sized 180 c.install.device (ground (arith, eq_iff c.install.role role_witness));
    shared = λ r s. sized 250 c.install.device (
        ground (
          arith,
          eq_iff c.install.role role_witness,
          eq_iff c.install.data_disk c.install.device,
          eq_iff c.install.data_disk "",
        ));
    separate = λ r s n.
        let (disk, second) =
          (>>-passes (or_too_small h c.install.device (validate_size h 180 c.install.device))
              (or_too_small h c.install.data_disk (validate_size h 50 c.install.data_disk))).0
            (ground (
              arith,
              eq_iff c.install.role role_witness,
              eq_iff c.install.data_disk c.install.device,
              eq_iff c.install.data_disk "",
            )) in
        (sized 180 c.install.device disk, sized 50 c.install.data_disk second);
  }

  -- The steps of `checkDevice`, for any answers of the tools.
  device_steps :
      (c : HarvesterConfig) (link : Result ValidationError Bool)
      (target : Bool → Result ValidationError String)
      (refreshed : Result ValidationError DiskOptionsCache)
      → (do
        fail_if (c.install.device == "") device_not_specified
        is_link ← link
        t ← target is_link
        r ← refreshed
        fail_if (not (has_value h t r.disk_options)) (device_not_found c.install.device)
        if c.install.skip_checks then ok tt else check_disk_sizes h c)
        ≡ ok tt
      → (c.install.device ≢ "") × (c.install.skip_checks ≡ false → check_disk_sizes h c ≡ ok tt)
  device_steps c (err _) target refreshed p = ground (arith, eq_iff c.install.device "")
  device_steps c (ok is_link) target refreshed p = go (target is_link) refreshed p
    where
      go :
          (target : Result ValidationError String)
          (refreshed : Result ValidationError DiskOptionsCache)
          → (do
            fail_if (c.install.device == "") device_not_specified
            t ← target
            r ← refreshed
            fail_if (not (has_value h t r.disk_options)) (device_not_found c.install.device)
            if c.install.skip_checks then ok tt else check_disk_sizes h c)
            ≡ ok tt
          → (c.install.device ≢ "") × (c.install.skip_checks ≡ false → check_disk_sizes h c ≡ ok tt)
      go (err _) refreshed p = ground (arith, eq_iff c.install.device "")
      go (ok t) (err _) p = ground (arith, eq_iff c.install.device "")
      go (ok t) (ok r) p = ground (arith, eq_iff c.install.device "")

  -- Where the checks are not skipped, a device that passes is named, its size is read, and is 180
  -- GiB at least on a witness node, 250 GiB where VM data shares the disk, and else 180 GiB with a
  -- data disk of 50 GiB.
  pub check_device-HasSizes :
      (cache : DiskOptionsCache) (c : HarvesterConfig)
      → c.install.skip_checks ≡ false
      → check_device h cache c ≡ ok tt
      → (c.install.device ≢ "") × HasSizes c
  unfolding check_device
  check_device-HasSizes cache c checked p =
      let (named, sizes) =
        device_steps c (map_err tool_failed (h.lstat c.install.device))
          (λ is_link.
            map_err tool_failed
              (if is_link then h.eval_symlinks c.install.device else ok c.install.device))
          (map_err tool_failed (refresh h.lsblk cache)) p in
      (named, check_disk_sizes-HasSizes c (sizes checked))
