-- ===== src/Console/Validator/Storage.antt =====
-- pkg/console/validator.go: the disks that pass.
use harvester_installer.Prelude.{
  >>-passes, Among, Bool, Bool-cases, List, Result-cases, String, [], ap, arith, cond_iff, eq_iff,
  fail_if, fail_if-passes, false, if◌then◌else◌, inl, inr, ltb, not, ok, refl, seq_iff, true, ℕ,
  ◌/◌, ◌==◌, ◌^◌, ◌||◌, ◌↔◌, ◌∙◌, ◌∷◌, ◌≡◌, ◌≢◌, ◌≤◌, ◌⊎◌,
}
use harvester_installer.Config.Types.{HarvesterConfig, role_witness}
use harvester_installer.Util.Disk.{byte_to_gi}
use harvester_installer.Console.Disks.{DiskOptionsCache, WidgetOption, refresh}
use harvester_installer.Console.Validator.Fields.{force_mbr_on_large_disk, force_mbr_on_uefi}
use harvester_installer.Console.Validator.Machine.{
  Host, check_device, check_disk_sizes, check_force_mbr, disk_checks, disk_exceeds_mbr_limit,
  has_value, or_too_small, validate_data_disk_size, validate_disk_size, validate_size,
}
use harvester_installer.Console.Validator.Networks.{not_iff}
use harvester_installer.Console.Validator.Sizes.{HasSize, HasSizes, check_disk_sizes-HasSizes}

module _ (h : Host) where
  has_value_iff :
      (v : String) (os : List WidgetOption)
      → has_value h v os ≡ true ↔ ((o : WidgetOption) × Among o os × (v ≡ o.value))
  unfolding has_value
  has_value_iff v [] = (λ p. cc, λ p. absurd p.1)
  has_value_iff v (o ∷ os) = elim (Bool-cases (v == o.value)) [
    | inl e ↦ (λ p. (o, inl refl, (eq_iff v o.value).0 e), λ p. rw e refl)
    | inr e ↦
        let (to, back) = has_value_iff v os in
        (
          λ p. let r = to (rw e at p) in (r.0, inr r.1, r.2),
          λ p. elim p.1 [
            | inl same ↦
                absurd
                  (ground (arith, eq_iff v o.value, p.2 ∙ ap (λ (x : WidgetOption). x.value) same))
            | inr a ↦ rw e (back (p.0, a, p.2))
          ],
        )
  ]

  HasSize-passes :
      (limit : ℕ) (dev : String)
      → HasSize h dev limit
      → or_too_small h dev (validate_size h limit dev) ≡ ok tt
  unfolding validate_size byte_to_gi
  HasSize-passes limit dev (bytes, e, large) =
      let enough : ltb (bytes / 2 ^ 30) limit ≡ false = ground arith in rw (e, enough) refl

  -- The three cases of the sizes, for any role and any two disks.
  HasSizes-passes : (c : HarvesterConfig) → HasSizes h c → check_disk_sizes h c ≡ ok tt
  unfolding check_disk_sizes validate_disk_size validate_data_disk_size
  HasSizes-passes c s =
      let i = c.install in
      elim (Bool-cases (i.role == role_witness)) [
        | inl w ↦ rw w (HasSize-passes 180 i.device (s.witness ((eq_iff i.role role_witness).0 w)))
        | inr w ↦
            let other : i.role ≢ role_witness = ground (arith, eq_iff i.role role_witness) in
            elim (Bool-cases (i.data_disk == i.device || i.data_disk == "")) [
              | inl one ↦
                  let shares : (i.data_disk ≡ i.device) ⊎ (i.data_disk ≡ "") =
                    ground (arith, eq_iff i.data_disk i.device, eq_iff i.data_disk "") in
                  rw (w, one) (HasSize-passes 250 i.device (s.shared other shares))
              | inr two ↦
                  let apart : i.data_disk ≢ i.device =
                    ground (arith, eq_iff i.data_disk i.device) in
                  let given : i.data_disk ≢ "" = ground (arith, eq_iff i.data_disk "") in
                  let both = s.separate other apart given in
                  rw (w, two)
                    ((>>-passes (or_too_small h i.device (validate_size h 180 i.device))
                        (or_too_small h i.data_disk (validate_size h 50 i.data_disk))).1
                      (HasSize-passes 180 i.device both.0, HasSize-passes 50 i.data_disk both.1))
            ]
      ]

  -- What `checkDevice` asks: the installation disk, behind a symbolic link if it is one, is offered
  -- by lsblk, and unless checks are skipped the disks have the sizes of the role.
  pub record IsDevice (cache : DiskOptionsCache) (c : HarvesterConfig) : Type 0 where
    pub named : c.install.device ≢ ""
    pub is_link : Bool
    pub link_is : h.lstat c.install.device ≡ ok is_link
    pub target : String
    pub target_is :
        (if is_link then h.eval_symlinks c.install.device else ok c.install.device) ≡ ok target
    pub refreshed : DiskOptionsCache
    pub refreshed_is : refresh h.lsblk cache ≡ ok refreshed
    pub offered : (o : WidgetOption) × Among o refreshed.disk_options × (target ≡ o.value)
    pub sizes : c.install.skip_checks ≡ false → HasSizes h c

  check_device-IsDevice :
      (cache : DiskOptionsCache) (c : HarvesterConfig)
      → check_device h cache c ≡ ok tt
      → IsDevice cache c
  unfolding check_device check_disk_sizes
  check_device-IsDevice cache c p =
      let i = c.install in
      elim (Bool-cases (i.device == "")) [
        | inl n ↦ cc (rw n at p)
        | inr n ↦ elim (Result-cases (h.lstat i.device)) [
          | inl (x, l) ↦ cc (rw (n, l) at p)
          | inr (is_link, l) ↦
              elim (Result-cases (if is_link then h.eval_symlinks i.device else ok i.device)) [
                | inl (x, t) ↦ cc (rw (n, l, t) at p)
                | inr (target, t) ↦ elim (Result-cases (refresh h.lsblk cache)) [
                  | inl (x, r) ↦ cc (rw (n, l, t, r) at p)
                  | inr (refreshed, r) ↦
                      elim (Bool-cases (has_value h target refreshed.disk_options)) [
                        | inr v ↦ cc (rw (n, l, t, r, v) at p)
                        | inl v ↦
                            let q = rw (n, l, t, r, v) at p in
                            record {
                              named = ground (arith, eq_iff i.device "");
                              is_link = is_link;
                              link_is = l;
                              target = target;
                              target_is = t;
                              refreshed = refreshed;
                              refreshed_is = r;
                              offered = (has_value_iff target refreshed.disk_options).0 v;
                              sizes = λ checked. check_disk_sizes-HasSizes h c (rw checked at q);
                            }
                      ]
                ]
              ]
        ]
      ]

  IsDevice-passes :
      (cache : DiskOptionsCache) (c : HarvesterConfig)
      → IsDevice cache c
      → check_device h cache c ≡ ok tt
  unfolding check_device check_disk_sizes
  IsDevice-passes cache c s =
      let i = c.install in
      let n : (i.device == "") ≡ false = ground (arith, s.named, eq_iff i.device "") in
      let v = (has_value_iff s.target s.refreshed.disk_options).1 s.offered in
      rw (n, s.link_is, s.target_is, s.refreshed_is, v)
        (elim (Bool-cases i.skip_checks) [
          | inl skipped ↦ rw skipped refl
          | inr checked ↦ rw checked (HasSizes-passes c (s.sizes checked))
        ])

  -- MBR partitions are for a disk that MBR can address, on a machine without UEFI.
  abbrev pub IsMbr : String → Type 0
  IsMbr dev =
      ((size : ℕ) × (h.lsblk_size dev ≡ ok size) × (size ≤ 2199023255040)) × (h.efi_missing ≡ true)

  check_force_mbr_iff : (dev : String) → check_force_mbr h dev ≡ ok tt ↔ IsMbr dev
  unfolding check_force_mbr disk_exceeds_mbr_limit
  check_force_mbr_iff dev = (
    λ p. elim (Result-cases (h.lsblk_size dev)) [
      | inl (x, e) ↦ cc (rw e at p)
      | inr (size, e) ↦
          let (large, efi) =
            (>>-passes (fail_if (ltb 2199023255040 size) (force_mbr_on_large_disk dev))
                (fail_if (not h.efi_missing) force_mbr_on_uefi)).0
              (rw e at p) in
          let small = (fail_if-passes (ltb 2199023255040 size) _).0 large in
          (
            (size, e, ground arith),
            (not_iff h.efi_missing).0 ((fail_if-passes (not h.efi_missing) _).0 efi),
          )
    ],
    λ s.
        let small : ltb 2199023255040 s.0.0 ≡ false = ground (arith, s.0.2) in
        rw (s.0.1, small, s.1) refl,
  )

  -- What is asked of the disks.
  pub record AreDisks (cache : DiskOptionsCache) (c : HarvesterConfig) : Type 0 where
    pub device_is : IsDevice cache c
    pub mbr_is : c.install.force_mbr ≡ true → IsMbr c.install.device

  pub disk_checks_iff :
      (cache : DiskOptionsCache) (c : HarvesterConfig)
      → disk_checks h cache c ≡ ok tt ↔ AreDisks cache c
  unfolding disk_checks
  disk_checks_iff cache c =
      let (to, back) =
        seq_iff (check_device-IsDevice cache c, IsDevice-passes cache c)
          (cond_iff c.install.force_mbr (check_force_mbr_iff c.install.device)) in
      (λ p. record { device_is = (to p).0; mbr_is = (to p).1 }, λ s. back (s.device_is, s.mbr_is))
