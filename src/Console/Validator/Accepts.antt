-- ===== src/Console/Validator/Accepts.antt =====
-- pkg/console/validator.go: the configurations that `validateConfig` accepts.
use harvester_installer.Prelude.{
  All, Among, Bool, String, [], arith, codes, cond_iff, discard, discard-passes, eq_iff, eqb,
  fail_iff, false, if◌then◌else◌, is_empty, is_empty_iff, map_err, not, ok, refl, seq_iff,
  slice_contains, slice_contains_iff, succeeds, true, ℕ, ◌==◌, ◌↔◌, ◌∷◌, ◌≡◌, ◌≢◌, ◌⊎◌,
}
use harvester_installer.Config.Types.{
  Dict, HarvesterConfig, current_scheme_version, mode_create, mode_install,
}
use harvester_installer.Config.Kubelet.{IsLabel, get_kubelet_args, get_kubelet_args-succeeds}
use harvester_installer.Config.Settings.{get_system_settings_allow_list}
use harvester_installer.Console.Disks.{DiskOptionsCache}
use harvester_installer.Console.Validator.{check_cluster, check_create, validate}
use harvester_installer.Console.Validator.Storage.{AreDisks, disk_checks_iff}
use harvester_installer.Console.Validator.Fields.{
  Check, bad_label, invalid_hw_addr, management_interface_not_found, registry_not_json,
  system_setting_unknown,
}
use harvester_installer.Console.Validator.Values.{IsPrintable, check_token_iff}
use harvester_installer.Console.Validator.Networks.{
  IsNetwork, check_ip_iff, check_networks_iff, not_iff,
}
use harvester_installer.Console.Validator.Machine.{
  Host, check_hw_addr, check_system_setting, check_system_settings, check_vip, check_vip_mode,
}

pub not_eq_iff : (s t : String) → not (s == t) ≡ true ↔ (s ≢ t)
not_eq_iff s t = (ground (arith, eq_iff s t), ground (arith, eq_iff s t))

scheme_iff : (v : ℕ) → not (eqb v current_scheme_version) ≡ false ↔ (v ≡ 1)
scheme_iff v = (λ p. ground arith, λ p. ground arith)

-- A conditional part, by what its condition says.
when_iff {ℓ μ} :
    {P : Type ℓ} {Q : Type μ} (b : Bool) {m : Check}
    → (b ≡ true ↔ Q)
    → (m ≡ ok tt ↔ P)
    → (if b then m else ok tt) ≡ ok tt ↔ (Q → P)
when_iff b q p = let (to, back) = cond_iff b p in (λ r c. to r (q.1 c), λ r. back (λ e. r (q.0 e)))

module _ (h : Host) where
  -- The VIP for its mode.
  pub record IsVip (vip hw_addr mode : String) : Type 0 where
    pub vip_is : h.is_ipv4 vip ≡ true
    pub mode_is : (mode ≡ "dhcp") ⊎ ((mode ≡ "static") ⊎ (mode ≡ "none"))
    pub hw_addr_is : mode ≡ "dhcp" → succeeds (h.interfaces.parse_mac hw_addr) ≡ true

  check_vip_mode_iff :
      (hw_addr mode : String)
      → check_vip_mode h hw_addr mode ≡ ok tt
        ↔ ((mode ≡ "dhcp") ⊎ ((mode ≡ "static") ⊎ (mode ≡ "none")))
          × (mode ≡ "dhcp" → succeeds (h.interfaces.parse_mac hw_addr) ≡ true)
  unfolding check_vip_mode check_hw_addr
  check_vip_mode_iff hw_addr mode =
      let (to, back) =
        discard-passes (λ _. invalid_hw_addr hw_addr) (h.interfaces.parse_mac hw_addr) in
      (
        ground (arith, to, eq_iff mode "dhcp", eq_iff mode "static", eq_iff mode "none"),
        ground (arith, back, eq_iff mode "dhcp", eq_iff mode "static", eq_iff mode "none"),
      )

  check_vip_iff :
      (vip hw_addr mode : String) → check_vip h vip hw_addr mode ≡ ok tt ↔ IsVip vip hw_addr mode
  unfolding check_vip
  check_vip_iff vip hw_addr mode =
      let (to, back) = seq_iff (check_ip_iff h vip) (check_vip_mode_iff hw_addr mode) in
      (
        λ p. let (a, (b, c)) = to p in record { vip_is = a; mode_is = b; hw_addr_is = c },
        λ s. back (s.vip_is, (s.mode_is, s.hw_addr_is)),
      )

  abbrev pub IsSetting : String × String → Type 0
  IsSetting s =
      Among s.0 get_system_settings_allow_list
      × (s.0 ≡ "containerd-registry" → h.is_registry_json s.1 ≡ true)

  IsSetting-iff :
      (s : String × String)
      → check_system_setting h get_system_settings_allow_list s ≡ ok tt ↔ IsSetting s
  unfolding check_system_setting
  IsSetting-iff s =
      let (to, back) =
        seq_iff
          (when_iff (s.0 == "containerd-registry") (eq_iff s.0 "containerd-registry") (
            fail_iff (not (h.is_registry_json s.1)) registry_not_json
              (not_iff (h.is_registry_json s.1))))
          (fail_iff (not (slice_contains get_system_settings_allow_list s.0))
            (system_setting_unknown s.0)
            (not_iff (slice_contains get_system_settings_allow_list s.0))) in
      let (listed, unlisted) = slice_contains_iff get_system_settings_allow_list s.0 in
      (λ p. let (a, b) = to p in (listed b, a), λ p. back (p.1, unlisted p.0))

  settings_iff :
      (settings : Dict)
      → check_system_settings h get_system_settings_allow_list settings ≡ ok tt
        ↔ All IsSetting settings
  unfolding check_system_settings
  settings_iff [] = (λ p. tt, λ p. refl)
  settings_iff (s ∷ settings) = seq_iff (IsSetting-iff s) (settings_iff settings)

  module _ (cache : DiskOptionsCache) where
    -- What `Validate` asks of a configuration.
    pub record IsAccepted (c : HarvesterConfig) : Type 0 where
      pub scheme : c.scheme_version ≡ 1
      pub hostname_is : h.is_dns1123_subdomain c.os.hostname ≡ true
      pub disks_are : AreDisks h cache c
      pub network_is :
          c.install.mode ≢ mode_install
          → IsNetwork h c.os.dns_nameservers c.install.management_interface
      pub token_is :
          c.install.mode ≢ mode_install → (codes c.token ≢ []) × All IsPrintable (codes c.token)
      pub vip_is :
          c.install.mode ≡ mode_create
          → IsVip c.install.vip c.install.vip_hw_addr c.install.vip_mode
      pub settings_are : c.install.mode ≡ mode_create → All IsSetting c.system_settings
      pub labels_are : All (IsLabel h.label_rules) c.os.labels

    check_cluster_iff :
        (c : HarvesterConfig)
        → check_cluster h cache c ≡ ok tt
          ↔ IsNetwork h c.os.dns_nameservers c.install.management_interface
            × ((codes c.token ≢ []) × All IsPrintable (codes c.token))
    unfolding check_cluster
    check_cluster_iff c =
        let n = c.install.management_interface in
        let (to, back) =
          seq_iff
            (fail_iff (is_empty n.interfaces) management_interface_not_found
              (is_empty_iff n.interfaces))
            (seq_iff (check_networks_iff h n c.os.dns_nameservers) (check_token_iff c.token)) in
        (λ p. (to p).1, λ p. back (p.0.has_interface, p))

    check_create_iff :
        (c : HarvesterConfig)
        → check_create h cache c ≡ ok tt
          ↔ IsVip c.install.vip c.install.vip_hw_addr c.install.vip_mode
            × All IsSetting c.system_settings
    unfolding check_create
    check_create_iff c =
        seq_iff (check_vip_iff c.install.vip c.install.vip_hw_addr c.install.vip_mode)
          (settings_iff c.system_settings)

    labels_iff :
        (c : HarvesterConfig)
        → discard (map_err bad_label (get_kubelet_args h.label_rules c)) ≡ ok tt
          ↔ All (IsLabel h.label_rules) c.os.labels
    labels_iff c =
        let (to, back) = discard-passes bad_label (get_kubelet_args h.label_rules c) in
        let (into, out) = get_kubelet_args-succeeds h.label_rules c in
        (λ p. into (to p), λ p. back (out p))

    -- `Validate` passes exactly when the scheme version is 1, the hostname is an RFC 1123 subdomain,
    -- and the labels are valid; the installation disk is named, it or what it links to is offered by
    -- lsblk, unless checks are skipped the disks have the sizes of the role, and MBR partitions are
    -- forced only on a disk up to 2199023255040 bytes of a machine without UEFI; outside mode
    -- `install` the management network is one that `checkNetworks` accepts and the token is
    -- printable; and in mode `create` the VIP fits its mode and every system setting is in the allow
    -- list, the registry setting being JSON.
    pub validate_iff : (c : HarvesterConfig) → validate h cache c ≡ ok tt ↔ IsAccepted c
    unfolding validate
    validate_iff c =
        let (to, back) =
          seq_iff
            (fail_iff (not (eqb c.scheme_version current_scheme_version)) _
              (scheme_iff c.scheme_version))
            (seq_iff
              (fail_iff (not (h.is_dns1123_subdomain c.os.hostname)) _
                (not_iff (h.is_dns1123_subdomain c.os.hostname)))
              (seq_iff (disk_checks_iff h cache c) (
                seq_iff
                  (when_iff (not (c.install.mode == mode_install))
                    (not_eq_iff c.install.mode mode_install) (check_cluster_iff c))
                  (seq_iff
                    (when_iff (c.install.mode == mode_create) (eq_iff c.install.mode mode_create)
                      (check_create_iff c))
                    (labels_iff c))))) in
        (
          λ p.
              let (a, (b, (d, (e, (f, g))))) = to p in
              record {
                scheme = a;
                hostname_is = b;
                disks_are = d;
                network_is = λ m. (e m).0;
                token_is = λ m. (e m).1;
                vip_is = λ m. (f m).0;
                settings_are = λ m. (f m).1;
                labels_are = g;
              },
          λ s. back (
            s.scheme,
            (
              s.hostname_is,
              (
                s.disks_are,
                (
                  λ m. (s.network_is m, s.token_is m),
                  (λ m. (s.vip_is m, s.settings_are m), s.labels_are),
                ),
              ),
            ),
          ),
        )
