-- ===== src/Console/Validator/Machine.antt =====
-- pkg/console/validator.go, with the disk sizes of pkg/console/util.go: the checks that ask the
-- machine or another package.
use harvester_installer.Prelude.{
  Bool, List, Option, Result, String, [], check_all, discard, err, fail_if, false, if◌then◌else◌,
  is_above, is_below, is_empty, ltb, map_err, none, not, ok, slice_contains, some, true, ℕ, ◌&&◌,
  ◌==◌, ◌>>=◌, ◌>>◌, ◌||◌, ◌∷◌,
}
use harvester_installer.Config.Types.{
  Dict, HarvesterConfig, Network, NetworkInterface, hard_min_data_disk_size_gib,
  multiple_disk_min_size_gib, network_method_dhcp, network_method_none, network_method_static,
  role_witness, single_disk_min_size_gib,
}
use harvester_installer.Config.Interfaces.{
  HostInterface, Interfaces, by_name, find_network_interface_name,
}
use harvester_installer.Config.Kubelet.{LabelRules}
use harvester_installer.Util.Disk.{byte_to_gi}
use harvester_installer.Console.Disks.{Device, DiskOptionsCache, WidgetOption, refresh}
use harvester_installer.Console.Validator.Fields.{
  Check, ValidationError, check_mtu, check_static_required_string, device_not_found,
  device_not_specified, device_too_small, force_mbr_on_large_disk, force_mbr_on_uefi,
  interface_is_loop, interface_lookup, interface_not_found, interface_not_specified,
  interface_not_specified_for_mgmt, invalid_domain, invalid_hw_addr, invalid_ip,
  mgmt_invalid_method, mgmt_static_no_dns, network_method_unknown, registry_not_json,
  system_setting_unknown, tool_failed, vip_mode_unknown, vlan_out_of_range,
}

-- What the checks call. `lstat` tells whether a path is a symbolic link; `is_ipv4` stands for
-- `net.ParseIP(s)` with an IPv4 form; `lsblk` is the output of lsblk as JSON, and `lsblk_size` the
-- number that `lsblk -o SIZE` prints.
pub record Host : Type 0 where
  pub interfaces : Interfaces
  pub is_ipv4 : String → Bool
  pub is_dns1123_subdomain : String → Bool
  pub label_rules : LabelRules
  pub is_registry_json : String → Bool
  pub lstat : String → Result String Bool
  pub eval_symlinks : String → Result String String
  pub lsblk : Result String (List Device)
  pub get_disk_size_bytes : String → Result String ℕ
  pub lsblk_size : String → Result String ℕ
  pub efi_missing : Bool

module _ (h : Host) where
  check_flags : String → Option HostInterface → Check
  check_flags name none = err (interface_not_found name)
  check_flags name (some i) = fail_if i.loopback (interface_is_loop name)

  unfoldable pub check_interface : NetworkInterface → Check
  unfolding check_flags
  check_interface given = do
    iface ← map_err interface_lookup (find_network_interface_name h.interfaces given)
    fail_if (iface.name == "") interface_not_specified
    ifaces ← map_err tool_failed h.interfaces.list
    check_flags iface.name (by_name iface.name ifaces)

  -- The number of GiB asked for, and the error of the caller for any failure.
  unfoldable pub validate_size : ℕ → String → Check
  validate_size limit dev = do
    bytes ← map_err tool_failed (h.get_disk_size_bytes dev)
    fail_if (ltb (byte_to_gi bytes) limit) (device_too_small dev)

  unfoldable pub validate_disk_size : String → Bool → Check
  validate_disk_size dev single =
      validate_size (if single then single_disk_min_size_gib else multiple_disk_min_size_gib) dev

  unfoldable pub validate_data_disk_size : String → Check
  validate_data_disk_size dev = validate_size hard_min_data_disk_size_gib dev

  -- `if err := f(dev); err != nil { return prettyError(ErrMsgDeviceTooSmall, dev) }`
  abbrev pub or_too_small : String → Check → Check
  or_too_small dev c = map_err (λ _. device_too_small dev) c

  unfoldable pub check_disk_sizes : HarvesterConfig → Check
  check_disk_sizes c =
      let disk = c.install.device in
      let data_disk = c.install.data_disk in
      if c.install.role == role_witness
      then or_too_small disk (validate_disk_size disk false)
      else if data_disk == disk || data_disk == ""
      then or_too_small disk (validate_disk_size disk true)
      else or_too_small disk (validate_disk_size disk false)
        >> or_too_small data_disk (validate_data_disk_size data_disk)

  unfoldable pub has_value : String → List WidgetOption → Bool
  has_value v [] = false
  has_value v (o ∷ os) = v == o.value || has_value v os

  unfoldable pub check_device : DiskOptionsCache → HarvesterConfig → Check
  check_device cache c = do
    fail_if (c.install.device == "") device_not_specified
    is_link ← map_err tool_failed (h.lstat c.install.device)
    target ←
        map_err tool_failed
          (if is_link then h.eval_symlinks c.install.device else ok c.install.device)
    refreshed ← map_err tool_failed (refresh h.lsblk cache)
    fail_if (not (has_value target refreshed.disk_options)) (device_not_found c.install.device)
    if c.install.skip_checks then ok tt else check_disk_sizes c

  unfoldable pub check_domain : String → Check
  check_domain domain = fail_if (not (h.is_dns1123_subdomain domain)) (invalid_domain domain)

  unfoldable pub check_ip : String → Check
  check_ip addr = fail_if (not (h.is_ipv4 addr)) (invalid_ip addr)

  unfoldable pub check_hw_addr : String → Check
  check_hw_addr hw_addr =
      discard (map_err (λ _. invalid_hw_addr hw_addr) (h.interfaces.parse_mac hw_addr))

  unfoldable pub check_ip_list : List String → Check
  check_ip_list ips = check_all check_ip ips

  unfoldable pub check_static_network : Network → Check
  check_static_network n = do
    check_static_required_string "ip" n.ip
    check_ip n.ip
    check_static_required_string "subnetMask" n.subnet_mask
    check_ip n.subnet_mask
    check_static_required_string "gateway" n.gateway
    check_ip n.gateway
    check_mtu n.mtu

  unfoldable pub check_method : Network → String → Check
  check_method n method =
      if method == network_method_dhcp || (method == network_method_none || method == "")
      then ok tt
      else if method == network_method_static
      then check_static_network n
      else err (network_method_unknown method)

  unfoldable pub check_networks : Network → List String → Check
  check_networks n dns_servers = do
    fail_if (is_empty n.interfaces) interface_not_specified_for_mgmt
    fail_if (not (n.method == network_method_dhcp) && not (n.method == network_method_static))
        mgmt_invalid_method
    fail_if (n.method == network_method_static && is_empty dns_servers) mgmt_static_no_dns
    check_all check_interface n.interfaces
    fail_if (is_below n.vlan_id 0 || is_above n.vlan_id 4094) vlan_out_of_range
    check_method n n.method

  unfoldable pub check_vip_mode : String → String → Check
  check_vip_mode vip_hw_addr vip_mode =
      if vip_mode == network_method_dhcp
      then check_hw_addr vip_hw_addr
      else if vip_mode == network_method_static || vip_mode == network_method_none
      then ok tt
      else err (vip_mode_unknown vip_mode)

  unfoldable pub check_vip : String → String → String → Check
  check_vip vip vip_hw_addr vip_mode = do check_ip vip; check_vip_mode vip_hw_addr vip_mode

  unfoldable pub disk_exceeds_mbr_limit : String → Result ValidationError Bool
  disk_exceeds_mbr_limit dev = do
    size ← map_err tool_failed (h.lsblk_size dev)
    ok (ltb 2199023255040 size)

  unfoldable pub check_force_mbr : String → Check
  check_force_mbr dev = do
    too_large ← disk_exceeds_mbr_limit dev
    fail_if too_large (force_mbr_on_large_disk dev)
    fail_if (not h.efi_missing) force_mbr_on_uefi

  unfoldable pub disk_checks : DiskOptionsCache → HarvesterConfig → Check
  disk_checks cache c = do
    check_device cache c
    if c.install.force_mbr then check_force_mbr c.install.device else ok tt

  -- One round of the loop over the settings: the registry is read before the name is judged.
  unfoldable pub check_system_setting : List String → String × String → Check
  check_system_setting allow_list s = do
    if s.0 == "containerd-registry"
        then fail_if (not (h.is_registry_json s.1)) registry_not_json
        else ok tt
    fail_if (not (slice_contains allow_list s.0)) (system_setting_unknown s.0)

  unfoldable pub check_system_settings : List String → Dict → Check
  check_system_settings allow_list settings = check_all (check_system_setting allow_list) settings
