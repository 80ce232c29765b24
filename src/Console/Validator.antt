-- ===== src/Console/Validator.antt =====
-- pkg/console/validator.go: `validateConfig` and the two halves of it. `Fields` has the checks of a
-- value alone, `Machine` those that ask the machine.
pub mod Fields
pub mod Machine
pub mod Values
pub mod Sizes
pub mod Storage
pub mod Networks
pub mod Accepts
pub mod Common
use harvester_installer.Prelude.{
  Bool, discard, eqb, err, fail_if, if◌then◌else◌, is_empty, map_err, not, ok, ◌&&◌, ◌==◌, ◌>>=◌,
  ◌>>◌, ◌||◌,
}
use harvester_installer.Config.Types.{
  HarvesterConfig, current_scheme_version, mode_create, mode_install, mode_join, mode_upgrade,
}
use harvester_installer.Config.Settings.{get_system_settings_allow_list}
use harvester_installer.Config.Kubelet.{get_kubelet_args}
use harvester_installer.Console.Disks.{DiskOptionsCache}
use Fields.{
  Check, mode_unknown, create_contains_server_url, join_without_server_url, iso_url_not_specified,
  token_not_specified, no_credentials, check_persistent_state_paths, unsupported_scheme_version,
  invalid_hostname, management_interface_not_found, check_token, bad_label,
}
use Machine.{Host, disk_checks, check_networks, check_vip, check_system_settings}

module _ (h : Host) (cache : DiskOptionsCache) where
  -- The part of `Validate` for `mode != install`, and that for `mode == create`.
  unfoldable pub check_cluster : HarvesterConfig → Check
  check_cluster c = do
    fail_if (is_empty c.install.management_interface.interfaces) management_interface_not_found
    check_networks h c.install.management_interface c.os.dns_nameservers
    check_token c.token

  unfoldable pub check_create : HarvesterConfig → Check
  check_create c = do
    check_vip h c.install.vip c.install.vip_hw_addr c.install.vip_mode
    check_system_settings h get_system_settings_allow_list c.system_settings

  -- `ConfigValidator.Validate`
  unfoldable pub validate : HarvesterConfig → Check
  validate c = do
    fail_if (not (eqb c.scheme_version current_scheme_version))
        (unsupported_scheme_version c.scheme_version)
    fail_if (not (h.is_dns1123_subdomain c.os.hostname)) invalid_hostname
    disk_checks h cache c
    if not (c.install.mode == mode_install) then check_cluster c else ok tt
    if c.install.mode == mode_create then check_create c else ok tt
    discard (map_err bad_label (get_kubelet_args h.label_rules c))

-- The rest of `commonCheck`, behind the modes.
unfoldable pub check_credentials : Bool → HarvesterConfig → Check
check_credentials already_installed c = do
  fail_if
      (not already_installed
        && (not (c.install.mode == mode_install)
            && (c.install.automatic && c.install.iso_url == "")))
      iso_url_not_specified
  fail_if (not (c.install.mode == mode_install) && c.token == "") token_not_specified
  fail_if (is_empty c.os.ssh_authorized_keys && c.os.password == "") no_credentials
  check_persistent_state_paths c.os.persistent_state_paths

-- `already_installed` is the variable of the package.
unfoldable pub common_check : Bool → HarvesterConfig → Check
common_check already_installed c =
    let mode = c.install.mode in
    if mode == mode_upgrade || mode == mode_install
    then ok tt
    else if mode == mode_create
    then fail_if (not (c.server_url == "")) create_contains_server_url
      >> check_credentials already_installed c
    else if mode == mode_join
    then fail_if (c.server_url == "") join_without_server_url
      >> check_credentials already_installed c
    else err (mode_unknown mode)

unfoldable pub validate_config : Host → DiskOptionsCache → Bool → HarvesterConfig → Check
validate_config h cache already_installed c = do
  common_check already_installed c
  validate h cache c
