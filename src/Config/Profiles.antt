-- ===== src/Config/Profiles.antt =====
-- The NetworkManager profiles of pkg/config/cos.go: saving, wiping and restoring them, and
-- `UpdateManagementInterfaceConfig`. `Effects` has the state and its effects.
pub mod Effects
pub mod Files
pub mod Returns
pub mod Wiped
pub mod Restored
pub mod Saved
pub mod RoundTrip
pub mod Written
pub mod Updated
use harvester_installer.Prelude.{
  Bool, List, Option, Result, String, [], concat_text, err, false, if◌then◌else◌, is_above,
  is_below, is_empty, join, none, not, ok, some, true, ◌&&◌, ◌==◌, ◌||◌, ◌∷◌,
}
use harvester_installer.Config.Types.{
  Dict, Network, NetworkInterface, network_method_dhcp, network_method_none, network_method_static,
}
use harvester_installer.Config.Profiles.Effects.{
  Faults, Io, command, glob, keep, mkdir_all, of_result, once, pure, read_file, remove,
  saved_configs, write_file, ◌>>=◌, ◌>>◌,
}

-- What the templates are given.
pub data TemplateData : Type 0 where
  bond_data : Network → TemplateData
  slave_data : NetworkInterface → TemplateData
  bridge_data : Network → String → TemplateData
  vlan_data : Network → String → TemplateData

-- `render` of the templates, the number of leading ones of a mask as text, and the faults of the
-- machine.
pub record Env : Type 0 where
  pub render : TemplateData → Result String String
  pub mask_to_cidr : String → String
  pub faults : Faults

-- `bondMgmt`: what is not named is left at its zero value.
unfoldable pub bond_of : Network → Network
bond_of n = record n {
  method = network_method_none;
  ip = "";
  subnet_mask = "";
  gateway = "";
  default_route = false;
}

unfoldable pub bond_options_of : Option Dict → Dict
bond_options_of none = ("mode", "active-backup") ∷ ("miimon", "100") ∷ []
bond_options_of (some options) = options

-- The default options where there are none.
unfoldable pub with_bond_options : Network → Network
unfolding bond_options_of
with_bond_options n = record n { bond_options = some (bond_options_of n.bond_options) }

unfoldable pub bond_path : String → String
bond_path config_path = concat_text config_path "/bond-mgmt.nmconnection"

unfoldable pub slave_path : String → NetworkInterface → String
slave_path config_path iface =
    concat_text config_path (concat_text "/bond-slave-" (concat_text iface.name ".nmconnection"))

unfoldable pub bridge_path : String → String
bridge_path config_path = concat_text config_path "/bridge-mgmt.nmconnection"

unfoldable pub vlan_path : String → String
vlan_path config_path = concat_text config_path "/vlan-mgmt.nmconnection"

module _ (env : Env) where
  unfoldable pub remove_all : List String → Io (Unit {0})
  remove_all [] = pure tt
  remove_all (path ∷ paths) = do remove env.faults path; remove_all paths

  unfoldable pub wipe_nm_connection_profiles : String → Io (Unit {0})
  wipe_nm_connection_profiles config_path = do paths ← glob config_path; remove_all paths

  unfoldable pub write_all : Dict → Io (Unit {0})
  write_all [] = pure tt
  write_all ((name, bytes) ∷ files) = do write_file env.faults name bytes; write_all files

  -- The body of `RestoreOriginalNetworkConfig`, on what was saved.
  unfoldable pub restore_saved : String → Dict → Io (Unit {0})
  restore_saved config_path [] = pure tt
  restore_saved config_path (f ∷ fs) = do
    wipe_nm_connection_profiles config_path
    write_all (f ∷ fs)

  unfoldable pub restore_original_network_config : String → Io (Unit {0})
  restore_original_network_config config_path = do
    original ← saved_configs
    restore_saved config_path original

  -- The loop of `save`: a file that cannot be read ends it.
  unfoldable pub read_all : List String → Io (Unit {0})
  read_all [] = pure tt
  read_all (path ∷ paths) = do bytes ← read_file env.faults path; keep path bytes; read_all paths

  -- `sync.Once`: the second call does nothing.
  unfoldable pub save_original_network_config : String → Io (Unit {0})
  save_original_network_config config_path = once (do paths ← glob config_path; read_all paths)

  -- `Name` is that of the loop over the slaves of the bond.
  unfoldable pub write_slaves : String → List NetworkInterface → Io (Unit {0})
  write_slaves config_path [] = pure tt
  write_slaves config_path (iface ∷ ifaces) = do
    nmcon ← of_result (env.render (slave_data iface))
    write_file env.faults (slave_path config_path iface) nmcon
    write_slaves config_path ifaces

  unfoldable pub update_bond : Network → String → Io (Unit {0})
  update_bond network config_path = do
    nmcon ← of_result (env.render (bond_data (with_bond_options network)))
    write_file env.faults (bond_path config_path) nmcon
    write_slaves config_path network.interfaces

-- `mgmtNetwork.VlanID >= 2 && mgmtNetwork.VlanID <= 4094`
unfoldable pub need_vlan_interface : Network → Bool
need_vlan_interface n = not (is_below n.vlan_id 2) && not (is_above n.vlan_id 4094)

unfoldable pub dns_text : List String → String
dns_text servers = if is_empty servers then "" else concat_text (join ";" servers) ";"

module _ (env : Env) where
  -- What the bridge is rendered from: with a VLAN interface it has no address of its own.
  unfoldable pub bridge_of : Network → List String → TemplateData
  bridge_of n dns_servers =
      let need_vlan = need_vlan_interface n in
      bridge_data
        (record n {
          default_route = not need_vlan;
          subnet_mask = env.mask_to_cidr n.subnet_mask;
          method = if need_vlan then network_method_none else n.method;
          bond_options = none;
        })
        (if not need_vlan && not (is_empty dns_servers) then dns_text dns_servers else "")

  unfoldable pub vlan_of : Network → List String → TemplateData
  vlan_of n dns_servers =
      vlan_data (record n { default_route = true; subnet_mask = env.mask_to_cidr n.subnet_mask })
        (dns_text dns_servers)

  unfoldable pub write_vlan : Bool → Network → List String → String → Io (Unit {0})
  write_vlan false n dns_servers config_path = pure tt
  write_vlan true n dns_servers config_path = do
    nmcon ← of_result (env.render (vlan_of n dns_servers))
    write_file env.faults (vlan_path config_path) nmcon

  unfoldable pub update_bridge : Network → List String → String → Io (Unit {0})
  update_bridge n dns_servers config_path = do
    nmcon ← of_result (env.render (bridge_of n dns_servers))
    write_file env.faults (bridge_path config_path) nmcon
    write_vlan (need_vlan_interface n) n dns_servers config_path

  -- Networking is turned off, the profiles are reloaded, and it is turned on again.
  unfoldable pub apply_commands : Bool → Io (Unit {0})
  apply_commands false = pure tt
  apply_commands true = do
    command env.faults "nmcli networking off"
    command env.faults "nmcli connection reload"
    command env.faults "nmcli networking on"
    command env.faults "nm-online -x"

  unfoldable pub check_mgmt : Network → Result String (Unit {0})
  check_mgmt n =
      if is_empty n.interfaces
      then err "no slave defined for management network bond"
      else if n.method == network_method_dhcp
          || (n.method == network_method_static || n.method == network_method_none)
      then ok tt
      else err (concat_text "unsupported network method " n.method)

  -- `apply_config` stands for `applyConfig && !testing.Testing()`.
  unfoldable pub update_management_interface_config :
      Network → List String → String → Bool → Io (Unit {0})
  update_management_interface_config n dns_servers config_path apply_config = do
    of_result (check_mgmt n)
    mkdir_all env.faults config_path
    wipe_nm_connection_profiles env config_path
    update_bond env (bond_of n) config_path
    update_bridge n dns_servers config_path
    apply_commands apply_config
