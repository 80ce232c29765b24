-- ===== src/Tests/Wizards.antt =====
-- Runs of the model of the page of the management network.
use harvester_installer.Prelude.{
  List, Result, String, [], concat_text, err, false, if◌then◌else◌, none, ok, pos, refl, some, true,
  ◌==◌, ◌∷◌, ◌≡◌,
}
use harvester_installer.Config.Types.{HarvesterConfig, Network}
use harvester_installer.Config.Profiles.Effects.{
  command, glob, is_profile, mkdir_all, of_result, once, profile_paths, pure, saved_configs, store,
  write_file, ◌>>=◌,
}
use harvester_installer.Console.Network.{
  apply_networks, get_hostname, logged, restore_hostname, set_hostname,
}
use harvester_installer.Config.Interfaces.{by_name, find_network_interface_hw_addr}
use harvester_installer.Console.Validator.Machine.{check_ip}
use harvester_installer.Console.Validator.Fields.{check_mtu}
use harvester_installer.Config.Profiles.{
  apply_commands, bond_of, bond_options_of, bond_path, bridge_of, bridge_path, check_mgmt,
  need_vlan_interface, read_all, remove_all, restore_original_network_config, restore_saved,
  save_original_network_config, slave_path, update_bond, update_bridge,
  update_management_interface_config, vlan_of, vlan_path, wipe_nm_connection_profiles,
  with_bond_options, write_slaves, write_vlan,
}
use harvester_installer.Console.NetworkPage.{
  NetworkPage, PageTools, ask_interface_panel, is_valid_mask_format, mtu_panel, nic_up, number_text,
  parse_mask, parse_octets, show_network_page, show_panel, show_panels, stays, to_next_page,
  up_interfaces, validate_addr_mask, validate_address, validate_gateway, validate_interface,
  validate_mtu, validate_vlan_id,
}
use harvester_installer.Console.NetworkPage.Moves.{
  Seen, ask_bond_mode_confirm, ask_network_method_confirm, confirm, edit, edited,
  goto_next_page_from, pre_goto_next_page, press_key, pressed, shown,
}
use harvester_installer.Console.NetworkPage.Applied.{IsApplied}
use harvester_installer.Console.NetworkPage.Leaves.{Seen-IsApplied}
use harvester_installer.Console.DiskPage.Keys.{key_enter}
use harvester_installer.Tests.{host, management}
use harvester_installer.Tests.Nodes.{env, machine, witness_node}

-- One address with its mask is known, and its mask is the one of a prefix of 24 bits.
abbrev pub page_tools : PageTools
page_tools = record {
  host = host;
  network_tools = record {
    profile_env = env;
    current_hostname = λ m. ok "rancher";
    show_vlan = λ n. "100";
  };
  nic_state = λ name. nic_up;
  atoi =
      λ s. if s == "100" then some (pos 100) else if s == "0" then some (pos 0) else some (pos 255);
  split_dots = λ s. "255" ∷ "255" ∷ "255" ∷ "0" ∷ [];
  parse_cidr = λ s. some (("10.0.0.5", "255.255.255.0"));
  parse_ip = λ s. none;
  mask_size = λ mask. 24;
  cidr_mask = λ n. pos 255 ∷ pos 255 ∷ pos 255 ∷ pos 0 ∷ [];
  mask_text = λ mask. "ffffff00";
  dotted = λ mask. "255.255.255.0";
  show_int = λ n. "100";
  get_ip_through_dhcp = λ name. err "no lease";
  default_route = ok false;
}

abbrev pub start : NetworkPage
start = record {
  config = witness_node;
  mgmt_network = management;
  address = "";
  addr_mask = "";
  chosen_interfaces = [];
  vlan_text = "";
  bond_mode = "";
  method = "";
  address_text = "";
  mask_text = "";
  gateway_text = "";
  mtu_text = "";
  machine = machine;
  message = none;
  focus = ask_interface_panel;
  route = stays;
}

abbrev must : Result String NetworkPage → NetworkPage
must (ok p) = p
must (err e) = start

abbrev enter : NetworkPage → NetworkPage
enter p = must (press_key page_tools p.focus key_enter p)

abbrev give : List String → String → NetworkPage → NetworkPage
give chosen s p = edit p.focus chosen s p

-- An interface is chosen; the VLAN and the mode of the bond stay; the method becomes static.
abbrev at_start : NetworkPage
at_start = give ("eno1" ∷ []) "" (show_network_page page_tools start)

abbrev at_vlan : NetworkPage
at_vlan = enter at_start

abbrev at_bond : NetworkPage
at_bond = enter at_vlan

abbrev at_method : NetworkPage
at_method = give [] "static" (enter at_bond)

abbrev at_address : NetworkPage
at_address = give [] "10.0.0.5/24" (enter at_method)

abbrev at_mask : NetworkPage
at_mask = enter at_address

abbrev at_gateway : NetworkPage
at_gateway = give [] "10.0.0.9" (enter at_mask)

abbrev at_mtu : NetworkPage
at_mtu = enter at_gateway

reached : Seen page_tools start at_mtu
unfolding show_network_page show_panels show_panel number_text press_key confirm edit
    validate_interface up_interfaces find_network_interface_hw_addr by_name validate_vlan_id
    ask_bond_mode_confirm ask_network_method_confirm validate_address validate_addr_mask parse_mask
    parse_octets is_valid_mask_format validate_gateway check_ip validate_mtu check_mtu
reached = pressed key_enter refl refl (
    edited [] "10.0.0.9" refl (
      pressed key_enter refl refl (
        pressed key_enter refl refl (
          edited [] "10.0.0.5/24" refl (
            pressed key_enter refl refl (
              edited [] "static" refl (
                pressed key_enter refl refl (
                  pressed key_enter refl refl
                    (pressed key_enter refl refl (edited ("eno1" ∷ []) "" refl shown))))))))))

abbrev pub applied_network : Network
applied_network = record {
  interfaces = record { name = "eno1"; hw_addr = "52:54:00:00:00:01" } ∷ [];
  method = "static";
  ip = "10.0.0.5";
  subnet_mask = "255.255.255.0";
  gateway = "10.0.0.9";
  default_route = false;
  bond_options = some (("mode", "active-backup") ∷ ("miimon", "100") ∷ []);
  mtu = pos 0;
  vlan_id = pos 100;
}

abbrev profile : String → String × String
profile name = (
  concat_text "/etc/NetworkManager/system-connections/" (concat_text name ".nmconnection"),
  "rendered",
)

abbrev pub applied_node : HarvesterConfig
applied_node =
    let i = witness_node.install in
    record witness_node { install = record i { management_interface = applied_network } }

-- The page after the last key, with the profiles of the bond, its slave, the bridge and the VLAN.
abbrev pub network_done : NetworkPage
network_done = record {
  config = applied_node;
  mgmt_network = applied_network;
  address = "10.0.0.5/24";
  addr_mask = "ffffff00";
  chosen_interfaces = "eno1" ∷ [];
  vlan_text = "100";
  bond_mode = "active-backup";
  method = "static";
  address_text = "10.0.0.5/24";
  mask_text = "255.255.255.0";
  gateway_text = "10.0.0.9";
  mtu_text = "";
  machine = record {
    files =
        profile "bond-mgmt"
        ∷ profile "bond-slave-eno1"
        ∷ profile "bridge-mgmt"
        ∷ profile "vlan-mgmt"
        ∷ [];
    originals = [];
    saved_once = true;
    commands =
        "hostnamectl hostname node1" ∷ "nmcli networking off" ∷ "nmcli connection reload"
        ∷ "nmcli networking on" ∷ "nm-online -x" ∷ [];
  };
  message = none;
  focus = mtu_panel;
  route = to_next_page;
}

applied : press_key page_tools at_mtu.focus key_enter at_mtu ≡ ok network_done
unfolding show_network_page show_panels show_panel number_text press_key confirm edit
    validate_interface up_interfaces find_network_interface_hw_addr by_name validate_vlan_id
    ask_bond_mode_confirm ask_network_method_confirm validate_address validate_addr_mask parse_mask
    parse_octets is_valid_mask_format validate_gateway check_ip validate_mtu check_mtu
    goto_next_page_from pre_goto_next_page apply_networks restore_original_network_config
    saved_configs restore_saved save_original_network_config once glob profile_paths is_profile
    read_all get_hostname set_hostname restore_hostname logged command pure ◌>>=◌ of_result
    mkdir_all wipe_nm_connection_profiles remove_all write_file store
    update_management_interface_config check_mgmt update_bond write_slaves update_bridge write_vlan
    apply_commands need_vlan_interface with_bond_options bond_options_of bond_of bridge_of vlan_of
    bond_path slave_path bridge_path vlan_path
applied = refl

pub network_leads : network_done.route ≡ to_next_page
network_leads = refl

stays_there : at_mtu.route ≡ stays
unfolding show_network_page show_panels show_panel number_text press_key confirm edit
    validate_interface up_interfaces find_network_interface_hw_addr by_name validate_vlan_id
    ask_bond_mode_confirm ask_network_method_confirm validate_address validate_addr_mask parse_mask
    parse_octets is_valid_mask_format validate_gateway check_ip validate_mtu check_mtu
stays_there = refl

pub network_run : Seen page_tools start network_done
network_run = pressed key_enter stays_there applied reached

Seen-IsApplied_example : IsApplied page_tools network_done.config.install.management_interface
Seen-IsApplied_example = Seen-IsApplied page_tools start network_done network_run network_leads
