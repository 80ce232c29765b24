-- ===== src/Console/Network.antt =====
-- pkg/console/network.go: how the networks of a configuration are applied, and the name of the
-- management interface. A link that does not come up is only logged.
use harvester_installer.Prelude.{
  Result, String, [], concat_text, err, if◌then◌else◌, is_above, is_below, not, ok, true, ℤ, ◌&&◌,
  ◌==◌,
}
use harvester_installer.Config.Types.{Network, mgmt_interface_name}
use harvester_installer.Config.Profiles.{
  Env, restore_original_network_config, save_original_network_config,
  update_management_interface_config,
}
use harvester_installer.Config.Profiles.Effects.{Io, Machine, command, pure, ◌>>=◌, ◌>>◌}
use harvester_installer.Config.Cos.{nm_connection_path}

-- `hostnamectl hostname` prints what `current` says of the machine; `show_vlan` is the number in
-- decimal digits.
pub record NetworkTools : Type 0 where
  pub profile_env : Env
  pub current_hostname : Machine → Result String String
  pub show_vlan : ℤ → String

abbrev pub warn_only : {A : Type 0} → A → Result String A → Result String A
warn_only a (ok b) = ok b
warn_only a (err e) = ok a

-- The error is only logged.
unfoldable pub logged : {A : Type 0} → A → Io A → Io A
logged a m s = let r = m s in (warn_only a r.0, r.1)

module _ (t : NetworkTools) where
  unfoldable pub get_hostname : Io String
  get_hostname s = (t.current_hostname s, s)

  unfoldable pub set_hostname : String → Io (Unit {0})
  set_hostname hostname =
      command t.profile_env.faults (concat_text "hostnamectl hostname " hostname)

  -- The name given by DHCP stays; else the one before comes back.
  unfoldable pub restore_hostname : String → Io (Unit {0})
  restore_hostname previous = do
    current ← logged "" get_hostname
    if current == "localhost" then logged tt (set_hostname previous) else pure tt

  unfoldable pub apply_networks : Network → String → Io (Unit {0})
  apply_networks network hostname = do
    restore_original_network_config t.profile_env nm_connection_path
    save_original_network_config t.profile_env nm_connection_path
    previous ← logged "" get_hostname
    if hostname == "" then logged tt (set_hostname "") else set_hostname hostname
    update_management_interface_config t.profile_env network [] nm_connection_path true
    if hostname == "" && not (previous == "") then restore_hostname previous else pure tt

  unfoldable pub get_management_interface_name : Network → String
  get_management_interface_name n =
      if not (is_below n.vlan_id 2) && not (is_above n.vlan_id 4094)
      then concat_text mgmt_interface_name (concat_text "." (t.show_vlan n.vlan_id))
      else mgmt_interface_name
