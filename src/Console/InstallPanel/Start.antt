-- ===== src/Console/InstallPanel/Start.antt =====
-- `addInstallPanel` of pkg/console/install_panels.go: the installation that is started when the panel
-- is shown.
use harvester_installer.Prelude.{
  Bool, List, Option, Result, String, [], err, if◌then◌else◌, none, ok, some, ◌&&◌, ◌==◌, ◌∷◌,
}
use harvester_installer.Config.Types.{Dict, HarvesterConfig, Network, network_method_dhcp}
use harvester_installer.Console.Network.{apply_networks, get_management_interface_name}
use harvester_installer.Console.Webhooks.{RenderedWebhook, WebhookError, prepare_webhooks}
use harvester_installer.Console.Install.{InstallTools, configure_installed_node, do_install}
use harvester_installer.Console.Install.Acts.{
  Act, failed, give, lift, of_io, or_continue, ◌>>=◌, ◌>>◌,
}
use harvester_installer.Console.InstallPanel.{
  PanelTools, Wizard, checked_config, lower_cased, merge_remote, set_vip, vip_from_dhcp,
  with_interfaces,
}

-- A bond has options.
abbrev pub bond_or_default : Option Dict → Option Dict
bond_or_default none = some (("mode", "active-backup") ∷ ("miimon", "100") ∷ [])
bond_or_default (some options) = some options

-- The network of the wizard, with what the configuration says of it.
unfoldable pub mgmt_network_of : Network → Network → Network
mgmt_network_of mgmt net_def = record mgmt {
  interfaces = net_def.interfaces;
  bond_options = bond_or_default net_def.bond_options;
  method = net_def.method;
  vlan_id = net_def.vlan_id;
}

module _ (t : PanelTools) where
  abbrev pub taken_vip : HarvesterConfig → Result String (String × String) → HarvesterConfig
  taken_vip c (err e) = c
  taken_vip c (ok v) = set_vip v c

  -- Its errors are only printed.
  unfoldable pub configure_install_mode_dhcp : Wizard → HarvesterConfig → Act HarvesterConfig
  configure_install_mode_dhcp w c = do
    or_continue (
        of_io (
          apply_networks t.network_tools
            (mgmt_network_of w.mgmt_network c.install.management_interface) c.os.hostname))
    give (
        if c.install.vip_mode == network_method_dhcp
        then taken_vip c (
            t.get_vip_through_dhcp
              (get_management_interface_name t.network_tools c.install.management_interface))
        else c)

  abbrev pub is_automatic_dhcp : HarvesterConfig → Bool
  is_automatic_dhcp c =
      c.install.automatic && c.install.management_interface.method == network_method_dhcp

  -- Up to the validated configuration.
  unfoldable pub prepare_install : Wizard → HarvesterConfig → Act HarvesterConfig
  prepare_install w c0 = do
    c1 ←
        if w.already_installed && is_automatic_dhcp c0
        then configure_install_mode_dhcp w c0
        else give c0
    c2 ← lift failed (merge_remote t c1)
    c3 ← lift failed (with_interfaces t (lower_cased t c2))
    if is_automatic_dhcp c3
        then of_io (apply_networks t.network_tools c3.install.management_interface c3.os.hostname)
        else give tt
    c4 ← lift failed (vip_from_dhcp t c3)
    lift failed (checked_config t w c4)

  -- Hooks that cannot be prepared are left out, with a message.
  abbrev pub hooks_or_none : Result WebhookError (List RenderedWebhook) → List RenderedWebhook
  hooks_or_none (ok hooks) = hooks
  hooks_or_none (err e) = []

  abbrev pub tools_for : HarvesterConfig → InstallTools
  tools_for c =
      let it = t.install_tools in
      record it { hooks = hooks_or_none (prepare_webhooks (t.renderer c) c.install.webhooks) }

  unfoldable pub install_config : Wizard → HarvesterConfig → Act (Unit {0})
  install_config w c =
      if w.already_installed
      then configure_installed_node (tools_for c) c
      else do_install (tools_for c) w.cache w.install_mode_only c

  unfoldable pub install_panel : Wizard → HarvesterConfig → Act (Unit {0})
  install_panel w c0 = prepare_install w c0 >>= (λ c. install_config w c)
