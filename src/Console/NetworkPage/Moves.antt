-- ===== src/Console/NetworkPage/Moves.antt =====
-- pkg/console/install_panels.go: what the keys do on the page of the management network.
use harvester_installer.Prelude.{
  Bool, List, Option, Result, String, [], concat_text, err, false, if◌then◌else◌, none, not, ok,
  pos, some, true, ◌&&◌, ◌==◌, ◌∷◌, ◌≡◌,
}
use harvester_installer.Config.Types.{network_method_dhcp, network_method_static}
use harvester_installer.Config.Profiles.Effects.{Machine}
use harvester_installer.Console.Network.{apply_networks, get_management_interface_name}
use harvester_installer.Console.DiskPage.Keys.{
  Key, key_arrow_down, key_arrow_up, key_enter, key_esc,
}
use harvester_installer.Console.NetworkPage.{
  NetworkPage, NetworkPanel, PageTools, Verdict, accept, addr_mask_panel, address_panel,
  ask_bond_mode_panel, ask_interface_panel, ask_network_method_panel, ask_vlan_id_panel, bond_with,
  gateway_panel, mtu_panel, set_mgmt, show_network_page, show_panel, show_panels, stays,
  to_next_page, to_previous_page, validate_addr_mask, validate_address, validate_gateway,
  validate_interface, validate_mtu, validate_vlan_id, with_message,
}

module _ (t : PageTools) where
  -- The hook first: where its text is with_message, the panel keeps the focus.
  abbrev pub goto_next_panel : List NetworkPanel → Verdict t → Result String NetworkPage
  goto_next_panel names (err e) = err e
  goto_next_panel names (ok (false, p)) = ok p
  goto_next_panel names (ok (true, p)) = ok (show_panels t names (record p { message = none }))

  abbrev pub no_hook : NetworkPage → Verdict t
  no_hook p = accept t p

  unfoldable pub cleared_for_dhcp : NetworkPage → NetworkPage
  cleared_for_dhcp p =
      let n = p.mgmt_network in
      record p {
        address = "";
        mgmt_network = record n { ip = ""; subnet_mask = ""; gateway = ""; mtu = pos 0 };
      }

  abbrev pub route_message : Bool → Result String Bool → Option String
  route_message by_dhcp (err e) =
      some (concat_text "Failed to check default route: " (concat_text e "."))
  route_message by_dhcp (ok found) =
      if not found && by_dhcp
      then some "No default route found. Please check the router setting on the DHCP server."
      else none

  abbrev pub after_dhcp : NetworkPage → Result String String → Option String × NetworkPage
  after_dhcp p (err e) = (some (concat_text "Requesting IP through DHCP failed: " e), p)
  after_dhcp p (ok addr) = (route_message true t.default_route, cleared_for_dhcp p)

  -- The network becomes that of the configuration before DHCP is asked.
  abbrev pub after_apply :
      NetworkPage → Result String (Unit {0}) × Machine → Option String × NetworkPage
  after_apply p (err e, m) =
      (some (concat_text "Configure network failed: " e), record p { machine = m })
  after_apply p (ok _, m) =
      let c = p.config in
      let i = c.install in
      let n = p.mgmt_network in
      let q = record p {
        config = record c { install = record i { management_interface = n } };
        machine = m;
      } in
      if n.method == network_method_dhcp
      then after_dhcp q (t.get_ip_through_dhcp (get_management_interface_name t.network_tools n))
      else (route_message false t.default_route, q)

  unfoldable pub pre_goto_next_page : NetworkPage → Option String × NetworkPage
  pre_goto_next_page p =
      after_apply p (apply_networks t.network_tools p.mgmt_network p.config.os.hostname p.machine)

  -- A message leads back to the panel that asked for the next page.
  abbrev pub next_or_back : NetworkPanel → Option String × NetworkPage → NetworkPage
  next_or_back from_panel (some m, p) = show_panel t from_panel (with_message m p)
  next_or_back from_panel (none, p) = record p { message = none; route = to_next_page }

  unfoldable pub goto_next_page_from : NetworkPanel → NetworkPage → NetworkPage
  goto_next_page_from from_panel p = next_or_back from_panel (pre_goto_next_page p)

  unfoldable pub goto_prev_page_to : NetworkPage → NetworkPage
  goto_prev_page_to p = record p { message = none; route = to_previous_page }

  unfoldable pub ask_bond_mode_confirm : NetworkPage → NetworkPage
  ask_bond_mode_confirm p0 =
      let n = p0.mgmt_network in
      let p = record p0 {
        mgmt_network = record n { bond_options = bond_with p0.bond_mode };
        message = none;
      } in
      if p.mgmt_network.method == network_method_static
      then show_panels t (mtu_panel ∷ gateway_panel ∷ address_panel ∷ ask_network_method_panel ∷ [])
          p
      else show_panels t (ask_network_method_panel ∷ []) p

  unfoldable pub ask_network_method_confirm : NetworkPage → NetworkPage
  ask_network_method_confirm p0 =
      let n = p0.mgmt_network in
      let p = set_mgmt (record n { method = p0.method }) p0 in
      if p0.method == network_method_static
      then show_panels t (mtu_panel ∷ gateway_panel ∷ addr_mask_panel ∷ address_panel ∷ []) p
      else goto_next_page_from ask_network_method_panel p

  abbrev pub mtu_confirmed : Verdict t → Result String NetworkPage
  mtu_confirmed (err e) = err e
  mtu_confirmed (ok (false, p)) = ok p
  mtu_confirmed (ok (true, p)) = ok (goto_next_page_from mtu_panel p)

  abbrev pub set_gateway : NetworkPage → Verdict t
  set_gateway p =
      let n = p.mgmt_network in accept t (set_mgmt (record n { gateway = p.gateway_text }) p)

  -- Enter and the arrow down, by the panel that has the focus.
  unfoldable pub confirm : NetworkPanel → NetworkPage → Result String NetworkPage
  confirm ask_interface_panel p = goto_next_panel (ask_vlan_id_panel ∷ []) (validate_interface t p)
  confirm ask_vlan_id_panel p = goto_next_panel (ask_bond_mode_panel ∷ []) (validate_vlan_id t p)
  confirm ask_bond_mode_panel p = ok (ask_bond_mode_confirm p)
  confirm ask_network_method_panel p = ok (ask_network_method_confirm p)
  confirm address_panel p = goto_next_panel (addr_mask_panel ∷ []) (validate_address t p)
  confirm addr_mask_panel p = goto_next_panel (gateway_panel ∷ []) (validate_addr_mask t p)
  confirm gateway_panel p = goto_next_panel (mtu_panel ∷ []) (validate_gateway t p)
  confirm mtu_panel p = mtu_confirmed (validate_mtu t p)

  -- The arrow up. The texts of the address, the mask and the gateway are kept as they are.
  unfoldable pub go_up : NetworkPanel → NetworkPage → Result String NetworkPage
  go_up ask_interface_panel p = ok (goto_prev_page_to p)
  go_up ask_vlan_id_panel p = goto_next_panel (ask_interface_panel ∷ []) (validate_vlan_id t p)
  go_up ask_bond_mode_panel p = goto_next_panel (ask_vlan_id_panel ∷ []) (no_hook p)
  go_up ask_network_method_panel p = goto_next_panel (ask_bond_mode_panel ∷ []) (no_hook p)
  go_up address_panel p =
      goto_next_panel (ask_network_method_panel ∷ [])
        (accept t (record p { address = p.address_text }))
  go_up addr_mask_panel p =
      goto_next_panel (address_panel ∷ []) (accept t (record p { addr_mask = p.mask_text }))
  go_up gateway_panel p = goto_next_panel (addr_mask_panel ∷ []) (set_gateway p)
  go_up mtu_panel p = goto_next_panel (gateway_panel ∷ []) (validate_mtu t p)

  unfoldable pub press_key : NetworkPanel → Key → NetworkPage → Result String NetworkPage
  press_key name key_esc p = ok (goto_prev_page_to p)
  press_key name key_arrow_up p = go_up name p
  press_key name key_enter p = confirm name p
  press_key name key_arrow_down p = confirm name p

-- What the user changes in the input that has the focus: a text or a choice.
unfoldable pub edit : NetworkPanel → List String → String → NetworkPage → NetworkPage
edit ask_interface_panel chosen s p = record p { chosen_interfaces = chosen }
edit ask_vlan_id_panel chosen s p = record p { vlan_text = s }
edit ask_bond_mode_panel chosen s p = record p { bond_mode = s }
edit ask_network_method_panel chosen s p = record p { method = s }
edit address_panel chosen s p = record p { address_text = s }
edit addr_mask_panel chosen s p = record p { mask_text = s }
edit gateway_panel chosen s p = record p { gateway_text = s }
edit mtu_panel chosen s p = record p { mtu_text = s }

-- The pages that the page has been since `p0` was shown.
pub data Seen (t : PageTools) (p0 : NetworkPage) : NetworkPage → Type 0 where
  shown : Seen t p0 (show_network_page t p0)
  edited :
      {p : NetworkPage} (chosen : List String) (s : String)
      → p.route ≡ stays
      → Seen t p0 p
      → Seen t p0 (edit p.focus chosen s p)
  pressed :
      {p q : NetworkPage} (key : Key)
      → p.route ≡ stays
      → press_key t p.focus key p ≡ ok q
      → Seen t p0 p
      → Seen t p0 q
