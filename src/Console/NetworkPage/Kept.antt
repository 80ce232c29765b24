-- ===== src/Console/NetworkPage/Kept.antt =====
-- pkg/console/install_panels.go: what the page of the management network leaves of a configuration.
use mathlib.Core.Path.{subst, subst⁻¹}
use harvester_installer.Prelude.{
  Bool, List, Option, Result, String, Yields, [], ap, err, false, if◌then◌else◌, none, ok, refl,
  some, true, ◌∙◌, ◌∷◌, ◌≡◌,
}
use harvester_installer.Config.Types.{HarvesterConfig, Network}
use harvester_installer.Console.Network.{apply_networks, get_management_interface_name}
use harvester_installer.Config.Profiles.Effects.{Machine}
use harvester_installer.Console.DiskPage.Keys.{
  Key, key_arrow_down, key_arrow_up, key_enter, key_esc,
}
use harvester_installer.Console.NetworkPage.{
  NetworkPage, NetworkPanel, PageTools, Verdict, addr_mask_panel, address_panel,
  ask_bond_mode_panel, ask_interface_panel, ask_network_method_panel, ask_vlan_id_panel, bond_with,
  gateway_panel, mtu_panel, set_mgmt, show_network_page, show_panel, show_panels, stays,
  with_message,
}
use harvester_installer.Console.NetworkPage.Moves.{
  Seen, after_apply, after_dhcp, ask_bond_mode_confirm, ask_network_method_confirm,
  cleared_for_dhcp, confirm, edit, edited, go_up, goto_next_page_from, goto_next_panel,
  goto_prev_page_to, mtu_confirmed, next_or_back, pre_goto_next_page, press_key, pressed,
  route_message, shown,
}
use harvester_installer.Console.NetworkPage.Known.{
  Gives, validate_interface-Gives, validate_vlan_id-Gives,
}
use harvester_installer.Console.NetworkPage.Typed.{
  validate_addr_mask-Gives, validate_address-Gives, validate_gateway-Gives, validate_mtu-Gives,
}

abbrev pub with_mgmt : Network → HarvesterConfig → HarvesterConfig
with_mgmt n c = let i = c.install in record c { install = record i { management_interface = n } }

module _ (t : PageTools) (p0 : NetworkPage) where
  -- The configuration of the page that was shown, but for its management network.
  abbrev pub IsKept : HarvesterConfig → Type 0
  IsKept c = (n : Network) × (c ≡ with_mgmt n p0.config)

  abbrev Keeps : Result String NetworkPage → Type 0
  Keeps r = Yields Unit (λ q. IsKept q.config) r

  show_panel-config :
      (name : NetworkPanel) (p : NetworkPage) → (show_panel t name p).config ≡ p.config
  unfolding show_panel
  show_panel-config ask_interface_panel p = refl
  show_panel-config ask_vlan_id_panel p = refl
  show_panel-config ask_bond_mode_panel p = refl
  show_panel-config ask_network_method_panel p = refl
  show_panel-config address_panel p = refl
  show_panel-config addr_mask_panel p = refl
  show_panel-config gateway_panel p = refl
  show_panel-config mtu_panel p = refl

  show_panels-config :
      (names : List NetworkPanel) (p : NetworkPage) → (show_panels t names p).config ≡ p.config
  unfolding show_panels
  show_panels-config [] p = refl
  show_panels-config (name ∷ names) p =
      show_panels-config names (show_panel t name p) ∙ show_panel-config name p

  shown-Keeps :
      (names : List NetworkPanel) (p : NetworkPage)
      → IsKept p.config
      → IsKept (show_panels t names p).config
  shown-Keeps names p k = subst⁻¹ IsKept (show_panels-config names p) k

  goto_next_panel-Keeps :
      (names : List NetworkPanel) (p : NetworkPage) (v : Verdict t)
      → IsKept p.config
      → Gives t (λ n. Unit) p v
      → Keeps (goto_next_panel t names v)
  goto_next_panel-Keeps names p (err e) k g = tt
  goto_next_panel-Keeps names p (ok (false, q)) k (f, r, c, g) = subst⁻¹ IsKept c k
  goto_next_panel-Keeps names p (ok (true, q)) k (f, r, c, g) =
      shown-Keeps names (record q { message = none }) (subst⁻¹ IsKept c k)

  pre_goto_next_page-Keeps :
      (p : NetworkPage) → IsKept p.config → IsKept (pre_goto_next_page t p).1.config
  unfolding pre_goto_next_page cleared_for_dhcp
  pre_goto_next_page-Keeps p k =
      go (apply_networks t.network_tools p.mgmt_network p.config.os.hostname p.machine)
    where
      n : Network
      n = p.mgmt_network

      q : Machine → NetworkPage
      q m = record p { config = with_mgmt n p.config; machine = m }

      applied : IsKept (with_mgmt n p.config)
      applied = let (m, e) = k in (n, ap (with_mgmt n) e)

      asked : (m : Machine) (r : Result String String) → IsKept (after_dhcp t (q m) r).1.config
      asked m (err e) = applied
      asked m (ok addr) = applied

      chosen :
          (m : Machine) (b : Bool)
          → IsKept
              (if b
                then after_dhcp t
                    (q m)
                    (t.get_ip_through_dhcp (get_management_interface_name t.network_tools n))
                else (route_message t false t.default_route, q m)).1.config
      chosen m true = asked m _
      chosen m false = applied

      go : (r : Result String (Unit {0}) × Machine) → IsKept (after_apply t p r).1.config
      go (err e, m) = k
      go (ok _, m) = chosen m _

  goto_next_page_from-Keeps :
      (name : NetworkPanel) (p : NetworkPage)
      → IsKept p.config
      → IsKept (goto_next_page_from t name p).config
  unfolding goto_next_page_from
  goto_next_page_from-Keeps name p k = go (pre_goto_next_page t p) (pre_goto_next_page-Keeps p k)
    where
      go :
          (r : Option String × NetworkPage)
          → IsKept r.1.config
          → IsKept (next_or_back t name r).config
      go (some m, q) h = subst⁻¹ IsKept (show_panel-config name (with_message m q)) h
      go (none, q) h = h

  ask_network_method_confirm-Keeps :
      (p : NetworkPage) → IsKept p.config → IsKept (ask_network_method_confirm t p).config
  unfolding ask_network_method_confirm
  ask_network_method_confirm-Keeps p0 k = go _
    where
      p : NetworkPage
      p = let n = p0.mgmt_network in set_mgmt (record n { method = p0.method }) p0

      go :
          (b : Bool)
          → IsKept
              (if b
                then show_panels t
                    (mtu_panel ∷ gateway_panel ∷ addr_mask_panel ∷ address_panel ∷ [])
                    p
                else goto_next_page_from t ask_network_method_panel p).config
      go true = shown-Keeps _ p k
      go false = goto_next_page_from-Keeps ask_network_method_panel p k

  ask_bond_mode_confirm-Keeps :
      (p : NetworkPage) → IsKept p.config → IsKept (ask_bond_mode_confirm t p).config
  unfolding ask_bond_mode_confirm
  ask_bond_mode_confirm-Keeps p0 k = go _
    where
      p : NetworkPage
      p =
          let n = p0.mgmt_network in
          record p0 {
            mgmt_network = record n { bond_options = bond_with p0.bond_mode };
            message = none;
          }

      go :
          (b : Bool)
          → IsKept
              (if b
                then show_panels t
                    (mtu_panel ∷ gateway_panel ∷ address_panel ∷ ask_network_method_panel ∷ [])
                    p
                else show_panels t (ask_network_method_panel ∷ []) p).config
      go true = shown-Keeps _ p k
      go false = shown-Keeps _ p k

  mtu_confirmed-Keeps :
      (p : NetworkPage) (v : Verdict t)
      → IsKept p.config
      → Gives t (λ n. Unit) p v
      → Keeps (mtu_confirmed t v)
  mtu_confirmed-Keeps p (err e) k g = tt
  mtu_confirmed-Keeps p (ok (false, q)) k (f, r, c, g) = subst⁻¹ IsKept c k
  mtu_confirmed-Keeps p (ok (true, q)) k (f, r, c, g) =
      goto_next_page_from-Keeps mtu_panel q (subst⁻¹ IsKept c k)

  confirm-Keeps :
      (name : NetworkPanel) (p : NetworkPage) → IsKept p.config → Keeps (confirm t name p)
  unfolding confirm
  confirm-Keeps ask_interface_panel p k =
      goto_next_panel-Keeps _ p _ k (validate_interface-Gives t (λ n. Unit) p (λ is a b. tt))
  confirm-Keeps ask_vlan_id_panel p k =
      goto_next_panel-Keeps _ p _ k (validate_vlan_id-Gives t (λ n. Unit) p (λ v a b. tt))
  confirm-Keeps ask_bond_mode_panel p k = ask_bond_mode_confirm-Keeps p k
  confirm-Keeps ask_network_method_panel p k = ask_network_method_confirm-Keeps p k
  confirm-Keeps address_panel p k =
      goto_next_panel-Keeps _ p _ k
        (validate_address-Gives t (λ n. Unit) p (λ a b c d. tt) (λ a b c. tt))
  confirm-Keeps addr_mask_panel p k =
      goto_next_panel-Keeps _ p _ k (validate_addr_mask-Gives t (λ n. Unit) p (λ a b c. tt))
  confirm-Keeps gateway_panel p k =
      goto_next_panel-Keeps _ p _ k (validate_gateway-Gives t (λ n. Unit) p (λ a b. tt))
  confirm-Keeps mtu_panel p k =
      mtu_confirmed-Keeps p _ k (validate_mtu-Gives t (λ n. Unit) p (λ a b. tt))

  go_up-Keeps : (name : NetworkPanel) (p : NetworkPage) → IsKept p.config → Keeps (go_up t name p)
  unfolding go_up goto_prev_page_to
  go_up-Keeps ask_interface_panel p k = k
  go_up-Keeps ask_vlan_id_panel p k =
      goto_next_panel-Keeps _ p _ k (validate_vlan_id-Gives t (λ n. Unit) p (λ v a b. tt))
  go_up-Keeps ask_bond_mode_panel p k = shown-Keeps _ (record p { message = none }) k
  go_up-Keeps ask_network_method_panel p k = shown-Keeps _ (record p { message = none }) k
  go_up-Keeps address_panel p k =
      shown-Keeps _ (record p { address = p.address_text; message = none }) k
  go_up-Keeps addr_mask_panel p k =
      shown-Keeps _ (record p { addr_mask = p.mask_text; message = none }) k
  go_up-Keeps gateway_panel p k =
      let n = p.mgmt_network in
      shown-Keeps _
        (record p { mgmt_network = record n { gateway = p.gateway_text }; message = none }) k
  go_up-Keeps mtu_panel p k =
      goto_next_panel-Keeps _ p _ k (validate_mtu-Gives t (λ n. Unit) p (λ a b. tt))

  press_key-Keeps :
      (name : NetworkPanel) (key : Key) (p : NetworkPage)
      → IsKept p.config
      → Keeps (press_key t name key p)
  unfolding press_key goto_prev_page_to
  press_key-Keeps name key_esc p k = k
  press_key-Keeps name key_arrow_up p k = go_up-Keeps name p k
  press_key-Keeps name key_enter p k = confirm-Keeps name p k
  press_key-Keeps name key_arrow_down p k = confirm-Keeps name p k

  edit-Keeps :
      (name : NetworkPanel) (chosen : List String) (s : String) (p : NetworkPage)
      → IsKept p.config
      → IsKept (edit name chosen s p).config
  unfolding edit
  edit-Keeps ask_interface_panel chosen s p k = k
  edit-Keeps ask_vlan_id_panel chosen s p k = k
  edit-Keeps ask_bond_mode_panel chosen s p k = k
  edit-Keeps ask_network_method_panel chosen s p k = k
  edit-Keeps address_panel chosen s p k = k
  edit-Keeps addr_mask_panel chosen s p k = k
  edit-Keeps gateway_panel chosen s p k = k
  edit-Keeps mtu_panel chosen s p k = k

  show_network_page-Keeps : IsKept (show_network_page t p0).config
  unfolding show_network_page
  show_network_page-Keeps = go _
    where
      q : NetworkPage
      q = record p0 { route = stays }

      short : List NetworkPanel
      short =
          ask_vlan_id_panel ∷ ask_bond_mode_panel ∷ ask_network_method_panel ∷ ask_interface_panel
          ∷ []

      long : List NetworkPanel
      long =
          ask_vlan_id_panel ∷ ask_bond_mode_panel ∷ ask_network_method_panel ∷ address_panel
          ∷ addr_mask_panel ∷ gateway_panel ∷ mtu_panel ∷ ask_interface_panel ∷ []

      go : (b : Bool) → IsKept (if b then show_panels t long q else show_panels t short q).config
      go true = shown-Keeps long q (p0.config.install.management_interface, refl)
      go false = shown-Keeps short q (p0.config.install.management_interface, refl)

  pub Seen-IsKept : {p : NetworkPage} → Seen t p0 p → IsKept p.config
  Seen-IsKept shown = show_network_page-Keeps
  Seen-IsKept (edited {p = p} chosen s r v) = edit-Keeps p.focus chosen s p (Seen-IsKept v)
  Seen-IsKept (pressed {p = p} key s e v) =
      subst Keeps e (press_key-Keeps p.focus key p (Seen-IsKept v))
