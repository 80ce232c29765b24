-- ===== src/Console/NetworkPage/Leaves.antt =====
-- pkg/console/install_panels.go: what holds of the management network when its page is left.
use mathlib.Core.Path.{subst, subst⁻¹}
use harvester_installer.Prelude.{
  Bool, List, String, [], err, false, if◌then◌else◌, inl, inr, ok, refl, true, ◌∙◌, ◌∷◌, ◌≡◌,
}
use harvester_installer.Console.DiskPage.Keys.{
  Key, key_arrow_down, key_arrow_up, key_enter, key_esc,
}
use harvester_installer.Console.NetworkPage.{
  NetworkPage, NetworkPanel, NetworkRoute, PageTools, Verdict, accept, addr_mask_panel,
  address_panel, ask_bond_mode_panel, ask_interface_panel, ask_network_method_panel,
  ask_vlan_id_panel, gateway_panel, mtu_panel, show_network_page, show_panel, show_panels, stays,
  to_next_page, to_previous_page,
}
use harvester_installer.Console.NetworkPage.Moves.{
  Seen, confirm, edit, edited, go_up, goto_prev_page_to, mtu_confirmed, no_hook, press_key, pressed,
  set_gateway, shown,
}
use harvester_installer.Console.NetworkPage.Known.{
  At, Gives, HasMtu, validate_interface-Gives, validate_vlan_id-Gives,
}
use harvester_installer.Console.NetworkPage.Typed.{
  validate_addr_mask-Gives, validate_address-Gives, validate_gateway-Gives, validate_mtu-Gives,
}
use harvester_installer.Console.NetworkPage.Confirmed.{
  ask_bond_mode_confirm-Known, ask_network_method_confirm-Known, from_mtu-Known,
}
use harvester_installer.Console.NetworkPage.Applied.{
  IsApplied, Known, Leads, goto_next_panel-Leads, stays-Known,
}

module _ (t : PageTools) where
  mtu_confirmed-Leads :
      (p : NetworkPage) (v : Verdict t)
      → p.route ≡ stays
      → At t p.focus p.mgmt_network
      → Gives t (λ n. At t mtu_panel n × HasMtu t n) p v
      → Leads t (mtu_confirmed t v)
  mtu_confirmed-Leads p (err e) s h g = tt
  mtu_confirmed-Leads p (ok (true, q)) s h (f, r, c, (k, mtu)) = from_mtu-Known t p q s r k mtu
  mtu_confirmed-Leads p (ok (false, q)) s h (f, r, c, same) =
      stays-Known t q.route q (r ∙ s)
        (subst⁻¹ (λ z. At t z q.mgmt_network) f (subst⁻¹ (At t p.focus) same h))

  confirm-Leads :
      (name : NetworkPanel) (p : NetworkPage)
      → p.route ≡ stays
      → At t p.focus p.mgmt_network
      → At t name p.mgmt_network
      → Leads t (confirm t name p)
  unfolding confirm
  confirm-Leads ask_interface_panel p s h k =
      goto_next_panel-Leads t ask_vlan_id_panel p _ s h (
        validate_interface-Gives t (At t ask_vlan_id_panel) p
          (λ is some_left ups. (some_left, ups)))
  confirm-Leads ask_vlan_id_panel p s h k =
      goto_next_panel-Leads t ask_bond_mode_panel p _ s h
        (validate_vlan_id-Gives t (At t ask_bond_mode_panel) p (λ v low high. (k, (low, high))))
  confirm-Leads ask_bond_mode_panel p s h k = ask_bond_mode_confirm-Known t p s k
  confirm-Leads ask_network_method_panel p s h k = ask_network_method_confirm-Known t p s k
  confirm-Leads address_panel p s h (static, interfaces, vlan) =
      goto_next_panel-Leads t addr_mask_panel p _ s h (
        validate_address-Gives t (At t addr_mask_panel) p
          (λ ip mask text q. (static, interfaces, vlan, inl (text, mask, q)))
          (λ ip text q. (static, interfaces, vlan, inr (text, q))))
  confirm-Leads addr_mask_panel p s h (static, interfaces, vlan, ip) =
      goto_next_panel-Leads t gateway_panel p _ s h (
        validate_addr_mask-Gives t (At t gateway_panel) p
          (λ text mask q. (static, interfaces, vlan, ip, (text, mask, q, refl))))
  confirm-Leads gateway_panel p s h (static, interfaces, vlan, ip, mask) =
      goto_next_panel-Leads t mtu_panel p _ s h (
        validate_gateway-Gives t (At t mtu_panel) p
          (λ text q. (static, interfaces, vlan, ip, mask, q)))
  confirm-Leads mtu_panel p s h k =
      mtu_confirmed-Leads p _ s h
        (validate_mtu-Gives t (λ n. At t mtu_panel n × HasMtu t n) p (λ mtu q. (k, q)))

  go_up-Leads :
      (name : NetworkPanel) (p : NetworkPage)
      → p.route ≡ stays
      → At t p.focus p.mgmt_network
      → At t name p.mgmt_network
      → Leads t (go_up t name p)
  unfolding go_up goto_prev_page_to
  go_up-Leads ask_interface_panel p s h k = tt
  go_up-Leads ask_vlan_id_panel p s h k =
      goto_next_panel-Leads t ask_interface_panel p _ s h
        (validate_vlan_id-Gives t (At t ask_interface_panel) p (λ v low high. tt))
  go_up-Leads ask_bond_mode_panel p s h (interfaces, vlan) =
      goto_next_panel-Leads t ask_vlan_id_panel p (no_hook t p) s h (refl, refl, refl, interfaces)
  go_up-Leads ask_network_method_panel p s h k =
      goto_next_panel-Leads t ask_bond_mode_panel p (no_hook t p) s h (refl, refl, refl, k)
  go_up-Leads address_panel p s h (static, interfaces, vlan) =
      goto_next_panel-Leads t ask_network_method_panel p
        (accept t (record p { address = p.address_text })) s h
        (refl, refl, refl, (interfaces, vlan))
  go_up-Leads addr_mask_panel p s h (static, interfaces, vlan, ip) =
      goto_next_panel-Leads t address_panel p (accept t (record p { addr_mask = p.mask_text })) s h
        (refl, refl, refl, (static, interfaces, vlan))
  go_up-Leads gateway_panel p s h (static, interfaces, vlan, ip, mask) =
      goto_next_panel-Leads t addr_mask_panel p (set_gateway t p) s h
        (refl, refl, refl, (static, interfaces, vlan, ip))
  go_up-Leads mtu_panel p s h (static, interfaces, vlan, ip, mask, gateway) =
      goto_next_panel-Leads t gateway_panel p _ s h (
        validate_mtu-Gives t (At t gateway_panel) p (λ mtu q. (static, interfaces, vlan, ip, mask)))

  press_key-Leads :
      (name : NetworkPanel) (key : Key) (p : NetworkPage)
      → p.route ≡ stays
      → At t p.focus p.mgmt_network
      → At t name p.mgmt_network
      → Leads t (press_key t name key p)
  unfolding press_key goto_prev_page_to
  press_key-Leads name key_esc p s h k = tt
  press_key-Leads name key_arrow_up p s h k = go_up-Leads name p s h k
  press_key-Leads name key_enter p s h k = confirm-Leads name p s h k
  press_key-Leads name key_arrow_down p s h k = confirm-Leads name p s h k

  edit-Known :
      (name : NetworkPanel) (chosen : List String) (text : String) (p : NetworkPage)
      → p.route ≡ stays
      → At t p.focus p.mgmt_network
      → (let q = edit name chosen text p in Known t q.route q)
  unfolding edit
  edit-Known ask_interface_panel chosen text p s h = stays-Known t p.route _ s h
  edit-Known ask_vlan_id_panel chosen text p s h = stays-Known t p.route _ s h
  edit-Known ask_bond_mode_panel chosen text p s h = stays-Known t p.route _ s h
  edit-Known ask_network_method_panel chosen text p s h = stays-Known t p.route _ s h
  edit-Known address_panel chosen text p s h = stays-Known t p.route _ s h
  edit-Known addr_mask_panel chosen text p s h = stays-Known t p.route _ s h
  edit-Known gateway_panel chosen text p s h = stays-Known t p.route _ s h
  edit-Known mtu_panel chosen text p s h = stays-Known t p.route _ s h

  stays-At : (p : NetworkPage) → p.route ≡ stays → Known t p.route p → At t p.focus p.mgmt_network
  stays-At p s k = go p.route s k
    where
      go : (r : NetworkRoute) → r ≡ stays → Known t r p → At t p.focus p.mgmt_network
      go stays s k = k
      go to_previous_page s k = cc
      go to_next_page s k = cc

  show_network_page-Known : (p : NetworkPage) → (let q = show_network_page t p in Known t q.route q)
  unfolding show_network_page show_panels show_panel
  show_network_page-Known p = go _
    where
      p0 : NetworkPage
      p0 = record p { route = stays }

      go :
          (b : Bool)
          → (let q =
                if b
                then show_panels t
                    (ask_vlan_id_panel ∷ ask_bond_mode_panel ∷ ask_network_method_panel
                      ∷ address_panel ∷ addr_mask_panel ∷ gateway_panel ∷ mtu_panel
                      ∷ ask_interface_panel ∷ [])
                    p0
                else show_panels t
                    (ask_vlan_id_panel ∷ ask_bond_mode_panel ∷ ask_network_method_panel
                      ∷ ask_interface_panel ∷ [])
                    p0 in
              Known t q.route q)
      go true = tt
      go false = tt

  Seen-Known : {p0 p : NetworkPage} → Seen t p0 p → Known t p.route p
  Seen-Known {p0} shown = show_network_page-Known p0
  Seen-Known (edited {p = p} chosen text s v) =
      edit-Known p.focus chosen text p s (stays-At p s (Seen-Known v))
  Seen-Known (pressed {p = p} {q = q} key s e v) =
      let at : At t p.focus p.mgmt_network = stays-At p s (Seen-Known v) in
      subst (Leads t) e (press_key-Leads p.focus key p s at at)

  -- Whatever is changed and pressed on the page of the management network since it was shown, with
  -- any configuration: where it leads to the next page, the network that the configuration has got
  -- (`IsApplied`) has an interface, each of its interfaces is up, and its VLAN is between 0 and
  -- 4094; if its method is static, its address was parsed, its mask is one that `parse_mask` took,
  -- and the validator accepts its gateway and its MTU; if it is dhcp, there is a default route.
  pub Seen-IsApplied :
      (p0 p : NetworkPage)
      → Seen t p0 p
      → p.route ≡ to_next_page
      → IsApplied t p.config.install.management_interface
  Seen-IsApplied p0 p v led = go p.route led (Seen-Known v)
    where
      go :
          (r : NetworkRoute)
          → r ≡ to_next_page
          → Known t r p
          → IsApplied t p.config.install.management_interface
      go stays led k = cc
      go to_previous_page led k = cc
      go to_next_page led k = k
