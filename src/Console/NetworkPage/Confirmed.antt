-- ===== src/Console/NetworkPage/Confirmed.antt =====
-- pkg/console/install_panels.go: where the page of the management network stands after a choice is
-- confirmed.
use harvester_installer.Prelude.{
  Bool, String, [], arith, eq_iff, false, if◌then◌else◌, none, refl, sym, true, ◌==◌, ◌∙◌, ◌∷◌, ◌≡◌,
}
use harvester_installer.Console.NetworkPage.{
  NetworkPage, PageTools, addr_mask_panel, address_panel, ask_bond_mode_panel,
  ask_network_method_panel, bond_with, gateway_panel, mtu_panel, set_mgmt, show_panel, show_panels,
  stays,
}
use harvester_installer.Console.NetworkPage.Moves.{
  ask_bond_mode_confirm, ask_network_method_confirm, goto_next_page_from,
}
use harvester_installer.Console.NetworkPage.Known.{At, HasInterfaces, HasMtu, HasVlan}
use harvester_installer.Console.NetworkPage.Applied.{Known, goto_next_page_from-Known, stays-Known}

module _ (t : PageTools) where
  from_method-Known :
      (p : NetworkPage)
      → p.route ≡ stays
      → (p.mgmt_network.method ≡ "static" → ⊥)
      → HasInterfaces t p.mgmt_network
      → HasVlan t p.mgmt_network
      → Known t
          (goto_next_page_from t ask_network_method_panel p).route
          (goto_next_page_from t ask_network_method_panel p)
  from_method-Known p s other interfaces vlan =
      goto_next_page_from-Known t ask_network_method_panel p s (interfaces, vlan)
        (λ n d is v. (is, v)) interfaces vlan
        (λ route. record {
          interfaces = interfaces;
          vlan = vlan;
          static = λ m. absurd (other m);
          dhcp = route;
        })

  pub ask_network_method_confirm-Known :
      (p : NetworkPage)
      → p.route ≡ stays
      → At t ask_network_method_panel p.mgmt_network
      → Known t (ask_network_method_confirm t p).route (ask_network_method_confirm t p)
  unfolding ask_network_method_confirm show_panels show_panel
  ask_network_method_confirm-Known p0 s (interfaces, vlan) = go _ refl
    where
      p : NetworkPage
      p = let n = p0.mgmt_network in set_mgmt (record n { method = p0.method }) p0

      go :
          (b : Bool)
          → p0.method == "static" ≡ b
          → (let q =
                if b
                then show_panels t
                    (mtu_panel ∷ gateway_panel ∷ addr_mask_panel ∷ address_panel ∷ [])
                    p
                else goto_next_page_from t ask_network_method_panel p in
              Known t q.route q)
      go true e = stays-Known t p0.route _ s ((eq_iff p0.method "static").0 e, interfaces, vlan)
      go false e =
          from_method-Known p s (λ m. ground (arith, eq_iff p0.method "static")) interfaces vlan

  pub ask_bond_mode_confirm-Known :
      (p : NetworkPage)
      → p.route ≡ stays
      → At t ask_bond_mode_panel p.mgmt_network
      → Known t (ask_bond_mode_confirm t p).route (ask_bond_mode_confirm t p)
  unfolding ask_bond_mode_confirm show_panels show_panel
  ask_bond_mode_confirm-Known p0 s h = go _
    where
      p : NetworkPage
      p =
          let n = p0.mgmt_network in
          record p0 {
            mgmt_network = record n { bond_options = bond_with p0.bond_mode };
            message = none;
          }

      go :
          (b : Bool)
          → (let q =
                if b
                then show_panels t
                    (mtu_panel ∷ gateway_panel ∷ address_panel ∷ ask_network_method_panel ∷ [])
                    p
                else show_panels t (ask_network_method_panel ∷ []) p in
              Known t q.route q)
      go true = stays-Known t p0.route _ s h
      go false = stays-Known t p0.route _ s h

  no_both : (method : String) → method ≡ "static" → method ≡ "dhcp" → ⊥
  no_both method a b = let same : false ≡ true = (eq_iff "static" "dhcp").1 (sym a ∙ b) in cc

  pub from_mtu-Known :
      (p q : NetworkPage)
      → p.route ≡ stays
      → q.route ≡ p.route
      → At t mtu_panel q.mgmt_network
      → HasMtu t q.mgmt_network
      → Known t (goto_next_page_from t mtu_panel q).route (goto_next_page_from t mtu_panel q)
  from_mtu-Known p q s r (static, interfaces, vlan, ip, mask, gateway) mtu =
      goto_next_page_from-Known t mtu_panel q (r ∙ s) (static, interfaces, vlan, ip, mask, gateway)
        (λ n d. absurd (no_both q.mgmt_network.method static d)) interfaces vlan
        (λ route. record {
          interfaces = interfaces;
          vlan = vlan;
          static = λ _. (ip, mask, gateway, mtu);
          dhcp = route;
        })
