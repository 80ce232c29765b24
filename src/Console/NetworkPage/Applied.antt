-- ===== src/Console/NetworkPage/Applied.antt =====
-- pkg/console/install_panels.go: what holds of the management network that the page applies.
use mathlib.Core.Path.{subst⁻¹}
use harvester_installer.Prelude.{
  All, Bool, Option, Result, String, Yields, [], arith, eq_iff, err, false, if◌then◌else◌, inl, inr,
  is_above, is_below, none, ok, refl, some, true, ◌==◌, ◌∙◌, ◌∷◌, ◌≡◌, ◌≢◌, ◌⊎◌,
}
use harvester_installer.Config.Types.{Network}
use harvester_installer.Config.Profiles.Effects.{Machine}
use harvester_installer.Console.Network.{apply_networks, get_management_interface_name}
use harvester_installer.Console.NetworkPage.{
  NetworkPage, NetworkPanel, NetworkRoute, PageTools, Verdict, addr_mask_panel, address_panel,
  ask_bond_mode_panel, ask_interface_panel, ask_network_method_panel, ask_vlan_id_panel,
  gateway_panel, mtu_panel, nic_up, show_panel, show_panels, stays, to_next_page, to_previous_page,
  with_message,
}
use harvester_installer.Console.NetworkPage.Moves.{
  after_apply, after_dhcp, cleared_for_dhcp, goto_next_page_from, goto_next_panel, next_or_back,
  pre_goto_next_page, route_message,
}
use harvester_installer.Console.NetworkPage.Known.{
  At, Gives, HasGateway, HasInterfaces, HasIp, HasMask, HasMtu, HasVlan, IsStatic,
}

module _ (t : PageTools) where
  -- What the page promises of the network that it gives to the configuration.
  pub record IsApplied (n : Network) : Type 0 where
    pub interfaces : HasInterfaces t n
    pub vlan : HasVlan t n
    pub static : IsStatic t n → HasIp t n × HasMask t n × HasGateway t n × HasMtu t n
    pub dhcp : n.method ≡ "dhcp" → t.default_route ≡ ok true

  abbrev pub Known : NetworkRoute → NetworkPage → Type 0
  Known stays p = At t p.focus p.mgmt_network
  Known to_previous_page p = Unit
  Known to_next_page p = IsApplied p.config.install.management_interface

  abbrev pub Leads : Result String NetworkPage → Type 0
  Leads r = Yields Unit (λ q. Known q.route q) r

  pub stays-Known :
      (r : NetworkRoute) (q : NetworkPage) → r ≡ stays → At t q.focus q.mgmt_network → Known r q
  stays-Known stays q s h = h
  stays-Known to_previous_page q s h = tt
  stays-Known to_next_page q s h = cc

  -- A panel that is shown changes no more of the network than the options of a bond.
  show_panel-Known :
      (name : NetworkPanel) (p : NetworkPage)
      → p.route ≡ stays
      → At t name p.mgmt_network
      → Known (show_panel t name p).route (show_panel t name p)
  unfolding show_panel
  show_panel-Known ask_interface_panel p s h = stays-Known p.route _ s h
  show_panel-Known ask_vlan_id_panel p s h = stays-Known p.route _ s h
  show_panel-Known ask_bond_mode_panel p s h = stays-Known p.route _ s h
  show_panel-Known ask_network_method_panel p s h = stays-Known p.route _ s h
  show_panel-Known address_panel p s h = stays-Known p.route _ s h
  show_panel-Known addr_mask_panel p s h = stays-Known p.route _ s h
  show_panel-Known gateway_panel p s h = stays-Known p.route _ s h
  show_panel-Known mtu_panel p s h = stays-Known p.route _ s h

  pub goto_next_panel-Leads :
      (name : NetworkPanel) (p : NetworkPage) (v : Verdict t)
      → p.route ≡ stays
      → At t p.focus p.mgmt_network
      → Gives t (At t name) p v
      → Leads (goto_next_panel t (name ∷ []) v)
  unfolding show_panels
  goto_next_panel-Leads name p (err e) s h g = tt
  goto_next_panel-Leads name p (ok (true, q)) s h (f, r, c, k) =
      show_panel-Known name (record q { message = none }) (r ∙ s) k
  goto_next_panel-Leads name p (ok (false, q)) s h (f, r, c, same) =
      stays-Known q.route q (r ∙ s)
        (subst⁻¹ (λ z. At t z q.mgmt_network) f (subst⁻¹ (At t p.focus) same h))

  -- What applying the network leaves: the network as it was, or one that DHCP has cleared.
  abbrev Pre : NetworkPage → Option String × NetworkPage → Type 0
  Pre p (m, q) =
      (q.route ≡ p.route)
      × ((q.mgmt_network ≡ p.mgmt_network)
          ⊎ ((p.mgmt_network.method ≡ "dhcp")
              × (q.mgmt_network.interfaces ≡ p.mgmt_network.interfaces)
              × (q.mgmt_network.vlan_id ≡ p.mgmt_network.vlan_id)))
      × (m ≡ none
          → (q.config.install.management_interface ≡ p.mgmt_network)
            × (p.mgmt_network.method ≡ "dhcp" → t.default_route ≡ ok true))

  route_message-found : (r : Result String Bool) → route_message t true r ≡ none → r ≡ ok true
  route_message-found (ok true) p = refl
  route_message-found (ok false) p = cc
  route_message-found (err e) p = cc

  pre_goto_next_page-Pre : (p : NetworkPage) → Pre p (pre_goto_next_page t p)
  unfolding pre_goto_next_page cleared_for_dhcp
  pre_goto_next_page-Pre p =
      go (apply_networks t.network_tools p.mgmt_network p.config.os.hostname p.machine)
    where
      n : Network
      n = p.mgmt_network

      q : Machine → NetworkPage
      q m =
          let c = p.config in
          let i = c.install in
          record p {
            config = record c { install = record i { management_interface = p.mgmt_network } };
            machine = m;
          }

      asked :
          (m : Machine)
          → n.method ≡ "dhcp"
          → (r : Result String String) → Pre p (after_dhcp t (q m) r)
      asked m d (err e) = (refl, inl refl, λ h. cc h)
      asked m d (ok addr) =
          (refl, inr (d, refl, refl), λ h. (refl, λ _. route_message-found t.default_route h))

      chosen :
          (m : Machine) (b : Bool)
          → n.method == "dhcp" ≡ b
          → Pre p (
              if b
              then after_dhcp t
                  (q m)
                  (t.get_ip_through_dhcp (get_management_interface_name t.network_tools n))
              else (route_message t false t.default_route, q m))
      chosen m true e = asked m ((eq_iff n.method "dhcp").0 e) _
      chosen m false e =
          (refl, inl refl, λ _. (refl, λ d. absurd (ground (arith, eq_iff n.method "dhcp"))))

      go : (r : Result String (Unit {0}) × Machine) → Pre p (after_apply t p r)
      go (err e, m) = (refl, inl refl, λ h. cc h)
      go (ok _, m) = chosen m _ refl

  pub goto_next_page_from-Known :
      (name : NetworkPanel) (p : NetworkPage)
      → p.route ≡ stays
      → At t name p.mgmt_network
      → ((n : Network)
          → p.mgmt_network.method ≡ "dhcp"
          → HasInterfaces t n
          → HasVlan t n
          → At t name n)
      → HasInterfaces t p.mgmt_network
      → HasVlan t p.mgmt_network
      → ((p.mgmt_network.method ≡ "dhcp" → t.default_route ≡ ok true) → IsApplied p.mgmt_network)
      → Known (goto_next_page_from t name p).route (goto_next_page_from t name p)
  unfolding goto_next_page_from
  goto_next_page_from-Known name p s h d interfaces vlan ready =
      go (pre_goto_next_page t p) (pre_goto_next_page-Pre p)
    where
      back :
          (q : NetworkPage)
          → (q.mgmt_network ≡ p.mgmt_network)
            ⊎ ((p.mgmt_network.method ≡ "dhcp")
                × (q.mgmt_network.interfaces ≡ p.mgmt_network.interfaces)
                × (q.mgmt_network.vlan_id ≡ p.mgmt_network.vlan_id))
          → At t name q.mgmt_network
      back q (inl same) = subst⁻¹ (At t name) same h
      back q (inr (m, is, v)) =
          d q.mgmt_network m
            (subst⁻¹ (λ js. (js ≢ []) × All (λ i. t.nic_state i.name ≡ nic_up) js) is interfaces)
            (subst⁻¹ (λ z. (is_below z 0 ≡ false) × (is_above z 4094 ≡ false)) v vlan)

      go :
          (r : Option String × NetworkPage)
          → Pre p r
          → Known (next_or_back t name r).route (next_or_back t name r)
      go (some m, q) (r, kept, left) =
          show_panel-Known name (with_message m q) (r ∙ s) (back q kept)
      go (none, q) (r, kept, left) =
          let (same, route) = left refl in subst⁻¹ IsApplied same (ready route)
