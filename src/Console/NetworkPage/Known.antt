-- ===== src/Console/NetworkPage/Known.antt =====
-- pkg/console/install_panels.go: what the inputs of the management network have accepted.
use mathlib.Core.Path.{subst}
use harvester_installer.Prelude.{
  All, Bool, List, Option, Result, String, [], err, false, if◌then◌else◌, is_above, is_below,
  is_empty, map_err, none, ok, pos, refl, some, true, ℤ, ◌>>=◌, ◌||◌, ◌∷◌, ◌≡◌, ◌≢◌, ◌⊎◌,
}
use harvester_installer.Config.Types.{Network, NetworkInterface}
use harvester_installer.Console.Validator.Machine.{check_ip}
use harvester_installer.Config.Interfaces.{
  HostInterface, InterfaceError, by_name, find_network_interface_hw_addr, found_or,
  no_matching_name,
}
use harvester_installer.Console.Validator.Fields.{check_mtu}
use harvester_installer.Console.NetworkPage.{
  NetworkPage, NetworkPanel, NicState, PageTools, UpInterfaces, Verdict, accept, addr_mask_panel,
  address_panel, ask_bond_mode_panel, ask_interface_panel, ask_network_method_panel,
  ask_vlan_id_panel, first_state, gateway_panel, mtu_panel, nic_down, nic_lower_down, nic_not_found,
  nic_up, parse_mask, refuse, set_mgmt, set_vlan, state_message, take_interfaces, up_interfaces,
  validate_interface, validate_vlan_id,
}

module _ (t : PageTools) where
  -- There is an interface, and each is one that is up.
  abbrev pub HasInterfaces : Network → Type 0
  HasInterfaces n = (n.interfaces ≢ []) × All (λ i. t.nic_state i.name ≡ nic_up) n.interfaces

  abbrev pub HasVlan : Network → Type 0
  HasVlan n = (is_below n.vlan_id 0 ≡ false) × (is_above n.vlan_id 4094 ≡ false)

  abbrev pub HasIp : Network → Type 0
  HasIp n =
      ((s : String) × (mask : String) × (t.parse_cidr s ≡ some (n.ip, mask)))
      ⊎ ((s : String) × (t.parse_ip s ≡ some n.ip))

  abbrev pub HasMask : Network → Type 0
  HasMask n =
      (s : String) × (mask : List ℤ) × (parse_mask t s ≡ some mask)
      × (n.subnet_mask ≡ t.dotted mask)

  abbrev pub HasGateway : Network → Type 0
  HasGateway n = check_ip t.host n.gateway ≡ ok tt

  abbrev pub HasMtu : Network → Type 0
  HasMtu n = check_mtu n.mtu ≡ ok tt

  abbrev pub IsStatic : Network → Type 0
  IsStatic n = n.method ≡ "static"

  -- What is known at an input of what is before it.
  abbrev pub At : NetworkPanel → Network → Type 0
  At ask_interface_panel n = Unit
  At ask_vlan_id_panel n = HasInterfaces n
  At ask_bond_mode_panel n = HasInterfaces n × HasVlan n
  At ask_network_method_panel n = HasInterfaces n × HasVlan n
  At address_panel n = IsStatic n × HasInterfaces n × HasVlan n
  At addr_mask_panel n = IsStatic n × HasInterfaces n × HasVlan n × HasIp n
  At gateway_panel n = IsStatic n × HasInterfaces n × HasVlan n × HasIp n × HasMask n
  At mtu_panel n = IsStatic n × HasInterfaces n × HasVlan n × HasIp n × HasMask n × HasGateway n

  -- A verdict that keeps the page and what is known of it, and on acceptance has `P` of the network.
  abbrev pub Gives : (Network → Type 0) → NetworkPage → Verdict t → Type 0
  Gives P p (err e) = Unit
  Gives P p (ok (false, q)) =
      (q.focus ≡ p.focus)
      × (q.route ≡ p.route)
      × (q.config ≡ p.config)
      × (q.mgmt_network ≡ p.mgmt_network)
  Gives P p (ok (true, q)) =
      (q.focus ≡ p.focus) × (q.route ≡ p.route) × (q.config ≡ p.config) × P q.mgmt_network

  pub validate_vlan_id-Gives :
      (P : Network → Type 0) (p : NetworkPage)
      → ((v : ℤ)
          → (is_below v 0 ≡ false)
          → (is_above v 4094 ≡ false)
          → P (let n = p.mgmt_network in record n { vlan_id = v }))
      → Gives P p (validate_vlan_id t p)
  unfolding validate_vlan_id
  validate_vlan_id-Gives P p h = go _ (t.atoi p.vlan_text)
    where
      go :
          (blank : Bool) (v : Option ℤ)
          → Gives P p (
              if blank
              then (let n = p.mgmt_network in accept t (set_mgmt (record n { vlan_id = pos 0 }) p))
              else set_vlan t p v)
      go true v = (refl, refl, refl, h (pos 0) refl refl)
      go false none = (refl, refl, refl, refl)
      go false (some v) = within (is_below v 0) (is_above v 4094) refl refl
        where
          within :
              (a b : Bool)
              → is_below v 0 ≡ a
              → is_above v 4094 ≡ b
              → Gives P p (
                  if a || b
                  then refuse t "VLAN ID should be a number 1 ~ 4094." p
                  else (let n = p.mgmt_network in accept t (set_mgmt (record n { vlan_id = v }) p)))
          within true b x y = (refl, refl, refl, refl)
          within false true x y = (refl, refl, refl, refl)
          within false false x y = (refl, refl, refl, h v x y)

  find_network_interface_hw_addr-name :
      (n m : NetworkInterface)
      → find_network_interface_hw_addr t.host.interfaces n ≡ ok m
      → m.name ≡ n.name
  unfolding find_network_interface_hw_addr
  find_network_interface_hw_addr-name n m p = go _ _ t.host.interfaces.list p
    where
      named :
          (o : Option HostInterface)
          → found_or (no_matching_name n.name) (λ i. record n { hw_addr = i.hardware_addr }) o
            ≡ ok m
          → m.name ≡ n.name
      named none p = cc
      named (some i) p = cc

      go :
          (a b : Bool) (r : Result String (List HostInterface))
          → (if a
              then ok n
              else if b
              then (do
                interfaces ← map_err InterfaceError.failed r
                found_or
                    (no_matching_name n.name)
                    (λ i. record n { hw_addr = i.hardware_addr })
                    (by_name n.name interfaces))
              else ok n)
            ≡ ok m
          → m.name ≡ n.name
      go true b r p = cc
      go false false r p = cc
      go false true (err e) p = cc
      go false true (ok is) p = named (by_name n.name is) p

  abbrev NonEmpty : List String → Type 0
  NonEmpty l = l ≢ []

  cons-ne : (n : NetworkInterface) (js : List NetworkInterface) → n ∷ js ≢ []
  cons-ne n js q = cc

  up_interfaces-up :
      (l : List String) (is : List NetworkInterface)
      → up_interfaces t l ≡ ok (ok is)
      → All (λ i. t.nic_state i.name ≡ nic_up) is × (NonEmpty l → is ≢ [])
  unfolding up_interfaces
  up_interfaces-up [] is p =
      let path : [] ≡ is = cc in
      subst (λ ks. All (λ i. t.nic_state i.name ≡ nic_up) ks × (NonEmpty [] → ks ≢ [])) path
        (tt, λ ne _. ne refl)
  up_interfaces-up (x ∷ l) is p =
      go (t.nic_state x) _ (up_interfaces t l) refl refl (up_interfaces-up l) p
    where
      go :
          (s : NicState) (r : Result InterfaceError NetworkInterface) (rest : UpInterfaces t)
          → t.nic_state x ≡ s
          → find_network_interface_hw_addr t.host.interfaces (record { name = x; hw_addr = "" }) ≡ r
          → ((js : List NetworkInterface)
              → rest ≡ ok (ok js)
              → All (λ i. t.nic_state i.name ≡ nic_up) js × (NonEmpty l → js ≢ []))
          → first_state t (state_message t x s) r rest ≡ ok (ok is)
          → All (λ i. t.nic_state i.name ≡ nic_up) is × (NonEmpty (x ∷ l) → is ≢ [])
      go nic_not_found r rest a b h p = cc
      go nic_down r rest a b h p = cc
      go nic_lower_down r rest a b h p = cc
      go nic_up (err e) rest a b h p = cc
      go nic_up (ok n) (err e) a b h p = cc
      go nic_up (ok n) (ok (err m)) a b h p = cc
      go nic_up (ok n) (ok (ok js)) a b h p =
          let same = find_network_interface_hw_addr-name _ n b in
          let path : n ∷ js ≡ is = cc in
          let up : t.nic_state n.name ≡ nic_up = cc in
          subst (λ ks. All (λ i. t.nic_state i.name ≡ nic_up) ks × (NonEmpty (x ∷ l) → ks ≢ []))
            path ((up, (h js refl).0), λ _. cons-ne n js)

  pub validate_interface-Gives :
      (P : Network → Type 0) (p : NetworkPage)
      → ((is : List NetworkInterface)
          → (is ≢ [])
          → All (λ i. t.nic_state i.name ≡ nic_up) is
          → P (let n = p.mgmt_network in record n { interfaces = is }))
      → Gives P p (validate_interface t p)
  unfolding validate_interface
  validate_interface-Gives P p h = go p.chosen_interfaces
    where
      taken :
          (l : List String)
          → l ≢ []
          → (r : Result String (Result String (List NetworkInterface))) → up_interfaces t l ≡ r
          → Gives P p (take_interfaces t p r)
      taken l ne (err e) q = tt
      taken l ne (ok (err m)) q = (refl, refl, refl, refl)
      taken l ne (ok (ok is)) q =
          let (ups, some_left) = up_interfaces-up l is q in
          (refl, refl, refl, h is (some_left ne) ups)

      go :
          (l : List String)
          → Gives P p (
              if is_empty l
              then refuse t "Must select at least one interface" p
              else take_interfaces t p (up_interfaces t l))
      go [] = (refl, refl, refl, refl)
      go (x ∷ l) = taken (x ∷ l) (λ q. cc) _ refl
