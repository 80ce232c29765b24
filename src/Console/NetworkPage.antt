-- ===== src/Console/NetworkPage.antt =====
-- The page of the management network in pkg/console/install_panels.go: its inputs, what confirms
-- them, and how the network is applied when the page is left. What gocui does to its views succeeds;
-- titles, notes and places are left out, a message of the parser of masks or of the validator does
-- not quote the text, and the network is applied before another key is pressed.
pub mod Moves
pub mod Known
pub mod Typed
pub mod Applied
pub mod Confirmed
pub mod Leaves
pub mod Kept
use harvester_installer.Prelude.{
  Bool, List, Option, Result, String, [], concat_text, eqb, err, false, if◌then◌else◌, is_above,
  is_below, is_empty, is_equal, length, none, ok, pos, some, succeeds, true, ℕ, ℤ, ◌==◌, ◌||◌, ◌∷◌,
}
use harvester_installer.Config.Types.{
  Dict, HarvesterConfig, Network, NetworkInterface, network_method_static,
}
use harvester_installer.Config.Interfaces.{InterfaceError, find_network_interface_hw_addr}
use harvester_installer.Config.Profiles.Effects.{Machine}
use harvester_installer.Console.Network.{NetworkTools}
use harvester_installer.Console.Validator.Machine.{Host, check_ip}
use harvester_installer.Console.Validator.Fields.{check_mtu}

pub data NicState : Type 0 where
  nic_not_found nic_down nic_lower_down nic_up : NicState

-- `strconv.Atoi`, the parsers of net, the masks of net with their texts, and what the machine says.
pub record PageTools : Type 0 where
  pub host : Host
  pub network_tools : NetworkTools
  pub nic_state : String → NicState
  pub atoi : String → Option ℤ
  pub split_dots : String → List String
  pub parse_cidr : String → Option (String × String)
  pub parse_ip : String → Option String
  pub mask_size : List ℤ → ℕ
  pub cidr_mask : ℕ → List ℤ
  pub mask_text : List ℤ → String
  pub dotted : List ℤ → String
  pub show_int : ℤ → String
  pub get_ip_through_dhcp : String → Result String String
  pub default_route : Result String Bool

pub data NetworkPanel : Type 0 where
  ask_interface_panel ask_vlan_id_panel ask_bond_mode_panel : NetworkPanel
  ask_network_method_panel address_panel addr_mask_panel : NetworkPanel
  gateway_panel mtu_panel : NetworkPanel

-- Back to the page before, or on to that of the cluster networks or of the hostname.
pub data NetworkRoute : Type 0 where
  stays to_previous_page to_next_page : NetworkRoute

-- `mgmtNetwork` and what the user gave, the texts and choices of the inputs, and the machine.
pub record NetworkPage : Type 0 where
  pub config : HarvesterConfig
  pub mgmt_network : Network
  pub address : String
  pub addr_mask : String
  pub chosen_interfaces : List String
  pub vlan_text : String
  pub bond_mode : String
  pub method : String
  pub address_text : String
  pub mask_text : String
  pub gateway_text : String
  pub mtu_text : String
  pub machine : Machine
  pub message : Option String
  pub focus : NetworkPanel
  pub route : NetworkRoute

abbrev pub set_mgmt : Network → NetworkPage → NetworkPage
set_mgmt n p = record p { mgmt_network = n }

abbrev pub with_message : String → NetworkPage → NetworkPage
with_message m p = record p { message = some m }

abbrev pub bond_with : String → Option Dict
bond_with mode = some (("mode", mode) ∷ ("miimon", "100") ∷ [])

abbrev pub with_default_bond : Network → Network
with_default_bond n = record n { bond_options = or_bond n.bond_options }
  where
    or_bond : Option Dict → Option Dict
    or_bond none = bond_with "active-backup"
    or_bond (some options) = some options

module _ (t : PageTools) where
  unfoldable pub number_text : ℤ → String
  number_text n = if is_equal n 0 then "" else t.show_int n

  -- `Show` of an input, with what its hook takes from the network.
  unfoldable pub show_panel : NetworkPanel → NetworkPage → NetworkPage
  unfolding number_text
  show_panel ask_interface_panel p = record p { focus = ask_interface_panel }
  show_panel ask_vlan_id_panel p = record p {
    vlan_text = number_text p.mgmt_network.vlan_id;
    focus = ask_vlan_id_panel;
  }
  show_panel ask_bond_mode_panel p = record p {
    mgmt_network = with_default_bond p.mgmt_network;
    bond_mode = bond_mode_of p.bond_mode p.mgmt_network.bond_options;
    focus = ask_bond_mode_panel;
  }
    where
      bond_mode_of : String → Option Dict → String
      bond_mode_of mode none = "active-backup"
      bond_mode_of mode (some options) = mode
  show_panel ask_network_method_panel p = record p { focus = ask_network_method_panel }
  show_panel address_panel p = record p { address_text = p.address; focus = address_panel }
  show_panel addr_mask_panel p = record p {
    mask_text = p.mgmt_network.subnet_mask;
    focus = addr_mask_panel;
  }
  show_panel gateway_panel p = record p {
    gateway_text = p.mgmt_network.gateway;
    focus = gateway_panel;
  }
  show_panel mtu_panel p = record p { mtu_text = number_text p.mgmt_network.mtu; focus = mtu_panel }

  unfoldable pub show_panels : List NetworkPanel → NetworkPage → NetworkPage
  show_panels [] p = p
  show_panels (name ∷ names) p = show_panels names (show_panel name p)

  unfoldable pub show_network_page : NetworkPage → NetworkPage
  unfolding show_panels
  show_network_page p0 =
      let p = record p0 { route = stays } in
      if p.mgmt_network.method == network_method_static
      then show_panels
          (ask_vlan_id_panel ∷ ask_bond_mode_panel ∷ ask_network_method_panel ∷ address_panel
            ∷ addr_mask_panel ∷ gateway_panel ∷ mtu_panel ∷ ask_interface_panel ∷ [])
          p
      else show_panels
          (ask_vlan_id_panel ∷ ask_bond_mode_panel ∷ ask_network_method_panel ∷ ask_interface_panel
            ∷ [])
          p

  -- An error ends the console; else whether the text is accepted, with the page.
  abbrev pub Verdict : Type 0
  Verdict = Result String (Bool × NetworkPage)

  abbrev pub accept : NetworkPage → Verdict
  accept p = ok (true, p)

  abbrev pub refuse : String → NetworkPage → Verdict
  refuse m p = ok (false, with_message m p)

  abbrev pub state_message : String → NicState → Option String
  state_message iface nic_not_found = some (concat_text "NIC " (concat_text iface " not found"))
  state_message iface nic_down = some (concat_text "NIC " (concat_text iface " is down"))
  state_message iface nic_lower_down =
      some (concat_text "NIC " (concat_text iface " is down\nNetwork cable isn't plugged in"))
  state_message iface nic_up = none

  abbrev pub UpInterfaces : Type 0
  UpInterfaces = Result String (Result String (List NetworkInterface))

  abbrev pub rest_of : NetworkInterface → UpInterfaces → UpInterfaces
  rest_of n (err e) = err e
  rest_of n (ok (err m)) = ok (err m)
  rest_of n (ok (ok ns)) = ok (ok (n ∷ ns))

  abbrev pub first_state :
      Option String → Result InterfaceError NetworkInterface → UpInterfaces → UpInterfaces
  first_state (some m) found rest = ok (err m)
  first_state none (err e) rest = err "interface"
  first_state none (ok n) rest = rest_of n rest

  -- The interfaces in their order, or the message for the first that is not up.
  unfoldable pub up_interfaces : List String → UpInterfaces
  up_interfaces [] = ok (ok [])
  up_interfaces (iface ∷ ifaces) =
      first_state (state_message iface (t.nic_state iface))
        (find_network_interface_hw_addr t.host.interfaces (record { name = iface; hw_addr = "" }))
        (up_interfaces ifaces)

  abbrev pub take_interfaces :
      NetworkPage → Result String (Result String (List NetworkInterface)) → Verdict
  take_interfaces p (err e) = err e
  take_interfaces p (ok (err m)) = refuse m p
  take_interfaces p (ok (ok is)) =
      let n = p.mgmt_network in accept (set_mgmt (record n { interfaces = is }) p)

  unfoldable pub validate_interface : NetworkPage → Verdict
  validate_interface p =
      if is_empty p.chosen_interfaces
      then refuse "Must select at least one interface" p
      else take_interfaces p (up_interfaces p.chosen_interfaces)

  abbrev pub set_vlan : NetworkPage → Option ℤ → Verdict
  set_vlan p none = refuse "VLAN ID should be a number 1 ~ 4094." p
  set_vlan p (some v) =
      if is_below v 0 || is_above v 4094
      then refuse "VLAN ID should be a number 1 ~ 4094." p
      else (let n = p.mgmt_network in accept (set_mgmt (record n { vlan_id = v }) p))

  unfoldable pub validate_vlan_id : NetworkPage → Verdict
  validate_vlan_id p =
      if p.vlan_text == ""
      then (let n = p.mgmt_network in accept (set_mgmt (record n { vlan_id = pos 0 }) p))
      else set_vlan p (t.atoi p.vlan_text)

  abbrev pub set_ip : NetworkPage → Option String → Verdict
  set_ip p none = refuse (concat_text p.address_text " is not a valid IP address") p
  set_ip p (some ip) = let n = p.mgmt_network in accept (set_mgmt (record n { ip = ip }) p)

  -- An address with its mask, or else one without.
  abbrev pub set_address : NetworkPage → Option (String × String) → Verdict
  set_address p none = set_ip p (t.parse_ip p.address_text)
  set_address p (some (ip, mask)) =
      let n = p.mgmt_network in
      accept
        (record p { mgmt_network = record n { ip = ip; subnet_mask = mask }; addr_mask = mask })

  unfoldable pub validate_address : NetworkPage → Verdict
  validate_address p =
      if p.address_text == ""
      then refuse "must specify address in static method" p
      else set_address (record p { address = p.address_text }) (t.parse_cidr p.address_text)

  unfoldable pub parse_octets : List String → Option (List ℤ)
  parse_octets [] = some []
  parse_octets (part ∷ parts) = octet (t.atoi part) (parse_octets parts)
    where
      octet : Option ℤ → Option (List ℤ) → Option (List ℤ)
      octet (some n) (some ns) = if is_below n 0 || is_above n 255 then none else some (n ∷ ns)
      octet _ _ = none

  unfoldable pub is_valid_mask_format : List ℤ → Bool
  is_valid_mask_format mask = t.mask_text mask == t.mask_text (t.cidr_mask (t.mask_size mask))

  abbrev pub continuous : Option (List ℤ) → Option (List ℤ)
  continuous none = none
  continuous (some mask) = if is_valid_mask_format mask then some mask else none

  unfoldable pub parse_mask : String → Option (List ℤ)
  parse_mask mask =
      let parts = t.split_dots mask in
      if eqb (length parts) 4 then continuous (parse_octets parts) else none

  abbrev pub set_mask : NetworkPage → Option (List ℤ) → Verdict
  set_mask p none = refuse "invalid subnet mask" p
  set_mask p (some mask) =
      let n = p.mgmt_network in
      accept (record p {
        mgmt_network = record n { subnet_mask = t.dotted mask };
        addr_mask = t.mask_text mask;
      })

  unfoldable pub validate_addr_mask : NetworkPage → Verdict
  validate_addr_mask p =
      if p.mask_text == ""
      then refuse "must specify mask in static method" p
      else set_mask p (parse_mask p.mask_text)

  unfoldable pub validate_gateway : NetworkPage → Verdict
  validate_gateway p =
      if p.gateway_text == ""
      then refuse "must specify gateway in static method" p
      else if succeeds (check_ip t.host p.gateway_text)
      then (let n = p.mgmt_network in accept (set_mgmt (record n { gateway = p.gateway_text }) p))
      else refuse "not a valid IP address" p

  abbrev pub set_mtu : NetworkPage → Option ℤ → Verdict
  set_mtu p none = refuse "MTU should be a number." p
  set_mtu p (some mtu) =
      if succeeds (check_mtu mtu)
      then (let n = p.mgmt_network in accept (set_mgmt (record n { mtu = mtu }) p))
      else refuse "invalid MTU" p

  unfoldable pub validate_mtu : NetworkPage → Verdict
  validate_mtu p = set_mtu p (if p.mtu_text == "" then some (pos 0) else t.atoi p.mtu_text)
