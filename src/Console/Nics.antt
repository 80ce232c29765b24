-- ===== src/Console/Nics.antt =====
-- pkg/console/network.go: the NICs that the console offers, without those that an iSCSI session
-- uses. The link of a MAC address is an entry of the list `hw_device_map`, which has one for each.
pub mod Kept
use harvester_installer.Prelude.{
  Bool, List, Result, String, [], err, false, if◌then◌else◌, is_empty, not, ok, slice_contains,
  true, ◌&&◌, ◌==◌, ◌>>=◌, ◌∷◌,
}
use harvester_installer.Console.NetworkPage.{
  NicState, nic_down, nic_lower_down, nic_not_found, nic_up,
}

pub record Link : Type 0 where
  pub name : String
  pub kind : String
  pub encap_type : String
  pub hw_addr : String

-- `IFF_UP` and `IFF_LOWER_UP`
pub record LinkFlags : Type 0 where
  pub up : Bool
  pub lower_up : Bool

-- netlink, goiscsi (the addresses of the sessions) and net. `parse_cidr` gives the address alone.
pub record LinkTools : Type 0 where
  pub link_list : Result String (List Link)
  pub link_by_name : String → Result String LinkFlags
  pub sessions : Result String (List String)
  pub interface_by_name : String → Result String (Unit {0})
  pub addrs : String → Result String (List String)
  pub parse_cidr : String → Result String String

-- A NIC, or the parent of a VLAN.
unfoldable pub is_nic : Link → Bool
is_nic l = l.kind == "device" && not (l.encap_type == "loopback")

unfoldable pub is_vlan : Link → Bool
is_vlan l = l.kind == "vlan"

unfoldable pub filtered : (Link → Bool) → List Link → List Link
filtered test [] = []
filtered test (l ∷ ls) = let rest = filtered test ls in if test l then l ∷ rest else rest

-- `delete(hwDeviceMap, hwAddr)`
unfoldable pub delete : String → List Link → List Link
delete hw_addr [] = []
delete hw_addr (l ∷ ls) =
    let rest = delete hw_addr ls in if l.hw_addr == hw_addr then rest else l ∷ rest

-- `hwDeviceMap[v.Attrs().HardwareAddr.String()] = v` for each NIC.
unfoldable pub hw_device_map : List Link → List Link → List Link
unfolding delete
hw_device_map devices [] = devices
hw_device_map devices (v ∷ nics) = hw_device_map (v ∷ delete v.hw_addr devices) nics

unfoldable pub nic_state_of : Result String LinkFlags → NicState
nic_state_of (err e) = nic_not_found
nic_state_of (ok flags) =
    if not flags.up then nic_down else if not flags.lower_up then nic_lower_down else nic_up

abbrev pub is_up : NicState → Bool
is_up nic_up = true
is_up _ = false

module _ (t : LinkTools) where
  unfoldable pub get_nic_state : String → NicState
  unfolding nic_state_of
  get_nic_state name = nic_state_of (t.link_by_name name)

  -- The loop over the addresses of an interface.
  unfoldable pub has_session : List String → List String → Result String Bool
  unfolding slice_contains
  has_session sessions [] = ok false
  has_session sessions (address ∷ addresses) = t.parse_cidr address >>= λ ip.
      if slice_contains sessions ip then ok true else has_session sessions addresses

  -- Whether a session uses a link.
  unfoldable pub is_used : List String → Link → Result String Bool
  unfolding get_nic_state has_session
  is_used sessions link =
      if is_up (get_nic_state link.name)
      then (t.interface_by_name link.name >>= λ _.
          t.addrs link.name >>= λ addresses. has_session sessions addresses)
      else ok false

  unfoldable pub filter_nics_by_session :
      List String → List Link → List Link → Result String (List Link)
  unfolding is_used delete
  filter_nics_by_session sessions devices [] = ok devices
  filter_nics_by_session sessions devices (link ∷ links) = is_used sessions link >>= λ used.
      filter_nics_by_session sessions (if used then delete link.hw_addr devices else devices) links

  unfoldable pub filter_iscsi_interfaces :
      List Link → List Link → List String → Result String (List Link)
  unfolding filter_nics_by_session hw_device_map
  filter_iscsi_interfaces nics vlan_nics sessions =
      filter_nics_by_session sessions (hw_device_map [] nics) nics >>= λ devices.
      filter_nics_by_session sessions devices vlan_nics

  unfoldable pub get_nics : Result String (List Link)
  unfolding filter_iscsi_interfaces filtered is_nic is_vlan
  get_nics = t.link_list >>= λ links. t.sessions >>= λ sessions.
      if is_empty sessions
      then ok (filtered is_nic links)
      else filter_iscsi_interfaces (filtered is_nic links) (filtered is_vlan links) sessions
