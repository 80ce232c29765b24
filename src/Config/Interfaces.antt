-- ===== src/Config/Interfaces.antt =====
-- The look-up of a network interface by its MAC address and back, in pkg/config/config.go. The
-- interfaces of the machine, and the reading of a MAC address in its canonical form (the string of
-- what net.ParseMAC returns), are parameters.
pub mod Found
use harvester_installer.Prelude.{
  Bool, List, Option, Result, String, [], err, if◌then◌else◌, map_err, none, not, ok, some, ◌&&◌,
  ◌==◌, ◌>>=◌, ◌>>◌, ◌∷◌,
}
use harvester_installer.Config.Types.{NetworkInterface}

-- `net.Interface`, with the string of its hardware address.
pub record HostInterface : Type 0 where
  pub name : String
  pub hardware_addr : String
  pub loopback : Bool

pub record Interfaces : Type 0 where
  pub parse_mac : String → Result String String
  pub list : Result String (List HostInterface)

pub data InterfaceError : Type 0 where
  failed : String → InterfaceError
  no_matching_address : String → InterfaceError
  no_matching_name : String → InterfaceError

unfoldable pub by_address : String → List HostInterface → Option HostInterface
by_address address [] = none
by_address address (i ∷ is) = if i.hardware_addr == address then some i else by_address address is

unfoldable pub by_name : String → List HostInterface → Option HostInterface
by_name name [] = none
by_name name (i ∷ is) = if i.name == name then some i else by_name name is

-- The end of a search: the field is set, or the error is returned.
abbrev pub found_or {ℓ} :
    {A : Type ℓ}
    → InterfaceError
    → (HostInterface → A)
    → Option HostInterface
    → Result InterfaceError A
found_or e f none = err e
found_or e f (some i) = ok (f i)

module _ (host : Interfaces) where
  unfoldable pub find_network_interface_name :
      NetworkInterface → Result InterfaceError NetworkInterface
  find_network_interface_name n =
      if not (n.name == "")
      then ok n
      else if n.name == "" && not (n.hw_addr == "")
      then (do
        address ← map_err failed (host.parse_mac n.hw_addr)
        interfaces ← map_err failed host.list
        found_or (no_matching_address n.hw_addr) (λ i. record n { name = i.name })
            (by_address address interfaces))
      else ok n

  unfoldable pub find_network_interface_hw_addr :
      NetworkInterface → Result InterfaceError NetworkInterface
  find_network_interface_hw_addr n =
      if not (n.hw_addr == "")
      then ok n
      else if not (n.name == "") && n.hw_addr == ""
      then (do
        interfaces ← map_err failed host.list
        found_or (no_matching_name n.name) (λ i. record n { hw_addr = i.hardware_addr })
            (by_name n.name interfaces))
      else ok n

  unfoldable pub find_network_interface_name_and_hw_addr :
      NetworkInterface → Result InterfaceError NetworkInterface
  find_network_interface_name_and_hw_addr n = do
    m ← find_network_interface_name n
    find_network_interface_hw_addr m
