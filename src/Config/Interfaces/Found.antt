-- ===== src/Config/Interfaces/Found.antt =====
-- pkg/config/config.go: what the look-ups of an interface find.
use harvester_installer.Prelude.{
  Among, List, Option, String, [], arith, eq_iff, none, ok, refl, some, sym, ◌∙◌, ◌∷◌, ◌≡◌, ◌≢◌,
}
use harvester_installer.Config.Types.{NetworkInterface}
use harvester_installer.Config.Interfaces.{
  HostInterface, InterfaceError, Interfaces, by_address, find_network_interface_name, found_or,
  no_matching_address,
}

by_address_found :
    (address : String) (is : List HostInterface) {i : HostInterface}
    → by_address address is ≡ some i
    → Among i is × (i.hardware_addr ≡ address)
unfolding by_address
by_address_found address [] h = cc
by_address_found address (j ∷ is) {i} h =
    ground (arith, eq_iff j.hardware_addr address, by_address_found address is {i = i})

-- The interface that a network interface without a name is resolved to.
abbrev pub Resolved : List HostInterface → String → NetworkInterface → NetworkInterface → Type 0
Resolved is address n m =
    (i : HostInterface) × Among i is
    × (i.hardware_addr ≡ address)
    × (m ≡ record n { name = i.name })

found_or-Resolved :
    (e : InterfaceError) (is : List HostInterface) (address : String) (n : NetworkInterface)
    {m : NetworkInterface} (found : Option HostInterface)
    → ((i : HostInterface) → found ≡ some i → Among i is × (i.hardware_addr ≡ address))
    → found_or e (λ i. record n { name = i.name }) found ≡ ok m
    → Resolved is address n m
found_or-Resolved e is address n none f h = cc
found_or-Resolved e is address n (some i) f h = let (among, at) = f i refl in (i, among, at, cc)

-- When `FindNetworkInterfaceName` succeeds on an interface that has a MAC address and no name, it
-- sets the name, and nothing else, to that of an interface of the machine with this MAC address in
-- its canonical form.
pub find_network_interface_name-Resolved :
    (host : Interfaces) (n : NetworkInterface) {m : NetworkInterface} {is : List HostInterface}
    {address : String}
    → n.name ≡ ""
    → n.hw_addr ≢ ""
    → host.parse_mac n.hw_addr ≡ ok address
    → host.list ≡ ok is
    → find_network_interface_name host n ≡ ok m
    → Resolved is address n m
unfolding find_network_interface_name
find_network_interface_name-Resolved host n {m} {is} {address} unnamed addressed mac listed h =
    found_or-Resolved (no_matching_address n.hw_addr) is address n (by_address address is)
      (λ i g. by_address_found address is g)
      (sym (ground (arith, eq_iff n.name "", eq_iff n.hw_addr "")) ∙ h)
