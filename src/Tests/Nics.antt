-- ===== src/Tests/Nics.antt =====
-- A machine with two NICs of one hardware address and a VLAN that an iSCSI session uses.
use harvester_installer.Prelude.{
  Among, List, String, [], if◌then◌else◌, ok, refl, true, ◌==◌, ◌↔◌, ◌∷◌, ◌≡◌,
}
use harvester_installer.Console.Nics.{Link, LinkTools, filtered, get_nics, is_nic, is_vlan}
use harvester_installer.Console.Nics.Kept.{IsFreeOf, IsLastOf, get_nics_iff}

abbrev link : String → String → String → Link
link name kind hw_addr = record {
  name = name;
  kind = kind;
  encap_type = "ether";
  hw_addr = hw_addr;
}

abbrev eth : String → String → Link
eth name hw_addr = link name "device" hw_addr

abbrev machine_links : List Link
machine_links =
    eth "eth0" "02:00" ∷ eth "eth1" "02:01" ∷ eth "eth2" "02:01" ∷ link "eth0.7" "vlan" "02:00" ∷ []

abbrev link_tools : LinkTools
link_tools = record {
  link_list = ok machine_links;
  link_by_name = λ name. ok (record { up = true; lower_up = true });
  sessions = ok ("10.0.0.7" ∷ []);
  interface_by_name = λ name. ok tt;
  addrs = λ name. ok (if name == "eth0.7" then "10.0.0.7/24" ∷ [] else "10.0.0.1/24" ∷ []);
  parse_cidr = λ cidr. ok (if cidr == "10.0.0.7/24" then "10.0.0.7" else "10.0.0.1");
}

abbrev free_nics : List Link
free_nics = eth "eth2" "02:01" ∷ []

get_nics_run : get_nics link_tools ≡ ok free_nics
unfolding get_nics
get_nics_run = refl

get_nics_iff_example :
    Among (eth "eth2" "02:01") free_nics
    ↔ IsLastOf (eth "eth2" "02:01") (filtered is_nic machine_links)
      × (IsFreeOf link_tools ("10.0.0.7" ∷ []) (eth "eth2" "02:01") (filtered is_nic machine_links)
          × IsFreeOf link_tools
              ("10.0.0.7" ∷ [])
              (eth "eth2" "02:01")
              (filtered is_vlan machine_links))
get_nics_iff_example =
    get_nics_iff link_tools machine_links free_nics "10.0.0.7" [] refl refl get_nics_run
      (eth "eth2" "02:01")
