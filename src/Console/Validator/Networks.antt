-- ===== src/Console/Validator/Networks.antt =====
-- pkg/console/validator.go: the management network and the VIP that pass.
use harvester_installer.Prelude.{
  All, Bool, Bool-cases, List, Option-cases, Result-cases, String, [], arith, check_all, eq_iff,
  fail_if-passes, fail_iff, false, inl, inr, is_above, is_below, is_empty, is_empty_iff, negsuc,
  not, ok, pos, refl, seq_iff, some, true, ℕ, ℤ, ◌&&◌, ◌==◌, ◌||◌, ◌↔◌, ◌∷◌, ◌≡◌, ◌≢◌, ◌≤◌, ◌⊎◌,
}
use harvester_installer.Config.Types.{
  Network, NetworkInterface, network_method_dhcp, network_method_static,
}
use harvester_installer.Config.Interfaces.{HostInterface, by_name, find_network_interface_name}
use harvester_installer.Console.Validator.Fields.{check_static_required_string}
use harvester_installer.Console.Validator.Values.{check_mtu_iff}
use harvester_installer.Console.Validator.Machine.{
  Host, check_interface, check_ip, check_method, check_networks, check_static_network,
}

-- An MTU that is left at its default or lies in the range.
abbrev pub IsMtu : ℤ → Type 0
IsMtu mtu = (n : ℕ) × (mtu ≡ pos n) × ((n ≡ 0) ⊎ ((576 ≤ n) × (n ≤ 9000)))

required_iff : (field v : String) → check_static_required_string field v ≡ ok tt ↔ (v ≢ "")
unfolding check_static_required_string
required_iff field v =
    fail_iff (v == "") _ (ground (arith, eq_iff v ""), ground (arith, eq_iff v ""))

pub not_iff : (b : Bool) → not b ≡ false ↔ (b ≡ true)
not_iff true = (λ h. refl, λ h. refl)
not_iff false = (λ h. cc, λ h. cc)

method_iff :
    (m : String)
    → (not (m == network_method_dhcp) && not (m == network_method_static)) ≡ false
      ↔ (m ≡ network_method_dhcp) ⊎ (m ≡ network_method_static)
method_iff m = (
  ground (arith, eq_iff m network_method_dhcp, eq_iff m network_method_static),
  ground (arith, eq_iff m network_method_dhcp, eq_iff m network_method_static),
)

dns_iff :
    (m : String) (dns_servers : List String)
    → (m == network_method_static && is_empty dns_servers) ≡ false
      ↔ (m ≡ network_method_static → dns_servers ≢ [])
dns_iff m dns_servers = elim (Bool-cases (m == network_method_static)) [
  | inl e ↦
      let (to, back) = is_empty_iff dns_servers in
      (λ p _. to (rw e at p), λ p. rw e (back (p ((eq_iff _ _).0 e))))
  | inr e ↦ (λ p s. absurd (ground (arith, eq_iff m network_method_static)), λ p. rw e)
]

vlan_iff :
    (v : ℤ) → (is_below v 0 || is_above v 4094) ≡ false ↔ ((n : ℕ) × (v ≡ pos n) × (n ≤ 4094))
vlan_iff (pos n) = (λ p. (n, refl, ground arith), λ p. ground arith)
vlan_iff (negsuc n) = (λ p. cc, λ p. cc p.1)

module _ (h : Host) where
  pub check_ip_iff : (addr : String) → check_ip h addr ≡ ok tt ↔ (h.is_ipv4 addr ≡ true)
  unfolding check_ip
  check_ip_iff addr = fail_iff (not (h.is_ipv4 addr)) _ (not_iff (h.is_ipv4 addr))

  pub record IsStatic (n : Network) : Type 0 where
    pub ip_given : n.ip ≢ ""
    pub ip_is : h.is_ipv4 n.ip ≡ true
    pub mask_given : n.subnet_mask ≢ ""
    pub mask_is : h.is_ipv4 n.subnet_mask ≡ true
    pub gateway_given : n.gateway ≢ ""
    pub gateway_is : h.is_ipv4 n.gateway ≡ true
    pub mtu_is : IsMtu n.mtu

  check_static_network_iff : (n : Network) → check_static_network h n ≡ ok tt ↔ IsStatic n
  unfolding check_static_network
  check_static_network_iff n =
      let chain = seq_iff (required_iff "ip" n.ip) (
        seq_iff (check_ip_iff n.ip) (
          seq_iff (required_iff "subnetMask" n.subnet_mask) (
            seq_iff (check_ip_iff n.subnet_mask) (
              seq_iff (required_iff "gateway" n.gateway)
                (seq_iff (check_ip_iff n.gateway) (check_mtu_iff n.mtu)))))) in
      (
        λ p.
            let (a, (b, (c, (d, (e, (f, g)))))) = chain.0 p in
            record {
              ip_given = a;
              ip_is = b;
              mask_given = c;
              mask_is = d;
              gateway_given = e;
              gateway_is = f;
              mtu_is = g;
            },
        λ s. chain.1 (
          s.ip_given,
          (s.ip_is, (s.mask_given, (s.mask_is, (s.gateway_given, (s.gateway_is, s.mtu_is))))),
        ),
      )

  -- The interface is given by name or is found by its address, and the first interface of the machine
  -- with its name is not a loopback.
  pub record IsInterface (given : NetworkInterface) : Type 0 where
    pub iface : NetworkInterface
    pub found : find_network_interface_name h.interfaces given ≡ ok iface
    pub named : iface.name ≢ ""
    pub ifaces : List HostInterface
    pub listed : h.interfaces.list ≡ ok ifaces
    pub nic : HostInterface
    pub nic_is : by_name iface.name ifaces ≡ some nic
    pub not_loopback : nic.loopback ≡ false

  check_interface-IsInterface :
      (given : NetworkInterface) → check_interface h given ≡ ok tt → IsInterface given
  unfolding check_interface
  check_interface-IsInterface given p =
      elim (Result-cases (find_network_interface_name h.interfaces given)) [
        | inl (x, e) ↦ cc (rw e at p)
        | inr (iface, e) ↦ elim (Bool-cases (iface.name == "")) [
          | inl n ↦ cc (rw (e, n) at p)
          | inr n ↦ elim (Result-cases h.interfaces.list) [
            | inl (x, l) ↦ cc (rw (e, n, l) at p)
            | inr (ifaces, l) ↦ elim (Option-cases (by_name iface.name ifaces)) [
              | inl b ↦ cc (rw (e, n, l, b) at p)
              | inr (nic, b) ↦ record {
                iface = iface;
                found = e;
                named = ground (arith, eq_iff iface.name "");
                ifaces = ifaces;
                listed = l;
                nic = nic;
                nic_is = b;
                not_loopback = (fail_if-passes nic.loopback _).0 (rw (e, n, l, b) at p);
              }
            ]
          ]
        ]
      ]

  IsInterface-passes :
      (given : NetworkInterface) → IsInterface given → check_interface h given ≡ ok tt
  unfolding check_interface
  IsInterface-passes given s =
      let n : (s.iface.name == "") ≡ false = ground (arith, s.named, eq_iff s.iface.name "") in
      rw (s.found, n, s.listed, s.nic_is, s.not_loopback) refl

  interfaces_iff :
      (given : List NetworkInterface)
      → check_all (check_interface h) given ≡ ok tt ↔ All IsInterface given
  interfaces_iff [] = (λ p. tt, λ p. refl)
  interfaces_iff (i ∷ is) =
      seq_iff (check_interface-IsInterface i, IsInterface-passes i) (interfaces_iff is)

  -- What `checkNetworks` asks of a network.
  pub record IsNetwork (dns_servers : List String) (n : Network) : Type 0 where
    pub has_interface : n.interfaces ≢ []
    pub method_is : (n.method ≡ network_method_dhcp) ⊎ (n.method ≡ network_method_static)
    pub dns_given : n.method ≡ network_method_static → dns_servers ≢ []
    pub interfaces_are : All IsInterface n.interfaces
    pub vlan_is : (v : ℕ) × (n.vlan_id ≡ pos v) × (v ≤ 4094)
    pub static_is : n.method ≡ network_method_static → IsStatic n

  check_method_iff :
      (n : Network) (m : String)
      → (m ≡ network_method_dhcp) ⊎ (m ≡ network_method_static)
      → check_method h n m ≡ ok tt ↔ (m ≡ network_method_static → IsStatic n)
  unfolding check_method
  check_method_iff n m (inl e) =
      rw e (
        λ p s. absurd (ground (arith, eq_iff network_method_dhcp network_method_static)),
        λ p. refl,
      )
  check_method_iff n m (inr e) =
      let (to, back) = check_static_network_iff n in rw e (λ p s. to p, λ p. back (p refl))

  -- A network passes exactly when it has an interface, its method is DHCP or static, a static one
  -- comes with a DNS server, every interface is found on the machine and is not a loopback, the VLAN
  -- is from 0 to 4094, and a static network has IPv4 texts for its address, mask and gateway and an
  -- MTU that is 0 or in the range.
  pub check_networks_iff :
      (n : Network) (dns_servers : List String)
      → check_networks h n dns_servers ≡ ok tt ↔ IsNetwork dns_servers n
  unfolding check_networks
  check_networks_iff n dns_servers =
      let chain = seq_iff (fail_iff (is_empty n.interfaces) _ (is_empty_iff n.interfaces)) (
        seq_iff
          (fail_iff
            (not (n.method == network_method_dhcp) && not (n.method == network_method_static)) _
            (method_iff n.method))
          (seq_iff
            (fail_iff (n.method == network_method_static && is_empty dns_servers) _
              (dns_iff n.method dns_servers))
            (seq_iff (interfaces_iff n.interfaces) (
              seq_iff
                (fail_iff (is_below n.vlan_id 0 || is_above n.vlan_id 4094) _ (vlan_iff n.vlan_id))
                (
                  λ (p : check_method h n n.method ≡ ok tt). p,
                  λ (p : check_method h n n.method ≡ ok tt). p,
                ))))) in
      (
        λ p.
            let (a, (b, (c, (d, (e, f))))) = chain.0 p in
            record {
              has_interface = a;
              method_is = b;
              dns_given = c;
              interfaces_are = d;
              vlan_is = e;
              static_is = (check_method_iff n n.method b).0 f;
            },
        λ s. chain.1 (
          s.has_interface,
          (
            s.method_is,
            (
              s.dns_given,
              (
                s.interfaces_are,
                (s.vlan_is, (check_method_iff n n.method s.method_is).1 s.static_is),
              ),
            ),
          ),
        ),
      )
