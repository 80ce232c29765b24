-- ===== src/Console/ClusterNetwork.antt =====
-- The page of the cluster networks in pkg/console/install_panels.go: three inputs, each confirmed by
-- itself. What gocui does to its views succeeds; titles, notes and places are left out.
pub mod Leaves
pub mod Kept
use harvester_installer.Prelude.{
  Bool, Option, Result, String, discard, err, fail_if, if◌then◌else◌, none, not, ok, some, ◌&&◌,
  ◌==◌, ◌>>=◌, ◌>>◌, ◌≡◌,
}
use harvester_installer.Config.Types.{HarvesterConfig, Install}
use harvester_installer.Console.DiskPage.Keys.{Key, key_arrow_up, key_esc}

-- `netip`, with its prefixes and addresses as some types.
pub record NetTools (Prefix Addr : Type 0) : Type 0 where
  pub trim_space : String → String
  pub parse_prefix : String → Result String Prefix
  pub parse_addr : String → Result String Addr
  pub contains : Prefix → Addr → Bool

pub data ClusterPanel : Type 0 where
  cluster_pod_cidr_panel cluster_service_cidr_panel cluster_dns_panel : ClusterPanel

pub data ClusterRoute : Type 0 where
  stays to_network_page to_hostname_page : ClusterRoute

-- The configuration, the texts of the inputs, what the validator panel shows, the input that has the
-- focus, and where the last key has led.
pub record ClusterPage : Type 0 where
  pub config : HarvesterConfig
  pub pod_text : String
  pub service_text : String
  pub dns_text : String
  pub fault : Option String
  pub focus : ClusterPanel
  pub route : ClusterRoute

abbrev pub set_cluster : Install → ClusterPage → ClusterPage
set_cluster i p = let c = p.config in record p { config = record c { install = i }; fault = none }

-- `Show` of an input, with the value that its hook takes from the configuration.
unfoldable pub show_input : ClusterPanel → ClusterPage → ClusterPage
show_input cluster_pod_cidr_panel p = record p {
  pod_text = p.config.install.cluster_pod_cidr;
  fault = none;
  focus = cluster_pod_cidr_panel;
}
show_input cluster_service_cidr_panel p = record p {
  service_text = p.config.install.cluster_service_cidr;
  focus = cluster_service_cidr_panel;
}
show_input cluster_dns_panel p = record p {
  dns_text = p.config.install.cluster_dns;
  focus = cluster_dns_panel;
}

unfoldable pub show_cluster_network_page : ClusterPage → ClusterPage
unfolding show_input
show_cluster_network_page p = show_input cluster_pod_cidr_panel (
    show_input cluster_dns_panel
      (show_input cluster_service_cidr_panel (record p { route = stays })))

-- What is typed replaces the text of the input that has the focus.
unfoldable pub type_text : ClusterPanel → String → ClusterPage → ClusterPage
type_text cluster_pod_cidr_panel s p = record p { pod_text = s }
type_text cluster_service_cidr_panel s p = record p { service_text = s }
type_text cluster_dns_panel s p = record p { dns_text = s }

module _ {Prefix Addr : Type 0} (t : NetTools Prefix Addr) where
  unfoldable pub validate_cidr : String → Result String (Unit {0})
  validate_cidr cidr =
      if t.trim_space cidr == "" then ok tt else discard (t.parse_prefix (t.trim_space cidr))

  -- The prefix is read as it was typed, the address without the spaces around.
  unfoldable pub validate_dns_ip : String → String → Result String (Unit {0})
  validate_dns_ip service_cidr given =
      let ip = t.trim_space given in
      if ip == "" && service_cidr == "" then ok tt else (do
        ip_addr ← t.parse_addr ip
        svc_net ← t.parse_prefix service_cidr
        fail_if (not (t.contains svc_net ip_addr)) "not in the service CIDR")

  abbrev pub confirmed : Result String (Unit {0}) → ClusterPage → ClusterPage → ClusterPage
  confirmed (err e) p q = record p { fault = some e }
  confirmed (ok _) p q = q

  unfoldable pub pod_cidr_confirm : ClusterPage → ClusterPage
  unfolding show_input
  pod_cidr_confirm p = confirmed (validate_cidr p.pod_text) p (
      let i = p.config.install in
      show_input cluster_service_cidr_panel
        (set_cluster (record i { cluster_pod_cidr = p.pod_text }) p))

  unfoldable pub service_cidr_confirm : ClusterPage → ClusterPage
  unfolding show_input
  service_cidr_confirm p = confirmed (validate_cidr p.service_text) p (
      let i = p.config.install in
      show_input cluster_dns_panel
        (set_cluster (record i { cluster_service_cidr = p.service_text }) p))

  unfoldable pub dns_confirm : ClusterPage → ClusterPage
  dns_confirm p = confirmed (validate_dns_ip p.service_text p.dns_text) p (
      let i = p.config.install in
      let q = set_cluster (record i { cluster_dns = p.dns_text }) p in
      record q { route = to_hostname_page })

  unfoldable pub press_input : ClusterPanel → Key → ClusterPage → ClusterPage
  unfolding show_input
  press_input _ key_esc p = record p { fault = none; route = to_network_page }
  press_input cluster_pod_cidr_panel key_arrow_up p = record p {
    fault = none;
    route = to_network_page;
  }
  press_input cluster_pod_cidr_panel _ p = pod_cidr_confirm p
  press_input cluster_service_cidr_panel key_arrow_up p = show_input cluster_pod_cidr_panel p
  press_input cluster_service_cidr_panel _ p = service_cidr_confirm p
  press_input cluster_dns_panel key_arrow_up p = show_input cluster_service_cidr_panel p
  press_input cluster_dns_panel _ p = dns_confirm p

  -- The pages that the page has been since `p0` was shown.
  pub data Visits (p0 : ClusterPage) : ClusterPage → Type 0 where
    shown : Visits p0 (show_cluster_network_page p0)
    typed :
        {p : ClusterPage} (s : String)
        → p.route ≡ stays
        → Visits p0 p
        → Visits p0 (type_text p.focus s p)
    pressed :
        {p : ClusterPage} (key : Key)
        → p.route ≡ stays
        → Visits p0 p
        → Visits p0 (press_input p.focus key p)
