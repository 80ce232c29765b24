-- ===== src/Console/ClusterNetwork/Kept.antt =====
-- pkg/console/install_panels.go: what the page of the cluster networks leaves of a configuration.
use harvester_installer.Prelude.{Result, String, ap, err, ok, refl, ◌≡◌}
use harvester_installer.Config.Types.{HarvesterConfig}
use harvester_installer.Console.DiskPage.Keys.{
  Key, key_arrow_down, key_arrow_up, key_enter, key_esc,
}
use harvester_installer.Console.ClusterNetwork.{
  ClusterPage, ClusterPanel, NetTools, Visits, cluster_dns_panel, cluster_pod_cidr_panel,
  cluster_service_cidr_panel, confirmed, dns_confirm, pod_cidr_confirm, press_input, pressed,
  service_cidr_confirm, show_cluster_network_page, show_input, shown, type_text, typed,
}

abbrev pub with_cluster : String → String → String → HarvesterConfig → HarvesterConfig
with_cluster pod service dns c =
    let i = c.install in
    record c {
      install = record i {
        cluster_pod_cidr = pod;
        cluster_service_cidr = service;
        cluster_dns = dns;
      };
    }

module _ {Prefix Addr : Type 0} (t : NetTools Prefix Addr) (p0 : ClusterPage) where
  -- The configuration of the page that was shown, but for its cluster networks.
  abbrev pub IsKept : HarvesterConfig → Type 0
  IsKept c = (pod service dns : String) × (c ≡ with_cluster pod service dns p0.config)

  confirmed-IsKept :
      (r : Result String (Unit {0})) (p q : ClusterPage)
      → IsKept p.config
      → IsKept q.config
      → IsKept (confirmed t r p q).config
  confirmed-IsKept (err e) p q k h = k
  confirmed-IsKept (ok _) p q k h = h

  pod_cidr_confirm-IsKept :
      (p : ClusterPage) → IsKept p.config → IsKept (pod_cidr_confirm t p).config
  unfolding pod_cidr_confirm show_input
  pod_cidr_confirm-IsKept p k =
      let (a, b, c, e) = k in
      confirmed-IsKept _ p _ k (
        p.pod_text,
        b,
        c,
        ap (λ d. with_cluster p.pod_text d.install.cluster_service_cidr d.install.cluster_dns d) e,
      )

  service_cidr_confirm-IsKept :
      (p : ClusterPage) → IsKept p.config → IsKept (service_cidr_confirm t p).config
  unfolding service_cidr_confirm show_input
  service_cidr_confirm-IsKept p k =
      let (a, b, c, e) = k in
      confirmed-IsKept _ p _ k (
        a,
        p.service_text,
        c,
        ap (λ d. with_cluster d.install.cluster_pod_cidr p.service_text d.install.cluster_dns d) e,
      )

  dns_confirm-IsKept : (p : ClusterPage) → IsKept p.config → IsKept (dns_confirm t p).config
  unfolding dns_confirm
  dns_confirm-IsKept p k =
      let (a, b, c, e) = k in
      confirmed-IsKept _ p _ k (
        a,
        b,
        p.dns_text,
        ap
            (λ d.
              with_cluster d.install.cluster_pod_cidr d.install.cluster_service_cidr p.dns_text d)
            e,
      )

  press_input-IsKept :
      (at : ClusterPanel) (key : Key) (p : ClusterPage)
      → IsKept p.config
      → IsKept (press_input t at key p).config
  unfolding press_input show_input
  press_input-IsKept cluster_pod_cidr_panel key_esc p k = k
  press_input-IsKept cluster_service_cidr_panel key_esc p k = k
  press_input-IsKept cluster_dns_panel key_esc p k = k
  press_input-IsKept cluster_pod_cidr_panel key_arrow_up p k = k
  press_input-IsKept cluster_pod_cidr_panel key_enter p k = pod_cidr_confirm-IsKept p k
  press_input-IsKept cluster_pod_cidr_panel key_arrow_down p k = pod_cidr_confirm-IsKept p k
  press_input-IsKept cluster_service_cidr_panel key_arrow_up p k = k
  press_input-IsKept cluster_service_cidr_panel key_enter p k = service_cidr_confirm-IsKept p k
  press_input-IsKept cluster_service_cidr_panel key_arrow_down p k = service_cidr_confirm-IsKept p k
  press_input-IsKept cluster_dns_panel key_arrow_up p k = k
  press_input-IsKept cluster_dns_panel key_enter p k = dns_confirm-IsKept p k
  press_input-IsKept cluster_dns_panel key_arrow_down p k = dns_confirm-IsKept p k

  type_text-IsKept :
      (at : ClusterPanel) (s : String) (p : ClusterPage)
      → IsKept p.config
      → IsKept (type_text at s p).config
  unfolding type_text
  type_text-IsKept cluster_pod_cidr_panel s p k = k
  type_text-IsKept cluster_service_cidr_panel s p k = k
  type_text-IsKept cluster_dns_panel s p k = k

  pub Visits-IsKept : {p : ClusterPage} → Visits t p0 p → IsKept p.config
  unfolding show_cluster_network_page show_input
  Visits-IsKept shown = (_, _, _, refl)
  Visits-IsKept (typed {p = p} s r v) = type_text-IsKept p.focus s p (Visits-IsKept v)
  Visits-IsKept (pressed {p = p} key s v) = press_input-IsKept p.focus key p (Visits-IsKept v)
