-- ===== src/Console/Dialog/Leaves.antt =====
-- pkg/console/install_panels.go: what the wizard hands to the panel of the installation.
use mathlib.Core.Path.{subst, subst⁻¹}
use harvester_installer.Prelude.{String, ap, false, inl, inr, sym, ◌∙◌, ◌≡◌}
use harvester_installer.Config.Types.{HarvesterConfig, Network}
use harvester_installer.Console.DiskPage.Accepted.{Accepted}
use harvester_installer.Console.DiskPage.Leaves.{press-Accepted}
use harvester_installer.Console.NetworkPage.Kept.{Seen-IsKept, with_mgmt}
use harvester_installer.Console.NetworkPage.Leaves.{Seen-IsApplied}
use harvester_installer.Console.ClusterNetwork.Kept.{Visits-IsKept, with_cluster}
use harvester_installer.Console.ClusterNetwork.Leaves.{Visits-IsAccepted}
use harvester_installer.Console.VipPage.{VipPage, VipRun}
use harvester_installer.Console.ClusterNetwork.{ClusterPage, Visits}
use harvester_installer.Console.VipPage.Verified.{IsVipOf, with_vip}
use harvester_installer.Console.VipPage.Leaves.{VipRun-IsVipOf, VipRun-Kept}
use harvester_installer.Console.Dialog.{
  Dialog, DialogPage, WizardTools, ask_role_esc, cloud_init_page, cluster_network_page,
  confirm_install_page, disk_esc, dns_servers_page, goto, hostname_page, install_page, network_page,
  ntp_servers_page, password_confirm_up, proxy_page, server_url_page, ssh_key_page, token_page,
  vip_page,
}
use harvester_installer.Console.Dialog.Later.{
  cloud_init_esc, confirm_upgrade_esc, proxy_esc, ssh_key_esc,
}
use harvester_installer.Console.Dialog.Known.{
  HasDisks, HasNetwork, IsConfirmed, IsNamed, IsNamed-edited, IsVip, Known,
}
use harvester_installer.Console.Dialog.Steps.{
  Reached, Step, ask_create, ask_role, cloud_init, cloud_init_back, cluster_back, cluster_left,
  confirm_back, confirm_install, confirm_upgrade, disk_back, disk_env, disk_left, dns, dns_back,
  first, hostname, hostname_back, install_back, late_failure, network_back, network_left, next, ntp,
  ntp_back, password, password_back, password_confirm, password_up, preflight, proxy, proxy_back,
  role_back, server_url, server_url_back, ssh_key, ssh_key_back, token, token_back, upgrade_back,
  vip_back, vip_left,
}
use harvester_installer.Console.Dialog.Ready.{
  Holds, Leads, ask_create_enter-Holds, ask_role_enter-Holds, disk_next-Holds, hostname_page-Holds,
  network_next-Holds, network_prev-Holds, password_confirm_enter-Leads, password_confirm_key-Holds,
  password_escape-Holds,
}
use harvester_installer.Console.Dialog.Ahead.{
  dns_enter-Holds, dns_esc-Holds, hostname_enter-Holds, hostname_prev-Holds, server_url_enter-Holds,
  server_url_esc-Holds, token_enter-Holds, token_esc-Holds, vip_next-Holds, vip_prev-Holds,
}
use harvester_installer.Console.Dialog.Last.{
  cloud_init_enter-Holds, confirm_install_enter-Holds, confirm_install_esc-Holds,
  confirm_upgrade_enter-Holds, ntp_enter-Holds, ntp_esc-Holds, preflight_enter-Holds,
  proxy_enter-Holds, ssh_key_enter-Holds,
}

module _ {Prefix Addr : Type 0} (w : WizardTools Prefix Addr)
    (Offers : String → String → Type 0) where
  -- The pages of the networks keep the disks, and that of the virtual IP all that is named.
  disks_of : (s : Dialog) (c : HarvesterConfig) → Accepted (disk_env w s) c → HasDisks w c
  disks_of s c a fresh = record { sizes = a.sizes; witness = a.witness; partition = a.partition }

  mgmt-HasDisks : (n : Network) (c : HarvesterConfig) → HasDisks w c → HasDisks w (with_mgmt n c)
  mgmt-HasDisks n c d fresh =
      let a = d fresh in
      record {
        sizes = λ s.
            let z = a.sizes s in
            record { witness = z.witness; shared = z.shared; separate = z.separate };
        witness = a.witness;
        partition = a.partition;
      }

  cluster-HasDisks :
      (pod service dns_ip : String) (c : HarvesterConfig)
      → HasDisks w c
      → HasDisks w (with_cluster pod service dns_ip c)
  cluster-HasDisks pod service dns_ip c d fresh =
      let a = d fresh in
      record {
        sizes = λ s.
            let z = a.sizes s in
            record { witness = z.witness; shared = z.shared; separate = z.separate };
        witness = a.witness;
        partition = a.partition;
      }

  abbrev Based : HarvesterConfig → Type 0
  Based c = HasDisks w c × HasNetwork w c

  cluster-Based :
      (s : Dialog) (p0 p : ClusterPage)
      → p0.config ≡ s.config
      → Visits w.cidr p0 p
      → Based s.config
      → Based p.config
  cluster-Based s p0 p same v (d, h) =
      let (pod, service, dns_ip, e) = Visits-IsKept w.cidr p0 v in
      subst⁻¹ Based (e ∙ ap (with_cluster pod service dns_ip) same)
        (cluster-HasDisks pod service dns_ip s.config d, h)

  abbrev Named : Network → HarvesterConfig → Type 0
  Named n c = (c.install.mode ≡ "create") × IsNamed w n c

  vip-Named :
      (s : Dialog) (p0 p : VipPage)
      → p0.config ≡ s.config
      → VipRun w.is_ip Offers p0 p
      → Named s.mgmt_network s.config
      → Named s.mgmt_network p.config
  vip-Named s p0 p same v (m, h) =
      let (vip, mode, hw_addr, e) = (VipRun-Kept w.is_ip Offers p0 v).rest in
      let c = s.config in
      subst⁻¹ (Named s.mgmt_network) (e ∙ ap (with_vip vip mode hw_addr) same) (
        m,
        IsNamed-edited w s.mgmt_network c c.server_url c.token vip mode hw_addr c.install.config_url
            h,
      )

  address-IsVip :
      (s : Dialog) (p0 p : VipPage)
      → p0.mgmt_ip ≡ s.mgmt_network.ip
      → IsVipOf w.is_ip Offers p0 p.config.install
      → IsVip w s.mgmt_network p.config.install
  address-IsVip s p0 p same (inl (d, o)) = inl d
  address-IsVip s p0 p same (inr (ne, named, ip, inl blank, hw)) =
      inr (ne, named, ip, inl blank, hw)
  address-IsVip s p0 p same (inr (ne, named, ip, inr apart, hw)) =
      inr (ne, named, ip, inr (λ e. apart (e ∙ sym same)), hw)

  known : (name : DialogPage) (s : Dialog) → s.page ≡ name → Holds w s → Known w name s
  known name s on h = subst (λ z. Known w z s) on h

  Step-Holds : {s u : Dialog} → Step w Offers false s u → Holds w s → Holds w u
  unfolding goto ask_role_esc disk_esc password_confirm_up proxy_esc ssh_key_esc cloud_init_esc
      confirm_upgrade_esc
  Step-Holds (preflight {s = s} proceed on) h = preflight_enter-Holds w proceed s
  Step-Holds (ask_create {s = s} mode on) h = ask_create_enter-Holds w mode s
  Step-Holds (ask_role {s = s} role on) h = ask_role_enter-Holds w role s
  Step-Holds (role_back on) h = tt
  Step-Holds (password {s = s} text on) h = password_confirm_key-Holds w text s on
  Step-Holds (password_back {s = s} on) h = password_escape-Holds w s
  Step-Holds (password_up text on) h = tt
  Step-Holds (password_confirm {s = s} text encrypt applied on e) h =
      subst (Leads w) e (password_confirm_enter-Leads w text encrypt applied s on)
  Step-Holds (confirm_back {s = s} on) h = password_escape-Holds w s
  Step-Holds (disk_back on) h = tt
  Step-Holds (disk_left {s = s} p q name key on at e f) h =
      disk_next-Holds w q.config s
        (disks_of s q.config (press-Accepted (disk_env w s) name key p q at e f))
  Step-Holds (network_back {s = s} {p = p} on c n v led) h =
      network_prev-Holds w p.config p.mgmt_network s
  Step-Holds (network_left {s = s} {p0 = p0} {p = p} on same n v led) h =
      let (m, e) = Seen-IsKept w.network p0 v in
      network_next-Holds w p.config p.mgmt_network s
        (subst⁻¹ (HasDisks w) (e ∙ ap (with_mgmt m) same)
          (mgmt-HasDisks m s.config (known network_page s on h)))
        (Seen-IsApplied w.network p0 p v led)
  Step-Holds (cluster_back {s = s} {p0 = p0} {p = p} on same v led) h =
      (cluster-Based s p0 p same v (known cluster_network_page s on h)).0
  Step-Holds (cluster_left {s = s} {p0 = p0} {p = p} on same v led) h =
      let (d, n) = cluster-Based s p0 p same v (known cluster_network_page s on h) in
      hostname_page-Holds w (record s { config = p.config })
        (record { disks = d; network = n; cluster = λ m. Visits-IsAccepted w.cidr p0 p v led })
  Step-Holds (hostname {s = s} text on) h =
      hostname_enter-Holds w text s on (known hostname_page s on h)
  Step-Holds (hostname_back {s = s} on) h = hostname_prev-Holds w s (known hostname_page s on h)
  Step-Holds (dns {s = s} text updated on) h =
      let (n, name) = known dns_servers_page s on h in dns_enter-Holds w text updated s on n name
  Step-Holds (dns_back {s = s} on) h = dns_esc-Holds w s (known dns_servers_page s on h).0
  Step-Holds (vip_back {s = s} {p0 = p0} {p = p} on same ip v led) h =
      vip_prev-Holds w p.config s (vip-Named s p0 p same v (known vip_page s on h)).1
  Step-Holds (vip_left {s = s} {p0 = p0} {p = p} on same ip v led) h =
      let (m, named) = vip-Named s p0 p same v (known vip_page s on h) in
      vip_next-Holds w p.config s m named
        (address-IsVip s p0 p ip (VipRun-IsVipOf w.is_ip Offers p0 v led))
  Step-Holds (late_failure late) h = cc late
  Step-Holds (server_url {s = s} text pinged on) h =
      let (other, named) = known server_url_page s on h in
      server_url_enter-Holds w text pinged s on other named
  Step-Holds (server_url_back {s = s} on) h =
      server_url_esc-Holds w s (known server_url_page s on h).1
  Step-Holds (token {s = s} text on) h = token_enter-Holds w text s on (known token_page s on h)
  Step-Holds (token_back {s = s} on) h = token_esc-Holds w s (known token_page s on h)
  Step-Holds (ntp {s = s} text validated enabled on) h =
      ntp_enter-Holds w text validated enabled s on (known ntp_servers_page s on h)
  Step-Holds (ntp_back {s = s} on) h = ntp_esc-Holds w s (known ntp_servers_page s on h)
  Step-Holds (proxy {s = s} text on) h = proxy_enter-Holds w text s (known proxy_page s on h)
  Step-Holds (proxy_back {s = s} on) h = known proxy_page s on h
  Step-Holds (ssh_key {s = s} url fetched on) h =
      ssh_key_enter-Holds w url fetched s on (known ssh_key_page s on h)
  Step-Holds (ssh_key_back {s = s} on) h = known ssh_key_page s on h
  Step-Holds (cloud_init {s = s} url fetched on) h =
      cloud_init_enter-Holds w url fetched s on (known cloud_init_page s on h)
  Step-Holds (cloud_init_back {s = s} on) h = known cloud_init_page s on h
  Step-Holds (confirm_install {s = s} choice on) h =
      confirm_install_enter-Holds w choice s (known confirm_install_page s on h)
  Step-Holds (install_back {s = s} on) h =
      confirm_install_esc-Holds w s (known confirm_install_page s on h)
  Step-Holds (confirm_upgrade {s = s} choice on) h = confirm_upgrade_enter-Holds w choice s
  Step-Holds (upgrade_back on) h = tt

  Reached-Holds : {s : Dialog} → Reached w Offers false s → Holds w s
  Reached-Holds (first s (inl on)) = subst⁻¹ (λ z. Known w z s) on tt
  Reached-Holds (first s (inr on)) = subst⁻¹ (λ z. Known w z s) on tt
  Reached-Holds (next r st) = Step-Holds st (Reached-Holds r)

  -- Whatever the user does in the wizard, forward and back, from any configuration, as long as each
  -- request for a virtual IP is answered before its page is left: where it reaches the panel of the
  -- installation, the disks were accepted on a machine that is not installed yet, and unless only the
  -- binaries are installed, the management network is one that its page has applied, a new cluster has
  -- accepted cluster networks and a virtual IP (by DHCP, or an IP address that is not that of the
  -- management network), any other node has the formatted address of a server, the hostname is one
  -- that RFC 1123 allows, with a static network the DNS servers are IP addresses, and the token is one
  -- that the validator accepts.
  pub Reached-IsConfirmed :
      (s : Dialog) → Reached w Offers false s → s.page ≡ install_page → IsConfirmed w s
  Reached-IsConfirmed s r on = known install_page s on (Reached-Holds r)
