-- ===== src/Console/Dialog/Known.antt =====
-- pkg/console/install_panels.go: what is known of a configuration on each page of the wizard.
use mathlib.Core.Path.{subst⁻¹}
use harvester_installer.Prelude.{String, false, ok, true, ◌≡◌, ◌≢◌, ◌⊎◌}
use harvester_installer.Config.Types.{HarvesterConfig, Install, Network, Os}
use harvester_installer.Console.Validator.Machine.{check_ip_list}
use harvester_installer.Console.Validator.Fields.{check_token}
use harvester_installer.Console.DiskPage.Accepted.{Accepted}
use harvester_installer.Console.NetworkPage.Applied.{IsApplied}
use harvester_installer.Console.ClusterNetwork.Leaves.{IsAccepted}
use harvester_installer.Console.Dialog.{
  Dialog, DialogPage, WizardTools, ask_create_page, ask_role_page, cloud_init_page,
  cluster_network_page, confirm_install_page, confirm_upgrade_page, disk_page, dns_servers_page,
  halted, hostname_page, install_page, network_page, ntp_servers_page, password_confirm_page,
  password_page, preflight_check_page, proxy_page, server_url_page, ssh_key_page, token_page,
  upgrade_page, vip_page,
}

-- The fields that the pages behind those of the networks set.
abbrev pub edited :
    String → String → Os → String → String → String → String → HarvesterConfig → HarvesterConfig
edited url token o vip mode hw_addr config_url c =
    let i = c.install in
    record c {
      server_url = url;
      token = token;
      os = o;
      install = record i {
        vip = vip;
        vip_mode = mode;
        vip_hw_addr = hw_addr;
        config_url = config_url;
      };
    }

module _ {Prefix Addr : Type 0} (w : WizardTools Prefix Addr) where
  abbrev pub HasDisks : HarvesterConfig → Type 0
  HasDisks c = w.dialog.already_installed ≡ false → Accepted w.disk c

  abbrev pub HasNetwork : HarvesterConfig → Type 0
  HasNetwork c = IsApplied w.network c.install.management_interface

  abbrev pub HasCluster : HarvesterConfig → Type 0
  HasCluster c = c.install.mode ≡ "create" → IsAccepted w.cidr c

  abbrev pub HasHostname : HarvesterConfig → Type 0
  HasHostname c = w.dialog.host.is_dns1123_subdomain c.os.hostname ≡ true

  abbrev pub HasDns : Network → HarvesterConfig → Type 0
  HasDns n c = n.method ≡ "static" → check_ip_list w.dialog.host c.os.dns_nameservers ≡ ok tt

  -- By DHCP, or an address that is not that of the management network.
  abbrev pub IsVip : Network → Install → Type 0
  IsVip n i =
      (i.vip_mode ≡ "dhcp")
      ⊎ ((i.vip_mode ≢ "dhcp")
          × (i.vip_mode ≢ "")
          × (w.is_ip i.vip ≡ true)
          × ((i.vip ≡ "") ⊎ (i.vip ≢ n.ip))
          × (i.vip_hw_addr ≡ ""))

  -- A new cluster has a virtual IP, any other node the address of a server.
  abbrev pub HasServer : Network → HarvesterConfig → Type 0
  HasServer n c =
      (c.install.mode ≡ "create" → IsVip n c.install)
      × (c.install.mode ≢ "create"
          → (given : String) × (w.dialog.format_server_url given ≡ ok c.server_url))

  abbrev pub HasToken : HarvesterConfig → Type 0
  HasToken c = check_token c.token ≡ ok tt

  -- What holds behind the page of the cluster networks, of the DNS servers, of the server.
  pub record HasNetworks (c : HarvesterConfig) : Type 0 where
    pub disks : HasDisks c
    pub network : HasNetwork c
    pub cluster : HasCluster c

  pub record IsNamed (n : Network) (c : HarvesterConfig) : Type 0 where
    pub networks : HasNetworks c
    pub hostname : HasHostname c
    pub dns : HasDns n c

  pub record IsServed (n : Network) (c : HarvesterConfig) : Type 0 where
    pub named : IsNamed n c
    pub server : HasServer n c

  pub record IsComplete (n : Network) (c : HarvesterConfig) : Type 0 where
    pub served : IsServed n c
    pub token : HasToken c

  abbrev pub IsConfirmed : Dialog → Type 0
  IsConfirmed s =
      HasDisks s.config × (s.install_mode_only ≡ false → IsComplete s.mgmt_network s.config)

  abbrev pub Known : DialogPage → Dialog → Type 0
  Known network_page s = HasDisks s.config
  Known cluster_network_page s = HasDisks s.config × HasNetwork s.config
  Known hostname_page s = HasNetworks s.config
  Known dns_servers_page s = HasNetworks s.config × HasHostname s.config
  Known vip_page s = (s.config.install.mode ≡ "create") × IsNamed s.mgmt_network s.config
  Known server_url_page s = (s.config.install.mode ≢ "create") × IsNamed s.mgmt_network s.config
  Known token_page s = IsServed s.mgmt_network s.config
  Known ntp_servers_page s = IsComplete s.mgmt_network s.config
  Known proxy_page s = IsComplete s.mgmt_network s.config
  Known ssh_key_page s = IsComplete s.mgmt_network s.config
  Known cloud_init_page s = IsComplete s.mgmt_network s.config
  Known confirm_install_page s = IsConfirmed s
  Known install_page s = IsConfirmed s
  Known preflight_check_page s = Unit
  Known ask_create_page s = Unit
  Known ask_role_page s = Unit
  Known password_page s = Unit
  Known password_confirm_page s = Unit
  Known disk_page s = Unit
  Known confirm_upgrade_page s = Unit
  Known upgrade_page s = Unit
  Known halted s = Unit

  module _ (url token_text : String) (o : Os) (vip mode hw_addr config_url : String)
      (c : HarvesterConfig) where
    abbrev d : HarvesterConfig
    d = edited url token_text o vip mode hw_addr config_url c

    pub HasNetworks-edited : HasNetworks c → HasNetworks d
    HasNetworks-edited h = record {
      disks = λ fresh.
          let a = h.disks fresh in
          record {
            sizes = λ s.
                let z = a.sizes s in
                record { witness = z.witness; shared = z.shared; separate = z.separate };
            witness = a.witness;
            partition = a.partition;
          };
      network = h.network;
      cluster =
          λ m. let a = h.cluster m in record { pod = a.pod; service = a.service; dns = a.dns };
    }

  -- The pages behind change no disks and no networks.
  module _ (n : Network) (c : HarvesterConfig) where
    pub HasNetworks-os : (o : Os) → HasNetworks c → HasNetworks (record c { os = o })
    HasNetworks-os o h =
        let i = c.install in
        HasNetworks-edited c.server_url c.token o i.vip i.vip_mode i.vip_hw_addr i.config_url c h

    pub IsServed-os :
        (o : Os)
        → o.hostname ≡ c.os.hostname
        → o.dns_nameservers ≡ c.os.dns_nameservers
        → IsServed n c
        → IsServed n (record c { os = o })
    IsServed-os o same_name same_dns h = record {
      named = record {
        networks = HasNetworks-os o h.named.networks;
        hostname =
            subst⁻¹ (λ z. w.dialog.host.is_dns1123_subdomain z ≡ true) same_name h.named.hostname;
        dns = λ m. subst⁻¹ (λ z. check_ip_list w.dialog.host z ≡ ok tt) same_dns (h.named.dns m);
      };
      server = h.server;
    }

    -- The token, the address of a server, the virtual IP and the URL of a configuration.
    module _ (url token_text vip mode hw_addr config_url : String) where
      pub IsNamed-edited :
          IsNamed n c → IsNamed n (edited url token_text c.os vip mode hw_addr config_url c)
      IsNamed-edited h = record {
        networks = HasNetworks-edited url token_text c.os vip mode hw_addr config_url c h.networks;
        hostname = h.hostname;
        dns = h.dns;
      }

    pub IsComplete-os :
        (o : Os)
        → o.hostname ≡ c.os.hostname
        → o.dns_nameservers ≡ c.os.dns_nameservers
        → IsComplete n c
        → IsComplete n (record c { os = o })
    IsComplete-os o same_name same_dns h = record {
      served = IsServed-os o same_name same_dns h.served;
      token = h.token;
    }
