-- ===== src/Tests/Panels.antt =====
-- Runs of the models of the page of the cluster networks and of the panel of the installation.
use harvester_installer.Prelude.{
  [], eqb, err, false, if◌then◌else◌, none, ok, pos, refl, true, ℕ, ◌==◌, ◌≡◌, ◌⊎◌,
}
use harvester_installer.Config.Types.{HarvesterConfig}
use harvester_installer.Console.DiskPage.Keys.{key_enter}
use harvester_installer.Console.ClusterNetwork.{
  ClusterPage, NetTools, Visits, cluster_dns_panel, cluster_pod_cidr_panel,
  cluster_service_cidr_panel, dns_confirm, pod_cidr_confirm, press_input, pressed,
  service_cidr_confirm, show_cluster_network_page, show_input, shown, to_hostname_page,
  to_network_page, type_text, typed, validate_cidr, validate_dns_ip,
}
use harvester_installer.Console.ClusterNetwork.Leaves.{IsAccepted, Visits-IsAccepted}
use harvester_installer.Console.Install.Acts.{InstallError, World}
use harvester_installer.Console.InstallPanel.{PanelTools, Wizard}
use harvester_installer.Console.InstallPanel.Start.{install_config, install_panel}
use harvester_installer.Console.InstallPanel.Ready.{IsReady}
use harvester_installer.Console.InstallPanel.Quiet.{install_panel-IsReady}
use harvester_installer.Tests.{first_node, full_cache, host, management}
use harvester_installer.Tests.Nodes.{env, machine, tools}

-- Numbers stand for the prefixes and the addresses.
abbrev pub net_tools : NetTools ℕ ℕ
net_tools = record {
  trim_space = λ s. s;
  parse_prefix = λ s. if s == "10.53.0.0/16" then ok 53 else err "no prefix";
  parse_addr = λ s. if s == "10.53.0.10" then ok 53 else err "no address";
  contains = λ n a. eqb n a;
}

abbrev before : ClusterPage
before = record {
  config = first_node;
  pod_text = "";
  service_text = "";
  dns_text = "";
  fault = none;
  focus = cluster_pod_cidr_panel;
  route = to_network_page;
}

-- The pods keep their CIDR; the services and the address for DNS are typed.
abbrev at_services : ClusterPage
at_services =
    press_input net_tools cluster_pod_cidr_panel key_enter (show_cluster_network_page before)

abbrev at_dns : ClusterPage
at_dns =
    press_input net_tools cluster_service_cidr_panel key_enter
      (type_text cluster_service_cidr_panel "10.53.0.0/16" at_services)

abbrev left : ClusterPage
left =
    press_input net_tools cluster_dns_panel key_enter
      (type_text cluster_dns_panel "10.53.0.10" at_dns)

visited : Visits net_tools before left
unfolding show_cluster_network_page show_input press_input type_text pod_cidr_confirm
    service_cidr_confirm dns_confirm validate_cidr validate_dns_ip
visited = pressed key_enter refl (
    typed "10.53.0.10" refl
      (pressed key_enter refl (typed "10.53.0.0/16" refl (pressed key_enter refl shown))))

leads : left.route ≡ to_hostname_page
unfolding show_cluster_network_page show_input press_input type_text pod_cidr_confirm
    service_cidr_confirm dns_confirm validate_cidr validate_dns_ip
leads = refl

Visits-IsAccepted_example : IsAccepted net_tools left.config
Visits-IsAccepted_example = Visits-IsAccepted net_tools before left visited leads

abbrev panel_tools : PanelTools
panel_tools = record {
  host = host;
  network_tools = record {
    profile_env = env;
    current_hostname = λ m. ok "rancher";
    show_vlan = λ n. "100";
  };
  install_tools = tools;
  renderer = λ c. record { to_upper = λ s. s; render = λ s. ok s };
  get_url = λ url n. err "no network";
  load_harvester_config = λ bytes. ok first_node;
  merge = λ c d. ok c;
  to_lower = λ s. s;
  trim_space = λ s. s;
  parse_request_uri = λ s. err "no URL";
  url_text = λ u. u.host;
  interface_fault = λ e. "interface";
  validation_fault = λ e. "invalid";
  get_vip_through_dhcp = λ name. err "no DHCP";
  os_hostname = ok "rancher";
  generated_hostname = "harvester-abcde";
  first_console_tty = "tty1";
  atoi = λ s. pos 10000;
  read_speed = λ name. ok "10000";
  message_text = λ m. "warning";
  default_route = ok true;
}

abbrev wizard : Wizard
wizard = record {
  already_installed = false;
  install_mode_only = false;
  preflight_ack = false;
  preflight_warnings = [];
  mgmt_network = management;
  cache = full_cache;
}

abbrev idle_world : World
idle_world = record { machine = machine; events = [] }

install_panel-IsReady_example :
    ((u : World) × (x : InstallError) × (u.events ≡ [])
      × (install_panel panel_tools wizard first_node idle_world ≡ (err x, u)))
    ⊎ ((u : World) × (d : HarvesterConfig) × (u.events ≡ [])
        × IsReady panel_tools wizard d
        × (install_panel panel_tools wizard first_node idle_world
            ≡ install_config panel_tools wizard d u))
install_panel-IsReady_example = install_panel-IsReady panel_tools wizard first_node idle_world
