-- ===== src/Tests/Dialogs.antt =====
-- A run of the model of the wizard, from its first page to the panel of the installation.
use harvester_installer.Prelude.{
  List, Result, String, [], arith, false, inr, none, ok, refl, some, ℕ, ◌==◌, ◌∷◌, ◌≡◌,
}
use harvester_installer.Config.Types.{HarvesterConfig}
use harvester_installer.Config.Profiles.Effects.{drop}
use harvester_installer.Console.Validator.Machine.{check_ip, check_ip_list}
use harvester_installer.Console.Validator.Fields.{all_token_chars, check_token, is_token_char}
use harvester_installer.Console.DiskPage.{disk_panel}
use harvester_installer.Console.DiskPage.Keys.{key_enter}
use harvester_installer.Console.ClusterNetwork.{
  ClusterPage, Visits, cluster_dns_panel, cluster_pod_cidr_panel, dns_confirm, pod_cidr_confirm,
  press_input, pressed, service_cidr_confirm, show_cluster_network_page, show_input, shown,
  to_hostname_page, to_network_page, type_text, typed, validate_cidr, validate_dns_ip,
}
use harvester_installer.Console.VipPage.{
  VipPage, VipRoute, VipRun, answer, ask_vip_method_panel, confirm_ask_vip_method,
  goto_next_page_from_vip, goto_verify_ip, goto_vip_panel, press_vip, show_vip_page, show_vip_panel,
  to_dns_servers_page, to_token_page, type_vip, vip_panel, answered as vip_answered,
  pressed as vip_pressed, shown as vip_shown, typed as vip_typed,
}
use harvester_installer.Console.VipPage.Verified.{IsOffered, IsVipOf}
use harvester_installer.Console.VipPage.Leaves.{VipRun-IsVipOf, VipRun-stays_dhcp}
use harvester_installer.Console.Dialog.{
  Dialog, DialogPage, DialogTools, WizardTools, ask_create_enter, ask_create_page,
  cluster_network_page, disk_next, disk_page, dns_enter, goto, hostname_enter, hostname_page,
  install_page, network_next, network_page, password_confirm_enter, password_confirm_key,
  password_page, token_page, vip_page,
}
use harvester_installer.Console.Dialog.Later.{
  cloud_init_enter, confirm_install_enter, ntp_enter, proxy_enter, ssh_key_enter, token_enter,
  vip_next,
}
use harvester_installer.Console.Dialog.Known.{IsConfirmed}
use harvester_installer.Console.Dialog.Steps.{
  Reached, ask_create, cloud_init, cluster_left, confirm_install, disk_left, dns, first, hostname,
  network_left, next, ntp, password, password_confirm, proxy, ssh_key, token, vip_left,
}
use harvester_installer.Console.Dialog.Leaves.{Reached-IsConfirmed}
use harvester_installer.Tests.{host, management}
use harvester_installer.Tests.Nodes.{leaves, left, one_disk, page_env, witness_node}
use harvester_installer.Tests.Panels.{net_tools}
use harvester_installer.Tests.Wizards.{
  applied_network, applied_node, network_leads, network_run, page_tools,
}

abbrev wizard : WizardTools ℕ ℕ
wizard = record {
  dialog = record {
    host = host;
    already_installed = false;
    trim_space = λ s. s;
    split_commas = λ s. s ∷ [];
    format_server_url = λ s. ok s;
    os_hostname = ok "rancher";
    fault_text = λ f. "fault";
  };
  network = page_tools;
  cidr = net_tools;
  disk = page_env;
  is_ip = λ s. s == "10.0.0.9";
}

-- No DHCP server answers.
abbrev Silent : String → String → Type 0
Silent hw_addr ip = ⊥

abbrev opened : Dialog
opened = record {
  config = witness_node;
  input = record {
    server_url = "";
    ssh_key_url = "";
    password = "";
    password_confirm = "";
    dns_servers = "";
    ntp_servers = "0.suse.pool.ntp.org";
    has_checked_ntp_servers = false;
  };
  mgmt_network = management;
  install_mode_only = false;
  preflight_ack = false;
  environment = [];
  message = none;
  page = ask_create_page;
}

abbrev answered : Result String (Unit {0})
answered = ok tt

abbrev d : DialogTools
d = wizard.dialog

-- The pages, with what each key has set.
abbrev on : DialogPage → HarvesterConfig → Dialog
on name c =
    let i = opened.input in
    record opened {
      config = c;
      input = record i { password = "secret"; password_confirm = "secret" };
      preflight_ack = false;
      page = name;
    }

abbrev at_password : Dialog
at_password =
    let i = witness_node.install in
    record opened {
      config = record witness_node { install = record i { role = "default" } };
      page = password_page;
    }

abbrev at_disk : Dialog
at_disk =
    let i = witness_node.install in
    let o = witness_node.os in
    on disk_page (record witness_node {
      os = record o { password = "hash" };
      install = record i { role = "default" };
    })

abbrev networked : DialogPage → HarvesterConfig → Dialog
networked name c = record (on name c) { mgmt_network = applied_network }

-- The three inputs of the cluster networks: blank, a prefix and an address in it.
abbrev cluster_node : HarvesterConfig
cluster_node =
    let i = applied_node.install in
    record applied_node {
      install = record i { cluster_service_cidr = "10.53.0.0/16"; cluster_dns = "10.53.0.10" };
    }

abbrev cluster_start : ClusterPage
cluster_start = record {
  config = applied_node;
  pod_text = "";
  service_text = "";
  dns_text = "";
  fault = none;
  focus = cluster_pod_cidr_panel;
  route = to_network_page;
}

abbrev cluster_done : ClusterPage
cluster_done = record {
  config = cluster_node;
  pod_text = "";
  service_text = "10.53.0.0/16";
  dns_text = "10.53.0.10";
  fault = none;
  focus = cluster_dns_panel;
  route = to_hostname_page;
}

abbrev named_node : List String → HarvesterConfig
named_node servers =
    let o = cluster_node.os in
    record cluster_node { os = record o { hostname = "node-1"; dns_nameservers = servers } }

abbrev with_servers : Dialog → Dialog
with_servers s = let i = s.input in record s { input = record i { dns_servers = "10.0.0.9" } }

-- A static address is typed.
abbrev vip_start : VipPage
vip_start = record {
  config = named_node ("10.0.0.9" ∷ []);
  mgmt_ip = "10.0.0.5";
  method = "static";
  hw_addr_text = "";
  vip_text = "";
  hw_addr_shown = false;
  requests = 0;
  text = none;
  focus = ask_vip_method_panel;
  route = to_dns_servers_page;
}

abbrev vip_done : VipPage
vip_done = record vip_start { vip_text = "10.0.0.9"; focus = vip_panel; route = to_token_page }

-- The servers for NTP are given without a check before.
abbrev timed : DialogPage → Dialog
timed name =
    let s = with_servers (networked name (named_node ("10.0.0.9" ∷ []))) in
    let o = s.config.os in
    let c = s.config in
    let i = s.input in
    record s {
      config = record c { os = record o { ntp_servers = "ntp" ∷ [] } };
      input = record i { ntp_servers = "ntp" };
    }

run_to_disk : Reached wizard Silent false at_disk
unfolding ask_create_enter goto password_confirm_key password_confirm_enter
run_to_disk =
    next (next (next (first opened (inr refl)) (ask_create "create" refl)) (password "secret" refl))
      (password_confirm "secret" (λ p. ok "hash") answered refl refl)

run_to_network : Reached wizard Silent false (on network_page witness_node)
unfolding disk_next goto
run_to_network = next run_to_disk (disk_left one_disk left disk_panel key_enter refl refl leaves tt)

run_to_cluster : Reached wizard Silent false (networked cluster_network_page applied_node)
unfolding network_next goto
run_to_cluster = next run_to_network (network_left refl refl refl network_run network_leads)

cluster_run : Visits net_tools cluster_start cluster_done
unfolding show_cluster_network_page show_input press_input type_text pod_cidr_confirm
    service_cidr_confirm dns_confirm validate_cidr validate_dns_ip
cluster_run = pressed key_enter refl (
    typed "10.53.0.10" refl
      (pressed key_enter refl (typed "10.53.0.0/16" refl (pressed key_enter refl shown))))

run_to_hostname : Reached wizard Silent false (networked hostname_page cluster_node)
unfolding goto
run_to_hostname = next run_to_cluster (cluster_left refl refl cluster_run refl)

run_to_vip :
    Reached wizard Silent false (with_servers (networked vip_page (named_node ("10.0.0.9" ∷ []))))
unfolding goto hostname_enter dns_enter check_ip_list check_ip
run_to_vip = next (next run_to_hostname (hostname "node-1" refl)) (dns "10.0.0.9" answered refl)

vip_run : VipRun wizard.is_ip Silent vip_start vip_done
unfolding show_vip_page show_vip_panel press_vip type_vip confirm_ask_vip_method goto_verify_ip
    goto_next_page_from_vip
vip_run =
    vip_pressed key_enter refl (vip_typed "10.0.0.9" refl (vip_pressed key_enter refl vip_shown))

run_to_token :
    Reached wizard Silent false (with_servers (networked token_page (named_node ("10.0.0.9" ∷ []))))
unfolding vip_next goto
run_to_token = next run_to_vip (vip_left refl refl refl vip_run refl)

run_to_install : Reached wizard Silent false (timed install_page)
unfolding goto token_enter check_token all_token_chars is_token_char ntp_enter proxy_enter drop
    ssh_key_enter cloud_init_enter confirm_install_enter
run_to_install =
    next
      (next
        (next
          (next (next (next run_to_token (token "token" refl)) (ntp "ntp" answered answered refl))
            (proxy "" refl))
          (ssh_key "" (ok []) refl))
        (cloud_init "" answered refl))
      (confirm_install "yes" refl)

installs : (timed install_page).page ≡ install_page
installs = refl

Reached-IsConfirmed_example : IsConfirmed wizard (timed install_page)
Reached-IsConfirmed_example =
    Reached-IsConfirmed wizard Silent (timed install_page) run_to_install installs

-- A request for an address, answered, and then taken.
abbrev asking : VipPage
asking = record vip_start { method = "dhcp" }

abbrev offered_node : HarvesterConfig
offered_node =
    let c = asking.config in
    let i = c.install in
    record c { install = record i { vip = "10.0.0.7"; vip_mode = "dhcp"; vip_hw_addr = "52:54" } }

abbrev offered : VipPage
offered = record asking {
  config = offered_node;
  hw_addr_text = "52:54";
  vip_text = "10.0.0.7";
  focus = vip_panel;
  route = to_token_page;
}

-- What the server has for the one address.
abbrev Lease : String → String → Type 0
Lease hw_addr ip = ip ≡ "10.0.0.7"

dhcp_run : VipRun wizard.is_ip Lease asking offered
unfolding show_vip_page show_vip_panel press_vip confirm_ask_vip_method goto_vip_panel answer
    goto_verify_ip goto_next_page_from_vip
dhcp_run = vip_pressed key_enter refl (
    vip_answered "52:54" "10.0.0.7" refl (omega arith) refl refl
      (vip_pressed key_enter refl (vip_pressed key_enter refl vip_shown)))

VipRun-IsVipOf_example : IsVipOf wizard.is_ip Lease asking offered.config.install
VipRun-IsVipOf_example = VipRun-IsVipOf wizard.is_ip Lease asking dhcp_run refl

-- The page once more: the method becomes static, and the address of the server is all that it takes.
abbrev taken : VipPage
taken = record offered { method = "static" }

static_run : VipRun wizard.is_ip Lease offered (record taken {
  vip_text = "10.0.0.9";
  text = some "Forbid to modify the VIP obtained through DHCP";
  route = VipRoute.stays;
})
unfolding show_vip_page show_vip_panel press_vip type_vip confirm_ask_vip_method goto_verify_ip
static_run =
    vip_pressed key_enter refl
      (vip_typed "10.0.0.9" refl (vip_pressed key_enter refl (vip_typed "static" refl vip_shown)))

VipRun-stays_dhcp_example :
    (offered.config.install.vip_mode ≡ "dhcp")
    × IsOffered wizard.is_ip Lease offered offered.config.install
VipRun-stays_dhcp_example = VipRun-stays_dhcp wizard.is_ip Lease offered static_run refl
