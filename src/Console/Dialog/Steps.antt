-- ===== src/Console/Dialog/Steps.antt =====
-- pkg/console/install_panels.go: the steps of the wizard from page to page. What the pages of the
-- disks, the networks and the virtual IP do is the run of their modules, from the configuration that
-- they are shown with. A request for a virtual IP may be answered after its page is left, if
-- `late_answers` says so: a failure then shows the panel for the method over whatever page is shown,
-- and a success ends the console.
use harvester_installer.Prelude.{Bool, List, Result, String, ok, true, ◌≡◌, ◌⊎◌}
use harvester_installer.Console.DiskPage.{DiskEnv, DiskPage, Panel}
use harvester_installer.Console.DiskPage.Keys.{Key, press}
use harvester_installer.Console.DiskPage.Accepted.{Forward, IsOn}
use harvester_installer.Console.NetworkPage.{NetworkPage, to_next_page, to_previous_page}
use harvester_installer.Console.NetworkPage.Moves.{Seen}
use harvester_installer.Console.ClusterNetwork.{
  ClusterPage, Visits, to_hostname_page, to_network_page,
}
use harvester_installer.Console.VipPage.{VipPage, VipRun, to_dns_servers_page, to_token_page}
use harvester_installer.Console.Dialog.{
  Dialog, DialogTools, WizardTools, ask_create_enter, ask_create_page, ask_role_enter, ask_role_esc,
  ask_role_page, cloud_init_page, cluster_network_page, confirm_install_page, confirm_upgrade_page,
  disk_esc, disk_next, disk_page, dns_enter, dns_esc, dns_servers_page, goto, hostname_enter,
  hostname_page, hostname_prev, network_next, network_page, network_prev, ntp_servers_page,
  password_confirm_enter, password_confirm_key, password_confirm_page, password_confirm_up,
  password_escape, password_page, preflight_check_page, preflight_enter, proxy_page,
  server_url_page, ssh_key_page, token_page, vip_page,
}
use harvester_installer.Console.Dialog.Later.{
  cloud_init_enter, cloud_init_esc, confirm_install_enter, confirm_install_esc,
  confirm_upgrade_enter, confirm_upgrade_esc, ntp_enter, ntp_esc, proxy_enter, proxy_esc,
  server_url_enter, server_url_esc, ssh_key_enter, ssh_key_esc, token_enter, token_esc, vip_next,
  vip_prev,
}

abbrev pub disk_env : {Prefix Addr : Type 0} → WizardTools Prefix Addr → Dialog → DiskEnv
disk_env w s = let e = w.disk in record e { install_mode_only = s.install_mode_only }

module _ {Prefix Addr : Type 0} (w : WizardTools Prefix Addr) (Offers : String → String → Type 0)
    (late_answers : Bool) where
  abbrev t : DialogTools
  t = w.dialog

  -- A key of a page with the text or choice that it takes, and the answers that it asks for. The
  -- disks may be in any state of their page.
  pub data Step : Dialog → Dialog → Type 0 where
    preflight :
        {s : Dialog} (proceed : String)
        → s.page ≡ preflight_check_page
        → Step s (preflight_enter t proceed s)
    ask_create :
        {s : Dialog} (mode : String) → s.page ≡ ask_create_page → Step s (ask_create_enter t mode s)
    ask_role :
        {s : Dialog} (role : String) → s.page ≡ ask_role_page → Step s (ask_role_enter t role s)
    role_back : {s : Dialog} → s.page ≡ ask_role_page → Step s (ask_role_esc t s)
    password :
        {s : Dialog} (text : String)
        → s.page ≡ password_page
        → Step s (password_confirm_key t text s)
    password_back : {s : Dialog} → s.page ≡ password_page → Step s (password_escape t s)
    password_up :
        {s : Dialog} (text : String)
        → s.page ≡ password_confirm_page
        → Step s (password_confirm_up t text s)
    password_confirm :
        {s u : Dialog} (text : String) (encrypt : String → Result String String)
        (applied : Result String (Unit {0}))
        → s.page ≡ password_confirm_page
        → password_confirm_enter t text encrypt applied s ≡ ok u
        → Step s u
    confirm_back : {s : Dialog} → s.page ≡ password_confirm_page → Step s (password_escape t s)
    disk_back : {s : Dialog} → s.page ≡ disk_page → Step s (disk_esc t s)
    disk_left :
        {s : Dialog} (p q : DiskPage) (name : Panel) (key : Key)
        → s.page ≡ disk_page
        → IsOn p
        → press (disk_env w s) name key p ≡ ok q
        → Forward q.page
        → Step s (disk_next t q.config s)
    network_back :
        {s : Dialog} {p0 p : NetworkPage}
        → s.page ≡ network_page
        → p0.config ≡ s.config
        → p0.mgmt_network ≡ s.mgmt_network
        → Seen w.network p0 p
        → p.route ≡ to_previous_page
        → Step s (network_prev t p.config p.mgmt_network s)
    network_left :
        {s : Dialog} {p0 p : NetworkPage}
        → s.page ≡ network_page
        → p0.config ≡ s.config
        → p0.mgmt_network ≡ s.mgmt_network
        → Seen w.network p0 p
        → p.route ≡ to_next_page
        → Step s (network_next t p.config p.mgmt_network s)
    cluster_back :
        {s : Dialog} {p0 p : ClusterPage}
        → s.page ≡ cluster_network_page
        → p0.config ≡ s.config
        → Visits w.cidr p0 p
        → p.route ≡ to_network_page
        → Step s (goto t network_page (record s { config = p.config }))
    cluster_left :
        {s : Dialog} {p0 p : ClusterPage}
        → s.page ≡ cluster_network_page
        → p0.config ≡ s.config
        → Visits w.cidr p0 p
        → p.route ≡ to_hostname_page
        → Step s (goto t hostname_page (record s { config = p.config }))
    hostname :
        {s : Dialog} (text : String) → s.page ≡ hostname_page → Step s (hostname_enter t text s)
    hostname_back : {s : Dialog} → s.page ≡ hostname_page → Step s (hostname_prev t s)
    dns :
        {s : Dialog} (text : String) (updated : Result String (Unit {0}))
        → s.page ≡ dns_servers_page
        → Step s (dns_enter t text updated s)
    dns_back : {s : Dialog} → s.page ≡ dns_servers_page → Step s (dns_esc t s)
    vip_back :
        {s : Dialog} {p0 p : VipPage}
        → s.page ≡ vip_page
        → p0.config ≡ s.config
        → p0.mgmt_ip ≡ s.mgmt_network.ip
        → VipRun w.is_ip Offers p0 p
        → p.route ≡ to_dns_servers_page
        → Step s (vip_prev t p.config s)
    vip_left :
        {s : Dialog} {p0 p : VipPage}
        → s.page ≡ vip_page
        → p0.config ≡ s.config
        → p0.mgmt_ip ≡ s.mgmt_network.ip
        → VipRun w.is_ip Offers p0 p
        → p.route ≡ to_token_page
        → Step s (vip_next t p.config s)
    late_failure : {s : Dialog} → late_answers ≡ true → Step s (record s { page = vip_page })
    server_url :
        {s : Dialog} (text : String) (pinged : Result String (Unit {0}))
        → s.page ≡ server_url_page
        → Step s (server_url_enter t text pinged s)
    server_url_back : {s : Dialog} → s.page ≡ server_url_page → Step s (server_url_esc t s)
    token : {s : Dialog} (text : String) → s.page ≡ token_page → Step s (token_enter t text s)
    token_back : {s : Dialog} → s.page ≡ token_page → Step s (token_esc t s)
    ntp :
        {s : Dialog} (text : String) (validated enabled : Result String (Unit {0}))
        → s.page ≡ ntp_servers_page
        → Step s (ntp_enter t text validated enabled s)
    ntp_back : {s : Dialog} → s.page ≡ ntp_servers_page → Step s (ntp_esc t s)
    proxy : {s : Dialog} (text : String) → s.page ≡ proxy_page → Step s (proxy_enter t text s)
    proxy_back : {s : Dialog} → s.page ≡ proxy_page → Step s (proxy_esc t s)
    ssh_key :
        {s : Dialog} (url : String) (fetched : Result String (List String))
        → s.page ≡ ssh_key_page
        → Step s (ssh_key_enter t url fetched s)
    ssh_key_back : {s : Dialog} → s.page ≡ ssh_key_page → Step s (ssh_key_esc t s)
    cloud_init :
        {s : Dialog} (url : String) (fetched : Result String (Unit {0}))
        → s.page ≡ cloud_init_page
        → Step s (cloud_init_enter t url fetched s)
    cloud_init_back : {s : Dialog} → s.page ≡ cloud_init_page → Step s (cloud_init_esc t s)
    confirm_install :
        {s : Dialog} (choice : String)
        → s.page ≡ confirm_install_page
        → Step s (confirm_install_enter t choice s)
    install_back : {s : Dialog} → s.page ≡ confirm_install_page → Step s (confirm_install_esc t s)
    confirm_upgrade :
        {s : Dialog} (choice : String)
        → s.page ≡ confirm_upgrade_page
        → Step s (confirm_upgrade_enter t choice s)
    upgrade_back : {s : Dialog} → s.page ≡ confirm_upgrade_page → Step s (confirm_upgrade_esc t s)

  -- What the wizard reaches from one of its first pages.
  pub data Reached : Dialog → Type 0 where
    first : (s : Dialog) → (s.page ≡ preflight_check_page) ⊎ (s.page ≡ ask_create_page) → Reached s
    next : {s u : Dialog} → Reached s → Step s u → Reached u
