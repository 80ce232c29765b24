-- ===== src/Console/Dialog.antt =====
-- The pages of the wizard in pkg/console/install_panels.go and helper.go, and the order in which
-- they follow one another. The pages of the disks, the networks and the virtual IP are modules of
-- their own. An answer of the network, or of a program, is an argument of the key that asks for it:
-- the spinner has the focus until it is there. What gocui does to its views succeeds; titles, notes
-- and places are left out.
pub mod Later
pub mod Known
pub mod Steps
pub mod Ready
pub mod Ahead
pub mod Last
pub mod Leaves
use harvester_installer.Prelude.{
  Bool, List, Option, Result, String, err, if◌then◌else◌, map_err, none, not, ok, some, true, ◌&&◌,
  ◌==◌, ◌>>=◌, ◌>>◌,
}
use harvester_installer.Config.Types.{
  Dict, HarvesterConfig, Install, Network, Os, mode_create, mode_install, mode_join,
  network_method_static, role_default,
}
use harvester_installer.Console.DiskPage.{DiskEnv}
use harvester_installer.Console.NetworkPage.{PageTools}
use harvester_installer.Console.ClusterNetwork.{NetTools}
use harvester_installer.Console.InstallPanel.{or_generated, set_hostname_if}
use harvester_installer.Console.Validator.Machine.{Host, check_ip_list}
use harvester_installer.Console.Validator.Fields.{ValidationError}

pub data DialogPage : Type 0 where
  preflight_check_page ask_create_page ask_role_page : DialogPage
  password_page password_confirm_page disk_page : DialogPage
  network_page cluster_network_page hostname_page : DialogPage
  dns_servers_page vip_page server_url_page : DialogPage
  token_page ntp_servers_page proxy_page : DialogPage
  ssh_key_page cloud_init_page confirm_install_page : DialogPage
  confirm_upgrade_page install_page upgrade_page : DialogPage
  halted : DialogPage

-- `userInputData`, but for what the page of the networks keeps there.
pub record UserInput : Type 0 where
  pub server_url : String
  pub ssh_key_url : String
  pub password : String
  pub password_confirm : String
  pub dns_servers : String
  pub ntp_servers : String
  pub has_checked_ntp_servers : Bool

-- The configuration, the variables of the package, the environment of the process, what the
-- validator panel or the spinner says, and the page that is shown.
pub record Dialog : Type 0 where
  pub config : HarvesterConfig
  pub input : UserInput
  pub mgmt_network : Network
  pub install_mode_only : Bool
  pub preflight_ack : Bool
  pub environment : Dict
  pub message : Option String
  pub page : DialogPage

-- The checks of the machine, functions of `strings`, `getFormattedServerURL`, and the hostname of
-- the machine.
pub record DialogTools : Type 0 where
  pub host : Host
  pub already_installed : Bool
  pub trim_space : String → String
  pub split_commas : String → List String
  pub format_server_url : String → Result String String
  pub os_hostname : Result String String
  pub fault_text : ValidationError → String

-- The tools of the pages that are modules of their own, with those of the other pages.
pub record WizardTools (Prefix Addr : Type 0) : Type 0 where
  pub dialog : DialogTools
  pub network : PageTools
  pub cidr : NetTools Prefix Addr
  pub disk : DiskEnv
  pub is_ip : String → Bool

abbrev pub say : String → Dialog → Dialog
say m s = record s { message = some m }

abbrev pub set_install_of : Install → Dialog → Dialog
set_install_of i s = let c = s.config in record s { config = record c { install = i } }

abbrev pub set_os : Os → Dialog → Dialog
set_os o s = let c = s.config in record s { config = record c { os = o } }

abbrev pub set_input : UserInput → Dialog → Dialog
set_input u s = record s { input = u }

-- A failed answer is shown, and the page stays.
abbrev pub or_say {ℓ} : {A : Type ℓ} → Result String A → (A → Dialog) → Dialog → Dialog
or_say (ok a) next s = next a
or_say (err e) next s = say e s

-- `checkDHCPHostname(c.config, false)`
abbrev pub shown_hostname : Result String String → HarvesterConfig → HarvesterConfig
shown_hostname found c =
    if c.os.hostname == "" then set_hostname_if c (or_generated found none) else c

module _ (t : DialogTools) where
  -- `showNext` of a page, with what its hook changes.
  unfoldable pub goto : DialogPage → Dialog → Dialog
  goto ask_create_page s = record s { preflight_ack = true; message = none; page = ask_create_page }
  goto hostname_page s = record s {
    config = shown_hostname t.os_hostname s.config;
    message = none;
    page = hostname_page;
  }
  goto name s = record s { message = none; page = name }

  unfoldable pub preflight_enter : String → Dialog → Dialog
  preflight_enter proceed s =
      if proceed == "no" then record s { page = halted } else goto ask_create_page s

  -- Where a mode leads: the hook of a new cluster clears the address of a server.
  abbrev pub after_mode : String → Dialog → Dialog
  after_mode selected s =
      if selected == "upgrade"
      then goto confirm_upgrade_page s
      else if selected == mode_join
      then goto ask_role_page s
      else if t.already_installed
      then goto network_page s
      else goto password_page s

  abbrev pub with_default_role : Dialog → Dialog
  with_default_role s =
      let c = s.config in
      let i = c.install in
      let u = s.input in
      record s {
        config = record c { server_url = ""; install = record i { role = role_default } };
        input = record u { server_url = "" };
      }

  unfoldable pub ask_create_enter : String → Dialog → Dialog
  ask_create_enter selected s0 =
      let i = s0.config.install in
      let s = record (set_install_of (record i { mode = selected }) s0) {
        install_mode_only = selected == mode_install;
      } in
      after_mode selected (if selected == mode_create then with_default_role s else s)

  unfoldable pub ask_role_enter : String → Dialog → Dialog
  ask_role_enter selected s0 =
      let i = s0.config.install in
      let s = set_install_of (record i { role = selected }) s0 in
      if t.already_installed then goto network_page s else goto password_page s

  unfoldable pub ask_role_esc : Dialog → Dialog
  ask_role_esc s = goto ask_create_page s

  -- `passwordVConfirmKeyBinding`
  unfoldable pub password_confirm_key : String → Dialog → Dialog
  password_confirm_key password s0 =
      let u = s0.input in
      let s = set_input (record u { password = password }) s0 in
      if password == "" then say "Password is required" s else goto password_confirm_page s

  unfoldable pub password_escape : Dialog → Dialog
  password_escape s =
      if s.config.install.mode == mode_join then goto ask_role_page s else goto ask_create_page s

  unfoldable pub password_confirm_up : String → Dialog → Dialog
  password_confirm_up text s0 =
      let u = s0.input in goto password_page (set_input (record u { password_confirm = text }) s0)

  -- A password that cannot be encrypted or applied ends the console.
  unfoldable pub password_confirm_enter :
      String
      → (String → Result String String)
      → Result String (Unit {0})
      → Dialog
      → Result String Dialog
  password_confirm_enter text encrypt applied s0 =
      let u = s0.input in
      let s = set_input (record u { password_confirm = text }) s0 in
      if not (u.password == text) then ok (say "Password mismatching" s) else (do
        encrypted ← encrypt u.password
        applied
        let o = s.config.os
        ok (goto disk_page (set_os (record o { password = encrypted }) s)))

  unfoldable pub disk_esc : Dialog → Dialog
  disk_esc s = goto password_page s

  -- The page after the disks, once the page has let them through.
  unfoldable pub disk_next : HarvesterConfig → Dialog → Dialog
  disk_next c s0 =
      let s = record s0 { config = c } in
      if s.install_mode_only then goto confirm_install_page s else goto network_page s

  unfoldable pub network_prev : HarvesterConfig → Network → Dialog → Dialog
  network_prev c n s0 =
      let s = record s0 { config = c; mgmt_network = n } in
      if t.already_installed
      then (if s.config.install.mode == mode_join
          then goto ask_role_page s
          else goto ask_create_page s)
      else goto disk_page s

  unfoldable pub network_next : HarvesterConfig → Network → Dialog → Dialog
  network_next c n s0 =
      let s = record s0 { config = c; mgmt_network = n } in
      if s.config.install.mode == mode_create
      then goto cluster_network_page s
      else goto hostname_page s

  unfoldable pub hostname_prev : Dialog → Dialog
  hostname_prev s =
      if s.config.install.mode == mode_create
      then goto cluster_network_page s
      else goto network_page s

  unfoldable pub hostname_enter : String → Dialog → Dialog
  hostname_enter hostname s =
      let o = s.config.os in
      if hostname == ""
      then say "Must specify hostname." s
      else if not (t.host.is_dns1123_subdomain hostname)
      then say
          "Invalid hostname. A lowercase RFC 1123 subdomain must consist of lower case alphanumeric characters, '-' or '.'."
          s
      else goto dns_servers_page (set_os (record o { hostname = hostname }) s)

  abbrev pub after_dns : Dialog → Dialog
  after_dns s =
      if s.config.install.mode == mode_create then goto vip_page s else goto server_url_page s

  abbrev pub with_dns : List String → Dialog → Dialog
  with_dns servers s = let o = s.config.os in set_os (record o { dns_nameservers = servers }) s

  -- Without servers those of the configuration stay. `updated` is what nmcli says.
  unfoldable pub dns_enter : String → Result String (Unit {0}) → Dialog → Dialog
  dns_enter given updated s0 =
      let dns_servers = t.trim_space given in
      let u = s0.input in
      let s = set_input (record u { dns_servers = dns_servers }) s0 in
      let servers = t.split_commas dns_servers in
      if s.mgmt_network.method == network_method_static && dns_servers == ""
      then say "DNS servers are required for static IP address" s
      else if dns_servers == ""
      then after_dns s
      else or_say (map_err t.fault_text (check_ip_list t.host servers))
          (λ _. or_say updated (λ _. after_dns (with_dns servers s)) s) s

  unfoldable pub dns_esc : Dialog → Dialog
  dns_esc s = goto hostname_page s
