-- ===== src/Console/Dialog/Later.antt =====
-- pkg/console/install_panels.go: the pages of the wizard after those of the networks.
use harvester_installer.Prelude.{
  Bool, List, Result, String, [], false, if◌then◌else◌, map_err, not, true, ◌&&◌, ◌==◌,
}
use harvester_installer.Config.Types.{HarvesterConfig, mode_create}
use harvester_installer.Config.Profiles.Effects.{drop, store}
use harvester_installer.Console.Validator.Fields.{check_token}
use harvester_installer.Console.Dialog.{
  Dialog, DialogTools, ask_create_page, cloud_init_page, confirm_install_page, disk_page,
  dns_servers_page, goto, halted, install_page, ntp_servers_page, or_say, proxy_page, say,
  server_url_page, set_input, set_install_of, set_os, ssh_key_page, token_page, upgrade_page,
  vip_page,
}

module _ (t : DialogTools) where
  unfoldable pub vip_prev : HarvesterConfig → Dialog → Dialog
  vip_prev c s = goto t dns_servers_page (record s { config = c })

  unfoldable pub vip_next : HarvesterConfig → Dialog → Dialog
  vip_next c s = goto t token_page (record s { config = c })

  -- `pinged` is what the server says.
  unfoldable pub server_url_enter : String → Result String (Unit {0}) → Dialog → Dialog
  server_url_enter given pinged s0 =
      let u = s0.input in
      let s = set_input (record u { server_url = given }) s0 in
      let c = s.config in
      if given == ""
      then say "Management address is required" s
      else or_say (t.format_server_url given)
          (λ url.
            or_say pinged
              (λ _. goto t token_page (record s { config = record c { server_url = url } })) s)
          s

  unfoldable pub server_url_esc : Dialog → Dialog
  server_url_esc s = goto t dns_servers_page s

  unfoldable pub token_enter : String → Dialog → Dialog
  token_enter token s =
      let c = s.config in
      if token == ""
      then say "Cluster token is required" s
      else or_say (map_err t.fault_text (check_token token))
          (λ _. goto t ntp_servers_page (record s { config = record c { token = token } })) s

  unfoldable pub token_esc : Dialog → Dialog
  token_esc s =
      if s.config.install.mode == mode_create then goto t vip_page s else goto t server_url_page s

  abbrev pub with_checked : Bool → Dialog → Dialog
  with_checked b s = let u = s.input in set_input (record u { has_checked_ntp_servers = b }) s

  abbrev pub after_ntp : Dialog → Dialog
  after_ntp s = goto t proxy_page (with_checked false s)

  -- The servers, as given, become those of the configuration before they are asked.
  abbrev pub with_ntp : String → Dialog → Dialog
  with_ntp given s =
      let u = s.input in
      let o = s.config.os in
      set_os (record o { ntp_servers = t.split_commas given })
        (set_input (record u { has_checked_ntp_servers = true; ntp_servers = given }) s)

  -- The same text is taken as it is the second time. `validated` and `enabled` are what the servers
  -- and timedatectl say.
  unfoldable pub ntp_enter :
      String → Result String (Unit {0}) → Result String (Unit {0}) → Dialog → Dialog
  ntp_enter given validated enabled s =
      if s.input.ntp_servers == given && s.input.has_checked_ntp_servers
      then after_ntp s
      else if not (t.trim_space given == given)
      then say "There is space in input." (with_checked false s)
      else if given == ""
      then say
          "Empty NTP Server is not recommended. Press Enter again to use current configuration anyway."
          (with_ntp given s)
      else or_say validated
          (λ _. or_say enabled (λ _. after_ntp (with_ntp given s)) (with_ntp given s))
          (with_ntp given s)

  unfoldable pub ntp_esc : Dialog → Dialog
  ntp_esc s = goto t token_page (with_checked false s)

  -- The second name has a space at its end where it is set.
  unfoldable pub proxy_enter : String → Dialog → Dialog
  proxy_enter proxy s = goto t ssh_key_page (record s {
    environment =
        if not (proxy == "")
        then store "HTTPS_PROXY " proxy (store "HTTP_PROXY" proxy s.environment)
        else drop "HTTPS_PROXY" (drop "HTTP_PROXY" s.environment);
  })

  unfoldable pub proxy_esc : Dialog → Dialog
  proxy_esc s = goto t ntp_servers_page s

  abbrev pub with_keys : List String → Dialog → Dialog
  with_keys keys s = let o = s.config.os in set_os (record o { ssh_authorized_keys = keys }) s

  -- `fetched` is what the URL gives.
  unfoldable pub ssh_key_enter : String → Result String (List String) → Dialog → Dialog
  ssh_key_enter url fetched s0 =
      let u = s0.input in
      let s = with_keys [] (set_input (record u { ssh_key_url = url }) s0) in
      if not (url == "")
      then or_say fetched (λ keys. goto t cloud_init_page (with_keys keys s)) s
      else goto t cloud_init_page s

  unfoldable pub ssh_key_esc : Dialog → Dialog
  ssh_key_esc s = goto t proxy_page s

  unfoldable pub cloud_init_enter : String → Result String (Unit {0}) → Dialog → Dialog
  cloud_init_enter url fetched s0 =
      let i = s0.config.install in
      let s = set_install_of (record i { config_url = url }) s0 in
      if not (url == "")
      then or_say fetched (λ _. goto t confirm_install_page s) s
      else goto t confirm_install_page s

  unfoldable pub cloud_init_esc : Dialog → Dialog
  cloud_init_esc s = goto t ssh_key_page s

  unfoldable pub confirm_install_enter : String → Dialog → Dialog
  confirm_install_enter confirmed s =
      if confirmed == "no" then record s { page = halted } else goto t install_page s

  unfoldable pub confirm_install_esc : Dialog → Dialog
  confirm_install_esc s =
      if s.install_mode_only then goto t disk_page s else goto t cloud_init_page s

  unfoldable pub confirm_upgrade_enter : String → Dialog → Dialog
  confirm_upgrade_enter confirmed s =
      if confirmed == "no" then goto t ask_create_page s else goto t upgrade_page s

  unfoldable pub confirm_upgrade_esc : Dialog → Dialog
  confirm_upgrade_esc s = goto t ask_create_page s
