-- ===== src/Console/InstallPanel.antt =====
-- The panel of the installation: what pkg/console/install_panels.go does when it is shown, from the
-- remote configuration to the installation itself, with the helpers of pkg/console/util.go. What is
-- printed and logged is left out; an error that ends it is one that is printed to the panel.
pub mod Start
pub mod Ready
pub mod Quiet
use text.Mathlib.Text.{starts_with}
use harvester_installer.Prelude.{
  Bool, List, Option, Result, String, [], concat_text, discard, err, fail_if, if◌then◌else◌,
  is_empty, map_err, map_ok, none, not, ok, some, succeeds, true, ℕ, ℤ, ◌&&◌, ◌++◌, ◌-◌, ◌==◌,
  ◌>>=◌, ◌>>◌, ◌||◌, ◌∷◌,
}
use harvester_installer.Config.Types.{
  HarvesterConfig, Network, NetworkInterface, network_method_dhcp,
}
use harvester_installer.Config.Interfaces.{InterfaceError, find_network_interface_name_and_hw_addr}
use harvester_installer.Preflight.{Message, SpeedError, network_speed_check, pass}
use harvester_installer.Console.Disks.{DiskOptionsCache}
use harvester_installer.Console.Retry.{retry_on_error}
use harvester_installer.Console.Validator.{validate_config}
use harvester_installer.Console.Validator.Machine.{Host, check_domain, check_ip}
use harvester_installer.Console.Validator.Fields.{ValidationError}
use harvester_installer.Console.Webhooks.{Renderer}
use harvester_installer.Console.Network.{NetworkTools, get_management_interface_name}
use harvester_installer.Console.Install.{InstallTools}

-- A URL as net/url reads it.
pub record Url : Type 0 where
  pub host : String
  pub hostname : String
  pub port : String
  pub path : String

-- The n-th answer to the request for a URL, the reading and merging of a configuration, the URLs of
-- net/url, and what the machine says.
pub record PanelTools : Type 0 where
  pub host : Host
  pub network_tools : NetworkTools
  pub install_tools : InstallTools
  pub renderer : HarvesterConfig → Renderer
  pub get_url : String → ℕ → Result String String
  pub load_harvester_config : String → Result String HarvesterConfig
  pub merge : HarvesterConfig → HarvesterConfig → Result String HarvesterConfig
  pub to_lower : String → String
  pub trim_space : String → String
  pub parse_request_uri : String → Result String Url
  pub url_text : Url → String
  pub interface_fault : InterfaceError → String
  pub validation_fault : ValidationError → String
  pub get_vip_through_dhcp : String → Result String (String × String)
  pub os_hostname : Result String String
  pub generated_hostname : String
  pub first_console_tty : String
  pub atoi : String → ℤ
  pub read_speed : String → Result String String
  pub message_text : Message → String
  pub default_route : Result String Bool

-- The state that the wizard leaves to the panel.
pub record Wizard : Type 0 where
  pub already_installed : Bool
  pub install_mode_only : Bool
  pub preflight_ack : Bool
  pub preflight_warnings : List String
  pub mgmt_network : Network
  pub cache : DiskOptionsCache

abbrev pub set_vip : String × String → HarvesterConfig → HarvesterConfig
set_vip v c = let i = c.install in record c { install = record i { vip = v.0; vip_hw_addr = v.1 } }

-- `for i := range interfaces { if err := f(&interfaces[i]); err != nil { return err } }`
unfoldable pub map_each {κ} :
    {E : Type κ} {A : Type 0} → (A → Result E A) → List A → Result E (List A)
map_each f [] = ok []
map_each f (x ∷ xs) = do y ← f x; ys ← map_each f xs; ok (y ∷ ys)

abbrev pub or_generated : Result String String → Option String → Option String
or_generated (err e) generated = generated
or_generated (ok hostname) generated =
    if not (hostname == "rancher") && not (hostname == "") then some hostname else generated

abbrev pub set_hostname_if : HarvesterConfig → Option String → HarvesterConfig
set_hostname_if c none = c
set_hostname_if c (some hostname) =
    let o = c.os in record c { os = record o { hostname = hostname } }

module _ (t : PanelTools) where
  -- The data of the last request, the first that succeeds.
  unfoldable pub retry_remote_config : String → Result String HarvesterConfig
  retry_remote_config url = do
    let r = retry_on_error 30 (λ n. discard (t.get_url url n))
    r.0
    conf_data ← t.get_url url (r.1 - 1)
    t.load_harvester_config conf_data

  unfoldable pub merge_remote : HarvesterConfig → Result String HarvesterConfig
  merge_remote c =
      if c.install.config_url == ""
      then ok c
      else retry_remote_config c.install.config_url >>= (λ remote. t.merge c remote)

  -- Without regard to case.
  unfoldable pub lower_cased : HarvesterConfig → HarvesterConfig
  lower_cased c =
      let i = c.install in
      let m = i.management_interface in
      record c {
        install = record i {
          management_interface = record m { method = t.to_lower m.method };
          vip_mode = t.to_lower i.vip_mode;
        };
      }

  unfoldable pub with_interfaces : HarvesterConfig → Result String HarvesterConfig
  with_interfaces c =
      let i = c.install in
      let m = i.management_interface in
      map_ok
        (λ is. record c {
          install = record i { management_interface = record m { interfaces = is } };
        })
        (map_err t.interface_fault
          (map_each (find_network_interface_name_and_hw_addr t.host.interfaces) m.interfaces))

  unfoldable pub need_to_get_vip_from_dhcp : String → String → String → Bool
  need_to_get_vip_from_dhcp mode vip hw_addr =
      t.to_lower mode == network_method_dhcp && (vip == "" || hw_addr == "")

  unfoldable pub vip_from_dhcp : HarvesterConfig → Result String HarvesterConfig
  vip_from_dhcp c =
      let i = c.install in
      if need_to_get_vip_from_dhcp i.vip_mode i.vip i.vip_hw_addr
      then map_ok (λ v. set_vip v c)
          (t.get_vip_through_dhcp
            (get_management_interface_name t.network_tools i.management_interface))
      else ok c

  unfoldable pub check_dhcp_hostname : Bool → HarvesterConfig → HarvesterConfig
  check_dhcp_hostname generate c =
      if c.os.hostname == ""
      then set_hostname_if c
          (or_generated t.os_hostname (if generate then some t.generated_hostname else none))
      else c

  unfoldable pub with_tty : HarvesterConfig → HarvesterConfig
  with_tty c =
      let i = c.install in
      if i.tty == "" then record c { install = record i { tty = t.first_console_tty } } else c

  unfoldable pub get_formatted_server_url : String → Result String String
  get_formatted_server_url given = do
    fail_if (given == "") "management address cannot be empty"
    let addr = t.trim_space given
    url ←
        map_err (λ _. concat_text addr " is invalid")
          (t.parse_request_uri
            (if starts_with addr "https://" then addr else concat_text "https://" addr))
    fail_if
        (not (succeeds (check_ip t.host url.hostname))
          && not (succeeds (check_domain t.host url.hostname)))
        (concat_text addr " is not a valid ip/domain")
    fail_if (not (url.path == ""))
        (concat_text "path is not allowed in management address: " url.path)
    fail_if (not (url.port == "") && not (url.port == "443"))
        "currently non-443 port are not allowed"
    ok (
        t.url_text
          (if url.port == "" then record url { host = concat_text url.host ":443" } else url))

  unfoldable pub with_server_url : HarvesterConfig → Result String HarvesterConfig
  with_server_url c =
      if c.server_url == ""
      then ok c
      else map_ok (λ formatted. record c { server_url = formatted })
          (get_formatted_server_url c.server_url)

  -- The warnings of `doNetworkSpeedCheck`: a check that fails to run gives none.
  abbrev pub speed_warning : Result SpeedError Message → List String
  speed_warning (err e) = []
  speed_warning (ok pass) = []
  speed_warning (ok m) = t.message_text m ∷ []

  unfoldable pub do_network_speed_check : List NetworkInterface → List String
  do_network_speed_check [] = []
  do_network_speed_check (iface ∷ ifaces) =
      speed_warning (network_speed_check t.atoi (t.read_speed iface.name))
      ++ do_network_speed_check ifaces

  -- Warnings end an installation unless the checks are skipped or the warnings are acknowledged.
  unfoldable pub check_warnings : Wizard → HarvesterConfig → Result String (Unit {0})
  check_warnings w c =
      if not w.already_installed
      then (let warnings =
            w.preflight_warnings
            ++ do_network_speed_check c.install.management_interface.interfaces in
          fail_if (not (is_empty warnings) && not (c.install.skip_checks || w.preflight_ack))
            "preflight warnings")
      else ok tt

  unfoldable pub check_route : Wizard → HarvesterConfig → Result String (Unit {0})
  check_route w c = do
    found ← t.default_route
    fail_if
        (not w.install_mode_only
          && (not found && c.install.management_interface.method == network_method_dhcp))
        "No default route found. Please check the router setting on the DHCP server."

  -- `ForceGPT` is the opposite of `ForceMBR`, and the data disk is not named twice.
  unfoldable pub settle_disks : HarvesterConfig → HarvesterConfig
  settle_disks c =
      let i = c.install in
      record c {
        install = record i {
          force_gpt = not i.force_mbr;
          data_disk = if i.data_disk == i.device then "" else i.data_disk;
        };
      }

  -- The last steps, behind the network: no more is asked of the machine but by the validator.
  unfoldable pub checked_config : Wizard → HarvesterConfig → Result String HarvesterConfig
  checked_config w c0 = do
    c ← with_server_url (with_tty (check_dhcp_hostname true c0))
    check_warnings w c
    check_route w c
    map_err t.validation_fault (validate_config t.host w.cache w.already_installed (settle_disks c))
    ok (settle_disks c)
