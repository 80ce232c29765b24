-- ===== src/Console/Dialog/Ahead.antt =====
-- pkg/console/install_panels.go: the keys of the later pages of the wizard keep what is known.
use harvester_installer.Prelude.{
  Bool, List, Result, String, arith, eq_iff, err, false, if◌then◌else◌, map_err, not, ok, refl,
  some, true, ◌&&◌, ◌==◌, ◌≡◌, ◌≢◌,
}
use harvester_installer.Config.Types.{HarvesterConfig}
use harvester_installer.Console.Validator.Machine.{check_ip_list}
use harvester_installer.Console.Validator.Fields.{Check, check_token}
use harvester_installer.Console.Dialog.{
  Dialog, DialogTools, UserInput, WizardTools, after_dns, cluster_network_page, dns_enter, dns_esc,
  dns_servers_page, goto, hostname_enter, hostname_page, hostname_prev, network_page,
  ntp_servers_page, or_say, say, server_url_page, set_input, set_os, token_page, vip_page, with_dns,
}
use harvester_installer.Console.Dialog.Later.{
  server_url_enter, server_url_esc, token_enter, token_esc, vip_next, vip_prev,
}
use harvester_installer.Console.Dialog.Known.{
  HasHostname, HasNetworks, HasNetworks-os, IsNamed, IsNamed-edited, IsServed, IsVip,
}
use harvester_installer.Console.Dialog.Ready.{Holds, hostname_page-Holds, said}

module _ {Prefix Addr : Type 0} (w : WizardTools Prefix Addr) where
  abbrev t : DialogTools
  t = w.dialog

  pub hostname_prev-Holds : (s : Dialog) → HasNetworks w s.config → Holds w (hostname_prev t s)
  unfolding hostname_prev goto
  hostname_prev-Holds s h = go _
    where
      go : (b : Bool) → Holds w (if b then goto t cluster_network_page s else goto t network_page s)
      go true = (h.disks, h.network)
      go false = h.disks

  pub hostname_enter-Holds :
      (text : String) (s : Dialog)
      → s.page ≡ hostname_page
      → HasNetworks w s.config
      → Holds w (hostname_enter t text s)
  unfolding hostname_enter goto
  hostname_enter-Holds text s on h = go _ _ refl
    where
      go :
          (a b : Bool)
          → t.host.is_dns1123_subdomain text ≡ b
          → Holds w (
              let o = s.config.os in
              if a
              then say "Must specify hostname." s
              else if not b
              then say
                  "Invalid hostname. A lowercase RFC 1123 subdomain must consist of lower case alphanumeric characters, '-' or '.'."
                  s
              else goto t dns_servers_page (set_os (record o { hostname = text }) s))
      go true b e = said w hostname_page _ s.input s on h
      go false false e = said w hostname_page _ s.input s on h
      go false true e =
          let o = s.config.os in
          (HasNetworks-os w s.mgmt_network s.config (record o { hostname = text }) h, e)

  -- A new cluster asks for a virtual IP, any other node for the server.
  created-Holds :
      (s : Dialog)
      → IsNamed w s.mgmt_network s.config
      → (b : Bool) → s.config.install.mode == "create" ≡ b
      → Holds w (if b then goto t vip_page s else goto t server_url_page s)
  unfolding goto
  created-Holds s h true e = ((eq_iff s.config.install.mode "create").0 e, h)
  created-Holds s h false e = (λ m. ground (arith, eq_iff s.config.install.mode "create"), h)

  after_dns-Holds : (s : Dialog) → IsNamed w s.mgmt_network s.config → Holds w (after_dns t s)
  unfolding goto
  after_dns-Holds s h = created-Holds s h _ refl

  pub dns_enter-Holds :
      (given : String) (updated : Result String (Unit {0})) (s : Dialog)
      → s.page ≡ dns_servers_page
      → HasNetworks w s.config
      → HasHostname w s.config
      → Holds w (dns_enter t given updated s)
  unfolding dns_enter
  dns_enter-Holds given updated s0 on h name = static _ _ refl refl
    where
      dns_servers : String
      dns_servers = t.trim_space given

      u : UserInput
      u = let i = s0.input in record i { dns_servers = dns_servers }

      s : Dialog
      s = set_input u s0

      servers : List String
      servers = t.split_commas dns_servers

      stay : (m : String) → Holds w (say m s)
      stay m = said w dns_servers_page (some m) u s0 on (h, name)

      apply :
          (r : Result String (Unit {0}))
          → check_ip_list t.host servers ≡ ok tt
          → Holds w (or_say r (λ _. after_dns t (with_dns t servers s)) s)
      apply (err e) p = stay e
      apply (ok _) p =
          let o = s.config.os in
          after_dns-Holds (with_dns t servers s) (record {
            networks =
                HasNetworks-os w s.mgmt_network s.config (record o { dns_nameservers = servers }) h;
            hostname = name;
            dns = λ m. p;
          })

      checked :
          (r : Check)
          → check_ip_list t.host servers ≡ r
          → Holds w (
              or_say
                (map_err t.fault_text r)
                (λ _. or_say updated (λ _. after_dns t (with_dns t servers s)) s)
                s)
      checked (err e) p = stay (t.fault_text e)
      checked (ok _) p = apply updated p

      static :
          (a b : Bool)
          → s0.mgmt_network.method == "static" ≡ a
          → dns_servers == "" ≡ b
          → Holds w (
              if a && b
              then say "DNS servers are required for static IP address" s
              else if b
              then after_dns t s
              else or_say
                  (map_err t.fault_text (check_ip_list t.host servers))
                  (λ _. or_say updated (λ _. after_dns t (with_dns t servers s)) s)
                  s)
      static true true x y = stay _
      static true false x y = checked _ refl
      static false false x y = checked _ refl
      static false true x y = after_dns-Holds s (record {
        networks = h;
        hostname = name;
        dns = λ m. absurd (ground (arith, eq_iff s0.mgmt_network.method "static"));
      })

  pub dns_esc-Holds : (s : Dialog) → HasNetworks w s.config → Holds w (dns_esc t s)
  unfolding dns_esc
  dns_esc-Holds s h = hostname_page-Holds w s h

  pub server_url_enter-Holds :
      (given : String) (pinged : Result String (Unit {0})) (s : Dialog)
      → s.page ≡ server_url_page
      → s.config.install.mode ≢ "create"
      → IsNamed w s.mgmt_network s.config
      → Holds w (server_url_enter t given pinged s)
  unfolding server_url_enter goto
  server_url_enter-Holds given pinged s0 on other h = go _ (t.format_server_url given) pinged refl
    where
      u : UserInput
      u = let i = s0.input in record i { server_url = given }

      s : Dialog
      s = set_input u s0

      go :
          (b : Bool) (r : Result String String) (a : Result String (Unit {0}))
          → t.format_server_url given ≡ r
          → Holds w (
              let c = s.config in
              if b
              then say "Management address is required" s
              else or_say r
                  (λ url.
                    or_say a
                      (λ _. goto t token_page (record s { config = record c { server_url = url } }))
                      s)
                  s)
      go true r a e = said w server_url_page _ u s0 on (other, h)
      go false (err x) a e = said w server_url_page _ u s0 on (other, h)
      go false (ok url) (err x) e = said w server_url_page _ u s0 on (other, h)
      go false (ok url) (ok _) e =
          let c = s0.config in
          let i = c.install in
          record {
            named =
                IsNamed-edited w s0.mgmt_network c url c.token i.vip i.vip_mode i.vip_hw_addr
                  i.config_url h;
            server = (λ m. absurd (other m), λ _. (given, e));
          }

  pub token_enter-Holds :
      (text : String) (s : Dialog)
      → s.page ≡ token_page
      → IsServed w s.mgmt_network s.config
      → Holds w (token_enter t text s)
  unfolding token_enter goto
  token_enter-Holds text s on h = go _ (check_token text) refl
    where
      go :
          (b : Bool) (r : Check)
          → check_token text ≡ r
          → Holds w (
              let c = s.config in
              if b
              then say "Cluster token is required" s
              else or_say
                  (map_err t.fault_text r)
                  (λ _. goto t ntp_servers_page (record s { config = record c { token = text } }))
                  s)
      go true r e = said w token_page _ s.input s on h
      go false (err x) e = said w token_page _ s.input s on h
      go false (ok _) e =
          let c = s.config in
          let i = c.install in
          record {
            served = record {
              named =
                  IsNamed-edited w s.mgmt_network c c.server_url text i.vip i.vip_mode i.vip_hw_addr
                    i.config_url h.named;
              server = h.server;
            };
            token = e;
          }

  pub token_esc-Holds : (s : Dialog) → IsServed w s.mgmt_network s.config → Holds w (token_esc t s)
  unfolding token_esc goto
  token_esc-Holds s h = created-Holds s h.named _ refl

  pub server_url_esc-Holds :
      (s : Dialog) → IsNamed w s.mgmt_network s.config → Holds w (server_url_esc t s)
  unfolding server_url_esc goto
  server_url_esc-Holds s h = (h.networks, h.hostname)

  pub vip_prev-Holds :
      (c : HarvesterConfig) (s : Dialog) → IsNamed w s.mgmt_network c → Holds w (vip_prev t c s)
  unfolding vip_prev goto
  vip_prev-Holds c s h = (h.networks, h.hostname)

  pub vip_next-Holds :
      (c : HarvesterConfig) (s : Dialog)
      → c.install.mode ≡ "create"
      → IsNamed w s.mgmt_network c
      → IsVip w s.mgmt_network c.install
      → Holds w (vip_next t c s)
  unfolding vip_next goto
  vip_next-Holds c s m h v = record { named = h; server = (λ _. v, λ other. absurd (other m)) }
