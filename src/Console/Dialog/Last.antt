-- ===== src/Console/Dialog/Last.antt =====
-- pkg/console/install_panels.go: the keys of the last pages of the wizard keep what is known.
use harvester_installer.Prelude.{
  Bool, List, Result, String, [], err, false, if◌then◌else◌, not, ok, refl, some, true, ◌≡◌,
}
use harvester_installer.Config.Types.{Os}
use harvester_installer.Console.Dialog.{
  Dialog, DialogTools, UserInput, WizardTools, ask_create_page, cloud_init_page,
  confirm_install_page, disk_page, goto, halted, install_page, ntp_servers_page, or_say,
  preflight_enter, say, set_input, set_install_of, ssh_key_page, upgrade_page,
}
use harvester_installer.Console.Dialog.Later.{
  after_ntp, cloud_init_enter, confirm_install_enter, confirm_install_esc, confirm_upgrade_enter,
  ntp_enter, ntp_esc, proxy_enter, ssh_key_enter, with_checked, with_keys, with_ntp,
}
use harvester_installer.Console.Dialog.Known.{
  IsComplete, IsComplete-os, IsConfirmed, IsNamed-edited,
}
use harvester_installer.Console.Dialog.Ready.{Holds, said}

module _ {Prefix Addr : Type 0} (w : WizardTools Prefix Addr) where
  abbrev t : DialogTools
  t = w.dialog

  after_ntp-Holds : (s : Dialog) → IsComplete w s.mgmt_network s.config → Holds w (after_ntp t s)
  unfolding goto
  after_ntp-Holds s h = h

  pub ntp_enter-Holds :
      (given : String) (validated enabled : Result String (Unit {0})) (s : Dialog)
      → s.page ≡ ntp_servers_page
      → IsComplete w s.mgmt_network s.config
      → Holds w (ntp_enter t given validated enabled s)
  unfolding ntp_enter
  ntp_enter-Holds given validated enabled s on h = go _ _ _ validated enabled
    where
      o : Os
      o = let p = s.config.os in record p { ntp_servers = t.split_commas given }

      set : IsComplete w s.mgmt_network (with_ntp t given s).config
      set = IsComplete-os w s.mgmt_network s.config o refl refl h

      stay : (m : String) → Holds w (say m (with_ntp t given s))
      stay m = said w ntp_servers_page (some m) _ (with_ntp t given s) on set

      go :
          (a b c : Bool) (v e : Result String (Unit {0}))
          → Holds w (
              if a
              then after_ntp t s
              else if not b
              then say "There is space in input." (with_checked t false s)
              else if c
              then say
                  "Empty NTP Server is not recommended. Press Enter again to use current configuration anyway."
                  (with_ntp t given s)
              else or_say v
                  (λ _. or_say e (λ _. after_ntp t (with_ntp t given s)) (with_ntp t given s))
                  (with_ntp t given s))
      go true b c v e = after_ntp-Holds s h
      go false false c v e = said w ntp_servers_page _ _ s on h
      go false true true v e = stay _
      go false true false (err x) e = stay x
      go false true false (ok _) (err x) = stay x
      go false true false (ok _) (ok _) = after_ntp-Holds (with_ntp t given s) set

  pub ntp_esc-Holds : (s : Dialog) → IsComplete w s.mgmt_network s.config → Holds w (ntp_esc t s)
  unfolding ntp_esc goto
  ntp_esc-Holds s h = h.served

  pub proxy_enter-Holds :
      (proxy : String) (s : Dialog)
      → IsComplete w s.mgmt_network s.config
      → Holds w (proxy_enter t proxy s)
  unfolding proxy_enter goto
  proxy_enter-Holds proxy s h = h

  pub ssh_key_enter-Holds :
      (url : String) (fetched : Result String (List String)) (s : Dialog)
      → s.page ≡ ssh_key_page
      → IsComplete w s.mgmt_network s.config
      → Holds w (ssh_key_enter t url fetched s)
  unfolding ssh_key_enter goto
  ssh_key_enter-Holds url fetched s0 on h = go _ fetched
    where
      u : UserInput
      u = let i = s0.input in record i { ssh_key_url = url }

      s : Dialog
      s = with_keys t [] (set_input u s0)

      set : (keys : List String) → IsComplete w s0.mgmt_network (with_keys t keys s0).config
      set keys =
          let o = s0.config.os in
          IsComplete-os w s0.mgmt_network s0.config (record o { ssh_authorized_keys = keys }) refl
            refl h

      go :
          (b : Bool) (r : Result String (List String))
          → Holds w (
              if not b
              then or_say r (λ keys. goto t cloud_init_page (with_keys t keys s)) s
              else goto t cloud_init_page s)
      go true r = set []
      go false (err x) = said w ssh_key_page (some x) u (with_keys t [] s0) on (set [])
      go false (ok keys) = set keys

  pub complete-Holds : (s : Dialog) → IsComplete w s.mgmt_network s.config → IsConfirmed w s
  complete-Holds s h = (h.served.named.networks.disks, λ _. h)

  pub cloud_init_enter-Holds :
      (url : String) (fetched : Result String (Unit {0})) (s : Dialog)
      → s.page ≡ cloud_init_page
      → IsComplete w s.mgmt_network s.config
      → Holds w (cloud_init_enter t url fetched s)
  unfolding cloud_init_enter goto
  cloud_init_enter-Holds url fetched s0 on h = go _ fetched
    where
      s : Dialog
      s = let i = s0.config.install in set_install_of (record i { config_url = url }) s0

      set : IsComplete w s0.mgmt_network s.config
      set =
          let c = s0.config in
          let i = c.install in
          record {
            served = record {
              named =
                  IsNamed-edited w s0.mgmt_network c c.server_url c.token i.vip i.vip_mode
                    i.vip_hw_addr url h.served.named;
              server = h.served.server;
            };
            token = h.token;
          }

      go :
          (b : Bool) (r : Result String (Unit {0}))
          → Holds w (
              if not b
              then or_say r (λ _. goto t confirm_install_page s) s
              else goto t confirm_install_page s)
      go true r = complete-Holds s set
      go false (err x) = said w cloud_init_page (some x) s0.input s on set
      go false (ok _) = complete-Holds s set

  pub confirm_install_enter-Holds :
      (choice : String) (s : Dialog) → IsConfirmed w s → Holds w (confirm_install_enter t choice s)
  unfolding confirm_install_enter goto
  confirm_install_enter-Holds choice s h = go _
    where
      go : (b : Bool) → Holds w (if b then record s { page = halted } else goto t install_page s)
      go true = tt
      go false = h

  pub confirm_install_esc-Holds : (s : Dialog) → IsConfirmed w s → Holds w (confirm_install_esc t s)
  unfolding confirm_install_esc goto
  confirm_install_esc-Holds s h = go _ refl
    where
      go :
          (b : Bool)
          → s.install_mode_only ≡ b
          → Holds w (if b then goto t disk_page s else goto t cloud_init_page s)
      go true e = tt
      go false e = h.1 e

  pub confirm_upgrade_enter-Holds :
      (choice : String) (s : Dialog) → Holds w (confirm_upgrade_enter t choice s)
  unfolding confirm_upgrade_enter goto
  confirm_upgrade_enter-Holds choice s = go _
    where
      go : (b : Bool) → Holds w (if b then goto t ask_create_page s else goto t upgrade_page s)
      go true = tt
      go false = tt

  pub preflight_enter-Holds :
      (proceed : String) (s : Dialog) → Holds w (preflight_enter t proceed s)
  unfolding preflight_enter goto
  preflight_enter-Holds proceed s = go _
    where
      go : (b : Bool) → Holds w (if b then record s { page = halted } else goto t ask_create_page s)
      go true = tt
      go false = tt
