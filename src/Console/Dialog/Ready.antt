-- ===== src/Console/Dialog/Ready.antt =====
-- pkg/console/install_panels.go: each key of the wizard keeps what is known on its pages.
use mathlib.Core.Path.{subst⁻¹}
use harvester_installer.Prelude.{
  Bool, Option, Result, String, Yields, arith, eq_iff, err, false, if◌then◌else◌, none, ok, refl,
  some, true, ◌==◌, ◌>>=◌, ◌>>◌, ◌≡◌,
}
use harvester_installer.Config.Types.{HarvesterConfig, Network}
use harvester_installer.Console.InstallPanel.{or_generated, set_hostname_if}
use harvester_installer.Console.Dialog.{
  Dialog, DialogPage, DialogTools, UserInput, WizardTools, after_mode, ask_create_enter,
  ask_create_page, ask_role_enter, ask_role_page, cloud_init_page, cluster_network_page,
  confirm_install_page, confirm_upgrade_page, disk_next, disk_page, dns_servers_page, goto, halted,
  hostname_page, install_page, network_next, network_page, network_prev, ntp_servers_page,
  password_confirm_enter, password_confirm_key, password_confirm_page, password_escape,
  password_page, preflight_check_page, proxy_page, say, server_url_page, set_input, set_install_of,
  set_os, ssh_key_page, token_page, upgrade_page, vip_page,
}
use harvester_installer.Console.Dialog.Known.{
  HasDisks, HasNetwork, HasNetworks, HasNetworks-os, Known,
}

module _ {Prefix Addr : Type 0} (w : WizardTools Prefix Addr) where
  abbrev t : DialogTools
  t = w.dialog

  abbrev pub Holds : Dialog → Type 0
  Holds s = Known w s.page s

  -- What a page knows holds under a message and what the inputs keep.
  Known-say :
      (name : DialogPage) (m : Option String) (u : UserInput) (s : Dialog)
      → Known w name s
      → Known w name (record s { message = m; input = u })
  Known-say preflight_check_page m u s h = h
  Known-say ask_create_page m u s h = h
  Known-say ask_role_page m u s h = h
  Known-say password_page m u s h = h
  Known-say password_confirm_page m u s h = h
  Known-say disk_page m u s h = h
  Known-say network_page m u s h = h
  Known-say cluster_network_page m u s h = h
  Known-say hostname_page m u s h = h
  Known-say dns_servers_page m u s h = h
  Known-say vip_page m u s h = h
  Known-say server_url_page m u s h = h
  Known-say token_page m u s h = h
  Known-say ntp_servers_page m u s h = h
  Known-say proxy_page m u s h = h
  Known-say ssh_key_page m u s h = h
  Known-say cloud_init_page m u s h = h
  Known-say confirm_install_page m u s h = h
  Known-say confirm_upgrade_page m u s h = h
  Known-say install_page m u s h = h
  Known-say upgrade_page m u s h = h
  Known-say halted m u s h = h

  pub said :
      (name : DialogPage) (m : Option String) (u : UserInput) (s : Dialog)
      → s.page ≡ name
      → Known w name s
      → Holds (record s { message = m; input = u })
  said name m u s on h =
      subst⁻¹ (λ z. Known w z (record s { message = m; input = u })) on (Known-say name m u s h)

  after_mode-Holds : (selected : String) (s : Dialog) → Holds (after_mode t selected s)
  unfolding goto
  after_mode-Holds selected s = go _ _ _ refl
    where
      go :
          (a b c : Bool)
          → t.already_installed ≡ c
          → Holds (
              if a
              then goto t confirm_upgrade_page s
              else if b
              then goto t ask_role_page s
              else if c
              then goto t network_page s
              else goto t password_page s)
      go true b c e = tt
      go false true c e = tt
      go false false true e = λ fresh. cc
      go false false false e = tt

  pub ask_create_enter-Holds :
      (selected : String) (s : Dialog) → Holds (ask_create_enter t selected s)
  unfolding ask_create_enter
  ask_create_enter-Holds selected s = after_mode-Holds selected _

  pub ask_role_enter-Holds : (selected : String) (s : Dialog) → Holds (ask_role_enter t selected s)
  unfolding ask_role_enter goto
  ask_role_enter-Holds selected s0 = go _ refl
    where
      s : Dialog
      s = let i = s0.config.install in set_install_of (record i { role = selected }) s0

      go :
          (c : Bool)
          → t.already_installed ≡ c
          → Holds (if c then goto t network_page s else goto t password_page s)
      go true e = λ fresh. cc
      go false e = tt

  pub password_confirm_key-Holds :
      (text : String) (s : Dialog) → s.page ≡ password_page → Holds (password_confirm_key t text s)
  unfolding password_confirm_key goto
  password_confirm_key-Holds text s0 on = go _
    where
      s : Dialog
      s = let u = s0.input in set_input (record u { password = text }) s0

      go :
          (b : Bool)
          → Holds (if b then say "Password is required" s else goto t password_confirm_page s)
      go true = said password_page _ _ s0 on tt
      go false = tt

  pub password_escape-Holds : (s : Dialog) → Holds (password_escape t s)
  unfolding password_escape goto
  password_escape-Holds s = go _
    where
      go : (b : Bool) → Holds (if b then goto t ask_role_page s else goto t ask_create_page s)
      go true = tt
      go false = tt

  abbrev pub Leads : Result String Dialog → Type 0
  Leads r = Yields Unit Holds r

  pub password_confirm_enter-Leads :
      (text : String) (encrypt : String → Result String String) (applied : Result String (Unit {0}))
      (s : Dialog)
      → s.page ≡ password_confirm_page
      → Leads (password_confirm_enter t text encrypt applied s)
  unfolding password_confirm_enter goto
  password_confirm_enter-Leads text encrypt applied s0 on = go _ (encrypt s0.input.password) applied
    where
      s : Dialog
      s = let u = s0.input in set_input (record u { password_confirm = text }) s0

      go :
          (b : Bool) (r : Result String String) (a : Result String (Unit {0}))
          → Leads (
              if b then ok (say "Password mismatching" s) else (do
                encrypted ← r
                a
                let o = s.config.os
                ok (goto t disk_page (set_os (record o { password = encrypted }) s))))
      go true r a = said password_confirm_page _ _ s0 on tt
      go false (err e) a = tt
      go false (ok x) (err e) = tt
      go false (ok x) (ok _) = tt

  pub disk_next-Holds : (c : HarvesterConfig) (s : Dialog) → HasDisks w c → Holds (disk_next t c s)
  unfolding disk_next goto
  disk_next-Holds c s0 d = go _ refl
    where
      s : Dialog
      s = record s0 { config = c }

      go :
          (b : Bool)
          → s0.install_mode_only ≡ b
          → Holds (if b then goto t confirm_install_page s else goto t network_page s)
      go true e = (d, λ f. cc)
      go false e = d

  pub network_prev-Holds :
      (c : HarvesterConfig) (n : Network) (s : Dialog) → Holds (network_prev t c n s)
  unfolding network_prev goto
  network_prev-Holds c n s0 = go _ _
    where
      s : Dialog
      s = record s0 { config = c; mgmt_network = n }

      go :
          (a b : Bool)
          → Holds (
              if a
              then (if b then goto t ask_role_page s else goto t ask_create_page s)
              else goto t disk_page s)
      go true true = tt
      go true false = tt
      go false b = tt

  -- The hook of the hostname sets the hostname alone.
  pub hostname_page-Holds : (s : Dialog) → HasNetworks w s.config → Holds (goto t hostname_page s)
  unfolding goto
  hostname_page-Holds s h = go _ (or_generated t.os_hostname none)
    where
      c : HarvesterConfig
      c = s.config

      go : (b : Bool) (o : Option String) → HasNetworks w (if b then set_hostname_if c o else c)
      go true none = h
      go true (some name) =
          let o = c.os in HasNetworks-os w s.mgmt_network c (record o { hostname = name }) h
      go false o = h

  pub network_next-Holds :
      (c : HarvesterConfig) (n : Network) (s : Dialog)
      → HasDisks w c
      → HasNetwork w c
      → Holds (network_next t c n s)
  unfolding network_next goto
  network_next-Holds c n s0 d h = go _ refl
    where
      s : Dialog
      s = record s0 { config = c; mgmt_network = n }

      go :
          (b : Bool)
          → c.install.mode == "create" ≡ b
          → Holds (if b then goto t cluster_network_page s else goto t hostname_page s)
      go true e = (d, h)
      go false e = hostname_page-Holds s (record {
        disks = d;
        network = h;
        cluster = λ m. absurd (ground (arith, eq_iff c.install.mode "create"));
      })
