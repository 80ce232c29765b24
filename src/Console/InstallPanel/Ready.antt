-- ===== src/Console/InstallPanel/Ready.antt =====
-- pkg/console/install_panels.go: what holds of a configuration that the panel has checked.
use harvester_installer.Prelude.{
  Bool, List, Result, String, Yields, [], eq_iff, err, fail_if, false, if◌then◌else◌, inl, inr,
  is_empty, map_err, not, ok, refl, true, ◌&&◌, ◌++◌, ◌==◌, ◌>>=◌, ◌>>◌, ◌||◌, ◌∷◌, ◌≡◌, ◌⊎◌,
}
use harvester_installer.Config.Types.{HarvesterConfig}
use harvester_installer.Console.Validator.{validate_config}
use harvester_installer.Console.Validator.Fields.{Check}
use harvester_installer.Console.InstallPanel.{
  PanelTools, Wizard, check_dhcp_hostname, check_route, check_warnings, checked_config,
  do_network_speed_check, settle_disks, with_server_url, with_tty,
}

module _ (t : PanelTools) (w : Wizard) where
  -- What the panel promises of a configuration that it installs.
  pub record IsReady (c : HarvesterConfig) : Type 0 where
    pub valid : validate_config t.host w.cache w.already_installed c ≡ ok tt
    pub force_gpt : c.install.force_gpt ≡ not c.install.force_mbr
    pub one_disk : c.install.data_disk ≡ c.install.device → c.install.data_disk ≡ ""
    pub warnings :
        w.already_installed ≡ false
        → (w.preflight_warnings
              ++ do_network_speed_check t c.install.management_interface.interfaces
            ≡ [])
          ⊎ (c.install.skip_checks || w.preflight_ack ≡ true)
    pub route :
        w.install_mode_only ≡ false
        → c.install.management_interface.method ≡ "dhcp"
        → t.default_route ≡ ok true

  warned-IsReady :
      (c : HarvesterConfig)
      → check_warnings t w c ≡ ok tt
      → w.already_installed ≡ false
      → (w.preflight_warnings ++ do_network_speed_check t c.install.management_interface.interfaces
          ≡ [])
        ⊎ (c.install.skip_checks || w.preflight_ack ≡ true)
  unfolding check_warnings
  warned-IsReady c p fresh = go w.already_installed _ _ fresh p
    where
      go :
          (already : Bool) (ws : List String) (skip : Bool)
          → already ≡ false
          → (if not already
              then fail_if {E = String} (not (is_empty ws) && not skip) "preflight warnings"
              else ok tt)
            ≡ ok tt
          → (ws ≡ []) ⊎ (skip ≡ true)
      go true ws skip f p = cc
      go false [] skip f p = inl refl
      go false (x ∷ ws) true f p = inr refl
      go false (x ∷ ws) false f p = cc

  routed-IsReady :
      (c : HarvesterConfig)
      → check_route t w c ≡ ok tt
      → w.install_mode_only ≡ false
      → c.install.management_interface.method ≡ "dhcp"
      → t.default_route ≡ ok true
  unfolding check_route
  routed-IsReady c p full dhcp =
      go t.default_route w.install_mode_only _ full
        ((eq_iff c.install.management_interface.method "dhcp").1 dhcp) p
    where
      go :
          (route : Result String Bool) (only by_dhcp : Bool)
          → only ≡ false
          → by_dhcp ≡ true
          → (do
            found ← route
            fail_if {E = String}
                (not only && (not found && by_dhcp))
                "No default route found. Please check the router setting on the DHCP server.")
            ≡ ok tt
          → route ≡ ok true
      go (ok true) only by_dhcp f d p = refl
      go (ok false) false true f d p = cc
      go (ok false) false false f d p = cc
      go (ok false) true by_dhcp f d p = cc
      go (err e) only by_dhcp f d p = cc

  settled-IsReady :
      (c : HarvesterConfig)
      → check_warnings t w c ≡ ok tt
      → check_route t w c ≡ ok tt
      → map_err t.validation_fault
          (validate_config t.host w.cache w.already_installed (settle_disks t c))
        ≡ ok tt
      → IsReady (settle_disks t c)
  unfolding settle_disks
  settled-IsReady c warned routed valid = record {
    valid = passes _ valid;
    force_gpt = refl;
    one_disk = λ same.
        once (c.install.data_disk == c.install.device)
          (λ b. (eq_iff c.install.data_disk c.install.device).1 b) same;
    warnings = warned-IsReady c warned;
    route = routed-IsReady c routed;
  }
    where
      passes : (r : Check) → map_err t.validation_fault r ≡ ok tt → r ≡ ok tt
      passes (ok _) p = refl
      passes (err e) p = cc

      once :
          (b : Bool)
          → (c.install.data_disk ≡ c.install.device → b ≡ true)
          → (if b then "" else c.install.data_disk) ≡ c.install.device
          → (if b then "" else c.install.data_disk) ≡ ""
      once true same p = refl
      once false same p = absurd (cc (same p))

  pub checked_config-IsReady : (c : HarvesterConfig) → Yields Unit IsReady (checked_config t w c)
  unfolding checked_config
  checked_config-IsReady c0 = from (with_server_url t (with_tty t (check_dhcp_hostname t true c0)))
    where
      from :
          (r : Result String HarvesterConfig)
          → Yields Unit IsReady (do
            c ← r
            check_warnings t w c
            check_route t w c
            map_err t.validation_fault
                (validate_config t.host w.cache w.already_installed (settle_disks t c))
            ok (settle_disks t c))
      from (err e) = tt
      from (ok c) = chain _ _ _ refl refl refl
        where
          chain :
              (warned routed valid : Result String (Unit {0}))
              → check_warnings t w c ≡ warned
              → check_route t w c ≡ routed
              → map_err t.validation_fault
                  (validate_config t.host w.cache w.already_installed (settle_disks t c))
                ≡ valid
              → Yields Unit IsReady (do warned; routed; valid; ok (settle_disks t c))
          chain (err e) routed valid p q r = tt
          chain (ok _) (err e) valid p q r = tt
          chain (ok _) (ok _) (err e) p q r = tt
          chain (ok _) (ok _) (ok _) p q r = settled-IsReady c p q r
