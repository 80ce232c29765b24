-- ===== src/Config/Profiles/Updated.antt =====
-- pkg/config/cos.go: `UpdateManagementInterfaceConfig` as a whole.
use harvester_installer.Prelude.{
  Bool, List, Option-cases, Result, String, ap, err, false, inl, inr, ok, refl, true, ◌∙◌, ◌≡◌,
}
use harvester_installer.Config.Types.{Dict, Network}
use harvester_installer.Config.Profiles.{
  Env, apply_commands, bond_data, bond_of, bond_path, bridge_of, bridge_path, check_mgmt,
  update_bond, update_bridge, update_management_interface_config, wipe_nm_connection_profiles,
  with_bond_options,
}
use harvester_installer.Config.Profiles.Effects.{
  Io, Machine, command, is_profile, lookup, mkdir_all, of_result, pure, ◌>>◌,
}
use harvester_installer.Config.Profiles.Files.{HasFiles, HasFiles-chain}
use harvester_installer.Config.Profiles.Returns.{
  Faulty, Returns, bind-Returns, command_fails, map-Returns, mkdir_fails, weaken-Returns,
}
use harvester_installer.Config.Profiles.Wiped.{wipe_nm_connection_profiles-HasFiles, without}
use harvester_installer.Config.Profiles.Written.{
  Excuse, check_mgmt-IsRefused, faulty, has_vlan, profiles_of, refused, rendered, slaves_over,
  update_bond-HasFiles, update_bridge-HasFiles, vlan_over,
}

module _ (env : Env) where
  command-Returns :
      (line : String) (s : Machine)
      → Returns (Faulty env.faults) (λ _ t. t.files ≡ s.files) (command env.faults line s)
  unfolding command
  command-Returns line s = elim (Option-cases (env.faults.command_fault line)) [
    | inl e ↦ rw e refl
    | inr (x, e) ↦ rw e (command_fails line x e)
  ]

  -- A command, and then the rest.
  command_then :
      (line : String) (rest : Io (Unit {0})) (s : Machine)
      → ((t : Machine) → Returns (Faulty env.faults) (λ _ u. u.files ≡ t.files) (rest t))
      → Returns (Faulty env.faults) (λ _ u. u.files ≡ s.files) ((command env.faults line >> rest) s)
  command_then line rest s next =
      bind-Returns (Faulty env.faults) _ _ (command env.faults line) (λ _. rest) s
        (command-Returns line s)
        (λ _ t h. map-Returns (Faulty env.faults) _ _ (rest t) (next t) (λ _ u k. k ∙ h))

  apply_commands-Returns :
      (apply_config : Bool) (s : Machine)
      → Returns (Faulty env.faults) (λ _ t. t.files ≡ s.files) (apply_commands env apply_config s)
  unfolding apply_commands pure
  apply_commands-Returns false s = refl
  apply_commands-Returns true s =
      command_then _ _ s (λ t. command_then _ _ t (λ u. command_then _ _ u (command-Returns _)))

  module _ (n : Network) (dns_servers : List String) (config_path : String) where
    abbrev Written : Machine → Machine → Type 0
    Written s t =
        (q : String)
        → lookup q t.files
          ≡ profiles_of env config_path n dns_servers (without (is_profile config_path) s) q

    -- The steps behind the checks of the network and of the directory.
    written :
        (apply_config : Bool) (s : Machine)
        → Returns
            (Excuse env n)
            (λ _ t. Written s t)
            ((wipe_nm_connection_profiles env config_path
                >> (update_bond env (bond_of n) config_path
                    >> (update_bridge env n dns_servers config_path
                        >> apply_commands env apply_config)))
              s)
    unfolding bond_of
    written apply_config s =
        let bond = update_bond env (bond_of n) config_path in
        let bridge = update_bridge env n dns_servers config_path in
        let apply = apply_commands env apply_config in
        bind-Returns (Excuse env n) (λ _. HasFiles s (without (is_profile config_path) s)) _
          (wipe_nm_connection_profiles env config_path) (λ _. bond >> (bridge >> apply)) s
          (weaken-Returns (Faulty env.faults) (Excuse env n)
            (λ _. HasFiles s (without (is_profile config_path) s))
            (wipe_nm_connection_profiles env config_path s) faulty
            (wipe_nm_connection_profiles-HasFiles env config_path s))
          (λ _ t h.
            bind-Returns (Excuse env n) _ _ bond (λ _. bridge >> apply) t
              (update_bond-HasFiles env n (bond_of n) config_path t)
              (λ _ u k.
                bind-Returns (Excuse env n) _ _ bridge (λ _. apply) u
                  (update_bridge-HasFiles env n dns_servers config_path u)
                  (λ _ v m.
                    let all =
                      HasFiles-chain s u v _
                        (λ b.
                          vlan_over env (has_vlan env n.vlan_id) config_path n dns_servers (
                            rendered env (bridge_path config_path) (bridge_of env n dns_servers) b))
                        (HasFiles-chain s t u _
                          (λ b. slaves_over env config_path n.interfaces (
                            rendered env (bond_path config_path)
                              (bond_data (with_bond_options (bond_of n))) b))
                          h k)
                        m in
                    map-Returns (Excuse env n) _ _ (apply v)
                      (weaken-Returns (Faulty env.faults) (Excuse env n) (λ _ w. w.files ≡ v.files)
                        (apply v) faulty (apply_commands-Returns apply_config v))
                      (λ _ w same q. ap (λ (f : Dict). lookup q f) same ∙ all.files_are q))))

    check_mgmt-Returns :
        (s : Machine) → Returns (Excuse env n) (λ _ t. t ≡ s) (of_result (check_mgmt env n) s)
    unfolding of_result
    check_mgmt-Returns s = go (check_mgmt env n) refl
      where
        go :
            (r : Result String (Unit {0}))
            → check_mgmt env n ≡ r
            → Returns (Excuse env n) (λ _ t. t ≡ s) (r, s)
        go (ok _) e = refl
        go (err x) e = refused (check_mgmt-IsRefused env n x e)

    mkdir_all-Returns :
        (s : Machine) → Returns (Excuse env n) (λ _ t. t ≡ s) (mkdir_all env.faults config_path s)
    unfolding mkdir_all
    mkdir_all-Returns s = elim (Option-cases (env.faults.mkdir_fault config_path)) [
      | inl e ↦ rw e refl
      | inr (x, e) ↦ rw e (faulty (mkdir_fails config_path x e))
    ]

    -- Updating the management interface fails only if the network is refused (it has no interface, or
    -- a method that is none of dhcp, static and none), a template is not rendered, or the machine fails. Otherwise the old profiles
    -- are gone, the files are the rendered profiles of the bond, of each of its interfaces, of the
    -- bridge and, for a VLAN from 2 to 4094, of the VLAN, and all other files are as they were.
    pub update_management_interface_config-Written :
        (apply_config : Bool) (s : Machine)
        → Returns
            (Excuse env n)
            (λ _ t.
              (q : String)
              → lookup q t.files
                ≡ profiles_of env config_path n dns_servers (without (is_profile config_path) s) q)
            (update_management_interface_config env n dns_servers config_path apply_config s)
    unfolding update_management_interface_config
    update_management_interface_config-Written apply_config s =
        bind-Returns (Excuse env n) _ _ (of_result (check_mgmt env n)) _ s (check_mgmt-Returns s)
          (λ _ t e.
            bind-Returns (Excuse env n) _ _ (mkdir_all env.faults config_path) _ t
              (mkdir_all-Returns t) (λ _ u f. rw (f ∙ e) (written apply_config s)))
