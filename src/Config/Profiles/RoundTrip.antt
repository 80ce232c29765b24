-- ===== src/Config/Profiles/RoundTrip.antt =====
-- pkg/config/cos.go: a save, any changes, and a restore.
use harvester_installer.Prelude.{
  Bool-cases, String, [], false, if◌then◌else◌, inl, inr, none, ok, refl, some, sym, true, ◌∙◌, ◌≡◌,
  ◌≢◌,
}
use harvester_installer.Config.Types.{Dict}
use harvester_installer.Config.Profiles.{
  Env, restore_original_network_config, restore_saved, save_original_network_config,
}
use harvester_installer.Config.Profiles.Effects.{Machine, is_profile, lookup, saved_configs, ◌>>=◌}
use harvester_installer.Config.Profiles.Wiped.{without}
use harvester_installer.Config.Profiles.Returns.{Faulty, Returns, map-Returns}
use harvester_installer.Config.Profiles.Restored.{or_else-none, over, restore_saved-HasFiles}
use harvester_installer.Config.Profiles.Saved.{save_original_network_config-HasSaved}

module _ (env : Env) (config_path : String) where
  restored_file :
      (s u v : Machine) (original : Dict) (q : String)
      → lookup q v.files ≡ over original (without (is_profile config_path) u) q
      → lookup q original ≡ (if is_profile config_path q then lookup q s.files else none)
      → lookup q v.files ≡ (if is_profile config_path q then lookup q s.files else lookup q u.files)
  restored_file s u v original q h e = elim (Bool-cases (is_profile config_path q)) [
    | inl p ↦ h ∙ rw (e, p) (or_else-none (lookup q s.files))
    | inr p ↦ h ∙ rw (e, p) refl
  ]

  saved_ne_nil :
      (s : Machine) (original : Dict) (q c : String)
      → is_profile config_path q ≡ true
      → lookup q s.files ≡ some c
      → lookup q original ≡ (if is_profile config_path q then lookup q s.files else none)
      → original ≢ []
  unfolding lookup
  saved_ne_nil s original q c p f e n = cc (sym (rw (n, p, f) at e))

  -- The first save, if it succeeds on a machine with a profile, then any changes that keep what was saved, then
  -- a restore: the restore fails only if the machine does, and otherwise the files that match the
  -- pattern are those of the save, with their contents, and the other files are as they were before
  -- the restore.
  pub save-restore :
      (s t u : Machine) (q c : String)
      → s.saved_once ≡ false
      → s.originals ≡ []
      → is_profile config_path q ≡ true
      → lookup q s.files ≡ some c
      → save_original_network_config env config_path s ≡ (ok tt, t)
      → u.originals ≡ t.originals
      → Returns
          (Faulty env.faults)
          (λ _ v.
            (r : String)
            → lookup r v.files
              ≡ (if is_profile config_path r then lookup r s.files else lookup r u.files))
          (restore_original_network_config env config_path u)
  unfolding restore_original_network_config saved_configs ◌>>=◌
  save-restore s t u q c first empty p f saved kept =
      let (_, unique, contents) =
        rw saved at (save_original_network_config-HasSaved env config_path s first empty) in
      let ne = saved_ne_nil s t.originals q c p f (contents q) in
      simp kept (
        map-Returns (Faulty env.faults) _ _ (restore_saved env config_path t.originals u)
          (restore_saved-HasFiles env config_path t.originals u ne unique)
          (λ _ v h r. restored_file s u v t.originals r (h.files_are r) (contents r)))
