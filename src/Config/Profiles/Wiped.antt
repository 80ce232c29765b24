-- ===== src/Config/Profiles/Wiped.antt =====
-- pkg/config/cos.go: `wipeNMConnectionProfiles`.
use harvester_installer.Prelude.{
  Bool, List, Option, String, [], arith, if◌then◌else◌, none, slice_contains, ◌==◌, ◌∷◌, ◌≡◌,
}
use harvester_installer.Config.Profiles.{Env, remove_all, wipe_nm_connection_profiles}
use harvester_installer.Config.Profiles.Effects.{
  Machine, glob, is_profile, lookup, profile_paths, pure, remove, ◌>>=◌,
}
use harvester_installer.Config.Profiles.Files.{
  HasFiles, HasFiles-refl, HasFiles-trans, lookup-glob, remove-HasFiles,
}
use harvester_installer.Config.Profiles.Returns.{Faulty, Returns, bind-Returns, map-Returns}

-- The files of `s` that pass a test are gone.
abbrev pub without : (String → Bool) → Machine → String → Option String
without test s q = if test q then none else lookup q s.files

module _ (env : Env) where
  remove_all-HasFiles :
      (paths : List String) (s : Machine)
      → Returns
          (Faulty env.faults)
          (λ _ t. HasFiles s (without (slice_contains paths) s) t)
          (remove_all env paths s)
  unfolding remove_all slice_contains pure
  remove_all-HasFiles [] s = HasFiles-refl s
  remove_all-HasFiles (path ∷ paths) s =
      bind-Returns (Faulty env.faults) _ _ (remove env.faults path) (λ _. remove_all env paths) s
        (remove-HasFiles env.faults path s)
        (λ _ t h.
          map-Returns (Faulty env.faults) _ _ (remove_all env paths t) (remove_all-HasFiles paths t)
            (λ _ u k. HasFiles-trans s _ _ _ t u h k (λ q. merged q t h)))
    where
      merged :
          (q : String) (t : Machine)
          → HasFiles s (λ q. if path == q then none else lookup q s.files) t
          → without (slice_contains paths) t q ≡ without (slice_contains (path ∷ paths)) s q
      merged q t h = ground (arith, h.files_are q)

  -- Wiping the profiles fails only if the machine does; otherwise no file that matches the pattern is
  -- left, every other file is as it was, and nothing else has changed.
  pub wipe_nm_connection_profiles-HasFiles :
      (config_path : String) (s : Machine)
      → Returns
          (Faulty env.faults)
          (λ _ t. HasFiles s (without (is_profile config_path) s) t)
          (wipe_nm_connection_profiles env config_path s)
  unfolding wipe_nm_connection_profiles glob ◌>>=◌
  wipe_nm_connection_profiles-HasFiles config_path s =
      map-Returns (Faulty env.faults) _ _ _
        (remove_all-HasFiles (profile_paths (is_profile config_path) s.files) s)
        (λ _ t h.
          HasFiles-trans s _ _ _ s t (HasFiles-refl s) h
            (λ q. lookup-glob (is_profile config_path) q s.files))
