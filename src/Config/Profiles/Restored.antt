-- ===== src/Config/Profiles/Restored.antt =====
-- pkg/config/cos.go: `RestoreOriginalNetworkConfig` after `SaveOriginalNetworkConfig`.
use harvester_installer.Prelude.{
  Option, String, [], ap, arith, eq_iff, if◌then◌else◌, none, refl, some, ◌==◌, ◌∷◌, ◌≡◌, ◌≢◌,
}
use harvester_installer.Config.Types.{Dict}
use harvester_installer.Config.Profiles.{Env, restore_saved, wipe_nm_connection_profiles, write_all}
use harvester_installer.Config.Profiles.Effects.{
  Machine, is_profile, lookup, pure, store, write_file,
}
use harvester_installer.Config.Profiles.Files.{
  HasFiles, HasFiles-refl, HasFiles-trans, lookup-store, write_file-HasFiles,
}
use harvester_installer.Config.Profiles.Returns.{Faulty, Returns, bind-Returns, map-Returns}
use harvester_installer.Config.Profiles.Wiped.{wipe_nm_connection_profiles-HasFiles, without}

abbrev pub or_else : Option String → Option String → Option String
or_else none b = b
or_else (some a) b = some a

-- The files of `top` over those of `base`.
abbrev pub over : Dict → (String → Option String) → String → Option String
over top base q = or_else (lookup q top) (base q)

-- Each path once.
abbrev pub Unique : Dict → Type 0
Unique [] = Unit
Unique ((p, c) ∷ fs) = (lookup p fs ≡ none) × Unique fs

pub store-Unique : (p c : String) (fs : Dict) → Unique fs → Unique (store p c fs)
unfolding store lookup
store-Unique p c [] h = (refl, tt)
store-Unique p c ((r, d) ∷ fs) h =
    ground (arith, eq_iff r p, eq_iff p r, lookup-store p c r fs, store-Unique p c fs)

module _ (env : Env) where
  write_all-HasFiles :
      (fs : Dict) (s : Machine)
      → Unique fs
      → Returns
          (Faulty env.faults)
          (λ _ t. HasFiles s (over fs (λ q. lookup q s.files)) t)
          (write_all env fs s)
  unfolding write_all lookup pure
  write_all-HasFiles [] s u = HasFiles-refl s
  write_all-HasFiles ((p, c) ∷ fs) s u =
      bind-Returns (Faulty env.faults) _ _ (write_file env.faults p c) (λ _. write_all env fs) s
        (write_file-HasFiles env.faults p c s)
        (λ _ t h.
          map-Returns (Faulty env.faults) _ _ (write_all env fs t) (write_all-HasFiles fs t u.1)
            (λ _ v k. HasFiles-trans s _ _ _ t v h k (λ q. merged q t h)))
    where
      merged :
          (q : String) (t : Machine)
          → HasFiles s (λ q. if p == q then some c else lookup q s.files) t
          → over fs (λ r. lookup r t.files) q ≡ over ((p, c) ∷ fs) (λ r. lookup r s.files) q
      merged q t h = ground (arith, h.files_are q, eq_iff p q, u.0)

  -- Restoring fails only if the machine does; otherwise, if anything was saved, the saved files have
  -- their saved contents, no other file matches the pattern, and the rest is as it was.
  pub restore_saved-HasFiles :
      (config_path : String) (original : Dict) (s : Machine)
      → original ≢ []
      → Unique original
      → Returns
          (Faulty env.faults)
          (λ _ t. HasFiles s (over original (without (is_profile config_path) s)) t)
          (restore_saved env config_path original s)
  unfolding restore_saved
  restore_saved-HasFiles config_path [] s ne u = absurd (ne refl)
  restore_saved-HasFiles config_path (f ∷ fs) s ne u =
      bind-Returns (Faulty env.faults) _ _ (wipe_nm_connection_profiles env config_path)
        (λ _. write_all env (f ∷ fs)) s (wipe_nm_connection_profiles-HasFiles env config_path s)
        (λ _ t h.
          map-Returns (Faulty env.faults) _ _ (write_all env (f ∷ fs) t)
            (write_all-HasFiles (f ∷ fs) t u)
            (λ _ v k.
              HasFiles-trans s _ _ _ t v h k
                (λ q. ap (or_else (lookup q (f ∷ fs))) (h.files_are q))))

pub or_else-none : (a : Option String) → or_else a none ≡ a
or_else-none none = refl
or_else-none (some a) = refl
