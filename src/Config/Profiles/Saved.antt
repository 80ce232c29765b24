-- ===== src/Config/Profiles/Saved.antt =====
-- pkg/config/cos.go: `SaveOriginalNetworkConfig`, and what is saved.
use harvester_installer.Prelude.{
  Bool, Bool-cases, List, Option, Option-cases, String, [], ap, arith, eq_iff, false, if◌then◌else◌,
  inl, inr, none, refl, slice_contains, some, true, ◌==◌, ◌∙◌, ◌∷◌, ◌≡◌,
}
use harvester_installer.Config.Types.{Dict}
use harvester_installer.Config.Profiles.{Env, read_all, save_original_network_config}
use harvester_installer.Config.Profiles.Effects.{
  Machine, glob, is_profile, keep, lookup, once, profile_paths, pure, read_file, ◌>>=◌, ◌>>◌,
}
use harvester_installer.Config.Profiles.Files.{lookup-glob, lookup-store}
use harvester_installer.Config.Profiles.Returns.{
  Faulty, Returns, bind-Returns, map-Returns, read_fails,
}
use harvester_installer.Config.Profiles.Restored.{Unique, store-Unique}

-- Files `t` with `f` for the saved ones, from the state `s`.
pub record HasSaved (s : Machine) (f : String → Option String) (t : Machine) : Type 0 where
  pub files_kept : t.files ≡ s.files
  pub once_kept : t.saved_once ≡ s.saved_once
  pub saved_are : (q : String) → lookup q t.originals ≡ f q
  pub saved_unique : Unique t.originals

Exists : Dict → String → Type 0
Exists fs path = (c : String) × (lookup path fs ≡ some c)

module _ (env : Env) where
  read_file-Returns :
      (path : String) (s : Machine)
      → Exists s.files path
      → Returns
          (Faulty env.faults)
          (λ bytes t. (t ≡ s) × (lookup path s.files ≡ some bytes))
          (read_file env.faults path s)
  unfolding Exists read_file
  read_file-Returns path s (c, e) = elim (Option-cases (env.faults.read_fault path)) [
    | inl f ↦ rw (f, e) (refl, refl)
    | inr (x, f) ↦ rw f (read_fails path x f)
  ]

  -- One round of the loop.
  keep_read :
      (path : String) (paths : List String) (s : Machine)
      → Exists s.files path
      → Unique s.originals
      → ((t : Machine)
          → HasSaved s (λ q. if path == q then lookup q s.files else lookup q s.originals) t
          → Returns
              (Faulty env.faults)
              (λ _. HasSaved s (λ q.
                if slice_contains (path ∷ paths) q then lookup q s.files else lookup q s.originals))
              (read_all env paths t))
      → Returns
          (Faulty env.faults)
          (λ _. HasSaved s (λ q.
            if slice_contains (path ∷ paths) q then lookup q s.files else lookup q s.originals))
          (read_all env (path ∷ paths) s)
  unfolding read_all keep
  keep_read path paths s h u next =
      bind-Returns (Faulty env.faults) _ _ (read_file env.faults path)
        (λ bytes. keep path bytes >> read_all env paths) s (read_file-Returns path s h)
        (λ bytes t r.
          bind-Returns (Faulty env.faults)
            (λ _. HasSaved s (λ q. if path == q then lookup q s.files else lookup q s.originals)) _
            (keep path bytes) (λ _. read_all env paths) t
            (record {
              files_kept = ap (λ (m : Machine). m.files) r.0;
              once_kept = ap (λ (m : Machine). m.saved_once) r.0;
              saved_are = λ q.
                  rw r.0
                    (ground (arith, lookup-store path bytes q s.originals, eq_iff path q, r.1));
              saved_unique = rw r.0 (store-Unique path bytes s.originals u);
            })
            (λ _. next))

  abbrev AllExist : Dict → List String → Type 0
  AllExist fs [] = Unit
  AllExist fs (p ∷ ps) = Exists fs p × AllExist fs ps

  -- What was saved before a round, under what the round saves.
  step-HasSaved :
      (path : String) (paths : List String) (s t u : Machine)
      → HasSaved s (λ q. if path == q then lookup q s.files else lookup q s.originals) t
      → HasSaved t
          (λ q. if slice_contains paths q then lookup q t.files else lookup q t.originals)
          u
      → HasSaved s
          (λ q. if slice_contains (path ∷ paths) q then lookup q s.files else lookup q s.originals)
          u
  unfolding slice_contains
  step-HasSaved path paths s t u h k = record {
    files_kept = k.files_kept ∙ h.files_kept;
    once_kept = k.once_kept ∙ h.once_kept;
    saved_are = λ q.
        ground (arith, k.saved_are q, h.saved_are q, ap (λ (f : Dict). lookup q f) h.files_kept);
    saved_unique = k.saved_unique;
  }

  read_all-HasSaved :
      (paths : List String) (s : Machine)
      → AllExist s.files paths
      → Unique s.originals
      → Returns
          (Faulty env.faults)
          (λ _.
            HasSaved s
              (λ q. if slice_contains paths q then lookup q s.files else lookup q s.originals))
          (read_all env paths s)
  unfolding read_all slice_contains pure
  read_all-HasSaved [] s h u = record {
    files_kept = refl;
    once_kept = refl;
    saved_are = λ q. refl;
    saved_unique = u;
  }
  read_all-HasSaved (path ∷ paths) s h u = keep_read path paths s h.0 u (λ t k.
      map-Returns (Faulty env.faults) _ _ (read_all env paths t)
        (read_all-HasSaved paths t (rw k.files_kept h.1) k.saved_unique)
        (λ _ v m. step-HasSaved path paths s t v k m))

  AllExist-cons :
      (p c : String) (fs : Dict) (ps : List String) → AllExist fs ps → AllExist ((p, c) ∷ fs) ps
  unfolding Exists lookup
  AllExist-cons p c fs [] h = tt
  AllExist-cons p c fs (q ∷ ps) h = (
    elim (Bool-cases (p == q)) [ inl e ↦ (c, rw e) | inr e ↦ (h.0.0, rw e h.0.1) ],
    AllExist-cons p c fs ps h.1,
  )

  profile_paths-AllExist : (test : String → Bool) (fs : Dict) → AllExist fs (profile_paths test fs)
  unfolding profile_paths Exists lookup
  profile_paths-AllExist test [] = tt
  profile_paths-AllExist test ((p, c) ∷ fs) =
      let rest = AllExist-cons p c fs (profile_paths test fs) (profile_paths-AllExist test fs) in
      elim (Bool-cases (test p)) [
        | inl e ↦ rw e ((c, rw ((eq_iff p p).1 refl)), rest)
        | inr e ↦ rw e rest
      ]

  listed-lookup :
      (test : String → Bool) (fs : Dict) (q : String)
      → (if slice_contains (profile_paths test fs) q then lookup q fs else none)
        ≡ (if test q then lookup q fs else none)
  listed-lookup test fs q = ground (arith, lookup-glob test q fs)

  -- The first save fails only if the machine does; otherwise what is saved are the files that match
  -- the pattern, with their contents, and the files are as they were.
  pub save_original_network_config-HasSaved :
      (config_path : String) (s : Machine)
      → s.saved_once ≡ false
      → s.originals ≡ []
      → Returns
          (Faulty env.faults)
          (λ _ t.
            (t.files ≡ s.files)
            × Unique t.originals
            × ((q : String)
                → lookup q t.originals
                  ≡ (if is_profile config_path q then lookup q s.files else none)))
          (save_original_network_config env config_path s)
  unfolding save_original_network_config once glob ◌>>=◌ lookup
  save_original_network_config-HasSaved config_path s first empty =
      let begun = record s { saved_once = true } in
      let paths = profile_paths (is_profile config_path) s.files in
      rw first (
        map-Returns (Faulty env.faults) _ _ (read_all env paths begun)
          (read_all-HasSaved paths begun (profile_paths-AllExist (is_profile config_path) s.files)
            (rw empty tt))
          (λ _ t h. (
            h.files_kept,
            h.saved_unique,
            λ q. h.saved_are q ∙ rw empty (listed-lookup (is_profile config_path) s.files q),
          )))
