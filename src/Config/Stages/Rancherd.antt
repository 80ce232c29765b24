-- ===== src/Config/Stages/Rancherd.antt =====
-- pkg/config/cos.go: the files that `initRancherdStage` writes.
use mathlib.Core.List.{append_assoc, append-nil}
use harvester_installer.Prelude.{
  All, All-append, Bool, Bool-cases, List, Result, String, Yields, [], ap, bind-Yields, concat_text,
  err, false, if◌then◌else◌, inl, inr, ok, refl, step-Yields, sym, true, ◌++◌, ◌==◌, ◌>>=◌, ◌∙◌,
  ◌∷◌, ◌≡◌,
}
use harvester_installer.Config.Types.{Dict, HarvesterConfig}
use harvester_installer.Config.Defaults.{set_config_default_values}
use harvester_installer.Config.Stages.{
  Stage, StageFile, StageTools, add_bootstrap, add_directory, add_file, add_rendered, add_server,
  add_trimmed, add_witness, bootstrap, gen_bootstrap_resources, init_rancherd_stage, private_file,
  private_mode, rancherd_bootstrap_dir, rancherd_files, render_templates, rke2_path,
}

abbrev pub paths : List StageFile → List String
paths [] = []
paths (f ∷ fs) = f.path ∷ paths fs

paths-append : (fs gs : List StageFile) → paths (fs ++ gs) ≡ paths fs ++ paths gs
paths-append [] gs = refl
paths-append (f ∷ fs) gs = ap (λ ps. f.path ∷ ps) (paths-append fs gs)

abbrev pub IsPrivate : StageFile → Type 0
IsPrivate f = f.permissions ≡ private_mode

-- Behind the files of `s`, those of `t` are private ones at the paths `ps`.
pub record Adds (ps : List String) (s t : Stage) : Type 0 where
  pub added : List StageFile
  pub files_are : t.files ≡ s.files ++ added
  pub paths_are : paths added ≡ ps
  pub private : All IsPrivate added

Adds-trans : {ps qs : List String} {s t u : Stage} → Adds ps s t → Adds qs t u → Adds (ps ++ qs) s u
Adds-trans {s = s} {t = t} {u = u} a b = record {
  added = a.added ++ b.added;
  files_are =
      b.files_are ∙ ap (λ fs. fs ++ b.added) a.files_are ∙ append_assoc s.files a.added b.added;
  paths_are = paths-append a.added b.added ∙ rw (a.paths_are, b.paths_are);
  private = All-append IsPrivate a.added b.added a.private b.private;
}

Adds-nil : (s : Stage) → Adds [] s s
Adds-nil s = record {
  added = [];
  files_are = sym (append-nil s.files);
  paths_are = refl;
  private = tt;
}

Adds-file :
    (path content : String) (s : Stage)
    → Adds (path ∷ []) s (add_file (private_file path content) s)
unfolding add_file
Adds-file path content s = record {
  added = private_file path content ∷ [];
  files_are = refl;
  paths_are = refl;
  private = (refl, tt);
}

abbrev pub keys : Dict → List String
keys [] = []
keys ((name, _) ∷ d) = name ∷ keys d

abbrev pub bootstrap_names : Bool → List String
bootstrap_names arm64 =
    "10-harvester.yaml"
    ∷ "11-monitoring-crd.yaml"
    ∷ "14-logging-crd.yaml"
    ∷ "20-harvester-settings.yaml"
    ∷ "15-kubeovn-operator-crd.yaml"
    ∷ "22-addons.yaml"
    ∷ "12-monitoring-dashboard.yaml"
    ∷ (if arm64 then "23-multus-config.yaml" ∷ [] else [])

abbrev pub in_bootstrap_dir : List String → List String
in_bootstrap_dir [] = []
in_bootstrap_dir (name ∷ names) = concat_text rancherd_bootstrap_dir name ∷ in_bootstrap_dir names

keys-append : (d e : Dict) → keys (d ++ e) ≡ keys d ++ keys e
keys-append [] e = refl
keys-append ((name, _) ∷ d) e = ap (λ names. name ∷ names) (keys-append d e)

-- What is written: the bootstrap resources for the first node alone, the settings of the server where
-- there is no server to join, and those of the witness on a witness.
abbrev pub rancherd_paths : Bool → HarvesterConfig → List String
rancherd_paths arm64 c =
    ("/etc/rancher/rancherd/config.yaml" ∷ [])
    ++ ((if c.install.mode == "create" then in_bootstrap_dir (bootstrap_names arm64) else [])
        ++ ((if c.server_url == "" then rke2_path "90-harvester-server.yaml" ∷ [] else [])
            ++ ((rke2_path "91-harvester-cdi.yaml" ∷ [])
                ++ ((rke2_path "92-harvester-kube-audit-policy.yaml" ∷ [])
                    ++ ((rke2_path "90-harvester-agent.yaml" ∷ [])
                        ++ ((if c.install.role == "witness"
                              then rke2_path "99-harvester-witness.yaml" ∷ []
                              else [])
                            ++ (rke2_path "99-z00-harvester-reserved-resources.yaml" ∷ [])))))))

module _ (t : StageTools) where
  -- The only reasons to fail.
  pub data TemplateFault : Type 0 where
    unrendered :
        (name : String) (c : HarvesterConfig) (e : String) → t.render name c ≡ err e → TemplateFault
    unread : (name e : String) → t.read_template name ≡ err e → TemplateFault

  module _ (c : HarvesterConfig) where
    add_rendered-Adds :
        (template path : String) (s : Stage)
        → Yields TemplateFault (Adds (path ∷ []) s) (add_rendered t template path c s)
    unfolding add_rendered
    add_rendered-Adds template path s =
        step-Yields TemplateFault _ (t.render template c) _ (unrendered template c)
          (λ content _. Adds-file path content s)

    add_trimmed-Adds :
        (template path : String) (s : Stage)
        → Yields TemplateFault (Adds (path ∷ []) s) (add_trimmed t template path c s)
    unfolding add_trimmed
    add_trimmed-Adds template path s =
        step-Yields TemplateFault _ (t.render template c) _ (unrendered template c)
          (λ content _. Adds-file path (t.trim_space content) s)

    add_server-Adds :
        (s : Stage)
        → Yields TemplateFault
            (Adds (if c.server_url == "" then rke2_path "90-harvester-server.yaml" ∷ [] else []) s)
            (add_server t c s)
    unfolding add_server
    add_server-Adds s =
        step-Yields TemplateFault _ (t.render "rke2-90-harvester-server.yaml" c) _ (unrendered _ c)
          (λ content _. elim (Bool-cases (c.server_url == "")) [
            | inl e ↦ rw e (Adds-file (rke2_path "90-harvester-server.yaml") content s)
            | inr e ↦ rw e (Adds-nil s)
          ])

    add_witness-Adds :
        (s : Stage)
        → Yields TemplateFault
            (Adds
              (if c.install.role == "witness"
                then rke2_path "99-harvester-witness.yaml" ∷ []
                else [])
              s)
            (add_witness t c s)
    unfolding add_witness
    add_witness-Adds s = elim (Bool-cases (c.install.role == "witness")) [
      | inl e ↦ rw e (add_trimmed-Adds "rke2-99-harvester-witness.yaml" _ s)
      | inr e ↦ rw e (Adds-nil s)
    ]

    render_templates-keys :
        (names : List String)
        → Yields TemplateFault (λ d. keys d ≡ names) (render_templates t c names)
    unfolding render_templates
    render_templates-keys [] = refl
    render_templates-keys (name ∷ names) =
        step-Yields TemplateFault _ (t.render (concat_text "rancherd-" name) c) _ (unrendered _ c)
          (λ rendered _.
            bind-Yields TemplateFault (λ d. keys d ≡ names) _ (render_templates t c names) _
              (render_templates-keys names) (λ d named. ap (λ ns. name ∷ ns) named))

    multus-keys :
        (arm64 : Bool)
        → Yields TemplateFault
            (λ d. keys d ≡ (if arm64 then "23-multus-config.yaml" ∷ [] else []))
            (if arm64 then render_templates t c ("23-multus-config.yaml" ∷ []) else ok [])
    multus-keys true = render_templates-keys ("23-multus-config.yaml" ∷ [])
    multus-keys false = refl

    gen_bootstrap_resources-keys :
        Yields TemplateFault
          (λ d. keys d ≡ bootstrap_names t.is_arm64)
          (gen_bootstrap_resources t c)
    unfolding gen_bootstrap_resources
    gen_bootstrap_resources-keys =
        go templates (if t.is_arm64 then "23-multus-config.yaml" ∷ [] else [])
          (render_templates t c templates) (t.read_template dashboard)
          (if t.is_arm64 then render_templates t c ("23-multus-config.yaml" ∷ []) else ok []) refl
          (render_templates-keys templates) (multus-keys t.is_arm64)
      where
        dashboard : String
        dashboard = "rancherd-12-monitoring-dashboard.yaml"

        templates : List String
        templates =
            "10-harvester.yaml" ∷ "11-monitoring-crd.yaml" ∷ "14-logging-crd.yaml"
            ∷ "20-harvester-settings.yaml" ∷ "15-kubeovn-operator-crd.yaml" ∷ "22-addons.yaml" ∷ []

        go :
            (names more : List String) (confs : Result String Dict) (read : Result String String)
            (multus : Result String Dict)
            → t.read_template dashboard ≡ read
            → Yields TemplateFault (λ d. keys d ≡ names) confs
            → Yields TemplateFault (λ d. keys d ≡ more) multus
            → Yields TemplateFault
                (λ d. keys d ≡ names ++ "12-monitoring-dashboard.yaml" ∷ more)
                (confs >>= λ a.
                  read >>= λ b. multus >>= λ d. ok (a ++ ("12-monitoring-dashboard.yaml", b) ∷ d))
        go names more (err e) read multus r k m = k
        go names more (ok a) (err e) multus r k m = unread dashboard e r
        go names more (ok a) (ok b) (err e) r k m = m
        go names more (ok a) (ok b) (ok d) r k m =
            keys-append a (("12-monitoring-dashboard.yaml", b) ∷ d) ∙ rw (k, m)

    add_bootstrap-Adds :
        (d : Dict) (s : Stage) → Adds (in_bootstrap_dir (keys d)) s (add_bootstrap t d s)
    unfolding add_bootstrap
    add_bootstrap-Adds [] s = Adds-nil s
    add_bootstrap-Adds ((name, content) ∷ d) s =
        Adds-trans (Adds-file (concat_text rancherd_bootstrap_dir name) content s)
          (add_bootstrap-Adds d _)

    bootstrap-Adds :
        (s : Stage)
        → Yields TemplateFault
            (Adds
              (if c.install.mode == "create"
                then in_bootstrap_dir (bootstrap_names t.is_arm64)
                else [])
              s)
            (bootstrap t c s)
    unfolding bootstrap
    bootstrap-Adds s = elim (Bool-cases (c.install.mode == "create")) [
      | inl e ↦ rw e (
          bind-Yields TemplateFault (λ d. keys d ≡ bootstrap_names t.is_arm64) _
            (gen_bootstrap_resources t c) _ gen_bootstrap_resources-keys
            (λ d named. rw named at (add_bootstrap-Adds d s)))
      | inr e ↦ rw e (Adds-nil s)
    ]

    -- One more step, and the files of the steps that follow.
    and_then :
        (ps qs : List String) (s : Stage) (m : Result String Stage)
        (f : Stage → Result String Stage)
        → Yields TemplateFault (Adds ps s) m
        → ((u : Stage) → Yields TemplateFault (Adds qs u) (f u))
        → Yields TemplateFault (Adds (ps ++ qs) s) (m >>= f)
    and_then ps qs s (ok u) f first rest = go (f u) (rest u)
      where
        go :
            (r : Result String Stage)
            → Yields TemplateFault (Adds qs u) r
            → Yields TemplateFault (Adds (ps ++ qs) s) r
        go (ok v) added = Adds-trans first added
        go (err e) fault = fault
    and_then ps qs s (err e) f first rest = first

    rancherd_files-Adds :
        (s : Stage)
        → Yields TemplateFault (Adds (rancherd_paths t.is_arm64 c) s) (rancherd_files t c s)
    unfolding rancherd_files
    rancherd_files-Adds s0 = and_then _ _ s0 _ _ (add_rendered-Adds _ _ s0) (λ s1.
        and_then _ _ s1 _ _ (bootstrap-Adds s1) (λ s2.
          and_then _ _ s2 _ _ (add_server-Adds s2) (λ s3.
            and_then _ _ s3 _ _ (add_rendered-Adds _ _ s3) (λ s4.
              and_then _ _ s4 _ _ (add_rendered-Adds _ _ s4) (λ s5.
                and_then _ _ s5 _ _ (add_trimmed-Adds _ _ s5) (λ s6.
                  and_then _ _ s6 _ _ (add_witness-Adds s6) (λ s7. add_rendered-Adds _ _ s7)))))))

  set_config_default_values-paths :
      (c : HarvesterConfig)
      → rancherd_paths t.is_arm64 (set_config_default_values t.versions c)
        ≡ rancherd_paths t.is_arm64 c
  unfolding set_config_default_values
  set_config_default_values-paths c = refl

  -- `initRancherdStage` fails only if a template does. Otherwise the configuration has its default
  -- values, and the files behind those of the stage are private ones, in their order: the bootstrap
  -- resources in mode `create` alone, the settings of the server only without a server URL, and those
  -- of the witness on a witness alone.
  pub init_rancherd_stage-Adds :
      (c : HarvesterConfig) (s : Stage)
      → Yields TemplateFault
          (λ r.
            Adds (rancherd_paths t.is_arm64 c) s r.0
            × (r.1 ≡ set_config_default_values t.versions c))
          (init_rancherd_stage t c s)
  unfolding init_rancherd_stage add_directory
  init_rancherd_stage-Adds c s =
      let d = set_config_default_values t.versions c in
      bind-Yields TemplateFault (Adds (rancherd_paths t.is_arm64 d) _) _ _ _
        (rancherd_files-Adds d _)
        (λ u a. (
          record {
            added = a.added;
            files_are = a.files_are;
            paths_are = a.paths_are ∙ set_config_default_values-paths c;
            private = a.private;
          },
          refl,
        ))
