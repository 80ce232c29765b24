-- ===== src/Console/InstallPanel/Quiet.antt =====
-- pkg/console/install_panels.go: until the installation starts, nothing of it happens.
use harvester_installer.Prelude.{
  Bool, Result, String, Yields, err, false, if◌then◌else◌, inl, inr, ok, refl, true, ◌&&◌, ◌∙◌, ◌≡◌,
  ◌⊎◌,
}
use harvester_installer.Config.Types.{HarvesterConfig}
use harvester_installer.Config.Profiles.Effects.{Io, Machine}
use harvester_installer.Console.Network.{apply_networks}
use harvester_installer.Console.Install.Acts.{
  Act, InstallError, World, after, forget, give, lift, of_io, on_machine, or_continue, ◌>>=◌,
}
use harvester_installer.Console.InstallPanel.{
  PanelTools, Wizard, lower_cased, merge_remote, vip_from_dhcp, with_interfaces,
}
use harvester_installer.Console.InstallPanel.Ready.{IsReady, checked_config-IsReady}
use harvester_installer.Console.InstallPanel.Start.{
  configure_install_mode_dhcp, install_config, install_panel, is_automatic_dhcp, prepare_install,
}

-- An outcome without an event, which has `P` where it is a success.
abbrev Outcome : {A : Type 0} → (A → Type 0) → World → Result InstallError A × World → Type 0
Outcome P v (ok a, u) = (u.events ≡ v.events) × P a
Outcome P v (err e, u) = u.events ≡ v.events

abbrev Quiet : {A : Type 0} → (A → Type 0) → Act A → Type 0
Quiet P m = (v : World) → Outcome P v (m v)

after-Outcome :
    {A B : Type 0} (P : A → Type 0) (Q : B → Type 0) (v : World) (r : Result InstallError A × World)
    (f : A → Act B)
    → Outcome P v r
    → ((a : A) → Quiet Q (f a))
    → Outcome Q v (after r f)
after-Outcome P Q v (err e, u) f h g = h
after-Outcome {B = B} P Q v (ok a, u) f (same, p) g = go (f a u) (g a u)
  where
    go : (r : Result InstallError B × World) → Outcome Q u r → Outcome Q v r
    go (ok b, x) (next_same, q) = (next_same ∙ same, q)
    go (err e, x) next_same = next_same ∙ same

>>=-Quiet :
    {A B : Type 0} (P : A → Type 0) (Q : B → Type 0) (m : Act A) (f : A → Act B)
    → Quiet P m
    → ((a : A) → Quiet Q (f a))
    → Quiet Q (m >>= f)
unfolding ◌>>=◌
>>=-Quiet P Q m f h g v = after-Outcome P Q v (m v) f (h v) g

give-Quiet : {A : Type 0} (a : A) → Quiet (λ _. Unit) (give a)
unfolding give
give-Quiet a v = (refl, tt)

lift-Quiet {κ} :
    {E : Type κ} {A : Type 0} (P : A → Type 0) (f : E → InstallError) (r : Result E A)
    → Yields Unit P r
    → Quiet P (lift f r)
unfolding lift
lift-Quiet P f (ok a) h v = (refl, h)
lift-Quiet P f (err e) h v = refl

of_io-Quiet : {A : Type 0} (m : Io A) → Quiet (λ _. Unit) (of_io m)
unfolding of_io
of_io-Quiet {A = A} m v = go (m v.machine)
  where
    go : (r : Result String A × Machine) → Outcome (λ _. Unit) v (on_machine v r)
    go (ok a, s) = (refl, tt)
    go (err e, s) = refl

or_continue-Quiet : (m : Act (Unit {0})) → Quiet (λ _. Unit) m → Quiet (λ _. Unit) (or_continue m)
unfolding or_continue
or_continue-Quiet m h v = go (m v) (h v)
  where
    go :
        (r : Result InstallError (Unit {0}) × World)
        → Outcome (λ _. Unit) v r
        → Outcome (λ _. Unit) v (forget r)
    go (ok a, u) (same, x) = (same, tt)
    go (err e, u) same = (same, tt)

any-Yields {κ} : {E : Type κ} {A : Type 0} (r : Result E A) → Yields Unit (λ _. Unit {0}) r
any-Yields (ok a) = tt
any-Yields (err e) = tt

module _ (t : PanelTools) (w : Wizard) where
  prepare_install-Quiet : (c : HarvesterConfig) → Quiet (IsReady t w) (prepare_install t w c)
  unfolding prepare_install configure_install_mode_dhcp
  prepare_install-Quiet c0 =
      >>=-Quiet (λ _. Unit) (IsReady t w) _ _
        (first (w.already_installed && is_automatic_dhcp t c0))
        (λ c1.
          >>=-Quiet (λ _. Unit) (IsReady t w) _ _
            (lift-Quiet (λ _. Unit) _ _ (any-Yields (merge_remote t c1)))
            (λ c2.
              >>=-Quiet (λ _. Unit) (IsReady t w) _ _
                (lift-Quiet (λ _. Unit) _ _ (any-Yields (with_interfaces t (lower_cased t c2))))
                (λ c3.
                  >>=-Quiet (λ _. Unit) (IsReady t w) _ _ (networks c3 (is_automatic_dhcp t c3))
                    (λ _.
                      >>=-Quiet (λ _. Unit) (IsReady t w) _ _
                        (lift-Quiet (λ _. Unit) _ _ (any-Yields (vip_from_dhcp t c3)))
                        (λ c4. lift-Quiet (IsReady t w) _ _ (checked_config-IsReady t w c4))))))
    where
      first :
          (b : Bool) → Quiet (λ _. Unit) (if b then configure_install_mode_dhcp t w c0 else give c0)
      first false = give-Quiet c0
      first true =
          >>=-Quiet (λ _. Unit) (λ _. Unit) _ _ (or_continue-Quiet _ (of_io-Quiet _))
            (λ _. give-Quiet _)

      networks :
          (c : HarvesterConfig) (b : Bool)
          → Quiet
              (λ _. Unit)
              (if b
                then of_io
                    (apply_networks t.network_tools c.install.management_interface c.os.hostname)
                else give tt)
      networks c false = give-Quiet tt
      networks c true = of_io-Quiet _

  -- The panel of the installation either ends with an error, and then no webhook is told, no program
  -- of the installation is run and no disk is wiped; or it hands a configuration to the installation
  -- before any of this happens. That configuration passes the validator, does not force GPT and MBR
  -- at once, names the data disk only if it is another than the installation disk, has no warnings
  -- that are neither skipped nor acknowledged (on a machine without an installation), and where the
  -- network is set up by DHCP there is a default route (unless only the binaries are installed).
  pub install_panel-IsReady :
      (c : HarvesterConfig) (v : World)
      → ((u : World) × (x : InstallError) × (u.events ≡ v.events)
          × (install_panel t w c v ≡ (err x, u)))
        ⊎ ((u : World) × (d : HarvesterConfig) × (u.events ≡ v.events)
            × IsReady t w d
            × (install_panel t w c v ≡ install_config t w d u))
  unfolding install_panel ◌>>=◌
  install_panel-IsReady c v = go (prepare_install t w c v) (prepare_install-Quiet c v)
    where
      go :
          (r : Result InstallError HarvesterConfig × World)
          → Outcome (IsReady t w) v r
          → ((u : World) × (x : InstallError) × (u.events ≡ v.events)
              × (after r (install_config t w) ≡ (err x, u)))
            ⊎ ((u : World) × (d : HarvesterConfig) × (u.events ≡ v.events)
                × IsReady t w d
                × (after r (install_config t w) ≡ install_config t w d u))
      go (err x, u) same = inl (u, x, same, refl)
      go (ok d, u) (same, ready) = inr (u, d, same, ready, refl)
