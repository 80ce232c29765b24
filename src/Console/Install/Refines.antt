-- ===== src/Console/Install/Refines.antt =====
-- pkg/console/util.go: `doInstall` keeps to the order of events.
use harvester_installer.Prelude.{
  Bool, List, Option, Result, String, [], err, false, if◌then◌else◌, inl, inr, none, ok, refl, some,
  true, ◌++◌, ◌∷◌, ◌≡◌, ◌⊎◌,
}
use harvester_installer.Console.Disks.{DiskOptionsCache}
use harvester_installer.Config.Types.{HarvesterConfig}
use harvester_installer.Config.Layout.{ElementalConfig}
use harvester_installer.Config.Profiles.Effects.{Io, Machine}
use harvester_installer.Console.Webhooks.{RenderedWebhook}
use harvester_installer.Console.Install.{
  InstallTools, Prepared, disk_env, do_install, execute, execute_wipe_disks,
  generate_env_and_config, install_failed, install_prepared, install_succeeded, laid_out, notify,
  run_installer, shut_down, stream_image_to_disk, support_config, wipe_all, wipe_list,
}
use harvester_installer.Console.Install.Acts.{
  Act, Event, InstallError, Program, World, after, checked, fail_with, failed, give, handled, lift,
  notified, of_io, on_machine, or_continue, ran, ran_with, record_event, wiped_with, ◌>>=◌, ◌>>◌,
}
use harvester_installer.Console.Install.Protocol.{
  MayStop, Phase, Reaches, Step, begin, fail, failed_phase, failing, finished, here, idle, install,
  install_failure, installed, next, reboot, reboot_failure, reboot_streamed, rebooting, route,
  route_failure, started, stopped, stream, stream_failure, streamed, streamed_failure, succeed,
  support, wipe, wipe_failure,
}

-- The events led to a phase in which an installation may be given up.
abbrev pub Aborted : World → Type 0
Aborted w = (p : Phase) × Reaches w.events p × MayStop p

-- A success has `Q`, and a failure leaves the installation at a phase in which it may be given up.
abbrev pub Ends : {A : Type 0} → (World → Type 0) → Result InstallError A × World → Type 0
Ends Q (ok a, w) = Q w
Ends Q (err e, w) = Aborted w

abbrev pub At : Phase → World → Type 0
At p w = Reaches w.events p

-- From phase `p` an act succeeds in `Q`.
abbrev pub Leads : {A : Type 0} → Phase → (World → Type 0) → Act A → Type 0
Leads p Q m = (w : World) → At p w → Ends Q (m w)

after-Ends :
    {A B : Type 0} (P Q : World → Type 0) (r : Result InstallError A × World) (f : A → Act B)
    → Ends P r
    → ((a : A) (w : World) → P w → Ends Q (f a w))
    → Ends Q (after r f)
after-Ends P Q (ok a, w) f h g = g a w h
after-Ends P Q (err e, w) f h g = h

>>=-Leads :
    {A B : Type 0} (p q : Phase) (Q : World → Type 0) (m : Act A) (f : A → Act B)
    → Leads p (At q) m
    → ((a : A) → Leads q Q (f a))
    → Leads p Q (m >>= f)
unfolding ◌>>=◌
>>=-Leads p q Q m f h g w at = after-Ends (At q) Q (m w) f (h w at) (λ a v k. g a v k)

give-Leads : {A : Type 0} (p : Phase) (a : A) → Leads p (At p) (give a)
unfolding give
give-Leads p a w at = at

module _ (p : Phase) (may_stop : MayStop p) where
  fail_with-Leads :
      (A : Type 0) (Q : World → Type 0) (e : InstallError) → Leads p Q (fail_with {A = A} e)
  unfolding fail_with
  fail_with-Leads A Q e w at = (p, at, may_stop)

  lift-Leads {κ} :
      {E : Type κ} {A : Type 0} (f : E → InstallError) (r : Result E A) → Leads p (At p) (lift f r)
  unfolding lift
  lift-Leads f (ok a) w at = at
  lift-Leads f (err e) w at = (p, at, may_stop)

  of_io-Leads : {A : Type 0} (m : Io A) → Leads p (At p) (of_io m)
  unfolding of_io
  of_io-Leads {A = A} m w at = go (m w.machine)
    where
      go : (r : Result String A × Machine) → Ends (At p) (on_machine w r)
      go (ok a, s) = at
      go (err e, s) = (p, at, may_stop)

  checked-Leads : (fault : Option String) → Leads p (At p) (checked fault)
  unfolding checked
  checked-Leads none = give-Leads p tt
  checked-Leads (some e) = fail_with-Leads Unit (At p) (failed e)

record_event-Leads : (p q : Phase) (e : Event) → Step p e q → Leads p (At q) (record_event e)
unfolding record_event
record_event-Leads p q e st w at = next at st

ran_with-Leads :
    (p q r : Phase) (program : Program) (env : List String) (fault : Option String)
    → Step p (ran program env true) q
    → Step p (ran program env false) r
    → MayStop r
    → Leads p (At q) (ran_with program env fault)
unfolding ran_with
ran_with-Leads p q r program env none good bad may_stop w at = next at good
ran_with-Leads p q r program env (some e) good bad may_stop w at = (r, next at bad, may_stop)

wiped_with-Leads :
    (disk : String) (fault : Option String) → Leads started (At started) (wiped_with disk fault)
unfolding wiped_with
wiped_with-Leads disk none w at = next at (wipe disk)
wiped_with-Leads disk (some e) w at = (stopped, next at (wipe_failure disk), tt)

-- A program, and what follows its success and its failure.
handled-Leads :
    (p q r : Phase) (Q : World → Type 0) (program : Program) (env : List String)
    (fault : Option String) (bad : InstallError → Act (Unit {0})) (good : Act (Unit {0}))
    → Step p (ran program env true) q
    → Step p (ran program env false) r
    → Leads q Q good
    → ((e : InstallError) → Leads r Q (bad e))
    → Leads p Q (handled (ran_with program env fault) bad good)
unfolding handled ran_with
handled-Leads p q r Q program env none bad good yes_step no_step g b w at = g _ (next at yes_step)
handled-Leads p q r Q program env (some e) bad good yes_step no_step g b w at =
    b (failed e) _ (next at no_step)

module _ (t : InstallTools) where
  notify-Leads :
      (p q : Phase) (event : String)
      → ((hs : List RenderedWebhook) → Step p (notified event hs) q)
      → Leads p (At q) (notify t event)
  unfolding notify
  notify-Leads p q event st = record_event-Leads p q _ (st _)

  wipe_all-Leads : (disks : List String) → Leads started (At started) (wipe_all t disks)
  unfolding wipe_all execute_wipe_disks
  wipe_all-Leads [] = give-Leads started tt
  wipe_all-Leads (disk ∷ disks) =
      >>=-Leads started started (At started) _ _ (wiped_with-Leads disk (t.wipe_fault disk))
        (λ _. wipe_all-Leads disks)

  support_config-Leads :
      (c : HarvesterConfig) → Leads failed_phase (At failed_phase) (support_config t c)
  unfolding support_config execute or_continue ran_with give
  support_config-Leads c = go c.install.debug (t.run_fault Program.supportconfig [])
    where
      go :
          (debug : Bool) (fault : Option String)
          → Leads failed_phase
              (At failed_phase)
              (if debug then or_continue (ran_with Program.supportconfig [] fault) else give tt)
      go false fault w at = at
      go true none w at = next at (support true)
      go true (some e) w at = next at (support false)

  generate_env_and_config-Leads :
      (c : HarvesterConfig) → Leads started (At started) (generate_env_and_config t c)
  unfolding generate_env_and_config
  generate_env_and_config-Leads c =
      >>=-Leads started started (At started) _ _ (of_io-Leads started tt _) (λ r.
        >>=-Leads started started (At started) _ _ (lift-Leads started tt _ _) (λ file.
          >>=-Leads started started (At started) _ _ (lift-Leads started tt _ _) (λ saved.
            >>=-Leads started started (At started) _ _ (lift-Leads started tt _ _)
              (λ e. give-Leads started _))))

  -- Finished, or still before the installer, where what it is to be given could not be saved.
  abbrev pub Settled : World → Type 0
  Settled w =
      Reaches w.events finished
      ⊎ (Reaches w.events started
          × (e : ElementalConfig) × (x : String) × (t.save_elemental_config e ≡ err x))

  shuts_down-Leads :
      (fault : Option String) (env : List String)
      → Leads streamed Settled (ran_with Program.installer_shutdown env fault)
  unfolding ran_with
  shuts_down-Leads none env w at = inl (next at (reboot_streamed env))
  shuts_down-Leads (some e) env w at = (stopped, next at (streamed_failure env), tt)

  stream_image_to_disk-Leads :
      (env : List String) → Leads started Settled (stream_image_to_disk t env)
  unfolding stream_image_to_disk execute
  stream_image_to_disk-Leads env =
      >>=-Leads started streamed Settled _ _
        (ran_with-Leads started streamed stopped _ env _ (stream env) (stream_failure env) tt)
        (λ _. shuts_down-Leads _ env)

  laid_out-Leads :
      (c : HarvesterConfig) (e : Option ElementalConfig)
      → Leads started (At started) (laid_out t c e)
  unfolding laid_out
  laid_out-Leads c (some e) = lift-Leads started tt _ _
  laid_out-Leads c none =
      >>=-Leads started started (At started) _ _ (lift-Leads started tt _ _)
        (λ _. fail_with-Leads started tt ElementalConfig (At started) _)

  install_failed-Leads :
      (c : HarvesterConfig) (e : InstallError) → Leads failing Settled (install_failed t c e)
  unfolding install_failed
  install_failed-Leads c e =
      >>=-Leads failing failed_phase Settled _ _ (notify-Leads failing failed_phase "FAILED" fail)
        (λ _.
          >>=-Leads failed_phase failed_phase Settled _ _ (support_config-Leads c)
            (λ _. fail_with-Leads failed_phase tt Unit Settled e))

  shut_down-Leads : (env : List String) → Leads rebooting Settled (shut_down t env)
  unfolding shut_down execute give
  shut_down-Leads env =
      handled-Leads rebooting finished failing Settled _ env _ _ _ (reboot env) (reboot_failure env)
        (λ w at. inl at)
        (λ e.
          >>=-Leads failing failed_phase Settled _ _
            (notify-Leads failing failed_phase "FAILED" fail)
            (λ _. fail_with-Leads failed_phase tt Unit Settled e))

  install_succeeded-Leads : (env : List String) → Leads installed Settled (install_succeeded t env)
  unfolding install_succeeded
  install_succeeded-Leads env =
      >>=-Leads installed rebooting Settled _ _
        (notify-Leads installed rebooting "SUCCEEDED" succeed)
        (λ _.
          >>=-Leads rebooting rebooting Settled _ _ (checked-Leads rebooting tt t.set_keybinding)
            (λ _. shut_down-Leads env))

  dummy_iface-Leads :
      (install_mode_only : Bool)
      → Leads started
          (At started)
          (if install_mode_only then execute t Program.dummy_iface [] else give tt)
  unfolding execute
  dummy_iface-Leads true = ran_with-Leads started started stopped _ [] _ route route_failure tt
  dummy_iface-Leads false = give-Leads started tt

  run_installer-Leads :
      (install_mode_only : Bool) (c : HarvesterConfig) (env : List String) (e : ElementalConfig)
      → Leads started Settled (run_installer t install_mode_only c env (t.save_elemental_config e))
  unfolding run_installer execute give
  run_installer-Leads install_mode_only c env e = go (t.save_elemental_config e) refl
    where
      go :
          (r : Result String (String × String))
          → t.save_elemental_config e ≡ r
          → Leads started Settled (run_installer t install_mode_only c env r)
      go (err x) p w at = inr (at, e, x, p)
      go (ok saved) p w at =
          >>=-Leads started started Settled _ _ (dummy_iface-Leads install_mode_only)
            (λ _.
              handled-Leads started installed failing Settled _ _ _ _ _ (install _)
                (install_failure _) (install_succeeded-Leads _) (install_failed-Leads c))
            w at

  install_prepared-Leads :
      (cache : DiskOptionsCache) (install_mode_only : Bool) (p : Prepared)
      → Leads started Settled (install_prepared t cache install_mode_only p)
  unfolding install_prepared
  install_prepared-Leads cache install_mode_only p = go _
    where
      go :
          (raw : Bool)
          → Leads started Settled (
              if raw then stream_image_to_disk t p.env else do
                e ← laid_out t p.config p.elemental
                wipe_all t (wipe_list cache p.config)
                run_installer t install_mode_only p.config
                    (p.env ++ disk_env p.config)
                    (t.save_elemental_config e))
      go true = stream_image_to_disk-Leads p.env
      go false = >>=-Leads started started Settled _ _ (laid_out-Leads p.config p.elemental) (λ e.
          >>=-Leads started started Settled _ _ (wipe_all-Leads _)
            (λ _. run_installer-Leads install_mode_only p.config _ e))

  -- An installation of a machine takes its steps in the order of the protocol, from its start on. Where it returns
  -- without an error, the protocol is finished, or the installer has not run since the configuration
  -- of elemental could not be saved. Where it returns an error, it has reached a phase in which it may be given up: before the
  -- installer, where a command before the installer has failed, where the failure of the installer or
  -- of the shutdown is notified, or between the success of the installer and the shutdown.
  pub do_install-Reaches :
      (cache : DiskOptionsCache) (install_mode_only : Bool) (c : HarvesterConfig)
      (machine : Machine)
      → Ends Settled
          (do_install t cache install_mode_only c (record { machine = machine; events = [] }))
  unfolding do_install
  do_install-Reaches cache install_mode_only c machine =
      >>=-Leads idle started Settled _ _ (notify-Leads idle started "STARTED" begin)
        (λ _. >>=-Leads started started Settled _ _ (lift-Leads started tt _ _) (λ c1.
          >>=-Leads started started Settled _ _ (lift-Leads started tt _ _) (λ c2.
            >>=-Leads started started Settled _ _ (generate_env_and_config-Leads c2)
              (λ p. install_prepared-Leads cache install_mode_only p))))
        _ here
