-- ===== src/Config/Cos/Untouched.antt =====
-- pkg/config/cos.go: what `ConvertToCOS` leaves alone in mode `install`.
use harvester_installer.Prelude.{Result, String, arith, eq_iff, err, ok, refl, ◌≡◌}
use harvester_installer.Config.Types.{HarvesterConfig}
use harvester_installer.Config.Profiles.{Env}
use harvester_installer.Config.Profiles.Effects.{Io, Machine, of_result, pure, ◌>>=◌}
use harvester_installer.Config.Cos.{after_install_chroot, convert_to_cos, cos_parts}
use harvester_installer.Config.Stages.{
  StageTools, initramfs_stage, overwrite_sshd_component, rendered_stage,
}

-- A first step that looks at nothing but its result.
after_result :
    {A B : Type 0} (r : Result String A) (f : A → Io B) (s : Machine)
    → ((a : A) → r ≡ ok a → (f a s).1 ≡ s)
    → ((of_result r >>= f) s).1 ≡ s
unfolding ◌>>=◌ of_result
after_result (ok a) f s h = h a refl
after_result (err e) f s h = refl

after_pure :
    {A B : Type 0} (a : A) (f : A → Io B) (s : Machine) → (f a s).1 ≡ s → ((pure a >>= f) s).1 ≡ s
unfolding ◌>>=◌ pure
after_pure a f s h = h

pure_same : {A : Type 0} (a : A) (s : Machine) → (pure a s).1 ≡ s
unfolding pure
pure_same a s = refl

module _ (t : StageTools) (env : Env) (config : HarvesterConfig) (s : Machine) where
  -- If the copy of the configuration is in mode `install`, `ConvertToCOS` writes no file, runs no
  -- command and forgets no saved profile, whether it succeeds or fails.
  pub convert_to_cos-eq_of_install :
      {cfg : HarvesterConfig}
      → t.deep_copy config ≡ ok cfg
      → cfg.install.mode ≡ "install"
      → (convert_to_cos t env config s).1 ≡ s
  unfolding convert_to_cos cos_parts
  convert_to_cos-eq_of_install {cfg} copied mode = after_result (t.deep_copy config) _ s (λ copy e.
      after_result (rendered_stage t "cos-rootfs.yaml" config) _ s (λ rootfs _.
        after_result (initramfs_stage t config copy) _ s (λ initramfs _.
          let mode_is : copy.install.mode ≡ "install" = ground (arith) in
          let tested = (eq_iff copy.install.mode "install").1 mode_is in
          rw tested (
            after_pure _ _ s (
              after_result (after_install_chroot t env (overwrite_sshd_component config)) _ s
                (λ chroot _. pure_same _ s))))))
