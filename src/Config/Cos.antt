-- ===== src/Config/Cos.antt =====
-- `ConvertToCOS` and `GenerateRancherdConfig` of pkg/config, which write the network profiles too.
-- The configuration that they change is returned with the result; where they fail, no caller uses it.
pub mod Untouched
use harvester_installer.Prelude.{
  List, Result, String, [], false, if◌then◌else◌, is_empty, map_ok, ok, true, ◌==◌, ◌∷◌,
}
use harvester_installer.Config.Types.{HarvesterConfig, mode_install}
use harvester_installer.Config.Profiles.{Env, update_management_interface_config}
use harvester_installer.Config.Profiles.Effects.{Io, of_result, pure, ◌>>=◌, ◌>>◌}
use harvester_installer.Config.Stages.{
  Stage, StageTools, YipConfig, empty_stage, init_rancherd_stage, initramfs_stage, ntp_of,
  overwrite_sshd_component, rendered_stage,
}

abbrev pub nm_connection_path : String
nm_connection_path = "/etc/NetworkManager/system-connections"

-- The stages `initramfs` and `network`, and the configuration.
pub record CosParts : Type 0 where
  pub initramfs : Stage
  pub network : Stage
  pub config : HarvesterConfig

-- `afterNetwork`, with the keys for `rancher` once they are given.
abbrev pub network_stage : HarvesterConfig → List (String × List String) → Stage
network_stage c keys = record empty_stage { hostname = c.os.hostname; ssh_keys = keys }

module _ (t : StageTools) (env : Env) where
  -- The part of `ConvertToCOS` for `cfg.Mode != ModeInstall`.
  unfoldable pub configured_parts : HarvesterConfig → HarvesterConfig → Stage → Io CosParts
  configured_parts config cfg initramfs = do
    r ← of_result (init_rancherd_stage t config initramfs)
    let s = r.0
    update_management_interface_config env cfg.install.management_interface cfg.os.dns_nameservers
        nm_connection_path false
    pure (record {
      initramfs = ntp_of cfg.os.ntp_servers (record s { hostname = cfg.os.hostname });
      network = network_stage config (("rancher", cfg.os.ssh_authorized_keys) ∷ []);
      config = r.1;
    })

  unfoldable pub cos_parts : HarvesterConfig → HarvesterConfig → Stage → Io CosParts
  cos_parts config cfg initramfs =
      if cfg.install.mode == mode_install
      then pure
          (record { initramfs = initramfs; network = network_stage config []; config = config })
      else configured_parts config cfg initramfs

  -- The stage `after-install-chroot`, where there are commands for it.
  unfoldable pub after_install_chroot : HarvesterConfig → Result String (List (String × List Stage))
  after_install_chroot c =
      if is_empty c.os.after_install_chroot_commands
      then ok []
      else map_ok (λ s. ("after-install-chroot", s ∷ []) ∷ [])
          (rendered_stage t "cos-after-install-chroot.yaml" c)

  unfoldable pub convert_to_cos : HarvesterConfig → Io (YipConfig × HarvesterConfig)
  convert_to_cos config = do
    cfg ← of_result (t.deep_copy config)
    rootfs ← of_result (rendered_stage t "cos-rootfs.yaml" config)
    initramfs ← of_result (initramfs_stage t config cfg)
    parts ← cos_parts config cfg initramfs
    let c = overwrite_sshd_component parts.config
    chroot ← of_result (after_install_chroot c)
    pure (
      record {
        name = "Harvester Configuration";
        stages =
            ("rootfs", rootfs ∷ [])
            ∷ ("initramfs", parts.initramfs ∷ [])
            ∷ ("network", parts.network ∷ [])
            ∷ chroot;
      },
      c,
    )

  unfoldable pub generate_rancherd_config : HarvesterConfig → Io (YipConfig × HarvesterConfig)
  generate_rancherd_config config = do
    r ← of_result (
        init_rancherd_stage t config
          (ntp_of config.os.ntp_servers (record empty_stage { hostname = config.os.hostname })))
    let s = r.0
    update_management_interface_config env config.install.management_interface
        config.os.dns_nameservers nm_connection_path true
    pure (
      record {
        name = "RancherD Configuration";
        stages =
            (
              "live",
              record s {
                ssh_keys = ("rancher", config.os.ssh_authorized_keys) ∷ [];
                users = ("rancher", config.os.password) ∷ [];
              }
                  ∷ [],
            )
            ∷ [];
      },
      r.1,
    )
