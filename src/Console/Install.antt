-- ===== src/Console/Install.antt =====
-- The installation: `doInstall` and `configureInstalledNode` of pkg/console/util.go, with what they
-- call. What is printed to the panel and logged is left out. The programs, the temporary files, JSON
-- and the environment of the process are parameters, and so is each of their failures.
pub mod Acts
pub mod Protocol
pub mod Refines
pub mod Wiped
use harvester_installer.Prelude.{
  Bool, List, Option, Result, String, [], concat_text, err, if◌then◌else◌, is_empty, map_ok, none,
  not, ok, some, ℕ, ◌&&◌, ◌++◌, ◌==◌, ◌∷◌,
}
use harvester_installer.Config.Types.{
  Dict, HarvesterConfig, Install, mode_install, role_default, role_mgmt, role_witness, role_worker,
  should_create_data_partition_on_os_disk,
}
use harvester_installer.Config.Layout.{
  ElementalConfig, LayoutError, convert_to_elemental_config,
  create_root_partitioning_layout_separate_data_disk,
  create_root_partitioning_layout_shared_data_disk, new_elemental_config,
}
use harvester_installer.Config.Profiles.{Env}
use harvester_installer.Config.Stages.{Stage, StageTools, YipConfig, empty_stage}
use harvester_installer.Config.Cos.{convert_to_cos, generate_rancherd_config}
use harvester_installer.Console.Disks.{DiskOptionsCache, WidgetOption, get_wipe_disks_options}
use harvester_installer.Console.Webhooks.{RenderedWebhook, RequestError, handle_webhooks}
use harvester_installer.Console.Install.Acts.{
  Act, InstallError, Program, checked, fail_with, give, handled, lift, notified, of_io, or_continue,
  ran_with, record_event, wiped_with, ◌>>=◌, ◌>>◌,
}

-- What is written to a temporary file.
pub data Saved : Type 0 where
  saved_cos : YipConfig → Saved
  saved_harvester : HarvesterConfig → Saved

pub record InstallTools : Type 0 where
  pub stage_tools : StageTools
  pub profile_env : Env
  pub save_temp : Saved → String → Result String String
  pub save_elemental_config : ElementalConfig → Result String (String × String)
  pub eval_symlinks : String → Result String String
  pub get_disk_size_bytes : String → Result String ℕ
  pub to_cos_install_env : Install → Result String (List String)
  pub os_environ : List String
  pub run_fault : Program → List String → Option String
  pub wipe_fault : String → Option String
  pub marshal_ntp : List String → Result String String
  pub set_keybinding : Option String
  pub hooks : List RenderedWebhook
  pub handle : RenderedWebhook → Result RequestError (Unit {0})

-- `m[k] = v`
unfoldable pub put_entry : String → String → Dict → Dict
put_entry k v [] = (k, v) ∷ []
put_entry k v ((j, w) ∷ m) = if j == k then (k, v) ∷ m else (j, w) ∷ put_entry k v m

unfoldable pub add_label : String → HarvesterConfig → HarvesterConfig
unfolding put_entry
add_label key c =
    let o = c.os in record c { os = record o { labels = put_entry key "true" o.labels } }

unfoldable pub role_setup : HarvesterConfig → Result String HarvesterConfig
unfolding add_label
role_setup c =
    let role = c.install.role in
    if role == ""
    then ok c
    else if role == role_mgmt
    then ok (add_label "node-role.harvesterhci.io/management" c)
    else if role == role_worker
    then ok (add_label "node-role.harvesterhci.io/worker" c)
    else if role == role_witness
    then ok (add_label "node-role.harvesterhci.io/witness" c)
    else if role == role_default
    then ok c
    else err (concat_text "unknown role " role)

-- The disks that are wiped: where all are, those with an installation are added to the list.
unfoldable pub option_values : List WidgetOption → List String
option_values [] = []
option_values (o ∷ os) = o.value ∷ option_values os

unfoldable pub wipe_list : DiskOptionsCache → HarvesterConfig → List String
unfolding option_values
wipe_list cache c =
    if c.install.wipe_all_disks
    then c.install.wipe_disks_list ++ option_values (get_wipe_disks_options cache c)
    else c.install.wipe_disks_list

unfoldable pub disk_env : HarvesterConfig → List String
disk_env c =
    (if c.install.data_disk == ""
      then []
      else concat_text "HARVESTER_DATA_DISK=" c.install.data_disk ∷ [])
    ++ ((if c.os.external_storage.enabled
          then []
          else "HARVESTER_ADDITIONAL_KERNEL_ARGUMENTS=multipath=off" ∷ [])
        ++ (if c.os.additional_kernel_arguments == ""
            then []
            else concat_text "HARVESTER_ADDITIONAL_KERNEL_ARGUMENTS="
                c.os.additional_kernel_arguments
              ∷ []))

-- What `generateEnvAndConfig` returns: no configuration, and no error, where the environment of the
-- installer cannot be encoded.
pub record Prepared : Type 0 where
  pub env : List String
  pub elemental : Option ElementalConfig
  pub config : HarvesterConfig

module _ (t : InstallTools) where
  unfoldable pub update_system_settings : HarvesterConfig → Result String HarvesterConfig
  unfolding put_entry
  update_system_settings c =
      if is_empty c.os.ntp_servers
      then ok c
      else map_ok
          (λ content. record c {
            system_settings = put_entry "ntp-servers" content c.system_settings;
          })
          (t.marshal_ntp c.os.ntp_servers)

  unfoldable pub notify : String → Act (Unit {0})
  notify event = record_event (notified event (handle_webhooks t.handle event t.hooks))

  -- `execute`, and the other commands that are waited for.
  unfoldable pub execute : Program → List String → Act (Unit {0})
  execute program env = ran_with program env (t.run_fault program env)

  unfoldable pub execute_wipe_disks : String → Act (Unit {0})
  execute_wipe_disks disk = wiped_with disk (t.wipe_fault disk)

  unfoldable pub wipe_all : List String → Act (Unit {0})
  wipe_all [] = give tt
  wipe_all (disk ∷ disks) = do execute_wipe_disks disk; wipe_all disks

  -- The environment, once the two files are saved.
  abbrev pub environment : HarvesterConfig → String → List String → List String
  environment c saved vars =
      t.os_environ
      ++ (vars
          ++ concat_text "HARVESTER_CONFIG=" saved
            ∷ "HARVESTER_INSTALLATION_LOG=/var/log/console.log"
            ∷ concat_text "HARVESTER_STREAMDISK_CLOUDINIT_URL=" c.install.config_url
            ∷ [])

  abbrev pub prepared_with :
      HarvesterConfig
      → HarvesterConfig
      → String
      → ElementalConfig
      → Result String (List String)
      → Prepared
  prepared_with c d saved e (err _) = record { env = []; elemental = none; config = d }
  prepared_with c d saved e (ok vars) = record {
    env = environment c saved vars;
    elemental = some e;
    config = d;
  }

  unfoldable pub generate_env_and_config : HarvesterConfig → Act Prepared
  generate_env_and_config c0 = do
    r ← of_io (convert_to_cos t.stage_tools t.profile_env c0)
    let c = r.1
    cos_config_file ← lift InstallError.failed (t.save_temp (saved_cos r.0) "cos")
    saved ← lift InstallError.failed (t.save_temp (saved_harvester c) "harvester")
    let i = c.install
    let d = record c { install = record i { config_url = cos_config_file } }
    e ← lift InstallError.layout (convert_to_elemental_config t.eval_symlinks d)
    give (prepared_with c d saved e (t.to_cos_install_env d.install))

  unfoldable pub stream_image_to_disk : List String → Act (Unit {0})
  stream_image_to_disk env = do
    execute Program.stream_disk env
    execute Program.installer_shutdown env

  -- The layout is laid into the configuration through its pointer.
  unfoldable pub partitioned :
      HarvesterConfig → ElementalConfig → Result LayoutError ElementalConfig
  partitioned c e =
      if should_create_data_partition_on_os_disk c
      then create_root_partitioning_layout_shared_data_disk t.get_disk_size_bytes e c
      else ok (create_root_partitioning_layout_separate_data_disk e)

  unfoldable pub laid_out : HarvesterConfig → Option ElementalConfig → Act ElementalConfig
  laid_out c (some e) = lift InstallError.layout (partitioned c e)
  laid_out c none = do
    _ ← lift InstallError.layout (partitioned c new_elemental_config)
    fail_with (InstallError.failed "nil pointer dereference")

  -- Without debugging no support config is generated; its failure is only printed.
  unfoldable pub support_config : HarvesterConfig → Act (Unit {0})
  support_config c =
      if c.install.debug then or_continue (execute Program.supportconfig []) else give tt

  unfoldable pub install_failed : HarvesterConfig → InstallError → Act (Unit {0})
  install_failed c e = do notify "FAILED"; support_config c; fail_with e

  unfoldable pub shut_down : List String → Act (Unit {0})
  shut_down env =
      handled (execute Program.installer_shutdown env) (λ e. do notify "FAILED"; fail_with e)
        (give tt)

  unfoldable pub install_succeeded : List String → Act (Unit {0})
  install_succeeded env = do notify "SUCCEEDED"; checked t.set_keybinding; shut_down env

  -- Where the configuration of elemental cannot be saved, `doInstall` returns without an error.
  unfoldable pub run_installer :
      Bool → HarvesterConfig → List String → Result String (String × String) → Act (Unit {0})
  run_installer install_mode_only c env (err e) = give tt
  run_installer install_mode_only c env (ok saved) = do
    let full =
        env
        ++ concat_text "ELEMENTAL_CONFIG=" saved.1
          ∷ concat_text "ELEMENTAL_CONFIG_DIR=" saved.0
          ∷ []
    if install_mode_only then execute Program.dummy_iface [] else give tt
    handled (execute Program.harv_install full) (install_failed c) (install_succeeded full)

  unfoldable pub install_prepared : DiskOptionsCache → Bool → Prepared → Act (Unit {0})
  install_prepared cache install_mode_only p = do
    let c = p.config
    if c.install.automatic
          && (c.install.mode == mode_install && not (c.install.raw_disk_image_path == ""))
        then stream_image_to_disk p.env
        else do
          e ← laid_out c p.elemental
          wipe_all (wipe_list cache c)
          run_installer install_mode_only c (p.env ++ disk_env c) (t.save_elemental_config e)

  unfoldable pub do_install : DiskOptionsCache → Bool → HarvesterConfig → Act (Unit {0})
  do_install cache install_mode_only c0 = do
    notify "STARTED"
    c1 ← lift InstallError.failed (update_system_settings c0)
    c2 ← lift InstallError.failed (role_setup c1)
    p ← generate_env_and_config c2
    install_prepared cache install_mode_only p

-- `m[k] = append(m[k], more...)`
unfoldable pub append_stages :
    String → List Stage → List (String × List Stage) → List (String × List Stage)
append_stages k more [] = (k, more) ∷ []
append_stages k more ((j, stages) ∷ m) =
    if j == k then (k, stages ++ more) ∷ m else (j, stages) ∷ append_stages k more m

unfoldable pub stages_at : String → List (String × List Stage) → List Stage
stages_at k [] = []
stages_at k ((j, stages) ∷ m) = if j == k then stages else stages_at k m

module _ (t : InstallTools) where
  abbrev pub copy_files : String → String → Stage
  copy_files cos_config_file hvst_config_file = record empty_stage {
    name = "copy files";
    commands =
        concat_text "cp " (concat_text cos_config_file " /oem/99_custom.yaml")
        ∷ concat_text "cp " (concat_text hvst_config_file " /oem/harvester.config")
        ∷ [];
  }

  unfoldable pub apply_rancherd_config : HarvesterConfig → YipConfig → Act (Unit {0})
  unfolding append_stages stages_at
  apply_rancherd_config c0 cos_config = do
    r ← of_io (generate_rancherd_config t.stage_tools t.profile_env c0)
    let conf = r.0
    let live_stages = stages_at "live" conf.stages
    cos_config_file ← lift InstallError.failed (
        t.save_temp
          (saved_cos (record cos_config {
            stages = append_stages "initramfs" live_stages cos_config.stages;
          }))
          "cos")
    hvst_config_file ← lift InstallError.failed (t.save_temp (saved_harvester r.1) "hvst")
    live ← lift InstallError.failed (
        t.save_temp
          (saved_cos (record conf {
            stages =
                append_stages "finalise" (copy_files cos_config_file hvst_config_file ∷ [])
                  conf.stages;
          }))
          "live")
    execute t (Program.yip "live" live) t.os_environ
    execute t (Program.yip "finalise" live) t.os_environ

  -- The core services are restarted; a failure of that is only printed.
  unfoldable pub configure_installed_node : HarvesterConfig → Act (Unit {0})
  configure_installed_node c0 = do
    notify t "STARTED"
    c1 ← lift InstallError.failed (role_setup c0)
    r ← of_io (convert_to_cos t.stage_tools t.profile_env c1)
    _ ← lift InstallError.failed (t.save_temp (saved_cos r.0) "cos")
    _ ← lift InstallError.failed (t.save_temp (saved_harvester r.1) "harvester")
    apply_rancherd_config r.1 r.0
    or_continue (execute t Program.restart_services [])
