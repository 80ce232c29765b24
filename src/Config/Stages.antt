-- ===== src/Config/Stages.antt =====
-- The stages that pkg/config/cos.go builds. The types of yip are records of the fields that the code
-- sets: the owner and the group of a file or a directory are always 0, and are left out. The
-- templates, YAML, the octal numbers, the deep copy by mergo and base64 are parameters.
pub mod Rancherd
use harvester_installer.Prelude.{
  Bool, List, Option, Result, String, [], concat_text, if◌then◌else◌, is_empty, join, none, not, ok,
  some, ℕ, ◌++◌, ◌==◌, ◌>>=◌, ◌>>◌, ◌∷◌,
}
use harvester_installer.Config.Types.{
  Dict, File, HarvesterConfig, MultiPathConfig, mode_create, role_witness,
}
use harvester_installer.Config.Defaults.{Versions, set_config_default_values}

pub record StageFile : Type 0 where
  pub path : String
  pub content : String
  pub encoding : String
  pub permissions : ℕ
  pub owner_string : String

pub record Directory : Type 0 where
  pub path : String
  pub permissions : ℕ

pub record Stage : Type 0 where
  pub name : String
  pub commands : List String
  pub files : List StageFile
  pub directories : List Directory
  pub users : Dict
  pub hostname : String
  pub ssh_keys : List (String × List String)
  pub sysctl : Dict
  pub environment : Dict
  pub time_syncd : Dict
  pub systemctl_enable : List String

pub record YipConfig : Type 0 where
  pub name : String
  pub stages : List (String × List Stage)

pub record StageTools : Type 0 where
  pub render : String → HarvesterConfig → Result String String
  pub render_multipath : MultiPathConfig → Result String String
  pub read_template : String → Result String String
  pub parse_stage : String → Result String Stage
  pub parse_octal : String → Option ℕ
  pub deep_copy : HarvesterConfig → Result String HarvesterConfig
  pub trim_space : String → String
  pub encode_base64 : String → String
  pub is_arm64 : Bool
  pub versions : Versions

-- `yipSchema.Stage{}`
abbrev pub empty_stage : Stage
empty_stage = record {
  name = "";
  commands = [];
  files = [];
  directories = [];
  users = [];
  hostname = "";
  ssh_keys = [];
  sysctl = [];
  environment = [];
  time_syncd = [];
  systemctl_enable = [];
}

-- 0600, 0644 and 0755.
abbrev pub private_mode : ℕ
private_mode = 384

abbrev pub shared_mode : ℕ
shared_mode = 420

abbrev pub executable_mode : ℕ
executable_mode = 493

abbrev pub private_file : String → String → StageFile
private_file path content = record {
  path = path;
  content = content;
  encoding = "";
  permissions = private_mode;
  owner_string = "";
}

unfoldable pub add_file : StageFile → Stage → Stage
add_file f s = record s { files = s.files ++ f ∷ [] }

unfoldable pub add_directory : String → ℕ → Stage → Stage
add_directory path permissions s = record s {
  directories = s.directories ++ record { path = path; permissions = permissions } ∷ [];
}

unfoldable pub enable : String → Stage → Stage
enable service s = record s { systemctl_enable = s.systemctl_enable ++ service ∷ [] }

unfoldable pub ntp_of : List String → Stage → Stage
unfolding enable join
ntp_of servers s =
    if is_empty servers
    then s
    else enable "systemd-time-wait-sync"
        (enable "systemd-timesyncd" (record s { time_syncd = ("NTP", join " " servers) ∷ [] }))

unfoldable pub modprobe_commands : List String → List String
modprobe_commands [] = []
modprobe_commands (m ∷ modules) = concat_text "modprobe " m ∷ modprobe_commands modules

-- The files of `rancherd_bootstrap_dir`, in the order of the list of templates.
abbrev pub rancherd_bootstrap_dir : String
rancherd_bootstrap_dir = "/etc/rancher/rancherd/config.yaml.d/"

abbrev pub rke2_path : String → String
rke2_path name = concat_text "/etc/rancher/rke2/config.yaml.d/" name

module _ (t : StageTools) where
  unfoldable pub render_templates : HarvesterConfig → List String → Result String Dict
  render_templates c [] = ok []
  render_templates c (name ∷ names) = do
    rendered ← t.render (concat_text "rancherd-" name) c
    rest ← render_templates c names
    ok ((name, rendered) ∷ rest)

  -- The entries of a Go map, in one of the orders in which an iteration may find them.
  unfoldable pub gen_bootstrap_resources : HarvesterConfig → Result String Dict
  unfolding render_templates
  gen_bootstrap_resources c = do
    confs ← render_templates c (
        "10-harvester.yaml" ∷ "11-monitoring-crd.yaml" ∷ "14-logging-crd.yaml"
        ∷ "20-harvester-settings.yaml" ∷ "15-kubeovn-operator-crd.yaml" ∷ "22-addons.yaml" ∷ [])
    dashboard ← t.read_template "rancherd-12-monitoring-dashboard.yaml"
    multus ← (if t.is_arm64 then render_templates c ("23-multus-config.yaml" ∷ []) else ok [])
    ok (confs ++ ("12-monitoring-dashboard.yaml", dashboard) ∷ multus)

  unfoldable pub add_bootstrap : Dict → Stage → Stage
  unfolding add_file
  add_bootstrap [] s = s
  add_bootstrap ((name, content) ∷ resources) s =
      add_bootstrap resources
        (add_file (private_file (concat_text rancherd_bootstrap_dir name) content) s)

  unfoldable pub bootstrap : HarvesterConfig → Stage → Result String Stage
  unfolding gen_bootstrap_resources add_bootstrap
  bootstrap c s =
      if c.install.mode == mode_create
      then (do resources ← gen_bootstrap_resources c; ok (add_bootstrap resources s))
      else ok s

  -- A template that becomes a private file, and one of which the spaces around are removed.
  unfoldable pub add_rendered : String → String → HarvesterConfig → Stage → Result String Stage
  unfolding add_file
  add_rendered template path c s = do
    content ← t.render template c
    ok (add_file (private_file path content) s)

  unfoldable pub add_trimmed : String → String → HarvesterConfig → Stage → Result String Stage
  unfolding add_file
  add_trimmed template path c s = do
    content ← t.render template c
    ok (add_file (private_file path (t.trim_space content)) s)

  -- The template is rendered also where the file is not written.
  unfoldable pub add_server : HarvesterConfig → Stage → Result String Stage
  unfolding add_file
  add_server c s = do
    content ← t.render "rke2-90-harvester-server.yaml" c
    ok (
        if c.server_url == ""
        then add_file (private_file (rke2_path "90-harvester-server.yaml") content) s
        else s)

  unfoldable pub add_witness : HarvesterConfig → Stage → Result String Stage
  unfolding add_trimmed
  add_witness c s =
      if c.install.role == role_witness
      then add_trimmed "rke2-99-harvester-witness.yaml" (rke2_path "99-harvester-witness.yaml") c s
      else ok s

  -- The rest of `initRancherdStage`, once the default values are set.
  unfoldable pub rancherd_files : HarvesterConfig → Stage → Result String Stage
  unfolding add_rendered add_trimmed add_server add_witness bootstrap
  rancherd_files c s0 = do
    s1 ← add_rendered "rancherd-config.yaml" "/etc/rancher/rancherd/config.yaml" c s0
    s2 ← bootstrap c s1
    s3 ← add_server c s2
    s4 ← add_rendered "rke2-91-harvester-cdi.yaml" (rke2_path "91-harvester-cdi.yaml") c s3
    s5 ←
        add_rendered "rke2-92-harvester-kube-audit-policy.yaml"
          (rke2_path "92-harvester-kube-audit-policy.yaml") c s4
    s6 ← add_trimmed "rke2-90-harvester-agent.yaml" (rke2_path "90-harvester-agent.yaml") c s5
    s7 ← add_witness c s6
    add_rendered "rke2-99-z00-harvester-reserved-resources.yaml"
        (rke2_path "99-z00-harvester-reserved-resources.yaml") c s7

  -- With the configuration that `setConfigDefaultValues` has changed.
  unfoldable pub init_rancherd_stage :
      HarvesterConfig → Stage → Result String (Stage × HarvesterConfig)
  unfolding rancherd_files add_directory
  init_rancherd_stage config s = do
    let c = set_config_default_values t.versions config
    stage ← rancherd_files c (add_directory "/etc/rancher/rke2/config.yaml.d" private_mode s)
    ok (stage, c)

  unfoldable pub render_multipath_conf : Option MultiPathConfig → Stage → Result String Stage
  unfolding add_file
  render_multipath_conf none s = ok s
  render_multipath_conf (some m) s = do
    content ← t.render_multipath m
    ok (
        add_file
          (record {
            path = "/etc/multipath.conf";
            content = content;
            encoding = "";
            permissions = executable_mode;
            owner_string = "";
          })
          s)

  unfoldable pub setup_external_storage : HarvesterConfig → Stage → Result String Stage
  unfolding enable render_multipath_conf
  setup_external_storage c s =
      if not c.os.external_storage.enabled
      then ok s
      else render_multipath_conf c.os.external_storage.multi_path_config (enable "multipathd" s)

  abbrev pub encoded_file : String → List String → StageFile
  encoded_file path lines = record {
    path = path;
    content = t.encode_base64 (join "\n" lines);
    encoding = "base64";
    permissions = shared_mode;
    owner_string = "";
  }

  unfoldable pub disable_longhorn_multipathing : Stage → Stage
  unfolding add_file add_directory join
  disable_longhorn_multipathing s =
      add_file
        (encoded_file "/etc/systemd/system/multipathd.service" (
          "[Unit]" ∷ "Description=Device-Mapper Multipath Device Controller"
          ∷ "Before=lvm2-activation-early.service"
          ∷ "Before=local-fs-pre.target blk-availability.service shutdown.target"
          ∷ "Wants=systemd-udevd-kernel.socket modprobe@dm_multipath.service"
          ∷ "After=systemd-udevd-kernel.socket modprobe@dm_multipath.service"
          ∷ "After=multipathd.socket systemd-remount-fs.service" ∷ "Before=initrd-cleanup.service"
          ∷ "DefaultDependencies=no" ∷ "Conflicts=shutdown.target"
          ∷ "Conflicts=initrd-cleanup.service" ∷ "ConditionKernelCommandLine=!nompath"
          ∷ "ConditionVirtualization=!container" ∷ "" ∷ "[Service]" ∷ "Type=notify"
          ∷ "NotifyAccess=main" ∷ "ExecStart=/usr/sbin/multipathd -d -s"
          ∷ "ExecReload=/usr/sbin/multipathd reconfigure" ∷ "TasksMax=infinity" ∷ "LimitRTPRIO=10"
          ∷ "CPUWeight=1000" ∷ "" ∷ "[Install]" ∷ "WantedBy=sysinit.target" ∷ []))
        (add_file
          (encoded_file "/etc/multipath/conf.d/99-longhorn.conf" (
            "blacklist {" ∷ "  device {" ∷ "    vendor \"IET\"" ∷ "    product \"VIRTUAL-DISK\""
            ∷ "  }" ∷ "}" ∷ []))
          (add_directory "/etc/multipath/conf.d" shared_mode s))

  -- A permission that is no octal number is replaced by 0600.
  unfoldable pub permission_of : Option ℕ → ℕ
  permission_of none = private_mode
  permission_of (some perm) = perm

  unfoldable pub write_files : List File → Stage → Stage
  unfolding add_file permission_of
  write_files [] s = s
  write_files (ff ∷ files) s = write_files files (
      add_file
        (record {
          path = ff.path;
          content = ff.content;
          encoding = ff.encoding;
          permissions = permission_of (t.parse_octal ff.raw_file_permissions);
          owner_string = ff.owner;
        })
        s)

  unfoldable pub rendered_stage : String → HarvesterConfig → Result String Stage
  rendered_stage template c = do content ← t.render template c; t.parse_stage content

  -- The stage `initramfs` before the part for `mode != install`.
  unfoldable pub initramfs_stage : HarvesterConfig → HarvesterConfig → Result String Stage
  unfolding write_files setup_external_storage disable_longhorn_multipathing modprobe_commands
  initramfs_stage config cfg = do
    let commands =
        modprobe_commands cfg.os.modules ++ "rm -f /var/lib/kubelet/cpu_manager_state" ∷ []
    let started = record empty_stage {
      users = ("rancher", cfg.os.password) ∷ [];
      commands = commands;
      sysctl = cfg.os.sysctls;
      environment = cfg.os.environment;
    }
    stored ← setup_external_storage config (write_files cfg.os.write_files started)
    ok (disable_longhorn_multipathing stored)

-- `overwriteSSHDComponent` changes the configuration: the commands are there once more after each
-- call.
unfoldable pub overwrite_sshd_component : HarvesterConfig → HarvesterConfig
overwrite_sshd_component c =
    let o = c.os in
    if o.sftp
    then record c {
      os = record o {
        after_install_chroot_commands =
            o.after_install_chroot_commands
            ++ "mkdir -p /etc/ssh/sshd_config.d"
              ∷ "echo 'Subsystem\tsftp\t/usr/libexec/ssh/sftp-server' > /etc/ssh/sshd_config.d/sftp.conf"
              ∷ [];
      };
    }
    else c
