-- ===== src/Tests/Nodes.antt =====
-- Runs of the models of the disk page, of `doInstall` and of `ConvertToCOS`.
use harvester_installer.Prelude.{
  List, Option, String, Yields, [], false, none, ok, refl, some, true, ◌*◌, ◌/◌, ◌^◌, ◌∷◌, ◌≡◌,
}
use harvester_installer.Config.Types.{HarvesterConfig}
use harvester_installer.Config.Defaults.{set_config_default_values}
use harvester_installer.Config.Profiles.{Env}
use harvester_installer.Config.Profiles.Effects.{Machine}
use harvester_installer.Config.Stages.{StageTools, empty_stage, init_rancherd_stage}
use harvester_installer.Config.Stages.Rancherd.{
  Adds, TemplateFault, init_rancherd_stage-Adds, rancherd_paths,
}
use harvester_installer.Config.Cos.{convert_to_cos}
use harvester_installer.Config.Cos.Untouched.{convert_to_cos-eq_of_install}
use harvester_installer.Console.Disks.{get_wipe_disks_options, keep_for_wipe}
use harvester_installer.Console.DiskPage.{
  DiskEnv, DiskPage, DropDown, disk_page, disk_panel, network_page,
}
use harvester_installer.Console.DiskPage.Keys.{
  close_this_page, disk_confirm, disk_sizes_fault, goto_next_page, is_wipe_disks_panel_needed,
  key_enter, leave, press, validate_all_disk_sizes,
}
use harvester_installer.Util.Disk.{byte_to_gi}
use harvester_installer.Console.Validator.Machine.{validate_disk_size, validate_size}
use harvester_installer.Console.DiskPage.Accepted.{Accepted}
use harvester_installer.Console.DiskPage.Leaves.{press-Accepted}
use harvester_installer.Config.Layout.{
  ElementalConfig, create_root_partitioning_layout_separate_data_disk, new_elemental_config,
}
use harvester_installer.Console.Install.{InstallTools, Prepared, do_install}
use harvester_installer.Console.Install.Refines.{Ends, Settled, do_install-Reaches}
use harvester_installer.Console.Install.Acts.{Program, World, installer_shutdown}
use harvester_installer.Tests.{first_node, full_cache, host, sda_option}

abbrev pub witness_node : HarvesterConfig
witness_node =
    let i = first_node.install in record first_node { install = record i { role = "witness" } }

abbrev closed : DropDown
closed = record { value = ""; text = ""; shown = false }

-- The one disk has the focus.
abbrev pub one_disk : DiskPage
one_disk = record {
  config = witness_node;
  cache = record { disk_options = sda_option ∷ []; hvst_installed_disk_options = [] };
  disk_confirmed = false;
  disk = record { value = "/dev/sda"; text = "sda 300G"; shown = true };
  data_disk = closed;
  force_mbr = closed;
  wipe_disks = record { options = []; selected_indexes = []; values = [] };
  persistent_size = "";
  persistent_size_text = "";
  note = "";
  message = none;
  focus = disk_panel;
  page = disk_page;
}

abbrev pub left : DiskPage
left = record one_disk {
  disk_confirmed = true;
  disk = record { value = "/dev/sda"; text = "sda 300G"; shown = false };
  page = network_page;
}

abbrev pub page_env : DiskEnv
page_env = record {
  host = host;
  system_is_bios = false;
  install_mode_only = false;
  default_persistent_bytes = λ bytes. bytes * 3 / 10;
  gi_text = λ n. "150Gi";
}

pub leaves : press page_env disk_panel key_enter one_disk ≡ ok left
unfolding press disk_confirm is_wipe_disks_panel_needed get_wipe_disks_options keep_for_wipe
    validate_all_disk_sizes disk_sizes_fault validate_disk_size validate_size byte_to_gi
    goto_next_page leave close_this_page
leaves = refl

press-Accepted_example : Accepted page_env witness_node
press-Accepted_example = press-Accepted page_env disk_panel key_enter one_disk left refl leaves tt

abbrev pub env : Env
env = record {
  render = λ d. ok "rendered";
  mask_to_cidr = λ mask. "24";
  faults = record {
    read_fault = λ p. none;
    write_fault = λ p. none;
    remove_fault = λ p. none;
    mkdir_fault = λ p. none;
    command_fault = λ line. none;
  };
}

abbrev stage_tools : StageTools
stage_tools = record {
  render = λ name c. ok name;
  render_multipath = λ m. ok "";
  read_template = λ name. ok "";
  parse_stage = λ text. ok empty_stage;
  parse_octal = λ s. none;
  deep_copy = λ c. ok c;
  trim_space = λ s. s;
  encode_base64 = λ s. s;
  is_arm64 = false;
  versions = record {
    rke2 = "v1";
    rancher = "v2";
    harvester_chart = "v3";
    monitoring_chart = "v4";
    logging_chart = "v5";
    kubeovn_operator_chart = "v6";
  };
}

abbrev binaries_only : HarvesterConfig
binaries_only =
    let i = first_node.install in record first_node { install = record i { mode = "install" } }

abbrev pub machine : Machine
machine = record { files = []; originals = []; saved_once = false; commands = [] }

convert_to_cos-eq_of_install_example :
    (convert_to_cos stage_tools env binaries_only machine).1 ≡ machine
convert_to_cos-eq_of_install_example =
    convert_to_cos-eq_of_install stage_tools env binaries_only machine refl refl

init_rancherd_stage-Adds_example :
    Yields
      (TemplateFault stage_tools)
      (λ r.
        Adds (rancherd_paths false witness_node) empty_stage r.0
        × (r.1 ≡ set_config_default_values stage_tools.versions witness_node))
      (init_rancherd_stage stage_tools witness_node empty_stage)
init_rancherd_stage-Adds_example = init_rancherd_stage-Adds stage_tools witness_node empty_stage

-- The installer runs, and the shutdown fails.
abbrev shutdown_fault : Program → List String → Option String
shutdown_fault installer_shutdown vars = some "exit status 1"
shutdown_fault _ vars = none

abbrev pub tools : InstallTools
tools = record {
  stage_tools = stage_tools;
  profile_env = env;
  save_temp = λ s prefix. ok prefix;
  save_elemental_config = λ e. ok ("/tmp/d", "/tmp/d/config.yaml");
  eval_symlinks = λ s. ok s;
  get_disk_size_bytes = λ s. ok (300 * 2 ^ 30);
  to_cos_install_env = λ i. ok [];
  os_environ = [];
  run_fault = shutdown_fault;
  wipe_fault = λ d. none;
  marshal_ntp = λ servers. ok "";
  set_keybinding = none;
  hooks = [];
  handle = λ h. ok tt;
}

do_install-Reaches_example :
    Ends
      (Settled tools)
      (do_install tools full_cache false first_node (record { machine = machine; events = [] }))
do_install-Reaches_example = do_install-Reaches tools full_cache false first_node machine

-- A data disk of its own, and all disks to be wiped.
abbrev wiping_node : HarvesterConfig
wiping_node =
    let i = first_node.install in
    record first_node { install = record i { wipe_all_disks = true; data_disk = "/dev/sdc" } }

abbrev wiping : Prepared
wiping = record { env = []; elemental = some new_elemental_config; config = wiping_node }

abbrev no_events : World
no_events = record { machine = machine; events = [] }

abbrev separate_layout : ElementalConfig
unfolding create_root_partitioning_layout_separate_data_disk
separate_layout = create_root_partitioning_layout_separate_data_disk new_elemental_config
