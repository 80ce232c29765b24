-- ===== src/Tests.antt =====
-- A configuration and a machine, on which the modules below run the model.
mod Sizes
mod CmdLine
mod Nics
mod Disks
mod Machines
mod Checks
mod Profiles
mod Webhooks
mod Nodes
mod Panels
mod Wizards
mod Dialogs
use harvester_installer.Prelude.{[], false, none, not, ok, pos, some, true, ◌*◌, ◌==◌, ◌^◌, ◌∷◌}
use harvester_installer.Config.Types.{
  HarvesterChartValues, HarvesterConfig, Install, Network, NetworkInterface, Os,
}
use harvester_installer.Console.Disks.{Device, DiskOptionsCache, WidgetOption, cons, device, nil}
use harvester_installer.Config.Interfaces.{HostInterface, Interfaces}
use harvester_installer.Config.Kubelet.{LabelRules}
use harvester_installer.Console.Validator.Machine.{Host}

abbrev pub eno1 : NetworkInterface
eno1 = record { name = "eno1"; hw_addr = "" }

abbrev pub management : Network
management = record {
  interfaces = eno1 ∷ [];
  method = "dhcp";
  ip = "";
  subnet_mask = "";
  gateway = "";
  default_route = false;
  bond_options = none;
  mtu = pos 0;
  vlan_id = pos 100;
}

abbrev pub chart : HarvesterChartValues
chart = record {
  replica_count = 5;
  default_settings = record {
    guaranteed_engine_manager_cpu = some 20;
    guaranteed_replica_manager_cpu = none;
    guaranteed_instance_manager_cpu = some 6;
    storage_reserved_percentage_for_default_disk = none;
  };
  enable_go_cover_dir = false;
}

abbrev pub install : Install
install = record {
  automatic = false;
  skip_checks = false;
  mode = "create";
  management_interface = management;
  vip = "10.0.0.9";
  vip_hw_addr = "";
  vip_mode = "static";
  cluster_dns = "";
  cluster_pod_cidr = "";
  cluster_service_cidr = "";
  force_efi = false;
  device = "/dev/sda";
  config_url = "";
  silent = false;
  iso_url = "";
  power_off = false;
  no_format = false;
  debug = false;
  tty = "";
  force_gpt = true;
  role = "default";
  with_net_images = false;
  wipe_all_disks = false;
  wipe_disks_list = [];
  force_mbr = false;
  data_disk = "";
  webhooks = [];
  addons = [];
  harvester = chart;
  raw_disk_image_path = "";
  persistent_partition_size = "";
}

abbrev pub os : Os
os = record {
  after_install_chroot_commands = [];
  ssh_authorized_keys = [];
  write_files = [];
  hostname = "node1";
  modules = [];
  sysctls = [];
  ntp_servers = [];
  dns_nameservers = [];
  password = "secret";
  environment = [];
  labels = ("zone", "a") ∷ [];
  sftp = false;
  persistent_state_paths = "/var/lib/x" ∷ [];
  external_storage = record { enabled = false; multi_path_config = none };
  additional_kernel_arguments = "";
}

-- The first node of a cluster.
abbrev pub first_node : HarvesterConfig
first_node = record {
  scheme_version = 1;
  server_url = "";
  token = "token";
  sans = [];
  os = os;
  install = install;
  runtime_version = "";
  rancher_version = "";
  harvester_chart_version = "";
  monitoring_chart_version = "";
  system_settings = ("log-level", "debug") ∷ [];
  logging_chart_version = "";
  kubeovn_operator_chart_version = "";
}

abbrev pub sda : Device
sda =
    device "sda" "300G" "disk" "w1" "s1" ""
      (cons (device "sda1" "50M" "part" "" "" "COS_OEM" nil) nil)

abbrev pub sdb : Device
sdb = device "sdb" "1T" "disk" "" "s2" "" nil

abbrev pub nic : HostInterface
nic = record { name = "eno1"; hardware_addr = "52:54:00:00:00:01"; loopback = false }

abbrev pub nics : Interfaces
nics = record { parse_mac = λ s. ok s; list = ok (nic ∷ []) }

abbrev pub labels : LabelRules
labels = record { is_qualified_name = λ s. not (s == ""); is_valid_label_value = λ s. true }

-- A machine with two disks of 300 GiB.
abbrev pub host : Host
host = record {
  interfaces = nics;
  is_ipv4 = λ s. s == "10.0.0.9";
  is_dns1123_subdomain = λ s. not (s == "");
  label_rules = labels;
  is_registry_json = λ s. true;
  lstat = λ s. ok false;
  eval_symlinks = λ s. ok s;
  lsblk = ok (sda ∷ sdb ∷ []);
  get_disk_size_bytes = λ s. ok (300 * 2 ^ 30);
  lsblk_size = λ s. ok (300 * 2 ^ 30);
  efi_missing = false;
}

abbrev pub empty_cache : DiskOptionsCache
empty_cache = record { disk_options = []; hvst_installed_disk_options = [] }

abbrev pub sda_option : WidgetOption
sda_option = record { value = "/dev/sda"; text = "sda 300G" }

abbrev pub sdb_option : WidgetOption
sdb_option = record { value = "/dev/sdb"; text = "sdb 1T" }

abbrev pub full_cache : DiskOptionsCache
full_cache = record {
  disk_options = sdb_option ∷ sda_option ∷ [];
  hvst_installed_disk_options = sda_option ∷ sdb_option ∷ [];
}
