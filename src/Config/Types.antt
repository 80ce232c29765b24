-- ===== src/Config/Types.antt =====
-- The configuration: the types of pkg/config/config.go and the constants of
-- pkg/config/constants.go. A Go map is the list of its entries, in the order of an iteration; a
-- map whose being nil is tested, and a pointer, is an `Option`.
use harvester_installer.Prelude.{
  Bool, List, Option, String, [], false, if◌then◌else◌, not, true, ℕ, ℤ, ◌&&◌, ◌==◌,
}

abbrev pub Dict : Type 0
Dict = List (String × String)

abbrev pub current_scheme_version : ℕ
current_scheme_version = 1

abbrev pub sanitize_mask : String
sanitize_mask = "***"

abbrev pub mode_create : String
mode_create = "create"

abbrev pub mode_join : String
mode_join = "join"

abbrev pub mode_upgrade : String
mode_upgrade = "upgrade"

abbrev pub mode_install : String
mode_install = "install"

abbrev pub role_default : String
role_default = "default"

abbrev pub role_witness : String
role_witness = "witness"

abbrev pub role_mgmt : String
role_mgmt = "management"

abbrev pub role_worker : String
role_worker = "worker"

abbrev pub network_method_dhcp : String
network_method_dhcp = "dhcp"

abbrev pub network_method_static : String
network_method_static = "static"

abbrev pub network_method_none : String
network_method_none = "none"

abbrev pub mgmt_interface_name : String
mgmt_interface_name = "mgmt-br"

abbrev pub mgmt_bond_interface_name : String
mgmt_bond_interface_name = "mgmt-bo"

abbrev pub default_cos_oem_size_mib : ℕ
default_cos_oem_size_mib = 50

abbrev pub default_cos_state_size_mib : ℕ
default_cos_state_size_mib = 15360

abbrev pub default_cos_recovery_size_mib : ℕ
default_cos_recovery_size_mib = 8192

abbrev pub single_disk_min_size_gib : ℕ
single_disk_min_size_gib = 250

abbrev pub multiple_disk_min_size_gib : ℕ
multiple_disk_min_size_gib = 180

abbrev pub hard_min_data_disk_size_gib : ℕ
hard_min_data_disk_size_gib = 50

pub record NetworkInterface : Type 0 where
  pub name : String
  pub hw_addr : String

pub record Network : Type 0 where
  pub interfaces : List NetworkInterface
  pub method : String
  pub ip : String
  pub subnet_mask : String
  pub gateway : String
  pub default_route : Bool
  pub bond_options : Option Dict
  pub mtu : ℤ
  pub vlan_id : ℤ

pub record HttpBasicAuth : Type 0 where
  pub user : String
  pub password : String

pub record Webhook : Type 0 where
  pub event : String
  pub method : String
  pub headers : List (String × List String)
  pub url : String
  pub payload : String
  pub insecure : Bool
  pub basic_auth : HttpBasicAuth

pub record Addon : Type 0 where
  pub enabled : Bool
  pub values_content : String

pub record LhDefaultSettings : Type 0 where
  pub guaranteed_engine_manager_cpu : Option ℕ
  pub guaranteed_replica_manager_cpu : Option ℕ
  pub guaranteed_instance_manager_cpu : Option ℕ
  pub storage_reserved_percentage_for_default_disk : Option ℕ

pub record HarvesterChartValues : Type 0 where
  pub replica_count : ℕ
  pub default_settings : LhDefaultSettings
  pub enable_go_cover_dir : Bool

pub record Install : Type 0 where
  pub automatic : Bool
  pub skip_checks : Bool
  pub mode : String
  pub management_interface : Network
  pub vip : String
  pub vip_hw_addr : String
  pub vip_mode : String
  pub cluster_dns : String
  pub cluster_pod_cidr : String
  pub cluster_service_cidr : String
  pub force_efi : Bool
  pub device : String
  pub config_url : String
  pub silent : Bool
  pub iso_url : String
  pub power_off : Bool
  pub no_format : Bool
  pub debug : Bool
  pub tty : String
  pub force_gpt : Bool
  pub role : String
  pub with_net_images : Bool
  pub wipe_all_disks : Bool
  pub wipe_disks_list : List String
  pub force_mbr : Bool
  pub data_disk : String
  pub webhooks : List Webhook
  pub addons : List (String × Addon)
  pub harvester : HarvesterChartValues
  pub raw_disk_image_path : String
  pub persistent_partition_size : String

pub record File : Type 0 where
  pub encoding : String
  pub content : String
  pub owner : String
  pub path : String
  pub raw_file_permissions : String

pub record DiskConfig : Type 0 where
  pub vendor : String
  pub product : String

pub record MultiPathOption2 : Type 0 where
  pub blacklist : List DiskConfig
  pub blacklist_wwids : List String
  pub blacklist_exceptions : List DiskConfig
  pub blacklist_exception_wwids : List String

-- What `MultiPathConfig interface{}` holds once `ParseMultiPathConfig` has run.
pub data MultiPathConfig : Type 0 where
  option1 : List DiskConfig → MultiPathConfig
  option2 : MultiPathOption2 → MultiPathConfig

-- `GetConfig` of the two types behind the interface `MultiPathOption`.
unfoldable pub get_config : MultiPathConfig → MultiPathOption2
get_config (option2 m) = record {
  blacklist = m.blacklist;
  blacklist_wwids = m.blacklist_wwids;
  blacklist_exceptions = m.blacklist_exceptions;
  blacklist_exception_wwids = m.blacklist_exception_wwids;
}
get_config (option1 m) = record {
  blacklist = m;
  blacklist_wwids = [];
  blacklist_exceptions = [];
  blacklist_exception_wwids = [];
}

pub record ExternalStorageConfig : Type 0 where
  pub enabled : Bool
  pub multi_path_config : Option MultiPathConfig

pub record Os : Type 0 where
  pub after_install_chroot_commands : List String
  pub ssh_authorized_keys : List String
  pub write_files : List File
  pub hostname : String
  pub modules : List String
  pub sysctls : Dict
  pub ntp_servers : List String
  pub dns_nameservers : List String
  pub password : String
  pub environment : Dict
  pub labels : Dict
  pub sftp : Bool
  pub persistent_state_paths : List String
  pub external_storage : ExternalStorageConfig
  pub additional_kernel_arguments : String

pub record HarvesterConfig : Type 0 where
  pub scheme_version : ℕ
  pub server_url : String
  pub token : String
  pub sans : List String
  pub os : Os
  pub install : Install
  pub runtime_version : String
  pub rancher_version : String
  pub harvester_chart_version : String
  pub monitoring_chart_version : String
  pub system_settings : Dict
  pub logging_chart_version : String
  pub kubeovn_operator_chart_version : String

unfoldable pub should_create_data_partition_on_os_disk : HarvesterConfig → Bool
should_create_data_partition_on_os_disk c =
    if c.install.role == role_witness
    then false
    else c.install.data_disk == "" && not c.install.force_mbr

unfoldable pub should_mount_data_partition : HarvesterConfig → Bool
should_mount_data_partition c =
    if c.install.role == role_witness
    then false
    else if c.install.force_mbr && c.install.data_disk == ""
    then false
    else true
