-- ===== src/Tests/Checks.antt =====
-- Runs of the model of pkg/console/validator.go.
use harvester_installer.Prelude.{String, [], false, ok, refl, sort_texts, true, ◌↔◌, ◌≡◌, ◌≢◌}
use text.Mathlib.Text.{starts_with}
use harvester_installer.Util.Disk.{byte_to_gi}
use harvester_installer.Console.Disks.{
  dedup, dedup_step, disk_entries, filter_unique_disks, generate_disk_entry,
  generate_disk_widget_options, has_key, put, put_new, refresh, results_by_name, split_space,
}
use harvester_installer.Console.Validator.{common_check, validate}
use harvester_installer.Console.Validator.Fields.{check_persistent_state_path}
use harvester_installer.Console.Validator.Machine.{
  check_device, check_disk_sizes, check_networks, has_value, validate_disk_size, validate_size,
}
use harvester_installer.Console.Validator.Values.{check_persistent_state_path_iff}
use harvester_installer.Console.Validator.Sizes.{HasSizes, check_device-HasSizes}
use harvester_installer.Console.Validator.Networks.{IsNetwork, check_networks_iff}
use harvester_installer.Console.Validator.Accepts.{IsAccepted, validate_iff}
use harvester_installer.Console.Validator.Common.{IsCommon, common_check_iff}
use harvester_installer.Tests.{empty_cache, first_node, host, management}

abbrev in_tmp : String
in_tmp = "/tmp/x"

check_persistent_state_path_iff_example :
    check_persistent_state_path in_tmp ≡ ok tt
    ↔ (starts_with in_tmp "/" ≡ true) × (in_tmp ≢ "/tmp") × (starts_with in_tmp "/tmp/" ≡ false)
check_persistent_state_path_iff_example = check_persistent_state_path_iff in_tmp

device_passes : check_device host empty_cache first_node ≡ ok tt
unfolding check_device check_disk_sizes validate_disk_size validate_size byte_to_gi refresh
    has_value generate_disk_widget_options sort_texts disk_entries filter_unique_disks
    results_by_name dedup dedup_step put_new has_key put generate_disk_entry split_space
device_passes = refl

check_device-HasSizes_example : (first_node.install.device ≢ "") × HasSizes host first_node
check_device-HasSizes_example = check_device-HasSizes host empty_cache first_node refl device_passes

check_networks_iff_example :
    check_networks host management [] ≡ ok tt ↔ IsNetwork host [] management
check_networks_iff_example = check_networks_iff host management []

validate_iff_example :
    validate host empty_cache first_node ≡ ok tt ↔ IsAccepted host empty_cache first_node
validate_iff_example = validate_iff host empty_cache first_node

common_check_iff_example : common_check false first_node ≡ ok tt ↔ IsCommon false first_node
common_check_iff_example = common_check_iff false first_node
