-- ===== src/Tests/Machines.antt =====
-- Runs of the model of pkg/preflight/checks.go and of pkg/config.
use harvester_installer.Prelude.{List, String, [], ok, refl, ℕ, ◌*◌, ◌^◌, ◌∷◌, ◌≡◌}
use harvester_installer.Config.Types.{NetworkInterface}
use harvester_installer.Config.Defaults.{
  IsDefaulted, Versions, set_config_default_values, set_config_default_values-IsDefaulted,
}
use harvester_installer.Config.Interfaces.{by_address, find_network_interface_name}
use harvester_installer.Config.Interfaces.Found.{Resolved, find_network_interface_name-Resolved}
use harvester_installer.Tests.{first_node, nic, nics}

abbrev kib : ℕ
kib = 40 * 2 ^ 20

abbrev two_ranges : List (ℕ × String)
two_ranges = (32, "GB") ∷ (40, "GB") ∷ []

abbrev versions : Versions
versions = record {
  rke2 = "v1.32";
  rancher = "v2.11";
  harvester_chart = "1.6";
  monitoring_chart = "105";
  logging_chart = "4";
  kubeovn_operator_chart = "1.13";
}

set_config_default_values-IsDefaulted_example :
    IsDefaulted (set_config_default_values versions first_node)
set_config_default_values-IsDefaulted_example =
    set_config_default_values-IsDefaulted versions first_node

abbrev unnamed : NetworkInterface
unnamed = record { name = ""; hw_addr = "52:54:00:00:00:01" }

resolved :
    find_network_interface_name nics unnamed
    ≡ ok (record { name = "eno1"; hw_addr = "52:54:00:00:00:01" })
unfolding find_network_interface_name by_address
resolved = refl

find_network_interface_name-Resolved_example :
    Resolved
      (nic ∷ [])
      "52:54:00:00:00:01"
      unnamed
      (record { name = "eno1"; hw_addr = "52:54:00:00:00:01" })
find_network_interface_name-Resolved_example =
    find_network_interface_name-Resolved nics unnamed refl (λ h. cc) refl refl resolved
