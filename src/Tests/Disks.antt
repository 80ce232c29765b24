-- ===== src/Tests/Disks.antt =====
-- Runs of the model of the disks and of `retryOnError` of pkg/console/util.go.
use harvester_installer.Prelude.{
  All, Among, Result, String, [], err, none, ok, refl, some, suc, true, zero, ℕ, ◌↔◌, ◌∷◌, ◌≡◌, ◌≢◌,
  ◌⊎◌,
}
use harvester_installer.Config.Types.{HarvesterConfig}
use harvester_installer.Console.Disks.Covered.{IsNew, filter_unique_disks-Covers, has_id}
use harvester_installer.Console.Disks.{
  Device, filter_unique_disks, get_data_disk_options, get_wipe_disks_options, has_key,
  move_to_front, name_of, or_nil, use_installation_disk,
}
use harvester_installer.Console.Disks.Wipe.{get_wipe_disks_options_iff}
use harvester_installer.Console.Disks.Unique.{Distinct, IsDisk}
use harvester_installer.Console.Disks.Options.{
  Lacks, OffersFirst, get_data_disk_options-OffersFirst, get_data_disk_options-eq-none,
}
use harvester_installer.Console.Retry.{retry_on_error, retry_on_error-gives_up}
use harvester_installer.Tests.{
  empty_cache, first_node, full_cache, sda, sda_option, sdb, sdb_option,
}

-- The first disk is listed twice, over two paths.
filter_unique_disks-Covers_example :
    let kept = filter_unique_disks (sda ∷ sda ∷ sdb ∷ []) in
    Distinct kept
    × All (λ e. (e.0 ≡ name_of e.1) × IsDisk (sda ∷ sda ∷ sdb ∷ []) e.1) kept
    × All (λ e. (e.0 ≡ name_of e.1) × IsNew (sda ∷ sda ∷ sdb ∷ []) e.1) kept
    × ((k : String) (d : Device)
        → Among d (sda ∷ sda ∷ sdb ∷ [])
        → has_id k d ≡ true
        → (e : Device) × Among e (sda ∷ sda ∷ sdb ∷ [])
          × (has_id k e ≡ true)
          × (has_key (name_of e) kept ≡ true))
filter_unique_disks-Covers_example = filter_unique_disks-Covers (sda ∷ sda ∷ sdb ∷ [])

get_wipe_disks_options_iff_example :
    Among sdb_option (get_wipe_disks_options full_cache first_node)
    ↔ Among sdb_option (sda_option ∷ sdb_option ∷ [])
      × (sdb_option.value ≢ first_node.install.device)
      × (sdb_option.value ≢ first_node.install.data_disk)
get_wipe_disks_options_iff_example = get_wipe_disks_options_iff full_cache first_node sdb_option

offered :
    get_data_disk_options full_cache first_node
    ≡ some (
        record { value = "/dev/sda"; text = "Use the installation disk (sda 300G)" }
        ∷ sdb_option
        ∷ [])
unfolding get_data_disk_options or_nil move_to_front use_installation_disk
offered = refl

get_data_disk_options-OffersFirst_example :
    ((record { value = "/dev/sda"; text = "Use the installation disk (sda 300G)" } ∷ sdb_option ∷ []
        ≡ [])
      × Lacks "/dev/sda" full_cache.disk_options)
    ⊎ OffersFirst "/dev/sda" full_cache.disk_options (
        record { value = "/dev/sda"; text = "Use the installation disk (sda 300G)" }
        ∷ sdb_option
        ∷ [])
get_data_disk_options-OffersFirst_example =
    get_data_disk_options-OffersFirst full_cache first_node (λ h. cc) offered

abbrev no_device : HarvesterConfig
no_device = let i = first_node.install in record first_node { install = record i { device = "" } }

get_data_disk_options-eq-none_example :
    get_data_disk_options empty_cache no_device ≡ none
    ↔ (no_device.install.device ≡ "") × (empty_cache.disk_options ≡ [])
get_data_disk_options-eq-none_example = get_data_disk_options-eq-none empty_cache no_device

-- Fails twice, and then succeeds.
abbrev third_time : ℕ → Result String (Unit {0})
third_time zero = err "a"
third_time (suc zero) = err "b"
third_time (suc (suc n)) = ok tt

retry_on_error-gives_up_example : retry_on_error 2 (λ j. err j) ≡ (err 2, 3)
retry_on_error-gives_up_example = retry_on_error-gives_up (λ j. err j) 2 (λ j h. refl)
