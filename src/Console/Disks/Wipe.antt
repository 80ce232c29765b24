-- ===== src/Console/Disks/Wipe.antt =====
-- pkg/console/util.go: which disks are wiped.
use harvester_installer.Prelude.{Among, List, [], arith, eq_iff, ◌↔◌, ◌∷◌, ◌≢◌}
use harvester_installer.Config.Types.{HarvesterConfig}
use harvester_installer.Console.Disks.{
  DiskOptionsCache, WidgetOption, get_wipe_disks_options, keep_for_wipe,
}

keep_for_wipe_iff :
    (c : HarvesterConfig) (o : WidgetOption) (vs : List WidgetOption)
    → Among o (keep_for_wipe c vs)
      ↔ Among o vs × (o.value ≢ c.install.device) × (o.value ≢ c.install.data_disk)
unfolding keep_for_wipe
keep_for_wipe_iff c o [] = (λ h. elim h [ ], λ h. elim h.0 [ ])
keep_for_wipe_iff c o (v ∷ vs) = (
  ground (
    arith,
    eq_iff v.value c.install.device,
    eq_iff v.value c.install.data_disk,
    (keep_for_wipe_iff c o vs).0,
  ),
  ground (
    arith,
    eq_iff v.value c.install.device,
    eq_iff v.value c.install.data_disk,
    (keep_for_wipe_iff c o vs).1,
  ),
)

-- The disks offered for wiping are those that hold an installation, less the installation disk
-- and the data disk.
pub get_wipe_disks_options_iff :
    (cache : DiskOptionsCache) (c : HarvesterConfig) (o : WidgetOption)
    → Among o (get_wipe_disks_options cache c)
      ↔ Among o cache.hvst_installed_disk_options
        × (o.value ≢ c.install.device)
        × (o.value ≢ c.install.data_disk)
unfolding get_wipe_disks_options
get_wipe_disks_options_iff cache c o = keep_for_wipe_iff c o cache.hvst_installed_disk_options
