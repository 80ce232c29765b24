-- ===== src/Console/Install/Wiped.antt =====
-- pkg/console/util.go: the disks that an installation wipes.
use harvester_installer.Prelude.{Among, List, String, [], true, ◌++◌, ◌∷◌, ◌≡◌, ◌≢◌}
use harvester_installer.Config.Types.{HarvesterConfig}
use harvester_installer.Console.Disks.{DiskOptionsCache, WidgetOption}
use harvester_installer.Console.Install.Acts.{Event, wiped}

-- An option offers the disk among those that hold an installation, and it is neither the
-- installation disk nor the data disk.
abbrev pub Held : DiskOptionsCache → HarvesterConfig → String → Type 0
Held cache c d =
    ((o : WidgetOption) × Among o cache.hvst_installed_disk_options × (o.value ≡ d))
    × (d ≢ c.install.device)
    × (d ≢ c.install.data_disk)

-- The events of disks that are wiped one after the other, the last first.
wipes : List String → List Event
wipes [] = []
wipes (d ∷ ds) = wipes ds ++ wiped d true ∷ []

-- An event of a disk that was wiped.
abbrev pub IsWipe : Event → Type 0
IsWipe ev = (d : String) × (ev ≡ wiped d true)
