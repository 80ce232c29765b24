-- ===== src/Console/DiskPage.antt =====
-- The disk page of the wizard in pkg/console/install_panels.go, with the drop-downs of
-- pkg/widgets/dropdown.go and select.go that it shows. What gocui does to its views succeeds; titles
-- and places are left out. An error ends the console, so it carries no page.
pub mod Keys
pub mod Accepted
pub mod Leaves
use harvester_installer.Prelude.{
  Bool, List, Option, Result, String, [], eqb, err, false, if◌then◌else◌, is_empty, length, ltb,
  map_ok, none, not, ok, some, true, ℕ, ◌&&◌, ◌++◌, ◌==◌, ◌>>=◌, ◌>>◌, ◌||◌, ◌∷◌,
}
use harvester_installer.Config.Types.{HarvesterConfig, role_witness}
use harvester_installer.Console.Disks.{
  DiskOptionsCache, WidgetOption, device, get_data_disk_options, refresh,
}
use harvester_installer.Console.Validator.Machine.{Host}
use harvester_installer.Console.Validator.Fields.{ValidationError}
use harvester_installer.Util.Disk.{DiskError, byte_to_gi}

pub data Panel : Type 0 where
  disk_fatal_panel disk_panel data_disk_panel persistent_size_panel : Panel
  ask_force_mbr_title_panel ask_force_mbr_panel disk_note_panel : Panel
  wipe_disks_title_panel wipe_disks_panel : Panel

-- The page that the console shows.
pub data Page : Type 0 where
  disk_page password_page network_page confirm_install_page : Page

-- What the panel for messages of the validator shows.
pub data ValidatorMessage : Type 0 where
  size_check : ValidationError → ValidatorMessage
  partition_check : DiskError → ValidatorMessage
  disk_too_large_for_mbr : ValidatorMessage

-- A drop-down of one choice; `shown` tells whether its view is there.
pub record DropDown : Type 0 where
  pub value : String
  pub text : String
  pub shown : Bool

-- The list behind a drop-down of several choices.
pub record MultiSelect : Type 0 where
  pub options : List WidgetOption
  pub selected_indexes : List Bool
  pub values : List String

pub record DiskPage : Type 0 where
  pub config : HarvesterConfig
  pub cache : DiskOptionsCache
  pub disk_confirmed : Bool
  pub disk : DropDown
  pub data_disk : DropDown
  pub force_mbr : DropDown
  pub wipe_disks : MultiSelect
  pub persistent_size : String
  pub persistent_size_text : String
  pub note : String
  pub message : Option ValidatorMessage
  pub focus : Panel
  pub page : Page

-- The machine, and the default size of the persistent partition in bytes, which the source computes
-- with floating-point numbers, and its text in GiB.
pub record DiskEnv : Type 0 where
  pub host : Host
  pub system_is_bios : Bool
  pub install_mode_only : Bool
  pub default_persistent_bytes : ℕ → ℕ
  pub gi_text : ℕ → String

abbrev pub persistent_size_min_gib : ℕ
persistent_size_min_gib = 150

-- The first option is the value of a drop-down that has none when its view is made.
unfoldable pub show_drop_down : List WidgetOption → DropDown → DropDown
show_drop_down [] d = record d { shown = true }
show_drop_down (o ∷ os) d =
    if not d.shown && (d.value == "" && d.text == "")
    then record { value = o.value; text = o.text; shown = true }
    else record d { shown = true }

abbrev pub mbr_options : List WidgetOption
mbr_options = record { value = "no"; text = "No" } ∷ record { value = "yes"; text = "Yes" } ∷ []

-- `c.setContentByName(diskNotePanel, ...)`: a new view takes the focus.
unfoldable pub set_note : String → DiskPage → DiskPage
set_note content p =
    if content == ""
    then record p { note = "" }
    else if p.note == ""
    then record p { note = content; focus = disk_note_panel }
    else record p { note = content }

abbrev pub set_message : Option ValidatorMessage → DiskPage → DiskPage
set_message m p = record p { message = m }

module _ (e : DiskEnv) where
  unfoldable pub calculate_default_persistent_size : String → Result String String
  calculate_default_persistent_size dev =
      map_ok
        (λ bytes.
          let size = byte_to_gi (e.default_persistent_bytes bytes) in
          e.gi_text (if ltb size persistent_size_min_gib then persistent_size_min_gib else size))
        (e.host.get_disk_size_bytes dev)

  -- The hook before the panel of the persistent size is shown.
  unfoldable pub preset_persistent_size : DiskPage → Result String String
  preset_persistent_size p =
      if not (p.persistent_size == "") && not (p.config.install.persistent_partition_size == "")
      then ok p.config.install.persistent_partition_size
      else calculate_default_persistent_size p.config.install.device

  abbrev pub offered : Option (List WidgetOption) → Result String (List WidgetOption)
  offered none = err "index out of range"
  offered (some os) = ok os

  -- `Show` of an element of the page, its hook first.
  unfoldable pub show : Panel → DiskPage → Result String DiskPage
  show disk_fatal_panel p = ok (record p { focus = disk_fatal_panel })
  show disk_panel p = ok (record p {
    disk = show_drop_down p.cache.disk_options p.disk;
    note = "";
    focus = disk_panel;
  })
  show data_disk_panel p =
      map_ok (λ os. record p { data_disk = show_drop_down os p.data_disk; focus = data_disk_panel })
        (offered (get_data_disk_options p.cache p.config))
  show persistent_size_panel p =
      map_ok
        (λ size. record p {
          persistent_size = size;
          persistent_size_text = size;
          focus = persistent_size_panel;
        })
        (preset_persistent_size p)
  show ask_force_mbr_title_panel p = ok (record p { focus = ask_force_mbr_title_panel })
  show ask_force_mbr_panel p =
      ok (record p {
        force_mbr = show_drop_down mbr_options p.force_mbr;
        focus = ask_force_mbr_panel;
      })
  show disk_note_panel p = ok (record p { focus = disk_note_panel })
  show wipe_disks_title_panel p = ok (record p { focus = wipe_disks_title_panel })
  show wipe_disks_panel p = ok (record p { focus = wipe_disks_panel })

  unfoldable pub show_next : List Panel → DiskPage → Result String DiskPage
  show_next [] p = ok p
  show_next (name ∷ names) p = do q ← show name p; show_next names q

  unfoldable pub preset_config_disks : List WidgetOption → HarvesterConfig → HarvesterConfig
  preset_config_disks [] c = c
  preset_config_disks (o ∷ os) c =
      let i = c.install in
      let device = if i.device == "" then o.value else i.device in
      let data_disk = if i.data_disk == "" then device else i.data_disk in
      if not (i.device == "") && not (i.data_disk == "")
      then c
      else record c { install = record i { device = device; data_disk = data_disk } }

  -- The panels are shown in this order, so the panel of the installation disk has the focus.
  unfoldable pub disk_page_panels : DiskPage → List Panel
  disk_page_panels p =
      let i = p.config.install in
      let witness = i.role == role_witness in
      let disks = p.cache.disk_options in
      (if not witness && (eqb (length disks) 1 || i.data_disk == i.device)
        then persistent_size_panel ∷ []
        else [])
      ++ ((if e.system_is_bios then ask_force_mbr_title_panel ∷ ask_force_mbr_panel ∷ [] else [])
          ++ ((if not witness && ltb 1 (length disks) then data_disk_panel ∷ [] else [])
              ++ disk_panel ∷ []))

  unfoldable pub show_disk_page : DiskPage → Result String DiskPage
  show_disk_page p0 = do
    cache ← refresh e.host.lsblk p0.cache
    let p = record p0 {
      disk_confirmed = false;
      cache = cache;
      config = preset_config_disks cache.disk_options p0.config;
      page = disk_page;
    }
    if is_empty cache.disk_options
        then show_next (disk_fatal_panel ∷ []) p
        else show_next (disk_page_panels p) p
