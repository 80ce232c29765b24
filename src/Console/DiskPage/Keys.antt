-- ===== src/Console/DiskPage/Keys.antt =====
-- pkg/console/install_panels.go: what the keys do on the disk page, from `validateAllDiskSizes` on.
use harvester_installer.Prelude.{
  Bool, Option, Result, String, [], err, false, if◌then◌else◌, is_empty, length, ltb, map_ok, none,
  not, ok, slice_contains, some, true, ℕ, ◌&&◌, ◌==◌, ◌>>=◌, ◌||◌, ◌∷◌,
}
use harvester_installer.Config.Types.{HarvesterConfig, Install, role_witness}
use harvester_installer.Console.Disks.{get_wipe_disks_options}
use harvester_installer.Console.Validator.Machine.{validate_data_disk_size, validate_disk_size}
use harvester_installer.Console.Validator.Fields.{Check}
use harvester_installer.Util.Disk.{DiskError, parse_partition_size}
use harvester_installer.Console.DiskPage.{
  DiskEnv, DiskPage, Panel, ValidatorMessage, ask_force_mbr_panel, confirm_install_page,
  data_disk_panel, disk_fatal_panel, disk_panel, disk_too_large_for_mbr, network_page,
  partition_check, password_page, persistent_size_panel, set_message, set_note, show_next,
  size_check, wipe_disks_panel, wipe_disks_title_panel,
}

pub data Key : Type 0 where
  key_enter key_arrow_up key_arrow_down key_esc : Key

abbrev pub force_mbr_note : String
force_mbr_note =
    "Note: GPT is used by default. You can use MBR if you encountered compatibility issues."

abbrev pub persistent_size_note : String
persistent_size_note =
    "Note: persistent partition stores data like system package and container images, not the VM data. \nYou can specify a size like 200Gi or 153600Mi. \nLeave it blank to use the default value."

-- The message of a check: none where it passes.
abbrev pub first_fault : Check → Option ValidatorMessage → Option ValidatorMessage
first_fault (err e) rest = some (size_check e)
first_fault (ok _) rest = rest

abbrev pub partition_fault : Result DiskError ℕ → Option ValidatorMessage
partition_fault (err e) = some (partition_check e)
partition_fault (ok _) = none

-- `(valid, nil)` with the page, its message shown where `valid` is false.
abbrev pub report : DiskPage → Option ValidatorMessage → Bool × DiskPage
report p none = (true, p)
report p (some m) = (false, set_message (some m) p)

unfoldable pub close_this_page : DiskPage → DiskPage
close_this_page p =
    let d = p.disk in
    let s = p.data_disk in
    let m = p.force_mbr in
    record p {
      disk = record d { shown = false };
      data_disk = record s { shown = false };
      force_mbr = record m { shown = false };
      note = "";
      message = none;
    }

unfoldable pub goto_prev_page : DiskPage → DiskPage
unfolding close_this_page
goto_prev_page p =
    let q = close_this_page p in record q { disk_confirmed = false; page = password_page }

-- `WipeDisksList = []string{}` and `wipeDisksV.Reset()`, which leaves the values of the list.
unfoldable pub reset_wipe_disks : DiskPage → DiskPage
reset_wipe_disks p =
    let c = p.config in
    let w = p.wipe_disks in
    let i = c.install in
    record p {
      config = record c { install = record i { wipe_disks_list = [] } };
      wipe_disks = record w { selected_indexes = [] };
    }

abbrev pub set_install : Install → DiskPage → DiskPage
set_install i p = let c = p.config in record p { config = record c { install = i } }

module _ (e : DiskEnv) where
  unfoldable pub disk_sizes_fault : HarvesterConfig → Option ValidatorMessage
  disk_sizes_fault c =
      let install_disk = c.install.device in
      let data_disk = c.install.data_disk in
      if c.install.skip_checks
      then none
      else if c.install.role == role_witness
      then first_fault (validate_disk_size e.host install_disk false) none
      else if data_disk == "" || install_disk == data_disk
      then first_fault (validate_disk_size e.host install_disk true) none
      else first_fault (validate_disk_size e.host install_disk false)
          (first_fault (validate_data_disk_size e.host data_disk) none)

  unfoldable pub validate_all_disk_sizes : DiskPage → Bool × DiskPage
  validate_all_disk_sizes p = report p (disk_sizes_fault p.config)

  unfoldable pub validate_persistent_partition_size :
      String → DiskPage → Result String (Bool × DiskPage)
  validate_persistent_partition_size size p =
      let i = p.config.install in
      if i.data_disk == "" || i.device == i.data_disk
      then map_ok
          (λ bytes. report p (partition_fault (parse_partition_size bytes size i.skip_checks)))
          (e.host.get_disk_size_bytes i.device)
      else ok (true, p)

  -- The page is left at the second confirmation only.
  unfoldable pub leave : DiskPage → DiskPage
  leave p =
      if p.disk_confirmed
      then (let q = close_this_page p in
          record q { page = if e.install_mode_only then confirm_install_page else network_page })
      else record p { disk_confirmed = true }

  abbrev pub leave_if : Bool × DiskPage → DiskPage
  leave_if (true, p) = leave p
  leave_if (false, p) = p

  abbrev pub next_page : Bool × DiskPage → Result String DiskPage
  next_page (false, p) = ok p
  next_page (true, p) =
      let i = p.config.install in
      if i.role == role_witness
      then ok (leave (set_install (record i { data_disk = "" }) p))
      else map_ok leave_if (validate_persistent_partition_size i.persistent_partition_size p)

  unfoldable pub goto_next_page : DiskPage → Result String DiskPage
  goto_next_page p = next_page (validate_all_disk_sizes p)

  abbrev pub ask_mbr_or_leave : DiskPage → Result String DiskPage
  ask_mbr_or_leave p =
      if e.system_is_bios
      then show_next e (ask_force_mbr_panel ∷ []) (set_note force_mbr_note p)
      else goto_next_page p

  unfoldable pub is_wipe_disks_panel_needed : DiskPage → Result String DiskPage
  is_wipe_disks_panel_needed p =
      let i = p.config.install in
      if is_empty (get_wipe_disks_options p.cache p.config)
      then ask_mbr_or_leave p
      else show_next e (wipe_disks_title_panel ∷ wipe_disks_panel ∷ []) (
          if slice_contains i.wipe_disks_list i.device
            || slice_contains i.wipe_disks_list i.data_disk
          then reset_wipe_disks p
          else p)

  unfoldable pub disk_confirm : DiskPage → Result String DiskPage
  disk_confirm p0 =
      let i = p0.config.install in
      let device = p0.disk.value in
      let p = set_install (record i { device = device }) (set_message none p0) in
      let witness = i.role == role_witness in
      if ltb 1 (length p.cache.disk_options)
      then (let q = (validate_all_disk_sizes p).1 in
          if witness
          then is_wipe_disks_panel_needed q
          else if device == p.data_disk.value
          then show_next e (persistent_size_panel ∷ data_disk_panel ∷ []) q
          else show_next e (data_disk_panel ∷ []) q)
      else (let r =
            validate_all_disk_sizes (if witness then p else set_note persistent_size_note p) in
          let q = r.1 in
          if witness
          then is_wipe_disks_panel_needed (record q { disk_confirmed = r.0 })
          else show_next e (persistent_size_panel ∷ []) q)

  unfoldable pub data_disk_confirm : DiskPage → Result String DiskPage
  data_disk_confirm p0 =
      let i = p0.config.install in
      let data_disk = p0.data_disk.value in
      let p = set_install (record i { data_disk = data_disk }) (set_message none p0) in
      if p.disk.value == data_disk
      then show_next e (persistent_size_panel ∷ [])
          (validate_all_disk_sizes (set_note persistent_size_note p)).1
      else (let q = (validate_all_disk_sizes p).1 in
          is_wipe_disks_panel_needed (record q { disk_confirmed = true }))

  abbrev pub confirm_size : String → Bool × DiskPage → Result String DiskPage
  confirm_size size (false, p) = ok p
  confirm_size size (true, p) =
      let i = p.config.install in
      let q = set_install (record i { persistent_partition_size = size }) p in
      is_wipe_disks_panel_needed (record q { disk_confirmed = true })

  unfoldable pub persistent_size_confirm : DiskPage → Result String DiskPage
  persistent_size_confirm p = do
    r ← validate_persistent_partition_size p.persistent_size_text (set_message none p)
    confirm_size p.persistent_size_text r

  unfoldable pub wipe_disks_confirm : DiskPage → Result String DiskPage
  wipe_disks_confirm p =
      let i = p.config.install in
      ask_mbr_or_leave (set_install (record i { wipe_disks_list = p.wipe_disks.values }) p)

  unfoldable pub disk_exceeds_mbr_limit : String → Result String Bool
  disk_exceeds_mbr_limit dev = map_ok (λ size. ltb 2199023255040 size) (e.host.lsblk_size dev)

  -- A changed choice asks for another confirmation.
  abbrev pub set_force_mbr : Bool → DiskPage → Result String DiskPage
  set_force_mbr chosen p =
      let i = p.config.install in
      if if chosen then i.force_mbr else not i.force_mbr
      then goto_next_page p
      else ok (set_install (record i { force_mbr = chosen }) p)

  abbrev pub unless_too_large : Bool → DiskPage → Result String DiskPage
  unless_too_large true p = ok (set_message (some disk_too_large_for_mbr) p)
  unless_too_large false p = set_force_mbr true p

  unfoldable pub mbr_confirm : DiskPage → Result String DiskPage
  mbr_confirm p =
      if p.force_mbr.value == "yes"
      then disk_exceeds_mbr_limit p.config.install.device
        >>= (λ too_large. unless_too_large too_large p)
      else set_force_mbr false p

  -- The arrow up of the panels behind the disks.
  unfoldable pub back_to_disks : DiskPage → Result String DiskPage
  back_to_disks p0 =
      let p = record p0 { disk_confirmed = false } in
      if p.config.install.role == role_witness
      then show_next e (disk_panel ∷ []) p
      else if ltb 1 (length p.cache.disk_options) && not (p.disk.value == p.data_disk.value)
      then show_next e (data_disk_panel ∷ []) p
      else show_next e (persistent_size_panel ∷ []) (set_note persistent_size_note p)

  unfoldable pub persistent_size_up : DiskPage → Result String DiskPage
  persistent_size_up p0 =
      let p = set_note "" (set_message none (record p0 { disk_confirmed = false })) in
      show_next e
        ((if ltb 1 (length p.cache.disk_options) then data_disk_panel else disk_panel) ∷ []) p

  -- The binding of a key at the panel that has the focus; other panels have none.
  unfoldable pub press : Panel → Key → DiskPage → Result String DiskPage
  press disk_fatal_panel key_esc p = ok (goto_prev_page p)
  press disk_fatal_panel _ p = ok p
  press disk_panel key_enter p = disk_confirm p
  press disk_panel key_arrow_down p = disk_confirm p
  press disk_panel key_arrow_up p = ok (set_message none p)
  press disk_panel key_esc p = ok (goto_prev_page p)
  press data_disk_panel key_enter p = data_disk_confirm p
  press data_disk_panel key_arrow_down p = data_disk_confirm p
  press data_disk_panel key_arrow_up p =
      show_next e (disk_panel ∷ []) (set_message none (record p { disk_confirmed = false }))
  press data_disk_panel key_esc p = ok (goto_prev_page p)
  press persistent_size_panel key_enter p = persistent_size_confirm p
  press persistent_size_panel key_arrow_down p = persistent_size_confirm p
  press persistent_size_panel key_arrow_up p = persistent_size_up p
  press persistent_size_panel key_esc p = ok (goto_prev_page p)
  press wipe_disks_panel key_enter p = wipe_disks_confirm p
  press wipe_disks_panel key_arrow_down p = wipe_disks_confirm p
  press wipe_disks_panel key_arrow_up p = back_to_disks p
  press wipe_disks_panel key_esc p = ok (goto_prev_page p)
  press ask_force_mbr_panel key_enter p = mbr_confirm p
  press ask_force_mbr_panel key_arrow_down p = mbr_confirm p
  press ask_force_mbr_panel key_arrow_up p = back_to_disks p
  press ask_force_mbr_panel key_esc p = ok (goto_prev_page p)
  press _ _ p = ok p
