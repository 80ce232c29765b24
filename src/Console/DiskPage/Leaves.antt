-- ===== src/Console/DiskPage/Leaves.antt =====
-- pkg/console/install_panels.go: what holds of the disks when a key leaves the disk page for the next.
use mathlib.Core.Path.{subst}
use harvester_installer.Prelude.{
  Bool, List, Option, Result, String, Yields, [], bind-Yields, err, false, if◌then◌else◌, none, ok,
  refl, some, true, ◌==◌, ◌>>=◌, ◌∙◌, ◌∷◌, ◌≡◌,
}
use harvester_installer.Console.Disks.{get_data_disk_options}
use harvester_installer.Console.DiskPage.{
  DiskEnv, DiskPage, Panel, ValidatorMessage, ask_force_mbr_panel, ask_force_mbr_title_panel,
  data_disk_panel, disk_fatal_panel, disk_note_panel, disk_page, disk_panel, disk_too_large_for_mbr,
  offered, persistent_size_panel, preset_persistent_size, set_message, set_note, show, show_next,
  wipe_disks_panel, wipe_disks_title_panel,
}
use harvester_installer.Console.DiskPage.Keys.{
  Key, ask_mbr_or_leave, back_to_disks, close_this_page, confirm_size, data_disk_confirm,
  disk_confirm, disk_sizes_fault, force_mbr_note, goto_next_page, goto_prev_page,
  is_wipe_disks_panel_needed, key_arrow_down, key_arrow_up, key_enter, key_esc, mbr_confirm,
  persistent_size_confirm, persistent_size_note, persistent_size_up, press, report,
  reset_wipe_disks, set_force_mbr, set_install, unless_too_large, validate_all_disk_sizes,
  wipe_disks_confirm,
}
use harvester_installer.Console.DiskPage.Accepted.{
  Accepted, Fitting, Forward, Leads, Safe, goto_next_page-Safe, map_ok-always, on-Safe,
  persistent-Fitting,
}

module _ (e : DiskEnv) where
  -- What shows panels, and what a check shows, stays on the page.
  show-page : (name : Panel) (p : DiskPage) → Yields Unit (λ q. q.page ≡ p.page) (show e name p)
  unfolding show
  show-page disk_fatal_panel p = refl
  show-page disk_panel p = refl
  show-page data_disk_panel p =
      map_ok-always e _ _ (offered e (get_data_disk_options p.cache p.config)) (λ _. refl)
  show-page persistent_size_panel p = map_ok-always e _ _ (preset_persistent_size e p) (λ _. refl)
  show-page ask_force_mbr_title_panel p = refl
  show-page ask_force_mbr_panel p = refl
  show-page disk_note_panel p = refl
  show-page wipe_disks_title_panel p = refl
  show-page wipe_disks_panel p = refl

  show_next-Safe :
      (names : List Panel) (p : DiskPage) → p.page ≡ disk_page → Leads e (show_next e names p)
  unfolding show_next
  show_next-Safe [] p on = on-Safe e p on
  show_next-Safe (name ∷ names) p on =
      bind-Yields Unit (λ q. q.page ≡ p.page) (Safe e) (show e name p) _ (show-page name p)
        (λ q same. show_next-Safe names q cc)

  validate-stays :
      (p : DiskPage) → p.page ≡ disk_page → (validate_all_disk_sizes e p).1.page ≡ disk_page
  unfolding validate_all_disk_sizes
  validate-stays p on = go (disk_sizes_fault e p.config)
    where
      go : (m : Option ValidatorMessage) → (report p m).1.page ≡ disk_page
      go none = on
      go (some m) = on

  set_note-stays :
      (content : String) (p : DiskPage) → p.page ≡ disk_page → (set_note content p).page ≡ disk_page
  unfolding set_note
  set_note-stays content p on = go (content == "") (p.note == "")
    where
      go :
          (a b : Bool)
          → (if a
              then record p { note = "" }
              else if b
              then record p { note = content; focus = disk_note_panel }
              else record p { note = content }).page
            ≡ disk_page
      go true b = on
      go false true = on
      go false false = on

  ask_mbr_or_leave-Safe : (p : DiskPage) → p.page ≡ disk_page → Leads e (ask_mbr_or_leave e p)
  ask_mbr_or_leave-Safe p on = go e.system_is_bios
    where
      go :
          (b : Bool)
          → Leads e (
              if b
              then show_next e (ask_force_mbr_panel ∷ []) (set_note force_mbr_note p)
              else goto_next_page e p)
      go true = show_next-Safe _ _ (set_note-stays force_mbr_note p on)
      go false = goto_next_page-Safe e p on

  is_wipe_disks_panel_needed-Safe :
      (p : DiskPage) → p.page ≡ disk_page → Leads e (is_wipe_disks_panel_needed e p)
  unfolding is_wipe_disks_panel_needed reset_wipe_disks
  is_wipe_disks_panel_needed-Safe p on = go _ _
    where
      reset : (b : Bool) → (if b then reset_wipe_disks p else p).page ≡ disk_page
      reset true = on
      reset false = on

      go :
          (none_left b : Bool)
          → Leads e (
              if none_left
              then ask_mbr_or_leave e p
              else show_next e
                  (wipe_disks_title_panel ∷ wipe_disks_panel ∷ [])
                  (if b then reset_wipe_disks p else p))
      go true b = ask_mbr_or_leave-Safe p on
      go false b = show_next-Safe _ _ (reset b)

  disk_confirm-Safe : (p : DiskPage) → p.page ≡ disk_page → Leads e (disk_confirm e p)
  unfolding disk_confirm
  disk_confirm-Safe p0 on = go _ _ _
    where
      p : DiskPage
      p =
          let i = p0.config.install in
          set_install (record i { device = p0.disk.value }) (set_message none p0)

      noted : (b : Bool) → (if b then p else set_note persistent_size_note p).page ≡ disk_page
      noted true = on
      noted false = set_note-stays persistent_size_note p on

      go :
          (several witness same : Bool)
          → Leads e (
              if several
              then (let q = (validate_all_disk_sizes e p).1 in
                  if witness
                  then is_wipe_disks_panel_needed e q
                  else if same
                  then show_next e (persistent_size_panel ∷ data_disk_panel ∷ []) q
                  else show_next e (data_disk_panel ∷ []) q)
              else (let r =
                    validate_all_disk_sizes e
                      (if witness then p else set_note persistent_size_note p) in
                  let q = r.1 in
                  if witness
                  then is_wipe_disks_panel_needed e (record q { disk_confirmed = r.0 })
                  else show_next e (persistent_size_panel ∷ []) q))
      go true true same = is_wipe_disks_panel_needed-Safe _ (validate-stays p on)
      go true false true = show_next-Safe _ _ (validate-stays p on)
      go true false false = show_next-Safe _ _ (validate-stays p on)
      go false true same = is_wipe_disks_panel_needed-Safe _ (validate-stays _ (noted true))
      go false false same = show_next-Safe _ _ (validate-stays _ (noted false))

  data_disk_confirm-Safe : (p : DiskPage) → p.page ≡ disk_page → Leads e (data_disk_confirm e p)
  unfolding data_disk_confirm
  data_disk_confirm-Safe p0 on = go _
    where
      p : DiskPage
      p =
          let i = p0.config.install in
          set_install (record i { data_disk = p0.data_disk.value }) (set_message none p0)

      go :
          (same : Bool)
          → Leads e (
              if same
              then show_next e
                  (persistent_size_panel ∷ [])
                  (validate_all_disk_sizes e (set_note persistent_size_note p)).1
              else (let q = (validate_all_disk_sizes e p).1 in
                  is_wipe_disks_panel_needed e (record q { disk_confirmed = true })))
      go true = show_next-Safe _ _ (validate-stays _ (set_note-stays persistent_size_note p on))
      go false = is_wipe_disks_panel_needed-Safe _ (validate-stays p on)

  persistent_size_confirm-Safe :
      (p : DiskPage) → p.page ≡ disk_page → Leads e (persistent_size_confirm e p)
  unfolding persistent_size_confirm
  persistent_size_confirm-Safe p on =
      bind-Yields Unit (Fitting e p.persistent_size_text (set_message none p)) (Safe e) _ _
        (persistent-Fitting e p.persistent_size_text (set_message none p)) go
    where
      go :
          (r : Bool × DiskPage)
          → Fitting e p.persistent_size_text (set_message none p) r
          → Leads e (confirm_size e p.persistent_size_text r)
      go (false, q) (same, fit) = on-Safe e q (same ∙ on)
      go (true, q) (same, fit) = is_wipe_disks_panel_needed-Safe _ (same ∙ on)

  wipe_disks_confirm-Safe : (p : DiskPage) → p.page ≡ disk_page → Leads e (wipe_disks_confirm e p)
  unfolding wipe_disks_confirm
  wipe_disks_confirm-Safe p on = ask_mbr_or_leave-Safe _ on

  set_force_mbr-Safe :
      (chosen : Bool) (p : DiskPage) → p.page ≡ disk_page → Leads e (set_force_mbr e chosen p)
  set_force_mbr-Safe chosen p on = go _
    where
      go :
          (kept : Bool)
          → Leads e (
              if kept
              then goto_next_page e p
              else ok (let i = p.config.install in set_install (record i { force_mbr = chosen }) p))
      go true = goto_next_page-Safe e p on
      go false =
          on-Safe e (let i = p.config.install in set_install (record i { force_mbr = chosen }) p) on

  unless_too_large-Safe :
      (large : Bool) (p : DiskPage) → p.page ≡ disk_page → Leads e (unless_too_large e large p)
  unless_too_large-Safe true p on = on-Safe e (set_message (some disk_too_large_for_mbr) p) on
  unless_too_large-Safe false p on = set_force_mbr-Safe true p on

  mbr_confirm-Safe : (p : DiskPage) → p.page ≡ disk_page → Leads e (mbr_confirm e p)
  unfolding mbr_confirm
  mbr_confirm-Safe p on = go _ _
    where
      go :
          (chosen : Bool) (size : Result String Bool)
          → Leads e (
              if chosen
              then size >>= (λ too_large. unless_too_large e too_large p)
              else set_force_mbr e false p)
      go true (ok large) = unless_too_large-Safe large p on
      go true (err x) = tt
      go false size = set_force_mbr-Safe false p on

  back_to_disks-Safe : (p : DiskPage) → p.page ≡ disk_page → Leads e (back_to_disks e p)
  unfolding back_to_disks
  back_to_disks-Safe p0 on = go _ _
    where
      p : DiskPage
      p = record p0 { disk_confirmed = false }

      go :
          (witness apart : Bool)
          → Leads e (
              if witness
              then show_next e (disk_panel ∷ []) p
              else if apart
              then show_next e (data_disk_panel ∷ []) p
              else show_next e (persistent_size_panel ∷ []) (set_note persistent_size_note p))
      go true apart = show_next-Safe _ p on
      go false true = show_next-Safe _ p on
      go false false = show_next-Safe _ _ (set_note-stays persistent_size_note p on)

  persistent_size_up-Safe : (p : DiskPage) → p.page ≡ disk_page → Leads e (persistent_size_up e p)
  unfolding persistent_size_up
  persistent_size_up-Safe p on =
      show_next-Safe _ _
        (set_note-stays "" (set_message none (record p { disk_confirmed = false })) on)

  -- The key that goes back leads to the page of the password, which lies before.
  goto_prev_page-Safe : (p : DiskPage) → Safe e (goto_prev_page p)
  unfolding goto_prev_page close_this_page
  goto_prev_page-Safe p f = absurd f

  press-Safe :
      (name : Panel) (key : Key) (p : DiskPage) → p.page ≡ disk_page → Leads e (press e name key p)
  unfolding press
  press-Safe disk_fatal_panel key_enter p on = on-Safe e p on
  press-Safe disk_fatal_panel key_arrow_up p on = on-Safe e p on
  press-Safe disk_fatal_panel key_arrow_down p on = on-Safe e p on
  press-Safe disk_fatal_panel key_esc p on = goto_prev_page-Safe p
  press-Safe disk_panel key_enter p on = disk_confirm-Safe p on
  press-Safe disk_panel key_arrow_down p on = disk_confirm-Safe p on
  press-Safe disk_panel key_arrow_up p on = on-Safe e (set_message none p) on
  press-Safe disk_panel key_esc p on = goto_prev_page-Safe p
  press-Safe data_disk_panel key_enter p on = data_disk_confirm-Safe p on
  press-Safe data_disk_panel key_arrow_down p on = data_disk_confirm-Safe p on
  press-Safe data_disk_panel key_arrow_up p on = show_next-Safe _ _ on
  press-Safe data_disk_panel key_esc p on = goto_prev_page-Safe p
  press-Safe persistent_size_panel key_enter p on = persistent_size_confirm-Safe p on
  press-Safe persistent_size_panel key_arrow_down p on = persistent_size_confirm-Safe p on
  press-Safe persistent_size_panel key_arrow_up p on = persistent_size_up-Safe p on
  press-Safe persistent_size_panel key_esc p on = goto_prev_page-Safe p
  press-Safe wipe_disks_panel key_enter p on = wipe_disks_confirm-Safe p on
  press-Safe wipe_disks_panel key_arrow_down p on = wipe_disks_confirm-Safe p on
  press-Safe wipe_disks_panel key_arrow_up p on = back_to_disks-Safe p on
  press-Safe wipe_disks_panel key_esc p on = goto_prev_page-Safe p
  press-Safe ask_force_mbr_panel key_enter p on = mbr_confirm-Safe p on
  press-Safe ask_force_mbr_panel key_arrow_down p on = mbr_confirm-Safe p on
  press-Safe ask_force_mbr_panel key_arrow_up p on = back_to_disks-Safe p on
  press-Safe ask_force_mbr_panel key_esc p on = goto_prev_page-Safe p
  press-Safe ask_force_mbr_title_panel key p on = on-Safe e p on
  press-Safe disk_note_panel key p on = on-Safe e p on
  press-Safe wipe_disks_title_panel key p on = on-Safe e p on

  -- A key that leaves the disk page for a page behind it leaves an accepted configuration: unless
  -- checks are skipped the disks have the sizes that the validator asks; a witness node has no data
  -- disk; and where VM data shares the installation disk, `ParsePartitionSize` accepts the persistent
  -- size for the size of that disk, and unless checks are skipped (and the disk size is below 2 ^ 64)
  -- the partition has 150 GiB at least and fits on the disk beside the others.
  pub press-Accepted :
      (name : Panel) (key : Key) (p q : DiskPage)
      → p.page ≡ disk_page
      → press e name key p ≡ ok q
      → Forward q.page
      → Accepted e q.config
  press-Accepted name key p q on r = subst (Leads e) r (press-Safe name key p on)
