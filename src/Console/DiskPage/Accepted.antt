-- ===== src/Console/DiskPage/Accepted.antt =====
-- pkg/console/install_panels.go: what the disk page asks of the disks before it is left.
use mathlib.Core.Path.{subst⁻¹}
use harvester_installer.Prelude.{
  Bool, Option, Result, String, Yields, arith, eq_iff, err, false, if◌then◌else◌, map_ok, none, ok,
  refl, some, true, ℕ, ◌+◌, ◌<◌, ◌==◌, ◌>>◌, ◌^◌, ◌||◌, ◌≡◌, ◌≢◌, ◌≤◌, ◌⊎◌,
}
use harvester_installer.Config.Types.{HarvesterConfig, Install, role_witness}
use harvester_installer.Console.Validator.Machine.{check_disk_sizes, or_too_small}
use harvester_installer.Console.Validator.Sizes.{HasSizes, check_disk_sizes-HasSizes}
use harvester_installer.Console.Validator.Fields.{Check}
use harvester_installer.Util.Disk.Bounds.{parse_partition_size_bounds}
use harvester_installer.Util.Disk.{
  DiskError, fixed_occupied_size, min_persistent_size, parse_partition_size,
}
use harvester_installer.Console.DiskPage.{
  DiskEnv, DiskPage, Page, ValidatorMessage, confirm_install_page, disk_page, network_page,
  password_page, set_message,
}
use harvester_installer.Console.DiskPage.Keys.{
  close_this_page, disk_sizes_fault, first_fault, goto_next_page, leave, leave_if, next_page,
  partition_fault, report, set_install, validate_all_disk_sizes, validate_persistent_partition_size,
}

abbrev pub IsOn : DiskPage → Type 0
IsOn p = p.page ≡ disk_page

-- The pages behind the disk page.
abbrev pub Forward : Page → Type 0
Forward network_page = Unit
Forward confirm_install_page = Unit
Forward _ = ⊥

module _ (e : DiskEnv) where
  -- The persistent partition shares the installation disk.
  abbrev pub Shares : HarvesterConfig → Type 0
  Shares c = (c.install.data_disk ≡ "") ⊎ (c.install.device ≡ c.install.data_disk)

  -- `ParsePartitionSize` gives a number for a size on the installation disk, and with the checks on it
  -- is 150 GiB at least and leaves room for the other partitions.
  abbrev pub HasPartition : HarvesterConfig → String → Type 0
  HasPartition c size =
      let i = c.install in
      (bytes : ℕ) × (n : ℕ) × (e.host.get_disk_size_bytes i.device ≡ ok bytes)
      × (parse_partition_size bytes size i.skip_checks ≡ ok n)
      × (i.skip_checks ≡ false
          → bytes < 2 ^ 64
          → (min_persistent_size ≤ n) × (n + fixed_occupied_size ≤ bytes))

  -- What the page promises of the disks of a configuration.
  pub record Accepted (c : HarvesterConfig) : Type 0 where
    pub sizes : c.install.skip_checks ≡ false → HasSizes e.host c
    pub witness : c.install.role ≡ role_witness → c.install.data_disk ≡ ""
    pub partition :
        c.install.role ≢ role_witness
        → Shares c
        → HasPartition c c.install.persistent_partition_size

  abbrev pub Safe : DiskPage → Type 0
  Safe q = Forward q.page → Accepted q.config

  abbrev pub Leads : Result String DiskPage → Type 0
  Leads r = Yields Unit Safe r

  leave-Safe : (p : DiskPage) → p.page ≡ disk_page → Accepted p.config → Safe (leave e p)
  unfolding leave close_this_page
  leave-Safe p on a = go p.disk_confirmed
    where
      go :
          (b : Bool)
          → Safe (
              if b
              then (let q = close_this_page p in
                  record q {
                    page = if e.install_mode_only then confirm_install_page else network_page;
                  })
              else record p { disk_confirmed = true })
      go true f = a
      go false f = a

  -- The wizard lets sizes pass that the validator lets pass.
  fault-check :
      (w s s' : Bool) (dev other : String) (single multiple second : Check)
      → s ≡ s'
      → (if w
          then first_fault multiple none
          else if s
          then first_fault single none
          else first_fault multiple (first_fault second none))
        ≡ none
      → (if w
          then or_too_small e.host dev multiple
          else if s'
          then or_too_small e.host dev single
          else or_too_small e.host dev multiple >> or_too_small e.host other second)
        ≡ ok tt
  fault-check true s s' dev other single (ok _) second p q = refl
  fault-check true s s' dev other single (err x) second p q = cc
  fault-check false true true dev other (ok _) multiple second p q = refl
  fault-check false true true dev other (err x) multiple second p q = cc
  fault-check false true false dev other single multiple second p q = cc
  fault-check false false true dev other single multiple second p q = cc
  fault-check false false false dev other single (err x) second p q = cc
  fault-check false false false dev other single (ok _) (ok _) p q = refl
  fault-check false false false dev other single (ok _) (err x) p q = cc

  disk_sizes_fault-HasSizes :
      (c : HarvesterConfig)
      → disk_sizes_fault e c ≡ none
      → c.install.skip_checks ≡ false
      → HasSizes e.host c
  unfolding disk_sizes_fault check_disk_sizes
  disk_sizes_fault-HasSizes c p checked = check_disk_sizes-HasSizes e.host c (
      fault-check (c.install.role == role_witness)
        (c.install.data_disk == "" || c.install.device == c.install.data_disk) _ _ _ _ _ _
        (ground (
          arith,
          eq_iff c.install.device c.install.data_disk,
          eq_iff c.install.data_disk c.install.device,
        ))
        (ground arith))

  -- The page that a check gives is as it was where the check passes.
  abbrev pub Fitting : String → DiskPage → Bool × DiskPage → Type 0
  Fitting size p r =
      (r.1.page ≡ p.page)
      × (r.0 ≡ true → (r.1 ≡ p) × (Shares p.config → HasPartition p.config size))

  report-Fitting :
      (size : String) (p : DiskPage) (bytes : ℕ) (r : Result DiskError ℕ)
      → e.host.get_disk_size_bytes p.config.install.device ≡ ok bytes
      → parse_partition_size bytes size p.config.install.skip_checks ≡ r
      → Fitting size p (report p (partition_fault r))
  report-Fitting size p bytes (ok n) b q =
      let fits : p.config.install.skip_checks ≡ false
          → bytes < 2 ^ 64
          → (min_persistent_size ≤ n) × (n + fixed_occupied_size ≤ bytes) =
        λ checked small.
          let bounds = parse_partition_size_bounds bytes size small (rw checked at q) in
          (bounds.1, bounds.2) in
      (refl, λ _. (refl, λ _. (bytes, n, b, q, fits)))
  report-Fitting size p bytes (err x) b q = (refl, λ h. cc h)

  pub persistent-Fitting :
      (size : String) (p : DiskPage)
      → Yields Unit (Fitting size p) (validate_persistent_partition_size e size p)
  unfolding validate_persistent_partition_size
  persistent-Fitting size p = go _ _ (λ h s. no s h) refl
    where
      i : Install
      i = p.config.install

      no : Shares p.config → i.data_disk == "" || i.device == i.data_disk ≡ false → ⊥
      no s h = ground (arith, eq_iff i.data_disk "", eq_iff i.device i.data_disk)

      go :
          (b : Bool) (size_of_disk : Result String ℕ)
          → (b ≡ false → Shares p.config → ⊥)
          → e.host.get_disk_size_bytes i.device ≡ size_of_disk
          → Yields Unit (Fitting size p) (
              if b
              then map_ok
                  (λ bytes.
                    report p (partition_fault (parse_partition_size bytes size i.skip_checks)))
                  size_of_disk
              else ok (true, p))
      go false r n q = (refl, λ _. (refl, λ s. absurd (n refl s)))
      go true (err x) n q = tt
      go true (ok bytes) n q = report-Fitting size p bytes _ q refl

  pub map_ok-Yields :
      {A B : Type 0} (P : A → Type 0) (Q : B → Type 0) (f : A → B) (r : Result String A)
      → Yields Unit P r
      → ((a : A) → P a → Q (f a))
      → Yields Unit Q (map_ok f r)
  map_ok-Yields P Q f (ok a) h g = g a h
  map_ok-Yields P Q f (err x) h g = tt

  pub on-Safe : (p : DiskPage) → p.page ≡ disk_page → Safe p
  on-Safe p on f = absurd (go p.page on f)
    where
      go : (at : Page) → at ≡ disk_page → Forward at → ⊥
      go network_page q g = cc q
      go confirm_install_page q g = cc q
      go disk_page q g = g
      go password_page q g = g

  witness-Accepted :
      (c : HarvesterConfig)
      → c.install.role ≡ role_witness
      → disk_sizes_fault e c ≡ none
      → Accepted (let i = c.install in record c { install = record i { data_disk = "" } })
  witness-Accepted c w fault = record {
    sizes = λ checked.
        let h = disk_sizes_fault-HasSizes c fault checked in
        record { witness = h.witness; shared = λ n. absurd (n w); separate = λ n. absurd (n w) };
    witness = λ _. refl;
    partition = λ n. absurd (n w);
  }

  pub goto_next_page-Safe : (p : DiskPage) → p.page ≡ disk_page → Leads (goto_next_page e p)
  unfolding goto_next_page validate_all_disk_sizes
  goto_next_page-Safe p on = checked _ refl
    where
      i : Install
      i = p.config.install

      left :
          (r : Bool × DiskPage)
          → (i.role ≡ role_witness → ⊥)
          → disk_sizes_fault e p.config ≡ none
          → Fitting i.persistent_partition_size p r
          → Safe (leave_if e r)
      left (false, q) ne sizes (same, fit) = on-Safe q cc
      left (true, q) ne sizes (same, fit) =
          let a : Accepted p.config = record {
            sizes = disk_sizes_fault-HasSizes p.config sizes;
            witness = λ w. absurd (ne w);
            partition = λ _ s. (fit refl).1 s;
          } in
          subst⁻¹ (λ z. Safe (leave e z)) (fit refl).0 (leave-Safe p on a)

      chosen :
          (b : Bool)
          → i.role == role_witness ≡ b
          → disk_sizes_fault e p.config ≡ none
          → Leads (
              if b
              then ok (leave e (set_install (record i { data_disk = "" }) p))
              else map_ok
                  (leave_if e)
                  (validate_persistent_partition_size e i.persistent_partition_size p))
      chosen true w sizes =
          leave-Safe _ on
            (witness-Accepted p.config (ground (arith, eq_iff i.role role_witness)) sizes)
      chosen false w sizes =
          map_ok-Yields _ _ _ _ (persistent-Fitting i.persistent_partition_size p)
            (λ r fit. left r (λ q. ground (arith, eq_iff i.role role_witness)) sizes fit)

      checked :
          (m : Option ValidatorMessage)
          → disk_sizes_fault e p.config ≡ m
          → Leads (next_page e (report p m))
      checked none sizes = chosen _ refl sizes
      checked (some m) sizes = on-Safe (set_message (some m) p) on

  pub map_ok-always :
      {A B : Type 0} (Q : B → Type 0) (f : A → B) (r : Result String A)
      → ((a : A) → Q (f a))
      → Yields Unit Q (map_ok f r)
  map_ok-always Q f (ok a) g = g a
  map_ok-always Q f (err x) g = tt
