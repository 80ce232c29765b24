-- ===== src/Console/Disks/Unique.antt =====
-- pkg/console/util.go: `filterUniqueDisks`.
use harvester_installer.Prelude.{
  All, Among, Bool, Bool-cases, List, String, [], arith, eq_iff, false, if◌then◌else◌, inl, inr,
  refl, true, ◌&&◌, ◌==◌, ◌||◌, ◌∷◌, ◌≡◌,
}
use harvester_installer.Console.Disks.{
  Device, DeviceMap, dedup, dedup_step, disk_type, filter_unique_disks, has_key, name_of, put,
  put_new, results_by_name, serial_of, wwn_of,
}

abbrev pub Distinct : DeviceMap → Type 0
Distinct [] = Unit
Distinct ((k, d) ∷ m) = (has_key k m ≡ false) × Distinct m

pub has_key-put :
    (k j : String) (d : Device) (m : DeviceMap) → has_key j (put k d m) ≡ (k == j || has_key j m)
unfolding has_key put
has_key-put k j d [] = refl
has_key-put k j d ((i, e) ∷ m) =
    ground (arith, eq_iff k j, eq_iff i k, eq_iff i j, has_key-put k j d m)

put-Distinct : (k : String) (d : Device) (m : DeviceMap) → Distinct m → Distinct (put k d m)
unfolding put has_key
put-Distinct k d [] h = (refl, tt)
put-Distinct k d ((i, e) ∷ m) h =
    ground (arith, eq_iff i k, eq_iff k i, has_key-put k i d m, put-Distinct k d m)

results_by_name-Distinct : (m r : DeviceMap) → Distinct r → Distinct (results_by_name m r)
unfolding results_by_name
results_by_name-Distinct [] r h = h
results_by_name-Distinct ((k, d) ∷ m) r h =
    results_by_name-Distinct m (put (name_of d) d r) (put-Distinct (name_of d) d r h)

module _ (P : String × Device → Type 0) where
  pub All-put : (k : String) (d : Device) (m : DeviceMap) → P (k, d) → All P m → All P (put k d m)
  unfolding put
  All-put k d [] p h = (p, tt)
  All-put k d ((i, e) ∷ m) p h = elim (Bool-cases (i == k)) [
    | inl same ↦ rw same (p, h.1)
    | inr other ↦ rw other (h.0, All-put k d m p h.1)
  ]

  pub All-if : (b : Bool) (m r : DeviceMap) → All P m → All P r → All P (if b then m else r)
  All-if true m r h k = h
  All-if false m r h k = k

  All-put_new :
      (k : String) (d : Device) (m : DeviceMap) → P (k, d) → All P m → All P (put_new k d m)
  unfolding put_new
  All-put_new k d m p h = All-if (has_key k m) _ _ h (All-put k d m p h)

-- A disk of the input, under a key of its own.
abbrev pub IsDisk : List Device → Device → Type 0
IsDisk disks d = Among d disks × (disk_type d ≡ "disk")

module _ (P : Device → Type 0) where
  abbrev pub Holds : String × Device → Type 0
  Holds e = P e.1

  dedup_disk-All :
      (d : Device) (m : DeviceMap)
      → disk_type d ≡ "disk"
      → P d
      → All Holds m
      → All Holds (dedup_step d m)
  unfolding dedup_step
  dedup_disk-All d m disk p h =
      let serial_kept =
        All-if Holds (serial_of d == "") _ _ h (All-put_new Holds (serial_of d) d m p h) in
      rw ((eq_iff _ _).1 disk) (
        All-if Holds (wwn_of d == "" && serial_of d == "") _ _ (All-put Holds (name_of d) d m p h) (
          All-if Holds (wwn_of d == "") _ _ serial_kept
            (All-put_new Holds (wwn_of d) d _ p serial_kept)))

  dedup_step-All :
      (d : Device) (m : DeviceMap)
      → (disk_type d ≡ "disk" → P d)
      → All Holds m
      → All Holds (dedup_step d m)
  dedup_step-All d m p h = elim (Bool-cases (disk_type d == "disk")) [
    | inl e ↦ let disk = (eq_iff _ _).0 e in dedup_disk-All d m disk (p disk) h
    | inr e ↦ unfold dedup_step in rw e h
  ]

  pub dedup-All :
      (ds : List Device) (m : DeviceMap)
      → All (λ d. disk_type d ≡ "disk" → P d) ds
      → All Holds m
      → All Holds (dedup ds m)
  unfolding dedup
  dedup-All [] m p h = h
  dedup-All (d ∷ ds) m p h = dedup-All ds (dedup_step d m) p.1 (dedup_step-All d m p.0 h)

  abbrev pub HoldsAtName : String × Device → Type 0
  HoldsAtName e = (e.0 ≡ name_of e.1) × P e.1

  pub results_by_name-All :
      (m r : DeviceMap) → All Holds m → All HoldsAtName r → All HoldsAtName (results_by_name m r)
  unfolding results_by_name
  results_by_name-All [] r h k = k
  results_by_name-All ((_, d) ∷ m) r h k =
      results_by_name-All m (put (name_of d) d r) h.1
        (All-put HoldsAtName (name_of d) d r (refl, h.0) k)

pub All-Among :
    (whole ds : List Device)
    → ((d : Device) → Among d ds → Among d whole)
    → All (λ d. disk_type d ≡ "disk" → IsDisk whole d) ds
All-Among whole [] h = tt
All-Among whole (d ∷ ds) h = (λ t. (h d (inl refl), t), All-Among whole ds (λ e m. h e (inr m)))

-- The disks that are left have distinct names, under which they stand in the map, and each of them
-- is a device of the input of type `disk`.
pub filter_unique_disks-Distinct :
    (disks : List Device)
    → Distinct (filter_unique_disks disks)
      × All (λ e. (e.0 ≡ name_of e.1) × IsDisk disks e.1) (filter_unique_disks disks)
unfolding filter_unique_disks
filter_unique_disks-Distinct disks = (
  results_by_name-Distinct (dedup disks []) [] tt,
  results_by_name-All (IsDisk disks) (dedup disks []) []
      (dedup-All (IsDisk disks) disks [] (All-Among disks disks (λ d m. m)) tt) tt,
)
