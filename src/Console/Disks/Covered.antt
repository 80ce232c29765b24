-- ===== src/Console/Disks/Covered.antt =====
-- pkg/console/util.go: which disks `filterUniqueDisks` keeps of those that are one disk.
use harvester_installer.Prelude.{
  All, Among, Bool, Bool-cases, List, String, [], ap, arith, eq_iff, false, if◌then◌else◌, inl, inr,
  not, refl, sym, true, ◌&&◌, ◌==◌, ◌||◌, ◌∙◌, ◌∷◌, ◌≡◌, ◌⊎◌,
}
use harvester_installer.Console.Disks.{
  Device, DeviceMap, dedup, dedup_step, disk_type, filter_unique_disks, has_key, name_of, put,
  put_new, results_by_name, serial_of, wwn_of,
}
use harvester_installer.Console.Disks.Unique.{
  All-Among, All-put, Distinct, IsDisk, dedup-All, filter_unique_disks-Distinct, has_key-put,
  results_by_name-All,
}

abbrev pub is_bare : Device → Bool
is_bare d = wwn_of d == "" && serial_of d == ""

-- Whether a text identifies a disk: its serial number or its WWN, or its name where it has neither.
abbrev pub has_id : String → Device → Bool
has_id k d =
    disk_type d == "disk"
    && (if is_bare d
        then name_of d == k
        else ((not (serial_of d == "") && serial_of d == k)
            || (not (wwn_of d == "") && wwn_of d == k)))

-- The device stands in the list behind no disk that the text identifies.
abbrev pub IsFirstOf : String → Device → List Device → Type 0
IsFirstOf k d [] = ⊥
IsFirstOf k d (x ∷ xs) = (d ≡ x) ⊎ ((has_id k x ≡ false) × IsFirstOf k d xs)

-- A text identifies the disk, and it is the first that it identifies, or has no other identifier than
-- its name.
abbrev pub IsNew : List Device → Device → Type 0
IsNew disks d = (k : String) × (has_id k d ≡ true) × ((is_bare d ≡ true) ⊎ IsFirstOf k d disks)

has_key-put_new :
    (k j : String) (d : Device) (m : DeviceMap)
    → has_key j (put_new k d m) ≡ (k == j || has_key j m)
unfolding put_new
has_key-put_new k j d m = elim (Bool-cases (has_key k m)) [
  | inl e ↦ elim (Bool-cases (k == j)) [
    | inl same ↦ let is = (eq_iff k j).0 same in rw (e, same) (rw is at e)
    | inr other ↦ rw (e, other) refl
  ]
  | inr e ↦ rw e (has_key-put k j d m)
]

has_key-dedup_step :
    (j : String) (d : Device) (m : DeviceMap)
    → has_key j (dedup_step d m) ≡ (has_id j d || has_key j m)
unfolding dedup_step
has_key-dedup_step j d m =
    let by_serial = put_new (serial_of d) d m in
    ground (
      arith,
      has_key-put (name_of d) j d m,
      has_key-put_new (serial_of d) j d m,
      has_key-put_new (wwn_of d) j d m,
      has_key-put_new (wwn_of d) j d (put_new (serial_of d) d m),
    )

has_key-dedup :
    (j : String) (ds : List Device) (m : DeviceMap)
    → (has_key j m ≡ true) ⊎ ((d : Device) × Among d ds × (has_id j d ≡ true))
    → has_key j (dedup ds m) ≡ true
unfolding dedup
has_key-dedup j [] m (inl h) = h
has_key-dedup j [] m (inr h) = absurd h.1
has_key-dedup j (x ∷ ds) m (inl h) =
    has_key-dedup j ds (dedup_step x m) (inl (has_key-dedup_step j x m ∙ ground (arith, h)))
has_key-dedup j (x ∷ ds) m (inr (d, inl same, h)) =
    has_key-dedup j ds (dedup_step x m)
      (inl (has_key-dedup_step j x m ∙ ground (arith, ap (has_id j) (sym same) ∙ h)))
has_key-dedup j (x ∷ ds) m (inr (d, inr a, h)) = has_key-dedup j ds (dedup_step x m) (inr (d, a, h))

has_key-results_by_name :
    (j : String) (m r : DeviceMap)
    → (has_key j r ≡ true) ⊎ ((e : String × Device) × Among e m × (name_of e.1 ≡ j))
    → has_key j (results_by_name m r) ≡ true
unfolding results_by_name
has_key-results_by_name j [] r (inl h) = h
has_key-results_by_name j [] r (inr h) = absurd h.1
has_key-results_by_name j ((k, d) ∷ m) r (inl h) =
    has_key-results_by_name j m (put (name_of d) d r)
      (inl (has_key-put (name_of d) j d r ∙ ground (arith, h)))
has_key-results_by_name j ((k, d) ∷ m) r (inr (e, inl same, h)) =
    let named : name_of d ≡ j = ap (λ (x : String × Device). name_of x.1) (sym same) ∙ h in
    has_key-results_by_name j m (put (name_of d) d r)
      (inl (has_key-put (name_of d) j d r ∙ ground (arith, (eq_iff (name_of d) j).1 named)))
has_key-results_by_name j ((k, d) ∷ m) r (inr (e, inr a, h)) =
    has_key-results_by_name j m (put (name_of d) d r) (inr (e, a, h))

-- An entry of the map that is filled while the disks are read.
module _ (whole : List Device) where
  abbrev IsEntry : String × Device → Type 0
  IsEntry e = (has_id e.0 e.1 ≡ true) × ((is_bare e.1 ≡ true) ⊎ IsFirstOf e.0 e.1 whole)

  put_new-IsEntry :
      (k : String) (d : Device) (m : DeviceMap)
      → (has_key k m ≡ false → IsEntry (k, d))
      → All IsEntry m
      → All IsEntry (put_new k d m)
  unfolding put_new
  put_new-IsEntry k d m new h = elim (Bool-cases (has_key k m)) [
    | inl e ↦ rw e h
    | inr e ↦ rw e (All-put IsEntry k d m (new e) h)
  ]

  -- A disk is entered under an identifier that the map does not have, or under its name alone.
  disk_step-IsEntry :
      (d : Device) (m : DeviceMap)
      → (disk_type d == "disk") ≡ true
      → ((k : String) → has_key k m ≡ false → has_id k d ≡ true → IsFirstOf k d whole)
      → All IsEntry m
      → All IsEntry (dedup_step d m)
  unfolding dedup_step
  disk_step-IsEntry d m disk first h = elim (Bool-cases (is_bare d)) [
    | inl bare ↦
        let named : has_id (name_of d) d ≡ true =
          ground (arith, (eq_iff (name_of d) (name_of d)).1 refl) in
        rw (disk, bare) (All-put IsEntry (name_of d) d m (named, inl bare) h)
    | inr some_id ↦
        let serial : (serial_of d == "") ≡ false → has_id (serial_of d) d ≡ true =
          λ given. ground (arith, (eq_iff (serial_of d) (serial_of d)).1 refl) in
        let wwn : (wwn_of d == "") ≡ false → has_id (wwn_of d) d ≡ true =
          λ given. ground (arith, (eq_iff (wwn_of d) (wwn_of d)).1 refl) in
        elim (Bool-cases (serial_of d == "")) [
          | inl s ↦ elim (Bool-cases (wwn_of d == "")) [
            | inl w ↦ absurd (ground arith)
            | inr w ↦
                rw (disk, s, w)
                  (put_new-IsEntry (wwn_of d) d m (λ f. (wwn w, inr (first (wwn_of d) f (wwn w))))
                    h)
          ]
          | inr s ↦
              let by_serial =
                put_new-IsEntry (serial_of d) d m
                  (λ f. (serial s, inr (first (serial_of d) f (serial s)))) h in
              elim (Bool-cases (wwn_of d == "")) [
                | inl w ↦ rw (disk, s, w) by_serial
                | inr w ↦
                    rw (disk, s, w)
                      (put_new-IsEntry (wwn_of d) d (put_new (serial_of d) d m)
                        (λ f.
                          let free : has_key (wwn_of d) m ≡ false =
                            ground (arith, has_key-put_new (serial_of d) (wwn_of d) d m) in
                          (wwn w, inr (first (wwn_of d) free (wwn w))))
                        by_serial)
              ]
        ]
  ]

  dedup_step-IsEntry :
      (d : Device) (m : DeviceMap)
      → ((k : String) → has_key k m ≡ false → has_id k d ≡ true → IsFirstOf k d whole)
      → All IsEntry m
      → All IsEntry (dedup_step d m)
  dedup_step-IsEntry d m first h = elim (Bool-cases (disk_type d == "disk")) [
    | inl disk ↦ disk_step-IsEntry d m disk first h
    | inr other ↦ unfold dedup_step in rw other h
  ]

  -- What the map does not have yet stands first in the rest exactly if it does in the whole.
  dedup-IsEntry :
      (ds : List Device) (m : DeviceMap)
      → ((k : String) (d : Device) → has_key k m ≡ false → IsFirstOf k d ds → IsFirstOf k d whole)
      → All IsEntry m
      → All IsEntry (dedup ds m)
  unfolding dedup
  dedup-IsEntry [] m lift h = h
  dedup-IsEntry (x ∷ ds) m lift h =
      dedup-IsEntry ds (dedup_step x m)
        (λ k d f later.
          let both = has_key-dedup_step k x m in
          lift k d (ground (arith, both)) (inr (ground (arith, both), later)))
        (dedup_step-IsEntry x m (λ k f own. lift k x f (inl refl)) h)

  entry_of :
      (k : String) (m : DeviceMap)
      → has_key k m ≡ true
      → All IsEntry m
      → (e : String × Device) × Among e m × (has_id k e.1 ≡ true)
  unfolding has_key
  entry_of k [] h all = cc h
  entry_of k ((j, d) ∷ m) h all = elim (Bool-cases (j == k)) [
    | inl same ↦ ((j, d), inl refl, ap (λ i. has_id i d) (sym ((eq_iff j k).0 same)) ∙ all.0.0)
    | inr other ↦ let (e, at, own) = entry_of k m (ground arith) all.1 in (e, inr at, own)
  ]

  IsEntry-IsNew : (m : DeviceMap) → All IsEntry m → All (λ e. IsNew whole e.1) m
  IsEntry-IsNew [] h = tt
  IsEntry-IsNew (e ∷ m) h = ((e.0, h.0.0, h.0.1), IsEntry-IsNew m h.1)

All-at : {A : Type 0} (P : A → Type 0) (x : A) (xs : List A) → All P xs → Among x xs → P x
All-at P x (y ∷ ys) h (inl same) = rw same h.0
All-at P x (y ∷ ys) h (inr a) = All-at P x ys h.1 a
All-at P x [] h a = absurd a

-- The disks that are left have distinct names, under which they stand in the map, and each is a device
-- of the input of type `disk`. A text identifies it (its serial number, its WWN or, without both, its
-- name), and unless it has neither of the two, the text identifies no device before it in the input.
-- And for each text that identifies a device of the input, it identifies one of which the name is left.
pub filter_unique_disks-Covers :
    (disks : List Device)
    → Distinct (filter_unique_disks disks)
      × All (λ e. (e.0 ≡ name_of e.1) × IsDisk disks e.1) (filter_unique_disks disks)
      × All (λ e. (e.0 ≡ name_of e.1) × IsNew disks e.1) (filter_unique_disks disks)
      × ((k : String) (d : Device)
          → Among d disks
          → has_id k d ≡ true
          → (e : Device) × Among e disks
            × (has_id k e ≡ true)
            × (has_key (name_of e) (filter_unique_disks disks) ≡ true))
unfolding filter_unique_disks
filter_unique_disks-Covers disks =
    let m : DeviceMap = dedup disks [] in
    let entries : All (IsEntry disks) m = dedup-IsEntry disks disks [] (λ k d f g. g) tt in
    let inputs : All (λ (e : String × Device). IsDisk disks e.1) m =
      dedup-All (IsDisk disks) disks [] (All-Among disks disks (λ d a. a)) tt in
    (
      (filter_unique_disks-Distinct disks).0,
      (filter_unique_disks-Distinct disks).1,
      results_by_name-All (IsNew disks) m [] (IsEntry-IsNew disks m entries) tt,
      λ k d at own.
          let there = has_key-dedup k disks [] (inr (d, at, own)) in
          let (e, among, same) = entry_of disks k m there entries in
          (
            e.1,
            (All-at (λ (x : String × Device). IsDisk disks x.1) e m inputs among).0,
            same,
            has_key-results_by_name (name_of e.1) m [] (inr (e, among, refl)),
          ),
    )
