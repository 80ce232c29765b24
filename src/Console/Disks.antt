-- ===== src/Console/Disks.antt =====
-- The disks that the installer offers: `DiskOptionsCache` and what it calls in
-- pkg/console/util.go. What lsblk prints, once read as JSON, is a parameter, and so is every disk in
-- it. A Go map is the list of its entries in the order of insertion, one of the orders in which an
-- iteration may find them.
pub mod Wipe
pub mod Unique
pub mod Covered
pub mod Options
use Prim.Native.Char.{code}
use mathlib.Core.Option
use harvester_installer.Prelude.{
  Bool, List, Option, Result, String, [], concat_text, eqb, false, if◌then◌else◌, none, not, ok,
  some, sort_texts, true, ◌&&◌, ◌++◌, ◌==◌, ◌>>=◌, ◌>>◌, ◌||◌, ◌∷◌,
}
use harvester_installer.Config.Types.{HarvesterConfig}

-- `Device`, and the slice of a device's children.
mutual
  pub data Device : Type 0 where
    device : String → String → String → String → String → String → Devices → Device

  pub data Devices : Type 0 where
    nil : Devices
    cons : Device → Devices → Devices

abbrev pub name_of : Device → String
name_of (device n _ _ _ _ _ _) = n

abbrev pub size_of : Device → String
size_of (device _ s _ _ _ _ _) = s

abbrev pub disk_type : Device → String
disk_type (device _ _ t _ _ _ _) = t

abbrev pub wwn_of : Device → String
wwn_of (device _ _ _ w _ _ _) = w

abbrev pub serial_of : Device → String
serial_of (device _ _ _ _ s _ _) = s

abbrev pub label_of : Device → String
label_of (device _ _ _ _ _ l _) = l

-- The entries of a `map[string]Device`.
abbrev pub DeviceMap : Type 0
DeviceMap = List (String × Device)

unfoldable pub has_key : String → DeviceMap → Bool
has_key k [] = false
has_key k ((j, d) ∷ m) = j == k || has_key k m

-- `m[k] = d`
unfoldable pub put : String → Device → DeviceMap → DeviceMap
put k d [] = (k, d) ∷ []
put k d ((j, e) ∷ m) = if j == k then (k, d) ∷ m else (j, e) ∷ put k d m

-- `if _, ok := m[k]; !ok { m[k] = d }`
unfoldable pub put_new : String → Device → DeviceMap → DeviceMap
put_new k d m = if has_key k m then m else put k d m

-- One round of the loop over the disks.
unfoldable pub dedup_step : Device → DeviceMap → DeviceMap
dedup_step d m =
    if disk_type d == "disk"
    then (if wwn_of d == "" && serial_of d == ""
        then put (name_of d) d m
        else let by_serial = if serial_of d == "" then m else put_new (serial_of d) d m in
          if wwn_of d == "" then by_serial else put_new (wwn_of d) d by_serial)
    else m

unfoldable pub dedup : List Device → DeviceMap → DeviceMap
dedup [] m = m
dedup (d ∷ ds) m = dedup ds (dedup_step d m)

-- `resultMap[v.Name] = v` for each entry.
unfoldable pub results_by_name : DeviceMap → DeviceMap → DeviceMap
results_by_name [] r = r
results_by_name ((k, d) ∷ m) r = results_by_name m (put (name_of d) d r)

unfoldable pub filter_unique_disks : List Device → DeviceMap
filter_unique_disks disks = results_by_name (dedup disks []) []

-- The first child that is a multipath device decides.
unfoldable mutual
  pub device_contains_cos_partition : Device → Bool
  device_contains_cos_partition (device _ _ _ _ _ _ children) =
      children_contain_cos_partition children

  pub children_contain_cos_partition : Devices → Bool
  children_contain_cos_partition nil = false
  children_contain_cos_partition (cons d ds) =
      if disk_type d == "mpath"
      then device_contains_cos_partition d
      else if disk_type d == "part" && label_of d == "COS_OEM"
      then true
      else children_contain_cos_partition ds

unfoldable pub generate_disk_entry : Device → String
generate_disk_entry d = concat_text (name_of d) (concat_text " " (size_of d))

pub record WidgetOption : Type 0 where
  pub value : String
  pub text : String

-- `strings.SplitN(line, " ", 2)`, where it gives two parts.
unfoldable pub split_space : String → Option (String × String)
split_space String.[] = none
split_space (String.◌∷◌ c s) =
    if eqb (code c) b' '
    then some ("", s)
    else Option.map (λ p. (String.◌∷◌ c p.0, p.1)) (split_space s)

abbrev pub option_of : String → Option (String × String) → List WidgetOption
option_of line none = []
option_of line (some (first, rest)) = record { value = concat_text "/dev/" first; text = line } ∷ []

unfoldable pub generate_disk_widget_options : List String → List WidgetOption
generate_disk_widget_options [] = []
generate_disk_widget_options (line ∷ lines) =
    option_of line (split_space line) ++ generate_disk_widget_options lines

pub record DiskOptionsCache : Type 0 where
  pub disk_options : List WidgetOption
  pub hvst_installed_disk_options : List WidgetOption

-- The entries of the disks, and of those among them that hold an installation.
unfoldable pub disk_entries : DeviceMap → List String
disk_entries [] = []
disk_entries ((k, d) ∷ m) = generate_disk_entry d ∷ disk_entries m

unfoldable pub installed_entries : DeviceMap → List String
installed_entries [] = []
installed_entries ((k, d) ∷ m) =
    let rest = installed_entries m in
    if device_contains_cos_partition d then generate_disk_entry d ∷ rest else rest

-- A failure of lsblk leaves the cache as it was.
unfoldable pub refresh :
    Result String (List Device) → DiskOptionsCache → Result String DiskOptionsCache
refresh lsblk cache = do
  disks ← lsblk
  let result_map = filter_unique_disks disks
  ok (record {
    disk_options = generate_disk_widget_options (sort_texts (disk_entries result_map));
    hvst_installed_disk_options =
        generate_disk_widget_options (sort_texts (installed_entries result_map));
  })

unfoldable pub use_installation_disk : WidgetOption → WidgetOption
use_installation_disk o = record o {
  text = concat_text "Use the installation disk (" (concat_text o.text ")");
}

-- The loop over `diskOpts`: `before` are the options that were passed.
unfoldable pub move_to_front :
    String → List WidgetOption → List WidgetOption → Option (List WidgetOption)
move_to_front device_for_os before [] = none
move_to_front device_for_os before (o ∷ os) =
    let rest = move_to_front device_for_os (before ++ o ∷ []) os in
    if o.value == device_for_os then some (use_installation_disk o ∷ (before ++ os)) else rest

-- With no device chosen, `diskOpts[0]` is read: `none` is the panic on an empty list.
unfoldable pub first_as_default : List WidgetOption → Option (List WidgetOption)
first_as_default [] = none
first_as_default (o ∷ os) = some (use_installation_disk o ∷ os)

-- `nil` of the last line is the empty list.
unfoldable pub or_nil : Option (List WidgetOption) → List WidgetOption
or_nil none = []
or_nil (some os) = os

unfoldable pub get_data_disk_options :
    DiskOptionsCache → HarvesterConfig → Option (List WidgetOption)
get_data_disk_options cache c =
    if c.install.device == ""
    then first_as_default cache.disk_options
    else some (or_nil (move_to_front c.install.device [] cache.disk_options))

unfoldable pub keep_for_wipe : HarvesterConfig → List WidgetOption → List WidgetOption
keep_for_wipe c [] = []
keep_for_wipe c (v ∷ vs) =
    let rest = keep_for_wipe c vs in
    if not (v.value == c.install.device) && not (v.value == c.install.data_disk)
    then v ∷ rest
    else rest

unfoldable pub get_wipe_disks_options : DiskOptionsCache → HarvesterConfig → List WidgetOption
get_wipe_disks_options cache c = keep_for_wipe c cache.hvst_installed_disk_options
