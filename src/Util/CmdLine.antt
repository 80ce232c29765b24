-- ===== src/Util/CmdLine.antt =====
-- pkg/util/cmdline.go: the kernel arguments (`ParseCmdLine`). The regular expression that cuts the
-- command line into its items is a parameter, and so is the tree of the package values of
-- rancher/mapper.
pub mod Gather
pub mod Interfaces
pub mod Stored
use harvester_installer.Prelude.{
  Bool, List, Option, Result, [], codes, eqb, err, if◌then◌else◌, map_ok, none, ok, parse_uint,
  some, ℕ, ◌++◌, ◌-◌, ◌>>=◌, ◌^◌, ◌∷◌,
}
use harvester_installer.Util.IfDetails.{
  Bytes, CmdError, IfDetails, bytes_eqb, invalid_version, not_a_string, parse_all, split_on,
  trim_quotes,
}

abbrev pub KeyPath : Type 0
KeyPath = List Bytes

-- What is at a path: a text, several, the details of the interfaces, a version, or a map.
pub data CmdValue : Type 0 where
  text : Bytes → CmdValue
  texts : List Bytes → CmdValue
  interfaces : List IfDetails → CmdValue
  version : ℕ → CmdValue
  submap : CmdValue

-- `strings.SplitN(item, "=", 2)`
unfoldable pub cut_at_equals : Bytes → Bytes × Option Bytes
cut_at_equals [] = ([], none)
cut_at_equals (c ∷ cs) =
    let (before, after) = cut_at_equals cs in
    if eqb c b'=' then ([], some cs) else (c ∷ before, after)

-- The value of an item.
unfoldable pub value_of : Bytes → Bytes
unfolding cut_at_equals trim_quotes
value_of item = elim (cut_at_equals item).1 [ none ↦ codes "true" | some v ↦ trim_quotes v ]

-- What is left of the path without the prefix, if it has it.
unfoldable pub without_prefix : Bytes → KeyPath → Option KeyPath
unfolding bytes_eqb
without_prefix [] keys = some keys
without_prefix (c ∷ cs) [] = none
without_prefix (c ∷ cs) (k ∷ keys) = if bytes_eqb k (c ∷ cs) then some keys else none

-- The path of an item, or none for an item that is passed over.
unfoldable pub path_of : Bytes → Bytes → Option KeyPath
unfolding without_prefix split_on cut_at_equals trim_quotes
path_of prefix item = without_prefix prefix (split_on b'.' (trim_quotes (cut_at_equals item).0))

abbrev pub interfaces_path : KeyPath
interfaces_path = codes "install" ∷ codes "management_interface" ∷ codes "interfaces" ∷ []

abbrev pub scheme_version_path : KeyPath
scheme_version_path = codes "scheme_version" ∷ []

-- `values.GetValue` and `values.PutValue`.
pub record Tree : Type 1 where
  pub Data : Type 0
  pub new : Data
  pub get_value : Data → KeyPath → Option CmdValue
  pub put_value : Data → CmdValue → KeyPath → Data

-- What a repeated argument makes of the value that is there, if it changes it.
unfoldable pub add_value : Option CmdValue → Bytes → Option CmdValue
add_value none v = some (text v)
add_value (some (text w)) v = some (texts (w ∷ v ∷ []))
add_value (some (texts ws)) v = some (texts (ws ++ v ∷ []))
add_value (some _) v = none

module _ (tree : Tree) where
  open tree use {Data, new, get_value, put_value}

  unfoldable pub put_if : Data → KeyPath → Option CmdValue → Data
  put_if args keys none = args
  put_if args keys (some v) = put_value args v keys

  unfoldable pub store : Data → KeyPath → Bytes → Data
  unfolding add_value put_if
  store args keys v = put_if args keys (add_value (get_value args keys) v)

  unfoldable pub store_at : Data → Option KeyPath → Bytes → Data
  unfolding store
  store_at args none v = args
  store_at args (some keys) v = store args keys v

  -- The loop over the items.
  unfoldable pub store_items : Bytes → Data → List Bytes → Data
  unfolding store_at path_of value_of
  store_items prefix args [] = args
  store_items prefix args (item ∷ items) =
      store_items prefix (store_at args (path_of prefix item) (value_of item)) items

  unfoldable pub put_interfaces : Data → Result CmdError (List IfDetails) → Result CmdError Data
  put_interfaces args ns = map_ok (λ found. put_value args (interfaces found) interfaces_path) ns

  unfoldable pub take_interfaces : (Bytes → Bool) → Data → Option CmdValue → Result CmdError Data
  unfolding parse_all put_interfaces
  take_interfaces is_mac_address args none = ok args
  take_interfaces is_mac_address args (some (text v)) =
      put_interfaces args (parse_all is_mac_address (v ∷ []))
  take_interfaces is_mac_address args (some (texts vs)) =
      put_interfaces args (parse_all is_mac_address vs)
  take_interfaces is_mac_address args (some _) = put_interfaces args (ok [])

  unfoldable pub to_network_interfaces : (Bytes → Bool) → Data → Result CmdError Data
  unfolding take_interfaces
  to_network_interfaces is_mac_address args =
      take_interfaces is_mac_address args (get_value args interfaces_path)

  unfoldable pub put_version : Data → Bytes → Option ℕ → Result CmdError Data
  put_version args v none = err (invalid_version v)
  put_version args v (some n) = ok (put_value args (version n) scheme_version_path)

  unfoldable pub take_version : Data → Option CmdValue → Result CmdError Data
  unfolding put_version parse_uint
  take_version args none = ok args
  take_version args (some (text v)) = put_version args v (parse_uint (2 ^ 32 - 1) v)
  take_version args (some _) = err not_a_string

  unfoldable pub to_scheme_version : Data → Result CmdError Data
  unfolding take_version
  to_scheme_version args = take_version args (get_value args scheme_version_path)

  -- The tree is also given back beside an error, which its caller does not read.
  unfoldable pub parse_cmd_line :
      (Bytes → Bool) → (Bytes → List Bytes) → Bytes → Bytes → Result CmdError Data
  unfolding store_items to_network_interfaces to_scheme_version
  parse_cmd_line is_mac_address find_all cmdline prefix =
      to_network_interfaces is_mac_address (store_items prefix new (find_all cmdline))
      >>= to_scheme_version
