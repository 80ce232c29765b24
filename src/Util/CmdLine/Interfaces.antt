-- ===== src/Util/CmdLine/Interfaces.antt =====
-- pkg/util/cmdline.go: the interfaces of the management network, from the arguments to the tree.
use harvester_installer.Prelude.{
  All, Among, Bool, List, [], ap, inl, inr, map, none, ok, refl, some, ◌>>=◌, ◌∙◌, ◌∷◌, ◌≡◌,
}
use harvester_installer.Util.IfDetails.{Bytes, IfDetails, bytes_eqb, no_details, parse_all}
use harvester_installer.Util.IfDetails.Fields.{Field, IsField, all_written, print_details}
use harvester_installer.Util.IfDetails.Print.{parse_if_details-print}
use harvester_installer.Util.CmdLine.{
  CmdValue, KeyPath, Tree, interfaces, interfaces_path, parse_cmd_line, put_interfaces,
  scheme_version_path, take_interfaces, take_version, to_network_interfaces, to_scheme_version,
}
use harvester_installer.Util.CmdLine.Gather.{
  AreLeaves, Puts, extended-gathered, gathered, last_put, last_put-record_items, path_eqb, paths_of,
  record_items, values_at,
}
use harvester_installer.Util.CmdLine.Stored.{
  GetsLastPut, IsWithin, build, put_paths, store_items-build,
}

-- The fields of an interface: one, and those behind it.
abbrev pub Fields : Type 0
Fields = Field × List Field

abbrev pub fields_of : Fields → List Field
fields_of (f, fs) = f ∷ fs

abbrev pub print_all : List Fields → List Bytes
print_all = map (λ d. print_details (fields_of d))

abbrev pub details_of : List Fields → List IfDetails
details_of = map (λ d. all_written (fields_of d) no_details)

parse_all-print :
    (is_mac_address : Bytes → Bool) (ds : List Fields)
    → All (λ d. All (IsField is_mac_address) (fields_of d)) ds
    → parse_all is_mac_address (print_all ds) ≡ ok (details_of ds)
unfolding parse_all
parse_all-print is_mac [] h = refl
parse_all-print is_mac ((f, fs) ∷ ds) h =
    rw (parse_if_details-print is_mac f fs h.0, parse_all-print is_mac ds h.1) refl

take_interfaces-gathered :
    (tree : Tree) (is_mac_address : Bytes → Bool) (args : tree.Data) (v : Bytes) (vs : List Bytes)
    → take_interfaces tree is_mac_address args (gathered (v ∷ vs))
      ≡ put_interfaces tree args (parse_all is_mac_address (v ∷ vs))
unfolding take_interfaces
take_interfaces-gathered tree is_mac args v [] = refl
take_interfaces-gathered tree is_mac args v (w ∷ vs) = refl

same_path-Among :
    (ps : List KeyPath) (p : KeyPath) (qs : List KeyPath)
    → Among p ps
    → IsWithin qs ps
    → IsWithin (p ∷ qs) ps
same_path-Among ps p qs here within q (inl e) = rw e here
same_path-Among ps p qs here within q (inr a) = within q a

module _ (tree : Tree) (gets : GetsLastPut tree) (ps : List KeyPath) (leaves : AreLeaves ps) where
  get_value-build :
      (p : KeyPath) (puts : Puts)
      → Among p ps
      → IsWithin (put_paths puts) ps
      → tree.get_value (build tree puts) p ≡ last_put p puts
  unfolding GetsLastPut
  get_value-build p puts here within =
      let sub = same_path-Among ps p (put_paths puts) here within in
      gets p puts (λ q r a b. leaves q r (sub q a) (sub r b))

last_put-gathered :
    (prefix : Bytes) (p : KeyPath) (items vs : List Bytes)
    → values_at prefix p items ≡ vs
    → last_put p (record_items prefix [] items) ≡ gathered vs
unfolding last_put
last_put-gathered prefix p items vs e =
    last_put-record_items prefix p [] items
    ∙ extended-gathered (values_at prefix p items)
    ∙ ap gathered e

-- The interfaces that are printed as the arguments of a command line, one or more, arrive in the
-- tree in their order, with the last address and the last name of each, and ParseCmdLine returns no
-- error. The fields are those that `parse_if_details` reads back, the command line has no version of
-- the scheme, the paths of the items are paths of leaves, and the tree holds at a leaf what was put
-- last.
pub parse_cmd_line-interfaces :
    (tree : Tree)
    → GetsLastPut tree
    → (is_mac_address : Bytes → Bool) (find_all : Bytes → List Bytes) (cmdline prefix : Bytes)
      (d : Fields) (ds : List Fields)
    → All (λ i. All (IsField is_mac_address) (fields_of i)) (d ∷ ds)
    → AreLeaves (interfaces_path ∷ scheme_version_path ∷ paths_of prefix (find_all cmdline))
    → values_at prefix interfaces_path (find_all cmdline) ≡ print_all (d ∷ ds)
    → values_at prefix scheme_version_path (find_all cmdline) ≡ []
    → (args : tree.Data) × (parse_cmd_line tree is_mac_address find_all cmdline prefix ≡ ok args)
      × (tree.get_value args interfaces_path ≡ some (interfaces (details_of (d ∷ ds))))
unfolding parse_cmd_line to_network_interfaces to_scheme_version take_version put_interfaces build
    last_put path_eqb bytes_eqb
parse_cmd_line-interfaces tree gets is_mac find_all cmdline prefix d ds valid leaves printed
      no_version =
    let items : List Bytes = find_all cmdline in
    let ps : List KeyPath = interfaces_path ∷ scheme_version_path ∷ paths_of prefix items in
    let puts : Puts = record_items prefix [] items in
    let found : CmdValue = interfaces (details_of (d ∷ ds)) in
    let before : tree.Data = build tree puts in
    let after : tree.Data = tree.put_value before found interfaces_path in
    let (built, within) =
      store_items-build tree prefix gets ps leaves [] items (λ q a. absurd a)
        (λ q a. inr (inr a)) in
    let within_after : IsWithin (put_paths ((interfaces_path, found) ∷ puts)) ps =
      same_path-Among ps interfaces_path (put_paths puts) (inl refl) within in
    let given : tree.get_value before interfaces_path ≡ gathered (print_all (d ∷ ds)) =
      get_value-build tree gets ps leaves interfaces_path puts (inl refl) within
      ∙ last_put-gathered prefix interfaces_path items (print_all (d ∷ ds)) printed in
    let unversioned : tree.get_value after scheme_version_path ≡ none =
      get_value-build tree gets ps leaves scheme_version_path ((interfaces_path, found) ∷ puts)
        (inr (inl refl)) within_after
      ∙ last_put-gathered prefix scheme_version_path items [] no_version in
    let taken : take_interfaces tree is_mac before (gathered (print_all (d ∷ ds))) ≡ ok after =
      take_interfaces-gathered tree is_mac before (print_details (fields_of d)) (print_all ds)
      ∙ ap (put_interfaces tree before) (parse_all-print is_mac (d ∷ ds) valid) in
    (
      after,
      ap
            (λ s.
              take_interfaces tree is_mac s (tree.get_value s interfaces_path)
              >>= to_scheme_version tree)
            built
          ∙ ap (λ o. take_interfaces tree is_mac before o >>= to_scheme_version tree) given
          ∙ ap (λ m. m >>= to_scheme_version tree) taken
          ∙ ap (take_version tree after) unversioned,
      get_value-build tree gets ps leaves interfaces_path ((interfaces_path, found) ∷ puts)
          (inl refl) within_after,
    )
