-- ===== src/Tests/CmdLine.antt =====
-- Command lines of the tests of pkg/util/cmdline_test.go, with the tree as a list of puts.
use harvester_installer.Prelude.{
  Among, Bool, Bool-cases, List, [], ap, arith, codes, err, inl, inr, is_empty, is_empty_iff, none,
  not, ok, refl, some, true, ◌&&◌, ◌||◌, ◌∷◌, ◌≡◌,
}
use harvester_installer.Util.IfDetails.{
  Bytes, contains_byte, not_a_string, parse_if_details, trim_space,
}
use harvester_installer.Util.IfDetails.Fields.{
  Groups, bare_name, print_details, tagged_address, tagged_name,
}
use harvester_installer.Util.IfDetails.Print.{parse_if_details-print}
use harvester_installer.Util.CmdLine.{
  KeyPath, Tree, interfaces, interfaces_path, parse_cmd_line, path_of, scheme_version_path,
  store_items, texts, value_of,
}
use harvester_installer.Util.CmdLine.Gather.{
  AreApart, AreLeaves, Puts, last_put, leads_to, path_eqb, path_eqb_iff, paths_of, values_at,
}
use harvester_installer.Util.CmdLine.Interfaces.{parse_cmd_line-interfaces}
use harvester_installer.Util.CmdLine.Stored.{
  GetsLastPut, build, parse_cmd_line-repeated_version, store_items-gathered,
}

abbrev listed : Tree
listed = record {
  Data = Puts;
  new = [];
  get_value = λ puts p. last_put p puts;
  put_value = λ puts v p. (p, v) ∷ puts;
}

listed-build : (puts : Puts) → build listed puts ≡ puts
unfolding build
listed-build [] = refl
listed-build (put ∷ puts) = ap (λ t. put ∷ t) (listed-build puts)

listed-GetsLastPut : GetsLastPut listed
unfolding GetsLastPut
listed-GetsLastPut p puts leaves = ap (last_put p) (listed-build puts)

-- A check of the paths.
abbrev all_test : (KeyPath → Bool) → List KeyPath → Bool
all_test f [] = true
all_test f (p ∷ ps) = f p && all_test f ps

all_test-Among :
    (f : KeyPath → Bool) (p : KeyPath) (ps : List KeyPath)
    → all_test f ps ≡ true
    → Among p ps
    → f p ≡ true
all_test-Among f p [] h a = absurd a
all_test-Among f p (q ∷ qs) h (inl e) = ground (arith, ap f e)
all_test-Among f p (q ∷ qs) h (inr a) = ground (arith, all_test-Among f p qs)

are_apart : KeyPath → KeyPath → Bool
unfolding path_eqb leads_to
are_apart p q = path_eqb p q || (not (leads_to p q) && not (leads_to q p))

are_apart-AreApart : (p q : KeyPath) → are_apart p q ≡ true → AreApart p q
unfolding are_apart
are_apart-AreApart p q h = elim (Bool-cases (path_eqb p q)) [
  | inl e ↦ inl ((path_eqb_iff p q).0 e)
  | inr e ↦ inr (ground arith)
]

are_leaves : List KeyPath → Bool
unfolding are_apart
are_leaves ps = all_test (λ p. not (is_empty p) && all_test (are_apart p) ps) ps

are_leaves-AreLeaves : (ps : List KeyPath) → are_leaves ps ≡ true → AreLeaves ps
unfolding are_leaves
are_leaves-AreLeaves ps h p q a b =
    let both = all_test-Among (λ p. not (is_empty p) && all_test (are_apart p) ps) p ps h a in
    (
      (is_empty_iff p).0 (ground arith),
      are_apart-AreApart p q (all_test-Among (are_apart p) q ps (ground arith) b),
    )

abbrev items : List Bytes
items =
    codes "x"
    ∷ codes "harvester.a.b=true"
    ∷ codes "\"harvester.c=d\""
    ∷ codes "harvester.e"
    ∷ codes "harvester.f=1"
    ∷ codes "harvester.f=2"
    ∷ []

abbrev prefix : Bytes
prefix = codes "harvester"

gathered_two :
    last_put (codes "f" ∷ []) (store_items listed prefix [] items)
    ≡ some (texts (codes "1" ∷ codes "2" ∷ []))
unfolding store_items last_put
gathered_two = refl

store_items-gathered_example :
    last_put (codes "f" ∷ []) (store_items listed prefix [] items)
    ≡ some (texts (codes "1" ∷ codes "2" ∷ []))
unfolding values_at are_leaves path_of value_of
store_items-gathered_example =
    store_items-gathered listed prefix listed-GetsLastPut (codes "f" ∷ []) items
      (are_leaves-AreLeaves ((codes "f" ∷ []) ∷ paths_of prefix items) refl)

abbrev versions : List Bytes
versions = codes "harvester.scheme_version=1" ∷ codes "harvester.scheme_version=1" ∷ []

parse_cmd_line-repeated_version_example :
    parse_cmd_line listed (λ s. true) (λ s. versions) [] prefix ≡ err not_a_string
unfolding values_at are_leaves path_of value_of
parse_cmd_line-repeated_version_example =
    parse_cmd_line-repeated_version listed listed-GetsLastPut (λ s. true) (λ s. versions) [] prefix
      (codes "1") (codes "1") []
      (are_leaves-AreLeaves (interfaces_path ∷ scheme_version_path ∷ paths_of prefix versions) refl)
      refl refl

abbrev groups : Groups
groups = record {
  first = codes "be";
  second = codes "44";
  third = codes "8c";
  fourth = codes "b0";
  fifth = codes "5d";
  sixth = codes "f2";
}

-- The parts of the details: a tagged address, a name, and another name that is tagged.
parse_if_details-print_example :
    parse_if_details (λ s. true) (codes "hwAddr: be:44:8c:b0:5d:f2,ens3,name:ens4")
    ≡ ok (record { hw_addr = some (codes "be:44:8c:b0:5d:f2"); name = some (codes "ens4") })
unfolding print_details contains_byte trim_space
parse_if_details-print_example =
    parse_if_details-print (λ s. true) (tagged_address 1 groups)
      (bare_name (codes "ens3") ∷ tagged_name 0 (codes "ens4") ∷ [])
      (
        (
          (
            (λ e. cc, refl, refl, refl),
            (
              (λ e. cc, refl, refl, refl),
              (
                (λ e. cc, refl, refl, refl),
                (
                  (λ e. cc, refl, refl, refl),
                  ((λ e. cc, refl, refl, refl), ((λ e. cc, refl, refl, refl), tt)),
                ),
              ),
            ),
          ),
          refl,
        ),
        ((λ e. cc, refl, refl, refl), ((λ e. cc, refl, refl, refl), tt)),
      )

abbrev two_interfaces : List Bytes
two_interfaces =
    codes "harvester.install.management_interface.interfaces=\"hwAddr: be:44:8c:b0:5d:f2,ens3\""
    ∷ codes "harvester.os.hostname=node1"
    ∷ codes "harvester.install.management_interface.interfaces=name:ens5"
    ∷ []

parse_cmd_line-interfaces_example :
    (args : Puts) × (parse_cmd_line listed (λ s. true) (λ s. two_interfaces) [] prefix ≡ ok args)
    × (last_put interfaces_path args
        ≡ some (
            interfaces (
              record { hw_addr = some (codes "be:44:8c:b0:5d:f2"); name = some (codes "ens3") }
              ∷ record { hw_addr = none; name = some (codes "ens5") }
              ∷ [])))
unfolding values_at are_leaves path_of value_of print_details contains_byte trim_space
parse_cmd_line-interfaces_example =
    parse_cmd_line-interfaces listed listed-GetsLastPut (λ s. true) (λ s. two_interfaces) [] prefix
      (tagged_address 1 groups, bare_name (codes "ens3") ∷ [])
      ((tagged_name 0 (codes "ens5"), []) ∷ [])
      (
        (
          (
            (
              (λ e. cc, refl, refl, refl),
              (
                (λ e. cc, refl, refl, refl),
                (
                  (λ e. cc, refl, refl, refl),
                  (
                    (λ e. cc, refl, refl, refl),
                    ((λ e. cc, refl, refl, refl), ((λ e. cc, refl, refl, refl), tt)),
                  ),
                ),
              ),
            ),
            refl,
          ),
          ((λ e. cc, refl, refl, refl), tt),
        ),
        (((λ e. cc, refl, refl, refl), tt), tt),
      )
      (are_leaves-AreLeaves (interfaces_path ∷ scheme_version_path ∷ paths_of prefix two_interfaces)
        refl)
      refl refl
